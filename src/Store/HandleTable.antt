-- ===== src/Store/HandleTable.antt =====
-- HandleTable of store/lru_cache.h and lru_cache.cc: a chained hash table of pointers to entries.
-- A bucket is the list of its chain. A node keeps the entry's pointer beside its hash and its key,
-- which no operation changes once the entry is made. Allocation succeeds.
pub mod Chain
pub mod Placed
pub mod Rehash
pub mod Moves
pub mod Map
pub mod Insert
pub mod Remove
use tenann.Prelude.{
  ℕ, zero, suc, ◌+◌, ◌-◌, ◌*◌, ◌%◌, bit_and, Bool, ◌&&◌, Option, none, some, List, [], ◌∷◌, length,
  get_or, set, replicate, ◌==◌, ltb, if◌then◌else◌, check, ◌>>◌, ◌>>=◌,
}
use tenann.Store.CacheKey.{CacheKey, key_eq, u32_mod}

pub record Node : Type 0 where
  pub hash : ℕ
  pub key : CacheKey
  pub ptr : ℕ

abbrev pub Chain : Type 0
Chain = List Node

pub record HandleTable : Type 0 where
  pub length : ℕ
  pub elems : ℕ
  pub list : List Chain

-- The test that ends the walk of `_find_pointer`: equal hashes, and equal keys.
abbrev pub same : CacheKey → ℕ → CacheKey → ℕ → Bool
same key hash key' hash' = hash' == hash && key_eq key key'

abbrev pub matches : CacheKey → ℕ → Node → Bool
matches key hash n = same key hash n.key n.hash

-- What `_find_pointer` stops at: the entry of a chain that has the key and the hash, if any.
unfoldable pub chain_find : CacheKey → ℕ → Chain → Option ℕ
chain_find key hash [] = none
chain_find key hash (n ∷ ns) = if matches key hash n then some n.ptr else chain_find key hash ns

-- The write through the pointer that `_find_pointer` returns: over the match, or at the end.
unfoldable pub chain_insert : Node → Chain → Chain
chain_insert h [] = h ∷ []
chain_insert h (n ∷ ns) = if matches h.key h.hash n then h ∷ ns else n ∷ chain_insert h ns

unfoldable pub chain_remove : CacheKey → ℕ → Chain → Chain
chain_remove key hash [] = []
chain_remove key hash (n ∷ ns) = if matches key hash n then ns else n ∷ chain_remove key hash ns

-- `hash & (length - 1)`, for a length that is not 0.
abbrev pub index : ℕ → ℕ → ℕ
index hash len = bit_and hash (len - 1)

abbrev pub bucket : ℕ → ℕ → List Chain → Chain
bucket hash len list = get_or list (index hash len) []

unfoldable pub lookup : CacheKey → ℕ → HandleTable → Option ℕ
unfolding chain_find
lookup key hash t = chain_find key hash (bucket hash t.length t.list)

-- The loop that doubles the new length. Each round takes one unit of fuel.
unfoldable pub grow : ℕ → ℕ → ℕ → Option ℕ
grow zero elems new_length = none
grow (suc fuel) elems new_length =
    let rest = grow fuel elems (new_length * 2 % u32_mod) in
    if ltb new_length elems then rest else some new_length

-- One entry goes to the front of its new chain.
unfoldable pub push : ℕ → Node → List Chain → List Chain
push len h new_list = set new_list (index h.hash len) (h ∷ bucket h.hash len new_list)

-- The walk over one old chain, and the loop over the old buckets.
unfoldable pub push_chain : ℕ → Chain → List Chain → List Chain
unfolding push
push_chain len [] new_list = new_list
push_chain len (h ∷ hs) new_list = push_chain len hs (push len h new_list)

unfoldable pub push_list : ℕ → List Chain → List Chain → List Chain
push_list len [] new_list = new_list
push_list len (c ∷ cs) new_list = push_list len cs (push_chain len c new_list)

-- The entries that the two loops meet.
unfoldable pub count_list : List Chain → ℕ
count_list [] = 0
count_list (c ∷ cs) = length c + count_list cs

-- 31 doublings of 4 leave 32 bits, so 32 units of fuel see every value that the loop can take.
unfoldable pub resize : HandleTable → Option HandleTable
resize t = do
  new_length ← grow 32 t.elems 4
  let new_list = push_list new_length t.list (replicate new_length [])
  check (t.elems == count_list t.list % u32_mod)
  some (record { length = new_length; elems = t.elems; list = new_list })

-- The constructor.
unfoldable pub empty : Option HandleTable
empty = resize (record { length = 0; elems = 0; list = [] })

-- The new table and the entry that had the key before.
unfoldable pub insert : Node → HandleTable → Option (HandleTable × Option ℕ)
insert h t =
    let old = lookup h.key h.hash t in
    let list =
      set t.list (index h.hash t.length) (chain_insert h (bucket h.hash t.length t.list)) in
    elim old [
      | some p ↦ some (record t { list = list }, some p)
      | none ↦
          let t' : HandleTable = record t { elems = (t.elems + 1) % u32_mod; list = list } in
          let grown = (do t'' ← resize t'; some (t'', none)) in
          if ltb t'.length t'.elems then grown else some (t', none)
    ]

unfoldable pub remove : CacheKey → ℕ → HandleTable → HandleTable × Option ℕ
remove key hash t = elim (lookup key hash t) [
  | none ↦ (t, none)
  | some p ↦ (
    record t {
      elems = (t.elems + u32_mod - 1) % u32_mod;
      list = set t.list (index hash t.length) (chain_remove key hash (bucket hash t.length t.list));
    },
    some p,
  )
]
