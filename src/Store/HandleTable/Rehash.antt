-- ===== src/Store/HandleTable/Rehash.antt =====
-- `_resize`: the loop that finds the new length ends, and moving the entries keeps every lookup.
use native.Mathlib.Nat.{pow-suc}
use tenann.Prelude.Mask.{bit_and-lt}
use tenann.Prelude.{
  ℕ, zero, suc, ◌-◌, ◌*◌, ◌^◌, ◌<◌, ◌≤◌, ◌≡◌, ◌⊎◌, refl, Option, none, some, List, [], ◌∷◌, length,
  get_or, get_or-cons, ap, length-set, get_or-set, arith, ltb, Bool-cases, inl, inr, ◌∙◌, ◌%◌,
  if◌then◌else◌,
}
use tenann.Store.CacheKey.{CacheKey, u32_mod}
use tenann.Store.HandleTable.{
  Node, Chain, index, bucket, matches, chain_find, grow, push, push_chain, push_list,
}
use tenann.Store.HandleTable.Placed.{Placed}
use tenann.Store.HandleTable.Chain.{Uniq, AtIndex, chain_find_absent, chain_find-same, same-hash_eq}

grow-suc :
    (f elems n : ℕ)
    → grow (suc f) elems n ≡ (if ltb n elems then grow f elems (n * 2 % u32_mod) else some n)
unfolding grow
grow-suc f elems n = ground arith

-- Within the fuel the loop stops, at the first doubling that is not below `elems`, and it never
-- leaves 32 bits.
pub grow-total :
    (f elems n : ℕ)
    → 0 < n
    → n < u32_mod
    → elems ≤ 2 ^ 31
    → 2 ^ 31 ≤ n * 2 ^ f
    → (m : ℕ) × (grow (suc f) elems n ≡ some m)
      × (elems ≤ m)
      × (n ≤ m)
      × (m < u32_mod)
      × ((m ≡ n) ⊎ (m < 2 * elems))
grow-total zero elems n pos bound few big =
    let big' : 2 ^ 31 ≤ n = omega arith in
    (n, rw grow-suc (ground arith), omega arith, omega arith, bound, inl refl)
grow-total (suc f) elems n pos bound few big = elim (Bool-cases (ltb n elems)) [
  | inl more ↦
      let small : n < elems = ground arith in
      let e : n * 2 % u32_mod ≡ n * 2 = omega arith in
      let (m, stops, enough, above, fits, tight) =
        grow-total f elems (n * 2) (omega arith) (omega arith) few
          (omega (arith, ap (λ (t : ℕ). n * t) (pow-suc 2 f))) in
      (
        m,
        ground (arith, grow-suc (suc f) elems n, stops),
        enough,
        omega arith,
        fits,
        inr (omega arith),
      )
  | inr done ↦ (n, rw (grow-suc, done), ground arith, omega arith, bound, inl refl)
]

-- A search in the array of buckets.
abbrev pub find_in : CacheKey → ℕ → ℕ → List Chain → Option ℕ
find_in k h len list = chain_find k h (bucket h len list)

-- What a search for the key finds after a push: the new node if it has the key.
pub find_in-push :
    (k : CacheKey) (h len : ℕ) (n : Node) (acc : List Chain)
    → 0 < len
    → length acc ≡ len
    → find_in k h len (push len n acc) ≡ (if matches k h n then some n.ptr else find_in k h len acc)
unfolding push chain_find
find_in-push k h len n acc pos sized = ground (
  arith,
  get_or-set acc (index n.hash len) (index h len) (n ∷ bucket n.hash len acc) [],
  bit_and-lt n.hash len,
  same-hash_eq k h n.key n.hash,
)

pub length-push : (len : ℕ) (n : Node) (acc : List Chain) → length (push len n acc) ≡ length acc
unfolding push
length-push len n acc = length-set acc _ _

find_in-push_chain :
    (k : CacheKey) (h len : ℕ) (ns : Chain) (acc : List Chain)
    → 0 < len
    → length acc ≡ len
    → Uniq ns
    → find_in k h len (push_chain len ns acc)
      ≡ elim (chain_find k h ns) [ none ↦ find_in k h len acc | some p ↦ some p ]
unfolding push_chain chain_find
find_in-push_chain k h len [] acc pos sized u = refl
find_in-push_chain k h len (n ∷ ns) acc pos sized u = ground (
  arith,
  find_in-push_chain k h len ns (push len n acc) pos,
  length-push len n acc,
  find_in-push k h len n acc pos sized,
  chain_find-same k h n.key n.hash ns,
)

pub length-push_chain :
    (len : ℕ) (ns : Chain) (acc : List Chain) → length (push_chain len ns acc) ≡ length acc
unfolding push_chain
length-push_chain len [] acc = refl
length-push_chain len (n ∷ ns) acc =
    length-push_chain len ns (push len n acc) ∙ length-push len n acc

-- A chain at bucket `i` leaves the keys of the later buckets alone.
pub fresh-push_chain :
    (k : CacheKey) (h old len i : ℕ) (c : Chain) (acc : List Chain)
    → 0 < len
    → length acc ≡ len
    → AtIndex old i c
    → Uniq c
    → (i ≤ index h old → find_in k h len acc ≡ none)
    → suc i ≤ index h old
    → find_in k h len (push_chain len c acc) ≡ none
fresh-push_chain k h old len i c acc pos sized a u fresh above = ground (
  arith,
  find_in-push_chain k h len c acc pos sized u,
  chain_find_absent old i k h c (omega arith) a,
  fresh (omega arith),
)

-- After the move a search finds what the old bucket held.
pub find_in-push_list :
    (k : CacheKey) (h old len i : ℕ) (cs acc : List Chain)
    → 0 < len
    → length acc ≡ len
    → Placed old i cs
    → (i ≤ index h old → find_in k h len acc ≡ none)
    → find_in k h len (push_list len cs acc) ≡ (
        if ltb (index h old) i
        then find_in k h len acc
        else chain_find k h (get_or cs (index h old - i) []))
unfolding push_list chain_find
find_in-push_list k h old len i [] acc pos sized placed fresh = ground arith
find_in-push_list k h old len i (c ∷ cs) acc pos sized placed fresh =
    let acc' = push_chain len c acc in
    let rest =
      find_in-push_list k h old len (suc i) cs acc' pos (length-push_chain len c acc ∙ sized)
        placed.2 (fresh-push_chain k h old len i c acc pos sized placed.0 placed.1 fresh) in
    ground (
      arith,
      find_in-push_chain k h len c acc pos sized placed.1,
      rest,
      chain_find_absent old i k h c,
      fresh,
      get_or-cons c cs (index h old - i) [],
    )
