-- ===== src/Store/LruCache.antt =====
-- LRUHandle and LRUCache of store/lru_cache.h and lru_cache.cc, one shard of the cache. A call is
-- one critical section. The LRU list holds addresses, oldest first (`_lru.next` is its head). A
-- result `none` is a call that faults: a read of memory that is not allocated, the removal of an
-- entry that is on no list, or a failed T_DCHECK or T_LOG(FATAL).
pub mod Invariant
pub mod Update
pub mod Evict
pub mod Frame
pub mod Victims
pub mod EvictNormal
pub mod EvictDurable
pub mod EvictFromLru
pub mod FreeAll
pub mod Capacity
pub mod Lookup
pub mod Release
pub mod Unlink
pub mod Erase
pub mod Publish
pub mod Replace
pub mod Insert
pub mod RoundTrip
pub mod Reheld
pub mod Stays
pub mod Kept
pub mod Client
use tenann.Prelude.{
  ℕ, zero, suc, ◌+◌, ◌-◌, ◌%◌, ◌^◌, Bool, true, false, ◌&&◌, Option, none, some, List, [], ◌∷◌,
  ◌++◌, ◌==◌, ltb, if◌then◌else◌, check, ◌>>◌, ◌>>=◌, count, erase, length, get_elem?,
}
use tenann.Store.CacheKey.{CacheKey, u32_mod}
use tenann.Store.Heap.{get, set, free}
use tenann.Store.HandleTable
use tenann.Store.HandleTable.{HandleTable}

pub data CachePriority : Type 0 where
  normal durable : CachePriority

pub record LruHandle : Type 0 where
  pub value : ℕ
  pub deleter : ℕ
  pub charge : ℕ
  pub key : CacheKey
  pub in_cache : Bool
  pub refs : ℕ
  pub hash : ℕ
  pub priority : CachePriority

-- A call `(*deleter)(key(), value)`.
pub record DeleterCall : Type 0 where
  pub deleter : ℕ
  pub key : CacheKey
  pub value : ℕ

-- `heap` holds the entries that are allocated; `freed` lists the calls of their deleters so far.
pub record LruCache : Type 0 where
  pub capacity : ℕ
  pub usage : ℕ
  pub lru : List ℕ
  pub table : HandleTable
  pub lookup_count : ℕ
  pub hit_count : ℕ
  pub heap : List (ℕ × LruHandle)
  pub freed : List DeleterCall

abbrev pub u64_mod : ℕ
u64_mod = 2 ^ 64

abbrev pub add64 : ℕ → ℕ → ℕ
add64 a b = (a + b) % u64_mod

abbrev pub sub64 : ℕ → ℕ → ℕ
sub64 a b = (a + u64_mod - b % u64_mod) % u64_mod

abbrev pub is_durable : CachePriority → Bool
is_durable durable = true
is_durable normal = false

-- The constructor.
unfoldable pub init : Option LruCache
init = do
  table ← HandleTable.empty
  some (record {
    capacity = 0;
    usage = 0;
    lru = [];
    table = table;
    lookup_count = 0;
    hit_count = 0;
    heap = [];
    freed = [];
  })

-- `_unref`: the entry with one reference less.
unfoldable pub unref : LruHandle → Option LruHandle
unref e = do check (ltb 0 e.refs); some (record e { refs = e.refs - 1 })

-- `_unref` has returned true.
abbrev pub last_ref : LruHandle → Bool
last_ref e = e.refs == 0

-- `_lru_remove`; an entry that is on no list has null links.
unfoldable pub lru_remove : ℕ → List ℕ → Option (List ℕ)
lru_remove p list = do check (ltb 0 (count p list)); some (erase p list)

-- `_lru_append`: just before the dummy head.
abbrev pub lru_append : ℕ → List ℕ → List ℕ
lru_append p list = list ++ p ∷ []

abbrev pub deleter_call : LruHandle → DeleterCall
deleter_call e = record { deleter = e.deleter; key = e.key; value = e.value }

-- `LRUHandle::free`: the deleter runs and the memory is given back.
unfoldable pub free_one : ℕ → LruCache → Option LruCache
free_one p s = do
  e ← get p s.heap
  some (record s { heap = free p s.heap; freed = s.freed ++ deleter_call e ∷ [] })

-- The loop that frees the entries of `last_ref_list`.
unfoldable pub free_all : List ℕ → LruCache → Option LruCache
free_all [] s = some s
free_all (p ∷ ps) s = do s' ← free_one p s; free_all ps s'

-- `_evict_one_entry`.
unfoldable pub evict_one_entry : ℕ → LruCache → Option LruCache
unfolding lru_remove unref
evict_one_entry p s = do
  e ← get p s.heap
  check e.in_cache
  check (e.refs == 1)
  lru ← lru_remove p s.lru
  let (table, _) = HandleTable.remove e.key e.hash s.table
  e' ← unref (record e { in_cache = false })
  some (record s {
    lru = lru;
    table = table;
    heap = set p e' s.heap;
    usage = sub64 s.usage e.charge;
  })

-- `_usage + charge > _capacity`.
abbrev pub over : ℕ → LruCache → Bool
over charge s = ltb s.capacity (add64 s.usage charge)

-- The first loop of `_evict_from_lru`: `cur` stands behind `skipped` entries. The evicted entries
-- are added to `deleted`. Each round takes one unit of fuel.
unfoldable pub evict_normal : ℕ → ℕ → ℕ → LruCache → List ℕ → Option (LruCache × List ℕ)
evict_normal zero charge skipped s deleted = none
evict_normal (suc fuel) charge skipped s deleted =
    let next : Option (LruCache × List ℕ) = elim (get_elem? s.lru skipped) [
      | none ↦ some (s, deleted)
      | some p ↦ do
        e ← get p s.heap
        let skip = evict_normal fuel charge (skipped + 1) s deleted
        let evict = (do
          s' ← evict_one_entry p s
          evict_normal fuel charge skipped s' (deleted ++ p ∷ []))
        if is_durable e.priority then skip else evict
    ] in
    if over charge s then next else some (s, deleted)

-- The second loop: the oldest entry goes, which must be durable.
unfoldable pub evict_durable : ℕ → ℕ → LruCache → List ℕ → Option (LruCache × List ℕ)
evict_durable zero charge s deleted = none
evict_durable (suc fuel) charge s deleted =
    let next : Option (LruCache × List ℕ) = elim (get_elem? s.lru 0) [
      | none ↦ some (s, deleted)
      | some p ↦ do
        e ← get p s.heap
        check (is_durable e.priority)
        s' ← evict_one_entry p s
        evict_durable fuel charge s' (deleted ++ p ∷ [])
    ] in
    if over charge s then next else some (s, deleted)

-- A round passes or removes an entry of the list, so one more unit than entries is enough.
unfoldable pub evict_from_lru : ℕ → LruCache → Option (LruCache × List ℕ)
evict_from_lru charge s = do
  (s', deleted) ← evict_normal (suc (length s.lru)) charge 0 s []
  evict_durable (suc (length s'.lru)) charge s' deleted

unfoldable pub set_capacity : ℕ → LruCache → Option LruCache
set_capacity capacity s = do
  (s', last_ref_list) ← evict_from_lru 0 (record s { capacity = capacity })
  free_all last_ref_list s'

-- The found entry, with one reference more for the caller.
unfoldable pub lookup : CacheKey → ℕ → LruCache → Option (LruCache × Option ℕ)
unfolding lru_remove
lookup key hash s =
    let counted : LruCache = record s { lookup_count = add64 s.lookup_count 1 } in
    elim (HandleTable.lookup key hash s.table) [
      | none ↦ some (counted, none)
      | some p ↦ do
        e ← get p s.heap
        check e.in_cache
        lru ← if e.refs == 1 then lru_remove p s.lru else some s.lru
        some (
          record counted {
            lru = lru;
            hit_count = add64 s.hit_count 1;
            heap = set p (record e { refs = (e.refs + 1) % u32_mod }) s.heap;
          },
          some p,
        )
    ]

-- The branches of `release` below the lock, for the entry after `_unref`.
unfoldable pub release_kept : ℕ → LruHandle → LruCache → Option (LruCache × Bool)
unfolding unref
release_kept p e s =
    let kept : LruCache = record s { heap = set p e s.heap } in
    let evict = (do
      let (table, _) = HandleTable.remove e.key e.hash s.table
      e' ← unref (record e { in_cache = false })
      some (
        record s { table = table; heap = set p e' s.heap; usage = sub64 s.usage e.charge },
        true,
      )) in
    if last_ref e
    then some (record kept { usage = sub64 s.usage e.charge }, true)
    else if e.in_cache && e.refs == 1
    then (if ltb s.capacity s.usage
        then evict
        else some (record kept { lru = lru_append p s.lru }, false))
    else some (kept, false)

unfoldable pub release : Option ℕ → LruCache → Option LruCache
release none s = some s
release (some p) s = do
  e ← get p s.heap
  e' ← unref e
  (s', last) ← release_kept p e' s
  if last then free_one p s' else some s'

-- What the insertion does to the entry that it replaces.
unfoldable pub replace_old : Option ℕ → LruCache → List ℕ → Option (LruCache × List ℕ)
unfolding unref lru_remove
replace_old none s deleted = some (s, deleted)
replace_old (some p) s deleted = do
  e ← get p s.heap
  e' ← unref (record e { in_cache = false })
  let s' : LruCache = record s { heap = set p e' s.heap }
  let dropped = (do
    lru ← lru_remove p s.lru
    some (record s' { usage = sub64 s.usage e.charge; lru = lru }, deleted ++ p ∷ []))
  if last_ref e' then dropped else some (s', deleted)

-- `p` is the address that `malloc` returns for the new entry; it is the handle that is returned.
-- The entry is private to the call until it is in the table, and joins the heap there.
unfoldable pub insert : ℕ → CacheKey → ℕ → ℕ → ℕ → ℕ → CachePriority → LruCache → Option LruCache
insert p key hash value charge deleter priority s = do
  let e : LruHandle = record {
    value = value;
    deleter = deleter;
    charge = charge;
    key = key;
    in_cache = true;
    refs = 2;
    hash = hash;
    priority = priority;
  }
  (s₁, evicted) ← evict_from_lru charge s
  (table, old) ← HandleTable.insert (record { hash = hash; key = key; ptr = p }) s₁.table
  (s₂, last_ref_list) ←
      replace_old old
        (record s₁ { heap = (p, e) ∷ s₁.heap; table = table; usage = add64 s₁.usage charge })
        evicted
  free_all last_ref_list s₂

unfoldable pub erase_entry : CacheKey → ℕ → LruCache → Option LruCache
erase_entry key hash s =
    let (table, found) = HandleTable.remove key hash s.table in
    elim found [
      | none ↦ some (record s { table = table })
      | some p ↦ do
        e ← get p s.heap
        e' ← unref e
        let s' : LruCache = record s {
          table = table;
          heap = set p (record e' { in_cache = false }) s.heap;
        }
        let last = (do
          lru ← if e.in_cache then lru_remove p s.lru else some s.lru
          free_one p (record s' { usage = sub64 s.usage e.charge; lru = lru }))
        if last_ref e' then last else some s'
    ]

-- The loop of `prune`.
unfoldable pub prune_loop : ℕ → LruCache → List ℕ → Option (LruCache × List ℕ)
prune_loop zero s deleted = none
prune_loop (suc fuel) s deleted = elim (get_elem? s.lru 0) [
  | none ↦ some (s, deleted)
  | some p ↦ do s' ← evict_one_entry p s; prune_loop fuel s' (deleted ++ p ∷ [])
]

-- The new state and the number of entries freed.
unfoldable pub prune : LruCache → Option (LruCache × ℕ)
prune s = do
  (s', last_ref_list) ← prune_loop (suc (length s.lru)) s []
  s'' ← free_all last_ref_list s'
  some (s'', length last_ref_list)
