-- ===== src/Store/LruCache/Invariant.antt =====
-- The invariant of a shard: what every address stands for in the heap, the table, the LRU list and
-- among the handles that clients hold.
use tenann.Prelude.{
  ℕ, ◌+◌, ◌%◌, ◌≡◌, Bool, true, ◌&&◌, Option, none, some, List, ◌==◌, if◌then◌else◌, to_nat, count,
}
use tenann.Store.CacheKey.{CacheKey}
use tenann.Store.Heap.{get, Distinct, total}
use tenann.Store.HandleTable
use tenann.Store.HandleTable.{HandleTable}
use tenann.Store.HandleTable.Map as Map
use tenann.Store.LruCache.{LruHandle, LruCache, u64_mod}

-- An entry counts while somebody refers to it.
abbrev pub weight : LruHandle → ℕ
weight e = if e.refs == 0 then 0 else e.charge

-- An entry with the only reference of the cache is on the LRU list.
abbrev pub is_idle : LruHandle → Bool
is_idle e = e.in_cache && e.refs == 1

-- `held` are the handles that clients hold, `pending` the entries that wait to be freed.
module _ (held pending : List ℕ) (s : LruCache) (p : ℕ) where
  abbrev pub Cell : Option LruHandle → Type 0
  Cell none = (count p s.lru ≡ 0) × (count p held ≡ 0) × (count p pending ≡ 0)
  Cell (some e) =
      (count p s.lru ≡ to_nat (is_idle e))
      × (e.refs ≡ count p held + to_nat e.in_cache)
      × (count p pending ≡ to_nat (e.refs == 0))
      × ((if e.in_cache then HandleTable.lookup e.key e.hash s.table else some p) ≡ some p)

-- What the table says of an entry.
abbrev pub Tabled : CacheKey → ℕ → Option LruHandle → Type 0
Tabled k h none = ⊥
Tabled k h (some e) = (e.key ≡ k) × (e.hash ≡ h) × (e.in_cache ≡ true)

pub record Inv (held pending : List ℕ) (s : LruCache) : Type 0 where
  pub table_valid : Map.IsValid s.table
  pub distinct : Distinct s.heap
  pub usage_total : s.usage ≡ total weight s.heap % u64_mod
  pub cells : (p : ℕ) → Cell held pending s p (get p s.heap)
  pub tabled :
      (k : CacheKey) (h p : ℕ) → HandleTable.lookup k h s.table ≡ some p → Tabled k h (get p s.heap)

-- The entry that a search for the key comes to.
abbrev pub cached : CacheKey → ℕ → LruCache → Option LruHandle
cached k h s = elim (HandleTable.lookup k h s.table) [ none ↦ none | some p ↦ get p s.heap ]
