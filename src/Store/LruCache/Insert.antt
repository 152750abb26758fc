-- ===== src/Store/LruCache/Insert.antt =====
-- `insert`: room is made, the entry goes into the table, and the entry that had the key leaves.
use tenann.Prelude.{
  ℕ, ◌^◌, ◌<◌, ◌≡◌, refl, ◌∙◌, true, none, some, List, [], ◌∷◌, ◌++◌, if◌then◌else◌, arith,
}
use tenann.Store.CacheKey.{CacheKey}
use tenann.Store.Heap.{get}
use tenann.Store.HandleTable
use tenann.Store.HandleTable.{HandleTable, Node, same}
use tenann.Store.HandleTable.Insert.{insert_lem}
use tenann.Store.LruCache.{LruHandle, LruCache, CachePriority, insert}
use tenann.Store.LruCache.Invariant.{Inv, cached}
use tenann.Store.LruCache.EvictFromLru.{Evicts, evict_from_lru_lem}
use tenann.Store.LruCache.Replace.{replaces, replaced_calls}
use tenann.Store.LruCache.FreeAll.{free_all_lem, calls_at, calls_at-Frame}

-- The new entry, with a reference for the cache and one for the caller.
abbrev pub fresh_entry : CacheKey → ℕ → ℕ → ℕ → ℕ → CachePriority → LruHandle
fresh_entry key hash value charge deleter priority = record {
  value = value;
  deleter = deleter;
  charge = charge;
  key = key;
  in_cache = true;
  refs = 2;
  hash = hash;
  priority = priority;
}

-- What `insert` leaves, after the eviction of `d` with the result `s₁`.
module _ {held : List ℕ} (s : LruCache) (v : Inv held [] s) (p : ℕ) (key : CacheKey)
    (hash value charge deleter : ℕ) (priority : CachePriority) where
  abbrev entry : LruHandle
  entry = fresh_entry key hash value charge deleter priority

  pub record Inserts (s₁ : LruCache) (d : List ℕ) (s' : LruCache) : Type 0 where
    pub evicts : Evicts held charge s s₁ d
    pub inv : Inv (p ∷ held) [] s'
    pub found : get p s'.heap ≡ some entry
    pub map :
        (k : CacheKey) (h : ℕ)
        → HandleTable.lookup k h s'.table
          ≡ (if same k h key hash then some p else HandleTable.lookup k h s₁.table)
    pub capacity : s'.capacity ≡ s.capacity
    pub freed : s'.freed ≡ s.freed ++ (calls_at s.heap d ++ replaced_calls (cached key hash s₁))

  -- `insert` at a fresh address returns. It evicts as described, stores the entry under its key
  -- alone, gives the caller a handle, and frees what it evicted and an unheld entry that it replaced.
  pub insert_cache_lem :
      get p s.heap ≡ none
      → s.table.elems < 2 ^ 31
      → (s₁ : LruCache) × (d : List ℕ) × (s' : LruCache) × (insert p key hash value charge deleter
            priority s
          ≡ some s')
        × Inserts s₁ d s'
  unfolding insert
  insert_cache_lem fresh few =
      let (s₁, d, evict, r) = evict_from_lru_lem charge s v in
      let fresh₁ : get p s₁.heap ≡ none =
        ground (arith, r.frame.unchanged p, r.frame.listed p, v.cells p, fresh) in
      let (table, put, valid, map) =
        insert_lem (record { hash = hash; key = key; ptr = p }) s₁.table r.inv.table_valid
          (omega (arith, r.frame.fewer)) in
      let (s₂, d₂, x) = replaces s₁ r.inv p entry fresh₁ refl refl table valid map in
      let (s₃, frees, v₃, f) = free_all_lem d₂ s₂ x.inv in
      (
        s₁,
        d,
        s₃,
        ground (arith, evict, put, x.runs, frees),
        record {
          evicts = r;
          inv = v₃;
          found = ground (arith, f.heap p, x.entry, x.inv.cells p);
          map = λ k h. ground (arith, f.table, x.table_kept, map k h);
          capacity = f.capacity ∙ x.capacity ∙ r.frame.capacity;
          freed =
              ground (arith, f.freed, x.freed, r.frame.freed, x.calls, calls_at-Frame r.frame d);
        },
      )
