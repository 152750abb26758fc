-- ===== src/Store/LruCache/RoundTrip.antt =====
-- What a lookup returns after an insertion, an erasure or a release.
use tenann.Prelude.{ℕ, ◌+◌, ◌^◌, ◌<◌, ◌≡◌, none, some, List, [], if◌then◌else◌, arith, length}
use tenann.Store.CacheKey.{CacheKey, u32_mod}
use tenann.Store.Heap.{get}
use tenann.Store.HandleTable
use tenann.Store.HandleTable.{HandleTable, same}
use tenann.Store.HandleTable.Chain.{same_self}
use tenann.Store.LruCache.{LruCache, CachePriority, insert, lookup, erase_entry}
use tenann.Store.LruCache.Invariant.{Inv}
use tenann.Store.LruCache.Insert.{insert_cache_lem, fresh_entry}
use tenann.Store.LruCache.Lookup.{lookup_lem}
use tenann.Store.LruCache.Erase.{erase_entry_lem}

module _ {held : List ℕ} (s : LruCache) (v : Inv held [] s) (key : CacheKey) (hash : ℕ) where
  -- Whatever was cached before, an insertion followed by a lookup of its key returns the handle of
  -- the insertion, and the entry has the inserted value, charge, deleter and priority.
  pub lookup-insert :
      (p value charge deleter : ℕ) (priority : CachePriority)
      → get p s.heap ≡ none
      → s.table.elems < 2 ^ 31
      → length held + 3 < u32_mod
      → (s' s'' : LruCache) × (insert p key hash value charge deleter priority s ≡ some s')
        × (get p s'.heap ≡ some (fresh_entry key hash value charge deleter priority))
        × (lookup key hash s' ≡ some (s'', some p))
  lookup-insert p value charge deleter priority fresh few room =
      let (_, _, s', runs, r) =
        insert_cache_lem s v p key hash value charge deleter priority fresh few in
      let (s'', looks, _, _, _, _, _, _, _) = lookup_lem s' r.inv key hash (omega (arith, room)) in
      (s', s'', runs, r.found, ground (arith, looks, r.map key hash, same_self key hash))

  -- After an erasure the lookup of its key misses, also while handles to the old entry are held;
  -- the search for any other key gives what it gave before.
  lookup-erase :
      length held + 2 < u32_mod
      → (s' s'' : LruCache) × (erase_entry key hash s ≡ some s')
        × (lookup key hash s' ≡ some (s'', none))
        × ((k : CacheKey) (h : ℕ)
            → HandleTable.lookup k h s'.table
              ≡ (if same k h key hash then none else HandleTable.lookup k h s.table))
  lookup-erase room =
      let (s', r) = erase_entry_lem s v key hash in
      let (s'', looks, _, _, _, _, _, _, _) = lookup_lem s' r.inv key hash room in
      (s', s'', r.runs, ground (arith, looks, r.map key hash, same_self key hash), r.map)
