-- ===== src/Store/LruCache/Release/Updates.antt =====
-- The states that the branches of `release` leave below the lock, and that they keep the invariant.
use tenann.Prelude.{
  ℕ, ◌-◌, ◌≡◌, ◌≢◌, refl, true, false, ◌&&◌, some, List, [], ◌∷◌, ◌==◌, arith, count, erase,
  count-erase, count-snoc,
}
use tenann.Store.Heap.{get, set, total-set}
use tenann.Store.HandleTable
use tenann.Store.HandleTable.{HandleTable, same}
use tenann.Store.HandleTable.Remove.{remove_lem}
use tenann.Store.LruCache.{LruHandle, LruCache, sub64, lru_append}
use tenann.Store.LruCache.Invariant.{weight, Inv}
use tenann.Store.LruCache.Update.{Update}
use tenann.Store.LruCache.Evict.{dropped}

module _ {held : List ℕ} (s : LruCache) (v : Inv held [] s) (p : ℕ) where
  abbrev pub less : LruHandle → LruHandle
  less e = record e { refs = e.refs - 1 }

  -- The states below the lock, by branch.
  abbrev pub last_state : LruHandle → LruCache
  last_state e = record s { heap = set p (less e) s.heap; usage = sub64 s.usage e.charge }

  abbrev pub evict_state : LruHandle → LruCache
  evict_state e = record s {
    table = (HandleTable.remove e.key e.hash s.table).0;
    heap = set p (dropped e) s.heap;
    usage = sub64 s.usage e.charge;
  }

  abbrev pub idle_state : LruHandle → LruCache
  idle_state e = record s { heap = set p (less e) s.heap; lru = lru_append p s.lru }

  abbrev pub kept_state : LruHandle → LruCache
  kept_state e = record s { heap = set p (less e) s.heap }

  module _ (e : LruHandle) (found : get p s.heap ≡ some e) (has : count p held ≢ 0) where
    pub last-Update :
        e.refs ≡ 1 → Update v p e (less e) found (erase p held) (p ∷ []) (last_state e) false
    last-Update once = record {
      heap_set = refl;
      key_kept = refl;
      hash_kept = refl;
      caching = ground arith;
      was_cached = refl;
      valid = v.table_valid;
      map = λ k h. refl;
      usage = ground (arith, v.usage_total, total-set weight p e (less e) s.heap found, once);
      listed = ground (arith, v.cells p, found, once);
      counted = ground (arith, v.cells p, found, once, count-erase p p held);
      waiting = ground (arith, once);
      others = λ q ne. ground (arith, ne, count-erase p q held);
    }

    pub evict-Update :
        e.refs ≡ 2
        → e.in_cache ≡ true
        → Update v p e (dropped e) found (erase p held) (p ∷ []) (evict_state e) true
    evict-Update twice cached =
        let (_, valid, map, _) = remove_lem e.key e.hash s.table v.table_valid in
        record {
          heap_set = refl;
          key_kept = refl;
          hash_kept = refl;
          caching = ground arith;
          was_cached = cached;
          valid = valid;
          map = map;
          usage =
              ground (arith, v.usage_total, total-set weight p e (dropped e) s.heap found, twice);
          listed = ground (arith, v.cells p, found, twice, cached);
          counted = ground (arith, v.cells p, found, twice, cached, count-erase p p held);
          waiting = ground arith;
          others = λ q ne. ground (arith, ne, count-erase p q held);
        }

    pub idle-Update :
        e.refs ≡ 2
        → e.in_cache ≡ true
        → Update v p e (less e) found (erase p held) [] (idle_state e) false
    idle-Update twice cached = record {
      heap_set = refl;
      key_kept = refl;
      hash_kept = refl;
      caching = ground arith;
      was_cached = refl;
      valid = v.table_valid;
      map = λ k h. refl;
      usage = ground (arith, v.usage_total, total-set weight p e (less e) s.heap found, twice);
      listed = ground (arith, v.cells p, found, twice, cached, count-snoc p p s.lru);
      counted = ground (arith, v.cells p, found, twice, cached, count-erase p p held);
      waiting = ground (arith, twice);
      others = λ q ne. ground (arith, ne, count-erase p q held, count-snoc p q s.lru);
    }

    pub kept-Update :
        e.refs ≢ 1
        → (e.in_cache && e.refs == 2) ≡ false
        → Update v p e (less e) found (erase p held) [] (kept_state e) false
    kept-Update more shared = record {
      heap_set = refl;
      key_kept = refl;
      hash_kept = refl;
      caching = ground arith;
      was_cached = refl;
      valid = v.table_valid;
      map = λ k h. refl;
      usage =
          ground (
            arith,
            v.usage_total,
            total-set weight p e (less e) s.heap found,
            v.cells p,
            found,
            has,
          );
      listed = ground (arith, v.cells p, found, more, shared, has);
      counted = ground (arith, v.cells p, found, has, count-erase p p held);
      waiting = ground (arith, more, v.cells p, found, has);
      others = λ q ne. ground (arith, ne, count-erase p q held);
    }
