-- ===== src/Store/LruCache/Unlink.antt =====
-- Taking an entry out of the table while the key's lookup still finds it: the step that `erase` and
-- the replacement in `insert` share.
use tenann.Prelude.{
  ℕ, ◌-◌, ◌≡◌, ◌≢◌, refl, true, false, some, List, [], ◌∷◌, ◌++◌, arith, erase, count-erase,
  count-snoc,
}
use tenann.Store.CacheKey.{CacheKey}
use tenann.Store.Heap.{get, set, total-set}
use tenann.Store.HandleTable
use tenann.Store.HandleTable.{HandleTable, same}
use tenann.Store.HandleTable.Remove.{remove_lem}
use tenann.Store.LruCache.{LruHandle, LruCache, sub64}
use tenann.Store.LruCache.Invariant.{weight, Inv}
use tenann.Store.LruCache.Update.{Update}

module _ {held pending : List ℕ} (s : LruCache) (v : Inv held pending s) (k : CacheKey)
    (h : ℕ) where
  abbrev pub unlinked_table : HandleTable
  unlinked_table = (HandleTable.remove k h s.table).0

  abbrev pub unlinked : LruHandle → LruHandle
  unlinked e = record e { in_cache = false; refs = e.refs - 1 }

  abbrev pub shared_state : ℕ → LruHandle → LruCache
  shared_state p e = record s { table = unlinked_table; heap = set p (unlinked e) s.heap }

  abbrev pub last_state : ℕ → LruHandle → LruCache
  last_state p e = record s {
    table = unlinked_table;
    heap = set p (unlinked e) s.heap;
    usage = sub64 s.usage e.charge;
    lru = erase p s.lru;
  }

  module _ (p : ℕ) (e : LruHandle) (hit : HandleTable.lookup k h s.table ≡ some p)
      (found : get p s.heap ≡ some e) where
    pub shared-Update :
        e.refs ≢ 1 → Update v p e (unlinked e) found held pending (shared_state p e) true
    shared-Update more =
        let (_, valid, map, _) = remove_lem k h s.table v.table_valid in
        record {
          heap_set = refl;
          key_kept = refl;
          hash_kept = refl;
          caching = ground arith;
          was_cached = ground (arith, v.tabled k h p hit, found);
          valid = valid;
          map = λ k' h'. ground (arith, map k' h', v.tabled k h p hit, found);
          usage = ground (
            arith,
            v.usage_total,
            total-set weight p e (unlinked e) s.heap found,
            v.cells p,
            found,
            more,
            v.tabled k h p hit,
          );
          listed = ground (arith, v.cells p, found, more);
          counted = ground (arith, v.cells p, found, v.tabled k h p hit);
          waiting = ground (arith, more, v.cells p, found);
          others = λ q ne. (refl, refl, refl);
        }

    pub last-Update :
        e.refs ≡ 1 → Update v p e (unlinked e) found held (pending ++ p ∷ []) (last_state p e) true
    last-Update once =
        let (_, valid, map, _) = remove_lem k h s.table v.table_valid in
        record {
          heap_set = refl;
          key_kept = refl;
          hash_kept = refl;
          caching = ground arith;
          was_cached = ground (arith, v.tabled k h p hit, found);
          valid = valid;
          map = λ k' h'. ground (arith, map k' h', v.tabled k h p hit, found);
          usage =
              ground (arith, v.usage_total, total-set weight p e (unlinked e) s.heap found, once);
          listed =
              ground (arith, v.cells p, found, once, v.tabled k h p hit, count-erase p p s.lru);
          counted = ground (arith, v.cells p, found, once, v.tabled k h p hit);
          waiting = ground (arith, once, v.cells p, found, count-snoc p p pending);
          others = λ q ne. ground (arith, ne, count-erase p q s.lru, count-snoc p q pending);
        }
