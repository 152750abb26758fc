-- ===== src/Store/LruCache/Evict.antt =====
-- Eviction of one entry of the LRU list.
use tenann.Prelude.{
  ℕ, suc, ◌+◌, ◌≡◌, ◌≢◌, refl, true, false, some, List, [], ◌∷◌, ◌++◌, count, erase, arith,
  Option-cases, inl, inr, count-erase, count-snoc, ap, ◌∙◌, count_middle, erase_middle,
}
use tenann.Store.Heap.{get, set, total-set}
use tenann.Store.HandleTable
use tenann.Store.HandleTable.{HandleTable, same}
use tenann.Store.HandleTable.Remove.{remove_lem}
use tenann.Store.LruCache.{LruHandle, LruCache, sub64, evict_one_entry}
use tenann.Store.LruCache.Update.{Update, update-Inv}
use tenann.Store.LruCache.Invariant.{weight, Inv}

-- The entry after its eviction.
abbrev pub dropped : LruHandle → LruHandle
dropped e = record e { in_cache = false; refs = 0 }

abbrev pub evicted : ℕ → LruHandle → LruCache → LruCache
evicted p e s = record s {
  lru = erase p s.lru;
  table = (HandleTable.remove e.key e.hash s.table).0;
  heap = set p (dropped e) s.heap;
  usage = sub64 s.usage e.charge;
}

module _ {held pending : List ℕ} {s : LruCache} (v : Inv held pending s) (p : ℕ) where
  -- An address on the LRU list is that of an idle entry.
  idle_of_listed :
      count p s.lru ≢ 0
      → (e : LruHandle) × (get p s.heap ≡ some e) × (e.in_cache ≡ true) × (e.refs ≡ 1)
  idle_of_listed listed = elim (Option-cases (get p s.heap)) [
    | inl free ↦ absurd (ground (arith, free, v.cells p))
    | inr (e, found) ↦
        (e, found, ground (arith, found, v.cells p), ground (arith, found, v.cells p))
  ]

  module _ (e : LruHandle) (found : get p s.heap ≡ some e) (cached : e.in_cache ≡ true)
      (once : e.refs ≡ 1) where
    pub evict_one_entry-eq : evict_one_entry p s ≡ some (evicted p e s)
    unfolding evict_one_entry
    evict_one_entry-eq = ground (arith, found, v.cells p)

    evicted-Update : Update v p e (dropped e) found held (pending ++ p ∷ []) (evicted p e s) true
    evicted-Update =
        let (_, valid, map, _) = remove_lem e.key e.hash s.table v.table_valid in
        record {
          heap_set = refl;
          key_kept = refl;
          hash_kept = refl;
          caching = ground arith;
          was_cached = cached;
          valid = valid;
          map = map;
          usage = ground (arith, v.usage_total, total-set weight p e (dropped e) s.heap found);
          listed = ground (arith, count-erase p p s.lru, v.cells p, found);
          counted = ground (arith, v.cells p, found);
          waiting = ground (arith, count-snoc p p pending, v.cells p, found);
          others = λ q ne. ground (arith, count-erase p q s.lru, count-snoc p q pending);
        }

    pub evicted-Inv : Inv held (pending ++ p ∷ []) (evicted p e s)
    evicted-Inv = update-Inv v p e (dropped e) found evicted-Update

-- What the invariant says of an address that stands on the LRU list behind `kept`.
pub record Listed (s : LruCache) (kept rest : List ℕ) (p : ℕ) (e : LruHandle) : Type 0 where
  pub found : get p s.heap ≡ some e
  pub cached : e.in_cache ≡ true
  pub once : e.refs ≡ 1
  pub single : count p s.lru ≡ 1
  pub erased : erase p s.lru ≡ kept ++ rest

pub Listed-of_eq :
    {held pending : List ℕ} {s : LruCache} (v : Inv held pending s) (kept rest : List ℕ) (p : ℕ)
    → s.lru ≡ kept ++ p ∷ rest
    → (e : LruHandle) × Listed s kept rest p e
Listed-of_eq {s = s} v kept rest p split =
    let there : count p s.lru ≡ suc (count p kept + count p rest) =
      ap (count p) split ∙ count_middle p kept rest in
    let (e, found, cached, once) = idle_of_listed v p (omega arith) in
    let single : count p s.lru ≡ 1 = ground (arith, v.cells p, found, cached, once) in
    (
      e,
      record {
        found = found;
        cached = cached;
        once = once;
        single = single;
        erased = ap (erase p) split ∙ erase_middle p kept rest (omega arith);
      },
    )
