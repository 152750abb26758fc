-- ===== src/Store/LruCache/Publish.antt =====
-- A new entry becomes visible: it joins the heap and the table at once.
use tenann.Prelude.{
  ℕ, ◌%◌, ◌≡◌, subst, true, false, none, some, List, ◌∷◌, ◌==◌, if◌then◌else◌, arith, inl, inr,
  Bool-cases, ==_iff, Option-cases,
}
use tenann.Store.CacheKey.{CacheKey}
use tenann.Store.Heap.{get, total, get-cons}
use tenann.Store.HandleTable
use tenann.Store.HandleTable.{HandleTable, Node, same}
use tenann.Store.HandleTable.Chain.{same-key_eq, same-hash_eq, same_self}
use tenann.Store.HandleTable.Map as Map
use tenann.Store.LruCache.{LruHandle, LruCache, u64_mod}
use tenann.Store.LruCache.Invariant.{weight, Cell, Tabled, Inv}

module _ {held pending : List ℕ} (s : LruCache) (v : Inv held pending s) (p : ℕ) (e : LruHandle)
    (fresh : get p s.heap ≡ none) (new : HandleTable.lookup e.key e.hash s.table ≡ none)
    (cached_e : e.in_cache ≡ true) (twice : e.refs ≡ 2) (table : HandleTable) (usage : ℕ) where
  abbrev pub published : LruCache
  published = record s { heap = (p, e) ∷ s.heap; table = table; usage = usage }

  module _
      (map : (k : CacheKey) (h : ℕ)
        → HandleTable.lookup k h table
          ≡ (if same k h e.key e.hash then some p else HandleTable.lookup k h s.table)) where
    here-Cell : Cell (p ∷ held) pending published p (some e)
    here-Cell = (
      ground (arith, v.cells p, fresh, twice),
      ground (arith, v.cells p, fresh, twice, cached_e),
      ground (arith, v.cells p, fresh, twice),
      ground (arith, map e.key e.hash, same_self e.key e.hash, cached_e),
    )

    other-Cell : (q : ℕ) → (p == q) ≡ false → Cell (p ∷ held) pending published q (get q s.heap)
    other-Cell q ne = elim (Option-cases (get q s.heap)) [
      | inl free ↦ ground (arith, free, v.cells q, ne)
      | inr (f, found_f) ↦ rw found_f (
        ground (arith, found_f, v.cells q),
        ground (arith, found_f, v.cells q, ne),
        ground (arith, found_f, v.cells q),
        ground (
          arith,
          found_f,
          v.cells q,
          map f.key f.hash,
          new,
          same-key_eq f.key f.hash e.key e.hash,
          same-hash_eq f.key f.hash e.key e.hash,
        ),
      )
    ]

    published-Cell : (q : ℕ) → Cell (p ∷ held) pending published q (get q ((p, e) ∷ s.heap))
    published-Cell q = elim (Bool-cases (p == q)) [
      | inl eq ↦
          rw (get-cons p q e s.heap, eq)
            (subst (λ r. Cell (p ∷ held) pending published r (some e)) ((==_iff p q).0 eq)
              here-Cell)
      | inr ne ↦ rw (get-cons p q e s.heap, ne) (other-Cell q ne)
    ]

    published-Tabled :
        (k : CacheKey) (h q : ℕ)
        → HandleTable.lookup k h table ≡ some q
        → Tabled k h (get q ((p, e) ∷ s.heap))
    published-Tabled k h q hit = rw (get-cons p q e s.heap) (
        ground (
          arith,
          hit,
          map k h,
          v.tabled k h q,
          fresh,
          cached_e,
          same-key_eq k h e.key e.hash,
          same-hash_eq k h e.key e.hash,
        ))

    pub published-Inv :
        Map.IsValid table
        → usage ≡ total weight ((p, e) ∷ s.heap) % u64_mod
        → Inv (p ∷ held) pending published
    published-Inv valid used = record {
      table_valid = valid;
      distinct = (fresh, v.distinct);
      usage_total = used;
      cells = published-Cell;
      tabled = published-Tabled;
    }
