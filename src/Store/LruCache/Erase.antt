-- ===== src/Store/LruCache/Erase.antt =====
-- `erase`: an entry leaves the table, and memory when nobody holds it.
use tenann.Prelude.{
  ℕ, ◌≡◌, ◌≢◌, sym, subst, Option, none, some, List, [], ◌∷◌, ◌++◌, ◌==◌, if◌then◌else◌, arith, inl,
  inr, Bool-cases, ==_iff, Option-cases,
}
use mathlib.Core.List.{append-nil}
use tenann.Store.CacheKey.{CacheKey}
use tenann.Store.Heap.{get, get-set}
use tenann.Store.HandleTable
use tenann.Store.HandleTable.{HandleTable, same}
use tenann.Store.HandleTable.Remove.{remove_lem, remove_absent}
use tenann.Store.LruCache.{
  LruHandle, LruCache, deleter_call, erase_entry, unref, lru_remove, free_one,
}
use tenann.Store.LruCache.Invariant.{Inv, cached}
use tenann.Store.LruCache.Update.{update-Inv}
use tenann.Store.LruCache.Unlink.{unlinked, shared_state, last_state, shared-Update, last-Update}
use tenann.Store.LruCache.FreeAll.{free_one_lem}

module _ {held : List ℕ} (s : LruCache) (v : Inv held [] s) (k : CacheKey) (h : ℕ) where
  -- What `erase` leaves: the key is gone from the table, and the entry is freed if only the cache
  -- referred to it.
  pub record Erases (found : Option LruHandle) (s' : LruCache) : Type 0 where
    pub runs : erase_entry k h s ≡ some s'
    pub inv : Inv held [] s'
    pub map :
        (k' : CacheKey) (h' : ℕ)
        → HandleTable.lookup k' h' s'.table
          ≡ (if same k' h' k h then none else HandleTable.lookup k' h' s.table)
    pub freed :
        s'.freed
        ≡ s.freed
          ++ elim found [ none ↦ [] | some e ↦ if e.refs == 1 then deleter_call e ∷ [] else [] ]

  module _ (p : ℕ) (e : LruHandle) (hit : HandleTable.lookup k h s.table ≡ some p)
      (found : get p s.heap ≡ some e) where
    runs_shared : e.refs ≢ 1 → erase_entry k h s ≡ some (shared_state s v k h p e)
    unfolding erase_entry unref
    runs_shared more =
        ground (arith, remove_lem k h s.table v.table_valid, hit, found, more, v.cells p)

    runs_last :
        {s' : LruCache}
        → e.refs ≡ 1
        → free_one p (last_state s v k h p e) ≡ some s'
        → erase_entry k h s ≡ some s'
    unfolding erase_entry unref lru_remove
    runs_last once frees = ground (
      arith,
      (remove_lem k h s.table v.table_valid).0,
      hit,
      found,
      once,
      v.cells p,
      v.tabled k h p hit,
      frees,
    )

    Erases-shared : e.refs ≢ 1 → (s' : LruCache) × Erases (some e) s'
    Erases-shared more = (
      shared_state s v k h p e,
      record {
        runs = runs_shared more;
        inv =
            update-Inv v p e (unlinked s v k h e) found (shared-Update s v k h p e hit found more);
        map = (remove_lem k h s.table v.table_valid).2;
        freed = ground (arith, more, append-nil s.freed);
      },
    )

    Erases-last : e.refs ≡ 1 → (s' : LruCache) × Erases (some e) s'
    Erases-last once =
        let v' =
          update-Inv v p e (unlinked s v k h e) found (last-Update s v k h p e hit found once) in
        let (s', frees, v'', f) = free_one_lem p (last_state s v k h p e) v' in
        (
          s',
          record {
            runs = runs_last once frees;
            inv = v'';
            map = λ k' h'. ground (arith, f.table, (remove_lem k h s.table v.table_valid).2 k' h');
            freed = ground (arith, f.freed, once, get-set p p e (unlinked s v k h e) s.heap found);
          },
        )

  Erases-miss : HandleTable.lookup k h s.table ≡ none → Erases none s
  unfolding erase_entry
  Erases-miss miss =
      let gone = remove_absent k h s.table v.table_valid miss in
      record {
        runs = ground (arith, gone);
        inv = v;
        map = λ k' h'. ground (arith, gone, (remove_lem k h s.table v.table_valid).2 k' h');
        freed = sym (append-nil s.freed);
      }

  -- `erase` returns. The key is gone from the table and all other keys stay; the entry that it had
  -- is freed if no handle to it is held.
  pub erase_entry_lem : (s' : LruCache) × Erases (cached k h s) s'
  erase_entry_lem = elim (Option-cases (HandleTable.lookup k h s.table)) [
    | inl miss ↦
        let none_there : none ≡ cached k h s = ground (arith, miss) in
        subst (λ c. (s' : LruCache) × Erases c s') none_there (s, Erases-miss miss)
    | inr (p, hit) ↦ elim (Option-cases (get p s.heap)) [
      | inl free ↦ absurd (ground (arith, free, v.tabled k h p hit))
      | inr (e, found) ↦
          let there : some e ≡ cached k h s = ground (arith, hit, found) in
          subst (λ c. (s' : LruCache) × Erases c s') there
            (elim (Bool-cases (e.refs == 1)) [
              | inl once ↦ Erases-last p e hit found ((==_iff e.refs 1).0 once)
              | inr more ↦ Erases-shared p e hit found (ground (arith, more))
            ])
    ]
  ]
