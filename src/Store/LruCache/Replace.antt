-- ===== src/Store/LruCache/Replace.antt =====
-- The replacement in `insert`: the entry that had the key leaves the table.
use tenann.Prelude.{
  ℕ, ◌≡◌, ◌≢◌, refl, true, false, Option, none, some, List, [], ◌∷◌, ◌++◌, ◌==◌, if◌then◌else◌,
  arith, erase, inl, inr, Bool-cases, ==_iff, Option-cases,
}
use mathlib.Core.List.{append-nil}
use tenann.Store.CacheKey.{CacheKey}
use tenann.Store.Heap.{get, set, get-cons, set-cons, get-set, total-cons}
use tenann.Store.HandleTable
use tenann.Store.HandleTable.{HandleTable, Node, same}
use tenann.Store.HandleTable.Chain.{same_self}
use tenann.Store.HandleTable.Map as Map
use tenann.Store.HandleTable.Remove.{remove_lem}
use tenann.Store.LruCache.{
  LruHandle, LruCache, DeleterCall, deleter_call, add64, sub64, replace_old, unref, lru_remove,
}
use tenann.Store.LruCache.Invariant.{weight, Inv, cached}
use tenann.Store.LruCache.Update.{update-Inv}
use tenann.Store.LruCache.Unlink.{unlinked, shared_state, last_state, shared-Update, last-Update}
use tenann.Store.LruCache.Publish.{published-Inv}
use tenann.Store.LruCache.FreeAll.{calls_at, calls_at-but, calls_at-append}

-- The deleter call for an entry that is replaced and that nobody holds.
abbrev pub replaced_calls : Option LruHandle → List DeleterCall
replaced_calls none = []
replaced_calls (some f) = if f.refs == 1 then deleter_call f ∷ [] else []

-- From the state `s` after the eviction of `d`: the entry `e` goes into the table at `p`.
module _ {held d : List ℕ} (s : LruCache) (v : Inv held d s) (p : ℕ) (e : LruHandle)
    (fresh : get p s.heap ≡ none) (cached_e : e.in_cache ≡ true) (twice : e.refs ≡ 2)
    (table : HandleTable) (valid : Map.IsValid table)
    (map : (k : CacheKey) (h : ℕ)
      → HandleTable.lookup k h table
        ≡ (if same k h e.key e.hash then some p else HandleTable.lookup k h s.table)) where
  abbrev grown : LruCache
  grown = record s { heap = (p, e) ∷ s.heap; table = table; usage = add64 s.usage e.charge }

  -- What the replacement leaves.
  pub record Replaces (old : Option ℕ) (s' : LruCache) (d' : List ℕ) : Type 0 where
    pub runs : replace_old old grown d ≡ some (s', d')
    pub inv : Inv (p ∷ held) d' s'
    pub entry : get p s'.heap ≡ some e
    pub capacity : s'.capacity ≡ s.capacity
    pub table_kept : s'.table ≡ table
    pub freed : s'.freed ≡ s.freed
    pub calls : calls_at s'.heap d' ≡ calls_at s.heap d ++ replaced_calls (cached e.key e.hash s)

  calls_grown : calls_at ((p, e) ∷ s.heap) d ≡ calls_at s.heap d
  calls_grown =
      calls_at-but p s.heap ((p, e) ∷ s.heap) d (λ q ne. ground (arith, ne, get-cons p q e s.heap))
        (ground (arith, v.cells p, fresh))

  Replaces-none : HandleTable.lookup e.key e.hash s.table ≡ none → Replaces none grown d
  unfolding replace_old
  Replaces-none new = record {
    runs = refl;
    inv =
        published-Inv s v p e fresh new cached_e twice table (add64 s.usage e.charge) map valid
          (ground (arith, v.usage_total, twice, total-cons weight p e s.heap));
    entry = ground (arith, get-cons p p e s.heap);
    capacity = refl;
    table_kept = refl;
    freed = refl;
    calls = ground (arith, new, calls_grown, append-nil (calls_at s.heap d));
  }

  module _ (q : ℕ) (f : LruHandle) (hit : HandleTable.lookup e.key e.hash s.table ≡ some q)
      (found : get q s.heap ≡ some f) where
    abbrev without : LruHandle
    without = unlinked s v e.key e.hash f

    apart : (p == q) ≡ false
    apart = ground (arith, fresh, found)

    -- The heap after the write to the old entry.
    heap-eq : set q without ((p, e) ∷ s.heap) ≡ (p, e) ∷ set q without s.heap
    heap-eq = ground (arith, apart, set-cons p q e without s.heap)

    still_fresh : get p (set q without s.heap) ≡ none
    still_fresh = ground (arith, apart, fresh, get-set q p f without s.heap found)

    gone : HandleTable.lookup e.key e.hash (HandleTable.remove e.key e.hash s.table).0 ≡ none
    gone = ground (
      arith,
      (remove_lem e.key e.hash s.table v.table_valid).2 e.key e.hash,
      same_self e.key e.hash,
    )

    map_again :
        (k : CacheKey) (h : ℕ)
        → HandleTable.lookup k h table ≡ (
            if same k h e.key e.hash
            then some p
            else HandleTable.lookup k h (HandleTable.remove e.key e.hash s.table).0)
    map_again k h = ground (arith, map k h, (remove_lem e.key e.hash s.table v.table_valid).2 k h)

    calls_new : calls_at ((p, e) ∷ set q without s.heap) d ≡ calls_at s.heap d
    calls_new =
        calls_at-but p s.heap ((p, e) ∷ set q without s.heap) d
          (λ r ne. ground (
            arith,
            ne,
            found,
            get-cons p r e (set q without s.heap),
            get-set q r f without s.heap found,
          ))
          (ground (arith, v.cells p, fresh))

    abbrev shared_result : LruCache
    shared_result = record s {
      heap = (p, e) ∷ set q without s.heap;
      table = table;
      usage = add64 s.usage e.charge;
    }

    abbrev last_result : LruCache
    last_result = record shared_result {
      usage = sub64 (add64 s.usage e.charge) f.charge;
      lru = erase q s.lru;
    }

    Replaces-shared : f.refs ≢ 1 → Replaces (some q) shared_result d
    unfolding replace_old unref
    Replaces-shared more =
        let v' =
          update-Inv v q f without found (shared-Update s v e.key e.hash q f hit found more) in
        record {
          runs = ground (
            arith,
            found,
            apart,
            more,
            get-cons p q e s.heap,
            heap-eq,
            v.cells q,
            v.tabled e.key e.hash q hit,
          );
          inv =
              published-Inv (shared_state s v e.key e.hash q f) v' p e still_fresh gone cached_e
                twice table (add64 s.usage e.charge) map_again valid
                (ground
                  (arith, v'.usage_total, twice, total-cons weight p e (set q without s.heap)));
          entry = ground (arith, get-cons p p e (set q without s.heap));
          capacity = refl;
          table_kept = refl;
          freed = refl;
          calls = ground (arith, hit, found, more, calls_new, append-nil (calls_at s.heap d));
        }

    Replaces-last : f.refs ≡ 1 → Replaces (some q) last_result (d ++ q ∷ [])
    unfolding replace_old unref lru_remove
    Replaces-last once =
        let v' = update-Inv v q f without found (last-Update s v e.key e.hash q f hit found once) in
        record {
          runs = ground (
            arith,
            found,
            apart,
            once,
            get-cons p q e s.heap,
            heap-eq,
            v.cells q,
            v.tabled e.key e.hash q hit,
          );
          inv =
              published-Inv (last_state s v e.key e.hash q f) v' p e still_fresh gone cached_e twice
                table (sub64 (add64 s.usage e.charge) f.charge) map_again valid
                (ground
                  (arith, v'.usage_total, twice, total-cons weight p e (set q without s.heap)));
          entry = ground (arith, get-cons p p e (set q without s.heap));
          capacity = refl;
          table_kept = refl;
          freed = refl;
          calls = ground (
            arith,
            hit,
            found,
            once,
            calls_new,
            apart,
            get-cons p q e (set q without s.heap),
            get-set q q f without s.heap found,
            calls_at-append ((p, e) ∷ set q without s.heap) d (q ∷ []),
          );
        }

  -- In each case the call returns and keeps the invariant.
  pub replaces :
      (s' : LruCache) × (d' : List ℕ) × Replaces (HandleTable.lookup e.key e.hash s.table) s' d'
  replaces = elim (Option-cases (HandleTable.lookup e.key e.hash s.table)) [
    | inl new ↦ rw new (grown, d, Replaces-none new)
    | inr (q, hit) ↦ elim (Option-cases (get q s.heap)) [
      | inl free ↦ absurd (ground (arith, free, v.tabled e.key e.hash q hit))
      | inr (f, found) ↦ elim (Bool-cases (f.refs == 1)) [
        | inl once ↦ rw hit (
          last_result q f hit found,
          d ++ q ∷ [],
          Replaces-last q f hit found ((==_iff f.refs 1).0 once),
        )
        | inr more ↦
            rw hit
              (shared_result q f hit found, d, Replaces-shared q f hit found (ground (arith, more)))
      ]
    ]
  ]
