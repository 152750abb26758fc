-- ===== src/Store/LruCache/Release.antt =====
-- `release`: a handle comes back.
pub mod Updates
use tenann.Prelude.{
  ℕ, ◌-◌, ◌≡◌, ◌≢◌, refl, Bool, true, false, ◌&&◌, ◌||◌, none, some, List, [], ◌∷◌, ◌++◌, ◌==◌, ltb,
  if◌then◌else◌, arith, count, erase, inl, inr, Bool-cases, ==_iff, Option-cases, count-erase,
  count-snoc,
}
use mathlib.Core.List.{append-nil}
use tenann.Store.Heap.{get, set, get-set, total-set}
use tenann.Store.HandleTable
use tenann.Store.HandleTable.{HandleTable, same}
use tenann.Store.HandleTable.Remove.{remove_lem}
use tenann.Store.LruCache.{
  LruHandle, LruCache, deleter_call, sub64, release, release_kept, lru_append, free_one,
}
use tenann.Store.LruCache.Invariant.{weight, Inv}
use tenann.Store.LruCache.Update.{Update, update-Inv}
use tenann.Store.LruCache.Evict.{dropped}
use tenann.Store.LruCache.FreeAll.{free_one_lem}
use tenann.Store.LruCache.Release.Updates.{
  less, last_state, evict_state, idle_state, kept_state, last-Update, evict-Update, idle-Update,
  kept-Update,
}

-- The release of an entry frees it: nobody else refers to it, or only the cache does and the usage
-- is over the capacity.
abbrev pub goes : LruCache → LruHandle → Bool
goes s e = e.refs == 1 || e.in_cache && e.refs == 2 && ltb s.capacity s.usage

module _ {held : List ℕ} (s : LruCache) (v : Inv held [] s) (p : ℕ) where
  module _ (e : LruHandle) (found : get p s.heap ≡ some e) (has : count p held ≢ 0) where
    runs_last :
        {s' : LruCache}
        → e.refs ≡ 1
        → free_one p (last_state s v p e) ≡ some s'
        → release (some p) s ≡ some s'
    unfolding release release_kept
    runs_last once frees = ground (arith, found, once, frees)

    runs_evict :
        {s' : LruCache}
        → e.refs ≡ 2
        → e.in_cache ≡ true
        → ltb s.capacity s.usage ≡ true
        → free_one p (evict_state s v p e) ≡ some s'
        → release (some p) s ≡ some s'
    unfolding release release_kept
    runs_evict twice cached full frees = ground (arith, found, twice, cached, full, frees)

    runs_idle :
        e.refs ≡ 2
        → e.in_cache ≡ true
        → ltb s.capacity s.usage ≡ false
        → release (some p) s ≡ some (idle_state s v p e)
    unfolding release release_kept
    runs_idle twice cached room = ground (arith, found, twice, cached, room)

    runs_kept :
        e.refs ≢ 1
        → (e.in_cache && e.refs == 2) ≡ false
        → release (some p) s ≡ some (kept_state s v p e)
    unfolding release release_kept
    runs_kept more shared = ground (arith, found, more, shared, v.cells p, has)

    -- What a release leaves.
    pub record Releases (s' : LruCache) : Type 0 where
      pub runs : release (some p) s ≡ some s'
      pub inv : Inv (erase p held) [] s'
      pub freed : s'.freed ≡ s.freed ++ (if goes s e then deleter_call e ∷ [] else [])
      pub entry : get p s'.heap ≡ (if goes s e then none else some (less s v p e))

    Releases-last : e.refs ≡ 1 → (s' : LruCache) × Releases s'
    Releases-last once =
        let v' = update-Inv v p e (less s v p e) found (last-Update s v p e found has once) in
        let (s', frees, v'', f) = free_one_lem p (last_state s v p e) v' in
        (
          s',
          record {
            runs = runs_last once frees;
            inv = v'';
            freed = ground (arith, f.freed, once, get-set p p e (less s v p e) s.heap found);
            entry = ground (arith, f.heap p, once);
          },
        )

    Releases-evict :
        e.refs ≡ 2
        → e.in_cache ≡ true
        → ltb s.capacity s.usage ≡ true
        → (s' : LruCache) × Releases s'
    Releases-evict twice cached full =
        let v' = update-Inv v p e (dropped e) found (evict-Update s v p e found has twice cached) in
        let (s', frees, v'', f) = free_one_lem p (evict_state s v p e) v' in
        (
          s',
          record {
            runs = runs_evict twice cached full frees;
            inv = v'';
            freed =
                ground
                  (arith, f.freed, twice, cached, full, get-set p p e (dropped e) s.heap found);
            entry = ground (arith, f.heap p, twice, cached, full);
          },
        )

    Releases-idle :
        e.refs ≡ 2
        → e.in_cache ≡ true
        → ltb s.capacity s.usage ≡ false
        → (s' : LruCache) × Releases s'
    Releases-idle twice cached room = (
      (idle_state s v p e),
      record {
        runs = runs_idle twice cached room;
        inv = update-Inv v p e (less s v p e) found (idle-Update s v p e found has twice cached);
        freed = ground (arith, twice, cached, room, append-nil s.freed);
        entry = ground (arith, twice, cached, room, get-set p p e (less s v p e) s.heap found);
      },
    )

    Releases-shared :
        e.refs ≢ 1 → (e.in_cache && e.refs == 2) ≡ false → (s' : LruCache) × Releases s'
    Releases-shared more shared = (
      (kept_state s v p e),
      record {
        runs = runs_kept more shared;
        inv = update-Inv v p e (less s v p e) found (kept-Update s v p e found has more shared);
        freed = ground (arith, more, shared, append-nil s.freed);
        entry = ground (arith, more, shared, get-set p p e (less s v p e) s.heap found);
      },
    )

    releases : (s' : LruCache) × Releases s'
    releases = elim (Bool-cases (e.refs == 1)) [
      | inl once ↦ Releases-last ((==_iff e.refs 1).0 once)
      | inr more ↦
          let more' : e.refs ≢ 1 = ground (arith, more) in
          elim (Bool-cases (e.in_cache && e.refs == 2)) [
            | inr shared ↦ Releases-shared more' shared
            | inl idle ↦
                let twice : e.refs ≡ 2 = ground (arith, idle) in
                let cached : e.in_cache ≡ true = ground (arith, idle) in
                elim (Bool-cases (ltb s.capacity s.usage)) [
                  | inl full ↦ Releases-evict twice cached full
                  | inr room ↦ Releases-idle twice cached room
                ]
          ]
    ]

  -- `release` of a held handle returns. The entry is freed when nobody refers to it any more, or
  -- when only the cache does and the usage is over the capacity; otherwise it has one reference
  -- less, and on the last handle it goes to the LRU list.
  pub release_lem :
      count p held ≢ 0
      → (e : LruHandle) × (get p s.heap ≡ some e)
        × (s' : LruCache) × (release (some p) s ≡ some s')
        × Inv (erase p held) [] s'
        × (s'.freed ≡ s.freed ++ (if goes s e then deleter_call e ∷ [] else []))
        × (get p s'.heap ≡ (if goes s e then none else some (record e { refs = e.refs - 1 })))
  release_lem has = elim (Option-cases (get p s.heap)) [
    | inl free ↦ absurd (ground (arith, free, v.cells p, has))
    | inr (e, found) ↦
        let (s', r) = releases e found has in (e, found, s', r.runs, r.inv, r.freed, r.entry)
  ]
