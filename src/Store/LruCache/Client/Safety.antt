-- ===== src/Store/LruCache/Client/Safety.antt =====
-- Memory safety of a shard under any allowed sequence of calls: no call faults, the invariant
-- holds at every point, and nothing leaks.
use tenann.Prelude.{
  ℕ, ◌%◌, ◌≡◌, refl, subst, none, some, [], arith, inl, inr, Option, Option-cases, length, count,
  ◌≢◌, ◌+◌, to_nat,
}
use tenann.Store.HandleTable.Map.{empty_lem}
use tenann.Store.Heap.{get, total}
use tenann.Store.LruCache.{LruHandle, LruCache, u64_mod, init, prune}
use tenann.Store.LruCache.Invariant.{weight, Inv}
use tenann.Store.LruCache.Insert.{insert_cache_lem}
use tenann.Store.LruCache.Lookup.{lookup_lem}
use tenann.Store.LruCache.Release.{release_lem}
use tenann.Store.LruCache.Erase.{erase_entry_lem}
use tenann.Store.LruCache.Capacity.{set_capacity_lem, prune_lem}
use tenann.Store.LruCache.Client.{
  Command, inserts, looks_up, releases, erases, prunes, sets_capacity, Session, step, Allowed,
  Reachable, starts, goes_on,
}

pub same_result : {A : Type 0} {o : Option A} {a b : A} → o ≡ some a → o ≡ some b → a ≡ b
same_result x y = cc

-- A new shard is made, and it satisfies the invariant.
pub init_lem : (s : LruCache) × (init ≡ some s) × Inv [] [] s
unfolding init get total
init_lem =
    let (t, made, valid, nothing) = empty_lem in
    (
      record {
        capacity = 0;
        usage = 0;
        lru = [];
        table = t;
        lookup_count = 0;
        hit_count = 0;
        heap = [];
        freed = [];
      },
      rw made refl,
      record {
        table_valid = valid;
        distinct = tt;
        usage_total = refl;
        cells = λ p. (refl, refl, refl);
        tabled = λ k h p e. absurd (ground (arith, e, nothing k h));
      },
    )

-- An allowed call returns, and keeps the invariant.
step_lem :
    (c : Command) (x : Session)
    → Inv x.held [] x.cache
    → Allowed c x
    → (y : Session) × (step c x ≡ some y) × Inv y.held [] y.cache
unfolding step
step_lem (inserts p key hash value charge deleter priority) x v (fresh, few) =
    let (_, _, s, runs, r) =
      insert_cache_lem x.cache v p key hash value charge deleter priority fresh few in
    (_, rw runs refl, r.inv)
step_lem (looks_up key hash) x v few =
    let (s, runs, v', _, _, _, _, _, _) = lookup_lem x.cache v key hash few in (_, rw runs refl, v')
step_lem (releases p) x v has =
    let (_, _, s, runs, v', _, _) = release_lem x.cache v p has in (_, rw runs refl, v')
step_lem (erases key hash) x v _ =
    let (s, r) = erase_entry_lem x.cache v key hash in (_, rw r.runs refl, r.inv)
step_lem prunes x v _ = let (s, runs, v', _, _) = prune_lem x.cache v in (_, rw runs refl, v')
step_lem (sets_capacity c) x v _ =
    let (s, runs, v', _, _, _) = set_capacity_lem x.cache v c in (_, rw runs refl, v')

-- The invariant holds whenever allowed calls have led somewhere.
pub Reachable-Inv : {x : Session} → Reachable x → Inv x.held [] x.cache
Reachable-Inv (starts made) = subst (Inv [] []) (same_result init_lem.1 made) init_lem.2
Reachable-Inv (goes_on {x} {y} c r allowed runs) =
    let (z, goes, v) = step_lem c x (Reachable-Inv r) allowed in
    subst (λ w. Inv w.held [] w.cache) (same_result goes runs) v

-- No allowed call of a session faults: it reads only allocated memory, unlinks only listed entries,
-- and no check fails.
never_faults :
    {x : Session} (c : Command)
    → Reachable x
    → Allowed c x
    → (y : Session) × (step c x ≡ some y) × Reachable y
never_faults {x} c r allowed =
    let (y, runs, _) = step_lem c x (Reachable-Inv r) allowed in (y, runs, goes_on c r allowed runs)

-- The memory that a session accounts for is the sum of the charges of the entries in use, modulo
-- 2 ^ 64.
pub usage_total : {x : Session} → Reachable x → x.cache.usage ≡ total weight x.cache.heap % u64_mod
usage_total r = (Reachable-Inv r).usage_total

-- A handle that is held refers to an allocated entry, with a reference for each time it is held.
handles_live :
    {x : Session} (p : ℕ)
    → Reachable x
    → count p x.held ≢ 0
    → (e : LruHandle) × (get p x.cache.heap ≡ some e)
      × (e.refs ≡ count p x.held + to_nat e.in_cache)
handles_live {x} p r has =
    let v = Reachable-Inv r in
    elim (Option-cases (get p x.cache.heap)) [
      | inl free ↦ absurd (ground (arith, free, v.cells p, has))
      | inr (e, found) ↦ (e, found, ground (arith, found, v.cells p))
    ]

-- Nothing leaks: when all handles are released, `prune` frees every entry.
prune_frees :
    {x : Session}
    → Reachable x
    → x.held ≡ []
    → (s : LruCache) × (n : ℕ) × (prune x.cache ≡ some (s, n)) × ((p : ℕ) → get p s.heap ≡ none)
prune_frees {x} r idle =
    let (s, runs, v, empty, _) = prune_lem x.cache (Reachable-Inv r) in
    (
      s,
      length x.cache.lru,
      runs,
      λ p. elim (Option-cases (get p s.heap)) [
        | inl free ↦ free
        | inr (e, found) ↦ absurd (ground (arith, found, v.cells p, empty, idle))
      ],
    )
