-- ===== src/Store/ShardedLruCache/Client/Safety.antt =====
-- Memory safety of the sharded cache under any allowed sequence of calls.
use tenann.Prelude.{ℕ, zero, suc, ◌≡◌, refl, sym, subst, some, [], arith}
use tenann.Store.LruCache.Client.Safety.{same_result}
use tenann.Store.LruCache.Kept.{Yields-some}
use tenann.Store.ShardedLruCache
use tenann.Store.ShardedLruCache.{
  ShardedLruCache, num_shards, per_shard, hash_slice, shard, new_lru_cache, new_shards, set_each,
  prune_each, signed_ltb, read_entry,
}
use tenann.Store.ShardedLruCache.Client.{
  Command, inserts, looks_up, releases, erases, prunes, sets_capacity, adjusts_capacity, makes_id,
  Session, step, Allowed, Reachable, starts, goes_on,
}
use tenann.Store.ShardedLruCache.Client.Handles.{count_all, Safe}
use tenann.Store.ShardedLruCache.Entries.{Homed, set_each-Homed, new_shards-Homed}
use tenann.Store.ShardedLruCache.Shards.{set_each_lem, new_shards_lem, no_handles}
use tenann.Store.ShardedLruCache.Client.Steps.{
  Goes, insertion, a_lookup, a_release, an_erasure, with_shards, a_prune, set_all, an_adjustment,
}

-- An allowed call returns, and leaves the cache safe.
step-Safe : (c : Command) (x : Session) → Safe x → Allowed c x → Goes c x
unfolding step ShardedLruCache.new_id
step-Safe (inserts p key value charge deleter priority) x v (free, few) =
    insertion x v p key value charge deleter priority free few
step-Safe (looks_up key) x v room = a_lookup x v key room
step-Safe (releases p) x v has = a_release x v p has
step-Safe (erases key) x v _ = an_erasure x v key
step-Safe prunes x v _ = a_prune x v
step-Safe (sets_capacity n) x v _ =
    let (c, runs, safe) = set_all x v n in (record x { cache = c }, rw runs refl, safe)
step-Safe (adjusts_capacity delta min_capacity) x v _ = an_adjustment x v delta min_capacity
step-Safe makes_id x v _ =
    (_, refl, with_shards x v (ShardedLruCache.new_id x.cache).0 v.valid.all refl v.homed)

nobody : (n q : ℕ) → count_all q (no_handles n) ≡ 0
nobody zero q = refl
nobody (suc n) q = omega (arith, nobody n q)

-- A new cache is safe.
new-Safe :
    (capacity : ℕ)
    → (c : ShardedLruCache) × (new_lru_cache capacity ≡ some c)
      × Safe (record { cache = c; held = [] })
unfolding new_lru_cache
new-Safe capacity =
    let (ss, made, all, number) = new_shards_lem num_shards in
    let (ss', runs, all', _, same) =
      set_each_lem (per_shard capacity) (no_handles num_shards) ss all in
    let owner : ℕ → ℕ = λ p. 0 in
    let homed = Yields-some (Homed owner 0) _ ss (new_shards-Homed owner num_shards 0) made in
    let homed' =
      Yields-some (Homed owner 0) _ ss' (set_each-Homed owner (per_shard capacity) 0 ss homed)
        runs in
    (
      record { shards = ss'; last_id = 0; capacity = capacity },
      ground (arith, made, runs),
      record {
        owner = owner;
        handles = no_handles num_shards;
        valid = record { all = all'; number = ground (arith, same, number) };
        homed = homed';
        counts = λ q. sym (nobody num_shards q);
        sizes = refl;
      },
    )

pub Reachable-Safe : {x : Session} → Reachable x → Safe x
Reachable-Safe (starts capacity made) =
    let (_, made', safe) = new-Safe capacity in
    subst (λ c. Safe (record { cache = c; held = [] })) (same_result made' made) safe
Reachable-Safe (goes_on {x} {y} c r allowed runs) =
    let (_, runs', safe) = step-Safe c x (Reachable-Safe r) allowed in
    subst Safe (same_result runs' runs) safe

-- An allowed call on a sharded cache that allowed calls have led to returns: no read of memory that is
-- not allocated, no entry taken off a list that it is not on, no failed check. The result is reachable
-- again.
pub no_call_faults :
    {x : Session} (c : Command)
    → Reachable x
    → Allowed c x
    → (y : Session) × (step c x ≡ some y) × Reachable y
no_call_faults {x} c r allowed =
    let (y, runs, _) = step-Safe c x (Reachable-Safe r) allowed in
    (y, runs, goes_on c r allowed runs)
