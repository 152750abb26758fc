-- ===== src/Store/ShardedLruCache/Client/Held.antt =====
-- What a held handle of the sharded cache refers to.
use tenann.Prelude.{
  ℕ, zero, suc, ◌+◌, ◌<◌, ◌≡◌, ◌≢◌, refl, some, List, [], ◌∷◌, arith, to_nat, count, get_or,
  Option-cases, inl, inr,
}
use tenann.Store.Heap.{get}
use tenann.Store.LruCache.{LruCache, LruHandle}
use tenann.Store.ShardedLruCache.Client.Safety.{Reachable-Safe}
use tenann.Store.LruCache.Kept.{Entries-get}
use tenann.Store.ShardedLruCache
use tenann.Store.ShardedLruCache.{
  ShardedLruCache, num_shards, per_shard, hash_slice, shard, new_lru_cache, new_shards, set_each,
  prune_each, signed_ltb, read_entry,
}
use tenann.Store.ShardedLruCache.Client.{Session, Reachable}
use tenann.Store.ShardedLruCache.Client.Handles.{
  count_all, held_in, AllInv-length, shard_at, entry_at,
}
use tenann.Store.ShardedLruCache.Entries.{IsFree, Home, Homed}
use tenann.Store.ShardedLruCache.Shards.{AllInv, All, prune_each_lem}

-- Nobody holds a handle to an address in the shards from `k` on when its shard comes before them.
elsewhere :
    (owner : ℕ → ℕ) (p k : ℕ) (hs : List (List ℕ)) (ss : List LruCache)
    → AllInv hs ss
    → Homed owner k ss
    → owner p < k
    → count_all p hs ≡ 0
unfolding AllInv
elsewhere owner p k [] ss v homed before = refl
elsewhere owner p k (h ∷ hs) [] v homed before = absurd v
elsewhere owner p k (h ∷ hs) (s ∷ ss) (here, v) (entries, homed) before =
    let rest = elsewhere owner p (suc k) hs ss v homed (omega (arith, before)) in
    elim (Option-cases (get p s.heap)) [
      | inl free ↦ ground (arith, free, here.cells p, rest)
      | inr (e, found) ↦
          let owned = (Entries-get (Home owner k) p s.heap e entries found).0 in
          absurd (omega (arith, owned, before))
    ]

-- An address that is held in a shard is owned by it.
owned_at :
    (owner : ℕ → ℕ) (p k i : ℕ) (hs : List (List ℕ)) (ss : List LruCache)
    → AllInv hs ss
    → Homed owner k ss
    → count p (get_or hs i []) ≢ 0
    → owner p ≡ k + i
unfolding AllInv
owned_at owner p k i [] ss v homed has = absurd (has refl)
owned_at owner p k i (h ∷ hs) [] v homed has = absurd v
owned_at owner p k zero (h ∷ hs) (s ∷ ss) (here, v) (entries, homed) has =
    elim (Option-cases (get p s.heap)) [
      | inl free ↦ absurd (ground (arith, free, here.cells p, has))
      | inr (e, found) ↦ omega (arith, (Entries-get (Home owner k) p s.heap e entries found).0)
    ]
owned_at owner p k (suc i) (h ∷ hs) (s ∷ ss) (here, v) (entries, homed) has =
    omega (arith, owned_at owner p (suc k) i hs ss v homed has)

-- All handles to an address are held in the shard that has it.
count_all-home :
    (owner : ℕ → ℕ) (p k i : ℕ) (hs : List (List ℕ)) (ss : List LruCache)
    → AllInv hs ss
    → Homed owner k ss
    → count p (get_or hs i []) ≢ 0
    → count_all p hs ≡ count p (get_or hs i [])
unfolding AllInv
count_all-home owner p k i [] ss v homed has = absurd (has refl)
count_all-home owner p k i (h ∷ hs) [] v homed has = absurd v
count_all-home owner p k zero (h ∷ hs) (s ∷ ss) (here, v) (entries, homed) has =
    let owned = owned_at owner p k zero (h ∷ hs) (s ∷ ss) (here, v) (entries, homed) has in
    omega (arith, elsewhere owner p (suc k) hs ss v homed (omega (arith, owned)))
count_all-home owner p k (suc i) (h ∷ hs) (s ∷ ss) (here, v) (entries, homed) has =
    let owned = owned_at owner p (suc k) i hs ss v homed has in
    let rest = count_all-home owner p (suc k) i hs ss v homed has in
    elim (Option-cases (get p s.heap)) [
      | inl free ↦ ground (arith, free, here.cells p, rest)
      | inr (e, found) ↦
          let owned' = (Entries-get (Home owner k) p s.heap e entries found).0 in
          absurd (omega (arith, owned, owned'))
    ]

-- In every state that allowed calls lead to, a held handle refers to an allocated entry of the cache:
-- `value` returns its value, and its reference count is the number of times that clients hold it, and
-- one for the cache.
pub held-value :
    {x : Session} (p : ℕ)
    → Reachable x
    → count p x.held ≢ 0
    → (e : LruHandle) × (read_entry p x.cache.shards ≡ some e)
      × (ShardedLruCache.value p x.cache ≡ some e.value)
      × (e.refs ≡ count p x.held + to_nat e.in_cache)
unfolding ShardedLruCache.value
held-value {x} p r has =
    let v = Reachable-Safe r in
    let (i, inside, there) = held_in p v.handles (ground (arith, v.counts p, has)) in
    let small : i < num_shards =
      ground (arith, inside, AllInv-length v.handles x.cache.shards v.valid.all, v.valid.number) in
    let (s, here, w) = shard_at x v i small in
    let same = count_all-home v.owner p 0 i v.handles x.cache.shards v.valid.all v.homed there in
    elim (Option-cases (get p s.heap)) [
      | inl free ↦ absurd (ground (arith, free, w.cells p, there))
      | inr (e, found) ↦
          let (_, first) = entry_at x v i small p s e here found in
          (e, first, rw first refl, ground (arith, found, w.cells p, same, v.counts p))
    ]

-- Nobody holds a handle in any shard.
idle_shards :
    (hs : List (List ℕ)) (ss : List LruCache)
    → AllInv hs ss
    → All (λ s. s.lru ≡ []) ss
    → ((q : ℕ) → count_all q hs ≡ 0)
    → (p : ℕ) → IsFree p ss
unfolding AllInv All
idle_shards [] [] v empty idle p = tt
idle_shards [] (s ∷ ss) v empty idle p = absurd v
idle_shards (h ∷ hs) [] v empty idle p = absurd v
idle_shards (h ∷ hs) (s ∷ ss) (here, v) (gone, empty) idle p = (
  elim (Option-cases (get p s.heap)) [
    | inl free ↦ free
    | inr (e, found) ↦ absurd (ground (arith, found, here.cells p, gone, idle p))
  ],
  idle_shards hs ss v empty (λ q. omega (arith, idle q)) p,
)

-- When all handles are released, `prune` leaves no entry in any shard.
pub prune-leaves :
    {x : Session}
    → Reachable x
    → x.held ≡ []
    → (c : ShardedLruCache) × (ShardedLruCache.prune x.cache ≡ some c)
      × ((p : ℕ) → IsFree p c.shards)
unfolding ShardedLruCache.prune
prune-leaves {x} r idle =
    let v = Reachable-Safe r in
    let (ss, runs, all, empty, _) = prune_each_lem v.handles x.cache.shards v.valid.all in
    let c : ShardedLruCache = record x.cache { shards = ss } in
    (c, rw runs refl, idle_shards v.handles ss all empty (λ q. ground (arith, v.counts q, idle)))
