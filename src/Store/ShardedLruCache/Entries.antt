-- ===== src/Store/ShardedLruCache/Entries.antt =====
-- The entries of all shards: each is in the shard of its hash, and no address is in two shards.
use tenann.Prelude.{
  ℕ, zero, suc, ◌+◌, ◌≡◌, subst, none, some, List, [], ◌∷◌, ◌==◌, if◌then◌else◌, arith, get_elem?,
  set, Option-cases, Bool-cases, inl, inr,
}
use tenann.Store.Heap.{get}
use tenann.Store.LruCache.{LruCache, LruHandle}
use tenann.Store.LruCache.Kept.{Yields, Yields-bind, Entries, Entries-get}
use tenann.Store.LruCache.Kept.Calls.{init-Holds, set_capacity-Holds, prune-Holds}
use tenann.Store.LruCache
use tenann.Store.ShardedLruCache.{shard, read_entry, set_each, new_shards, prune_each}

-- No shard has an entry at the address.
abbrev pub IsFree : ℕ → List LruCache → Type 0
IsFree p [] = Unit {0}
IsFree p (s ∷ ss) = (get p s.heap ≡ none) × IsFree p ss

pub IsFree-at :
    (p : ℕ) (ss : List LruCache) (i : ℕ) (s : LruCache)
    → IsFree p ss
    → get_elem? ss i ≡ some s
    → get p s.heap ≡ none
IsFree-at p [] i s f h = absurd (ground (arith, h))
IsFree-at p (t ∷ ss) zero s (free, f) h = ground (arith, free, h)
IsFree-at p (t ∷ ss) (suc i) s (free, f) h = IsFree-at p ss i s f h

-- `owner` tells the shard that has an address. The hash belongs to the shard as well.
abbrev pub Home : (ℕ → ℕ) → ℕ → ℕ → ℕ → Type 0
Home owner i p hash = (owner p ≡ i) × (shard hash ≡ i)

-- The shards from `k` on.
abbrev pub Homed : (ℕ → ℕ) → ℕ → List LruCache → Type 0
Homed owner k [] = Unit {0}
Homed owner k (s ∷ ss) = Entries (Home owner k) s.heap × Homed owner (suc k) ss

module _ (owner : ℕ → ℕ) where
  pub Homed-at :
      (k i : ℕ) (ss : List LruCache) (s : LruCache)
      → Homed owner k ss
      → get_elem? ss i ≡ some s
      → Entries (Home owner (k + i)) s.heap
  Homed-at k i [] s h there = absurd (ground (arith, there))
  Homed-at k zero (t ∷ ss) s (here, h) there =
      let same : t ≡ s = ground (arith, there) in
      let start : k ≡ k + 0 = omega arith in
      subst (λ j. Entries (Home owner j) s.heap) start
        (subst (λ r. Entries (Home owner k) r.heap) same here)
  Homed-at k (suc i) (t ∷ ss) s (here, h) there =
      let next : suc k + i ≡ k + suc i = omega arith in
      subst (λ j. Entries (Home owner j) s.heap) next (Homed-at (suc k) i ss s h there)

  pub Homed-set :
      (k i : ℕ) (ss : List LruCache) (s : LruCache)
      → Homed owner k ss
      → Entries (Home owner (k + i)) s.heap
      → Homed owner k (set ss i s)
  Homed-set k i [] s h new = tt
  Homed-set k zero (t ∷ ss) s (here, h) new =
      let start : k + 0 ≡ k = omega arith in
      (subst (λ j. Entries (Home owner j) s.heap) start new, h)
  Homed-set k (suc i) (t ∷ ss) s (here, h) new =
      let next : k + suc i ≡ suc k + i = omega arith in
      (here, Homed-set (suc k) i ss s h (subst (λ j. Entries (Home owner j) s.heap) next new))

  -- An entry is read from the shard that has it.
  pub read_entry-Homed :
      (k i p : ℕ) (ss : List LruCache) (s : LruCache) (e : LruHandle)
      → Homed owner k ss
      → get_elem? ss i ≡ some s
      → get p s.heap ≡ some e
      → read_entry p ss ≡ some e
  unfolding read_entry
  read_entry-Homed k i p [] s e h there found = absurd (ground (arith, there))
  read_entry-Homed k zero p (t ∷ ss) s e h there found = ground (arith, there, found)
  read_entry-Homed k (suc i) p (t ∷ ss) s e (here, h) there found =
      elim (Option-cases (get p t.heap)) [
        | inl nothing ↦ ground (arith, nothing, read_entry-Homed (suc k) i p ss s e h there found)
        | inr (d, first) ↦
            let owned = (Entries-get (Home owner k) p t.heap d here first).0 in
            let owned' = (Entries-get _ p s.heap e (Homed-at (suc k) i ss s h there) found).0 in
            absurd (omega (arith, owned, owned'))
      ]

  pub set_each-Homed :
      (n k : ℕ) (ss : List LruCache) → Homed owner k ss → Yields (Homed owner k) (set_each n ss)
  unfolding set_each
  set_each-Homed n k [] h = tt
  set_each-Homed n k (s ∷ ss) (here, h) =
      Yields-bind (λ s'. Entries (Home owner k) s'.heap) (Homed owner k) (LruCache.set_capacity n s)
        _ (set_capacity-Holds (Home owner k) n s here)
        (λ s' here'.
          Yields-bind (Homed owner (suc k)) (Homed owner k) (set_each n ss) _
            (set_each-Homed n (suc k) ss h) (λ ss' h'. (here', h')))

  pub prune_each-Homed :
      (k : ℕ) (ss : List LruCache) → Homed owner k ss → Yields (Homed owner k) (prune_each ss)
  unfolding prune_each
  prune_each-Homed k [] h = tt
  prune_each-Homed k (s ∷ ss) (here, h) =
      Yields-bind (λ r. Entries (Home owner k) r.0.heap) (Homed owner k) (LruCache.prune s) _
        (prune-Holds (Home owner k) s here)
        (λ r here'.
          Yields-bind (Homed owner (suc k)) (Homed owner k) (prune_each ss) _
            (prune_each-Homed (suc k) ss h) (λ ss' h'. (here', h')))

  pub new_shards-Homed : (n k : ℕ) → Yields (Homed owner k) (new_shards n)
  unfolding new_shards
  new_shards-Homed zero k = tt
  new_shards-Homed (suc n) k =
      Yields-bind (λ s. Entries (Home owner k) s.heap) (Homed owner k) LruCache.init _
        (init-Holds (Home owner k))
        (λ s here.
          Yields-bind (Homed owner (suc k)) (Homed owner k) (new_shards n) _
            (new_shards-Homed n (suc k)) (λ ss h. (here, h)))

  -- An address that no shard has can be given to any shard.
  abbrev pub give : ℕ → ℕ → ℕ → ℕ
  give p i q = if q == p then i else owner q

  give-Entries :
      (p i k : ℕ) (m : List (ℕ × LruHandle))
      → get p m ≡ none
      → Entries (Home owner k) m
      → Entries (Home (give p i) k) m
  unfolding get
  give-Entries p i k [] free h = tt
  give-Entries p i k ((q, e) ∷ m) free ((owned, hashed), h) = elim (Bool-cases (q == p)) [
    | inl same ↦ absurd (ground (arith, same, free))
    | inr other ↦ (
      (ground (arith, other, owned), hashed),
      give-Entries p i k m (ground (arith, other, free)) h,
    )
  ]

  pub give-Homed :
      (p i k : ℕ) (ss : List LruCache) → IsFree p ss → Homed owner k ss → Homed (give p i) k ss
  give-Homed p i k [] free h = tt
  give-Homed p i k (s ∷ ss) (here, free) (entries, h) =
      (give-Entries p i k s.heap here entries, give-Homed p i (suc k) ss free h)
