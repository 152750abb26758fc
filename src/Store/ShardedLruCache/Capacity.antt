-- ===== src/Store/ShardedLruCache/Capacity.antt =====
-- The capacity of the sharded cache, its division among the shards, and `prune`.
use tenann.Prelude.{
  ℕ, ◌+◌, ◌-◌, ◌^◌, ◌<◌, ◌≤◌, ◌≡◌, refl, true, false, Bool, some, List, [], ◌∷◌, arith, length, ltb,
  Bool-cases, inl, inr, subst,
}
use tenann.Store.LruCache.{LruCache, u64_mod, add64}
use tenann.Store.ShardedLruCache.{
  ShardedLruCache, num_shards, per_shard, new_lru_cache, set_capacity, adjust_capacity,
  get_capacity, sum_stat, prune, signed_ltb,
}
use tenann.Store.ShardedLruCache.Shards.{
  AllInv, All, Capped, set_each_lem, new_shards_lem, prune_each_lem, no_handles,
}

-- The cache with the handles held in each shard.
pub record Valid (held : List (List ℕ)) (c : ShardedLruCache) : Type 0 where
  pub all : AllInv held c.shards
  pub number : length c.shards ≡ num_shards

sum_capacity :
    (n : ℕ) (ss : List LruCache)
    → All (Capped n) ss
    → length ss ≡ 2
    → n + n < u64_mod
    → sum_stat (λ s. s.capacity) 0 ss ≡ n + n
unfolding All sum_stat
sum_capacity n [] a two small = absurd (omega (arith, two))
sum_capacity n (s ∷ []) a two small = absurd (omega (arith, two))
sum_capacity n (s ∷ t ∷ []) ((a, _), ((b, _), _)) two small = ground (arith, a, b, small)
sum_capacity n (s ∷ t ∷ u ∷ ss) a two small = absurd (omega (arith, two))

-- The state with a capacity: every shard has its share, and the shares are together what was asked
-- for, or one more.
pub record HasCapacity (held : List (List ℕ)) (capacity : ℕ) (c : ShardedLruCache) : Type 0 where
  pub valid : Valid held c
  pub stored : c.capacity ≡ capacity
  pub shares : All (Capped (per_shard capacity)) c.shards
  pub enough : capacity ≤ get_capacity c
  pub tight : get_capacity c ≤ capacity + 1

has_capacity :
    {held : List (List ℕ)} (capacity : ℕ) (last_id : ℕ) (ss : List LruCache)
    → capacity + 1 < u64_mod
    → AllInv held ss
    → All (Capped (per_shard capacity)) ss
    → length ss ≡ num_shards
    → HasCapacity held capacity (record { shards = ss; last_id = last_id; capacity = capacity })
has_capacity capacity last_id ss small v capped two =
    let total = sum_capacity (per_shard capacity) ss capped two (omega (arith, small)) in
    record {
      valid = record { all = v; number = two };
      stored = refl;
      shares = capped;
      enough = ground (arith, total, small);
      tight = ground (arith, total, small);
    }

-- The constructor returns a valid cache with the capacity.
new_lru_cache_lem :
    (capacity : ℕ)
    → capacity + 1 < u64_mod
    → (c : ShardedLruCache) × (new_lru_cache capacity ≡ some c)
      × HasCapacity (no_handles num_shards) capacity c
unfolding new_lru_cache
new_lru_cache_lem capacity small =
    let (ss, made, v, two) = new_shards_lem num_shards in
    let (ss', runs, v', capped, same) = set_each_lem (per_shard capacity) _ ss v in
    (
      record { shards = ss'; last_id = 0; capacity = capacity },
      ground (arith, made, runs),
      has_capacity capacity 0 ss' small v' capped (ground (arith, same, two)),
    )

module _ {held : List (List ℕ)} (c : ShardedLruCache) (v : Valid held c) where
  -- `set_capacity` returns with the capacity divided among the shards.
  set_capacity_each :
      (capacity : ℕ)
      → capacity + 1 < u64_mod
      → (c' : ShardedLruCache) × (set_capacity capacity c ≡ some c') × HasCapacity held capacity c'
  unfolding set_capacity
  set_capacity_each capacity small =
      let (ss, runs, v', capped, same) = set_each_lem (per_shard capacity) held c.shards v.all in
      (
        record c { shards = ss; capacity = capacity },
        ground (arith, runs),
        has_capacity capacity c.last_id ss small v' capped (ground (arith, same, v.number)),
      )

  -- What `adjust_capacity` does when the new capacity should be `n`.
  abbrev pub Adjusts : (delta min_capacity n : ℕ) → Bool → Type 0
  Adjusts delta min_capacity n true = adjust_capacity delta min_capacity c ≡ some (c, false)
  Adjusts delta min_capacity n false =
      (c' : ShardedLruCache) × (adjust_capacity delta min_capacity c ≡ some (c', true))
      × HasCapacity held n c'

  adjust_to :
      (delta min_capacity n : ℕ)
      → add64 c.capacity delta ≡ n
      → n + 1 < u64_mod
      → Adjusts delta min_capacity n (signed_ltb n min_capacity)
  unfolding adjust_capacity
  adjust_to delta min_capacity n same small =
      let (c', runs, has) = set_capacity_each n small in
      elim (Bool-cases (signed_ltb n min_capacity)) [
        | inl less ↦ rw less (ground (arith, same, less))
        | inr fits ↦ rw fits (c', ground (arith, same, fits, runs), has)
      ]

  -- `adjust_capacity` by a difference that is not negative: it refuses, and changes nothing, when
  -- the new capacity would be below the minimum; otherwise the cache has the new capacity.
  adjust_capacity_grows :
      (d min_capacity : ℕ)
      → c.capacity + d < 2 ^ 63
      → min_capacity < 2 ^ 63
      → Adjusts d min_capacity (c.capacity + d) (ltb (c.capacity + d) min_capacity)
  adjust_capacity_grows d min_capacity small small' =
      let plain : signed_ltb (c.capacity + d) min_capacity ≡ ltb (c.capacity + d) min_capacity =
        ground (arith, small, small') in
      subst (Adjusts d min_capacity (c.capacity + d)) plain
        (adjust_to d min_capacity (c.capacity + d) (omega (arith, small)) (omega (arith, small)))

  module _ (d min_capacity : ℕ) (pos : 0 < d) (least : d ≤ 2 ^ 63) (small : c.capacity < 2 ^ 63)
      (small' : min_capacity < 2 ^ 63) (negative : ltb c.capacity d ≡ true) where
    refuses : ltb c.capacity (min_capacity + d) ≡ true
    refuses = ground (arith, negative)

    below_zero : adjust_capacity (2 ^ 64 - d) min_capacity c ≡ some (c, false)
    unfolding adjust_capacity
    below_zero =
        let less : signed_ltb (add64 c.capacity (2 ^ 64 - d)) min_capacity ≡ true =
          ground (arith, pos, least, small, small', negative) in
        rw less refl

  -- `adjust_capacity` by the difference `- d`, also when the capacity is less than `d`.
  adjust_capacity_shrinks :
      (d min_capacity : ℕ)
      → 0 < d
      → d ≤ 2 ^ 63
      → c.capacity < 2 ^ 63
      → min_capacity < 2 ^ 63
      → Adjusts (2 ^ 64 - d) min_capacity (c.capacity - d) (ltb c.capacity (min_capacity + d))
  adjust_capacity_shrinks d min_capacity pos least small small' =
      elim (Bool-cases (ltb c.capacity d)) [
        | inl negative ↦
            rw (refuses d min_capacity pos least small small' negative)
              (below_zero d min_capacity pos least small small' negative)
        | inr positive ↦
            let n : ℕ = c.capacity - d in
            let plain : signed_ltb n min_capacity ≡ ltb c.capacity (min_capacity + d) =
              ground (arith, positive, small, small') in
            subst (Adjusts (2 ^ 64 - d) min_capacity n) plain (
              adjust_to (2 ^ 64 - d) min_capacity n (ground (arith, positive, small, pos, least))
                (omega (arith, small)))
      ]

  -- `prune` returns with no idle entry left in any shard.
  prune_shards :
      (c' : ShardedLruCache) × (prune c ≡ some c')
      × Valid held c'
      × All (λ s. s.lru ≡ []) c'.shards
      × (c'.capacity ≡ c.capacity)
  unfolding prune
  prune_shards =
      let (ss, runs, v', empty, same) = prune_each_lem held c.shards v.all in
      (
        record c { shards = ss },
        ground (arith, runs),
        record { all = v'; number = ground (arith, same, v.number) },
        empty,
        refl,
      )
