-- ===== src/Store/ShardedLruCache/Client/Steps.antt =====
-- The calls on the sharded cache, one by one: each returns, and leaves the cache safe.
use tenann.Prelude.{
  ℕ, ◌+◌, ◌<◌, ◌≡◌, ◌≢◌, refl, Option, none, some, List, ◌∷◌, arith, count, erase, count-erase,
  length, Bool-cases, inl, inr,
}
use tenann.Store.CacheKey.{CacheKey, u32_mod}
use tenann.Store.HandleTable
use tenann.Store.HandleTable.{HandleTable}
use tenann.Store.LruCache.{CachePriority, add64}
use tenann.Store.LruCache.Erase.{erase_entry_lem}
use tenann.Store.LruCache.Insert.{insert_cache_lem}
use tenann.Store.LruCache.Kept.{Yields-some, Holds, HoldsBoth}
use tenann.Store.LruCache.Kept.Calls.{insert-Holds, lookup-Holds, release-Holds, erase_entry-Holds}
use tenann.Store.LruCache.Lookup.{hold, lookup_lem}
use tenann.Store.LruCache.Release.{release_lem}
use tenann.Store.ShardedLruCache
use tenann.Store.ShardedLruCache.{
  ShardedLruCache, num_shards, per_shard, hash_slice, shard, new_lru_cache, new_shards, set_each,
  prune_each, signed_ltb, read_entry,
}
use tenann.Store.ShardedLruCache.Client.{
  Command, inserts, looks_up, releases, erases, prunes, adjusts_capacity, Session, step, HasRoom,
}
use tenann.Store.ShardedLruCache.Client.Handles.{
  length-le-length_all, held_in, length-erase, AllInv-length, Safe, held_at, shard_at, put_back,
  entry_at, changed, Entries-at,
}
use tenann.Store.ShardedLruCache.Entries.{
  IsFree, IsFree-at, Home, Homed, set_each-Homed, prune_each-Homed, give, give-Homed,
}
use tenann.Store.ShardedLruCache.Routing.{shard-lt}
use tenann.Store.ShardedLruCache.Shards.{AllInv, set_each_lem, prune_each_lem}

count-hold :
    (found : Option ℕ) (xs hs : List ℕ) (q : ℕ)
    → count q (hold found xs) + count q hs ≡ count q xs + count q (hold found hs)
count-hold none xs hs q = refl
count-hold (some p) xs hs q = ground arith

length-hold :
    (found : Option ℕ) (xs hs : List ℕ)
    → length (hold found xs) + length hs ≡ length xs + length (hold found hs)
length-hold none xs hs = refl
length-hold (some p) xs hs = omega arith

-- The result of a call, which is safe.
abbrev pub Goes : Command → Session → Type 0
Goes c x = (y : Session) × (step c x ≡ some y) × Safe y

module _ (x : Session) (v : Safe x) where
  pub insertion :
      (p : ℕ) (key : CacheKey) (value charge deleter : ℕ) (priority : CachePriority)
      → IsFree p x.cache.shards
      → HasRoom key x.cache
      → Goes (inserts p key value charge deleter priority) x
  unfolding step ShardedLruCache.insert
  insertion p key value charge deleter priority free few =
      let h = hash_slice key in
      let i = shard h in
      let small = shard-lt key in
      let (s, here, w) = shard_at x v i small in
      let fresh = IsFree-at p x.cache.shards i s free here in
      let (_, _, s', runs, r) =
        insert_cache_lem s w p key h value charge deleter priority fresh (few s here) in
      let owner' = give v.owner p i in
      let homed' = give-Homed v.owner p i 0 x.cache.shards free v.homed in
      let entries =
        insert-Holds (Home owner' i) p key h value charge deleter priority s (ground arith, refl)
          (Entries-at owner' x.cache.shards i s homed' here) in
      (
        changed x i s' (p ∷ x.held),
        ground (arith, here, runs),
        put_back x v i small owner' (p ∷ held_at x v i small) (p ∷ x.held) s' homed'
            (Yields-some (Holds (Home owner' i)) _ s' entries runs) r.inv (λ q. ground arith)
            (omega arith),
      )

  pub a_lookup : (key : CacheKey) → length x.held + 2 < u32_mod → Goes (looks_up key) x
  unfolding step ShardedLruCache.lookup
  a_lookup key room =
      let h = hash_slice key in
      let i = shard h in
      let small = shard-lt key in
      let (s, here, w) = shard_at x v i small in
      let few : length (held_at x v i small) + 2 < u32_mod =
        omega (arith, room, v.sizes, length-le-length_all v.handles i) in
      let (s', runs, w', _, _, _, _, _, _) = lookup_lem s w key h few in
      let found = HandleTable.lookup key h s.table in
      let entries =
        lookup-Holds (Home v.owner i) key h s
          (Entries-at v.owner x.cache.shards i s v.homed here) in
      (
        changed x i s' (hold found x.held),
        ground (arith, here, runs),
        put_back x v i small v.owner (hold found (held_at x v i small)) (hold found x.held) s'
            v.homed (Yields-some (HoldsBoth (Home v.owner i)) _ (s', found) entries runs) w'
            (count-hold found x.held (held_at x v i small))
            (length-hold found x.held (held_at x v i small)),
      )

  pub a_release : (p : ℕ) → count p x.held ≢ 0 → Goes (releases p) x
  unfolding step ShardedLruCache.release
  a_release p has =
      let (i, inside, there) = held_in p v.handles (ground (arith, v.counts p, has)) in
      let small : i < num_shards =
        ground
          (arith, inside, AllInv-length v.handles x.cache.shards v.valid.all, v.valid.number) in
      let (s, here, w) = shard_at x v i small in
      let (e, found, s', runs, w', _, _) = release_lem s w p there in
      let (is_home, first) = entry_at x v i small p s e here found in
      let entries =
        release-Holds (Home v.owner i) p s (Entries-at v.owner x.cache.shards i s v.homed here) in
      (
        changed x i s' (erase p x.held),
        ground (arith, first, is_home, here, runs),
        put_back x v i small v.owner (erase p (held_at x v i small)) (erase p x.held) s' v.homed
            (Yields-some (Holds (Home v.owner i)) _ s' entries runs) w'
            (λ q.
              ground
                (arith, count-erase p q x.held, count-erase p q (held_at x v i small), has, there))
            (omega (arith, length-erase p x.held has, length-erase p (held_at x v i small) there)),
      )

  pub an_erasure : (key : CacheKey) → Goes (erases key) x
  unfolding step ShardedLruCache.erase
  an_erasure key =
      let h = hash_slice key in
      let i = shard h in
      let small = shard-lt key in
      let (s, here, w) = shard_at x v i small in
      let (s', r) = erase_entry_lem s w key h in
      let entries =
        erase_entry-Holds (Home v.owner i) key h s
          (Entries-at v.owner x.cache.shards i s v.homed here) in
      (
        changed x i s' x.held,
        ground (arith, here, r.runs),
        put_back x v i small v.owner (held_at x v i small) x.held s' v.homed
            (Yields-some (Holds (Home v.owner i)) _ s' entries r.runs) r.inv (λ q. refl) refl,
      )

  -- A step that changes every shard, and the handles in none.
  pub with_shards :
      (c : ShardedLruCache)
      → AllInv v.handles c.shards
      → length c.shards ≡ length x.cache.shards
      → Homed v.owner 0 c.shards
      → Safe (record x { cache = c })
  with_shards c all same homed = record {
    owner = v.owner;
    handles = v.handles;
    valid = record { all = all; number = ground (arith, same, v.valid.number) };
    homed = homed;
    counts = v.counts;
    sizes = v.sizes;
  }

  pub a_prune : Goes prunes x
  unfolding step ShardedLruCache.prune
  a_prune =
      let (ss, runs, all, _, same) = prune_each_lem v.handles x.cache.shards v.valid.all in
      let homed =
        Yields-some (Homed v.owner 0) _ ss (prune_each-Homed v.owner 0 x.cache.shards v.homed)
          runs in
      let c : ShardedLruCache = record x.cache { shards = ss } in
      (record x { cache = c }, ground (arith, runs), with_shards c all same homed)

  pub set_all :
      (n : ℕ)
      → (c : ShardedLruCache) × (ShardedLruCache.set_capacity n x.cache ≡ some c)
        × Safe (record x { cache = c })
  unfolding ShardedLruCache.set_capacity
  set_all n =
      let (ss, runs, all, _, same) =
        set_each_lem (per_shard n) v.handles x.cache.shards v.valid.all in
      let homed =
        Yields-some (Homed v.owner 0) _ ss
          (set_each-Homed v.owner (per_shard n) 0 x.cache.shards v.homed) runs in
      let c : ShardedLruCache = record x.cache { shards = ss; capacity = n } in
      (c, ground (arith, runs), with_shards c all same homed)

  pub an_adjustment : (delta min_capacity : ℕ) → Goes (adjusts_capacity delta min_capacity) x
  unfolding step ShardedLruCache.adjust_capacity
  an_adjustment delta min_capacity =
      elim (Bool-cases (signed_ltb (add64 x.cache.capacity delta) min_capacity)) [
        | inl refused ↦ (x, ground (arith, refused), v)
        | inr taken ↦
            let (c, runs, safe) = set_all (add64 x.cache.capacity delta) in
            (record x { cache = c }, ground (arith, taken, runs), safe)
      ]
