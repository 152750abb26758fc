-- ===== src/Store/ShardedLruCache/Routing.antt =====
-- Every call on a key goes to the shard of its hash.
use tenann.Prelude.{
  ℕ, zero, suc, ◌+◌, ◌^◌, ◌<◌, ◌≡◌, refl, subst, none, some, List, [], ◌∷◌, arith, length,
  get_elem?, get_or, set, length-set,
}
use tenann.Store.CacheKey.{CacheKey, u32_mod}
use tenann.Store.CacheKey.Laws.{hash-lt}
use tenann.Store.Heap.{get}
use tenann.Store.HandleTable
use tenann.Store.HandleTable.{HandleTable}
use tenann.Store.HandleTable.Chain.{same_self}
use tenann.Store.LruCache.{LruCache, CachePriority}
use tenann.Store.LruCache.Invariant.{Inv}
use tenann.Store.LruCache.Lookup.{lookup_lem, hold}
use tenann.Store.LruCache.Erase.{erase_entry_lem}
use tenann.Store.LruCache.Client.Safety.{same_result}
use tenann.Store.LruCache.RoundTrip.{lookup-insert}
use tenann.Store.ShardedLruCache.{
  ShardedLruCache, num_shards, hash_slice, shard, insert, lookup, erase,
}
use tenann.Store.ShardedLruCache.Shards.{AllInv-at, AllInv-set}
use tenann.Store.ShardedLruCache.Capacity.{Valid}

-- The shard of a key is one that there is.
pub shard-lt : (key : CacheKey) → shard (hash_slice key) < num_shards
shard-lt key = omega (arith, hash-lt key 0)

-- A write to an array at an index in it is read back.
pub get_elem?-set :
    (ss : List LruCache) (i : ℕ) (s : LruCache) → i < length ss → get_elem? (set ss i s) i ≡ some s
get_elem?-set [] i s h = absurd (omega (arith, h))
get_elem?-set (t ∷ ss) zero s h = refl
get_elem?-set (t ∷ ss) (suc i) s h = get_elem?-set ss i s (omega (arith, h))

module _ {held : List (List ℕ)} (c : ShardedLruCache) (v : Valid held c) (key : CacheKey) where
  abbrev pub home : ℕ
  home = shard (hash_slice key)

  abbrev pub held_here : List ℕ
  held_here = get_or held home []

  in_range : home < length c.shards
  in_range = rw v.number (shard-lt key)

  -- The state with a new state of the shard of the key, and the handles held there.
  abbrev put_back : LruCache → ShardedLruCache
  put_back s = record c { shards = set c.shards home s }

  put_back-Valid : (h : List ℕ) (s : LruCache) → Inv h [] s → Valid (set held home h) (put_back s)
  put_back-Valid h s w = record {
    all = AllInv-set held c.shards home h s v.all w;
    number = ground (arith, length-set c.shards home s, v.number);
  }

  -- `lookup` returns what the table of the shard of the key has. Only that shard changes.
  lookup-home :
      length held_here + 2 < u32_mod
      → (s s' : LruCache) × (get_elem? c.shards home ≡ some s)
        × (lookup key c ≡ some (put_back s', HandleTable.lookup key (hash_slice key) s.table))
        × Valid
            (set held home (hold (HandleTable.lookup key (hash_slice key) s.table) held_here))
            (put_back s')
  unfolding lookup
  lookup-home room =
      let (s, here, w) = AllInv-at held c.shards home v.all in_range in
      let (s', runs, w', _, _, _, _, _, _) = lookup_lem s w key (hash_slice key) room in
      (s, s', here, ground (arith, here, runs), put_back-Valid _ s' w')

  -- `erase` returns, and only the shard of the key changes.
  erase-home :
      (s' : LruCache) × (erase key c ≡ some (put_back s'))
      × Valid (set held home held_here) (put_back s')
      × (HandleTable.lookup key (hash_slice key) s'.table ≡ none)
  unfolding erase
  erase-home =
      let (s, here, w) = AllInv-at held c.shards home v.all in_range in
      let (s', r) = erase_entry_lem s w key (hash_slice key) in
      (
        s',
        ground (arith, here, r.runs),
        put_back-Valid _ s' r.inv,
        ground (arith, r.map key (hash_slice key), same_self key (hash_slice key)),
      )

  -- An insertion followed by a lookup of the key returns the handle of the insertion.
  pub lookup-insert-home :
      (p value charge deleter : ℕ) (priority : CachePriority) (s : LruCache)
      → get_elem? c.shards home ≡ some s
      → get p s.heap ≡ none
      → s.table.elems < 2 ^ 31
      → length held_here + 3 < u32_mod
      → (c' c'' : ShardedLruCache) × (insert p key value charge deleter priority c ≡ some c')
        × (lookup key c' ≡ some (c'', some p))
  unfolding insert lookup
  lookup-insert-home p value charge deleter priority s here free few room =
      let (t, there, w) = AllInv-at held c.shards home v.all in_range in
      let w' : Inv held_here [] s = subst (Inv held_here []) (same_result there here) w in
      let (s', s'', puts, _, finds) =
        lookup-insert s w' key (hash_slice key) p value charge deleter priority free few room in
      (
        put_back s',
        record c { shards = set (set c.shards home s') home s'' },
        ground (arith, here, puts),
        ground (arith, get_elem?-set c.shards home s' in_range, finds),
      )
