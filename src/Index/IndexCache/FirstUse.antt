-- ===== src/Index/IndexCache/FirstUse.antt =====
-- The first use of a key, which misses and inserts an index, and the next, which finds it.
use tenann.Prelude.{
  ℕ, zero, suc, ◌+◌, ◌^◌, ◌<◌, ◌≡◌, refl, ap, ◌∙◌, subst, true, false, Option, none, some, List, [],
  ◌∷◌, arith, length, get_elem?, set,
}
use tenann.Index.IndexCache
use tenann.Index.IndexCache.{destroy, delete_leaked_index}
use tenann.Store.CacheKey.{CacheKey, u32_mod}
use tenann.Store.Heap.{get}
use tenann.Store.HandleTable
use tenann.Store.HandleTable.{HandleTable}
use tenann.Store.LruCache
use tenann.Store.LruCache.{LruCache, LruHandle, normal}
use tenann.Store.LruCache.Invariant.{Inv}
use tenann.Store.LruCache.Lookup.{counted, counted-Inv, lookup_miss}
use tenann.Store.LruCache.Reheld.{insert-lookup-release}
use tenann.Store.LruCache.Client.Safety.{same_result}
use tenann.Store.ShardedLruCache
use tenann.Store.ShardedLruCache.{ShardedLruCache, hash_slice, shard, read_entry}
use tenann.Store.ShardedLruCache.Entries.{IsFree, IsFree-at}
use tenann.Store.ShardedLruCache.Shards.{AllInv-at}
use tenann.Store.ShardedLruCache.Capacity.{Valid}
use tenann.Store.ShardedLruCache.Routing.{home, held_here, shard-lt, get_elem?-set}

set-set : (ss : List LruCache) (i : ℕ) (a b : LruCache) → set (set ss i a) i b ≡ set ss i b
set-set [] i a b = refl
set-set (s ∷ ss) zero a b = refl
set-set (s ∷ ss) (suc i) a b = ap (λ r. s ∷ r) (set-set ss i a b)

-- The only entry at the address is the one in the shard that is written.
read_entry-set :
    (p : ℕ) (ss : List LruCache) (i : ℕ) (s : LruCache) (e : LruHandle)
    → IsFree p ss
    → i < length ss
    → get p s.heap ≡ some e
    → read_entry p (set ss i s) ≡ some e
unfolding read_entry
read_entry-set p [] i s e f small h = absurd (omega (arith, small))
read_entry-set p (t ∷ ss) zero s e f small h = ground (arith, h)
read_entry-set p (t ∷ ss) (suc i) s e (free, f) small h =
    ground (arith, free, read_entry-set p ss i s e f (omega (arith, small)) h)

-- Calls that come to the shard of one key, which has the state `t`.
module _ (c : ShardedLruCache) (key : CacheKey)
    (small : shard (hash_slice key) < length c.shards) where
  abbrev pub put : LruCache → ShardedLruCache
  put t = record c { shards = set c.shards (shard (hash_slice key)) t }

  pub lookup-put :
      (t t' : LruCache) (found : Option ℕ)
      → LruCache.lookup key (hash_slice key) t ≡ some (t', found)
      → ShardedLruCache.lookup key (put t) ≡ some (put t', found)
  unfolding ShardedLruCache.lookup
  lookup-put t t' found runs = ground (
    arith,
    get_elem?-set c.shards (shard (hash_slice key)) t small,
    runs,
    set-set c.shards (shard (hash_slice key)) t t',
  )

  insert-put :
      (t t' : LruCache) (p index size : ℕ)
      → LruCache.insert p key (hash_slice key) index size delete_leaked_index normal t ≡ some t'
      → ShardedLruCache.insert p key index size delete_leaked_index normal (put t) ≡ some (put t')
  unfolding ShardedLruCache.insert
  insert-put t t' p index size runs = ground (
    arith,
    get_elem?-set c.shards (shard (hash_slice key)) t small,
    runs,
    set-set c.shards (shard (hash_slice key)) t t',
  )

  pub release-put :
      (t t' : LruCache) (p : ℕ) (e : LruHandle)
      → IsFree p c.shards
      → get p t.heap ≡ some e
      → e.hash ≡ hash_slice key
      → LruCache.release (some p) t ≡ some t'
      → ShardedLruCache.release p (put t) ≡ some (put t')
  unfolding ShardedLruCache.release
  release-put t t' p e free found is_hash runs = ground (
    arith,
    read_entry-set p c.shards (shard (hash_slice key)) t e free small found,
    is_hash,
    get_elem?-set c.shards (shard (hash_slice key)) t small,
    runs,
    set-set c.shards (shard (hash_slice key)) t t',
  )

  pub index_ref-put :
      (t : LruCache) (p : ℕ) (e : LruHandle)
      → IsFree p c.shards
      → get p t.heap ≡ some e
      → IndexCache.index_ref (some p) (put t) ≡ some e.value
  unfolding IndexCache.index_ref
  index_ref-put t p e free found =
      ground (arith, read_entry-set p c.shards (shard (hash_slice key)) t e free small found)

module _ {held : List (List ℕ)} (c : ShardedLruCache) (v : Valid held c) (key : CacheKey) where
  -- The cache does not have the key, the address `p` is free in all shards, and there is room in the
  -- counters.
  pub record Misses (p : ℕ) (s : LruCache) : Type 0 where
    pub here : get_elem? c.shards (home c v key) ≡ some s
    pub miss : HandleTable.lookup key (hash_slice key) s.table ≡ none
    pub free : IsFree p c.shards
    pub few : s.table.elems < 2 ^ 31
    pub room : length (held_here c v key) + 3 < u32_mod

  -- With a handle that is null at first: the lookup misses, the insertion sets the handle, the next
  -- lookup finds the entry and gives the old handle back, and the handle refers to the index.
  pub record FirstUse (p index size : ℕ) (c₁ c₂ c₃ : ShardedLruCache) : Type 0 where
    pub misses : IndexCache.lookup key none c ≡ some (c₁, none, false)
    pub inserts : IndexCache.insert p key index size none c₁ ≡ some (c₂, some p)
    pub finds : IndexCache.lookup key (some p) c₂ ≡ some (c₃, some p, true)
    pub refers : IndexCache.index_ref (some p) c₃ ≡ some index

  pub first_use :
      (p index size : ℕ) (s : LruCache)
      → Misses p s
      → (c₁ c₂ c₃ : ShardedLruCache) × FirstUse p index size c₁ c₂ c₃
  unfolding IndexCache.lookup IndexCache.insert destroy ShardedLruCache.lookup
  first_use p index size s m =
      let small : shard (hash_slice key) < length c.shards =
        ground (arith, v.number, shard-lt key) in
      let (t, there, w) = AllInv-at held c.shards (home c v key) v.all small in
      let w' : Inv (held_here c v key) [] s =
        subst (Inv (held_here c v key) []) (same_result there m.here) w in
      let fresh : get p s.heap ≡ none = IsFree-at p c.shards (home c v key) s m.free m.here in
      let s₀ = counted s w' in
      let (s₁, s₂, s₃, x) =
        insert-lookup-release s₀ (counted-Inv s w') key (hash_slice key) p index size
          delete_leaked_index normal fresh m.few m.room in
      let (e₂, found₂, is_hash, _) = x.entry₂ in
      let (e₃, found₃, is_index) = x.entry₃ in
      let misses : LruCache.lookup key (hash_slice key) s ≡ some (s₀, none) =
        lookup_miss s w' key (hash_slice key) m.miss in
      (
        put c key small s₀,
        put c key small s₁,
        put c key small s₃,
        record {
          misses = ground (arith, m.here, misses);
          inserts = ground (arith, insert-put c key small s₀ s₁ p index size x.inserted);
          finds = ground (
            arith,
            lookup-put c key small s₁ s₂ (some p) x.hit,
            release-put c key small s₂ s₃ p e₂ m.free found₂ is_hash x.released,
          );
          refers = index_ref-put c key small s₃ p e₃ m.free found₃ ∙ ap some is_index;
        },
      )
