-- ===== src/Store/ShardedLruCache.antt =====
-- ShardedLRUCache of store/lru_cache.h and lru_cache.cc. The shards have heaps of their own, and
-- memory is all of them together. A result `none` is a call that faults.
pub mod Shards
pub mod Capacity
pub mod Routing
pub mod Entries
pub mod Client
use tenann.Prelude.{
  ℕ, zero, suc, ◌+◌, ◌-◌, ◌/◌, ◌%◌, ◌^◌, Bool, true, false, Option, none, some, List, [], ◌∷◌, ◌==◌,
  ltb, if◌then◌else◌, ◌>>=◌, get_elem?, set, map,
}
use tenann.Store.CacheKey.{CacheKey, size, hash}
use tenann.Store.Heap.{get}
use tenann.Store.LruCache
use tenann.Store.LruCache.{LruCache, LruHandle, CachePriority, add64, u64_mod}

abbrev pub num_shard_bits : ℕ
num_shard_bits = 1

abbrev pub num_shards : ℕ
num_shards = 2 ^ num_shard_bits

pub record ShardedLruCache : Type 0 where
  pub shards : List LruCache
  pub last_id : ℕ
  pub capacity : ℕ

abbrev pub hash_slice : CacheKey → ℕ
hash_slice key = hash key 0

-- `hash >> (32 - kNumShardBits)`.
abbrev pub shard : ℕ → ℕ
shard h = h / 2 ^ 31

-- The division rounds up.
abbrev pub per_shard : ℕ → ℕ
per_shard capacity = add64 capacity (num_shards - 1) / num_shards

-- The loop over the shards of the constructor and of `_set_capacity`.
unfoldable pub set_each : ℕ → List LruCache → Option (List LruCache)
set_each n [] = some []
set_each n (s ∷ ss) = do s' ← LruCache.set_capacity n s; ss' ← set_each n ss; some (s' ∷ ss')

-- The array of new shards.
unfoldable pub new_shards : ℕ → Option (List LruCache)
new_shards zero = some []
new_shards (suc n) = do s ← LruCache.init; ss ← new_shards n; some (s ∷ ss)

-- The constructor, and `new_lru_cache`.
unfoldable pub new_lru_cache : ℕ → Option ShardedLruCache
new_lru_cache capacity = do
  ss ← new_shards num_shards
  shards ← set_each (per_shard capacity) ss
  some (record { shards = shards; last_id = 0; capacity = capacity })

unfoldable pub set_capacity : ℕ → ShardedLruCache → Option ShardedLruCache
set_capacity capacity c = do
  shards ← set_each (per_shard capacity) c.shards
  some (record c { shards = shards; capacity = capacity })

-- Two 64-bit patterns compared as signed numbers: the sign bit is flipped.
abbrev pub signed_ltb : ℕ → ℕ → Bool
signed_ltb a b = ltb (add64 a (2 ^ 63)) (add64 b (2 ^ 63))

-- `delta` is the 64-bit pattern of the signed difference.
unfoldable pub adjust_capacity : ℕ → ℕ → ShardedLruCache → Option (ShardedLruCache × Bool)
adjust_capacity delta min_capacity c =
    let new_capacity = add64 c.capacity delta in
    let adjusted = (do c' ← set_capacity new_capacity c; some (c', true)) in
    if signed_ltb new_capacity min_capacity then some (c, false) else adjusted

-- `p` is the address that `malloc` returns; it is the handle that is returned.
unfoldable pub insert :
    ℕ → CacheKey → ℕ → ℕ → ℕ → CachePriority → ShardedLruCache → Option ShardedLruCache
insert p key value charge deleter priority c = do
  let h = hash_slice key
  s ← get_elem? c.shards (shard h)
  s' ← LruCache.insert p key h value charge deleter priority s
  some (record c { shards = set c.shards (shard h) s' })

unfoldable pub lookup : CacheKey → ShardedLruCache → Option (ShardedLruCache × Option ℕ)
lookup key c = do
  let h = hash_slice key
  s ← get_elem? c.shards (shard h)
  (s', found) ← LruCache.lookup key h s
  some (record c { shards = set c.shards (shard h) s' }, found)

-- A read of the entry at an address.
unfoldable pub read_entry : ℕ → List LruCache → Option LruHandle
read_entry p [] = none
read_entry p (s ∷ ss) = elim (get p s.heap) [ none ↦ read_entry p ss | some e ↦ some e ]

unfoldable pub release : ℕ → ShardedLruCache → Option ShardedLruCache
unfolding read_entry
release p c = do
  e ← read_entry p c.shards
  s ← get_elem? c.shards (shard e.hash)
  s' ← LruCache.release (some p) s
  some (record c { shards = set c.shards (shard e.hash) s' })

unfoldable pub erase : CacheKey → ShardedLruCache → Option ShardedLruCache
erase key c = do
  let h = hash_slice key
  s ← get_elem? c.shards (shard h)
  s' ← LruCache.erase_entry key h s
  some (record c { shards = set c.shards (shard h) s' })

unfoldable pub value : ℕ → ShardedLruCache → Option ℕ
unfolding read_entry
value p c = do e ← read_entry p c.shards; some e.value

unfoldable pub new_id : ShardedLruCache → ShardedLruCache × ℕ
new_id c = let id = add64 c.last_id 1 in (record c { last_id = id }, id)

-- The loop of `prune`; the count goes to the log only.
unfoldable pub prune_each : List LruCache → Option (List LruCache)
prune_each [] = some []
prune_each (s ∷ ss) = do (s', _) ← LruCache.prune s; ss' ← prune_each ss; some (s' ∷ ss')

unfoldable pub prune : ShardedLruCache → Option ShardedLruCache
prune c = do shards ← prune_each c.shards; some (record c { shards = shards })

-- `_get_stat`: the sum over the shards.
unfoldable pub sum_stat : (LruCache → ℕ) → ℕ → List LruCache → ℕ
sum_stat f n [] = n
sum_stat f n (s ∷ ss) = sum_stat f (add64 n (f s)) ss

abbrev pub get_capacity : ShardedLruCache → ℕ
get_capacity c = sum_stat (λ s. s.capacity) 0 c.shards

abbrev pub get_memory_usage : ShardedLruCache → ℕ
get_memory_usage c = sum_stat (λ s. s.usage) 0 c.shards

abbrev pub get_lookup_count : ShardedLruCache → ℕ
get_lookup_count c = sum_stat (λ s. s.lookup_count) 0 c.shards

abbrev pub get_hit_count : ShardedLruCache → ℕ
get_hit_count c = sum_stat (λ s. s.hit_count) 0 c.shards

-- The JSON object of a shard; `F` is the type of float.
pub record ShardInfo (F : Type 0) : Type 0 where
  pub capacity : ℕ
  pub usage : ℕ
  pub usage_ratio : F
  pub lookup_count : ℕ
  pub hit_count : ℕ
  pub hit_ratio : F

-- Float division and the float 0.
module _ {F : Type 0} (divide : ℕ → ℕ → F) (zero_ratio : F) where
  abbrev pub ratio : ℕ → ℕ → F
  ratio a b = if b == 0 then zero_ratio else divide a b

  abbrev pub shard_info : LruCache → ShardInfo F
  shard_info s = record {
    capacity = s.capacity;
    usage = s.usage;
    usage_ratio = ratio s.usage s.capacity;
    lookup_count = s.lookup_count;
    hit_count = s.hit_count;
    hit_ratio = ratio s.hit_count s.lookup_count;
  }

  abbrev pub get_cache_status : ShardedLruCache → List (ShardInfo F)
  get_cache_status c = map shard_info c.shards
