-- ===== src/Store/Tests/Sharded.antt =====
-- Clients of the sharded cache at a concrete run.
use tenann.Prelude.{ℕ, true, ◌≡◌, ◌+◌, refl, some, [], ◌∷◌, arith, to_nat}
use tenann.Store.Tests.{shard_0, shard_0-Inv}
use tenann.Store.LruCache.Invariant.{Inv}
use tenann.Store.ShardedLruCache.Shards.{AllInv}
use tenann.Store.ShardedLruCache.Capacity.{Valid}
use tenann.Store.Tests.Shards.{key}
use tenann.Store.CacheKey.{hash, hash_bytes, hash_word, hash_last, decode_fixed32}
use tenann.Store.Heap.{get, set}
use tenann.Store.HandleTable
use tenann.Store.HandleTable.{
  chain_find, chain_insert, resize, grow, push, push_chain, push_list, count_list, empty,
}
use tenann.Store.LruCache
use tenann.Store.LruCache.{
  LruCache, LruHandle, normal, init, evict_from_lru, evict_normal, evict_durable, free_all,
  replace_old, unref, release_kept,
}
use tenann.Store.ShardedLruCache
use tenann.Store.ShardedLruCache.{ShardedLruCache, new_lru_cache, new_shards, set_each, read_entry}
use tenann.Store.ShardedLruCache.Client.{
  Session, step, Reachable, HasRoom, starts, goes_on, inserts, releases,
}
use tenann.Store.ShardedLruCache.Client.Safety.{no_call_faults}
use tenann.Store.ShardedLruCache.Client.Held.{held-value, prune-leaves}
use tenann.Store.ShardedLruCache.Entries.{IsFree}

abbrev pub empty_shard : LruCache
empty_shard = record shard_0 { capacity = 10 }

abbrev pub new_cache : ShardedLruCache
new_cache = record { shards = empty_shard ∷ empty_shard ∷ []; last_id = 0; capacity = 20 }

empty_shard-Inv : Inv [] [] empty_shard
empty_shard-Inv = record {
  table_valid = shard_0-Inv.table_valid;
  distinct = shard_0-Inv.distinct;
  usage_total = shard_0-Inv.usage_total;
  cells = shard_0-Inv.cells;
  tabled = shard_0-Inv.tabled;
}

pub new_cache-Valid : Valid ([] ∷ [] ∷ []) new_cache
unfolding AllInv
new_cache-Valid = record { all = (empty_shard-Inv, (empty_shard-Inv, tt)); number = refl }

new_cache-Reachable : Reachable (record { cache = new_cache; held = [] })
unfolding new_lru_cache new_shards set_each LruCache.set_capacity init evict_from_lru evict_normal
    evict_durable free_all empty resize grow push push_chain push_list count_list
new_cache-Reachable = starts 20 refl

free_3 : IsFree 3 new_cache.shards
unfolding get
free_3 = (refl, (refl, tt))

room : HasRoom key new_cache
unfolding hash hash_bytes hash_word hash_last decode_fixed32
room = λ s here. ground (arith, here)

abbrev entry_3 : LruHandle
entry_3 = record {
  value = 300;
  deleter = 0;
  charge = 6;
  key = key;
  in_cache = true;
  refs = 2;
  hash = 4039468181;
  priority = normal;
}

abbrev filled_shard : LruCache
filled_shard = record {
  capacity = 10;
  usage = 6;
  lru = [];
  table = record {
    length = 4;
    elems = 1;
    list = [] ∷ (record { hash = 4039468181; key = key; ptr = 3 } ∷ []) ∷ [] ∷ [] ∷ [];
  };
  lookup_count = 0;
  hit_count = 0;
  heap = (3, entry_3) ∷ [];
  freed = [];
}

abbrev holding : Session
holding = record {
  cache = record new_cache { shards = empty_shard ∷ filled_shard ∷ [] };
  held = 3 ∷ [];
}

holding-Reachable : Reachable holding
unfolding step hash hash_bytes hash_word hash_last decode_fixed32 ShardedLruCache.insert
    LruCache.insert HandleTable.insert HandleTable.lookup chain_find chain_insert replace_old
    evict_from_lru evict_normal evict_durable free_all grow get set
holding-Reachable = goes_on (inserts 3 key 300 6 0 normal) new_cache-Reachable (free_3, room) refl

-- The same after the release.
abbrev released : Session
released = record {
  cache = record new_cache {
    shards =
        empty_shard
        ∷ record filled_shard { lru = 3 ∷ []; heap = (3, record entry_3 { refs = 1 }) ∷ [] }
        ∷ [];
  };
  held = [];
}

released-Reachable : Reachable released
unfolding step ShardedLruCache.release read_entry LruCache.release release_kept unref get set
released-Reachable = goes_on (releases 3) holding-Reachable (omega arith) refl

no_call_faults_example : (y : Session) × (step (releases 3) holding ≡ some y) × Reachable y
no_call_faults_example = no_call_faults (releases 3) holding-Reachable (omega arith)

held-value_example :
    (e : LruHandle) × (read_entry 3 holding.cache.shards ≡ some e)
    × (ShardedLruCache.value 3 holding.cache ≡ some e.value)
    × (e.refs ≡ 1 + to_nat e.in_cache)
held-value_example = held-value 3 holding-Reachable (omega arith)

prune-leaves_example :
    (c : ShardedLruCache) × (ShardedLruCache.prune released.cache ≡ some c)
    × ((p : ℕ) → IsFree p c.shards)
prune-leaves_example = prune-leaves released-Reachable refl
