-- ===== src/Store/Tests.antt =====
-- Runs of the shard and of the sharded cache at concrete inputs.
pub mod Tables
pub mod Shards
pub mod Sharded
use tenann.Store.LruCache.Invariant.{Inv, cached}
use tenann.Store.LruCache.EvictFromLru.{Evicts, evict_from_lru_lem}
use tenann.Store.LruCache.Lookup.{hold, hits, Touches, lookup_lem}
use tenann.Store.LruCache.Release.{goes, release_lem}
use tenann.Store.LruCache.Erase.{Erases, erase_entry_lem}
use tenann.Store.LruCache.Insert.{Inserts, insert_cache_lem}
use tenann.Store.LruCache.Client.Safety.{Reachable-Inv}
use tenann.Prelude.{◌-◌, if◌then◌else◌, ℕ, ◌≡◌, refl, some, none, List, [], ◌∷◌, arith, true}
use tenann.Store.CacheKey.{CacheKey, memcmp, key_eq, hash}
use tenann.Store.Heap.{get, set, free}
use tenann.Store.HandleTable
use tenann.Store.HandleTable.{
  same, chain_find, chain_insert, chain_remove, grow, push, push_chain, push_list, count_list,
  resize, empty,
}
use tenann.Store.LruCache.{
  deleter_call, LruCache, LruHandle, normal, durable, init, unref, lru_remove, free_one, free_all,
  evict_one_entry, evict_normal, evict_durable, evict_from_lru, set_capacity, lookup, release_kept,
  release, replace_old, insert, erase_entry,
}
use tenann.Store.LruCache.Client.{
  inserts, releases, sets_capacity, Session, step, Reachable, starts, goes_on,
}

abbrev table_0 : HandleTable.HandleTable
table_0 = record { length = 4; elems = 0; list = [] ∷ [] ∷ [] ∷ [] ∷ [] }

abbrev pub shard_0 : LruCache
shard_0 = record {
  capacity = 0;
  usage = 0;
  lru = [];
  table = table_0;
  lookup_count = 0;
  hit_count = 0;
  heap = [];
  freed = [];
}

Reachable-0 : Reachable (record { cache = shard_0; held = [] })
unfolding init empty resize grow push push_chain push_list count_list
Reachable-0 = starts refl

abbrev key_a : CacheKey
key_a = 97 ∷ []

abbrev key_b : CacheKey
key_b = 98 ∷ []

abbrev entry_a : LruHandle
entry_a = record {
  value = 100;
  deleter = 0;
  charge = 4;
  key = key_a;
  in_cache = true;
  refs = 2;
  hash = 5;
  priority = normal;
}

abbrev entry_b : LruHandle
entry_b = record {
  value = 200;
  deleter = 0;
  charge = 3;
  key = key_b;
  in_cache = true;
  refs = 1;
  hash = 9;
  priority = durable;
}

-- Two entries in one bucket: the first is held, the second is idle.
abbrev pub filled : LruCache
filled = record {
  capacity = 10;
  usage = 7;
  lru = 2 ∷ [];
  table = record {
    length = 4;
    elems = 2;
    list =
        []
        ∷ (record { hash = 5; key = key_a; ptr = 1 }
            ∷ record { hash = 9; key = key_b; ptr = 2 }
            ∷ [])
        ∷ []
        ∷ []
        ∷ [];
  };
  lookup_count = 0;
  hit_count = 0;
  heap = (2, entry_b) ∷ (1, entry_a) ∷ [];
  freed = [];
}

abbrev session : Session
session = record { cache = filled; held = 1 ∷ [] }

reachable : Reachable session
unfolding step set_capacity lookup release_kept release replace_old insert erase_entry
    evict_from_lru evict_normal evict_durable free_all free_one get set free HandleTable.lookup
    HandleTable.insert HandleTable.remove chain_find chain_insert chain_remove key_eq memcmp unref
    lru_remove evict_one_entry
reachable =
    goes_on (releases 2)
      (goes_on (inserts 2 key_b 9 200 3 0 durable)
        (goes_on (inserts 1 key_a 5 100 4 0 normal) (goes_on (sets_capacity 10) Reachable-0 tt refl)
          (refl, omega arith) refl)
        (refl, omega arith) refl)
      (omega arith) refl

pub filled-Inv : Inv (1 ∷ []) [] filled
filled-Inv = Reachable-Inv reachable

pub shard_0-Inv : Inv [] [] shard_0
shard_0-Inv = Reachable-Inv Reachable-0

fresh_3 : get 3 filled.heap ≡ none
unfolding get
fresh_3 = refl

-- The same after the release of the held entry.
abbrev idle : LruCache
idle = record filled {
  lru = 2 ∷ 1 ∷ [];
  heap = (2, entry_b) ∷ (1, record entry_a { refs = 1 }) ∷ [];
}

idle-Reachable : Reachable (record { cache = idle; held = [] })
unfolding step release_kept release get set unref
idle-Reachable = goes_on (releases 1) reachable (omega arith) refl

evict_from_lru_lem_example :
    (s' : LruCache) × (d : List ℕ) × (evict_from_lru 8 idle ≡ some (s', d)) × Evicts [] 8 idle s' d
evict_from_lru_lem_example = evict_from_lru_lem 8 idle (Reachable-Inv idle-Reachable)

insert_cache_lem_example :
    (s₁ : LruCache) × (d : List ℕ) × (s' : LruCache) × (insert 3 key_b 9 300 6 0 normal filled
      ≡ some s')
    × Inserts filled filled-Inv 3 key_b 9 300 6 0 normal s₁ d s'
insert_cache_lem_example =
    insert_cache_lem filled filled-Inv 3 key_b 9 300 6 0 normal fresh_3 (omega arith)

lookup_lem_example :
    (s' : LruCache) × (lookup key_b 9 filled ≡ some (s', HandleTable.lookup key_b 9 filled.table))
    × Inv (hold (HandleTable.lookup key_b 9 filled.table) (1 ∷ [])) [] s'
    × (s'.table ≡ filled.table)
    × (s'.usage ≡ 7)
    × (s'.freed ≡ [])
    × (s'.lookup_count ≡ 1)
    × (s'.hit_count ≡ hits (HandleTable.lookup key_b 9 filled.table) 0)
    × Touches filled filled-Inv (HandleTable.lookup key_b 9 filled.table) s'
lookup_lem_example = lookup_lem filled filled-Inv key_b 9 (omega arith)

release_lem_example :
    (e : LruHandle) × (get 1 filled.heap ≡ some e)
    × (s' : LruCache) × (release (some 1) filled ≡ some s')
    × Inv [] [] s'
    × (s'.freed ≡ (if goes filled e then deleter_call e ∷ [] else []))
    × (get 1 s'.heap ≡ (if goes filled e then none else some (record e { refs = e.refs - 1 })))
release_lem_example = release_lem filled filled-Inv 1 (omega arith)

erase_entry_lem_example :
    (s' : LruCache) × Erases filled filled-Inv key_a 5 (cached key_a 5 filled) s'
erase_entry_lem_example = erase_entry_lem filled filled-Inv key_a 5
