-- ===== src/Index/IndexCache.antt =====
-- IndexCache and IndexCacheHandle of index/index_cache.cc above the sharded cache. An index is the
-- number of the object behind an IndexRef; the value of an entry stands for the reference that is leaked
-- into it. A result `none` is a fault or a failed check.
pub mod FirstUse
use tenann.Prelude.{ℕ, ◌*◌, Bool, true, false, Option, none, some, ◌>>=◌}
use tenann.Store.CacheKey.{CacheKey}
use tenann.Store.LruCache.{LruHandle, normal}
use tenann.Store.ShardedLruCache
use tenann.Store.ShardedLruCache.{
  ShardedLruCache, new_lru_cache, read_entry, get_memory_usage, get_capacity, get_lookup_count,
  get_hit_count,
}

-- A handle is the address of an entry, or null.
abbrev pub IndexCacheHandle : Type 0
IndexCacheHandle = Option ℕ

-- The deleter that deletes the leaked reference.
abbrev pub delete_leaked_index : ℕ
delete_leaked_index = 0

-- The capacity of the global instance.
unfoldable pub global_instance : Option ShardedLruCache
global_instance = new_lru_cache (1024 * 1024 * 1024)

-- The destructor of a handle.
unfoldable pub destroy : IndexCacheHandle → ShardedLruCache → Option ShardedLruCache
destroy none c = some c
destroy (some p) c = ShardedLruCache.release p c

-- The move assignment swaps, and the temporary is destroyed with what the handle had.
abbrev pub assign :
    IndexCacheHandle
    → IndexCacheHandle
    → ShardedLruCache
    → Option (ShardedLruCache × IndexCacheHandle)
assign handle new c = do c' ← destroy handle c; some (c', new)

-- The handle and the cache afterwards, and whether the index was found.
unfoldable pub lookup :
    CacheKey
    → IndexCacheHandle
    → ShardedLruCache
    → Option (ShardedLruCache × IndexCacheHandle × Bool)
lookup key handle c = do
  (c', found) ← ShardedLruCache.lookup key c
  elim found [
    | none ↦ some (c', handle, false)
    | some p ↦ do (c'', handle') ← assign handle (some p) c'; some (c'', handle', true)
  ]

-- `p` is the address of the new entry, and `size` what is estimated for the index.
unfoldable pub insert :
    ℕ
    → CacheKey
    → ℕ
    → ℕ
    → IndexCacheHandle
    → ShardedLruCache
    → Option (ShardedLruCache × IndexCacheHandle)
insert p key index size handle c = do
  c' ← ShardedLruCache.insert p key index size delete_leaked_index normal c
  assign handle (some p) c'

unfoldable pub set_capacity : ℕ → ShardedLruCache → Option ShardedLruCache
set_capacity capacity c = ShardedLruCache.set_capacity capacity c

unfoldable pub adjust_capacity : ℕ → ℕ → ShardedLruCache → Option (ShardedLruCache × Bool)
adjust_capacity delta min_capacity c = ShardedLruCache.adjust_capacity delta min_capacity c

abbrev pub memory_usage : ShardedLruCache → ℕ
memory_usage c = get_memory_usage c

abbrev pub capacity : ShardedLruCache → ℕ
capacity c = get_capacity c

abbrev pub lookup_count : ShardedLruCache → ℕ
lookup_count c = get_lookup_count c

abbrev pub hit_count : ShardedLruCache → ℕ
hit_count c = get_hit_count c

-- A null handle fails the check.
unfoldable pub cache_entry_ref_count : IndexCacheHandle → ShardedLruCache → Option ℕ
cache_entry_ref_count none c = none
cache_entry_ref_count (some p) c = do e ← read_entry p c.shards; some e.refs

unfoldable pub index_ref : IndexCacheHandle → ShardedLruCache → Option ℕ
index_ref none c = none
index_ref (some p) c = do e ← read_entry p c.shards; some e.value
