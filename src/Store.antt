-- ===== src/Store.antt =====
-- tenann/store: the key, the hash table and the LRU cache.
pub mod CacheKey
pub mod HandleTable
pub mod Heap
pub mod IndexMeta
pub mod LruCache
pub mod ShardedLruCache
pub mod Tests
