-- ===== src/Index/IndexReader/Again.antt =====
-- A second read of the same file comes from the cache.
use tenann.Prelude.{ℕ, ◌≡◌, true, false, Option, none, some, List, arith}
use tenann.Index.FaissUtil.{codes}
use tenann.Index.IndexCache.FirstUse.{Misses, first_use}
use tenann.Index.IndexReader.{
  IndexReader, cache_key, read_index, force_read_index_and_overwrite_cache,
}
use tenann.Store.CacheKey.{CacheKey}
use tenann.Store.LruCache.{LruCache}
use tenann.Store.ShardedLruCache.{ShardedLruCache}
use tenann.Store.ShardedLruCache.Capacity.{Valid}

-- A reader that keeps index files in the cache and does not overwrite them, without a handle yet.
pub record Caches (r : IndexReader) : Type 0 where
  pub cache_set : r.cached ≡ true
  pub caches : r.options.cache_index_file ≡ true
  pub keeps : r.options.force_read_and_overwrite_cache ≡ false
  pub no_handle : r.cache_handle ≡ none

module _ {held : List (List ℕ)} (c : ShardedLruCache) (v : Valid held c) (r : IndexReader)
    (caches : Caches r) (path : List ℕ) (estimate : ℕ → ℕ) where
  abbrev pub key : CacheKey
  key = cache_key (codes r.options.custom_cache_key) path

  -- Where the cache does not have the key, a read of a file that can be read returns its index, and
  -- a second read, whatever the file has become, returns the same index from the cache.
  pub read_index-again :
      (read_index_file : List ℕ → Option ℕ) (p index : ℕ) (s : LruCache)
      → Misses c v key p s
      → read_index_file path ≡ some index
      → (r' : IndexReader) × (c' : ShardedLruCache) × (read_index read_index_file estimate p path r
            c
          ≡ some (r', c', index))
        × ((read_again : List ℕ → Option ℕ) (q : ℕ)
            → (c'' : ShardedLruCache) × (read_index read_again estimate q path r' c'
                ≡ some (r', c'', index)))
  unfolding read_index force_read_index_and_overwrite_cache
  read_index-again read_index_file p index s m reads =
      let (c₁, c₂, c₃, x) = first_use c v key p index (estimate index) s m in
      (
        record r { cache_handle = some p },
        c₂,
        ground (
          arith, caches.cache_set, caches.caches, caches.keeps, caches.no_handle, x.misses, reads,
          x.inserts,
        ),
        λ read_again q.
            (c₃, ground (arith, caches.cache_set, caches.caches, caches.keeps, x.finds, x.refers)),
      )
