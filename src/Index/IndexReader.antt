-- ===== src/Index/IndexReader.antt =====
-- IndexReader of index/index_reader.cc and IndexWriter of index/index_writer.cc. Reading and writing of
-- a file are parameters. A result `none` is a fault, or an exception of a reader or of a missing cache.
pub mod Again
pub mod Written
use tenann.Prelude.{
  ℕ, Bool, true, false, Option, none, some, List, [], ◌∷◌, if◌then◌else◌, check, ◌>>◌, ◌>>=◌,
}
use tenann.Index.FaissUtil.{codes}
use tenann.Index.IndexCache
use tenann.Index.IndexCache.{IndexCacheHandle}
use tenann.Index.Parameters.{IndexReaderOptions, IndexWriterOptions}
use tenann.Store.CacheKey.{CacheKey}
use tenann.Store.ShardedLruCache.{ShardedLruCache}

-- `cached` says whether an index cache is set.
pub record IndexReader : Type 0 where
  pub options : IndexReaderOptions
  pub cached : Bool
  pub cache_handle : IndexCacheHandle

-- The custom key, or the path if there is none.
abbrev pub cache_key : List ℕ → List ℕ → CacheKey
cache_key [] path = path
cache_key (c ∷ custom) path = c ∷ custom

-- `read_index_file` is that of the subclass, and `estimate` is `EstimateMemoryUsage` of an index. `p` is
-- the address of a new entry of the cache.
module _ (read_index_file : List ℕ → Option ℕ) (estimate : ℕ → ℕ) (p : ℕ) where
  unfoldable pub force_read_index_and_overwrite_cache :
      List ℕ → CacheKey → IndexReader → ShardedLruCache → Option (IndexReader × ShardedLruCache × ℕ)
  force_read_index_and_overwrite_cache path key r c = do
    index ← read_index_file path
    (c', handle) ← IndexCache.insert p key index (estimate index) r.cache_handle c
    some (record r { cache_handle = handle }, c', index)

  unfoldable pub read_index :
      List ℕ → IndexReader → ShardedLruCache → Option (IndexReader × ShardedLruCache × ℕ)
  read_index path r c =
      let key = cache_key (codes r.options.custom_cache_key) path in
      let search = (do
        (c', handle, found) ← IndexCache.lookup key r.cache_handle c
        let r' : IndexReader = record r { cache_handle = handle }
        let hit = (do index ← IndexCache.index_ref handle c'; some (r', c', index))
        if found then hit else force_read_index_and_overwrite_cache path key r' c') in
      let through_cache = (do
        check r.cached
        if r.options.force_read_and_overwrite_cache
            then force_read_index_and_overwrite_cache path key r c
            else search) in
      let from_file = (do index ← read_index_file path; some (r, c, index)) in
      if r.options.cache_index_file then through_cache else from_file

pub record IndexWriter : Type 0 where
  pub options : IndexWriterOptions
  pub cached : Bool

-- The files after a write, and whether it returned; otherwise it threw.
pub record FileWrite (Fs : Type 0) : Type 0 where
  pub files : Fs
  pub returned : Bool

-- `write_index_file` is that of the subclass. An exception leaves the cache as it is then.
module _ {Fs : Type 0} (write_index_file : ℕ → List ℕ → Fs → FileWrite Fs) (estimate : ℕ → ℕ)
    (p : ℕ) where
  -- The handle of the insertion is destroyed at the end of its block.
  unfoldable pub write_index :
      ℕ
      → List ℕ
      → Bool
      → IndexWriter
      → ShardedLruCache
      → Fs
      → Option (ShardedLruCache × FileWrite Fs)
  write_index index path memory_only w c fs =
      let key = cache_key (codes w.options.custom_cache_key) path in
      let to_cache = (do
        check w.cached
        (c', handle) ← IndexCache.insert p key index (estimate index) none c
        IndexCache.destroy handle c') in
      let finish = λ (c' : ShardedLruCache).
        if memory_only
        then some (c', record { files = fs; returned = true })
        else some (c', write_index_file index path fs) in
      (if w.options.write_index_cache then to_cache else some c) >>= finish
