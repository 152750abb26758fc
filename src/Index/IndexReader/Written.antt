-- ===== src/Index/IndexReader/Written.antt =====
-- An index that was written through the cache is read from it.
use tenann.Prelude.{
  ℕ, ◌<◌, ◌≡◌, refl, ap, ◌∙◌, subst, Bool, true, false, Option, none, some, List, [], if◌then◌else◌,
  Bool-cases, inl, inr, arith, length,
}
use tenann.Index.FaissUtil.{codes}
use tenann.Index.IndexCache
use tenann.Index.IndexCache.{destroy, delete_leaked_index}
use tenann.Index.IndexCache.FirstUse.{Misses, put, lookup-put, release-put, index_ref-put}
use tenann.Index.IndexReader.{
  IndexReader, IndexWriter, FileWrite, cache_key, read_index, write_index,
  force_read_index_and_overwrite_cache,
}
use tenann.Index.IndexReader.Again.{Caches}
use tenann.Store.CacheKey.{CacheKey}
use tenann.Store.Heap.{get}
use tenann.Store.LruCache.{LruCache, over, normal}
use tenann.Store.LruCache.Client.Safety.{same_result}
use tenann.Store.LruCache.Invariant.{Inv}
use tenann.Store.LruCache.Stays.{insert-release-lookup}
use tenann.Store.ShardedLruCache
use tenann.Store.ShardedLruCache.{ShardedLruCache, hash_slice, shard}
use tenann.Store.ShardedLruCache.Capacity.{Valid}
use tenann.Store.ShardedLruCache.Entries.{IsFree-at}
use tenann.Store.ShardedLruCache.Routing.{home, held_here, shard-lt}
use tenann.Store.ShardedLruCache.Shards.{AllInv-at}

module _ {held : List (List ℕ)} (c : ShardedLruCache) (v : Valid held c) (key : CacheKey) where
  -- An insertion whose handle is destroyed at once, and a lookup with a handle that is null.
  record Written (p index size : ℕ) (c₁ c₂ c₃ : ShardedLruCache) : Type 0 where
    inserts : IndexCache.insert p key index size none c ≡ some (c₁, some p)
    destroys : destroy (some p) c₁ ≡ some c₂
    finds : IndexCache.lookup key none c₂ ≡ some (c₃, some p, true)
    refers : IndexCache.index_ref (some p) c₃ ≡ some index

  written :
      (p index size : ℕ) (s : LruCache)
      → Misses c v key p s
      → over size s ≡ false
      → (c₁ c₂ c₃ : ShardedLruCache) × Written p index size c₁ c₂ c₃
  unfolding IndexCache.lookup IndexCache.insert destroy ShardedLruCache.insert
  written p index size s m fits =
      let small : shard (hash_slice key) < length c.shards =
        ground (arith, v.number, shard-lt key) in
      let (t, there, w) = AllInv-at held c.shards (home c v key) v.all small in
      let w' : Inv (held_here c v key) [] s =
        subst (Inv (held_here c v key) []) (same_result there m.here) w in
      let fresh : get p s.heap ≡ none = IsFree-at p c.shards (home c v key) s m.free m.here in
      let (s₁, s₂, s₃, x) =
        insert-release-lookup s w' key (hash_slice key) p index size delete_leaked_index normal
          (record { free = fresh; few = m.few; miss = m.miss; fits = fits }) in
      let (e₃, found₃, is_index) = x.entry₃ in
      (
        put c key small s₁,
        put c key small s₂,
        put c key small s₃,
        record {
          inserts = ground (arith, m.here, x.inserted);
          destroys = release-put c key small s₁ s₂ p _ m.free x.entry₁ refl x.released;
          finds = ground (arith, lookup-put c key small s₂ s₃ (some p) x.hit);
          refers = index_ref-put c key small s₃ p e₃ m.free found₃ ∙ ap some is_index;
        },
      )

-- A writer that keeps what it writes in the cache.
pub record Keeps (w : IndexWriter) : Type 0 where
  pub cache_set : w.cached ≡ true
  pub keeps : w.options.write_index_cache ≡ true

-- Where the cache does not have the key and has room for the index, a write through the cache leaves the
-- index in the cache: a reader with the same key returns it, whatever the file is. The write does with the
-- file what the writer of the file does, whether that returns or throws, and nothing if it is for memory
-- only.
pub read_index-write_index :
    {held : List (List ℕ)} {Fs : Type 0} (c : ShardedLruCache) (v : Valid held c) (w : IndexWriter)
    (r : IndexReader) (path : List ℕ) (write_index_file : ℕ → List ℕ → Fs → FileWrite Fs)
    (estimate : ℕ → ℕ) (index p : ℕ) (s : LruCache) (memory_only : Bool) (fs : Fs)
    → Caches r
    → Keeps w
    → cache_key (codes w.options.custom_cache_key) path
      ≡ cache_key (codes r.options.custom_cache_key) path
    → Misses c v (cache_key (codes w.options.custom_cache_key) path) p s
    → over (estimate index) s ≡ false
    → (c' : ShardedLruCache) × (write_index write_index_file estimate p index path memory_only w c
          fs
        ≡ some (
          c',
          if memory_only
              then record { files = fs; returned = true }
              else write_index_file index path fs,
        ))
      × ((read_index_file : List ℕ → Option ℕ) (q : ℕ)
          → (r' : IndexReader) × (c'' : ShardedLruCache) × (read_index read_index_file estimate q
                path r c'
              ≡ some (r', c'', index)))
unfolding write_index read_index force_read_index_and_overwrite_cache
read_index-write_index c v w r path write_index_file estimate index p s memory_only fs caches keeps
      same m fits =
    let k = cache_key (codes w.options.custom_cache_key) path in
    let (c₁, c₂, c₃, x) = written c v k p index (estimate index) s m fits in
    (
      c₂,
      elim (Bool-cases memory_only) [
        | inl memory ↦ ground (arith, memory, keeps.cache_set, keeps.keeps, x.inserts, x.destroys)
        | inr file ↦ ground (arith, file, keeps.cache_set, keeps.keeps, x.inserts, x.destroys)
      ],
      λ read_index_file q. (
        record r { cache_handle = some p },
        c₃,
        ground (
          arith, same, caches.cache_set, caches.caches, caches.keeps, caches.no_handle, x.finds,
          x.refers,
        ),
      ),
    )
