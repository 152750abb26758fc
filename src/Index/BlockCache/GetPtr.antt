-- ===== src/Index/BlockCache/GetPtr.antt =====
-- A pointer to a list leads to its bytes, at first from the file and then from the cache.
use tenann.Prelude.{
  ℕ, zero, suc, ◌+◌, ◌*◌, ◌%◌, ◌^◌, ◌<◌, ◌≤◌, ◌≡◌, refl, none, some, List, [], ◌∷◌, arith,
  get_elem?, set, length,
}
use tenann.Index.BlockCache.{
  OneList, BlockCacheInvertedLists, BlockState, Pointer, block_size, pread, set_handle, get_ptr,
}
use tenann.Index.BlockCache.Blocks.{read_blocks-list}
use tenann.Index.IndexCache.FirstUse.{Misses, first_use}
use tenann.Store.CacheKey.{CacheKey}
use tenann.Store.LruCache.{LruCache}
use tenann.Store.ShardedLruCache.Capacity.{Valid}

get_elem?-set_there :
    {A : Type 0} (xs : List A) (i : ℕ) (a v : A)
    → get_elem? xs i ≡ some a
    → get_elem? (set xs i v) i ≡ some v
get_elem?-set_there [] i a v h = absurd (ground (arith, h))
get_elem?-set_there (x ∷ xs) zero a v h = refl
get_elem?-set_there (x ∷ xs) (suc i) a v h = get_elem?-set_there xs i a v h

-- The list with its key, its place in a block and a null handle, inside a file of the size that is
-- known.
pub record IsList (file : List ℕ) (l : BlockCacheInvertedLists) (i : ℕ) (key : CacheKey)
    (one : OneList) : Type 0 where
  pub numbered : i < l.nlist
  pub key_at : get_elem? l.cache_keys i ≡ some key
  pub handle_at : get_elem? l.cache_handles i ≡ some none
  pub difference_at : get_elem? l.offset_difference i ≡ some (one.offset % block_size)
  pub list_at : get_elem? l.lists i ≡ some one
  pub whole : l.totsize ≡ length file
  pub small : length file < 2 ^ 63
  pub inside : one.offset + one.size * l.one_entry_size ≤ length file

-- Where the cache does not have the key of a list, `get_ptr` returns a pointer into a buffer that it
-- has read, and from there on the buffer holds the bytes of the list in the file, all of them. The next
-- `get_ptr`, whatever the file has become, returns the same pointer and reads nothing.
pub get_ptr-again :
    {held : List (List ℕ)} (file : List ℕ) (st : BlockState) (v : Valid held st.cache) (i : ℕ)
    (key : CacheKey) (one : OneList) (buffer p : ℕ) (s : LruCache)
    → IsList file st.lists i key one
    → Misses st.cache v key p s
    → let n = one.size * st.lists.one_entry_size in
      let q : Pointer = record { buffer = buffer; offset = one.offset % block_size } in
      (st' : BlockState) × (bytes : List ℕ) × (get_ptr file buffer p i st ≡ some (st', q))
      × (st'.buffers ≡ (buffer, bytes) ∷ st.buffers)
      × (pread bytes n q.offset ≡ pread file n one.offset)
      × (length (pread bytes n q.offset) ≡ n)
      × ((file' : List ℕ) (buffer' p' : ℕ)
          → (st'' : BlockState) × (get_ptr file' buffer' p' i st' ≡ some (st'', q))
            × (st''.buffers ≡ st'.buffers))
unfolding get_ptr
get_ptr-again file st v i key one buffer p s is_list m =
    let l = st.lists in
    let (bytes, reads, same, all) =
      read_blocks-list file l one is_list.whole is_list.small is_list.inside in
    let (c₁, c₂, c₃, x) = first_use st.cache v key p buffer (length bytes) s m in
    let st' : BlockState = record {
      lists = set_handle i (some p) l;
      cache = c₂;
      buffers = (buffer, bytes) ∷ st.buffers;
    } in
    let st'' : BlockState = record {
      lists = set_handle i (some p) st'.lists;
      cache = c₃;
      buffers = st'.buffers;
    } in
    (
      st',
      bytes,
      ground (
        arith, is_list.numbered, is_list.key_at, is_list.handle_at, is_list.difference_at,
        is_list.list_at, x.misses, reads, x.inserts,
      ),
      refl,
      same,
      all,
      λ file' buffer' p'. (
        st'',
        ground (
          arith,
          is_list.numbered,
          is_list.key_at,
          is_list.difference_at,
          get_elem?-set_there l.cache_handles i none (some p) is_list.handle_at,
          x.finds,
          x.refers,
        ),
        refl,
      ),
    )
