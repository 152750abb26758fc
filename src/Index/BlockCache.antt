-- ===== src/Index/BlockCache.antt =====
-- BlockCacheInvertedLists of index/index_ivfpq_reader.cc and its hook: inverted lists that stay in the
-- file, of which the blocks that a list needs are read on demand and kept in the index cache. A result
-- `none` is an exception or a fault. The file is the list of its bytes. `buffers` are the contents of the
-- buffers that were read, by their addresses.
pub mod Layout
pub mod Blocks
pub mod GetPtr
use tenann.Prelude.{
  ℕ, zero, suc, ◌+◌, ◌-◌, ◌*◌, ◌/◌, ◌%◌, ◌^◌, Bool, true, false, Option, none, some, List, [], ◌∷◌,
  ◌++◌, ◌==◌, ltb, leb, if◌then◌else◌, check, ◌>>◌, ◌>>=◌, get_elem?, set, drop, length,
}
use tenann.Index.FaissUtil.{print}
use tenann.Index.IndexCache
use tenann.Index.IndexCache.{IndexCacheHandle}
use tenann.Store.CacheKey.{CacheKey}
use tenann.Store.ShardedLruCache.{ShardedLruCache}

-- OnDiskOneList.
pub record OneList : Type 0 where
  pub size : ℕ
  pub capacity : ℕ
  pub offset : ℕ

pub record BlockCacheInvertedLists : Type 0 where
  pub nlist : ℕ
  pub code_size : ℕ
  pub lists : List OneList
  pub cache_keys : List CacheKey
  pub offset_difference : List ℕ
  pub cache_handles : List IndexCacheHandle
  pub one_entry_size : ℕ
  pub totsize : ℕ
  pub start_offset : ℕ

abbrev pub block_size : ℕ
block_size = 4096

-- `(size_t)(-1)`.
abbrev pub invalid_offset : ℕ
invalid_offset = 2 ^ 64 - 1

abbrev pub u64 : ℕ → ℕ
u64 n = n % 2 ^ 64

-- Down and up to a multiple of the block size.
abbrev pub aligned_down : ℕ → ℕ
aligned_down n = n / block_size * block_size

abbrev pub aligned_up : ℕ → ℕ
aligned_up n = u64 (n + block_size - 1) / block_size * block_size

abbrev pub take {ℓ} : {A : Type ℓ} → ℕ → List A → List A
take zero xs = []
take (suc n) [] = []
take (suc n) (x ∷ xs) = x ∷ take n xs

-- The loop over the sizes: the lists, the differences to the aligned offsets, and the offset behind.
unfoldable pub layout : ℕ → List ℕ → ℕ → List OneList × List ℕ × ℕ
layout one_entry_size [] o = ([], [], o)
layout one_entry_size (n ∷ sizes) o =
    let (lists, differences, end) =
      layout one_entry_size sizes (u64 (o + u64 (n * one_entry_size))) in
    (
      record { size = n; capacity = n; offset = o } ∷ lists,
      u64 (o + 2 ^ 64 - aligned_down o) ∷ differences,
      end,
    )

-- The keys of the lists from `i` on.
abbrev pub keys_from : CacheKey → ℕ → ℕ → List CacheKey
keys_from prefix i zero = []
keys_from prefix i (suc n) = (prefix ++ print i) ∷ keys_from prefix (suc i) n

abbrev pub no_handles : ℕ → List IndexCacheHandle
no_handles zero = []
no_handles (suc n) = none ∷ no_handles n

-- `read_ArrayInvertedLists`, with the position in the file before and after. `prefix` has the hash of the
-- file's name and the time of its last change.
unfoldable pub read_array_inverted_lists :
    CacheKey → ℕ → ℕ → List ℕ → ℕ → ℕ → Option (BlockCacheInvertedLists × ℕ)
read_array_inverted_lists prefix nlist code_size sizes totsize o = do
  check (length sizes == nlist)
  check (leb o totsize)
  let entry = u64 (8 + code_size)
  let (lists, differences, end) = layout entry sizes o
  some (
    record {
      nlist = nlist;
      code_size = code_size;
      lists = lists;
      cache_keys = keys_from prefix 0 nlist;
      offset_difference = differences;
      cache_handles = no_handles nlist;
      one_entry_size = entry;
      totsize = totsize;
      start_offset = o;
    },
    end,
  )

-- The bytes that the system reads: as many as are asked for, or fewer at the end of the file.
abbrev pub pread : List ℕ → ℕ → ℕ → List ℕ
pread file n offset = take n (drop offset file)

-- A pointer into a buffer.
pub record Pointer : Type 0 where
  pub buffer : ℕ
  pub offset : ℕ

-- The lists, the cache and the buffers.
pub record BlockState : Type 0 where
  pub lists : BlockCacheInvertedLists
  pub cache : ShardedLruCache
  pub buffers : List (ℕ × List ℕ)

abbrev pub set_handle : ℕ → IndexCacheHandle → BlockCacheInvertedLists → BlockCacheInvertedLists
set_handle i handle l = record l { cache_handles = set l.cache_handles i handle }

-- The bytes of the blocks that a list needs; fewer than the file has is an exception.
unfoldable pub read_blocks : List ℕ → BlockCacheInvertedLists → OneList → ℕ → Option (List ℕ)
read_blocks file l one difference = do
  let size = u64 (one.size * l.one_entry_size)
  let aligned_offset = aligned_down one.offset
  let aligned_size = aligned_up (difference + size)
  let remaining_size = u64 (l.totsize + 2 ^ 64 - aligned_offset)
  let expected = if ltb aligned_size remaining_size then aligned_size else remaining_size
  let bytes = pread file aligned_size aligned_offset
  check (length bytes == expected)
  some bytes

-- `buffer` is the address of the buffer that is allocated, and `p` that of a new entry of the cache.
module _ (file : List ℕ) (buffer p : ℕ) where
  unfoldable pub get_ptr : ℕ → BlockState → Option (BlockState × Pointer)
  get_ptr list_no st = do
    let l = st.lists
    check (ltb list_no l.nlist)
    key ← get_elem? l.cache_keys list_no
    handle ← get_elem? l.cache_handles list_no
    difference ← get_elem? l.offset_difference list_no
    (c, handle', found) ← IndexCache.lookup key handle st.cache
    let hit = (do
      index ← IndexCache.index_ref handle' c
      some (
        record st { lists = set_handle list_no handle' l; cache = c },
        record { buffer = index; offset = difference },
      ))
    let miss = (do
      one ← get_elem? l.lists list_no
      bytes ← read_blocks file l one difference
      (c', handle'') ← IndexCache.insert p key buffer (length bytes) handle' c
      some (
        record {
          lists = set_handle list_no handle'' l;
          cache = c';
          buffers = (buffer, bytes) ∷ st.buffers;
        },
        record { buffer = buffer; offset = difference },
      ))
    if found then hit else miss

  -- A list without an offset has no codes and no ids.
  unfoldable pub get_codes : ℕ → BlockState → Option (BlockState × Option Pointer)
  get_codes list_no st = do
    one ← get_elem? st.lists.lists list_no
    let pointer = (do (st', q) ← get_ptr list_no st; some (st', some q))
    if one.offset == invalid_offset then some (st, none) else pointer

  unfoldable pub get_ids : ℕ → BlockState → Option (BlockState × Option Pointer)
  get_ids list_no st = do
    one ← get_elem? st.lists.lists list_no
    let pointer = (do
      (st', q) ← get_ptr list_no st
      some (st', some (record q { offset = q.offset + st.lists.code_size * one.capacity })))
    if one.offset == invalid_offset then some (st, none) else pointer
