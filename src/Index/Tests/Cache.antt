-- ===== src/Index/Tests/Cache.antt =====
-- Reads through a cache of two shards, in which key and address are new.
use tenann.Prelude.{
  ℕ, ◌+◌, ◌≡◌, refl, ltb, if◌then◌else◌, true, false, Option, none, some, List, [], ◌∷◌, arith, map,
  length, replicate,
}
use tenann.Index.BlockCache.{BlockState, OneList, pread, get_ptr, layout}
use tenann.Index.BlockCache.Layout.{Tiles, total_bytes, offset_in_block, layout-Tiles}
use tenann.Index.BlockCache.GetPtr.{IsList, get_ptr-again}
use tenann.Index.IndexCache.FirstUse.{Misses}
use tenann.Index.IndexReader.{IndexReader, IndexWriter, FileWrite, read_index, write_index}
use tenann.Index.IndexReader.Again.{Caches, read_index-again}
use tenann.Index.IndexReader.Written.{read_index-write_index}
use tenann.Index.Parameters.{reader_default, writer_default}
use tenann.Store.CacheKey.{hash, hash_bytes, hash_word, hash_last, decode_fixed32}
use tenann.Store.Heap.{get}
use tenann.Store.HandleTable
use tenann.Store.HandleTable.{HandleTable, chain_find}
use tenann.Store.ShardedLruCache.{ShardedLruCache, hash_slice}
use tenann.Store.Tests.{shard_0}
use tenann.Store.Tests.Sharded.{new_cache, new_cache-Valid, empty_shard}
use tenann.Store.Tests.Shards.{both, both-Valid, key, here-eq}

key_missing : HandleTable.lookup key (hash_slice key) shard_0.table ≡ none
unfolding HandleTable.lookup chain_find hash hash_bytes hash_word hash_last decode_fixed32
key_missing = refl

reader_here : Misses both both-Valid key 3 shard_0
unfolding get
reader_here = record {
  here = rw here-eq refl;
  miss = key_missing;
  free = (refl, (refl, tt));
  few = omega arith;
  room = rw here-eq (omega arith);
}

abbrev reader : IndexReader
reader = record {
  options = record reader_default { cache_index_file = true };
  cached = true;
  cache_handle = none;
}

reader-Caches : Caches reader
reader-Caches = record { cache_set = refl; caches = refl; keeps = refl; no_handle = refl }

read_index-again_example :
    (r' : IndexReader) × (c' : ShardedLruCache) × (read_index
        (λ path. some 7)
        (λ index. 5)
        3
        key
        reader
        both
      ≡ some (r', c', 7))
    × ((read_again : List ℕ → Option ℕ) (q : ℕ)
        → (c'' : ShardedLruCache) × (read_index read_again (λ index. 5) q key r' c'
            ≡ some (r', c'', 7)))
read_index-again_example =
    read_index-again both both-Valid reader reader-Caches key (λ index. 5) (λ path. some 7) 3 7
      shard_0 reader_here refl

abbrev writer : IndexWriter
writer = record { options = record writer_default { write_index_cache = true }; cached = true }

new_cache-Misses : Misses new_cache new_cache-Valid key 3 empty_shard
unfolding get
new_cache-Misses = record {
  here = rw here-eq refl;
  miss = key_missing;
  free = (refl, (refl, tt));
  few = omega arith;
  room = rw here-eq (omega arith);
}

-- The files are a log here, and a path that is too long cannot be written.
abbrev write_file : ℕ → List ℕ → List (ℕ × List ℕ) → FileWrite (List (ℕ × List ℕ))
write_file index path files =
    if ltb (length path) 100
    then record { files = (index, path) ∷ files; returned = true }
    else record { files = files; returned = false }

read_index-write_index_example :
    (c' : ShardedLruCache) × (write_index write_file (λ index. 6) 3 7 key false writer new_cache []
      ≡ some (c', record { files = (7, key) ∷ []; returned = true }))
    × ((read_index_file : List ℕ → Option ℕ) (q : ℕ)
        → (r' : IndexReader) × (c'' : ShardedLruCache) × (read_index read_index_file
              (λ index. 6)
              q
              key
              reader
              c'
            ≡ some (r', c'', 7)))
read_index-write_index_example =
    read_index-write_index new_cache new_cache-Valid writer reader key write_file (λ index. 6) 7 3
      empty_shard false [] reader-Caches (record { cache_set = refl; keeps = refl }) refl
      new_cache-Misses refl

abbrev file : List ℕ
file = replicate 40 9

-- One list of two entries of twelve bytes.
abbrev one : OneList
one = record { size = 2; capacity = 2; offset = 10 }

abbrev state : BlockState
state = record {
  lists = record {
    nlist = 1;
    code_size = 4;
    lists = one ∷ [];
    cache_keys = key ∷ [];
    offset_difference = 10 ∷ [];
    cache_handles = none ∷ [];
    one_entry_size = 12;
    totsize = 40;
    start_offset = 10;
  };
  cache = both;
  buffers = [];
}

file-IsList : IsList file state.lists 0 key one
file-IsList = record {
  numbered = omega arith;
  key_at = refl;
  handle_at = refl;
  difference_at = refl;
  list_at = refl;
  whole = refl;
  small = omega arith;
  inside = omega arith;
}

get_ptr-again_example :
    (st' : BlockState) × (bytes : List ℕ) × (get_ptr file 8 3 0 state
      ≡ some (st', record { buffer = 8; offset = 10 }))
    × (st'.buffers ≡ (8, bytes) ∷ [])
    × (pread bytes 24 10 ≡ pread file 24 10)
    × (length (pread bytes 24 10) ≡ 24)
    × ((file' : List ℕ) (buffer' p' : ℕ)
        → (st'' : BlockState) × (get_ptr file' buffer' p' 0 st'
            ≡ some (st'', record { buffer = 8; offset = 10 }))
          × (st''.buffers ≡ st'.buffers))
get_ptr-again_example =
    get_ptr-again file state both-Valid 0 key one 8 3 shard_0 file-IsList reader_here

layout-Tiles_example :
    let (lists, differences, end) = layout 12 (2 ∷ 0 ∷ 400 ∷ []) 10 in
    Tiles 12 10 lists end
    × (map (λ l. l.size) lists ≡ 2 ∷ 0 ∷ 400 ∷ [])
    × (differences ≡ map offset_in_block lists)
    × (end ≡ 10 + total_bytes 12 (2 ∷ 0 ∷ 400 ∷ []))
layout-Tiles_example = layout-Tiles 12 (2 ∷ 0 ∷ 400 ∷ []) 10 (omega arith)
