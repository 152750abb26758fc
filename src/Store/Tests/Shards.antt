-- ===== src/Store/Tests/Shards.antt =====
-- The sharded cache at concrete inputs.
use tenann.Prelude.{ℕ, ◌≡◌, refl, some, none, List, [], ◌∷◌, arith}
use tenann.Store.Tests.{shard_0, shard_0-Inv, filled, filled-Inv}
use tenann.Store.CacheKey.{CacheKey, hash, hash_bytes, hash_word, hash_last, decode_fixed32}
use tenann.Store.Heap.{get}
use tenann.Store.LruCache.{normal}
use tenann.Store.ShardedLruCache.{ShardedLruCache, insert, lookup}
use tenann.Store.ShardedLruCache.Shards.{AllInv}
use tenann.Store.ShardedLruCache.Capacity.{Valid}
use tenann.Store.ShardedLruCache.Routing.{lookup-insert-home, home}

-- A handle is held in the first shard.
abbrev pub both : ShardedLruCache
both = record { shards = filled ∷ shard_0 ∷ []; last_id = 0; capacity = 20 }

abbrev pub held : List (List ℕ)
held = (1 ∷ []) ∷ [] ∷ []

pub both-Valid : Valid held both
unfolding AllInv
both-Valid = record { all = (filled-Inv, (shard_0-Inv, tt)); number = refl }

abbrev pub key : CacheKey
key = 116 ∷ 101 ∷ 110 ∷ 97 ∷ 110 ∷ []

-- The shard of the key.
abbrev pub here : ℕ
here = home both both-Valid key

pub here-eq : here ≡ 1
unfolding hash hash_bytes hash_word hash_last decode_fixed32
here-eq = refl

pub fresh_3 : get 3 shard_0.heap ≡ none
unfolding get
fresh_3 = refl

lookup-insert-home_example :
    (c' c'' : ShardedLruCache) × (insert 3 key 300 6 0 normal both ≡ some c')
    × (lookup key c' ≡ some (c'', some 3))
lookup-insert-home_example =
    lookup-insert-home both both-Valid key 3 300 6 0 normal shard_0 (rw here-eq refl) fresh_3
      (omega arith) (rw here-eq (omega arith))
