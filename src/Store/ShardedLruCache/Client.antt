-- ===== src/Store/ShardedLruCache/Client.antt =====
-- The clients of the sharded cache: any sequence of calls that keeps to the contract of store/lru_cache.h.
pub mod Handles
pub mod Steps
pub mod Safety
pub mod Held
use tenann.Prelude.{
  ℕ, ◌+◌, ◌^◌, ◌<◌, ◌≡◌, ◌≢◌, Bool, Option, none, some, List, [], ◌∷◌, ◌>>=◌, count, erase, length,
  get_elem?,
}
use tenann.Store.CacheKey.{CacheKey, u32_mod}
use tenann.Store.LruCache.{LruCache, CachePriority}
use tenann.Store.LruCache.Lookup.{hold}
use tenann.Store.ShardedLruCache
use tenann.Store.ShardedLruCache.{ShardedLruCache, hash_slice, shard, new_lru_cache}
use tenann.Store.ShardedLruCache.Entries.{IsFree}

-- A call. `inserts p` is an insertion for which `malloc` returns the address `p`.
pub data Command : Type 0 where
  inserts : ℕ → CacheKey → ℕ → ℕ → ℕ → CachePriority → Command
  looks_up : CacheKey → Command
  releases : ℕ → Command
  erases : CacheKey → Command
  prunes : Command
  sets_capacity : ℕ → Command
  adjusts_capacity : ℕ → ℕ → Command
  makes_id : Command

-- The cache with the handles that its clients hold.
pub record Session : Type 0 where
  pub cache : ShardedLruCache
  pub held : List ℕ

unfoldable pub step : Command → Session → Option Session
step (inserts p key value charge deleter priority) x = do
  c ← ShardedLruCache.insert p key value charge deleter priority x.cache
  some (record { cache = c; held = p ∷ x.held })
step (looks_up key) x = do
  (c, found) ← ShardedLruCache.lookup key x.cache
  some (record { cache = c; held = hold found x.held })
step (releases p) x = do
  c ← ShardedLruCache.release p x.cache
  some (record { cache = c; held = erase p x.held })
step (erases key) x = do c ← ShardedLruCache.erase key x.cache; some (record x { cache = c })
step prunes x = do c ← ShardedLruCache.prune x.cache; some (record x { cache = c })
step (sets_capacity n) x = do
  c ← ShardedLruCache.set_capacity n x.cache
  some (record x { cache = c })
step (adjusts_capacity delta min_capacity) x = do
  (c, adjusted) ← ShardedLruCache.adjust_capacity delta min_capacity x.cache
  some (record x { cache = c })
step makes_id x = let (c, id) = ShardedLruCache.new_id x.cache in some (record x { cache = c })

-- The table of the shard of a key has room for one more entry.
abbrev pub HasRoom : CacheKey → ShardedLruCache → Type 0
HasRoom key c =
    (s : LruCache) → get_elem? c.shards (shard (hash_slice key)) ≡ some s → s.table.elems < 2 ^ 31

-- What the caller and the allocator owe: memory that `malloc` returns was not in use in any shard, a
-- released handle is held, and the 32-bit counters of entries and references do not run over.
abbrev pub Allowed : Command → Session → Type 0
Allowed (inserts p key value charge deleter priority) x =
    IsFree p x.cache.shards × HasRoom key x.cache
Allowed (looks_up key) x = length x.held + 2 < u32_mod
Allowed (releases p) x = count p x.held ≢ 0
Allowed _ x = Unit {0}

-- The states that allowed calls lead to from a new cache.
pub data Reachable : Session → Type 0 where
  starts :
      {c : ShardedLruCache} (capacity : ℕ)
      → new_lru_cache capacity ≡ some c
      → Reachable (record { cache = c; held = [] })
  goes_on :
      {x y : Session} (c : Command) → Reachable x → Allowed c x → step c x ≡ some y → Reachable y
