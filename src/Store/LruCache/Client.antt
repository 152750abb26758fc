-- ===== src/Store/LruCache/Client.antt =====
-- The clients of a shard: any sequence of calls that keeps to the contract of store/lru_cache.h.
pub mod Safety
use tenann.Prelude.{
  ℕ, ◌+◌, ◌^◌, ◌<◌, ◌≡◌, ◌≢◌, Option, none, some, List, [], ◌∷◌, ◌>>=◌, count, erase, length,
}
use tenann.Store.CacheKey.{CacheKey, u32_mod}
use tenann.Store.Heap.{get}
use tenann.Store.LruCache.{
  LruCache, CachePriority, init, insert, lookup, release, erase_entry, prune, set_capacity,
}
use tenann.Store.LruCache.Lookup.{hold}

-- A call. `inserts p` is an insertion for which `malloc` returns the address `p`.
pub data Command : Type 0 where
  inserts : ℕ → CacheKey → ℕ → ℕ → ℕ → ℕ → CachePriority → Command
  looks_up : CacheKey → ℕ → Command
  releases : ℕ → Command
  erases : CacheKey → ℕ → Command
  prunes : Command
  sets_capacity : ℕ → Command

-- A shard with the handles that its clients hold.
pub record Session : Type 0 where
  pub cache : LruCache
  pub held : List ℕ

unfoldable pub step : Command → Session → Option Session
step (inserts p key hash value charge deleter priority) x = do
  s ← insert p key hash value charge deleter priority x.cache
  some (record { cache = s; held = p ∷ x.held })
step (looks_up key hash) x = do
  (s, found) ← lookup key hash x.cache
  some (record { cache = s; held = hold found x.held })
step (releases p) x = do
  s ← release (some p) x.cache
  some (record { cache = s; held = erase p x.held })
step (erases key hash) x = do s ← erase_entry key hash x.cache; some (record x { cache = s })
step prunes x = do (s, _) ← prune x.cache; some (record x { cache = s })
step (sets_capacity c) x = do s ← set_capacity c x.cache; some (record x { cache = s })

-- What the caller and the allocator owe: memory that `malloc` returns was not in use, a released
-- handle is held, and the 32-bit counters of entries and references do not run over.
abbrev pub Allowed : Command → Session → Type 0
Allowed (inserts p key hash value charge deleter priority) x =
    (get p x.cache.heap ≡ none) × (x.cache.table.elems < 2 ^ 31)
Allowed (looks_up key hash) x = length x.held + 2 < u32_mod
Allowed (releases p) x = count p x.held ≢ 0
Allowed (erases key hash) x = Unit {0}
Allowed prunes x = Unit {0}
Allowed (sets_capacity c) x = Unit {0}

-- The states that allowed calls lead to from a new shard.
pub data Reachable : Session → Type 0 where
  starts : {s : LruCache} → init ≡ some s → Reachable (record { cache = s; held = [] })
  goes_on :
      {x y : Session} (c : Command) → Reachable x → Allowed c x → step c x ≡ some y → Reachable y
