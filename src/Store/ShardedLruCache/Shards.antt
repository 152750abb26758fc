-- ===== src/Store/ShardedLruCache/Shards.antt =====
-- The shards one by one: each satisfies the invariant of a shard, with the handles held in it.
use tenann.Prelude.{
  ℕ, zero, suc, ◌<◌, ◌≤◌, ◌≡◌, ◌⊎◌, refl, ap, some, List, [], ◌∷◌, arith, length, get_elem?, get_or,
  set,
}
use tenann.Store.LruCache.{LruCache}
use tenann.Store.LruCache.Invariant.{Inv}
use tenann.Store.LruCache.Capacity.{set_capacity_lem, prune_lem}
use tenann.Store.LruCache.Client.Safety.{init_lem}
use tenann.Store.ShardedLruCache.{set_each, new_shards, prune_each}

unfoldable pub AllInv : List (List ℕ) → List LruCache → Type 0
AllInv [] [] = Unit {0}
AllInv (h ∷ hs) (s ∷ ss) = Inv h [] s × AllInv hs ss
AllInv _ _ = ⊥

-- A property of every shard.
unfoldable pub All : (LruCache → Type 0) → List LruCache → Type 0
All P [] = Unit {0}
All P (s ∷ ss) = P s × All P ss

-- The shard at an index, and the handles held in it.
pub AllInv-at :
    (hs : List (List ℕ)) (ss : List LruCache) (i : ℕ)
    → AllInv hs ss
    → i < length ss
    → (s : LruCache) × (get_elem? ss i ≡ some s) × Inv (get_or hs i []) [] s
unfolding AllInv
AllInv-at [] [] i v h = absurd (omega (arith, h))
AllInv-at [] (s ∷ ss) i v h = absurd v
AllInv-at (x ∷ hs) [] i v h = absurd v
AllInv-at (x ∷ hs) (s ∷ ss) zero v h = (s, refl, v.0)
AllInv-at (x ∷ hs) (s ∷ ss) (suc i) v h = AllInv-at hs ss i v.1 (omega (arith, h))

pub AllInv-set :
    (hs : List (List ℕ)) (ss : List LruCache) (i : ℕ) (h : List ℕ) (s : LruCache)
    → AllInv hs ss
    → Inv h [] s
    → AllInv (set hs i h) (set ss i s)
unfolding AllInv
AllInv-set [] [] i h s v w = tt
AllInv-set [] (t ∷ ss) i h s v w = absurd v
AllInv-set (x ∷ hs) [] i h s v w = absurd v
AllInv-set (x ∷ hs) (t ∷ ss) zero h s v w = (w, v.1)
AllInv-set (x ∷ hs) (t ∷ ss) (suc i) h s v w = (v.0, AllInv-set hs ss i h s v.1 w)

-- A shard has the capacity, and it is within it or has nothing to evict.
abbrev pub Capped : ℕ → LruCache → Type 0
Capped n s = (s.capacity ≡ n) × ((s.usage ≤ n) ⊎ (s.lru ≡ []))

pub set_each_lem :
    (n : ℕ) (hs : List (List ℕ)) (ss : List LruCache)
    → AllInv hs ss
    → (ss' : List LruCache) × (set_each n ss ≡ some ss')
      × AllInv hs ss'
      × All (Capped n) ss'
      × (length ss' ≡ length ss)
unfolding set_each AllInv All
set_each_lem n [] [] v = ([], refl, tt, tt, refl)
set_each_lem n [] (s ∷ ss) v = absurd v
set_each_lem n (h ∷ hs) [] v = absurd v
set_each_lem n (h ∷ hs) (s ∷ ss) v =
    let (s', runs, w, capacity, within, _) = set_capacity_lem s v.0 n in
    let (ss', runs', ws, capped, same) = set_each_lem n hs ss v.1 in
    (s' ∷ ss', ground (arith, runs, runs'), (w, ws), ((capacity, within), capped), ap suc same)

-- Nobody holds a handle.
abbrev pub no_handles : ℕ → List (List ℕ)
no_handles zero = []
no_handles (suc n) = [] ∷ no_handles n

pub new_shards_lem :
    (n : ℕ)
    → (ss : List LruCache) × (new_shards n ≡ some ss) × AllInv (no_handles n) ss × (length ss ≡ n)
unfolding new_shards AllInv
new_shards_lem zero = ([], refl, tt, refl)
new_shards_lem (suc n) =
    let (s, made, v) = init_lem in
    let (ss, runs, vs, same) = new_shards_lem n in
    (s ∷ ss, ground (arith, made, runs), (v, vs), ap suc same)

pub prune_each_lem :
    (hs : List (List ℕ)) (ss : List LruCache)
    → AllInv hs ss
    → (ss' : List LruCache) × (prune_each ss ≡ some ss')
      × AllInv hs ss'
      × All (λ s. s.lru ≡ []) ss'
      × (length ss' ≡ length ss)
unfolding prune_each AllInv All
prune_each_lem [] [] v = ([], refl, tt, tt, refl)
prune_each_lem [] (s ∷ ss) v = absurd v
prune_each_lem (h ∷ hs) [] v = absurd v
prune_each_lem (h ∷ hs) (s ∷ ss) v =
    let (s', runs, w, empty, _) = prune_lem s v.0 in
    let (ss', runs', ws, empties, same) = prune_each_lem hs ss v.1 in
    (s' ∷ ss', ground (arith, runs, runs'), (w, ws), (empty, empties), ap suc same)
