-- ===== src/Store/ShardedLruCache/Client/Handles.antt =====
-- The handles of the clients of the sharded cache are those of its shards.
use tenann.Prelude.{
  ℕ, zero, suc, ◌+◌, ◌<◌, ◌≤◌, ◌≡◌, ◌≢◌, refl, ap, subst, some, List, [], ◌∷◌, ◌==◌, arith, count,
  erase, length, length-set, get_elem?, get_or, set, Bool-cases, inl, inr,
}
use tenann.Store.Heap.{get}
use tenann.Store.LruCache.{LruCache, LruHandle}
use tenann.Store.LruCache.Invariant.{Inv}
use tenann.Store.LruCache.Kept.{Entries, Entries-get}
use tenann.Store.ShardedLruCache.{num_shards, shard, read_entry}
use tenann.Store.ShardedLruCache.Capacity.{Valid}
use tenann.Store.ShardedLruCache.Client.{Session}
use tenann.Store.ShardedLruCache.Entries.{Home, Homed, Homed-at, Homed-set, read_entry-Homed}
use tenann.Store.ShardedLruCache.Shards.{AllInv, AllInv-at, AllInv-set}

-- The handles of all shards together.
abbrev pub count_all : ℕ → List (List ℕ) → ℕ
count_all q [] = 0
count_all q (h ∷ hs) = count q h + count_all q hs

abbrev pub length_all : List (List ℕ) → ℕ
length_all [] = 0
length_all (h ∷ hs) = length h + length_all hs

-- The handles of one shard are others.
count_all-set :
    (q : ℕ) (hs : List (List ℕ)) (i : ℕ) (h : List ℕ)
    → i < length hs
    → count_all q (set hs i h) + count q (get_or hs i []) ≡ count_all q hs + count q h
count_all-set q [] i h small = absurd (omega (arith, small))
count_all-set q (g ∷ hs) zero h small = omega arith
count_all-set q (g ∷ hs) (suc i) h small =
    omega (arith, count_all-set q hs i h (omega (arith, small)))

length_all-set :
    (hs : List (List ℕ)) (i : ℕ) (h : List ℕ)
    → i < length hs
    → length_all (set hs i h) + length (get_or hs i []) ≡ length_all hs + length h
length_all-set [] i h small = absurd (omega (arith, small))
length_all-set (g ∷ hs) zero h small = omega arith
length_all-set (g ∷ hs) (suc i) h small =
    omega (arith, length_all-set hs i h (omega (arith, small)))

pub length-le-length_all : (hs : List (List ℕ)) (i : ℕ) → length (get_or hs i []) ≤ length_all hs
length-le-length_all [] i = omega arith
length-le-length_all (g ∷ hs) zero = omega arith
length-le-length_all (g ∷ hs) (suc i) = omega (arith, length-le-length_all hs i)

-- A handle that is held is held in some shard.
pub held_in :
    (q : ℕ) (hs : List (List ℕ))
    → count_all q hs ≢ 0
    → (i : ℕ) × (i < length hs) × (count q (get_or hs i []) ≢ 0)
held_in q [] has = absurd (has refl)
held_in q (h ∷ hs) has = elim (Bool-cases (count q h == 0)) [
  | inl nowhere ↦
      let (i, small, there) = held_in q hs (ground (arith, nowhere, has)) in
      (suc i, omega (arith, small), there)
  | inr here ↦ (zero, omega arith, ground (arith, here))
]

pub length-erase : (p : ℕ) (xs : List ℕ) → count p xs ≢ 0 → suc (length (erase p xs)) ≡ length xs
length-erase p [] has = absurd (has refl)
length-erase p (x ∷ xs) has = elim (Bool-cases (x == p)) [
  | inl same ↦ ground (arith, same)
  | inr other ↦ ground (arith, other, length-erase p xs (ground (arith, has, other)))
]

pub AllInv-length : (hs : List (List ℕ)) (ss : List LruCache) → AllInv hs ss → length hs ≡ length ss
unfolding AllInv
AllInv-length [] [] v = refl
AllInv-length [] (s ∷ ss) v = absurd v
AllInv-length (h ∷ hs) [] v = absurd v
AllInv-length (h ∷ hs) (s ∷ ss) v = ap suc (AllInv-length hs ss v.1)

-- Each entry is in the shard of its hash, and the handles of the clients are those of all shards.
pub record Safe (x : Session) : Type 0 where
  pub owner : ℕ → ℕ
  pub handles : List (List ℕ)
  pub valid : Valid handles x.cache
  pub homed : Homed owner 0 x.cache.shards
  pub counts : (q : ℕ) → count q x.held ≡ count_all q handles
  pub sizes : length x.held ≡ length_all handles

-- The session with a new state of a shard, and with other handles.
abbrev pub changed : Session → ℕ → LruCache → List ℕ → Session
changed x i s held = record {
  cache = record x.cache { shards = set x.cache.shards i s };
  held = held;
}

-- The entries of a shard are at home in it.
pub Entries-at :
    (owner : ℕ → ℕ) (ss : List LruCache) (i : ℕ) (s : LruCache)
    → Homed owner 0 ss
    → get_elem? ss i ≡ some s
    → Entries (Home owner i) s.heap
Entries-at owner ss i s homed here =
    let start : 0 + i ≡ i = omega arith in
    subst (λ j. Entries (Home owner j) s.heap) start (Homed-at owner 0 i ss s homed here)

-- A step that changes the shard `i` and the handles held in it.
module _ (x : Session) (v : Safe x) (i : ℕ) (small : i < num_shards) where
  abbrev pub held_at : List ℕ
  held_at = get_or v.handles i []

  in_range : i < length x.cache.shards
  in_range = ground (arith, small, v.valid.number)

  has_handles : i < length v.handles
  has_handles = ground (arith, in_range, AllInv-length v.handles x.cache.shards v.valid.all)

  pub shard_at : (s : LruCache) × (get_elem? x.cache.shards i ≡ some s) × Inv held_at [] s
  shard_at = AllInv-at v.handles x.cache.shards i v.valid.all in_range

  pub put_back :
      (owner : ℕ → ℕ) (h held : List ℕ) (s : LruCache)
      → Homed owner 0 x.cache.shards
      → Entries (Home owner i) s.heap
      → Inv h [] s
      → ((q : ℕ) → count q held + count q held_at ≡ count q x.held + count q h)
      → length held + length held_at ≡ length x.held + length h
      → Safe (changed x i s held)
  put_back owner h held s homed entries inv counted sized =
      let start : i ≡ 0 + i = omega arith in
      record {
        owner = owner;
        handles = set v.handles i h;
        valid = record {
          all = AllInv-set v.handles x.cache.shards i h s v.valid.all inv;
          number = ground (arith, length-set x.cache.shards i s, v.valid.number);
        };
        homed =
            Homed-set owner 0 i x.cache.shards s homed
              (subst (λ j. Entries (Home owner j) s.heap) start entries);
        counts =
            λ q. omega (arith, counted q, v.counts q, count_all-set q v.handles i h has_handles);
        sizes = omega (arith, sized, v.sizes, length_all-set v.handles i h has_handles);
      }

  -- The entry at an address in the shard is the one that is read.
  pub entry_at :
      (p : ℕ) (s : LruCache) (e : LruHandle)
      → get_elem? x.cache.shards i ≡ some s
      → get p s.heap ≡ some e
      → (shard e.hash ≡ i) × (read_entry p x.cache.shards ≡ some e)
  entry_at p s e here found =
      let (_, is_home) =
        Entries-get (Home v.owner i) p s.heap e (Entries-at v.owner x.cache.shards i s v.homed here)
          found in
      (is_home, read_entry-Homed v.owner 0 i p x.cache.shards s e v.homed here found)
