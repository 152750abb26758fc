-- ===== src/Store/LruCache/Kept.antt =====
-- No call of a shard makes an entry or changes its hash, except that an insertion makes its own.
pub mod Calls
use tenann.Prelude.{
  ℕ, suc, zero, ◌+◌, ◌≡◌, refl, sym, subst, Bool, true, false, Option, none, some, List, [], ◌∷◌,
  ◌++◌, ◌==◌, ◌&&◌, ltb, check, ◌>>◌, ◌>>=◌, if◌then◌else◌, arith, get_elem?, length, Option-cases,
  Bool-cases, ==_iff, inl, inr,
}
use tenann.Store.CacheKey.{CacheKey}
use tenann.Store.Heap.{get, set, free}
use tenann.Store.HandleTable
use tenann.Store.HandleTable.{HandleTable}
use tenann.Store.LruCache.{
  LruHandle, LruCache, CachePriority, init, unref, lru_remove, free_one, free_all, evict_one_entry,
  evict_normal, evict_durable, evict_from_lru, set_capacity, lookup, release_kept, release,
  replace_old, insert, erase_entry, prune_loop, prune, over, is_durable, last_ref,
}

-- A property of the result, if there is one.
abbrev pub Yields {ℓ} : {A : Type ℓ} → (A → Type 0) → Option A → Type 0
Yields P none = Unit {0}
Yields P (some a) = P a

module _ {A B : Type 0} where
  pub Yields-bind :
      (P : A → Type 0) (R : B → Type 0) (m : Option A) (f : A → Option B)
      → Yields P m
      → ((a : A) → P a → Yields R (f a))
      → Yields R (m >>= f)
  Yields-bind P R none f h k = tt
  Yields-bind P R (some a) f h k = k a h

  pub Yields-any :
      (R : B → Type 0) (m : Option A) (f : A → Option B)
      → ((a : A) → Yields R (f a))
      → Yields R (m >>= f)
  Yields-any R none f k = tt
  Yields-any R (some a) f k = k a

pub Yields-then :
    {B : Type 0} (R : B → Type 0) (b : Bool) (k : Option B) → Yields R k → Yields R (check b >> k)
Yields-then R true k h = h
Yields-then R false k h = tt

pub Yields-if :
    {B : Type 0} (R : B → Type 0) (b : Bool) (x y : Option B)
    → Yields R x
    → Yields R y
    → Yields R (if b then x else y)
Yields-if R true x y h h' = h
Yields-if R false x y h h' = h'

pub Yields-some :
    {B : Type 0} (R : B → Type 0) (m : Option B) (b : B) → Yields R m → m ≡ some b → R b
Yields-some R m b h e = subst (Yields R) e h

module _ (Q : ℕ → ℕ → Type 0) where
  -- The entries with their hashes.
  abbrev pub Entries : List (ℕ × LruHandle) → Type 0
  Entries [] = Unit {0}
  Entries ((p, e) ∷ m) = Q p e.hash × Entries m

  pub Entries-get :
      (p : ℕ) (m : List (ℕ × LruHandle)) (e : LruHandle) → Entries m → get p m ≡ some e → Q p e.hash
  unfolding get
  Entries-get p [] e h found = absurd (ground (arith, found))
  Entries-get p ((q, a) ∷ m) e (here, h) found = elim (Bool-cases (q == p)) [
    | inl same ↦
        let same_hash : a.hash ≡ e.hash = ground (arith, found, same) in
        subst (λ r. Q r e.hash) ((==_iff q p).0 same) (subst (Q q) same_hash here)
    | inr other ↦ Entries-get p m e h (ground (arith, found, other))
  ]

  pub Entries-set :
      (p : ℕ) (b : LruHandle) (m : List (ℕ × LruHandle))
      → Q p b.hash
      → Entries m
      → Entries (set p b m)
  unfolding set
  Entries-set p b [] new h = tt
  Entries-set p b ((q, a) ∷ m) new (here, h) = elim (Bool-cases (q == p)) [
    | inl same ↦ rw same (subst (λ r. Q r b.hash) (sym ((==_iff q p).0 same)) new, h)
    | inr other ↦ rw other (here, Entries-set p b m new h)
  ]

  Entries-free : (p : ℕ) (m : List (ℕ × LruHandle)) → Entries m → Entries (free p m)
  unfolding free
  Entries-free p [] h = tt
  Entries-free p ((q, a) ∷ m) (here, h) = elim (Bool-cases (q == p)) [
    | inl same ↦ rw same h
    | inr other ↦ rw other (here, Entries-free p m h)
  ]

  abbrev pub Holds : LruCache → Type 0
  Holds s = Entries s.heap

  pub reads : (p : ℕ) (m : List (ℕ × LruHandle)) → Entries m → Yields (λ e. Q p e.hash) (get p m)
  reads p m h = elim (Option-cases (get p m)) [
    | inl nothing ↦ rw nothing tt
    | inr (e, found) ↦ rw found (Entries-get p m e h found)
  ]

  pub unref-hash : (p : ℕ) (e : LruHandle) → Q p e.hash → Yields (λ e'. Q p e'.hash) (unref e)
  unfolding unref
  unref-hash p e h = Yields-then _ (ltb 0 e.refs) _ h

  pub free_one-Holds : (p : ℕ) (s : LruCache) → Holds s → Yields Holds (free_one p s)
  unfolding free_one
  free_one-Holds p s h = Yields-any Holds (get p s.heap) _ (λ e. Entries-free p s.heap h)

  pub free_all-Holds : (ps : List ℕ) (s : LruCache) → Holds s → Yields Holds (free_all ps s)
  unfolding free_all
  free_all-Holds [] s h = h
  free_all-Holds (p ∷ ps) s h =
      Yields-bind Holds Holds (free_one p s) _ (free_one-Holds p s h)
        (λ s' h'. free_all-Holds ps s' h')

  pub evict_one-Holds : (p : ℕ) (s : LruCache) → Holds s → Yields Holds (evict_one_entry p s)
  unfolding evict_one_entry
  evict_one-Holds p s h =
      Yields-bind (λ e. Q p e.hash) Holds (get p s.heap) _ (reads p s.heap h)
        (λ e q. Yields-then Holds e.in_cache _ (
          Yields-then Holds (e.refs == 1) _ (
            Yields-any Holds (lru_remove p s.lru) _ (λ lru.
              Yields-bind (λ e'. Q p e'.hash) Holds (unref (record e { in_cache = false })) _
                (unref-hash p (record e { in_cache = false }) q)
                (λ e' q'. Entries-set p e' s.heap q' h)))))

  abbrev pub HoldsBoth : {A : Type 0} → LruCache × A → Type 0
  HoldsBoth r = Holds r.0

  evict_normal-Holds :
      (fuel charge skipped : ℕ) (s : LruCache) (deleted : List ℕ)
      → Holds s
      → Yields HoldsBoth (evict_normal fuel charge skipped s deleted)
  unfolding evict_normal
  evict_normal-Holds zero charge skipped s deleted h = tt
  evict_normal-Holds (suc fuel) charge skipped s deleted h =
      Yields-if HoldsBoth (over charge s) _ _
        (elim (Option-cases (get_elem? s.lru skipped)) [
          | inl nothing ↦ rw nothing h
          | inr (p, there) ↦ rw there (
              Yields-any HoldsBoth (get p s.heap) _ (λ e.
                Yields-if HoldsBoth (is_durable e.priority) _ _
                  (evict_normal-Holds fuel charge (skipped + 1) s deleted h)
                  (Yields-bind Holds HoldsBoth (evict_one_entry p s) _ (evict_one-Holds p s h)
                    (λ s' h'. evict_normal-Holds fuel charge skipped s' (deleted ++ p ∷ []) h'))))
        ])
        h

  evict_durable-Holds :
      (fuel charge : ℕ) (s : LruCache) (deleted : List ℕ)
      → Holds s
      → Yields HoldsBoth (evict_durable fuel charge s deleted)
  unfolding evict_durable
  evict_durable-Holds zero charge s deleted h = tt
  evict_durable-Holds (suc fuel) charge s deleted h =
      Yields-if HoldsBoth (over charge s) _ _
        (elim (Option-cases (get_elem? s.lru 0)) [
          | inl nothing ↦ rw nothing h
          | inr (p, there) ↦ rw there (
              Yields-any HoldsBoth (get p s.heap) _ (λ e.
                Yields-then HoldsBoth (is_durable e.priority) _ (
                  Yields-bind Holds HoldsBoth (evict_one_entry p s) _ (evict_one-Holds p s h)
                    (λ s' h'. evict_durable-Holds fuel charge s' (deleted ++ p ∷ []) h'))))
        ])
        h

  pub evict_from_lru-Holds :
      (charge : ℕ) (s : LruCache) → Holds s → Yields HoldsBoth (evict_from_lru charge s)
  unfolding evict_from_lru
  evict_from_lru-Holds charge s h =
      Yields-bind HoldsBoth HoldsBoth (evict_normal (suc (length s.lru)) charge 0 s []) _
        (evict_normal-Holds (suc (length s.lru)) charge 0 s [] h)
        (λ r h'. evict_durable-Holds (suc (length r.0.lru)) charge r.0 r.1 h')
