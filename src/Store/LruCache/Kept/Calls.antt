-- ===== src/Store/LruCache/Kept/Calls.antt =====
-- The calls of a shard keep the entries that they do not make.
use tenann.Prelude.{
  ℕ, suc, zero, false, Option, none, some, List, [], ◌∷◌, ◌++◌, ◌==◌, ◌&&◌, ltb, if◌then◌else◌,
  get_elem?, length, Option-cases, inl, inr,
}
use tenann.Store.CacheKey.{CacheKey}
use tenann.Store.Heap.{get}
use tenann.Store.HandleTable
use tenann.Store.HandleTable.{HandleTable}
use tenann.Store.LruCache.{
  LruHandle, LruCache, CachePriority, init, unref, lru_remove, free_all, evict_one_entry,
  evict_from_lru, set_capacity, lookup, release_kept, release, replace_old, insert, erase_entry,
  prune_loop, prune, last_ref,
}
use tenann.Store.LruCache.Kept.{
  Yields, Yields-bind, Yields-any, Yields-then, Yields-if, Entries-set, reads, unref-hash, Holds,
  HoldsBoth, free_one-Holds, free_all-Holds, evict_one-Holds, evict_from_lru-Holds,
}

module _ (Q : ℕ → ℕ → Type 0) where
  pub init-Holds : Yields (Holds Q) init
  unfolding init
  init-Holds = Yields-any (Holds Q) HandleTable.empty _ (λ t. tt)

  pub set_capacity-Holds :
      (capacity : ℕ) (s : LruCache) → Holds Q s → Yields (Holds Q) (set_capacity capacity s)
  unfolding set_capacity
  set_capacity-Holds capacity s h =
      Yields-bind (HoldsBoth Q) (Holds Q) (evict_from_lru 0 (record s { capacity = capacity })) _
        (evict_from_lru-Holds Q 0 (record s { capacity = capacity }) h)
        (λ r h'. free_all-Holds Q r.1 r.0 h')

  pub lookup-Holds :
      (key : CacheKey) (hash : ℕ) (s : LruCache)
      → Holds Q s
      → Yields (HoldsBoth Q) (lookup key hash s)
  unfolding lookup
  lookup-Holds key hash s h = elim (Option-cases (HandleTable.lookup key hash s.table)) [
    | inl nothing ↦ rw (nothing, Yields) h
    | inr (p, there) ↦
        rw (there, Yields)
          (Yields-bind (λ e. Q p e.hash) (HoldsBoth Q) (get p s.heap) _ (reads Q p s.heap h)
            (λ e q. Yields-then (HoldsBoth Q) e.in_cache _ (
              Yields-any (HoldsBoth Q) (if e.refs == 1 then lru_remove p s.lru else some s.lru) _
                (λ lru. Entries-set Q p _ s.heap q h))))
  ]

  release_kept-Holds :
      (p : ℕ) (e : LruHandle) (s : LruCache)
      → Q p e.hash
      → Holds Q s
      → Yields (HoldsBoth Q) (release_kept p e s)
  unfolding release_kept
  release_kept-Holds p e s q h =
      let kept = Entries-set Q p e s.heap q h in
      Yields-if (HoldsBoth Q) (last_ref e) _ _ kept (
        Yields-if (HoldsBoth Q) (e.in_cache && e.refs == 1) _ _
          (Yields-if (HoldsBoth Q) (ltb s.capacity s.usage) _ _
            (Yields-bind (λ e'. Q p e'.hash) (HoldsBoth Q) (unref (record e { in_cache = false })) _
              (unref-hash Q p (record e { in_cache = false }) q)
              (λ e' q'. Entries-set Q p e' s.heap q' h))
            kept)
          kept)

  pub release-Holds : (p : ℕ) (s : LruCache) → Holds Q s → Yields (Holds Q) (release (some p) s)
  unfolding release
  release-Holds p s h =
      Yields-bind (λ e. Q p e.hash) (Holds Q) (get p s.heap) _ (reads Q p s.heap h)
        (λ e q.
          Yields-bind (λ e'. Q p e'.hash) (Holds Q) (unref e) _ (unref-hash Q p e q)
            (λ e' q'.
              Yields-bind (HoldsBoth Q) (Holds Q) (release_kept p e' s) _
                (release_kept-Holds p e' s q' h)
                (λ r h'. Yields-if (Holds Q) r.1 _ _ (free_one-Holds Q p r.0 h') h')))

  replace_old-Holds :
      (old : Option ℕ) (s : LruCache) (deleted : List ℕ)
      → Holds Q s
      → Yields (HoldsBoth Q) (replace_old old s deleted)
  unfolding replace_old
  replace_old-Holds none s deleted h = h
  replace_old-Holds (some p) s deleted h =
      Yields-bind (λ e. Q p e.hash) (HoldsBoth Q) (get p s.heap) _ (reads Q p s.heap h)
        (λ e q.
          Yields-bind (λ e'. Q p e'.hash) (HoldsBoth Q) (unref (record e { in_cache = false })) _
            (unref-hash Q p (record e { in_cache = false }) q)
            (λ e' q'.
              Yields-if (HoldsBoth Q) (last_ref e') _ _
                (Yields-any (HoldsBoth Q) (lru_remove p s.lru) _
                  (λ lru. Entries-set Q p e' s.heap q' h))
                (Entries-set Q p e' s.heap q' h)))

  -- An insertion makes an entry with the hash.
  pub insert-Holds :
      (p : ℕ) (key : CacheKey) (hash value charge deleter : ℕ) (priority : CachePriority)
      (s : LruCache)
      → Q p hash
      → Holds Q s
      → Yields (Holds Q) (insert p key hash value charge deleter priority s)
  unfolding insert
  insert-Holds p key hash value charge deleter priority s new h =
      Yields-bind (HoldsBoth Q) (Holds Q) (evict_from_lru charge s) _
        (evict_from_lru-Holds Q charge s h)
        (λ r h₁.
          Yields-any (Holds Q)
            (HandleTable.insert (record { hash = hash; key = key; ptr = p }) r.0.table) _
            (λ t.
              Yields-bind (HoldsBoth Q) (Holds Q) (replace_old t.1 _ r.1) _
                (replace_old-Holds t.1 _ r.1 (new, h₁)) (λ r' h₂. free_all-Holds Q r'.1 r'.0 h₂)))

  pub erase_entry-Holds :
      (key : CacheKey) (hash : ℕ) (s : LruCache)
      → Holds Q s
      → Yields (Holds Q) (erase_entry key hash s)
  unfolding erase_entry
  erase_entry-Holds key hash s h = elim (Option-cases (HandleTable.remove key hash s.table).1) [
    | inl nothing ↦ rw (nothing, Yields) h
    | inr (p, there) ↦
        rw (there, Yields)
          (Yields-bind (λ e. Q p e.hash) (Holds Q) (get p s.heap) _ (reads Q p s.heap h)
            (λ e q.
              Yields-bind (λ e'. Q p e'.hash) (Holds Q) (unref e) _ (unref-hash Q p e q)
                (λ e' q'.
                  Yields-if (Holds Q) (last_ref e') _ _
                    (Yields-any (Holds Q) (if e.in_cache then lru_remove p s.lru else some s.lru) _
                      (λ lru. free_one-Holds Q p _ (Entries-set Q p _ s.heap q' h)))
                    (Entries-set Q p _ s.heap q' h))))
  ]

  prune_loop-Holds :
      (fuel : ℕ) (s : LruCache) (deleted : List ℕ)
      → Holds Q s
      → Yields (HoldsBoth Q) (prune_loop fuel s deleted)
  unfolding prune_loop
  prune_loop-Holds zero s deleted h = tt
  prune_loop-Holds (suc fuel) s deleted h = elim (Option-cases (get_elem? s.lru 0)) [
    | inl nothing ↦ rw (nothing, Yields) h
    | inr (p, there) ↦
        rw (there, Yields)
          (Yields-bind (Holds Q) (HoldsBoth Q) (evict_one_entry p s) _ (evict_one-Holds Q p s h)
            (λ s' h'. prune_loop-Holds fuel s' (deleted ++ p ∷ []) h'))
  ]

  pub prune-Holds : (s : LruCache) → Holds Q s → Yields (HoldsBoth Q) (prune s)
  unfolding prune
  prune-Holds s h =
      Yields-bind (HoldsBoth Q) (HoldsBoth Q) (prune_loop (suc (length s.lru)) s []) _
        (prune_loop-Holds (suc (length s.lru)) s [] h)
        (λ r h'.
          Yields-bind (Holds Q) (HoldsBoth Q) (free_all r.1 r.0) _ (free_all-Holds Q r.1 r.0 h')
            (λ s' h''. h''))
