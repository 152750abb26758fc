-- ===== src/Store/LruCache/Capacity.antt =====
-- `set_capacity` and `prune`.
use tenann.Prelude.{
  ℕ, zero, suc, ◌<◌, ◌≤◌, ◌≡◌, ◌⊎◌, refl, ◌∙◌, some, List, [], ◌∷◌, ◌++◌, arith, length,
}
use mathlib.Core.List.{append-nil, append_assoc}
use tenann.Store.LruCache.{LruCache, set_capacity, prune, prune_loop}
use tenann.Store.LruCache.Invariant.{Inv}
use tenann.Store.LruCache.Evict.{evicted, Listed-of_eq, evict_one_entry-eq, evicted-Inv}
use tenann.Store.LruCache.Frame.{Frame, Frame-refl, Frame-trans, evicted-Frame}
use tenann.Store.LruCache.Victims.{normals, durables, victims}
use tenann.Store.LruCache.EvictFromLru.{evict_from_lru_lem}
use tenann.Store.LruCache.FreeAll.{free_all_lem, calls_at, calls_at-Frame}

-- The parts that no eviction looks at may change.
recapped-Inv :
    {held pending : List ℕ} {s : LruCache} (c : ℕ)
    → Inv held pending s
    → Inv held pending (record s { capacity = c })
recapped-Inv c v = record {
  table_valid = v.table_valid;
  distinct = v.distinct;
  usage_total = v.usage_total;
  cells = v.cells;
  tabled = v.tabled;
}

module _ {held : List ℕ} (s : LruCache) (v : Inv held [] s) where
  -- `set_capacity` returns. It sets the capacity, and evicts and frees, in the described order,
  -- until the usage is within the capacity or no entry is idle.
  pub set_capacity_lem :
      (c : ℕ)
      → (s' : LruCache) × (set_capacity c s ≡ some s')
        × Inv held [] s'
        × (s'.capacity ≡ c)
        × ((s'.usage ≤ c) ⊎ (s'.lru ≡ []))
        × (s'.freed
            ≡ s.freed
              ++ calls_at s.heap
                  (victims s.heap 0 c s.usage (normals s.heap s.lru ++ durables s.heap s.lru)))
  unfolding set_capacity
  set_capacity_lem c =
      let (s₁, d, runs, r) = evict_from_lru_lem 0 (record s { capacity = c }) (recapped-Inv c v) in
      let (s₂, frees, v₂, f) = free_all_lem d s₁ r.inv in
      (
        s₂,
        ground (arith, runs, frees),
        v₂,
        f.capacity ∙ r.frame.capacity,
        ground (arith, r.stopped, r.frame.capacity, f.usage, f.lru, r.inv.usage_total),
        ground (arith, f.freed, r.frame.freed, r.chosen, calls_at-Frame r.frame d),
      )

  -- The loop of `prune` empties the list.
  prune_loop_lem :
      (fuel : ℕ) (t : LruCache) (rest deleted : List ℕ)
      → Inv held deleted t
      → t.lru ≡ rest
      → length rest < fuel
      → (t' : LruCache) × (prune_loop fuel t deleted ≡ some (t', deleted ++ rest))
        × Inv held (deleted ++ rest) t'
        × Frame t t' rest
        × (t'.lru ≡ [])
  unfolding prune_loop
  prune_loop_lem zero t rest deleted w e enough = absurd (omega arith)
  prune_loop_lem (suc fuel) t [] deleted w e enough =
      (t, ground (arith, e, append-nil deleted), rw append-nil w, Frame-refl t, e)
  prune_loop_lem (suc fuel) t (p ∷ rest) deleted w e enough =
      let (x, l) = Listed-of_eq w [] rest p e in
      let (t', runs, w', f, empty) =
        prune_loop_lem fuel (evicted p x t) rest (deleted ++ p ∷ [])
          (evicted-Inv w p x l.found l.cached l.once) l.erased (omega arith) in
      (
        t',
        ground (
          arith,
          e,
          evict_one_entry-eq w p x l.found l.cached l.once,
          runs,
          append_assoc deleted (p ∷ []) rest,
        ),
        rw append_assoc at w',
        Frame-trans (evicted-Frame w p x l.found l.single) f,
        empty,
      )

  -- `prune` returns. It evicts and frees every idle entry, and counts them.
  pub prune_lem :
      (s' : LruCache) × (prune s ≡ some (s', length s.lru))
      × Inv held [] s'
      × (s'.lru ≡ [])
      × (s'.freed ≡ s.freed ++ calls_at s.heap s.lru)
  unfolding prune
  prune_lem =
      let (s₁, runs, v₁, frame, empty) =
        prune_loop_lem (suc (length s.lru)) s s.lru [] v refl (omega arith) in
      let (s₂, frees, v₂, f) = free_all_lem s.lru s₁ v₁ in
      (
        s₂,
        ground (arith, runs, frees),
        v₂,
        f.lru ∙ empty,
        ground (arith, f.freed, frame.freed, calls_at-Frame frame s.lru),
      )
