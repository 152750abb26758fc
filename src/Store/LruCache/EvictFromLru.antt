-- ===== src/Store/LruCache/EvictFromLru.antt =====
-- `_evict_from_lru`, both loops: it always returns, and evicts in the described order until the
-- charge fits or the list is empty.
use tenann.Prelude.{ℕ, suc, ◌≡◌, ◌⊎◌, refl, false, some, List, [], ◌++◌, arith, length, inl, inr}
use tenann.Store.LruCache.{LruCache, over, evict_from_lru}
use tenann.Store.LruCache.Invariant.{Inv}
use tenann.Store.LruCache.Frame.{Frame, Frame-trans}
use tenann.Store.LruCache.Victims.{
  normals, durables, victims, victims_fits, victims-append, victims-Frame, AllDurable,
  AllDurable-Frame, durables-AllDurable,
}
use tenann.Store.LruCache.EvictNormal.{evict_normal_lem, EvictsNormal}
use tenann.Store.LruCache.EvictDurable.{evict_durable_lem, EvictsDurable}

pub record Evicts (held : List ℕ) (charge : ℕ) (s s' : LruCache) (d : List ℕ) : Type 0 where
  pub inv : Inv held d s'
  pub frame : Frame s s' d
  pub chosen :
      d ≡ victims s.heap charge s.capacity s.usage (normals s.heap s.lru ++ durables s.heap s.lru)
  pub stopped : (over charge s' ≡ false) ⊎ (s'.lru ≡ [])

module _ {held : List ℕ} (charge : ℕ) where
  -- After the first loop the charge fits, or only durable entries are left.
  left_over :
      {s s₁ : LruCache} {d₁ : List ℕ}
      → EvictsNormal held charge [] s.lru s [] s₁ d₁
      → (over charge s₁ ≡ false) ⊎ AllDurable s₁.heap s₁.lru
  left_over {s} r = elim r.stopped [
    | inl fits ↦ inl fits
    | inr e ↦ inr (rw e (AllDurable-Frame r.frame _ (durables-AllDurable s.heap s.lru)))
  ]

  chosen_both :
      {s s₁ s₂ : LruCache} {d₁ d₂ : List ℕ}
      → EvictsNormal held charge [] s.lru s [] s₁ d₁
      → EvictsDurable held charge s₁.lru s₁ d₁ s₂ d₂
      → d₁ ++ d₂
        ≡ victims s.heap charge s.capacity s.usage (normals s.heap s.lru ++ durables s.heap s.lru)
  chosen_both {s} {s₁} r r' =
      let split =
        victims-append s.heap charge s.capacity s.usage (normals s.heap s.lru)
          (durables s.heap s.lru) in
      let moved = victims-Frame r.frame charge s.capacity s₁.usage (durables s.heap s.lru) in
      elim r.stopped [
        | inl fits ↦ ground (
          arith,
          split,
          fits,
          r.chosen,
          r.drained,
          r'.chosen,
          r.frame.capacity,
          victims_fits s₁.heap charge s₁.capacity s₁.usage s₁.lru fits,
          victims_fits s.heap charge s.capacity s₁.usage (durables s.heap s.lru),
        )
        | inr e ↦ ground (arith, split, e, moved, r.chosen, r.drained, r'.chosen, r.frame.capacity)
      ]

module _ {held : List ℕ} (charge : ℕ) (s : LruCache) (v : Inv held [] s) where
  -- `_evict_from_lru` returns. It has evicted exactly the victims that the described order names,
  -- the normal entries from the oldest on and then the durable ones, and it stops where the charge
  -- fits or no entry is idle.
  pub evict_from_lru_lem :
      (s' : LruCache) × (d : List ℕ) × (evict_from_lru charge s ≡ some (s', d))
      × Evicts held charge s s' d
  unfolding evict_from_lru
  evict_from_lru_lem =
      let (s₁, d₁, runs₁, r₁) =
        evict_normal_lem charge (suc (length s.lru)) s.lru [] s [] v refl (omega arith) in
      let (s₂, d₂, runs₂, r₂) =
        evict_durable_lem charge (suc (length s₁.lru)) s₁.lru s₁ d₁ r₁.inv refl
          (left_over charge r₁) (omega arith) in
      (
        s₂,
        d₁ ++ d₂,
        ground (arith, runs₁, runs₂),
        record {
          inv = r₂.inv;
          frame = Frame-trans r₁.frame r₂.frame;
          chosen = chosen_both charge r₁ r₂;
          stopped = r₂.stopped;
        },
      )
