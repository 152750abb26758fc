-- ===== src/Store/LruCache/EvictDurable.antt =====
-- The second loop of `_evict_from_lru`.
use mathlib.Core.List.{append-nil, append_assoc}
use tenann.Prelude.{
  ℕ, zero, suc, ◌<◌, ◌≡◌, ◌⊎◌, refl, sym, ◌∙◌, true, false, some, List, [], ◌∷◌, ◌++◌, arith,
  length, Bool-cases, inl, inr,
}
use tenann.Store.Heap.{get}
use tenann.Store.LruCache.{
  LruHandle, LruCache, sub64, over, is_durable, evict_one_entry, evict_durable,
}
use tenann.Store.LruCache.Invariant.{Inv}
use tenann.Store.LruCache.Evict.{evicted, Listed-of_eq, evict_one_entry-eq, evicted-Inv}
use tenann.Store.LruCache.Frame.{Frame, Frame-refl, Frame-trans, evicted-Frame}
use tenann.Store.LruCache.Victims.{
  victims, victims_fits, victims_over, victims-Frame, AllDurable, AllDurable-Frame,
}

-- A run of the loop over the list `rest`.
pub record EvictsDurable (held : List ℕ) (charge : ℕ) (rest : List ℕ) (s : LruCache)
    (deleted : List ℕ) (s' : LruCache) (d : List ℕ) : Type 0 where
  pub inv : Inv held (deleted ++ d) s'
  pub frame : Frame s s' d
  pub chosen : d ≡ victims s.heap charge s.capacity s.usage rest
  pub stopped : (over charge s' ≡ false) ⊎ (s'.lru ≡ [])

module _ (charge fuel : ℕ) (s : LruCache) (deleted : List ℕ) where
  round_fits : over charge s ≡ false → evict_durable (suc fuel) charge s deleted ≡ some (s, deleted)
  unfolding evict_durable
  round_fits fits = rw fits

  round_end : s.lru ≡ [] → evict_durable (suc fuel) charge s deleted ≡ some (s, deleted)
  unfolding evict_durable
  round_end at_end = ground (arith, at_end)

  round_take :
      {s' : LruCache} (p : ℕ) (e : LruHandle) (rest : List ℕ)
      → over charge s ≡ true
      → s.lru ≡ p ∷ rest
      → get p s.heap ≡ some e
      → is_durable e.priority ≡ true
      → evict_one_entry p s ≡ some s'
      → evict_durable (suc fuel) charge s deleted ≡ evict_durable fuel charge s' (deleted ++ p ∷ [])
  unfolding evict_durable
  round_take p e rest full at_p found lasting gone =
      ground (arith, full, at_p, found, lasting, gone)

module _ {held : List ℕ} (charge : ℕ) where
  stop-EvictsDurable :
      (rest : List ℕ) (s : LruCache) (deleted : List ℕ)
      → Inv held deleted s
      → over charge s ≡ false
      → EvictsDurable held charge rest s deleted s []
  stop-EvictsDurable rest s deleted v fits = record {
    inv = rw append-nil v;
    frame = Frame-refl s;
    chosen = sym (victims_fits s.heap charge s.capacity s.usage rest fits);
    stopped = inl fits;
  }

  take-EvictsDurable :
      (rest : List ℕ) (p : ℕ) (e : LruHandle) (s : LruCache) (deleted : List ℕ)
      → get p s.heap ≡ some e
      → {s' : LruCache} {d : List ℕ} → Frame s (evicted p e s) (p ∷ [])
      → over charge s ≡ true
      → EvictsDurable held charge rest (evicted p e s) (deleted ++ p ∷ []) s' d
      → EvictsDurable held charge (p ∷ rest) s deleted s' (p ∷ d)
  take-EvictsDurable rest p e s deleted found {s'} {d} f full r = record {
    inv = rw append_assoc at r.inv;
    frame = Frame-trans f r.frame;
    chosen = ground (
      arith,
      r.chosen,
      found,
      victims-Frame f charge s.capacity (sub64 s.usage e.charge) rest,
      victims_over s.heap charge s.capacity s.usage p rest full,
    );
    stopped = r.stopped;
  }

  -- On a list of durable entries the loop returns, if there is more fuel than entries; its check
  -- of the priority never fails.
  pub evict_durable_lem :
      (fuel : ℕ) (rest : List ℕ) (s : LruCache) (deleted : List ℕ)
      → Inv held deleted s
      → s.lru ≡ rest
      → (over charge s ≡ false) ⊎ AllDurable s.heap rest
      → length rest < fuel
      → (s' : LruCache) × (d : List ℕ) × (evict_durable fuel charge s deleted
          ≡ some (s', deleted ++ d))
        × EvictsDurable held charge rest s deleted s' d
  unfolding victims
  evict_durable_lem zero rest s deleted v e a enough = absurd (omega arith)
  evict_durable_lem (suc fuel) rest s deleted v e (inl fits) enough = (
    s,
    [],
    rw append-nil (round_fits charge fuel s deleted fits),
    stop-EvictsDurable rest s deleted v fits,
  )
  evict_durable_lem (suc fuel) [] s deleted v e (inr a) enough = (
    s,
    [],
    rw append-nil (round_end charge fuel s deleted e),
    record { inv = rw append-nil v; frame = Frame-refl s; chosen = refl; stopped = inr e },
  )
  evict_durable_lem (suc fuel) (p ∷ rest) s deleted v e (inr a) enough =
      elim (Bool-cases (over charge s)) [
        | inr fits ↦ (
          s,
          [],
          rw append-nil (round_fits charge fuel s deleted fits),
          stop-EvictsDurable (p ∷ rest) s deleted v fits,
        )
        | inl full ↦
            let (x, l) = Listed-of_eq v [] rest p e in
            let f = evicted-Frame v p x l.found l.single in
            let (s', d, runs, r) =
              evict_durable_lem fuel rest (evicted p x s) (deleted ++ p ∷ [])
                (evicted-Inv v p x l.found l.cached l.once) l.erased
                (inr (AllDurable-Frame f rest a.1)) (omega arith) in
            (
              s',
              p ∷ d,
              round_take charge fuel s deleted p x rest full e l.found
                    (ground (arith, a.0, l.found))
                    (evict_one_entry-eq v p x l.found l.cached l.once)
                  ∙ (rw append_assoc at runs),
              take-EvictsDurable rest p x s deleted l.found f full r,
            )
      ]
