-- ===== src/Store/LruCache/EvictNormal.antt =====
-- The first loop of `_evict_from_lru`.
use mathlib.Core.List.{append-nil, append_assoc}
use tenann.Prelude.{
  ℕ, zero, suc, ◌+◌, ◌<◌, ◌≡◌, ◌⊎◌, refl, sym, ◌∙◌, true, false, none, some, List, [], ◌∷◌, ◌++◌,
  arith, length, length-append, get_elem?, get_elem?-length, get_elem?-length_end, Bool-cases, inl,
  inr,
}
use tenann.Store.Heap.{get}
use tenann.Store.LruCache.{
  LruHandle, LruCache, sub64, over, is_durable, evict_one_entry, evict_normal,
}
use tenann.Store.LruCache.Invariant.{Inv}
use tenann.Store.LruCache.Evict.{evicted, Listed-of_eq, evict_one_entry-eq, evicted-Inv}
use tenann.Store.LruCache.Frame.{durable_of, Frame, Frame-refl, Frame-trans, evicted-Frame}
use tenann.Store.LruCache.Victims.{
  normals, durables, victims, drain, victims_fits, victims_over, victims-Frame, drain-Frame,
  normals-Frame, durables-Frame,
}

-- A run of the loop from `kept ++ rest`, where `cur` stands behind `kept`: it returns with `s'`
-- and the entries `d`, which the description by `victims` names.
pub record EvictsNormal (held : List ℕ) (charge : ℕ) (kept rest : List ℕ) (s : LruCache)
    (deleted : List ℕ) (s' : LruCache) (d : List ℕ) : Type 0 where
  pub inv : Inv held (deleted ++ d) s'
  pub frame : Frame s s' d
  pub chosen : d ≡ victims s.heap charge s.capacity s.usage (normals s.heap rest)
  pub drained : s'.usage ≡ drain s.heap s.usage d
  pub stopped : (over charge s' ≡ false) ⊎ (s'.lru ≡ kept ++ durables s.heap rest)

module _ (charge : ℕ) where
  -- One round of the loop.
  module _ (fuel skipped : ℕ) (s : LruCache) (deleted : List ℕ) where
    round_fits :
        over charge s ≡ false → evict_normal (suc fuel) charge skipped s deleted ≡ some (s, deleted)
    unfolding evict_normal
    round_fits fits = rw fits

    round_end :
        get_elem? s.lru skipped ≡ none
        → evict_normal (suc fuel) charge skipped s deleted ≡ some (s, deleted)
    unfolding evict_normal
    round_end at_end = ground (arith, at_end)

    module _ (p : ℕ) (e : LruHandle) (full : over charge s ≡ true)
        (at_p : get_elem? s.lru skipped ≡ some p) (found : get p s.heap ≡ some e) where
      round_skip :
          is_durable e.priority ≡ true
          → evict_normal (suc fuel) charge skipped s deleted
            ≡ evict_normal fuel charge (skipped + 1) s deleted
      unfolding evict_normal
      round_skip lasting = ground (arith, full, at_p, found, lasting)

      round_take :
          {s' : LruCache}
          → is_durable e.priority ≡ false
          → evict_one_entry p s ≡ some s'
          → evict_normal (suc fuel) charge skipped s deleted
            ≡ evict_normal fuel charge skipped s' (deleted ++ p ∷ [])
      unfolding evict_normal
      round_take passing gone = ground (arith, full, at_p, found, passing, gone)

module _ {held : List ℕ} (charge : ℕ) where
  evict_normal_stop :
      (kept rest : List ℕ) (s : LruCache) (deleted : List ℕ)
      → Inv held deleted s
      → over charge s ≡ false
      → EvictsNormal held charge kept rest s deleted s []
  evict_normal_stop kept rest s deleted v fits = record {
    inv = rw append-nil v;
    frame = Frame-refl s;
    chosen = sym (victims_fits s.heap charge s.capacity s.usage (normals s.heap rest) fits);
    drained = refl;
    stopped = inl fits;
  }

  evict_normal_end :
      (kept : List ℕ) (s : LruCache) (deleted : List ℕ)
      → Inv held deleted s
      → s.lru ≡ kept ++ []
      → EvictsNormal held charge kept [] s deleted s []
  unfolding victims
  evict_normal_end kept s deleted v e = record {
    inv = rw append-nil v;
    frame = Frame-refl s;
    chosen = refl;
    drained = refl;
    stopped = inr e;
  }

  module _ (kept rest : List ℕ) (p : ℕ) (e : LruHandle) (s : LruCache) (deleted : List ℕ)
      (found : get p s.heap ≡ some e) where
    skip-EvictsNormal :
        {s' : LruCache} {d : List ℕ}
        → is_durable e.priority ≡ true
        → EvictsNormal held charge (kept ++ p ∷ []) rest s deleted s' d
        → EvictsNormal held charge kept (p ∷ rest) s deleted s' d
    skip-EvictsNormal lasting r =
        let at_p : durable_of (get p s.heap) ≡ true = ground (arith, found, lasting) in
        record {
          inv = r.inv;
          frame = r.frame;
          chosen = ground (arith, r.chosen, at_p);
          drained = r.drained;
          stopped =
              ground (arith, at_p, r.stopped, append_assoc kept (p ∷ []) (durables s.heap rest));
        }

    take-EvictsNormal :
        {s' : LruCache} {d : List ℕ}
        → Frame s (evicted p e s) (p ∷ [])
        → over charge s ≡ true
        → is_durable e.priority ≡ false
        → EvictsNormal held charge kept rest (evicted p e s) (deleted ++ p ∷ []) s' d
        → EvictsNormal held charge kept (p ∷ rest) s deleted s' (p ∷ d)
    take-EvictsNormal {s'} {d} f full passing r =
        let at_p : durable_of (get p s.heap) ≡ false = ground (arith, found, passing) in
        record {
          inv = rw append_assoc at r.inv;
          frame = Frame-trans f r.frame;
          chosen = ground (
            arith,
            r.chosen,
            at_p,
            found,
            victims-Frame f charge s.capacity (sub64 s.usage e.charge)
                (normals (evicted p e s).heap rest),
            normals-Frame f rest,
            victims_over s.heap charge s.capacity s.usage p (normals s.heap rest) full,
          );
          drained = ground (arith, r.drained, found, drain-Frame f (sub64 s.usage e.charge) d);
          stopped = ground (arith, r.stopped, at_p, durables-Frame f rest);
        }

  -- With more fuel than entries the loop returns, and evicts what the description says.
  pub evict_normal_lem :
      (fuel : ℕ) (rest kept : List ℕ) (s : LruCache) (deleted : List ℕ)
      → Inv held deleted s
      → s.lru ≡ kept ++ rest
      → length rest < fuel
      → (s' : LruCache) × (d : List ℕ) × (evict_normal fuel charge (length kept) s deleted
          ≡ some (s', deleted ++ d))
        × EvictsNormal held charge kept rest s deleted s' d
  evict_normal_lem zero rest kept s deleted v e enough = absurd (omega arith)
  evict_normal_lem (suc fuel) [] kept s deleted v e enough = (
    s,
    [],
    rw append-nil (
        round_end charge fuel (length kept) s deleted
          (ground (arith, e, append-nil kept, get_elem?-length_end kept))),
    evict_normal_end kept s deleted v e,
  )
  evict_normal_lem (suc fuel) (p ∷ rest) kept s deleted v e enough =
      elim (Bool-cases (over charge s)) [
        | inr fits ↦ (
          s,
          [],
          rw append-nil (round_fits charge fuel (length kept) s deleted fits),
          evict_normal_stop kept (p ∷ rest) s deleted v fits,
        )
        | inl full ↦
            let (x, l) = Listed-of_eq v kept rest p e in
            let at_p : get_elem? s.lru (length kept) ≡ some p =
              rw e (get_elem?-length kept rest p) in
            elim (Bool-cases (is_durable x.priority)) [
              | inl lasting ↦
                  let (s', d, runs, r) =
                    evict_normal_lem fuel rest (kept ++ p ∷ []) s deleted v
                      (e ∙ sym (append_assoc kept (p ∷ []) rest)) (omega arith) in
                  (
                    s',
                    d,
                    round_skip charge fuel (length kept) s deleted p x full at_p l.found lasting
                        ∙ (rw length-append at runs),
                    skip-EvictsNormal kept rest p x s deleted l.found lasting r,
                  )
              | inr passing ↦
                  let (s', d, runs, r) =
                    evict_normal_lem fuel rest kept (evicted p x s) (deleted ++ p ∷ [])
                      (evicted-Inv v p x l.found l.cached l.once) l.erased (omega arith) in
                  (
                    s',
                    p ∷ d,
                    round_take charge fuel (length kept) s deleted p x full at_p l.found passing
                          (evict_one_entry-eq v p x l.found l.cached l.once)
                        ∙ (rw append_assoc at runs),
                    take-EvictsNormal kept rest p x s deleted l.found
                        (evicted-Frame v p x l.found l.single) full passing r,
                  )
            ]
      ]
