-- ===== src/Index/IvfPq/Adding.antt =====
-- Adding vectors to an IVF-PQ index, block by block, keeps each error at the place of its entry.
use tenann.Prelude.{
  ℕ, zero, suc, ◌≤◌, ◌≡◌, refl, sym, ◌∙◌, subst, true, Option, List, [], ◌∷◌, arith, ltb, length,
  drop, Bool-cases, inl, inr,
}
use tenann.Common.Float.{Floats}
use tenann.Common.Outcome.{ok}
use tenann.Index.BlockCache.{take}
use tenann.Index.IvfPq.{
  IndexIvfPq, IvfPqLibrary, add_core_o_bs, ids_of, take_opt, drop_opt, to_encode, keys_of,
  add_blocks, custom_add_core_o,
}
use tenann.Index.IvfPq.Rows.{Row, Holds, TakesAll, extend}
use tenann.Index.IvfPq.Slices.{
  Covers-take, Covers-drop, AllIn-take, AllIn-drop, ids_of-take, ids_of-drop, length-drop-shorter,
  length-take-drop, keys_of-take, keys_of-drop, extend-split, to_encode-take, to_encode-drop,
  length-to_encode,
}
use tenann.Index.IvfPq.Block.{after, Fits, Grown, add_block-Holds}

module _ {D F : Type 0} (o : Floats F) (faiss : IvfPqLibrary D F) (direct : TakesAll o faiss) where
  -- A block of `m` vectors and the rest of them.
  Fits-take :
      (m : ℕ) (xids : Option (List ℕ)) (idx : Option (List (Option ℕ))) (xs : List (List F))
      (ix : IndexIvfPq D F)
      → Fits o faiss direct xids idx xs ix
      → Fits o faiss direct (take_opt m xids) (take_opt m idx) (take m xs) ix
  Fits-take m xids idx xs ix f = record {
    ids = rw (ids_of-take xids m ix.ntotal xs) (Covers-take m xs _ f.ids);
    keys = rw (keys_of-take o faiss idx m xs) (Covers-take m xs _ f.keys);
    within = rw (keys_of-take o faiss idx m xs) (AllIn-take m ix.nlist _ f.within);
  }

  Fits-drop :
      (m : ℕ) (xids : Option (List ℕ)) (idx : Option (List (Option ℕ))) (xs : List (List F))
      (ix ix₁ : IndexIvfPq D F)
      → Fits o faiss direct xids idx xs ix
      → Grown o faiss direct (length (take m xs)) ix ix₁
      → Fits o faiss direct (drop_opt m xids) (drop_opt m idx) (drop m xs) ix₁
  Fits-drop m xids idx xs ix ix₁ f g = record {
    ids = rw (g.ntotal, ids_of-drop xids m ix.ntotal xs) (Covers-drop m xs _ f.ids);
    keys = rw (keys_of-drop o faiss idx m xs) (Covers-drop m xs _ f.keys);
    within = rw (g.nlist, keys_of-drop o faiss idx m xs) (AllIn-drop m ix.nlist _ f.within);
  }

  after-split :
      (m : ℕ) (xids : Option (List ℕ)) (idx : Option (List (Option ℕ))) (xs : List (List F))
      (ix ix₁ : IndexIvfPq D F) (rows : ℕ → List (Row F))
      → Fits o faiss direct xids idx xs ix
      → Grown o faiss direct (length (take m xs)) ix ix₁
      → after o faiss direct
          (drop_opt m xids)
          (drop_opt m idx)
          (drop m xs)
          ix₁
          (after o faiss direct (take_opt m xids) (take_opt m idx) (take m xs) ix rows)
        ≡ after o faiss direct xids idx xs ix rows
  after-split m xids idx xs ix ix₁ rows f g =
      let keys = keys_of o faiss idx xs in
      let encoded = to_encode o faiss ix xs keys in
      let ids = ids_of xids ix.ntotal (length xs) in
      let same_length = length-to_encode o faiss ix xs keys f.keys in
      rw
        (
          g.ntotal,
          g.by_residual,
          g.d,
          ids_of-take xids m ix.ntotal xs,
          ids_of-drop xids m ix.ntotal xs,
          keys_of-take o faiss idx m xs,
          keys_of-drop o faiss idx m xs,
          to_encode-take o faiss ix m xs keys,
          to_encode-drop o faiss ix m xs keys,
        )
        (extend-split o faiss m ids encoded keys rows
          (subst (λ n. n ≤ length ids) (sym same_length) f.ids)
          (subst (λ n. n ≤ length keys) (sym same_length) f.keys))

  after-none :
      (xids : Option (List ℕ)) (idx : Option (List (Option ℕ))) (ix : IndexIvfPq D F)
      (rows : ℕ → List (Row F))
      → after o faiss direct xids idx [] ix rows ≡ rows
  unfolding extend
  after-none xids idx ix rows = elim (Bool-cases ix.by_residual) [
    | inl residual ↦ rw residual
    | inr raw ↦ rw raw
  ]

  add_blocks-Holds :
      (fuel : ℕ) (xids : Option (List ℕ)) (idx : Option (List (Option ℕ))) (xs : List (List F))
      (ix : IndexIvfPq D F) (rows : ℕ → List (Row F))
      → length xs ≤ fuel
      → ix.is_trained ≡ true
      → Fits o faiss direct xids idx xs ix
      → Holds ix rows
      → (ix' : IndexIvfPq D F) × (add_blocks o faiss fuel xids idx xs ix ≡ ok ix')
        × Holds ix' (after o faiss direct xids idx xs ix rows)
        × Grown o faiss direct (length xs) ix ix'
  unfolding add_blocks extend
  add_blocks-Holds fuel xids idx [] ix rows enough trained f h = (
    ix,
    refl,
    subst (λ r. Holds ix r) (sym (after-none xids idx ix rows)) h,
    record {
      nlist = refl;
      ntotal = omega arith;
      is_trained = refl;
      by_residual = refl;
      metric_type = refl;
      polysemous_ht = refl;
      d = refl;
    },
  )
  add_blocks-Holds zero xids idx (x ∷ xs) ix rows enough trained f h =
      absurd (omega (arith, enough))
  add_blocks-Holds (suc fuel) xids idx (x ∷ xs) ix rows enough trained f h =
      let bs = add_core_o_bs in
      let (ix₁, adds, holds₁, g₁) =
        add_block-Holds o faiss direct (take_opt bs xids) (take_opt bs idx) (take bs (x ∷ xs)) ix
          rows trained (Fits-take bs xids idx (x ∷ xs) ix f) h in
      let (ix', runs, holds, g) =
        add_blocks-Holds fuel (drop_opt bs xids) (drop_opt bs idx) (drop bs (x ∷ xs)) ix₁
          (after o faiss direct (take_opt bs xids) (take_opt bs idx) (take bs (x ∷ xs)) ix rows)
          (omega (arith, enough, length-drop-shorter 32767 x xs)) (g₁.is_trained ∙ trained)
          (Fits-drop bs xids idx (x ∷ xs) ix ix₁ f g₁) holds₁ in
      (
        ix',
        ground (arith, adds, runs),
        subst (λ r. Holds ix' r) (after-split bs xids idx (x ∷ xs) ix ix₁ rows f g₁) holds,
        record {
          nlist = g.nlist ∙ g₁.nlist;
          ntotal = omega (arith, g.ntotal, g₁.ntotal, length-take-drop bs (x ∷ xs));
          is_trained = g.is_trained ∙ g₁.is_trained;
          by_residual = g.by_residual ∙ g₁.by_residual;
          metric_type = g.metric_type ∙ g₁.metric_type;
          polysemous_ht = g.polysemous_ht ∙ g₁.polysemous_ht;
          d = g.d ∙ g₁.d;
        },
      )

  -- Vectors that are added to a trained index, with ids that are given or follow those of the index and
  -- with lists that are given or assigned, are stored at the ends of their lists in order, in as many
  -- blocks as it takes, each with its error at the place of its entry; those without a list are not
  -- stored. The direct map takes every vector, and there is a list of the index for each list number.
  pub custom_add_core_o-Holds :
      (xids : Option (List ℕ)) (idx : Option (List (Option ℕ))) (xs : List (List F))
      (ix : IndexIvfPq D F) (rows : ℕ → List (Row F))
      → ix.is_trained ≡ true
      → Fits o faiss direct xids idx xs ix
      → Holds ix rows
      → (ix' : IndexIvfPq D F) × (custom_add_core_o o faiss xids idx xs ix ≡ ok ix')
        × Holds ix' (after o faiss direct xids idx xs ix rows)
        × Grown o faiss direct (length xs) ix ix'
  unfolding custom_add_core_o
  custom_add_core_o-Holds xids idx xs ix rows trained f h =
      elim (Bool-cases (ltb add_core_o_bs (length xs))) [
        | inl many ↦
            let (ix', runs, holds, g) =
              add_blocks-Holds (length xs) xids idx xs ix rows (omega arith) trained f h in
            (ix', ground (arith, many, runs), holds, g)
        | inr few ↦
            let (ix', runs, holds, g) =
              add_block-Holds o faiss direct xids idx xs ix rows trained f h in
            (ix', ground (arith, few, runs), holds, g)
      ]
