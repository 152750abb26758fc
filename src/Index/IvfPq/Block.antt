-- ===== src/Index/IvfPq/Block.antt =====
-- Adding one block of vectors to an IVF-PQ index, and what has grown by it.
use tenann.Prelude.{
  ℕ, ◌+◌, ◌≤◌, ◌≡◌, refl, sym, ap, subst, true, Option, none, some, List, [], ◌∷◌, arith, length,
}
use tenann.Common.Float.{Floats}
use tenann.Common.Outcome.{ok}
use tenann.Index.IvfPq.{
  IndexIvfPq, IvfPqLibrary, ids_of, given, to_encode, keys_of, add_one, add_each, add_block,
}
use tenann.Index.IvfPq.Rows.{Row, Holds, Same, TakesAll, put, extend, row_of, add_one-Holds}
use tenann.Index.IvfPq.Slices.{Covers, AllIn, length-to_encode}

module _ {D F : Type 0} (o : Floats F) (faiss : IvfPqLibrary D F) (direct : TakesAll o faiss) where
  add_each-Holds :
      (ids : List ℕ) (xs : List (List F)) (keys : List (Option ℕ)) (ix : IndexIvfPq D F)
      (rows : ℕ → List (Row F))
      → Covers xs ids
      → Covers xs keys
      → AllIn ix.nlist keys
      → Holds ix rows
      → (ix' : IndexIvfPq D F) × (add_each o faiss ids xs keys ix ≡ ok ix')
        × Holds ix' (extend o faiss ids xs keys rows)
        × Same o faiss ix ix'
  unfolding add_each add_one extend
  add_each-Holds ids [] keys ix rows c e within h =
      (ix, refl, h, (refl, refl, refl, refl, refl, refl, refl))
  add_each-Holds [] (xi ∷ xs) keys ix rows c e within h = absurd (omega (arith, c))
  add_each-Holds (id ∷ ids) (xi ∷ xs) [] ix rows c e within h = absurd (omega (arith, e))
  add_each-Holds (id ∷ ids) (xi ∷ xs) (none ∷ keys) ix rows c e within h =
      let (m, adds) = direct.adds ix.direct_map id none in
      let (ix', runs, holds, same) =
        add_each-Holds ids xs keys (record ix { direct_map = m }) rows (omega (arith, c))
          (omega (arith, e)) within
          (record {
            entries = h.entries;
            errors = h.errors;
            lists = h.lists;
            error_lists = h.error_lists;
          }) in
      (ix', ground (arith, adds, runs), holds, same)
  add_each-Holds (id ∷ ids) (xi ∷ xs) (some l ∷ keys) ix rows c e (small, within) h =
      let (ix₁, stores, holds₁, same₁) = add_one-Holds o faiss direct id xi l ix rows h small in
      let (ix', runs, holds, same) =
        add_each-Holds ids xs keys ix₁ (put l (row_of o faiss id xi) rows) (omega (arith, c))
          (omega (arith, e)) (subst (λ n. AllIn n keys) (sym same₁.0) within) holds₁ in
      (ix', ground (arith, stores, runs), holds, ground (arith, same, same₁))

  -- The rows after vectors are added.
  abbrev pub after :
      Option (List ℕ)
      → Option (List (Option ℕ))
      → List (List F)
      → IndexIvfPq D F
      → (ℕ → List (Row F))
      → ℕ
      → List (Row F)
  after xids idx xs ix rows =
      let keys = keys_of o faiss idx xs in
      extend o faiss (ids_of xids ix.ntotal (length xs)) (to_encode o faiss ix xs keys) keys rows

  -- There is an id and a list for every vector, and the lists exist.
  pub record Fits (xids : Option (List ℕ)) (idx : Option (List (Option ℕ))) (xs : List (List F))
      (ix : IndexIvfPq D F) : Type 0 where
    pub ids : Covers xs (ids_of xids ix.ntotal (length xs))
    pub keys : Covers xs (keys_of o faiss idx xs)
    pub within : AllIn ix.nlist (keys_of o faiss idx xs)

  -- The index has grown by so many vectors.
  pub record Grown (n : ℕ) (ix ix' : IndexIvfPq D F) : Type 0 where
    pub nlist : ix'.nlist ≡ ix.nlist
    pub ntotal : ix'.ntotal ≡ ix.ntotal + n
    pub is_trained : ix'.is_trained ≡ ix.is_trained
    pub by_residual : ix'.by_residual ≡ ix.by_residual
    pub metric_type : ix'.metric_type ≡ ix.metric_type
    pub polysemous_ht : ix'.polysemous_ht ≡ ix.polysemous_ht
    pub d : ix'.d ≡ ix.d

  pub add_block-Holds :
      (xids : Option (List ℕ)) (idx : Option (List (Option ℕ))) (xs : List (List F))
      (ix : IndexIvfPq D F) (rows : ℕ → List (Row F))
      → ix.is_trained ≡ true
      → Fits xids idx xs ix
      → Holds ix rows
      → (ix' : IndexIvfPq D F) × (add_block o faiss xids idx xs ix ≡ ok ix')
        × Holds ix' (after xids idx xs ix rows)
        × Grown (length xs) ix ix'
  unfolding add_block
  add_block-Holds xids idx xs ix rows trained fits h =
      let keys = keys_of o faiss idx xs in
      let encoded = to_encode o faiss ix xs keys in
      let ids = ids_of xids ix.ntotal (length xs) in
      let same_length = length-to_encode o faiss ix xs keys fits.keys in
      let (ix₁, runs, holds, same) =
        add_each-Holds ids encoded keys ix rows
          (subst (λ n. n ≤ length ids) (sym same_length) fits.ids)
          (subst (λ n. n ≤ length keys) (sym same_length) fits.keys) fits.within h in
      (
        record ix₁ { ntotal = ix₁.ntotal + length xs },
        ground (arith, trained, direct.can_add ix.direct_map (given xids), runs),
        record {
          entries = holds.entries;
          errors = holds.errors;
          lists = holds.lists;
          error_lists = holds.error_lists;
        },
        record {
          nlist = same.0;
          ntotal = ap (λ n. n + length xs) same.1;
          is_trained = same.2;
          by_residual = same.3;
          metric_type = same.4;
          polysemous_ht = same.5;
          d = same.6;
        },
      )
