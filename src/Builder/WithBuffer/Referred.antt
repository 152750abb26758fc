-- ===== src/Builder/WithBuffer/Referred.antt =====
-- Batches that live longer than the builder, and the flush that trains the index on them.
use native.Mathlib.Nat.{mul-div_cancel_left, mul-zero}
use mathlib.Core.List.{append_assoc, append-nil}
use tenann.Prelude.{
  ℕ, ◌*◌, ◌<◌, ◌≤◌, ◌≡◌, inl, inr, refl, true, false, some, List, [], ◌∷◌, ◌++◌, arith, length, ◌∙◌,
}
use tenann.Builder.Faiss.{FaissIndex, Documented, Contents}
use tenann.Builder.FaissIndexBuilder.{IndexBuilder, open_path, set_open_state}
use tenann.Builder.WithBuffer.{flush, build}
use tenann.Builder.WithBuffer.Batches.{
  Batch, Sized, add_batches, all_values, all_ids, custom_builder, range_all,
}
use tenann.Builder.WithBuffer.Copied.{Flushes, train_and_add_lem}
use tenann.Builder.WithBuffer.Referring.{Referring, Adds-referred}

module _ {Ix F : Type 0} (o : FaissIndex Ix F) (dim : ℕ) (pos : 0 < dim) where
  abbrev AllFull : List (Batch F) → Type 0
  AllFull [] = Unit {0}
  AllFull (x ∷ bs) = Sized o dim x × (0 < length x.ids) × AllFull bs

  add_batches_referred :
      (bs : List (Batch F)) {ix : Ix} {xs : List F} {is : List ℕ} {b : IndexBuilder Ix F}
      → AllFull bs
      → Referring o dim pos ix xs is b
      → (b' : IndexBuilder Ix F) × (add_batches o dim true bs b ≡ some b')
        × Referring o dim pos ix (xs ++ all_values o dim bs) (is ++ all_ids o dim bs) b'
        × (b'.written ≡ b.written)
        × (b'.index_save_path ≡ b.index_save_path)
        × (b'.memory_only ≡ b.memory_only)
  add_batches_referred [] {xs = xs} {is} {b} sized v =
      (b, refl, rw (append-nil xs, append-nil is) v, refl, refl, refl)
  add_batches_referred (x ∷ bs) {ix} {xs} {is} {b} (sized, some_rows, rest) v =
      let (b₁, (runs₁, v₁, w₁, p₁, m₁)) = Adds-referred o dim pos x sized some_rows v in
      let (b₂, runs₂, v₂, w₂, p₂, m₂) = add_batches_referred bs rest v₁ in
      (
        b₂,
        ground (arith, runs₁, runs₂),
        rw (append_assoc xs x.rows (all_values o dim bs), append_assoc is x.ids (all_ids o dim bs))
            at v₂,
        w₂ ∙ w₁,
        p₂ ∙ p₁,
        m₂ ∙ m₁,
      )

  module _ {values : Ix → List F} {ids : Ix → List ℕ} {least : ℕ}
      (doc : Documented o dim least values ids) where
    -- The flush of what is kept: a reference, or copies.
    flush_referred :
        {ix : Ix} {xs : List F} {is : List ℕ} {b : IndexBuilder Ix F}
        → Referring o dim pos ix xs is b
        → 0 < length is
        → least ≤ length is
        → (b' : IndexBuilder Ix F) × (ix' : Ix) × (flush o dim b ≡ some b')
          × Flushes o dim values ids ix xs is b b' ix'
    unfolding flush build
    flush_referred {ix} {xs} {is} {b} v some_rows enough =
        let (ix', runs, trained, contents) =
          train_and_add_lem o dim doc pos xs is ix v.whole enough in
        let b' : IndexBuilder Ix F = record b {
          row_id = some is;
          index_ref = some ix';
          written = b.written ++ (ix', b.index_save_path, b.memory_only) ∷ [];
        } in
        let left : Flushes o dim values ids ix xs is b b' ix' = record {
          index = refl;
          trained = trained;
          contents = contents;
          written = refl;
        } in
        elim v.kept [
          | inl (_, _, _, _, _, e') ↦ absurd (ground (arith, e', some_rows))
          | inr (y, sized_y, it, first, inl (no_data, no_buffer, e, e')) ↦ (
            b',
            ix',
            ground (
              arith,
              v.opened,
              v.index,
              v.untrained,
              it,
              first,
              no_data,
              no_buffer,
              e,
              e',
              runs,
              range_all (dim * length y.ids) y.rows sized_y,
            ),
            left,
          )
          | inr (y, sized_y, it, first, inr (copied, buffer, nonempty)) ↦ (
            b',
            ix',
            ground (
              arith,
              v.opened,
              v.index,
              v.untrained,
              copied,
              buffer,
              nonempty,
              some_rows,
              v.whole,
              runs,
              mul-div_cancel_left (length is) pos,
            ),
            left,
          )
        ]

    -- The same life of a builder whose inputs live longer than it: what it refers to and what it
    -- copies is again all batches, none of them empty, in order.
    pub build-add_batches_referred :
        (ix : Ix) (path : List ℕ) (bs : List (Batch F))
        → o.is_trained ix ≡ false
        → AllFull bs
        → 0 < length (all_ids o dim bs)
        → least ≤ length (all_ids o dim bs)
        → (b₁ b₂ b₃ : IndexBuilder Ix F) × (ix' : Ix) × (open_path (some ix) path custom_builder
            ≡ some b₁)
          × (add_batches o dim true bs b₁ ≡ some b₂)
          × (flush o dim b₂ ≡ some b₃)
          × (b₃.index_ref ≡ some ix')
          × (o.is_trained ix' ≡ true)
          × Contents values ids (values ix ++ all_values o dim bs) (ids ix ++ all_ids o dim bs) ix'
          × (b₃.written ≡ (ix', path, false) ∷ [])
    unfolding open_path
    build-add_batches_referred ix path bs untrained sized some_rows enough =
        let b₁ : IndexBuilder Ix F = set_open_state (record custom_builder {
          memory_only = false;
          index_save_path = path;
          index_ref = some ix;
        }) in
        let v₁ : Referring o dim pos ix [] [] b₁ = record {
          opened = refl;
          not_closed = refl;
          custom = refl;
          index = refl;
          untrained = untrained;
          whole = omega (arith, mul-zero dim);
          kept = inl (refl, refl, refl, refl, refl, refl);
        } in
        let (b₂, adds, v₂, w, p, m) = add_batches_referred bs sized v₁ in
        let (b₃, ix', flushes, f) = flush_referred v₂ some_rows enough in
        (
          b₁,
          b₂,
          b₃,
          ix',
          refl,
          adds,
          flushes,
          f.index,
          f.trained,
          f.contents,
          ground (arith, f.written, w, p, m),
        )
