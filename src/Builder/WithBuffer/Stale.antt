-- ===== src/Builder/WithBuffer/Stale.antt =====
-- Batches that the buffer loses, and batches that it keeps too long.
use native.Mathlib.Nat.{mul-pos, mul-div_cancel_left}
use tenann.Prelude.{
  ℕ, ◌*◌, ◌<◌, ◌≤◌, ◌≡◌, refl, true, false, some, List, [], ◌∷◌, ◌++◌, arith, length,
}
use tenann.Builder.Faiss.{FaissIndex, Documented, Contents}
use tenann.Builder.FaissIndexBuilder.{
  IndexBuilder, open_path, close, set_open_state, set_close_state, add, add_impl,
}
use tenann.Builder.WithBuffer.{methods, add_with_row_ids, merge, append_batch, flush, build}
use tenann.Builder.WithBuffer.Batches.{Batch, Sized, view, add_batch, custom_builder, range_all}
use tenann.Builder.WithBuffer.Copied.{train_and_add_lem, Buffering, flush_copied}

module _ {Ix F : Type 0} (o : FaissIndex Ix F) (dim : ℕ) (pos : 0 < dim) {values : Ix → List F}
    {ids : Ix → List ℕ} {least : ℕ} (doc : Documented o dim least values ids) (ix : Ix)
    (path : List ℕ) (untrained : o.is_trained ix ≡ false) where
  abbrev opened_builder : Ix → IndexBuilder Ix F → IndexBuilder Ix F
  opened_builder ix b =
      set_open_state (record b { memory_only = false; index_save_path = path; index_ref = some ix })

  -- A batch `x` that lives longer than the builder, then a batch `y` that is copied, then a flush: the
  -- index gets the vectors and ids of `y` only, and no call fails.
  pub flush-add_batch_mixed :
      (x y : Batch F)
      → Sized o dim y
      → 0 < length y.ids
      → least ≤ length y.ids
      → (b₁ b₂ b₃ b₄ : IndexBuilder Ix F) × (ix' : Ix) × (open_path (some ix) path custom_builder
          ≡ some b₁)
        × (add_batch o dim true x b₁ ≡ some b₂)
        × (add_batch o dim false y b₂ ≡ some b₃)
        × (flush o dim b₃ ≡ some b₄)
        × (b₄.index_ref ≡ some ix')
        × Contents values ids (values ix ++ y.rows) (ids ix ++ y.ids) ix'
  unfolding open_path add add_impl methods add_with_row_ids merge append_batch flush build
  flush-add_batch_mixed x y sized some_rows enough =
      let (ix', runs, trained, contents) =
        train_and_add_lem o dim doc pos y.rows y.ids ix sized enough in
      let full : 0 < length y.rows = rw sized (mul-pos pos some_rows) in
      let b₁ : IndexBuilder Ix F = opened_builder ix custom_builder in
      let b₂ : IndexBuilder Ix F = record b₁ {
        inputs_live_longer_than_this = true;
        input_row_iterator = some (view o dim x);
        row_id = some x.ids;
      } in
      let b₃ : IndexBuilder Ix F = record b₂ {
        inputs_live_longer_than_this = false;
        data_buffer = y.rows;
        id_buffer = y.ids;
      } in
      let b₄ : IndexBuilder Ix F = record b₃ {
        row_id = some y.ids;
        index_ref = some ix';
        written = (ix', path, false) ∷ [];
      } in
      (
        b₁,
        b₂,
        b₃,
        b₄,
        ix',
        refl,
        ground (arith, untrained),
        ground (
          arith,
          untrained,
          range_all (dim * length y.ids) y.rows sized,
          range_all (length y.ids) y.ids refl,
        ),
        ground (
          arith,
          untrained,
          full,
          some_rows,
          sized,
          runs,
          mul-div_cancel_left (length y.ids) pos,
        ),
        refl,
        contents,
      )

  -- A builder that is closed with copied batches in its buffers and opened again puts them, at the
  -- flush, into the new index.
  pub flush-close_open :
      {ix₀ : Ix} {b : IndexBuilder Ix F} (xs : List F) (is : List ℕ)
      → Buffering o dim ix₀ xs is b
      → 0 < length is
      → least ≤ length is
      → (b₁ b₂ b₃ : IndexBuilder Ix F) × (ix' : Ix) × (close b ≡ some b₁)
        × (open_path (some ix) path b₁ ≡ some b₂)
        × (flush o dim b₂ ≡ some b₃)
        × (b₃.index_ref ≡ some ix')
        × Contents values ids (values ix ++ xs) (ids ix ++ is) ix'
  unfolding open_path close
  flush-close_open {b = b} xs is v some_rows enough =
      let b₁ : IndexBuilder Ix F = set_close_state b in
      let b₂ : IndexBuilder Ix F = opened_builder ix b₁ in
      let v₂ : Buffering o dim ix xs is b₂ = record {
        opened = refl;
        not_closed = refl;
        custom = v.custom;
        index = refl;
        untrained = untrained;
        no_reference = v.no_reference;
        no_ids = v.no_ids;
        buffered = v.buffered;
        buffered_ids = v.buffered_ids;
        whole = v.whole;
      } in
      let (b₃, ix', flushes, f) = flush_copied o dim doc pos v₂ some_rows enough in
      (b₁, b₂, b₃, ix', ground (arith, v.opened), refl, flushes, f.index, f.contents)
