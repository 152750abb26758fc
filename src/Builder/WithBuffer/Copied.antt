-- ===== src/Builder/WithBuffer/Copied.antt =====
-- Batches that are copied into the buffers, and the flush that trains the index on them.
use native.Mathlib.Nat.{mul-div_cancel_left, mul-add, mul-pos, mul-zero}
use mathlib.Core.List.{append_assoc, append-nil}
use tenann.Prelude.{
  ℕ, ◌*◌, ◌<◌, ◌≤◌, ◌≡◌, refl, ◌∙◌, true, false, none, some, List, [], ◌∷◌, ◌++◌, arith, length,
  length-append,
}
use tenann.Builder.Faiss.{FaissIndex, Documented, Contents}
use tenann.Builder.FaissIndexBuilder.{
  new_builder, enable_custom_row_id, open_path, set_open_state, IndexBuilder, add, add_impl,
}
use tenann.Builder.WithBuffer.{
  methods, add_with_row_ids, merge, append_batch, flush, build, train_and_add,
}
use tenann.Builder.WithBuffer.Batches.{
  range_all, Batch, Sized, add_batch, add_batches, all_values, all_ids, AllSized,
}

module _ {Ix F : Type 0} (o : FaissIndex Ix F) (dim : ℕ) where
  -- The builder is open, with custom row ids, and its index is not trained. The buffers hold copies
  -- of `xs` and `is`.
  pub record Buffering (ix : Ix) (xs : List F) (is : List ℕ) (b : IndexBuilder Ix F) : Type 0 where
    pub opened : b.is_opened ≡ true
    pub not_closed : b.is_closed ≡ false
    pub custom : b.use_custom_row_id ≡ true
    pub index : b.index_ref ≡ some ix
    pub untrained : o.is_trained ix ≡ false
    pub no_reference : b.input_row_iterator ≡ none
    pub no_ids : b.row_id ≡ none
    pub buffered : b.data_buffer ≡ xs
    pub buffered_ids : b.id_buffer ≡ is
    pub whole : length xs ≡ dim * length is

  add_copied :
      {ix : Ix} {xs : List F} {is : List ℕ} {b : IndexBuilder Ix F} (x : Batch F)
      → Sized o dim x
      → Buffering ix xs is b
      → (b' : IndexBuilder Ix F) × (add_batch o dim false x b ≡ some b')
        × Buffering ix (xs ++ x.rows) (is ++ x.ids) b'
        × (b'.written ≡ b.written)
        × (b'.index_save_path ≡ b.index_save_path)
        × (b'.memory_only ≡ b.memory_only)
  unfolding add add_impl methods add_with_row_ids merge append_batch
  add_copied {ix} {xs} {is} {b} x sized v =
      let b' : IndexBuilder Ix F = record b {
        inputs_live_longer_than_this = false;
        data_buffer = b.data_buffer ++ x.rows;
        id_buffer = b.id_buffer ++ x.ids;
      } in
      (
        b',
        ground (
          arith,
          v.opened,
          v.not_closed,
          v.custom,
          v.index,
          v.untrained,
          range_all (dim * length x.ids) x.rows sized,
          range_all (length x.ids) x.ids refl,
        ),
        record {
          opened = v.opened;
          not_closed = v.not_closed;
          custom = v.custom;
          index = v.index;
          untrained = v.untrained;
          no_reference = v.no_reference;
          no_ids = v.no_ids;
          buffered = ground (arith, v.buffered);
          buffered_ids = ground (arith, v.buffered_ids);
          whole = ground (
            arith,
            length-append xs x.rows,
            length-append is x.ids,
            v.whole,
            sized,
            mul-add dim (length is) (length x.ids),
          );
        },
        refl,
        refl,
        refl,
      )

  add_batches_copied :
      (bs : List (Batch F)) {ix : Ix} {xs : List F} {is : List ℕ} {b : IndexBuilder Ix F}
      → AllSized o dim bs
      → Buffering ix xs is b
      → (b' : IndexBuilder Ix F) × (add_batches o dim false bs b ≡ some b')
        × Buffering ix (xs ++ all_values o dim bs) (is ++ all_ids o dim bs) b'
        × (b'.written ≡ b.written)
        × (b'.index_save_path ≡ b.index_save_path)
        × (b'.memory_only ≡ b.memory_only)
  add_batches_copied [] {xs = xs} {is} {b} sized v =
      (b, refl, rw (append-nil xs, append-nil is) v, refl, refl, refl)
  add_batches_copied (x ∷ bs) {ix} {xs} {is} {b} (sized, rest) v =
      let (b₁, runs₁, v₁, w₁, p₁, m₁) = add_copied x sized v in
      let (b₂, runs₂, v₂, w₂, p₂, m₂) = add_batches_copied bs rest v₁ in
      (
        b₂,
        ground (arith, runs₁, runs₂),
        rw (append_assoc xs x.rows (all_values o dim bs), append_assoc is x.ids (all_ids o dim bs))
            at v₂,
        w₂ ∙ w₁,
        p₂ ∙ p₁,
        m₂ ∙ m₁,
      )

  -- What a flush leaves: the index is trained and has the vectors and the ids behind its own, and
  -- the writer was called with it.
  module _ (values : Ix → List F) (ids : Ix → List ℕ) where
    pub record Flushes (ix : Ix) (xs : List F) (is : List ℕ) (b b' : IndexBuilder Ix F) (ix' : Ix)
        : Type 0 where
      pub index : b'.index_ref ≡ some ix'
      pub trained : o.is_trained ix' ≡ true
      pub contents : Contents values ids (values ix ++ xs) (ids ix ++ is) ix'
      pub written : b'.written ≡ b.written ++ (ix', b.index_save_path, b.memory_only) ∷ []

  module _ {values : Ix → List F} {ids : Ix → List ℕ} {least : ℕ}
      (doc : Documented o dim least values ids) (pos : 0 < dim) where
    pub train_and_add_lem :
        (xs : List F) (is : List ℕ) (ix : Ix)
        → length xs ≡ dim * length is
        → least ≤ length is
        → (ix' : Ix) × (train_and_add o dim (length is) xs (some is) ix ≡ some ix')
          × (o.is_trained ix' ≡ true)
          × Contents values ids (values ix ++ xs) (ids ix ++ is) ix'
    unfolding train_and_add
    train_and_add_lem xs is ix whole enough =
        let (ix₁, trains, trained, same, same') = doc.trains (length is) xs ix whole enough in
        let (ix₂, adds, trained', e, e') = doc.adds (length is) xs is ix₁ trained whole refl in
        (
          ix₂,
          ground (arith, trains, adds, range_all (length is) is refl),
          trained',
          record { values_eq = ground (arith, e, same); ids_eq = ground (arith, e', same') },
        )

    pub flush_copied :
        {ix : Ix} {xs : List F} {is : List ℕ} {b : IndexBuilder Ix F}
        → Buffering ix xs is b
        → 0 < length is
        → least ≤ length is
        → (b' : IndexBuilder Ix F) × (ix' : Ix) × (flush o dim b ≡ some b')
          × Flushes values ids ix xs is b b' ix'
    unfolding flush build
    flush_copied {ix} {xs} {is} {b} v some_rows enough =
        let (ix', runs, trained, contents) = train_and_add_lem xs is ix v.whole enough in
        let full : 0 < length xs = rw v.whole (mul-pos pos some_rows) in
        (
          record b {
            row_id = some is;
            index_ref = some ix';
            written = b.written ++ (ix', b.index_save_path, b.memory_only) ∷ [];
          },
          ix',
          ground (
            arith,
            v.opened,
            v.index,
            v.untrained,
            v.buffered,
            v.buffered_ids,
            v.whole,
            runs,
            mul-div_cancel_left (length is) pos,
            full,
          ),
          record { index = refl; trained = trained; contents = contents; written = refl },
        )

    -- The life of a builder with custom row ids whose inputs are copied: it is opened for an untrained
    -- index, takes the batches and is flushed. Each call returns, the index is trained and has the
    -- vectors and ids of all batches in order behind its own, and the writer gets it with the path.
    pub build-add_batches :
        (ix : Ix) (path : List ℕ) (bs : List (Batch F))
        → o.is_trained ix ≡ false
        → AllSized o dim bs
        → 0 < length (all_ids o dim bs)
        → least ≤ length (all_ids o dim bs)
        → (b₀ b₁ b₂ b₃ : IndexBuilder Ix F) × (ix' : Ix) × (enable_custom_row_id new_builder
            ≡ some b₀)
          × (open_path (some ix) path b₀ ≡ some b₁)
          × (add_batches o dim false bs b₁ ≡ some b₂)
          × (flush o dim b₂ ≡ some b₃)
          × (b₃.index_ref ≡ some ix')
          × (o.is_trained ix' ≡ true)
          × Contents values ids (values ix ++ all_values o dim bs) (ids ix ++ all_ids o dim bs) ix'
          × (b₃.written ≡ (ix', path, false) ∷ [])
    unfolding open_path enable_custom_row_id
    build-add_batches ix path bs untrained sized some_rows enough =
        let b₀ : IndexBuilder Ix F = record new_builder { use_custom_row_id = true } in
        let b₁ : IndexBuilder Ix F =
          set_open_state
            (record b₀ { memory_only = false; index_save_path = path; index_ref = some ix }) in
        let v₁ : Buffering ix [] [] b₁ = record {
          opened = refl;
          not_closed = refl;
          custom = refl;
          index = refl;
          untrained = untrained;
          no_reference = refl;
          no_ids = refl;
          buffered = refl;
          buffered_ids = refl;
          whole = omega (arith, mul-zero dim);
        } in
        let (b₂, adds, v₂, w, p, m) = add_batches_copied bs sized v₁ in
        let (b₃, ix', flushes, f) = flush_copied v₂ some_rows enough in
        (
          b₀,
          b₁,
          b₂,
          b₃,
          ix',
          refl,
          refl,
          adds,
          flushes,
          f.index,
          f.trained,
          f.contents,
          ground (arith, f.written, w, p, m),
        )
