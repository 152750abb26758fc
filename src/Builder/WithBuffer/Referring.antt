-- ===== src/Builder/WithBuffer/Referring.antt =====
-- A builder whose inputs live longer than it: the first batch is only referred to, and copied when
-- the second comes.
use native.Mathlib.Nat.{mul-add, mul-pos}
use tenann.Prelude.{
  ℕ, ◌*◌, ◌<◌, ◌≡◌, ◌⊎◌, inl, inr, refl, true, false, none, some, List, [], ◌++◌, arith, length,
  length-append,
}
use tenann.Builder.Faiss.{FaissIndex}
use tenann.Builder.FaissIndexBuilder.{IndexBuilder, add, add_impl}
use tenann.Builder.WithBuffer.{methods, add_with_row_ids, merge, append_batch, copy_first}
use tenann.Builder.WithBuffer.Batches.{Batch, Sized, view, add_batch, range_all}

module _ {Ix F : Type 0} (o : FaissIndex Ix F) (dim : ℕ) (pos : 0 < dim) where
  -- What the builder has of the vectors `xs` and the ids `is`: nothing yet, a reference to one batch,
  -- or copies of all.
  abbrev pub Kept : List F → List ℕ → IndexBuilder Ix F → Type 0
  Kept xs is b =
      ((b.input_row_iterator ≡ none)
        × (b.row_id ≡ none)
        × (b.data_buffer ≡ [])
        × (b.id_buffer ≡ [])
        × (xs ≡ [])
        × (is ≡ []))
      ⊎ ((x : Batch F) × (Sized o dim x)
          × (b.input_row_iterator ≡ some (view o dim x))
          × (b.row_id ≡ some x.ids)
          × (((b.data_buffer ≡ []) × (b.id_buffer ≡ []) × (xs ≡ x.rows) × (is ≡ x.ids))
              ⊎ ((b.data_buffer ≡ xs) × (b.id_buffer ≡ is) × (0 < length xs))))

  pub record Referring (ix : Ix) (xs : List F) (is : List ℕ) (b : IndexBuilder Ix F) : Type 0 where
    pub opened : b.is_opened ≡ true
    pub not_closed : b.is_closed ≡ false
    pub custom : b.use_custom_row_id ≡ true
    pub index : b.index_ref ≡ some ix
    pub untrained : o.is_trained ix ≡ false
    pub whole : length xs ≡ dim * length is
    pub kept : Kept xs is b

  module _ {ix : Ix} {xs : List F} {is : List ℕ} {b : IndexBuilder Ix F} (x : Batch F)
      (sized : Sized o dim x) (some_rows : 0 < length x.ids) (v : Referring ix xs is b) where
    abbrev pub Adds : IndexBuilder Ix F → Type 0
    Adds b' =
        (add_batch o dim true x b ≡ some b')
        × Referring ix (xs ++ x.rows) (is ++ x.ids) b'
        × (b'.written ≡ b.written)
        × (b'.index_save_path ≡ b.index_save_path)
        × (b'.memory_only ≡ b.memory_only)

    both : length (xs ++ x.rows) ≡ dim * length (is ++ x.ids)
    both = ground (
      arith,
      length-append xs x.rows,
      length-append is x.ids,
      v.whole,
      sized,
      mul-add dim (length is) (length x.ids),
    )

    full : 0 < length x.rows
    full = rw sized (mul-pos pos some_rows)

    still :
        (b' : IndexBuilder Ix F)
        → b'.is_opened ≡ b.is_opened
        → b'.is_closed ≡ b.is_closed
        → b'.use_custom_row_id ≡ b.use_custom_row_id
        → b'.index_ref ≡ b.index_ref
        → Kept (xs ++ x.rows) (is ++ x.ids) b'
        → Referring ix (xs ++ x.rows) (is ++ x.ids) b'
    still b' e₁ e₂ e₃ e₄ k = record {
      opened = ground (arith, e₁, v.opened);
      not_closed = ground (arith, e₂, v.not_closed);
      custom = ground (arith, e₃, v.custom);
      index = ground (arith, e₄, v.index);
      untrained = v.untrained;
      whole = both;
      kept = k;
    }

    -- Each case of what is kept.
    pub Adds-referred : (b' : IndexBuilder Ix F) × Adds b'
    unfolding add add_impl methods add_with_row_ids merge append_batch copy_first
    Adds-referred = elim v.kept [
      | inl (no_it, no_ids, no_data, no_buffer, e, e') ↦
          let b' : IndexBuilder Ix F = record b {
            inputs_live_longer_than_this = true;
            input_row_iterator = some (view o dim x);
            row_id = some x.ids;
          } in
          (
            b',
            (
              ground (arith, v.opened, v.not_closed, v.custom, v.index, v.untrained, no_it),
              still b' refl refl refl refl (
                  inr (
                    x,
                    sized,
                    refl,
                    refl,
                    inl (no_data, no_buffer, ground (arith, e), ground (arith, e')),
                  )),
              refl,
              refl,
              refl,
            ),
          )
      | inr (y, sized_y, it, first, inl (no_data, no_buffer, e, e')) ↦
          let b' : IndexBuilder Ix F = record b {
            inputs_live_longer_than_this = true;
            data_buffer = y.rows ++ x.rows;
            id_buffer = y.ids ++ x.ids;
          } in
          (
            b',
            (
              ground (
                arith,
                v.opened,
                v.not_closed,
                v.custom,
                v.index,
                v.untrained,
                it,
                first,
                no_data,
                no_buffer,
                range_all (dim * length y.ids) y.rows sized_y,
                range_all (length y.ids) y.ids refl,
                range_all (dim * length x.ids) x.rows sized,
                range_all (length x.ids) x.ids refl,
              ),
              still b' refl refl refl refl (
                  inr (
                    y,
                    sized_y,
                    it,
                    first,
                    inr (
                      ground (arith, e),
                      ground (arith, e'),
                      omega (arith, full, length-append xs x.rows),
                    ),
                  )),
              refl,
              refl,
              refl,
            ),
          )
      | inr (y, sized_y, it, first, inr (copied, buffer, nonempty)) ↦
          let b' : IndexBuilder Ix F = record b {
            inputs_live_longer_than_this = true;
            data_buffer = b.data_buffer ++ x.rows;
            id_buffer = b.id_buffer ++ x.ids;
          } in
          (
            b',
            (
              ground (
                arith,
                v.opened,
                v.not_closed,
                v.custom,
                v.index,
                v.untrained,
                it,
                first,
                copied,
                buffer,
                nonempty,
                range_all (dim * length x.ids) x.rows sized,
                range_all (length x.ids) x.ids refl,
              ),
              still b' refl refl refl refl (
                  inr (
                    y,
                    sized_y,
                    it,
                    first,
                    inr (
                      ground (arith, copied),
                      ground (arith, buffer),
                      omega (arith, full, length-append xs x.rows),
                    ),
                  )),
              refl,
              refl,
              refl,
            ),
          )
    ]
