-- ===== src/Builder/WithBuffer/Nullable.antt =====
-- Rows with null flags: those that are null are left out, and the others go into the buffers.
use native.Mathlib.Nat.{mul-add, mul-one, mul-zero}
use mathlib.Core.List.{append_assoc, append-nil}
use tenann.Prelude.{
  ℕ, ◌+◌, ◌*◌, ◌≡◌, refl, sym, ◌∙◌, Bool, true, false, some, List, [], ◌∷◌, ◌++◌, ◌==◌,
  if◌then◌else◌, Option, arith, length, length-append, get_elem?, get_elem?-length, Bool-cases, inl,
  inr,
}
use tenann.Common.TypedSeqView.Rows.{Row, row_values, row_ids, row_flags, Wide, range_middle}
use tenann.Common.TypedSeqView.{TypedSliceIterator, array, range, each_array, for_each}
use tenann.Builder.Faiss.{FaissIndex}
use tenann.Builder.FaissIndexBuilder.{IndexBuilder, vectors, add, add_impl}
use tenann.Builder.WithBuffer.{methods, add_with_row_ids_and_null_flags, buffer_single, flush}

module _ {F : Type 0} where
  -- The rows that are not null.
  abbrev pub present : List (Row F) → List (Row F)
  present [] = []
  present (r ∷ rs) = if r.flag == 0 then r ∷ present rs else present rs

module _ {Ix F : Type 0} (o : FaissIndex Ix F) (dim : ℕ) where
  abbrev buffered : List (Row F) → IndexBuilder Ix F → IndexBuilder Ix F
  buffered rs b = record b {
    data_buffer = b.data_buffer ++ row_values (present rs);
    id_buffer = b.id_buffer ++ row_ids (present rs);
  }

  module _ (size : ℕ) (vs : List F) (is fs : List ℕ) where
    abbrev column : TypedSliceIterator F
    column = array (record { values = vs; dim = dim; size = size })

    -- The loop from the row `i` on, with the rows before it and the rows `rs` from it on.
    each-present :
        (rs : List (Row F)) (i : ℕ) (pv : List F) (pi pf : List ℕ) (b : IndexBuilder Ix F)
        → Wide dim rs
        → vs ≡ pv ++ row_values rs
        → is ≡ pi ++ row_ids rs
        → fs ≡ pf ++ row_flags rs
        → length pv ≡ dim * i
        → length pi ≡ i
        → length pf ≡ i
        → each_array (buffer_single o dim column is fs) dim i (length rs) b ≡ some (buffered rs b)
    unfolding each_array
    each-present [] i pv pi pf b wide ev ei ef lv li lf =
        ground (arith, append-nil b.data_buffer, append-nil b.id_buffer)
    each-present (r ∷ rs) i pv pi pf b (w, wide) ev ei ef lv li lf =
        let slice : range (dim * i) dim vs ≡ some r.vector =
          rw ev (range_middle (dim * i) dim pv r.vector (row_values rs) lv w) in
        let id_there : get_elem? is i ≡ some r.id =
          ground (arith, ei, li, get_elem?-length pi (row_ids rs) r.id) in
        let flag_there : get_elem? fs i ≡ some r.flag =
          ground (arith, ef, lf, get_elem?-length pf (row_flags rs) r.flag) in
        let rest = λ (b' : IndexBuilder Ix F).
          each-present rs (i + 1) (pv ++ r.vector) (pi ++ r.id ∷ []) (pf ++ r.flag ∷ []) b' wide
            (ev ∙ sym (append_assoc pv r.vector (row_values rs)))
            (ei ∙ sym (append_assoc pi (r.id ∷ []) (row_ids rs)))
            (ef ∙ sym (append_assoc pf (r.flag ∷ []) (row_flags rs)))
            (omega (arith, length-append pv r.vector, lv, w, mul-add dim i 1, mul-one dim))
            (omega (arith, length-append pi (r.id ∷ []), li))
            (omega (arith, length-append pf (r.flag ∷ []), lf)) in
        elim (Bool-cases (r.flag == 0)) [
          | inl there ↦ ground (
            arith,
            flag_there,
            there,
            slice,
            id_there,
            rest (record b {
              data_buffer = b.data_buffer ++ r.vector;
              id_buffer = b.id_buffer ++ r.id ∷ [];
            }),
            append_assoc b.data_buffer r.vector (row_values (present rs)),
            append_assoc b.id_buffer (r.id ∷ []) (row_ids (present rs)),
          )
          | inr null ↦ ground (arith, flag_there, null, rest b)
        ]

  abbrev pub nullable_column : List (Row F) → TypedSliceIterator F
  nullable_column rs = column (length rs) (row_values rs) (row_ids rs) (row_flags rs)

  abbrev pub add_nullable : Bool → List (Row F) → IndexBuilder Ix F → Option (IndexBuilder Ix F)
  add_nullable live rs =
      add dim (methods o dim) (vectors (nullable_column rs) ∷ []) (some (row_ids rs))
        (some (row_flags rs)) live

  module _ (rs : List (Row F)) (wide : Wide dim rs) (live : Bool) (b : IndexBuilder Ix F)
      (opened : b.is_opened ≡ true) (not_closed : b.is_closed ≡ false)
      (custom : b.use_custom_row_id ≡ true) where
    -- `Add` of a nullable column returns, and puts exactly the rows whose flag is 0 behind the buffers,
    -- vectors and ids in step, whatever the lifetime of the inputs and the state of the index.
    add_nullable-present :
        add_nullable live rs b
        ≡ some (record b {
          inputs_live_longer_than_this = live;
          data_buffer = b.data_buffer ++ row_values (present rs);
          id_buffer = b.id_buffer ++ row_ids (present rs);
        })
    unfolding add add_impl methods add_with_row_ids_and_null_flags for_each
    add_nullable-present =
        let loop =
          each-present (length rs) (row_values rs) (row_ids rs) (row_flags rs) rs 0 [] [] []
            (record b { inputs_live_longer_than_this = live }) wide refl refl refl
            (omega (arith, mul-zero dim)) refl refl in
        ground (arith, opened, not_closed, custom, loop)

    -- With an index that is trained, the rows of a nullable column that are not null go behind the
    -- buffers, vectors and ids, and stay there: `Flush` changes no buffer and writes the index as it was.
    pub flush-add_nullable :
        (ix : Ix)
        → b.index_ref ≡ some ix
        → o.is_trained ix ≡ true
        → (b' b'' : IndexBuilder Ix F) × (add_nullable live rs b ≡ some b')
          × (flush o dim b' ≡ some b'')
          × (b'.data_buffer ≡ b.data_buffer ++ row_values (present rs))
          × (b'.id_buffer ≡ b.id_buffer ++ row_ids (present rs))
          × (b''.data_buffer ≡ b'.data_buffer)
          × (b''.id_buffer ≡ b'.id_buffer)
          × (b''.index_ref ≡ some ix)
          × (b''.written ≡ b.written ++ (ix, b.index_save_path, b.memory_only) ∷ [])
    unfolding flush
    flush-add_nullable ix there trained =
        let b' : IndexBuilder Ix F = record b {
          inputs_live_longer_than_this = live;
          data_buffer = b.data_buffer ++ row_values (present rs);
          id_buffer = b.id_buffer ++ row_ids (present rs);
        } in
        (
          b',
          record b' { written = b.written ++ (ix, b.index_save_path, b.memory_only) ∷ [] },
          add_nullable-present,
          ground (arith, opened, there, trained),
          refl,
          refl,
          refl,
          refl,
          there,
          refl,
        )
