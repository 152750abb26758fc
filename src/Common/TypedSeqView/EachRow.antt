-- ===== src/Common/TypedSeqView/EachRow.antt =====
-- ForEach over a column of whole vectors with ids and null flags visits its rows in order.
use native.Mathlib.Nat.{mul-add, mul-one, mul-zero}
use mathlib.Core.List.{append_assoc}
use tenann.Prelude.{
  ℕ, ◌+◌, ◌*◌, ◌≡◌, refl, sym, ◌∙◌, Option, none, some, List, [], ◌∷◌, ◌++◌, ◌>>=◌, arith, length,
  length-append, get_elem?, get_elem?-length,
}
use tenann.Common.TypedSeqView.{range, each_array}
use tenann.Common.TypedSeqView.Rows.{Row, row_values, row_ids, row_flags, Wide, range_middle}

-- The loop over rows.
unfoldable pub fold_rows : {F S : Type 0} → (Row F → S → Option S) → List (Row F) → S → Option S
fold_rows g [] s = some s
fold_rows g (r ∷ rs) s = do s' ← g r s; fold_rows g rs s'

then_rest :
    {S : Type 0} {h h' : S → Option S} (m : Option S)
    → ((s' : S) → h s' ≡ h' s')
    → (m >>= h) ≡ (m >>= h')
then_rest none e = refl
then_rest (some s') e = e s'

module _ {F : Type 0} (dim : ℕ) (vs : List F) (is fs : List ℕ) where
  -- What is read of a row at its index.
  pub record RowAt (i : ℕ) (r : Row F) : Type 0 where
    pub slice : range (dim * i) dim vs ≡ some r.vector
    pub id : get_elem? is i ≡ some r.id
    pub flag : get_elem? fs i ≡ some r.flag

  module _ {S : Type 0} (f : ℕ → ℕ → ℕ → S → Option S) (g : Row F → S → Option S)
      (visits : (i : ℕ) (r : Row F) (s : S) → RowAt i r → f i (dim * i) dim s ≡ g r s) where
    each_array-from :
        (rs : List (Row F)) (i : ℕ) (pv : List F) (pi pf : List ℕ) (s : S)
        → Wide dim rs
        → vs ≡ pv ++ row_values rs
        → is ≡ pi ++ row_ids rs
        → fs ≡ pf ++ row_flags rs
        → length pv ≡ dim * i
        → length pi ≡ i
        → length pf ≡ i
        → each_array f dim i (length rs) s ≡ fold_rows g rs s
    unfolding each_array fold_rows
    each_array-from [] i pv pi pf s wide ev ei ef lv li lf = refl
    each_array-from (r ∷ rs) i pv pi pf s (w, wide) ev ei ef lv li lf =
        let at : RowAt i r = record {
          slice = rw ev (range_middle (dim * i) dim pv r.vector (row_values rs) lv w);
          id = ground (arith, ei, li, get_elem?-length pi (row_ids rs) r.id);
          flag = ground (arith, ef, lf, get_elem?-length pf (row_flags rs) r.flag);
        } in
        let rest = λ (s' : S).
          each_array-from rs (i + 1) (pv ++ r.vector) (pi ++ r.id ∷ []) (pf ++ r.flag ∷ []) s' wide
            (ev ∙ sym (append_assoc pv r.vector (row_values rs)))
            (ei ∙ sym (append_assoc pi (r.id ∷ []) (row_ids rs)))
            (ef ∙ sym (append_assoc pf (r.flag ∷ []) (row_flags rs)))
            (omega (arith, length-append pv r.vector, lv, w, mul-add dim i 1, mul-one dim))
            (omega (arith, length-append pi (r.id ∷ []), li))
            (omega (arith, length-append pf (r.flag ∷ []), lf)) in
        rw (visits i r s at) (then_rest (g r s) rest)

    pub each_array-rows :
        (rs : List (Row F)) (s : S)
        → Wide dim rs
        → vs ≡ row_values rs
        → is ≡ row_ids rs
        → fs ≡ row_flags rs
        → each_array f dim 0 (length rs) s ≡ fold_rows g rs s
    each_array-rows rs s wide ev ei ef =
        each_array-from rs 0 [] [] [] s wide ev ei ef (omega (arith, mul-zero dim)) refl refl
