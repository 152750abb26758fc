-- ===== src/Common/TypedSeqView/ForEach.antt =====
-- Views of variable length whose vectors all have one length.
use native.Mathlib.Nat.{mul-add, mul-one, mul-suc, mul-zero}
use tenann.Prelude.{
  ℕ, zero, suc, ◌+◌, ◌-◌, ◌*◌, ◌%◌, ◌^◌, ◌<◌, ◌≡◌, refl, Option, some, List, ◌==◌, arith,
  Option-cases, inl, inr, ap, ◌∙◌, check, get_elem?,
}
use tenann.Common.TypedSeqView.{
  array, vl_array, VlArraySeqView, each_array, each_vl_array, for_each, check_dimension,
}

-- The offsets from the index `i` on are the multiples of the dimension.
Regular : ℕ → List ℕ → ℕ → ℕ → Type 0
Regular dim offsets zero i = Unit {0}
Regular dim offsets (suc n) i =
    (get_elem? offsets (i + 1) ≡ some (dim * (i + 1))) × Regular dim offsets n (i + 1)

distrib : (dim i : ℕ) → dim * (i + 1) ≡ dim * i + dim
distrib dim i = omega (arith, mul-add dim i 1, mul-one dim)

distrib_suc : (dim n : ℕ) → dim * suc n ≡ dim * n + dim
distrib_suc = mul-suc

-- Where the check passes from the index `i` on, and the offset there is a multiple, so are those
-- behind it.
checked-Regular :
    (dim : ℕ) (offsets : List ℕ) (i n : ℕ)
    → ((j o : ℕ) → get_elem? offsets j ≡ some o → o < 2 ^ 32)
    → dim * i + dim * n < 2 ^ 32
    → each_vl_array (λ i p len s. check (len == dim)) offsets i n tt ≡ some tt
    → get_elem? offsets i ≡ some (dim * i)
    → Regular dim offsets n i
unfolding each_vl_array Regular
checked-Regular dim offsets i zero below small passed first = tt
checked-Regular dim offsets i (suc n) below small passed first =
    elim (Option-cases (get_elem? offsets (i + 1))) [
      | inl missing ↦ absurd (ground (arith, first, missing, passed))
      | inr (b, there) ↦
          let next : b ≡ dim * (i + 1) = ground (
            arith,
            first,
            there,
            passed,
            below (i + 1) b there,
            distrib dim i,
            small,
            distrib_suc dim n,
          ) in
          (
            there ∙ ap some next,
            checked-Regular dim offsets (i + 1) n below
                (omega (arith, small, distrib dim i, distrib_suc dim n))
                (ground (arith, first, there, passed)) (there ∙ ap some next),
          )
    ]

module _ {S : Type 0} (f : ℕ → ℕ → ℕ → S → Option S) where
  Regular-each :
      (dim : ℕ) (offsets : List ℕ) (i n : ℕ) (s : S)
      → dim < 2 ^ 32
      → dim * i + dim * n < 2 ^ 32
      → get_elem? offsets i ≡ some (dim * i)
      → Regular dim offsets n i
      → each_vl_array f offsets i n s ≡ each_array f dim i n s
  unfolding each_vl_array each_array Regular
  Regular-each dim offsets i zero s small room first r = refl
  Regular-each dim offsets i (suc n) s small room first (next, rest) =
      let len : (dim * (i + 1) + 2 ^ 32 - dim * i) % 2 ^ 32 ≡ dim = omega (arith, distrib dim i) in
      elim (Option-cases (f i (dim * i) dim s)) [
        | inl stops ↦ ground (arith, first, next, len, stops)
        | inr (s', goes) ↦ ground (
          arith,
          first,
          next,
          len,
          goes,
          Regular-each dim offsets (i + 1) n s' small
              (omega (arith, room, distrib dim i, distrib_suc dim n)) next rest,
        )
      ]

  -- `ForEach` over a view of variable length that `CheckDimension` accepts, with 32-bit offsets
  -- that start at 0, visits the slices that it visits over the array of vectors of that dimension.
  for_each-vl_array :
      {F : Type 0} (dim : ℕ) (v : VlArraySeqView F) (s : S)
      → ((j o : ℕ) → get_elem? v.offsets j ≡ some o → o < 2 ^ 32)
      → dim < 2 ^ 32
      → dim * v.size < 2 ^ 32
      → get_elem? v.offsets 0 ≡ some 0
      → check_dimension (vl_array v) dim ≡ some tt
      → for_each f (vl_array v) s
        ≡ for_each f (array (record { values = v.values; dim = dim; size = v.size })) s
  unfolding for_each check_dimension
  for_each-vl_array dim v s below small room first passed =
      let start : get_elem? v.offsets 0 ≡ some (dim * 0) = rw mul-zero first in
      Regular-each dim v.offsets 0 v.size s small (omega (arith, mul-zero dim)) start
        (checked-Regular dim v.offsets 0 v.size below (omega (arith, mul-zero dim)) passed start)
