-- ===== src/Common/Tests.antt =====
-- A view of two vectors of variable length.
use tenann.Prelude.{
  ℕ, suc, ◌^◌, ◌<◌, ◌≡◌, refl, Option, some, List, [], ◌∷◌, arith, get_elem?, zero,
}
use tenann.Common.TypedSeqView.{
  vl_array, ArraySeqView, VlArraySeqView, for_each, check_dimension, each_vl_array,
}

abbrev pair : VlArraySeqView ℕ
pair = record { values = 1 ∷ 2 ∷ 3 ∷ 4 ∷ []; offsets = 0 ∷ 2 ∷ 4 ∷ []; size = 2 }

abbrev fixed : ArraySeqView ℕ
fixed = record { values = 1 ∷ 2 ∷ 3 ∷ 4 ∷ []; dim = 2; size = 2 }

offsets-lt : (j o : ℕ) → get_elem? pair.offsets j ≡ some o → o < 2 ^ 32
offsets-lt zero o e = ground (arith, e)
offsets-lt (suc zero) o e = ground (arith, e)
offsets-lt (suc (suc zero)) o e = ground (arith, e)
offsets-lt (suc (suc (suc j))) o e = absurd (ground (arith, e))

pair_checked : check_dimension (vl_array pair) 2 ≡ some tt
unfolding check_dimension for_each each_vl_array
pair_checked = refl

-- The lambda collects the pointers.
abbrev visit : ℕ → ℕ → ℕ → List ℕ → Option (List ℕ)
visit i p len s = some (p ∷ s)
