-- ===== src/Common/TypedSeqView.antt =====
-- ArraySeqView and VlArraySeqView of common/seq_view.h, and TypedSliceIterator of
-- common/typed_seq_view.h, for one element type. A pointer into the data of a view is an offset;
-- a result `none` is a read out of bounds or an exception.
pub mod ForEach
pub mod Rows
pub mod EachRow
use tenann.Prelude.{
  ℕ, zero, suc, ◌+◌, ◌-◌, ◌*◌, ◌%◌, ◌^◌, Bool, true, false, Option, none, some, List, [], ◌∷◌, ◌==◌,
  leb, if◌then◌else◌, check, ◌>>◌, ◌>>=◌, get_elem?, length, drop,
}

abbrev u32 : ℕ
u32 = 2 ^ 32

-- The first elements.
abbrev pub take {ℓ} : {A : Type ℓ} → ℕ → List A → List A
take zero xs = []
take (suc n) [] = []
take (suc n) (x ∷ xs) = x ∷ take n xs

-- The `n` elements from a pointer on.
unfoldable pub range {ℓ} : {A : Type ℓ} → ℕ → ℕ → List A → Option (List A)
range p n xs = if leb (p + n) (length xs) then some (take n (drop p xs)) else none

pub record ArraySeqView (F : Type 0) : Type 0 where
  pub values : List F
  pub dim : ℕ
  pub size : ℕ

pub record VlArraySeqView (F : Type 0) : Type 0 where
  pub values : List F
  pub offsets : List ℕ
  pub size : ℕ

-- SeqView, and the union in the iterator with its flag.
pub data TypedSliceIterator (F : Type 0) : Type 0 where
  array : ArraySeqView F → TypedSliceIterator F
  vl_array : VlArraySeqView F → TypedSliceIterator F

-- The lambda of `ForEach`, with the index, the pointer and the length of a slice, and the state
-- that it changes.
module _ {S : Type 0} (f : ℕ → ℕ → ℕ → S → Option S) where
  -- The two loops, from the index `i` on; the third argument counts the rounds that remain.
  unfoldable pub each_array : ℕ → ℕ → ℕ → S → Option S
  each_array dim i zero s = some s
  each_array dim i (suc n) s = do s' ← f i (dim * i) dim s; each_array dim (i + 1) n s'

  unfoldable pub each_vl_array : List ℕ → ℕ → ℕ → S → Option S
  each_vl_array offsets i zero s = some s
  each_vl_array offsets i (suc n) s = do
    a ← get_elem? offsets i
    b ← get_elem? offsets (i + 1)
    s' ← f i a ((b + u32 - a) % u32) s
    each_vl_array offsets (i + 1) n s'

  unfoldable pub for_each : {F : Type 0} → TypedSliceIterator F → S → Option S
  for_each (array v) s = each_array v.dim 0 v.size s
  for_each (vl_array v) s = each_vl_array v.offsets 0 v.size s

module _ {F : Type 0} where
  abbrev pub values : TypedSliceIterator F → List F
  values (array v) = v.values
  values (vl_array v) = v.values

  abbrev pub size : TypedSliceIterator F → ℕ
  size (array v) = v.size
  size (vl_array v) = v.size

  -- `FaissIndexBuilder::CheckDimension`, in builder/faiss_index_builder.cc.
  unfoldable pub check_dimension : TypedSliceIterator F → ℕ → Option (Unit {0})
  unfolding for_each each_array each_vl_array
  check_dimension it dim = for_each (λ i p len s. check (len == dim)) it tt
