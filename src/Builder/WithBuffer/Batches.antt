-- ===== src/Builder/WithBuffer/Batches.antt =====
-- Batches of vectors with ids, added one after the other.
use tenann.Prelude.{
  ℕ, ◌*◌, ◌≡◌, refl, ap, Bool, true, Option, none, some, List, [], ◌∷◌, ◌++◌, arith, length, ◌>>=◌,
}
use tenann.Common.TypedSeqView.{TypedSliceIterator, array, range, take}
use tenann.Builder.Faiss.{FaissIndex}
use tenann.Builder.FaissIndexBuilder.{new_builder, IndexBuilder, vectors, add}
use tenann.Builder.WithBuffer.{methods}

pub take-length {ℓ} : {A : Type ℓ} (xs : List A) → take (length xs) xs ≡ xs
take-length [] = refl
take-length (x ∷ xs) = ap (λ ys. x ∷ ys) (take-length xs)

-- All of an array is read.
pub range_all {ℓ} : {A : Type ℓ} (n : ℕ) (xs : List A) → length xs ≡ n → range 0 n xs ≡ some xs
unfolding range
range_all n xs e = ground (arith, e, take-length xs)

-- A builder with custom row ids.
abbrev pub custom_builder : {Ix F : Type 0} → IndexBuilder Ix F
custom_builder = record new_builder { use_custom_row_id = true }

-- Vectors with their ids.
pub record Batch (F : Type 0) : Type 0 where
  pub rows : List F
  pub ids : List ℕ

module _ {Ix F : Type 0} (o : FaissIndex Ix F) (dim : ℕ) where
  abbrev pub Sized : Batch F → Type 0
  Sized x = length x.rows ≡ dim * length x.ids

  abbrev pub view : Batch F → TypedSliceIterator F
  view x = array (record { values = x.rows; dim = dim; size = length x.ids })

  -- `Add` with row ids; the flag says whether the inputs live longer than the builder.
  abbrev pub add_batch : Bool → Batch F → IndexBuilder Ix F → Option (IndexBuilder Ix F)
  add_batch live x = add dim (methods o dim) (vectors (view x) ∷ []) (some x.ids) none live

  abbrev pub add_batches : Bool → List (Batch F) → IndexBuilder Ix F → Option (IndexBuilder Ix F)
  add_batches live [] b = some b
  add_batches live (x ∷ xs) b = do b' ← add_batch live x b; add_batches live xs b'

  abbrev pub all_values : List (Batch F) → List F
  all_values [] = []
  all_values (x ∷ xs) = x.rows ++ all_values xs

  abbrev pub all_ids : List (Batch F) → List ℕ
  all_ids [] = []
  all_ids (x ∷ xs) = x.ids ++ all_ids xs

  abbrev pub AllSized : List (Batch F) → Type 0
  AllSized [] = Unit {0}
  AllSized (x ∷ xs) = Sized x × AllSized xs
