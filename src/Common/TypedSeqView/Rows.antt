-- ===== src/Common/TypedSeqView/Rows.antt =====
-- Columns of whole vectors with ids and null flags, row by row.
use tenann.Prelude.{ℕ, ◌≡◌, refl, ap, some, List, [], ◌∷◌, ◌++◌, arith, length, length-append, drop}
use tenann.Common.TypedSeqView.{range, take}

take-append {ℓ} : {A : Type ℓ} (xs ys : List A) → take (length xs) (xs ++ ys) ≡ xs
take-append [] ys = refl
take-append (x ∷ xs) ys = ap (λ zs. x ∷ zs) (take-append xs ys)

drop-append {ℓ} : {A : Type ℓ} (xs ys : List A) → drop (length xs) (xs ++ ys) ≡ ys
drop-append [] ys = refl
drop-append (x ∷ xs) ys = drop-append xs ys

-- A slice in the middle.
pub range_middle {ℓ} :
    {A : Type ℓ} (p n : ℕ) (xs ys zs : List A)
    → length xs ≡ p
    → length ys ≡ n
    → range p n (xs ++ (ys ++ zs)) ≡ some ys
unfolding range
range_middle p n xs ys zs e e' = ground (
  arith,
  e,
  e',
  drop-append xs (ys ++ zs),
  take-append ys zs,
  length-append xs (ys ++ zs),
  length-append ys zs,
)

-- A vector with its id and its null flag.
pub record Row (F : Type 0) : Type 0 where
  pub vector : List F
  pub id : ℕ
  pub flag : ℕ

module _ {F : Type 0} where
  abbrev pub row_values : List (Row F) → List F
  row_values [] = []
  row_values (r ∷ rs) = r.vector ++ row_values rs

  abbrev pub row_ids : List (Row F) → List ℕ
  row_ids [] = []
  row_ids (r ∷ rs) = r.id ∷ row_ids rs

  abbrev pub row_flags : List (Row F) → List ℕ
  row_flags [] = []
  row_flags (r ∷ rs) = r.flag ∷ row_flags rs

  abbrev pub Wide : ℕ → List (Row F) → Type 0
  Wide dim [] = Unit {0}
  Wide dim (r ∷ rs) = (length r.vector ≡ dim) × Wide dim rs
