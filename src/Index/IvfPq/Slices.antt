-- ===== src/Index/IvfPq/Slices.antt =====
-- The slices of the arrays that are added block by block.
use tenann.Prelude.{
  ℕ, zero, suc, ◌+◌, ◌<◌, ◌≤◌, ◌≡◌, refl, ap, ◌∙◌, Option, none, some, List, [], ◌∷◌, arith, length,
  drop, map, replicate, Bool-cases, inl, inr,
}
use tenann.Common.Float.{Floats}
use tenann.Index.BlockCache.{take}
use tenann.Index.IvfPq.{
  IndexIvfPq, IvfPqLibrary, numbers_from, ids_of, take_opt, drop_opt, compute_residuals, to_encode,
  keys_of,
}
use tenann.Index.IvfPq.Rows.{Row, extend}

-- A list is as long as another.
abbrev pub Covers : {A B : Type 0} → List A → List B → Type 0
Covers xs ys = length xs ≤ length ys

module _ {A B : Type 0} where
  pub Covers-take :
      (n : ℕ) (xs : List A) (ys : List B) → Covers xs ys → Covers (take n xs) (take n ys)
  Covers-take zero xs ys h = omega arith
  Covers-take (suc n) [] ys h = omega arith
  Covers-take (suc n) (x ∷ xs) [] h = absurd (omega (arith, h))
  Covers-take (suc n) (x ∷ xs) (y ∷ ys) h = omega (arith, Covers-take n xs ys (omega (arith, h)))

  pub Covers-drop :
      (n : ℕ) (xs : List A) (ys : List B) → Covers xs ys → Covers (drop n xs) (drop n ys)
  Covers-drop zero xs ys h = h
  Covers-drop (suc n) [] ys h = omega arith
  Covers-drop (suc n) (x ∷ xs) [] h = absurd (omega (arith, h))
  Covers-drop (suc n) (x ∷ xs) (y ∷ ys) h = Covers-drop n xs ys (omega (arith, h))

  map-take : (f : A → B) (n : ℕ) (xs : List A) → map f (take n xs) ≡ take n (map f xs)
  map-take f zero xs = refl
  map-take f (suc n) [] = refl
  map-take f (suc n) (x ∷ xs) = ap (λ r. f x ∷ r) (map-take f n xs)

  map-drop : (f : A → B) (n : ℕ) (xs : List A) → map f (drop n xs) ≡ drop n (map f xs)
  map-drop f zero xs = refl
  map-drop f (suc n) [] = refl
  map-drop f (suc n) (x ∷ xs) = map-drop f n xs

-- Every list that is named exists.
abbrev pub AllIn : ℕ → List (Option ℕ) → Type 0
AllIn n [] = Unit {0}
AllIn n (none ∷ keys) = AllIn n keys
AllIn n (some l ∷ keys) = (l < n) × AllIn n keys

pub AllIn-take : (m n : ℕ) (keys : List (Option ℕ)) → AllIn n keys → AllIn n (take m keys)
AllIn-take zero n keys h = tt
AllIn-take (suc m) n [] h = tt
AllIn-take (suc m) n (none ∷ keys) h = AllIn-take m n keys h
AllIn-take (suc m) n (some l ∷ keys) (small, h) = (small, AllIn-take m n keys h)

pub AllIn-drop : (m n : ℕ) (keys : List (Option ℕ)) → AllIn n keys → AllIn n (drop m keys)
AllIn-drop zero n keys h = h
AllIn-drop (suc m) n [] h = tt
AllIn-drop (suc m) n (none ∷ keys) h = AllIn-drop m n keys h
AllIn-drop (suc m) n (some l ∷ keys) (small, h) = AllIn-drop m n keys h

module _ {A : Type 0} where
  take-numbers_from :
      (m i : ℕ) (xs : List A)
      → numbers_from i (length (take m xs)) ≡ take m (numbers_from i (length xs))
  take-numbers_from zero i xs = refl
  take-numbers_from (suc m) i [] = refl
  take-numbers_from (suc m) i (x ∷ xs) = ap (λ r. i ∷ r) (take-numbers_from m (suc i) xs)

  drop-numbers_from :
      (m i : ℕ) (xs : List A)
      → numbers_from (i + length (take m xs)) (length (drop m xs))
        ≡ drop m (numbers_from i (length xs))
  drop-numbers_from zero i xs = ap (λ j. numbers_from j (length xs)) (omega arith)
  drop-numbers_from (suc m) i [] = refl
  drop-numbers_from (suc m) i (x ∷ xs) =
      ap (λ j. numbers_from j (length (drop m xs))) (omega arith) ∙ drop-numbers_from m (suc i) xs

  pub ids_of-take :
      (xids : Option (List ℕ)) (m i : ℕ) (xs : List A)
      → ids_of (take_opt m xids) i (length (take m xs)) ≡ take m (ids_of xids i (length xs))
  ids_of-take none m i xs = take-numbers_from m i xs
  ids_of-take (some ids) m i xs = refl

  pub ids_of-drop :
      (xids : Option (List ℕ)) (m i : ℕ) (xs : List A)
      → ids_of (drop_opt m xids) (i + length (take m xs)) (length (drop m xs))
        ≡ drop m (ids_of xids i (length xs))
  ids_of-drop none m i xs = drop-numbers_from m i xs
  ids_of-drop (some ids) m i xs = refl

  pub length-drop-shorter :
      (m : ℕ) (x : A) (xs : List A) → length (drop (suc m) (x ∷ xs)) ≤ length xs
  length-drop-shorter zero x xs = omega arith
  length-drop-shorter (suc m) x [] = omega arith
  length-drop-shorter (suc m) x (y ∷ xs) = omega (arith, length-drop-shorter m y xs)

  pub length-take-drop : (m : ℕ) (xs : List A) → length (take m xs) + length (drop m xs) ≡ length xs
  length-take-drop zero xs = omega arith
  length-take-drop (suc m) [] = omega arith
  length-take-drop (suc m) (x ∷ xs) = omega (arith, length-take-drop m xs)

module _ {D F : Type 0} (o : Floats F) (faiss : IvfPqLibrary D F) where
  pub keys_of-take :
      (idx : Option (List (Option ℕ))) (m : ℕ) (xs : List (List F))
      → keys_of o faiss (take_opt m idx) (take m xs) ≡ take m (keys_of o faiss idx xs)
  keys_of-take none m xs = map-take faiss.assign m xs
  keys_of-take (some keys) m xs = refl

  pub keys_of-drop :
      (idx : Option (List (Option ℕ))) (m : ℕ) (xs : List (List F))
      → keys_of o faiss (drop_opt m idx) (drop m xs) ≡ drop m (keys_of o faiss idx xs)
  keys_of-drop none m xs = map-drop faiss.assign m xs
  keys_of-drop (some keys) m xs = refl

  compute_residuals-take :
      (d m : ℕ) (xs : List (List F)) (keys : List (Option ℕ))
      → compute_residuals o faiss d (take m xs) (take m keys)
        ≡ take m (compute_residuals o faiss d xs keys)
  compute_residuals-take d zero xs keys = refl
  compute_residuals-take d (suc m) [] keys = refl
  compute_residuals-take d (suc m) (x ∷ xs) [] = refl
  compute_residuals-take d (suc m) (x ∷ xs) (none ∷ keys) =
      ap (λ r. replicate d (o.of_int 0) ∷ r) (compute_residuals-take d m xs keys)
  compute_residuals-take d (suc m) (x ∷ xs) (some l ∷ keys) =
      ap (λ r. faiss.compute_residual x l ∷ r) (compute_residuals-take d m xs keys)

  compute_residuals-none : (d : ℕ) (xs : List (List F)) → compute_residuals o faiss d xs [] ≡ []
  compute_residuals-none d [] = refl
  compute_residuals-none d (x ∷ xs) = refl

  compute_residuals-drop :
      (d m : ℕ) (xs : List (List F)) (keys : List (Option ℕ))
      → compute_residuals o faiss d (drop m xs) (drop m keys)
        ≡ drop m (compute_residuals o faiss d xs keys)
  compute_residuals-drop d zero xs keys = refl
  compute_residuals-drop d (suc m) [] keys = refl
  compute_residuals-drop d (suc m) (x ∷ xs) [] = compute_residuals-none d (drop m xs)
  compute_residuals-drop d (suc m) (x ∷ xs) (none ∷ keys) = compute_residuals-drop d m xs keys
  compute_residuals-drop d (suc m) (x ∷ xs) (some l ∷ keys) = compute_residuals-drop d m xs keys

  pub extend-split :
      (m : ℕ) (ids : List ℕ) (xs : List (List F)) (keys : List (Option ℕ)) (rows : ℕ → List (Row F))
      → Covers xs ids
      → Covers xs keys
      → extend o faiss
          (drop m ids)
          (drop m xs)
          (drop m keys)
          (extend o faiss (take m ids) (take m xs) (take m keys) rows)
        ≡ extend o faiss ids xs keys rows
  unfolding extend
  extend-split zero ids xs keys rows c e = refl
  extend-split (suc m) ids [] keys rows c e = refl
  extend-split (suc m) [] (x ∷ xs) keys rows c e = absurd (omega (arith, c))
  extend-split (suc m) (id ∷ ids) (x ∷ xs) [] rows c e = absurd (omega (arith, e))
  extend-split (suc m) (id ∷ ids) (x ∷ xs) (none ∷ keys) rows c e =
      extend-split m ids xs keys rows (omega (arith, c)) (omega (arith, e))
  extend-split (suc m) (id ∷ ids) (x ∷ xs) (some l ∷ keys) rows c e =
      extend-split m ids xs keys _ (omega (arith, c)) (omega (arith, e))

  pub to_encode-take :
      (ix : IndexIvfPq D F) (m : ℕ) (xs : List (List F)) (keys : List (Option ℕ))
      → to_encode o faiss ix (take m xs) (take m keys) ≡ take m (to_encode o faiss ix xs keys)
  to_encode-take ix m xs keys = elim (Bool-cases ix.by_residual) [
    | inl residual ↦ ground (arith, residual, compute_residuals-take ix.d m xs keys)
    | inr raw ↦ ground (arith, raw)
  ]

  pub to_encode-drop :
      (ix : IndexIvfPq D F) (m : ℕ) (xs : List (List F)) (keys : List (Option ℕ))
      → to_encode o faiss ix (drop m xs) (drop m keys) ≡ drop m (to_encode o faiss ix xs keys)
  to_encode-drop ix m xs keys = elim (Bool-cases ix.by_residual) [
    | inl residual ↦ ground (arith, residual, compute_residuals-drop ix.d m xs keys)
    | inr raw ↦ ground (arith, raw)
  ]

  -- As many vectors are encoded as have a list.
  length-compute_residuals :
      (d : ℕ) (xs : List (List F)) (keys : List (Option ℕ))
      → Covers xs keys
      → length (compute_residuals o faiss d xs keys) ≡ length xs
  length-compute_residuals d [] keys h = refl
  length-compute_residuals d (x ∷ xs) [] h = absurd (omega (arith, h))
  length-compute_residuals d (x ∷ xs) (none ∷ keys) h =
      ap suc (length-compute_residuals d xs keys (omega (arith, h)))
  length-compute_residuals d (x ∷ xs) (some l ∷ keys) h =
      ap suc (length-compute_residuals d xs keys (omega (arith, h)))

  pub length-to_encode :
      (ix : IndexIvfPq D F) (xs : List (List F)) (keys : List (Option ℕ))
      → Covers xs keys
      → length (to_encode o faiss ix xs keys) ≡ length xs
  length-to_encode ix xs keys h = elim (Bool-cases ix.by_residual) [
    | inl residual ↦ ground (arith, residual, length-compute_residuals ix.d xs keys h)
    | inr raw ↦ ground (arith, raw)
  ]
