-- ===== src/Builder/Faiss.antt =====
-- faiss::Index, as far as the builders call it. `Ix` is the state of an index and `F` a float; a
-- result `none` is an exception.
use tenann.Prelude.{ℕ, ◌*◌, ◌≤◌, ◌≡◌, Bool, true, Option, some, List, ◌++◌, length}

-- The methods: `train` and the two kinds of `add` take the number of vectors and their values.
pub record FaissIndex (Ix F : Type 0) : Type 0 where
  pub is_trained : Ix → Bool
  pub train : ℕ → List F → Ix → Option Ix
  pub add : ℕ → List F → Ix → Option Ix
  pub add_with_ids : ℕ → List F → List ℕ → Ix → Option Ix

-- What an index holds: the values of its vectors and their ids.
pub record Contents {Ix F : Type 0} (values : Ix → List F) (ids : Ix → List ℕ) (xs : List F)
    (is : List ℕ) (ix : Ix) : Type 0 where
  pub values_eq : values ix ≡ xs
  pub ids_eq : ids ix ≡ is

-- The documented behaviour for vectors of dimension `dim`: training needs `least` vectors and adds
-- none; a trained index takes vectors with ids behind those that it has.
pub record Documented {Ix F : Type 0} (o : FaissIndex Ix F) (dim least : ℕ) (values : Ix → List F)
    (ids : Ix → List ℕ) : Type 0 where
  pub trains :
      (n : ℕ) (xs : List F) (ix : Ix)
      → length xs ≡ dim * n
      → least ≤ n
      → (ix' : Ix) × (o.train n xs ix ≡ some ix')
        × (o.is_trained ix' ≡ true)
        × (values ix' ≡ values ix)
        × (ids ix' ≡ ids ix)
  pub adds :
      (n : ℕ) (xs : List F) (is : List ℕ) (ix : Ix)
      → o.is_trained ix ≡ true
      → length xs ≡ dim * n
      → length is ≡ n
      → (ix' : Ix) × (o.add_with_ids n xs is ix ≡ some ix')
        × (o.is_trained ix' ≡ true)
        × (values ix' ≡ values ix ++ xs)
        × (ids ix' ≡ ids ix ++ is)
