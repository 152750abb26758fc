-- ===== src/Common/Float.antt =====
-- Floats as a parameter: the operations that the code uses.
use tenann.Prelude.{ℕ, ◌≡◌, Bool, leb, ltb}

-- `of_int` is the conversion of a literal.
pub record Floats (F : Type 0) : Type 0 where
  pub lt : F → F → Bool
  pub le : F → F → Bool
  pub of_int : ℕ → F
  pub neg : F → F
  pub sub : F → F → F
  pub mul : F → F → F
  pub div : F → F → F

-- The floats that are no NaN are finitely many and in a total order: a float has a place in it.
pub record Ranked {F : Type 0} (o : Floats F) : Type 0 where
  pub rank : F → ℕ
  pub lt_eq : (a b : F) → o.lt a b ≡ ltb (rank a) (rank b)
  pub le_eq : (a b : F) → o.le a b ≡ leb (rank a) (rank b)
