-- ===== src/Store/Heap.antt =====
-- The memory that a cache allocates: cells by their addresses. Reading an address that is not
-- allocated has no result.
use tenann.Prelude.{
  ℕ, ◌+◌, ◌≡◌, refl, Option, none, some, List, [], ◌∷◌, arith, ◌==◌, if◌then◌else◌,
}

module _ {A : Type 0} where
  unfoldable pub get : ℕ → List (ℕ × A) → Option A
  get p [] = none
  get p ((q, a) ∷ m) = if q == p then some a else get p m

  -- A write to an allocated cell.
  unfoldable pub set : ℕ → A → List (ℕ × A) → List (ℕ × A)
  set p b [] = []
  set p b ((q, a) ∷ m) = if q == p then (q, b) ∷ m else (q, a) ∷ set p b m

  -- The cell is given back.
  unfoldable pub free : ℕ → List (ℕ × A) → List (ℕ × A)
  free p [] = []
  free p ((q, a) ∷ m) = if q == p then m else (q, a) ∷ free p m

  -- No address twice.
  abbrev pub Distinct : List (ℕ × A) → Type 0
  Distinct [] = Unit {0}
  Distinct ((q, a) ∷ m) = (get q m ≡ none) × Distinct m

  pub get-set :
      (p q : ℕ) (a b : A) (m : List (ℕ × A))
      → get p m ≡ some a
      → get q (set p b m) ≡ (if p == q then some b else get q m)
  unfolding get set
  get-set p q a b [] e = absurd (ground arith)
  get-set p q a b ((r, c) ∷ m) e = ground (arith, get-set p q a b m)

  pub get-free :
      (p q : ℕ) (m : List (ℕ × A))
      → Distinct m
      → get q (free p m) ≡ (if p == q then none else get q m)
  unfolding get free
  get-free p q [] d = ground arith
  get-free p q ((r, c) ∷ m) d = ground (arith, get-free p q m d.1)

  get-set-none : (p q : ℕ) (b : A) (m : List (ℕ × A)) → get q m ≡ none → get q (set p b m) ≡ none
  unfolding get set
  get-set-none p q b [] e = refl
  get-set-none p q b ((r, c) ∷ m) e = ground (arith, get-set-none p q b m)

  get-free-none : (p q : ℕ) (m : List (ℕ × A)) → get q m ≡ none → get q (free p m) ≡ none
  unfolding get free
  get-free-none p q [] e = refl
  get-free-none p q ((r, c) ∷ m) e = ground (arith, get-free-none p q m)

  pub set-Distinct : (p : ℕ) (b : A) (m : List (ℕ × A)) → Distinct m → Distinct (set p b m)
  unfolding set
  set-Distinct p b [] d = tt
  set-Distinct p b ((r, c) ∷ m) d = ground (arith, set-Distinct p b m d.1, get-set-none p r b m)

  pub free-Distinct : (p : ℕ) (m : List (ℕ × A)) → Distinct m → Distinct (free p m)
  unfolding free
  free-Distinct p [] d = tt
  free-Distinct p ((r, c) ∷ m) d = ground (arith, free-Distinct p m d.1, get-free-none p r m)

  -- The sum of a measure over all cells.
  module _ (w : A → ℕ) where
    unfoldable pub total : List (ℕ × A) → ℕ
    total [] = 0
    total ((q, a) ∷ m) = w a + total m

    pub total-set :
        (p : ℕ) (a b : A) (m : List (ℕ × A))
        → get p m ≡ some a
        → total (set p b m) + w a ≡ total m + w b
    unfolding get set total
    total-set p a b [] e = absurd (ground arith)
    total-set p a b ((r, c) ∷ m) e = ground (arith, total-set p a b m)

    pub total-free :
        (p : ℕ) (a : A) (m : List (ℕ × A)) → get p m ≡ some a → total (free p m) + w a ≡ total m
    unfolding get free total
    total-free p a [] e = absurd (ground arith)
    total-free p a ((r, c) ∷ m) e = ground (arith, total-free p a m)

    pub total-cons : (p : ℕ) (a : A) (m : List (ℕ × A)) → total ((p, a) ∷ m) ≡ w a + total m
    unfolding total
    total-cons p a m = refl

  pub get-cons :
      (p q : ℕ) (a : A) (m : List (ℕ × A))
      → get q ((p, a) ∷ m) ≡ (if p == q then some a else get q m)
  unfolding get
  get-cons p q a m = refl

  pub set-cons :
      (p q : ℕ) (a b : A) (m : List (ℕ × A))
      → set q b ((p, a) ∷ m) ≡ (if p == q then (p, b) ∷ m else (p, a) ∷ set q b m)
  unfolding set
  set-cons p q a b m = refl
