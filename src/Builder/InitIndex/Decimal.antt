-- ===== src/Builder/InitIndex/Decimal.antt =====
-- Numbers in the descriptions of indexes: what is printed reads back.
use native.Mathlib.Nat.{pow-suc}
use tenann.Prelude.{
  ℕ, zero, suc, ◌+◌, ◌-◌, ◌*◌, ◌/◌, ◌%◌, ◌^◌, ◌<◌, ◌≤◌, ◌≡◌, refl, true, List, [], ◌∷◌, ◌++◌, arith,
  ltb, Bool-cases, inl, inr,
}
use tenann.Index.FaissUtil.{print, print_digits}

-- The value of decimal digits, after those that were read.
abbrev pub value_from : ℕ → List ℕ → ℕ
value_from read [] = read
value_from read (c ∷ cs) = value_from (10 * read + (c - 48)) cs

abbrev pub AreDigits : List ℕ → Type 0
AreDigits [] = Unit {0}
AreDigits (c ∷ cs) = (48 ≤ c) × (c ≤ 57) × AreDigits cs

-- A number in decimal.
abbrev pub IsNumber : List ℕ → Type 0
IsNumber [] = ⊥
IsNumber (c ∷ cs) = AreDigits (c ∷ cs)

value_from-snoc :
    (read c : ℕ) (cs : List ℕ) → value_from read (cs ++ c ∷ []) ≡ 10 * value_from read cs + (c - 48)
value_from-snoc read c [] = refl
value_from-snoc read c (d ∷ cs) = value_from-snoc (10 * read + (d - 48)) c cs

AreDigits-snoc : (c : ℕ) (cs : List ℕ) → AreDigits cs → 48 ≤ c → c ≤ 57 → AreDigits (cs ++ c ∷ [])
AreDigits-snoc c [] are low high = (low, high, tt)
AreDigits-snoc c (d ∷ cs) (a, b, are) low high = (a, b, AreDigits-snoc c cs are low high)

IsNumber-snoc : (c : ℕ) (cs : List ℕ) → AreDigits (cs ++ c ∷ []) → IsNumber (cs ++ c ∷ [])
IsNumber-snoc c [] are = are
IsNumber-snoc c (d ∷ cs) are = are

AreDigits-IsNumber : (cs : List ℕ) → IsNumber cs → AreDigits cs
AreDigits-IsNumber [] is = absurd is
AreDigits-IsNumber (c ∷ cs) is = is

print_digits-reads :
    (fuel n : ℕ)
    → n < 10 ^ suc fuel
    → IsNumber (print_digits (suc fuel) n) × (value_from 0 (print_digits (suc fuel) n) ≡ n)
unfolding print_digits
print_digits-reads zero n small =
    let one : ltb n 10 ≡ true = ground (arith, small) in
    rw one ((omega arith, ground (arith, one), tt), omega arith)
print_digits-reads (suc fuel) n small = elim (Bool-cases (ltb n 10)) [
  | inl one ↦ rw one ((omega arith, ground (arith, one), tt), omega arith)
  | inr more ↦
      let front = print_digits (suc fuel) (n / 10) in
      let (is, value) =
        print_digits-reads fuel (n / 10) (omega (arith, small, pow-suc 10 (suc fuel))) in
      rw more (
        IsNumber-snoc (48 + n % 10) front (
            AreDigits-snoc (48 + n % 10) front (AreDigits-IsNumber front is) (omega arith)
              (omega arith)),
        omega (arith, value_from-snoc 0 (48 + n % 10) front, value),
      )
]

-- At most twenty digits are enough.
pub print-reads : (n : ℕ) → n < 10 ^ 20 → IsNumber (print n) × (value_from 0 (print n) ≡ n)
unfolding print
print-reads n small = print_digits-reads 19 n small
