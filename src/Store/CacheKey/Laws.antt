-- ===== src/Store/CacheKey/Laws.antt =====
-- The order and the equality of keys against their plain descriptions, and the range of the hash.
use Prim.Native.Nat.{compare as compare_ℕ, Ordering}
use tenann.Prelude.{ℕ, ◌<◌, ◌≡◌, refl, ◌↔◌, true, List, [], ◌∷◌, ◌++◌, arith}
use tenann.Store.CacheKey.{
  CacheKey, memcmp, size, key_eq, compare, starts_with, hash, hash_bytes, u32_mod,
}

memcmp_self : (a : CacheKey) → memcmp (size a) a a ≡ Ordering.eq
unfolding memcmp
memcmp_self [] = refl
memcmp_self (x ∷ a) = ground (arith, memcmp_self a)

eq_of_memcmp : (a b : CacheKey) → size a ≡ size b → memcmp (size a) a b ≡ Ordering.eq → a ≡ b
unfolding memcmp
eq_of_memcmp [] [] h e = refl
eq_of_memcmp [] (y ∷ b) h e = absurd (omega arith)
eq_of_memcmp (x ∷ a) [] h e = absurd (omega arith)
eq_of_memcmp (x ∷ a) (y ∷ b) h e = ground (arith, eq_of_memcmp a b)

key_eq_of_eq : (a b : CacheKey) → a ≡ b → key_eq a b ≡ true
unfolding key_eq
key_eq_of_eq a b e = ground (arith, memcmp_self b)

eq_of_key_eq : (a b : CacheKey) → key_eq a b ≡ true → a ≡ b
unfolding key_eq
eq_of_key_eq a b h = ground (arith, eq_of_memcmp a b)

-- `operator==` holds exactly of equal byte strings.
pub key_eq_iff : (a b : CacheKey) → (key_eq a b ≡ true) ↔ (a ≡ b)
key_eq_iff a b = (eq_of_key_eq a b, key_eq_of_eq a b)

-- The lexicographic order, a proper prefix first.
abbrev pub lexicographic : List ℕ → List ℕ → Ordering
lexicographic [] [] = Ordering.eq
lexicographic [] (y ∷ b) = Ordering.lt
lexicographic (x ∷ a) [] = Ordering.gt
lexicographic (x ∷ a) (y ∷ b) = elim (compare_ℕ x y) [
  | Ordering.lt ↦ Ordering.lt
  | Ordering.eq ↦ lexicographic a b
  | Ordering.gt ↦ Ordering.gt
]

-- `compare` is the lexicographic order of byte strings, a proper prefix first.
compare-lexicographic : (a b : CacheKey) → compare a b ≡ lexicographic a b
unfolding compare memcmp
compare-lexicographic [] [] = refl
compare-lexicographic [] (y ∷ b) = ground arith
compare-lexicographic (x ∷ a) [] = ground arith
compare-lexicographic (x ∷ a) (y ∷ b) = ground (arith, compare-lexicographic a b)

prefix_of_starts_with :
    (a x : CacheKey) → starts_with a x ≡ true → (rest : CacheKey) × (a ≡ x ++ rest)
unfolding starts_with memcmp
prefix_of_starts_with a [] h = (a, refl)
prefix_of_starts_with [] (y ∷ x) h = absurd (ground arith)
prefix_of_starts_with (b ∷ a) (y ∷ x) h = ground (arith, prefix_of_starts_with a x)

starts_with-append : (x rest : CacheKey) → starts_with (x ++ rest) x ≡ true
unfolding starts_with memcmp
starts_with-append [] rest = ground arith
starts_with-append (y ∷ x) rest = ground (arith, starts_with-append x rest)

-- `starts_with` holds exactly where the other key is a prefix.
starts_with_iff :
    (a x : CacheKey) → (starts_with a x ≡ true) ↔ ((rest : CacheKey) × (a ≡ x ++ rest))
starts_with_iff a x = (prefix_of_starts_with a x, λ (rest, e). rw e (starts_with-append x rest))

hash_bytes-lt : (key : List ℕ) (h : ℕ) → h < u32_mod → hash_bytes h key < u32_mod
unfolding hash_bytes
hash_bytes-lt (a ∷ b ∷ c ∷ d ∷ rest) h p = hash_bytes-lt rest _ (omega arith)
hash_bytes-lt (a ∷ b ∷ c ∷ []) h p = omega arith
hash_bytes-lt (a ∷ b ∷ []) h p = omega arith
hash_bytes-lt (a ∷ []) h p = omega arith
hash_bytes-lt [] h p = p

-- A hash is a 32-bit number.
pub hash-lt : (key : CacheKey) (seed : ℕ) → hash key seed < u32_mod
unfolding hash
hash-lt key seed = hash_bytes-lt key _ (omega arith)
