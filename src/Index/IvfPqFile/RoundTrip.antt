-- ===== src/Index/IvfPqFile/RoundTrip.antt =====
-- The reader reads what the writer has written.
use mathlib.Core.List.{append_assoc}
use tenann.Prelude.{
  ℕ, zero, suc, ◌/◌, ◌^◌, ◌<◌, ◌≡◌, refl, Bool, true, false, some, List, [], ◌∷◌, ◌++◌, arith, ltb,
  length, Bool-cases, inl, inr, if◌then◌else◌,
}
use tenann.Index.IvfPqFile.{
  IndexHeader, bytes_of, read1, write_floats, write_vector, read_floats, read_vector, write_vectors,
  read_vectors, flag, write_index_header, read_index_header,
}

-- The number has so many bytes at most.
abbrev Fits : ℕ → ℕ → Type 0
Fits zero x = x ≡ 0
Fits (suc n) x = Fits n (x / 256)

read1-bytes_of : (n x : ℕ) (f : List ℕ) → Fits n x → read1 n (bytes_of n x ++ f) ≡ some (x, f)
unfolding read1 bytes_of
read1-bytes_of zero x f h = ground (arith, h)
read1-bytes_of (suc n) x f h = ground (arith, read1-bytes_of n (x / 256) f h)

pub read1-u32 : (x : ℕ) (f : List ℕ) → x < 2 ^ 32 → read1 4 (bytes_of 4 x ++ f) ≡ some (x, f)
read1-u32 x f h = read1-bytes_of 4 x f (omega (arith, h))

pub read1-u64 : (x : ℕ) (f : List ℕ) → x < 2 ^ 64 → read1 8 (bytes_of 8 x ++ f) ≡ some (x, f)
read1-u64 x f h = read1-bytes_of 8 x f (omega (arith, h))

read1-flag : (b : Bool) (f : List ℕ) → read1 1 (bytes_of 1 (flag b) ++ f) ≡ some (flag b, f)
read1-flag true f = read1-bytes_of 1 1 f (omega arith)
read1-flag false f = read1-bytes_of 1 0 f (omega arith)

ltb-flag : (b : Bool) → ltb 0 (flag b) ≡ b
ltb-flag true = refl
ltb-flag false = refl

-- Floats are 32-bit patterns, in vectors that the macro takes.
abbrev pub AreFloats : List ℕ → Type 0
AreFloats [] = Unit {0}
AreFloats (x ∷ xs) = (x < 2 ^ 32) × AreFloats xs

abbrev pub AreVectors : List (List ℕ) → Type 0
AreVectors [] = Unit {0}
AreVectors (xs ∷ xss) = (length xs < 2 ^ 40) × AreFloats xs × AreVectors xss

read_floats-write_floats :
    (xs f : List ℕ) → AreFloats xs → read_floats (length xs) (write_floats xs ++ f) ≡ some (xs, f)
unfolding read_floats write_floats
read_floats-write_floats [] f h = refl
read_floats-write_floats (x ∷ xs) f (small, h) = ground (
  arith,
  append_assoc (bytes_of 4 x) (write_floats xs) f,
  read1-u32 x (write_floats xs ++ f) small,
  read_floats-write_floats xs f h,
)

read_vector-write_vector :
    (xs f : List ℕ)
    → length xs < 2 ^ 40
    → AreFloats xs
    → read_vector (write_vector xs ++ f) ≡ some (xs, f)
read_vector-write_vector xs f short h = ground (
  arith,
  short,
  append_assoc (bytes_of 8 (length xs)) (write_floats xs) f,
  read1-u64 (length xs) (write_floats xs ++ f) (omega (arith, short)),
  read_floats-write_floats xs f h,
)

pub read_vectors-write_vectors :
    (xss : List (List ℕ)) (f : List ℕ)
    → AreVectors xss
    → read_vectors (length xss) (write_vectors xss ++ f) ≡ some (xss, f)
unfolding read_vectors write_vectors
read_vectors-write_vectors [] f h = refl
read_vectors-write_vectors (xs ∷ xss) f (short, floats, h) = ground (
  arith,
  append_assoc (write_vector xs) (write_vectors xss) f,
  read_vector-write_vector xs (write_vectors xss ++ f) short floats,
  read_vectors-write_vectors xss f h,
)

-- An argument of the metric is kept for a metric above the two that have none.
abbrev pub IsIndexHeader : IndexHeader → Type 0
IsIndexHeader h =
    (h.d < 2 ^ 32)
    × (h.ntotal < 2 ^ 64)
    × (h.metric_type < 2 ^ 32)
    × (h.metric_arg < 2 ^ 32)
    × (h.metric_type < 2 → h.metric_arg ≡ 0)

read_metric_arg :
    (metric_type x : ℕ) (f : List ℕ)
    → x < 2 ^ 32
    → (metric_type < 2 → x ≡ 0)
    → (if ltb 1 metric_type
        then read1 4 ((if ltb 1 metric_type then bytes_of 4 x else []) ++ f)
        else some (0, (if ltb 1 metric_type then bytes_of 4 x else []) ++ f))
      ≡ some (x, f)
read_metric_arg metric_type x f small none_below = elim (Bool-cases (ltb 1 metric_type)) [
  | inl above ↦ ground (arith, above, read1-u32 x f small)
  | inr below ↦ ground (arith, below, none_below)
]

pub read_index_header-write_index_header :
    (h : IndexHeader) (f : List ℕ)
    → IsIndexHeader h
    → read_index_header (write_index_header h ++ f) ≡ some (h, f)
unfolding read_index_header
read_index_header-write_index_header h f (d, ntotal, metric, arg, none_below) =
    let arg_bytes = (if ltb 1 h.metric_type then bytes_of 4 h.metric_arg else []) in
    let f5 = arg_bytes ++ f in
    let f4 = bytes_of 4 h.metric_type ++ f5 in
    let f3 = bytes_of 1 (flag h.is_trained) ++ f4 in
    let f2 = bytes_of 8 (2 ^ 20) ++ f3 in
    let f1 = bytes_of 8 (2 ^ 20) ++ f2 in
    let f0 = bytes_of 8 h.ntotal ++ f1 in
    let whole : write_index_header h ++ f ≡ bytes_of 4 h.d ++ f0 = simp append_assoc in
    rw (
      whole,
      read1-u32 h.d f0 d,
      read1-u64 h.ntotal f1 ntotal,
      read1-u64 (2 ^ 20) f2 (omega arith),
      read1-u64 (2 ^ 20) f3 (omega arith),
      read1-flag h.is_trained f4,
      read1-u32 h.metric_type f5 metric,
      read_metric_arg h.metric_type h.metric_arg f arg none_below,
      ltb-flag h.is_trained,
    )
