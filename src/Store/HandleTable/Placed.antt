-- ===== src/Store/HandleTable/Placed.antt =====
-- Where the nodes of the bucket array stand, and how many there are.
use native.Mathlib.Nat.{add-zero}
use tenann.Prelude.{
  ℕ, zero, suc, ◌+◌, ◌<◌, ◌≡◌, refl, List, [], ◌∷◌, length, get_or, set, replicate, arith,
}
use tenann.Store.HandleTable.{Chain, count_list}
use tenann.Store.HandleTable.Chain.{Uniq, AtIndex}

-- The chains of `list` are duplicate-free, and each node is in the bucket of its hash; the first
-- chain is bucket `i`.
abbrev pub Placed : ℕ → ℕ → List Chain → Type 0
Placed len i [] = Unit {0}
Placed len i (c ∷ cs) = AtIndex len i c × Uniq c × Placed len (suc i) cs

pub Placed-get_or :
    (len i j : ℕ) (cs : List Chain)
    → Placed len i cs
    → AtIndex len (i + j) (get_or cs j []) × Uniq (get_or cs j [])
Placed-get_or len i j [] p = (tt, tt)
Placed-get_or len i zero (c ∷ cs) p = rw (add-zero) (p.0, p.1)
Placed-get_or len i (suc j) (c ∷ cs) p =
    let e : i + suc j ≡ suc i + j = omega arith in rw e (Placed-get_or len (suc i) j cs p.2)

pub Placed-set :
    (len i j : ℕ) (c : Chain) (cs : List Chain)
    → Placed len i cs
    → AtIndex len (i + j) c
    → Uniq c
    → Placed len i (set cs j c)
Placed-set len i j c [] p a u = tt
Placed-set len i zero c (d ∷ cs) p a u = (rw add-zero at a, u, p.2)
Placed-set len i (suc j) c (d ∷ cs) p a u =
    let e : i + suc j ≡ suc i + j = omega arith in
    (p.0, p.1, Placed-set len (suc i) j c cs p.2 (rw e at a) u)

pub Placed-replicate : (len i n : ℕ) → Placed len i (replicate n [])
Placed-replicate len i zero = tt
Placed-replicate len i (suc n) = (tt, tt, Placed-replicate len (suc i) n)

pub count_list-set :
    (cs : List Chain) (j : ℕ) (c : Chain)
    → j < length cs
    → count_list (set cs j c) + length (get_or cs j []) ≡ count_list cs + length c
unfolding count_list
count_list-set [] j c h = elim h [ ]
count_list-set (d ∷ cs) zero c h = omega arith
count_list-set (d ∷ cs) (suc j) c h = omega (arith, count_list-set cs j c (omega arith))

pub count_list-replicate : (n : ℕ) → count_list (replicate n []) ≡ 0
unfolding count_list
count_list-replicate zero = refl
count_list-replicate (suc n) = omega (arith, count_list-replicate n)
