-- ===== src/Index/Parameters/MinRows.antt =====
-- GetIvfPqMinRows of index/index_ivfpq_util.h.
use native.Mathlib.Nat.{mul-le-mul, pow-le-pow_right}
use tenann.Prelude.{
  ℕ, ◌*◌, ◌%◌, ◌^◌, ◌≤◌, ◌≡◌, ◌⊎◌, refl, inl, inr, arith, ltb, if◌then◌else◌, Bool-cases, subst,
}
use tenann.Common.Json.{JsonLibrary}
use tenann.Common.Outcome.{Outcome, ok, ◌>>=◌, bind-ok, ok-inj}
use tenann.Store.IndexMeta.{IndexMeta}
use tenann.Index.Parameters.{FaissIvfPqIndexParams, int_max, fetch_ivf_pq_index}
use tenann.Index.Parameters.Valid.{IsIvfPqIndex, fetch_ivf_pq_index-IsIvfPqIndex}

abbrev pub ivf_pq_min_rows_per_cluster : ℕ
ivf_pq_min_rows_per_cluster = 39

-- A product of two size_t.
abbrev pub mul64 : ℕ → ℕ → ℕ
mul64 a b = a * b % 2 ^ 64

-- The shift is by less than 64 bits, since the parameters are checked.
abbrev pub min_rows : ℕ → FaissIvfPqIndexParams → ℕ
min_rows min_rows_per_cluster params =
    let ivf_required_min_rows = mul64 min_rows_per_cluster params.nlist in
    let pq_required_min_rows = mul64 min_rows_per_cluster (2 ^ params.nbits % 2 ^ 64) in
    if ltb pq_required_min_rows ivf_required_min_rows
    then ivf_required_min_rows
    else pq_required_min_rows

-- The larger one of two numbers.
abbrev pub IsMax : ℕ → ℕ → ℕ → Type 0
IsMax a b c = (a ≤ c) × (b ≤ c) × ((c ≡ a) ⊎ (c ≡ b))

module _ {J F : Type 0} (lib : JsonLibrary J F) (meta : IndexMeta J) where
  unfoldable pub get_ivf_pq_min_rows : ℕ → Outcome ℕ
  get_ivf_pq_min_rows min_rows_per_cluster = do
    params ← fetch_ivf_pq_index lib meta
    ok (min_rows min_rows_per_cluster params)

  min_rows-IsMax :
      (k : ℕ) (p : FaissIvfPqIndexParams)
      → k ≤ 2 ^ 31
      → IsIvfPqIndex lib meta p
      → IsMax (k * p.nlist) (k * 2 ^ p.nbits) (min_rows k p)
  min_rows-IsMax k p small (_, nlist, _, _, _, nbits, _, _, _) =
      let power : 2 ^ p.nbits ≤ 2 ^ 32 = pow-le-pow_right (omega arith) nbits in
      let ivf : k * p.nlist ≤ 2 ^ 31 * int_max = mul-le-mul small nlist in
      let pq : k * 2 ^ p.nbits ≤ 2 ^ 31 * 2 ^ 32 = mul-le-mul small power in
      let power_fits : 2 ^ p.nbits % 2 ^ 64 ≡ 2 ^ p.nbits = omega (arith, power) in
      let ivf_fits : k * p.nlist % 2 ^ 64 ≡ k * p.nlist = omega (arith, ivf) in
      let pq_fits : k * 2 ^ p.nbits % 2 ^ 64 ≡ k * 2 ^ p.nbits = omega (arith, pq) in
      rw (power_fits, ivf_fits, pq_fits)
        (elim (Bool-cases (ltb (k * 2 ^ p.nbits) (k * p.nlist))) [
          | inl ivf_more ↦ rw ivf_more (omega arith, ground (arith, ivf_more), inl refl)
          | inr pq_more ↦ rw pq_more (ground (arith, pq_more), omega arith, inr refl)
        ])

  -- The number of rows that it returns, for at most 2 ^ 31 rows for each cluster, is the larger one of what
  -- the lists and what the codes need, with the parameters of the meta within their bounds: no product
  -- runs over.
  pub get_ivf_pq_min_rows-IsMax :
      (min_rows_per_cluster rows : ℕ)
      → min_rows_per_cluster ≤ 2 ^ 31
      → get_ivf_pq_min_rows min_rows_per_cluster ≡ ok rows
      → (p : FaissIvfPqIndexParams) × (fetch_ivf_pq_index lib meta ≡ ok p)
        × IsIvfPqIndex lib meta p
        × IsMax (min_rows_per_cluster * p.nlist) (min_rows_per_cluster * 2 ^ p.nbits) rows
  unfolding get_ivf_pq_min_rows
  get_ivf_pq_min_rows-IsMax k rows small h =
      let (p, fetched, is_rows) = bind-ok (fetch_ivf_pq_index lib meta) _ rows h in
      let valid = fetch_ivf_pq_index-IsIvfPqIndex lib meta p fetched in
      (
        p,
        fetched,
        valid,
        subst (IsMax (k * p.nlist) (k * 2 ^ p.nbits)) (ok-inj _ rows is_rows)
            (min_rows-IsMax k p small valid),
      )
