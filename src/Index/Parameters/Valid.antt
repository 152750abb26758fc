-- ===== src/Index/Parameters/Valid.antt =====
-- What a fetched structure of parameters promises.
use Prim.Native.String.{String}
use tenann.Prelude.{ℕ, ◌≤◌, ◌≡◌, true, false, ◌⊎◌, inl, inr, some, arith, Bool-cases, subst}
use tenann.Common.Json.{JsonLibrary}
use tenann.Common.Outcome.{Outcome, ok, ◌>>=◌, bind-ok, then-ok, ok-inj, catch_json-ok}
use tenann.Store.IndexMeta.{IndexMeta, get_optional, get_required}
use tenann.Index.Parameters.{
  VectorIndexCommonParams, FaissIvfPqIndexParams, FaissHnswIndexParams, int_max, assert_in_range,
  optional_to, validate_common, validate_ivf_pq_index, validate_hnsw_index, fetch_common,
  fetch_ivf_pq_index, fetch_hnsw_index,
}

assert_in_range-ok :
    (name : String) (low high x : ℕ)
    → assert_in_range name low high x ≡ ok tt
    → (low ≤ x) × (x ≤ high)
assert_in_range-ok name low high x h = ground (arith, h)

module _ {J F T : Type 0} (lib : JsonLibrary J F) (get : J → Outcome T) where
  -- The meta has the value under the key of the section.
  abbrev pub Has : String → String → IndexMeta J → T → Type 0
  Has section_key key meta value =
      (sub : J) × (j : J) × (lib.at section_key meta.meta_json ≡ ok sub)
      × (lib.contains key sub ≡ true)
      × (lib.at key sub ≡ ok j)
      × (get j ≡ ok value)

  -- The value is the default, and the section has nothing under the key.
  abbrev pub Misses : String → String → IndexMeta J → T → T → Type 0
  Misses section_key key meta default value =
      (sub : J) × (lib.at section_key meta.meta_json ≡ ok sub)
      × (lib.contains key sub ≡ false)
      × (value ≡ default)

  get_required-ok :
      (section_key key : String) (meta : IndexMeta J) (value : T)
      → get_required lib get section_key key meta ≡ ok value
      → Has section_key key meta value
  unfolding get_required
  get_required-ok section_key key meta value h =
      let (sub, at_sub, h') =
        bind-ok (lib.at section_key meta.meta_json) _ value (catch_json-ok _ value h) in
      elim (Bool-cases (lib.contains key sub)) [
        | inl there ↦
            let read : (lib.at key sub >>= get) ≡ ok value = ground (arith, h', there) in
            let (j, at_j, got) = bind-ok (lib.at key sub) get value read in
            (sub, j, at_sub, there, at_j, got)
        | inr lacks ↦ absurd (ground (arith, h', lacks))
      ]

  optional_to-ok :
      (section_key key : String) (default : T) (meta : IndexMeta J) (value : T)
      → optional_to lib get section_key key default meta ≡ ok value
      → Has section_key key meta value ⊎ Misses section_key key meta default value
  unfolding optional_to get_optional
  optional_to-ok section_key key default meta value h =
      let (found, h₁, h₂) = bind-ok (get_optional lib get section_key key meta) _ value h in
      let (sub, at_sub, h') =
        bind-ok (lib.at section_key meta.meta_json) _ found (catch_json-ok _ found h₁) in
      elim (Bool-cases (lib.contains key sub)) [
        | inl there ↦
            let read : (lib.at key sub >>= λ j. get j >>= λ v. ok (some v)) ≡ ok found =
              ground (arith, h', there) in
            let (j, at_j, got) = bind-ok (lib.at key sub) _ found read in
            let (v, got', is_v) = bind-ok (get j) (λ v. ok (some v)) found got in
            inl (sub, j, at_sub, there, at_j, ground (arith, got', is_v, h₂))
        | inr lacks ↦ inr (sub, at_sub, lacks, ground (arith, h', lacks, h₂))
      ]

module _ {J F : Type 0} (lib : JsonLibrary J F) (meta : IndexMeta J) where
  -- An optional parameter: the value of the meta, or the default where the meta has none.
  abbrev pub Takes : {T : Type 0} → (J → Outcome T) → String → String → T → T → Type 0
  Takes get section_key key default value =
      Has lib get section_key key meta value ⊎ Misses lib get section_key key meta default value

  -- The dimension and the metric are given and within their bounds.
  abbrev pub IsCommon : VectorIndexCommonParams → Type 0
  IsCommon p =
      (1 ≤ p.dim)
      × (p.dim ≤ 65536)
      × (p.metric_type ≤ 4)
      × Has lib lib.get_int "common" "dim" meta p.dim
      × Has lib lib.get_int "common" "metric_type" meta p.metric_type
      × Takes lib.get_bool "common" "is_vector_normed" false p.is_vector_normed

  abbrev pub IsIvfPqIndex : FaissIvfPqIndexParams → Type 0
  IsIvfPqIndex p =
      (1 ≤ p.nlist)
      × (p.nlist ≤ int_max)
      × (1 ≤ p.m)
      × (p.m ≤ int_max)
      × (8 ≤ p.nbits)
      × (p.nbits ≤ 32)
      × Takes lib.get_size "index" "nlist" 16 p.nlist
      × Takes lib.get_size "index" "M" 2 p.m
      × Takes lib.get_size "index" "nbits" 8 p.nbits

  abbrev pub IsHnswIndex : FaissHnswIndexParams → Type 0
  IsHnswIndex p =
      (1 ≤ p.m)
      × (p.m ≤ 65536)
      × (1 ≤ p.ef_construction)
      × (p.ef_construction ≤ 65536)
      × Takes lib.get_int "index" "M" 16 p.m
      × Takes lib.get_int "index" "efConstruction" 40 p.ef_construction

  -- Common parameters that are fetched have the required dimension and metric of the meta, within
  -- 1 to 65536 and 0 to 4, and its flag, or an unset one where it has none.
  pub fetch_common-IsCommon :
      (p : VectorIndexCommonParams) → fetch_common lib meta ≡ ok p → IsCommon p
  unfolding fetch_common validate_common
  fetch_common-IsCommon p h =
      let (dim, h₁, g₁) = bind-ok (get_required lib lib.get_int "common" "dim" meta) _ p h in
      let (metric, h₂, g₂) =
        bind-ok (get_required lib lib.get_int "common" "metric_type" meta) _ p g₁ in
      let (normed, h₃, g₃) =
        bind-ok (optional_to lib lib.get_bool "common" "is_vector_normed" false meta) _ p g₂ in
      let (valid, is_p) = then-ok _ _ p g₃ in
      let (dim_ok, metric_ok) = then-ok _ _ tt valid in
      let (low, high) = assert_in_range-ok "dim" 1 65536 dim dim_ok in
      let (zero, top) = assert_in_range-ok "metric_type" 0 4 metric metric_ok in
      subst IsCommon (ok-inj _ p is_p) (
        low,
        high,
        top,
        get_required-ok lib lib.get_int "common" "dim" meta dim h₁,
        get_required-ok lib lib.get_int "common" "metric_type" meta metric h₂,
        optional_to-ok lib lib.get_bool "common" "is_vector_normed" false meta normed h₃,
      )

  -- IVF-PQ parameters that are fetched are those of the meta, or 16, 2 and 8 where it has none, with
  -- nlist and M from 1 to the largest int and nbits from 8 to 32.
  pub fetch_ivf_pq_index-IsIvfPqIndex :
      (p : FaissIvfPqIndexParams) → fetch_ivf_pq_index lib meta ≡ ok p → IsIvfPqIndex p
  unfolding fetch_ivf_pq_index validate_ivf_pq_index
  fetch_ivf_pq_index-IsIvfPqIndex p h =
      let (nlist, h₁, g₁) = bind-ok (optional_to lib lib.get_size "index" "nlist" 16 meta) _ p h in
      let (m, h₂, g₂) = bind-ok (optional_to lib lib.get_size "index" "M" 2 meta) _ p g₁ in
      let (nbits, h₃, g₃) = bind-ok (optional_to lib lib.get_size "index" "nbits" 8 meta) _ p g₂ in
      let (valid, is_p) = then-ok _ _ p g₃ in
      let (nlist_ok, valid') = then-ok _ _ tt valid in
      let (m_ok, nbits_ok) = then-ok _ _ tt valid' in
      let (a, b) = assert_in_range-ok "nlist" 1 int_max nlist nlist_ok in
      let (c, d) = assert_in_range-ok "M" 1 int_max m m_ok in
      let (e, f) = assert_in_range-ok "nbits" 8 32 nbits nbits_ok in
      subst IsIvfPqIndex (ok-inj _ p is_p) (
        a,
        b,
        c,
        d,
        e,
        f,
        optional_to-ok lib lib.get_size "index" "nlist" 16 meta nlist h₁,
        optional_to-ok lib lib.get_size "index" "M" 2 meta m h₂,
        optional_to-ok lib lib.get_size "index" "nbits" 8 meta nbits h₃,
      )

  -- HNSW parameters that are fetched are those of the meta, or 16 and 40 where it has none, each from
  -- 1 to 65536.
  pub fetch_hnsw_index-IsHnswIndex :
      (p : FaissHnswIndexParams) → fetch_hnsw_index lib meta ≡ ok p → IsHnswIndex p
  unfolding fetch_hnsw_index validate_hnsw_index
  fetch_hnsw_index-IsHnswIndex p h =
      let (m, h₁, g₁) = bind-ok (optional_to lib lib.get_int "index" "M" 16 meta) _ p h in
      let (ef, h₂, g₂) =
        bind-ok (optional_to lib lib.get_int "index" "efConstruction" 40 meta) _ p g₁ in
      let (valid, is_p) = then-ok _ _ p g₂ in
      let (m_ok, ef_ok) = then-ok _ _ tt valid in
      let (a, b) = assert_in_range-ok "M" 1 65536 m m_ok in
      let (c, d) = assert_in_range-ok "efConstruction" 1 65536 ef ef_ok in
      subst IsHnswIndex (ok-inj _ p is_p) (
        a,
        b,
        c,
        d,
        optional_to-ok lib lib.get_int "index" "M" 16 meta m h₁,
        optional_to-ok lib lib.get_int "index" "efConstruction" 40 meta ef h₂,
      )
