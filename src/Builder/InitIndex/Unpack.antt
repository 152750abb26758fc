-- ===== src/Builder/InitIndex/Unpack.antt =====
-- An index that a builder makes is one that a searcher for the same meta can unpack.
use tenann.Prelude.{
  ℕ, ◌≡◌, refl, Bool, true, false, not, ◌&&◌, Option, none, some, List, [], ◌∷◌, ◌++◌, ◌==◌,
  if◌then◌else◌, arith, Bool-cases, inl, inr, ◌∙◌,
}
use tenann.Common.Json.{JsonLibrary}
use tenann.Common.Outcome.{Outcome, ok}
use tenann.Factory.{metric_cosine_similarity, metric_inner_product}
use tenann.Index.FaissUtil.{
  FaissMetric, faiss_l2, faiss_inner_product, VectorTransform, normalization, IndexHnsw, IndexIvfPq,
  FaissLayers, index_id_map, index_pre_transform, index_hnsw, index_ivf_pq, check_and_unpack_hnsw,
  check_and_unpack_ivf_pq, get_hnsw_repr, codes, print,
}
use tenann.Index.Parameters.{
  VectorIndexCommonParams, FaissHnswIndexParams, FaissHnswSearchParams, FaissIvfPqIndexParams,
  FaissIvfPqSearchParams, fetch_hnsw_index, fetch_hnsw_search,
}
use tenann.Index.Parameters.Valid.{fetch_hnsw_index-IsHnswIndex}
use tenann.Store.IndexMeta.{IndexMeta}
use tenann.Builder.InitIndex.{
  metric_of, is_inner_product, set_hnsw, init_hnsw_index, init_ivf_pq_index,
}
use tenann.Builder.InitIndex.Decimal.{IsNumber, value_from, print-reads}

-- Vectors that are compared by cosine are normalized, unless they are normed.
abbrev pub normalizes : VectorIndexCommonParams → Bool
normalizes common = common.metric_type == metric_cosine_similarity && not common.is_vector_normed

-- The transform that an index needs under its common parameters.
abbrev pub transform_for : VectorIndexCommonParams → Option (List VectorTransform)
transform_for common = if normalizes common then some (normalization common.dim ∷ []) else none

abbrev pub metric_for : VectorIndexCommonParams → FaissMetric
metric_for common =
    if common.metric_type == metric_inner_product then faiss_inner_product else faiss_l2

-- A description as the factory of faiss documents it: a map of ids, a normalization and an HNSW
-- index, whose M is a number in decimal.
abbrev pub description : Bool → Bool → List ℕ → List ℕ
description custom normalized digits =
    (if custom then codes "IDMap," else [])
    ++ (if normalized then codes "L2Norm," else [])
    ++ codes "HNSW"
    ++ digits

is_inner_product-metric_of :
    (common : VectorIndexCommonParams)
    → is_inner_product (metric_of common) ≡ (common.metric_type == metric_inner_product)
is_inner_product-metric_of common = elim (Bool-cases (common.metric_type == metric_inner_product)) [
  | inl inner ↦ rw inner refl
  | inr other ↦ rw other refl
]

module _ {F : Type 0} where
  abbrev pub with_transform : Bool → ℕ → FaissLayers F → FaissLayers F
  with_transform normalized d index =
      if normalized then index_pre_transform (normalization d ∷ []) index else index

  abbrev pub with_id_map : Bool → FaissLayers F → FaissLayers F
  with_id_map use_custom_row_id index = if use_custom_row_id then index_id_map [] index else index

  -- The documented behaviour of what InitIndex of an IVF-PQ builder calls: the constructor sets the
  -- fields that it is given, and a normalization of the dimension of the index is put first.
  pub record DocumentedIvfPq
      (new_index_ivf_pq : ℕ → ℕ → ℕ → ℕ → FaissMetric → Outcome (IndexIvfPq F))
      (prepend_transform : VectorTransform → FaissLayers F → Outcome (FaissLayers F)) : Type 0 where
    pub constructs :
        (d nlist m nbits : ℕ) (metric : FaissMetric) (ix : IndexIvfPq F)
        → new_index_ivf_pq d nlist m nbits metric ≡ ok ix
        → (ix.d ≡ d) × (ix.nlist ≡ nlist) × (ix.m ≡ m) × (ix.nbits ≡ nbits) × (ix.metric ≡ metric)
    pub prepends :
        (d : ℕ) (chain : List VectorTransform) (ix : IndexIvfPq F)
        → ix.d ≡ d
        → prepend_transform (normalization d) (index_pre_transform chain (index_ivf_pq ix))
          ≡ ok (index_pre_transform (normalization d ∷ chain) (index_ivf_pq ix))

  -- The fields of the index that the parameters of the builder ask for.
  pub record HasParameters (common : VectorIndexCommonParams) (index : FaissIvfPqIndexParams)
      (defaults : FaissIvfPqSearchParams F) (ix : IndexIvfPq F) : Type 0 where
    pub d : ix.d ≡ common.dim
    pub nlist : ix.nlist ≡ index.nlist
    pub m : ix.m ≡ index.m
    pub nbits : ix.nbits ≡ index.nbits
    pub metric : ix.metric ≡ metric_for common
    pub nprobe : ix.nprobe ≡ defaults.nprobe
    pub max_codes : ix.max_codes ≡ defaults.max_codes
    pub scan_table_threshold : ix.scan_table_threshold ≡ defaults.scan_table_threshold
    pub polysemous_ht : ix.polysemous_ht ≡ defaults.polysemous_ht
    pub range_search_confidence : ix.range_search_confidence ≡ defaults.range_search_confidence
    pub spherical : ix.spherical ≡ (common.metric_type == metric_inner_product)

  -- Where the constructor returns, the index of an IVF-PQ builder unpacks under its own common
  -- parameters: a normalization comes first exactly if the metric is the cosine and the vectors are not
  -- normed, and each field of the index is the one that the parameters of the builder give.
  pub init_ivf_pq_index-unpacks :
      (new_index_ivf_pq : ℕ → ℕ → ℕ → ℕ → FaissMetric → Outcome (IndexIvfPq F))
      (prepend_transform : VectorTransform → FaissLayers F → Outcome (FaissLayers F))
      (common : VectorIndexCommonParams) (index : FaissIvfPqIndexParams)
      (defaults : FaissIvfPqSearchParams F) (made : IndexIvfPq F)
      → DocumentedIvfPq new_index_ivf_pq prepend_transform
      → new_index_ivf_pq common.dim index.nlist index.m index.nbits (metric_for common) ≡ ok made
      → (layers : FaissLayers F) × (ix : IndexIvfPq F) × (init_ivf_pq_index new_index_ivf_pq
            prepend_transform common index defaults
          ≡ ok layers)
        × (check_and_unpack_ivf_pq layers (some common) ≡ ok (transform_for common, ix))
        × HasParameters common index defaults ix
  unfolding check_and_unpack_ivf_pq init_ivf_pq_index
  init_ivf_pq_index-unpacks new_index_ivf_pq prepend_transform common index defaults made documented
        makes =
      let (d, nlist, m, nbits, metric) =
        documented.constructs common.dim index.nlist index.m index.nbits (metric_for common) made
          makes in
      let ix : IndexIvfPq F = record made {
        nprobe = defaults.nprobe;
        max_codes = defaults.max_codes;
        scan_table_threshold = defaults.scan_table_threshold;
        polysemous_ht = defaults.polysemous_ht;
        range_search_confidence = defaults.range_search_confidence;
        spherical = is_inner_product (metric_of common);
      } in
      let prepended = documented.prepends common.dim [] ix d in
      (
        with_transform (normalizes common) common.dim (index_ivf_pq ix),
        ix,
        elim (Bool-cases (normalizes common)) [
          | inl normalized ↦ ground (arith, makes, normalized, prepended)
          | inr plain ↦ ground (arith, makes, plain)
        ],
        elim (Bool-cases (normalizes common)) [
          | inl normalized ↦ ground (arith, normalized)
          | inr plain ↦ ground (arith, plain)
        ],
        record {
          d = d;
          nlist = nlist;
          m = m;
          nbits = nbits;
          metric = metric;
          nprobe = refl;
          max_codes = refl;
          scan_table_threshold = refl;
          polysemous_ht = refl;
          range_search_confidence = refl;
          spherical = is_inner_product-metric_of common;
        },
      )

  set_hnsw-layers :
      (f : IndexHnsw → IndexHnsw) (normalized custom : Bool) (d : ℕ) (hnsw : IndexHnsw)
      → set_hnsw {F = F} f (with_id_map custom (with_transform normalized d (index_hnsw hnsw)))
        ≡ with_id_map custom (with_transform normalized d (index_hnsw (f hnsw)))
  set_hnsw-layers f true true d hnsw = refl
  set_hnsw-layers f true false d hnsw = refl
  set_hnsw-layers f false true d hnsw = refl
  set_hnsw-layers f false false d hnsw = refl

  -- The documented behaviour of the factory: it builds the layers that a description names, for the
  -- dimension, the metric and the number M.
  abbrev pub Describes : (ℕ → List ℕ → FaissMetric → Outcome (FaissLayers F)) → Type 0
  Describes index_factory =
      (d : ℕ) (custom normalized : Bool) (digits : List ℕ) (metric : FaissMetric)
      → IsNumber digits
      → (hnsw : IndexHnsw) × (index_factory d (description custom normalized digits) metric
          ≡ ok (with_id_map custom (with_transform normalized d (index_hnsw hnsw))))
        × (hnsw.d ≡ d)
        × (hnsw.m ≡ value_from 0 digits)
        × (hnsw.metric ≡ metric)

layers-unpack :
    (F : Type 0) (common : VectorIndexCommonParams) (custom : Bool) (hnsw : IndexHnsw)
    → check_and_unpack_hnsw {F = F}
        (with_id_map custom (with_transform (normalizes common) common.dim (index_hnsw hnsw)))
        (some common)
      ≡ ok (if custom then some [] else none, transform_for common, hnsw)
unfolding check_and_unpack_hnsw
layers-unpack F common custom hnsw = elim (Bool-cases (normalizes common)) [
  | inl normalized ↦ elim (Bool-cases custom) [
    | inl given ↦ ground (arith, normalized, given)
    | inr none_given ↦ ground (arith, normalized, none_given)
  ]
  | inr plain ↦ elim (Bool-cases custom) [
    | inl given ↦ ground (arith, plain, given)
    | inr none_given ↦ ground (arith, plain, none_given)
  ]
]

module _ {F : Type 0} where
  -- With parameters that the meta has, the index of an HNSW builder unpacks under its common
  -- parameters: a map of ids exactly if row ids are given, a normalization exactly if it is needed, and
  -- an HNSW index of the dimension and the metric, with M, the search parameters and efConstruction of
  -- the meta.
  pub init_hnsw_index-unpacks :
      {J : Type 0} (lib : JsonLibrary J F)
      (index_factory : ℕ → List ℕ → FaissMetric → Outcome (FaissLayers F)) (meta : IndexMeta J)
      (common : VectorIndexCommonParams) (custom : Bool) (index_params : FaissHnswIndexParams)
      (search_params : FaissHnswSearchParams)
      → Describes index_factory
      → fetch_hnsw_index lib meta ≡ ok index_params
      → fetch_hnsw_search lib meta ≡ ok search_params
      → (index : FaissLayers F) × (hnsw : IndexHnsw) × (init_hnsw_index lib index_factory meta
            common custom
          ≡ ok index)
        × (check_and_unpack_hnsw index (some common)
            ≡ ok (if custom then some [] else none, transform_for common, hnsw))
        × (hnsw.d ≡ common.dim)
        × (hnsw.m ≡ index_params.m)
        × (hnsw.metric ≡ metric_for common)
        × (hnsw.ef_construction ≡ index_params.ef_construction)
        × (hnsw.ef_search ≡ search_params.ef_search)
        × (hnsw.check_relative_distance ≡ search_params.check_relative_distance)
  unfolding init_hnsw_index check_and_unpack_hnsw get_hnsw_repr
  init_hnsw_index-unpacks lib index_factory meta common custom index_params search_params describes
        has_index has_search =
      let (_, most, _, _, _, _) = fetch_hnsw_index-IsHnswIndex lib meta index_params has_index in
      let (is, reads) = print-reads index_params.m (omega (arith, most)) in
      let (hnsw, made, d, m, metric) =
        describes common.dim custom (normalizes common) (print index_params.m) (metric_for common)
          is in
      let factory : index_factory common.dim (get_hnsw_repr common index_params custom)
            (metric_of common)
          ≡ ok (
              with_id_map custom
                (with_transform (normalizes common) common.dim (index_hnsw hnsw))) =
        made in
      let set : IndexHnsw → IndexHnsw = λ hnsw. record hnsw {
        ef_construction = index_params.ef_construction;
        ef_search = search_params.ef_search;
        check_relative_distance = search_params.check_relative_distance;
      } in
      (
        with_id_map custom (with_transform (normalizes common) common.dim (index_hnsw (set hnsw))),
        set hnsw,
        ground (
          arith,
          has_index,
          has_search,
          factory,
          layers-unpack F common custom hnsw,
          set_hnsw-layers {F = F} set (normalizes common) custom common.dim hnsw,
        ),
        layers-unpack F common custom (set hnsw),
        d,
        m ∙ reads,
        metric,
        refl,
        refl,
        refl,
      )
