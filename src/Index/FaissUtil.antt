-- ===== src/Index/FaissUtil.antt =====
-- The structure of a faiss index, and index/internal/faiss_index_util.h: unpacking its wrappers and the
-- strings that describe one to the factory of faiss.
use Prim.Native.String.{String}
use Prim.Native.Char.{code}
use tenann.Prelude.{
  ℕ, zero, suc, ◌/◌, ◌%◌, Bool, true, false, not, ◌&&◌, Option, none, some, List, [], ◌∷◌, ◌++◌,
  ◌+◌, ◌==◌, ltb, if◌then◌else◌,
}
use tenann.Common.Outcome.{Outcome, ok, error, message, ◌>>=◌}
use tenann.Factory.{metric_cosine_similarity}
use tenann.Index.Parameters.{VectorIndexCommonParams, FaissHnswIndexParams, FaissIvfPqIndexParams}

-- The metric of faiss.
pub data FaissMetric : Type 0 where
  faiss_l2 : FaissMetric
  faiss_inner_product : FaissMetric

pub data VectorTransform : Type 0 where
  normalization : ℕ → VectorTransform
  other_transform : VectorTransform

-- The fields of an IndexHNSW and of an IndexIvfPq that the builders set.
pub record IndexHnsw : Type 0 where
  pub d : ℕ
  pub m : ℕ
  pub metric : FaissMetric
  pub ef_construction : ℕ
  pub ef_search : ℕ
  pub check_relative_distance : Bool

pub record IndexIvfPq (F : Type 0) : Type 0 where
  pub d : ℕ
  pub nlist : ℕ
  pub m : ℕ
  pub nbits : ℕ
  pub metric : FaissMetric
  pub nprobe : ℕ
  pub max_codes : ℕ
  pub scan_table_threshold : ℕ
  pub polysemous_ht : ℕ
  pub range_search_confidence : F
  pub spherical : Bool

-- What `dynamic_cast` tells apart.
pub data FaissLayers (F : Type 0) : Type 0 where
  index_id_map : List ℕ → FaissLayers F → FaissLayers F
  index_pre_transform : List VectorTransform → FaissLayers F → FaissLayers F
  index_hnsw : IndexHnsw → FaissLayers F
  index_ivf_pq : IndexIvfPq F → FaissLayers F
  other_index : FaissLayers F

-- The condition under which an index normalizes its vectors.
abbrev pub needs_normalization : VectorIndexCommonParams → Bool
needs_normalization common_params =
    common_params.metric_type == metric_cosine_similarity && not common_params.is_vector_normed

abbrev pub needs_transform : Option VectorIndexCommonParams → Bool
needs_transform none = false
needs_transform (some common_params) = needs_normalization common_params

module _ {F : Type 0} where
  abbrev pub cast_id_map : FaissLayers F → Option (List ℕ) × FaissLayers F
  cast_id_map (index_id_map ids sub_index) = (some ids, sub_index)
  cast_id_map sub_index = (none, sub_index)

  -- The transform, which must be there if the parameters ask for it.
  abbrev pub cast_transform :
      Bool → FaissLayers F → Outcome (Option (List VectorTransform) × FaissLayers F)
  cast_transform needed (index_pre_transform chain sub_index) = ok (some chain, sub_index)
  cast_transform true sub_index = error (message "cannot unpack faiss::IndexPreTransform")
  cast_transform false sub_index = ok (none, sub_index)

  abbrev pub cast_hnsw : FaissLayers F → Outcome IndexHnsw
  cast_hnsw (index_hnsw hnsw) = ok hnsw
  cast_hnsw _ = error (message "cannot unpack faiss::IndexHNSW")

  abbrev pub cast_ivf_pq : FaissLayers F → Outcome (IndexIvfPq F)
  cast_ivf_pq (index_ivf_pq ivfpq) = ok ivfpq
  cast_ivf_pq _ = error (message "cannot unpack tenann::IndexIvfPq")

  -- Without common parameters this is `UnpackHnsw`.
  unfoldable pub check_and_unpack_hnsw :
      FaissLayers F
      → Option VectorIndexCommonParams
      → Outcome (Option (List ℕ) × Option (List VectorTransform) × IndexHnsw)
  check_and_unpack_hnsw index common_params =
      let (id_map, sub_index) = cast_id_map index in
      do
        transformed ← cast_transform (needs_transform common_params) sub_index
        hnsw ← cast_hnsw transformed.1
        ok (id_map, transformed.0, hnsw)

  unfoldable pub check_and_unpack_ivf_pq :
      FaissLayers F
      → Option VectorIndexCommonParams
      → Outcome (Option (List VectorTransform) × IndexIvfPq F)
  check_and_unpack_ivf_pq index common_params = do
    transformed ← cast_transform (needs_transform common_params) index
    ivfpq ← cast_ivf_pq transformed.1
    ok (transformed.0, ivfpq)

-- A text is the list of its bytes here.
abbrev pub codes : String → List ℕ
codes String.[] = []
codes (String.◌∷◌ c s) = code c ∷ codes s

unfoldable pub print_digits : ℕ → ℕ → List ℕ
print_digits zero n = []
print_digits (suc fuel) n =
    let front = print_digits fuel (n / 10) in
    if ltb n 10 then (48 + n) ∷ [] else front ++ (48 + n % 10) ∷ []

-- `oss << n`, with 20 digits at most.
unfoldable pub print : ℕ → List ℕ
unfolding print_digits
print n = print_digits 20 n

unfoldable pub get_hnsw_repr : VectorIndexCommonParams → FaissHnswIndexParams → Bool → List ℕ
get_hnsw_repr common_params index_params use_custom_rowid =
    (if use_custom_rowid then codes "IDMap," else [])
    ++ (if needs_normalization common_params then codes "L2Norm," else [])
    ++ codes "HNSW"
    ++ print index_params.m

unfoldable pub get_ivf_pq_repr : VectorIndexCommonParams → FaissIvfPqIndexParams → List ℕ
get_ivf_pq_repr common_params index_params =
    (if needs_normalization common_params then codes "L2Norm," else [])
    ++ codes "IVF"
    ++ print index_params.nlist
    ++ codes ",PQ"
    ++ print index_params.m
    ++ codes "x"
    ++ print index_params.nbits
