-- ===== src/Searcher.antt =====
-- tenann/searcher: what the two searchers share, from ann_searcher.h, id_filter_adapter.h and the
-- checks that both make. An id is the 64-bit pattern of an int64.
pub mod FaissHnsw
pub mod Hnsw
pub mod FaissIvfPq
pub mod Tests
use Prim.Native.String.{String}
use tenann.Prelude.{
  ℕ, ◌+◌, ◌%◌, ◌^◌, Bool, true, false, Option, none, some, List, ◌==◌, ltb, not, if◌then◌else◌,
  get_elem?,
}
use tenann.Common.Float.{Floats}
use tenann.Common.Outcome.{Outcome, ok, error, fault, message, check, ◌>>=◌, ◌>>◌}
use tenann.Factory.{metric_l2, metric_cosine_similarity, metric_inner_product}
use tenann.Index.Parameters.{VectorIndexCommonParams}
use tenann.Util.DistanceUtil.Cosine.{cosine_similarity_threshold_to_l2_distance}

pub data ResultOrder : Type 0 where
  ascending : ResultOrder
  descending : ResultOrder

pub data PrimitiveType : Type 0 where
  unknown_type bool_type int8_type int16_type int32_type int64_type : PrimitiveType
  uint8_type uint16_type uint32_type uint64_type float_type double_type : PrimitiveType

pub record PrimitiveSeqView (F : Type 0) : Type 0 where
  pub values : List F
  pub elem_type : PrimitiveType

-- An index as the searchers see it: the faiss index behind the pointer, and its type.
pub record Index (Ix : Type 0) : Type 0 where
  pub index_raw : Ix
  pub index_type : ℕ

-- A label with its distance.
pub record Hit (F : Type 0) : Type 0 where
  pub id : ℕ
  pub distance : F

-- The ids and the distances that a search returns.
pub record Results (F : Type 0) : Type 0 where
  pub ids : List ℕ
  pub distances : List F

-- `left < right` of two int64.
abbrev pub int64_ltb : ℕ → ℕ → Bool
int64_ltb left right = ltb ((left + 2 ^ 63) % 2 ^ 64) ((right + 2 ^ 63) % 2 ^ 64)

abbrev is_float : PrimitiveType → Bool
is_float float_type = true
is_float _ = false

abbrev is_ascending : ResultOrder → Bool
is_ascending ascending = true
is_ascending descending = false

-- T_CHECK_NOTNULL and the two checks behind it.
unfoldable pub checked_index :
    {Ix F : Type 0} → ℕ → Option (Index Ix) → PrimitiveSeqView F → Outcome Ix
checked_index type none query_vector = error (message "index_ref_")
checked_index type (some index) query_vector = do
  check (index.index_type == type) (message "index_type")
  check (is_float query_vector.elem_type) (message "elem_type")
  ok index.index_raw

-- The radius of a range search, with the checks of the metric and of the order.
unfoldable pub radius_of : {F : Type 0} → Floats F → ℕ → ResultOrder → F → Outcome F
radius_of o metric_type result_order range = do
  check (not (metric_type == metric_inner_product)) (message "inner product metric")
  let cosine = (do
    radius ← cosine_similarity_threshold_to_l2_distance o range
    check (not (is_ascending result_order)) (message "only descending order is allowed")
    ok radius)
  let l2 = (do
    check (is_ascending result_order) (message "only ascending order is allowed")
    ok range)
  let unsupported = error (message "using unsupported distance metric")
  if metric_type == metric_cosine_similarity
      then cosine
      else (if metric_type == metric_l2 then l2 else unsupported)

-- IdFilterAdapter: `IsMember` of the filter, for the id that the map of ids has for a label. There is no
-- call without a filter.
abbrev pub is_member : (ℕ → Bool) → Option (List ℕ) → ℕ → Option Bool
is_member id_filter none id = some (id_filter id)
is_member id_filter (some id_map) id = elim (get_elem? id_map id) [
  | none ↦ none
  | some row_id ↦ some (id_filter row_id)
]
