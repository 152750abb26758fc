-- ===== src/Searcher/FaissIvfPq.antt =====
-- FaissIvfPqAnnSearcher of searcher/faiss_ivf_pq_ann_searcher.cc. The searches of the faiss index are
-- parameters; a result is a list of hits, as long as the number that the index reports.
pub mod TopN
use Prim.Native.String.{String}
use text.Mathlib.Text.{◌==◌ as str_eq}
use tenann.Prelude.{
  ℕ, ◌^◌, Bool, true, false, Option, none, some, List, [], ◌∷◌, ◌==◌, leb, ltb, if◌then◌else◌,
  length, map,
}
use tenann.Common.Float.{Floats}
use tenann.Common.Json.{JsonLibrary}
use tenann.Common.Outcome.{Outcome, ok, error, message, catch_json, catch_faiss, ◌>>=◌, ◌>>◌}
use tenann.Factory.{faiss_ivf_pq, metric_cosine_similarity}
use tenann.Index.Parameters.{VectorIndexCommonParams, FaissIvfPqSearchParams}
use tenann.Searcher.{
  ResultOrder, PrimitiveSeqView, Index, Hit, Results, int64_ltb, checked_index, radius_of,
}
use tenann.Util.DistanceUtil.Cosine.{l2_distance_to_cosine_similarity}
use tenann.Util.PriorityQueue.{push, fill}

-- The index behind the searcher, with search parameters and the filter as the id selector.
pub record IvfPqIndex (Ix F : Type 0) : Type 0 where
  pub search :
      FaissIvfPqSearchParams F → Option (ℕ → Bool) → List F → ℕ → Ix → Outcome (List (Hit F))
  pub range_search :
      FaissIvfPqSearchParams F → Option (ℕ → Bool) → List F → F → Ix → Outcome (List (Hit F))

pub record FaissIvfPqAnnSearcher (Ix F : Type 0) : Type 0 where
  pub index_ref : Option (Index Ix)
  pub common_params : VectorIndexCommonParams
  pub search_params : FaissIvfPqSearchParams F

-- `if (heap.size() > num_preserve_results) heap.pop()`.
abbrev pub pop_once : {F : Type 0} → ℕ → List (Hit F) → List (Hit F)
pop_once n [] = []
pop_once n (top ∷ heap) = if ltb n (length (top ∷ heap)) then heap else top ∷ heap

-- A negative limit, as its pattern, is no limit.
abbrev pub num_preserve_results : ℕ → ℕ → ℕ
num_preserve_results limit num_results =
    if leb (2 ^ 63) limit then num_results else if ltb limit num_results then limit else num_results

module _ {F : Type 0} (o : Floats F) where
  -- The comparison of the heap. An index into the results of the search stands here for the hit that it
  -- refers to, since the results do not change.
  abbrev pub distance_less : Hit F → Hit F → Bool
  distance_less left right =
      if o.lt left.distance right.distance
      then true
      else if o.lt right.distance left.distance
      then false
      else int64_ltb left.id right.id

  unfoldable pub preserve_top : ℕ → List (Hit F) → List (Hit F) → List (Hit F)
  preserve_top n [] heap = heap
  preserve_top n (hit ∷ hits) heap = preserve_top n hits (pop_once n (push distance_less hit heap))

  abbrev pub convert : ℕ → List F → List F
  convert metric_type distances =
      if metric_type == metric_cosine_similarity
      then l2_distance_to_cosine_similarity o distances
      else distances

  abbrev pub results_of : ℕ → List (Hit F) → Results F
  results_of metric_type hits = record {
    ids = map (λ h. h.id) hits;
    distances = convert metric_type (map (λ h. h.distance) hits);
  }

  module _ {Ix : Type 0} (faiss : IvfPqIndex Ix F) where
    -- `AnnSearch` with distances.
    unfoldable pub ann_search :
        FaissIvfPqAnnSearcher Ix F
        → PrimitiveSeqView F
        → ℕ
        → Option (ℕ → Bool)
        → Outcome (Results F)
    ann_search s query_vector k id_filter = catch_faiss (do
      ix ← checked_index faiss_ivf_pq s.index_ref query_vector
      hits ← faiss.search s.search_params id_filter query_vector.values k ix
      ok (results_of s.common_params.metric_type hits))

    -- `AnnSearch` without them.
    unfoldable pub ann_search_ids :
        FaissIvfPqAnnSearcher Ix F → PrimitiveSeqView F → ℕ → Option (ℕ → Bool) → Outcome (List ℕ)
    ann_search_ids s query_vector k id_filter = do
      results ← ann_search s query_vector k id_filter
      ok results.ids

    unfoldable pub range_search :
        FaissIvfPqAnnSearcher Ix F
        → PrimitiveSeqView F
        → F
        → ℕ
        → ResultOrder
        → Option (ℕ → Bool)
        → Outcome (Results F)
    range_search s query_vector range limit result_order id_filter = catch_faiss (do
      ix ← checked_index faiss_ivf_pq s.index_ref query_vector
      radius ← radius_of o s.common_params.metric_type result_order range
      hits ← faiss.range_search s.search_params id_filter query_vector.values radius ix
      let n = num_preserve_results limit (length hits)
      let sorted = fill (preserve_top n hits []) []
      ok (results_of s.common_params.metric_type sorted))

    -- `RangeSearch` without distances, which AnnSearcher has for all searchers: it does not pass the
    -- filter on.
    unfoldable pub range_search_ids :
        FaissIvfPqAnnSearcher Ix F
        → PrimitiveSeqView F
        → F
        → ℕ
        → ResultOrder
        → Option (ℕ → Bool)
        → Outcome (List ℕ)
    range_search_ids s query_vector range limit result_order id_filter = do
      results ← range_search s query_vector range limit result_order none
      ok results.ids

module _ {F J : Type 0} (lib : JsonLibrary J F) where
  -- The cases of `OnSearchParamItemChange`, in order.
  unfoldable pub change_item :
      String → J → FaissIvfPqSearchParams F → Outcome (FaissIvfPqSearchParams F)
  change_item key value p =
      let nprobe = (do x ← lib.get_size value; ok (record p { nprobe = x })) in
      let max_codes = (do x ← lib.get_size value; ok (record p { max_codes = x })) in
      let threshold = (do x ← lib.get_size value; ok (record p { scan_table_threshold = x })) in
      let polysemous_ht = (do x ← lib.get_int value; ok (record p { polysemous_ht = x })) in
      let confidence = (do
        x ← lib.get_float value
        ok (record p { range_search_confidence = x })) in
      if str_eq key "nprobe"
      then catch_json nprobe
      else if str_eq key "max_codes"
      then catch_json max_codes
      else if str_eq key "scan_table_threshold"
      then catch_json threshold
      else if str_eq key "polysemous_ht"
      then catch_json polysemous_ht
      else if str_eq key "range_search_confidence"
      then catch_json confidence
      else error (message "unsupport search parameter")

  -- What was changed before an item that throws is left out.
  unfoldable pub on_search_param_item_change :
      {Ix : Type 0} → String → J → FaissIvfPqAnnSearcher Ix F → Outcome (FaissIvfPqAnnSearcher Ix F)
  on_search_param_item_change key value s = do
    p ← change_item key value s.search_params
    ok (record s { search_params = p })

  unfoldable change_items :
      {Ix : Type 0}
      → List (String × J)
      → FaissIvfPqAnnSearcher Ix F
      → Outcome (FaissIvfPqAnnSearcher Ix F)
  change_items [] s = ok s
  change_items ((key, value) ∷ items) s = do
    s' ← on_search_param_item_change key value s
    change_items items s'

  unfoldable pub on_search_params_change :
      {Ix : Type 0} → J → FaissIvfPqAnnSearcher Ix F → Outcome (FaissIvfPqAnnSearcher Ix F)
  unfolding change_items
  on_search_params_change value s = change_items (lib.items value) s
