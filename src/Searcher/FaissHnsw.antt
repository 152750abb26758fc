-- ===== src/Searcher/FaissHnsw.antt =====
-- FaissHnswAnnSearcher of searcher/faiss_hnsw_ann_searcher.cc, with IndexHnswRangeSearch.
pub mod Limited
pub mod Unlimited
use Prim.Native.String.{String}
use text.Mathlib.Text.{◌==◌ as str_eq}
use tenann.Prelude.{
  ℕ, zero, suc, ◌+◌, ◌-◌, ◌^◌, Bool, true, false, not, ◌&&◌, Option, none, some, List, [], ◌∷◌,
  ◌==◌, leb, ltb, if◌then◌else◌, get_elem?, length, map,
}
use tenann.Common.Float.{Floats}
use tenann.Common.Json.{JsonLibrary}
use tenann.Common.Outcome.{
  Outcome, ok, error, fault, message, check, catch_json, catch_faiss, ◌>>=◌, ◌>>◌,
}
use tenann.Factory.{faiss_hnsw, metric_cosine_similarity}
use tenann.Index.Parameters.{VectorIndexCommonParams, FaissHnswSearchParams}
use tenann.Searcher.{
  ResultOrder, PrimitiveSeqView, Index, Hit, Results, checked_index, radius_of, is_member,
}
use tenann.Searcher.Hnsw.{HnswLibrary, Nearest, upper_levels, range_search_from_candidates}
use tenann.Util.DistanceUtil.Cosine.{l2_distance_to_cosine_similarity}
use tenann.Util.PriorityQueue.{fill}

-- The state: `faiss_hnsw` and its two wrappers are set when an index is loaded.
pub record FaissHnswAnnSearcher (Ix F : Type 0) : Type 0 where
  pub index_ref : Option (Index Ix)
  pub common_params : VectorIndexCommonParams
  pub search_params : FaissHnswSearchParams
  pub id_map : Option (List ℕ)
  pub transform : Option (List F → List F)
  pub hnsw : Ix

-- The pattern of a negative int is at least 2 ^ 31, that of a negative int64 at least 2 ^ 63.
abbrev pub is_positive : ℕ → Bool
is_positive limit = ltb 0 limit && ltb limit (2 ^ 63)

abbrev pub max_ef : ℕ → ℕ → ℕ
max_ef ef limit =
    let signed = if leb (2 ^ 31) ef then 0 else ef in
    if is_positive limit && ltb signed limit then limit else ef

abbrev pub read : Option ℕ → Outcome ℕ
read none = fault
read (some id) = ok id

-- The ids of the rows, for labels; a negative label stays.
unfoldable pub translate : Option (List ℕ) → List ℕ → Outcome (List ℕ)
translate none ids = ok ids
translate (some id_map) [] = ok []
translate (some id_map) (li ∷ ids) = do
  id ← (if leb (2 ^ 63) li then ok li else read (get_elem? id_map li))
  rest ← translate (some id_map) ids
  ok (id ∷ rest)

module _ {F : Type 0} (o : Floats F) where
  -- How many of the first hits are within the radius.
  unfoldable pub prefix_within : F → List (Hit F) → ℕ
  prefix_within radius [] = 0
  prefix_within radius (h ∷ hs) =
      let rest = prefix_within radius hs in if o.le h.distance radius then suc rest else 0

  unfoldable pub first : ℕ → List (Hit F) → List (Hit F)
  first zero hs = []
  first (suc n) [] = []
  first (suc n) (h ∷ hs) = h ∷ first n hs

  module _ {Ix H V : Type 0} (faiss : HnswLibrary Ix H V F) where
    -- IndexHnswRangeSearch, with the vectors of results before and after. `fuel` is for each level.
    module _ (fuel : ℕ) where
      -- The branch without a limit.
      unfoldable pub unlimited_search :
          Ix
          → ℕ
          → List F
          → F
          → ℕ
          → FaissHnswSearchParams
          → Option (ℕ → Option Bool)
          → Outcome (Results F)
      unlimited_search ix entry x radius limit params sel = do
        check (not (faiss.inner_product ix)) (message "inner product is not supported now")
        let qdis = faiss.distance ix x
        let start : Nearest F = record { node = entry; distance = qdis entry }
        nearest ← upper_levels o fuel qdis (faiss.neighbors ix) (faiss.max_level ix) start
        let heap =
            faiss.push_candidate nearest.node nearest.distance
              (faiss.new_candidates (max_ef params.ef_search limit))
        results ←
            range_search_from_candidates o faiss sel radius qdis params.ef_search
              (λ v. faiss.neighbors ix v 0) heap
        let out = fill results []
        ok (record { ids = map (λ h. h.id) out; distances = map (λ h. h.distance) out })

      unfoldable pub limited_search :
          Ix
          → List F
          → F
          → ℕ
          → FaissHnswSearchParams
          → Option (ℕ → Option Bool)
          → Outcome (Results F)
      limited_search ix x radius limit params sel = do
        hits ← faiss.search params sel x (max_ef params.ef_search limit) ix
        let n = prefix_within radius hits
        let out = first (if ltb n limit then n else limit) hits
        ok (record { ids = map (λ h. h.id) out; distances = map (λ h. h.distance) out })

      unfoldable pub index_hnsw_range_search :
          Ix
          → List F
          → F
          → ℕ
          → FaissHnswSearchParams
          → Option (ℕ → Option Bool)
          → Results F
          → Outcome (Results F)
      index_hnsw_range_search ix x radius limit params sel before = elim (faiss.entry_point ix) [
        | none ↦ ok before
        | some entry ↦
            if is_positive limit
            then limited_search ix x radius limit params sel
            else unlimited_search ix entry x radius limit params sel
      ]

    -- The selector of a search: the filter, through the map of ids.
    abbrev pub selector : FaissHnswAnnSearcher Ix F → Option (ℕ → Bool) → Option (ℕ → Option Bool)
    selector s none = none
    selector s (some id_filter) = some (is_member id_filter s.id_map)

    -- The query vector, transformed if there is a transform.
    abbrev pub transformed : FaissHnswAnnSearcher Ix F → List F → List F
    transformed s x = elim s.transform [ none ↦ x | some apply_chain ↦ apply_chain x ]

    -- What both searches do with the labels and the distances in the end.
    abbrev pub finish : FaissHnswAnnSearcher Ix F → Results F → Outcome (Results F)
    finish s results = do
      ids ← translate s.id_map results.ids
      let distances =
          if s.common_params.metric_type == metric_cosine_similarity
          then l2_distance_to_cosine_similarity o results.distances
          else results.distances
      ok (record { ids = ids; distances = distances })

    unfoldable pub ann_search :
        FaissHnswAnnSearcher Ix F → PrimitiveSeqView F → ℕ → Option (ℕ → Bool) → Outcome (Results F)
    ann_search s query_vector k id_filter = catch_faiss (do
      ix ← checked_index faiss_hnsw s.index_ref query_vector
      hits ←
          faiss.search s.search_params (selector s id_filter) (transformed s query_vector.values) k
            s.hnsw
      finish s (record { ids = map (λ h. h.id) hits; distances = map (λ h. h.distance) hits }))

    unfoldable pub ann_search_ids :
        FaissHnswAnnSearcher Ix F → PrimitiveSeqView F → ℕ → Option (ℕ → Bool) → Outcome (List ℕ)
    ann_search_ids s query_vector k id_filter = do
      results ← ann_search s query_vector k id_filter
      ok results.ids

    -- The vectors of the caller are `before` and hold the results afterwards.
    unfoldable pub range_search :
        ℕ
        → FaissHnswAnnSearcher Ix F
        → PrimitiveSeqView F
        → F
        → ℕ
        → ResultOrder
        → Option (ℕ → Bool)
        → Results F
        → Outcome (Results F)
    range_search fuel s query_vector range limit result_order id_filter before = catch_faiss (do
      ix ← checked_index faiss_hnsw s.index_ref query_vector
      radius ← radius_of o s.common_params.metric_type result_order range
      results ←
          index_hnsw_range_search fuel s.hnsw (transformed s query_vector.values) radius limit
            s.search_params (selector s id_filter) before
      finish s results)

-- `OnSearchParamItemChange`: a value of another type and an unknown key are passed over.
module _ {J F : Type 0} (lib : JsonLibrary J F) where
  unfoldable pub change_item : String → J → FaissHnswSearchParams → Outcome FaissHnswSearchParams
  change_item key value p =
      let ef = (do x ← lib.get_int value; ok (record p { ef_search = x })) in
      let relative = (do x ← lib.get_bool value; ok (record p { check_relative_distance = x })) in
      if str_eq key "efSearch"
      then (if lib.is_number_integer value then catch_json ef else ok p)
      else if str_eq key "check_relative_distance"
      then (if lib.is_boolean value then catch_json relative else ok p)
      else ok p

  unfoldable change_items :
      List (String × J) → FaissHnswSearchParams → Outcome FaissHnswSearchParams
  change_items [] p = ok p
  change_items ((key, value) ∷ items) p = do p' ← change_item key value p; change_items items p'

  unfoldable pub on_search_params_change : J → FaissHnswSearchParams → Outcome FaissHnswSearchParams
  unfolding change_items
  on_search_params_change value p = change_items (lib.items value) p
