-- ===== src/Util/Bruteforce.antt =====
-- BruteForceRangeSearch of util/bruteforce.h. The distance computers are parameters, floating-point
-- formulas on two vectors; a distance is a number, as in ReserveTopK.
pub mod Range
pub mod AnnSearch
pub mod Nearest
use tenann.Prelude.{
  ℕ, ◌^◌, ◌%◌, Bool, true, false, not, ◌&&◌, ◌||◌, Option, none, some, List, [], ◌∷◌, ◌++◌, ◌==◌,
  ltb, leb, if◌then◌else◌, check, ◌>>◌, ◌>>=◌, get_elem?, length,
}
use tenann.Common.TypedSeqView.{TypedSliceIterator, values, size, range, for_each}
use tenann.Util.DistanceUtil.{reserve_top_k}

pub data MetricType : Type 0 where
  l2_distance cosine_similarity inner_product cosine_distance : MetricType

abbrev pub is_l2 : MetricType → Bool
is_l2 l2_distance = true
is_l2 _ = false

abbrev pub is_cosine : MetricType → Bool
is_cosine cosine_similarity = true
is_cosine _ = false

abbrev pub is_given : Option (List ℕ) → Bool
is_given none = false
is_given (some xs) = true

-- RangeFilter.
pub record RangeFilter : Type 0 where
  pub threshold : ℕ
  pub ascending : Bool

abbrev pub is_qualified : RangeFilter → ℕ → Bool
is_qualified f d = if f.ascending then leb d f.threshold else leb f.threshold d

-- The vectors of the results so far.
pub record Found : Type 0 where
  pub ids : List ℕ
  pub distances : List ℕ

abbrev pub is_null : Option (List ℕ) → ℕ → Option Bool
is_null none i = some false
is_null (some null_flags) i = do flag ← get_elem? null_flags i; some (not (flag == 0))

abbrev pub row_id : Option (List ℕ) → ℕ → Option ℕ
row_id none i = some i
row_id (some row_ids) i = get_elem? row_ids i

module _ {F : Type 0} where
  module _ (euclidean cosine : List F → List F → ℕ) where
    abbrev pub distance_computer : MetricType → List F → List F → ℕ
    distance_computer cosine_similarity = cosine
    distance_computer _ = euclidean

    module _ (metric_type : MetricType) (dim : ℕ) (base_col : TypedSliceIterator F)
        (null_flags row_ids : Option (List ℕ)) (query : List F) (filter : RangeFilter) where
      -- The lambda of the loop over the rows.
      unfoldable pub visit_row : ℕ → ℕ → ℕ → Found → Option Found
      visit_row i p len found = do
        check (len == dim)
        null ← is_null null_flags i
        let visit = (do
          v ← range p dim (values base_col)
          let d = distance_computer metric_type v query
          let push = (do
            id ← row_id row_ids i
            some (record { ids = found.ids ++ id ∷ []; distances = found.distances ++ d ∷ [] }))
          if is_qualified filter d then push else some found)
        if not null then visit else some found

    -- `limit` is an int64, as its pattern; the results start empty. The columns are of floats.
    unfoldable pub range_search :
        MetricType
        → ℕ
        → TypedSliceIterator F
        → Option (List ℕ)
        → Option (List ℕ)
        → List F
        → ℕ
        → ℕ
        → Bool
        → Option (List ℕ × List ℕ)
    unfolding visit_row
    range_search metric_type dim base_col null_flags row_ids query threshold limit ascending = do
      check (not (is_given null_flags && not (is_given row_ids)))
      check (is_l2 metric_type || is_cosine metric_type)
      check (not (is_l2 metric_type && not ascending))
      check (not (is_cosine metric_type && ascending))
      check (length query == dim)
      found ←
          for_each
            (visit_row metric_type dim base_col null_flags row_ids query
              (record { threshold = threshold; ascending = ascending }))
            base_col (record { ids = []; distances = [] })
      let k = if ltb 0 limit && ltb limit (2 ^ 63) then limit else length found.ids
      reserve_top_k found.ids found.distances k ascending
