-- ===== src/Util/Bruteforce/AnnSearch.antt =====
-- BruteForceTopKSearch of util/bruteforce.h. `k` is from 0 on and fits an int, as the loops over the results
-- take it. The results are appended query by query, `k` for each.
use tenann.Prelude.{
  ℕ, ◌-◌, ◌^◌, Bool, true, false, not, ◌&&◌, ◌||◌, Option, some, List, [], ◌++◌, ◌==◌, leb,
  if◌then◌else◌, check, ◌>>◌, ◌>>=◌, length, replicate, map,
}
use tenann.Common.TypedSeqView.{TypedSliceIterator, values, range, for_each}
use tenann.Util.Bruteforce.{
  MetricType, l2_distance, is_l2, is_cosine, is_given, is_null, row_id, Found, distance_computer,
}
use tenann.Util.DistanceUtil.{NodeDist, less}
use tenann.Util.PriorityQueue.{push, pop_to, fill}

-- The comparator of the metric, as for ReserveTopK: MinFirst or MaxFirst.
abbrev pub min_first : MetricType → Bool
min_first l2_distance = true
min_first _ = false

-- The id -1 as its pattern.
abbrev pub no_id : ℕ
no_id = 2 ^ 64 - 1

-- The results of one query: those of the queue, from the best on, and an entry for each that is missing.
abbrev pub block_ids : ℕ → List NodeDist → List ℕ
block_ids k heap = map (λ n. n.id) (fill heap []) ++ replicate (k - length heap) no_id

abbrev pub block_distances : ℕ → List NodeDist → List ℕ
block_distances k heap = map (λ n. n.d) (fill heap []) ++ replicate (k - length heap) 0

module _ {F : Type 0} (euclidean cosine : List F → List F → ℕ) (metric_type : MetricType) (dim : ℕ)
    (base_col query_col : TypedSliceIterator F) (null_flags row_ids : Option (List ℕ)) (k : ℕ) where
  -- The loop over the rows, for the query at `q` with its length.
  unfoldable pub visit_base : ℕ → ℕ → ℕ → ℕ → ℕ → List NodeDist → Option (List NodeDist)
  visit_base q query_length i p len results = do
    check (len == dim)
    check (query_length == dim)
    null ← is_null null_flags i
    let pushed = (do
      v ← range p dim (values base_col)
      query ← range q dim (values query_col)
      id ← row_id row_ids i
      let d = distance_computer euclidean cosine metric_type v query
      some (push (less (min_first metric_type)) (record { d = d; id = id }) results))
    results' ← (if not null then pushed else some results)
    some (pop_to k results')

  -- The loop over the queries. A debug build checks that there are `k` results at least.
  unfoldable pub visit_query : Bool → ℕ → ℕ → ℕ → Found → Option Found
  visit_query debug i q query_length found = do
    results ← for_each (visit_base q query_length) base_col []
    check (not debug || leb k (length results))
    some (record {
      ids = found.ids ++ block_ids k results;
      distances = found.distances ++ block_distances k results;
    })

  unfoldable pub brute_force_top_k_search : Bool → Option Found
  brute_force_top_k_search debug = do
    check (is_l2 metric_type || is_cosine metric_type)
    check (not (is_given null_flags && not (is_given row_ids)))
    for_each (visit_query debug) query_col (record { ids = []; distances = [] })
