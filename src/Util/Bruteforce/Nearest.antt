-- ===== src/Util/Bruteforce/Nearest.antt =====
-- The brute-force search finds the k best of the rows for each query.
use tenann.Prelude.{ℕ, suc, ◌≡◌, Option, some, List, [], ◌∷◌, ◌++◌, ◌==◌, if◌then◌else◌, length}
use tenann.Common.TypedSeqView.{TypedSliceIterator, array}
use tenann.Common.TypedSeqView.Rows.{Row, row_values, row_ids, row_flags}
use tenann.Util.Bruteforce.{MetricType, l2_distance, cosine_similarity, Found, distance_computer}
use tenann.Util.Bruteforce.AnnSearch.{min_first, block_ids, block_distances, visit_base}
use tenann.Util.DistanceUtil.{NodeDist, less}
use tenann.Util.PriorityQueue.{push, pop_to, collect}
use tenann.Util.PriorityQueue.TopK.{IsTopK}

-- The metrics that are searched for.
abbrev pub IsSearched : MetricType → Type 0
IsSearched l2_distance = Unit {0}
IsSearched cosine_similarity = Unit {0}
IsSearched _ = ⊥

-- The results of the queries, one block after the other.
abbrev pub all_blocks : {A : Type 0} → (List NodeDist → List A) → List (List NodeDist) → List A
all_blocks block [] = []
all_blocks block (best ∷ bests) = block best ++ all_blocks block bests

module _ {F : Type 0} (euclidean cosine : List F → List F → ℕ) (metric : MetricType) (dim : ℕ)
    (rs qs : List (Row F)) (k : ℕ) where
  -- The rows that are not null, with their distances to a query.
  abbrev pub candidates : Row F → List (Row F) → List NodeDist
  candidates q [] = []
  candidates q (r ∷ rows) =
      let rest = candidates q rows in
      if r.flag == 0
      then record { d = distance_computer euclidean cosine metric r.vector q.vector; id = r.id }
        ∷ rest
      else rest

  abbrev rows_col : TypedSliceIterator F
  rows_col = array (record { values = row_values rs; dim = dim; size = length rs })

  abbrev query_col : TypedSliceIterator F
  query_col = array (record { values = row_values qs; dim = dim; size = length qs })

  abbrev search_base : ℕ → ℕ → ℕ → ℕ → ℕ → List NodeDist → Option (List NodeDist)
  search_base =
      visit_base euclidean cosine metric dim rows_col query_col (some (row_flags rs))
        (some (row_ids rs)) k

  -- What one row does to the queue.
  abbrev step : Row F → Row F → List NodeDist → Option (List NodeDist)
  step q r heap =
      let n : NodeDist = record {
        d = distance_computer euclidean cosine metric r.vector q.vector;
        id = r.id;
      } in
      if r.flag == 0
      then some (pop_to k (push (less (min_first metric)) n heap))
      else some (pop_to k heap)

  -- The number of rows that are not null.
  abbrev pub present : List (Row F) → ℕ
  present [] = 0
  present (r ∷ rows) = if r.flag == 0 then suc (present rows) else present rows

  abbrev best : Row F → List NodeDist
  best q = collect (less (min_first metric)) k (candidates q rs) []

  -- One query adds its block.
  abbrev answer : Row F → Found → Option Found
  answer q found = some (record {
    ids = found.ids ++ block_ids k (best q);
    distances = found.distances ++ block_distances k (best q);
  })

  -- The lists are the best for the queries.
  abbrev pub AreTopK : List (Row F) → List (List NodeDist) → Type 0
  AreTopK [] bests = bests ≡ []
  AreTopK (q ∷ rows) [] = ⊥
  AreTopK (q ∷ rows) (b ∷ bests) =
      IsTopK (less (min_first metric)) (candidates q rs) k b × AreTopK rows bests
