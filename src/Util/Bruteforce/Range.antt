-- ===== src/Util/Bruteforce/Range.antt =====
-- The brute-force range search finds the best of the rows that are not null and in range.
use mathlib.Core.List.{append_assoc, append-nil}
use tenann.Prelude.{
  ℕ, Option, ◌*◌, ◌^◌, ◌<◌, ◌≡◌, refl, ap, subst, ◌∙◌, Bool, true, false, ◌&&◌, some, List, [], ◌∷◌,
  ◌++◌, ◌==◌, ltb, if◌then◌else◌, arith, length, map, Bool-cases, inl, inr,
}
use tenann.Common.TypedSeqView.{TypedSliceIterator, array, each_array, for_each}
use tenann.Common.TypedSeqView.Rows.{Row, row_values, row_ids, row_flags, Wide}
use tenann.Common.TypedSeqView.EachRow.{RowAt, fold_rows, each_array-rows}
use tenann.Util.DistanceUtil.{NodeDist, narrow, less, nodes, reserve_top_k}
use tenann.Util.DistanceUtil.TopK.{reserve_top_k-IsTopK}
use tenann.Util.PriorityQueue.TopK.{IsTopK, reverse}
use tenann.Util.Bruteforce.{
  MetricType, l2_distance, cosine_similarity, RangeFilter, is_qualified, Found, distance_computer,
  visit_row, range_search,
}

-- The order that belongs to the metric.
abbrev pub MetricOrder : MetricType → Bool → Type 0
MetricOrder l2_distance ascending = ascending ≡ true
MetricOrder cosine_similarity ascending = ascending ≡ false
MetricOrder _ ascending = ⊥

module _ {F : Type 0} (euclidean cosine : List F → List F → ℕ) (metric : MetricType) (dim : ℕ)
    (query : List F) (filter : RangeFilter) where
  abbrev pub distance : Row F → ℕ
  distance r = distance_computer euclidean cosine metric r.vector query

  abbrev pub in_range : List (Row F) → List (Row F)
  in_range [] = []
  in_range (r ∷ rs) =
      if r.flag == 0 && is_qualified filter (distance r) then r ∷ in_range rs else in_range rs

  abbrev found_rows : List (Row F) → Found → Found
  found_rows rs s = record {
    ids = s.ids ++ row_ids (in_range rs);
    distances = s.distances ++ map distance (in_range rs);
  }

  -- What one row adds.
  abbrev found_row : Row F → Found → Option Found
  found_row r s =
      if r.flag == 0 && is_qualified filter (distance r)
      then some (record { ids = s.ids ++ r.id ∷ []; distances = s.distances ++ distance r ∷ [] })
      else some s

  fold-found_rows :
      (rs : List (Row F)) (s : Found) → fold_rows found_row rs s ≡ some (found_rows rs s)
  unfolding fold_rows
  fold-found_rows [] s = ground (arith, append-nil s.ids, append-nil s.distances)
  fold-found_rows (r ∷ rs) s = elim (Bool-cases (r.flag == 0 && is_qualified filter (distance r))) [
    | inr out ↦ ground (arith, out, fold-found_rows rs s)
    | inl found ↦ ground (
      arith,
      found,
      fold-found_rows rs
          (record { ids = s.ids ++ r.id ∷ []; distances = s.distances ++ distance r ∷ [] }),
      append_assoc s.ids (r.id ∷ []) (row_ids (in_range rs)),
      append_assoc s.distances (distance r ∷ []) (map distance (in_range rs)),
    )
  ]

  module _ (rs : List (Row F)) where
    abbrev column : TypedSliceIterator F
    column = array (record { values = row_values rs; dim = dim; size = length rs })

    visit_row-found_row :
        (i : ℕ) (r : Row F) (s : Found)
        → RowAt dim (row_values rs) (row_ids rs) (row_flags rs) i r
        → visit_row euclidean cosine metric dim column
            (some (row_flags rs))
            (some (row_ids rs))
            query
            filter
            i
            (dim * i)
            dim
            s
          ≡ found_row r s
    unfolding visit_row
    visit_row-found_row i r s at = elim (Bool-cases (r.flag == 0)) [
      | inr null ↦ ground (arith, at.flag, null)
      | inl there ↦ ground (arith, at.slice, at.id, at.flag, there)
    ]

    each-in_range :
        Wide dim rs
        → (s : Found)
        → each_array
            (visit_row euclidean cosine metric dim column
              (some (row_flags rs))
              (some (row_ids rs))
              query
              filter)
            dim
            0
            (length rs)
            s
          ≡ some (found_rows rs s)
    each-in_range wide s =
        each_array-rows dim (row_values rs) (row_ids rs) (row_flags rs) _ found_row
          visit_row-found_row rs s wide refl refl refl
        ∙ fold-found_rows rs s

-- The ids of the rows fit an int.
abbrev pub Small : {F : Type 0} → List (Row F) → Type 0
Small [] = Unit {0}
Small (r ∷ rs) = (r.id < 2 ^ 31) × Small rs

-- The rows as results, with their ids.
abbrev pub results : {F : Type 0} → (Row F → ℕ) → List (Row F) → List NodeDist
results dist [] = []
results dist (r ∷ rs) = record { d = dist r; id = r.id } ∷ results dist rs

nodes-results :
    {F : Type 0} (dist : Row F → ℕ) (rs : List (Row F))
    → Small rs
    → nodes (row_ids rs) (map dist rs) ≡ results dist rs
nodes-results dist [] small = refl
nodes-results dist (r ∷ rs) (here, small) =
    let kept : narrow r.id ≡ r.id = ground (arith, here) in
    rw kept (ap (λ ns. record { d = dist r; id = r.id } ∷ ns) (nodes-results dist rs small))

module _ {F : Type 0} (euclidean cosine : List F → List F → ℕ) (metric : MetricType) (dim : ℕ)
    (query : List F) (filter : RangeFilter) where
  in_range-Small :
      (rs : List (Row F)) → Small rs → Small (in_range euclidean cosine metric dim query filter rs)
  in_range-Small [] small = tt
  in_range-Small (r ∷ rs) (here, small) =
      let rest = in_range-Small rs small in
      elim (Bool-cases (
        r.flag == 0 && is_qualified filter (distance euclidean cosine metric dim query filter r))) [
          | inl found ↦ rw found (here, rest)
          | inr out ↦ rw out rest
        ]

length-both :
    {F : Type 0} (f : Row F → ℕ) (rs : List (Row F)) → length (row_ids rs) ≡ length (map f rs)
length-both f [] = refl
length-both f (r ∷ rs) = omega (arith, length-both f rs)

module _ {F : Type 0} (euclidean cosine : List F → List F → ℕ) where
  -- The search is ReserveTopK of what the loop finds.
  range_search-eq :
      (metric : MetricType) (ascending : Bool) (rs : List (Row F)) (query : List F)
      (threshold limit : ℕ)
      → MetricOrder metric ascending
      → Wide (length query) rs
      → let near =
          in_range euclidean cosine metric
            (length query)
            query
            (record { threshold = threshold; ascending = ascending })
            rs in
        range_search euclidean cosine metric
          (length query)
          (array (record { values = row_values rs; dim = length query; size = length rs }))
          (some (row_flags rs))
          (some (row_ids rs))
          query
          threshold
          limit
          ascending
        ≡ reserve_top_k
            (row_ids near)
            (map (λ r. distance_computer euclidean cosine metric r.vector query) near)
            (if ltb 0 limit && ltb limit (2 ^ 63) then limit else length (row_ids near))
            ascending
  unfolding range_search for_each
  range_search-eq metric ascending rs query threshold limit order wide =
      let filter : RangeFilter = record { threshold = threshold; ascending = ascending } in
      let loop =
        each-in_range euclidean cosine metric (length query) query filter rs wide
          (record { ids = []; distances = [] }) in
      ground (arith, order, loop)

  -- A range search over a column of whole vectors with null flags and ids below 2 ^ 31 returns, for the
  -- order that belongs to the metric, the ids and distances of the best rows of those that are not null
  -- and whose distance is in range, from the best on: as many as the limit says, or all if it is not
  -- positive.
  pub range_search-IsTopK :
      (metric : MetricType) (ascending : Bool) (rs : List (Row F)) (query : List F)
      (threshold limit : ℕ)
      → MetricOrder metric ascending
      → Wide (length query) rs
      → Small rs
      → let near =
          in_range euclidean cosine metric
            (length query)
            query
            (record { threshold = threshold; ascending = ascending })
            rs in
        (best : List NodeDist) × IsTopK
          (less ascending)
          (results (λ r. distance_computer euclidean cosine metric r.vector query) near)
          (if ltb 0 limit && ltb limit (2 ^ 63) then limit else length (row_ids near))
          best
        × (range_search euclidean cosine metric
              (length query)
              (array (record { values = row_values rs; dim = length query; size = length rs }))
              (some (row_flags rs))
              (some (row_ids rs))
              query
              threshold
              limit
              ascending
            ≡ some (map (λ n. n.id) (reverse best), map (λ n. n.d) (reverse best)))
  range_search-IsTopK metric ascending rs query threshold limit order wide small =
      let near =
        in_range euclidean cosine metric (length query) query
          (record { threshold = threshold; ascending = ascending }) rs in
      let dist = λ (r : Row F). distance_computer euclidean cosine metric r.vector query in
      let k = if ltb 0 limit && ltb limit (2 ^ 63) then limit else length (row_ids near) in
      let (best, top, runs) =
        reserve_top_k-IsTopK (row_ids near) (map dist near) k ascending (length-both dist near) in
      let same = nodes-results dist near (
        in_range-Small euclidean cosine metric (length query) query
          (record { threshold = threshold; ascending = ascending }) rs small) in
      (
        best,
        subst (λ xs. IsTopK (less ascending) xs k best) same top,
        range_search-eq metric ascending rs query threshold limit order wide ∙ runs,
      )
