-- ===== src/Util/Tests.antt =====
-- ReserveTopK at concrete inputs.
use tenann.Prelude.{◌+◌, ◌-◌, ◌*◌, ℕ, ◌^◌, ◌≡◌, ◌≢◌, refl, true, some, List, [], ◌∷◌, map, arith}
use tenann.Common.TypedSeqView.{array}
use tenann.Common.TypedSeqView.Rows.{Row, row_values, row_ids, row_flags}
use tenann.Util.Bruteforce.{l2_distance, range_search}
use tenann.Util.Bruteforce.Range.{range_search-IsTopK}
use tenann.Util.DistanceUtil.{NodeDist, less, nodes, reserve_top_k}
use tenann.Util.PriorityQueue.TopK.{IsTopK, reverse}
use tenann.Util.DistanceUtil.TopK.{reserve_top_k-IsTopK, reserve_top_k-narrow}

reserve_top_k-IsTopK_example :
    (best : List NodeDist) × IsTopK (less true) (nodes (1 ∷ 2 ∷ 3 ∷ []) (30 ∷ 10 ∷ 20 ∷ [])) 2 best
    × (reserve_top_k (1 ∷ 2 ∷ 3 ∷ []) (30 ∷ 10 ∷ 20 ∷ []) 2 true
        ≡ some (map (λ n. n.id) (reverse best), map (λ n. n.d) (reverse best)))
reserve_top_k-IsTopK_example = reserve_top_k-IsTopK (1 ∷ 2 ∷ 3 ∷ []) (30 ∷ 10 ∷ 20 ∷ []) 2 true refl

reserve_top_k-narrow_example :
    (id' : ℕ) × (reserve_top_k (2 ^ 32 ∷ []) (7 ∷ []) 1 true ≡ some (id' ∷ [], 7 ∷ []))
    × (id' ≢ 2 ^ 32)
reserve_top_k-narrow_example =
    reserve_top_k-narrow (2 ^ 32) 7 1 true (omega arith) (omega arith) (omega arith)

-- Distances of vectors of numbers.
abbrev squares : List ℕ → List ℕ → ℕ
squares (a ∷ xs) (b ∷ ys) = (a - b + (b - a)) * (a - b + (b - a)) + squares xs ys
squares _ _ = 0

abbrev products : List ℕ → List ℕ → ℕ
products (a ∷ xs) (b ∷ ys) = a * b + products xs ys
products _ _ = 0

abbrev rows : List (Row ℕ)
rows =
    record { vector = 1 ∷ 2 ∷ []; id = 20; flag = 0 }
    ∷ record { vector = 3 ∷ 4 ∷ []; id = 21; flag = 1 }
    ∷ record { vector = 2 ∷ 2 ∷ []; id = 22; flag = 0 }
    ∷ []

range_search-IsTopK_example :
    (best : List NodeDist) × IsTopK
      (less true)
      (record { d = 2; id = 20 } ∷ record { d = 1; id = 22 } ∷ [])
      1
      best
    × (range_search squares products l2_distance 2
          (array (record { values = row_values rows; dim = 2; size = 3 }))
          (some (row_flags rows))
          (some (row_ids rows))
          (2 ∷ 3 ∷ [])
          5
          1
          true
        ≡ some (map (λ n. n.id) (reverse best), map (λ n. n.d) (reverse best)))
range_search-IsTopK_example =
    range_search-IsTopK squares products l2_distance true rows (2 ∷ 3 ∷ []) 5 1 refl
      (refl, (refl, (refl, tt))) (omega arith, (omega arith, (omega arith, tt)))

abbrev queries : List (Row ℕ)
queries =
    record { vector = 2 ∷ 3 ∷ []; id = 0; flag = 0 }
    ∷ record { vector = 0 ∷ 0 ∷ []; id = 0; flag = 0 }
    ∷ []
