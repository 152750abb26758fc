-- ===== src/Util/DistanceUtil/TopK.antt =====
-- The result of ReserveTopK is the k best, in order.
use tenann.Prelude.{
  ℕ, ◌<◌, ◌≤◌, ◌^◌, ◌≡◌, ◌≢◌, Bool, true, false, some, List, [], ◌∷◌, arith, length, map,
}
use tenann.Util.DistanceUtil.{NodeDist, narrow, less, nodes, reserve_top_k}
use tenann.Util.PriorityQueue.{push, pop_to, collect, fill}
use tenann.Util.PriorityQueue.TopK.{IsOrder, IsTopK, collect-IsTopK, fill-reverse_nil, reverse}

pub less-IsOrder : (asc : Bool) → IsOrder (less asc)
less-IsOrder true = record { asymmetric = λ x y. ground arith; between = λ x y z. ground arith }
less-IsOrder false = record { asymmetric = λ x y. ground arith; between = λ x y z. ground arith }

-- ReserveTopK of as many ids as distances returns the k best nodes, or all if there are fewer, from
-- the best to the worst; the ids are those that an int keeps.
pub reserve_top_k-IsTopK :
    (ids distances : List ℕ) (k : ℕ) (asc : Bool)
    → length ids ≡ length distances
    → (best : List NodeDist) × IsTopK (less asc) (nodes ids distances) k best
      × (reserve_top_k ids distances k asc
          ≡ some (map (λ n. n.id) (reverse best), map (λ n. n.d) (reverse best)))
unfolding reserve_top_k
reserve_top_k-IsTopK ids distances k asc e =
    let best = collect (less asc) k (nodes ids distances) [] in
    (
      best,
      collect-IsTopK (less asc) (less-IsOrder asc) k (nodes ids distances),
      ground (arith, e, fill-reverse_nil best),
    )

-- An id that does not fit an int comes back changed, with one candidate and room for it.
pub reserve_top_k-narrow :
    (id dis k : ℕ) (asc : Bool)
    → 0 < k
    → 2 ^ 31 ≤ id
    → id < 2 ^ 63
    → (id' : ℕ) × (reserve_top_k (id ∷ []) (dis ∷ []) k asc ≡ some (id' ∷ [], dis ∷ []))
      × (id' ≢ id)
unfolding reserve_top_k collect push pop_to fill
reserve_top_k-narrow id dis k asc room big small =
    (narrow id, ground (arith, room), ground (arith, big, small))
