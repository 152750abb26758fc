-- ===== src/Searcher/FaissHnsw/Unlimited.antt =====
-- The range search without a limit returns, with enough fuel.
use tenann.Prelude.{
  ℕ, zero, suc, ◌≤◌, ◌<◌, ◌≡◌, refl, Bool, false, Option, List, [], ◌∷◌, ◌==◌, arith, map,
}
use tenann.Common.Float.{Floats, Ranked}
use tenann.Common.Outcome.{ok}
use tenann.Index.Parameters.{FaissHnswSearchParams}
use tenann.Searcher.{Hit}
use tenann.Searcher.Hnsw.{HnswLibrary, Nearest, node_less, upper_levels}
use tenann.Searcher.Hnsw.Greedy.{greedy_update_nearest-returns}
use tenann.Searcher.Hnsw.Within.{Total, VisitedLaws, IsFound, range_search_from_candidates-within}
use tenann.Searcher.FaissHnsw.{max_ef, unlimited_search}
use tenann.Util.PriorityQueue.TopK.{Sorted, All, count_if, reverse, fill-reverse_nil}

module _ {F : Type 0} (o : Floats F) (ranked : Ranked o) (qdis : ℕ → F) where
  upper_levels-returns :
      (fuel : ℕ) (neighbors : ℕ → ℕ → List (Option ℕ)) (level : ℕ) (best : Nearest F)
      → best.distance ≡ qdis best.node
      → ranked.rank best.distance < fuel
      → (end : Nearest F) × (upper_levels o fuel qdis neighbors level best ≡ ok end)
        × (end.distance ≡ qdis end.node)
        × (ranked.rank end.distance ≤ ranked.rank best.distance)
  unfolding upper_levels
  upper_levels-returns fuel neighbors zero best own enough = (best, refl, own, omega arith)
  upper_levels-returns fuel neighbors (suc level) best own enough =
      let (next, runs, own', close, _) =
        greedy_update_nearest-returns o ranked qdis fuel (λ v. neighbors v (suc level)) best own
          enough in
      let (end, runs', own'', closer) =
        upper_levels-returns fuel neighbors level next own' (omega (arith, close, enough)) in
      (end, ground (arith, runs, runs'), own'', omega (arith, closer, close))

-- The documented behaviour of the heap of candidates: it holds the first that is pushed.
abbrev pub HoldsFirst : {Ix H V F : Type 0} → HnswLibrary Ix H V F → Type 0
HoldsFirst {Ix} {H} {V} {F} faiss =
    (n v : ℕ) (d : F)
    → faiss.candidates (faiss.push_candidate v d (faiss.new_candidates n))
      ≡ record { id = v; distance = d } ∷ []

-- With more fuel than the place of the distance of the entry point among the floats, the search of an
-- index that is not for inner products returns, for a selector that can read its ids. What it returns
-- are nodes with their distances, within the radius and taken by the selector, each once, the nearest
-- first.
pub unlimited_search-within :
    {Ix H V F : Type 0} (o : Floats F) (ranked : Ranked o) (faiss : HnswLibrary Ix H V F) (fuel : ℕ)
    (ix : Ix) (entry : ℕ) (x : List F) (radius : F) (limit : ℕ) (params : FaissHnswSearchParams)
    (sel : Option (ℕ → Option Bool))
    → VisitedLaws faiss
    → HoldsFirst faiss
    → Total sel
    → faiss.inner_product ix ≡ false
    → ranked.rank (faiss.distance ix x entry) < fuel
    → (found : List (Hit F)) × (unlimited_search o faiss fuel ix entry x radius limit params sel
        ≡ ok (record {
          ids = map (λ h. h.id) (reverse found);
          distances = map (λ h. h.distance) (reverse found);
        }))
      × All (IsFound o sel radius (faiss.distance ix x)) found
      × ((u : ℕ) → count_if (λ h. h.id == u) found ≤ 1)
      × Sorted (node_less o) found
unfolding unlimited_search
unlimited_search-within o ranked faiss fuel ix entry x radius limit params sel laws holds total l2
      enough =
    let qdis = faiss.distance ix x in
    let (nearest, descends, own, close) =
      upper_levels-returns o ranked qdis fuel (faiss.neighbors ix) (faiss.max_level ix)
        (record { node = entry; distance = qdis entry }) refl enough in
    let heap =
      faiss.push_candidate nearest.node nearest.distance
        (faiss.new_candidates (max_ef params.ef_search limit)) in
    let starts = holds (max_ef params.ef_search limit) nearest.node nearest.distance in
    let (found, walks, all, once, sorted) =
      range_search_from_candidates-within o ranked faiss laws sel radius qdis total params.ef_search
        (λ v. faiss.neighbors ix v 0) heap nearest.node (ground (arith, starts, own)) in
    (found, ground (arith, l2, descends, walks, fill-reverse_nil found), all, once, sorted)
