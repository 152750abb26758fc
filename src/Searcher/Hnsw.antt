-- ===== src/Searcher/Hnsw.antt =====
-- The range search over the graph of an HNSW index, of searcher/faiss_hnsw_ann_searcher.cc: the greedy
-- descent and the walk on the lowest level. faiss is a parameter: the graph, its top-k search, the bounded
-- heap of candidates and the table of visited nodes.
pub mod Greedy
pub mod Within
use tenann.Prelude.{
  ℕ, zero, suc, ◌+◌, ◌^◌, Bool, true, false, ◌&&◌, Option, none, some, List, [], ◌∷◌, ◌==◌, leb,
  ltb, if◌then◌else◌,
}
use tenann.Common.Float.{Floats}
use tenann.Common.Outcome.{Outcome, ok, fault, ◌>>=◌}
use tenann.Index.Parameters.{FaissHnswSearchParams}
use tenann.Searcher.{Hit}
use tenann.Util.PriorityQueue.{push}

-- `Ix` is an IndexHNSW, `H` a MinimaxHeap and `V` a VisitedTable. A slot of `neighbors` without a node
-- has a negative number, and no entry point is -1. `distance` is the distance computer of the storage
-- after `set_query`. A result of `is_member` without a value is a read out of bounds.
pub record HnswLibrary (Ix H V F : Type 0) : Type 0 where
  pub entry_point : Ix → Option ℕ
  pub max_level : Ix → ℕ
  pub neighbors : Ix → ℕ → ℕ → List (Option ℕ)
  pub inner_product : Ix → Bool
  pub distance : Ix → List F → ℕ → F
  pub search :
      FaissHnswSearchParams → Option (ℕ → Option Bool) → List F → ℕ → Ix → Outcome (List (Hit F))
  pub new_candidates : ℕ → H
  pub push_candidate : ℕ → F → H → H
  pub candidates : H → List (Hit F)
  pub pop_min : H → Option (ℕ × H)
  pub new_visited : V
  pub get_visited : V → ℕ → Bool
  pub set_visited : V → ℕ → V

-- The node that is nearest so far, and its distance.
pub record Nearest (F : Type 0) : Type 0 where
  pub node : ℕ
  pub distance : F

-- The results and the visited nodes.
pub record Walk (V F : Type 0) : Type 0 where
  pub results : List (Hit F)
  pub visited : V

-- The rounds of the walk: one more than efSearch, and one at least.
abbrev pub steps : ℕ → ℕ
steps ef = if leb (2 ^ 31) ef then 1 else ef + 1

module _ {F : Type 0} (o : Floats F) where
  -- std::pair<float, int>.
  abbrev pub node_less : Hit F → Hit F → Bool
  node_less a b =
      if o.lt a.distance b.distance
      then true
      else if o.lt b.distance a.distance
      then false
      else ltb a.id b.id

  -- The loop over the slots of one node.
  unfoldable pub nearer : (ℕ → F) → List (Option ℕ) → Nearest F → Nearest F
  nearer qdis [] best = best
  nearer qdis (none ∷ vs) best = best
  nearer qdis (some v ∷ vs) best =
      nearer qdis vs
        (if o.lt (qdis v) best.distance then record { node = v; distance = qdis v } else best)

  -- `for (;;)`, on fuel.
  unfoldable pub greedy_update_nearest :
      ℕ → (ℕ → F) → (ℕ → List (Option ℕ)) → Nearest F → Outcome (Nearest F)
  greedy_update_nearest zero qdis slots best = fault
  greedy_update_nearest (suc fuel) qdis slots best =
      let next = nearer qdis (slots best.node) best in
      let rest = greedy_update_nearest fuel qdis slots next in
      if next.node == best.node then ok next else rest

  -- From `level` down to 1.
  unfoldable pub upper_levels :
      ℕ → (ℕ → F) → (ℕ → ℕ → List (Option ℕ)) → ℕ → Nearest F → Outcome (Nearest F)
  upper_levels fuel qdis neighbors zero best = ok best
  upper_levels fuel qdis neighbors (suc level) best = do
    next ← greedy_update_nearest fuel qdis (λ v. neighbors v (suc level)) best
    upper_levels fuel qdis neighbors level next

  -- A node that the selector takes and that is within the radius joins the results.
  unfoldable pub emplace :
      Option (ℕ → Option Bool) → F → ℕ → F → List (Hit F) → Outcome (List (Hit F))
  emplace none radius v d results =
      if o.le d radius
      then ok (push node_less (record { id = v; distance = d }) results)
      else ok results
  emplace (some sel) radius v d results = elim (sel v) [
    | none ↦ fault
    | some taken ↦
        if taken && o.le d radius
        then ok (push node_less (record { id = v; distance = d }) results)
        else ok results
  ]

  -- The first loop, over the candidates that the search starts with.
  module _ {Ix H V : Type 0} (faiss : HnswLibrary Ix H V F) where
    module _ (sel : Option (ℕ → Option Bool)) (radius : F) where
      unfoldable pub visit_candidates : List (Hit F) → Walk V F → Outcome (Walk V F)
      visit_candidates [] w = ok w
      visit_candidates (c ∷ cs) w = do
        results ← emplace sel radius c.id c.distance w.results
        visit_candidates cs
            (record { results = results; visited = faiss.set_visited w.visited c.id })

      module _ (qdis : ℕ → F) where
        -- One neighbour: it is passed over if it was visited.
        unfoldable pub visit_node : ℕ → H → Walk V F → Outcome (H × Walk V F)
        visit_node v heap w =
            let visit = (do
              results ← emplace sel radius v (qdis v) w.results
              ok (
                faiss.push_candidate v (qdis v) heap,
                record { results = results; visited = faiss.set_visited w.visited v },
              )) in
            if faiss.get_visited w.visited v then ok (heap, w) else visit

        -- The loop over the neighbours of one node.
        unfoldable pub visit_neighbors : List (Option ℕ) → H → Walk V F → Outcome (H × Walk V F)
        visit_neighbors [] heap w = ok (heap, w)
        visit_neighbors (none ∷ vs) heap w = ok (heap, w)
        visit_neighbors (some v ∷ vs) heap w =
            visit_node v heap w >>= λ next. visit_neighbors vs next.0 next.1

        -- The loop over the candidates, with the rounds that are left.
        unfoldable pub walk : ℕ → (ℕ → List (Option ℕ)) → H → Walk V F → Outcome (Walk V F)
        walk zero slots heap w = ok w
        walk (suc n) slots heap w = elim (faiss.pop_min heap) [
          | none ↦ ok w
          | some (v, rest) ↦ do next ← visit_neighbors (slots v) rest w; walk n slots next.0 next.1
        ]

        -- HnswRangeSearchFromCandidates, on level 0.
        unfoldable pub range_search_from_candidates :
            ℕ → (ℕ → List (Option ℕ)) → H → Outcome (List (Hit F))
        range_search_from_candidates ef slots heap = do
          start ←
              visit_candidates (faiss.candidates heap)
                (record { results = []; visited = faiss.new_visited })
          w ← walk (steps ef) slots heap start
          ok w.results
