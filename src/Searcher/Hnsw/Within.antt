-- ===== src/Searcher/Hnsw/Within.antt =====
-- What the walk on the lowest level finds.
use tenann.Prelude.{
  ℕ, zero, suc, ◌≤◌, ◌≡◌, refl, Bool, true, false, ◌&&◌, ◌||◌, ◌⊎◌, Option, none, some, List, [],
  ◌∷◌, ◌==◌, to_nat, arith, Bool-cases, Option-cases, inl, inr, subst, sym,
}
use tenann.Common.Float.{Floats, Ranked}
use tenann.Common.Outcome.{ok}
use tenann.Searcher.{Hit}
use tenann.Searcher.Hnsw.{
  HnswLibrary, Walk, node_less, emplace, visit_candidates, visit_node, visit_neighbors, walk, steps,
  range_search_from_candidates,
}
use tenann.Util.PriorityQueue.{push}
use tenann.Util.PriorityQueue.TopK.{
  IsOrder, Sorted, All, count_if, push-Sorted, push-All, count_if-push,
}

-- The selector can read the id of every label.
abbrev pub Total : Option (ℕ → Option Bool) → Type 0
Total none = Unit {0}
Total (some sel) = (v : ℕ) → (taken : Bool) × (sel v ≡ some taken)

abbrev pub Takes : Option (ℕ → Option Bool) → ℕ → Type 0
Takes none v = Unit {0}
Takes (some sel) v = sel v ≡ some true

-- The documented behaviour of the table of visited nodes.
pub record VisitedLaws {Ix H V F : Type 0} (faiss : HnswLibrary Ix H V F) : Type 0 where
  pub get_new : (v : ℕ) → faiss.get_visited faiss.new_visited v ≡ false
  pub get_set :
      (t : V) (v w : ℕ)
      → faiss.get_visited (faiss.set_visited t v) w ≡ (v == w || faiss.get_visited t w)

node_less-IsOrder : {F : Type 0} (o : Floats F) → Ranked o → IsOrder (node_less o)
node_less-IsOrder o ranked = record {
  asymmetric =
      λ x y. ground (arith, ranked.lt_eq x.distance y.distance, ranked.lt_eq y.distance x.distance);
  between = λ x y z. ground (
    arith,
    ranked.lt_eq x.distance y.distance,
    ranked.lt_eq y.distance x.distance,
    ranked.lt_eq x.distance z.distance,
    ranked.lt_eq z.distance x.distance,
    ranked.lt_eq y.distance z.distance,
    ranked.lt_eq z.distance y.distance,
  );
}

-- A node with its distance, that the selector takes and that is within the radius.
abbrev pub IsFound :
    {F : Type 0} → Floats F → Option (ℕ → Option Bool) → F → (ℕ → F) → Hit F → Type 0
IsFound o sel radius qdis h =
    (h.distance ≡ qdis h.id) × (o.le h.distance radius ≡ true) × Takes sel h.id

-- What `emplace` does, on a selector that can read the id.
emplace-cases :
    {F : Type 0} (o : Floats F) (sel : Option (ℕ → Option Bool)) (radius : F) (qdis : ℕ → F) (v : ℕ)
    (results : List (Hit F))
    → Total sel
    → (results' : List (Hit F)) × (emplace o sel radius v (qdis v) results ≡ ok results')
      × ((results' ≡ results)
          ⊎ ((results' ≡ push (node_less o) (record { id = v; distance = qdis v }) results)
              × IsFound o sel radius qdis (record { id = v; distance = qdis v })))
unfolding emplace
emplace-cases o none radius qdis v results total = elim (Bool-cases (o.le (qdis v) radius)) [
  | inl close ↦ (
    push (node_less o) (record { id = v; distance = qdis v }) results,
    ground (arith, close),
    inr (refl, (refl, close, tt)),
  )
  | inr far ↦ (results, ground (arith, far), inl refl)
]
emplace-cases o (some sel) radius qdis v results total =
    let (taken, read) = total v in
    elim (Bool-cases (taken && o.le (qdis v) radius)) [
      | inl joins ↦ (
        push (node_less o) (record { id = v; distance = qdis v }) results,
        ground (arith, read, joins),
        inr (refl, (refl, ground (arith, joins), ground (arith, read, joins))),
      )
      | inr stays ↦ (results, ground (arith, read, stays), inl refl)
    ]

module _ {Ix H V F : Type 0} (o : Floats F) (ranked : Ranked o) (faiss : HnswLibrary Ix H V F)
    (laws : VisitedLaws faiss) (sel : Option (ℕ → Option Bool)) (radius : F) (qdis : ℕ → F) where
  -- The results are found nodes in order, each once, and all of them are visited.
  pub record IsWalk (w : Walk V F) : Type 0 where
    pub found : All (IsFound o sel radius qdis) w.results
    pub once :
        (v : ℕ) → count_if (λ h. h.id == v) w.results ≤ to_nat (faiss.get_visited w.visited v)
    pub sorted : Sorted (node_less o) w.results

  module _ (total : Total sel) where
    -- A node that was not visited is visited, and joins the results or not.
    visit :
        (v : ℕ) (w : Walk V F)
        → IsWalk w
        → faiss.get_visited w.visited v ≡ false
        → (results' : List (Hit F)) × (emplace o sel radius v (qdis v) w.results ≡ ok results')
          × IsWalk (record { results = results'; visited = faiss.set_visited w.visited v })
    visit v w is new =
        let x : Hit F = record { id = v; distance = qdis v } in
        let (results', runs, cases) = emplace-cases o sel radius qdis v w.results total in
        elim cases [
          | inl same ↦ (
            results',
            runs,
            record {
              found = subst (All (IsFound o sel radius qdis)) (sym same) is.found;
              once = λ u. ground (arith, same, is.once u, laws.get_set w.visited v u);
              sorted = subst (Sorted (node_less o)) (sym same) is.sorted;
            },
          )
          | inr (pushed, is_found) ↦ (
            results',
            runs,
            record {
              found = subst (All (IsFound o sel radius qdis)) (sym pushed) (
                  push-All (node_less o) (IsFound o sel radius qdis) x w.results is_found is.found);
              once = λ u. ground (
                arith,
                pushed,
                is.once u,
                new,
                laws.get_set w.visited v u,
                count_if-push (node_less o) (λ h. h.id == u) x w.results,
              );
              sorted =
                  subst (Sorted (node_less o)) (sym pushed)
                    (push-Sorted (node_less o) (node_less-IsOrder o ranked) x w.results is.sorted);
            },
          )
        ]

    visit_node-IsWalk :
        (v : ℕ) (heap : H) (w : Walk V F)
        → IsWalk w
        → (next : H × Walk V F) × (visit_node o faiss sel radius qdis v heap w ≡ ok next)
          × IsWalk next.1
    unfolding visit_node
    visit_node-IsWalk v heap w is = elim (Bool-cases (faiss.get_visited w.visited v)) [
      | inl seen ↦ ((heap, w), ground (arith, seen), is)
      | inr new ↦
          let (results', runs, is') = visit v w is new in
          (
            (
              faiss.push_candidate v (qdis v) heap,
              record { results = results'; visited = faiss.set_visited w.visited v },
            ),
            ground (arith, new, runs),
            is',
          )
    ]

    visit_neighbors-IsWalk :
        (vs : List (Option ℕ)) (heap : H) (w : Walk V F)
        → IsWalk w
        → (next : H × Walk V F) × (visit_neighbors o faiss sel radius qdis vs heap w ≡ ok next)
          × IsWalk next.1
    unfolding visit_neighbors
    visit_neighbors-IsWalk [] heap w is = ((heap, w), refl, is)
    visit_neighbors-IsWalk (none ∷ vs) heap w is = ((heap, w), refl, is)
    visit_neighbors-IsWalk (some v ∷ vs) heap w is =
        let (mid, runs, is') = visit_node-IsWalk v heap w is in
        let (next, runs', is'') = visit_neighbors-IsWalk vs mid.0 mid.1 is' in
        (next, ground (arith, runs, runs'), is'')

    walk-IsWalk :
        (n : ℕ) (slots : ℕ → List (Option ℕ)) (heap : H) (w : Walk V F)
        → IsWalk w
        → (w' : Walk V F) × (walk o faiss sel radius qdis n slots heap w ≡ ok w') × IsWalk w'
    unfolding walk
    walk-IsWalk zero slots heap w is = (w, refl, is)
    walk-IsWalk (suc n) slots heap w is = elim (Option-cases (faiss.pop_min heap)) [
      | inl empty ↦ (w, ground (arith, empty), is)
      | inr ((v, rest), popped) ↦
          let (next, runs, is') = visit_neighbors-IsWalk (slots v) rest w is in
          let (w', runs', is'') = walk-IsWalk n slots next.0 next.1 is' in
          (w', ground (arith, popped, runs, runs'), is'')
    ]

    -- The walk from one node returns. Its results are nodes with their distances, within the radius and
    -- taken by the selector, each once and from the farthest on.
    pub range_search_from_candidates-within :
        (ef : ℕ) (slots : ℕ → List (Option ℕ)) (heap : H) (v : ℕ)
        → faiss.candidates heap ≡ record { id = v; distance = qdis v } ∷ []
        → (results : List (Hit F)) × (range_search_from_candidates o faiss sel radius qdis ef slots
              heap
            ≡ ok results)
          × All (IsFound o sel radius qdis) results
          × ((u : ℕ) → count_if (λ h. h.id == u) results ≤ 1)
          × Sorted (node_less o) results
    unfolding range_search_from_candidates visit_candidates
    range_search_from_candidates-within ef slots heap v starts =
        let begin : Walk V F = record { results = []; visited = faiss.new_visited } in
        let is_begin : IsWalk begin = record { found = tt; once = λ u. omega arith; sorted = tt } in
        let (results, runs, is) = visit v begin is_begin (laws.get_new v) in
        let start : Walk V F = record {
          results = results;
          visited = faiss.set_visited faiss.new_visited v;
        } in
        let (w, runs', is') = walk-IsWalk (steps ef) slots heap start is in
        (
          w.results,
          ground (arith, starts, runs, runs'),
          is'.found,
          λ u. ground (arith, is'.once u),
          is'.sorted,
        )
