-- ===== src/Searcher/Hnsw/Greedy.antt =====
-- The greedy descent ends in a node that no neighbour is nearer than.
use tenann.Prelude.{
  ℕ, zero, suc, ◌≤◌, ◌<◌, ◌≡◌, refl, Bool, true, false, ◌⊎◌, inl, inr, Option, none, some, List, [],
  ◌∷◌, ◌==◌, arith, if◌then◌else◌, Bool-cases, subst, sym,
}
use tenann.Common.Float.{Floats, Ranked}
use tenann.Common.Outcome.{ok}
use tenann.Searcher.Hnsw.{Nearest, nearer, greedy_update_nearest}

pick : {A : Type 0} {b : Bool} → b ≡ true → (x y : A) → x ≡ (if b then x else y)
pick h x y = ground (arith, h)

pass : {A : Type 0} {b : Bool} → b ≡ false → (x y : A) → y ≡ (if b then x else y)
pass h x y = ground (arith, h)

module _ {F : Type 0} (o : Floats F) (ranked : Ranked o) (qdis : ℕ → F) where
  -- No node of the slots, up to the first empty one, is nearer than `d`.
  abbrev pub NoneNearer : List (Option ℕ) → F → Type 0
  NoneNearer [] d = Unit {0}
  NoneNearer (none ∷ vs) d = Unit {0}
  NoneNearer (some v ∷ vs) d = (o.lt (qdis v) d ≡ false) × NoneNearer vs d

  -- Where `best` came from `old`: it has its own distance, and is the same node or strictly nearer.
  abbrev pub Improves : Nearest F → Nearest F → Type 0
  Improves old best =
      (best.distance ≡ qdis best.node)
      × (ranked.rank best.distance ≤ ranked.rank old.distance)
      × ((best.node ≡ old.node) ⊎ (ranked.rank best.distance < ranked.rank old.distance))

  -- The same of the result for a list, in any of the two cases of its first slot.
  abbrev After : ℕ → List (Option ℕ) → Nearest F → Nearest F → Type 0
  After v vs old chosen =
      let best = nearer o qdis vs chosen in
      Improves old best × (o.lt (qdis v) best.distance ≡ false) × NoneNearer vs best.distance

  nearer-Improves :
      (vs : List (Option ℕ)) (best : Nearest F)
      → best.distance ≡ qdis best.node
      → Improves best (nearer o qdis vs best) × NoneNearer vs (nearer o qdis vs best).distance
  unfolding nearer
  nearer-Improves [] best own = ((own, omega arith, inl refl), tt)
  nearer-Improves (none ∷ vs) best own = ((own, omega arith, inl refl), tt)
  nearer-Improves (some v ∷ vs) best own = elim (Bool-cases (o.lt (qdis v) best.distance)) [
    | inl better ↦
        let next : Nearest F = record { node = v; distance = qdis v } in
        let ((own', close, moved), rest) = nearer-Improves vs next refl in
        let strictly : ranked.rank (nearer o qdis vs next).distance < ranked.rank best.distance =
          ground (arith, close, better, ranked.lt_eq (qdis v) best.distance) in
        let (improves, not_nearer, others) = subst (After v vs best) (pick better next best) (
          (own', omega (arith, strictly), inr strictly),
          ground (arith, close, ranked.lt_eq (qdis v) (nearer o qdis vs next).distance),
          rest,
        ) in
        (improves, (not_nearer, others))
    | inr worse ↦
        let ((own', close, moved), rest) = nearer-Improves vs best own in
        let next : Nearest F = record { node = v; distance = qdis v } in
        let (improves, not_nearer, others) = subst (After v vs best) (pass worse next best) (
          (own', close, moved),
          ground (
            arith,
            worse,
            close,
            ranked.lt_eq (qdis v) best.distance,
            ranked.lt_eq (qdis v) (nearer o qdis vs best).distance,
          ),
          rest,
        ) in
        (improves, (not_nearer, others))
  ]

  -- With more fuel than the place of the first distance among the floats, the descent on a level
  -- returns. It ends in a node with its distance, which is no farther than the start, and no
  -- neighbour on the level, up to its first empty slot, is nearer.
  pub greedy_update_nearest-returns :
      (fuel : ℕ) (slots : ℕ → List (Option ℕ)) (best : Nearest F)
      → best.distance ≡ qdis best.node
      → ranked.rank best.distance < fuel
      → (end : Nearest F) × (greedy_update_nearest o fuel qdis slots best ≡ ok end)
        × (end.distance ≡ qdis end.node)
        × (ranked.rank end.distance ≤ ranked.rank best.distance)
        × NoneNearer (slots end.node) end.distance
  unfolding greedy_update_nearest
  greedy_update_nearest-returns zero slots best own enough = absurd (omega (arith, enough))
  greedy_update_nearest-returns (suc fuel) slots best own enough =
      let next = nearer o qdis (slots best.node) best in
      let ((own', close, moved), none_nearer) = nearer-Improves (slots best.node) best own in
      elim (Bool-cases (next.node == best.node)) [
        | inl stays ↦
            let same : next.node ≡ best.node = ground (arith, stays) in
            (
              next,
              ground (arith, stays),
              own',
              close,
              subst (λ v. NoneNearer (slots v) next.distance) (sym same) none_nearer,
            )
        | inr moves ↦
            let strictly : ranked.rank next.distance < ranked.rank best.distance =
              ground (arith, moves, moved) in
            let (end, runs, own'', closer, local) =
              greedy_update_nearest-returns fuel slots next own'
                (omega (arith, strictly, enough)) in
            (end, ground (arith, moves, runs), own'', omega (arith, closer, close), local)
      ]
