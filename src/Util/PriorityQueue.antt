-- ===== src/Util/PriorityQueue.antt =====
-- std::priority_queue with its comparison, as the code bounds and empties it: util/distance_util.h and
-- the searchers. The queue is the list of its elements from `top` on. Among elements that are equal
-- the library is free; here a new element goes before those that are equal.
pub mod TopK
use tenann.Prelude.{ℕ, Bool, List, [], ◌∷◌, ltb, if◌then◌else◌, length}

-- `while (heap.size() > k) heap.pop()`; a negative `k` is a large size.
unfoldable pub pop_to : {A : Type 0} → ℕ → List A → List A
pop_to k [] = []
pop_to k (x ∷ xs) = let rest = pop_to k xs in if ltb k (length (x ∷ xs)) then rest else x ∷ xs

module _ {A : Type 0} (less : A → A → Bool) where
  unfoldable pub push : A → List A → List A
  push x [] = x ∷ []
  push x (y ∷ ys) = let rest = push x ys in if less x y then y ∷ rest else x ∷ y ∷ ys

  -- The loop over the candidates.
  unfoldable pub collect : ℕ → List A → List A → List A
  collect k [] heap = heap
  collect k (x ∷ xs) heap = collect k xs (pop_to k (push x heap))

module _ {A : Type 0} where
  -- The tops are written from the last index down.
  unfoldable pub fill : List A → List A → List A
  fill [] written = written
  fill (top ∷ heap) written = fill heap (top ∷ written)
