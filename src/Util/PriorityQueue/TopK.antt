-- ===== src/Util/PriorityQueue/TopK.antt =====
-- What remains in a bounded queue is the k best, in order.
use mathlib.Core.List.{append_assoc, append-nil}
use tenann.Prelude.{
  ℕ, suc, ◌+◌, ◌≤◌, ◌≡◌, refl, sym, ap, ◌∙◌, subst, Bool, true, false, not, ◌&&◌, ◌||◌, List, [],
  ◌∷◌, ◌++◌, ltb, to_nat, if◌then◌else◌, arith, length, Bool-cases, inl, inr,
}
use tenann.Util.PriorityQueue.{push, pop_to, collect, fill}

-- A comparison as the library wants it: a strict weak order.
pub record IsOrder {A : Type 0} (less : A → A → Bool) : Type 0 where
  pub asymmetric : (x y : A) → (less x y && less y x) ≡ false
  pub between : (x y z : A) → (not (less x z) || (less x y || less y z)) ≡ true

abbrev pub count_if : {A : Type 0} → (A → Bool) → List A → ℕ
count_if p [] = 0
count_if p (x ∷ xs) = to_nat (p x) + count_if p xs

abbrev pub reverse : {A : Type 0} → List A → List A
reverse [] = []
reverse (x ∷ xs) = reverse xs ++ x ∷ []

abbrev pub All : {A : Type 0} → (A → Type 0) → List A → Type 0
All P [] = Unit {0}
All P (x ∷ xs) = P x × All P xs

module _ {A : Type 0} where
  fill-reverse : (heap written : List A) → fill heap written ≡ reverse heap ++ written
  unfolding fill
  fill-reverse [] written = refl
  fill-reverse (x ∷ heap) written =
      fill-reverse heap (x ∷ written) ∙ sym (append_assoc (reverse heap) (x ∷ []) written)

  pub fill-reverse_nil : (heap : List A) → fill heap [] ≡ reverse heap
  fill-reverse_nil heap = fill-reverse heap [] ∙ append-nil (reverse heap)

  pop_to-over : (k : ℕ) (x : A) (xs : List A) → k ≤ length xs → pop_to k (x ∷ xs) ≡ pop_to k xs
  unfolding pop_to
  pop_to-over k x xs over = ground (arith, over)

  pub pop_to-within : (k : ℕ) (xs : List A) → length xs ≤ k → pop_to k xs ≡ xs
  unfolding pop_to
  pop_to-within k [] h = refl
  pop_to-within k (x ∷ xs) h = ground (arith, h)

  -- The front part that is popped.
  pop_to-split :
      (k : ℕ) (xs : List A)
      → (worse : List A) × (xs ≡ worse ++ pop_to k xs)
        × (length (pop_to k xs) ≡ (if ltb k (length xs) then k else length xs))
  unfolding pop_to
  pop_to-split k [] = ([], refl, ground arith)
  pop_to-split k (x ∷ xs) =
      let (worse, split, len) = pop_to-split k xs in
      elim (Bool-cases (ltb k (length (x ∷ xs)))) [
        | inl over ↦ (x ∷ worse, ground (arith, over, split), ground (arith, over, len))
        | inr within ↦ ([], ground (arith, within), ground (arith, within))
      ]

  pub length-pop_to : (k : ℕ) (xs : List A) → length (pop_to k xs) ≤ k
  length-pop_to k xs = let (worse, split, len) = pop_to-split k xs in ground (arith, len)

module _ {A : Type 0} (less : A → A → Bool) where
  -- From the worst to the best.
  abbrev pub Sorted : List A → Type 0
  Sorted [] = Unit {0}
  Sorted (x ∷ []) = Unit {0}
  Sorted (x ∷ y ∷ ys) = (less x y ≡ false) × Sorted (y ∷ ys)

  -- `best` are the k best of `xs`, or all if there are fewer, from the worst on: with the `worse` ones
  -- they are all of them, in order.
  pub record IsTopK (xs : List A) (k : ℕ) (best : List A) : Type 0 where
    pub worse : List A
    pub ordered : Sorted (worse ++ best)
    pub all : (p : A → Bool) → count_if p (worse ++ best) ≡ count_if p xs
    pub number : length best ≡ (if ltb k (length xs) then k else length xs)

  -- A queue without bound.
  unfoldable pub push_all : List A → List A → List A
  push_all [] queue = queue
  push_all (x ∷ xs) queue = push_all xs (push less x queue)

  pub length-push : (x : A) (xs : List A) → length (push less x xs) ≡ suc (length xs)
  unfolding push
  length-push x [] = refl
  length-push x (y ∷ ys) = ground (arith, length-push x ys)

  pub count_if-push :
      (p : A → Bool) (x : A) (xs : List A)
      → count_if p (push less x xs) ≡ to_nat (p x) + count_if p xs
  unfolding push
  count_if-push p x [] = refl
  count_if-push p x (y ∷ ys) = ground (arith, count_if-push p x ys)

  pub push-All : (P : A → Type 0) (x : A) (xs : List A) → P x → All P xs → All P (push less x xs)
  unfolding push
  push-All P x [] h hs = (h, tt)
  push-All P x (y ∷ ys) h (hy, hs) = ground (arith, h, hy, hs, push-All P x ys h hs)

  count_if-push_all :
      (p : A → Bool) (xs queue : List A)
      → count_if p (push_all xs queue) ≡ count_if p xs + count_if p queue
  unfolding push_all
  count_if-push_all p [] queue = omega arith
  count_if-push_all p (x ∷ xs) queue =
      omega (arith, count_if-push_all p xs (push less x queue), count_if-push p x queue)

  length-push_all : (xs queue : List A) → length (push_all xs queue) ≡ length xs + length queue
  unfolding push_all
  length-push_all [] queue = omega arith
  length-push_all (x ∷ xs) queue =
      omega (arith, length-push_all xs (push less x queue), length-push x queue)

  Sorted-rest : (y : A) (ys : List A) → Sorted (y ∷ ys) → Sorted ys
  Sorted-rest y [] s = tt
  Sorted-rest y (z ∷ zs) s = s.1

  module _ (order : IsOrder less) where
    pub push-Sorted : (x : A) (xs : List A) → Sorted xs → Sorted (push less x xs)
    unfolding push
    push-Sorted x [] s = tt
    push-Sorted x (y ∷ []) s = ground (arith, order.asymmetric x y)
    push-Sorted x (y ∷ z ∷ zs) (yz, s) =
        ground (arith, yz, s, order.asymmetric x y, push-Sorted x (z ∷ zs) s)

    push_all-Sorted : (xs queue : List A) → Sorted queue → Sorted (push_all xs queue)
    unfolding push_all
    push_all-Sorted [] queue s = s
    push_all-Sorted (x ∷ xs) queue s = push_all-Sorted xs _ (push-Sorted x queue s)

    -- An element that is no better than the worst goes in front.
    push_front :
        (x y : A) (ys : List A) → less x y ≡ false → Sorted (y ∷ ys) → push less x ys ≡ x ∷ ys
    unfolding push
    push_front x y [] h s = refl
    push_front x y (z ∷ zs) h (yz, s) = ground (arith, h, yz, order.between x y z)

    -- What was popped cannot come back.
    pop_to-push :
        (k : ℕ) (x : A) (xs : List A)
        → Sorted xs
        → pop_to k (push less x (pop_to k xs)) ≡ pop_to k (push less x xs)
    unfolding push
    pop_to-push k x [] s = ap (λ ys. pop_to k (push less x ys)) (pop_to-within k [] (omega arith))
    pop_to-push k x (y ∷ ys) s = elim (Bool-cases (ltb (length ys) k)) [
      | inl within ↦
          ap (λ zs. pop_to k (push less x zs)) (pop_to-within k (y ∷ ys) (ground (arith, within)))
      | inr over ↦
          let many : k ≤ length ys = ground (arith, over) in
          let drops : pop_to k (y ∷ ys) ≡ pop_to k ys = pop_to-over k y ys many in
          let again = pop_to-push k x ys (Sorted-rest y ys s) in
          elim (Bool-cases (less x y)) [
            | inl better ↦ ground (
              arith,
              drops,
              again,
              better,
              pop_to-over k y (push less x ys) (omega (arith, many, length-push x ys)),
            )
            | inr worse ↦ ground (
              arith,
              drops,
              again,
              worse,
              push_front x y ys worse s,
              pop_to-over k x (y ∷ ys) (omega (arith, many)),
              pop_to-over k x ys many,
            )
          ]
    ]

    collect-pop_to :
        (k : ℕ) (xs queue : List A)
        → Sorted queue
        → collect less k xs (pop_to k queue) ≡ pop_to k (push_all xs queue)
    unfolding collect push_all
    collect-pop_to k [] queue s = refl
    collect-pop_to k (x ∷ xs) queue s =
        rw (pop_to-push k x queue s)
          (collect-pop_to k xs (push less x queue) (push-Sorted x queue s))

    -- The bounded queue of all candidates.
    pub collect-IsTopK : (k : ℕ) (xs : List A) → IsTopK xs k (collect less k xs [])
    collect-IsTopK k xs =
        let queue = push_all xs [] in
        let (worse, split, len) = pop_to-split k queue in
        let same : collect less k xs [] ≡ pop_to k queue =
          ap (collect less k xs) (sym (pop_to-within k [] (omega arith)))
          ∙ collect-pop_to k xs [] tt in
        subst (IsTopK xs k) (sym same) (record {
          worse = worse;
          ordered = subst Sorted split (push_all-Sorted xs [] tt);
          all = λ p. ap (count_if p) (sym split) ∙ count_if-push_all p xs [] ∙ omega arith;
          number = ground (arith, len, length-push_all xs []);
        })
