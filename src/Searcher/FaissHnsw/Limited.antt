-- ===== src/Searcher/FaissHnsw/Limited.antt =====
-- The range search with a limit keeps what is within the radius.
use tenann.Prelude.{
  ℕ, zero, suc, ◌≤◌, ◌≡◌, refl, Bool, true, false, Option, List, [], ◌∷◌, ◌++◌, arith, map, ltb,
  length, if◌then◌else◌, Bool-cases, inl, inr,
}
use tenann.Common.Float.{Floats, Ranked}
use tenann.Common.Outcome.{ok}
use tenann.Index.Parameters.{FaissHnswSearchParams}
use tenann.Searcher.{Hit}
use tenann.Searcher.Hnsw.{HnswLibrary}
use tenann.Searcher.FaissHnsw.{max_ef, prefix_within, first, limited_search}
use tenann.Util.PriorityQueue.TopK.{count_if}

module _ {F : Type 0} (o : Floats F) (radius : F) where
  abbrev pub within : Hit F → Bool
  within h = o.le h.distance radius

  abbrev pub Ascending : List (Hit F) → Type 0
  Ascending [] = Unit {0}
  Ascending (x ∷ []) = Unit {0}
  Ascending (x ∷ y ∷ ys) = (o.le x.distance y.distance ≡ true) × Ascending (y ∷ ys)

  first-split :
      (n : ℕ) (hs : List (Hit F))
      → n ≤ prefix_within o radius hs
      → (rest : List (Hit F)) × (hs ≡ first o n hs ++ rest)
        × (length (first o n hs) ≡ n)
        × (count_if within (first o n hs) ≡ n)
  unfolding prefix_within first
  first-split zero hs few = (hs, refl, omega arith, omega arith)
  first-split (suc n) [] few = absurd (omega (arith, few))
  first-split (suc n) (h ∷ hs) few = elim (Bool-cases (o.le h.distance radius)) [
    | inl close ↦
        let (rest, split, len, all) = first-split n hs (ground (arith, few, close)) in
        (rest, ground (arith, split), omega (arith, len), ground (arith, close, all))
    | inr far ↦ absurd (ground (arith, few, far))
  ]

  module _ (ranked : Ranked o) where
    none_within :
        (h : Hit F) (hs : List (Hit F))
        → within h ≡ false
        → Ascending (h ∷ hs)
        → count_if within hs ≡ 0
    none_within h [] far up = refl
    none_within h (k ∷ hs) far (hk, up) =
        let far' : within k ≡ false = ground (
          arith,
          far,
          hk,
          ranked.le_eq h.distance radius,
          ranked.le_eq h.distance k.distance,
          ranked.le_eq k.distance radius,
        ) in
        ground (arith, far', none_within k hs far' up)

    Ascending-rest : (h : Hit F) (hs : List (Hit F)) → Ascending (h ∷ hs) → Ascending hs
    Ascending-rest h [] up = tt
    Ascending-rest h (k ∷ hs) up = up.1

    prefix_within-count :
        (hs : List (Hit F)) → Ascending hs → prefix_within o radius hs ≡ count_if within hs
    unfolding prefix_within
    prefix_within-count [] up = refl
    prefix_within-count (h ∷ hs) up = elim (Bool-cases (o.le h.distance radius)) [
      | inl close ↦ ground (arith, close, prefix_within-count hs (Ascending-rest h hs up))
      | inr far ↦ ground (arith, far, none_within h hs far up)
    ]

    -- Of hits that come in ascending order, the search with a limit returns the first ones: as many as
    -- are within the radius, or the limit if that is less, and all of them are within the radius.
    pub limited_search-within :
        {Ix H V : Type 0} (faiss : HnswLibrary Ix H V F) (fuel : ℕ) (ix : Ix) (x : List F)
        (limit : ℕ) (params : FaissHnswSearchParams) (sel : Option (ℕ → Option Bool))
        (hits : List (Hit F))
        → faiss.search params sel x (max_ef params.ef_search limit) ix ≡ ok hits
        → Ascending hits
        → let n = count_if within hits in
          (out rest : List (Hit F)) × (limited_search o faiss fuel ix x radius limit params sel
            ≡ ok (record { ids = map (λ h. h.id) out; distances = map (λ h. h.distance) out }))
          × (hits ≡ out ++ rest)
          × (length out ≡ (if ltb n limit then n else limit))
          × (count_if within out ≡ length out)
    unfolding limited_search
    limited_search-within faiss fuel ix x limit params sel hits searched up =
        let counts = prefix_within-count hits up in
        let n = prefix_within o radius hits in
        let kept = if ltb n limit then n else limit in
        let (rest, split, len, all) = first-split kept hits (ground arith) in
        (
          first o kept hits,
          rest,
          ground (arith, searched),
          split,
          ground (arith, len, counts),
          omega (arith, all, len),
        )
