-- ===== src/Index/IvfPq/Rows.antt =====
-- Adding to an IVF-PQ index: what its lists and their reconstruction errors hold.
use tenann.Prelude.{
  ℕ, zero, suc, ◌<◌, ◌≡◌, refl, ap, ◌∙◌, Bool, true, false, Option, none, some, List, [], ◌∷◌, ◌++◌,
  ◌==◌, arith, if◌then◌else◌, length, length-append, get_elem?, set, Bool-cases, inl, inr,
  length-set, map,
}
use tenann.Common.Float.{Floats}
use tenann.Common.Outcome.{ok}
use tenann.Index.IvfPq.{IndexIvfPq, IvfPqLibrary, reconstruction_error, add_one}

-- What is stored of a vector.
pub record Row (F : Type 0) : Type 0 where
  pub id : ℕ
  pub code : List ℕ
  pub error : F

-- The rows of each list; a row that is put is the last of its list.
abbrev pub put : {F : Type 0} → ℕ → Row F → (ℕ → List (Row F)) → ℕ → List (Row F)
put l r rows k = if k == l then rows k ++ r ∷ [] else rows k

abbrev pub entry_of : {F : Type 0} → Row F → ℕ × List ℕ
entry_of r = (r.id, r.code)

-- The lists of the index are those rows, with the error of a row at the place of its entry.
pub record Holds {D F : Type 0} (ix : IndexIvfPq D F) (rows : ℕ → List (Row F)) : Type 0 where
  pub entries : (l : ℕ) → l < ix.nlist → get_elem? ix.invlists l ≡ some (map entry_of (rows l))
  pub errors :
      (l : ℕ)
      → l < ix.nlist
      → get_elem? ix.reconstruction_errors l ≡ some (map (λ r. r.error) (rows l))
  pub lists : length ix.invlists ≡ ix.nlist
  pub error_lists : length ix.reconstruction_errors ≡ ix.nlist

module _ {A : Type 0} where
  get_elem?-set_same :
      (xs : List A) (i : ℕ) (v : A) → i < length xs → get_elem? (set xs i v) i ≡ some v
  get_elem?-set_same [] i v h = absurd (omega (arith, h))
  get_elem?-set_same (x ∷ xs) zero v h = refl
  get_elem?-set_same (x ∷ xs) (suc i) v h = get_elem?-set_same xs i v (omega (arith, h))

  get_elem?-set_other :
      (xs : List A) (i k : ℕ) (v : A) → (k == i) ≡ false → get_elem? (set xs i v) k ≡ get_elem? xs k
  get_elem?-set_other [] i k v h = refl
  get_elem?-set_other (x ∷ xs) zero zero v h = absurd (ground (arith, h))
  get_elem?-set_other (x ∷ xs) zero (suc k) v h = refl
  get_elem?-set_other (x ∷ xs) (suc i) zero v h = refl
  get_elem?-set_other (x ∷ xs) (suc i) (suc k) v h =
      get_elem?-set_other xs i k v (ground (arith, h))

map-snoc :
    {A B : Type 0} (f : A → B) (xs : List A) (x : A) → map f (xs ++ x ∷ []) ≡ map f xs ++ f x ∷ []
map-snoc f [] x = refl
map-snoc f (y ∷ xs) x = ap (λ r. f y ∷ r) (map-snoc f xs x)

pub length-map : {A B : Type 0} (f : A → B) (xs : List A) → length (map f xs) ≡ length xs
length-map f [] = refl
length-map f (x ∷ xs) = ap suc (length-map f xs)

module _ {D F : Type 0} (o : Floats F) (faiss : IvfPqLibrary D F) where
  -- What is stored of a vector that is encoded.
  abbrev pub row_of : ℕ → List F → Row F
  row_of id xi = record {
    id = id;
    code = faiss.compute_code xi;
    error = reconstruction_error o faiss xi;
  }

  -- The rows after the vectors, one after the other; one without a list is not stored.
  unfoldable pub extend :
      List ℕ → List (List F) → List (Option ℕ) → (ℕ → List (Row F)) → ℕ → List (Row F)
  extend ids [] keys rows = rows
  extend [] (xi ∷ xs) keys rows = rows
  extend (id ∷ ids) (xi ∷ xs) [] rows = rows
  extend (id ∷ ids) (xi ∷ xs) (none ∷ keys) rows = extend ids xs keys rows
  extend (id ∷ ids) (xi ∷ xs) (some l ∷ keys) rows = extend ids xs keys (put l (row_of id xi) rows)

  -- A direct map that takes every vector.
  pub record TakesAll : Type 0 where
    pub can_add : (m : D) (b : Bool) → faiss.check_can_add m b ≡ true
    pub adds :
        (m : D) (id : ℕ) (at : Option (ℕ × ℕ)) → (m' : D) × (faiss.add_single_id m id at ≡ ok m')

  -- What no addition changes.
  abbrev pub Same : IndexIvfPq D F → IndexIvfPq D F → Type 0
  Same ix ix' =
      (ix'.nlist ≡ ix.nlist)
      × (ix'.ntotal ≡ ix.ntotal)
      × (ix'.is_trained ≡ ix.is_trained)
      × (ix'.by_residual ≡ ix.by_residual)
      × (ix'.metric_type ≡ ix.metric_type)
      × (ix'.polysemous_ht ≡ ix.polysemous_ht)
      × (ix'.d ≡ ix.d)

  module _ (direct : TakesAll) where
    -- The index after a vector is stored in list `l`.
    abbrev stored : ℕ → List F → ℕ → IndexIvfPq D F → (ℕ → List (Row F)) → D → IndexIvfPq D F
    stored id xi l ix rows m =
        let entries' = map entry_of (rows l) ++ entry_of (row_of id xi) ∷ [] in
        let errors' = map (λ r. r.error) (rows l) ++ reconstruction_error o faiss xi ∷ [] in
        record ix {
          invlists = set ix.invlists l entries';
          direct_map = m;
          reconstruction_errors = set ix.reconstruction_errors l errors';
        }

    stored-Holds :
        (id : ℕ) (xi : List F) (l : ℕ) (ix : IndexIvfPq D F) (rows : ℕ → List (Row F)) (m : D)
        → Holds ix rows
        → l < ix.nlist
        → Holds (stored id xi l ix rows m) (put l (row_of id xi) rows)
    stored-Holds id xi l ix rows m h small =
        let r = row_of id xi in
        let entries' = map entry_of (rows l) ++ entry_of r ∷ [] in
        let errors' = map (λ r. r.error) (rows l) ++ r.error ∷ [] in
        record {
          entries = λ k k_small. elim (Bool-cases (k == l)) [
            | inl same ↦ ground (
              arith,
              same,
              map-snoc entry_of (rows k) r,
              get_elem?-set_same ix.invlists l entries' (ground (arith, small, h.lists)),
            )
            | inr other ↦ ground (
              arith,
              other,
              get_elem?-set_other ix.invlists l k entries' other,
              h.entries k k_small,
            )
          ];
          errors = λ k k_small. elim (Bool-cases (k == l)) [
            | inl same ↦ ground (
              arith,
              same,
              map-snoc (λ r. r.error) (rows k) r,
              get_elem?-set_same ix.reconstruction_errors l errors'
                  (ground (arith, small, h.error_lists)),
            )
            | inr other ↦ ground (
              arith,
              other,
              get_elem?-set_other ix.reconstruction_errors l k errors' other,
              h.errors k k_small,
            )
          ];
          lists = length-set ix.invlists l entries' ∙ h.lists;
          error_lists = length-set ix.reconstruction_errors l errors' ∙ h.error_lists;
        }

    pub add_one-Holds :
        (id : ℕ) (xi : List F) (l : ℕ) (ix : IndexIvfPq D F) (rows : ℕ → List (Row F))
        → Holds ix rows
        → l < ix.nlist
        → (ix' : IndexIvfPq D F) × (add_one o faiss id xi (some l) ix ≡ ok ix')
          × Holds ix' (put l (row_of id xi) rows)
          × Same ix ix'
    unfolding add_one
    add_one-Holds id xi l ix rows h small =
        let errors = map (λ r. r.error) (rows l) in
        let entries = map entry_of (rows l) in
        let (m, adds) = direct.adds ix.direct_map id (some (l, length entries)) in
        (
          stored id xi l ix rows m,
          ground (
            arith,
            h.entries l small,
            h.errors l small,
            length-append errors (reconstruction_error o faiss xi ∷ []),
            length-map entry_of (rows l),
            length-map (λ r. r.error) (rows l),
            adds,
          ),
          stored-Holds id xi l ix rows m h small,
          (refl, refl, refl, refl, refl, refl, refl),
        )
