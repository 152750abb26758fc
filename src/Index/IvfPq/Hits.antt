-- ===== src/Index/IvfPq/Hits.antt =====
-- The hits of a range search over rows, and the tables that it reads.
use tenann.Prelude.{
  ℕ, zero, suc, ◌<◌, ◌≡◌, refl, Bool, true, false, ◌&&◌, Option, none, some, List, [], ◌∷◌, ◌++◌,
  arith, if◌then◌else◌, length, get_elem?, get_or,
}
use tenann.Common.Float.{Floats}
use tenann.Common.Outcome.{ok}
use tenann.Index.IvfPq.{IvfPqLibrary}
use tenann.Index.IvfPq.Rows.{Row}
use tenann.Index.IvfPq.Scan.{takes, distance_from, lower_bound, cmp, uses_confidence}
use tenann.Searcher.{Hit}

-- The code has an index into each table.
abbrev pub InTables : {F : Type 0} → List (List F) → List ℕ → Type 0
InTables [] code = Unit {0}
InTables (tab ∷ tabs) [] = false ≡ true
InTables (tab ∷ tabs) (c ∷ code) = (c < length tab) × InTables tabs code

abbrev pub AllInTables : {F : Type 0} → List (List F) → List (Row F) → Type 0
AllInTables tabs [] = Unit {0}
AllInTables tabs (r ∷ rs) = InTables tabs r.code × AllInTables tabs rs

get_elem?-get_or :
    {A : Type 0} (xs : List A) (i : ℕ) (a : A)
    → i < length xs
    → get_elem? xs i ≡ some (get_or xs i a)
get_elem?-get_or [] i a h = absurd (omega (arith, h))
get_elem?-get_or (x ∷ xs) zero a h = refl
get_elem?-get_or (x ∷ xs) (suc i) a h = get_elem?-get_or xs i a (omega (arith, h))

module _ {D F : Type 0} (o : Floats F) (faiss : IvfPqLibrary D F) where
  -- The sum of the entries of the tables.
  abbrev pub sum_from : F → List (List F) → List ℕ → F
  sum_from result [] code = result
  sum_from result (tab ∷ tabs) [] = result
  sum_from result (tab ∷ tabs) (c ∷ code) =
      sum_from (faiss.add result (get_or tab c (o.of_int 0))) tabs code

  pub distance_from-eq :
      (result : F) (tabs : List (List F)) (code : List ℕ)
      → InTables tabs code
      → distance_from o faiss result tabs code ≡ ok (sum_from result tabs code)
  unfolding distance_from
  distance_from-eq result [] code h = refl
  distance_from-eq result (tab ∷ tabs) [] h = absurd (ground (arith, h))
  distance_from-eq result (tab ∷ tabs) (c ∷ code) (small, h) = rw (
    get_elem?-get_or tab c (o.of_int 0) small,
    distance_from-eq (faiss.add result (get_or tab c (o.of_int 0))) tabs code h,
  )

  -- The distance of a row, and whether it is in the range: by its own lower bound against the square
  -- root of the radius where the confidence is used, and by the distance alone otherwise.
  abbrev pub distance_of : F × List (List F) → Row F → F
  distance_of (dis0, tabs) r = faiss.add dis0 (sum_from (o.of_int 0) tabs r.code)

  abbrev pub in_range : ℕ → F → F → F → Row F → Bool
  in_range metric confidence radius dis r =
      if uses_confidence o faiss confidence
      then o.le (lower_bound o faiss dis r.error confidence) (faiss.sqrt radius)
      else cmp o faiss metric radius dis

  abbrev pub hits_of :
      ℕ → Option (ℕ → Bool) → F → F → F × List (List F) → List (Row F) → List (Hit F)
  hits_of metric sel confidence radius tables [] = []
  hits_of metric sel confidence radius tables (r ∷ rs) =
      let dis = distance_of tables r in
      let rest = hits_of metric sel confidence radius tables rs in
      if takes sel r.id && in_range metric confidence radius dis r
      then record { id = r.id; distance = dis } ∷ rest
      else rest

  -- The hits of the lists that are probed, one after the other.
  abbrev pub found_in :
      ℕ
      → (ℕ → List (Row F))
      → Option (ℕ → Bool)
      → F
      → F
      → List F
      → List (F × Option ℕ)
      → List (Hit F)
  found_in metric rows sel confidence radius x [] = []
  found_in metric rows sel confidence radius x ((coarse_dis, none) ∷ probes) =
      found_in metric rows sel confidence radius x probes
  found_in metric rows sel confidence radius x ((coarse_dis, some l) ∷ probes) =
      hits_of metric sel confidence radius (faiss.list_tables x l coarse_dis) (rows l)
      ++ found_in metric rows sel confidence radius x probes

  -- The lists that are probed exist, and their codes have indexes into the tables.
  abbrev pub Reads : ℕ → (ℕ → List (Row F)) → List F → List (F × Option ℕ) → Type 0
  Reads nlist rows x [] = Unit {0}
  Reads nlist rows x ((coarse_dis, none) ∷ probes) = Reads nlist rows x probes
  Reads nlist rows x ((coarse_dis, some l) ∷ probes) =
      (l < nlist)
      × AllInTables (faiss.list_tables x l coarse_dis).1 (rows l)
      × Reads nlist rows x probes

  -- The same for each query.
  abbrev pub ReadsEach : ℕ → (ℕ → List (Row F)) → ℕ → List (List F) → Type 0
  ReadsEach nlist rows nprobe [] = Unit {0}
  ReadsEach nlist rows nprobe (x ∷ xs) =
      Reads nlist rows x (faiss.search x nprobe) × ReadsEach nlist rows nprobe xs
