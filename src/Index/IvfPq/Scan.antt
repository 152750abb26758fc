-- ===== src/Index/IvfPq/Scan.antt =====
-- The range search of IndexIvfPq of index/internal/index_ivfpq.cc over the lists that a query probes.
use tenann.Prelude.{
  ℕ, suc, Bool, true, false, ◌&&◌, ◌||◌, Option, none, some, List, [], ◌∷◌, ◌++◌, ◌==◌, ltb,
  if◌then◌else◌, length, get_elem?, map,
}
use tenann.Common.Float.{Floats}
use tenann.Common.Outcome.{Outcome, ok, fault, faiss_exception, check, ◌>>=◌, ◌>>◌}
use tenann.Index.IvfPq.{IndexIvfPq, IvfPqLibrary, or_fault}
use tenann.Searcher.{Hit}

-- IndexIvfPqSearchParameters.
pub record IndexIvfPqSearchParameters (F : Type 0) : Type 0 where
  pub nprobe : ℕ
  pub sel : Option (ℕ → Bool)
  pub range_search_confidence : F

abbrev pub min : ℕ → ℕ → ℕ
min a b = if ltb a b then a else b

-- METRIC_INNER_PRODUCT and METRIC_L2 of faiss.
abbrev pub metric_inner_product : ℕ
metric_inner_product = 0

abbrev pub metric_l2 : ℕ
metric_l2 = 1

abbrev pub takes : Option (ℕ → Bool) → ℕ → Bool
takes none id = true
takes (some sel) id = sel id

module _ {D F : Type 0} (o : Floats F) (faiss : IvfPqLibrary D F) where
  -- The distances of the sub-quantizers, in the order of the loop.
  unfoldable pub distance_from : F → List (List F) → List ℕ → Outcome F
  distance_from result [] code = ok result
  distance_from result (tab ∷ tabs) [] = fault
  distance_from result (tab ∷ tabs) (c ∷ code) = do
    t ← or_fault (get_elem? tab c)
    distance_from (faiss.add result t) tabs code

  abbrev pub distance_single_code : List (List F) → List ℕ → Outcome F
  distance_single_code tabs code = distance_from (o.of_int 0) tabs code

  -- The lower bound of the distance, where the confidence is used.
  abbrev pub lower_bound : F → F → F → F
  lower_bound dis reconstruction_error confidence =
      faiss.abs (o.sub (faiss.sqrt dis) (o.mul reconstruction_error confidence))

  -- C::cmp(radius, dis): CMin for inner products, and CMax for l2 distances.
  abbrev pub cmp : ℕ → F → F → Bool
  cmp metric radius dis =
      if metric == metric_inner_product then o.lt radius dis else o.lt dis radius

  module _ (ix : IndexIvfPq D F) (sel : Option (ℕ → Bool)) (confidence radius : F) (key : ℕ) where
    -- The test of RangeSearchResults::add for entry `j`, with the confidence or without.
    unfoldable pub qualifies : Bool → ℕ → F → Outcome Bool
    qualifies true j dis = do
      errors ← or_fault (get_elem? ix.reconstruction_errors key)
      reconstruction_error ← or_fault (get_elem? errors j)
      ok (o.le (lower_bound dis reconstruction_error confidence) radius)
    qualifies false j dis = ok (cmp ix.metric_type radius dis)

    -- One code, unless the selector skips it.
    unfoldable pub scan_code : Bool → F → List (List F) → ℕ → ℕ → List ℕ → Outcome (List (Hit F))
    scan_code use_confidence dis0 tabs j id code =
        let scan = (do
          rest ← distance_single_code tabs code
          let dis = faiss.add dis0 rest
          qualified ← qualifies use_confidence j dis
          ok (if qualified then record { id = id; distance = dis } ∷ [] else [])) in
        if takes sel id then scan else ok []

    unfoldable pub scan_list_with_table :
        Bool → F → List (List F) → ℕ → List (ℕ × List ℕ) → Outcome (List (Hit F))
    scan_list_with_table use_confidence dis0 tabs j [] = ok []
    scan_list_with_table use_confidence dis0 tabs j ((id, code) ∷ entries) = do
      hits ← scan_code use_confidence dis0 tabs j id code
      more ← scan_list_with_table use_confidence dis0 tabs (suc j) entries
      ok (hits ++ more)

  abbrev pub uses_confidence : F → Bool
  uses_confidence confidence = o.lt (o.of_int 0) confidence && o.le confidence (o.of_int 1)

  -- With the confidence the square root of the radius is compared.
  unfoldable pub scan_codes_range :
      IndexIvfPq D F
      → Option (ℕ → Bool)
      → F
      → F
      → ℕ
      → F
      → List (List F)
      → List (ℕ × List ℕ)
      → Outcome (List (Hit F))
  scan_codes_range ix sel confidence radius key dis0 tabs entries = do
    check (ix.polysemous_ht == 0) faiss_exception
    let uses = uses_confidence confidence
    let r = if uses then faiss.sqrt radius else radius
    scan_list_with_table ix sel confidence r key uses dis0 tabs 0 entries

  module _ (ix : IndexIvfPq D F) (sel : Option (ℕ → Bool)) (confidence radius : F)
      (x : List F) where
    -- `scan_list_func`, for one of the lists that are probed.
    unfoldable pub scan_list : F → Option ℕ → Outcome (List (Hit F))
    scan_list coarse_dis none = ok []
    scan_list coarse_dis (some key) = do
      check (ltb key ix.nlist) faiss_exception
      entries ← or_fault (get_elem? ix.invlists key)
      let (dis0, tabs) = faiss.list_tables x key coarse_dis
      let scan = scan_codes_range ix sel confidence radius key dis0 tabs entries
      if length entries == 0 then ok [] else scan

    unfoldable pub scan_lists : List (F × Option ℕ) → Outcome (List (Hit F))
    scan_lists [] = ok []
    scan_lists ((coarse_dis, key) ∷ probes) = do
      hits ← scan_list coarse_dis key
      more ← scan_lists probes
      ok (hits ++ more)

  -- The results of each query, with the lists that are probed for it.
  unfoldable pub search_each :
      IndexIvfPq D F
      → Option (ℕ → Bool)
      → F
      → F
      → List (List F)
      → List (List (F × Option ℕ))
      → Outcome (List (List (Hit F)))
  search_each ix sel confidence radius [] keys = ok []
  search_each ix sel confidence radius (x ∷ xs) [] = fault
  search_each ix sel confidence radius (x ∷ xs) (probes ∷ keys) = do
    hits ← scan_lists ix sel confidence radius x probes
    more ← search_each ix sel confidence radius xs keys
    ok (hits ∷ more)

  abbrev pub given_nprobe : Option (IndexIvfPqSearchParameters F) → IndexIvfPq D F → ℕ
  given_nprobe none ix = ix.nprobe
  given_nprobe (some params) ix = params.nprobe

  abbrev pub given_confidence : Option (IndexIvfPqSearchParameters F) → IndexIvfPq D F → F
  given_confidence none ix = ix.range_search_confidence
  given_confidence (some params) ix = params.range_search_confidence

  abbrev pub given_sel : Option (IndexIvfPqSearchParameters F) → Option (ℕ → Bool)
  given_sel none = none
  given_sel (some params) = params.sel

  -- There is a scanner for two metrics.
  unfoldable pub custom_range_search_preassigned :
      Option (IndexIvfPqSearchParameters F)
      → F
      → List (List F)
      → List (List (F × Option ℕ))
      → IndexIvfPq D F
      → Outcome (List (List (Hit F)))
  custom_range_search_preassigned params radius xs keys ix = do
    let nprobe = min (given_nprobe params ix) ix.nlist
    check (ltb 0 nprobe) faiss_exception
    check (ix.metric_type == metric_inner_product || ix.metric_type == metric_l2) faiss_exception
    search_each ix (given_sel params) (given_confidence params ix) radius xs keys

  unfoldable pub range_search :
      Option (IndexIvfPqSearchParameters F)
      → F
      → List (List F)
      → IndexIvfPq D F
      → Outcome (List (List (Hit F)))
  range_search params radius xs ix =
      let nprobe = min (given_nprobe params ix) ix.nlist in
      let keys = map (λ x. faiss.search x nprobe) xs in
      custom_range_search_preassigned params radius xs keys ix
