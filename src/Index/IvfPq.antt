-- ===== src/Index/IvfPq.antt =====
-- IndexIvfPq of index/internal/index_ivfpq.h and index_ivfpq.cc: adding with reconstruction errors, and the
-- range search that uses them, for the queries of one thread. The quantizers, the direct map and the
-- tables of distances are parameters. What a failed call leaves behind is not modelled.
pub mod Rows
pub mod Slices
pub mod Block
pub mod Adding
pub mod Hits
pub mod Found
pub mod Scan
use tenann.Prelude.{
  ℕ, zero, suc, ◌+◌, Bool, true, false, not, ◌&&◌, Option, none, some, List, [], ◌∷◌, ◌++◌, ◌==◌,
  ltb, if◌then◌else◌, length, drop, get_elem?, set, replicate, map,
}
use tenann.Common.Float.{Floats}
use tenann.Common.Outcome.{Outcome, ok, fault, faiss_exception, check, ◌>>=◌, ◌>>◌}
use tenann.Index.BlockCache.{take}

-- `invlists` has the ids and codes of each list. A code is the indexes that its decoder gives.
pub record IndexIvfPq (D F : Type 0) : Type 0 where
  pub d : ℕ
  pub ntotal : ℕ
  pub nlist : ℕ
  pub is_trained : Bool
  pub by_residual : Bool
  pub metric_type : ℕ
  pub nprobe : ℕ
  pub polysemous_ht : ℕ
  pub invlists : List (List (ℕ × List ℕ))
  pub direct_map : D
  pub reconstruction_errors : List (List F)
  pub range_search_confidence : F

-- `assign` is the nearest list, or none for -1, and `search` the nearest ones. `list_tables` is what
-- `init_query` and `init_list` prepare: the initial distance, and a table for each sub-quantizer.
pub record IvfPqLibrary (D F : Type 0) : Type 0 where
  pub assign : List F → Option ℕ
  pub search : List F → ℕ → List (F × Option ℕ)
  pub compute_residual : List F → ℕ → List F
  pub compute_code : List F → List ℕ
  pub decode : List ℕ → List F
  pub norm_l2 : List F → F
  pub add : F → F → F
  pub sqrt : F → F
  pub abs : F → F
  pub check_can_add : D → Bool → Bool
  pub add_single_id : D → ℕ → Option (ℕ × ℕ) → Outcome D
  pub list_tables : List F → ℕ → F → F × List (List F)

abbrev pub or_fault : {A : Type 0} → Option A → Outcome A
or_fault none = fault
or_fault (some a) = ok a

abbrev pub add_core_o_bs : ℕ
add_core_o_bs = 32768

-- `n` numbers from `i` on.
abbrev pub numbers_from : ℕ → ℕ → List ℕ
numbers_from i zero = []
numbers_from i (suc n) = i ∷ numbers_from (suc i) n

-- The ids of a block, which are given or follow those of the index.
abbrev pub ids_of : Option (List ℕ) → ℕ → ℕ → List ℕ
ids_of none ntotal n = numbers_from ntotal n
ids_of (some xids) ntotal n = xids

abbrev pub given : {A : Type 0} → Option A → Bool
given none = false
given (some a) = true

-- The pointers for a block, if there are any, and for what follows it.
abbrev pub take_opt : {A : Type 0} → ℕ → Option (List A) → Option (List A)
take_opt n none = none
take_opt n (some xs) = some (take n xs)

abbrev pub drop_opt : {A : Type 0} → ℕ → Option (List A) → Option (List A)
drop_opt n none = none
drop_opt n (some xs) = some (drop n xs)

module _ {D F : Type 0} (o : Floats F) (faiss : IvfPqLibrary D F) where
  -- `res2[j] = xi[j] - res2[j]`.
  abbrev pub residual_2 : List F → List F → List F
  residual_2 [] res2 = []
  residual_2 (x ∷ xi) [] = []
  residual_2 (x ∷ xi) (r ∷ res2) = o.sub x r ∷ residual_2 xi res2

  abbrev pub compute_residuals : ℕ → List (List F) → List (Option ℕ) → List (List F)
  compute_residuals d [] list_nos = []
  compute_residuals d (x ∷ xs) [] = []
  compute_residuals d (x ∷ xs) (none ∷ list_nos) =
      replicate d (o.of_int 0) ∷ compute_residuals d xs list_nos
  compute_residuals d (x ∷ xs) (some l ∷ list_nos) =
      faiss.compute_residual x l ∷ compute_residuals d xs list_nos

  -- The error of a vector that is encoded.
  abbrev pub reconstruction_error : List F → F
  reconstruction_error xi = faiss.norm_l2 (residual_2 xi (faiss.decode (faiss.compute_code xi)))

  -- One round of the loop over the vectors. A vector without a list is ignored.
  unfoldable pub add_one : ℕ → List F → Option ℕ → IndexIvfPq D F → Outcome (IndexIvfPq D F)
  add_one id xi none ix = do
    direct_map ← faiss.add_single_id ix.direct_map id none
    ok (record ix { direct_map = direct_map })
  add_one id xi (some key) ix = do
    entries ← or_fault (get_elem? ix.invlists key)
    errors ← or_fault (get_elem? ix.reconstruction_errors key)
    let offset = length entries
    let errors' = errors ++ reconstruction_error xi ∷ []
    check (not (length errors' == offset)) faiss_exception
    direct_map ← faiss.add_single_id ix.direct_map id (some (key, offset))
    ok (record ix {
      invlists = set ix.invlists key (entries ++ (id, faiss.compute_code xi) ∷ []);
      reconstruction_errors = set ix.reconstruction_errors key errors';
      direct_map = direct_map;
    })

  -- The loop, over the vectors to encode with their ids and lists.
  unfoldable pub add_each :
      List ℕ → List (List F) → List (Option ℕ) → IndexIvfPq D F → Outcome (IndexIvfPq D F)
  add_each ids [] keys ix = ok ix
  add_each [] (xi ∷ xs) keys ix = fault
  add_each (id ∷ ids) (xi ∷ xs) [] ix = fault
  add_each (id ∷ ids) (xi ∷ xs) (key ∷ keys) ix = do
    ix' ← add_one id xi key ix
    add_each ids xs keys ix'

  abbrev pub to_encode : IndexIvfPq D F → List (List F) → List (Option ℕ) → List (List F)
  to_encode ix xs keys = if ix.by_residual then compute_residuals ix.d xs keys else xs

  -- The lists of the vectors, which are given or assigned by the quantizer.
  abbrev pub keys_of : Option (List (Option ℕ)) → List (List F) → List (Option ℕ)
  keys_of none xs = map faiss.assign xs
  keys_of (some keys) xs = keys

  -- A block: `custom_add_core_o` after its split.
  unfoldable pub add_block :
      Option (List ℕ)
      → Option (List (Option ℕ))
      → List (List F)
      → IndexIvfPq D F
      → Outcome (IndexIvfPq D F)
  add_block xids idx xs ix = do
    check (faiss.check_can_add ix.direct_map (given xids)) faiss_exception
    check ix.is_trained faiss_exception
    let keys = keys_of idx xs
    ix' ← add_each (ids_of xids ix.ntotal (length xs)) (to_encode ix xs keys) keys ix
    ok (record ix' { ntotal = ix'.ntotal + length xs })

  -- The loop over blocks, on fuel.
  unfoldable pub add_blocks :
      ℕ
      → Option (List ℕ)
      → Option (List (Option ℕ))
      → List (List F)
      → IndexIvfPq D F
      → Outcome (IndexIvfPq D F)
  add_blocks fuel xids idx [] ix = ok ix
  add_blocks zero xids idx (x ∷ xs) ix = fault
  add_blocks (suc fuel) xids idx (x ∷ xs) ix = do
    let bs = add_core_o_bs
    ix' ← add_block (take_opt bs xids) (take_opt bs idx) (take bs (x ∷ xs)) ix
    add_blocks fuel (drop_opt bs xids) (drop_opt bs idx) (drop bs (x ∷ xs)) ix'

  -- Without residuals to return.
  unfoldable pub custom_add_core_o :
      Option (List ℕ)
      → Option (List (Option ℕ))
      → List (List F)
      → IndexIvfPq D F
      → Outcome (IndexIvfPq D F)
  custom_add_core_o xids idx xs ix =
      let blocks = add_blocks (length xs) xids idx xs ix in
      if ltb add_core_o_bs (length xs) then blocks else add_block xids idx xs ix

  abbrev pub add_core :
      Option (List ℕ) → List (Option ℕ) → List (List F) → IndexIvfPq D F → Outcome (IndexIvfPq D F)
  add_core xids coarse_idx xs ix = custom_add_core_o xids (some coarse_idx) xs ix
