-- ===== src/Index/Tests/IvfPq.antt =====
-- An IVF-PQ index of two lists over vectors of one number, with one table.
use tenann.Prelude.{
  ℕ, zero, suc, ◌+◌, ◌/◌, ◌%◌, ◌<◌, ◌≡◌, refl, true, none, some, List, [], ◌∷◌, arith, length,
  get_elem?, map,
}
use tenann.Common.Float.{Ranked}
use tenann.Common.Outcome.{ok}
use tenann.Index.BlockCache.{take}
use tenann.Index.IvfPq.{IndexIvfPq, IvfPqLibrary, custom_add_core_o}
use tenann.Index.IvfPq.Adding.{custom_add_core_o-Holds}
use tenann.Index.IvfPq.Block.{Fits, Grown, after}
use tenann.Index.IvfPq.Rows.{Row, Holds, TakesAll, entry_of}
use tenann.Index.IvfPq.Scan.{IndexIvfPqSearchParameters}
use tenann.Index.Tests.{order}

abbrev first_of : List ℕ → ℕ
first_of [] = 0
first_of (x ∷ xs) = x

-- Numbers go to a list by parity, and a code is a fourth of a number.
abbrev toy_faiss : IvfPqLibrary ℕ ℕ
toy_faiss = record {
  assign = λ x. some (first_of x % 2);
  search = λ x n. take n ((0, some 0) ∷ (1, some 1) ∷ []);
  compute_residual = λ x l. x;
  compute_code = λ x. first_of x / 4 ∷ [];
  decode = λ code. first_of code ∷ [];
  norm_l2 = first_of;
  add = λ a b. a + b;
  sqrt = λ a. a;
  abs = λ a. a;
  check_can_add = λ m b. true;
  add_single_id = λ m id at. ok (suc m);
  list_tables = λ x l coarse_dis. (coarse_dis, (0 ∷ 1 ∷ 4 ∷ []) ∷ []);
}

abbrev two_lists : IndexIvfPq ℕ ℕ
two_lists = record {
  d = 1;
  ntotal = 1;
  nlist = 2;
  is_trained = true;
  by_residual = true;
  metric_type = 1;
  nprobe = 2;
  polysemous_ht = 0;
  invlists = ((7, 2 ∷ []) ∷ []) ∷ [] ∷ [];
  direct_map = 1;
  reconstruction_errors = (1 ∷ []) ∷ [] ∷ [];
  range_search_confidence = 1;
}

abbrev one_row : ℕ → List (Row ℕ)
one_row zero = record { id = 7; code = 2 ∷ []; error = 1 } ∷ []
one_row (suc l) = []

two_lists-entries :
    (l : ℕ) → l < 2 → get_elem? two_lists.invlists l ≡ some (map entry_of (one_row l))
two_lists-entries zero h = refl
two_lists-entries (suc zero) h = refl
two_lists-entries (suc (suc l)) h = absurd (omega (arith, h))

two_lists-errors :
    (l : ℕ)
    → l < 2
    → get_elem? two_lists.reconstruction_errors l ≡ some (map (λ r. r.error) (one_row l))
two_lists-errors zero h = refl
two_lists-errors (suc zero) h = refl
two_lists-errors (suc (suc l)) h = absurd (omega (arith, h))

two_lists-Holds : Holds two_lists one_row
two_lists-Holds = record {
  entries = two_lists-entries;
  errors = two_lists-errors;
  lists = refl;
  error_lists = refl;
}

toy-TakesAll : TakesAll order toy_faiss
toy-TakesAll = record { can_add = λ m b. refl; adds = λ m id at. (suc m, refl) }

-- Two vectors with new ids, one for each list.
abbrev two_vectors : List (List ℕ)
two_vectors = (5 ∷ []) ∷ (10 ∷ []) ∷ []

two_vectors-Fits : Fits order toy_faiss toy-TakesAll none none two_vectors two_lists
two_vectors-Fits = record {
  ids = omega arith;
  keys = omega arith;
  within = (omega arith, (omega arith, tt));
}

custom_add_core_o-Holds_example :
    (ix' : IndexIvfPq ℕ ℕ) × (custom_add_core_o order toy_faiss none none two_vectors two_lists
      ≡ ok ix')
    × Holds ix' (after order toy_faiss toy-TakesAll none none two_vectors two_lists one_row)
    × Grown order toy_faiss toy-TakesAll (length two_vectors) two_lists ix'
custom_add_core_o-Holds_example =
    custom_add_core_o-Holds order toy_faiss toy-TakesAll none none two_vectors two_lists one_row
      refl two_vectors-Fits two_lists-Holds

order-Ranked : Ranked order
order-Ranked = record { rank = λ a. a; lt_eq = λ a b. refl; le_eq = λ a b. refl }

abbrev all_lists : IndexIvfPqSearchParameters ℕ
all_lists = record { nprobe = 2; sel = none; range_search_confidence = 1 }

-- The vector 5, which has become the row 1 of the second list.
abbrev row_5 : Row ℕ
row_5 = record { id = 1; code = 1 ∷ []; error = 4 }
