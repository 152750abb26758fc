-- ===== src/Searcher/Tests.antt =====
-- Searches over a small graph and over given hits.
use tenann.Prelude.{
  ℕ, zero, suc, ◌+◌, ◌-◌, ◌*◌, ◌/◌, ◌≤◌, ◌≡◌, refl, Bool, false, ◌||◌, Option, none, some, List, [],
  ◌∷◌, ◌++◌, ◌==◌, ltb, leb, arith, map, length, if◌then◌else◌,
}
use tenann.Common.Float.{Floats, Ranked}
use tenann.Common.Outcome.{ok}
use tenann.Factory.{faiss_ivf_pq}
use tenann.Index.Parameters.{hnsw_search_default, ivf_pq_search_default}
use tenann.Searcher.{Hit}
use tenann.Searcher.FaissIvfPq.{IvfPqIndex, FaissIvfPqAnnSearcher}
use tenann.Searcher.FaissIvfPq as IvfPq
use tenann.Searcher.Hnsw.{HnswLibrary, Nearest, node_less, greedy_update_nearest}
use tenann.Searcher.Hnsw.Greedy.{NoneNearer, greedy_update_nearest-returns}
use tenann.Searcher.Hnsw.Within.{VisitedLaws, IsFound}
use tenann.Searcher.FaissHnsw.{limited_search, unlimited_search}
use tenann.Searcher.FaissHnsw.Limited.{within, limited_search-within}
use tenann.Searcher.FaissHnsw.Unlimited.{unlimited_search-within}
use tenann.Util.PriorityQueue.TopK.{Sorted, All, count_if, reverse}

abbrev numbers : Floats ℕ
numbers = record {
  lt = ltb;
  le = leb;
  of_int = λ n. n;
  neg = λ n. n;
  sub = ◌-◌;
  mul = ◌*◌;
  div = ◌/◌;
}

abbrev numbers-Ranked : Ranked numbers
numbers-Ranked = record { rank = λ n. n; lt_eq = λ a b. refl; le_eq = λ a b. refl }

abbrev hit : ℕ → ℕ → Hit ℕ
hit id distance = record { id = id; distance = distance }

abbrev hits : List (Hit ℕ)
hits = hit 7 30 ∷ hit 9 10 ∷ hit 8 10 ∷ []

abbrev ivf_pq : IvfPqIndex ℕ ℕ
ivf_pq = record { search = λ p sel x k ix. ok hits; range_search = λ p sel x radius ix. ok hits }

abbrev searcher : FaissIvfPqAnnSearcher ℕ ℕ
searcher = record {
  index_ref = some (record { index_raw = 0; index_type = faiss_ivf_pq });
  common_params = record { dim = 1; metric_type = 0; is_vector_normed = false };
  search_params = ivf_pq_search_default numbers;
}

-- A line of five nodes, each beside its neighbours on both levels; the distance is that of numbers.
abbrev beside : ℕ → List (Option ℕ)
beside zero = some 1 ∷ none ∷ []
beside (suc n) = some n ∷ (if ltb n 3 then some (suc (suc n)) else none) ∷ []

abbrev seen : List ℕ → ℕ → Bool
seen [] v = false
seen (u ∷ us) v = u == v || seen us v

abbrev pop_first : List (Hit ℕ) → Option (ℕ × List (Hit ℕ))
pop_first [] = none
pop_first (h ∷ hs) = some (h.id, hs)

abbrev line : HnswLibrary ℕ (List (Hit ℕ)) (List ℕ) ℕ
line = record {
  entry_point = λ ix. some 0;
  max_level = λ ix. 1;
  neighbors = λ ix v level. beside v;
  inner_product = λ ix. false;
  distance = λ ix x v. length x - v + (v - length x);
  search = λ p sel x k ix. ok (hit 4 0 ∷ hit 3 1 ∷ hit 2 2 ∷ []);
  new_candidates = λ n. [];
  push_candidate = λ v d heap. heap ++ hit v d ∷ [];
  candidates = λ heap. heap;
  pop_min = pop_first;
  new_visited = [];
  get_visited = seen;
  set_visited = λ t v. v ∷ t;
}

abbrev from_three : ℕ → ℕ
from_three v = 3 - v + (v - 3)

greedy_update_nearest-returns_example :
    (end : Nearest ℕ) × (greedy_update_nearest numbers 4 from_three beside
        (record { node = 0; distance = 3 })
      ≡ ok end)
    × (end.distance ≡ from_three end.node)
    × (end.distance ≤ 3)
    × NoneNearer numbers numbers-Ranked from_three (beside end.node) end.distance
greedy_update_nearest-returns_example =
    greedy_update_nearest-returns numbers numbers-Ranked from_three 4 beside
      (record { node = 0; distance = 3 }) refl (omega arith)

line-VisitedLaws : VisitedLaws line
line-VisitedLaws = record { get_new = λ v. refl; get_set = λ t v w. refl }

unlimited_search-within_example :
    (found : List (Hit ℕ)) × (unlimited_search numbers line 4 0 0
        (0 ∷ 0 ∷ 0 ∷ [])
        1
        0
        hnsw_search_default
        none
      ≡ ok (record {
        ids = map (λ h. h.id) (reverse found);
        distances = map (λ h. h.distance) (reverse found);
      }))
    × All (IsFound numbers none 1 from_three) found
    × ((u : ℕ) → count_if (λ h. h.id == u) found ≤ 1)
    × Sorted (node_less numbers) found
unlimited_search-within_example =
    unlimited_search-within numbers numbers-Ranked line 4 0 0 (0 ∷ 0 ∷ 0 ∷ []) 1 0
      hnsw_search_default none line-VisitedLaws (λ n v d. refl) tt refl (omega arith)

limited_search-within_example :
    (out rest : List (Hit ℕ)) × (limited_search numbers line 4 0
        (0 ∷ [])
        1
        5
        hnsw_search_default
        none
      ≡ ok (record { ids = map (λ h. h.id) out; distances = map (λ h. h.distance) out }))
    × (hit 4 0 ∷ hit 3 1 ∷ hit 2 2 ∷ [] ≡ out ++ rest)
    × (length out ≡ 2)
    × (count_if (within numbers 1) out ≡ length out)
limited_search-within_example =
    limited_search-within numbers 1 numbers-Ranked line 4 0 (0 ∷ []) 5 hnsw_search_default none
      (hit 4 0 ∷ hit 3 1 ∷ hit 2 2 ∷ []) refl (refl, (refl, tt))
