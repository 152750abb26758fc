-- ===== src/Store/Tests/Tables.antt =====
-- Cache keys and a hash table at concrete inputs.
use tenann.Prelude.{ℕ, ◌*◌, ◌<◌, ◌≤◌, ◌≡◌, ◌⊎◌, refl, none, some, [], ◌∷◌, if◌then◌else◌, arith}
use tenann.Store.CacheKey.{CacheKey, key_eq, memcmp, u32_mod}
use tenann.Store.HandleTable.{
  HandleTable, Node, same, matches, lookup, insert, remove, grow, count_list, chain_find,
}
use tenann.Store.HandleTable.Map.{IsValid}
use tenann.Store.HandleTable.Rehash.{grow-total}
use tenann.Store.HandleTable.Insert.{insert_lem}
use tenann.Store.HandleTable.Remove.{remove_lem}

abbrev key_12 : CacheKey
key_12 = 1 ∷ 2 ∷ []

abbrev key_13 : CacheKey
key_13 = 1 ∷ 3 ∷ []

-- Two nodes whose hashes end alike, and one that would take the place of the second.
abbrev node_a : Node
node_a = record { hash = 1; key = 97 ∷ []; ptr = 10 }

abbrev node_b : Node
node_b = record { hash = 5; key = 98 ∷ []; ptr = 20 }

abbrev node_c : Node
node_c = record { hash = 5; key = 98 ∷ []; ptr = 30 }

abbrev table : HandleTable
table = record { length = 4; elems = 2; list = [] ∷ (node_a ∷ node_b ∷ []) ∷ [] ∷ [] ∷ [] }

table_IsValid : IsValid table
unfolding count_list chain_find key_eq memcmp
table_IsValid = record {
  positive = omega arith;
  fits = omega arith;
  sized = refl;
  placed = (tt, tt, ((refl, (refl, tt)), (refl, (refl, tt)), (tt, tt, (tt, tt, tt))));
  counted = refl;
  loaded = omega arith;
}

insert_lem_example :
    (t' : HandleTable) × (insert node_c table ≡ some (t', lookup (98 ∷ []) 5 table))
    × IsValid t'
    × ((k : CacheKey) (h : ℕ)
        → lookup k h t' ≡ (if matches k h node_c then some 30 else lookup k h table))
insert_lem_example = insert_lem node_c table table_IsValid (omega arith)

remove_lem_example :
    ((remove (97 ∷ []) 1 table).1 ≡ lookup (97 ∷ []) 1 table)
    × IsValid (remove (97 ∷ []) 1 table).0
    × ((k : CacheKey) (h : ℕ)
        → lookup k h (remove (97 ∷ []) 1 table).0
          ≡ (if same k h (97 ∷ []) 1 then none else lookup k h table))
    × ((remove (97 ∷ []) 1 table).0.elems ≤ 2)
remove_lem_example = remove_lem (97 ∷ []) 1 table table_IsValid

grow-total_example :
    (m : ℕ) × (grow 32 100 4 ≡ some m)
    × (100 ≤ m)
    × (4 ≤ m)
    × (m < u32_mod)
    × ((m ≡ 4) ⊎ (m < 2 * 100))
grow-total_example = grow-total 31 100 4 (omega arith) (omega arith) (omega arith) (omega arith)
