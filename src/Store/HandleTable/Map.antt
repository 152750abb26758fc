-- ===== src/Store/HandleTable/Map.antt =====
-- The hash table as a finite map: what each operation leaves in the table, and that the check in
-- `_resize` never fails.
use native.Mathlib.Nat.{zero-add}
use tenann.Prelude.Mask.{bit_and-lt}
use tenann.Prelude.{
  ℕ, ◌+◌, ◌^◌, ◌<◌, ◌≤◌, ◌≡◌, refl, ◌∙◌, ◌==◌, none, some, List, [], length, set, replicate,
  length-replicate, get_or-replicate, get_or-set, arith, if◌then◌else◌,
}
use tenann.Store.CacheKey.{CacheKey, u32_mod}
use tenann.Store.HandleTable.{
  Chain, HandleTable, index, bucket, chain_find, lookup, push_list, count_list, resize, empty,
}
use tenann.Store.HandleTable.Chain.{Uniq, AtIndex}
use tenann.Store.HandleTable.Placed.{
  Placed, Placed-get_or, Placed-set, Placed-replicate, count_list-set, count_list-replicate,
}
use tenann.Store.HandleTable.Rehash.{find_in, grow-total, find_in-push_list}
use tenann.Store.HandleTable.Moves.{length-push_list, count_list-push_list, push_list-Placed}

-- The invariant of the table; there are never more entries than buckets.
pub record IsValid (t : HandleTable) : Type 0 where
  pub positive : 0 < t.length
  pub fits : t.length < u32_mod
  pub sized : length t.list ≡ t.length
  pub placed : Placed t.length 0 t.list
  pub counted : t.elems ≡ count_list t.list
  pub loaded : t.elems ≤ t.length

-- Two tables answer every search alike.
abbrev pub SameMap : HandleTable → HandleTable → Type 0
SameMap t t' = (k : CacheKey) (h : ℕ) → lookup k h t' ≡ lookup k h t

find_in-replicate : (k : CacheKey) (h len n : ℕ) → find_in k h len (replicate n []) ≡ none
unfolding chain_find
find_in-replicate k h len n = rw (get_or-replicate {A = Chain} n (index h len) [])

-- `_resize` succeeds and keeps the map.
pub resize_lem :
    (t : HandleTable)
    → Placed t.length 0 t.list
    → t.elems ≡ count_list t.list
    → t.elems ≤ 2 ^ 31
    → (t' : HandleTable) × (resize t ≡ some t') × IsValid t' × SameMap t t' × (t'.elems ≡ t.elems)
unfolding resize lookup
resize_lem t placed counted few =
    let (len, grown, enough, four, fits, tight) =
      grow-total 31 t.elems 4 (omega arith) (omega arith) few (omega arith) in
    let none_yet : List Chain = replicate len [] in
    let sized = length-replicate {A = Chain} len [] in
    let pos : 0 < len = omega arith in
    let moved = push_list len t.list none_yet in
    let t' : HandleTable = record { length = len; elems = t.elems; list = moved } in
    let total = count_list-push_list len pos t.list none_yet sized in
    (
      t',
      ground (arith, grown),
      record {
        positive = pos;
        fits = fits;
        sized = length-push_list len pos t.list none_yet sized;
        placed =
            push_list-Placed len pos t.length 0 t.list none_yet sized placed
              (λ k h _. find_in-replicate k h len len) (Placed-replicate len 0 len);
        counted = omega (arith, total, count_list-replicate len);
        loaded = enough;
      },
      λ k h. ground (
        arith,
        find_in-push_list k h t.length len 0 t.list none_yet pos sized placed
            (λ _. find_in-replicate k h len len),
      ),
      refl,
    )

pub lookup-find_in :
    (k : CacheKey) (h : ℕ) (t : HandleTable) → lookup k h t ≡ find_in k h t.length t.list
unfolding lookup
lookup-find_in k h t = refl

nothing : (k : CacheKey) (h : ℕ) → lookup k h (record { length = 0; elems = 0; list = [] }) ≡ none
unfolding lookup chain_find
nothing k h = refl

-- The constructor makes a valid table that holds nothing.
pub empty_lem :
    (t : HandleTable) × (empty ≡ some t)
    × IsValid t
    × ((k : CacheKey) (h : ℕ) → lookup k h t ≡ none)
unfolding empty count_list
empty_lem =
    let (t, made, valid, same_map, _) =
      resize_lem (record { length = 0; elems = 0; list = [] }) tt refl (omega arith) in
    (t, made, valid, λ k h. same_map k h ∙ nothing k h)

-- The array after a write into the bucket of a hash.
module _ (t : HandleTable) (valid : IsValid t) (hash : ℕ) (c : Chain) where
  abbrev pub written : List Chain
  written = set t.list (index hash t.length) c

  in_range : index hash t.length < length t.list
  in_range = omega (arith, bit_and-lt hash t.length valid.positive, valid.sized)

  pub find_in-written :
      (k : CacheKey) (h : ℕ)
      → find_in k h t.length written
        ≡ (if index hash t.length == index h t.length then chain_find k h c else lookup k h t)
  unfolding lookup
  find_in-written k h =
      ground (
        arith,
        get_or-set {A = Chain} t.list (index hash t.length) (index h t.length) c [] in_range,
      )

  pub written-Placed : AtIndex t.length (index hash t.length) c → Uniq c → Placed t.length 0 written
  written-Placed a u =
      Placed-set t.length 0 (index hash t.length) c t.list valid.placed (rw zero-add a) u

  pub count_list-written :
      count_list written + length (bucket hash t.length t.list) ≡ t.elems + length c
  count_list-written =
      omega (arith, count_list-set t.list (index hash t.length) c in_range, valid.counted)

pub bucket-Placed :
    (t : HandleTable) (hash : ℕ)
    → IsValid t
    → AtIndex t.length (index hash t.length) (bucket hash t.length t.list)
      × Uniq (bucket hash t.length t.list)
bucket-Placed t hash valid =
    let (a, u) = Placed-get_or t.length 0 (index hash t.length) t.list valid.placed in
    (rw zero-add at a, u)
