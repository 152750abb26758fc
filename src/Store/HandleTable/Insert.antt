-- ===== src/Store/HandleTable/Insert.antt =====
-- `HandleTable::insert` as an update of the map.
use tenann.Prelude.{
  ℕ, ◌+◌, ◌^◌, ◌<◌, ◌≡◌, refl, ◌∙◌, none, some, List, length-set, arith, inl, inr, Bool-cases,
  Option-cases, ltb, if◌then◌else◌, ◌%◌,
}
use tenann.Store.CacheKey.{CacheKey, u32_mod}
use tenann.Store.HandleTable.{
  Node, Chain, HandleTable, bucket, matches, chain_insert, lookup, count_list, insert,
}
use tenann.Store.HandleTable.Chain.{
  chain_find-insert, chain_insert-Uniq, chain_insert-AtIndex, length-chain_insert, same-hash_eq,
}
use tenann.Store.HandleTable.Placed.{Placed}
use tenann.Store.HandleTable.Rehash.{find_in}
use tenann.Store.HandleTable.Map.{
  IsValid, resize_lem, lookup-find_in, written, find_in-written, written-Placed, count_list-written,
  bucket-Placed,
}

-- The array after the write that `insert` makes.
module _ (n : Node) (t : HandleTable) (valid : IsValid t) where
  abbrev old_bucket : Chain
  old_bucket = bucket n.hash t.length t.list

  abbrev inserted : List Chain
  inserted = written t valid n.hash (chain_insert n old_bucket)

  find_in-inserted :
      (k : CacheKey) (h : ℕ)
      → find_in k h t.length inserted ≡ (if matches k h n then some n.ptr else lookup k h t)
  unfolding lookup
  find_in-inserted k h = ground (
    arith,
    find_in-written t valid n.hash (chain_insert n old_bucket) k h,
    chain_find-insert k h n old_bucket,
    same-hash_eq k h n.key n.hash,
  )

  inserted-Placed : Placed t.length 0 inserted
  inserted-Placed =
      let (a, u) = bucket-Placed t n.hash valid in
      written-Placed t valid n.hash (chain_insert n old_bucket)
        (chain_insert-AtIndex t.length _ n old_bucket refl a) (chain_insert-Uniq n old_bucket u)

  count_list-inserted :
      count_list inserted ≡ t.elems + elim (lookup n.key n.hash t) [ none ↦ 1 | some _ ↦ 0 ]
  unfolding lookup
  count_list-inserted = omega (
    arith,
    count_list-written t valid n.hash (chain_insert n old_bucket),
    length-chain_insert n old_bucket,
  )

  abbrev Inserts : HandleTable → Type 0
  Inserts t' =
      (insert n t ≡ some (t', lookup n.key n.hash t))
      × IsValid t'
      × ((k : CacheKey) (h : ℕ)
          → lookup k h t' ≡ (if matches k h n then some n.ptr else lookup k h t))

  insert_replaces : (p : ℕ) → lookup n.key n.hash t ≡ some p → (t' : HandleTable) × Inserts t'
  unfolding insert
  insert_replaces p found =
      let t' = record t { list = inserted } in
      let valid' : IsValid t' = record {
        positive = valid.positive;
        fits = valid.fits;
        sized = length-set t.list _ _ ∙ valid.sized;
        placed = inserted-Placed;
        counted = ground (arith, found, count_list-inserted);
        loaded = valid.loaded;
      } in
      (t', (ground (arith, found), valid', λ k h. lookup-find_in k h t' ∙ find_in-inserted k h))

  abbrev longer : HandleTable
  longer = record t { elems = (t.elems + 1) % u32_mod; list = inserted }

  count_list-longer :
      t.elems < 2 ^ 31 → lookup n.key n.hash t ≡ none → longer.elems ≡ count_list inserted
  count_list-longer few absent = ground (arith, absent, count_list-inserted)

  insert_adds : t.elems < 2 ^ 31 → lookup n.key n.hash t ≡ none → (t' : HandleTable) × Inserts t'
  unfolding insert
  insert_adds few absent = elim (Bool-cases (ltb t.length longer.elems)) [
    | inl full ↦
        let (t', made, valid', kept, _) =
          resize_lem longer inserted-Placed (count_list-longer few absent) (omega arith) in
        (
          t',
          (
            ground (arith, absent, full, made),
            valid',
            λ k h. kept k h ∙ lookup-find_in k h longer ∙ find_in-inserted k h,
          ),
        )
    | inr room ↦
        let valid' : IsValid longer = record {
          positive = valid.positive;
          fits = valid.fits;
          sized = length-set t.list _ _ ∙ valid.sized;
          placed = inserted-Placed;
          counted = count_list-longer few absent;
          loaded = ground (arith, room);
        } in
        (
          longer,
          (
            ground (arith, absent, room),
            valid',
            λ k h. lookup-find_in k h longer ∙ find_in-inserted k h,
          ),
        )
  ]

-- `insert` succeeds, returns the entry that had the key, and changes the answer for that key only.
pub insert_lem :
    (n : Node) (t : HandleTable)
    → IsValid t
    → t.elems < 2 ^ 31
    → (t' : HandleTable) × (insert n t ≡ some (t', lookup n.key n.hash t))
      × IsValid t'
      × ((k : CacheKey) (h : ℕ)
          → lookup k h t' ≡ (if matches k h n then some n.ptr else lookup k h t))
insert_lem n t valid few = elim (Option-cases (lookup n.key n.hash t)) [
  | inl absent ↦ let (t', (a, b, c)) = insert_adds n t valid few absent in (t', a, b, c)
  | inr (p, found) ↦ let (t', (a, b, c)) = insert_replaces n t valid p found in (t', a, b, c)
]
