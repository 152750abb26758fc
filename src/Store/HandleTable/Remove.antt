-- ===== src/Store/HandleTable/Remove.antt =====
-- `HandleTable::remove` as a deletion from the map.
use tenann.Prelude.{
  ℕ, ◌+◌, ◌-◌, ◌≡◌, ◌≤◌, sym, ◌∙◌, none, some, List, length-set, arith, inl, inr, Option-cases,
  if◌then◌else◌, ◌%◌,
}
use tenann.Store.CacheKey.{CacheKey, u32_mod}
use tenann.Store.HandleTable.{
  Chain, HandleTable, bucket, same, chain_remove, lookup, count_list, remove,
}
use tenann.Store.HandleTable.Chain.{
  chain_find-remove, chain_remove-Uniq, chain_remove-AtIndex, length-chain_remove, same-hash_eq,
  same-key_eq,
}
use tenann.Store.HandleTable.Placed.{Placed}
use tenann.Store.HandleTable.Rehash.{find_in}
use tenann.Store.HandleTable.Map.{
  IsValid, lookup-find_in, written, find_in-written, written-Placed, count_list-written,
  bucket-Placed,
}

-- The array after the write that `remove` makes.
module _ (k' : CacheKey) (h' : ℕ) (t : HandleTable) (valid : IsValid t) where
  abbrev old_bucket : Chain
  old_bucket = bucket h' t.length t.list

  abbrev removed : List Chain
  removed = written t valid h' (chain_remove k' h' old_bucket)

  find_in-removed :
      (k : CacheKey) (h : ℕ)
      → find_in k h t.length removed ≡ (if same k h k' h' then none else lookup k h t)
  unfolding lookup
  find_in-removed k h = ground (
    arith,
    find_in-written t valid h' (chain_remove k' h' old_bucket) k h,
    chain_find-remove k h k' h' old_bucket (bucket-Placed t h' valid).1,
    same-hash_eq k h k' h',
  )

  removed-Placed : Placed t.length 0 removed
  removed-Placed =
      let (a, u) = bucket-Placed t h' valid in
      written-Placed t valid h' (chain_remove k' h' old_bucket)
        (chain_remove-AtIndex t.length _ k' h' old_bucket a) (chain_remove-Uniq k' h' old_bucket u)

  count_list-removed : (p : ℕ) → lookup k' h' t ≡ some p → count_list removed + 1 ≡ t.elems
  unfolding lookup
  count_list-removed p found = ground (
    arith,
    count_list-written t valid h' (chain_remove k' h' old_bucket),
    length-chain_remove k' h' old_bucket,
  )

  abbrev shorter : HandleTable
  shorter = record t { elems = (t.elems + u32_mod - 1) % u32_mod; list = removed }

  shorter-IsValid : (p : ℕ) → lookup k' h' t ≡ some p → IsValid shorter
  shorter-IsValid p found =
      let fewer = count_list-removed p found in
      record {
        positive = valid.positive;
        fits = valid.fits;
        sized = length-set t.list _ _ ∙ valid.sized;
        placed = removed-Placed;
        counted = omega (arith, fewer, valid.loaded, valid.fits);
        loaded = omega (arith, fewer, valid.loaded, valid.fits);
      }

  pub remove_absent : lookup k' h' t ≡ none → remove k' h' t ≡ (t, none)
  unfolding remove
  remove_absent absent = rw (absent, remove)

  remove_found : (p : ℕ) → lookup k' h' t ≡ some p → remove k' h' t ≡ (shorter, some p)
  unfolding remove
  remove_found p found = rw (found, remove)

  absent-same :
      lookup k' h' t ≡ none
      → (k : CacheKey) (h : ℕ) → lookup k h t ≡ (if same k h k' h' then none else lookup k h t)
  absent-same absent k h = ground (arith, absent, same-hash_eq k h k' h', same-key_eq k h k' h')

-- `remove` returns the entry that had the key, and changes the answer for that key only. The
-- number of entries does not grow.
pub remove_lem :
    (k' : CacheKey) (h' : ℕ) (t : HandleTable)
    → IsValid t
    → ((remove k' h' t).1 ≡ lookup k' h' t)
      × IsValid (remove k' h' t).0
      × ((k : CacheKey) (h : ℕ)
          → lookup k h (remove k' h' t).0 ≡ (if same k h k' h' then none else lookup k h t))
      × ((remove k' h' t).0.elems ≤ t.elems)
remove_lem k' h' t valid = elim (Option-cases (lookup k' h' t)) [
  | inl absent ↦
      rw (remove_absent k' h' t valid absent)
        (sym absent, valid, absent-same k' h' t valid absent, omega arith)
  | inr (p, found) ↦ rw (remove_found k' h' t valid p found) (
    sym found,
    shorter-IsValid k' h' t valid p found,
    λ k h. lookup-find_in k h (shorter k' h' t valid) ∙ find_in-removed k' h' t valid k h,
    omega (arith, count_list-removed k' h' t valid p found, valid.loaded, valid.fits),
  )
]
