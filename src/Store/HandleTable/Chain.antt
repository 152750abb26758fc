-- ===== src/Store/HandleTable/Chain.antt =====
-- One chain of the hash table as a finite map from keys to pointers.
use tenann.Prelude.{ℕ, ◌+◌, ◌≡◌, ◌≢◌, refl, true, none, some, [], ◌∷◌, length, arith, if◌then◌else◌}
use tenann.Store.CacheKey.{CacheKey}
use tenann.Store.CacheKey.Laws.{key_eq_iff}
use tenann.Store.HandleTable.{
  Node, Chain, index, same, matches, chain_find, chain_insert, chain_remove,
}

pub same_self : (k : CacheKey) (h : ℕ) → same k h k h ≡ true
same_self k h = ground (arith, key_eq_iff k k)

pub same-key_eq : (k : CacheKey) (h : ℕ) (k' : CacheKey) (h' : ℕ) → same k h k' h' ≡ true → k ≡ k'
same-key_eq k h k' h' e = ground (arith, key_eq_iff k k')

pub same-hash_eq : (k : CacheKey) (h : ℕ) (k' : CacheKey) (h' : ℕ) → same k h k' h' ≡ true → h ≡ h'
same-hash_eq k h k' h' e = ground arith

pub same_sym : (k : CacheKey) (h : ℕ) (k' : CacheKey) (h' : ℕ) → same k h k' h' ≡ same k' h' k h
same_sym k h k' h' = ground (arith, key_eq_iff k k', key_eq_iff k' k)

-- A node that has the same key and hash as another is met by the same searches.
same_trans :
    (k : CacheKey) (h : ℕ) (k' : CacheKey) (h' : ℕ) (n : Node)
    → same k h k' h' ≡ true
    → matches k h n ≡ matches k' h' n
same_trans k h k' h' n e = ground (arith, same-key_eq k h k' h' e, same-hash_eq k h k' h' e)

pub chain_find-same :
    (k : CacheKey) (h : ℕ) (k' : CacheKey) (h' : ℕ) (ns : Chain)
    → same k h k' h' ≡ true
    → chain_find k h ns ≡ chain_find k' h' ns
chain_find-same k h k' h' ns e = ground (arith, same-key_eq k h k' h' e, same-hash_eq k h k' h' e)

-- No two nodes of the chain have the same key and hash.
abbrev pub Uniq : Chain → Type 0
Uniq [] = Unit {0}
Uniq (n ∷ ns) = (chain_find n.key n.hash ns ≡ none) × Uniq ns

module _ (k : CacheKey) (h : ℕ) where
  pub chain_find-insert :
      (n : Node) (ns : Chain)
      → chain_find k h (chain_insert n ns)
        ≡ (if matches k h n then some n.ptr else chain_find k h ns)
  unfolding chain_find chain_insert
  chain_find-insert n [] = refl
  chain_find-insert n (m ∷ ns) = ground (
    arith,
    chain_find-insert n ns,
    key_eq_iff n.key m.key,
    key_eq_iff k n.key,
    key_eq_iff k m.key,
  )

  pub chain_find-remove :
      (k' : CacheKey) (h' : ℕ) (ns : Chain)
      → Uniq ns
      → chain_find k h (chain_remove k' h' ns)
        ≡ (if same k h k' h' then none else chain_find k h ns)
  unfolding chain_find chain_remove
  chain_find-remove k' h' [] u = ground arith
  chain_find-remove k' h' (m ∷ ns) u = ground (
    arith,
    chain_find-remove k' h' ns u.1,
    key_eq_iff k' m.key,
    key_eq_iff k k',
    key_eq_iff k m.key,
  )

pub length-chain_insert :
    (n : Node) (ns : Chain)
    → length (chain_insert n ns)
      ≡ length ns + elim (chain_find n.key n.hash ns) [ none ↦ 1 | some _ ↦ 0 ]
unfolding chain_find chain_insert
length-chain_insert n [] = refl
length-chain_insert n (m ∷ ns) = ground (arith, length-chain_insert n ns)

pub length-chain_remove :
    (k : CacheKey) (h : ℕ) (ns : Chain)
    → length (chain_remove k h ns) + elim (chain_find k h ns) [ none ↦ 0 | some _ ↦ 1 ] ≡ length ns
unfolding chain_find chain_remove
length-chain_remove k h [] = refl
length-chain_remove k h (m ∷ ns) = ground (arith, length-chain_remove k h ns)

pub chain_insert-Uniq : (n : Node) (ns : Chain) → Uniq ns → Uniq (chain_insert n ns)
unfolding chain_find chain_insert
chain_insert-Uniq n [] u = (refl, tt)
chain_insert-Uniq n (m ∷ ns) u = ground (
  arith,
  chain_insert-Uniq n ns u.1,
  chain_find-insert m.key m.hash n ns,
  key_eq_iff n.key m.key,
  key_eq_iff m.key n.key,
)

pub chain_remove-Uniq : (k : CacheKey) (h : ℕ) (ns : Chain) → Uniq ns → Uniq (chain_remove k h ns)
unfolding chain_find chain_remove
chain_remove-Uniq k h [] u = tt
chain_remove-Uniq k h (m ∷ ns) u =
    ground (arith, chain_remove-Uniq k h ns u.1, chain_find-remove m.key m.hash k h ns u.1)

-- Every node of the chain belongs into the bucket `i` of `len`.
abbrev pub AtIndex : ℕ → ℕ → Chain → Type 0
AtIndex len i [] = Unit {0}
AtIndex len i (n ∷ ns) = (index n.hash len ≡ i) × AtIndex len i ns

module _ (len i : ℕ) where
  pub chain_insert-AtIndex :
      (n : Node) (ns : Chain)
      → index n.hash len ≡ i
      → AtIndex len i ns
      → AtIndex len i (chain_insert n ns)
  unfolding chain_insert
  chain_insert-AtIndex n [] p a = (p, tt)
  chain_insert-AtIndex n (m ∷ ns) p a = ground (arith, chain_insert-AtIndex n ns p a.1)

  pub chain_remove-AtIndex :
      (k : CacheKey) (h : ℕ) (ns : Chain) → AtIndex len i ns → AtIndex len i (chain_remove k h ns)
  unfolding chain_remove
  chain_remove-AtIndex k h [] a = tt
  chain_remove-AtIndex k h (m ∷ ns) a = ground (arith, chain_remove-AtIndex k h ns a.1)

  -- A hash of another bucket is not found.
  pub chain_find_absent :
      (k : CacheKey) (h : ℕ) (ns : Chain)
      → index h len ≢ i
      → AtIndex len i ns
      → chain_find k h ns ≡ none
  unfolding chain_find
  chain_find_absent k h [] other a = refl
  chain_find_absent k h (m ∷ ns) other a =
      ground (arith, chain_find_absent k h ns other a.1, same-hash_eq k h m.key m.hash)
