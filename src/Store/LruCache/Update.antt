-- ===== src/Store/LruCache/Update.antt =====
-- Every operation rewrites one entry and moves its address between the lists. This is the step
-- that keeps the invariant.
use tenann.Prelude.{
  ℕ, ◌+◌, ◌%◌, ◌≡◌, Bool, true, false, not, ◌&&◌, none, some, List, ◌==◌, if◌then◌else◌, to_nat,
  count, arith, Option-cases, Bool-cases, ==_iff, subst, inl, inr,
}
use tenann.Store.CacheKey.{CacheKey}
use tenann.Store.Heap.{get, set, total, get-set, set-Distinct}
use tenann.Store.HandleTable
use tenann.Store.HandleTable.{HandleTable, same}
use tenann.Store.HandleTable.Chain.{same_self, same-key_eq, same-hash_eq}
use tenann.Store.HandleTable.Map as Map
use tenann.Store.LruCache.{LruHandle, LruCache, u64_mod}
use tenann.Store.LruCache.Invariant.{weight, is_idle, Cell, Tabled, Inv}

module _ {held pending : List ℕ} {s : LruCache} (v : Inv held pending s) (p : ℕ) (e e' : LruHandle)
    (found : get p s.heap ≡ some e) where
  -- The rewritten entry keeps its key. With `drop` it leaves the table.
  pub record Update (held' pending' : List ℕ) (s' : LruCache) (drop : Bool) : Type 0 where
    pub heap_set : s'.heap ≡ set p e' s.heap
    pub key_kept : e'.key ≡ e.key
    pub hash_kept : e'.hash ≡ e.hash
    pub caching : e'.in_cache ≡ (e.in_cache && not drop)
    pub was_cached : (if drop then e.in_cache else true) ≡ true
    pub valid : Map.IsValid s'.table
    pub map :
        (k : CacheKey) (h : ℕ)
        → HandleTable.lookup k h s'.table
          ≡ (if drop && same k h e.key e.hash then none else HandleTable.lookup k h s.table)
    pub usage : s'.usage ≡ total weight s'.heap % u64_mod
    pub listed : count p s'.lru ≡ to_nat (is_idle e')
    pub counted : e'.refs ≡ count p held' + to_nat e'.in_cache
    pub waiting : count p pending' ≡ to_nat (e'.refs == 0)
    pub others :
        (q : ℕ)
        → (p == q) ≡ false
        → (count q s'.lru ≡ count q s.lru)
          × (count q held' ≡ count q held)
          × (count q pending' ≡ count q pending)

  module _ {held' pending' : List ℕ} {s' : LruCache} {drop : Bool}
      (u : Update held' pending' s' drop) where
    get-updated : (q : ℕ) → get q s'.heap ≡ (if p == q then some e' else get q s.heap)
    get-updated q = ground (arith, u.heap_set, get-set p q e e' s.heap found)

    here-Cell : Cell held' pending' s' p (some e')
    here-Cell = (
      u.listed,
      u.counted,
      u.waiting,
      ground (arith, v.cells p, found, u.map e'.key e'.hash, u.caching, u.key_kept, u.hash_kept),
    )

    other-Cell : (q : ℕ) → (p == q) ≡ false → Cell held' pending' s' q (get q s.heap)
    other-Cell q ne = elim (Option-cases (get q s.heap)) [
      | inl free ↦ ground (arith, free, v.cells q, u.others q ne)
      | inr (f, held_f) ↦ rw held_f (
        ground (arith, held_f, v.cells q, u.others q ne),
        ground (arith, held_f, v.cells q, u.others q ne),
        ground (arith, held_f, v.cells q, u.others q ne),
        ground (
          arith,
          held_f,
          ne,
          found,
          v.cells q,
          v.cells p,
          u.map f.key f.hash,
          u.was_cached,
          same-key_eq f.key f.hash e.key e.hash,
          same-hash_eq f.key f.hash e.key e.hash,
        ),
      )
    ]

    updated-Cell : (q : ℕ) → Cell held' pending' s' q (get q s'.heap)
    updated-Cell q = elim (Bool-cases (p == q)) [
      | inl eq ↦
          let same_address : p ≡ q = (==_iff p q).0 eq in
          rw (get-updated q, eq)
            (subst (λ r. Cell held' pending' s' r (some e')) same_address here-Cell)
      | inr ne ↦ rw (get-updated q, ne) (other-Cell q ne)
    ]

    updated-Tabled :
        (k : CacheKey) (h q : ℕ)
        → HandleTable.lookup k h s'.table ≡ some q
        → Tabled k h (get q s'.heap)
    updated-Tabled k h q hit = rw (get-updated q) (
        ground (
          arith,
          hit,
          found,
          u.map k h,
          v.tabled k h q,
          u.caching,
          u.key_kept,
          u.hash_kept,
          same_self k h,
        ))

    pub update-Inv : Inv held' pending' s'
    update-Inv = record {
      table_valid = u.valid;
      distinct = rw u.heap_set (set-Distinct p e' s.heap v.distinct);
      usage_total = u.usage;
      cells = updated-Cell;
      tabled = updated-Tabled;
    }
