-- ===== src/Store/LruCache/FreeAll.antt =====
-- Freeing the entries that were collected under the lock.
use mathlib.Core.List.{append-nil, append_assoc}
use tenann.Prelude.{
  ℕ, ◌≡◌, refl, sym, false, none, some, List, [], ◌∷◌, ◌++◌, ◌==◌, if◌then◌else◌, arith, count,
  Option-cases, inl, inr, Bool-cases, subst, ==_iff,
}
use tenann.Store.Heap.{get, free, Distinct, get-free, free-Distinct, total-free}
use tenann.Store.LruCache.{LruHandle, LruCache, DeleterCall, deleter_call, free_one, free_all}
use tenann.Store.LruCache.Frame.{Frame, call_of}
use tenann.Store.LruCache.Invariant.{weight, Cell, Inv}

-- The deleter calls for the entries at some addresses, in order.
abbrev pub calls_at : List (ℕ × LruHandle) → List ℕ → List DeleterCall
calls_at heap [] = []
calls_at heap (p ∷ ps) = elim (call_of (get p heap)) [
  | none ↦ calls_at heap ps
  | some c ↦ c ∷ calls_at heap ps
]

pub calls_at-Frame :
    {s s' : LruCache} {d : List ℕ}
    → Frame s s' d
    → (ps : List ℕ) → calls_at s'.heap ps ≡ calls_at s.heap ps
calls_at-Frame f [] = refl
calls_at-Frame f (p ∷ ps) = ground (arith, f.calls p, calls_at-Frame f ps)

-- Two heaps that differ at an address off the list give the same calls.
pub calls_at-but :
    (p : ℕ) (heap heap' : List (ℕ × LruHandle)) (ps : List ℕ)
    → ((q : ℕ) → (p == q) ≡ false → call_of (get q heap') ≡ call_of (get q heap))
    → count p ps ≡ 0
    → calls_at heap' ps ≡ calls_at heap ps
calls_at-but p heap heap' [] alike absent = refl
calls_at-but p heap heap' (q ∷ ps) alike absent =
    ground (arith, absent, alike q, calls_at-but p heap heap' ps alike)

pub calls_at-append :
    (heap : List (ℕ × LruHandle)) (ps qs : List ℕ)
    → calls_at heap (ps ++ qs) ≡ calls_at heap ps ++ calls_at heap qs
calls_at-append heap [] qs = refl
calls_at-append heap (p ∷ ps) qs = ground (arith, calls_at-append heap ps qs)

-- The entries `d` are freed, in that order, and nothing else changes.
pub record Frees (s s' : LruCache) (d : List ℕ) : Type 0 where
  pub capacity : s'.capacity ≡ s.capacity
  pub usage : s'.usage ≡ s.usage
  pub lru : s'.lru ≡ s.lru
  pub table : s'.table ≡ s.table
  pub lookup_count : s'.lookup_count ≡ s.lookup_count
  pub hit_count : s'.hit_count ≡ s.hit_count
  pub heap : (q : ℕ) → get q s'.heap ≡ (if count q d == 0 then get q s.heap else none)
  pub freed : s'.freed ≡ s.freed ++ calls_at s.heap d

module _ {held pending : List ℕ} (p : ℕ) {s : LruCache} (v : Inv held (p ∷ pending) s) where
  pending_entry :
      (e : LruHandle) × (get p s.heap ≡ some e)
      × (e.refs ≡ 0)
      × (e.in_cache ≡ false)
      × (count p s.lru ≡ 0)
      × (count p held ≡ 0)
      × (count p pending ≡ 0)
  pending_entry = elim (Option-cases (get p s.heap)) [
    | inl free ↦ absurd (ground (arith, free, v.cells p))
    | inr (e, found) ↦ (
      e,
      found,
      ground (arith, found, v.cells p),
      ground (arith, found, v.cells p),
      ground (arith, found, v.cells p),
      ground (arith, found, v.cells p),
      ground (arith, found, v.cells p),
    )
  ]

  abbrev freed_one : LruHandle → LruCache
  freed_one e = record s { heap = free p s.heap; freed = s.freed ++ deleter_call e ∷ [] }

  module _ (e : LruHandle) (found : get p s.heap ≡ some e) where
    free_one-eq : free_one p s ≡ some (freed_one e)
    unfolding free_one
    free_one-eq = ground (arith, found)

    other-Cell : (q : ℕ) → (p == q) ≡ false → Cell held pending (freed_one e) q (get q s.heap)
    other-Cell q ne = elim (Option-cases (get q s.heap)) [
      | inl free ↦ ground (arith, free, v.cells q, ne)
      | inr (f, found_f) ↦ rw found_f (
        ground (arith, found_f, v.cells q),
        ground (arith, found_f, v.cells q),
        ground (arith, found_f, v.cells q, ne),
        ground (arith, found_f, v.cells q),
      )
    ]

    freed_one-Inv :
        e.refs ≡ 0
        → e.in_cache ≡ false
        → count p s.lru ≡ 0
        → count p held ≡ 0
        → count p pending ≡ 0
        → Inv held pending (freed_one e)
    freed_one-Inv unused uncached off_list unheld once = record {
      table_valid = v.table_valid;
      distinct = free-Distinct p s.heap v.distinct;
      usage_total = ground (arith, v.usage_total, total-free weight p e s.heap found, unused);
      cells = λ q. elim (Bool-cases (p == q)) [
        | inl eq ↦
            rw (get-free p q s.heap v.distinct, eq)
              (subst (λ r. Cell held pending (freed_one e) r none) ((==_iff p q).0 eq)
                (off_list, unheld, once))
        | inr ne ↦ rw (get-free p q s.heap v.distinct, ne) (other-Cell q ne)
      ];
      tabled = λ k h q hit.
          rw (get-free p q s.heap v.distinct)
            (ground (arith, hit, v.tabled k h q, found, uncached));
    }

calls_at-free :
    (p : ℕ) (heap : List (ℕ × LruHandle)) (ps : List ℕ)
    → Distinct heap
    → count p ps ≡ 0
    → calls_at (free p heap) ps ≡ calls_at heap ps
calls_at-free p heap [] d absent = refl
calls_at-free p heap (q ∷ ps) d absent =
    ground (arith, absent, get-free p q heap d, calls_at-free p heap ps d)

-- The collected entries are all freed; nobody refers to them any more.
pub free_all_lem :
    {held : List ℕ} (d : List ℕ) (s : LruCache)
    → Inv held d s
    → (s' : LruCache) × (free_all d s ≡ some s') × Inv held [] s' × Frees s s' d
unfolding free_all
free_all_lem [] s v = (
  s,
  refl,
  v,
  record {
    capacity = refl;
    usage = refl;
    lru = refl;
    table = refl;
    lookup_count = refl;
    hit_count = refl;
    heap = λ q. refl;
    freed = sym (append-nil s.freed);
  },
)
free_all_lem (p ∷ ps) s v =
    let (e, found, unused, uncached, off_list, unheld, once) = pending_entry p v in
    let (s', runs, v', f) =
      free_all_lem ps (freed_one p v e)
        (freed_one-Inv p v e found unused uncached off_list unheld once) in
    (
      s',
      ground (arith, free_one-eq p v e found, runs),
      v',
      record {
        capacity = f.capacity;
        usage = f.usage;
        lru = f.lru;
        table = f.table;
        lookup_count = f.lookup_count;
        hit_count = f.hit_count;
        heap = λ q. ground (arith, f.heap q, get-free p q s.heap v.distinct);
        freed = ground (
          arith,
          f.freed,
          found,
          calls_at-free p s.heap ps v.distinct once,
          append_assoc s.freed (deleter_call e ∷ []) (calls_at s.heap ps),
        );
      },
    )

-- The same for one entry, freed by itself.
pub free_one_lem :
    {held : List ℕ} (p : ℕ) (s : LruCache)
    → Inv held (p ∷ []) s
    → (s' : LruCache) × (free_one p s ≡ some s') × Inv held [] s' × Frees s s' (p ∷ [])
unfolding free_all
free_one_lem p s v =
    let (s', runs, v', f) = free_all_lem (p ∷ []) s v in
    let x = pending_entry p v in (s', ground (arith, free_one-eq p v x.0 x.1, runs), v', f)
