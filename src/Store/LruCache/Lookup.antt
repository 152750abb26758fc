-- ===== src/Store/LruCache/Lookup.antt =====
-- `lookup`: a handle for the caller, or a miss.
use tenann.Prelude.{
  ℕ, ◌+◌, ◌<◌, ◌%◌, ◌≡◌, refl, true, false, Option, none, some, List, [], ◌∷◌, ◌==◌, if◌then◌else◌,
  arith, count, erase, length, inl, inr, Bool-cases, Option-cases, ==_iff, sym, subst, count-erase,
  count-le-length,
}
use tenann.Store.CacheKey.{CacheKey, u32_mod}
use tenann.Store.Heap.{get, set, get-set, total-set}
use tenann.Store.HandleTable
use tenann.Store.HandleTable.{HandleTable, same}
use tenann.Store.LruCache.{LruHandle, LruCache, add64, lookup}
use tenann.Store.LruCache.Invariant.{weight, Inv}
use tenann.Store.LruCache.Update.{Update, update-Inv}

-- The handles held after a call that returned one, or none.
abbrev pub hold : Option ℕ → List ℕ → List ℕ
hold none held = held
hold (some p) held = p ∷ held

-- What a call that found a handle does to the entry at an address: one reference more if it is the one
-- that was found.
abbrev pub touched : Option ℕ → ℕ → Option LruHandle → Option LruHandle
touched none q old = old
touched (some p) q none = none
touched (some p) q (some e) = if p == q then some (record e { refs = e.refs + 1 }) else some e

-- The LRU list after a call: the entry that was found is not on it.
abbrev pub unlisted : Option ℕ → List ℕ → List ℕ
unlisted none lru = lru
unlisted (some p) lru = erase p lru

erase-absent : (p : ℕ) (xs : List ℕ) → count p xs ≡ 0 → erase p xs ≡ xs
erase-absent p [] absent = refl
erase-absent p (x ∷ xs) absent = elim (Bool-cases (x == p)) [
  | inl same ↦ absurd (ground (arith, same, absent))
  | inr other ↦ ground (arith, other, erase-absent p xs (ground (arith, other, absent)))
]

-- The hit counter after a call.
abbrev pub hits : Option ℕ → ℕ → ℕ
hits none n = n
hits (some p) n = add64 n 1

module _ {held : List ℕ} (s : LruCache) (v : Inv held [] s) where
  abbrev pub counted : LruCache
  counted = record s { lookup_count = add64 s.lookup_count 1 }

  abbrev pub used : LruHandle → LruHandle
  used e = record e { refs = (e.refs + 1) % u32_mod }

  abbrev pub hit_state : ℕ → LruHandle → LruCache
  hit_state p e = record counted {
    lru = if e.refs == 1 then erase p s.lru else s.lru;
    hit_count = add64 s.hit_count 1;
    heap = set p (used e) s.heap;
  }

  pub hit-Update :
      (p : ℕ) (e : LruHandle) (found : get p s.heap ≡ some e)
      → e.in_cache ≡ true
      → length held + 2 < u32_mod
      → Update v p e (used e) found (p ∷ held) [] (hit_state p e) false
  hit-Update p e found cached few =
      let room : (e.refs + 1) % u32_mod ≡ e.refs + 1 =
        ground (arith, v.cells p, found, cached, count-le-length p held) in
      record {
        heap_set = refl;
        key_kept = refl;
        hash_kept = refl;
        caching = ground (arith, cached);
        was_cached = refl;
        valid = v.table_valid;
        map = λ k h. refl;
        usage = ground (
          arith,
          v.usage_total,
          total-set weight p e (used e) s.heap found,
          room,
          v.cells p,
          found,
          cached,
        );
        listed = ground (arith, room, v.cells p, found, cached, count-erase p p s.lru);
        counted = ground (arith, room, v.cells p, found, cached);
        waiting = ground (arith, room);
        others = λ q ne. ground (arith, ne, count-erase p q s.lru);
      }

  -- A hit needs the table to know the key; then the entry is in memory and cached.
  hit_entry :
      (k : CacheKey) (h p : ℕ)
      → HandleTable.lookup k h s.table ≡ some p
      → (e : LruHandle) × (get p s.heap ≡ some e) × (e.in_cache ≡ true) × (e.key ≡ k)
  hit_entry k h p hit = elim (Option-cases (get p s.heap)) [
    | inl free ↦ absurd (ground (arith, free, v.tabled k h p hit))
    | inr (e, found) ↦ (
      e,
      found,
      ground (arith, found, v.tabled k h p hit),
      ground (arith, found, v.tabled k h p hit),
    )
  ]

  pub lookup_hit :
      (k : CacheKey) (h p : ℕ) (e : LruHandle)
      → HandleTable.lookup k h s.table ≡ some p
      → get p s.heap ≡ some e
      → e.in_cache ≡ true
      → lookup k h s ≡ some (hit_state p e, some p)
  unfolding lookup
  lookup_hit k h p e hit found cached = ground (arith, hit, found, cached, v.cells p)

  pub lookup_miss :
      (k : CacheKey) (h : ℕ)
      → HandleTable.lookup k h s.table ≡ none
      → lookup k h s ≡ some (counted, none)
  unfolding lookup
  lookup_miss k h miss = rw (miss, lookup)

  pub counted-Inv : Inv held [] counted
  counted-Inv = record {
    table_valid = v.table_valid;
    distinct = v.distinct;
    usage_total = v.usage_total;
    cells = v.cells;
    tabled = v.tabled;
  }

  -- The memory of the shard after a call: nothing changes but the references of the entry that was
  -- found, which leaves the LRU list.
  pub record Touches (found : Option ℕ) (s' : LruCache) : Type 0 where
    pub capacity : s'.capacity ≡ s.capacity
    pub lru : s'.lru ≡ unlisted found s.lru
    pub entries : (q : ℕ) → get q s'.heap ≡ touched found q (get q s.heap)

  hit-Touches :
      (p : ℕ) (e : LruHandle)
      → get p s.heap ≡ some e
      → e.in_cache ≡ true
      → length held + 2 < u32_mod
      → Touches (some p) (hit_state p e)
  hit-Touches p e found cached few =
      let room : (e.refs + 1) % u32_mod ≡ e.refs + 1 =
        ground (arith, v.cells p, found, cached, count-le-length p held) in
      record {
        capacity = refl;
        lru = elim (Bool-cases (e.refs == 1)) [
          | inl idle ↦ rw idle refl
          | inr shared ↦
              rw shared (sym (erase-absent p s.lru (ground (arith, v.cells p, found, shared))))
        ];
        entries = λ q. elim (Bool-cases (p == q)) [
          | inl same ↦
              let there : get q s.heap ≡ some e =
                subst (λ r. get r s.heap ≡ some e) ((==_iff p q).0 same) found in
              ground (arith, get-set p q e (used e) s.heap found, same, there, room)
          | inr other ↦ elim (Option-cases (get q s.heap)) [
            | inl free ↦ ground (arith, get-set p q e (used e) s.heap found, other, free)
            | inr (d, there) ↦ ground (arith, get-set p q e (used e) s.heap found, other, there)
          ]
        ];
      }

  -- `lookup` returns what the table has for the key, and counts the call and the hit. The caller
  -- holds the handle: its entry has one reference more and is not on the LRU list. No other entry
  -- changes, and no other field of that one.
  pub lookup_lem :
      (k : CacheKey) (h : ℕ)
      → length held + 2 < u32_mod
      → (s' : LruCache) × (lookup k h s ≡ some (s', HandleTable.lookup k h s.table))
        × Inv (hold (HandleTable.lookup k h s.table) held) [] s'
        × (s'.table ≡ s.table)
        × (s'.usage ≡ s.usage)
        × (s'.freed ≡ s.freed)
        × (s'.lookup_count ≡ add64 s.lookup_count 1)
        × (s'.hit_count ≡ hits (HandleTable.lookup k h s.table) s.hit_count)
        × Touches (HandleTable.lookup k h s.table) s'
  lookup_lem k h few = elim (Option-cases (HandleTable.lookup k h s.table)) [
    | inl miss ↦ (
      counted,
      ground (arith, miss, lookup_miss k h miss),
      rw miss counted-Inv,
      refl,
      refl,
      refl,
      refl,
      rw miss,
      rw miss (record { capacity = refl; lru = refl; entries = λ q. refl }),
    )
    | inr (p, hit) ↦
        let (e, found, cached, _) = hit_entry k h p hit in
        (
          hit_state p e,
          ground (arith, hit, lookup_hit k h p e hit found cached),
          rw hit (update-Inv v p e (used e) found (hit-Update p e found cached few)),
          refl,
          refl,
          refl,
          refl,
          rw hit,
          rw hit (hit-Touches p e found cached few),
        )
  ]
