-- ===== src/Store/LruCache/Stays.antt =====
-- An entry that is given back while there is room for it stays in the cache.
use tenann.Prelude.{ℕ, ◌^◌, ◌<◌, ◌≡◌, refl, subst, false, none, some, List, [], ◌∷◌, arith}
use tenann.Store.CacheKey.{CacheKey}
use tenann.Store.Heap.{get, get-set}
use tenann.Store.HandleTable
use tenann.Store.HandleTable.{HandleTable}
use tenann.Store.HandleTable.Insert.{insert_lem}
use tenann.Store.LruCache.{
  LruHandle, LruCache, CachePriority, add64, over, insert, lookup, release, evict_from_lru,
  evict_normal, evict_durable, replace_old, free_all,
}
use tenann.Store.LruCache.Client.Safety.{same_result}
use tenann.Store.LruCache.Invariant.{Inv}
use tenann.Store.LruCache.Insert.{insert_cache_lem, fresh_entry}
use tenann.Store.LruCache.Lookup.{used, hit_state, lookup_hit}
use tenann.Store.LruCache.Release.{release_lem}

module _ {held : List ℕ} (s : LruCache) (v : Inv held [] s) (key : CacheKey)
    (hash p value charge deleter : ℕ) (priority : CachePriority) where
  abbrev entry : LruHandle
  entry = fresh_entry key hash value charge deleter priority

  -- The state after an insertion that evicts and replaces nothing.
  abbrev added : HandleTable → LruCache
  added table = record s { heap = (p, entry) ∷ s.heap; table = table; usage = add64 s.usage charge }

  -- There is room for the charge, nothing has the key, and the address is new.
  pub record Fits : Type 0 where
    pub free : get p s.heap ≡ none
    pub few : s.table.elems < 2 ^ 31
    pub miss : HandleTable.lookup key hash s.table ≡ none
    pub fits : over charge s ≡ false

  insert-added :
      Fits
      → (table : HandleTable) × (insert p key hash value charge deleter priority s
          ≡ some (added table))
        × Inv (p ∷ held) [] (added table)
        × (get p (added table).heap ≡ some entry)
  unfolding insert evict_from_lru evict_normal evict_durable replace_old free_all
  insert-added f =
      let (table, put, _, _) =
        insert_lem (record { hash = hash; key = key; ptr = p }) s.table v.table_valid f.few in
      let runs : insert p key hash value charge deleter priority s ≡ some (added table) =
        ground (arith, f.fits, put, f.miss) in
      let (_, _, s', runs', r) =
        insert_cache_lem s v p key hash value charge deleter priority f.free f.few in
      let same = same_result runs' runs in
      (
        table,
        runs,
        subst (Inv (p ∷ held) []) same r.inv,
        subst (λ t. get p t.heap ≡ some entry) same r.found,
      )

  -- The states after the insertion, the release and the lookup, and the entry in the first and the last.
  pub record Stays (s₁ s₂ s₃ : LruCache) : Type 0 where
    pub inserted : insert p key hash value charge deleter priority s ≡ some s₁
    pub entry₁ : get p s₁.heap ≡ some entry
    pub released : release (some p) s₁ ≡ some s₂
    pub hit : lookup key hash s₂ ≡ some (s₃, some p)
    pub entry₃ : (e : LruHandle) × (get p s₃.heap ≡ some e) × (e.value ≡ value)

  pub insert-release-lookup : Fits → (s₁ s₂ s₃ : LruCache) × Stays s₁ s₂ s₃
  insert-release-lookup f =
      let (table, puts, w, there) = insert-added f in
      let s₁ = added table in
      let (e, found, s₂, drops, w₂, _, left) = release_lem s₁ w p (ground arith) in
      let same : e ≡ entry = ground (arith, found, there) in
      let e₂ : LruHandle = record entry { refs = 1 } in
      let found₂ : get p s₂.heap ≡ some e₂ = ground (arith, left, same, f.fits) in
      let tabled : HandleTable.lookup key hash s₂.table ≡ some p =
        ground (arith, found₂, w₂.cells p) in
      (
        s₁,
        s₂,
        hit_state s₂ w₂ p e₂,
        record {
          inserted = puts;
          entry₁ = there;
          released = drops;
          hit = lookup_hit s₂ w₂ key hash p e₂ tabled found₂ refl;
          entry₃ =
              (used s₂ w₂ e₂, ground (arith, get-set p p e₂ (used s₂ w₂ e₂) s₂.heap found₂), refl);
        },
      )
