-- ===== src/Store/LruCache/Reheld.antt =====
-- A second handle to a new entry, taken by a lookup and given back.
use tenann.Prelude.{ℕ, ◌+◌, ◌-◌, ap, ◌^◌, ◌<◌, ◌≡◌, refl, none, some, List, [], arith, length}
use tenann.Store.CacheKey.{CacheKey, u32_mod}
use tenann.Store.Heap.{get, get-set}
use tenann.Store.HandleTable
use tenann.Store.HandleTable.{HandleTable}
use tenann.Store.HandleTable.Chain.{same_self}
use tenann.Store.LruCache.{LruHandle, LruCache, CachePriority, insert, lookup, release}
use tenann.Store.LruCache.Invariant.{Inv}
use tenann.Store.LruCache.Insert.{insert_cache_lem, fresh_entry}
use tenann.Store.LruCache.Lookup.{used, hit_state, hit-Update, lookup_hit}
use tenann.Store.LruCache.Release.{release_lem}
use tenann.Store.LruCache.Update.{update-Inv}

module _ {held : List ℕ} (s : LruCache) (v : Inv held [] s) (key : CacheKey)
    (hash p value charge deleter : ℕ) (priority : CachePriority) where
  -- The states after the insertion, the lookup and the release, and the entry in the last two.
  pub record Reheld (s₁ s₂ s₃ : LruCache) : Type 0 where
    pub inserted : insert p key hash value charge deleter priority s ≡ some s₁
    pub hit : lookup key hash s₁ ≡ some (s₂, some p)
    pub released : release (some p) s₂ ≡ some s₃
    pub entry₂ : (e : LruHandle) × (get p s₂.heap ≡ some e) × (e.hash ≡ hash) × (e.value ≡ value)
    pub entry₃ : (e : LruHandle) × (get p s₃.heap ≡ some e) × (e.value ≡ value)

  pub insert-lookup-release :
      get p s.heap ≡ none
      → s.table.elems < 2 ^ 31
      → length held + 3 < u32_mod
      → (s₁ s₂ s₃ : LruCache) × Reheld s₁ s₂ s₃
  insert-lookup-release fresh few room =
      let (_, _, s₁, puts, r) =
        insert_cache_lem s v p key hash value charge deleter priority fresh few in
      let e₁ = fresh_entry key hash value charge deleter priority in
      let there : HandleTable.lookup key hash s₁.table ≡ some p =
        ground (arith, r.map key hash, same_self key hash) in
      let s₂ = hit_state s₁ r.inv p e₁ in
      let w =
        update-Inv r.inv p e₁ (used s₁ r.inv e₁) r.found
          (hit-Update s₁ r.inv p e₁ r.found refl (omega (arith, room))) in
      let found₂ : get p s₂.heap ≡ some (used s₁ r.inv e₁) =
        ground (arith, get-set p p e₁ (used s₁ r.inv e₁) s₁.heap r.found) in
      let (e, found, s₃, drops, _, _, left) = release_lem s₂ w p (ground arith) in
      let same : e ≡ used s₁ r.inv e₁ = ground (arith, found, found₂) in
      let refs : e.refs ≡ 3 = ap (λ e. e.refs) same in
      let hash_kept : e.hash ≡ hash = ap (λ e. e.hash) same in
      let value_kept : e.value ≡ value = ap (λ e. e.value) same in
      let stays : get p s₃.heap ≡ some (record e { refs = e.refs - 1 }) =
        ground (arith, left, refs) in
      (
        s₁,
        s₂,
        s₃,
        record {
          inserted = puts;
          hit = lookup_hit s₁ r.inv key hash p e₁ there r.found refl;
          released = drops;
          entry₂ = (e, found, hash_kept, value_kept);
          entry₃ = (record e { refs = e.refs - 1 }, stays, value_kept);
        },
      )
