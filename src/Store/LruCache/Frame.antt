-- ===== src/Store/LruCache/Frame.antt =====
-- What an eviction leaves alone.
use tenann.Prelude.{
  ℕ, ◌+◌, ◌≤◌, ◌≡◌, refl, ◌∙◌, Bool, false, Option, none, some, List, [], ◌∷◌, ◌++◌, count, arith,
  count-append, count-erase,
}
use tenann.Store.Heap.{get, get-set}
use tenann.Store.HandleTable.Remove.{remove_lem}
use tenann.Store.LruCache.{LruHandle, LruCache, DeleterCall, deleter_call, is_durable}
use tenann.Store.LruCache.Invariant.{Inv}
use tenann.Store.LruCache.Evict.{dropped, evicted}

abbrev pub charge_of : Option LruHandle → ℕ
charge_of none = 0
charge_of (some e) = e.charge

abbrev pub durable_of : Option LruHandle → Bool
durable_of none = false
durable_of (some e) = is_durable e.priority

abbrev pub call_of : Option LruHandle → Option DeleterCall
call_of none = none
call_of (some e) = some (deleter_call e)

-- The entries `d` are taken off the list; every other entry stays as it is.
pub record Frame (s s' : LruCache) (d : List ℕ) : Type 0 where
  pub capacity : s'.capacity ≡ s.capacity
  pub lookup_count : s'.lookup_count ≡ s.lookup_count
  pub hit_count : s'.hit_count ≡ s.hit_count
  pub freed : s'.freed ≡ s.freed
  pub fewer : s'.table.elems ≤ s.table.elems
  pub unchanged : (q : ℕ) → count q d ≡ 0 → get q s'.heap ≡ get q s.heap
  pub listed : (q : ℕ) → count q s'.lru + count q d ≡ count q s.lru
  pub charges : (q : ℕ) → charge_of (get q s'.heap) ≡ charge_of (get q s.heap)
  pub calls : (q : ℕ) → call_of (get q s'.heap) ≡ call_of (get q s.heap)
  pub priorities : (q : ℕ) → durable_of (get q s'.heap) ≡ durable_of (get q s.heap)

pub Frame-refl : (s : LruCache) → Frame s s []
Frame-refl s = record {
  capacity = refl;
  lookup_count = refl;
  hit_count = refl;
  freed = refl;
  fewer = omega arith;
  unchanged = λ q _. refl;
  listed = λ q. omega arith;
  charges = λ q. refl;
  calls = λ q. refl;
  priorities = λ q. refl;
}

pub Frame-trans :
    {s t u : LruCache} {d d' : List ℕ} → Frame s t d → Frame t u d' → Frame s u (d ++ d')
Frame-trans {d = d} {d' = d'} f g = record {
  capacity = g.capacity ∙ f.capacity;
  lookup_count = g.lookup_count ∙ f.lookup_count;
  hit_count = g.hit_count ∙ f.hit_count;
  freed = g.freed ∙ f.freed;
  fewer = omega (arith, f.fewer, g.fewer);
  unchanged = λ q h.
      g.unchanged q (omega (arith, count-append q d d'))
      ∙ f.unchanged q (omega (arith, count-append q d d'));
  listed = λ q. omega (arith, count-append q d d', f.listed q, g.listed q);
  charges = λ q. g.charges q ∙ f.charges q;
  calls = λ q. g.calls q ∙ f.calls q;
  priorities = λ q. g.priorities q ∙ f.priorities q;
}

pub evicted-Frame :
    {held pending : List ℕ} {s : LruCache} (v : Inv held pending s) (p : ℕ) (e : LruHandle)
    → get p s.heap ≡ some e
    → count p s.lru ≡ 1
    → Frame s (evicted p e s) (p ∷ [])
evicted-Frame {s = s} v p e found once =
    let (_, _, _, fewer) = remove_lem e.key e.hash s.table v.table_valid in
    record {
      capacity = refl;
      lookup_count = refl;
      hit_count = refl;
      freed = refl;
      fewer = fewer;
      unchanged = λ q h. ground (arith, h, get-set p q e (dropped e) s.heap found);
      listed = λ q. ground (arith, once, count-erase p q s.lru);
      charges = λ q. ground (arith, found, get-set p q e (dropped e) s.heap found);
      calls = λ q. ground (arith, found, get-set p q e (dropped e) s.heap found);
      priorities = λ q. ground (arith, found, get-set p q e (dropped e) s.heap found);
    }
