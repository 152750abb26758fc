-- ===== src/Store/LruCache/Victims.antt =====
-- The order of eviction, described by itself: first the normal entries and then the durable ones,
-- each from the oldest to the newest, until the charge fits.
use tenann.Prelude.{ℕ, ◌≡◌, refl, ◌∙◌, true, false, List, [], ◌∷◌, ◌++◌, ltb, if◌then◌else◌, arith}
use tenann.Store.Heap.{get}
use tenann.Store.LruCache.{LruHandle, LruCache, add64, sub64}
use tenann.Store.LruCache.Frame.{charge_of, durable_of, Frame}

abbrev pub Cells : Type 0
Cells = List (ℕ × LruHandle)

abbrev pub normals : Cells → List ℕ → List ℕ
normals heap [] = []
normals heap (p ∷ ps) = if durable_of (get p heap) then normals heap ps else p ∷ normals heap ps

abbrev pub durables : Cells → List ℕ → List ℕ
durables heap [] = []
durables heap (p ∷ ps) = if durable_of (get p heap) then p ∷ durables heap ps else durables heap ps

-- The entries of a list that go, in order, while the usage and the charge exceed the capacity.
unfoldable pub victims : Cells → ℕ → ℕ → ℕ → List ℕ → List ℕ
victims heap charge capacity usage [] = []
victims heap charge capacity usage (p ∷ ps) =
    let rest = victims heap charge capacity (sub64 usage (charge_of (get p heap))) ps in
    if ltb capacity (add64 usage charge) then p ∷ rest else []

-- The usage when they have gone.
abbrev pub drain : Cells → ℕ → List ℕ → ℕ
drain heap usage [] = usage
drain heap usage (p ∷ ps) = drain heap (sub64 usage (charge_of (get p heap))) ps

pub victims_fits :
    (heap : Cells) (charge capacity usage : ℕ) (ps : List ℕ)
    → ltb capacity (add64 usage charge) ≡ false
    → victims heap charge capacity usage ps ≡ []
unfolding victims
victims_fits heap charge capacity usage [] h = refl
victims_fits heap charge capacity usage (p ∷ ps) h = ground (arith, h)

pub victims_over :
    (heap : Cells) (charge capacity usage p : ℕ) (ps : List ℕ)
    → ltb capacity (add64 usage charge) ≡ true
    → victims heap charge capacity usage (p ∷ ps)
      ≡ p ∷ victims heap charge capacity (sub64 usage (charge_of (get p heap))) ps
unfolding victims
victims_over heap charge capacity usage p ps h = ground (arith, h)

-- Going through two lists is going through the first and then, from what is left, the second.
pub victims-append :
    (heap : Cells) (charge capacity usage : ℕ) (ps qs : List ℕ)
    → let d = victims heap charge capacity usage ps in
      victims heap charge capacity usage (ps ++ qs)
      ≡ d ++ victims heap charge capacity (drain heap usage d) qs
unfolding victims
victims-append heap charge capacity usage [] qs = refl
victims-append heap charge capacity usage (p ∷ ps) qs = ground (
  arith,
  victims-append heap charge capacity (sub64 usage (charge_of (get p heap))) ps qs,
  victims_fits heap charge capacity usage qs,
)

module _ {s s' : LruCache} {d : List ℕ} (f : Frame s s' d) where
  pub victims-Frame :
      (charge capacity usage : ℕ) (ps : List ℕ)
      → victims s'.heap charge capacity usage ps ≡ victims s.heap charge capacity usage ps
  unfolding victims
  victims-Frame charge capacity usage [] = refl
  victims-Frame charge capacity usage (p ∷ ps) = ground (
    arith,
    f.charges p,
    victims-Frame charge capacity (sub64 usage (charge_of (get p s.heap))) ps,
  )

  pub drain-Frame : (usage : ℕ) (ps : List ℕ) → drain s'.heap usage ps ≡ drain s.heap usage ps
  drain-Frame usage [] = refl
  drain-Frame usage (p ∷ ps) =
      ground (arith, f.charges p, drain-Frame (sub64 usage (charge_of (get p s.heap))) ps)

  pub normals-Frame : (ps : List ℕ) → normals s'.heap ps ≡ normals s.heap ps
  normals-Frame [] = refl
  normals-Frame (p ∷ ps) = ground (arith, f.priorities p, normals-Frame ps)

  pub durables-Frame : (ps : List ℕ) → durables s'.heap ps ≡ durables s.heap ps
  durables-Frame [] = refl
  durables-Frame (p ∷ ps) = ground (arith, f.priorities p, durables-Frame ps)

-- Every address of the list is that of a durable entry.
abbrev pub AllDurable : Cells → List ℕ → Type 0
AllDurable heap [] = Unit {0}
AllDurable heap (p ∷ ps) = (durable_of (get p heap) ≡ true) × AllDurable heap ps

pub durables-AllDurable : (heap : Cells) (ps : List ℕ) → AllDurable heap (durables heap ps)
durables-AllDurable heap [] = tt
durables-AllDurable heap (p ∷ ps) = ground (arith, durables-AllDurable heap ps)

pub AllDurable-Frame :
    {s s' : LruCache} {d : List ℕ}
    → Frame s s' d
    → (ps : List ℕ) → AllDurable s.heap ps
    → AllDurable s'.heap ps
AllDurable-Frame f [] a = tt
AllDurable-Frame f (p ∷ ps) a = (f.priorities p ∙ a.0, AllDurable-Frame f ps a.1)
