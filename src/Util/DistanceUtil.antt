-- ===== src/Util/DistanceUtil.antt =====
-- ReserveTopK of util/distance_util.h. A distance is a natural number: the code only compares
-- distances, and none is NaN. An int64 is its 64-bit pattern. The loops count in an int, which is enough for
-- fewer than 2 ^ 31 entries.
pub mod Cosine
pub mod TopK
use tenann.Util.PriorityQueue.{collect, fill}
use tenann.Prelude.{
  ℕ, zero, suc, ◌+◌, ◌-◌, ◌%◌, ◌^◌, Bool, true, false, Option, some, List, [], ◌∷◌, ◌==◌, ltb,
  if◌then◌else◌, check, ◌>>◌, length, map,
}

-- NodeDistCloser and NodeDistFarther.
pub record NodeDist : Type 0 where
  pub d : ℕ
  pub id : ℕ

-- An int64 that was converted to int and back.
abbrev pub narrow : ℕ → ℕ
narrow id = let low = id % 2 ^ 32 in if ltb low (2 ^ 31) then low else low + 2 ^ 64 - 2 ^ 32

-- `operator<` of the two node types: NodeDistCloser for the ascending order.
abbrev pub less : Bool → NodeDist → NodeDist → Bool
less true a b = ltb a.d b.d
less false a b = ltb b.d a.d

-- The nodes in the order of the input.
abbrev pub nodes : List ℕ → List ℕ → List NodeDist
nodes (id ∷ ids) (dis ∷ distances) = record { d = dis; id = narrow id } ∷ nodes ids distances
nodes _ _ = []

-- The vectors of ids and of distances afterwards; vectors of different sizes are an exception.
unfoldable pub reserve_top_k : List ℕ → List ℕ → ℕ → Bool → Option (List ℕ × List ℕ)
reserve_top_k ids distances k ascending = do
  check (length ids == length distances)
  let out = fill (collect (less ascending) k (nodes ids distances) []) []
  some (map (λ n. n.id) out, map (λ n. n.d) out)
