-- ===== src/Util/DistanceUtil/Cosine.antt =====
-- The conversions between l2 distances and cosine similarities of util/distance_util.h.
use tenann.Prelude.{◌||◌, not, List, map}
use tenann.Common.Float.{Floats}
use tenann.Common.Outcome.{Outcome, ok, message, check, ◌>>◌}

module _ {F : Type 0} (o : Floats F) where
  abbrev pub to_cosine_similarity : F → F
  to_cosine_similarity d = o.sub (o.of_int 1) (o.div d (o.of_int 2))

  abbrev pub l2_distance_to_cosine_similarity : List F → List F
  l2_distance_to_cosine_similarity src = map to_cosine_similarity src

  abbrev pub cosine_similarity_threshold_to_l2_distance : F → Outcome F
  cosine_similarity_threshold_to_l2_distance threshold = do
    check (not (o.lt threshold (o.neg (o.of_int 1)) || o.lt (o.of_int 1) threshold))
        (message "the give cosine similarity threshold must be in range [-1, 1]")
    ok (o.mul (o.sub (o.of_int 1) threshold) (o.of_int 2))
