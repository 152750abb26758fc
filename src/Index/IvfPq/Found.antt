-- ===== src/Index/IvfPq/Found.antt =====
-- What a range search over an IVF-PQ index finds.
use tenann.Prelude.{ℕ, Bool, Option, List, if◌then◌else◌}
use tenann.Common.Float.{Floats}
use tenann.Index.IvfPq.{IndexIvfPq, IvfPqLibrary}
use tenann.Index.IvfPq.Rows.{Row, Holds}
use tenann.Index.IvfPq.Scan.{uses_confidence}

module _ {D F : Type 0} (o : Floats F) (faiss : IvfPqLibrary D F) where
  module _ (ix : IndexIvfPq D F) (rows : ℕ → List (Row F)) (h : Holds ix rows)
      (sel : Option (ℕ → Bool)) (confidence radius : F) where
    abbrev bound : F
    bound = if uses_confidence o faiss confidence then faiss.sqrt radius else radius
