-- ===== src/Index/IvfPqFile/Container.antt =====
-- A whole file: IndexIvfPqReader::ReadIndexFile after IndexIvfPqWriter::WriteIndexFile.
use mathlib.Core.List.{append_assoc, append-nil}
use tenann.Prelude.{
  ℕ, true, ◌^◌, subst, ◌<◌, ◌≡◌, refl, some, List, [], ◌∷◌, ◌++◌, arith, ltb, length,
}
use tenann.Index.IvfPqFile.{
  IvfPq, IvfPqIndexFile, plain, transformed, FaissIo, bytes_of, write_vectors, read_vectors,
  write_index_header, write_transforms, write_index_file, read_ivf_pq, read_transforms,
  read_index_file, iw_pq, ix_pt,
}
use tenann.Index.IvfPqFile.RoundTrip.{
  read1-u32, read1-u64, AreVectors, IsIndexHeader, read_vectors-write_vectors,
  read_index_header-write_index_header,
}

-- What faiss writes, it reads back, and no more.
pub record ReadsBack {B T : Type 0} (io : FaissIo B T) : Type 0 where
  pub body : (b : B) (f : List ℕ) → io.read_body (io.write_body b ++ f) ≡ some (b, f)
  pub transform : (t : T) (f : List ℕ) → io.read_transform (io.write_transform t ++ f) ≡ some (t, f)

-- The confidence is a float, and the vectors of errors are ones that the macro takes.
abbrev pub IsIvfPq : {B : Type 0} → IvfPq B → Type 0
IsIvfPq x =
    (x.range_search_confidence < 2 ^ 32)
    × (length x.reconstruction_errors < 2 ^ 64)
    × AreVectors x.reconstruction_errors

unfoldable pub IsIvfPqIndexFile : {B T : Type 0} → IvfPqIndexFile B T → Type 0
IsIvfPqIndexFile (plain x) = IsIvfPq x
IsIvfPqIndexFile (transformed h chain x) = IsIndexHeader h × (length chain < 2 ^ 31) × IsIvfPq x

module _ {B T : Type 0} (io : FaissIo B T) (laws : ReadsBack io) where
  read_transforms-write_transforms :
      (ts : List T) (f : List ℕ)
      → read_transforms io (length ts) (write_transforms io ts ++ f) ≡ some (ts, f)
  unfolding read_transforms write_transforms
  read_transforms-write_transforms [] f = refl
  read_transforms-write_transforms (t ∷ ts) f = rw (
    append_assoc (io.write_transform t) (write_transforms io ts) f,
    laws.transform t (write_transforms io ts ++ f),
    read_transforms-write_transforms ts f,
  )

  -- What stands behind the magic number.
  abbrev body_bytes : IvfPq B → List ℕ
  body_bytes x =
      let es = x.reconstruction_errors in
      let f1 = bytes_of 8 (length es) ++ write_vectors es in
      io.write_body x.body ++ (bytes_of 4 x.range_search_confidence ++ f1)

  read_ivf_pq-write : (x : IvfPq B) → IsIvfPq x → read_ivf_pq io (body_bytes x) ≡ some (x, [])
  unfolding read_ivf_pq
  read_ivf_pq-write x (confidence, errors, valid) =
      let es = x.reconstruction_errors in
      let f1 = bytes_of 8 (length es) ++ write_vectors es in
      let vectors : read_vectors (length es) (write_vectors es) ≡ some (es, []) =
        subst (λ f. read_vectors (length es) f ≡ some (es, [])) (append-nil (write_vectors es))
          (read_vectors-write_vectors es [] valid) in
      rw (
        laws.body x.body (bytes_of 4 x.range_search_confidence ++ f1),
        read1-u32 x.range_search_confidence f1 confidence,
        read1-u64 (length es) (write_vectors es) errors,
        vectors,
      )

  -- A file that the writer makes of an IVF-PQ index, with or without transforms before it, reads back as
  -- that index, where its numbers fit their fields, the vectors of errors are shorter than the macro of
  -- faiss allows, and faiss reads back what it writes itself.
  pub read_index_file-write_index_file :
      (x : IvfPqIndexFile B T)
      → IsIvfPqIndexFile x
      → read_index_file io (write_index_file io x) ≡ some x
  unfolding read_index_file write_index_file IsIvfPqIndexFile
  read_index_file-write_index_file (plain x) h =
      let f = body_bytes x in
      let whole : write_index_file io (plain x) ≡ bytes_of 4 iw_pq ++ f = simp append_assoc in
      rw (whole, read1-u32 iw_pq f (omega arith), read_ivf_pq-write x h)
  read_index_file-write_index_file (transformed hd chain x) (hd_valid, short, h) =
      let f4 = body_bytes x in
      let small : ltb (length chain) (2 ^ 31) ≡ true = ground (arith, short) in
      let f3 = bytes_of 4 iw_pq ++ f4 in
      let f2 = write_transforms io chain ++ f3 in
      let f1 = bytes_of 4 (length chain) ++ f2 in
      let f0 = write_index_header hd ++ f1 in
      let whole : write_index_file io (transformed hd chain x) ≡ bytes_of 4 ix_pt ++ f0 =
        simp append_assoc in
      rw (
        whole,
        read1-u32 ix_pt f0 (omega arith),
        read_index_header-write_index_header hd f1 hd_valid,
        read1-u32 (length chain) f2 (omega (arith, short)),
        small,
        read_transforms-write_transforms chain f3,
        read1-u32 iw_pq f4 (omega arith),
        read_ivf_pq-write x h,
      )
