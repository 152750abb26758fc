-- ===== src/Index/IvfPqFile.antt =====
-- The file of an IVF-PQ index: IndexIvfPqWriter of index/index_ivfpq_writer.cc and IndexIvfPqReader of
-- index/index_ivfpq_reader.cc, around what faiss writes and reads. A file is the list of its bytes, and a
-- float is its 32-bit pattern. A result `none` is an exception.
pub mod RoundTrip
pub mod Container
use tenann.Prelude.{
  ℕ, zero, suc, ◌+◌, ◌*◌, ◌/◌, ◌%◌, ◌^◌, Bool, true, false, Option, none, some, List, [], ◌∷◌, ◌++◌,
  ◌==◌, ltb, if◌then◌else◌, length, ◌>>=◌,
}

-- An IndexPreTransform has the header of its own, its transforms and the IVF-PQ index.
pub record IndexHeader : Type 0 where
  pub d : ℕ
  pub ntotal : ℕ
  pub is_trained : Bool
  pub metric_type : ℕ
  pub metric_arg : ℕ

-- `B` is what faiss writes of an IVF-PQ index, and `T` a vector transform.
pub record IvfPq (B : Type 0) : Type 0 where
  pub body : B
  pub range_search_confidence : ℕ
  pub reconstruction_errors : List (List ℕ)

pub data IvfPqIndexFile (B T : Type 0) : Type 0 where
  plain : IvfPq B → IvfPqIndexFile B T
  transformed : IndexHeader → List T → IvfPq B → IvfPqIndexFile B T

-- Little-endian bytes of a number.
unfoldable pub bytes_of : ℕ → ℕ → List ℕ
bytes_of zero x = []
bytes_of (suc n) x = x % 256 ∷ bytes_of n (x / 256)

-- WRITE1 and READ1 of a value of `n` bytes.
unfoldable pub read1 : ℕ → List ℕ → Option (ℕ × List ℕ)
read1 zero f = some (0, f)
read1 (suc n) [] = none
read1 (suc n) (b ∷ f) = do (x, f') ← read1 n f; some (b + 256 * x, f')

-- WRITEVECTOR and READVECTOR of floats: the size, and the elements.
unfoldable pub write_floats : List ℕ → List ℕ
write_floats [] = []
write_floats (x ∷ xs) = bytes_of 4 x ++ write_floats xs

abbrev pub write_vector : List ℕ → List ℕ
write_vector xs = bytes_of 8 (length xs) ++ write_floats xs

unfoldable pub read_floats : ℕ → List ℕ → Option (List ℕ × List ℕ)
read_floats zero f = some ([], f)
read_floats (suc n) f = do (x, f') ← read1 4 f; (xs, f'') ← read_floats n f'; some (x ∷ xs, f'')

-- The macro of faiss refuses a size of 2 ^ 40 or more.
abbrev pub read_vector : List ℕ → Option (List ℕ × List ℕ)
read_vector f = do (n, f') ← read1 8 f; if ltb n (2 ^ 40) then read_floats n f' else none

-- The loops over the reconstruction errors.
unfoldable pub write_vectors : List (List ℕ) → List ℕ
write_vectors [] = []
write_vectors (xs ∷ xss) = write_vector xs ++ write_vectors xss

unfoldable pub read_vectors : ℕ → List ℕ → Option (List (List ℕ) × List ℕ)
read_vectors zero f = some ([], f)
read_vectors (suc n) f = do
  (xs, f') ← read_vector f
  (xss, f'') ← read_vectors n f'
  some (xs ∷ xss, f'')

-- `fourcc`.
abbrev pub iw_pq : ℕ
iw_pq = 73 + 256 * 119 + 256 ^ 2 * 80 + 256 ^ 3 * 81

abbrev pub ix_pt : ℕ
ix_pt = 73 + 256 * 120 + 256 ^ 2 * 80 + 256 ^ 3 * 84

abbrev pub flag : Bool → ℕ
flag true = 1
flag false = 0

-- What faiss writes and reads itself: an index behind its magic number, and a transform.
pub record FaissIo (B T : Type 0) : Type 0 where
  pub write_body : B → List ℕ
  pub read_body : List ℕ → Option (B × List ℕ)
  pub write_transform : T → List ℕ
  pub read_transform : List ℕ → Option (T × List ℕ)

abbrev pub write_index_header : IndexHeader → List ℕ
write_index_header h =
    bytes_of 4 h.d
    ++ bytes_of 8 h.ntotal
    ++ bytes_of 8 (2 ^ 20)
    ++ bytes_of 8 (2 ^ 20)
    ++ bytes_of 1 (flag h.is_trained)
    ++ bytes_of 4 h.metric_type
    ++ (if ltb 1 h.metric_type then bytes_of 4 h.metric_arg else [])

-- The metric is an int with two values, 0 and 1, below 2; a metric argument follows a larger one.
unfoldable pub read_index_header : List ℕ → Option (IndexHeader × List ℕ)
read_index_header f = do
  (d, f) ← read1 4 f
  (ntotal, f) ← read1 8 f
  (dummy, f) ← read1 8 f
  (dummy, f) ← read1 8 f
  (trained, f) ← read1 1 f
  (metric_type, f) ← read1 4 f
  (metric_arg, f) ← (if ltb 1 metric_type then read1 4 f else some (0, f))
  some (
    record {
      d = d;
      ntotal = ntotal;
      is_trained = ltb 0 trained;
      metric_type = metric_type;
      metric_arg = metric_arg;
    },
    f,
  )

module _ {B T : Type 0} (io : FaissIo B T) where
  -- The index of faiss, the confidence and the errors.
  abbrev pub write_ivf_pq : IvfPq B → List ℕ
  write_ivf_pq x =
      bytes_of 4 iw_pq
      ++ io.write_body x.body
      ++ bytes_of 4 x.range_search_confidence
      ++ bytes_of 8 (length x.reconstruction_errors)
      ++ write_vectors x.reconstruction_errors

  unfoldable pub write_transforms : List T → List ℕ
  write_transforms [] = []
  write_transforms (t ∷ ts) = io.write_transform t ++ write_transforms ts

  unfoldable pub write_index_file : IvfPqIndexFile B T → List ℕ
  write_index_file (plain x) = write_ivf_pq x
  write_index_file (transformed h chain x) =
      bytes_of 4 ix_pt
      ++ write_index_header h
      ++ bytes_of 4 (length chain)
      ++ write_transforms chain
      ++ write_ivf_pq x

  -- Behind the magic number.
  unfoldable pub read_ivf_pq : List ℕ → Option (IvfPq B × List ℕ)
  read_ivf_pq f = do
    (body, f) ← io.read_body f
    (confidence, f) ← read1 4 f
    (num_invlists, f) ← read1 8 f
    (errors, f) ← read_vectors num_invlists f
    some (
      record { body = body; range_search_confidence = confidence; reconstruction_errors = errors },
      f,
    )

  unfoldable pub read_transforms : ℕ → List ℕ → Option (List T × List ℕ)
  read_transforms zero f = some ([], f)
  read_transforms (suc n) f = do
    (t, f) ← io.read_transform f
    (ts, f) ← read_transforms n f
    some (t ∷ ts, f)

  -- The number of transforms is an int: one of 2 ^ 31 or more is negative, and nothing is read.
  -- Another magic number goes to the reader of faiss, which is left out here: `none`. The magic number
  -- of the index behind a transform only tells a legacy format, which is left out too.
  unfoldable pub read_index_file : List ℕ → Option (IvfPqIndexFile B T)
  read_index_file f = do
    (h, f) ← read1 4 f
    let is_plain = (do (x, f) ← read_ivf_pq f; some (plain x))
    let is_transformed = (do
      (header, f) ← read_index_header f
      (nt, f) ← read1 4 f
      (chain, f) ← read_transforms (if ltb nt (2 ^ 31) then nt else 0) f
      (h, f) ← read1 4 f
      (x, f) ← read_ivf_pq f
      some (transformed header chain x))
    if h == iw_pq then is_plain else (if h == ix_pt then is_transformed else none)
