-- ===== src/Index/Tests/File.antt =====
-- The file of an IVF-PQ index behind a transform, with a faiss that writes one byte of a body and of a
-- transform.
use tenann.Prelude.{
  ℕ, zero, suc, ◌≡◌, refl, Bool, true, false, Option, none, some, List, [], ◌∷◌, ◌++◌, arith,
}
use tenann.Index.IvfPqFile.{
  IvfPqIndexFile, transformed, FaissIo, write_index_file, read_index_file, flag,
}
use tenann.Index.IvfPqFile.Container.{ReadsBack, IsIvfPqIndexFile, read_index_file-write_index_file}

abbrev read_byte : List ℕ → Option (Bool × List ℕ)
read_byte [] = none
read_byte (zero ∷ f) = some (false, f)
read_byte (suc b ∷ f) = some (true, f)

abbrev byte_io : FaissIo Bool Bool
byte_io = record {
  write_body = λ b. flag b ∷ [];
  read_body = read_byte;
  write_transform = λ t. flag t ∷ [];
  read_transform = read_byte;
}

read_byte-flag : (b : Bool) (f : List ℕ) → read_byte ((flag b ∷ []) ++ f) ≡ some (b, f)
read_byte-flag true f = refl
read_byte-flag false f = refl

byte_io-ReadsBack : ReadsBack byte_io
byte_io-ReadsBack = record { body = read_byte-flag; transform = read_byte-flag }

-- Two lists with errors of one and of no vector.
abbrev normed : IvfPqIndexFile Bool Bool
normed =
    transformed
      (record { d = 128; ntotal = 1000; is_trained = true; metric_type = 1; metric_arg = 0 })
      (true ∷ [])
      (record {
        body = false;
        range_search_confidence = 1065353216;
        reconstruction_errors = (1056964608 ∷ []) ∷ [] ∷ [];
      })

normed-IsIvfPqIndexFile : IsIvfPqIndexFile normed
unfolding IsIvfPqIndexFile
normed-IsIvfPqIndexFile = ground arith

read_index_file-write_index_file_example :
    read_index_file byte_io (write_index_file byte_io normed) ≡ some normed
read_index_file-write_index_file_example =
    read_index_file-write_index_file byte_io byte_io-ReadsBack normed normed-IsIvfPqIndexFile
