-- ===== src/Index/Tests.antt =====
-- A toy JSON library, and metas in it.
pub mod Cache
pub mod File
pub mod IvfPq
use Prim.Native.String.{String}
use text.Mathlib.Text.{◌==◌ as str_eq}
use text.Mathlib.TextPositions.{eq_refl}
use tenann.Prelude.{
  ℕ, ◌-◌, ◌*◌, ◌/◌, ◌^◌, ◌≡◌, refl, Bool, true, false, ◌||◌, none, List, [], ◌∷◌, arith,
  if◌then◌else◌, leb, ltb,
}
use tenann.Common.Float.{Floats}
use tenann.Common.Json.{JsonLibrary, Documented}
use tenann.Common.Outcome.{Outcome, ok, error, fault, json_exception, ◌>>=◌}
use tenann.Index.Parameters.Valid.{IsIvfPqIndex}
use tenann.Index.Parameters.MinRows.{
  IsMax, ivf_pq_min_rows_per_cluster, get_ivf_pq_min_rows, get_ivf_pq_min_rows-IsMax,
}
use tenann.Store.IndexMeta.{
  IndexMeta, new_meta, set_meta_version, set_index_family, set_index_type, meta_version,
  index_family, index_type, check_integrity, check_or_throw_error, parse, get_required,
  get_optional,
}
use tenann.Store.IndexMeta.Integrity.{parse-getters, setters-getters}
use tenann.Factory.{
  create_reader_from_meta, create_writer_from_meta, create_builder_from_meta,
  create_searcher_from_meta, new_hnsw_builder, faiss_hnsw_index_builder, faiss_index_writer,
  new_ivf_pq_searcher, faiss_ivf_pq_ann_searcher, index_ivf_pq_reader,
}
use tenann.Factory.Kinds.{BuilderFor, SearcherFor, create_builder-for, create_searcher-for}
use tenann.Index.Parameters.{
  VectorIndexCommonParams, FaissIvfPqIndexParams, writer_default, reader_default,
  ivf_pq_search_default, fetch_reader, fetch_ivf_pq_search, validate_ivf_pq_search, fetch_writer,
  fetch_extra, optional_to, validate_common, validate_ivf_pq_index, fetch_common,
  fetch_ivf_pq_index,
}

mutual
  data Toy : Type 0 where
    nothing : Toy
    num : ℕ → Toy
    flag : Bool → Toy
    obj : Fields → Toy

  data Fields : Type 0 where
    end : Fields
    field : String → Toy → Fields → Fields

abbrev has : String → Fields → Bool
has k end = false
has k (field j v fs) = str_eq j k || has k fs

abbrev find : String → Fields → Outcome Toy
find k end = fault
find k (field j v fs) = if str_eq j k then ok v else find k fs

abbrev toy_contains : String → Toy → Bool
toy_contains k (obj fs) = has k fs
toy_contains k _ = false

abbrev toy_at : String → Toy → Outcome Toy
toy_at k (obj fs) = find k fs
toy_at k _ = error json_exception

abbrev toy_put : String → Toy → Toy → Outcome Toy
toy_put k v nothing = ok (obj (field k v end))
toy_put k v (obj fs) = ok (obj (field k v fs))
toy_put k v _ = error json_exception

abbrev toy_num : Toy → Outcome ℕ
toy_num (num n) = ok n
toy_num _ = error json_exception

abbrev toy_flag : Toy → Outcome Bool
toy_flag (flag b) = ok b
toy_flag _ = error json_exception

abbrev IsToyObject : Toy → Type 0
IsToyObject nothing = Unit {0}
IsToyObject (obj fs) = Unit {0}
IsToyObject _ = ⊥

abbrev flat : List (String × Toy) → Fields
flat [] = end
flat ((k, v) ∷ kvs) = field k v (flat kvs)

-- A meta of the given type with common, index and search parameters.
abbrev document : ℕ → Toy
document type = obj (
    flat (
      ("meta_version", num 0)
      ∷ ("family", num 0)
      ∷ ("type", num type)
      ∷ ("common", obj (flat (("dim", num 128) ∷ ("metric_type", num 1) ∷ [])))
      ∷ ("index", obj (flat (("M", num 32) ∷ [])))
      ∷ ("search", nothing)
      ∷ ("extra", nothing)
      ∷ ("write_index", nothing)
      ∷ ("read_index", nothing)
      ∷ []))

abbrev toy : JsonLibrary Toy ℕ
toy = record {
  null = nothing;
  contains = toy_contains;
  at = toy_at;
  put = toy_put;
  items = λ j. [];
  from_int = num;
  is_number_integer = λ j. true;
  is_boolean = λ j. true;
  get_int = toy_num;
  get_size = toy_num;
  get_bool = toy_flag;
  get_float = toy_num;
  get_string = λ j. error json_exception;
  parse = λ text. ok (document 0);
  from_msgpack = λ buffer. ok nothing;
}

abbrev meta_of : ℕ → IndexMeta Toy
meta_of type = record { meta_json = document type }

toy-puts :
    (k : String) (v j : Toy)
    → IsToyObject j
    → (j' : Toy) × (toy_put k v j ≡ ok j')
      × IsToyObject j'
      × ((i : String) → toy_contains i j' ≡ (str_eq k i || toy_contains i j))
      × (toy_at k j' ≡ ok v)
      × ((i : String) → toy_contains i j ≡ true → str_eq k i ≡ false → toy_at i j' ≡ toy_at i j)
toy-puts k v nothing is =
    (obj (field k v end), refl, tt, λ i. refl, simp eq_refl, λ i h e. absurd (ground (arith, h)))
toy-puts k v (obj fs) is =
    (obj (field k v fs), refl, tt, λ i. refl, simp eq_refl, λ i h e. ground (arith, e))
toy-puts k v (num n) is = absurd is
toy-puts k v (flag b) is = absurd is

toy-Documented : Documented toy IsToyObject
toy-Documented = record { null_is_object = tt; puts = toy-puts; reads_int = λ n small. refl }

get_ivf_pq_min_rows-IsMax_example :
    (p : FaissIvfPqIndexParams) × (fetch_ivf_pq_index toy (meta_of 2) ≡ ok p)
    × IsIvfPqIndex toy (meta_of 2) p
    × IsMax (39 * p.nlist) (39 * 2 ^ p.nbits) 9984
unfolding get_ivf_pq_min_rows fetch_ivf_pq_index optional_to get_optional validate_ivf_pq_index
get_ivf_pq_min_rows-IsMax_example =
    get_ivf_pq_min_rows-IsMax toy (meta_of 2) ivf_pq_min_rows_per_cluster 9984 (omega arith) refl

parse-getters_example :
    (toy.parse "{}" ≡ ok (document 0))
    × (meta_version toy (meta_of 0) ≡ (toy_at "meta_version" (document 0) >>= toy_num))
    × (index_family toy (meta_of 0) ≡ (toy_at "family" (document 0) >>= toy_num))
    × (index_type toy (meta_of 0) ≡ (toy_at "type" (document 0) >>= toy_num))
unfolding parse check_or_throw_error check_integrity
parse-getters_example = parse-getters toy "{}" (meta_of 0) refl

setters-getters_example :
    (m : IndexMeta Toy) × ((do
      a ← new_meta toy
      b ← set_meta_version toy 1 a
      c ← set_index_family toy 0 b
      set_index_type toy 2 c)
      ≡ ok m)
    × (check_integrity toy m ≡ none)
    × (meta_version toy m ≡ ok 1)
    × (index_family toy m ≡ ok 0)
    × (index_type toy m ≡ ok 2)
setters-getters_example =
    setters-getters toy toy-Documented 1 0 2 (omega arith) (omega arith) (omega arith)

abbrev pub order : Floats ℕ
order = record {
  lt = ltb;
  le = leb;
  of_int = λ n. n;
  neg = λ n. n;
  sub = ◌-◌;
  mul = ◌*◌;
  div = ◌/◌;
}

abbrev some_common : VectorIndexCommonParams
some_common = record { dim = 128; metric_type = 1; is_vector_normed = false }

create_builder-for_example :
    (type : ℕ) × (index_type toy (meta_of 0) ≡ ok type)
    × BuilderFor toy (meta_of 0) type (
        faiss_hnsw_index_builder
          (faiss_index_writer writer_default)
          some_common
          (record { comments = "" }))
unfolding create_builder_from_meta new_hnsw_builder create_writer_from_meta index_type fetch_writer
    fetch_common fetch_extra get_required optional_to get_optional validate_common
create_builder-for_example =
    create_builder-for toy (meta_of 0) order
      (faiss_hnsw_index_builder (faiss_index_writer writer_default) some_common
        (record { comments = "" }))
      refl

create_searcher-for_example :
    (type : ℕ) × (index_type toy (meta_of 2) ≡ ok type)
    × SearcherFor toy (meta_of 2) type (
        faiss_ivf_pq_ann_searcher
          (index_ivf_pq_reader reader_default)
          some_common
          (ivf_pq_search_default order))
unfolding create_searcher_from_meta new_ivf_pq_searcher create_reader_from_meta index_type
    fetch_reader fetch_common fetch_ivf_pq_search get_required optional_to get_optional
    validate_common validate_ivf_pq_search
create_searcher-for_example =
    create_searcher-for toy (meta_of 2) order
      (faiss_ivf_pq_ann_searcher (index_ivf_pq_reader reader_default) some_common
        (ivf_pq_search_default order))
      refl
