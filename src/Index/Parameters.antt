-- ===== src/Index/Parameters.antt =====
-- The parameter structures of index/parameters.h and FetchParameters of index/parameter_serde.h. An
-- int is its 32-bit pattern, so a negative one is over every bound; a size_t is a number.
pub mod Valid
pub mod MinRows
use Prim.Native.String.{String}
use tenann.Prelude.{
  ℕ, ◌-◌, ◌^◌, Bool, true, false, not, ◌||◌, Option, none, some, if◌then◌else◌, ltb,
}
use tenann.Common.Float.{Floats}
use tenann.Common.Json.{JsonLibrary}
use tenann.Common.Outcome.{Outcome, ok, error, out_of_range, check, ◌>>=◌, ◌>>◌}
use tenann.Store.IndexMeta.{IndexMeta, get_optional, get_required}

pub record VectorIndexCommonParams : Type 0 where
  pub dim : ℕ
  pub metric_type : ℕ
  pub is_vector_normed : Bool

pub record VectorIndexExtraParams : Type 0 where
  pub comments : String

pub record FaissIvfPqIndexParams : Type 0 where
  pub nlist : ℕ
  pub m : ℕ
  pub nbits : ℕ

pub record FaissIvfPqSearchParams (F : Type 0) : Type 0 where
  pub nprobe : ℕ
  pub max_codes : ℕ
  pub scan_table_threshold : ℕ
  pub polysemous_ht : ℕ
  pub range_search_confidence : F

pub record FaissHnswIndexParams : Type 0 where
  pub m : ℕ
  pub ef_construction : ℕ

pub record FaissHnswSearchParams : Type 0 where
  pub ef_search : ℕ
  pub check_relative_distance : Bool

pub record IndexWriterOptions : Type 0 where
  pub write_index_cache : Bool
  pub custom_cache_key : String

pub record IndexReaderOptions : Type 0 where
  pub cache_index_file : Bool
  pub custom_cache_key : String
  pub force_read_and_overwrite_cache : Bool
  pub cache_index_block : Bool

abbrev pub int_max : ℕ
int_max = 2 ^ 31 - 1

-- ASSERT_PARAM_IN_RANGE.
abbrev pub assert_in_range : String → ℕ → ℕ → ℕ → Outcome (Unit {0})
assert_in_range name low high x = check (not (ltb x low || ltb high x)) (out_of_range name)

-- The default values.
abbrev pub common_default : VectorIndexCommonParams
common_default = record { dim = 0; metric_type = 0; is_vector_normed = false }

abbrev pub ivf_pq_index_default : FaissIvfPqIndexParams
ivf_pq_index_default = record { nlist = 16; m = 2; nbits = 8 }

abbrev pub ivf_pq_search_default : {F : Type 0} → Floats F → FaissIvfPqSearchParams F
ivf_pq_search_default o = record {
  nprobe = 1;
  max_codes = 0;
  scan_table_threshold = 0;
  polysemous_ht = 0;
  range_search_confidence = o.of_int 0;
}

abbrev pub hnsw_index_default : FaissHnswIndexParams
hnsw_index_default = record { m = 16; ef_construction = 40 }

abbrev pub hnsw_search_default : FaissHnswSearchParams
hnsw_search_default = record { ef_search = 16; check_relative_distance = true }

abbrev pub writer_default : IndexWriterOptions
writer_default = record { write_index_cache = false; custom_cache_key = "" }

abbrev pub reader_default : IndexReaderOptions
reader_default = record {
  cache_index_file = false;
  custom_cache_key = "";
  force_read_and_overwrite_cache = false;
  cache_index_block = false;
}

-- `Validate` of each structure that checks something.
unfoldable pub validate_common : VectorIndexCommonParams → Outcome (Unit {0})
validate_common p = do
  assert_in_range "dim" 1 65536 p.dim
  assert_in_range "metric_type" 0 4 p.metric_type

unfoldable pub validate_ivf_pq_index : FaissIvfPqIndexParams → Outcome (Unit {0})
validate_ivf_pq_index p = do
  assert_in_range "nlist" 1 int_max p.nlist
  assert_in_range "M" 1 int_max p.m
  assert_in_range "nbits" 8 32 p.nbits

unfoldable pub validate_ivf_pq_search :
    {F : Type 0} → Floats F → FaissIvfPqSearchParams F → Outcome (Unit {0})
validate_ivf_pq_search o p = do
  assert_in_range "nprobe" 1 int_max p.nprobe
  check
      (not (
        o.lt p.range_search_confidence (o.of_int 0) || o.lt (o.of_int 1) p.range_search_confidence))
      (out_of_range "range_search_confidence")

unfoldable pub validate_hnsw_index : FaissHnswIndexParams → Outcome (Unit {0})
validate_hnsw_index p = do
  assert_in_range "M" 1 65536 p.m
  assert_in_range "efConstruction" 1 65536 p.ef_construction

unfoldable pub validate_hnsw_search : FaissHnswSearchParams → Outcome (Unit {0})
validate_hnsw_search p = assert_in_range "efSearch" 1 int_max p.ef_search

-- The value that is given, or the one that the target has.
abbrev pub given_or : {T : Type 0} → T → Option T → T
given_or default none = default
given_or default (some value) = value

module _ {J F : Type 0} (lib : JsonLibrary J F) where
  -- GET_OPTIONAL_PARAM_TO: what the target is set to.
  unfoldable pub optional_to :
      {T : Type 0} → (J → Outcome T) → String → String → T → IndexMeta J → Outcome T
  optional_to get section_key key default meta = do
    value ← get_optional lib get section_key key meta
    ok (given_or default value)

  -- The text under a key of a section that is read without a getter: outside a `try`.
  abbrev pub text_to : String → String → String → IndexMeta J → Outcome String
  text_to section_key key default meta = do
    sub_json ← lib.at section_key meta.meta_json
    let present = lib.at key sub_json >>= lib.get_string
    if lib.contains key sub_json then present else ok default

  unfoldable pub fetch_common : IndexMeta J → Outcome VectorIndexCommonParams
  fetch_common meta = do
    dim ← get_required lib lib.get_int "common" "dim" meta
    metric_type ← get_required lib lib.get_int "common" "metric_type" meta
    normed ←
        optional_to lib.get_bool "common" "is_vector_normed" common_default.is_vector_normed meta
    let p : VectorIndexCommonParams = record {
      dim = dim;
      metric_type = metric_type;
      is_vector_normed = normed;
    }
    validate_common p
    ok p

  unfoldable pub fetch_extra : IndexMeta J → Outcome VectorIndexExtraParams
  fetch_extra meta = do
    comments ← text_to "extra" "comments" "" meta
    ok (record { comments = comments })

  unfoldable pub fetch_hnsw_index : IndexMeta J → Outcome FaissHnswIndexParams
  fetch_hnsw_index meta = do
    m ← optional_to lib.get_int "index" "M" hnsw_index_default.m meta
    ef ← optional_to lib.get_int "index" "efConstruction" hnsw_index_default.ef_construction meta
    let p : FaissHnswIndexParams = record { m = m; ef_construction = ef }
    validate_hnsw_index p
    ok p

  unfoldable pub fetch_hnsw_search : IndexMeta J → Outcome FaissHnswSearchParams
  fetch_hnsw_search meta = do
    ef ← optional_to lib.get_int "search" "efSearch" hnsw_search_default.ef_search meta
    relative ←
        optional_to lib.get_bool "search" "check_relative_distance"
          hnsw_search_default.check_relative_distance meta
    let p : FaissHnswSearchParams = record { ef_search = ef; check_relative_distance = relative }
    validate_hnsw_search p
    ok p

  unfoldable pub fetch_ivf_pq_index : IndexMeta J → Outcome FaissIvfPqIndexParams
  fetch_ivf_pq_index meta = do
    nlist ← optional_to lib.get_size "index" "nlist" ivf_pq_index_default.nlist meta
    m ← optional_to lib.get_size "index" "M" ivf_pq_index_default.m meta
    nbits ← optional_to lib.get_size "index" "nbits" ivf_pq_index_default.nbits meta
    let p : FaissIvfPqIndexParams = record { nlist = nlist; m = m; nbits = nbits }
    validate_ivf_pq_index p
    ok p

  unfoldable pub fetch_ivf_pq_search : Floats F → IndexMeta J → Outcome (FaissIvfPqSearchParams F)
  fetch_ivf_pq_search o meta = do
    let d = ivf_pq_search_default o
    nprobe ← optional_to lib.get_size "search" "nprobe" d.nprobe meta
    max_codes ← optional_to lib.get_size "search" "max_codes" d.max_codes meta
    threshold ← optional_to lib.get_size "search" "scan_table_threshold" d.scan_table_threshold meta
    ht ← optional_to lib.get_int "search" "polysemous_ht" d.polysemous_ht meta
    confidence ←
        optional_to lib.get_float "search" "range_search_confidence" d.range_search_confidence meta
    let p : FaissIvfPqSearchParams F = record {
      nprobe = nprobe;
      max_codes = max_codes;
      scan_table_threshold = threshold;
      polysemous_ht = ht;
      range_search_confidence = confidence;
    }
    validate_ivf_pq_search o p
    ok p

  unfoldable pub fetch_writer : IndexMeta J → Outcome IndexWriterOptions
  fetch_writer meta = do
    cached ←
        optional_to lib.get_bool "write_index" "write_index_cache" writer_default.write_index_cache
          meta
    key ← text_to "write_index" "custom_cache_key" writer_default.custom_cache_key meta
    ok (record { write_index_cache = cached; custom_cache_key = key })

  unfoldable pub fetch_reader : IndexMeta J → Outcome IndexReaderOptions
  fetch_reader meta = do
    let d = reader_default
    file ← optional_to lib.get_bool "read_index" "cache_index_file" d.cache_index_file meta
    key ← text_to "read_index" "custom_cache_key" d.custom_cache_key meta
    force ←
        optional_to lib.get_bool "read_index" "force_read_and_overwrite_cache"
          d.force_read_and_overwrite_cache meta
    block ← optional_to lib.get_bool "read_index" "cache_index_block" d.cache_index_block meta
    ok (record {
      cache_index_file = file;
      custom_cache_key = key;
      force_read_and_overwrite_cache = force;
      cache_index_block = block;
    })
