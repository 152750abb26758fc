-- ===== src/Factory.antt =====
-- tenann/factory: index/index_str.h and the factories of readers, writers, builders and searchers.
-- An object is what its constructors set: its class and the parameters that they fetch. The global
-- index cache that they get is left out.
pub mod Kinds
use Prim.Native.String.{String}
use tenann.Prelude.{ℕ, Bool, ◌||◌, ◌==◌, if◌then◌else◌}
use tenann.Common.Float.{Floats}
use tenann.Common.Json.{JsonLibrary}
use tenann.Common.Outcome.{Outcome, ok, error, message, unsupported_type, check, ◌>>=◌, ◌>>◌}
use tenann.Index.Parameters.{
  VectorIndexCommonParams, VectorIndexExtraParams, FaissIvfPqIndexParams, FaissIvfPqSearchParams,
  FaissHnswSearchParams, IndexReaderOptions, IndexWriterOptions, fetch_common, fetch_extra,
  fetch_hnsw_search, fetch_ivf_pq_index, fetch_ivf_pq_search, fetch_reader, fetch_writer,
}
use tenann.Store.IndexMeta.{IndexMeta, index_type}

-- IndexType.
abbrev pub faiss_hnsw : ℕ
faiss_hnsw = 0

abbrev pub faiss_ivf_flat : ℕ
faiss_ivf_flat = 1

abbrev pub faiss_ivf_pq : ℕ
faiss_ivf_pq = 2

-- MetricType.
abbrev pub metric_l2 : ℕ
metric_l2 = 0

abbrev pub metric_cosine_similarity : ℕ
metric_cosine_similarity = 1

abbrev pub metric_inner_product : ℕ
metric_inner_product = 2

pub data IndexReader : Type 0 where
  faiss_index_reader : IndexReaderOptions → IndexReader
  index_ivf_pq_reader : IndexReaderOptions → IndexReader

pub data IndexWriter : Type 0 where
  faiss_index_writer : IndexWriterOptions → IndexWriter
  index_ivf_pq_writer : IndexWriterOptions → IndexWriter

-- FaissHnswIndexBuilder fetches its other parameters when an index is opened.
pub data IndexBuilder (F : Type 0) : Type 0 where
  faiss_hnsw_index_builder :
      IndexWriter → VectorIndexCommonParams → VectorIndexExtraParams → IndexBuilder F
  faiss_ivf_pq_index_builder :
      IndexWriter
      → VectorIndexCommonParams
      → VectorIndexExtraParams
      → FaissIvfPqIndexParams
      → FaissIvfPqSearchParams F
      → IndexBuilder F

pub data AnnSearcher (F : Type 0) : Type 0 where
  faiss_hnsw_ann_searcher :
      IndexReader → VectorIndexCommonParams → FaissHnswSearchParams → AnnSearcher F
  faiss_ivf_pq_ann_searcher :
      IndexReader → VectorIndexCommonParams → FaissIvfPqSearchParams F → AnnSearcher F

-- CASE_ALL_INDEX_TYPE.
abbrev pub case_all_index_type : {A : Type 0} → ℕ → Outcome A → Outcome A → Outcome A
case_all_index_type type hnsw ivf_pq =
    if type == faiss_hnsw
    then hnsw
    else if type == faiss_ivf_pq
    then ivf_pq
    else error (message "using unsupported index type")

abbrev pub is_supported_metric : ℕ → Bool
is_supported_metric metric_type =
    metric_type == metric_l2
    || metric_type == metric_cosine_similarity
    || metric_type == metric_inner_product

abbrev pub metric_message : String
metric_message = "unsupported metric"

module _ {J F : Type 0} (lib : JsonLibrary J F) where
  unfoldable pub create_reader_from_meta : IndexMeta J → Outcome IndexReader
  create_reader_from_meta meta = do
    type ← index_type lib meta
    let hnsw = (do options ← fetch_reader lib meta; ok (faiss_index_reader options))
    let ivf_pq = (do options ← fetch_reader lib meta; ok (index_ivf_pq_reader options))
    case_all_index_type type hnsw ivf_pq

  unfoldable pub create_writer_from_meta : IndexMeta J → Outcome IndexWriter
  create_writer_from_meta meta = do
    type ← index_type lib meta
    let hnsw = (do options ← fetch_writer lib meta; ok (faiss_index_writer options))
    let ivf_pq = (do options ← fetch_writer lib meta; ok (index_ivf_pq_writer options))
    case_all_index_type type hnsw ivf_pq

  module _ (o : Floats F) where
    -- The constructors of FaissHnswIndexBuilder, from IndexBuilder on.
    unfoldable pub new_hnsw_builder : IndexMeta J → Outcome (IndexBuilder F)
    new_hnsw_builder meta = do
      writer ← create_writer_from_meta meta
      common ← fetch_common lib meta
      extra ← fetch_extra lib meta
      check (is_supported_metric common.metric_type) (message metric_message)
      ok (faiss_hnsw_index_builder writer common extra)

    unfoldable pub new_ivf_pq_builder : IndexMeta J → Outcome (IndexBuilder F)
    new_ivf_pq_builder meta = do
      writer ← create_writer_from_meta meta
      common ← fetch_common lib meta
      extra ← fetch_extra lib meta
      check (is_supported_metric common.metric_type) (message metric_message)
      index ← fetch_ivf_pq_index lib meta
      search ← fetch_ivf_pq_search lib o meta
      check (is_supported_metric common.metric_type) (message metric_message)
      ok (faiss_ivf_pq_index_builder writer common extra index search)

    unfoldable pub create_builder_from_meta : IndexMeta J → Outcome (IndexBuilder F)
    create_builder_from_meta meta = do
      type ← index_type lib meta
      case_all_index_type type (new_hnsw_builder meta) (new_ivf_pq_builder meta)

    -- The constructors of FaissHnswAnnSearcher, from Searcher on.
    unfoldable pub new_hnsw_searcher : IndexMeta J → Outcome (AnnSearcher F)
    new_hnsw_searcher meta = do
      reader ← create_reader_from_meta meta
      common ← fetch_common lib meta
      search ← fetch_hnsw_search lib meta
      ok (faiss_hnsw_ann_searcher reader common search)

    unfoldable pub new_ivf_pq_searcher : IndexMeta J → Outcome (AnnSearcher F)
    new_ivf_pq_searcher meta = do
      reader ← create_reader_from_meta meta
      common ← fetch_common lib meta
      search ← fetch_ivf_pq_search lib o meta
      ok (faiss_ivf_pq_ann_searcher reader common search)

    unfoldable pub create_searcher_from_meta : IndexMeta J → Outcome (AnnSearcher F)
    create_searcher_from_meta meta = do
      type ← index_type lib meta
      if type == faiss_hnsw
          then new_hnsw_searcher meta
          else (if type == faiss_ivf_pq
              then new_ivf_pq_searcher meta
              else error (unsupported_type type))
