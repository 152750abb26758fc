-- ===== src/Builder/InitIndex.antt =====
-- InitIndex of builder/faiss_hnsw_index_builder.cc and builder/faiss_ivf_pq_index_builder.cc. The factory
-- of faiss, and what it constructs, are parameters.
pub mod Decimal
pub mod Unpack
use Prim.Native.String.{String}
use tenann.Prelude.{ℕ, Bool, true, false, none, some, List, [], ◌∷◌, ◌==◌, if◌then◌else◌}
use tenann.Common.Float.{Floats}
use tenann.Common.Json.{JsonLibrary}
use tenann.Common.Outcome.{Outcome, ok, catch_json, catch_faiss, ◌>>=◌}
use tenann.Factory.{metric_inner_product}
use tenann.Index.FaissUtil.{
  FaissMetric, faiss_l2, faiss_inner_product, VectorTransform, normalization, IndexHnsw, IndexIvfPq,
  FaissLayers, index_id_map, index_pre_transform, index_hnsw, index_ivf_pq, needs_normalization,
  check_and_unpack_hnsw, get_hnsw_repr,
}
use tenann.Index.Parameters.{
  VectorIndexCommonParams, FaissHnswIndexParams, FaissHnswSearchParams, FaissIvfPqIndexParams,
  FaissIvfPqSearchParams, fetch_hnsw_index, fetch_hnsw_search,
}
use tenann.Store.IndexMeta.{IndexMeta}

abbrev pub metric_of : VectorIndexCommonParams → FaissMetric
metric_of p = if p.metric_type == metric_inner_product then faiss_inner_product else faiss_l2

-- `metric_type == METRIC_INNER_PRODUCT`.
abbrev pub is_inner_product : FaissMetric → Bool
is_inner_product faiss_inner_product = true
is_inner_product faiss_l2 = false

module _ {F : Type 0} where
  -- The HNSW index inside is set in place, under its wrappers.
  abbrev pub set_hnsw : (IndexHnsw → IndexHnsw) → FaissLayers F → FaissLayers F
  set_hnsw f (index_id_map ids sub_index) = index_id_map ids (set_hnsw f sub_index)
  set_hnsw f (index_pre_transform chain sub_index) =
      index_pre_transform chain (set_hnsw f sub_index)
  set_hnsw f (index_hnsw hnsw) = index_hnsw (f hnsw)
  set_hnsw f index = index

  module _ {J : Type 0} (lib : JsonLibrary J F)
      (index_factory : ℕ → List ℕ → FaissMetric → Outcome (FaissLayers F)) where
    unfoldable pub init_hnsw_index :
        IndexMeta J → VectorIndexCommonParams → Bool → Outcome (FaissLayers F)
    init_hnsw_index meta common use_custom_row_id = catch_json (
        catch_faiss (do
          index_params ← fetch_hnsw_index lib meta
          search_params ← fetch_hnsw_search lib meta
          index ←
              index_factory common.dim (get_hnsw_repr common index_params use_custom_row_id)
                (metric_of common)
          unpacked ← check_and_unpack_hnsw index (some common)
          let set : IndexHnsw → IndexHnsw = λ hnsw. record hnsw {
            ef_construction = index_params.ef_construction;
            ef_search = search_params.ef_search;
            check_relative_distance = search_params.check_relative_distance;
          }
          ok (set_hnsw set index)))

  -- The constructor of IndexIvfPq with a flat quantizer of the dimension, for nlist, M, nbits and the
  -- metric, and `prepend_transform` of an IndexPreTransform. `quantizer->d` is read before the quantizer is
  -- released.
  module _ (new_index_ivf_pq : ℕ → ℕ → ℕ → ℕ → FaissMetric → Outcome (IndexIvfPq F))
      (prepend_transform : VectorTransform → FaissLayers F → Outcome (FaissLayers F)) where
    unfoldable pub init_ivf_pq_index :
        VectorIndexCommonParams
        → FaissIvfPqIndexParams
        → FaissIvfPqSearchParams F
        → Outcome (FaissLayers F)
    init_ivf_pq_index common index defaults = catch_json (
        catch_faiss (do
          made ← new_index_ivf_pq common.dim index.nlist index.m index.nbits (metric_of common)
          let index_ivfpq : IndexIvfPq F = record made {
            nprobe = defaults.nprobe;
            max_codes = defaults.max_codes;
            scan_table_threshold = defaults.scan_table_threshold;
            polysemous_ht = defaults.polysemous_ht;
            range_search_confidence = defaults.range_search_confidence;
            spherical = is_inner_product (metric_of common);
          }
          let index_pt =
              prepend_transform (normalization common.dim)
                (index_pre_transform [] (index_ivf_pq index_ivfpq))
          if needs_normalization common then index_pt else ok (index_ivf_pq index_ivfpq)))
