-- ===== src/Builder/Tests.antt =====
-- A toy index in place of faiss, and builders of it.
use tenann.Common.Outcome.{Outcome, ok, error, faiss_exception, ◌>>=◌}
use tenann.Builder.InitIndex.{init_hnsw_index, init_ivf_pq_index}
use tenann.Builder.InitIndex.Decimal.{value_from}
use tenann.Builder.InitIndex.Unpack.{
  Describes, DocumentedIvfPq, HasParameters, init_ivf_pq_index-unpacks, init_hnsw_index-unpacks,
}
use tenann.Index.FaissUtil.{
  FaissMetric, faiss_l2, FaissLayers, VectorTransform, IndexIvfPq, IndexHnsw, index_hnsw,
  index_id_map, index_pre_transform, normalization, check_and_unpack_hnsw, check_and_unpack_ivf_pq,
  codes,
}
use tenann.Common.Json.{JsonLibrary}
use tenann.Store.IndexMeta.{IndexMeta, get_optional}
use tenann.Index.Parameters.{
  VectorIndexCommonParams, FaissIvfPqSearchParams, ivf_pq_index_default, hnsw_index_default,
  hnsw_search_default, fetch_hnsw_index, fetch_hnsw_search, optional_to, validate_hnsw_index,
  validate_hnsw_search,
}
use tenann.Prelude.{
  ℕ, ◌≡◌, refl, Bool, true, false, some, List, [], ◌∷◌, ◌++◌, arith, ◌==◌, ◌&&◌, if◌then◌else◌,
  Bool-cases, inl, inr,
}
use tenann.Builder.Faiss.{FaissIndex, Documented, Contents}
use tenann.Builder.FaissIndexBuilder.{
  IndexBuilder, new_builder, enable_custom_row_id, open_path, close, set_open_state,
}
use tenann.Builder.WithBuffer.{flush}
use tenann.Builder.WithBuffer.Batches.{Batch, add_batch, add_batches, custom_builder}
use tenann.Builder.WithBuffer.Copied.{Buffering, build-add_batches}
use tenann.Builder.WithBuffer.Referred.{build-add_batches_referred}
use tenann.Common.TypedSeqView.Rows.{Row, row_ids}
use tenann.Builder.WithBuffer.Nullable.{present, add_nullable, flush-add_nullable}
use tenann.Builder.WithBuffer.Stale.{flush-add_batch_mixed, flush-close_open}

record Toy : Type 0 where
  trained : Bool
  values : List ℕ
  ids : List ℕ

abbrev toy : FaissIndex Toy ℕ
toy = record {
  is_trained = λ ix. ix.trained;
  train = λ n xs ix. some (record ix { trained = true });
  add = λ n xs ix. some (record ix { values = ix.values ++ xs });
  add_with_ids = λ n xs is ix. some (record ix { values = ix.values ++ xs; ids = ix.ids ++ is });
}

toy-Documented : Documented toy 2 1 (λ ix. ix.values) (λ ix. ix.ids)
toy-Documented = record {
  trains = λ n xs ix whole enough. (record ix { trained = true }, refl, refl, refl, refl);
  adds = λ n xs is ix trained whole same.
      (record ix { values = ix.values ++ xs; ids = ix.ids ++ is }, refl, trained, refl, refl);
}

abbrev raw : Toy
raw = record { trained = false; values = []; ids = [] }

abbrev batch_a : Batch ℕ
batch_a = record { rows = 1 ∷ 2 ∷ 3 ∷ 4 ∷ []; ids = 10 ∷ 11 ∷ [] }

abbrev batch_b : Batch ℕ
batch_b = record { rows = 5 ∷ 6 ∷ []; ids = 12 ∷ [] }

abbrev Holds : List ℕ → List ℕ → Toy → Type 0
Holds = Contents (λ ix. ix.values) (λ ix. ix.ids)

build-add_batches_example :
    (b₀ b₁ b₂ b₃ : IndexBuilder Toy ℕ) × (ix' : Toy) × (enable_custom_row_id new_builder ≡ some b₀)
    × (open_path (some raw) [] b₀ ≡ some b₁)
    × (add_batches toy 2 false (batch_a ∷ batch_b ∷ []) b₁ ≡ some b₂)
    × (flush toy 2 b₂ ≡ some b₃)
    × (b₃.index_ref ≡ some ix')
    × (ix'.trained ≡ true)
    × Holds (1 ∷ 2 ∷ 3 ∷ 4 ∷ 5 ∷ 6 ∷ []) (10 ∷ 11 ∷ 12 ∷ []) ix'
    × (b₃.written ≡ (ix', [], false) ∷ [])
build-add_batches_example =
    build-add_batches toy 2 toy-Documented (omega arith) raw [] (batch_a ∷ batch_b ∷ []) refl
      (refl, (refl, tt)) (omega arith) (omega arith)

build-add_batches_referred_example :
    (b₁ b₂ b₃ : IndexBuilder Toy ℕ) × (ix' : Toy) × (open_path (some raw) [] custom_builder
      ≡ some b₁)
    × (add_batches toy 2 true (batch_a ∷ batch_b ∷ []) b₁ ≡ some b₂)
    × (flush toy 2 b₂ ≡ some b₃)
    × (b₃.index_ref ≡ some ix')
    × (ix'.trained ≡ true)
    × Holds (1 ∷ 2 ∷ 3 ∷ 4 ∷ 5 ∷ 6 ∷ []) (10 ∷ 11 ∷ 12 ∷ []) ix'
    × (b₃.written ≡ (ix', [], false) ∷ [])
build-add_batches_referred_example =
    build-add_batches_referred toy 2 (omega arith) toy-Documented raw [] (batch_a ∷ batch_b ∷ [])
      refl (refl, omega arith, (refl, omega arith, tt)) (omega arith) (omega arith)

flush-add_batch_mixed_example :
    (b₁ b₂ b₃ b₄ : IndexBuilder Toy ℕ) × (ix' : Toy) × (open_path (some raw) [] custom_builder
      ≡ some b₁)
    × (add_batch toy 2 true batch_a b₁ ≡ some b₂)
    × (add_batch toy 2 false batch_b b₂ ≡ some b₃)
    × (flush toy 2 b₃ ≡ some b₄)
    × (b₄.index_ref ≡ some ix')
    × Holds (5 ∷ 6 ∷ []) (12 ∷ []) ix'
flush-add_batch_mixed_example =
    flush-add_batch_mixed toy 2 (omega arith) toy-Documented raw [] refl batch_a batch_b refl
      (omega arith) (omega arith)

-- A builder with one batch in its buffers.
abbrev filled : IndexBuilder Toy ℕ
filled = set_open_state (record custom_builder {
  index_ref = some raw;
  data_buffer = batch_b.rows;
  id_buffer = batch_b.ids;
})

filled-Buffering : Buffering toy 2 raw (5 ∷ 6 ∷ []) (12 ∷ []) filled
filled-Buffering = record {
  opened = refl;
  not_closed = refl;
  custom = refl;
  index = refl;
  untrained = refl;
  no_reference = refl;
  no_ids = refl;
  buffered = refl;
  buffered_ids = refl;
  whole = refl;
}

flush-close_open_example :
    (b₁ b₂ b₃ : IndexBuilder Toy ℕ) × (ix' : Toy) × (close filled ≡ some b₁)
    × (open_path (some raw) [] b₁ ≡ some b₂)
    × (flush toy 2 b₂ ≡ some b₃)
    × (b₃.index_ref ≡ some ix')
    × Holds (5 ∷ 6 ∷ []) (12 ∷ []) ix'
flush-close_open_example =
    flush-close_open toy 2 (omega arith) toy-Documented raw [] refl (5 ∷ 6 ∷ []) (12 ∷ [])
      filled-Buffering (omega arith) (omega arith)

-- The second of three rows is null.
abbrev three_rows : List (Row ℕ)
three_rows =
    record { vector = 1 ∷ 2 ∷ []; id = 20; flag = 0 }
    ∷ record { vector = 3 ∷ 4 ∷ []; id = 21; flag = 1 }
    ∷ record { vector = 5 ∷ 6 ∷ []; id = 22; flag = 0 }
    ∷ []

abbrev ready : Toy
ready = record { trained = true; values = []; ids = [] }

abbrev flushed : IndexBuilder Toy ℕ
flushed = set_open_state (record custom_builder { index_ref = some ready })

flush-add_nullable_example :
    (b' b'' : IndexBuilder Toy ℕ) × (add_nullable toy 2 false three_rows flushed ≡ some b')
    × (flush toy 2 b' ≡ some b'')
    × (b'.data_buffer ≡ 1 ∷ 2 ∷ 5 ∷ 6 ∷ [])
    × (b'.id_buffer ≡ flushed.id_buffer ++ row_ids (present three_rows))
    × (b''.data_buffer ≡ b'.data_buffer)
    × (b''.id_buffer ≡ b'.id_buffer)
    × (b''.index_ref ≡ some ready)
    × (b''.written ≡ (ready, [], false) ∷ [])
flush-add_nullable_example =
    flush-add_nullable toy 2 three_rows (refl, (refl, (refl, tt))) false flushed refl refl refl
      ready refl refl

abbrev plain_hnsw : ℕ → ℕ → FaissMetric → IndexHnsw
plain_hnsw d m metric = record {
  d = d;
  m = m;
  metric = metric;
  ef_construction = 40;
  ef_search = 16;
  check_relative_distance = true;
}

abbrev defaults : ℕ → FaissIvfPqSearchParams ℕ
defaults nprobe = record {
  nprobe = nprobe;
  max_codes = 0;
  scan_table_threshold = 0;
  polysemous_ht = 0;
  range_search_confidence = 0;
}

abbrev begins : List ℕ → List ℕ → Bool
begins [] text = true
begins (c ∷ s) [] = false
begins (c ∷ s) (d ∷ text) = c == d && begins s text

-- The text without the first bytes.
abbrev behind : List ℕ → List ℕ → List ℕ
behind [] text = text
behind (c ∷ s) [] = []
behind (c ∷ s) (d ∷ text) = behind s text

-- A factory that reads a description from the front.
abbrev toy_hnsw : ℕ → List ℕ → FaissMetric → Outcome (FaissLayers ℕ)
toy_hnsw d text metric =
    if begins (codes "HNSW") text
    then ok (index_hnsw (plain_hnsw d (value_from 0 (behind (codes "HNSW") text)) metric))
    else error faiss_exception

abbrev toy_transform : ℕ → List ℕ → FaissMetric → Outcome (FaissLayers ℕ)
toy_transform d text metric =
    if begins (codes "L2Norm,") text
    then toy_hnsw d (behind (codes "L2Norm,") text) metric
      >>= (λ ix. ok (index_pre_transform (normalization d ∷ []) ix))
    else toy_hnsw d text metric

abbrev toy_factory : ℕ → List ℕ → FaissMetric → Outcome (FaissLayers ℕ)
toy_factory d text metric =
    if begins (codes "IDMap,") text
    then toy_transform d (behind (codes "IDMap,") text) metric >>= (λ ix. ok (index_id_map [] ix))
    else toy_transform d text metric

toy_factory-Describes : Describes toy_factory
toy_factory-Describes d true true digits metric is =
    (plain_hnsw d (value_from 0 digits) metric, refl, refl, refl, refl)
toy_factory-Describes d true false digits metric is =
    (plain_hnsw d (value_from 0 digits) metric, refl, refl, refl, refl)
toy_factory-Describes d false true digits metric is =
    (plain_hnsw d (value_from 0 digits) metric, refl, refl, refl, refl)
toy_factory-Describes d false false digits metric is =
    (plain_hnsw d (value_from 0 digits) metric, refl, refl, refl, refl)

abbrev plain_ivf_pq : ℕ → ℕ → ℕ → ℕ → FaissMetric → IndexIvfPq ℕ
plain_ivf_pq d nlist m nbits metric = record {
  d = d;
  nlist = nlist;
  m = m;
  nbits = nbits;
  metric = metric;
  nprobe = 1;
  max_codes = 0;
  scan_table_threshold = 0;
  polysemous_ht = 0;
  range_search_confidence = 0;
  spherical = false;
}

-- A constructor that takes any positive number of lists.
abbrev toy_ivf_pq : ℕ → ℕ → ℕ → ℕ → FaissMetric → Outcome (IndexIvfPq ℕ)
toy_ivf_pq d nlist m nbits metric =
    if nlist == 0 then error faiss_exception else ok (plain_ivf_pq d nlist m nbits metric)

abbrev toy_prepend : VectorTransform → FaissLayers ℕ → Outcome (FaissLayers ℕ)
toy_prepend t (index_pre_transform chain index) = ok (index_pre_transform (t ∷ chain) index)
toy_prepend t _ = error faiss_exception

toy_ivf_pq-constructs :
    (d nlist m nbits : ℕ) (metric : FaissMetric) (ix : IndexIvfPq ℕ)
    → toy_ivf_pq d nlist m nbits metric ≡ ok ix
    → (ix.d ≡ d) × (ix.nlist ≡ nlist) × (ix.m ≡ m) × (ix.nbits ≡ nbits) × (ix.metric ≡ metric)
toy_ivf_pq-constructs d nlist m nbits metric ix h = elim (Bool-cases (nlist == 0)) [
  | inl none_given ↦ absurd (ground (arith, none_given, h))
  | inr given ↦ ground (arith, given, h)
]

toy_ivf_pq-Documented : DocumentedIvfPq toy_ivf_pq toy_prepend
toy_ivf_pq-Documented = record {
  constructs = toy_ivf_pq-constructs;
  prepends = λ d chain ix same. refl;
}

abbrev cosine : VectorIndexCommonParams
cosine = record { dim = 4; metric_type = 1; is_vector_normed = false }

init_ivf_pq_index-unpacks_example :
    (layers : FaissLayers ℕ) × (ix : IndexIvfPq ℕ) × (init_ivf_pq_index toy_ivf_pq toy_prepend
        cosine ivf_pq_index_default
        (defaults 3)
      ≡ ok layers)
    × (check_and_unpack_ivf_pq layers (some cosine) ≡ ok (some (normalization 4 ∷ []), ix))
    × HasParameters cosine ivf_pq_index_default (defaults 3) ix
init_ivf_pq_index-unpacks_example =
    init_ivf_pq_index-unpacks toy_ivf_pq toy_prepend cosine ivf_pq_index_default (defaults 3)
      (plain_ivf_pq 4 16 2 8 faiss_l2) toy_ivf_pq-Documented refl

-- A library whose every section is empty.
abbrev empty_json : JsonLibrary ℕ ℕ
empty_json = record {
  null = 0;
  contains = λ k j. false;
  at = λ k j. ok 0;
  put = λ k v j. ok 0;
  items = λ j. [];
  from_int = λ n. n;
  is_number_integer = λ j. true;
  is_boolean = λ j. true;
  get_int = λ j. ok j;
  get_size = λ j. ok j;
  get_bool = λ j. ok true;
  get_float = λ j. ok j;
  get_string = λ j. ok "";
  parse = λ text. ok 0;
  from_msgpack = λ buffer. ok 0;
}

abbrev empty_meta : IndexMeta ℕ
empty_meta = record { meta_json = 0 }

init_hnsw_index-unpacks_example :
    (index : FaissLayers ℕ) × (hnsw : IndexHnsw) × (init_hnsw_index empty_json toy_factory
        empty_meta cosine true
      ≡ ok index)
    × (check_and_unpack_hnsw index (some cosine) ≡ ok (some [], some (normalization 4 ∷ []), hnsw))
    × (hnsw.d ≡ 4)
    × (hnsw.m ≡ 16)
    × (hnsw.metric ≡ faiss_l2)
    × (hnsw.ef_construction ≡ 40)
    × (hnsw.ef_search ≡ 16)
    × (hnsw.check_relative_distance ≡ true)
unfolding fetch_hnsw_index fetch_hnsw_search optional_to get_optional validate_hnsw_index
    validate_hnsw_search
init_hnsw_index-unpacks_example =
    init_hnsw_index-unpacks empty_json toy_factory empty_meta cosine true hnsw_index_default
      hnsw_search_default toy_factory-Describes refl refl
