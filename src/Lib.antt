-- ===== src/Lib.antt =====
-- Verification of tenann, a library of vector indexes for approximate nearest neighbours. Its
-- processes share built indexes through a cache: IndexCache (tenann/index/index_cache) wraps a
-- ShardedLRUCache, which sends each key by its hash to one of two LRUCache shards, each with a
-- HandleTable and an LRU list (tenann/store/lru_cache.h, tenann/store/lru_cache.cc). The
-- development models that cache down to its chains, reference counts and deleter calls. An index
-- is built by a builder (tenann/builder), which takes columns of vectors through views
-- (tenann/common/typed_seq_view.h); the builder of an IVF-PQ index buffers them until it has all
-- that the index is trained on.
--
-- Files, with the code they model:
-- Prelude: Boolean tests, steps of fallible code, lists and multiplicities that all parts share.
-- Common/Outcome: results with error values. Common/Json: the JSON library. Common/Float: floats.
-- Common/TypedSeqView: the views of columns and ForEach (tenann/common).
-- Store/CacheKey: CacheKey. Store/CacheKey/Laws: its comparisons and its hash.
-- Store/HandleTable: HandleTable. Store/HandleTable/*: the table as a finite map.
-- Store/Heap: the memory that a shard allocates for its entries.
-- Store/LruCache: LRUHandle and LRUCache. Store/LruCache/*: the invariant and every call.
-- Store/LruCache/Client: any sequence of calls that keeps to the contract of the interface.
-- Store/ShardedLruCache: ShardedLRUCache. Store/ShardedLruCache/*: routing, capacity, and its clients.
-- Store/IndexMeta: IndexMeta (tenann/store/index_meta.h and .cc). Store/IndexMeta/Integrity: its check.
-- Index/Parameters: parameters.h and parameter_serde.h (tenann/index). Index/Parameters/Valid: ranges.
-- Index/Parameters/MinRows: GetIvfPqMinRows (tenann/index/index_ivfpq_util.h).
-- Index/FaissUtil: tenann/index/internal/faiss_index_util.h.
-- Index/IndexCache: IndexCache and its handles. Index/IndexCache/FirstUse: a miss, then a hit.
-- Index/IndexReader: ReadIndex and WriteIndex (tenann/index/index_reader.cc, index_writer.cc).
-- Index/IndexReader/Again, Written: what is read when the cache has the index.
-- Index/BlockCache: BlockCacheInvertedLists (tenann/index/index_ivfpq_reader.cc).
-- Index/IvfPq: adding in IndexIvfPq (tenann/index/internal/index_ivfpq.cc). Index/IvfPq/Scan: its range
-- search. Index/IvfPq/Block, Adding, Found: what is stored, and what is found.
-- Index/IvfPqFile: the file of an IVF-PQ index (index_ivfpq_reader.cc, index_ivfpq_writer.cc).
-- Factory: IndexFactory and AnnSearcherFactory (tenann/factory).
-- Builder/Faiss: the methods of faiss::Index that the builders call, and their documentation.
-- Builder/FaissIndexBuilder: IndexBuilder and FaissIndexBuilder (tenann/builder).
-- Builder/InitIndex: InitIndex of the HNSW and the IVF-PQ builder. Builder/InitIndex/Unpack: what they
-- make. Builder/InitIndex/Decimal: numbers in descriptions of indexes.
-- Builder/WithBuffer: FaissIndexBuilderWithBuffer. Builder/WithBuffer/*: what reaches the index.
-- Searcher: what searchers share. Searcher/FaissIvfPq: FaissIvfPqAnnSearcher.
-- Searcher/Hnsw: the search over the HNSW graph. Searcher/FaissHnsw: FaissHnswAnnSearcher.
-- Util/PriorityQueue: std::priority_queue. Util/PriorityQueue/TopK: the best of what is pushed.
-- Util/DistanceUtil: ReserveTopK and the cosine (tenann/util/distance_util.h).
-- Util/Bruteforce: BruteForceRangeSearch (tenann/util/bruteforce.h). Util/Bruteforce/AnnSearch:
-- BruteForceTopKSearch. Util/Bruteforce/Range, Nearest: what they find.
-- Store/Tests, Common/Tests, Index/Tests, Builder/Tests, Searcher/Tests, Util/Tests: the inputs at
-- which the theorems are applied.
--
-- A call is one critical section under the shard's mutex, so that an interleaving of clients is a
-- sequence of calls. A fallible call returns an Option: `none` stands for a fault (memory that is
-- not allocated is read, an entry that is on no list is unlinked), for a failed T_DCHECK (the
-- model is of a debug build) and for T_LOG(FATAL), which throws. The entries are in a heap, an
-- association list from addresses; `freed` logs the calls of deleters in order, so that the order
-- of eviction and the absence of double frees can be stated. The address that `malloc` returns for
-- a new entry is an argument of `insert`, and must be one that is not allocated. Allocation itself
-- succeeds. A new entry joins the heap when the table gets it; before that it is private to the
-- call. The LRU list is the list of its addresses, the oldest first. A node of the table keeps the
-- hash and the key beside the pointer, which no operation changes once the entry is made.
--
-- Numbers are natural numbers with the wrap-around written out: 32 bits for hashes, references and
-- the counters of the table, 64 bits for charges, usage, capacity and the statistics.
--
-- Fuel: the loop of `_resize` that doubles the length has 32 units, and a 32-bit value doubles at
-- most 31 times before it is 0; it stops when there are at most 2 ^ 31 entries. The loops of
-- `_evict_from_lru` and `prune` have one unit more than the list has entries, since each round
-- passes or removes one.
--
-- A builder refers to a faiss index by a parameter: its methods, and hypotheses that state what
-- they are documented to do. Pointers into the caller's arrays are offsets, with reads out of
-- bounds as faults; the calls of the index writer are logged. The caller's arrays do not change.
-- Distances are numbers that are only compared, and the formulas of distances are parameters.
--
-- The store, the cache and the files are fallible with Option as above. Parameters, metas,
-- factories, InitIndex and searchers throw errors that differ, and return an Outcome: a value, an
-- error with its kind, an exception of the JSON library or of faiss, or a fault. The macros that
-- catch exceptions turn those of a library into errors.
--
-- The JSON library, faiss and floating-point arithmetic are parameters. A theorem about searches
-- assumes of floats only that they are ordered without ties between different ones, as the floats
-- that are not NaN are (Ranked). The greedy descent of the HNSW search, a `for (;;)`, has fuel:
-- each round makes the distance smaller, so that more units than there are floats below the first
-- distance are enough. The walk over the candidates is bounded in the source, and has one unit for
-- each round it may make.
--
-- An IndexRef is the number of its object. A file is the list of its bytes, and each read of it is
-- given the file as it is then. The blocks of inverted lists that were read are buffers by
-- address.
--
-- Not modelled: the runtime profile and the pretty printer, which are adapted from another
-- project; the tables of distances and the parallel modes of index_ivfpq.cc, and the functions of
-- index_ivfpq_reader.cc that are copied from faiss, but for the header of an index; the vendored
-- JSON library; the id filters, which are selectors of faiss, below their adapter; the files of
-- metas; the move of an Index, and the estimate of its memory usage, which is a parameter of the
-- reader and the writer; the ReadIndex of a searcher; locks, since a call is taken as atomic; the
-- float ratios of `get_cache_status` are parameters.
pub mod Prelude
pub mod Builder
pub mod Common
pub mod Factory
pub mod Index
pub mod Searcher
pub mod Store
pub mod Util
