-- ===== src/Searcher/FaissIvfPq/TopN.antt =====
-- What the range search of an IVF-PQ index returns.
