-- ===== src/Builder.antt =====
-- tenann/builder: the builders of faiss indexes.
pub mod Faiss
pub mod InitIndex
pub mod FaissIndexBuilder
pub mod WithBuffer
pub mod Tests
