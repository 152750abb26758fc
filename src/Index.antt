-- ===== src/Index.antt =====
-- tenann/index: the parameters of indexes.
pub mod FaissUtil
pub mod IndexCache
pub mod IndexReader
pub mod IvfPq
pub mod IvfPqFile
pub mod BlockCache
pub mod Parameters
pub mod Tests
