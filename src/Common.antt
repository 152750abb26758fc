-- ===== src/Common.antt =====
-- tenann/common: the views of input columns.
pub mod Float
pub mod Json
pub mod Outcome
pub mod TypedSeqView
pub mod Tests
