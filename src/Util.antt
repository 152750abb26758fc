-- ===== src/Util.antt =====
-- tenann/util: the code above distances.
pub mod PriorityQueue
pub mod DistanceUtil
pub mod Bruteforce
pub mod Tests
