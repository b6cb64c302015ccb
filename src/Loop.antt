-- ===== src/Loop.antt =====
-- The loop policy and the loop stage graph: include/framekit/loop and src/loop_*.cpp.
pub mod Policy
pub mod Stages
pub mod Runner
