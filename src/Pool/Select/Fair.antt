-- ===== src/Pool/Select/Fair.antt =====
-- src/pool.rs, `select_weighted`: smooth weighted round robin is exact over a cycle.
pub mod Sums
pub mod Level
pub mod Visit
pub mod Listed
pub mod Leader
pub mod Round
pub mod Cycle
