-- ===== src/Rank.antt =====
-- core/src/rank.rs: `MeritRank`, the graph with the walks of each ego and their hit counters.
pub mod State
pub mod Checks
pub mod Calculate
pub mod Updates
pub mod Scores
pub mod Graphs
pub mod Runs
pub mod Exact
