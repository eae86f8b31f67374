-- ===== src/Service.antt =====
-- service/src: what the service keeps or computes beside the core.
pub mod NodeRegistry
pub mod Quantiles
pub mod Processor
pub mod AStar
pub mod PathSearch
pub mod Vsids
pub mod Ownership
