-- ===== src/Tests.antt =====
-- Runs of the models at concrete inputs, and the theorems applied there.
mod Concrete
mod WalkTests
mod GraphTests
mod RegistryTests
mod RankTests
mod QuantileTests
mod ProcessorTests
mod PathTests
mod VsidsTests
mod OwnershipTests
mod StopTests
mod CopyTests
