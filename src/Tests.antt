-- ===== src/Tests.antt =====
-- Concrete runs: each child applies theorems of one part of the driver at inputs that meet their
-- premises.
pub mod Fixtures
pub mod Queries
pub mod Records
pub mod Sessions
pub mod Walks
pub mod Imports
pub mod Runs
pub mod Texts
pub mod Diffs
pub mod Schemas
pub mod Calls
