-- ===== src/Ops.antt =====
-- crates/wxbtrv-core/src/ops: the Btrieve operations. Each handler is a child, with its proofs
-- beside or below it.
pub mod Session
pub mod Fetch
pub mod Step
pub mod Get
pub mod Insert
pub mod Update
pub mod Position
pub mod Stat
pub mod Index
pub mod Extended
pub mod Lifecycle
pub mod Freshness
pub mod Keeps
pub mod Direct
pub mod Closed
pub mod Transactions
pub mod Currency
pub mod Stepping
pub mod Refill
pub mod Walk
pub mod Locking
pub mod Chunks
pub mod StatBuffer
pub mod Buffers
pub mod Dispatch
