-- ===== src/Record.antt =====
-- crates/wxbtrv-core/src/record.rs: the fixed-width record codec. The definitions stand in
-- `Slices`, `Pack`, `Unpack` and `Key`, the proofs in the other children.
pub mod Slices
pub mod Pack
pub mod Unpack
pub mod Lengths
pub mod Layout
pub mod Packed
pub mod RoundTrip
pub mod Key
pub mod Literals
