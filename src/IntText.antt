-- ===== src/IntText.antt =====
-- crates/btr-types/src/parser/int.rs and crates/db-config/src/export.rs: the INT text of a table,
-- read and written.
pub mod Lines
pub mod Parse
pub mod Render
pub mod Table
pub mod Entries
pub mod Numbers
pub mod FieldLines
pub mod IndexLines
pub mod IndexBlocks
pub mod Skipped
pub mod Rendered
pub mod Header
pub mod RoundTrip
pub mod Ddl
pub mod Mds
pub mod Ordered
pub mod Named
