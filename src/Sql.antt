-- ===== src/Sql.antt =====
-- crates/wxbtrv-core/src/ops/sql_helpers.rs and the SQL that state.rs renders from a `TableMeta`.
pub mod Columns
pub mod KeyWhere
pub mod Filter
