-- ===== src/Importer.antt =====
-- crates/btr-import and crates/btr-types: the import of Btrieve files into the database.
pub mod BFile
pub mod Codec
pub mod Schema
pub mod Versions
pub mod Sqlsrv
pub mod Runner
