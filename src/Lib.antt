-- ===== src/Lib.antt =====
-- wx-btrieve-sql-driver: a Btrieve driver that answers the calls of old programs from an SQL
-- database, and the import of Btrieve files into that database. This library models the driver's
-- core, crates/wxbtrv-core/src, the importer, crates/btr-import/src and crates/btr-types/src,
-- the export of table metadata as texts in crates/db-config/src, and the comparison of tables with
-- the backend in crates/wxbtrv-web/src.
--
-- The parts and their files:
--   Base        lists, words, two's complement, Rust's `str` and UTF-8, and keyed lists
--   Schema      state.rs: IntField, RuntimeIndex, TableMeta and their lookups
--   Record      record.rs: `pack_row` (Pack), `unpack_row_typed` (Unpack), `unpack_key_fields` (Key),
--               `unpack_row` (Literals)
--   Dialect     dialect.rs: the SQL of MSSQL, Postgres and SQLite
--   Sql         ops/sql_helpers.rs and state.rs: column lists (Columns), the predicates of searches
--               and walks (KeyWhere), the filters of the extended ops (Filter)
--   World       state.rs and ops/helpers.rs: the state, the caller's buffers, the handle table
--   Client      sql.rs: statements, transactions, row locks; table_lookup.rs and
--               `discover_table_meta` (Discovery)
--   Ops         ops: a child for each group of handlers, and the dispatcher `btrcall_internal`
--               with the walk that a sequence of step calls makes (Walk)
--   Importer    the importer. BFile: btr-import/src/bfile.rs, the iterator over the records of a .B
--               file. Codec: btr-types/src/codec.rs, records as SQL literals. Schema:
--               btr-types/src/bfile.rs and types.rs, `parse_schema` (Parse), `schema_to_int` and
--               `covered_bytes` (Fields). Sqlsrv: btr-import/src/sqlsrv.rs, statements and values.
--               Runner: btr-import/src/runner.rs, `import_one` and the loop over the files (Files).
--               Versions: one file of the old format before both readers
--   IntText     the text of a table's metadata. Parse and Table: btr-types/src/parser/int.rs. Render
--               and Ddl: db-config/src/export.rs. Mds: btr-types/src/parser/mds.rs, the settings
--   WebDiff     wxbtrv-web/src/api/diff.rs: a table against the columns of its backend
--   Tests       runs of the theorems at concrete inputs
--
-- A call comes in through Ops.Dispatch, which strips the lock bias and picks a handler. A handler
-- finds its handle by the number in the position block, builds SQL with Sql and Dialect from the
-- handle's metadata, sends it through Client, packs the row with Record, moves the handle's
-- currency and writes the caller's buffers.
--
-- The importer opens a file with BFile, takes its table from the settings or from the file's schema,
-- decodes each live record with Codec and sends the rows in batches through Sqlsrv.
--
-- How the code is rendered. A handler is a function from the `World` to a result and a new
-- `World`: it ends, leaves by a status or panics. The database and its client crates are the record
-- `Client`, which answers by all that was sent before, so nothing is assumed of them; floats are
-- bit patterns with their roundings in the record `Floats`; std::path is the record `Paths`.
-- Strings are lists of code points and buffers lists of bytes, with UTF-8 written out. Words are
-- natural numbers with their wrap-around; an i64 is `pos n` or `negsuc n`. Offsets are checked
-- against the 32-bit `usize` of the DLL where the code uses checked_add. Key lengths, the offsets of
-- discovered columns and the ends of the chunks of an Update Chunk wrap in 32 bits as in a release
-- build; other sums are of numbers that are bounded by a buffer, and are unbounded here.
-- A HashMap is a list of pairs; of fields with one number the last stays, as when it is
-- collected. The sign of a direction is the type `Dir`, a comparison's text the type `Cmp`.
-- Get First and Last share a definition, and Get Next and Previous, since they differ in the
-- direction alone.
--
-- Bounds and fuel. The printing of a number is bounded by the number itself, and the walk of an
-- extended call by its record count, as in the code. The chain of deleted records follows a million
-- links at most, as in the code. The loops over the pages and the slots of a .B file are bounded by
-- their number; the loop over its records has one turn more than the file has bytes, and the loop
-- over a key's descriptors one more than the file has bytes, which are enough whatever the file
-- holds. Batches are given by the length of the rows. The end of a field and of a segment wrap in
-- a u32 and a u16 as in a release build; where the wrapped end lies before the start, the slice
-- panics.
--
-- The importer's clients are the record `Clients`: statements and settings on a state of any type,
-- which may fail with any message. The connection is an optional such record, and there is none in
-- a dry run. Errors and messages are values in place of their texts. A file
-- is its bytes, or nothing when it cannot be read.
--
-- Not modelled: tracing, initialisation, the import of metadata, connecting and the marshalling of
-- values in the client crates, the C entry points, the SQL of
-- the settings tables, the importer's command line and its file summaries, the rest of the
-- configuration tool and of the web administration, and the crate for installation. The value of the last error
-- between two writes of one call is not kept: the dispatcher overwrites it. The state's mutex is
-- never poisoned, since no handler panics while it holds the lock.
pub mod Base
pub mod Floats
pub mod Schema
pub mod SqlParam
pub mod Record
pub mod Dialect
pub mod Sql
pub mod Status
pub mod World
pub mod Client
pub mod Ops
pub mod Importer
pub mod IntText
pub mod WebDiff
pub mod Tests
