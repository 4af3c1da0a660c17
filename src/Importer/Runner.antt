-- ===== src/Importer/Runner.antt =====
-- crates/btr-import/src/runner.rs: the import of .B files, on the state `S` of the database and of
-- the settings, whose clients are a parameter. A message is a value for its text.
pub mod Batches
pub mod Sending
pub mod Files
pub mod Imports
pub mod DryRun
use wx_btrieve_sql_driver.Base.{
  Bool, List, Option, Str, [], false, if◌then◌else◌, insert, leb, length, map, nat_eq, none, some,
  text_eq, true, zip, ℕ, ◌++◌, ◌+◌, ◌∷◌, ◌⊎◌,
}
use wx_btrieve_sql_driver.Dialect.{Backend, mssql, postgres, sqlite}
use wx_btrieve_sql_driver.Floats.{Floats}
use wx_btrieve_sql_driver.Importer.BFile.{OpenError}
use wx_btrieve_sql_driver.Importer.Schema.{IntFile}
use wx_btrieve_sql_driver.Importer.Schema.Parse.{SchemaError}
use wx_btrieve_sql_driver.Importer.Sqlsrv.{DecodedRow, insert_mssql, insert_prepared}
use wx_btrieve_sql_driver.Importer.Sqlsrv.Values.{
  Value, boxed_pg_value_from_literal, sqlite_value_from_literal,
}
use wx_btrieve_sql_driver.Schema.{IntField}

-- Where an import ends without a result: the step that stopped_by, with the client's message.
pub data ImportError : Type 0 where
  unreadable : ImportError
  not_opened : OpenError → ImportError
  no_schema : SchemaError → ImportError
  unknown_table : Str → ImportError
  save_failed : Str → ImportError
  create_failed : Str → ImportError
  truncate_failed : Str → ImportError
  insert_failed : Str → ImportError

-- What a step gives: a result, an error, or a panic.
pub data Attempt (A : Type 0) : Type 0 where
  finished : A → Attempt A
  stopped_by : ImportError → Attempt A
  panicked : Attempt A

pub data Message : Type 0 where
  length_differs : ℕ → ℕ → Message
  uncovered : ℕ → Message
  schema_saved : Message
  imported : ℕ → Message
  skipped : ImportError → Message

pub record ImportOptions : Type 0 where
  pub create : Bool
  pub truncate : Bool
  pub dry_run : Bool
  pub batch : ℕ
  pub auto_schema : Bool
  pub save_schema : Bool
  pub collation : Str

-- The clients: statements on the database, with a message if they fail, and the settings.
pub record Clients (S : Type 0) : Type 0 where
  pub execute : Str → S → Option Str × S
  pub prepare : Str → S → Option Str × S
  pub run : Str → List Value → S → Option Str × S
  pub load_table : Str → S → (Str ⊎ IntFile) × S
  pub upsert_table : IntFile → S → Option Str × S

module _ {S : Type 0} (fl : Floats) (cl : Clients S) where
  -- A step behind one that may fail.
  abbrev pub and_if_ok : Option Str × S → (S → Option Str × S) → Option Str × S
  and_if_ok (some e, s) k = (some e, s)
  and_if_ok (none, s) k = k s

  -- The values of a row, each with its field.
  abbrev bound_row : (Floats → Str → IntField → Value) → DecodedRow → List IntField → List Value
  bound_row value row fields =
      map (λ (c : (Str × Str) × IntField). value fl c.0.1 c.1) (zip row fields)

  abbrev pub run_rows :
      (Floats → Str → IntField → Value) → Str → List IntField → List DecodedRow → S → Option Str × S
  run_rows value sql fields [] s = (none, s)
  run_rows value sql fields (row ∷ rows) s =
      and_if_ok (cl.run sql (bound_row value row fields) s) (run_rows value sql fields rows)

  abbrev insert_with : Backend → IntFile → List DecodedRow → S → Option Str × S
  insert_with mssql table rows s = cl.execute (insert_mssql table rows) s
  insert_with postgres table rows s =
      let sql = insert_prepared postgres table rows in
      and_if_ok (cl.prepare sql s) (run_rows boxed_pg_value_from_literal sql table.fields rows)
  insert_with sqlite table rows s =
      let sql = insert_prepared sqlite table rows in
      and_if_ok (cl.prepare sql s) (run_rows sqlite_value_from_literal sql table.fields rows)

  -- `batch_insert`, whose count the loop does not use.
  unfoldable pub batch_insert : Backend → IntFile → List DecodedRow → Bool → S → Option Str × S
  unfolding insert_mssql insert_prepared
  batch_insert b table [] dry_run s = (none, s)
  batch_insert b table (row ∷ rows) true s = (none, s)
  batch_insert b table (row ∷ rows) false s = insert_with b table (row ∷ rows) s

module _ {S : Type 0} (insert : List DecodedRow → S → Option Str × S) (size : ℕ) where
  -- A full batch, or the last: its rows are counted once they are sent.
  abbrev pub send_batch :
      ℕ → List DecodedRow → Option Str × S → (ℕ → S → Attempt ℕ × S) → Attempt ℕ × S
  send_batch total rows (some e, s) k = (stopped_by (insert_failed e), s)
  send_batch total rows (none, s) k = k (total + length rows) s

  abbrev pub flush : ℕ → List DecodedRow → S → Attempt ℕ × S
  flush total [] s = (finished total, s)
  flush total (row ∷ rows) s =
      send_batch total (row ∷ rows) (insert (row ∷ rows) s) (λ n s'. (finished n, s'))

  -- The loop over the records, with the rows of the batch so far.
  unfoldable pub import_rows : List (Option DecodedRow) → List DecodedRow → ℕ → S → Attempt ℕ × S
  import_rows [] rows total s = flush total rows s
  import_rows (none ∷ recs) rows total s = (panicked, s)
  import_rows (some row ∷ recs) rows total s =
      let full = rows ++ row ∷ [] in
      if leb size (length full)
      then send_batch total full (insert full s) (import_rows recs [])
      else import_rows recs full total s
