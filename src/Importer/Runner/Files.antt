-- ===== src/Importer/Runner/Files.antt =====
-- runner.rs: `import_one`, `load_schema_for_file` and the loop of `import_files`. A file is its
-- bytes, or nothing when it cannot be read.
use wx_btrieve_sql_driver.Base.{
  Bool, List, Option, Str, [], codes, false, if◌then◌else◌, inl, inr, ltb, map, none, not, some,
  true, unwrap_or, ℕ, ◌%◌, ◌&&◌, ◌++◌, ◌+◌, ◌-◌, ◌==◌, ◌^◌, ◌∷◌, ◌⊎◌,
}
use wx_btrieve_sql_driver.Dialect.{Backend, mssql, postgres, sqlite}
use wx_btrieve_sql_driver.Floats.{Floats}
use wx_btrieve_sql_driver.Importer.BFile.{
  BtrieveFile, FileHeader, OpenError, all_records, open_file,
}
use wx_btrieve_sql_driver.Importer.Codec.{unpack_row}
use wx_btrieve_sql_driver.Importer.Runner.{
  Attempt, Clients, ImportError, ImportOptions, Message, batch_insert, create_failed, finished,
  import_rows, imported, length_differs, no_schema, not_opened, panicked, save_failed, schema_saved,
  skipped, stopped_by, truncate_failed, uncovered, unknown_table, unreadable,
}
use wx_btrieve_sql_driver.Importer.Schema.{BtrieveSchema, IntFile}
use wx_btrieve_sql_driver.Importer.Schema.Fields.{covered_bytes, schema_to_int}
use wx_btrieve_sql_driver.Importer.Schema.Parse.{SchemaResult, parse_schema}
use wx_btrieve_sql_driver.Importer.Sqlsrv.{DecodedRow, gen_create_table, table_ref}

pub record SourceFile : Type 0 where
  pub table_name : Str
  pub file_name : Str
  pub content : Option (List ℕ)

pub record ImportStats : Type 0 where
  pub files_ok : ℕ
  pub files_skipped : ℕ
  pub records : ℕ
  pub log : List Message

abbrev pub length_warning : FileHeader → IntFile → List Message
length_warning h table =
    if ltb 0 h.logical_rec_len && not (h.logical_rec_len == table.record_length)
    then length_differs h.logical_rec_len table.record_length ∷ []
    else []

abbrev pub truncate_sql : Backend → IntFile → Str
truncate_sql mssql table = codes "TRUNCATE TABLE " ++ table_ref mssql table
truncate_sql postgres table = codes "TRUNCATE TABLE " ++ table_ref postgres table
truncate_sql sqlite table = codes "DELETE FROM " ++ table_ref sqlite table

-- The bytes that no key covers; the difference of two `u32`s wraps.
abbrev pub uncovered_bytes : BtrieveSchema → ℕ
uncovered_bytes b = (b.record_length + 2 ^ 32 - covered_bytes b) % 2 ^ 32

abbrev uncovered_warning : BtrieveSchema → List Message
uncovered_warning b = if ltb 0 (uncovered_bytes b) then uncovered (uncovered_bytes b) ∷ [] else []

-- The connection: none in a dry run.
abbrev pub connection : {S : Type 0} → Bool → Clients S → Option (Clients S)
connection true cl = none
connection false cl = some cl

module _ {S : Type 0} (fl : Floats) (conn : Option (Clients S)) (b : Backend)
    (opts : ImportOptions) where
  -- An optional statement that is an error of this kind if it fails; none without a connection.
  abbrev pub statement_if : Bool → (Str → ImportError) → Str → S → Option ImportError × S
  statement_if false error sql s = (none, s)
  statement_if true error sql s = elim conn [
    | none ↦ (none, s)
    | some cl ↦
        let (e, s') = cl.execute sql s in (elim e [ none ↦ none | some m ↦ some (error m) ], s')
  ]

  abbrev pub behind : Option ImportError × S → (S → Option ImportError × S) → Option ImportError × S
  behind (some e, s) k = (some e, s)
  behind (none, s) k = k s

  -- CREATE and TRUNCATE, where they are asked for and there is a connection.
  unfoldable pub prepare_table : IntFile → S → Option ImportError × S
  unfolding gen_create_table table_ref
  prepare_table table s =
      behind (statement_if opts.create create_failed (gen_create_table b table opts.collation) s)
        (statement_if opts.truncate truncate_failed (truncate_sql b table))

  -- The insert of the loop: nothing is sent without a connection.
  abbrev pub inserter : IntFile → List DecodedRow → S → Option Str × S
  inserter table rows s = elim conn [
    | none ↦ (none, s)
    | some cl ↦ batch_insert fl cl b table rows opts.dry_run s
  ]

  abbrev pub import_from : IntFile → BtrieveFile → Option ImportError × S → Attempt ℕ × S
  import_from table f (some e, s) = (stopped_by e, s)
  import_from table f (none, s) =
      import_rows (inserter table) opts.batch (map (unpack_row fl table.fields) (all_records f)) []
        0 s

  abbrev imported_message : Attempt ℕ → List Message
  imported_message (finished n) = imported n ∷ []
  imported_message (stopped_by e) = []
  imported_message panicked = []

  abbrev pub import_opened : IntFile → OpenError ⊎ BtrieveFile → S → (Attempt ℕ × S) × List Message
  import_opened table (inl e) s = ((stopped_by (not_opened e), s), [])
  import_opened table (inr f) s =
      let out = import_from table f (prepare_table table s) in
      (out, length_warning f.header table ++ imported_message out.0)

  unfoldable pub import_one : IntFile → SourceFile → S → (Attempt ℕ × S) × List Message
  unfolding open_file prepare_table import_rows
  import_one table file s = elim file.content [
    | none ↦ ((stopped_by unreadable, s), [])
    | some bytes ↦ import_opened table (open_file bytes) s
  ]

module _ {S : Type 0} (fl : Floats) (cl : Clients S) (b : Backend) (opts : ImportOptions) where
  abbrev pub save_if :
      Bool → IntFile → List Message → S → (ImportError ⊎ IntFile) × S × List Message
  save_if false table log s = (inr table, s, log)
  save_if true table log s =
      let (e, s') = cl.upsert_table table s in
      elim e [
        | none ↦ (inr table, s', log ++ schema_saved ∷ [])
        | some m ↦ (inl (save_failed m), s', log)
      ]

  abbrev pub derived :
      Str → Str → SchemaResult BtrieveSchema → S → (ImportError ⊎ IntFile) × S × List Message
  derived table_name source_file (inl e) s = (inl (no_schema e), s, [])
  derived table_name source_file (inr schema) s =
      save_if opts.save_schema (schema_to_int schema table_name source_file)
        (uncovered_warning schema) s

  abbrev pub derived_from :
      Str → SourceFile → Option (List ℕ) → S → (ImportError ⊎ IntFile) × S × List Message
  derived_from table_name file none s = (inl unreadable, s, [])
  derived_from table_name file (some bytes) s =
      derived table_name file.file_name (parse_schema bytes) s

  abbrev pub or_derived :
      Str → SourceFile → (Str ⊎ IntFile) × S → (ImportError ⊎ IntFile) × S × List Message
  or_derived table_name file (inr table, s) = (inr table, s, [])
  or_derived table_name file (inl e, s) =
      if opts.auto_schema
      then derived_from table_name file file.content s
      else (inl (unknown_table e), s, [])

  unfoldable pub load_schema_for_file :
      Str → SourceFile → S → (ImportError ⊎ IntFile) × S × List Message
  unfolding parse_schema schema_to_int covered_bytes
  load_schema_for_file table_name file s = or_derived table_name file (cl.load_table table_name s)

  abbrev pub import_loaded :
      SourceFile → (ImportError ⊎ IntFile) × S × List Message → (Attempt ℕ × S) × List Message
  import_loaded file (inl e, s, log) = ((stopped_by e, s), log)
  import_loaded file (inr table, s, log) =
      let out = import_one fl (connection opts.dry_run cl) b opts table file s in
      (out.0, log ++ out.1)

  -- The counts and the messages, after a file's attempt.
  abbrev pub count_file : Attempt ℕ → List Message → ImportStats → Option ImportStats
  count_file (finished n) log st =
      some (record st { files_ok = st.files_ok + 1; records = st.records + n; log = st.log ++ log })
  count_file (stopped_by e) log st =
      some
        (record st { files_skipped = st.files_skipped + 1; log = st.log ++ log ++ skipped e ∷ [] })
  count_file panicked log st = none

  -- The loop over the files; `none` when it panicked.
  unfoldable pub files_loop :
      Option Str → List SourceFile → ImportStats → S → Option ImportStats × S
  unfolding load_schema_for_file import_one
  files_loop table [] st s = (some st, s)
  files_loop table (file ∷ files) st s =
      let name = unwrap_or table file.table_name in
      let out = import_loaded file (load_schema_for_file name file s) in
      elim (count_file out.0.0 out.1 st) [
        | none ↦ (none, out.0.1)
        | some st' ↦ files_loop table files st' out.0.1
      ]
