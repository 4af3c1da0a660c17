-- ===== src/Importer/Runner/DryRun.antt =====
-- runner.rs: an import without a connection.
use wx_btrieve_sql_driver.Base.{
  Bool, Bool-cases, List, Option, Option-cases, Str, [], ap, false, inl, inr, leb, length, map,
  nat_eq, none, refl, some, text_eq, true, unwrap_or, ℕ, ◌++◌, ◌+◌, ◌∙◌, ◌∷◌, ◌≡◌, ◌⊎◌,
}
use wx_btrieve_sql_driver.Dialect.{Backend}
use wx_btrieve_sql_driver.Floats.{Floats}
use wx_btrieve_sql_driver.Importer.BFile.{BtrieveFile, OpenError, all_records, open_file}
use wx_btrieve_sql_driver.Importer.Codec.{unpack_row}
use wx_btrieve_sql_driver.Importer.Runner.{
  Attempt, Clients, ImportError, ImportOptions, Message, create_failed, finished, flush,
  import_rows, send_batch, truncate_failed,
}
use wx_btrieve_sql_driver.Importer.Runner.Files.{
  ImportStats, SourceFile, behind, connection, count_file, derived, derived_from, files_loop,
  import_from, import_loaded, import_one, import_opened, inserter, load_schema_for_file, or_derived,
  prepare_table, statement_if, truncate_sql,
}
use wx_btrieve_sql_driver.Importer.Schema.{BtrieveSchema, IntFile}
use wx_btrieve_sql_driver.Importer.Schema.Parse.{SchemaResult, parse_schema}
use wx_btrieve_sql_driver.Importer.Sqlsrv.{DecodedRow, gen_create_table}

module _ {S : Type 0} (insert : List DecodedRow → S → Option Str × S) (size : ℕ)
    (kept : (rows : List DecodedRow) (s : S) → insert rows s ≡ (none, s)) where
  send_batch-state :
      (total : ℕ) (rows : List DecodedRow) (s : S) (k : ℕ → S → Attempt ℕ × S)
      → ((n : ℕ) → (k n s).1 ≡ s)
      → (send_batch insert size total rows (insert rows s) k).1 ≡ s
  send_batch-state total rows s k h =
      ap (λ o. (send_batch insert size total rows o k).1) (kept rows s) ∙ h (total + length rows)

  flush-state :
      (total : ℕ) (rows : List DecodedRow) (s : S) → (flush insert size total rows s).1 ≡ s
  flush-state total [] s = refl
  flush-state total (row ∷ rows) s =
      send_batch-state total (row ∷ rows) s (λ n s'. (finished n, s')) (λ n. refl)

  import_rows-state :
      (recs : List (Option DecodedRow)) (rows : List DecodedRow) (total : ℕ) (s : S)
      → (import_rows insert size recs rows total s).1 ≡ s
  unfolding import_rows
  import_rows-state [] rows total s = flush-state total rows s
  import_rows-state (none ∷ recs) rows total s = refl
  import_rows-state (some row ∷ recs) rows total s =
      let full = rows ++ row ∷ [] in
      elim (Bool-cases (leb size (length full))) [
        | inl e ↦ rw e (
            send_batch-state total full s (import_rows insert size recs [])
              (λ n. import_rows-state recs [] n s))
        | inr e ↦ rw e (import_rows-state recs full total s)
      ]

module _ {S : Type 0} (fl : Floats) (b : Backend) (opts : ImportOptions) where
  statement_if-kept :
      (c : Bool) (error : Str → ImportError) (sql : Str) (s : S)
      → statement_if fl none b opts c error sql s ≡ (none, s)
  statement_if-kept true error sql s = refl
  statement_if-kept false error sql s = refl

  prepare_table-kept : (table : IntFile) (s : S) → prepare_table fl none b opts table s ≡ (none, s)
  unfolding prepare_table
  prepare_table-kept table s =
      let empty =
        statement_if {S = S} fl none b opts opts.truncate truncate_failed (truncate_sql b table) in
      ap (λ o. behind fl none b opts o empty)
        (statement_if-kept opts.create create_failed (gen_create_table b table opts.collation) s)
      ∙ statement_if-kept opts.truncate truncate_failed (truncate_sql b table) s

  import_from-kept :
      (table : IntFile) (f : BtrieveFile) (s : S)
      → (import_from fl none b opts table f (prepare_table fl none b opts table s)).1 ≡ s
  import_from-kept table f s =
      ap (λ o. (import_from fl none b opts table f o).1) (prepare_table-kept table s)
      ∙ import_rows-state (inserter fl none b opts table) opts.batch (λ rows s'. refl)
          (map (unpack_row fl table.fields) (all_records f)) [] 0 s

  -- Without a connection an import changes nothing.
  import_one-kept :
      (table : IntFile) (file : SourceFile) (s : S)
      → (import_one fl none b opts table file s).0.1 ≡ s
  unfolding import_one
  import_one-kept table file s = elim (Option-cases file.content) [
    | inl e ↦ rw e refl
    | inr (bytes, e) ↦ rw e (opened_it (open_file bytes))
  ]
    where
      opened_it : (o : OpenError ⊎ BtrieveFile) → (import_opened fl none b opts table o s).0.1 ≡ s
      opened_it (inl e) = refl
      opened_it (inr f) = import_from-kept table f s

module _ {S : Type 0} (fl : Floats) (cl : Clients S) (b : Backend) (opts : ImportOptions)
    (dry : opts.dry_run ≡ true) (unsaved : opts.save_schema ≡ false)
    (reads : (name : Str) (s : S) → (cl.load_table name s).1 ≡ s) where
  derived_from-kept :
      (name : Str) (file : SourceFile) (content : Option (List ℕ)) (s : S)
      → (derived_from fl cl b opts name file content s).1 ≡ s
  derived_from-kept name file none s = refl
  derived_from-kept name file (some bytes) s = parsed (parse_schema bytes)
    where
      parsed :
          (r : SchemaResult BtrieveSchema) → (derived fl cl b opts name file.file_name r s).1 ≡ s
      parsed (inl e) = refl
      parsed (inr schema) = rw unsaved refl

  load_schema_for_file-kept :
      (name : Str) (file : SourceFile) (s : S)
      → (load_schema_for_file fl cl b opts name file s).1 ≡ s
  unfolding load_schema_for_file
  load_schema_for_file-kept name file s = loaded (cl.load_table name s) (reads name s)
    where
      loaded : (o : (Str ⊎ IntFile) × S) → o.1 ≡ s → (or_derived fl cl b opts name file o).1 ≡ s
      loaded (inr table, s') h = h
      loaded (inl e, s') h = elim (Bool-cases opts.auto_schema) [
        | inl a ↦ rw a (derived_from-kept name file file.content s' ∙ h)
        | inr a ↦ rw a h
      ]

  import_loaded-kept :
      (file : SourceFile) (o : (ImportError ⊎ IntFile) × S × List Message)
      → (import_loaded fl cl b opts file o).0.1 ≡ o.1
  import_loaded-kept file (inl e, s, log) = refl
  import_loaded-kept file (inr table, s, log) =
      ap (λ d. (import_one fl (connection d cl) b opts table file s).0.1) dry
      ∙ import_one-kept fl b opts table file s

  -- A dry run that is not told to save derived schemas leaves the database and the settings as they
  -- are, whatever the files hold and however their imports end, when reading a table from the
  -- settings does not change them.
  pub files_loop-dry_run :
      (table : Option Str) (files : List SourceFile) (st : ImportStats) (s : S)
      → (files_loop fl cl b opts table files st s).1 ≡ s
  unfolding files_loop
  files_loop-dry_run table [] st s = refl
  files_loop-dry_run table (file ∷ files) st s =
      let name = unwrap_or table file.table_name in
      let loaded = load_schema_for_file fl cl b opts name file s in
      let out = import_loaded fl cl b opts file loaded in
      let kept = import_loaded-kept file loaded ∙ load_schema_for_file-kept name file s in
      counted (count_file fl cl b opts out.0.0 out.1 st) out.0.1 kept
        (λ st'. files_loop-dry_run table files st' out.0.1)
    where
      counted :
          (o : Option ImportStats) (s' : S)
          → s' ≡ s
          → ((st' : ImportStats) → (files_loop fl cl b opts table files st' s').1 ≡ s')
          → (elim o as (λ _. Option ImportStats × S) [
            | none ↦ (none, s')
            | some st' ↦ files_loop fl cl b opts table files st' s'
          ]).1
            ≡ s
      counted none s' h rest = h
      counted (some st') s' h rest = rest st' ∙ h
