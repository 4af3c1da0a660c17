-- ===== src/Tests/Diffs.antt =====
-- A table against the columns of its backend.
use wx_btrieve_sql_driver.Base.{List, [], codes, false, refl, some, trim, trim_end, true, ◌∷◌, ◌≡◌}
use wx_btrieve_sql_driver.Dialect.{postgres, sqlite}
use wx_btrieve_sql_driver.Importer.Codec.{sql_type}
use wx_btrieve_sql_driver.Importer.Codec.Literals.{as_type}
use wx_btrieve_sql_driver.Importer.Schema.{IntFile}
use wx_btrieve_sql_driver.Importer.Sqlsrv.{sql_type_str}
use wx_btrieve_sql_driver.Record.Slices.{type_lstring, type_string, type_zstring, type_zstring_12}
use wx_btrieve_sql_driver.Schema.{IntField}
use wx_btrieve_sql_driver.Tests.Fixtures.{id_field}
use wx_btrieve_sql_driver.Tests.Runs.{text_field, text_table}
use wx_btrieve_sql_driver.WebDiff.{
  BackendColumn, DiffLists, apply_statements, extra_loop, normalize_type, project_loop, to_add,
  types_match,
}
use wx_btrieve_sql_driver.WebDiff.Agreement.{
  diff_names, project_loop-apply_statements, reported_statements, types_match-text, with_verdict,
}

abbrev two_columns : List BackendColumn
two_columns =
    record { name = codes "name"; data_type = codes "text"; nullable = true }
    ∷ record { name = codes "OLD"; data_type = codes "INTEGER"; nullable = true }
    ∷ []

abbrev two_fields : List IntField
two_fields = text_field ∷ id_field ∷ []

abbrev two_reports : DiffLists
two_reports = record { matched = codes "NAME" ∷ []; missing = codes "ID" ∷ []; mismatches = [] }

two_reported : project_loop sqlite two_columns two_fields ≡ some two_reports
unfolding project_loop types_match normalize_type sql_type_str sql_type trim trim_end
two_reported = refl

abbrev two_fields_table : IntFile
two_fields_table = record text_table { fields = two_fields }

diff_example :
    (two_reports.missing ≡ diff_names (to_add two_columns two_fields))
    × (two_reports.matched ≡ diff_names (with_verdict true sqlite two_columns two_fields))
    × (two_reports.mismatches ≡ diff_names (with_verdict false sqlite two_columns two_fields))
    × (apply_statements sqlite two_fields_table two_columns true true
        ≡ reported_statements sqlite two_fields_table two_columns two_reports.missing
            (extra_loop two_fields two_columns)
            true
            true)
diff_example =
    project_loop-apply_statements sqlite two_fields_table two_columns true true two_reports
      two_reported

postgres_example :
    (types_match postgres
        (sql_type_str postgres (as_type type_string text_field) [])
        (codes "CHARACTER VARYING")
      ≡ some false)
    × (types_match postgres
          (sql_type_str postgres (as_type type_lstring text_field) [])
          (codes "CHARACTER VARYING")
        ≡ some false)
    × (types_match postgres
          (sql_type_str postgres (as_type type_zstring text_field) [])
          (codes "CHARACTER VARYING")
        ≡ some false)
    × (types_match postgres
          (sql_type_str postgres (as_type type_zstring_12 text_field) [])
          (codes "CHARACTER VARYING")
        ≡ some false)
postgres_example = types_match-text text_field
