-- ===== src/Tests/Texts.antt =====
-- A table as an INT text.
use wx_btrieve_sql_driver.Base.{
  [], arith, codes, inl, lookup, nat_eq, none, refl, some, text_eq, trim, trim_end, true, ◌++◌, ◌∷◌,
  ◌≡◌,
}
use wx_btrieve_sql_driver.Importer.Schema.{IntFile}
use wx_btrieve_sql_driver.IntText.Entries.{IsValue}
use wx_btrieve_sql_driver.IntText.FieldLines.{IsField}
use wx_btrieve_sql_driver.IntText.Lines.{parse_kv_lines}
use wx_btrieve_sql_driver.IntText.Render.{render_int}
use wx_btrieve_sql_driver.IntText.RoundTrip.{IsTable, KeepsIndexes, Reads, parse-render_int}
use wx_btrieve_sql_driver.IntText.Table.{parse}
use wx_btrieve_sql_driver.Tests.Runs.{text_field, text_table}

abbrev noted_table : IntFile
noted_table = record text_table {
  fields = record text_field { default_value = some (codes "NO NAME") } ∷ [];
  indexes =
      record {
        num = 1;
        num_segments = 1;
        segments = record { field_num = 1; attrs = 16; descending = true; null_value = 32 } ∷ [];
      }
      ∷ [];
}

default_IsValue : IsValue (codes "NO NAME")
default_IsValue = record { starts = refl; ends = refl; one_line = refl }

noted_IsField : IsField (record text_field { default_value = some (codes "NO NAME") })
noted_IsField = record {
  num = omega arith;
  name = record { starts = refl; ends = refl; one_line = refl };
  native_type = omega arith;
  length_fits = omega arith;
  offset = omega arith;
  field_index = tt;
  default_value = default_IsValue;
}

noted_IsTable : IsTable noted_table (codes "SRV")
noted_IsTable = record {
  names = record {
    server_name = record { starts = refl; ends = refl; one_line = refl };
    db_name = tt;
    table_name = record { starts = refl; ends = refl; one_line = refl };
    schema_name = tt;
  };
  fields = (noted_IsField, tt);
  indexes = (
    record {
      num = omega arith;
      num_segments = omega arith;
      segments = (record { some_field = refl; field_num = omega arith; attrs = omega arith }, tt);
    },
    tt,
  );
}

noted_KeepsIndexes : KeepsIndexes noted_table
noted_KeepsIndexes = record { rising = (omega arith, tt); own = inl refl }

parse_example : Reads noted_table (parse (render_int noted_table (codes "SRV")) (codes "T.INT"))
parse_example =
    parse-render_int noted_table (codes "SRV") (codes "T.INT") noted_IsTable noted_KeepsIndexes

-- The whole of the header comes back too.
header_back :
    (elim (parse (render_int noted_table (codes "SRV")) (codes "T.INT")) [
      | none ↦ []
      | some f ↦ f.table_name ++ f.server_name
    ])
    ≡ codes "TSRV"
unfolding render_int parse parse_kv_lines trim trim_end lookup
header_back = refl
