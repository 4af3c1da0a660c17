-- ===== src/Importer/Runner/Imports.antt =====
-- runner.rs: `import_one` on a whole file.
use wx_btrieve_sql_driver.Floats.{Floats}
