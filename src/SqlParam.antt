-- ===== src/SqlParam.antt =====
-- crates/wxbtrv-core/src/sql_param.rs: the bound parameters. An `f64` is its bit pattern.
use wx_btrieve_sql_driver.Base.{Bool, List, Str, ℕ, ℤ}

pub data SqlValue : Type 0 where
  null : SqlValue
  bool : Bool → SqlValue
  i32 : ℤ → SqlValue
  i64 : ℤ → SqlValue
  f64 : ℕ → SqlValue
  text : Str → SqlValue
  bytes : List ℕ → SqlValue
