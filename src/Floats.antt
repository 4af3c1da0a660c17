-- ===== src/Floats.antt =====
-- Rust's `f32` and `f64`. A float is its IEEE 754 bit pattern, so that `from_le_bytes`,
-- `to_le_bytes`, `is_finite` and `is_subnormal` are read off the bits; the arithmetic and the
-- conversions that need rounding are a parameter.
use wx_btrieve_sql_driver.Base.{
  Bool, Option, Str, codes, ltb, not, pos, some, ℕ, ℤ, ◌%◌, ◌&&◌, ◌/◌, ◌==◌, ◌^◌,
}

pub record Floats : Type 0 where
  -- `parse::<f64>().ok()`
  pub parse_f64 : Str → Option ℕ
  -- `v as f32` and `v as f64`
  pub f64_to_f32 : ℕ → ℕ
  pub f32_to_f64 : ℕ → ℕ
  -- `(v * 10000.0) as i64` and `units as f64 / 10000.0`
  pub to_units : ℕ → ℤ
  pub from_units : ℤ → ℕ
  -- `format!("{:.k}", v)` of an `f32` and of an `f64`
  pub fixed_f32 : ℕ → ℕ → Str
  pub fixed_f64 : ℕ → ℕ → Str

abbrev exponent : ℕ → ℕ
exponent bits = bits / 2 ^ 52 % 2048

abbrev f32_exponent : ℕ → ℕ
f32_exponent bits = bits / 2 ^ 23 % 256

-- `is_finite` and not `is_subnormal`, of an `f32`
abbrev pub f32_is_plain : ℕ → Bool
f32_is_plain bits =
    ltb (f32_exponent bits) 255 && not (f32_exponent bits == 0 && ltb 0 (bits % 2 ^ 23))

abbrev pub is_finite : ℕ → Bool
is_finite bits = ltb (exponent bits) 2047

abbrev pub is_subnormal : ℕ → Bool
is_subnormal bits = exponent bits == 0 && ltb 0 (bits % 2 ^ 52)

-- A stand-in for tests: every float is 0.
abbrev pub zero_floats : Floats
zero_floats = record {
  parse_f64 = λ s. some 0;
  f64_to_f32 = λ v. 0;
  f32_to_f64 = λ v. 0;
  to_units = λ v. pos 0;
  from_units = λ v. 0;
  fixed_f32 = λ k v. codes "0";
  fixed_f64 = λ k v. codes "0";
}
