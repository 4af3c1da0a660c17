-- ===== src/Base/Int.antt =====
-- Signed integers over the native numbers, and the two's complement reading of a word.
use Prim.Native.Nat.{ℕ, ◌+◌, ◌-◌, ◌%◌, ◌^◌, ◌<◌}
use mathlib.Core.Path.{◌≡◌}
use mathlib.Core.Bool.{Bool, true, false}
use native.Mathlib.Omega.{arith}
use wx_btrieve_sql_driver.Base.Tests.{ltb, ◌==◌, if◌then◌else◌}

-- `negsuc n` is -(n + 1).
pub data ℤ : Type 0 where
  pos : ℕ → ℤ
  negsuc : ℕ → ℤ

abbrev pub int_eq : ℤ → ℤ → Bool
int_eq (pos a) (pos b) = a == b
int_eq (pos a) (negsuc b) = false
int_eq (negsuc a) (pos b) = false
int_eq (negsuc a) (negsuc b) = a == b

abbrev pub int_lt : ℤ → ℤ → Bool
int_lt (pos a) (pos b) = ltb a b
int_lt (pos a) (negsuc b) = false
int_lt (negsuc a) (pos b) = true
int_lt (negsuc a) (negsuc b) = ltb b a

-- The value of a `w`-bit pattern read as a signed number; `h` is 2 ^ (w - 1).
abbrev pub signed : ℕ → ℕ → ℤ
signed h v = if ltb v h then pos v else negsuc (h + h - 1 - v)

-- The bit pattern of `v` in a word of `m` values: Rust's `as` between integer types.
abbrev pub to_word : ℕ → ℤ → ℕ
to_word m (pos n) = n % m
to_word m (negsuc n) = m - 1 - n % m

-- -h ≤ v < h
abbrev pub Fits : ℕ → ℤ → Type 0
Fits h (pos n) = n < h
Fits h (negsuc n) = n < h

pub signed-to_word_16 : (v : ℤ) → Fits (2 ^ 15) v → signed (2 ^ 15) (to_word (2 ^ 16) v) ≡ v
signed-to_word_16 (pos n) h = ground arith
signed-to_word_16 (negsuc n) h = ground arith

pub signed-to_word_32 : (v : ℤ) → Fits (2 ^ 31) v → signed (2 ^ 31) (to_word (2 ^ 32) v) ≡ v
signed-to_word_32 (pos n) h = ground arith
signed-to_word_32 (negsuc n) h = ground arith

pub signed-to_word_64 : (v : ℤ) → Fits (2 ^ 63) v → signed (2 ^ 63) (to_word (2 ^ 64) v) ≡ v
signed-to_word_64 (pos n) h = ground arith
signed-to_word_64 (negsuc n) h = ground arith

pub to_word-lt_64 : (v : ℤ) → to_word (2 ^ 64) v < 2 ^ 64
to_word-lt_64 (pos n) = omega arith
to_word-lt_64 (negsuc n) = omega arith
