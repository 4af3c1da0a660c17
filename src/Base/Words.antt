-- ===== src/Base/Words.antt =====
-- Little-endian bytes of a word.
use Prim.Native.Nat.{ℕ, zero, suc, ◌+◌, ◌*◌, ◌/◌, ◌%◌, ◌^◌, ◌<◌}
use mathlib.Core.Path.{◌≡◌, refl, ap}
use mathlib.Core.List.{List, [], ◌∷◌}
use native.Mathlib.Omega.{arith}
use wx_btrieve_sql_driver.Base.Lists.{length}

abbrev pub IsByte : ℕ → Type 0
IsByte b = b < 256

-- `to_le_bytes` of a word of `k` bytes
abbrev pub to_le_bytes : ℕ → ℕ → List ℕ
to_le_bytes zero v = []
to_le_bytes (suc k) v = (v % 256) ∷ to_le_bytes k (v / 256)

-- `from_le_bytes`
abbrev pub from_le_bytes : List ℕ → ℕ
from_le_bytes [] = 0
from_le_bytes (b ∷ bs) = b + 256 * from_le_bytes bs

pub length-to_le_bytes : (k v : ℕ) → length (to_le_bytes k v) ≡ k
length-to_le_bytes zero v = refl
length-to_le_bytes (suc k) v = ap suc (length-to_le_bytes k (v / 256))

pub from_le-to_le_2 : (v : ℕ) → from_le_bytes (to_le_bytes 2 v) ≡ v % 2 ^ 16
from_le-to_le_2 v = omega arith

pub from_le-to_le_4 : (v : ℕ) → from_le_bytes (to_le_bytes 4 v) ≡ v % 2 ^ 32
from_le-to_le_4 v = omega arith

pub from_le-to_le_8 : (v : ℕ) → from_le_bytes (to_le_bytes 8 v) ≡ v % 2 ^ 64
from_le-to_le_8 v = omega arith
