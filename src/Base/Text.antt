-- ===== src/Base/Text.antt =====
-- Rust's `str` as the list of its code points: comparison, trimming, joining, decimal printing
-- and parsing, as the driver uses them.
use Prim.Native.Nat.{ℕ, zero, suc, ◌+◌, ◌-◌, ◌*◌, ◌/◌, ◌%◌, ◌^◌}
use Prim.Native.Char.{code}
use Prim.Native.String.{String}
use mathlib.Core.Path.{◌≡◌, refl}
use mathlib.Core.Logic.{◌↔◌}
use mathlib.Core.Bool.{Bool, true, false, ◌&&◌, ◌||◌}
use mathlib.Core.List.{List, [], ◌∷◌, ◌++◌, map, reverse}
use mathlib.Core.Option.{Option, none, some}
use native.Mathlib.Omega.{arith}
use wx_btrieve_sql_driver.Base.Tests.{ltb, leb, ◌==◌, if◌then◌else◌, and_then}
use wx_btrieve_sql_driver.Base.Lists.{length, replicate, drop_while}
use wx_btrieve_sql_driver.Base.Int.{ℤ, pos, negsuc}

abbrev pub Str : Type 0
Str = List ℕ

abbrev pub codes : String → Str
codes String.[] = []
codes (String.◌∷◌ c s) = code c ∷ codes s

abbrev pub str_eq : Str → Str → Bool
str_eq [] [] = true
str_eq [] (y ∷ ys) = false
str_eq (x ∷ xs) [] = false
str_eq (x ∷ xs) (y ∷ ys) = x == y && str_eq xs ys

pub str_eq_iff : (s t : Str) → (str_eq s t ≡ true) ↔ (s ≡ t)
str_eq_iff [] [] = (λ _. refl, λ _. refl)
str_eq_iff [] (y ∷ ys) = (λ h. cc, λ h. cc)
str_eq_iff (x ∷ xs) [] = (λ h. cc, λ h. cc)
str_eq_iff (x ∷ xs) (y ∷ ys) =
    (λ h. ground (arith, (str_eq_iff xs ys).0), λ h. ground (arith, (str_eq_iff xs ys).1))

-- `char::is_ascii_digit`
abbrev pub is_digit : ℕ → Bool
is_digit c = leb 48 c && leb c 57

-- `char::is_whitespace`, Unicode's White_Space
abbrev pub is_whitespace : ℕ → Bool
is_whitespace c =
    (leb 9 c && leb c 13)
    || c == 32
    || c == 0x85
    || c == 0xa0
    || c == 0x1680
    || (leb 0x2000 c && leb c 0x200a)
    || c == 0x2028
    || c == 0x2029
    || c == 0x202f
    || c == 0x205f
    || c == 0x3000

abbrev pub trim_start : Str → Str
trim_start s = drop_while is_whitespace s

unfoldable pub trim_end : Str → Str
trim_end s = reverse (drop_while is_whitespace (reverse s))

unfoldable pub trim : Str → Str
unfolding trim_end
trim s = trim_end (trim_start s)

abbrev pub to_ascii_uppercase : Str → Str
to_ascii_uppercase s = map (λ c. if leb 97 c && leb c 122 then c - 32 else c) s

abbrev pub to_ascii_lowercase : Str → Str
to_ascii_lowercase s = map (λ c. if leb 65 c && leb c 90 then c + 32 else c) s

abbrev pub eq_ignore_ascii_case : Str → Str → Bool
eq_ignore_ascii_case s t = str_eq (to_ascii_lowercase s) (to_ascii_lowercase t)

-- `s.replace(c, r)` for a character `c`
abbrev pub replace_char : ℕ → Str → Str → Str
replace_char c r [] = []
replace_char c r (x ∷ xs) = if x == c then r ++ replace_char c r xs else x ∷ replace_char c r xs

-- `parts.join(sep)`
abbrev pub join : Str → List Str → Str
join sep [] = []
join sep (s ∷ []) = s
join sep (s ∷ t ∷ rest) = s ++ sep ++ join sep (t ∷ rest)

-- Decimal digits, the last first onto `acc`; the fuel bounds their number.
abbrev pub digits_onto : ℕ → ℕ → Str → Str
digits_onto zero n acc = acc
digits_onto (suc fuel) n acc = elim (ltb n 10) [
  | true ↦ (48 + n) ∷ acc
  | false ↦ digits_onto fuel (n / 10) ((48 + n % 10) ∷ acc)
]

-- `{}` on an unsigned integer
unfoldable pub show_nat : ℕ → Str
show_nat n = digits_onto (suc n) n []

-- `{}` on a signed integer
unfoldable pub show_int : ℤ → Str
unfolding show_nat
show_int (pos n) = show_nat n
show_int (negsuc n) = 45 ∷ show_nat (suc n)

-- `{:0k}` on an unsigned integer
unfoldable pub show_padded : ℕ → ℕ → Str
unfolding show_nat
show_padded k n = replicate (k - length (show_nat n)) 48 ++ show_nat n

abbrev pub parse_digits : ℕ → Str → Option ℕ
parse_digits acc [] = some acc
parse_digits acc (c ∷ cs) = if is_digit c then parse_digits (acc * 10 + (c - 48)) cs else none

abbrev pub parse_magnitude : Str → Option ℕ
parse_magnitude [] = none
parse_magnitude (c ∷ cs) = parse_digits 0 (c ∷ cs)

abbrev pub at_most : ℕ → ℕ → Option ℕ
at_most bound n = if leb n bound then some n else none

-- `parse` into an unsigned type whose greatest value is `bound`
abbrev pub parse_unsigned : ℕ → Str → Option ℕ
parse_unsigned bound [] = none
parse_unsigned bound (c ∷ cs) =
    if c == 43
    then and_then (parse_magnitude cs) (at_most bound)
    else and_then (parse_digits 0 (c ∷ cs)) (at_most bound)

abbrev pub negated : ℕ → ℤ
negated zero = pos 0
negated (suc n) = negsuc n

-- `parse::<i64>`
unfoldable pub parse_i64 : Str → Option ℤ
parse_i64 [] = none
parse_i64 (c ∷ cs) =
    if c == 45
    then and_then (and_then (parse_magnitude cs) (at_most (2 ^ 63))) (λ n. some (negated n))
    else if c == 43
    then and_then (and_then (parse_magnitude cs) (at_most (2 ^ 63 - 1))) (λ n. some (pos n))
    else and_then (and_then (parse_digits 0 (c ∷ cs)) (at_most (2 ^ 63 - 1))) (λ n. some (pos n))
