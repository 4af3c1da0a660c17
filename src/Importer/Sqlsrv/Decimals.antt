-- ===== src/Importer/Sqlsrv/Decimals.antt =====
-- Decimal integers read back: `parse::<i64>` of what `{}` printed.
use mathlib.Core.Path.{subst}
use mathlib.Core.List.{append_assoc}
use wx_btrieve_sql_driver.Base.{
  Bool-cases, Fits, Str, [], ap, arith, codes, digits_onto, false, if◌then◌else◌, inl, inr,
  is_digit, is_whitespace, leb, ltb, negsuc, parse_digits, parse_i64, pos, refl, show_int, show_nat,
  some, str_eq, suc, sym, trim, trim_end, trim_start, true, zero, ℕ, ℤ, ◌%◌, ◌*◌, ◌++◌, ◌+◌, ◌-◌,
  ◌/◌, ◌<◌, ◌==◌, ◌^◌, ◌∙◌, ◌∷◌, ◌≡◌,
}
use wx_btrieve_sql_driver.Importer.Codec.Literals.{bound}
use wx_btrieve_sql_driver.Importer.Sqlsrv.Unquoting.{trim_end_last}

pub digits_last :
    (fuel n : ℕ) (s : Str) → ltb n 10 ≡ true → digits_onto (suc fuel) n s ≡ (48 + n) ∷ s
digits_last fuel n s h = rw (digits_onto, h) refl

pub digits_more :
    (fuel n : ℕ) (s : Str)
    → ltb n 10 ≡ false
    → digits_onto (suc fuel) n s ≡ digits_onto fuel (n / 10) ((48 + n % 10) ∷ s)
digits_more fuel n s h = rw (digits_onto, h) refl

parse_digit :
    (acc d n : ℕ) (s : Str)
    → d < 10
    → acc * 10 + d ≡ n
    → parse_digits acc ((48 + d) ∷ s) ≡ parse_digits n s
parse_digit acc d n s small_digit e =
    let digit : is_digit (48 + d) ≡ true = ground arith in
    rw digit (ap (λ k. parse_digits k s) (omega (arith, e)))

-- The digits of `n`, read from the front, give `n`.
parse-digits_onto :
    (fuel n : ℕ) (s : Str) → n < fuel → parse_digits 0 (digits_onto fuel n s) ≡ parse_digits n s
parse-digits_onto zero n s h = absurd (omega arith)
parse-digits_onto (suc fuel) n s h = elim (Bool-cases (ltb n 10)) [
  | inl e ↦
      ap (parse_digits 0) (digits_last fuel n s e)
      ∙ parse_digit 0 n n s (ground arith) (omega arith)
  | inr e ↦
      ap (parse_digits 0) (digits_more fuel n s e)
      ∙ parse-digits_onto fuel (n / 10) ((48 + n % 10) ∷ s) (ground arith)
      ∙ parse_digit (n / 10) (n % 10) n s (omega arith) (omega arith)
]

-- A text that starts by a digit.
abbrev pub StartsWithDigit : Str → Type 0
StartsWithDigit [] = ⊥
StartsWithDigit (c ∷ cs) = is_digit c ≡ true

digits_onto-StartsWithDigit :
    (fuel n : ℕ) (s : Str) → n < fuel → StartsWithDigit (digits_onto fuel n s)
digits_onto-StartsWithDigit zero n s h = absurd (omega arith)
digits_onto-StartsWithDigit (suc fuel) n s h = elim (Bool-cases (ltb n 10)) [
  | inl e ↦
      let digit : is_digit (48 + n) ≡ true = ground arith in
      subst StartsWithDigit (sym (digits_last fuel n s e)) digit
  | inr e ↦
      subst StartsWithDigit (sym (digits_more fuel n s e))
        (digits_onto-StartsWithDigit fuel (n / 10) ((48 + n % 10) ∷ s) (ground arith))
]

parse_plain :
    (s : Str) (n : ℕ)
    → StartsWithDigit s
    → parse_digits 0 s ≡ some n
    → n < 2 ^ 63
    → parse_i64 s ≡ some (pos n)
unfolding parse_i64
parse_plain [] n d h bound = absurd d
parse_plain (c ∷ cs) n d h bound =
    let minus : (c == 45) ≡ false = ground arith in
    let plus : (c == 43) ≡ false = ground arith in
    let fits : leb n (2 ^ 63 - 1) ≡ true = ground arith in rw (minus, plus, h, fits) refl

pub show_nat-StartsWithDigit : (n : ℕ) → StartsWithDigit (show_nat n)
unfolding show_nat
show_nat-StartsWithDigit n = digits_onto-StartsWithDigit (suc n) n [] (omega arith)

pub parse-show_nat : (n : ℕ) → parse_digits 0 (show_nat n) ≡ some n
unfolding show_nat
parse-show_nat n = parse-digits_onto (suc n) n [] (omega arith)

parse_minus :
    (s : Str) (n : ℕ)
    → StartsWithDigit s
    → parse_digits 0 s ≡ some (suc n)
    → n < 2 ^ 63
    → parse_i64 (45 ∷ s) ≡ some (negsuc n)
unfolding parse_i64
parse_minus [] n d h bound = absurd d
parse_minus (c ∷ cs) n d h bound =
    let fits : leb (suc n) (2 ^ 63) ≡ true = ground arith in rw (h, fits) refl

-- `parse::<i64>` gives back every 64-bit integer that `{}` printed.
pub parse_i64-show_int : (v : ℤ) → Fits (2 ^ 63) v → parse_i64 (show_int v) ≡ some v
unfolding show_int
parse_i64-show_int (pos n) h =
    parse_plain (show_nat n) n (show_nat-StartsWithDigit n) (parse-show_nat n) h
parse_i64-show_int (negsuc n) h =
    parse_minus (show_nat (suc n)) n (show_nat-StartsWithDigit (suc n)) (parse-show_nat (suc n)) h

digits_onto-append :
    (fuel n : ℕ) (s t : Str) → digits_onto fuel n (s ++ t) ≡ digits_onto fuel n s ++ t
digits_onto-append zero n s t = refl
digits_onto-append (suc fuel) n s t = elim (Bool-cases (ltb n 10)) [
  | inl e ↦ digits_last fuel n (s ++ t) e ∙ ap (λ l. l ++ t) (sym (digits_last fuel n s e))
  | inr e ↦
      digits_more fuel n (s ++ t) e
      ∙ digits_onto-append fuel (n / 10) ((48 + n % 10) ∷ s) t
      ∙ ap (λ l. l ++ t) (sym (digits_more fuel n s e))
]

-- What stands before the last digit.
abbrev leading : ℕ → ℕ → Str
leading fuel n = if ltb n 10 then [] else digits_onto fuel (n / 10) []

pub last_digit : (fuel n : ℕ) → digits_onto (suc fuel) n [] ≡ leading fuel n ++ (48 + n % 10) ∷ []
last_digit fuel n = elim (Bool-cases (ltb n 10)) [
  | inl e ↦ digits_last fuel n [] e ∙ rw e (ap (λ d. (48 + d) ∷ []) (ground arith))
  | inr e ↦
      digits_more fuel n [] e ∙ rw e (digits_onto-append fuel (n / 10) [] ((48 + n % 10) ∷ []))
]

no_space : (n : ℕ) → is_whitespace (48 + n % 10) ≡ false
no_space n = digit_no_space (48 + n % 10) (omega arith) (omega arith)
  where
    digit_no_space : (c : ℕ) → 47 < c → c < 58 → is_whitespace c ≡ false
    digit_no_space c above below = ground arith

trim_end-show_nat : (s : Str) (n : ℕ) → trim_end (s ++ show_nat n) ≡ s ++ show_nat n
unfolding show_nat
trim_end-show_nat s n =
    let split =
      ap (λ l. s ++ l) (last_digit n n) ∙ sym (append_assoc s (leading n n) ((48 + n % 10) ∷ [])) in
    ap trim_end split ∙ trim_end_last (s ++ leading n n) (48 + n % 10) (no_space n) ∙ sym split

trim_start_digit : (s : Str) → StartsWithDigit s → trim_start s ≡ s
trim_start_digit [] d = refl
trim_start_digit (c ∷ cs) d = let space : is_whitespace c ≡ false = ground arith in rw space refl

pub trim-show_int : (v : ℤ) → trim (show_int v) ≡ show_int v
unfolding trim show_int
trim-show_int (pos n) =
    ap trim_end (trim_start_digit (show_nat n) (show_nat-StartsWithDigit n))
    ∙ trim_end-show_nat [] n
trim-show_int (negsuc n) = trim_end-show_nat (45 ∷ []) (suc n)

digit_not_null : (s : Str) → StartsWithDigit s → str_eq s (codes "NULL") ≡ false
digit_not_null [] d = absurd d
digit_not_null (c ∷ cs) d = let other : (c == 78) ≡ false = ground arith in rw other refl

pub show_int_not_null : (v : ℤ) → str_eq (show_int v) (codes "NULL") ≡ false
unfolding show_int
show_int_not_null (pos n) = digit_not_null (show_nat n) (show_nat-StartsWithDigit n)
show_int_not_null (negsuc n) = refl
