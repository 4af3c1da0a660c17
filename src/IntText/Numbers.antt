-- ===== src/IntText/Numbers.antt =====
-- int.rs and export.rs: numbers written and read.
use wx_btrieve_sql_driver.Base.{
  Bool-cases, Fits, Str, [], all, and_then, ap, arith, digits_onto, false, inl, inr, is_empty, leb,
  ltb, negsuc, parse_digits, parse_unsigned, pos, refl, show_int, show_nat, signed, some, suc,
  to_word, true, unwrap_or, zero, ℕ, ℤ, ◌%◌, ◌+◌, ◌/◌, ◌<◌, ◌==◌, ◌^◌, ◌∙◌, ◌∷◌, ◌≡◌, ◌≤◌,
}
use wx_btrieve_sql_driver.Importer.Codec.Literals.{bound}
use wx_btrieve_sql_driver.Importer.Sqlsrv.Decimals.{
  StartsWithDigit, digits_last, digits_more, parse-show_nat, parse_i64-show_int,
  show_nat-StartsWithDigit,
}
use wx_btrieve_sql_driver.IntText.Entries.{IsWord}
use wx_btrieve_sql_driver.IntText.Lines.{is_word_char}
use wx_btrieve_sql_driver.IntText.Parse.{in_i32, parse_i32}
use wx_btrieve_sql_driver.IntText.Render.{show_i32}

digit_word : (d : ℕ) → d < 10 → is_word_char (48 + d) ≡ true
digit_word d h = digit_char (48 + d) (omega arith) (omega arith)
  where
    digit_char : (c : ℕ) → 47 < c → c < 58 → is_word_char c ≡ true
    digit_char c above below = ground arith

digits_onto_words :
    (fuel n : ℕ) (s : Str)
    → n < fuel
    → all is_word_char s ≡ true
    → all is_word_char (digits_onto fuel n s) ≡ true
digits_onto_words zero n s h a = absurd (omega arith)
digits_onto_words (suc fuel) n s h a = elim (Bool-cases (ltb n 10)) [
  | inl e ↦ ap (all is_word_char) (digits_last fuel n s e) ∙ rw (digit_word n (ground arith)) a
  | inr e ↦
      ap (all is_word_char) (digits_more fuel n s e)
      ∙ digits_onto_words fuel (n / 10) ((48 + n % 10) ∷ s) (ground arith)
          (rw (digit_word (n % 10) (omega arith)) a)
]

starts_nonempty : (s : Str) → StartsWithDigit s → is_empty s ≡ false
starts_nonempty [] d = absurd d
starts_nonempty (c ∷ s) d = refl

pub show_nat-IsWord : (n : ℕ) → IsWord (show_nat n)
unfolding show_nat
show_nat-IsWord n = record {
  some_char = starts_nonempty (show_nat n) (show_nat-StartsWithDigit n);
  word_chars = digits_onto_words (suc n) n [] (omega arith) refl;
}

read_unsigned :
    (bound n : ℕ) (s : Str)
    → StartsWithDigit s
    → parse_digits 0 s ≡ some n
    → n ≤ bound
    → parse_unsigned bound s ≡ some n
read_unsigned bound n [] d h fits = absurd d
read_unsigned bound n (c ∷ s) d h fits =
    let plus : (c == 43) ≡ false = ground arith in
    let inside : leb n bound ≡ true = ground arith in rw (plus, h, inside) refl

pub parse_unsigned-show_nat : (bound n : ℕ) → n ≤ bound → parse_unsigned bound (show_nat n) ≡ some n
parse_unsigned-show_nat bound n fits =
    read_unsigned bound n (show_nat n) (show_nat-StartsWithDigit n) (parse-show_nat n) fits

show_int-IsWord : (v : ℤ) → IsWord (show_int v)
unfolding show_int
show_int-IsWord (pos n) = show_nat-IsWord n
show_int-IsWord (negsuc n) = record {
  some_char = refl;
  word_chars = (show_nat-IsWord (suc n)).word_chars;
}

pub show_i32-IsWord : (n : ℕ) → IsWord (show_i32 n)
unfolding show_i32
show_i32-IsWord n = show_int-IsWord (signed (2 ^ 31) n)

i32_inside : (v : ℤ) → Fits (2 ^ 31) v → parse_i32 (show_int v) ≡ some v
i32_inside v h = ap (λ o. and_then o in_i32) (parse_i64-show_int v (wider v h)) ∙ inside v h
  where
    wider : (v : ℤ) → Fits (2 ^ 31) v → Fits (2 ^ 63) v
    wider (pos n) h = omega arith
    wider (negsuc n) h = omega arith

    inside : (v : ℤ) → Fits (2 ^ 31) v → in_i32 v ≡ some v
    inside (pos n) h = ground arith
    inside (negsuc n) h = ground arith

signed_31 : (n : ℕ) → Fits (2 ^ 31) (signed (2 ^ 31) n)
signed_31 n = elim (Bool-cases (ltb n (2 ^ 31))) [
  | inl e ↦ rw e (ground arith)
  | inr e ↦ rw e (ground arith)
]

word_signed : (n : ℕ) → n < 2 ^ 32 → to_word (2 ^ 32) (signed (2 ^ 31) n) ≡ n
word_signed n h = elim (Bool-cases (ltb n (2 ^ 31))) [
  | inl e ↦ rw e (ground arith)
  | inr e ↦ rw e (ground arith)
]

-- The pattern of an `i32` comes back.
pub parse_i32-show_i32 :
    (n : ℕ) → n < 2 ^ 32 → to_word (2 ^ 32) (unwrap_or (parse_i32 (show_i32 n)) (pos 0)) ≡ n
unfolding show_i32
parse_i32-show_i32 n h =
    ap (λ o. to_word (2 ^ 32) (unwrap_or o (pos 0))) (i32_inside (signed (2 ^ 31) n) (signed_31 n))
    ∙ word_signed n h

pub parse_i32-show_nat : (n : ℕ) → n < 2 ^ 31 → parse_i32 (show_nat n) ≡ some (pos n)
unfolding show_int
parse_i32-show_nat n h = i32_inside (pos n) h
