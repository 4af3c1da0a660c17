-- ===== src/Importer/Sqlsrv/Unquoting.antt =====
-- sqlsrv.rs: the texts that the literals of codec.rs give back.
use mathlib.Core.List.{reverse, reverse-append, reverse-reverse}
use wx_btrieve_sql_driver.Base.{
  Bool-cases, Str, [], and_then, ap, ap₂, arith, drop_while, false, inl, inr, is_whitespace, refl,
  replace_char, some, trim, trim_end, ℕ, ◌++◌, ◌==◌, ◌∙◌, ◌∷◌, ◌≡◌,
}
use wx_btrieve_sql_driver.Importer.Codec.{quoted_text}
use wx_btrieve_sql_driver.Importer.Sqlsrv.Values.{
  cons_char, or_whole, strip_prefix, strip_suffix, undouble, unquoted,
}

strip_suffix_last : (s : Str) → strip_suffix (s ++ 39 ∷ []) ≡ some s
strip_suffix_last [] = refl
strip_suffix_last (c ∷ []) = refl
strip_suffix_last (c ∷ d ∷ s) = ap (cons_char c) (strip_suffix_last (d ∷ s))

undouble_other : (c : ℕ) (s : Str) → (c == 39) ≡ false → undouble (c ∷ s) ≡ c ∷ undouble s
undouble_other c [] h = refl
undouble_other c (d ∷ s) h = rw h refl

undouble-replace_char : (s : Str) → undouble (replace_char 39 (39 ∷ 39 ∷ []) s) ≡ s
undouble-replace_char [] = refl
undouble-replace_char (c ∷ s) = elim (Bool-cases (c == 39)) [
  | inl e ↦
      let same : 39 ≡ c = ground arith in rw e (ap₂ (λ x xs. x ∷ xs) same (undouble-replace_char s))
  | inr e ↦ rw e (
      undouble_other c (replace_char 39 (39 ∷ 39 ∷ []) s) e
      ∙ ap (λ xs. c ∷ xs) (undouble-replace_char s))
]

-- Nothing is trimmed off the end of a text that ends by a character that is no space.
pub trim_end_last :
    (s : Str) (c : ℕ) → is_whitespace c ≡ false → trim_end (s ++ c ∷ []) ≡ s ++ c ∷ []
unfolding trim_end
trim_end_last s c h =
    ap (λ l. reverse (drop_while is_whitespace l)) (reverse-append s (c ∷ []))
    ∙ rw h (reverse-append (c ∷ []) (reverse s) ∙ ap (λ l. l ++ c ∷ []) (reverse-reverse s))

trim_quoted : (m : Str) → trim (39 ∷ (m ++ 39 ∷ [])) ≡ 39 ∷ (m ++ 39 ∷ [])
unfolding trim
trim_quoted m = trim_end_last (39 ∷ m) 39 refl

pub unquoted-quoted_text : (s : Str) → unquoted (quoted_text s) ≡ s
unfolding unquoted quoted_text
unquoted-quoted_text s =
    let m = replace_char 39 (39 ∷ 39 ∷ []) s in
    ap (λ t. or_whole (39 ∷ (m ++ 39 ∷ [])) (and_then (strip_prefix t) strip_suffix))
      (trim_quoted m)
    ∙ ap (or_whole (39 ∷ (m ++ 39 ∷ []))) (strip_suffix_last m)
    ∙ undouble-replace_char s
