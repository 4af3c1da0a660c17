-- ===== src/IntText/Entries.antt =====
-- int.rs: the lines that export.rs writes, and their entries.
use mathlib.Core.List.{append_assoc}
use wx_btrieve_sql_driver.Base.{
  All, List, Str, [], all, ap, ap₂, arith, codes, false, is_empty, is_whitespace, join, keep, not,
  refl, some, sym, to_ascii_uppercase, trim, trim_end, trim_start, true, ℕ, ◌++◌, ◌==◌, ◌∙◌, ◌∷◌,
  ◌≡◌,
}
use wx_btrieve_sql_driver.Importer.Sqlsrv.Unquoting.{trim_end_last}
use wx_btrieve_sql_driver.IntText.Lines.{
  behind_word, cons_first, entry_of, first_word, is_word_char, lines, pieces, words,
}
use wx_btrieve_sql_driver.IntText.Render.{kv, unlines}

-- No line feed.
abbrev pub OneLine : Str → Type 0
OneLine l = all (λ c. not (c == 10)) l ≡ true

pub line-lines : (l rest : Str) → OneLine l → lines (l ++ 10 ∷ rest) ≡ l ∷ lines rest
line-lines [] rest h = refl
line-lines (c ∷ l) rest h =
    let other : (c == 10) ≡ false = ground arith in
    let behind : all (λ d. not (d == 10)) l ≡ true = ground arith in
    rw other (ap (cons_first c) (line-lines l rest behind))

pub lines-unlines : (ls : List Str) → All OneLine ls → lines (unlines ls) ≡ ls
lines-unlines [] a = refl
lines-unlines (l ∷ ls) a = line-lines l (unlines ls) a.0 ∙ ap (λ t. l ∷ t) (lines-unlines ls a.1)

abbrev Starts : Str → Type 0
Starts [] = ⊥
Starts (c ∷ cs) = is_whitespace c ≡ false

abbrev Ends : Str → Type 0
Ends [] = ⊥
Ends (c ∷ []) = is_whitespace c ≡ false
Ends (c ∷ d ∷ cs) = Ends (d ∷ cs)

-- A value of an entry: on one line, and neither empty nor with a space at either end.
pub record IsValue (v : Str) : Type 0 where
  pub starts : Starts v
  pub ends : Ends v
  pub one_line : OneLine v

-- A value without a space.
pub record IsWord (v : Str) : Type 0 where
  pub some_char : is_empty v ≡ false
  pub word_chars : all is_word_char v ≡ true

word-OneLine : (v : Str) → all is_word_char v ≡ true → OneLine v
word-OneLine [] h = refl
word-OneLine (c ∷ v) h =
    let here : is_whitespace c ≡ false = ground arith in
    let other : (c == 10) ≡ false = ground arith in
    let behind : all is_word_char v ≡ true = ground arith in rw other (word-OneLine v behind)

word-Ends : (c : ℕ) (v : Str) → all is_word_char (c ∷ v) ≡ true → Ends (c ∷ v)
word-Ends c [] h = ground arith
word-Ends c (d ∷ v) h =
    let behind : all is_word_char (d ∷ v) ≡ true = ground arith in word-Ends d v behind

word_starts : (c : ℕ) (v : Str) → all is_word_char (c ∷ v) ≡ true → is_whitespace c ≡ false
word_starts c v h = ground arith

pub word-IsValue : (v : Str) → IsWord v → IsValue v
word-IsValue [] w = absurd (cc (w.some_char))
word-IsValue (c ∷ v) w = record {
  starts = word_starts c v w.word_chars;
  ends = word-Ends c v w.word_chars;
  one_line = word-OneLine (c ∷ v) w.word_chars;
}

Ends-append : (x v : Str) → Ends v → Ends (x ++ v)
Ends-append [] v h = h
Ends-append (c ∷ []) [] h = absurd h
Ends-append (c ∷ []) (d ∷ v) h = h
Ends-append (c ∷ d ∷ x) v h = Ends-append (d ∷ x) v h

Ends-trim_end : (v : Str) → Ends v → trim_end v ≡ v
Ends-trim_end v h = split_last [] v h
  where
    split_last : (x v : Str) → Ends v → trim_end (x ++ v) ≡ x ++ v
    split_last x [] h = absurd h
    split_last x (c ∷ []) h = trim_end_last x c h
    split_last x (c ∷ d ∷ v) h =
        let e = append_assoc x (c ∷ []) (d ∷ v) in
        ap trim_end (sym e) ∙ split_last (x ++ c ∷ []) (d ∷ v) h ∙ e

-- A key, which is a word in capitals.
abbrev pub IsKey : Str → Type 0
IsKey [] = ⊥
IsKey (k ∷ ks) = (all is_word_char (k ∷ ks) ≡ true) × (to_ascii_uppercase (k ∷ ks) ≡ k ∷ ks)

first_word-kv : (k v : Str) → all is_word_char k ≡ true → first_word (kv k v) ≡ k
first_word-kv [] v h = refl
first_word-kv (c ∷ k) v h =
    let here : is_whitespace c ≡ false = ground arith in
    let behind : all is_word_char k ≡ true = ground arith in
    rw here (ap (λ s. c ∷ s) (first_word-kv k v behind))

behind_word-kv : (k v : Str) → all is_word_char k ≡ true → behind_word (kv k v) ≡ 32 ∷ v
behind_word-kv [] v h = refl
behind_word-kv (c ∷ k) v h =
    let here : is_whitespace c ≡ false = ground arith in
    let behind : all is_word_char k ≡ true = ground arith in rw here (behind_word-kv k v behind)

pub trim-kv :
    (c : ℕ) (k v : Str) → is_whitespace c ≡ false → Ends v → trim (kv (c ∷ k) v) ≡ kv (c ∷ k) v
unfolding trim
trim-kv c k v here ends =
    let start : trim_start (kv (c ∷ k) v) ≡ kv (c ∷ k) v = rw here refl in
    ap trim_end start
    ∙ Ends-trim_end (kv (c ∷ k) v) (Ends-append (c ∷ k) (32 ∷ v) (Ends-append (32 ∷ []) v ends))

-- What a loop reads of a line with a key and a value.
pub entry_of-kv :
    (value : Str → Str) (k v : Str)
    → IsKey k
    → IsValue v
    → entry_of value (trim (kv k v)) ≡ some (k, value (32 ∷ v))
entry_of-kv value [] v key val = absurd key
entry_of-kv value (c ∷ k) v key val =
    ap (entry_of value) (trim-kv c k v (word_starts c k key.0) val.ends)
    ∙ ap₂ (λ w rest. some (to_ascii_uppercase w, value rest)) (first_word-kv (c ∷ k) v key.0)
        (behind_word-kv (c ∷ k) v key.0)
    ∙ ap (λ w. some (w, value (32 ∷ v))) key.1

-- After a space, a value stands alone.
pub trim_start-space : (v : Str) → IsValue v → trim_start (32 ∷ v) ≡ v
trim_start-space [] val = absurd val.starts
trim_start-space (c ∷ v) val = first_stays c v val.starts
  where
    first_stays : (c : ℕ) (v : Str) → is_whitespace c ≡ false → trim_start (c ∷ v) ≡ c ∷ v
    first_stays c v h = rw h refl

pieces_word : (c : ℕ) (v : Str) → all is_word_char (c ∷ v) ≡ true → pieces (c ∷ v) ≡ (c ∷ v) ∷ []
pieces_word c [] h = let here : is_whitespace c ≡ false = ground arith in rw here refl
pieces_word c (d ∷ v) h =
    let here : is_whitespace c ≡ false = ground arith in
    let behind : all is_word_char (d ∷ v) ≡ true = ground arith in
    rw here (ap (cons_first c) (pieces_word d v behind))

pub words-space : (v : Str) → IsWord v → join (codes " ") (words (32 ∷ v)) ≡ v
words-space [] w = refl
words-space (c ∷ v) w =
    ap (λ ps. join (codes " ") (keep (λ p. not (is_empty p)) ([] ∷ ps)))
      (pieces_word c v w.word_chars)
