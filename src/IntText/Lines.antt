-- ===== src/IntText/Lines.antt =====
-- int.rs: the lines of an INT text, each a key with a value. The `\r` that `lines` takes off a line
-- goes with the trim that follows.
use mathlib.Core.List.{reverse}
use wx_btrieve_sql_driver.Base.{
  Bool, List, Option, Str, [], codes, drop_while, filter_map, if◌then◌else◌, is_empty,
  is_whitespace, join, keep, none, not, some, take_while, to_ascii_uppercase, trim, trim_start,
  true, ℕ, ◌==◌, ◌||◌, ◌∷◌,
}

abbrev pub cons_first : ℕ → List Str → List Str
cons_first c [] = (c ∷ []) ∷ []
cons_first c (l ∷ ls) = (c ∷ l) ∷ ls

-- `lines`: what stands between line feeds; a last empty line is none.
abbrev pub lines : Str → List Str
lines [] = []
lines (c ∷ cs) = let rest = lines cs in if c == 10 then [] ∷ rest else cons_first c rest

abbrev pub is_word_char : ℕ → Bool
is_word_char c = not (is_whitespace c)

-- `split_whitespace`
abbrev pub pieces : Str → List Str
pieces [] = []
pieces (c ∷ cs) = let rest = pieces cs in if is_whitespace c then [] ∷ rest else cons_first c rest

abbrev pub words : Str → List Str
words s = keep (λ w. not (is_empty w)) (pieces s)

abbrev pub first_word : Str → Str
first_word s = take_while is_word_char s

abbrev pub behind_word : Str → Str
behind_word s = drop_while is_word_char s

-- The key of a line in capitals, with its value as `value` takes it from what follows.
abbrev pub entry_of : (Str → Str) → Str → Option (Str × Str)
entry_of value [] = none
entry_of value (c ∷ cs) =
    some (to_ascii_uppercase (first_word (c ∷ cs)), value (behind_word (c ∷ cs)))

-- An entry of the loops over fields, and of that over indexes.
unfoldable pub field_entry : Str → Option (Str × Str)
field_entry raw = entry_of trim_start (trim raw)

unfoldable pub index_entry : Str → Option (Str × Str)
index_entry raw = entry_of (λ rest. join (codes " ") (words rest)) (trim raw)

abbrev pub is_comment : Str → Bool
is_comment [] = true
is_comment (c ∷ cs) = c == 59 || c == 35

abbrev pub kv_in : Str → Option (Str × Str)
kv_in line =
    if is_comment line
    then none
    else if is_empty (behind_word line)
    then none
    else some (to_ascii_uppercase (first_word line), trim (behind_word line))

-- `parse_kv_lines`, the last entry of a key first.
unfoldable pub parse_kv_lines : Str → List (Str × Str)
unfolding trim
parse_kv_lines input = reverse (filter_map (λ raw. kv_in (trim raw)) (lines input))
