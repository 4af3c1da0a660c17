-- ===== src/IntText/Named.antt =====
-- int.rs, `parse`, and export.rs: the name of a table that is written as a text is found in it.
use wx_btrieve_sql_driver.Base.{
  Bool, Bool-cases, List, Str, [], any, any-filter_map, any-reverse, ap, codes, filter_map, inl,
  inr, lookup, nat_eq, refl, some, str_eq, text_eq, trim, true, ◌++◌, ◌∙◌, ◌∷◌, ◌≡◌,
}
use wx_btrieve_sql_driver.Importer.Runner.Files.{behind}
use wx_btrieve_sql_driver.IntText.Entries.{IsValue, trim-kv}
use wx_btrieve_sql_driver.IntText.Lines.{kv_in, lines, parse_kv_lines}
use wx_btrieve_sql_driver.IntText.Render.{kv}

abbrev has_key : Str → Str × Str → Bool
has_key key e = str_eq e.0 key

lookup-any :
    (key : Str) (kvs : List (Str × Str))
    → any (has_key key) kvs ≡ true
    → (v : Str) × (lookup key kvs ≡ some v)
unfolding lookup
lookup-any key [] h = cc
lookup-any key ((k, v) ∷ kvs) h = elim (Bool-cases (str_eq k key)) [
  | inl e ↦ (v, rw e refl)
  | inr e ↦ let (u, at_key) = lookup-any key kvs (rw e at h) in (u, rw e at_key)
]

name_entry :
    (name : Str)
    → IsValue name
    → kv_in (trim (kv (codes "TABLE_NAME") name)) ≡ some (codes "TABLE_NAME", trim (32 ∷ name))
name_entry name val = ap kv_in (trim-kv 84 (codes "ABLE_NAME") name refl val.ends)

-- A text with a line for the name holds one.
pub name_found :
    (input name : Str) (before behind : List Str)
    → IsValue name
    → lines input ≡ before ++ kv (codes "TABLE_NAME") name ∷ behind
    → (v : Str) × (lookup (codes "TABLE_NAME") (parse_kv_lines input) ≡ some v)
unfolding parse_kv_lines
name_found input name before behind val e =
    let read = λ (raw : Str). kv_in (trim raw) in
    let key = has_key (codes "TABLE_NAME") in
    lookup-any (codes "TABLE_NAME") (parse_kv_lines input) (
      any-reverse key (filter_map read (lines input))
      ∙ ap (λ ls. any key (filter_map read ls)) e
      ∙ any-filter_map key read before (kv (codes "TABLE_NAME") name) behind
          (codes "TABLE_NAME", trim (32 ∷ name)) (name_entry name val) refl)
