-- ===== src/Importer/Schema/Keys.antt =====
-- bfile.rs, `parse_key_defs`: the loop over the descriptors of a key.
use wx_btrieve_sql_driver.Base.{
  List, Option, [], length, none, some, true, ℕ, ◌*◌, ◌+◌, ◌∷◌, ◌≡◌, ◌≤◌, ◌⊎◌,
}
use wx_btrieve_sql_driver.Importer.Schema.{BtrieveSeg}
use wx_btrieve_sql_driver.Importer.Schema.Parse.{has_bit, kd_len}

-- Every segment but the last is continued, and the last is not, if its key ended inside the file.
abbrev pub Continued : List BtrieveSeg → Type 0
Continued [] = Unit
Continued (s ∷ []) = Unit
Continued (s ∷ t ∷ rest) = (has_bit 16 s.attributes ≡ true) × Continued (t ∷ rest)

-- A loop that returned, with all its descriptors inside a file of `size` bytes.
abbrev pub Returned : ℕ → ℕ → Option (List BtrieveSeg) → Type 0
Returned size off none = ⊥
Returned size off (some segs) = (length segs * kd_len + off ≤ size ⊎ (segs ≡ [])) × Continued segs
