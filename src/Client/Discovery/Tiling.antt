-- ===== src/Client/Discovery/Tiling.antt =====
-- sql.rs `discover_table_meta`: the fields of a discovered table tile its record.
use mathlib.Core.Path.{subst}
use wx_btrieve_sql_driver.Base.{
  Bool-cases, List, Str, [], arith, codes, eq_ignore_ascii_case, if◌then◌else◌, inl, inr,
  parse_unsigned, refl, to_ascii_lowercase, unwrap_or, ℕ, ◌%◌, ◌+◌, ◌-◌, ◌<◌, ◌^◌, ◌∷◌, ◌≡◌,
}
use wx_btrieve_sql_driver.Client.Discovery.{cell, column_type, discover_fields}
use wx_btrieve_sql_driver.Schema.{IntField}

-- Fields that follow each other without a gap from `start` to `stop`, numbered from `n` on.
abbrev pub Tiles : ℕ → ℕ → ℕ → List IntField → Type 0
Tiles n start stop [] = start ≡ stop
Tiles n start stop (f ∷ fs) =
    (f.num ≡ n) × (f.offset ≡ start) × (0 < f.length) × Tiles (n + 1) (start + f.length) stop fs

column_type-pos : (dtype : Str) (maxlen : ℕ) → 0 < (column_type dtype maxlen).1
unfolding column_type
column_type-pos dtype maxlen = ground arith

-- The bytes that the listed columns take together.
abbrev pub width : List (List Str) → ℕ
width [] = 0
width (row ∷ rows) =
    let maxlen = unwrap_or (parse_unsigned (2 ^ 32 - 1) (cell row 2)) 0 in
    let kind = column_type (to_ascii_lowercase (cell row 1)) maxlen in
    if eq_ignore_ascii_case (cell row 0) (codes "MDS_RECNUM")
    then width rows
    else kind.1 + width rows

-- When the columns that the backend lists take less than 2 ^ 32 bytes together, the discovered
-- fields are numbered in order, each has a byte or more, and they follow each other without gap or
-- overlap up to the record's length, which is the sum of their lengths.
pub discover_fields-Tiles :
    (rows : List (List Str)) (n start : ℕ)
    → start + width rows < 2 ^ 32
    → Tiles n start (start + width rows) (discover_fields rows n start).0
      × ((discover_fields rows n start).1 ≡ start + width rows)
unfolding discover_fields
discover_fields-Tiles [] n start h = (omega arith, omega arith)
discover_fields-Tiles (row ∷ rows) n start h =
    let maxlen = unwrap_or (parse_unsigned (2 ^ 32 - 1) (cell row 2)) 0 in
    let kind = column_type (to_ascii_lowercase (cell row 1)) maxlen in
    elim (Bool-cases (eq_ignore_ascii_case (cell row 0) (codes "MDS_RECNUM"))) [
      | inl e ↦ rw e (discover_fields-Tiles rows n start (rw e at h))
      | inr e ↦
          let h' : start + (kind.1 + width rows) < 2 ^ 32 = rw e at h in
          let next : start + kind.1 ≡ (start + kind.1) % 2 ^ 32 = omega arith in
          let rest =
            subst
              (λ (k : ℕ).
                Tiles (n + 1) (start + kind.1) (start + (kind.1 + width rows))
                  (discover_fields rows (n + 1) k).0
                × ((discover_fields rows (n + 1) k).1 ≡ start + (kind.1 + width rows)))
              next
              (let r = discover_fields-Tiles rows (n + 1) (start + kind.1) (omega arith) in
                (
                  subst
                      (λ (k : ℕ).
                        Tiles (n + 1) (start + kind.1) k
                          (discover_fields rows (n + 1) (start + kind.1)).0)
                      (omega arith) r.0,
                  omega (arith, r.1),
                )) in
          rw e
            ((refl, refl, column_type-pos (to_ascii_lowercase (cell row 1)) maxlen, rest.0), rest.1)
    ]
