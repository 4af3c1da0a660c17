-- ===== src/Importer/Codec/Driver.antt =====
-- codec.rs and record.rs: the two decoders into literals.
use mathlib.Core.List.{append-nil}
use wx_btrieve_sql_driver.Base.{
  Bool, Bool-cases, List, Option-cases, [], ap, arith, false, from_le_bytes, inl, inr, is_empty,
  leb, length, ltb, min, refl, replicate, show_int, signed, some, sym, take, take_all, true, ℕ,
  ◌++◌, ◌-◌, ◌==◌, ◌^◌, ◌||◌, ◌∙◌, ◌∷◌, ◌≡◌,
}
use wx_btrieve_sql_driver.Floats.{Floats}
use wx_btrieve_sql_driver.Importer.Codec.{
  date_literal, float_literal, literal_of, quoted_text, time_literal,
}
use wx_btrieve_sql_driver.Record.Literals.{
  or_default, slot_decimal, slot_float, slot_literal, time_or_midnight,
}
use wx_btrieve_sql_driver.Record.Slices.{
  le_i64, try_le_array, type_autoinc, type_autoincrement, type_date, type_decimal, type_float,
  type_int, type_logical, type_lstring, type_money, type_string, type_time, type_zstring,
  type_zstring_12,
}
use wx_btrieve_sql_driver.Record.Unpack.{all_zero, unpack_date}
use wx_btrieve_sql_driver.Schema.{IntField}

empty_zero : (bytes : List ℕ) → (is_empty bytes || all_zero bytes) ≡ all_zero bytes
empty_zero [] = refl
empty_zero (b ∷ bytes) = refl

take_exact :
    (n : ℕ) (bytes : List ℕ) → (length bytes == n) ≡ true → try_le_array n bytes ≡ some bytes
unfolding try_le_array
take_exact n bytes h =
    let long : ltb (length bytes) n ≡ false = ground arith in
    rw long (ap some (take_all n bytes (ground arith)))

same_float :
    (fl : Floats) (f : IntField) (bytes : List ℕ) → slot_float fl f bytes ≡ float_literal fl f bytes
unfolding slot_float float_literal
same_float fl f bytes = rw (empty_zero bytes) (elim (Bool-cases (all_zero bytes)) [
  | inl e ↦ rw e refl
  | inr e ↦ elim (Bool-cases (length bytes == 4)) [
    | inl e4 ↦ rw (e, e4, take_exact 4 bytes e4) refl
    | inr e4 ↦ elim (Bool-cases (length bytes == 8)) [
      | inl e8 ↦ rw (e, e4, e8, take_exact 8 bytes e8) refl
      | inr e8 ↦ rw (e, e4, e8) refl
    ]
  ]
])

same_time : (bytes : List ℕ) → time_or_midnight (try_le_array 4 bytes) ≡ time_literal bytes
unfolding try_le_array
same_time bytes = elim (Bool-cases (ltb (length bytes) 4)) [
  | inl e ↦ let short : leb 4 (length bytes) ≡ false = ground arith in rw (e, short) refl
  | inr e ↦ let long : leb 4 (length bytes) ≡ true = ground arith in rw (e, long) refl
]

same_date :
    (f : IntField) (bytes : List ℕ) → or_default f (unpack_date bytes) ≡ date_literal f bytes
unfolding date_literal
same_date f bytes = elim (Option-cases (unpack_date bytes)) [
  | inl e ↦ rw e refl
  | inr d ↦ rw d.1 refl
]

same_decimal :
    (bytes : List ℕ) → slot_decimal bytes (try_le_array 8 bytes) ≡ show_int (le_i64 bytes)
unfolding try_le_array le_i64
same_decimal bytes = elim (Bool-cases (ltb (length bytes) 8)) [
  | inl e ↦ rw e refl
  | inr e ↦
      let none_missing : 8 - min (length bytes) 8 ≡ 0 = ground arith in
      rw e (
        ap (λ l. show_int (signed (2 ^ 63) (from_le_bytes l))) (sym (append-nil (take 8 bytes)))
        ∙ ap (λ k. show_int (signed (2 ^ 63) (from_le_bytes (take 8 bytes ++ replicate k 0))))
            (sym none_missing))
]

module _ (fl : Floats) (f : IntField) (bytes : List ℕ) where
  abbrev is_type : ℕ → Bool
  is_type t = f.native_type == t

  -- The types that both copies decode, behind the integers.
  later_types :
      is_type type_string ≡ false
      → (is_type type_zstring || is_type type_zstring_12) ≡ false
      → is_type type_zstring ≡ false
      → is_type type_lstring ≡ false
      → (is_type type_int || is_type type_autoinc || is_type type_autoincrement) ≡ false
      → (is_type type_int || is_type type_autoinc) ≡ false
      → slot_literal fl f bytes ≡ literal_of fl f bytes
  unfolding slot_literal literal_of quoted_text
  later_types s zz z l iii ii = elim (Bool-cases (is_type type_float)) [
    | inl e ↦ rw (s, zz, z, l, iii, ii, e) (same_float fl f bytes)
    | inr e1 ↦ elim (Bool-cases (is_type type_money)) [
      | inl e ↦ rw (s, zz, z, l, iii, ii, e1, e) refl
      | inr e2 ↦ elim (Bool-cases (is_type type_logical)) [
        | inl e ↦ rw (s, zz, z, l, iii, ii, e1, e2, e) refl
        | inr e3 ↦ elim (Bool-cases (is_type type_date)) [
          | inl e ↦ rw (s, zz, z, l, iii, ii, e1, e2, e3, e) (same_date f bytes)
          | inr e4 ↦ elim (Bool-cases (is_type type_time)) [
            | inl e ↦ rw (s, zz, z, l, iii, ii, e1, e2, e3, e4, e) (same_time bytes)
            | inr e5 ↦ elim (Bool-cases (is_type type_decimal)) [
              | inl e ↦ rw (s, zz, z, l, iii, ii, e1, e2, e3, e4, e5, e) (same_decimal bytes)
              | inr e6 ↦ rw (s, zz, z, l, iii, ii, e1, e2, e3, e4, e5, e6) refl
            ]
          ]
        ]
      ]
    ]
  ]

  -- The importer's copy of the decoder and the driver's make the same literal of the same bytes of a
  -- field, whatever they are, for every native type but LSTRING, ZSTRING_12 and AUTOINCREMENT.
  pub slot_literal-literal_of :
      is_type type_lstring ≡ false
      → is_type type_zstring_12 ≡ false
      → is_type type_autoincrement ≡ false
      → slot_literal fl f bytes ≡ literal_of fl f bytes
  unfolding slot_literal literal_of quoted_text
  slot_literal-literal_of l z12 inc = elim (Bool-cases (is_type type_string)) [
    | inl e ↦ rw e refl
    | inr s ↦ elim (Bool-cases (is_type type_zstring)) [
      | inl e ↦
          let either : (is_type type_zstring || is_type type_zstring_12) ≡ true = rw e refl in
          rw (s, l, e) refl
      | inr z ↦
          let neither : (is_type type_zstring || is_type type_zstring_12) ≡ false =
            rw (z, z12) refl in
          elim (Bool-cases (is_type type_int || is_type type_autoinc)) [
            | inl e ↦ rw (s, l, z, z12, e) refl
            | inr e ↦
                let none_of : (is_type type_int
                      || is_type type_autoinc
                      || is_type type_autoincrement)
                    ≡ false =
                  rw (e, inc) refl in
                later_types s neither z l none_of e
          ]
    ]
  ]
