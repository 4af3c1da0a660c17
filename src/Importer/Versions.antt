-- ===== src/Importer/Versions.antt =====
-- crates/btr-import/src/bfile.rs, `BtrieveFile::open`, and crates/btr-types/src/bfile.rs,
-- `parse_schema`, on the same file of the old format.
use wx_btrieve_sql_driver.Base.{
  Bool-cases, List, [], ap, arith, false, get_or, inl, inr, leb, length, ltb, refl, slice, suc,
  take, true, zero, ℕ, ◌%◌, ◌&&◌, ◌*◌, ◌+◌, ◌<◌, ◌==◌, ◌∙◌, ◌∷◌, ◌≡◌, ◌≤◌, ◌⊎◌,
}
use wx_btrieve_sql_driver.Importer.BFile.{
  BtrieveFile, FileHeader, OpenError, checked, header_of, open_file, version_code,
}
use wx_btrieve_sql_driver.Importer.Schema.Parse.{
  known_version, parse_schema, unrecognised, version_word,
}

get_or-take : (n i d : ℕ) (xs : List ℕ) → i < n → get_or (take n xs) i d ≡ get_or xs i d
get_or-take zero i d xs h = absurd (omega arith)
get_or-take (suc n) i d [] h = refl
get_or-take (suc n) zero d (x ∷ xs) h = refl
get_or-take (suc n) (suc i) d (x ∷ xs) h = get_or-take n i d xs (omega arith)

slice_two :
    (off d : ℕ) (xs : List ℕ)
    → off + 2 ≤ length xs
    → slice off 2 xs ≡ get_or xs off d ∷ get_or xs (suc off) d ∷ []
slice_two zero d [] h = absurd (omega arith)
slice_two zero d (x ∷ []) h = absurd (omega arith)
slice_two zero d (x ∷ y ∷ xs) h = refl
slice_two (suc off) d [] h = absurd (omega arith)
slice_two (suc off) d (x ∷ xs) h = slice_two off d xs (omega arith)

-- The version that the reader sees, from the two bytes that the schema's parser reads.
version_code_lem :
    (bytes : List ℕ)
    → leb 512 (length bytes) ≡ true
    → version_code bytes ≡ (get_or bytes 6 0 + 256 * get_or bytes 7 0) % 256
version_code_lem bytes long =
    let short : ltb (length bytes) 8 ≡ false = ground arith in
    rw (short, slice_two 6 0 bytes (ground arith)) (omega arith)

wrong_version :
    (b6 b7 : ℕ)
    → ((b6 + 256 * b7) % 256 == 0) ≡ false
    → (leb 3 (b6 * 256 + b7) && leb (b6 * 256 + b7) 5) ≡ false
wrong_version zero b7 h = absurd (ground arith)
wrong_version (suc b6) b7 h = ground arith

-- Neither magic nor version code, for the parser of schemas, when the reader sees the old format.
unknown_head :
    (bytes : List ℕ)
    → leb 512 (length bytes) ≡ true
    → (get_or bytes 0 0 == 0x46 && get_or bytes 1 0 == 0x43) ≡ false
    → (version_code bytes == 0) ≡ false
    → known_version (slice 0 512 bytes) ≡ false
unknown_head bytes long magic code =
    rw
      (
        get_or-take 512 0 0 bytes (omega arith),
        get_or-take 512 1 0 bytes (omega arith),
        get_or-take 512 6 0 bytes (omega arith),
        get_or-take 512 7 0 bytes (omega arith),
        wrong_version (get_or bytes 6 0) (get_or bytes 7 0)
            (rw (version_code_lem bytes long) at code),
      )
      (ground arith)

unrecognised_head :
    (bytes : List ℕ)
    → leb 512 (length bytes) ≡ true
    → known_version (slice 0 512 bytes) ≡ false
    → parse_schema bytes ≡ inl (unrecognised (version_word (slice 0 512 bytes)))
unfolding parse_schema
unrecognised_head bytes long unknown = rw (long, unknown) refl

-- The version of an accepted header.
checked_header :
    (bytes : List ℕ) (r : OpenError ⊎ FileHeader) (f : BtrieveFile)
    → checked bytes r ≡ inr f
    → r ≡ inr f.header
checked_header bytes (inl e) f h = cc
checked_header bytes (inr g) f h = elim (Bool-cases (g.logical_rec_len == 0)) [
  | inl e ↦ cc (rw e at h)
  | inr e ↦ elim (Bool-cases (ltb g.physical_rec_len g.logical_rec_len)) [
    | inl u ↦ cc (rw (e, u) at h)
    | inr u ↦ let same = rw (e, u) at h in cc
  ]
]

version_of : OpenError ⊎ FileHeader → ℕ
version_of (inl e) = 0
version_of (inr h) = h.version

-- A header of the old format has no magic, and its version code is not 0.
old_header :
    (bytes : List ℕ)
    → version_of (header_of bytes) ≡ 5
    → ((get_or bytes 0 0 == 0x46 && get_or bytes 1 0 == 0x43) ≡ false)
      × ((version_code bytes == 0) ≡ false)
unfolding header_of version_of
old_header bytes h = elim (Bool-cases (get_or bytes 0 0 == 0x46 && get_or bytes 1 0 == 0x43)) [
  | inl e ↦ absurd (omega (arith, rw e at h))
  | inr e ↦ elim (Bool-cases (version_code bytes == 0)) [
    | inl c ↦ absurd (omega (arith, rw (e, c) at h))
    | inr c ↦ (e, c)
  ]
]

-- No file of the old format has a schema: the parser of schemas refuses every file that the reader
-- opens as one, since it reads the two bytes of the version in the other order.
pub open_file-parse_schema :
    (bytes : List ℕ) (f : BtrieveFile)
    → open_file bytes ≡ inr f
    → f.header.version ≡ 5
    → parse_schema bytes ≡ inl (unrecognised (version_word (slice 0 512 bytes)))
unfolding open_file version_of
open_file-parse_schema bytes f opened_it old = elim (Bool-cases (ltb (length bytes) 512)) [
  | inl e ↦ cc (rw e at opened_it)
  | inr e ↦
      let long : leb 512 (length bytes) ≡ true = ground arith in
      let header = checked_header bytes (header_of bytes) f (rw e at opened_it) in
      let facts = old_header bytes (ap version_of header ∙ old) in
      unrecognised_head bytes long (unknown_head bytes long facts.0 facts.1)
]
