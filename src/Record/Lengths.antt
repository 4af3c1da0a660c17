-- ===== src/Record/Lengths.antt =====
-- record.rs `pack_row`: the encoders fill a slot exactly, whatever the kind of the field.
use wx_btrieve_sql_driver.Base.{
  Bool, Bool-cases, List, Str, [], arith, as_bytes, codes, eq_ignore_ascii_case, false,
  if◌then◌else◌, inl, inr, leb, length, length-append, length-replicate, length-splice, length-take,
  min, refl, replicate, splice, take, to_le_bytes, to_word, trim, true, unwrap_or, ℕ, ℤ, ◌&&◌, ◌++◌,
  ◌+◌, ◌-◌, ◌<◌, ◌==◌, ◌^◌, ◌||◌, ◌∷◌, ◌≡◌, ◌≤◌,
}
use wx_btrieve_sql_driver.Floats.{Floats}
use wx_btrieve_sql_driver.Record.Pack.{
  ascii_digits, pack_date, pack_float, pack_i64, pack_integer, pack_logical, pack_lstring,
  pack_money, pack_slot, pack_string, pack_time, pack_zstring,
}
use wx_btrieve_sql_driver.Record.Slices.{
  type_autoinc, type_autoincrement, type_date, type_decimal, type_float, type_int, type_logical,
  type_lstring, type_money, type_string, type_time, type_zstring, type_zstring_12,
}

if_length :
    {A : Type 0} (b : Bool) (xs ys : List A) (n : ℕ)
    → length xs ≡ n
    → length ys ≡ n
    → length (if b then xs else ys) ≡ n
if_length true xs ys n h k = h
if_length false xs ys n h k = k

length-padded :
    (bytes : List ℕ) (n pad : ℕ)
    → n ≤ length bytes
    → length (take n bytes ++ replicate pad 0x20) ≡ n + pad
length-padded bytes n pad h = omega (
  arith,
  length-append (take n bytes) (replicate pad 0x20),
  length-take n bytes,
  length-replicate {A = ℕ} pad 0x20,
)

length-pack_string : (val : Str) (slot : List ℕ) → length (pack_string val slot) ≡ length slot
unfolding pack_string
length-pack_string val slot =
    let n = min (length (as_bytes val)) (length slot) in
    omega (arith, length-padded (as_bytes val) n (length slot - n) (omega arith))

length-pack_lstring : (val : Str) (slot : List ℕ) → length (pack_lstring val slot) ≡ length slot
unfolding pack_lstring
length-pack_lstring val slot =
    let n = min (length (as_bytes val)) (length slot - 1) in
    elim (Bool-cases (leb 2 (length slot))) [
      | inl e ↦ ground (arith, length-padded (as_bytes val) n (length slot - 1 - n) (omega arith))
      | inr e ↦ ground arith
    ]

length-pack_zstring :
    (val : Str) (slot : List ℕ) → 0 < length slot → length (pack_zstring val slot) ≡ length slot
unfolding pack_zstring
length-pack_zstring val slot h =
    let n = min (length (as_bytes val)) (length slot - 1) in
    omega (
      arith,
      length-append (take n (as_bytes val)) (0 ∷ replicate (length slot - n - 1) 0),
      length-take n (as_bytes val),
      length-replicate {A = ℕ} (length slot - n - 1) 0,
    )

length-splice_head :
    (src slot : List ℕ) → length src ≤ length slot → length (splice 0 src slot) ≡ length slot
length-splice_head src slot h = length-splice 0 src slot (omega arith)

-- A word of `k` bytes is written into a slot of `k` bytes alone.
if_word :
    (k : ℕ) (src other slot : List ℕ)
    → length src ≡ k
    → length other ≡ length slot
    → length (if length slot == k then src else other) ≡ length slot
if_word k src other slot h o = ground (arith, h, o)

if_splice :
    (x y z u : ℕ) (b : Bool) (slot : List ℕ)
    → length (if leb 4 (length slot) && b then splice 0 (x ∷ y ∷ z ∷ u ∷ []) slot else slot)
      ≡ length slot
if_splice x y z u b slot = ground (arith, length-splice_head (x ∷ y ∷ z ∷ u ∷ []) slot)

length-pack_i64 : (v : ℤ) (slot : List ℕ) → length (pack_i64 v slot) ≡ length slot
unfolding pack_i64
length-pack_i64 v slot =
    let word = to_le_bytes 8 (to_word (2 ^ 64) v) in
    length-splice_head (take (min (length slot) 8) word) slot
      (omega (arith, length-take (min (length slot) 8) word))

length-pack_float :
    (fl : Floats) (val : Str) (slot : List ℕ) → length (pack_float fl val slot) ≡ length slot
unfolding pack_float
length-pack_float fl val slot =
    let v = unwrap_or (fl.parse_f64 (trim val)) 0 in
    if_word 4 (to_le_bytes 4 (fl.f64_to_f32 v)) _ slot refl
      (if_word 8 (to_le_bytes 8 v) slot slot refl refl)

length-pack_logical :
    (val : Str) (slot : List ℕ) → 0 < length slot → length (pack_logical val slot) ≡ length slot
unfolding pack_logical
length-pack_logical val [] h = absurd (omega arith)
length-pack_logical val (x ∷ xs) h = refl

length-pack_date : (val : Str) (slot : List ℕ) → length (pack_date val slot) ≡ length slot
unfolding pack_date
length-pack_date val slot =
    let digits = ascii_digits val in
    if_length (eq_ignore_ascii_case (trim val) (codes "NULL")) slot _ (length slot) refl
      (if_splice _ _ _ _ (leb 8 (length digits)) slot)

length-pack_time : (val : Str) (slot : List ℕ) → length (pack_time val slot) ≡ length slot
unfolding pack_time
length-pack_time val slot =
    let digits = ascii_digits val in
    if_length (eq_ignore_ascii_case (trim val) (codes "NULL")) slot _ (length slot) refl
      (if_splice _ _ _ _ (leb 6 (length digits)) slot)

pub length-pack_slot :
    (fl : Floats) (t : ℕ) (val : Str) (slot : List ℕ)
    → 0 < length slot
    → length (pack_slot fl t val slot) ≡ length slot
unfolding pack_slot pack_integer pack_money
length-pack_slot fl t val slot h =
    let n = length slot in
    if_length (t == type_string) _ _ n (length-pack_string val slot) (
      if_length (t == type_lstring) _ _ n (length-pack_lstring val slot) (
        if_length (t == type_zstring || t == type_zstring_12) _ _ n (length-pack_zstring val slot h)
          (if_length (t == type_int || t == type_autoinc || t == type_autoincrement) _ _ n
            (length-pack_i64 _ slot)
            (if_length (t == type_float) _ _ n (length-pack_float fl val slot) (
              if_length (t == type_money) _ _ n (length-pack_i64 _ slot) (
                if_length (t == type_decimal) _ _ n (length-pack_i64 _ slot) (
                  if_length (t == type_logical) _ _ n (length-pack_logical val slot h) (
                    if_length (t == type_date) _ _ n (length-pack_date val slot) (
                      if_length (t == type_time) _ _ n (length-pack_time val slot)
                        (length-pack_string val slot))))))))))
