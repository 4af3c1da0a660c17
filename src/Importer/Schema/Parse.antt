-- ===== src/Importer/Schema/Parse.antt =====
-- crates/btr-types/src/bfile.rs, `parse_schema`: the schema in the control record of a .B file. The
-- file is its bytes; offsets are of 64 bits and do not wrap.
use wx_btrieve_sql_driver.Base.{
  Bool, List, Option, [], false, from_le_bytes, get_or, if◌then◌else◌, inl, inr, leb, length, ltb,
  max, none, not, slice, some, suc, true, zero, ℕ, ◌%◌, ◌&&◌, ◌*◌, ◌+◌, ◌-◌, ◌/◌, ◌==◌, ◌||◌, ◌∷◌,
  ◌⊎◌,
}
use wx_btrieve_sql_driver.Importer.Schema.{
  BtrieveKey, BtrieveSchema, BtrieveSeg, RecordKind, fixed, variable, variable_truncated,
}

-- The refusals of `parse_schema`, in their order.
pub data SchemaError : Type 0 where
  cannot_read : SchemaError
  unrecognised : ℕ → SchemaError
  invalid_page_size : ℕ → SchemaError
  short_fcr : SchemaError

abbrev pub SchemaResult : Type 0 → Type 0
SchemaResult A = SchemaError ⊎ A

infixl 5 ◌>>=◌
abbrev pub ◌>>=◌ : {A B : Type 0} → SchemaResult A → (A → SchemaResult B) → SchemaResult B
inl e >>= k = inl e
inr a >>= k = k a

-- `u16le`: 0 past the end.
abbrev pub u16le : List ℕ → ℕ → ℕ
u16le buf off = if ltb (length buf) (off + 2) then 0 else from_le_bytes (slice off 2 buf)

abbrev pub u32le : List ℕ → ℕ → ℕ
u32le buf off = if ltb (length buf) (off + 4) then 0 else from_le_bytes (slice off 4 buf)

abbrev pub u32_hi_lo : List ℕ → ℕ → ℕ → ℕ
u32_hi_lo buf hi_off lo_off = u16le buf hi_off * 65536 + u16le buf lo_off

-- `seek` and `read_exact`
abbrev pub read_at : List ℕ → ℕ → ℕ → Option (List ℕ)
read_at file off len = if leb (off + len) (length file) then some (slice off len file) else none

abbrev pub or_error : {A : Type 0} → SchemaError → Option A → SchemaResult A
or_error e none = inl e
or_error e (some a) = inr a

abbrev pub kd_len : ℕ
kd_len = 0x1E

-- Bit `k` of a word, `p` being 2 ^ k.
abbrev pub has_bit : ℕ → ℕ → Bool
has_bit p word = word / p % 2 == 1

-- The segment that a key descriptor of 30 bytes holds.
unfoldable pub segment_of : Bool → List ℕ → BtrieveSeg
segment_of is_v6 kd =
    let attrs = u16le kd 0x8 in
    record {
      offset = if is_v6 then u16le kd 0x14 - 2 else u16le kd 0x14;
      length = u16le kd 0x16;
      data_type =
          if has_bit 256 attrs then get_or kd 0x1C 0 else if has_bit 4 attrs then 0x0E else 0x00;
      attributes = attrs;
      null_value = get_or kd 0x1D 0;
      descending = has_bit 64 attrs;
      allows_dups = has_bit 1 attrs;
    }

-- What the loop over the descriptors of a key does at one: it ends at an unreadable one, behind one
-- that is not continued, and otherwise goes on.
abbrev pub on_descriptor :
    Bool → Option (List ℕ) → Option (List BtrieveSeg) → Option (List BtrieveSeg)
on_descriptor is_v6 none rest = some []
on_descriptor is_v6 (some kd) rest =
    if has_bit 16 (segment_of is_v6 kd).attributes
    then elim rest [ none ↦ none | some segs ↦ some (segment_of is_v6 kd ∷ segs) ]
    else some (segment_of is_v6 kd ∷ [])

-- That loop, with fuel; `none` when the fuel ran out.
unfoldable pub read_segments : ℕ → List ℕ → Bool → ℕ → Option (List BtrieveSeg)
read_segments zero file is_v6 seg_off = none
read_segments (suc fuel) file is_v6 seg_off =
    on_descriptor is_v6 (read_at file seg_off kd_len)
      (read_segments fuel file is_v6 (seg_off + kd_len))

-- `0..n`, each with what `f` makes of it
abbrev pub numbered {ℓ} : {A : Type ℓ} → (ℕ → A) → ℕ → ℕ → List A
numbered f from zero = []
numbered f from (suc n) = f from ∷ numbered f (from + 1) n

-- The offsets of the first descriptor of each key; `kat` is the key attribute table of format 6.
abbrev pub v6_starts : ℕ → List ℕ → ℕ → List ℕ
v6_starts fcr_offset kat count = numbered (λ i. fcr_offset + u16le kat (i * 2)) 0 count

abbrev pub v5_starts : ℕ → List ℕ
v5_starts count = numbered (λ i. 0x110 + i * kd_len) 0 count

unfoldable pub key_starts : List ℕ → List ℕ → Bool → ℕ → ℕ → SchemaResult (List ℕ)
key_starts file fcr true count fcr_offset =
    if ltb (length fcr) 0x7A
    then inl short_fcr
    else or_error cannot_read
        (read_at file (fcr_offset + (get_or fcr 0x78 0 + get_or fcr 0x79 0 * 256)) (count * 2))
      >>= λ kat. inr (v6_starts fcr_offset kat count)
key_starts file fcr false count fcr_offset = inr (v5_starts count)

-- The loop over the keys. The fuel is a byte more than the file has.
abbrev pub key_at : List ℕ → Bool → ℕ → ℕ → BtrieveKey
key_at file is_v6 number start = record {
  number = number % 65536;
  segments = elim (read_segments (length file + 1) file is_v6 start) [
    | none ↦ []
    | some segs ↦ segs
  ];
}

abbrev pub keys_at : List ℕ → Bool → ℕ → List ℕ → List BtrieveKey
keys_at file is_v6 number [] = []
keys_at file is_v6 number (start ∷ starts) =
    key_at file is_v6 number start ∷ keys_at file is_v6 (number + 1) starts

unfoldable pub parse_key_defs : List ℕ → List ℕ → Bool → ℕ → ℕ → SchemaResult (List BtrieveKey)
parse_key_defs file fcr is_v6 count fcr_offset =
    key_starts file fcr is_v6 count fcr_offset >>= λ starts. inr (keys_at file is_v6 0 starts)

-- The newer of the two control records of format 6, with its offset.
abbrev pub newer_fcr : ℕ → List ℕ → List ℕ → List ℕ × ℕ
newer_fcr ps p0 p1 = if leb (u32le p1 4) (u32le p0 4) then (p0, 0) else (p1, ps)

unfoldable pub control_record : List ℕ → Bool → ℕ → SchemaResult (List ℕ × ℕ)
control_record file true ps = or_error cannot_read (read_at file 0 ps) >>= λ p0.
    or_error cannot_read (read_at file ps ps) >>= λ p1. inr (newer_fcr ps p0 p1)
control_record file false ps =
    or_error cannot_read (read_at file 0 (max ps 512)) >>= λ p. inr (p, 0)

abbrev pub kind_of : ℕ → ℕ → RecordKind
kind_of var_flags file_flags =
    if not (var_flags == 0) || has_bit 1 file_flags
    then (if var_flags == 0xFD || has_bit 2 file_flags then variable_truncated else variable)
    else fixed

abbrev pub flags_of : List ℕ → ℕ
flags_of fcr = if ltb 0x107 (length fcr) then u16le fcr 0x106 else 0

abbrev pub keys_or_none : List ℕ → List ℕ → Bool → ℕ → SchemaResult (List BtrieveKey)
keys_or_none file fcr is_v6 fcr_offset =
    let count = u16le fcr 0x14 in
    if ltb 0 count then parse_key_defs file fcr is_v6 count fcr_offset else inr []

-- The schema, once its control record is read.
unfoldable pub schema_in : List ℕ → Bool → ℕ → List ℕ × ℕ → SchemaResult BtrieveSchema
schema_in file is_v6 page_size (fcr, fcr_offset) =
    keys_or_none file fcr is_v6 fcr_offset >>= λ keys. inr (record {
      is_v6 = is_v6;
      record_length = u16le fcr 0x16;
      physical_rec_length = u16le fcr 0x18;
      page_size = page_size;
      page_count = u32_hi_lo fcr 0x26 0x28;
      record_count = u32_hi_lo fcr 0x1A 0x1C;
      file_flags = flags_of fcr;
      record_kind = kind_of (get_or fcr 0x38 0) (flags_of fcr);
      keys = keys;
    })

abbrev pub is_v6_head : List ℕ → Bool
is_v6_head head =
    get_or head 0 0 == 0x46
    && get_or head 1 0 == 0x43
    && get_or head 2 0 == 0
    && get_or head 3 0 == 0

-- `(head[6] as u16) << 8 | head[7] as u16`
abbrev pub version_word : List ℕ → ℕ
version_word head = get_or head 6 0 * 256 + get_or head 7 0

abbrev pub known_version : List ℕ → Bool
known_version head = is_v6_head head || (leb 3 (version_word head) && leb (version_word head) 5)

unfoldable pub parse_schema : List ℕ → SchemaResult BtrieveSchema
parse_schema file = or_error cannot_read (read_at file 0 512) >>= λ head.
    if not (known_version head)
    then inl (unrecognised (version_word head))
    else if ltb (u16le head 0x08) 512 || not (u16le head 0x08 % 512 == 0)
    then inl (invalid_page_size (u16le head 0x08))
    else control_record file (is_v6_head head) (u16le head 0x08)
      >>= schema_in file (is_v6_head head) (u16le head 0x08)
