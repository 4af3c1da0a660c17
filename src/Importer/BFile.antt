-- ===== src/Importer/BFile.antt =====
-- crates/btr-import/src/bfile.rs: reading the live records of a .B file, all of whose bytes are in
-- memory.
pub mod Live
pub mod Reading
pub mod Limit
pub mod Begin
pub mod Whole
pub mod Room
pub mod Lengths
use wx_btrieve_sql_driver.Base.{
  Bool, List, Option, [], any, false, from_le_bytes, get_or, if◌then◌else◌, inl, inr, leb, length,
  ltb, max, min, none, not, slice, some, suc, take, true, zero, ℕ, ◌%◌, ◌&&◌, ◌*◌, ◌+◌, ◌-◌, ◌/◌,
  ◌==◌, ◌||◌, ◌∷◌, ◌⊎◌,
}

pub record FileHeader : Type 0 where
  pub version : ℕ
  pub page_size : ℕ
  pub logical_rec_len : ℕ
  pub physical_rec_len : ℕ
  pub key_count : ℕ
  pub record_count : ℕ
  pub page_count : ℕ

-- The file: its header, and its bytes.
pub record BtrieveFile : Type 0 where
  pub header : FileHeader
  pub bytes : List ℕ

-- The refusals of `BtrieveFile::open`, in their order.
pub data OpenError : Type 0 where
  too_small : OpenError
  unrecognized : ℕ → OpenError
  no_logical_length : OpenError
  physical_below_logical : OpenError

-- `k` bytes at an offset as a little-endian number, 0 past the end.
abbrev pub le_at : ℕ → List ℕ → ℕ → ℕ
le_at k bytes off = if ltb (length bytes) (off + k) then 0 else from_le_bytes (slice off k bytes)

abbrev pub le16 : List ℕ → ℕ → ℕ
le16 = le_at 2

abbrev pub le32 : List ℕ → ℕ → ℕ
le32 = le_at 4

abbrev pub u24 : List ℕ → ℕ → ℕ
u24 = le_at 3

abbrev pub v5_deleted_chain : ℕ
v5_deleted_chain = 0x10

abbrev pub v6_header : List ℕ → FileHeader
v6_header bytes = record {
  version = 6;
  page_size = max (le16 bytes 0x08) 512;
  logical_rec_len = le16 bytes 0x16;
  physical_rec_len = le16 bytes 0x18;
  key_count = le16 bytes 0x14;
  record_count = u24 bytes 0x1A;
  page_count = u24 bytes 0x26;
}

abbrev pub v5_header : List ℕ → FileHeader
v5_header bytes = record {
  version = 5;
  page_size = max (le16 bytes 0x08) 512;
  logical_rec_len = le16 bytes 0x0E;
  physical_rec_len = le16 bytes 0x10;
  key_count = le16 bytes 0x12;
  record_count = le32 bytes 0x1C;
  page_count = le16 bytes 0x14;
}

-- `le16(..) as u8`
abbrev pub version_code : List ℕ → ℕ
version_code bytes = le16 bytes 0x06 % 256

unfoldable pub header_of : List ℕ → OpenError ⊎ FileHeader
header_of bytes =
    if get_or bytes 0 0 == 0x46 && get_or bytes 1 0 == 0x43
    then inr (v6_header bytes)
    else if version_code bytes == 0 || ltb 5 (version_code bytes)
    then inl (unrecognized (version_code bytes))
    else inr (v5_header bytes)

abbrev pub checked : List ℕ → OpenError ⊎ FileHeader → OpenError ⊎ BtrieveFile
checked bytes (inl e) = inl e
checked bytes (inr h) =
    if h.logical_rec_len == 0
    then inl no_logical_length
    else if ltb h.physical_rec_len h.logical_rec_len
    then inl physical_below_logical
    else inr (record { header = h; bytes = bytes })

-- `BtrieveFile::open` on the bytes that were read.
unfoldable pub open_file : List ℕ → OpenError ⊎ BtrieveFile
unfolding header_of
open_file bytes = if ltb (length bytes) 512 then inl too_small else checked bytes (header_of bytes)

pub record RecordIter : Type 0 where
  pub page_num : ℕ
  pub slot_idx : ℕ
  pub total_pages : ℕ
  pub slots_pp : ℕ
  pub v5_deleted : List ℕ
  pub yielded : ℕ

-- Where the records of a page start.
abbrev pub rec_start : FileHeader → ℕ
rec_start h = if h.version == 6 then 6 else 4

abbrev pub slots_per_page : ℕ → FileHeader → ℕ
slots_per_page start h =
    if ltb 0 h.physical_rec_len && ltb start h.page_size
    then (h.page_size - start) / h.physical_rec_len
    else 0

-- The loop over the deleted records, at most `guard` of them.
unfoldable pub deleted_chain : ℕ → List ℕ → ℕ → List ℕ
deleted_chain zero bytes ptr = []
deleted_chain (suc guard) bytes ptr =
    let rest = deleted_chain guard bytes (le32 bytes ptr) in
    if not (ptr == 0xFFFF_FFFF) && not (ptr == 0)
    then (if leb (ptr + 4) (length bytes) then ptr ∷ rest else ptr ∷ [])
    else []

unfoldable pub new_v6 : BtrieveFile → RecordIter
new_v6 f = record {
  page_num = 0;
  slot_idx = 0;
  total_pages = length f.bytes / f.header.page_size;
  slots_pp = slots_per_page 6 f.header;
  v5_deleted = [];
  yielded = 0;
}

unfoldable pub new_v5 : BtrieveFile → RecordIter
new_v5 f = record {
  page_num = 0;
  slot_idx = 0;
  total_pages = length f.bytes / f.header.page_size;
  slots_pp = slots_per_page 4 f.header;
  v5_deleted = deleted_chain 1_000_000 f.bytes (le32 f.bytes v5_deleted_chain);
  yielded = 0;
}

unfoldable pub records : BtrieveFile → RecordIter
records f = if f.header.version == 5 then new_v5 f else new_v6 f

-- What a turn of the loop over the slots does: it ends the loop, goes on, or returns a record.
pub data Slot : Type 0 where
  past_page : Slot
  no_record : Slot
  found : List ℕ → Slot

abbrev pub found_if : Bool → List ℕ → Slot
found_if true r = found r
found_if false r = no_record

-- A slot that lies on the page.
abbrev pub slot_record : FileHeader → List ℕ → ℕ → List ℕ → Slot
slot_record h deleted file_off slot =
    if h.version == 6
    then found_if
        (leb 2 (length slot)
          && not (from_le_bytes (slice 0 2 slot) == 0)
          && leb (2 + h.logical_rec_len) (length slot))
        (slice 2 h.logical_rec_len slot)
    else found_if (not (any (λ d. d == file_off) deleted))
        (take (min h.logical_rec_len (length slot)) slot)

unfoldable pub read_slot : FileHeader → List ℕ → ℕ → List ℕ → ℕ → Slot
read_slot h deleted page_off page si =
    let slot_off = rec_start h + si * h.physical_rec_len in
    if ltb h.page_size (slot_off + h.physical_rec_len)
    then past_page
    else slot_record h deleted (page_off + slot_off) (slice slot_off h.physical_rec_len page)

abbrev pub on_slot : Slot → ℕ → Option (List ℕ × ℕ) → Option (List ℕ × ℕ)
on_slot past_page si rest = none
on_slot no_record si rest = rest
on_slot (found r) si rest = some (r, si + 1)

-- The loop over the slots from `si` on, `left` of them: the record found, and the next slot.
unfoldable pub scan_slots : FileHeader → List ℕ → ℕ → List ℕ → ℕ → ℕ → Option (List ℕ × ℕ)
scan_slots h deleted page_off page zero si = none
scan_slots h deleted page_off page (suc left) si =
    on_slot (read_slot h deleted page_off page si) si
      (scan_slots h deleted page_off page left (si + 1))

abbrev pub page_at : BtrieveFile → ℕ → List ℕ
page_at f p = slice (p * f.header.page_size) f.header.page_size f.bytes

-- Byte 5 with bit 0x80: a data page.
unfoldable pub is_data_page : List ℕ → Bool
is_data_page page = ltb 5 (length page) && (get_or page 5 0 / 128 % 2 == 1)

abbrev pub scan_page : BtrieveFile → RecordIter → Option (List ℕ × ℕ)
scan_page f it =
    let page = page_at f it.page_num in
    if is_data_page page
    then scan_slots f.header it.v5_deleted (it.page_num * f.header.page_size) page
        (it.slots_pp - it.slot_idx) it.slot_idx
    else none

abbrev pub next_page : RecordIter → RecordIter
next_page it = record it { page_num = it.page_num + 1; slot_idx = 0 }

abbrev pub past_slot : ℕ → RecordIter → RecordIter
past_slot si it = record it { slot_idx = si; yielded = it.yielded + 1 }

abbrev pub on_page :
    Option (List ℕ × ℕ) → RecordIter → Option (List ℕ) × RecordIter → Option (List ℕ) × RecordIter
on_page none it rest = rest
on_page (some (r, si)) it rest = (some r, past_slot si it)

-- The loop over the pages, `left` of them.
unfoldable pub scan_pages : BtrieveFile → ℕ → RecordIter → Option (List ℕ) × RecordIter
unfolding scan_slots
scan_pages f zero it = (none, it)
scan_pages f (suc left) it = on_page (scan_page f it) it (scan_pages f left (next_page it))

-- `Iterator::next`
unfoldable pub next : BtrieveFile → RecordIter → Option (List ℕ) × RecordIter
unfolding scan_pages
next f it =
    if it.slots_pp == 0
    then (none, it)
    else if leb f.header.record_count it.yielded && ltb 0 f.header.record_count
    then (none, it)
    else scan_pages f (it.total_pages - it.page_num) it

abbrev pub cons_some : List ℕ → Option (List (List ℕ)) → Option (List (List ℕ))
cons_some r none = none
cons_some r (some rs) = some (r ∷ rs)

abbrev pub on_record :
    Option (List ℕ) × RecordIter → (RecordIter → Option (List (List ℕ))) → Option (List (List ℕ))
on_record (none, it) k = some []
on_record (some r, it) k = cons_some r (k it)

-- A `for` loop over the records, with fuel; `none` when the fuel ran out.
unfoldable pub collect : ℕ → BtrieveFile → RecordIter → Option (List (List ℕ))
unfolding next
collect zero f it = none
collect (suc fuel) f it = on_record (next f it) (collect fuel f)

-- All that the iterator of a file gives. The fuel is a record more than the file has bytes.
unfoldable pub all_records : BtrieveFile → List (List ℕ)
unfolding collect records
all_records f = elim (collect (length f.bytes + 1) f (records f)) [ none ↦ [] | some recs ↦ recs ]
