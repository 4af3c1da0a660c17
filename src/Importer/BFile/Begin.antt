-- ===== src/Importer/BFile/Begin.antt =====
-- btr-import's bfile.rs: an iterator at the start of its file.
use mathlib.Core.Path.{subst}
use native.Mathlib.Nat.{div-mul-le_self, lt-div-mul-add}
use wx_btrieve_sql_driver.Base.{
  Bool, Bool-cases, List, arith, false, if◌then◌else◌, inl, inr, length, ltb, refl, slice, suc, sym,
  true, zero, ℕ, ◌&&◌, ◌*◌, ◌+◌, ◌-◌, ◌/◌, ◌<◌, ◌==◌, ◌≡◌, ◌≢◌, ◌≤◌, ◌⊎◌,
}
use wx_btrieve_sql_driver.Importer.BFile.{
  BtrieveFile, FileHeader, RecordIter, found_if, new_v5, new_v6, page_at, past_page, read_slot,
  rec_start, records, slot_record, slots_per_page,
}
use wx_btrieve_sql_driver.Importer.BFile.Live.{slots-fit}
use wx_btrieve_sql_driver.Importer.BFile.Reading.{IsReady}

found_if-fits : (b : Bool) (r : List ℕ) → found_if b r ≢ past_page
found_if-fits true r e = cc
found_if-fits false r e = cc

slot_record-fits :
    (h : FileHeader) (deleted : List ℕ) (off : ℕ) (slot : List ℕ)
    → slot_record h deleted off slot ≢ past_page
slot_record-fits h deleted off slot = elim (Bool-cases (h.version == 6)) [
  | inl e ↦ rw e (found_if-fits _ _)
  | inr e ↦ rw e (found_if-fits _ _)
]

read_slot-fits :
    (h : FileHeader) (deleted page : List ℕ) (off start si : ℕ)
    → rec_start h ≤ start
    → si < slots_per_page start h
    → read_slot h deleted off page si ≢ past_page
unfolding read_slot
read_slot-fits h deleted page off start si low below =
    let room = slots-fit h start si low below in
    let inside : ltb h.page_size (rec_start h + si * h.physical_rec_len + h.physical_rec_len)
        ≡ false =
      not_below h.page_size (rec_start h + si * h.physical_rec_len + h.physical_rec_len) room in
    rw inside (
      slot_record-fits h deleted (off + (rec_start h + si * h.physical_rec_len))
        (slice (rec_start h + si * h.physical_rec_len) h.physical_rec_len page))
  where
    not_below : (a b : ℕ) → b ≤ a → ltb a b ≡ false
    not_below a b h = ground arith

-- How the iterator of a file begins, `start` being where the records of its pages may begin.
pub record Begins (f : BtrieveFile) (it : RecordIter) : Type 0 where
  pub start : ℕ
  pub low : rec_start f.header ≤ start
  pub slots : it.slots_pp ≡ slots_per_page start f.header
  pub slot_0 : it.slot_idx ≡ 0
  pub page_0 : it.page_num ≡ 0
  pub none_yet : it.yielded ≡ 0
  pub pages : it.total_pages ≡ length f.bytes / f.header.page_size

new_v5-Begins : (f : BtrieveFile) → (f.header.version == 5) ≡ true → Begins f (new_v5 f)
unfolding new_v5
new_v5-Begins f e = record {
  start = 4;
  low = ground arith;
  slots = refl;
  slot_0 = refl;
  page_0 = refl;
  none_yet = refl;
  pages = refl;
}

new_v6-Begins : (f : BtrieveFile) → Begins f (new_v6 f)
unfolding new_v6
new_v6-Begins f = record {
  start = 6;
  low = ground arith;
  slots = refl;
  slot_0 = refl;
  page_0 = refl;
  none_yet = refl;
  pages = refl;
}

pub records-Begins : (f : BtrieveFile) → Begins f (records f)
unfolding records
records-Begins f = elim (Bool-cases (f.header.version == 5)) [
  | inl e ↦ subst (λ b. Begins f (if b then new_v5 f else new_v6 f)) (sym e) (new_v5-Begins f e)
  | inr e ↦ subst (λ b. Begins f (if b then new_v5 f else new_v6 f)) (sym e) (new_v6-Begins f)
]

pub Begins-IsReady : (f : BtrieveFile) (it : RecordIter) → Begins f it → IsReady f it
Begins-IsReady f it b = record {
  fits = λ p i below.
      read_slot-fits f.header it.v5_deleted (page_at f p) (p * f.header.page_size) b.start i b.low
        (subst (λ n. i < n) b.slots below);
  slot_in = omega (arith, b.slot_0);
  page_in = omega (arith, b.page_0);
}

-- The header of a page, in bytes.
abbrev pub page_header : BtrieveFile → ℕ
page_header f = if f.header.version == 5 then 4 else 6

-- As many records as fit behind the header of a page: no fewer, and no more.
abbrev pub SlotsFit : BtrieveFile → ℕ → Type 0
SlotsFit f n =
    let room = f.header.page_size - page_header f in
    let size = f.header.physical_rec_len in
    (n * size ≤ room) × ((size ≡ 0) ⊎ (room < (n + 1) * size))

quotient-fits : (a k : ℕ) → 0 < k → (a / k * k ≤ a) × (a < (a / k + 1) * k)
quotient-fits a k h =
    let up : a < a / k * k + k = lt-div-mul-add h in (div-mul-le_self a k, grind arith)

no_slot :
    (size start page : ℕ)
    → (ltb 0 size && ltb start page) ≡ false
    → (size ≡ 0) ⊎ (page - start < 1 * size)
no_slot zero start page e = inl refl
no_slot (suc size) start page e = inr (ground arith)

slots_per_page-fits :
    (start : ℕ) (h : FileHeader)
    → let n = slots_per_page start h in
      (n * h.physical_rec_len ≤ h.page_size - start)
      × ((h.physical_rec_len ≡ 0) ⊎ (h.page_size - start < (n + 1) * h.physical_rec_len))
slots_per_page-fits start h =
    elim (Bool-cases (ltb 0 h.physical_rec_len && ltb start h.page_size)) [
      | inl e ↦
          let both = quotient-fits (h.page_size - start) h.physical_rec_len (ground arith) in
          rw e (both.0, inr both.1)
      | inr e ↦ rw e (omega arith, no_slot h.physical_rec_len start h.page_size e)
    ]

pub records-SlotsFit : (f : BtrieveFile) → SlotsFit f (records f).slots_pp
unfolding records new_v5 new_v6
records-SlotsFit f = elim (Bool-cases (f.header.version == 5)) [
  | inl e ↦ rw e (slots_per_page-fits 4 f.header)
  | inr e ↦ rw e (slots_per_page-fits 6 f.header)
]
