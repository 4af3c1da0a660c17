-- ===== src/Importer/BFile/Reading.antt =====
-- btr-import's bfile.rs: the iterator meets every live record, in order.
use mathlib.Core.Path.{subst}
use wx_btrieve_sql_driver.Base.{
  Bool, List, Option, [], ap, arith, false, if◌then◌else◌, map, none, refl, some, suc, sym, true,
  zero, ℕ, ◌*◌, ◌++◌, ◌+◌, ◌-◌, ◌<◌, ◌∙◌, ◌∷◌, ◌≡◌, ◌≢◌, ◌≤◌,
}
use wx_btrieve_sql_driver.Importer.BFile.{
  BtrieveFile, RecordIter, Slot, found, is_data_page, next_page, no_record, on_page, on_slot,
  page_at, past_page, scan_page, scan_pages, scan_slots,
}
use wx_btrieve_sql_driver.Importer.BFile.Live.{ahead, page_slot, record_in, slots_from, somes, upto}

module _ (f : BtrieveFile) (deleted : List ℕ) (n : ℕ) where
  -- What the loop over the slots from `si` on finds, of the records there.
  abbrev pub Scanned : ℕ → List (List ℕ) → Option (List ℕ × ℕ) → Type 0
  Scanned p recs none = recs ≡ []
  Scanned p recs (some (r, si)) = (recs ≡ r ∷ slots_from f deleted n p si) × (si ≤ n)

  slot-Scanned :
      (p si left : ℕ) (s : Slot) (rest : Option (List ℕ × ℕ))
      → si + suc left ≡ n
      → s ≢ past_page
      → Scanned p
          (somes (map (λ i. record_in (page_slot f deleted n p i)) (upto (si + 1) left)))
          rest
      → Scanned p
          (somes
            (record_in s ∷ map (λ i. record_in (page_slot f deleted n p i)) (upto (si + 1) left)))
          (on_slot s si rest)
  slot-Scanned p si left past_page rest e fits h = absurd (fits refl)
  slot-Scanned p si left no_record rest e fits h = h
  slot-Scanned p si left (found r) rest e fits h =
      let count : left ≡ n - (si + 1) = omega arith in
      (
        ap (λ k. r ∷ somes (map (λ i. record_in (page_slot f deleted n p i)) (upto (si + 1) k)))
            count,
        omega arith,
      )

  scan_slots-Scanned :
      (p left si : ℕ)
      → ((i : ℕ) → i < n → page_slot f deleted n p i ≢ past_page)
      → si + left ≡ n
      → Scanned p
          (somes (map (λ i. record_in (page_slot f deleted n p i)) (upto si left)))
          (scan_slots f.header deleted (p * f.header.page_size) (page_at f p) left si)
  unfolding scan_slots
  scan_slots-Scanned p zero si fits e = refl
  scan_slots-Scanned p (suc left) si fits e =
      slot-Scanned p si left (page_slot f deleted n p si) _ e (fits si (omega arith))
        (scan_slots-Scanned p left (si + 1) fits (omega arith))

  -- The records of a page from a slot on, if it is a data page.
  abbrev page_if : Bool → ℕ → ℕ → List (List ℕ)
  page_if b p si = if b then slots_from f deleted n p si else []

  abbrev Paged : Bool → ℕ → ℕ → Option (List ℕ × ℕ) → Type 0
  Paged b p si none = page_if b p si ≡ []
  Paged b p si (some (r, si')) = (page_if b p si ≡ r ∷ page_if b p si') × (si' ≤ n)

  page_if-Paged :
      (b : Bool) (p si : ℕ) (o : Option (List ℕ × ℕ))
      → Scanned p (slots_from f deleted n p si) o
      → Paged b p si (if b then o else none)
  page_if-Paged true p si none h = h
  page_if-Paged true p si (some (r, si')) h = h
  page_if-Paged false p si o h = refl

abbrev pub remaining : BtrieveFile → RecordIter → List (List ℕ)
remaining f it =
    ahead f it.v5_deleted it.slots_pp (it.total_pages - it.page_num) it.page_num it.slot_idx

-- The iterator stands on a slot, and no slot of its file ends past its page.
pub record IsReady (f : BtrieveFile) (it : RecordIter) : Type 0 where
  pub fits : (p i : ℕ) → i < it.slots_pp → page_slot f it.v5_deleted it.slots_pp p i ≢ past_page
  pub slot_in : it.slot_idx ≤ it.slots_pp
  pub page_in : it.page_num ≤ it.total_pages

-- What a call of `next` did, of the records `recs` that were ahead after `y` records.
abbrev pub Stepped : BtrieveFile → List (List ℕ) → ℕ → Option (List ℕ) × RecordIter → Type 0
Stepped f recs y (none, it) = recs ≡ []
Stepped f recs y (some r, it) = (recs ≡ r ∷ remaining f it) × IsReady f it × (it.yielded ≡ y + 1)

on_page-Stepped :
    (f : BtrieveFile) (it : RecordIter) (left : ℕ) (o : Option (List ℕ × ℕ))
    → (rest : Option (List ℕ) × RecordIter) → IsReady f it
    → it.page_num + suc left ≡ it.total_pages
    → Paged f it.v5_deleted it.slots_pp
        (is_data_page (page_at f it.page_num))
        it.page_num
        it.slot_idx
        o
    → Stepped f (ahead f it.v5_deleted it.slots_pp left (it.page_num + 1) 0) it.yielded rest
    → Stepped f
        (ahead f it.v5_deleted it.slots_pp (suc left) it.page_num it.slot_idx)
        it.yielded
        (on_page o it rest)
on_page-Stepped f it left none rest ready e page h =
    subst
      (λ recs.
        Stepped f (recs ++ ahead f it.v5_deleted it.slots_pp left (it.page_num + 1) 0) it.yielded
          rest)
      (sym page) h
on_page-Stepped f it left (some (r, si)) rest ready e page h =
    let later = ahead f it.v5_deleted it.slots_pp left (it.page_num + 1) 0 in
    let pages : suc left ≡ it.total_pages - it.page_num = omega arith in
    (
      ap (λ recs. recs ++ later) page.0
          ∙ ap (λ k. r ∷ ahead f it.v5_deleted it.slots_pp k it.page_num si) pages,
      record { fits = ready.fits; slot_in = page.1; page_in = ready.page_in },
      refl,
    )

scan_page-Paged :
    (f : BtrieveFile) (it : RecordIter)
    → IsReady f it
    → Paged f it.v5_deleted it.slots_pp
        (is_data_page (page_at f it.page_num))
        it.page_num
        it.slot_idx
        (scan_page f it)
scan_page-Paged f it ready =
    page_if-Paged f it.v5_deleted it.slots_pp (is_data_page (page_at f it.page_num)) it.page_num
      it.slot_idx _
      (scan_slots-Scanned f it.v5_deleted it.slots_pp it.page_num (it.slots_pp - it.slot_idx)
        it.slot_idx (ready.fits it.page_num) (omega (arith, ready.slot_in)))

pub scan_pages-Stepped :
    (f : BtrieveFile) (left : ℕ) (it : RecordIter)
    → IsReady f it
    → it.page_num + left ≡ it.total_pages
    → Stepped f
        (ahead f it.v5_deleted it.slots_pp left it.page_num it.slot_idx)
        it.yielded
        (scan_pages f left it)
unfolding scan_pages
scan_pages-Stepped f zero it ready e = refl
scan_pages-Stepped f (suc left) it ready e =
    on_page-Stepped f it left (scan_page f it) (scan_pages f left (next_page it)) ready e
      (scan_page-Paged f it ready)
      (scan_pages-Stepped f left (next_page it)
        (record { fits = ready.fits; slot_in = omega arith; page_in = omega arith }) (omega arith))
