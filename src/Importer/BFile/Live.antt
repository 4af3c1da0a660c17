-- ===== src/Importer/BFile/Live.antt =====
-- btr-import's bfile.rs: the live records of a file, page by page and slot by slot.
use mathlib.Core.Path.{subst}
use native.Mathlib.Nat.{div-mul-le_self}
use wx_btrieve_sql_driver.Base.{
  Bool-cases, List, Option, [], arith, if◌then◌else◌, inl, inr, ltb, map, none, some, suc, zero, ℕ,
  ◌&&◌, ◌*◌, ◌++◌, ◌+◌, ◌-◌, ◌/◌, ◌<◌, ◌∷◌, ◌≤◌,
}
use wx_btrieve_sql_driver.Importer.BFile.{
  BtrieveFile, FileHeader, Slot, found, is_data_page, no_record, page_at, past_page, read_slot,
  rec_start, slots_per_page,
}

-- The `n` numbers from `from` on.
abbrev pub upto : ℕ → ℕ → List ℕ
upto from zero = []
upto from (suc n) = from ∷ upto (from + 1) n

abbrev pub somes : {A : Type 0} → List (Option A) → List A
somes [] = []
somes (none ∷ os) = somes os
somes (some a ∷ os) = a ∷ somes os

abbrev pub record_in : Slot → Option (List ℕ)
record_in past_page = none
record_in no_record = none
record_in (found r) = some r

module _ (f : BtrieveFile) (deleted : List ℕ) (n : ℕ) where
  abbrev pub page_slot : ℕ → ℕ → Slot
  page_slot p si = read_slot f.header deleted (p * f.header.page_size) (page_at f p) si

  -- The records of a page in its slots from `si` on, `n` slots in all.
  abbrev pub slots_from : ℕ → ℕ → List (List ℕ)
  slots_from p si = somes (map (λ i. record_in (page_slot p i)) (upto si (n - si)))

  abbrev pub page_from : ℕ → ℕ → List (List ℕ)
  page_from p si = if is_data_page (page_at f p) then slots_from p si else []

  -- The records of `left` pages from page `p` on, whose slots before `si` are read.
  abbrev pub ahead : ℕ → ℕ → ℕ → List (List ℕ)
  ahead zero p si = []
  ahead (suc left) p si = page_from p si ++ ahead left (p + 1) 0

pub product_mono : (a b k : ℕ) → a < b → a * k + k ≤ b * k
product_mono a b k h = grind arith

fits_in :
    (rs start si k size : ℕ)
    → rs ≤ start
    → start < size
    → si < (size - start) / k
    → rs + si * k + k ≤ size
fits_in rs start si k size low room below =
    omega (arith, div-mul-le_self (size - start) k, product_mono si ((size - start) / k) k below)

-- No slot that the loop reaches lies past its page: the `break` is never taken.
pub slots-fit :
    (h : FileHeader) (start si : ℕ)
    → rec_start h ≤ start
    → si < slots_per_page start h
    → rec_start h + si * h.physical_rec_len + h.physical_rec_len ≤ h.page_size
slots-fit h start si low below =
    elim (Bool-cases (ltb 0 h.physical_rec_len && ltb start h.page_size)) [
      | inl e ↦
          let some_slots : si < (h.page_size - start) / h.physical_rec_len =
            subst (λ b. si < (if b then (h.page_size - start) / h.physical_rec_len else 0)) e
              below in
          fits_in (rec_start h) start si h.physical_rec_len h.page_size low (ground arith)
            some_slots
      | inr e ↦
          let none_left : si < 0 =
            subst (λ b. si < (if b then (h.page_size - start) / h.physical_rec_len else 0)) e
              below in
          absurd (omega arith)
    ]
