-- ===== src/Importer/BFile/Room.antt =====
-- btr-import's bfile.rs: how many records a file can hold.
use native.Mathlib.Nat.{div-mul-le_self}
use wx_btrieve_sql_driver.Base.{
  Bool, Bool-cases, List, Option, [], ap, arith, false, if◌then◌else◌, inl, inr, length,
  length-append, length-map, ltb, map, none, refl, some, suc, true, zero, ℕ, ◌&&◌, ◌*◌, ◌+◌, ◌-◌,
  ◌/◌, ◌<◌, ◌∷◌, ◌≡◌, ◌≤◌,
}
use wx_btrieve_sql_driver.Importer.BFile.{
  BtrieveFile, FileHeader, all_records, is_data_page, page_at, records, slots_per_page,
}
use wx_btrieve_sql_driver.Importer.BFile.Begin.{records-Begins}
use wx_btrieve_sql_driver.Importer.BFile.Limit.{limited}
use wx_btrieve_sql_driver.Importer.BFile.Live.{ahead, page_from, page_slot, record_in, somes, upto}
use wx_btrieve_sql_driver.Importer.BFile.Whole.{collect-live_records, live_records}

length-upto : (from n : ℕ) → length (upto from n) ≡ n
length-upto from zero = refl
length-upto from (suc n) = omega (arith, length-upto (from + 1) n)

length-somes : {A : Type 0} (os : List (Option A)) → length (somes os) ≤ length os
length-somes [] = omega arith
length-somes (none ∷ os) = omega (arith, length-somes os)
length-somes (some a ∷ os) = omega (arith, length-somes os)

length-if : (b : Bool) (l : List (List ℕ)) (n : ℕ) → length l ≤ n → length (if b then l else []) ≤ n
length-if true l n h = h
length-if false l n h = omega arith

module _ (f : BtrieveFile) (deleted : List ℕ) (n : ℕ) where
  length-page_from : (p si : ℕ) → length (page_from f deleted n p si) ≤ n
  length-page_from p si =
      let slots = map (λ i. record_in (page_slot f deleted n p i)) (upto si (n - si)) in
      length-if (is_data_page (page_at f p)) (somes slots) n (
        omega (
          arith,
          length-somes slots,
          length-map (λ i. record_in (page_slot f deleted n p i)) (upto si (n - si)),
          length-upto si (n - si),
        ))

  length-ahead : (left p si : ℕ) → length (ahead f deleted n left p si) ≤ left * n
  length-ahead zero p si = omega arith
  length-ahead (suc left) p si =
      let here = page_from f deleted n p si in
      let rest = ahead f deleted n left (p + 1) 0 in
      grind (arith, length-append here rest, length-page_from p si, length-ahead left (p + 1) 0)

slots_below_page : (start : ℕ) (h : FileHeader) → slots_per_page start h ≤ h.page_size
slots_below_page start h = elim (Bool-cases (ltb 0 h.physical_rec_len && ltb start h.page_size)) [
  | inl e ↦ rw e (
      quotient_below (h.page_size - start) h.page_size h.physical_rec_len (omega arith)
        (ground arith))
  | inr e ↦ rw e (omega arith)
]
  where
    quotient_below : (a b k : ℕ) → a ≤ b → 0 < k → a / k ≤ b
    quotient_below a b zero h pos_k = absurd (omega arith)
    quotient_below a b (suc k) h pos_k = let m = div-mul-le_self a (suc k) in grind arith

-- No file holds more records than bytes.
pub live_records-bytes : (f : BtrieveFile) → length (live_records f) ≤ length f.bytes
live_records-bytes f =
    let b = records-Begins f in
    let it = records f in
    let fits = slots_below_page b.start f.header in
    let pages = div-mul-le_self (length f.bytes) f.header.page_size in
    let total = length-ahead f it.v5_deleted it.slots_pp it.total_pages 0 0 in
    grind (arith, b.slots, b.pages)

pub all_records-live_records :
    (f : BtrieveFile) → all_records f ≡ limited f.header.record_count 0 (live_records f)
unfolding all_records
all_records-live_records f =
    ap (λ o. elim o [ none ↦ [] | some recs ↦ recs ])
      (collect-live_records f (length f.bytes + 1) (omega (arith, live_records-bytes f))).0
