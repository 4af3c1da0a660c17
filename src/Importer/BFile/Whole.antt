-- ===== src/Importer/BFile/Whole.antt =====
-- btr-import's bfile.rs: a loop over all records of a file.
use wx_btrieve_sql_driver.Base.{
  Bool, Bool-cases, List, Option, [], ap, arith, false, if◌then◌else◌, inl, inr, leb, length, ltb,
  map, none, refl, some, suc, sym, true, zero, ℕ, ◌&&◌, ◌++◌, ◌+◌, ◌-◌, ◌<◌, ◌==◌, ◌∙◌, ◌≡◌,
}
use wx_btrieve_sql_driver.Importer.BFile.{
  BtrieveFile, RecordIter, collect, cons_some, is_data_page, next, on_record, page_at, records,
  scan_pages,
}
use wx_btrieve_sql_driver.Importer.BFile.Begin.{
  Begins-IsReady, SlotsFit, records-Begins, records-SlotsFit,
}
use wx_btrieve_sql_driver.Importer.BFile.Limit.{limited, limited-cons, limited-nil, limited-reached}
use wx_btrieve_sql_driver.Importer.BFile.Live.{ahead, page_slot, record_in, slots_from, somes, upto}
use wx_btrieve_sql_driver.Importer.BFile.Reading.{IsReady, Stepped, remaining, scan_pages-Stepped}

-- The records of the live slots of the data pages, page by page and slot by slot.
abbrev pub live_records : BtrieveFile → List (List ℕ)
live_records f = let it = records f in ahead f it.v5_deleted it.slots_pp it.total_pages 0 0

page_if-nil : (b : Bool) (l : List (List ℕ)) → l ≡ [] → (if b then l else []) ≡ []
page_if-nil true l e = e
page_if-nil false l e = refl

ahead_empty :
    (f : BtrieveFile) (deleted : List ℕ) (left p si : ℕ) → ahead f deleted 0 left p si ≡ []
ahead_empty f deleted zero p si = refl
ahead_empty f deleted (suc left) p si =
    let none_left : 0 - si ≡ 0 = omega arith in
    ap (λ l. l ++ ahead f deleted 0 left (p + 1) 0)
      (page_if-nil (is_data_page (page_at f p)) (slots_from f deleted 0 p si)
        (ap (λ k. somes (map (λ i. record_in (page_slot f deleted 0 p i)) (upto si k))) none_left))
    ∙ ahead_empty f deleted left (p + 1) 0

-- What a call of `next` does when neither test of its head ends the loop.
next-scan :
    (f : BtrieveFile) (it : RecordIter)
    → (it.slots_pp == 0) ≡ false
    → (leb f.header.record_count it.yielded && ltb 0 f.header.record_count) ≡ false
    → next f it ≡ scan_pages f (it.total_pages - it.page_num) it
unfolding next
next-scan f it e g = rw (e, g) refl

next-ends :
    (f : BtrieveFile) (it : RecordIter)
    → (it.slots_pp == 0) ≡ false
    → (leb f.header.record_count it.yielded && ltb 0 f.header.record_count) ≡ true
    → next f it ≡ (none, it)
unfolding next
next-ends f it e g = rw (e, g) refl

next-none : (f : BtrieveFile) (it : RecordIter) → (it.slots_pp == 0) ≡ true → next f it ≡ (none, it)
unfolding next
next-none f it e = rw e refl

module _ (f : BtrieveFile) where
  abbrev expected : ℕ → List (List ℕ) → Option (List (List ℕ))
  expected y recs = some (limited f.header.record_count y recs)

  on_record-expected :
      (fuel y : ℕ) (recs : List (List ℕ)) (o : Option (List ℕ) × RecordIter)
      → (leb f.header.record_count y && ltb 0 f.header.record_count) ≡ false
      → length recs < suc fuel
      → Stepped f recs y o
      → ((it : RecordIter)
          → IsReady f it
          → length (remaining f it) < fuel
          → collect fuel f it ≡ expected it.yielded (remaining f it))
      → on_record o (collect fuel f) ≡ expected y recs
  on_record-expected fuel y recs (none, it) open_end room h ih =
      let rc = f.header.record_count in ap some (sym (ap (limited rc y) h ∙ limited-nil rc y))
  on_record-expected fuel y recs (some r, it) open_end room h ih =
      let rc = f.header.record_count in
      let shorter : length (remaining f it) < fuel = omega (arith, ap length h.0) in
      ap (cons_some r) (ih it h.1 shorter ∙ ap (λ k. expected k (remaining f it)) h.2)
      ∙ ap some (sym (ap (limited rc y) h.0 ∙ limited-cons rc y r (remaining f it) open_end))

  collect-expected :
      (fuel : ℕ) (it : RecordIter)
      → IsReady f it
      → length (remaining f it) < fuel
      → collect fuel f it ≡ expected it.yielded (remaining f it)
  unfolding collect
  collect-expected zero it ready room = absurd (omega arith)
  collect-expected (suc fuel) it ready room =
      let rc = f.header.record_count in
      let y = it.yielded in
      let k = collect fuel f in
      elim (Bool-cases (it.slots_pp == 0)) [
        | inl e ↦
            let no_slots : it.slots_pp ≡ 0 = ground arith in
            let nothing : remaining f it ≡ [] =
              ap
                (λ n.
                  ahead f it.v5_deleted n (it.total_pages - it.page_num) it.page_num it.slot_idx)
                no_slots
              ∙ ahead_empty f it.v5_deleted (it.total_pages - it.page_num) it.page_num
                  it.slot_idx in
            ap (λ o. on_record o k) (next-none f it e)
            ∙ ap some (sym (ap (limited rc y) nothing ∙ limited-nil rc y))
        | inr e ↦ elim (Bool-cases (leb rc y && ltb 0 rc)) [
          | inl full ↦
              ap (λ o. on_record o k) (next-ends f it e full)
              ∙ ap some (sym (limited-reached rc y (remaining f it) full))
          | inr open_end ↦
              ap (λ o. on_record o k) (next-scan f it e open_end)
              ∙ on_record-expected fuel y (remaining f it)
                  (scan_pages f (it.total_pages - it.page_num) it) open_end room
                  (scan_pages-Stepped f (it.total_pages - it.page_num) it ready
                    (omega (arith, ready.page_in)))
                  (collect-expected fuel)
        ]
      ]

remaining-start :
    (f : BtrieveFile) (it : RecordIter)
    → it.page_num ≡ 0
    → it.slot_idx ≡ 0
    → remaining f it ≡ ahead f it.v5_deleted it.slots_pp it.total_pages 0 0
remaining-start f it p s =
    ap (λ n. ahead f it.v5_deleted it.slots_pp (it.total_pages - n) n it.slot_idx) p
    ∙ ap (λ n. ahead f it.v5_deleted it.slots_pp (it.total_pages - 0) 0 n) s
    ∙ ap (λ n. ahead f it.v5_deleted it.slots_pp n 0 0) (omega arith)

collected :
    (f : BtrieveFile) (fuel : ℕ)
    → length (live_records f) < fuel
    → collect fuel f (records f) ≡ some (limited f.header.record_count 0 (live_records f))
collected f fuel room =
    let b = records-Begins f in
    let start = remaining-start f (records f) b.page_0 b.slot_0 in
    collect-expected f fuel (records f) (Begins-IsReady f (records f) b)
      (omega (arith, ap length start))
    ∙ ap (λ recs. expected f (records f).yielded recs) start
    ∙ ap (λ y. expected f y (live_records f)) b.none_yet

-- Whatever the bytes of a file and its header are, a loop over its records ends, and meets the live
-- records in the order of their pages and slots: all of them when the header counts none, and else
-- as many as it counts. More fuel than there are live records is enough. The slots of a page are as
-- many records of the physical length as fit behind its header, of 4 bytes in version 5 and 6 else.
pub collect-live_records :
    (f : BtrieveFile) (fuel : ℕ)
    → length (live_records f) < fuel
    → (collect fuel f (records f) ≡ some (limited f.header.record_count 0 (live_records f)))
      × SlotsFit f (records f).slots_pp
collect-live_records f fuel room = (collected f fuel room, records-SlotsFit f)
