-- ===== src/Importer/Runner/Sending.antt =====
-- runner.rs, `import_one`: the loop over the records sends them in batches.
use mathlib.Core.List.{append_assoc, append-nil}
use mathlib.Core.Path.{subst}
use wx_btrieve_sql_driver.Base.{
  All, Bool-cases, List, Option, Str, [], ap, arith, inl, inr, insert, leb, length, length-append,
  map, max, nat_eq, none, refl, some, suc, sym, text_eq, zero, ℕ, ◌++◌, ◌+◌, ◌<◌, ◌∙◌, ◌∷◌, ◌≡◌,
  ◌≤◌,
}
use wx_btrieve_sql_driver.Importer.Runner.{
  Attempt, finished, flush, import_rows, panicked, send_batch, stopped_by,
}
use wx_btrieve_sql_driver.Importer.Runner.Batches.{
  IsBatch, blocks, blocks-IsBatch, blocks_full, blocks_last, flat, flat-blocks, send_all,
  send_batch-ext,
}
use wx_btrieve_sql_driver.Importer.Sqlsrv.{DecodedRow}

-- The batches of rows, of at most `size` rows, and of one row when `size` is 0.
abbrev pub batches : ℕ → List DecodedRow → List (List DecodedRow)
batches size rows = blocks (length rows) (max size 1) rows

-- Of the rows of a batch and those behind them.
abbrev ahead_of : ℕ → ℕ → List DecodedRow → List DecodedRow → List (List DecodedRow)
ahead_of fuel size rows recs = blocks fuel (max size 1) (rows ++ recs)

module _ {S : Type 0} (insert : List DecodedRow → S → Option Str × S) (size : ℕ) where
  flush-send_all :
      (fuel : ℕ) (rows : List DecodedRow) (total : ℕ) (s : S)
      → length rows < max size 1
      → length rows ≤ fuel
      → flush insert size total rows s ≡ send_all insert (ahead_of fuel size rows []) total s
  flush-send_all zero [] total s short room = refl
  flush-send_all (suc fuel) [] total s short room = refl
  flush-send_all zero (x ∷ xs) total s short room = absurd (omega arith)
  flush-send_all (suc fuel) (x ∷ xs) total s short room =
      send_batch-ext insert size total (x ∷ xs) (insert (x ∷ xs) s) (λ n s'. (finished n, s'))
        (send_all insert []) (λ n s'. refl)
      ∙ ap (λ bs. send_all insert bs total s)
          (sym (
            ap (blocks (suc fuel) (max size 1)) (append-nil (x ∷ xs))
            ∙ blocks_last fuel (max size 1) x xs short))

  import_rows-send_all :
      (fuel : ℕ) (recs rows : List DecodedRow) (total : ℕ) (s : S)
      → length rows < max size 1
      → length (rows ++ recs) ≤ fuel
      → import_rows insert size (map some recs) rows total s
        ≡ send_all insert (ahead_of fuel size rows recs) total s
  unfolding import_rows
  import_rows-send_all fuel [] rows total s short room =
      flush-send_all fuel rows total s short (omega (arith, length-append rows []))
  import_rows-send_all zero (r ∷ recs) rows total s short room =
      absurd (omega (arith, length-append rows (r ∷ recs)))
  import_rows-send_all (suc fuel) (r ∷ recs) rows total s short room =
      let full = rows ++ r ∷ [] in
      let one_more = length-append rows (r ∷ []) in
      let split = append_assoc rows (r ∷ []) recs in
      elim (Bool-cases (leb size (length full))) [
        | inl e ↦
            let exact : length full ≡ max size 1 = ground (arith, one_more) in
            rw e (
              send_batch-ext insert size total full (insert full s)
                (import_rows insert size (map some recs) [])
                (send_all insert (blocks fuel (max size 1) recs))
                (λ n s'.
                  import_rows-send_all fuel recs [] n s' (omega arith)
                    (omega (arith, length-append rows (r ∷ recs))))
              ∙ ap (λ bs. send_all insert bs total s)
                  (sym (
                    ap (blocks (suc fuel) (max size 1)) (sym split)
                    ∙ blocks_full fuel (max size 1) full recs exact (omega arith))))
        | inr e ↦ rw e (
            import_rows-send_all (suc fuel) recs full total s (ground (arith, one_more))
              (omega (arith, ap length split))
            ∙ ap (λ l. send_all insert (blocks (suc fuel) (max size 1) l) total s) split)
      ]

-- The count that is reported: of all rows, if the import was finished, and it does not panic.
abbrev pub Reports : ℕ → Attempt ℕ → Type 0
Reports n (finished total) = total ≡ n
Reports n (stopped_by e) = Unit
Reports n panicked = ⊥

module _ {S : Type 0} (insert : List DecodedRow → S → Option Str × S) where
  send_batch-Reports :
      (b : List DecodedRow) (total n : ℕ) (o : Option Str × S) (k : ℕ → S → Attempt ℕ × S)
      → ((s : S) → Reports n (k (total + length b) s).0)
      → Reports n (send_batch insert 0 total b o k).0
  send_batch-Reports b total n (some e, s) k h = tt
  send_batch-Reports b total n (none, s) k h = h s

  send_all-Reports :
      (bs : List (List DecodedRow)) (total n : ℕ) (s : S)
      → total + length (flat bs) ≡ n
      → Reports n (send_all insert bs total s).0
  send_all-Reports [] total n s e = omega (arith, e)
  send_all-Reports (b ∷ bs) total n s e =
      send_batch-Reports b total n (insert b s) (send_all insert bs) (λ s'.
        send_all-Reports bs (total + length b) n s' (omega (arith, e, length-append b (flat bs))))

-- The import of decoded rows, whatever the client's inserts do, is the same as sending them in
-- consecutive batches up to the first that fails. Together the batches are all the rows in their
-- order, none is empty, and none is longer than the batch size, or than one row when that is 0. An
-- import that finishes reports the number of rows.
pub import_rows-batches :
    {S : Type 0} (insert : List DecodedRow → S → Option Str × S) (size : ℕ)
    → (rows : List DecodedRow) (s : S)
    → let result = import_rows insert size (map some rows) [] 0 s in
      (result ≡ send_all insert (batches size rows) 0 s)
      × (flat (batches size rows) ≡ rows)
      × All (IsBatch (max size 1)) (batches size rows)
      × Reports (length rows) result.0
import_rows-batches insert size rows s =
    let sending =
      import_rows-send_all insert size (length rows) rows [] 0 s (omega arith) (omega arith) in
    let whole = flat-blocks (length rows) (max size 1) rows (omega arith) (omega arith) in
    (
      sending,
      whole,
      blocks-IsBatch (length rows) (max size 1) rows (omega arith),
      subst (λ r. Reports (length rows) r.0) (sym sending)
          (send_all-Reports insert (batches size rows) 0 (length rows) s
            (omega (arith, ap length whole))),
    )
