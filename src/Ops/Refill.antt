-- ===== src/Ops/Refill.antt =====
-- ops/step.rs: the query behind a Step Next or Previous whose cache is empty.
use mathlib.Core.Path.{subst}
use wx_btrieve_sql_driver.Base.{
  List, Str, [], ap, if◌then◌else◌, length, lookup, nat_eq, refl, some, sym, text_eq, ℕ, ℤ, ◌++◌,
  ◌+◌, ◌∙◌, ◌∷◌, ◌≡◌,
}
use wx_btrieve_sql_driver.Client.{fetch_with, outcome, set_sent}
use wx_btrieve_sql_driver.Ops.Fetch.{build_step_select_n_params, names_of}
use wx_btrieve_sql_driver.Ops.Step.{batch_rows, deliver, step_chunk_size, step_fetch}
use wx_btrieve_sql_driver.Ops.Stepping.{step_in, step_in-open, step_with-empty}
use wx_btrieve_sql_driver.Sql.Columns.{Dir}
use wx_btrieve_sql_driver.SqlParam.{SqlValue}
use wx_btrieve_sql_driver.Status.{
  btr_eof, btr_file_not_open, btr_key_not_found, err_context_failure,
}
use wx_btrieve_sql_driver.World.{
  HandleEntry, M, Outcome, Request, Result, World, continue, done, err, fetch, ok, or_leave,
  recode_result, ◌>>=◌,
}
use wx_btrieve_sql_driver.World.Handles.{modify_handle, open_handle, posblk_key, write_data}
use wx_btrieve_sql_driver.World.Laws.{
  lookup-modify_handle, write_data-SameSession, write_data-modify_handle, write_data-sent,
}

abbrev pub chunk_of : HandleEntry → ℕ
chunk_of h = if h.meta.local_cache then step_chunk_size else 1

-- The query of the rows behind the last one, in the walk's direction.
abbrev pub refill_query : Dir → HandleEntry → World → Str × List SqlValue
refill_query dir h w =
    build_step_select_n_params (names_of h.meta w) h.step_last_recnum dir (chunk_of h)

abbrev pub refill_request : Dir → HandleEntry → World → Request
refill_request dir h w =
    let q = refill_query dir h w in fetch q.0 q.1 (length h.meta.fields + 1) (chunk_of h)

abbrev pub refill_answer : Dir → HandleEntry → World → Outcome (List (List Str))
refill_answer dir h w =
    let q = refill_query dir h w in
    w.client.on_fetch w.sent q.0 q.1 (length h.meta.fields + 1) (chunk_of h)

abbrev pub asked : Dir → HandleEntry → World → World
asked dir h w = record w { sent = w.sent ++ refill_request dir h w ∷ [] }

-- `step_fetch` on an open handle, once the backend has answered.
abbrev answered : ℕ → Dir → HandleEntry → Outcome (List (List Str)) → M (Unit {0})
answered hid dir h o w =
    continue (recode_result btr_key_not_found btr_eof (outcome err_context_failure o))
      (λ rows v. deliver hid dir (batch_rows v.floats h.meta rows) v) w

abbrev ask : ℕ → Dir → HandleEntry → M (Unit {0})
ask hid dir h w = answered hid dir h (refill_answer dir h w) (asked dir h w)

step_fetch-asks :
    (dir : Dir) (hid : ℕ) (w : World) (h : HandleEntry)
    → lookup hid w.handles ≡ some h
    → step_fetch hid dir w ≡ answered hid dir h (refill_answer dir h w) (asked dir h w)
unfolding step_fetch open_handle fetch_with set_sent
step_fetch-asks dir hid w h open_at =
    ap (λ o. (or_leave o btr_file_not_open >>= ask hid dir) w) open_at

-- The handle after a batch of rows.
abbrev pub refilled : Dir → ℤ → List (ℤ × List ℕ) → HandleEntry → HandleEntry
refilled dir rn rest h = record h {
  step_last_recnum = some rn;
  last_recnum = some rn;
  step_dir = dir;
  step_cache_dir = dir;
  step_cache = rest;
}

abbrev pub Delivered :
    ℕ
    → Dir
    → HandleEntry
    → ℤ
    → List ℕ
    → List (ℤ × List ℕ)
    → World
    → Result (Unit {0}) × World
    → Type 0
Delivered hid dir h rn p rest w (r, w') =
    (r ≡ ok tt)
    × (w'.sent ≡ w.sent ++ refill_request dir h w ∷ [])
    × (w'.buffers ≡ (write_data p w).buffers)
    × (lookup hid w'.handles ≡ some (refilled dir rn rest h))

delivered_lem :
    (dir : Dir) (hid : ℕ) (w : World) (h : HandleEntry) (rn : ℤ) (p : List ℕ)
    → (rest : List (ℤ × List ℕ)) → lookup hid w.handles ≡ some h
    → Delivered hid dir h rn p rest w (deliver hid dir ((rn, p) ∷ rest) (asked dir h w))
unfolding modify_handle
delivered_lem dir hid w h rn p rest open_at =
    let at = asked dir h w in
    let mid = modify_handle hid (refilled dir rn rest) at in
    let same = write_data-SameSession p mid in
    (
      refl,
      same.1,
      write_data-modify_handle p hid (refilled dir rn rest) at
          ∙ write_data-sent p (w.sent ++ refill_request dir h w ∷ []) w,
      ap (lookup hid) same.0 ∙ lookup-modify_handle hid (refilled dir rn rest) at h open_at,
    )

-- A step on an empty cache hands on what the backend answers.
pub step_in-deliver :
    (dir : Dir) (w : World) (h : HandleEntry) (rows : List (List Str))
    → lookup (posblk_key w) w.handles ≡ some h
    → h.step_cache_dir ≡ dir
    → h.step_cache ≡ []
    → refill_answer dir h w ≡ done rows
    → step_in dir w ≡ deliver (posblk_key w) dir (batch_rows w.floats h.meta rows) (asked dir h w)
step_in-deliver dir w h rows open_at d c answer =
    let hid = posblk_key w in
    step_in-open dir w h open_at
    ∙ step_with-empty dir hid w h d c
    ∙ step_fetch-asks dir hid w h open_at
    ∙ ap (λ o. answered hid dir h o (asked dir h w)) answer

-- A step on a handle with an empty cache for its direction asks the backend once, for the 256
-- rows behind the last one, or for one row of a table that is not cached. When the answer holds
-- rows, the first is handed to the caller and becomes the current record, and the others become
-- the cache.
pub step_in-Delivered :
    (dir : Dir) (w : World) (h : HandleEntry) (rows : List (List Str)) (rn : ℤ) (p : List ℕ)
    → (rest : List (ℤ × List ℕ)) → lookup (posblk_key w) w.handles ≡ some h
    → h.step_cache_dir ≡ dir
    → h.step_cache ≡ []
    → refill_answer dir h w ≡ done rows
    → batch_rows w.floats h.meta rows ≡ (rn, p) ∷ rest
    → Delivered (posblk_key w) dir h rn p rest w (step_in dir w)
step_in-Delivered dir w h rows rn p rest open_at d c answer batch =
    let hid = posblk_key w in
    subst (Delivered hid dir h rn p rest w)
      (sym (
        step_in-deliver dir w h rows open_at d c answer
        ∙ ap (λ b. deliver hid dir b (asked dir h w)) batch))
      (delivered_lem dir hid w h rn p rest open_at)

-- A step on a handle with an empty cache for its direction, when the backend answers its query
-- with no rows: the status is 9, and nothing has changed but that the query was sent.
pub step_in-Ends :
    (dir : Dir) (w : World) (h : HandleEntry) (rows : List (List Str))
    → lookup (posblk_key w) w.handles ≡ some h
    → h.step_cache_dir ≡ dir
    → h.step_cache ≡ []
    → refill_answer dir h w ≡ done rows
    → batch_rows w.floats h.meta rows ≡ []
    → step_in dir w ≡ (err btr_eof, asked dir h w)
step_in-Ends dir w h rows open_at d c answer batch =
    let hid = posblk_key w in
    step_in-deliver dir w h rows open_at d c answer
    ∙ ap (λ b. deliver hid dir b (asked dir h w)) batch
