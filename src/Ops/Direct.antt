-- ===== src/Ops/Direct.antt =====
-- ops/position.rs: a position that Get Position wrote, taken back by Get Direct.
use mathlib.Core.Path.{subst}
use wx_btrieve_sql_driver.Base.{
  Bool, List, Option, Str, [], and_then, ap, arith, codes, false, from_le-to_le_4, from_le_bytes,
  is_empty, length, length-to_le_bytes, lookup, ltb, nat_eq, none, pos, refl, some, sym, take,
  text_eq, to_le_bytes, to_word, unwrap_or, ℕ, ℤ, ◌%◌, ◌++◌, ◌<◌, ◌==◌, ◌^◌, ◌||◌, ◌∙◌, ◌∷◌, ◌≡◌,
  ◌≤◌,
}
use wx_btrieve_sql_driver.Dialect.{param_marker, select_with_limit}
use wx_btrieve_sql_driver.SqlParam.{i64}
use wx_btrieve_sql_driver.Client.{fetch_with, last_row, outcome, set_sent}
use wx_btrieve_sql_driver.Floats.{Floats}
use wx_btrieve_sql_driver.Ops.Fetch.{
  Fetched, fetch_keyset_one_with, fetch_row, fetched_of, n_cols, names_of,
}
use wx_btrieve_sql_driver.Ops.Position.{
  direct_at, direct_in, direct_query, hand_direct, op_get_direct, op_get_position,
}
use wx_btrieve_sql_driver.Schema.{TableMeta}
use wx_btrieve_sql_driver.Status.{
  btr_data_too_short, btr_eof, btr_file_not_open, btr_key_not_found, btr_unsupported_op,
  err_context_failure,
}
use wx_btrieve_sql_driver.World.{
  HandleEntry, M, Request, Result, World, continue, err, fetch, from_result, gets, leave_if, ok,
  or_leave, panic, pure, recode, ◌>>=◌,
}
use wx_btrieve_sql_driver.World.Bounds.{write_data-WrittenInto}
use wx_btrieve_sql_driver.World.Handles.{
  clone_table_meta, data_bytes, head_of, is_none, modify_handle, open_handle, posblk_key,
  write_data,
}
use wx_btrieve_sql_driver.World.Laws.{write_data-SameSession}

abbrev past_checks : ℕ → TableMeta → Bool → M (Unit {0})
past_checks hid meta short = leave_if short btr_data_too_short >>= λ _.
    gets (λ w. from_le_bytes (data_bytes 4 w)) >>= direct_at hid meta

not_short : (n : ℕ) → 4 ≤ n → ltb n 4 ≡ false
not_short n h = ground arith

-- Get Direct searches the address that the buffer starts with.
op_get_direct-direct_at :
    (v : World) (h : HandleEntry) (mem : List ℕ) (n : ℕ)
    → lookup (posblk_key v) v.handles ≡ some h
    → v.data_buf ≡ some mem
    → v.data_len ≡ some n
    → 4 ≤ n
    → op_get_direct v ≡ direct_at (posblk_key v) h.meta (from_le_bytes (take 4 mem)) v
unfolding op_get_direct clone_table_meta open_handle
op_get_direct-direct_at v h mem n open_at d l long =
    let hid = posblk_key v in
    ap
      (λ o.
        ((or_leave o btr_file_not_open >>= λ (e : HandleEntry). pure e.meta) >>= direct_in hid) v)
      open_at
    ∙ ap
        (λ c.
          (or_leave c btr_data_too_short >>= λ k.
          past_checks hid h.meta (is_none v.data_buf || ltb k 4))
            v)
        l
    ∙ ap (λ o. past_checks hid h.meta (is_none o || ltb n 4) v) d
    ∙ ap (λ b. past_checks hid h.meta b v) (not_short n long)
    ∙ ap (λ o. direct_at hid h.meta (from_le_bytes (head_of 4 o)) v) d

-- An action that sends nothing.
record Silent {A : Type 0} (m : M A) : Type 0 where
  silent : (w : World) → (m w).1.sent ≡ w.sent

continue-Silent :
    {A B : Type 0} (r : Result A) (k : A → M B) (v : World)
    → ((a : A) → Silent (k a))
    → (continue r k v).1.sent ≡ v.sent
continue-Silent (ok a) k v h = (h a).silent v
continue-Silent (err code) k v h = refl
continue-Silent panic k v h = refl

bind-Silent :
    {A B : Type 0} (m : M A) (k : A → M B) → Silent m → ((a : A) → Silent (k a)) → Silent (m >>= k)
bind-Silent m k h g = record { silent = λ w. continue-Silent (m w).0 k (m w).1 g ∙ h.silent w }

or_leave-Silent : {A : Type 0} (o : Option A) (code : ℕ) → Silent (or_leave o code)
or_leave-Silent none code = record { silent = λ w. refl }
or_leave-Silent (some a) code = record { silent = λ w. refl }

fetched_of-Silent :
    (meta : TableMeta) (row : List Str) (fl : Floats) → Silent (fetched_of fl meta row)
fetched_of-Silent meta [] fl = record { silent = λ w. refl }
fetched_of-Silent meta (c ∷ cs) fl = record { silent = λ w. refl }

hand_direct-Silent :
    (hid : ℕ) (meta : TableMeta) (row : Fetched) → Silent (hand_direct hid meta row)
unfolding modify_handle
hand_direct-Silent hid meta row = record { silent = λ w. (write_data-SameSession row.packed _).1 }

abbrev answered : Result (List (List Str)) → M (List Str)
answered r = from_result r >>= λ rows. or_leave (last_row rows) btr_key_not_found

abbrev shown : ℕ → TableMeta → Result (List (List Str)) → M (Unit {0})
shown hid meta r =
    recode btr_key_not_found btr_eof
      (answered r >>= λ row. gets (λ w. w.floats) >>= λ fl. fetched_of fl meta row)
    >>= hand_direct hid meta

shown-Silent :
    (hid : ℕ) (meta : TableMeta) (r : Result (List (List Str))) → Silent (shown hid meta r)
shown-Silent hid meta r =
    let got : Silent (answered r >>= λ row. gets (λ w. w.floats) >>= λ fl. fetched_of fl meta row) =
      bind-Silent (answered r) (λ row. gets (λ w. w.floats) >>= λ fl. fetched_of fl meta row)
        (bind-Silent (from_result r) (λ rows. or_leave (last_row rows) btr_key_not_found)
          (record { silent = λ w. refl }) λ rows. or_leave-Silent (last_row rows) btr_key_not_found)
        λ row.
          bind-Silent (gets (λ w. w.floats)) (λ fl. fetched_of fl meta row)
            (record { silent = λ w. refl }) (fetched_of-Silent meta row) in
    bind-Silent
      (recode btr_key_not_found btr_eof
        (answered r >>= λ row. gets (λ w. w.floats) >>= λ fl. fetched_of fl meta row))
      (hand_direct hid meta) (record { silent = got.silent }) (hand_direct-Silent hid meta)

abbrev pub direct_request : TableMeta → ℕ → World → Request
direct_request meta rn w =
    let names = names_of meta w in
    let condition = names.rc ++ codes " " ++ codes "=" ++ codes " " ++ param_marker names.b 1 in
    fetch (select_with_limit names.b 1 names.cols names.tref condition []) (i64 (pos rn) ∷ [])
      (n_cols meta) 1

direct_at-sends :
    (hid : ℕ) (meta : TableMeta) (rn : ℕ) (v : World)
    → (is_empty meta.fields || meta.record_length == 0) ≡ false
    → (direct_at hid meta rn v).1.sent ≡ v.sent ++ direct_request meta rn v ∷ []
unfolding fetch_keyset_one_with fetch_with set_sent
direct_at-sends hid meta rn v g =
    let q = direct_query (names_of meta v) rn in
    let r = outcome err_context_failure (v.client.on_fetch v.sent q.0 q.1 (n_cols meta) 1) in
    ap
      (λ b.
        ((recode btr_key_not_found btr_eof (
              leave_if b btr_unsupported_op >>= λ _. fetch_row q.0 q.1 (n_cols meta) >>= λ row.
              gets (λ w. w.floats) >>= λ fl. fetched_of fl meta row)
            >>= hand_direct hid meta)
          v).1.sent)
      g
    ∙ (shown-Silent hid meta r).silent (record v { sent = v.sent ++ direct_request meta rn v ∷ [] })

op_get_position-token :
    (w : World) (h : HandleEntry) (rn : ℕ)
    → lookup (posblk_key w) w.handles ≡ some h
    → h.last_recnum ≡ some (pos rn)
    → op_get_position w ≡ (ok tt, write_data (to_le_bytes 4 (rn % 2 ^ 32)) w)
unfolding op_get_position
op_get_position-token w h rn open_at current =
    let write : Option ℤ → Result (Unit {0}) × World =
      λ r. (ok tt, write_data (to_le_bytes 4 (to_word (2 ^ 32) (unwrap_or r (pos 0)))) w) in
    ap (λ o. write (and_then o (λ (e : HandleEntry). e.last_recnum))) open_at ∙ ap write current

-- The address of the buffer that a token was written to.
token_read :
    (rn : ℕ) (new : List ℕ)
    → rn < 2 ^ 32
    → take 4 new ≡ take 4 (to_le_bytes 4 (rn % 2 ^ 32))
    → from_le_bytes (take 4 new) ≡ rn
token_read rn new small e = ap from_le_bytes e ∙ from_le-to_le_4 (rn % 2 ^ 32) ∙ omega arith

request-settings :
    (meta : TableMeta) (rn : ℕ) (v w : World)
    → v.settings ≡ w.settings
    → direct_request meta rn v ≡ direct_request meta rn w
request-settings meta rn v w e = ap (λ s. direct_request meta rn (record v { settings = s })) e

-- On an open file with fields and a current record number below 2 ^ 32, and a data buffer of at
-- least 4 bytes: Get Position succeeds and sends nothing, and Get Direct on the buffer that it
-- left sends one query, for the row whose record number is equal to that number.
pub op_get_direct-op_get_position :
    (w : World) (h : HandleEntry) (mem : List ℕ) (cap rn : ℕ)
    → lookup (posblk_key w) w.handles ≡ some h
    → h.last_recnum ≡ some (pos rn)
    → rn < 2 ^ 32
    → w.data_buf ≡ some mem
    → w.data_len ≡ some cap
    → 4 ≤ cap
    → cap ≤ length mem
    → (is_empty h.meta.fields || h.meta.record_length == 0) ≡ false
    → let (r, w₁) = op_get_position w in
      (r ≡ ok tt)
      × (w₁.sent ≡ w.sent)
      × ((op_get_direct w₁).1.sent ≡ w.sent ++ direct_request h.meta rn w ∷ [])
op_get_direct-op_get_position w h mem cap rn open_at current small d l room fits full =
    let out = to_le_bytes 4 (rn % 2 ^ 32) in
    let v = write_data out w in
    let same = write_data-SameSession out w in
    let (new, n, d', l', size, head, same_size, rest) =
      write_data-WrittenInto out mem cap w d l fits in
    let four : n ≡ 4 = omega (arith, size, length-to_le_bytes 4 (rn % 2 ^ 32)) in
    let address = token_read rn new small (subst (λ k. take k new ≡ take k out) four head) in
    let open_v =
      ap (λ k. lookup k v.handles) same.2 ∙ ap (lookup (posblk_key w)) same.0 ∙ open_at in
    let sends =
      ap (λ o. o.1.sent)
        (op_get_direct-direct_at v h new n open_v d' l' (omega (arith, four))
          ∙ ap (λ k. direct_at (posblk_key v) h.meta k v) address)
      ∙ direct_at-sends (posblk_key v) h.meta rn v full
      ∙ ap (λ r. v.sent ++ r ∷ []) (request-settings h.meta rn v w same.4)
      ∙ ap (λ s. s ++ direct_request h.meta rn w ∷ []) same.1 in
    subst
      (λ (o : Result (Unit {0}) × World).
        (o.0 ≡ ok tt)
        × (o.1.sent ≡ w.sent)
        × ((op_get_direct o.1).1.sent ≡ w.sent ++ direct_request h.meta rn w ∷ []))
      (sym (op_get_position-token w h rn open_at current)) (refl, same.1, sends)
