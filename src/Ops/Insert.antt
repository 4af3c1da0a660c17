-- ===== src/Ops/Insert.antt =====
-- ops/insert.rs: Insert and Insert Extended.
use wx_btrieve_sql_driver.Base.{
  Bool, List, Option, Str, [], all, and_then, codes, eq_ignore_ascii_case, find, if◌then◌else◌,
  is_empty, join, leb, length, ltb, map, min, none, not, parse_i64, pos, slice, some, str_eq, suc,
  take, to_le_bytes, to_word, trim, unwrap_or, zero, ℕ, ℤ, ◌&&◌, ◌++◌, ◌+◌, ◌==◌, ◌^◌, ◌||◌, ◌∷◌,
}
use wx_btrieve_sql_driver.Client.{execute_with, fetch_with, first_cell, outcome}
use wx_btrieve_sql_driver.Dialect.{Backend, last_insert_id_sql, param_marker, quote_ident}
use wx_btrieve_sql_driver.Floats.{Floats}
use wx_btrieve_sql_driver.Ops.Fetch.{names_of}
use wx_btrieve_sql_driver.Record.Unpack.{unpack_row_typed}
use wx_btrieve_sql_driver.Schema.{IntField, TableMeta}
use wx_btrieve_sql_driver.Sql.Filter.{u16_at}
use wx_btrieve_sql_driver.SqlParam.{SqlValue}
use wx_btrieve_sql_driver.Status.{btr_data_too_short, btr_duplicate_key}
use wx_btrieve_sql_driver.World.{
  HandleEntry, M, World, gets, leave, leave_if, ok, ok_of, on_result, or_leave, pure, settle,
  update, ◌>>=◌, ◌>>◌,
}
use wx_btrieve_sql_driver.World.Handles.{
  clone_table_meta, data_bytes, data_is_null, data_len_in, modify_handle, poke, posblk_key,
}

abbrev pub is_sql_identity : TableMeta → Bool
is_sql_identity meta = not (str_eq meta.recnum_col (codes "MDS_RECNUM"))

abbrev pub is_recnum_field : TableMeta → IntField → Bool
is_recnum_field meta f = is_sql_identity meta && eq_ignore_ascii_case f.name meta.recnum_col

abbrev pub is_autoinc : TableMeta → IntField → Bool
is_autoinc meta f = f.native_type == 14 || f.native_type == 15 || is_recnum_field meta f

abbrev pub index_where {ℓ} : {A : Type ℓ} → (A → Bool) → List A → Option ℕ
index_where p [] = none
index_where p (x ∷ xs) =
    let later = index_where p xs in if p x then some 0 else and_then later (λ i. some (suc i))

abbrev pub remove_nth {ℓ} : {A : Type ℓ} → ℕ → List A → List A
remove_nth n [] = []
remove_nth zero (x ∷ xs) = xs
remove_nth (suc n) (x ∷ xs) = x ∷ remove_nth n xs

-- The columns to insert: all but the first auto-assigned one.
unfoldable pub insert_cols : Floats → TableMeta → List ℕ → List (Str × SqlValue)
insert_cols fl meta rec =
    let cols = unpack_row_typed fl meta.fields rec in
    elim (index_where (is_autoinc meta) meta.fields) [ none ↦ cols | some i ↦ remove_nth i cols ]

-- The markers of the parameters from the `i`-th on.
abbrev pub markers {ℓ} : {A : Type ℓ} → Backend → ℕ → List A → List Str
markers b i [] = []
markers b i (x ∷ xs) = param_marker b i ∷ markers b (i + 1) xs

abbrev insert_sql : Backend → Str → List (Str × SqlValue) → Str
insert_sql b tref cols =
    codes "INSERT INTO "
    ++ tref
    ++ codes " ("
    ++ join (codes ", ") (map (λ c. quote_ident b c.0) cols)
    ++ codes ") VALUES ("
    ++ join (codes ", ") (markers b 1 cols)
    ++ codes ")"

unfoldable pub last_insert_id : M ℤ
unfolding fetch_with
last_insert_id = do
  b ← gets (λ w. w.settings.backend)
  r ← settle (fetch_with (last_insert_id_sql b) [] 1 1)
  pure (unwrap_or (and_then (and_then (ok_of r) first_cell) (λ s. parse_i64 (trim s))) (pos 0))

abbrev pub inserted_at : ℤ → HandleEntry → HandleEntry
inserted_at id h = record h { last_recnum = some id; step_last_recnum = some id }

unfoldable pub insert_one : ℕ → TableMeta → List ℕ → M ℤ
unfolding execute_with last_insert_id modify_handle
insert_one hid meta rec = do
  fl ← gets (λ w. w.floats)
  names ← gets (names_of meta)
  let cols = insert_cols fl meta rec
  leave_if (is_empty cols) btr_data_too_short
  r ← settle (execute_with (insert_sql names.b names.tref cols) (map (λ c. c.1) cols))
  or_leave (ok_of r) btr_duplicate_key
  id ← last_insert_id
  update (modify_handle hid (inserted_at id))
  pure id

-- The field whose bytes get the assigned number: the identity column, or an auto-increment field
-- that the record leaves zero.
abbrev written_back : TableMeta → List ℕ → Option IntField
written_back meta rec =
    find
      (λ f.
        is_autoinc meta f
        && (is_recnum_field meta f
            || ltb (length rec) (f.offset + f.length)
            || all (λ x. x == 0) (slice f.offset f.length rec)))
      meta.fields

abbrev write_back : Option IntField → ℕ → ℤ → World → World
write_back none dlen id w = w
write_back (some f) dlen id w =
    if leb (f.offset + f.length) dlen
    then poke f.offset (take (min f.length 8) (to_le_bytes 8 (to_word (2 ^ 64) id))) w
    else w

unfoldable pub op_insert : M (Unit {0})
unfolding clone_table_meta insert_one
op_insert = do
  hid ← gets posblk_key
  meta ← clone_table_meta hid
  dlen ← gets data_len_in
  absent ← gets data_is_null
  leave_if (absent || dlen == 0) btr_data_too_short
  rec ← gets (data_bytes dlen)
  id ← insert_one hid meta rec
  update (write_back (written_back meta rec) dlen id)

abbrev pub stopped : ℕ → ℕ → M (ℕ × Option ℕ)
stopped success code w = (ok (success, some code), w)

-- The loop of Insert Extended: how many records went in, and the error that stopped it.
unfoldable pub insert_loop : ℕ → TableMeta → List ℕ → ℕ → ℕ → ℕ → M (ℕ × Option ℕ)
unfolding insert_one
insert_loop hid meta buf zero off success = λ w. (ok (success, none), w)
insert_loop hid meta buf (suc left) off success =
    let rec_len = u16_at buf off in
    let rest = insert_loop hid meta buf left (off + 2 + rec_len) (success + 1) in
    if ltb (length buf) (off + 2)
    then stopped success btr_data_too_short
    else if ltb (length buf) (off + 2 + rec_len)
    then stopped success btr_data_too_short
    else (do
      r ← settle (insert_one hid meta (slice (off + 2) rec_len buf))
      on_result r (stopped success) λ id. rest)

abbrev extended_status : ℕ × Option ℕ → M (Unit {0})
extended_status (success, none) = pure tt
extended_status (success, some code) = leave (if success == 0 then code else btr_duplicate_key)

unfoldable pub op_insert_extended : M (Unit {0})
unfolding clone_table_meta insert_loop
op_insert_extended = do
  hid ← gets posblk_key
  meta ← clone_table_meta hid
  dlen ← gets data_len_in
  absent ← gets data_is_null
  leave_if (absent || ltb dlen 2) btr_data_too_short
  buf ← gets (data_bytes dlen)
  outcome ← insert_loop hid meta buf (u16_at buf 0) 2 0
  update (poke 0 (to_le_bytes 2 outcome.0))
  extended_status outcome
