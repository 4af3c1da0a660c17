-- ===== src/Tests/Calls.antt =====
-- Concrete runs of the walks, the row locks, the chunks, Stat and the dispatcher.
use mathlib.Core.List.{flatten}
use wx_btrieve_sql_driver.Base.{
  Str, [], arith, codes, drop, false, inl, inr, length, lookup, nat_eq, pos, refl, slice, text_eq,
  ℕ, ◌∷◌, ◌≡◌,
}
use wx_btrieve_sql_driver.Dialect.{mssql}
use wx_btrieve_sql_driver.Ops.Buffers.{FitsBuffer, extended_loop-Fits}
use wx_btrieve_sql_driver.Ops.Chunks.{apply_chunks-Keeps}
use wx_btrieve_sql_driver.Ops.Direct.{direct_request, op_get_direct-op_get_position}
use wx_btrieve_sql_driver.Ops.Dispatch.{dispatch}
use wx_btrieve_sql_driver.Ops.Dispatch.LockBias.{dispatch-bias, dispatch-bias_get_key}
use wx_btrieve_sql_driver.Ops.Extended.{ExtDesc, extended_loop}
use wx_btrieve_sql_driver.Ops.Fetch.{with_row_lock}
use wx_btrieve_sql_driver.Ops.Locking.{lock_sent, unlock_sent, with_row_lock-Brackets}
use wx_btrieve_sql_driver.Ops.Position.{op_get_direct, op_get_position}
use wx_btrieve_sql_driver.Ops.Session.{cleared_by_reset, op_reset}
use wx_btrieve_sql_driver.Ops.Stat.{op_stat}
use wx_btrieve_sql_driver.Ops.StatBuffer.{op_stat-outcome_for, outcome_for}
use wx_btrieve_sql_driver.Ops.Step.{op_step_next}
use wx_btrieve_sql_driver.Ops.Stepping.{HandedOut, at_row, step_in-op_reset}
use wx_btrieve_sql_driver.Ops.Update.{apply_chunks}
use wx_btrieve_sql_driver.Sql.Columns.{forward}
use wx_btrieve_sql_driver.SqlParam.{i64}
use wx_btrieve_sql_driver.Status.{btr_unsupported_op}
use wx_btrieve_sql_driver.Tests.Fixtures.{
  cached_rows, sample_columns, sample_handle, sample_meta, sample_world, willing,
}
use wx_btrieve_sql_driver.World.{Client, HandleEntry, World, done, err, execute, ok}
use wx_btrieve_sql_driver.World.Bounds.{WrittenInto, write_data-WrittenInto}
use wx_btrieve_sql_driver.World.Handles.{posblk_key, write_data}

abbrev session : World
session = sample_world willing false

op_reset_example :
    let after = (op_reset session).1 in
    HandedOut 7
      (1 ∷ 1 ∷ [])
      (at_row (pos 11) (drop 1 cached_rows) (cleared_by_reset sample_handle))
      after
      after
      (op_step_next after)
unfolding lookup posblk_key
op_reset_example =
    step_in-op_reset forward session sample_handle (pos 11) (1 ∷ 1 ∷ []) (drop 1 cached_rows) refl
      refl refl

abbrev delete_ten : Str
delete_ten = codes "DELETE FROM T WHERE R = ?"

with_row_lock_example : with_row_lock 7 (pos 10) delete_ten (i64 (pos 10) ∷ []) session ≡ (
  ok tt,
  record session {
    sent =
        lock_sent mssql (codes "5.17") (pos 10)
        ∷ execute delete_ten (i64 (pos 10) ∷ [])
        ∷ unlock_sent mssql (codes "5.17") (pos 10)
        ∷ [];
  },
)
unfolding lookup
with_row_lock_example =
    with_row_lock-Brackets mssql 7 (pos 10) delete_ten (i64 (pos 10) ∷ []) session sample_handle
      (codes "5.17") tt refl refl refl refl

abbrev two_of_each : ExtDesc
two_of_each = record { max_recs = 2; field_extracts = (2, 0) ∷ []; terms = [] }

extended_loop_example :
    FitsBuffer 10 (extended_loop 7 sample_meta forward two_of_each 10 2 0 [] session).0
unfolding flatten
extended_loop_example =
    extended_loop-Fits 7 sample_meta forward two_of_each 10 2 0 [] session refl (omega arith)

apply_chunks_example :
    (length {A = ℕ} (1 ∷ 8 ∷ 9 ∷ 4 ∷ []) ≡ 4) × (slice {A = ℕ} 3 1 (1 ∷ 8 ∷ 9 ∷ 4 ∷ []) ≡ 4 ∷ [])
unfolding apply_chunks
apply_chunks_example =
    apply_chunks-Keeps (8 ∷ 9 ∷ []) 0 ((1, 2) ∷ []) (1 ∷ 2 ∷ 3 ∷ 4 ∷ []) (1 ∷ 8 ∷ 9 ∷ 4 ∷ []) 3 1
      refl (inr (omega arith), tt)

op_stat_example : (op_stat session).0 ≡ outcome_for 4
unfolding lookup posblk_key
op_stat_example = op_stat-outcome_for session sample_handle (9 ∷ 9 ∷ 9 ∷ 9 ∷ []) 4 refl refl refl

bias_example : dispatch 205 0 ≡ dispatch 5 0
bias_example = dispatch-bias 5 200 0 (omega arith) refl refl (inr (inl refl))

get_key_example : dispatch 155 0 session ≡ (err btr_unsupported_op, session)
get_key_example = dispatch-bias_get_key 55 100 0 session refl (inl refl)

-- One row is left.
abbrev last_row_client : Client
last_row_client = record {
  on_execute = λ _ _ _. done tt;
  on_fetch = λ _ _ _ _ _. done ((codes "21" ∷ sample_columns) ∷ []);
}

abbrev uncached : HandleEntry
uncached = record sample_handle { step_cache = [] }

abbrev uncached_session : Client → World
uncached_session c = record (sample_world c false) { handles = (7, uncached) ∷ [] }

write_data_example :
    WrittenInto (9 ∷ 9 ∷ 9 ∷ 9 ∷ []) 4 (1 ∷ 2 ∷ []) (write_data (1 ∷ 2 ∷ []) session)
write_data_example =
    write_data-WrittenInto (1 ∷ 2 ∷ []) (9 ∷ 9 ∷ 9 ∷ 9 ∷ []) 4 session refl refl (omega arith)

position_example :
    let (r, w₁) = op_get_position session in
    (r ≡ ok tt)
    × (w₁.sent ≡ [])
    × ((op_get_direct w₁).1.sent ≡ direct_request sample_meta 10 session ∷ [])
unfolding lookup posblk_key
position_example =
    op_get_direct-op_get_position session sample_handle (9 ∷ 9 ∷ 9 ∷ 9 ∷ []) 4 10 refl refl
      (omega arith) refl refl (omega arith) (omega arith) refl
