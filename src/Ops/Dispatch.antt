-- ===== src/Ops/Dispatch.antt =====
-- crates/wxbtrv-core/src/ops/mod.rs (`btrcall_internal`) and ops/opcodes.rs (`handle_stub`): the
-- dispatcher. A call answers by a status, or not at all when the handler panics.
pub mod LockBias
use wx_btrieve_sql_driver.Base.{
  List, Option, [], if◌then◌else◌, leb, lookup, ltb, nat_eq, none, some, text_eq, unwrap_or, ℕ, ◌%◌,
  ◌&&◌, ◌++◌, ◌==◌, ◌∷◌,
}
use wx_btrieve_sql_driver.Ops.Extended.{run_extended, run_step_extended}
use wx_btrieve_sql_driver.Ops.Get.{
  op_get_equal, op_get_first, op_get_greater, op_get_greater_or_equal, op_get_key, op_get_last,
  op_get_less, op_get_less_or_equal, op_get_next, op_get_prev,
}
use wx_btrieve_sql_driver.Ops.Index.{op_create, op_create_index, op_drop_index}
use wx_btrieve_sql_driver.Ops.Insert.{op_insert, op_insert_extended}
use wx_btrieve_sql_driver.Ops.Position.{
  op_find_percent, op_get_direct, op_get_percent, op_get_position,
}
use wx_btrieve_sql_driver.Ops.Session.{
  op_abort_txn, op_begin_concurrent_txn, op_begin_txn, op_clear_owner, op_close,
  op_continuous_operation, op_end_txn, op_get_dir, op_open, op_reset, op_set_dir, op_set_owner,
  op_stop, op_unlock, op_version,
}
use wx_btrieve_sql_driver.Ops.Stat.{op_stat, op_stat_extended}
use wx_btrieve_sql_driver.Ops.Step.{op_step_first, op_step_last, op_step_next, op_step_prev}
use wx_btrieve_sql_driver.Ops.Update.{op_delete, op_update, op_update_chunk}
use wx_btrieve_sql_driver.Sql.Columns.{backward, forward}
use wx_btrieve_sql_driver.Status.{btr_success, btr_unsupported_op}
use wx_btrieve_sql_driver.World.{M, Result, World, err, leave, ok, panic}

-- 1019 is Begin Concurrent Transaction, and 16 (Extend) is refused, before the lock bias goes.
unfoldable pub base_op : ℕ → ℕ
base_op operation = if leb 100 operation && ltb operation 500 then operation % 100 else operation

-- No entry of the opcode table is a NoOp.
abbrev pub handle_stub : M (Unit {0})
handle_stub = leave btr_unsupported_op

abbrev file_ops : ℕ → List (ℕ × M (Unit {0}))
file_ops key_num =
    (0, op_open)
    ∷ (1, op_close)
    ∷ (15, op_stat)
    ∷ (25, op_stop)
    ∷ (26, op_version)
    ∷ (14, op_create key_num)
    ∷ (29, op_set_owner)
    ∷ (30, op_clear_owner)
    ∷ (31, op_create_index)
    ∷ (32, op_drop_index key_num)
    ∷ (17, op_set_dir)
    ∷ (18, op_get_dir)
    ∷ (27, op_unlock)
    ∷ (28, op_reset)
    ∷ (42, op_continuous_operation)
    ∷ (65, op_stat_extended)
    ∷ []

abbrev get_ops : ℕ → List (ℕ × M (Unit {0}))
get_ops key_num =
    (5, op_get_equal key_num)
    ∷ (6, op_get_next)
    ∷ (7, op_get_prev)
    ∷ (8, op_get_greater key_num)
    ∷ (9, op_get_greater_or_equal key_num)
    ∷ (10, op_get_less key_num)
    ∷ (11, op_get_less_or_equal key_num)
    ∷ (12, op_get_first key_num)
    ∷ (13, op_get_last key_num)
    ∷ (22, op_get_position)
    ∷ (23, op_get_direct)
    ∷ (44, op_find_percent)
    ∷ (45, op_get_percent)
    ∷ []

abbrev other_ops : List (ℕ × M (Unit {0}))
other_ops =
    (24, op_step_next)
    ∷ (33, op_step_first)
    ∷ (34, op_step_last)
    ∷ (35, op_step_prev)
    ∷ (2, op_insert)
    ∷ (3, op_update)
    ∷ (4, op_delete)
    ∷ (19, op_begin_txn)
    ∷ (20, op_end_txn)
    ∷ (21, op_abort_txn)
    ∷ (36, run_extended forward)
    ∷ (37, run_extended backward)
    ∷ (38, run_step_extended forward)
    ∷ (39, run_step_extended backward)
    ∷ (40, op_insert_extended)
    ∷ (53, op_update_chunk)
    ∷ []

unfoldable pub by_base : ℕ → ℕ → M (Unit {0})
by_base base key_num =
    unwrap_or (lookup base (file_ops key_num ++ get_ops key_num ++ other_ops)) handle_stub

unfoldable pub dispatch : ℕ → ℕ → M (Unit {0})
dispatch operation key_num =
    if operation == 1019
    then op_begin_concurrent_txn
    else if operation == 16
    then leave btr_unsupported_op
    else if leb 55 (base_op operation) && leb (base_op operation) 63
    then op_get_key operation key_num
    else by_base (base_op operation) key_num

abbrev pub status_of {ℓ} : {A : Type ℓ} → Result A → Option ℕ
status_of (ok a) = some btr_success
status_of (err code) = some code
status_of panic = none

abbrev set_err : Option ℕ → World → World
set_err none w = w
set_err (some rc) w = record w { last_error = rc }

unfoldable pub btrcall_internal : ℕ → ℕ → World → Option ℕ × World
unfolding dispatch base_op by_base
btrcall_internal operation key_num w =
    let (r, w') = dispatch operation key_num w in (status_of r, set_err (status_of r) w')
