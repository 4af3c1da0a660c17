-- ===== src/Tests/Sessions.antt =====
-- Concrete runs of the handle table and the transactions.
use wx_btrieve_sql_driver.Base.{
  All, [], arith, false, from_utf8_lossy, lookup, nat_eq, none, refl, some, text_eq, trim, trim_end,
  true, ◌++◌, ◌∷◌, ◌≡◌,
}
use wx_btrieve_sql_driver.Client.{abort_txn, execute_or, execute_with}
use wx_btrieve_sql_driver.Client.Discovery.{
  dir_from_path, get_table_meta_for_path, resolve_config, table_name_from_path,
}
use wx_btrieve_sql_driver.Ops.Closed.{handle_ops, handle_ops-Refuse}
use wx_btrieve_sql_driver.Ops.Currency.{
  HasNoCurrency, op_abort_txn-HasNoCurrency, op_begin_txn-op_stop,
}
use wx_btrieve_sql_driver.Ops.Freshness.{Reached, Reached-Unused, at_start, closed, opened}
use wx_btrieve_sql_driver.Ops.Lifecycle.{op_open-Opens}
use wx_btrieve_sql_driver.Ops.Session.{op_abort_txn, op_begin_txn, op_close, op_open, op_stop}
use wx_btrieve_sql_driver.Ops.Transactions.{Did, begin_op, run-Did, run-Refuses}
use wx_btrieve_sql_driver.Status.{btr_file_not_open, btr_txn_active}
use wx_btrieve_sql_driver.Tests.Fixtures.{sample_handle, sample_meta, sample_world, willing}
use wx_btrieve_sql_driver.World.{M, World, disconnect, done, err, ok}
use wx_btrieve_sql_driver.World.Handles.{keybuf_cstr, new_handle, posblk_key}

abbrev idle : World
idle = sample_world willing false

abbrev busy : World
busy = sample_world willing true

op_open_example :
    let (r, w') = op_open idle in
    (r ≡ ok tt)
    × (w'.sent ≡ [])
    × (posblk_key w' ≡ 8)
    × (lookup 7 w'.handles ≡ some sample_handle)
    × ((new_handle sample_meta (keybuf_cstr idle)).meta ≡ sample_meta)
    × HasNoCurrency (8, new_handle sample_meta (keybuf_cstr idle))
unfolding table_name_from_path keybuf_cstr from_utf8_lossy get_table_meta_for_path lookup trim
    trim_end dir_from_path resolve_config
op_open_example =
    op_open-Opens idle (7 ∷ 0 ∷ 0 ∷ 0 ∷ 0 ∷ []) sample_meta 7 refl (omega arith) (omega arith) refl

abbrev shut : World
shut = record idle { handles = [] }

handle_ops_example :
    All (λ (op : M (Unit {0})). op shut ≡ (err btr_file_not_open, shut)) (handle_ops 0)
unfolding lookup
handle_ops_example = handle_ops-Refuse 0 shut refl

run-Refuses_example : op_begin_txn busy ≡ (err btr_txn_active, busy)
run-Refuses_example = run-Refuses begin_op busy btr_txn_active refl

run-Did_example : Did begin_op idle (done tt) (op_begin_txn idle)
run-Did_example = run-Did begin_op idle refl

op_abort_txn_example : All HasNoCurrency (op_abort_txn busy).1.handles
unfolding op_abort_txn abort_txn execute_with execute_or
op_abort_txn_example = op_abort_txn-HasNoCurrency busy refl

op_stop_example :
    ((op_stop busy).0 ≡ ok tt)
    × ((op_stop busy).1.sent ≡ busy.sent ++ disconnect ∷ [])
    × ((op_stop busy).1.handles ≡ [])
    × ((op_begin_txn (op_stop busy).1).0 ≡ err btr_txn_active)
op_stop_example = op_begin_txn-op_stop busy refl

-- A second file is opened and closed again.
abbrev visit : Reached idle (op_close (op_open idle).1).1
visit = closed (opened at_start (omega arith))

Reached-Unused_example :
    let w = (op_close (op_open idle).1).1 in lookup w.handle_ctr w.handles ≡ none
Reached-Unused_example = Reached-Unused (omega arith, tt) visit
