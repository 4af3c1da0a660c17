-- ===== src/Ops/Closed.antt =====
-- The operations on a position block that names no open handle.
use wx_btrieve_sql_driver.Base.{All, List, [], ap, lookup, nat_eq, none, text_eq, ℕ, ◌∷◌, ◌≡◌}
use wx_btrieve_sql_driver.Ops.Extended.{run_extended, run_step_extended}
use wx_btrieve_sql_driver.Ops.Get.{
  op_get_by_key, op_get_end, op_get_equal, op_get_first, op_get_greater, op_get_greater_or_equal,
  op_get_last, op_get_less, op_get_less_or_equal, op_get_next, op_get_prev, op_get_walk,
}
use wx_btrieve_sql_driver.Ops.Index.{op_create_index, op_drop_index}
use wx_btrieve_sql_driver.Ops.Insert.{op_insert, op_insert_extended}
use wx_btrieve_sql_driver.Ops.Position.{op_get_direct, op_get_percent}
use wx_btrieve_sql_driver.Ops.Session.{op_clear_owner, op_close, op_set_owner, op_unlock}
use wx_btrieve_sql_driver.Ops.Stat.{op_stat_extended}
use wx_btrieve_sql_driver.Ops.Step.{op_step_next, op_step_prev, step_cached}
use wx_btrieve_sql_driver.Ops.Update.{op_delete, op_update, op_update_chunk}
use wx_btrieve_sql_driver.Schema.{TableMeta}
use wx_btrieve_sql_driver.Sql.Columns.{backward, forward}
use wx_btrieve_sql_driver.Status.{btr_file_not_open}
use wx_btrieve_sql_driver.World.{HandleEntry, M, World, err, or_leave, pure, ◌>>=◌}
use wx_btrieve_sql_driver.World.Handles.{clone_table_meta, open_handle, posblk_key}

refused :
    {A : Type 0} (hid : ℕ) (k : HandleEntry → M A) (w : World)
    → lookup hid w.handles ≡ none
    → (open_handle hid >>= k) w ≡ (err btr_file_not_open, w)
unfolding open_handle
refused hid k w h = ap (λ o. (or_leave o btr_file_not_open >>= k) w) h

refused_meta :
    {A : Type 0} (hid : ℕ) (k : TableMeta → M A) (w : World)
    → lookup hid w.handles ≡ none
    → (clone_table_meta hid >>= k) w ≡ (err btr_file_not_open, w)
unfolding clone_table_meta open_handle
refused_meta hid k w h = ap (λ o. ((or_leave o btr_file_not_open >>= λ e. pure e.meta) >>= k) w) h

infixr 5 ◌⊕◌
◌⊕◌ : {A B : Type 0} → A → B → A × B
a ⊕ b = (a, b)

-- The handlers that take a handle: all but open, stop, reset, version, the directory and the
-- transaction ones, Create, Stat, Get Position, Step First and Last, and the percentage ones.
abbrev pub handle_ops : ℕ → List (M (Unit {0}))
handle_ops key_num =
    op_close
    ∷ op_unlock
    ∷ op_set_owner
    ∷ op_clear_owner
    ∷ op_get_equal key_num
    ∷ op_get_greater key_num
    ∷ op_get_greater_or_equal key_num
    ∷ op_get_less key_num
    ∷ op_get_less_or_equal key_num
    ∷ op_get_first key_num
    ∷ op_get_last key_num
    ∷ op_get_next
    ∷ op_get_prev
    ∷ op_step_next
    ∷ op_step_prev
    ∷ op_update
    ∷ op_delete
    ∷ op_update_chunk
    ∷ op_stat_extended
    ∷ run_extended forward
    ∷ run_extended backward
    ∷ run_step_extended forward
    ∷ run_step_extended backward
    ∷ op_insert
    ∷ op_insert_extended
    ∷ op_get_direct
    ∷ op_create_index
    ∷ op_drop_index key_num
    ∷ op_get_percent
    ∷ []

-- While the position block names no open handle, each of these operations leaves with status 3,
-- sends nothing and changes neither the state nor the caller's buffers.
pub handle_ops-Refuse :
    (key_num : ℕ) (w : World)
    → lookup (posblk_key w) w.handles ≡ none
    → All (λ (op : M (Unit {0})). op w ≡ (err btr_file_not_open, w)) (handle_ops key_num)
unfolding op_create_index op_drop_index op_get_percent op_insert op_insert_extended op_get_direct
    op_close op_unlock op_set_owner op_clear_owner op_get_equal op_get_greater
    op_get_greater_or_equal op_get_less op_get_less_or_equal op_get_first op_get_last op_get_next
    op_get_prev op_step_next op_step_prev op_get_by_key op_get_end op_get_walk step_cached op_update
    op_delete op_update_chunk op_stat_extended run_extended run_step_extended
handle_ops-Refuse key_num w h =
    let hid = posblk_key w in
    refused hid _ w h
    ⊕ refused hid _ w h
    ⊕ refused hid _ w h
    ⊕ refused hid _ w h
    ⊕ refused hid _ w h
    ⊕ refused hid _ w h
    ⊕ refused hid _ w h
    ⊕ refused hid _ w h
    ⊕ refused hid _ w h
    ⊕ refused hid _ w h
    ⊕ refused hid _ w h
    ⊕ refused hid _ w h
    ⊕ refused hid _ w h
    ⊕ refused hid _ w h
    ⊕ refused hid _ w h
    ⊕ refused hid _ w h
    ⊕ refused hid _ w h
    ⊕ refused hid _ w h
    ⊕ refused hid _ w h
    ⊕ refused hid _ w h
    ⊕ refused hid _ w h
    ⊕ refused hid _ w h
    ⊕ refused hid _ w h
    ⊕ refused_meta hid _ w h
    ⊕ refused_meta hid _ w h
    ⊕ refused_meta hid _ w h
    ⊕ refused_meta hid _ w h
    ⊕ refused_meta hid _ w h
    ⊕ refused hid _ w h
    ⊕ tt
