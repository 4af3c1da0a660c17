-- ===== src/Ops/Lifecycle.antt =====
-- ops/open.rs and ops/close.rs: position blocks name open handles.
use mathlib.Core.Path.{subst}
use wx_btrieve_sql_driver.Base.{
  List, Option, ap, arith, from_le-to_le_4, from_le_bytes, if◌then◌else◌, insert, length,
  length-to_le_bytes, lookup, lookup-insert, lookup-remove, nat_eq, none, refl, remove,
  slice-splice_self, some, splice, sym, take, text_eq, to_le_bytes, ℕ, ◌%◌, ◌+◌, ◌<◌, ◌==◌, ◌^◌,
  ◌∙◌, ◌≡◌, ◌≤◌,
}
use wx_btrieve_sql_driver.Client.Discovery.{get_table_meta_for_path, table_name_from_path}
use wx_btrieve_sql_driver.Ops.Currency.{HasNoCurrency}
use wx_btrieve_sql_driver.Ops.Session.{
  found_meta, next_handle_id, op_close, op_open, start_handle, write_posblk,
}
use wx_btrieve_sql_driver.Schema.{TableMeta}
use wx_btrieve_sql_driver.Status.{btr_file_not_open}
use wx_btrieve_sql_driver.World.{HandleEntry, Result, World, ok, or_leave, update, ◌>>=◌, ◌>>◌}
use wx_btrieve_sql_driver.World.Handles.{
  alloc_handle, keybuf_cstr, new_handle, open_handle, posblk_key,
}

le_head :
    (id : ℕ) (mem : List ℕ)
    → 4 ≤ length mem
    → id < 2 ^ 32
    → from_le_bytes (take 4 (splice 0 (to_le_bytes 4 id) mem)) ≡ id
le_head id mem h small =
    ap from_le_bytes
      (slice-splice_self 0 (to_le_bytes 4 id) mem (omega (arith, length-to_le_bytes 4 id)))
    ∙ from_le-to_le_4 id
    ∙ omega arith

-- The world after an open.
abbrev opened : World → TableMeta → World
opened w m =
    let w₁ = write_posblk w.handle_ctr (record w { handle_ctr = (w.handle_ctr + 1) % 2 ^ 32 }) in
    alloc_handle w.handle_ctr m (keybuf_cstr w) w₁

op_open-known :
    (w : World) (m : TableMeta)
    → get_table_meta_for_path (table_name_from_path w.paths (keybuf_cstr w)) (keybuf_cstr w) w
      ≡ some m
    → op_open w ≡ (ok tt, opened w m)
unfolding op_open next_handle_id alloc_handle
op_open-known w m known =
    let path = keybuf_cstr w in
    let table = table_name_from_path w.paths path in
    ap (λ o. (found_meta table path o >>= start_handle path) w) known

abbrev after_open : World → TableMeta → List ℕ → World
after_open w m mem = record w {
  handle_ctr = (w.handle_ctr + 1) % 2 ^ 32;
  handles = insert w.handle_ctr (new_handle m (keybuf_cstr w)) w.handles;
  buffers = record w.buffers { posblk = some (splice 0 (to_le_bytes 4 w.handle_ctr) mem) };
}

written :
    (w : World) (m : TableMeta) (mem : List ℕ)
    → w.posblk ≡ some mem
    → opened w m ≡ after_open w m mem
unfolding alloc_handle
written w m mem blk = rw blk refl

-- A file whose table is registered, and a position block of at least 4 bytes: `op_open` succeeds
-- without a statement, the position block then names the next handle, that handle holds the
-- table's metadata and no currency, and every other handle is as it was.
pub op_open-Opens :
    (w : World) (mem : List ℕ) (m : TableMeta) (j : ℕ)
    → w.posblk ≡ some mem
    → 4 ≤ length mem
    → w.handle_ctr < 2 ^ 32
    → get_table_meta_for_path (table_name_from_path w.paths (keybuf_cstr w)) (keybuf_cstr w) w
      ≡ some m
    → let (r, w') = op_open w in
      (r ≡ ok tt)
      × (w'.sent ≡ w.sent)
      × (posblk_key w' ≡ w.handle_ctr)
      × (lookup j w'.handles
          ≡ (if w.handle_ctr == j then some (new_handle m (keybuf_cstr w)) else lookup j w.handles))
      × ((new_handle m (keybuf_cstr w)).meta ≡ m)
      × HasNoCurrency (w.handle_ctr, new_handle m (keybuf_cstr w))
unfolding posblk_key
op_open-Opens w mem m j blk long small known =
    let e : op_open w ≡ (ok tt, after_open w m mem) =
      op_open-known w m known ∙ ap (λ v. (ok tt, v)) (written w m mem blk) in
    subst
      (λ (o : Result (Unit {0}) × World).
        (o.0 ≡ ok tt)
        × (o.1.sent ≡ w.sent)
        × (posblk_key o.1 ≡ w.handle_ctr)
        × (lookup j o.1.handles ≡ (
            if w.handle_ctr == j then some (new_handle m (keybuf_cstr w)) else lookup j w.handles))
        × ((new_handle m (keybuf_cstr w)).meta ≡ m)
        × HasNoCurrency (w.handle_ctr, new_handle m (keybuf_cstr w)))
      (sym e)
      (
        refl,
        refl,
        le_head w.handle_ctr mem long small,
        lookup-insert w.handle_ctr j _ w.handles,
        refl,
        (refl, refl, refl, refl, refl),
      )

-- `op_close` on an open handle removes it and no other, and sends nothing.
pub op_close-Closes :
    (w : World) (h : HandleEntry) (j : ℕ)
    → lookup (posblk_key w) w.handles ≡ some h
    → let (r, w') = op_close w in
      (r ≡ ok tt)
      × (w'.sent ≡ w.sent)
      × (lookup j w'.handles ≡ (if posblk_key w == j then none else lookup j w.handles))
unfolding op_close open_handle
op_close-Closes w h j is_open =
    let key = posblk_key w in
    let out = λ (o : Option HandleEntry).
      (or_leave o btr_file_not_open >> update (λ w. record w { handles = remove key w.handles }))
        w in
    subst
      (λ (o : Result (Unit {0}) × World).
        (o.0 ≡ ok tt)
        × (o.1.sent ≡ w.sent)
        × (lookup j o.1.handles ≡ (if key == j then none else lookup j w.handles)))
      (sym (ap out is_open)) (refl, refl, lookup-remove key j w.handles)
