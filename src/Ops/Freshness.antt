-- ===== src/Ops/Freshness.antt =====
-- ops/open.rs, close.rs and session.rs: the numbers of handles over a session.
use mathlib.Core.Path.{subst}
use wx_btrieve_sql_driver.Base.{
  All, Bool-cases, List, Option, Option-cases, Str, [], ap, arith, inl, inr, insert, lookup, modify,
  nat_beq_iff, nat_eq, none, refl, remove, some, sym, text_eq, ℕ, ◌%◌, ◌+◌, ◌<◌, ◌==◌, ◌^◌, ◌∙◌,
  ◌∷◌, ◌≡◌,
}
use wx_btrieve_sql_driver.Client.{reset_connection, set_sent}
use wx_btrieve_sql_driver.Client.Discovery.{get_table_meta_for_path, table_name_from_path}
use wx_btrieve_sql_driver.Ops.Keeps.{found_meta-Keeps}
use wx_btrieve_sql_driver.Ops.Session.{
  cleared_by_reset, found_meta, next_handle_id, op_close, op_open, op_reset, op_stop, start_handle,
  write_posblk,
}
use wx_btrieve_sql_driver.Schema.{TableMeta}
use wx_btrieve_sql_driver.Status.{btr_file_not_open}
use wx_btrieve_sql_driver.World.{
  Buffers, HandleEntry, Result, World, continue, err, ok, or_leave, panic, update, ◌>>◌,
}
use wx_btrieve_sql_driver.World.Handles.{
  alloc_handle, keybuf_cstr, modify_handle, new_handle, open_handle, posblk_key,
}

-- Every handle's number was given out before.
abbrev pub IdsBelow : World → Type 0
IdsBelow w = All (λ (e : ℕ × HandleEntry). e.0 < w.handle_ctr) w.handles

All-remove :
    (n k : ℕ) (hs : List (ℕ × HandleEntry))
    → All (λ (e : ℕ × HandleEntry). e.0 < n) hs
    → All (λ (e : ℕ × HandleEntry). e.0 < n) (remove k hs)
unfolding remove
All-remove n k [] a = tt
All-remove n k ((j, h) ∷ hs) a = elim (Bool-cases (j == k)) [
  | inl e ↦ rw e (All-remove n k hs a.1)
  | inr e ↦ rw e (a.0, All-remove n k hs a.1)
]

All-modify :
    (n k : ℕ) (f : HandleEntry → HandleEntry) (hs : List (ℕ × HandleEntry))
    → All (λ (e : ℕ × HandleEntry). e.0 < n) hs
    → All (λ (e : ℕ × HandleEntry). e.0 < n) (modify k f hs)
unfolding modify
All-modify n k f [] a = tt
All-modify n k f ((j, h) ∷ hs) a = elim (Bool-cases (j == k)) [
  | inl e ↦ rw e a
  | inr e ↦ rw e (a.0, All-modify n k f hs a.1)
]

All-later :
    (n : ℕ) (hs : List (ℕ × HandleEntry))
    → All (λ (e : ℕ × HandleEntry). e.0 < n) hs
    → All (λ (e : ℕ × HandleEntry). e.0 < n + 1) hs
All-later n [] a = tt
All-later n (e ∷ hs) a = (omega (arith, a.0), All-later n hs a.1)

abbrev Below : ℕ → List (ℕ × HandleEntry) → Type 0
Below n hs = All (λ (e : ℕ × HandleEntry). e.0 < n) hs

Below-subst : (n k : ℕ) (hs js : List (ℕ × HandleEntry)) → n ≡ k → hs ≡ js → Below n hs → Below k js
Below-subst n k hs js e d b = subst (λ m. Below m js) e (subst (Below n) d b)

write_posblk-kept :
    (id : ℕ) (w : World)
    → ((write_posblk id w).handles ≡ w.handles) × ((write_posblk id w).handle_ctr ≡ w.handle_ctr)
write_posblk-kept id w = elim (Option-cases w.posblk) [
  | inl e ↦ rw e (refl, refl)
  | inr m ↦ rw m.1 (refl, refl)
]

started :
    (path : Str) (m : TableMeta) (w : World)
    → w.handle_ctr + 1 < 2 ^ 32
    → IdsBelow w
    → IdsBelow (start_handle path m w).1
unfolding next_handle_id alloc_handle insert
started path m w room below =
    let id = w.handle_ctr in
    let v = record w { handle_ctr = (id + 1) % 2 ^ 32 } in
    let same = write_posblk-kept id v in
    let next : id + 1 ≡ (id + 1) % 2 ^ 32 = omega arith in
    let h = new_handle m path in
    Below-subst (id + 1) (write_posblk id v).handle_ctr ((id, h) ∷ remove id w.handles)
      ((id, h) ∷ remove id (write_posblk id v).handles) (next ∙ sym same.1)
      (ap (λ hs. (id, h) ∷ remove id hs) (sym same.0))
      (omega arith, All-remove (id + 1) id w.handles (All-later id w.handles below))

continue_started :
    (r : Result TableMeta) (path : Str) (w : World)
    → w.handle_ctr + 1 < 2 ^ 32
    → IdsBelow w
    → IdsBelow (continue r (start_handle path) w).1
continue_started (ok m) path w room below = started path m w room below
continue_started (err code) path w room below = below
continue_started panic path w room below = below

op_open-IdsBelow : (w : World) → w.handle_ctr + 1 < 2 ^ 32 → IdsBelow w → IdsBelow (op_open w).1
unfolding op_open
op_open-IdsBelow w room below =
    let path = keybuf_cstr w in
    let table = table_name_from_path w.paths path in
    let known = get_table_meta_for_path table path w in
    let found = found_meta table path known w in
    let same = (found_meta-Keeps table path known).kept w in
    continue_started found.0 path found.1 (subst (λ n. n + 1 < 2 ^ 32) (sym same.1) room) (
      Below-subst w.handle_ctr found.1.handle_ctr w.handles found.1.handles (sym same.1)
        (sym same.0) below)

closing :
    (o : Option HandleEntry) (key : ℕ) (w : World)
    → IdsBelow w
    → IdsBelow
        ((or_leave o btr_file_not_open >> update (λ v. record v { handles = remove key v.handles }))
          w).1
closing none key w below = below
closing (some h) key w below = All-remove w.handle_ctr key w.handles below

op_close-IdsBelow : (w : World) → IdsBelow w → IdsBelow (op_close w).1
unfolding op_close open_handle
op_close-IdsBelow w below = closing (lookup (posblk_key w) w.handles) (posblk_key w) w below

op_reset-IdsBelow : (w : World) → IdsBelow w → IdsBelow (op_reset w).1
unfolding op_reset modify_handle
op_reset-IdsBelow w below = All-modify w.handle_ctr (posblk_key w) cleared_by_reset w.handles below

op_stop-IdsBelow : (w : World) → IdsBelow (op_stop w).1
unfolding op_stop reset_connection set_sent
op_stop-IdsBelow w = tt

-- What a program can do with files: it opens, closes and resets them, stops, and moves its
-- pointers to other memory between the calls.
pub data Reached (start : World) : World → Type 0 where
  at_start : Reached start start
  opened : {w : World} → Reached start w → w.handle_ctr + 1 < 2 ^ 32 → Reached start (op_open w).1
  closed : {w : World} → Reached start w → Reached start (op_close w).1
  reset : {w : World} → Reached start w → Reached start (op_reset w).1
  halted : {w : World} → Reached start w → Reached start (op_stop w).1
  pointed : {w : World} → Reached start w → (b : Buffers) → Reached start (record w { buffers = b })

Reached-IdsBelow : {start w : World} → IdsBelow start → Reached start w → IdsBelow w
Reached-IdsBelow below at_start = below
Reached-IdsBelow below (opened {w} r room) = op_open-IdsBelow w room (Reached-IdsBelow below r)
Reached-IdsBelow below (closed {w} r) = op_close-IdsBelow w (Reached-IdsBelow below r)
Reached-IdsBelow below (reset {w} r) = op_reset-IdsBelow w (Reached-IdsBelow below r)
Reached-IdsBelow below (halted {w} r) = op_stop-IdsBelow w
Reached-IdsBelow below (pointed {w} r b) = Reached-IdsBelow below r

lookup-Below : (n : ℕ) (hs : List (ℕ × HandleEntry)) → Below n hs → lookup n hs ≡ none
unfolding lookup
lookup-Below n [] b = refl
lookup-Below n ((j, h) ∷ hs) b = elim (Bool-cases (j == n)) [
  | inl e ↦ absurd (omega (arith, (nat_beq_iff j n).0 e, b.0))
  | inr e ↦ rw e (lookup-Below n hs b.1)
]

-- From a world whose handles all have smaller numbers than its counter, after any sequence of
-- opens (the counter not yet at 2 ^ 32 - 1 at any of them), closes, resets and stops, with the
-- caller's buffers exchanged at will in between, the number that the next open gives out names
-- no handle.
pub Reached-Unused :
    {start w : World} → IdsBelow start → Reached start w → lookup w.handle_ctr w.handles ≡ none
Reached-Unused {start} {w} below r = lookup-Below w.handle_ctr w.handles (Reached-IdsBelow below r)
