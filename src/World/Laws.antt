-- ===== src/World/Laws.antt =====
-- What the buffer and handle helpers leave alone.
use wx_btrieve_sql_driver.Base.{
  List, Option-cases, inl, inr, lookup, lookup-modify_self, nat_eq, refl, some, text_eq, ℕ, ◌∙◌,
  ◌≡◌,
}
use wx_btrieve_sql_driver.World.{HandleEntry, Request, World}
use wx_btrieve_sql_driver.World.Handles.{modify_handle, posblk_key, write_data}

-- The parts of the state that writing to the caller's data buffer does not touch.
abbrev pub SameSession : World → World → Type 0
SameSession v w =
    (v.handles ≡ w.handles)
    × (v.sent ≡ w.sent)
    × (posblk_key v ≡ posblk_key w)
    × (v.floats ≡ w.floats)
    × (v.settings ≡ w.settings)
    × (v.client ≡ w.client)

pub write_data-SameSession : (out : List ℕ) (w : World) → SameSession (write_data out w) w
unfolding write_data posblk_key
write_data-SameSession out w = elim (Option-cases w.data_buf) [
  | inl e ↦ rw e (refl, refl, refl, refl, refl, refl)
  | inr d ↦ elim (Option-cases w.data_len) [
    | inl e ↦ rw (d.1, e) (refl, refl, refl, refl, refl, refl)
    | inr c ↦ rw (d.1, c.1) (refl, refl, refl, refl, refl, refl)
  ]
]

pub lookup-modify_handle :
    (hid : ℕ) (f : HandleEntry → HandleEntry) (w : World) (h : HandleEntry)
    → lookup hid w.handles ≡ some h
    → lookup hid (modify_handle hid f w).handles ≡ some (f h)
unfolding modify_handle
lookup-modify_handle hid f w h e = lookup-modify_self hid f w.handles ∙ rw e refl

-- What is written to the caller's buffer does not depend on the handles.
pub write_data-modify_handle :
    (out : List ℕ) (hid : ℕ) (f : HandleEntry → HandleEntry) (w : World)
    → (write_data out (modify_handle hid f w)).buffers ≡ (write_data out w).buffers
unfolding write_data modify_handle
write_data-modify_handle out hid f w = elim (Option-cases w.data_buf) [
  | inl e ↦ rw e refl
  | inr d ↦ elim (Option-cases w.data_len) [ inl e ↦ rw (d.1, e) refl | inr c ↦ rw (d.1, c.1) refl ]
]

-- Nor on what was sent.
pub write_data-sent :
    (out : List ℕ) (requests : List Request) (w : World)
    → (write_data out (record w { sent = requests })).buffers ≡ (write_data out w).buffers
unfolding write_data
write_data-sent out requests w = elim (Option-cases w.data_buf) [
  | inl e ↦ rw e refl
  | inr d ↦ elim (Option-cases w.data_len) [ inl e ↦ rw (d.1, e) refl | inr c ↦ rw (d.1, c.1) refl ]
]
