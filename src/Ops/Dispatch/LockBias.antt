-- ===== src/Ops/Dispatch/LockBias.antt =====
-- ops/mod.rs `btrcall_internal`: opcodes with a lock bias of 100, 200, 300 or 400.
use wx_btrieve_sql_driver.Base.{
  Bool, ap, arith, false, if◌then◌else◌, inl, inr, leb, none, sym, true, ℕ, ◌&&◌, ◌+◌, ◌-◌, ◌<◌,
  ◌==◌, ◌∙◌, ◌≡◌, ◌⊎◌,
}
use wx_btrieve_sql_driver.Ops.Dispatch.{base_op, by_base, dispatch}
use wx_btrieve_sql_driver.Ops.Get.{get_key_base, op_get_key, without_record}
use wx_btrieve_sql_driver.Status.{btr_unsupported_op}
use wx_btrieve_sql_driver.World.{World, err}

abbrev pub IsBias : ℕ → Type 0
IsBias bias = (bias ≡ 100) ⊎ (bias ≡ 200) ⊎ (bias ≡ 300) ⊎ (bias ≡ 400)

base_op-bias :
    (operation bias : ℕ) → operation < 100 → IsBias bias → base_op (operation + bias) ≡ operation
unfolding base_op
base_op-bias operation bias h (inl e) = ground arith
base_op-bias operation bias h (inr (inl e)) = ground arith
base_op-bias operation bias h (inr (inr (inl e))) = ground arith
base_op-bias operation bias h (inr (inr (inr e))) = ground arith

base_op-plain : (operation : ℕ) → operation < 100 → base_op operation ≡ operation
unfolding base_op
base_op-plain operation h = ground arith

-- The operations 55 to 63.
abbrev pub is_get_key : ℕ → Bool
is_get_key base = leb 55 base && leb base 63

pick_last :
    {A : Type 0} (b c d : Bool) (x y z u : A)
    → b ≡ false
    → c ≡ false
    → d ≡ false
    → (if b then x else if c then y else if d then z else u) ≡ u
pick_last b c d x y z u h k l = ground (arith, h, k, l)

pick_third :
    {A : Type 0} (b c d : Bool) (x y z u : A)
    → b ≡ false
    → c ≡ false
    → d ≡ true
    → (if b then x else if c then y else if d then z else u) ≡ z
pick_third b c d x y z u h k l = ground (arith, h, k, l)

dispatch-by_base :
    (operation base key_num : ℕ)
    → base_op operation ≡ base
    → (operation == 1019) ≡ false
    → (operation == 16) ≡ false
    → is_get_key base ≡ false
    → dispatch operation key_num ≡ by_base base key_num
unfolding dispatch
dispatch-by_base operation base key_num e p q r =
    pick_last (operation == 1019) (operation == 16) (is_get_key (base_op operation)) _ _ _ _ p q
      (ap is_get_key e ∙ r)
    ∙ ap (λ b. by_base b key_num) e

dispatch-op_get_key :
    (operation base key_num : ℕ)
    → base_op operation ≡ base
    → (operation == 1019) ≡ false
    → (operation == 16) ≡ false
    → is_get_key base ≡ true
    → dispatch operation key_num ≡ op_get_key operation key_num
unfolding dispatch
dispatch-op_get_key operation base key_num e p q r =
    pick_third (operation == 1019) (operation == 16) (is_get_key (base_op operation)) _ _ _ _ p q
      (ap is_get_key e ∙ r)

not_special :
    (operation bias : ℕ)
    → operation < 100
    → IsBias bias
    → ((operation + bias == 1019) ≡ false) × ((operation + bias == 16) ≡ false)
not_special operation bias h (inl e) = (ground arith, ground arith)
not_special operation bias h (inr (inl e)) = (ground arith, ground arith)
not_special operation bias h (inr (inr (inl e))) = (ground arith, ground arith)
not_special operation bias h (inr (inr (inr e))) = (ground arith, ground arith)

-- An opcode below 100 other than 16 and the Get Key ones does the same with any lock bias as
-- without.
pub dispatch-bias :
    (operation bias key_num : ℕ)
    → operation < 100
    → (operation == 16) ≡ false
    → is_get_key operation ≡ false
    → IsBias bias
    → dispatch (operation + bias) key_num ≡ dispatch operation key_num
dispatch-bias operation bias key_num h n g b =
    let s = not_special operation bias h b in
    dispatch-by_base (operation + bias) operation key_num (base_op-bias operation bias h b) s.0 s.1
      g
    ∙ sym (
        dispatch-by_base operation operation key_num (base_op-plain operation h) (ground arith) n g)

get_key_base-over : (base key_num : ℕ) → 13 < base → get_key_base base key_num ≡ none
unfolding get_key_base
get_key_base-over base key_num h = ground arith

op_get_key-over :
    (operation key_num : ℕ) (w : World)
    → 63 < operation
    → op_get_key operation key_num w ≡ (err btr_unsupported_op, w)
unfolding op_get_key
op_get_key-over operation key_num w h =
    ap (λ o. without_record o w) (get_key_base-over (operation - 50) key_num (omega arith))

bias_over : (operation bias : ℕ) → is_get_key operation ≡ true → IsBias bias → 63 < operation + bias
bias_over operation bias g (inl e) = ground arith
bias_over operation bias g (inr (inl e)) = ground arith
bias_over operation bias g (inr (inr (inl e))) = ground arith
bias_over operation bias g (inr (inr (inr e))) = ground arith

-- A Get Key opcode with a lock bias is refused with status 20 and changes nothing.
pub dispatch-bias_get_key :
    (operation bias key_num : ℕ) (w : World)
    → is_get_key operation ≡ true
    → IsBias bias
    → dispatch (operation + bias) key_num w ≡ (err btr_unsupported_op, w)
dispatch-bias_get_key operation bias key_num w g b =
    let h : operation < 100 = ground arith in
    let s = not_special operation bias h b in
    ap (λ m. m w)
      (dispatch-op_get_key (operation + bias) operation key_num (base_op-bias operation bias h b)
        s.0 s.1 g)
    ∙ op_get_key-over (operation + bias) key_num w (bias_over operation bias g b)
