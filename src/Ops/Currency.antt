-- ===== src/Ops/Currency.antt =====
-- ops/txn.rs and session.rs: what a transaction's end and a Stop leave of the session.
use mathlib.Core.Path.{subst}
use wx_btrieve_sql_driver.Base.{
  All, List, [], ap, codes, map, none, refl, sym, true, ℕ, ◌++◌, ◌∷◌, ◌≡◌,
}
use wx_btrieve_sql_driver.Client.{abort_txn, reset_connection, set_sent}
use wx_btrieve_sql_driver.Ops.Session.{
  invalidate_all_currency, op_abort_txn, op_begin_txn, op_stop, without_currency,
}
use wx_btrieve_sql_driver.Ops.Transactions.{begin-active}
use wx_btrieve_sql_driver.Status.{btr_txn_active}
use wx_btrieve_sql_driver.World.{
  HandleEntry, Result, World, continue, disconnect, err, ok, panic, update,
}

-- A handle with no current record, no walk and no cached rows.
abbrev pub HasNoCurrency : ℕ × HandleEntry → Type 0
HasNoCurrency (hid, h) =
    (h.last_recnum ≡ none)
    × (h.step_last_recnum ≡ none)
    × (h.get_last_recnum ≡ none)
    × (h.get_last_keys ≡ [])
    × (h.step_cache ≡ [])

all_without :
    (hs : List (ℕ × HandleEntry)) → All HasNoCurrency (map (λ e. (e.0, without_currency e.1)) hs)
all_without [] = tt
all_without ((hid, h) ∷ hs) = ((refl, refl, refl, refl, refl), all_without hs)

after_ok :
    (f : World → World) (o : Result (Unit {0}) × World)
    → (continue o.0 (λ _. update f) o.1).0 ≡ ok tt
    → (continue o.0 (λ _. update f) o.1).1 ≡ f o.1
after_ok f (ok a, v) h = refl
after_ok f (err code, v) h = absurd (cc)
after_ok f (panic, v) h = absurd (cc)

-- After an Abort that succeeded no handle has a current record, a walk to continue or cached
-- rows.
pub op_abort_txn-HasNoCurrency :
    (w : World) → (op_abort_txn w).0 ≡ ok tt → All HasNoCurrency (op_abort_txn w).1.handles
unfolding op_abort_txn invalidate_all_currency
op_abort_txn-HasNoCurrency w h =
    subst (λ (v : World). All HasNoCurrency v.handles)
      (sym (after_ok invalidate_all_currency (abort_txn w) h)) (all_without (abort_txn w).1.handles)

-- Stop succeeds, and its one request drops the connection; it leaves no handle open but keeps the
-- transaction flag: a Begin after a Stop inside a transaction is refused with status 37.
pub op_begin_txn-op_stop :
    (w : World)
    → w.txn_active ≡ true
    → ((op_stop w).0 ≡ ok tt)
      × ((op_stop w).1.sent ≡ w.sent ++ disconnect ∷ [])
      × ((op_stop w).1.handles ≡ [])
      × ((op_begin_txn (op_stop w).1).0 ≡ err btr_txn_active)
unfolding op_stop reset_connection set_sent op_begin_txn
op_begin_txn-op_stop w h = (
  refl,
  refl,
  refl,
  ap (λ (o : Result (Unit {0}) × World). o.0) (begin-active (codes "SERIALIZABLE") (op_stop w).1 h),
)
