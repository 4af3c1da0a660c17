-- ===== src/Ops/Transactions.antt =====
-- ops/txn.rs over sql.rs `begin_txn`, `commit_txn` and `abort_txn`: the transaction flag.
use mathlib.Core.Path.{subst}
use wx_btrieve_sql_driver.Base.{
  Bool, Option, Str, [], ap, arith, codes, false, if◌then◌else◌, none, refl, some, sym, true, ℕ,
  ◌++◌, ◌∙◌, ◌∷◌, ◌≡◌,
}
use wx_btrieve_sql_driver.Client.{
  abort_txn, begin_statement, begin_txn, commit_txn, execute_with, outcome, rollback_statement,
  set_sent, set_txn,
}
use wx_btrieve_sql_driver.Dialect.{Backend}
use wx_btrieve_sql_driver.Ops.Session.{
  invalidate_all_currency, op_abort_txn, op_begin_concurrent_txn, op_begin_txn, op_end_txn,
}
use wx_btrieve_sql_driver.Status.{btr_no_txn, btr_txn_active, err_context_failure}
use wx_btrieve_sql_driver.World.{
  M, Outcome, Result, World, continue, done, err, execute, failed, from_result, ok, panic, settle,
  unreachable, update, ◌>>=◌, ◌>>◌,
}

pub data TxnOp : Type 0 where
  begin_op concurrent_op end_op abort_op : TxnOp

abbrev pub run : TxnOp → M (Unit {0})
run begin_op = op_begin_txn
run concurrent_op = op_begin_concurrent_txn
run end_op = op_end_txn
run abort_op = op_abort_txn

-- The status of an operation that the flag does not allow.
abbrev pub out_of_turn : TxnOp → Bool → Option ℕ
out_of_turn begin_op active = if active then some btr_txn_active else none
out_of_turn concurrent_op active = if active then some btr_txn_active else none
out_of_turn end_op active = if active then none else some btr_no_txn
out_of_turn abort_op active = if active then none else some btr_no_txn

pub begin-active :
    (iso : Str) (w : World) → w.txn_active ≡ true → begin_txn iso w ≡ (err btr_txn_active, w)
unfolding begin_txn
begin-active iso w h = rw h refl

end-idle : (w : World) → w.txn_active ≡ false → commit_txn w ≡ (err btr_no_txn, w)
unfolding commit_txn
end-idle w h = rw h refl

abort-idle : (w : World) → w.txn_active ≡ false → abort_txn w ≡ (err btr_no_txn, w)
unfolding abort_txn
abort-idle w h = rw h refl

when_true : (b : Bool) (c d : ℕ) → (if b then some c else none) ≡ some d → (b ≡ true) × (c ≡ d)
when_true b c d h = (ground arith, ground arith)

when_false : (b : Bool) (c d : ℕ) → (if b then none else some c) ≡ some d → (b ≡ false) × (c ≡ d)
when_false b c d h = (ground arith, ground arith)

-- A Begin inside a transaction leaves with status 37 and an End or Abort outside one with 39;
-- nothing is sent and nothing changes.
pub run-Refuses :
    (op : TxnOp) (w : World) (code : ℕ)
    → out_of_turn op w.txn_active ≡ some code
    → run op w ≡ (err code, w)
unfolding op_begin_txn op_begin_concurrent_txn op_end_txn op_abort_txn
run-Refuses begin_op w code h =
    let e = when_true w.txn_active btr_txn_active code h in
    begin-active (codes "SERIALIZABLE") w e.0 ∙ ap (λ c. (err c, w)) e.1
run-Refuses concurrent_op w code h =
    let e = when_true w.txn_active btr_txn_active code h in
    begin-active (codes "READ COMMITTED") w e.0 ∙ ap (λ c. (err c, w)) e.1
run-Refuses end_op w code h =
    let e = when_false w.txn_active btr_no_txn code h in end-idle w e.0 ∙ ap (λ c. (err c, w)) e.1
run-Refuses abort_op w code h =
    let e = when_false w.txn_active btr_no_txn code h in
    ap (λ (o : Result (Unit {0}) × World). continue o.0 (λ _. update invalidate_all_currency) o.1)
      (abort-idle w e.0)
    ∙ ap (λ c. (err c, w)) e.1

-- The state after an operation, and whether it succeeded, by the backend's answer.
abbrev answered {ℓ} : {A : Type ℓ} → Outcome A → Bool
answered (done a) = true
answered (unreachable c) = false
answered failed = false

abbrev pub flag_after : TxnOp → Bool → Bool
flag_after begin_op success = success
flag_after concurrent_op success = success
flag_after end_op success = false
flag_after abort_op success = false

-- The statement of an operation.
abbrev pub statement_of : TxnOp → Backend → Str
statement_of begin_op b = begin_statement b (codes "SERIALIZABLE")
statement_of concurrent_op b = begin_statement b (codes "READ COMMITTED")
statement_of end_op b = codes "COMMIT"
statement_of abort_op b = rollback_statement b

abbrev pub is_ok {ℓ} : {A : Type ℓ} → Result A → Bool
is_ok (ok a) = true
is_ok (err code) = false
is_ok panic = false

-- What an operation in its turn did, the backend having answered `o`.
abbrev pub Did : TxnOp → World → Outcome (Unit {0}) → Result (Unit {0}) × World → Type 0
Did op w o (r, w') =
    (w'.sent ≡ w.sent ++ execute (statement_of op w.settings.backend) [] ∷ [])
    × (w'.txn_active ≡ flag_after op (answered o))
    × (is_ok r ≡ answered o)

abbrev pub answer_to : TxnOp → World → Outcome (Unit {0})
answer_to op w = w.client.on_execute w.sent (statement_of op w.settings.backend) []

-- `execute_with`, once the backend has answered.
abbrev sent_with : Str → Outcome (Unit {0}) → M (Unit {0})
sent_with sql o w = (outcome err_context_failure o, set_sent (execute sql []) w)

begun :
    (iso : Str) (w : World) (o : Outcome (Unit {0}))
    → w.txn_active ≡ false
    → let (r, w') =
        (sent_with (begin_statement w.settings.backend iso) o >> update (set_txn true)) w in
      (w'.sent ≡ w.sent ++ execute (begin_statement w.settings.backend iso) [] ∷ [])
      × (w'.txn_active ≡ answered o)
      × (is_ok r ≡ answered o)
unfolding set_sent
begun iso w (done a) h = (refl, refl, refl)
begun iso w (unreachable c) h = (refl, h, refl)
begun iso w failed h = (refl, h, refl)

begin_idle :
    (iso : Str) (w : World)
    → w.txn_active ≡ false
    → begin_txn iso w
      ≡ (sent_with
              (begin_statement w.settings.backend iso)
              (w.client.on_execute w.sent (begin_statement w.settings.backend iso) [])
            >> update (set_txn true))
          w
unfolding begin_txn execute_with
begin_idle iso w h = rw h refl

abbrev closed_by : Str → Outcome (Unit {0}) → M (Unit {0})
closed_by sql o = do r ← settle (sent_with sql o); update (set_txn false); from_result r

ended :
    (sql : Str) (w : World) (o : Outcome (Unit {0}))
    → let (r, w') = closed_by sql o w in
      (w'.sent ≡ w.sent ++ execute sql [] ∷ []) × (w'.txn_active ≡ false) × (is_ok r ≡ answered o)
unfolding set_sent
ended sql w (done a) = (refl, refl, refl)
ended sql w (unreachable c) = (refl, refl, refl)
ended sql w failed = (refl, refl, refl)

-- Invalidating the currency of all handles touches neither.
invalidated :
    (sql : Str) (w : World) (o : Outcome (Unit {0}))
    → let (r, w') = (closed_by sql o >> update invalidate_all_currency) w in
      (w'.sent ≡ w.sent ++ execute sql [] ∷ []) × (w'.txn_active ≡ false) × (is_ok r ≡ answered o)
unfolding set_sent invalidate_all_currency
invalidated sql w (done a) = (refl, refl, refl)
invalidated sql w (unreachable c) = (refl, refl, refl)
invalidated sql w failed = (refl, refl, refl)

end_active :
    (w : World)
    → w.txn_active ≡ true
    → commit_txn w ≡ closed_by (codes "COMMIT") (w.client.on_execute w.sent (codes "COMMIT") []) w
unfolding commit_txn execute_with
end_active w h = rw h refl

abort_active :
    (w : World)
    → w.txn_active ≡ true
    → abort_txn w ≡ (
        let sql = rollback_statement w.settings.backend in
        closed_by sql (w.client.on_execute w.sent sql []) w)
unfolding abort_txn execute_with
abort_active w h = rw h refl

idle_of : (b : Bool) (c : ℕ) → (if b then some c else none) ≡ none → b ≡ false
idle_of b c h = ground arith

active_of : (b : Bool) (c : ℕ) → (if b then none else some c) ≡ none → b ≡ true
active_of b c h = ground arith

-- An operation in its turn sends exactly its one statement, succeeds exactly when the backend
-- answers it so, and leaves the flag set after a Begin that succeeded and clear after a Begin
-- that failed and after any End or Abort, whether that succeeded or not.
pub run-Did :
    (op : TxnOp) (w : World)
    → out_of_turn op w.txn_active ≡ none
    → Did op w (answer_to op w) (run op w)
unfolding op_begin_txn op_begin_concurrent_txn op_end_txn op_abort_txn
run-Did begin_op w h =
    let idle = idle_of w.txn_active btr_txn_active h in
    subst (Did begin_op w (answer_to begin_op w)) (sym (begin_idle (codes "SERIALIZABLE") w idle))
      (begun (codes "SERIALIZABLE") w (answer_to begin_op w) idle)
run-Did concurrent_op w h =
    let idle = idle_of w.txn_active btr_txn_active h in
    subst (Did concurrent_op w (answer_to concurrent_op w))
      (sym (begin_idle (codes "READ COMMITTED") w idle))
      (begun (codes "READ COMMITTED") w (answer_to concurrent_op w) idle)
run-Did end_op w h =
    subst (Did end_op w (answer_to end_op w))
      (sym (end_active w (active_of w.txn_active btr_no_txn h)))
      (ended (codes "COMMIT") w (answer_to end_op w))
run-Did abort_op w h =
    subst (Did abort_op w (answer_to abort_op w))
      (sym (
        ap
          (λ (o : Result (Unit {0}) × World).
            continue o.0 (λ _. update invalidate_all_currency) o.1)
          (abort_active w (active_of w.txn_active btr_no_txn h))))
      (invalidated (rollback_statement w.settings.backend) w (answer_to abort_op w))
