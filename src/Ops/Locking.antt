-- ===== src/Ops/Locking.antt =====
-- ops/helpers.rs `with_row_lock` over sql.rs `lock_row` and `unlock_row`: the statements that
-- change a row, between the row's lock and its release.
use wx_btrieve_sql_driver.Base.{
  List, Str, [], ap, lookup, nat_eq, refl, some, text_eq, ℕ, ℤ, ◌++◌, ◌∙◌, ◌∷◌, ◌≡◌,
}
use wx_btrieve_sql_driver.Client.{
  execute_or, execute_with, lock_row, lock_statement, outcome, set_sent, unlock_row,
  unlock_statement,
}
use wx_btrieve_sql_driver.Dialect.{Backend, mssql, postgres, sqlite}
use wx_btrieve_sql_driver.Ops.Fetch.{get_lock_prefix, prefix_or_resolve, with_row_lock}
use wx_btrieve_sql_driver.SqlParam.{SqlValue}
use wx_btrieve_sql_driver.Status.{btr_file_not_open, btr_record_locked, err_context_failure}
use wx_btrieve_sql_driver.World.{
  HandleEntry, M, Outcome, Request, Result, World, continue, done, execute, failed, from_result, ok,
  or_leave, settle, settled, unreachable, ◌>>=◌, ◌>>◌,
}
use wx_btrieve_sql_driver.World.Handles.{open_handle}

-- The backends that have advisory locks.
abbrev pub HasLocks : Backend → Type 0
HasLocks mssql = Unit {0}
HasLocks postgres = Unit {0}
HasLocks sqlite = ⊥

settled-outcome :
    (code : ℕ) (o : Outcome (Unit {0})) (w : World)
    → settled (outcome code o) w ≡ (ok (outcome code o), w)
settled-outcome code (done a) w = refl
settled-outcome code (unreachable c) w = refl
settled-outcome code failed w = refl

settle-execute_or :
    (code : ℕ) (sql : Str) (params : List SqlValue) (w : World)
    → settle (execute_or code sql params) w
      ≡ (ok (outcome code (w.client.on_execute w.sent sql params)), set_sent (execute sql params) w)
unfolding execute_or
settle-execute_or code sql params w = settled-outcome code _ (set_sent (execute sql params) w)

lock_row-locks :
    (b : Backend) (p : Str) (rn : ℤ) (w : World)
    → HasLocks b
    → w.settings.backend ≡ b
    → lock_row p rn w ≡ execute_or btr_record_locked (lock_statement b p rn) [] w
unfolding lock_row
lock_row-locks mssql p rn w l e = rw e refl
lock_row-locks postgres p rn w l e = rw e refl
lock_row-locks sqlite p rn w l e = absurd l

unlock_row-locks :
    (b : Backend) (p : Str) (rn : ℤ) (w : World)
    → HasLocks b
    → w.settings.backend ≡ b
    → unlock_row p rn w ≡ execute_or err_context_failure (unlock_statement b p rn) [] w
unfolding unlock_row
unlock_row-locks mssql p rn w l e = rw e refl
unlock_row-locks postgres p rn w l e = rw e refl
unlock_row-locks sqlite p rn w l e = absurd l

known_prefix :
    (hid : ℕ) (w : World) (h : HandleEntry) (p : Str)
    → lookup hid w.handles ≡ some h
    → h.lock_prefix ≡ some p
    → get_lock_prefix hid w ≡ (ok p, w)
unfolding get_lock_prefix open_handle
known_prefix hid w h p e k =
    ap (λ o. (or_leave o btr_file_not_open >>= λ h. prefix_or_resolve hid h.meta h.lock_prefix) w) e
    ∙ ap (λ o. prefix_or_resolve hid h.meta o w) k

-- The statements of a change to a row.
abbrev pub lock_sent : Backend → Str → ℤ → Request
lock_sent b p rn = execute (lock_statement b p rn) []

abbrev pub unlock_sent : Backend → Str → ℤ → Request
unlock_sent b p rn = execute (unlock_statement b p rn) []

abbrev under_lock : Str → ℤ → Str → List SqlValue → M (Unit {0})
under_lock p rn sql params = do
  rc ← settle (execute_with sql params)
  settle (unlock_row p rn)
  from_result rc

with_row_lock-known :
    (hid : ℕ) (rn : ℤ) (sql : Str) (params : List SqlValue) (w : World) (h : HandleEntry)
    → (p : Str) → lookup hid w.handles ≡ some h
    → h.lock_prefix ≡ some p
    → with_row_lock hid rn sql params w ≡ (lock_row p rn >> under_lock p rn sql params) w
unfolding with_row_lock
with_row_lock-known hid rn sql params w h p e k =
    ap
      (λ (o : Result Str × World).
        continue o.0 (λ q. lock_row q rn >> under_lock q rn sql params) o.1)
      (known_prefix hid w h p e k)

-- The row's lock granted: whatever the statement gives and whatever the release gives, the
-- statement and then the release are sent, and the statement's own result is returned.
under_lock_lem :
    (b : Backend) (p : Str) (rn : ℤ) (sql : Str) (params : List SqlValue) (w : World)
    → HasLocks b
    → w.settings.backend ≡ b
    → under_lock p rn sql params w ≡ (
      outcome err_context_failure (w.client.on_execute w.sent sql params),
      set_sent (unlock_sent b p rn) (set_sent (execute sql params) w),
    )
unfolding execute_with set_sent
under_lock_lem b p rn sql params w l e =
    let rc = outcome err_context_failure (w.client.on_execute w.sent sql params) in
    let w₁ = set_sent (execute sql params) w in
    ap
      (λ (x : Result (Result (Unit {0})) × World).
        continue x.0 (λ r. settle (unlock_row p rn) >> from_result r) x.1)
      (settle-execute_or err_context_failure sql params w)
    ∙ ap (λ (x : Result (Result (Unit {0})) × World). continue x.0 (λ _. from_result rc) x.1)
        (ap (λ (o : Result (Unit {0}) × World). settled o.0 o.1) (unlock_row-locks b p rn w₁ l e)
          ∙ settle-execute_or err_context_failure (unlock_statement b p rn) [] w₁)

-- The state in which a lock has been granted.
abbrev pub locked : Backend → Str → ℤ → World → World
locked b p rn w = record w { sent = w.sent ++ lock_sent b p rn ∷ [] }

-- On a backend with locks and a handle whose lock prefix is known: when the row's lock is granted,
-- exactly the lock, the statement and the release are sent, in this order and whether the statement
-- succeeds or not; the result is the statement's own, not the release's; no handle changes.
pub with_row_lock-Brackets :
    (b : Backend) (hid : ℕ) (rn : ℤ) (sql : Str) (params : List SqlValue) (w : World)
    → (h : HandleEntry) (p : Str) → HasLocks b
    → w.settings.backend ≡ b
    → lookup hid w.handles ≡ some h
    → h.lock_prefix ≡ some p
    → w.client.on_execute w.sent (lock_statement b p rn) [] ≡ done tt
    → with_row_lock hid rn sql params w ≡ (
      outcome err_context_failure
          (w.client.on_execute (w.sent ++ lock_sent b p rn ∷ []) sql params),
      record w {
        sent =
            ((w.sent ++ lock_sent b p rn ∷ []) ++ execute sql params ∷ [])
            ++ unlock_sent b p rn ∷ [];
      },
    )
unfolding execute_or set_sent
with_row_lock-Brackets b hid rn sql params w h p l e open_at k granted =
    let rest = under_lock p rn sql params in
    with_row_lock-known hid rn sql params w h p open_at k
    ∙ ap (λ (o : Result (Unit {0}) × World). continue o.0 (λ _. rest) o.1)
        (lock_row-locks b p rn w l e)
    ∙ ap (λ o. continue (outcome btr_record_locked o) (λ _. rest) (locked b p rn w)) granted
    ∙ under_lock_lem b p rn sql params (locked b p rn w) l e
