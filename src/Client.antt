-- ===== src/Client.antt =====
-- crates/wxbtrv-core/src/sql.rs: statements sent to the backend, transactions and row locks. The
-- connection cell and the three client crates are the `Client` of the world.
pub mod Discovery
use Prim.Native.Nat.{bit_xor}
use wx_btrieve_sql_driver.Base.{
  Bool, List, Option, Str, [], and_then, as_bytes, codes, false, find, first, if◌then◌else◌,
  is_empty, length, none, not, replace_char, show_int, signed, some, str_eq, take,
  to_ascii_uppercase, to_le_bytes, to_word, true, unwrap_or, ℕ, ℤ, ◌%◌, ◌*◌, ◌++◌, ◌+◌, ◌<◌, ◌^◌,
  ◌||◌, ◌∷◌,
}
use wx_btrieve_sql_driver.Dialect.{Backend, begin_sql, mssql, postgres, sqlite}
use wx_btrieve_sql_driver.SqlParam.{SqlValue}
use wx_btrieve_sql_driver.Status.{
  btr_key_not_found, btr_no_txn, btr_record_locked, btr_txn_active, err_context_failure,
  err_context_setup,
}
use wx_btrieve_sql_driver.World.{
  M, Outcome, Request, Result, World, disconnect, done, err, execute, failed, fetch, from_result,
  gets, leave_if, ok, or_leave, pure, settle, unreachable, update, ◌>>=◌, ◌>>◌,
}

unfoldable pub set_sent : Request → World → World
set_sent r w = record w { sent = w.sent ++ r ∷ [] }

abbrev pub outcome {ℓ} : {A : Type ℓ} → ℕ → Outcome A → Result A
outcome code (done a) = ok a
outcome code (unreachable c) = err c
outcome code failed = err code

-- A statement with no rows; an error of the statement becomes `code`.
unfoldable pub execute_or : ℕ → Str → List SqlValue → M (Unit {0})
unfolding set_sent
execute_or code sql params w =
    (outcome code (w.client.on_execute w.sent sql params), set_sent (execute sql params) w)

unfoldable pub execute_with : Str → List SqlValue → M (Unit {0})
unfolding execute_or
execute_with sql params = execute_or err_context_failure sql params

unfoldable pub fetch_with : Str → List SqlValue → ℕ → ℕ → M (List (List Str))
unfolding set_sent
fetch_with sql params n_cols limit w = (
  outcome err_context_failure (w.client.on_fetch w.sent sql params n_cols limit),
  set_sent (fetch sql params n_cols limit) w,
)

-- `rows.pop()`
abbrev pub last_row : List (List Str) → Option (List Str)
last_row [] = none
last_row (r ∷ []) = some r
last_row (r ∷ s ∷ rest) = last_row (s ∷ rest)

unfoldable pub fetch_one_row : Str → ℕ → M (List Str)
unfolding fetch_with
fetch_one_row sql n_cols = do
  rows ← fetch_with sql [] n_cols 1
  or_leave (last_row rows) btr_key_not_found

unfoldable pub reset_connection : M (Unit {0})
unfolding set_sent
reset_connection = update (set_sent disconnect)

abbrev isolation_of : Str → Str
isolation_of name =
    let upper = to_ascii_uppercase name in
    let known =
      codes "READ UNCOMMITTED"
      ∷ codes "READ COMMITTED"
      ∷ codes "REPEATABLE READ"
      ∷ codes "SERIALIZABLE"
      ∷ codes "SNAPSHOT"
      ∷ [] in
    unwrap_or (find (λ s. str_eq upper s) known) (codes "READ COMMITTED")

abbrev pub begin_statement : Backend → Str → Str
begin_statement mssql iso =
    codes "SET TRANSACTION ISOLATION LEVEL " ++ isolation_of iso ++ codes "; BEGIN TRANSACTION;"
begin_statement postgres iso = begin_sql postgres
begin_statement sqlite iso = begin_sql sqlite

abbrev pub rollback_statement : Backend → Str
rollback_statement mssql = codes "IF @@TRANCOUNT > 0 ROLLBACK TRANSACTION;"
rollback_statement postgres = codes "ROLLBACK"
rollback_statement sqlite = codes "ROLLBACK"

abbrev pub set_txn : Bool → World → World
set_txn active w = record w { txn_active = active }

unfoldable pub begin_txn : Str → M (Unit {0})
unfolding execute_with
begin_txn isolation = do
  active ← gets (λ w. w.txn_active)
  leave_if active btr_txn_active
  b ← gets (λ w. w.settings.backend)
  execute_with (begin_statement b isolation) []
  update (set_txn true)

-- `TXN_ACTIVE` is cleared whatever the statement gave.
abbrev end_with : Str → M (Unit {0})
end_with sql = do r ← settle (execute_with sql []); update (set_txn false); from_result r

unfoldable pub commit_txn : M (Unit {0})
unfolding execute_with
commit_txn = do
  active ← gets (λ w. w.txn_active)
  leave_if (not active) btr_no_txn
  end_with (codes "COMMIT")

unfoldable pub abort_txn : M (Unit {0})
unfolding execute_with
abort_txn = do
  active ← gets (λ w. w.txn_active)
  leave_if (not active) btr_no_txn
  b ← gets (λ w. w.settings.backend)
  end_with (rollback_statement b)

abbrev pub quoted : Str → Str
quoted s = replace_char 39 (39 ∷ 39 ∷ []) s

abbrev contains : Str → Str → Bool
contains pat [] = is_empty pat
contains pat (c ∷ cs) = str_eq pat (take (length pat) (c ∷ cs)) || contains pat cs

abbrev usable_prefix : Str → Option Str
usable_prefix s = if is_empty s || contains (codes "NULL") s then none else some s

-- The first cell of the first row.
abbrev pub first_cell : List (List Str) → Option Str
first_cell rows = and_then (first rows) first

abbrev mssql_prefix : Str → Str → M Str
mssql_prefix db fq = do
  rows ←
      fetch_with
        (codes "SELECT CAST(DB_ID(N'"
          ++ quoted db
          ++ codes "') AS VARCHAR(10)) + '.' + CAST(OBJECT_ID(N'"
          ++ quoted fq
          ++ codes "') AS VARCHAR(20))")
        [] 1 1
  or_leave (and_then (first_cell rows) usable_prefix) err_context_setup

unfoldable pub resolve_lock_prefix : Str → Str → Str → M Str
unfolding fetch_with
resolve_lock_prefix db schema table = do
  let fq = db ++ codes "." ++ schema ++ codes "." ++ table
  b ← gets (λ w. w.settings.backend)
  elim b [ mssql ↦ mssql_prefix db fq | postgres ↦ pure fq | sqlite ↦ pure fq ]

abbrev fnv_loop : ℕ → List ℕ → ℕ
fnv_loop h [] = h
fnv_loop h (b ∷ bs) = fnv_loop (bit_xor h b * 0x100000001b3 % 2 ^ 64) bs

unfoldable pub stable_lock_key : Str → ℤ → ℤ
stable_lock_key prefix row_id =
    let h = fnv_loop 0xcbf29ce484222325 (as_bytes prefix) in
    signed (2 ^ 63) (fnv_loop h (to_le_bytes 8 (to_word (2 ^ 64) row_id)))

abbrev pub lock_statement : Backend → Str → ℤ → Str
lock_statement mssql prefix row_id =
    codes "DECLARE @r INT; EXEC @r = sp_getapplock @Resource=N'"
    ++ quoted (prefix ++ codes "." ++ show_int row_id)
    ++ codes
        "', @LockMode=N'Exclusive', @LockOwner=N'Session', @LockTimeout=0; IF @r < 0 RAISERROR('Row locked by another session',16,1);"
lock_statement postgres prefix row_id =
    codes "SELECT pg_advisory_lock(" ++ show_int (stable_lock_key prefix row_id) ++ codes ")"
lock_statement sqlite prefix row_id = []

abbrev pub unlock_statement : Backend → Str → ℤ → Str
unlock_statement mssql prefix row_id =
    codes "EXEC sp_releaseapplock @Resource=N'"
    ++ quoted (prefix ++ codes "." ++ show_int row_id)
    ++ codes "', @LockOwner=N'Session';"
unlock_statement postgres prefix row_id =
    codes "SELECT pg_advisory_unlock(" ++ show_int (stable_lock_key prefix row_id) ++ codes ")"
unlock_statement sqlite prefix row_id = []

-- SQLite has no advisory locks.
unfoldable pub lock_row : Str → ℤ → M (Unit {0})
unfolding execute_or
lock_row prefix row_id = do
  b ← gets (λ w. w.settings.backend)
  elim b [
    | sqlite ↦ pure tt
    | other ↦ execute_or btr_record_locked (lock_statement other prefix row_id) []
  ]

unfoldable pub unlock_row : Str → ℤ → M (Unit {0})
unfolding execute_or
unlock_row prefix row_id = do
  b ← gets (λ w. w.settings.backend)
  elim b [
    | sqlite ↦ pure tt
    | other ↦ execute_or err_context_failure (unlock_statement other prefix row_id) []
  ]
