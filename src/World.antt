-- ===== src/World.antt =====
-- The driver's state and its effects: crates/wxbtrv-core/src/state.rs (`HandleEntry`,
-- `DriverState`, `LAST_ERROR`), the statics of sql.rs and ops/mod.rs, and the buffers of a call.
-- A handler is an action on the `World`: it returns a value, leaves by a status code or
-- panics, and what it wrote before stays written. The state mutex is never poisoned, since no handler panics
-- while it holds the lock.
pub mod Handles
pub mod Laws
pub mod Bounds
use wx_btrieve_sql_driver.Base.{
  Bool, List, Option, Str, false, if◌then◌else◌, none, some, true, ℕ, ℤ, ◌*◌, ◌==◌,
}
use wx_btrieve_sql_driver.Dialect.{Backend}
use wx_btrieve_sql_driver.Floats.{Floats}
use wx_btrieve_sql_driver.Schema.{TableMeta}
use wx_btrieve_sql_driver.Sql.Columns.{Dir}
use wx_btrieve_sql_driver.SqlParam.{SqlValue}

pub record HandleEntry : Type 0 where
  pub meta : TableMeta
  pub b_path : Str
  pub step_last_recnum : Option ℤ
  pub step_dir : Dir
  pub get_index_num : Option ℕ
  pub get_last_keys : List SqlValue
  pub get_last_desc : List Bool
  pub get_last_recnum : Option ℤ
  pub get_dir : Dir
  pub last_recnum : Option ℤ
  pub step_cache : List (ℤ × List ℕ)
  pub step_cache_dir : Dir
  pub lock_prefix : Option Str
  pub owner_name : Option Str

-- What the client crates of sql.rs answer: a result, no connection with its code, or an error.
pub data Outcome {ℓ} (A : Type ℓ) : Type ℓ where
  done : A → Outcome A
  unreachable : ℕ → Outcome A
  failed : Outcome A

pub data Request : Type 0 where
  execute : Str → List SqlValue → Request
  fetch : Str → List SqlValue → ℕ → ℕ → Request
  disconnect : Request

-- The client crates and the server behind them. They answer by all that was sent before, so
-- nothing is assumed of the database.
pub record Client : Type 0 where
  pub on_execute : List Request → Str → List SqlValue → Outcome (Unit {0})
  pub on_fetch : List Request → Str → List SqlValue → ℕ → ℕ → Outcome (List (List Str))

-- The memory that a call's pointers lead to; `none` is a null pointer.
pub record Buffers : Type 0 where
  pub posblk : Option (List ℕ)
  pub data_buf : Option (List ℕ)
  pub data_len : Option ℕ
  pub key_buf : Option (List ℕ)

-- `std::path::Path` of the platform: `file_stem` and `parent`, where they are there and Unicode.
pub record Paths : Type 0 where
  pub file_stem : Str → Option Str
  pub parent : Str → Option Str

-- The settings that the ops read (`DriverState`).
pub record Settings : Type 0 where
  pub backend : Backend
  pub database : Str
  pub schema : Str
  pub server : Str
  pub user : Str
  pub pass : Str
  pub driver : Str
  pub network : Str
  pub recnum_col_default : Str
  pub trim_strings : Bool
  pub dir_configs : List (Str × List (Str × Str))

pub record World : Type 0 where
  pub floats : Floats
  pub client : Client
  pub paths : Paths
  pub settings : Settings
  pub client_cwd : Option Str
  pub tables : List (Str × TableMeta)
  pub handles : List (ℕ × HandleEntry)
  pub handle_ctr : ℕ
  pub txn_active : Bool
  pub last_error : ℕ
  pub sent : List Request
  pub buffers : Buffers
  pub open buffers use *

pub data Result {ℓ} (A : Type ℓ) : Type ℓ where
  ok : A → Result A
  err : ℕ → Result A
  panic : Result A

abbrev pub M : Type 0 → Type 0
M A = World → Result A × World

module _ {A : Type 0} where
  abbrev pub pure : A → M A
  pure a w = (ok a, w)

  abbrev pub leave : ℕ → M A
  leave code w = (err code, w)

  abbrev pub gets : (World → A) → M A
  gets f w = (ok (f w), w)

  -- `let Some(a) = o else { return code }`
  abbrev pub or_leave : Option A → ℕ → M A
  or_leave none code = leave code
  or_leave (some a) code = pure a

abbrev pub update : (World → World) → M (Unit {0})
update f w = (ok tt, f w)

module _ {A B : Type 0} where
  abbrev pub continue : Result A → (A → M B) → M B
  continue (ok a) f w = f a w
  continue (err code) f w = (err code, w)
  continue panic f w = (panic, w)

  infixl 5 ◌>>=◌ ◌>>◌
  abbrev pub ◌>>=◌ : M A → (A → M B) → M B
  ◌>>=◌ m f w = let (r, w') = m w in continue r f w'

  abbrev pub ◌>>◌ : M A → M B → M B
  m >> n = m >>= λ _. n

-- `if test { return code }`
abbrev pub leave_if : Bool → ℕ → M (Unit {0})
leave_if true code = leave code
leave_if false code = pure tt

abbrev pub recode_result {ℓ} : {A : Type ℓ} → ℕ → ℕ → Result A → Result A
recode_result from to (ok a) = ok a
recode_result from to (err code) = err (if code == from then to else code)
recode_result from to panic = panic

-- `match r { Err(from) => Err(to), .. }`
abbrev pub recode : {A : Type 0} → ℕ → ℕ → M A → M A
recode from to m w = let (r, w') = m w in (recode_result from to r, w')

abbrev pub settled {ℓ} : {A : Type ℓ} → Result A → World → Result (Result A) × World
settled (ok a) w = (ok (ok a), w)
settled (err code) w = (ok (err code), w)
settled panic w = (panic, w)

-- Runs `m` and hands its `Result` on as a value.
abbrev pub settle : {A : Type 0} → M A → M (Result A)
settle m w = let (r, w') = m w in settled r w'

abbrev pub from_result : {A : Type 0} → Result A → M A
from_result r w = (r, w)

-- `r.ok()`
abbrev pub ok_of {ℓ} : {A : Type ℓ} → Result A → Option A
ok_of (ok a) = some a
ok_of (err code) = none
ok_of panic = none

-- `match r { Ok(a) => .., Err(code) => .. }` on a settled result
abbrev pub on_result {ℓ} : {A : Type ℓ} {B : Type 0} → Result A → (ℕ → M B) → (A → M B) → M B
on_result (ok a) on_err on_ok = on_ok a
on_result (err code) on_err on_ok = on_err code
on_result panic on_err on_ok = from_result panic
