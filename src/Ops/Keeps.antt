-- ===== src/Ops/Keeps.antt =====
-- ops/open.rs and client_meta.rs: the actions of an open before a handle is added.
use wx_btrieve_sql_driver.Base.{
  Bool, List, Option, Str, [], codes, false, is_empty, none, not, refl, some, true, ℕ, ◌∙◌, ◌≡◌,
}
use wx_btrieve_sql_driver.Client.{fetch_with, set_sent}
use wx_btrieve_sql_driver.Client.Discovery.{
  column_query, dir_from_path, discover_table_meta, is_mssql, meta_of_columns, read_columns,
  resolve_config, schema_of,
}
use wx_btrieve_sql_driver.Ops.Session.{found_meta, remember_table}
use wx_btrieve_sql_driver.Schema.{TableMeta}
use wx_btrieve_sql_driver.SqlParam.{SqlValue}
use wx_btrieve_sql_driver.Status.{btr_file_not_found}
use wx_btrieve_sql_driver.World.{
  M, Result, World, continue, err, gets, leave_if, ok, ok_of, or_leave, panic, pure, settle,
  settled, update, ◌>>=◌, ◌>>◌,
}

-- An action that leaves the handle table and its counter alone.
pub record Keeps {A : Type 0} (m : M A) : Type 0 where
  pub kept : (w : World) → ((m w).1.handles ≡ w.handles) × ((m w).1.handle_ctr ≡ w.handle_ctr)

continue-Keeps :
    {A B : Type 0} (r : Result A) (k : A → M B) (v : World)
    → ((a : A) → Keeps (k a))
    → ((continue r k v).1.handles ≡ v.handles) × ((continue r k v).1.handle_ctr ≡ v.handle_ctr)
continue-Keeps (ok a) k v h = (h a).kept v
continue-Keeps (err code) k v h = (refl, refl)
continue-Keeps panic k v h = (refl, refl)

bind-Keeps :
    {A B : Type 0} (m : M A) (k : A → M B) → Keeps m → ((a : A) → Keeps (k a)) → Keeps (m >>= k)
bind-Keeps m k h g = record {
  kept = λ w.
      let first = h.kept w in
      let later = continue-Keeps (m w).0 k (m w).1 g in (later.0 ∙ first.0, later.1 ∙ first.1);
}

leave_if-Keeps : (b : Bool) (code : ℕ) → Keeps (leave_if b code)
leave_if-Keeps true code = record { kept = λ w. (refl, refl) }
leave_if-Keeps false code = record { kept = λ w. (refl, refl) }

or_leave-Keeps : {A : Type 0} (o : Option A) (code : ℕ) → Keeps (or_leave o code)
or_leave-Keeps none code = record { kept = λ w. (refl, refl) }
or_leave-Keeps (some a) code = record { kept = λ w. (refl, refl) }

gets-Keeps : {A : Type 0} (f : World → A) → Keeps (gets f)
gets-Keeps f = record { kept = λ w. (refl, refl) }

fetch_with-Keeps :
    (sql : Str) (params : List SqlValue) (n limit : ℕ) → Keeps (fetch_with sql params n limit)
unfolding fetch_with set_sent
fetch_with-Keeps sql params n limit = record { kept = λ w. (refl, refl) }

settled-Keeps :
    {A : Type 0} (r : Result A) (v : World)
    → ((settled r v).1.handles ≡ v.handles) × ((settled r v).1.handle_ctr ≡ v.handle_ctr)
settled-Keeps (ok a) v = (refl, refl)
settled-Keeps (err code) v = (refl, refl)
settled-Keeps panic v = (refl, refl)

settle-Keeps : {A : Type 0} (m : M A) → Keeps m → Keeps (settle m)
settle-Keeps m h = record {
  kept = λ w. let s = settled-Keeps (m w).0 (m w).1 in (s.0 ∙ (h.kept w).0, s.1 ∙ (h.kept w).1);
}

meta_of_columns-Keeps :
    (table dir db sc : Str) (rows : List (List Str)) → Keeps (meta_of_columns table dir db sc rows)
unfolding meta_of_columns
meta_of_columns-Keeps table dir db sc rows =
    bind-Keeps (leave_if (is_empty rows) btr_file_not_found) _ (leave_if-Keeps _ _)
      λ _. gets-Keeps _

read_columns-Keeps : (table path : Str) → Keeps (read_columns table path)
unfolding read_columns
read_columns-Keeps table path = record {
  kept = λ w.
      let dir = dir_from_path w.paths path in
      let db = resolve_config w.settings dir (codes "DATABASE") in
      let sc = schema_of w dir in
      (bind-Keeps (fetch_with (column_query db sc table) [] 4 200) (meta_of_columns table dir db sc)
          (fetch_with-Keeps (column_query db sc table) [] 4 200)
          (meta_of_columns-Keeps table dir db sc)).kept
        w;
}

discover_table_meta-Keeps : (table path : Str) → Keeps (discover_table_meta table path)
unfolding discover_table_meta
discover_table_meta-Keeps table path = record {
  kept = λ w.
      let foreign = not (is_mssql w.settings.backend) in
      (bind-Keeps (leave_if foreign btr_file_not_found) (λ _. read_columns table path)
          (leave_if-Keeps foreign btr_file_not_found) (λ _. read_columns-Keeps table path)).kept
        w;
}

remember-Keeps : (table : Str) (m : TableMeta) → Keeps (update (remember_table table m) >> pure m)
remember-Keeps table m = record { kept = λ w. (refl, refl) }

pub found_meta-Keeps :
    (table path : Str) (known : Option TableMeta) → Keeps (found_meta table path known)
found_meta-Keeps table path (some m) = record { kept = λ w. (refl, refl) }
found_meta-Keeps table path none =
    bind-Keeps (settle (discover_table_meta table path))
      (λ r.
        or_leave (ok_of r) btr_file_not_found >>= λ m. update (remember_table table m) >> pure m)
      (settle-Keeps (discover_table_meta table path) (discover_table_meta-Keeps table path))
      λ r.
        bind-Keeps (or_leave (ok_of r) btr_file_not_found)
          (λ m. update (remember_table table m) >> pure m)
          (or_leave-Keeps (ok_of r) btr_file_not_found) (remember-Keeps table)
