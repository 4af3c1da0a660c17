-- ===== src/Ops/Walk/Cursor.antt =====
-- ops/step.rs: the handle in the middle of a walk.
use mathlib.Core.Path.{subst}
use wx_btrieve_sql_driver.Base.{
  Bool-cases, List, [], ap, drop, false, inl, inr, keep, length, lookup, map, nat_eq, refl, some,
  suc, sym, take, text_eq, zero, ℕ, ◌+◌, ◌∙◌, ◌∷◌, ◌≡◌,
}
use wx_btrieve_sql_driver.Floats.{Floats}
use wx_btrieve_sql_driver.Ops.Fetch.{names_of, row_fields}
use wx_btrieve_sql_driver.Ops.Refill.{asked, refill_answer, refilled, step_in-deliver}
use wx_btrieve_sql_driver.Ops.Step.{batch_rows, deliver, take_cached}
use wx_btrieve_sql_driver.Ops.Stepping.{served, step_in}
use wx_btrieve_sql_driver.Ops.Walk.{
  Serves, TableRow, answer_at, build_step_select_n_params_lem, cells, chunk_size, number_of,
  packed_row, record_of,
}
use wx_btrieve_sql_driver.Ops.Walk.Order.{drop-suc, is_behind, keep-drop}
use wx_btrieve_sql_driver.Record.Pack.{pack_row}
use wx_btrieve_sql_driver.Schema.{TableMeta, recnum_is_field}
use wx_btrieve_sql_driver.Sql.Columns.{Dir}
use wx_btrieve_sql_driver.Status.{btr_eof}
use wx_btrieve_sql_driver.World.{HandleEntry, Result, World, done, err, ok}
use wx_btrieve_sql_driver.World.Handles.{modify_handle, posblk_key, write_data}
use wx_btrieve_sql_driver.World.Laws.{
  lookup-modify_handle, write_data-SameSession, write_data-modify_handle, write_data-sent,
}

batch_rows-cells :
    (fl : Floats) (meta : TableMeta) (rows : List TableRow)
    → recnum_is_field meta ≡ false
    → batch_rows fl meta (map cells rows) ≡ map (record_of fl meta) rows
unfolding batch_rows row_fields
batch_rows-cells fl meta [] apart = refl
batch_rows-cells fl meta (r ∷ rs) apart =
    let fields : r.1 ≡ row_fields meta (cells r) = rw apart refl in
    (λ i.
      (number_of r, pack_row fl meta.fields (fields i) meta.record_length)
      ∷ batch_rows-cells fl meta rs apart i)

chunk_size-suc : (meta : TableMeta) → (c : ℕ) × (chunk_size meta ≡ suc c)
chunk_size-suc meta = elim (Bool-cases meta.local_cache) [
  | inl e ↦ (255, rw e refl)
  | inr e ↦ (0, rw e refl)
]

module _ (dir : Dir) (meta : TableMeta) (rows : List TableRow) (start : World) where
  -- A walk after `n` rows, with `rest` ahead.
  pub record Walking (n : ℕ) (rest : List TableRow) (w : World) : Type 0 where
    pub h : HandleEntry
    pub open_at : lookup (posblk_key w) w.handles ≡ some h
    pub table : h.meta ≡ meta
    pub turned : h.step_cache_dir ≡ dir
    pub client : w.client ≡ start.client
    pub settings : w.settings ≡ start.settings
    pub floats : w.floats ≡ start.floats
    pub dropped : drop n rows ≡ rest
    pub behind : keep (is_behind number_of dir h.step_last_recnum) rows ≡ rest
    pub k : ℕ
    pub cached : h.step_cache ≡ map (record_of start.floats meta) (take k rest)

  abbrev pub Gives : ℕ → TableRow → List TableRow → World → Result (Unit {0}) × World → Type 0
  Gives n r rs w (o, w') =
      (o ≡ ok tt)
      × (w'.buffers ≡ (write_data (packed_row start.floats meta r) w).buffers)
      × Walking (suc n) rs w'

  answer_lem :
      (n : ℕ) (rest : List TableRow) (w : World) (serves : Serves dir meta rows start)
      → (g : Walking n rest w)
      → refill_answer dir g.h w ≡ done (map cells (take (chunk_size meta) rest))
  answer_lem n rest w serves g =
      let h = g.h in
      ap (λ q. w.client.on_fetch w.sent q.0 q.1 (length h.meta.fields + 1) (chunk_size h.meta))
        (build_step_select_n_params_lem (names_of h.meta w) h.step_last_recnum dir
          (chunk_size h.meta))
      ∙ ap (λ m. answer_at dir w w.client w.settings m w.sent h.step_last_recnum) g.table
      ∙ ap (λ c. answer_at dir w c w.settings meta w.sent h.step_last_recnum) g.client
      ∙ ap (λ s. answer_at dir w start.client s meta w.sent h.step_last_recnum) g.settings
      ∙ serves.answers w.sent h.step_last_recnum
      ∙ ap (λ l. done (map cells (take (chunk_size meta) l))) g.behind

  -- The world after a row: written to the caller, with the handle moved by `f`.
  module _ (n : ℕ) (r : TableRow) (rs : List TableRow) (w : World)
      (serves : Serves dir meta rows start) (g : Walking n (r ∷ rs) w) where
    next_dropped : drop (suc n) rows ≡ rs
    next_dropped = drop-suc n rows r rs g.dropped

    next_behind : keep (is_behind number_of dir (some (number_of r))) rows ≡ rs
    next_behind = keep-drop number_of dir n rows r rs serves.ordered g.dropped

    cached-Gives : (m : ℕ) → g.k ≡ suc m → Gives n r rs w (step_in dir w)
    unfolding modify_handle posblk_key
    cached-Gives m few =
        let h = g.h in
        let hid = posblk_key w in
        let fl = start.floats in
        let p = packed_row fl meta r in
        let rest = map (record_of fl meta) (take m rs) in
        let f = take_cached (number_of r) rest in
        let mid = modify_handle hid f w in
        let same = write_data-SameSession p mid in
        let split : h.step_cache ≡ (number_of r, p) ∷ rest =
          g.cached ∙ ap (λ j. map (record_of fl meta) (take j (r ∷ rs))) few in
        subst (Gives n r rs w) (sym (served dir w h (number_of r) p rest g.open_at g.turned split))
          (
            refl,
            write_data-modify_handle p hid f w,
            record {
              h = f h;
              open_at =
                  ap (λ j. lookup j (write_data p mid).handles) same.2
                  ∙ ap (lookup hid) same.0
                  ∙ lookup-modify_handle hid f w h g.open_at;
              table = g.table;
              turned = g.turned;
              client = same.5 ∙ g.client;
              settings = same.4 ∙ g.settings;
              floats = same.3 ∙ g.floats;
              dropped = next_dropped;
              behind = next_behind;
              k = m;
              cached = refl;
            },
          )

    fetched-Gives : g.k ≡ zero → Gives n r rs w (step_in dir w)
    unfolding modify_handle posblk_key
    fetched-Gives none_left =
        let h = g.h in
        let hid = posblk_key w in
        let fl = start.floats in
        let p = packed_row fl meta r in
        let (c, size) = chunk_size-suc meta in
        let rest = map (record_of fl meta) (take c rs) in
        let f = refilled dir (number_of r) rest in
        let at = asked dir h w in
        let mid = modify_handle hid f at in
        let same = write_data-SameSession p mid in
        let empty : h.step_cache ≡ [] =
          g.cached ∙ ap (λ j. map (record_of fl meta) (take j (r ∷ rs))) none_left in
        let got = take (chunk_size meta) (r ∷ rs) in
        let batch : batch_rows w.floats h.meta (map cells got) ≡ (number_of r, p) ∷ rest =
          ap (λ x. batch_rows x h.meta (map cells got)) g.floats
          ∙ ap (λ m. batch_rows fl m (map cells got)) g.table
          ∙ batch_rows-cells fl meta got serves.apart
          ∙ ap (λ j. map (record_of fl meta) (take j (r ∷ rs))) size in
        subst (Gives n r rs w)
          (sym (
            step_in-deliver dir w h (map cells got) g.open_at g.turned empty
              (answer_lem n (r ∷ rs) w serves g)
            ∙ ap (λ b. deliver hid dir b at) batch))
          (
            refl,
            write_data-modify_handle p hid f at ∙ write_data-sent p at.sent w,
            record {
              h = f h;
              open_at =
                  ap (λ j. lookup j (write_data p mid).handles) same.2
                  ∙ ap (lookup hid) same.0
                  ∙ lookup-modify_handle hid f at h g.open_at;
              table = g.table;
              turned = refl;
              client = same.5 ∙ g.client;
              settings = same.4 ∙ g.settings;
              floats = same.3 ∙ g.floats;
              dropped = next_dropped;
              behind = next_behind;
              k = c;
              cached = refl;
            },
          )

  pub gives :
      (n : ℕ) (r : TableRow) (rs : List TableRow) (w : World) (serves : Serves dir meta rows start)
      → (g : Walking n (r ∷ rs) w) (k : ℕ) → g.k ≡ k
      → Gives n r rs w (step_in dir w)
  gives n r rs w serves g zero e = fetched-Gives n r rs w serves g e
  gives n r rs w serves g (suc m) e = cached-Gives n r rs w serves g m e

  take-nil : (k : ℕ) → take {A = TableRow} k [] ≡ []
  take-nil zero = refl
  take-nil (suc k) = refl

  abbrev pub Ended : ℕ → World → Result (Unit {0}) × World → Type 0
  Ended n w (o, w') = (o ≡ err btr_eof) × Walking n [] w'

  pub ends :
      (n : ℕ) (w : World) (serves : Serves dir meta rows start)
      → Walking n [] w
      → Ended n w (step_in dir w)
  unfolding posblk_key
  ends n w serves g =
      let h = g.h in
      let hid = posblk_key w in
      let at = asked dir h w in
      let empty : h.step_cache ≡ [] =
        g.cached ∙ ap (map (record_of start.floats meta)) (take-nil g.k) in
      let got = take (chunk_size meta) [] in
      let batch : batch_rows w.floats h.meta (map cells got) ≡ [] =
        batch_rows-cells w.floats h.meta got (ap recnum_is_field g.table ∙ serves.apart)
        ∙ ap (map (record_of w.floats h.meta)) (take-nil (chunk_size meta)) in
      subst (Ended n w)
        (sym (
          step_in-deliver dir w h (map cells got) g.open_at g.turned empty
            (answer_lem n [] w serves g)
          ∙ ap (λ b. deliver hid dir b at) batch))
        (
          refl,
          record {
            h = h;
            open_at = g.open_at;
            table = g.table;
            turned = g.turned;
            client = g.client;
            settings = g.settings;
            floats = g.floats;
            dropped = g.dropped;
            behind = g.behind;
            k = g.k;
            cached = g.cached;
          },
        )
