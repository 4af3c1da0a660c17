-- ===== src/Ops/Stepping.antt =====
-- ops/step.rs: the cache of rows behind Step Next and Step Previous.
use mathlib.Core.Path.{subst}
use wx_btrieve_sql_driver.Base.{
  List, [], ap, arith, drop, get_elem?, if◌then◌else◌, lookup, nat_eq, refl, some, suc, sym,
  text_eq, true, zero, ℕ, ℤ, ◌∙◌, ◌∷◌, ◌≡◌,
}
use wx_btrieve_sql_driver.Ops.Session.{cleared_by_reset, op_reset}
use wx_btrieve_sql_driver.Ops.Step.{
  drop_cache, from_cache, op_step_next, op_step_prev, same_dir, step_cached, step_fetch, step_with,
  take_cached,
}
use wx_btrieve_sql_driver.Sql.Columns.{Dir, backward, forward}
use wx_btrieve_sql_driver.Status.{btr_file_not_open}
use wx_btrieve_sql_driver.World.{HandleEntry, M, Result, World, ok, or_leave, update, ◌>>=◌, ◌>>◌}
use wx_btrieve_sql_driver.World.Handles.{modify_handle, open_handle, posblk_key, write_data}
use wx_btrieve_sql_driver.World.Laws.{
  lookup-modify_handle, write_data-SameSession, write_data-modify_handle,
}

abbrev pub step_in : Dir → M (Unit {0})
step_in forward = op_step_next
step_in backward = op_step_prev

same_dir_refl : (dir : Dir) → same_dir dir dir ≡ true
same_dir_refl forward = refl
same_dir_refl backward = refl

pub step_in-open :
    (dir : Dir) (w : World) (h : HandleEntry)
    → lookup (posblk_key w) w.handles ≡ some h
    → step_in dir w ≡ step_with (posblk_key w) dir h w
unfolding op_step_next op_step_prev step_cached open_handle
step_in-open forward w h e =
    ap (λ o. (or_leave o btr_file_not_open >>= step_with (posblk_key w) forward) w) e
step_in-open backward w h e =
    ap (λ o. (or_leave o btr_file_not_open >>= step_with (posblk_key w) backward) w) e

-- One row off the cache.
pub served :
    (dir : Dir) (w : World) (h : HandleEntry) (rn : ℤ) (p : List ℕ) (rest : List (ℤ × List ℕ))
    → lookup (posblk_key w) w.handles ≡ some h
    → h.step_cache_dir ≡ dir
    → h.step_cache ≡ (rn, p) ∷ rest
    → step_in dir w ≡ (ok tt, write_data p (modify_handle (posblk_key w) (take_cached rn rest) w))
unfolding step_with
served dir w h rn p rest open_at d c =
    let hid = posblk_key w in
    step_in-open dir w h open_at
    ∙ ap
        (λ b.
          (if b
              then from_cache hid dir h.step_cache
              else update (modify_handle hid drop_cache) >> step_fetch hid dir)
            w)
        (ap (λ x. same_dir x dir) d ∙ same_dir_refl dir)
    ∙ ap (λ x. from_cache hid dir x w) c

abbrev pub repeat : ℕ → M (Unit {0}) → World → World
repeat zero m w = w
repeat (suc n) m w = repeat n m (m w).1

-- The handle with row `rn` current and `rest` still cached.
abbrev pub at_row : ℤ → List (ℤ × List ℕ) → HandleEntry → HandleEntry
at_row rn rest h = record h { step_cache = rest; step_last_recnum = some rn; last_recnum = some rn }

-- What a call did that handed out a cached row.
abbrev pub HandedOut : ℕ → List ℕ → HandleEntry → World → World → Result (Unit {0}) × World → Type 0
HandedOut hid p after start before (r, w') =
    (r ≡ ok tt)
    × (w'.sent ≡ start.sent)
    × (w'.buffers ≡ (write_data p before).buffers)
    × (lookup hid w'.handles ≡ some after)

first_served :
    (dir : Dir) (w : World) (h : HandleEntry) (rn : ℤ) (p : List ℕ) (rest : List (ℤ × List ℕ))
    → lookup (posblk_key w) w.handles ≡ some h
    → h.step_cache_dir ≡ dir
    → h.step_cache ≡ (rn, p) ∷ rest
    → HandedOut (posblk_key w) p (at_row rn rest h) w w (step_in dir w)
unfolding modify_handle
first_served dir w h rn p rest open_at d c =
    let hid = posblk_key w in
    let mid = modify_handle hid (take_cached rn rest) w in
    let same = write_data-SameSession p mid in
    subst (HandedOut hid p (at_row rn rest h) w w) (sym (served dir w h rn p rest open_at d c)) (
      refl,
      same.1,
      write_data-modify_handle p hid (take_cached rn rest) w,
      ap (lookup hid) same.0 ∙ lookup-modify_handle hid (take_cached rn rest) w h open_at,
    )

same_posblk :
    (dir : Dir) (w : World) (h : HandleEntry) (rn : ℤ) (p : List ℕ) (rest : List (ℤ × List ℕ))
    → lookup (posblk_key w) w.handles ≡ some h
    → h.step_cache_dir ≡ dir
    → h.step_cache ≡ (rn, p) ∷ rest
    → posblk_key (step_in dir w).1 ≡ posblk_key w
unfolding modify_handle posblk_key
same_posblk dir w h rn p rest open_at d c =
    let mid = modify_handle (posblk_key w) (take_cached rn rest) w in
    ap (λ (o : Result (Unit {0}) × World). posblk_key o.1) (served dir w h rn p rest open_at d c)
    ∙ (write_data-SameSession p mid).2

some-eq : {A : Type 0} (x y : A) → some x ≡ some y → x ≡ y
some-eq x y h = ground (arith, h)

handed :
    (n : ℕ) (dir : Dir) (w : World) (h : HandleEntry) (rn : ℤ) (p : List ℕ)
    → (cache : List (ℤ × List ℕ)) → lookup (posblk_key w) w.handles ≡ some h
    → h.step_cache_dir ≡ dir
    → h.step_cache ≡ cache
    → get_elem? cache n ≡ some (rn, p)
    → HandedOut
        (posblk_key w)
        p
        (take_cached rn (drop (suc n) cache) h)
        w
        (repeat n (step_in dir) w)
        (step_in dir (repeat n (step_in dir) w))
handed n dir w h rn p [] open_at d c at = absurd (cc)
handed zero dir w h rn p (x ∷ rest) open_at d c at =
    first_served dir w h rn p rest open_at d (c ∙ ap (λ y. y ∷ rest) (some-eq x (rn, p) at))
handed (suc n) dir w h rn p ((rn₀, p₀) ∷ rest) open_at d c at =
    let once = first_served dir w h rn₀ p₀ rest open_at d c in
    let w₁ = (step_in dir w).1 in
    let same = same_posblk dir w h rn₀ p₀ rest open_at d c in
    let more =
      handed n dir w₁ (at_row rn₀ rest h) rn p rest (ap (λ k. lookup k w₁.handles) same ∙ once.3) d
        refl at in
    (
      more.0,
      more.1 ∙ once.1,
      more.2,
      ap (λ k. lookup k (step_in dir (repeat n (step_in dir) w₁)).1.handles) (sym same) ∙ more.3,
    )

-- A handle whose cache holds rows of the walk's direction: the call number `n` from now on, for
-- each row `n` of the cache, hands that row's record to the caller, makes it the current record,
-- drops the cache up to it, and sends nothing; so do all the calls before it.
pub step_in-HandedOut :
    (n : ℕ) (dir : Dir) (w : World) (h : HandleEntry) (rn : ℤ) (p : List ℕ)
    → lookup (posblk_key w) w.handles ≡ some h
    → h.step_cache_dir ≡ dir
    → get_elem? h.step_cache n ≡ some (rn, p)
    → HandedOut
        (posblk_key w)
        p
        (take_cached rn (drop (suc n) h.step_cache) h)
        w
        (repeat n (step_in dir) w)
        (step_in dir (repeat n (step_in dir) w))
step_in-HandedOut n dir w h rn p open_at d at = handed n dir w h rn p h.step_cache open_at d refl at

-- Reset clears the positions of a handle but not its cache: on a handle with cached rows of the
-- walk's direction, a step after a Reset hands out the next cached row, as if it had not happened.
pub step_in-op_reset :
    (dir : Dir) (w : World) (h : HandleEntry) (rn : ℤ) (p : List ℕ) (rest : List (ℤ × List ℕ))
    → lookup (posblk_key w) w.handles ≡ some h
    → h.step_cache_dir ≡ dir
    → h.step_cache ≡ (rn, p) ∷ rest
    → let after = (op_reset w).1 in
      HandedOut
        (posblk_key w)
        p
        (take_cached rn rest (cleared_by_reset h))
        after
        after
        (step_in dir after)
unfolding op_reset modify_handle posblk_key
step_in-op_reset dir w h rn p rest open_at d c =
    first_served dir (op_reset w).1 (cleared_by_reset h) rn p rest
      (lookup-modify_handle (posblk_key w) cleared_by_reset w h open_at) d c

-- A step on a handle with nothing cached for its direction.
pub step_with-empty :
    (dir : Dir) (hid : ℕ) (w : World) (h : HandleEntry)
    → h.step_cache_dir ≡ dir
    → h.step_cache ≡ []
    → step_with hid dir h w ≡ step_fetch hid dir w
unfolding step_with
step_with-empty dir hid w h d c =
    ap
      (λ b.
        (if b
            then from_cache hid dir h.step_cache
            else update (modify_handle hid drop_cache) >> step_fetch hid dir)
          w)
      (ap (λ x. same_dir x dir) d ∙ same_dir_refl dir)
    ∙ ap (λ x. from_cache hid dir x w) c
