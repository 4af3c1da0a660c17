-- ===== src/Ops/StatBuffer.antt =====
-- ops/stat.rs `op_stat` on a buffer that is shorter than the file specification.
use mathlib.Core.Path.{subst}
use wx_btrieve_sql_driver.Base.{
  All, Bool-cases, List, Str, [], and_then, ap, arith, codes, false, if◌then◌else◌, inl, inr,
  length, length-replicate, length-splice, lookup, ltb, nat_eq, parse_unsigned, refl, replicate,
  some, splice, sym, text_eq, true, unwrap_or, ℕ, ◌%◌, ◌&&◌, ◌++◌, ◌+◌, ◌-◌, ◌<◌, ◌==◌, ◌^◌, ◌∙◌,
  ◌∷◌, ◌≡◌, ◌≤◌, ◌⊎◌,
}
use wx_btrieve_sql_driver.Client.{fetch_with, first_cell, outcome, set_sent}
use wx_btrieve_sql_driver.Ops.Fetch.{names_of}
use wx_btrieve_sql_driver.Ops.Stat.{
  copy_parts, count_u32, fill_stat, op_stat, stat_handle, stat_header, stat_into, stat_size,
  write_stat,
}
use wx_btrieve_sql_driver.Schema.{TableMeta}
use wx_btrieve_sql_driver.Status.{err_context_failure}
use wx_btrieve_sql_driver.World.{
  HandleEntry, Outcome, Result, World, continue, done, failed, fetch, ok, ok_of, panic, pure,
  settled, unreachable, ◌>>=◌,
}
use wx_btrieve_sql_driver.World.Handles.{data_is_null, posblk_key}

settled-outcome :
    {A : Type 0} (code : ℕ) (o : Outcome A) (w : World)
    → settled (outcome code o) w ≡ (ok (outcome code o), w)
settled-outcome code (done a) w = refl
settled-outcome code (unreachable c) w = refl
settled-outcome code failed w = refl

-- Counting the records of a table answers a number whatever the backend does.
counted :
    (clean : Str → Str) (sql : Str) (w : World)
    → (n : ℕ) × (count_u32 clean sql w ≡ (ok n, set_sent (fetch sql [] 1 1) w))
unfolding fetch_with
counted clean sql w = (
  _,
  ap
      (λ (x : Result (Result (List (List Str))) × World).
        continue x.0
          (λ r.
            let n =
              and_then (and_then (ok_of r) first_cell)
                (λ s. parse_unsigned (2 ^ 64 - 1) (clean s)) in
            pure (unwrap_or n 0 % 2 ^ 32))
          x.1)
      (settled-outcome err_context_failure (w.client.on_fetch w.sent sql [] 1 1)
        (set_sent (fetch sql [] 1 1) w)),
)

present : (w : World) (mem : List ℕ) → w.data_buf ≡ some mem → data_is_null w ≡ false
present w mem d = rw d refl

-- Parts of a header of which one ends at `n`.
abbrev Reaches : ℕ → List (ℕ × List ℕ) → Type 0
Reaches n [] = ⊥
Reaches n ((at, src) ∷ parts) = (at + length src ≡ n) ⊎ Reaches n parts

copy_parts-panics :
    (n : ℕ) (parts : List (ℕ × List ℕ)) (buf : List ℕ) (w : World)
    → length buf < n
    → Reaches n parts
    → (copy_parts parts buf w).0 ≡ panic
copy_parts-panics n [] buf w short reach = absurd reach
copy_parts-panics n ((at, src) ∷ parts) buf w short reach =
    elim (Bool-cases (ltb (length buf) (at + length src))) [
      | inl e ↦ rw e refl
      | inr e ↦
          let fits : at + length src ≤ length buf = ground arith in
          let same = length-splice at src buf fits in
          rw e (elim reach [
            | inl here ↦ absurd (omega (arith, here))
            | inr later ↦
                copy_parts-panics n parts (splice at src buf) w (omega (arith, same)) later
          ])
    ]

abbrev Within : ℕ → List (ℕ × List ℕ) → Type 0
Within n parts = All (λ (p : ℕ × List ℕ). p.0 + length p.1 ≤ n) parts

copy_parts-copies :
    (parts : List (ℕ × List ℕ)) (buf : List ℕ) (w : World)
    → Within (length buf) parts
    → (out : List ℕ) × (copy_parts parts buf w ≡ (ok out, w))
copy_parts-copies [] buf w fits = (buf, refl)
copy_parts-copies ((at, src) ∷ parts) buf w fits =
    let e : ltb (length buf) (at + length src) ≡ false = ground (arith, fits.0) in
    let same = length-splice at src buf fits.0 in
    let (out, copied) =
      copy_parts-copies parts (splice at src buf) w
        (subst (λ n. Within n parts) (sym same) fits.1) in
    (out, rw e copied)

-- What a Stat answers for a buffer of this many bytes.
abbrev pub outcome_for : ℕ → Result (Unit {0})
outcome_for cap = if ltb 0 cap && ltb cap 12 then panic else ok tt

panics_for : (cap : ℕ) → 0 < cap → cap < 12 → outcome_for cap ≡ panic
panics_for cap p q = ground arith

succeeds_for : (cap : ℕ) → 12 ≤ cap → outcome_for cap ≡ ok tt
succeeds_for cap q = ground arith

empty_for : (cap : ℕ) → (cap == 0) ≡ true → outcome_for cap ≡ ok tt
empty_for cap e = ground arith

copied_for :
    (meta : TableMeta) (cap n : ℕ) (w : World)
    → 0 < cap
    → (continue
        (copy_parts (stat_header meta n) (replicate (stat_size meta cap) 0) w).0
        (write_stat meta (stat_size meta cap) n)
        (copy_parts (stat_header meta n) (replicate (stat_size meta cap) 0) w).1).0
      ≡ outcome_for cap
copied_for meta cap n w p =
    let size = stat_size meta cap in
    let buf : List ℕ = replicate size 0 in
    let parts = stat_header meta n in
    let same : length buf ≡ size = length-replicate size 0 in
    elim (Bool-cases (ltb cap 12)) [
      | inl e ↦
          let short : cap < 12 = ground arith in
          let stops : (copy_parts parts buf w).0 ≡ panic =
            copy_parts-panics 12 parts buf w (omega (arith, same))
              (inr (inr (inr (inr (inl refl))))) in
          ap
            (λ (r : Result (List ℕ)).
              (continue r (write_stat meta size n) (copy_parts parts buf w).1).0)
            stops
          ∙ sym (panics_for cap p short)
      | inr e ↦
          let long : 12 ≤ cap = ground arith in
          let (out, copied) = copy_parts-copies parts buf w (
            omega (arith, same),
            (
              omega (arith, same),
              (omega (arith, same), (omega (arith, same), (omega (arith, same), tt))),
            ),
          ) in
          ap (λ (x : Result (List ℕ) × World). (continue x.0 (write_stat meta size n) x.1).0) copied
          ∙ sym (succeeds_for cap long)
    ]

-- A Stat on an open file with a data buffer panics if the buffer has 1 to 11 bytes, because the
-- handler copies a header of 12 bytes into a slice that is cut to the buffer; with any other
-- buffer it succeeds, whatever the backend answers.
pub op_stat-outcome_for :
    (w : World) (h : HandleEntry) (mem : List ℕ) (cap : ℕ)
    → lookup (posblk_key w) w.handles ≡ some h
    → w.data_buf ≡ some mem
    → w.data_len ≡ some cap
    → (op_stat w).0 ≡ outcome_for cap
unfolding op_stat
op_stat-outcome_for w h mem cap open_at d l =
    let meta = h.meta in
    let count = counted (λ s. s) (codes "SELECT COUNT(*) FROM " ++ (names_of meta w).tref) w in
    ap (λ o. (stat_handle o w).0) open_at
    ∙ ap (λ b. (stat_into meta b w.data_len w).0) (present w mem d)
    ∙ ap (λ o. (stat_into meta false o w).0) l
    ∙ elim (Bool-cases (cap == 0)) [
      | inl e ↦
          ap (λ b. ((if b then pure tt else fill_stat meta cap) w).0) e ∙ sym (empty_for cap e)
      | inr e ↦
          ap (λ b. ((if b then pure tt else fill_stat meta cap) w).0) e
          ∙ ap
              (λ (x : Result ℕ × World).
                (continue x.0
                  (λ n.
                    copy_parts (stat_header meta n) (replicate (stat_size meta cap) 0)
                    >>= write_stat meta (stat_size meta cap) n)
                  x.1).0)
              count.1
          ∙ copied_for meta cap count.0 _ (ground arith)
    ]
