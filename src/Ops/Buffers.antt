-- ===== src/Ops/Buffers.antt =====
-- ops/get_ext.rs and step_ext.rs: the batches that the extended walks return fit the caller's
-- buffer.
use mathlib.Core.List.{flatten}
use wx_btrieve_sql_driver.Base.{
  Bool, Bool-cases, List, [], arith, false, if◌then◌else◌, inl, inr, is_empty, length,
  length-append, ltb, map, refl, suc, true, zero, ℕ, ℤ, ◌++◌, ◌+◌, ◌==◌, ◌||◌, ◌∷◌, ◌≡◌, ◌≤◌,
}
use wx_btrieve_sql_driver.Ops.Extended.{
  ExtDesc, batch_image, ext_step, extended_loop, fetch_one_extended, fitting, project, record_image,
  walk_end,
}
use wx_btrieve_sql_driver.Schema.{TableMeta}
use wx_btrieve_sql_driver.Sql.Columns.{Dir}
use wx_btrieve_sql_driver.Status.{btr_data_too_short, btr_eof, btr_key_not_found}
use wx_btrieve_sql_driver.World.{
  M, Result, World, continue, err, leave, ok, on_result, panic, pure, settle,
}

-- The bytes of the records behind the count.
abbrev sizes : List (ℤ × List ℕ) → ℕ
sizes [] = 0
sizes ((rn, proj) ∷ rest) = 6 + length proj + sizes rest

sizes-append : (xs ys : List (ℤ × List ℕ)) → sizes (xs ++ ys) ≡ sizes xs + sizes ys
sizes-append [] ys = omega arith
sizes-append ((rn, proj) ∷ xs) ys = omega (arith, sizes-append xs ys)

length-images : (recs : List (ℤ × List ℕ)) → length (flatten (map record_image recs)) ≡ sizes recs
unfolding flatten
length-images [] = refl
length-images ((rn, proj) ∷ rest) = omega (
  arith,
  length-append (record_image (rn, proj)) (flatten (map record_image rest)),
  length-images rest,
)

length-batch_image : (recs : List (ℤ × List ℕ)) → length (batch_image recs) ≡ 2 + sizes recs
length-batch_image recs = omega (arith, length-images recs)

fitting-sizes :
    (cap used : ℕ) (extracts : List (ℕ × ℕ)) (batch : List (ℤ × List ℕ))
    → used ≤ cap
    → used + sizes (fitting cap used extracts batch) ≤ cap
unfolding fitting
fitting-sizes cap used extracts [] h = omega arith
fitting-sizes cap used extracts ((rn, packed) ∷ rest) h =
    let proj = project packed extracts in
    elim (Bool-cases (ltb cap (used + 6 + length proj))) [
      | inl e ↦ ground (arith, e)
      | inr e ↦
          ground (arith, e, fitting-sizes cap (used + 6 + length proj) extracts rest (ground arith))
    ]

-- The batch of a Step Extended, the count included, is never longer than the caller's buffer of
-- two bytes or more.
pub length-fitting :
    (cap : ℕ) (extracts : List (ℕ × ℕ)) (batch : List (ℤ × List ℕ))
    → 2 ≤ cap
    → length (batch_image (fitting cap 2 extracts batch)) ≤ cap
length-fitting cap extracts batch h =
    omega (
      arith,
      length-batch_image (fitting cap 2 extracts batch),
      fitting-sizes cap 2 extracts batch h,
    )

-- A result whose records fit `cap` bytes; a walk that fails returns none.
abbrev pub FitsBuffer : ℕ → Result (List (ℤ × List ℕ)) → Type 0
FitsBuffer cap (ok recs) = length (batch_image recs) ≤ cap
FitsBuffer cap (err code) = Unit {0}
FitsBuffer cap panic = Unit {0}

fits_bind :
    {A : Type 0} (cap : ℕ) (r : Result A) (k : A → M (List (ℤ × List ℕ))) (w : World)
    → ((a : A) → FitsBuffer cap (k a w).0)
    → FitsBuffer cap (continue r k w).0
fits_bind cap (ok a) k w h = h a
fits_bind cap (err code) k w h = tt
fits_bind cap panic k w h = tt

fits_if :
    (cap : ℕ) (b : Bool) (m n : M (List (ℤ × List ℕ))) (w : World)
    → FitsBuffer cap (m w).0
    → (b ≡ false → FitsBuffer cap (n w).0)
    → FitsBuffer cap ((if b then m else n) w).0
fits_if cap true m n w h k = h
fits_if cap false m n w h k = k refl

fits_result :
    {A : Type 0} (cap : ℕ) (r : Result A) (on_err : ℕ → M (List (ℤ × List ℕ)))
    → (on_ok : A → M (List (ℤ × List ℕ))) (w : World)
    → ((code : ℕ) → FitsBuffer cap (on_err code w).0)
    → ((a : A) → FitsBuffer cap (on_ok a w).0)
    → FitsBuffer cap (on_result r on_err on_ok w).0
fits_result cap (ok a) on_err on_ok w h k = k a
fits_result cap (err code) on_err on_ok w h k = h code
fits_result cap panic on_err on_ok w h k = tt

grown :
    (acc : List (ℤ × List ℕ)) (rn : ℤ) (proj : List ℕ) (used : ℕ)
    → length (batch_image acc) ≡ 2 + used
    → length (batch_image (acc ++ (rn, proj) ∷ [])) ≡ 2 + (used + 6 + length proj)
grown acc rn proj used e = omega (
  arith,
  length-batch_image acc,
  length-batch_image (acc ++ (rn, proj) ∷ []),
  sizes-append acc ((rn, proj) ∷ []),
)

-- The batch of a Get Extended fits the caller's buffer, the count included: whatever the backend
-- answers, the loop keeps what it has collected within `cap`.
pub extended_loop-Fits :
    (hid : ℕ) (meta : TableMeta) (dir : Dir) (desc : ExtDesc) (cap left used : ℕ)
    → (acc : List (ℤ × List ℕ)) (w : World) → length (batch_image acc) ≡ 2 + used
    → 2 + used ≤ cap
    → FitsBuffer cap (extended_loop hid meta dir desc cap left used acc w).0
unfolding extended_loop
extended_loop-Fits hid meta dir desc cap zero used acc w e h = omega (arith, e)
extended_loop-Fits hid meta dir desc cap (suc left) used acc w e h =
    let kept : length (batch_image acc) ≤ cap = omega (arith, e) in
    let step = settle (fetch_one_extended hid meta dir desc.terms) w in
    fits_bind cap step.0 _ step.1 λ r.
      fits_result cap r (walk_end acc) _ step.1
        (λ code.
          fits_if cap (code == btr_key_not_found || code == btr_eof) (pure acc) (leave code) step.1
            kept (λ n. tt))
        λ found.
          let proj = project found.0.packed desc.field_extracts in
          fits_if cap (ltb cap (2 + used + 6 + length proj)) _ _ step.1
            (fits_if cap (is_empty acc) (leave btr_data_too_short) (pure acc) step.1 tt (λ n. kept))
            λ room.
              let done = ext_step hid meta dir found.0 found.1 step.1 in
              let rest =
                extended_loop hid meta dir desc cap left (used + 6 + length proj)
                  (acc ++ (found.0.recnum, proj) ∷ []) in
              fits_bind cap done.0 (λ _. rest) done.1
                λ u.
                  extended_loop-Fits hid meta dir desc cap left (used + 6 + length proj)
                    (acc ++ (found.0.recnum, proj) ∷ []) done.1
                    (grown acc found.0.recnum proj used e) (ground arith)
