-- ===== src/World/Bounds.antt =====
-- ops/helpers.rs `write_data` and `write_key_buf`: the caller's memory around what is written.
use wx_btrieve_sql_driver.Base.{
  List, [], ap, arith, drop, length, length-splice, length-take, min, refl, some, splice, sym, take,
  take-append, ℕ, ◌++◌, ◌∙◌, ◌∷◌, ◌≡◌, ◌≤◌,
}
use wx_btrieve_sql_driver.World.{World}
use wx_btrieve_sql_driver.World.Handles.{write_data}

-- The data buffer after `write_data`: `n` bytes written, and the memory behind them.
abbrev pub WrittenInto : List ℕ → ℕ → List ℕ → World → Type 0
WrittenInto mem cap out w' =
    (new : List ℕ) × (n : ℕ) × (w'.data_buf ≡ some new)
    × (w'.data_len ≡ some n)
    × (n ≡ min (length out) cap)
    × (take n new ≡ take n out)
    × (length new ≡ length mem)
    × (drop n new ≡ drop n mem)

drop-append : (xs ys : List ℕ) → drop (length xs) (xs ++ ys) ≡ ys
drop-append [] ys = refl
drop-append (x ∷ xs) ys = drop-append xs ys

-- With a data buffer that is as long as its announced length or longer, `write_data` writes the
-- head of its data that fits that length, announces how much that is, and leaves the rest of the
-- caller's memory, and its size, as they were.
pub write_data-WrittenInto :
    (out mem : List ℕ) (cap : ℕ) (w : World)
    → w.data_buf ≡ some mem
    → w.data_len ≡ some cap
    → cap ≤ length mem
    → WrittenInto mem cap out (write_data out w)
unfolding write_data
write_data-WrittenInto out mem cap w d l h =
    let n = min (length out) cap in
    let src = take n out in
    let size : length src ≡ n = omega (arith, length-take n out) in
    rw (d, l)
      (
        splice 0 src mem,
        n,
        refl,
        refl,
        omega arith,
        ap (λ k. take k (splice 0 src mem)) (sym size) ∙ take-append src (drop (length src) mem),
        length-splice 0 src mem (omega (arith, size)),
        ap (λ k. drop k (splice 0 src mem)) (sym size)
            ∙ drop-append src (drop (length src) mem)
            ∙ ap (λ k. drop k mem) size,
      )
