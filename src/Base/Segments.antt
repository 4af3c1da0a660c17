-- ===== src/Base/Segments.antt =====
-- `&xs[start..start + len]` and `xs[start..].copy_from_slice(src)` on lists, with their laws.
use Prim.Native.Nat.{ℕ, zero, suc, ◌+◌, ◌-◌, ◌≤◌}
use mathlib.Core.Path.{◌≡◌, refl, sym, ap, ◌∙◌}
use mathlib.Core.List.{List, [], ◌∷◌, ◌++◌}
use native.Mathlib.Omega.{arith}
use wx_btrieve_sql_driver.Base.Lists.{length, take, drop, length-append, length-take, length-drop}

module _ {ℓ} {A : Type ℓ} where
  abbrev pub slice : ℕ → ℕ → List A → List A
  slice start len xs = take len (drop start xs)

  -- Overwrites `xs` from `start` on by `src`.
  abbrev pub splice : ℕ → List A → List A → List A
  splice zero src xs = src ++ drop (length src) xs
  splice (suc n) src [] = []
  splice (suc n) src (x ∷ xs) = x ∷ splice n src xs

  pub length-slice :
      (start len : ℕ) (xs : List A) → start + len ≤ length xs → length (slice start len xs) ≡ len
  length-slice start len xs h = omega (arith, length-take len (drop start xs), length-drop start xs)

  pub length-splice :
      (start : ℕ) (src xs : List A)
      → start + length src ≤ length xs
      → length (splice start src xs) ≡ length xs
  length-splice zero src xs h =
      omega (arith, length-append src (drop (length src) xs), length-drop (length src) xs)
  length-splice (suc n) src [] h = absurd (omega arith)
  length-splice (suc n) src (x ∷ xs) h = ap suc (length-splice n src xs (omega arith))

  pub take-append : (xs ys : List A) → take (length xs) (xs ++ ys) ≡ xs
  take-append [] ys = refl
  take-append (x ∷ xs) ys = ap (λ t. x ∷ t) (take-append xs ys)

  pub take_all : (n : ℕ) (xs : List A) → length xs ≤ n → take n xs ≡ xs
  take_all zero [] h = refl
  take_all zero (x ∷ xs) h = absurd (omega arith)
  take_all (suc n) [] h = refl
  take_all (suc n) (x ∷ xs) h = ap (λ t. x ∷ t) (take_all n xs (omega arith))

  pub slice-splice_self :
      (start : ℕ) (src xs : List A)
      → start + length src ≤ length xs
      → slice start (length src) (splice start src xs) ≡ src
  slice-splice_self zero src xs h = take-append src (drop (length src) xs)
  slice-splice_self (suc n) src [] h = absurd (omega arith)
  slice-splice_self (suc n) src (x ∷ xs) h = slice-splice_self n src xs (omega arith)

  take_before :
      (n : ℕ) (t : ℕ) (src xs : List A)
      → n ≤ t
      → t ≤ length xs
      → take n (splice t src xs) ≡ take n xs
  take_before zero t src xs h b = refl
  take_before (suc n) zero src xs h b = absurd (omega arith)
  take_before (suc n) (suc t) src [] h b = refl
  take_before (suc n) (suc t) src (x ∷ xs) h b =
      ap (λ r. x ∷ r) (take_before n t src xs (omega arith) (omega arith))

  -- What lies before the written segment stays.
  pub slice-splice_before :
      (s len t : ℕ) (src xs : List A)
      → s + len ≤ t
      → t ≤ length xs
      → slice s len (splice t src xs) ≡ slice s len xs
  slice-splice_before zero len t src xs h b = take_before len t src xs (omega arith) b
  slice-splice_before (suc s) len zero src xs h b = absurd (omega arith)
  slice-splice_before (suc s) len (suc t) src [] h b = refl
  slice-splice_before (suc s) len (suc t) src (x ∷ xs) h b =
      slice-splice_before s len t src xs (omega arith) (omega arith)

  drop-append_past :
      (s : ℕ) (src ys : List A) → length src ≤ s → drop s (src ++ ys) ≡ drop (s - length src) ys
  drop-append_past s [] ys h = ap (λ (k : ℕ). drop k ys) (omega arith)
  drop-append_past zero (x ∷ src) ys h = absurd (omega arith)
  drop-append_past (suc s) (x ∷ src) ys h =
      drop-append_past s src ys (omega arith) ∙ ap (λ (k : ℕ). drop k ys) (omega arith)

  drop-nil : (n : ℕ) → drop {A = A} n [] ≡ []
  drop-nil zero = refl
  drop-nil (suc n) = refl

  drop-drop : (m n : ℕ) (xs : List A) → drop m (drop n xs) ≡ drop (n + m) xs
  drop-drop m zero xs = ap (λ (k : ℕ). drop k xs) (omega arith)
  drop-drop m (suc n) [] = drop-nil m ∙ sym (drop-nil (suc n + m))
  drop-drop m (suc n) (x ∷ xs) =
      let e : suc (n + m) ≡ suc n + m = omega arith in
      drop-drop m n xs ∙ ap (λ (k : ℕ). drop k (x ∷ xs)) e

  -- So does what lies behind it.
  pub slice-splice_after :
      (s len t : ℕ) (src xs : List A)
      → t + length src ≤ s
      → slice s len (splice t src xs) ≡ slice s len xs
  slice-splice_after s len zero src xs h = ap (take len) (
      drop-append_past s src (drop (length src) xs) (omega arith)
      ∙ drop-drop (s - length src) (length src) xs
      ∙ ap (λ (k : ℕ). drop k xs) (omega arith))
  slice-splice_after zero len (suc t) src xs h = absurd (omega arith)
  slice-splice_after (suc s) len (suc t) src [] h = refl
  slice-splice_after (suc s) len (suc t) src (x ∷ xs) h =
      slice-splice_after s len t src xs (omega arith)
