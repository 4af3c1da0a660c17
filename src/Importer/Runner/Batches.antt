-- ===== src/Importer/Runner/Batches.antt =====
-- runner.rs, `import_one`: the batches that the loop over the records sends.
use wx_btrieve_sql_driver.Base.{
  All, List, Option, Str, [], ap, ap₂, arith, drop, length, length-drop, length-take, nat_eq, none,
  refl, some, suc, sym, take, take-append, take_all, text_eq, zero, ℕ, ◌++◌, ◌+◌, ◌<◌, ◌∙◌, ◌∷◌,
  ◌≡◌, ◌≤◌,
}
use wx_btrieve_sql_driver.Importer.Runner.{Attempt, finished, send_batch}
use wx_btrieve_sql_driver.Importer.Sqlsrv.{DecodedRow}

-- Consecutive blocks of `k` rows, the last one possibly shorter; the fuel bounds their number.
abbrev pub blocks : ℕ → ℕ → List DecodedRow → List (List DecodedRow)
blocks zero k rows = []
blocks (suc fuel) k [] = []
blocks (suc fuel) k (row ∷ rows) = take k (row ∷ rows) ∷ blocks fuel k (drop k (row ∷ rows))

abbrev pub flat : List (List DecodedRow) → List DecodedRow
flat [] = []
flat (b ∷ bs) = b ++ flat bs

module _ {S : Type 0} (insert : List DecodedRow → S → Option Str × S) where
  -- Batches sent one after the other, up to the first that fails.
  abbrev pub send_all : List (List DecodedRow) → ℕ → S → Attempt ℕ × S
  send_all [] total s = (finished total, s)
  send_all (b ∷ bs) total s = send_batch insert 0 total b (insert b s) (send_all bs)

  pub send_batch-ext :
      (size total : ℕ) (b : List DecodedRow) (o : Option Str × S) (k k' : ℕ → S → Attempt ℕ × S)
      → ((n : ℕ) (s : S) → k n s ≡ k' n s)
      → send_batch insert size total b o k ≡ send_batch insert 0 total b o k'
  send_batch-ext size total b (some e, s) k k' h = refl
  send_batch-ext size total b (none, s) k k' h = h (total + length b) s

drop-append : (xs ys : List DecodedRow) → drop (length xs) (xs ++ ys) ≡ ys
drop-append [] ys = refl
drop-append (x ∷ xs) ys = drop-append xs ys

drop_all : (n : ℕ) (xs : List DecodedRow) → length xs ≤ n → drop n xs ≡ []
drop_all zero [] h = refl
drop_all zero (x ∷ xs) h = absurd (omega arith)
drop_all (suc n) [] h = refl
drop_all (suc n) (x ∷ xs) h = drop_all n xs (omega arith)

pub take-drop : (n : ℕ) (xs : List DecodedRow) → take n xs ++ drop n xs ≡ xs
take-drop zero xs = refl
take-drop (suc n) [] = refl
take-drop (suc n) (x ∷ xs) = ap (λ t. x ∷ t) (take-drop n xs)

pub blocks_empty : (fuel k : ℕ) → blocks fuel k [] ≡ []
blocks_empty zero k = refl
blocks_empty (suc fuel) k = refl

-- The first block, when the rows start by `k` of them.
pub blocks_full :
    (fuel k : ℕ) (xs ys : List DecodedRow)
    → length xs ≡ k
    → 0 < k
    → blocks (suc fuel) k (xs ++ ys) ≡ xs ∷ blocks fuel k ys
blocks_full fuel k [] ys e some_k = absurd (omega (arith, e))
blocks_full fuel k (x ∷ xs) ys e some_k =
    ap₂ (λ b rest. b ∷ blocks fuel k rest)
      (ap (λ n. take n (x ∷ (xs ++ ys))) (sym e) ∙ take-append (x ∷ xs) ys)
      (ap (λ n. drop n (x ∷ (xs ++ ys))) (sym e) ∙ drop-append (x ∷ xs) ys)

-- The last block, when fewer rows are left.
pub blocks_last :
    (fuel k : ℕ) (x : DecodedRow) (xs : List DecodedRow)
    → length (x ∷ xs) < k
    → blocks (suc fuel) k (x ∷ xs) ≡ (x ∷ xs) ∷ []
blocks_last fuel k x xs short =
    ap₂ (λ b rest. b ∷ blocks fuel k rest) (take_all k (x ∷ xs) (omega arith))
      (drop_all k (x ∷ xs) (omega arith))
    ∙ ap (λ bs. (x ∷ xs) ∷ bs) (blocks_empty fuel k)

-- A batch that is neither empty nor longer than `k`.
abbrev pub IsBatch : ℕ → List DecodedRow → Type 0
IsBatch k b = (0 < length b) × (length b ≤ k)

pub blocks-IsBatch :
    (fuel k : ℕ) (rows : List DecodedRow) → 0 < k → All (IsBatch k) (blocks fuel k rows)
blocks-IsBatch zero k rows some_k = tt
blocks-IsBatch (suc fuel) k [] some_k = tt
blocks-IsBatch (suc fuel) k (row ∷ rows) some_k = (
  (omega (arith, length-take k (row ∷ rows)), omega (arith, length-take k (row ∷ rows))),
  blocks-IsBatch fuel k (drop k (row ∷ rows)) some_k,
)

pub flat-blocks :
    (fuel k : ℕ) (rows : List DecodedRow)
    → 0 < k
    → length rows ≤ fuel
    → flat (blocks fuel k rows) ≡ rows
flat-blocks zero k [] some_k room = refl
flat-blocks zero k (row ∷ rows) some_k room = absurd (omega arith)
flat-blocks (suc fuel) k [] some_k room = refl
flat-blocks (suc fuel) k (row ∷ rows) some_k room =
    ap (λ l. take k (row ∷ rows) ++ l)
      (flat-blocks fuel k (drop k (row ∷ rows)) some_k (omega (arith, length-drop k (row ∷ rows))))
    ∙ take-drop k (row ∷ rows)
