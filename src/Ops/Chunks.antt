-- ===== src/Ops/Chunks.antt =====
-- ops/update.rs: the chunks of Update Chunk stay inside the record.
use native.Mathlib.Nat.{mod-le}
use wx_btrieve_sql_driver.Base.{
  Bool, List, [], ap, arith, false, if◌then◌else◌, inl, inr, length, length-slice, length-splice,
  ltb, not, slice, slice-splice_after, slice-splice_before, splice, sym, ℕ, ◌%◌, ◌+◌, ◌-◌, ◌==◌,
  ◌^◌, ◌||◌, ◌∙◌, ◌∷◌, ◌≡◌, ◌≤◌, ◌⊎◌,
}
use wx_btrieve_sql_driver.Importer.BFile.{next}
use wx_btrieve_sql_driver.Ops.Update.{apply_chunks}
use wx_btrieve_sql_driver.World.{Result, err, ok, panic}

if_ok :
    {A : Type 0} (b c p : Bool) (e d : ℕ) (next : Result A) (out : A)
    → (if b then err e else if c then err d else if p then panic else next) ≡ ok out
    → (b ≡ false) × (c ≡ false) × (p ≡ false) × (next ≡ ok out)
if_ok b c p e d next out h = (ground arith, ground arith, ground arith, ground arith)

ok-eq : {A : Type 0} (x y : A) → ok x ≡ ok y → x ≡ y
ok-eq x y h = ground (arith, h)

-- A segment that no chunk touches.
abbrev pub Untouched : ℕ → ℕ → List (ℕ × ℕ) → Type 0
Untouched s n [] = Unit {0}
Untouched s n ((off, len) ∷ rest) = ((s + n ≤ off) ⊎ (off + len ≤ s)) × Untouched s n rest

-- When the chunks of an Update Chunk are accepted, the record keeps its length and every segment
-- that no chunk touches keeps its bytes.
pub apply_chunks-Keeps :
    (desc : List ℕ) (at : ℕ) (chunks : List (ℕ × ℕ)) (packed out : List ℕ) (s n : ℕ)
    → apply_chunks desc at chunks packed ≡ ok out
    → Untouched s n chunks
    → (length out ≡ length packed) × (slice s n out ≡ slice s n packed)
unfolding apply_chunks
apply_chunks-Keeps desc at [] packed out s n h u =
    let e = ok-eq packed out h in (ap length (sym e), ap (slice s n) (sym e))
apply_chunks-Keeps desc at ((off, len) ∷ rest) packed out s n h u =
    let data_end = (at + len) % 2 ^ 32 in
    let end = (off + len) % 2 ^ 32 in
    let src = slice at (data_end - at) desc in
    let all =
      if_ok (ltb (length desc) data_end) (ltb (length packed) end)
        (ltb data_end at || ltb end off || not (data_end - at == end - off)) 22 103
        (apply_chunks desc data_end rest (splice off src packed)) out h in
    let ordered : at ≤ data_end = ground (arith, all.2) in
    let behind : off ≤ end = ground (arith, all.2) in
    let same : data_end - at ≡ end - off = ground (arith, all.2) in
    let fits : end ≤ length packed = ground (arith, all.1) in
    let in_desc : data_end ≤ length desc = ground (arith, all.0) in
    let below : end ≤ off + len = mod-le (off + len) (2 ^ 32) in
    let size : length src ≡ data_end - at = length-slice at (data_end - at) desc (omega arith) in
    let more = apply_chunks-Keeps desc data_end rest (splice off src packed) out s n all.3 u.1 in
    (
      more.0 ∙ length-splice off src packed (omega (arith, size)),
      more.1 ∙ elim u.0 [
        | inl p ↦ slice-splice_before s n off src packed p (omega arith)
        | inr p ↦ slice-splice_after s n off src packed (omega (arith, size))
      ],
    )
