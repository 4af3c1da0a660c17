-- ===== src/Importer/Schema/Fields/Loops.antt =====
-- bfile.rs, `schema_to_int`: the loops over the keys and their segments.
use mathlib.Core.Path.{subst}
use wx_btrieve_sql_driver.Base.{List, [], ap, arith, length, refl, sym, ℕ, ◌++◌, ◌+◌, ◌∙◌, ◌∷◌, ◌≡◌}
use wx_btrieve_sql_driver.Importer.Schema.{BtrieveKey, BtrieveSeg, IndexSegment, IntIndex}
use wx_btrieve_sql_driver.Importer.Schema.Fields.{
  Numbering, field_for, index_of, index_segment, keys_loop, segments_loop,
}
use wx_btrieve_sql_driver.Importer.Schema.Fields.Refers.{
  Grows, IsNumbered, NamesPlace, field_for-Numbers,
}

-- Two lists of the same length, related element by element.
abbrev pub Zipped {ℓ κ} : {A : Type ℓ} {B : Type κ} → (A → B → Type 0) → List A → List B → Type 0
Zipped R [] [] = Unit
Zipped R [] (y ∷ ys) = ⊥
Zipped R (x ∷ xs) [] = ⊥
Zipped R (x ∷ xs) (y ∷ ys) = R x y × Zipped R xs ys

pub Zipped-imp {ℓ κ} :
    {A : Type ℓ} {B : Type κ} (R S : A → B → Type 0) (xs : List A) (ys : List B)
    → ((a : A) (b : B) → R a b → S a b)
    → Zipped R xs ys
    → Zipped S xs ys
Zipped-imp R S [] [] f h = tt
Zipped-imp R S [] (y ∷ ys) f h = h
Zipped-imp R S (x ∷ xs) [] f h = h
Zipped-imp R S (x ∷ xs) (y ∷ ys) f h = (f x y h.0, Zipped-imp R S xs ys f h.1)

length-Zipped {ℓ κ} :
    {A : Type ℓ} {B : Type κ} (R : A → B → Type 0) (xs : List A) (ys : List B)
    → Zipped R xs ys
    → length ys ≡ length xs
length-Zipped R [] [] h = refl
length-Zipped R [] (y ∷ ys) h = absurd h
length-Zipped R (x ∷ xs) [] h = absurd h
length-Zipped R (x ∷ xs) (y ∷ ys) h = omega (arith, length-Zipped R xs ys h.1)

-- An index segment for a key's segment, with a number that `names` says it may have.
pub record SegmentOf (names : BtrieveSeg → ℕ → Type 0) (seg : BtrieveSeg) (s : IndexSegment)
    : Type 0 where
  pub names_it : names seg s.field_num
  pub attrs : s.attrs ≡ seg.attributes
  pub descending : s.descending ≡ seg.descending
  pub null_value : s.null_value ≡ seg.null_value

-- An index for a key.
pub record IndexFor (names : BtrieveSeg → ℕ → Type 0) (key : BtrieveKey) (ix : IntIndex)
    : Type 0 where
  pub num : ix.num ≡ key.number + 1
  pub num_segments : ix.num_segments ≡ length key.segments
  pub segments : Zipped (SegmentOf names) key.segments ix.segments

abbrev pub with_key : List BtrieveSeg → BtrieveKey → List BtrieveKey → List BtrieveKey
with_key [] key keys = keys
with_key (seg ∷ segs) key keys = key ∷ keys

-- The keys that have segments.
abbrev pub with_segments : List BtrieveKey → List BtrieveKey
with_segments [] = []
with_segments (key ∷ keys) = with_key key.segments key (with_segments keys)

-- What numbering some segments gives.
pub record NumbersAll (segs : List BtrieveSeg) (st : Numbering)
    (out : List IndexSegment × Numbering) : Type 0 where
  pub ok : IsNumbered out.1
  pub grows : Grows st out.1
  pub zipped : Zipped (SegmentOf (NamesPlace out.1)) segs out.0

index_segment-SegmentOf :
    (names : BtrieveSeg → ℕ → Type 0) (seg : BtrieveSeg) (k : ℕ)
    → names seg k
    → SegmentOf names seg (index_segment k seg)
index_segment-SegmentOf names seg k h = record {
  names_it = h;
  attrs = refl;
  descending = refl;
  null_value = refl;
}

Grows-trans : (a b c : Numbering) → Grows a b → Grows b c → Grows a c
Grows-trans a b c f g k off len below h = let mid = f k off len below h in g k off len mid.0 mid.1

segments_loop-NumbersAll :
    (key_num n : ℕ) (segs : List BtrieveSeg) (st : Numbering)
    → IsNumbered st
    → NumbersAll segs st (segments_loop key_num n segs st)
unfolding segments_loop
segments_loop-NumbersAll key_num n [] st ok = record {
  ok = ok;
  grows = λ k off len below h. (below, h);
  zipped = tt;
}
segments_loop-NumbersAll key_num n (seg ∷ segs) st ok =
    let out = field_for key_num n seg st in
    let here = field_for-Numbers key_num n seg st ok in
    let there = segments_loop-NumbersAll key_num (n + 1) segs out.1 here.ok in
    let final = (segments_loop key_num (n + 1) segs out.1).1 in
    record {
      ok = there.ok;
      grows = Grows-trans st out.1 final here.grows there.grows;
      zipped = (
        index_segment-SegmentOf (NamesPlace final) seg out.0
            (there.grows out.0 seg.offset seg.length here.names.0 here.names.1),
        there.zipped,
      );
    }

index_of-Zipped :
    (names : BtrieveSeg → ℕ → Type 0) (key : BtrieveKey) (keys : List BtrieveKey)
    → (segs : List BtrieveSeg) (isegs : List IndexSegment) (rest : List IntIndex)
    → key.segments ≡ segs
    → Zipped (SegmentOf names) segs isegs
    → Zipped (IndexFor names) keys rest
    → Zipped (IndexFor names) (with_key segs key keys) (index_of key.number isegs ++ rest)
index_of-Zipped names key keys [] [] rest e h hs = hs
index_of-Zipped names key keys [] (i ∷ is) rest e h hs = absurd h
index_of-Zipped names key keys (s ∷ segs) [] rest e h hs = absurd h
index_of-Zipped names key keys (s ∷ segs) (i ∷ is) rest e h hs = (
  record {
    num = refl;
    num_segments = length-Zipped (SegmentOf names) (s ∷ segs) (i ∷ is) h ∙ ap length (sym e);
    segments = subst (λ l. Zipped (SegmentOf names) l (i ∷ is)) (sym e) h;
  },
  hs,
)

-- What numbering the segments of all keys gives.
pub record NumbersKeys (keys : List BtrieveKey) (st : Numbering) (out : List IntIndex × Numbering)
    : Type 0 where
  pub ok : IsNumbered out.1
  pub grows : Grows st out.1
  pub zipped : Zipped (IndexFor (NamesPlace out.1)) (with_segments keys) out.0

Grows-SegmentOf :
    (a b : Numbering) (segs : List BtrieveSeg) (isegs : List IndexSegment)
    → Grows a b
    → Zipped (SegmentOf (NamesPlace a)) segs isegs
    → Zipped (SegmentOf (NamesPlace b)) segs isegs
Grows-SegmentOf a b segs isegs g h =
    Zipped-imp (SegmentOf (NamesPlace a)) (SegmentOf (NamesPlace b)) segs isegs
      (λ seg i r. record {
        names_it = g i.field_num seg.offset seg.length r.names_it.0 r.names_it.1;
        attrs = r.attrs;
        descending = r.descending;
        null_value = r.null_value;
      })
      h

pub keys_loop-NumbersKeys :
    (keys : List BtrieveKey) (st : Numbering)
    → IsNumbered st
    → NumbersKeys keys st (keys_loop keys st)
unfolding keys_loop
keys_loop-NumbersKeys [] st ok = record {
  ok = ok;
  grows = λ k off len below h. (below, h);
  zipped = tt;
}
keys_loop-NumbersKeys (key ∷ keys) st ok =
    let out = segments_loop key.number 1 key.segments st in
    let here = segments_loop-NumbersAll key.number 1 key.segments st ok in
    let final = keys_loop keys out.1 in
    let there = keys_loop-NumbersKeys keys out.1 here.ok in
    record {
      ok = there.ok;
      grows = Grows-trans st out.1 final.1 here.grows there.grows;
      zipped =
          index_of-Zipped (NamesPlace final.1) key (with_segments keys) key.segments out.0 final.0
            refl (Grows-SegmentOf out.1 final.1 key.segments out.0 there.grows here.zipped)
            there.zipped;
    }
