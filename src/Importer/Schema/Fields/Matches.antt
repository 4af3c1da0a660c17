-- ===== src/Importer/Schema/Fields/Matches.antt =====
-- bfile.rs, `schema_to_int`: the indexes describe the keys of the file, over its fields.
use wx_btrieve_sql_driver.Base.{
  Bool-cases, List, Option, Str, [], and_then, ap, filter_map, find, inl, inr, map, none, refl,
  some, sum, ℕ, ◌%◌, ◌^◌, ◌∷◌, ◌≡◌,
}
use wx_btrieve_sql_driver.Importer.Schema.{
  BtrieveKey, BtrieveSchema, BtrieveSeg, IndexSegment, IntIndex,
}
use wx_btrieve_sql_driver.Importer.Schema.Fields.{
  Numbering, key_len, keys_loop, schema_to_int, sort_by_offset,
}
use wx_btrieve_sql_driver.Importer.Schema.Fields.Loops.{
  IndexFor, SegmentOf, Zipped, Zipped-imp, keys_loop-NumbersKeys, with_segments,
}
use wx_btrieve_sql_driver.Importer.Schema.Fields.Refers.{IsNumbered, NamesPlace, Resolves, has_num}
use wx_btrieve_sql_driver.Importer.Schema.Fields.Sorted.{Ascending, sort-Ascending, sort-Resolves}
use wx_btrieve_sql_driver.Schema.{IntField}

-- A field at the place of a segment, if there is one.
abbrev pub IsAt : BtrieveSeg → Option IntField → Type 0
IsAt seg none = ⊥
IsAt seg (some f) = (f.offset ≡ seg.offset) × (f.length ≡ seg.length)

-- A number that the fields of a table have, and whose field is at the place of a segment.
abbrev pub Named : List IntField → BtrieveSeg → ℕ → Type 0
Named fields seg k = IsAt seg (find (has_num k) fields)

-- The index of a key: its number, its segments with their attributes, and a key length that is the
-- sum of the segments' lengths as a `u32`.
pub record Describes (fields : List IntField) (key : BtrieveKey) (ix : IntIndex) : Type 0 where
  pub index : IndexFor (Named fields) key ix
  pub key_length :
      key_len ix fields ≡ sum (map (λ (s : BtrieveSeg). s.length) key.segments) % 2 ^ 32

abbrev named_length : Option IntField → Option ℕ
named_length o = and_then o (λ f. some f.length)

resolved-Named :
    (seg : BtrieveSeg) (k : ℕ) (fields : List IntField)
    → Resolves k seg.offset seg.length fields
    → Named fields seg k
resolved-Named seg k [] h = cc
resolved-Named seg k (f ∷ fs) h = elim (Bool-cases (has_num k f)) [
  | inl e ↦ rw e (h.0.0 e)
  | inr e ↦ rw e (resolved-Named seg k fs (h.0.1, rw e at h.1))
]

named_length-IsAt :
    (seg : BtrieveSeg) (o : Option IntField) → IsAt seg o → named_length o ≡ some seg.length
named_length-IsAt seg none h = absurd h
named_length-IsAt seg (some f) h = ap some h.1

lengths-Zipped :
    (fields : List IntField) (segs : List BtrieveSeg) (isegs : List IndexSegment)
    → Zipped (SegmentOf (Named fields)) segs isegs
    → filter_map (λ (s : IndexSegment). named_length (find (has_num s.field_num) fields)) isegs
      ≡ map (λ (s : BtrieveSeg). s.length) segs
lengths-Zipped fields [] [] h = refl
lengths-Zipped fields [] (i ∷ is) h = absurd h
lengths-Zipped fields (s ∷ segs) [] h = absurd h
lengths-Zipped fields (s ∷ segs) (i ∷ is) h =
    rw (filter_map, named_length-IsAt s (find (has_num i.field_num) fields) h.0.names_it)
      (ap (λ l. s.length ∷ l) (lengths-Zipped fields segs is h.1))

index-Describes :
    (fields : List IntField) (key : BtrieveKey) (ix : IntIndex)
    → IndexFor (Named fields) key ix
    → Describes fields key ix
unfolding key_len
index-Describes fields key ix h = record {
  index = h;
  key_length = ap (λ l. sum l % 2 ^ 32) (lengths-Zipped fields key.segments ix.segments h.segments);
}

sorted-IndexFor :
    (out : Numbering) (key : BtrieveKey) (ix : IntIndex)
    → IndexFor (NamesPlace out) key ix
    → IndexFor (Named (sort_by_offset out.fields)) key ix
sorted-IndexFor out key ix h = record {
  num = h.num;
  num_segments = h.num_segments;
  segments =
      Zipped-imp (SegmentOf (NamesPlace out)) (SegmentOf (Named (sort_by_offset out.fields)))
        key.segments ix.segments
        (λ seg i r. record {
          names_it =
              resolved-Named seg i.field_num (sort_by_offset out.fields)
                (sort-Resolves i.field_num seg.offset seg.length out.fields r.names_it.1);
          attrs = r.attrs;
          descending = r.descending;
          null_value = r.null_value;
        })
        h.segments;
}

abbrev first_numbering : Numbering
first_numbering = record { fields = []; field_num = 1 }

first-IsNumbered : IsNumbered first_numbering
first-IsNumbered = record { given = tt; one_place = tt }

-- The table that a file's schema gives has its fields in the order of their offsets, and one index
-- for each key with a segment, in the order of the keys. The index has the key's number from 1, one
-- segment for each of the key's with the same attributes, direction and null value, whose field
-- number is found among the fields, at the segment's offset with its length; and its key length is the
-- sum of the segments' lengths modulo 2 ^ 32.
pub schema_to_int-Describes :
    (schema : BtrieveSchema) (table_name source_file : Str)
    → let int = schema_to_int schema table_name source_file in
      Ascending int.fields × Zipped (Describes int.fields) (with_segments schema.keys) int.indexes
unfolding schema_to_int
schema_to_int-Describes schema table_name source_file =
    let out = keys_loop schema.keys first_numbering in
    let fields = sort_by_offset out.1.fields in
    (
      sort-Ascending out.1.fields,
      Zipped-imp (IndexFor (NamesPlace out.1)) (Describes fields) (with_segments schema.keys) out.0
          (λ key ix h. index-Describes fields key ix (sorted-IndexFor out.1 key ix h))
          (keys_loop-NumbersKeys schema.keys first_numbering first-IsNumbered).zipped,
    )
