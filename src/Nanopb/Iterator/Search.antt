-- ===== src/Nanopb/Iterator/Search.antt =====
-- pb_field_iter_find of pb_common.c and find_extension_field of pb_decode.c look at every field.
use on_my_way.Base.{
  ℕ, suc, ◌≤◌, ◌<◌, ◌≡◌, some, Bool, true, false, ◌⊎◌, inl, inr, List, [], ◌∷◌, length, All, arith,
}
use native.Mathlib.Decide.{dec_lt}
use on_my_way.Nanopb.Field.{Field}
use on_my_way.Nanopb.Iterator.{
  FieldIter, field_at, here, matches, is_extension, find_rounds, ended, pb_field_iter_find,
  find_extension_field,
}
use on_my_way.Nanopb.Iterator.Rounds.{IsTagged, find_rounds-Searched, find_rounds_more}

All-each :
    (P : Field → Type 0) (fields : List Field)
    → ((i : ℕ) → i < length fields → P (field_at fields i))
    → All P fields
All-each P [] h = tt
All-each P (field ∷ fields) h =
    (h 0 (omega arith), All-each P fields (λ i k. h (suc i) (omega arith)))

-- A search from any field of a message back to it ends by itself within a round for each field.
whole_round :
    (iter : FieldIter) (test : Field → Bool)
    → IsTagged (iter.start)
    → iter.pos < length (iter.start)
    → let r = ended iter (find_rounds test (suc (length (iter.start))) iter (iter.pos)) in
      ((rounds : ℕ)
        → length (iter.start) ≤ rounds
        → find_rounds test rounds iter (iter.pos) ≡ some r)
      × (((r.0 ≡ true)
            × (r.1.pos < length (iter.start))
            × (r.1.start ≡ iter.start)
            × (test (here (r.1)) ≡ true))
          ⊎ ((r.0 ≡ false) × All (λ field. test field ≡ false) (iter.start)))
whole_round iter test tagged inside =
    let n = length (iter.start) in
    let (r, e, outcome) =
      find_rounds-Searched (iter.pos) test n iter tagged inside inside
        (inr (omega arith, omega arith)) in
    rw (find_rounds_more (iter.pos) test n (suc n) iter r (omega arith) e) (
      λ rounds h. find_rounds_more (iter.pos) test n rounds iter r h e,
      elim outcome [
        | inl found ↦ inl found
        | inr (missing, nowhere) ↦ inr (
          missing,
          All-each (λ field. test field ≡ false) (iter.start)
              (λ i h. nowhere i h (
                inr (
                  omega arith,
                  elim (dec_lt i (iter.pos)) [
                    | Dec.yes before ↦ inr before
                    | Dec.no after ↦ inl (omega arith)
                  ],
                ))),
        )
      ],
    )

-- From any field of a message whose fields have tags, the loop of `pb_field_iter_find` ends by
-- itself within as many rounds as there are fields, however many more it may take; and then it
-- either has found a field with the tag that is no extension, and the iterator stands on it, or gives
-- false, and no field of the message is one.
pub pb_field_iter_find_exact :
    (iter : FieldIter) (tag : ℕ)
    → IsTagged (iter.start)
    → iter.pos < length (iter.start)
    → let r = pb_field_iter_find iter tag in
      ((rounds : ℕ)
        → length (iter.start) ≤ rounds
        → find_rounds (matches tag) rounds iter (iter.pos) ≡ some r)
      × (((r.0 ≡ true)
            × (r.1.pos < length (iter.start))
            × (r.1.start ≡ iter.start)
            × (matches tag (here (r.1)) ≡ true))
          ⊎ ((r.0 ≡ false) × All (λ field. matches tag field ≡ false) (iter.start)))
unfolding pb_field_iter_find
pb_field_iter_find_exact iter tag tagged inside = whole_round iter (matches tag) tagged inside

-- From any field of a message whose fields have tags, the loop of `find_extension_field` ends by
-- itself within as many rounds as there are fields; and then it either has found the placeholder of
-- extensions, and the iterator stands on it, or gives false, and no field of the message is one.
pub find_extension_field_exact :
    (iter : FieldIter)
    → IsTagged (iter.start)
    → iter.pos < length (iter.start)
    → let r = find_extension_field iter in
      ((rounds : ℕ)
        → length (iter.start) ≤ rounds
        → find_rounds is_extension rounds iter (iter.pos) ≡ some r)
      × (((r.0 ≡ true)
            × (r.1.pos < length (iter.start))
            × (r.1.start ≡ iter.start)
            × (is_extension (here (r.1)) ≡ true))
          ⊎ ((r.0 ≡ false) × All (λ field. is_extension field ≡ false) (iter.start)))
unfolding find_extension_field
find_extension_field_exact iter tagged inside = whole_round iter is_extension tagged inside
