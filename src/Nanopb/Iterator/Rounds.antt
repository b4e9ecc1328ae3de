-- ===== src/Nanopb/Iterator/Rounds.antt =====
-- pb_field_iter_next of pb_common.c goes round all fields of a message, and so a search with it looks
-- at each of them.
use on_my_way.Base.{
  ℕ, zero, suc, ◌+◌, ◌≤◌, ◌<◌, ◌≡◌, ◌≢◌, refl, ap, sym, subst, ◌∙◌, Bool, true, false, ◌⊎◌, inl,
  inr, Option, some, List, [], ◌∷◌, length, All, eqb, arith, Bool-cases, if◌then◌else◌,
}
use native.Mathlib.Decide.{dec_lt}
use on_my_way.Nanopb.Field.{Field}
use on_my_way.Nanopb.Iterator.{
  FieldIter, field_at, here, pb_field_iter_next, find_rounds, stays_in_union, begin_at, step_pos,
  move_pointers,
}

-- No field has the tag of a terminator.
abbrev pub IsTagged : List Field → Type 0
IsTagged = All (λ field. field.tag ≢ 0)

tag-field_at :
    (fields : List Field) (i : ℕ)
    → IsTagged fields
    → i < length fields
    → (field_at fields i).tag ≢ 0
tag-field_at [] i t h = absurd (omega arith)
tag-field_at (field ∷ fields) zero t h = t.0
tag-field_at (field ∷ fields) (suc i) t h = tag-field_at fields i (t.1) (omega arith)

tag-field_at_end : (fields : List Field) (i : ℕ) → i ≡ length fields → (field_at fields i).tag ≡ 0
tag-field_at_end [] i h = refl
tag-field_at_end (field ∷ fields) zero h = absurd (omega (arith, h))
tag-field_at_end (field ∷ fields) (suc i) h = tag-field_at_end fields i (omega (arith, h))

eqb_zero : (n : ℕ) → n ≢ 0 → eqb n 0 ≡ false
eqb_zero n h = ground arith

eqb_same : (n : ℕ) → n ≡ 0 → eqb n 0 ≡ true
eqb_same n h = ground arith

eq_of_eqb : (a b : ℕ) → eqb a b ≡ true → a ≡ b
eq_of_eqb a b h = ground arith

ne_of_eqb : (a b : ℕ) → eqb a b ≡ false → a ≢ b
ne_of_eqb a b h e = ground arith

-- The branches of `pb_field_iter_next`, by its three tests.
unfoldable pub choose : FieldIter → Bool → Bool → Bool → Bool × FieldIter
choose iter empty last stays =
    let next = field_at (iter.start) (suc (iter.pos)) in
    if empty
    then (false, iter)
    else if last
    then (false, begin_at (iter.start) (iter.dest_struct))
    else if stays
    then (true, step_pos iter)
    else (true, move_pointers iter (here iter) next)

-- The result `r` of a step that goes to `pos`.
abbrev GoesTo : FieldIter → ℕ → Bool → Bool × FieldIter → Type 0
GoesTo iter pos more r = (r.1.pos ≡ pos) × (r.1.start ≡ iter.start) × (r.0 ≡ more)

moved :
    (iter : FieldIter) (stays : Bool)
    → GoesTo iter (suc (iter.pos)) true (choose iter false false stays)
unfolding choose
moved iter true = (refl, refl, refl)
moved iter false = (refl, refl, refl)

module _ (iter : FieldIter) (tagged : IsTagged (iter.start)) where
  next_choose :
      pb_field_iter_next iter
      ≡ choose iter
          (eqb ((here iter).tag) 0)
          (eqb ((field_at (iter.start) (suc (iter.pos))).tag) 0)
          (stays_in_union (here iter) (field_at (iter.start) (suc (iter.pos))))
  unfolding pb_field_iter_next choose
  next_choose = refl

  next_inside :
      suc (iter.pos) < length (iter.start)
      → GoesTo iter (suc (iter.pos)) true (pb_field_iter_next iter)
  next_inside h =
      let next = field_at (iter.start) (suc (iter.pos)) in
      let stays = stays_in_union (here iter) next in
      subst (GoesTo iter (suc (iter.pos)) true)
        (sym (
          next_choose
          ∙ ap (λ t. choose iter t (eqb (next.tag) 0) stays)
              (eqb_zero ((here iter).tag)
                (tag-field_at (iter.start) (iter.pos) tagged (omega arith)))
          ∙ ap (λ t. choose iter false t stays)
              (eqb_zero (next.tag) (tag-field_at (iter.start) (suc (iter.pos)) tagged h))))
        (moved iter stays)

  next_wraps : suc (iter.pos) ≡ length (iter.start) → GoesTo iter 0 false (pb_field_iter_next iter)
  unfolding choose
  next_wraps h =
      let next = field_at (iter.start) (suc (iter.pos)) in
      let stays = stays_in_union (here iter) next in
      subst (GoesTo iter 0 false)
        (sym (
          next_choose
          ∙ ap (λ t. choose iter t (eqb (next.tag) 0) stays)
              (eqb_zero ((here iter).tag)
                (tag-field_at (iter.start) (iter.pos) tagged (omega arith)))
          ∙ ap (λ t. choose iter false t stays)
              (eqb_same (next.tag) (tag-field_at_end (iter.start) (suc (iter.pos)) h))))
        (refl, refl, refl)

-- Whether a search that starts at `s` still looks at field `i` from field `p` on.
abbrev IsAhead : ℕ → ℕ → ℕ → Type 0
IsAhead p s i = ((p ≤ i) × (i < s)) ⊎ ((s ≤ p) × ((p ≤ i) ⊎ (i < s)))

-- Enough rounds to come from `p` to `s`, of `n` fields.
abbrev IsEnough : ℕ → ℕ → ℕ → ℕ → Type 0
IsEnough n fuel p s = ((p < s) × (s ≤ p + fuel)) ⊎ ((s ≤ p) × (n + s ≤ p + fuel))

-- Of a search from `p` on with `test`: it ends, and found a field, or there is none ahead.
abbrev Searched : List Field → ℕ → ℕ → (Field → Bool) → Option (Bool × FieldIter) → Type 0
Searched fields p s test o =
    (r : Bool × FieldIter) × (o ≡ some r)
    × (((r.0 ≡ true)
          × (r.1.pos < length fields)
          × (r.1.start ≡ fields)
          × (test (here (r.1)) ≡ true))
        ⊎ ((r.0 ≡ false)
            × ((i : ℕ) → i < length fields → IsAhead p s i → test (field_at fields i) ≡ false)))

module _ (n p q s : ℕ) (start_inside : s < n) where
  IsAhead-inside : q ≡ suc p → (i : ℕ) → IsAhead p s i → (i ≡ p) ⊎ ((q ≢ s) × IsAhead q s i)
  IsAhead-inside e i a = elim (dec_lt p i) [
    | Dec.yes behind ↦ inr (
      (λ same. ground arith),
      elim a [
        | inl between ↦ inl (omega (arith, between.0), between.1)
        | inr (wraps, inl after) ↦ inr (omega (arith, e), inl (omega (arith, e)))
        | inr (wraps, inr before) ↦ inr (omega (arith, e), inr before)
      ],
    )
    | Dec.no not_behind ↦ elim a [
      | inl between ↦ inl (omega (arith, between.0))
      | inr (wraps, inl after) ↦ inl (omega arith)
      | inr (wraps, inr before) ↦ inr ((λ same. omega arith), inr (omega (arith, e), inr before))
    ]
  ]

  IsAhead-wraps :
      suc p ≡ n → q ≡ 0 → (i : ℕ) → i < n → IsAhead p s i → (i ≡ p) ⊎ ((q ≢ s) × IsAhead q s i)
  IsAhead-wraps last e i h a = elim a [
    | inl between ↦ absurd (omega (arith, between.0, between.1))
    | inr (wraps, inl after) ↦ inl (omega arith)
    | inr (wraps, inr before) ↦ inr ((λ same. omega arith), inl (omega arith, before))
  ]

  IsEnough-inside : q ≡ suc p → (fuel : ℕ) → IsEnough n (suc fuel) p s → q ≢ s → IsEnough n fuel q s
  IsEnough-inside e fuel h ne = elim h [
    | inl (before, rounds) ↦ inl (omega arith, omega arith)
    | inr (after, rounds) ↦ inr (omega arith, omega arith)
  ]

  IsEnough-wraps :
      suc p ≡ n → q ≡ 0 → (fuel : ℕ) → IsEnough n (suc fuel) p s → q ≢ s → IsEnough n fuel q s
  IsEnough-wraps last e fuel h ne = elim h [
    | inl (before, rounds) ↦ absurd (omega arith)
    | inr (after, rounds) ↦ inl (omega arith, omega arith)
  ]

module _ (s : ℕ) (test : Field → Bool) where
  -- A round, by its two tests.
  turn : ℕ → FieldIter → Bool → Bool → Option (Bool × FieldIter)
  turn fuel iter found back =
      let next = (pb_field_iter_next iter).1 in
      if found
      then some (true, iter)
      else if back
      then some (false, next)
      else find_rounds test fuel next s

  -- A round that does not find the field: what the next rounds find holds from here on.
  missed_round :
      (fuel : ℕ) (iter : FieldIter)
      → test (here iter) ≡ false
      → (((pb_field_iter_next iter).1.pos ≢ s)
          → Searched
              (iter.start)
              ((pb_field_iter_next iter).1.pos)
              s
              test
              (find_rounds test fuel (pb_field_iter_next iter).1 s))
      → ((i : ℕ)
          → i < length (iter.start)
          → IsAhead (iter.pos) s i
          → (i ≡ iter.pos)
            ⊎ (((pb_field_iter_next iter).1.pos ≢ s)
                × IsAhead ((pb_field_iter_next iter).1.pos) s i))
      → Searched (iter.start) (iter.pos) s test (find_rounds test (suc fuel) iter s)
  unfolding find_rounds turn
  missed_round fuel iter missed rest split =
      let next = (pb_field_iter_next iter).1 in
      elim (Bool-cases (eqb (next.pos) s)) [
        | inl back ↦
            subst (Searched (iter.start) (iter.pos) s test)
              (sym (
                ap (λ t. turn fuel iter t (eqb (next.pos) s)) missed
                ∙ ap (turn fuel iter false) back))
              (
                (false, next),
                refl,
                inr (
                  refl,
                  (λ i h a. elim (split i h a) [
                    | inl same ↦ ap (λ t. test (field_at (iter.start) t)) same ∙ missed
                    | inr other ↦ absurd (other.0 (eq_of_eqb (next.pos) s back))
                  ]),
                ),
              )
        | inr on ↦
            subst (Searched (iter.start) (iter.pos) s test)
              (sym (
                ap (λ t. turn fuel iter t (eqb (next.pos) s)) missed
                ∙ ap (turn fuel iter false) on))
              (let (r, e, outcome) = rest (ne_of_eqb (next.pos) s on) in
                (
                  r,
                  e,
                  elim outcome [
                    | inl found ↦ inl found
                    | inr (missing, nowhere) ↦ inr (
                      missing,
                      (λ i h a. elim (split i h a) [
                        | inl same ↦ ap (λ t. test (field_at (iter.start) t)) same ∙ missed
                        | inr other ↦ nowhere i h (other.1)
                      ]),
                    )
                  ],
                ))
      ]

  pub find_rounds-Searched :
      (fuel : ℕ) (iter : FieldIter)
      → IsTagged (iter.start)
      → iter.pos < length (iter.start)
      → s < length (iter.start)
      → IsEnough (length (iter.start)) fuel (iter.pos) s
      → Searched (iter.start) (iter.pos) s test (find_rounds test fuel iter s)
  unfolding find_rounds turn
  find_rounds-Searched zero iter tagged inside start_inside enough = absurd (ground arith)
  find_rounds-Searched (suc fuel) iter tagged inside start_inside enough =
      let next = (pb_field_iter_next iter).1 in
      let n = length (iter.start) in
      elim (Bool-cases (test (here iter))) [
        | inl found ↦
            subst (Searched (iter.start) (iter.pos) s test)
              (sym (ap (λ t. turn fuel iter t (eqb (next.pos) s)) found))
              ((true, iter), refl, inl (refl, inside, refl, found))
        | inr missed ↦ elim (dec_lt (suc (iter.pos)) n) [
          | Dec.yes more_fields ↦
              let (at, same, kept) = next_inside iter tagged more_fields in
              missed_round fuel iter missed
                (λ ne.
                  subst (λ fields. Searched fields (next.pos) s test (find_rounds test fuel next s))
                    same
                    (find_rounds-Searched fuel next (subst IsTagged (sym same) tagged)
                      (omega (arith, at, ap length same)) (omega (arith, ap length same))
                      (subst (λ fields. IsEnough (length fields) fuel (next.pos) s) (sym same)
                        (IsEnough-inside n (iter.pos) (next.pos) s start_inside at fuel enough
                          ne))))
                (λ i h a. IsAhead-inside n (iter.pos) (next.pos) s start_inside at i a)
          | Dec.no last ↦
              let ends : suc (iter.pos) ≡ n = omega arith in
              let (at, same, kept) = next_wraps iter tagged ends in
              missed_round fuel iter missed
                (λ ne.
                  subst (λ fields. Searched fields (next.pos) s test (find_rounds test fuel next s))
                    same
                    (find_rounds-Searched fuel next (subst IsTagged (sym same) tagged)
                      (omega (arith, at, ap length same)) (omega (arith, ap length same))
                      (subst (λ fields. IsEnough (length fields) fuel (next.pos) s) (sym same)
                        (IsEnough-wraps n (iter.pos) (next.pos) s start_inside ends at fuel enough
                          ne))))
                (λ i h a. IsAhead-wraps n (iter.pos) (next.pos) s start_inside ends at i h a)
        ]
      ]

  -- More rounds than it takes change nothing.
  pub find_rounds_more :
      (j k : ℕ) (iter : FieldIter) (r : Bool × FieldIter)
      → j ≤ k
      → find_rounds test j iter s ≡ some r
      → find_rounds test k iter s ≡ some r
  unfolding find_rounds
  find_rounds_more zero k iter r h e = absurd (cc e)
  find_rounds_more (suc j) zero iter r h e = absurd (omega arith)
  find_rounds_more (suc j) (suc k) iter r h e =
      let next = (pb_field_iter_next iter).1 in
      elim (Bool-cases (test (here iter))) [
        | inl found ↦ rw found (rw found at e)
        | inr missed ↦ (elim (Bool-cases (eqb (next.pos) s)) [
          | inl back ↦ rw (missed, back) (rw (missed, back) at e)
          | inr on ↦
              rw (missed, on) (find_rounds_more j k next r (omega arith) (rw (missed, on) at e))
        ])
      ]
