-- ===== src/Feed/Order.antt =====
-- The sorting and the filter of Controller/EventsVC.swift.
use on_my_way.Base.{
  ◌≡◌, ◌↔◌, refl, Bool, true, false, Option, none, some, ◌||◌, List, [], ◌∷◌, eq_iff, arith, Member,
  All, ◌⊎◌, inl, inr, ap,
}
use on_my_way.Model.{Event, same_event, contains_event}
use on_my_way.Model.Dates.{Calendar, converted_date}
use on_my_way.Feed.Merging.{IsDistinct}
use on_my_way.Feed.{is_earlier, insert_by_date, place, dates_before}

module _ (c : Calendar) where
  open c use {Date, is_before, before_asym, before_trans}

  -- `d` has a date that is not before that of `e`.
  abbrev pub NotEarlier : Event → Event → Type 0
  NotEarlier d e = is_earlier c d e ≡ some false

  abbrev pub IsSorted : List Event → Type 0
  IsSorted [] = Unit {0}
  IsSorted (e ∷ es) = All (λ d. NotEarlier d e) es × IsSorted es

  abbrev pub IsDated : Event → Type 0
  IsDated e = (x : Date) × (converted_date c e ≡ some x)

  swapped : (x y : Option Date) → dates_before c x y ≡ some true → dates_before c y x ≡ some false
  swapped none y h = absurd (cc h)
  swapped (some x) none h = absurd (cc h)
  swapped (some x) (some y) h = ap some (before_asym x y (cc h))

  earlier_not : (d e : Event) → is_earlier c d e ≡ some true → NotEarlier e d
  unfolding is_earlier
  earlier_not d e h = swapped (converted_date c d) (converted_date c e) h

  chained :
      (x y z : Option Date)
      → dates_before c x y ≡ some false
      → dates_before c y z ≡ some false
      → dates_before c x z ≡ some false
  chained none y z h k = absurd (cc h)
  chained (some x) none z h k = absurd (cc h)
  chained (some x) (some y) none h k = absurd (cc k)
  chained (some x) (some y) (some z) h k = ap some (before_trans z y x (cc k) (cc h))

  NotEarlier-trans : (a b e : Event) → NotEarlier a b → NotEarlier b e → NotEarlier a e
  unfolding is_earlier
  NotEarlier-trans a b e h k =
      chained (converted_date c a) (converted_date c b) (converted_date c e) h k

  -- What an insertion that succeeds gives: `e` before `d` and `ds`, or `d` before `e` put into `ds`.
  place_cases :
      (b : Option Bool) (e d : Event) (ds r : List Event) (rest : Option (List Event))
      → place c b e d ds rest ≡ some r
      → ((b ≡ some false) × (r ≡ e ∷ d ∷ ds))
        ⊎ ((s : List Event) × (b ≡ some true) × (rest ≡ some s) × (r ≡ d ∷ s))
  place_cases none e d ds r rest h = absurd (cc h)
  place_cases (some false) e d ds r rest h = inl (refl, cc)
  place_cases (some true) e d ds r none h = absurd (cc h)
  place_cases (some true) e d ds r (some s) h = inr (s, refl, refl, cc)

  insert_by_date_cases :
      (e d : Event) (ds r : List Event)
      → insert_by_date c e (d ∷ ds) ≡ some r
      → (NotEarlier d e × (r ≡ e ∷ d ∷ ds))
        ⊎ ((s : List Event) × NotEarlier e d × (insert_by_date c e ds ≡ some s) × (r ≡ d ∷ s))
  unfolding insert_by_date
  insert_by_date_cases e d ds r h =
      elim (place_cases (is_earlier c d e) e d ds r (insert_by_date c e ds) h) [
        | inl (p, q) ↦ inl (p, q)
        | inr (s, p, q, w) ↦ inr (s, earlier_not d e p, q, w)
      ]

  insert_by_date_nil : (e : Event) (r : List Event) → insert_by_date c e [] ≡ some r → r ≡ e ∷ []
  unfolding insert_by_date
  insert_by_date_nil e r h = cc

  -- A predicate that holds of `e` and of all of a list holds of all after the insertion.
  pub All-insert_by_date {κ} :
      (P : Event → Type κ) (e : Event) (ds r : List Event)
      → insert_by_date c e ds ≡ some r
      → P e
      → All P ds
      → All P r
  All-insert_by_date P e [] r h p ps = rw (insert_by_date_nil e r h) (p, tt)
  All-insert_by_date P e (d ∷ ds) r h p ps = elim (insert_by_date_cases e d ds r h) [
    | inl (n, q) ↦ rw q (p, ps)
    | inr (s, n, q, w) ↦ rw w (ps.0, All-insert_by_date P e ds s q p ps.1)
  ]

  pub Member-insert_by_date :
      (x e : Event) (ds r : List Event)
      → insert_by_date c e ds ≡ some r
      → Member x r ↔ ((x ≡ e) ⊎ Member x ds)
  Member-insert_by_date x e [] r h = rw (insert_by_date_nil e r h) (λ m. m, λ m. m)
  Member-insert_by_date x e (d ∷ ds) r h = elim (insert_by_date_cases e d ds r h) [
    | inl (n, q) ↦ rw q (λ m. m, λ m. m)
    | inr (s, n, q, w) ↦ rw w (
        let (there, back) = Member-insert_by_date x e ds s q in
        (
          λ m. elim m [
            | inl p ↦ inr (inl p)
            | inr m' ↦ (elim (there m') [ inl p ↦ inl p | inr k ↦ inr (inr k) ])
          ],
          λ m. elim m [
            | inl p ↦ inr (back (inl p))
            | inr (inl p) ↦ inl p
            | inr (inr k) ↦ inr (back (inr k))
          ],
        ))
  ]

  pub contains-insert_by_date :
      (x e : Event) (ds r : List Event)
      → insert_by_date c e ds ≡ some r
      → contains_event r x ≡ (same_event e x || contains_event ds x)
  unfolding contains_event
  contains-insert_by_date x e [] r h = rw (insert_by_date_nil e r h) refl
  contains-insert_by_date x e (d ∷ ds) r h = elim (insert_by_date_cases e d ds r h) [
    | inl (n, q) ↦ rw q refl
    | inr (s, n, q, w) ↦ rw w (ground (arith, contains-insert_by_date x e ds s q))
  ]

  pub insert_by_date-IsDistinct :
      (e : Event) (ds r : List Event)
      → insert_by_date c e ds ≡ some r
      → contains_event ds e ≡ false
      → IsDistinct ds
      → IsDistinct r
  unfolding contains_event
  insert_by_date-IsDistinct e [] r h f t = rw (insert_by_date_nil e r h) (f, tt)
  insert_by_date-IsDistinct e (d ∷ ds) r h f t = elim (insert_by_date_cases e d ds r h) [
    | inl (n, q) ↦ rw q (f, t)
    | inr (s, n, q, w) ↦ rw w (
      ground (
        arith,
        contains-insert_by_date d e ds s q,
        t.0,
        eq_iff e.uuid d.uuid,
        eq_iff d.uuid e.uuid,
      ),
      insert_by_date-IsDistinct e ds s q (ground arith) t.1,
    )
  ]

  All-map {κ μ} :
      (P : Event → Type κ) (Q : Event → Type μ)
      → ((d : Event) → P d → Q d)
      → (ds : List Event) → All P ds
      → All Q ds
  All-map P Q f [] ps = tt
  All-map P Q f (d ∷ ds) (p, ps) = (f d p, All-map P Q f ds ps)

  pub insert_by_date-IsSorted :
      (e : Event) (ds r : List Event) → insert_by_date c e ds ≡ some r → IsSorted ds → IsSorted r
  insert_by_date-IsSorted e [] r h s = rw (insert_by_date_nil e r h) (tt, tt)
  insert_by_date-IsSorted e (d ∷ ds) r h s = elim (insert_by_date_cases e d ds r h) [
    | inl (n, q) ↦ rw q (
      (
        n,
        All-map (λ x. NotEarlier x d) (λ x. NotEarlier x e) (λ x p. NotEarlier-trans x d e p n) ds
            s.0,
      ),
      s,
    )
    | inr (t, n, q, w) ↦ rw w (
      All-insert_by_date (λ x. NotEarlier x d) e ds t q n s.0,
      insert_by_date-IsSorted e ds t q s.1,
    )
  ]
