-- ===== src/Feed/Sorting.antt =====
-- `sort` and `filter` of Controller/EventsVC.swift: they keep what they should, in order, and do
-- not stop where every event has a date.
use on_my_way.Base.{
  ◌≡◌, ◌↔◌, refl, Bool, true, false, Option, none, some, List, [], ◌∷◌, arith, Member, All, ◌⊎◌,
  inl, inr, Option-cases, ◌∙◌,
}
use on_my_way.Model.{Event, contains_event}
use on_my_way.Model.Dates.{Calendar}
use on_my_way.Feed.Merging.{IsDistinct}
use on_my_way.Feed.Order.{
  NotEarlier, IsSorted, IsDated, All-insert_by_date, Member-insert_by_date, contains-insert_by_date,
  insert_by_date-IsDistinct, insert_by_date-IsSorted,
}
use on_my_way.Feed.{
  is_earlier, insert_by_date, sort_by_date, is_upcoming, keep_upcoming, place, keep,
}

module _ (c : Calendar) where
  open c use {Date, is_before}

  sort_cases :
      (e : Event) (es r : List Event)
      → sort_by_date c (e ∷ es) ≡ some r
      → (ds : List Event) × (sort_by_date c es ≡ some ds) × (insert_by_date c e ds ≡ some r)
  unfolding sort_by_date
  sort_cases e es r h = elim (Option-cases (sort_by_date c es)) [
    | inl n ↦ absurd (cc (rw (n, sort_by_date) at h))
    | inr (ds, p) ↦ (ds, p, rw (p, sort_by_date) at h)
  ]

  sort_nil : (r : List Event) → sort_by_date c [] ≡ some r → r ≡ []
  unfolding sort_by_date
  sort_nil r h = cc

  pub Member-sort_by_date :
      (x : Event) (es r : List Event) → sort_by_date c es ≡ some r → Member x r ↔ Member x es
  Member-sort_by_date x [] r h = rw (sort_nil r h) (λ m. m, λ m. m)
  Member-sort_by_date x (e ∷ es) r h =
      let (ds, p, q) = sort_cases e es r h in
      let (there, back) = Member-insert_by_date c x e ds r q in
      let (down, up) = Member-sort_by_date x es ds p in
      (
        λ m. elim (there m) [ inl k ↦ inl k | inr k ↦ inr (down k) ],
        λ m. elim m [ inl k ↦ back (inl k) | inr k ↦ back (inr (up k)) ],
      )

  contains-sort_by_date :
      (x : Event) (es r : List Event)
      → sort_by_date c es ≡ some r
      → contains_event r x ≡ contains_event es x
  unfolding contains_event
  contains-sort_by_date x [] r h = rw (sort_nil r h) refl
  contains-sort_by_date x (e ∷ es) r h =
      let (ds, p, q) = sort_cases e es r h in
      ground (arith, contains-insert_by_date c x e ds r q, contains-sort_by_date x es ds p)

  pub sort_by_date-IsDistinct :
      (es r : List Event) → sort_by_date c es ≡ some r → IsDistinct es → IsDistinct r
  sort_by_date-IsDistinct [] r h d = rw (sort_nil r h) tt
  sort_by_date-IsDistinct (e ∷ es) r h d =
      let (ds, p, q) = sort_cases e es r h in
      insert_by_date-IsDistinct c e ds r q (contains-sort_by_date e es ds p ∙ d.0)
        (sort_by_date-IsDistinct es ds p d.1)

  pub sort_by_date-IsSorted : (es r : List Event) → sort_by_date c es ≡ some r → IsSorted c r
  sort_by_date-IsSorted [] r h = rw (sort_nil r h) tt
  sort_by_date-IsSorted (e ∷ es) r h =
      let (ds, p, q) = sort_cases e es r h in
      insert_by_date-IsSorted c e ds r q (sort_by_date-IsSorted es ds p)

  compared : (d e : Event) → IsDated c d → IsDated c e → (b : Bool) × (is_earlier c d e ≡ some b)
  unfolding is_earlier
  compared d e (x, p) (y, q) = (is_before x y, rw (p, q) refl)

  placed :
      (b : Bool) (e d : Event) (ds s : List Event)
      → (r : List Event) × (place c (some b) e d ds (some s) ≡ some r)
  placed false e d ds s = (e ∷ d ∷ ds, refl)
  placed true e d ds s = (d ∷ s, refl)

  insert_by_date_total :
      (e : Event) (ds : List Event)
      → IsDated c e
      → All (IsDated c) ds
      → (r : List Event) × (insert_by_date c e ds ≡ some r)
  unfolding insert_by_date
  insert_by_date_total e [] p ps = (e ∷ [], refl)
  insert_by_date_total e (d ∷ ds) p (q, ps) =
      let (s, k) = insert_by_date_total e ds p ps in
      let (b, w) = compared d e q p in rw (w, k) (placed b e d ds s)

  All-sort_by_date {κ} :
      (P : Event → Type κ) (es r : List Event) → sort_by_date c es ≡ some r → All P es → All P r
  All-sort_by_date P [] r h ps = rw (sort_nil r h) tt
  All-sort_by_date P (e ∷ es) r h (p, ps) =
      let (ds, k, q) = sort_cases e es r h in
      All-insert_by_date c P e ds r q p (All-sort_by_date P es ds k ps)

  pub sort_by_date_total :
      (es : List Event)
      → All (IsDated c) es
      → (r : List Event) × (sort_by_date c es ≡ some r) × All (IsDated c) r
  unfolding sort_by_date
  sort_by_date_total [] ps = ([], refl, tt)
  sort_by_date_total (e ∷ es) (p, ps) =
      let (ds, k, qs) = sort_by_date_total es ps in
      let (r, w) = insert_by_date_total e ds p qs in
      (r, rw (k, sort_by_date) w, All-insert_by_date c (IsDated c) e ds r w p qs)

  keep_cases :
      (b : Option Bool) (e : Event) (rest : Option (List Event)) (r : List Event)
      → keep c b e rest ≡ some r
      → (es : List Event) × (rest ≡ some es)
        × (((b ≡ some true) × (r ≡ e ∷ es)) ⊎ ((b ≡ some false) × (r ≡ es)))
  keep_cases none e rest r h = absurd (cc h)
  keep_cases (some true) e none r h = absurd (cc h)
  keep_cases (some false) e none r h = absurd (cc h)
  keep_cases (some true) e (some es) r h = (es, refl, inl (refl, cc))
  keep_cases (some false) e (some es) r h = (es, refl, inr (refl, cc))

  -- What a filter that succeeds has done with the first event.
  kept_or_not :
      (now : Date) (e : Event) (es r : List Event)
      → keep_upcoming c now (e ∷ es) ≡ some r
      → (s : List Event) × (keep_upcoming c now es ≡ some s)
        × (((is_upcoming c now e ≡ some true) × (r ≡ e ∷ s))
            ⊎ ((is_upcoming c now e ≡ some false) × (r ≡ s)))
  unfolding keep_upcoming
  kept_or_not now e es r h = keep_cases (is_upcoming c now e) e (keep_upcoming c now es) r h

  keep_nil : (now : Date) (r : List Event) → keep_upcoming c now [] ≡ some r → r ≡ []
  unfolding keep_upcoming
  keep_nil now r h = cc

  pub Member-keep_upcoming :
      (x : Event) (now : Date) (es r : List Event)
      → keep_upcoming c now es ≡ some r
      → Member x r ↔ (Member x es × (is_upcoming c now x ≡ some true))
  Member-keep_upcoming x now [] r h = rw (keep_nil now r h) (λ m. elim m [ ], λ p. elim p.0 [ ])
  Member-keep_upcoming x now (e ∷ es) r h =
      let (s, p, q) = kept_or_not now e es r h in
      let (there, back) = Member-keep_upcoming x now es s p in
      elim q [
        | inl (u, w) ↦ rw w (
          λ m. elim m [ inl k ↦ (inl k, rw k u) | inr k ↦ (inr (there k).0, (there k).1) ],
          λ (m, v). elim m [ inl k ↦ inl k | inr k ↦ inr (back (k, v)) ],
        )
        | inr (u, w) ↦ rw w (
          λ m. (inr (there m).0, (there m).1),
          λ (m, v). elim m [ inl k ↦ absurd (cc (rw k at v, u)) | inr k ↦ back (k, v) ],
        )
      ]

  All-keep_upcoming {κ} :
      (P : Event → Type κ) (now : Date) (es r : List Event)
      → keep_upcoming c now es ≡ some r
      → All P es
      → All P r
  All-keep_upcoming P now [] r h ps = rw (keep_nil now r h) tt
  All-keep_upcoming P now (e ∷ es) r h ps =
      let (s, p, q) = kept_or_not now e es r h in
      let rest = All-keep_upcoming P now es s p ps.1 in
      elim q [ inl (u, w) ↦ rw w (ps.0, rest) | inr (u, w) ↦ rw w rest ]

  pub keep_upcoming-IsSorted :
      (now : Date) (es r : List Event)
      → keep_upcoming c now es ≡ some r
      → IsSorted c es
      → IsSorted c r
  keep_upcoming-IsSorted now [] r h o = rw (keep_nil now r h) tt
  keep_upcoming-IsSorted now (e ∷ es) r h o =
      let (s, p, q) = kept_or_not now e es r h in
      let rest = keep_upcoming-IsSorted now es s p o.1 in
      elim q [
        | inl (u, w) ↦ rw w (All-keep_upcoming (λ d. NotEarlier c d e) now es s p o.0, rest)
        | inr (u, w) ↦ rw w rest
      ]

  contains-keep_upcoming :
      (x : Event) (now : Date) (es r : List Event)
      → keep_upcoming c now es ≡ some r
      → contains_event es x ≡ false
      → contains_event r x ≡ false
  unfolding contains_event
  contains-keep_upcoming x now [] r h o = rw (keep_nil now r h) o
  contains-keep_upcoming x now (e ∷ es) r h o =
      let (s, p, q) = kept_or_not now e es r h in
      elim q [
        | inl (u, w) ↦ rw w (ground (arith, contains-keep_upcoming x now es s p))
        | inr (u, w) ↦ rw w (contains-keep_upcoming x now es s p (ground arith))
      ]

  pub keep_upcoming-IsDistinct :
      (now : Date) (es r : List Event)
      → keep_upcoming c now es ≡ some r
      → IsDistinct es
      → IsDistinct r
  keep_upcoming-IsDistinct now [] r h o = rw (keep_nil now r h) tt
  keep_upcoming-IsDistinct now (e ∷ es) r h o =
      let (s, p, q) = kept_or_not now e es r h in
      let rest = keep_upcoming-IsDistinct now es s p o.1 in
      elim q [
        | inl (u, w) ↦ rw w (contains-keep_upcoming e now es s p o.0, rest)
        | inr (u, w) ↦ rw w rest
      ]

  dated_upcoming :
      (now : Date) (e : Event) → IsDated c e → (b : Bool) × (is_upcoming c now e ≡ some b)
  unfolding is_upcoming
  dated_upcoming now e (x, p) = (is_before now x, rw p refl)

  kept_some :
      (b : Bool) (e : Event) (es : List Event)
      → (r : List Event) × (keep c (some b) e (some es) ≡ some r)
  kept_some true e es = (e ∷ es, refl)
  kept_some false e es = (es, refl)

  pub keep_upcoming_total :
      (now : Date) (es : List Event)
      → All (IsDated c) es
      → (r : List Event) × (keep_upcoming c now es ≡ some r)
  unfolding keep_upcoming
  keep_upcoming_total now [] ps = ([], refl)
  keep_upcoming_total now (e ∷ es) (p, ps) =
      let (s, k) = keep_upcoming_total now es ps in
      let (b, w) = dated_upcoming now e p in rw (w, k) (kept_some b e s)
