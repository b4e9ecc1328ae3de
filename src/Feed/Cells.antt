-- ===== src/Feed/Cells.antt =====
-- `cellForRowAt` of Controller/EventsVC.swift does not stop the program.
use on_my_way.Base.{
  ℕ, zero, suc, ◌<◌, ◌≡◌, refl, some, List, [], ◌∷◌, arith, Member, inl, inr, length,
}
use on_my_way.Model.{Event, User}
use on_my_way.Model.Dates.{Calendar, converted_date, day, month, day_only, month_only}
use on_my_way.Feed.Shown.{IsFeed, upcoming-IsDated}
use on_my_way.Feed.{
  Feed, Cell, title, header, presents, friend_of, event_in, number_of_sections, cell_for_row,
  cell_of,
}

event_in_range :
    (es : List Event) (i : ℕ) → i < length es → (e : Event) × (event_in es i ≡ some e) × Member e es
event_in_range [] i h = absurd (omega arith)
event_in_range (e ∷ es) zero h = (e, refl, inl refl)
event_in_range (e ∷ es) (suc i) h =
    let (d, p, m) = event_in_range es i (omega arith) in (d, p, inr m)

module _ (c : Calendar) where
  open c use {Date, format}

  -- What the three rows of an event show, for its friend and its date.
  abbrev pub cells_of : User → Date → Event → ℕ → Cell
  cells_of u x e zero = header (format day_only x) (format month_only x) u.name u.profile_img_url
  cells_of u x e (suc zero) = title e.title
  cells_of u x e (suc (suc row)) = presents u

  day_lem :
      (e : Event) (x : Date) → converted_date c e ≡ some x → day c e ≡ some (format day_only x)
  unfolding day
  day_lem e x d = rw (d, day) refl

  month_lem :
      (e : Event) (x : Date) → converted_date c e ≡ some x → month c e ≡ some (format month_only x)
  unfolding month
  month_lem e x d = rw (d, month) refl

  cell_of_lem :
      (feed : Feed) (e : Event) (u : User) (x : Date) (row : ℕ)
      → friend_of feed.friend_for_event e ≡ some u
      → converted_date c e ≡ some x
      → cell_of c feed e row ≡ some (cells_of u x e row)
  cell_of_lem feed e u x zero o d = rw (o, day_lem e x d, month_lem e x d) refl
  cell_of_lem feed e u x (suc zero) o d = refl
  cell_of_lem feed e u x (suc (suc row)) o d = rw o refl

  -- In a feed whose events are to come and have friends, every row of every section in range has a
  -- cell: that of an event shown, of its friend and of its date. So none of the forced unwrappings,
  -- the index and the date stops the program.
  pub cell_for_row_total :
      (now : Date) (feed : Feed) (section row : ℕ)
      → IsFeed c now feed
      → section < number_of_sections feed
      → (e : Event) × (u : User) × (x : Date) × Member e feed.events
        × (friend_of feed.friend_for_event e ≡ some u)
        × (converted_date c e ≡ some x)
        × (cell_for_row c feed section row ≡ some (cells_of u x e row))
  unfolding cell_for_row number_of_sections
  cell_for_row_total now feed section row i h =
      let (e, p, m) = event_in_range feed.events section h in
      let (u, o) = i.owned e m in
      let (x, d) = upcoming-IsDated c now e (i.upcoming e m) in
      (e, u, x, m, o, d, rw (p, cell_for_row) (cell_of_lem feed e u x row o d))
