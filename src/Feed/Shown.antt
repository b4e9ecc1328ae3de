-- ===== src/Feed/Shown.antt =====
-- One answer to `getEvents` in Controller/EventsVC.swift, and what the table shows.
use on_my_way.Base.{
  ◌≡◌, ◌↔◌, refl, true, Option, none, some, List, [], ◌∷◌, ◌++◌, arith, Member, All, ◌⊎◌, inl, inr,
  Option-cases, Bool-cases, eq_iff, if◌then◌else◌, Member-append,
}
use on_my_way.Model.{Event, User, same_event, contains_event}
use on_my_way.Model.Dates.{Calendar, converted_date}
use on_my_way.Feed.Merging.{
  IsDistinct, first_event, Member-unique, unique-IsDistinct, contains_of_Member, Member-of_first,
}
use on_my_way.Feed.Order.{IsSorted, IsDated}
use on_my_way.Feed.Sorting.{
  Member-sort_by_date, sort_by_date-IsDistinct, sort_by_date-IsSorted, sort_by_date_total,
  Member-keep_upcoming, keep_upcoming-IsSorted, keep_upcoming-IsDistinct, keep_upcoming_total,
}
use on_my_way.Feed.{
  Feed, assign, assign_all, friend_of, unique, sort_by_date, is_upcoming, keep_upcoming, on_events,
  filtered, with_events,
}

friend_of-assign :
    (e x : Event) (u : User) (table : List (Event × User))
    → friend_of (assign e u table) x ≡ (if same_event e x then some u else friend_of table x)
unfolding friend_of assign
friend_of-assign e x u [] = refl
friend_of-assign e x u ((d, v) ∷ table) = ground (
  arith,
  eq_iff d.uuid e.uuid,
  eq_iff d.uuid x.uuid,
  eq_iff e.uuid x.uuid,
  friend_of-assign e x u table,
)

-- The table after a loop over `es`: their friend, or the one it had.
pub friend_of-assign_all :
    (es : List Event) (x : Event) (u : User) (table : List (Event × User))
    → friend_of (assign_all es u table) x
      ≡ (if contains_event es x then some u else friend_of table x)
unfolding assign_all contains_event
friend_of-assign_all [] x u table = refl
friend_of-assign_all (e ∷ es) x u table =
    ground (arith, friend_of-assign_all es x u (assign e u table), friend_of-assign e x u table)

module _ (c : Calendar) where
  open c use {Date}

  -- Events with different uuids, the earlier ones first, all of them to come, each with a friend.
  pub record IsFeed (now : Date) (feed : Feed) : Type 0 where
    pub distinct : IsDistinct feed.events
    pub sorted : IsSorted c feed.events
    pub upcoming : (e : Event) → Member e feed.events → is_upcoming c now e ≡ some true
    pub owned :
        (e : Event)
        → Member e feed.events
        → (u : User) × (friend_of feed.friend_for_event e ≡ some u)

  with_events_cases :
      (o : Option (List Event)) (table : List (Event × User)) (after : Feed)
      → with_events c o table ≡ some after
      → (o ≡ some after.events) × (after.friend_for_event ≡ table)
  with_events_cases none table after h = absurd (cc h)
  with_events_cases (some es) table after h = (ground arith, ground arith)

  filtered_cases :
      (now : Date) (o : Option (List Event)) (r : List Event)
      → filtered c now o ≡ some r
      → (s : List Event) × (o ≡ some s) × (keep_upcoming c now s ≡ some r)
  filtered_cases now none r h = absurd (cc h)
  filtered_cases now (some s) r h = (s, refl, h)

  -- The steps of an answer that does not stop the program.
  pub on_events_cases :
      (now : Date) (returned : List Event) (friend : User) (feed after : Feed)
      → on_events c now returned friend feed ≡ some after
      → (sorted : List Event) × (sort_by_date c (unique (feed.events ++ returned)) ≡ some sorted)
        × (keep_upcoming c now sorted ≡ some after.events)
        × (after.friend_for_event ≡ assign_all returned friend feed.friend_for_event)
  unfolding on_events
  on_events_cases now returned friend feed after h =
      let (p, q) = with_events_cases _ _ after h in
      let (s, k, w) = filtered_cases now _ after.events p in (s, k, w, q)

  -- Where an answer does not stop the program, an event is shown after it exactly when it is to come
  -- and is the first of its uuid among those shown before and those answered.
  pub on_events_exact :
      (now : Date) (returned : List Event) (friend : User) (feed after : Feed)
      → on_events c now returned friend feed ≡ some after
      → (e : Event)
      → Member e after.events ↔ (
          (first_event (feed.events ++ returned) e.uuid ≡ some e)
          × (is_upcoming c now e ≡ some true))
  on_events_exact now returned friend feed after h e =
      let (s, p, q, w) = on_events_cases now returned friend feed after h in
      let (there, back) = Member-keep_upcoming c e now s after.events q in
      let (down, up) = Member-sort_by_date c e (unique (feed.events ++ returned)) s p in
      let (first, firsts) = Member-unique e (feed.events ++ returned) in
      (λ m. let (k, u) = there m in (first (down k), u), λ (k, u). back (up (firsts k), u))

  friend_after :
      (returned : List Event) (friend : User) (e : Event) (table : List (Event × User))
      → (contains_event returned e ≡ true) ⊎ ((u : User) × (friend_of table e ≡ some u))
      → (u : User) × (friend_of (assign_all returned friend table) e ≡ some u)
  friend_after returned friend e table h = elim (Bool-cases (contains_event returned e)) [
    | inl k ↦ (friend, rw (friend_of-assign_all returned e friend table, k) refl)
    | inr k ↦ (elim h [
      | inl k' ↦ absurd (cc (k, k'))
      | inr (u, o) ↦ (u, rw (friend_of-assign_all returned e friend table, k) o)
    ])
  ]

  -- An answer that does not stop the program keeps the events of different uuids, sorted, all of
  -- them to come at the time of the answer, and each with a friend.
  pub on_events-IsFeed :
      (before now : Date) (returned : List Event) (friend : User) (feed after : Feed)
      → on_events c now returned friend feed ≡ some after
      → IsFeed before feed
      → IsFeed now after
  on_events-IsFeed before now returned friend feed after h i =
      let (s, p, q, w) = on_events_cases now returned friend feed after h in
      record {
        distinct = keep_upcoming-IsDistinct c now s after.events q (
            sort_by_date-IsDistinct c (unique (feed.events ++ returned)) s p
              (unique-IsDistinct (feed.events ++ returned)));
        sorted =
            keep_upcoming-IsSorted c now s after.events q
              (sort_by_date-IsSorted c (unique (feed.events ++ returned)) s p);
        upcoming = λ e m. ((on_events_exact now returned friend feed after h e).0 m).1;
        owned = λ e m. rw w (
            friend_after returned friend e feed.friend_for_event
              (elim (Member-append e feed.events returned (
                Member-of_first e.uuid e (feed.events ++ returned)
                  ((on_events_exact now returned friend feed after h e).0 m).0)) [
                    | inl k ↦ inr (i.owned e k)
                    | inr k ↦ inl (contains_of_Member e returned k)
                  ]));
      }

  All-of_Member {κ} :
      (P : Event → Type κ) (es : List Event) → ((e : Event) → Member e es → P e) → All P es
  All-of_Member P [] h = tt
  All-of_Member P (e ∷ es) h = (h e (inl refl), All-of_Member P es (λ d m. h d (inr m)))

  pub upcoming-IsDated : (now : Date) (e : Event) → is_upcoming c now e ≡ some true → IsDated c e
  unfolding is_upcoming
  upcoming-IsDated now e h = elim (Option-cases (converted_date c e)) [
    | inl n ↦ absurd (cc (rw n at h))
    | inr p ↦ p
  ]

  -- Where the events shown are to come and those answered have dates that can be read, the answer
  -- does not stop the program.
  pub on_events_total :
      (before now : Date) (returned : List Event) (friend : User) (feed : Feed)
      → IsFeed before feed
      → ((e : Event) → Member e returned → IsDated c e)
      → (after : Feed) × (on_events c now returned friend feed ≡ some after)
  unfolding on_events
  on_events_total before now returned friend feed i d =
      let dated = All-of_Member (IsDated c) (unique (feed.events ++ returned)) λ e m.
        elim (Member-append e feed.events returned (
          Member-of_first e.uuid e (feed.events ++ returned)
            ((Member-unique e (feed.events ++ returned)).0 m))) [
              | inl k ↦ upcoming-IsDated before e (i.upcoming e k)
              | inr k ↦ d e k
            ] in
      let (s, p, ds) = sort_by_date_total c (unique (feed.events ++ returned)) dated in
      let (r, q) = keep_upcoming_total c now s ds in
      (
        record { events = r; friend_for_event = assign_all returned friend feed.friend_for_event },
        rw (p, q) refl,
      )
