-- ===== src/Feed/Fetching.antt =====
-- All answers in `fetchData` of Controller/EventsVC.swift, over the events that are stored.
use on_my_way.Base.{◌≡◌, ◌↔◌, refl, false, some, List, [], ◌∷◌, Member, ◌⊎◌, inl, inr, ◌∙◌}
use on_my_way.Database.{Database}
use on_my_way.Events.{get_events}
use on_my_way.Events.Reading.{get_events_exact}
use on_my_way.Model.{Event, User}
use on_my_way.Model.Dates.{Calendar}
use on_my_way.Feed.Shown.{IsFeed, on_events_total}
use on_my_way.Feed.{Feed, on_events, fetch_data}
use on_my_way.Feed.Readable.{IsReadable, Agrees, Shows, Shows-after}

abbrev pub friends_of {ℓ} : {Date : Type ℓ} → List (User × Date) → List User
friends_of [] = []
friends_of ((friend, now) ∷ answers) = friend ∷ friends_of answers

-- The time of the last answer, or that of the feed at the start.
abbrev pub last_time {ℓ} : {Date : Type ℓ} → Date → List (User × Date) → Date
last_time opened [] = opened
last_time opened ((friend, now) ∷ answers) = last_time now answers

-- The friends whose answers have come after those of `done`, the last one first.
abbrev answered : List User → List User → List User
answered [] done = done
answered (u ∷ us) done = answered us (u ∷ done)

Member-answered :
    (u : User) (us done : List User) → Member u (answered us done) ↔ (Member u us ⊎ Member u done)
Member-answered u [] done = (λ m. inr m, λ m. elim m [ inl k ↦ elim k [ ] | inr k ↦ k ])
Member-answered u (x ∷ us) done =
    let (there, back) = Member-answered u us (x ∷ done) in
    (
      λ m. elim (there m) [ inl k ↦ inl (inr k) | inr (inl p) ↦ inl (inl p) | inr (inr k) ↦ inr k ],
      λ m. elim m [
        | inl (inl p) ↦ back (inr (inl p))
        | inl (inr k) ↦ back (inl k)
        | inr k ↦ back (inr (inr k))
      ],
    )

of_answered : (u : User) (us : List User) → Member u (answered us []) → Member u us
of_answered u us m = elim ((Member-answered u us []).0 m) [ inl k ↦ k | inr k ↦ elim k [ ] ]

module _ (f : Database) (c : Calendar) where
  open f use {Db, exists}
  open c use {Date, is_before}

  -- No answer comes at a time before the one before it.
  abbrev pub InOrder : Date → List (User × Date) → Type 0
  InOrder opened [] = Unit {0}
  InOrder opened ((friend, now) ∷ answers) = (is_before now opened ≡ false) × InOrder now answers

  IsReadable-part :
      (db : Db) (all part : List User)
      → ((u : User) → Member u part → Member u all)
      → IsReadable f c db all
      → IsReadable f c db part
  IsReadable-part db all part h r = record {
    well_formed = λ u m. r.well_formed u (h u m);
    dated = λ u e m. r.dated u e (h u m);
    apart = λ u v uuid m k. r.apart u v uuid (h u m) (h v k);
  }

  Agrees-part :
      (db : Db) (before : Feed) (all part : List User)
      → ((u : User) → Member u part → Member u all)
      → Agrees f c db all before
      → Agrees f c db part before
  Agrees-part db before all part h g = record { agree = λ u d e m. g.agree u d e (h u m) }

  fetch_data_step :
      (db : Db) (now : Date) (friend : User) (answers : List (User × Date)) (es : List Event)
      (feed feed1 : Feed)
      → get_events f db friend.uid ≡ some es
      → on_events c now es friend feed ≡ some feed1
      → fetch_data f c db ((friend, now) ∷ answers) feed ≡ fetch_data f c db answers feed1
  unfolding fetch_data
  fetch_data_step db now friend answers es feed feed1 g h = rw (g, fetch_data) (rw (h, fetch_data))

  module _ (db : Db) (opened : Date) (before : Feed) (i : IsFeed c opened before) where
    fetch_data_from :
        (now : Date) (answers : List (User × Date)) (done : List User) (feed : Feed)
        → InOrder now answers
        → IsReadable f c db (answered (friends_of answers) done)
        → Agrees f c db (answered (friends_of answers) done) before
        → Shows f c db before now done feed
        → (after : Feed) × (fetch_data f c db answers feed ≡ some after)
          × Shows f c db before (last_time now answers) (answered (friends_of answers) done) after
    unfolding fetch_data
    fetch_data_from earlier [] done feed o r g s = (feed, refl, s)
    fetch_data_from earlier ((friend, now) ∷ answers) done feed o r g s =
        let all = answered (friends_of answers) (friend ∷ done) in
        let inside : (u : User) → Member u (friend ∷ done) → Member u all =
          λ u m. (Member-answered u (friends_of answers) (friend ∷ done)).1 (inr m) in
        let part = IsReadable-part db all (friend ∷ done) inside r in
        let (es, q, m) = get_events_exact f friend.uid db (part.well_formed friend (inl refl)) in
        let (feed1, h) =
          on_events_total c earlier now es friend feed s.feed_lem
            (λ e k. part.dated friend e (inl refl) ((m e).0 k)) in
        let (after, p, t) = fetch_data_from now answers (friend ∷ done) feed1 o.1 r g (
          Shows-after f c db opened before i earlier now done friend feed feed1 es part
            (Agrees-part db before all (friend ∷ done) inside g) s m o.0 h) in
        (after, fetch_data_step db now friend answers es feed feed1 q h ∙ p, t)

    Shows-before : Shows f c db before opened [] before
    Shows-before = record {
      feed_lem = i;
      offered = λ e. (
        λ m. (inl m, i.upcoming e m),
        λ (k, up). elim k [ inl m ↦ m | inr (u, m, st) ↦ elim m [ ] ],
      );
      friend_right = λ e m. let (u, o) = i.owned e m in (u, o, inr (m, o));
    }

  -- Where the list that is shown before is sorted, without repetition, to come and with friends at
  -- its time, the answers come in the order of their times, the events of their friends can be read,
  -- with dates, no uuid stands at two of the friends, and an event shown before and one stored under
  -- its uuid are one: `fetchData` does not stop the program; what is then shown, each once and
  -- sorted, are the events shown before, whether they are still stored or not, and those stored for
  -- the friends, as far as they are to come at the last answer; and the friend shown with an event
  -- is one for whom it is stored, or the one it had before.
  pub fetch_data_exact :
      (db : Db) (opened : Date) (before : Feed) (answers : List (User × Date))
      → IsFeed c opened before
      → InOrder opened answers
      → IsReadable f c db (friends_of answers)
      → Agrees f c db (friends_of answers) before
      → (after : Feed) × (fetch_data f c db answers before ≡ some after)
        × Shows f c db before (last_time opened answers) (friends_of answers) after
  fetch_data_exact db opened before answers i o r g =
      let friends = friends_of answers in
      let here : (u : User) → Member u (answered friends []) → Member u friends =
        λ u m. of_answered u friends m in
      let (after, p, s) =
        fetch_data_from db opened before i opened answers [] before o
          (IsReadable-part db friends (answered friends []) here r)
          (Agrees-part db before friends (answered friends []) here g)
          (Shows-before db opened before i) in
      (
        after,
        p,
        record {
          feed_lem = s.feed_lem;
          offered = λ e. (
            λ k.
                let (known, up) = (s.offered e).0 k in
                (elim known [ inl m ↦ inl m | inr (u, m, st) ↦ inr (u, here u m, st) ], up),
            λ (known, up). (s.offered e).1 (
              elim known [
                | inl m ↦ inl m
                | inr (u, m, st) ↦ inr (u, (Member-answered u friends []).1 (inl m), st)
              ],
              up,
            ),
          );
          friend_right = λ e k.
              let (u, o', w) = s.friend_right e k in
              (u, o', elim w [ inl (m, st) ↦ inl (here u m, st) | inr m ↦ inr m ]);
        },
      )
