-- ===== src/Runs/Agenda.antt =====
-- The feed of events over a database in memory and a calendar of numbered days.
use on_my_way.Base.{
  ℕ, String, ◌≡◌, ◌≢◌, refl, List, sym, true, false, Option, some, none, [], ◌∷◌, ◌==◌, eq_iff, eqb,
  ltb, arith, Member, inl, inr, if◌then◌else◌, Bool-cases, ◌∙◌,
}
use on_my_way.Database.Memory.{memory}
use on_my_way.Model.{Event, User, insert_event, contains_event}
use on_my_way.Model.Dates.{Calendar, Style, uniform, local, day_only, month_only, converted_date}
use on_my_way.Events.{upload_event, event_at, event_ref}
use on_my_way.Events.Writing.{new_event}
use on_my_way.Events.Reading.{Stored}
use on_my_way.Feed.{
  Feed, fetch_data, no_events, on_events, cell_for_row, number_of_sections, friend_of, is_earlier,
  is_upcoming,
}
use on_my_way.Feed.Order.{IsDated}
use on_my_way.Feed.Shown.{IsFeed, on_events-IsFeed}
use on_my_way.Feed.Readable.{IsReadable, Agrees, Shows}
use on_my_way.Feed.Fetching.{fetch_data_exact}
use on_my_way.Feed.Cells.{cells_of, cell_for_row_total}
use on_my_way.Runs.Sample.{two_users}
use on_my_way.Runs.Calendar.{party, party-IsWellFormed}

-- Two days can be written.
abbrev pub written_day : Style → ℕ → String
written_day uniform x = if eqb x 5 then "05-06-2020" else "06-06-2020"
written_day local x = if eqb x 5 then "05 Jun 2020" else "06 Jun 2020"
written_day day_only x = if eqb x 5 then "05" else "06"
written_day month_only x = "Jun"

abbrev pub read_day : Style → String → Option ℕ
read_day s t =
    if written_day s 5 == t then some 5 else if written_day s 6 == t then some 6 else none

pub asym : (x y : ℕ) → ltb x y ≡ true → ltb y x ≡ false
asym x y h = ground arith

pub trans : (x y z : ℕ) → ltb y x ≡ false → ltb z y ≡ false → ltb z x ≡ false
trans x y z h k = ground arith

abbrev pub june : Calendar
june = record {
  Date = ℕ;
  is_before = ltb;
  format = written_day;
  parse = read_day;
  before_asym = asym;
  before_trans = trans;
}

abbrev pub ann : User
ann = record { name = "Ann Lee"; birthdate = "01-02-1990"; uid = "a"; profile_img_url = "" }

party_stored :
    (key : String)
    → event_at memory party "a" key
      ≡ (if "-L0" == key then some (new_event "a" "-L0" "Party" "at home" "05-06-2020") else none)
unfolding memory party two_users upload_event
party_stored key = ground (arith, eq_iff "-L0" key, eq_iff key "-L0")

party_uuid : (key : String) (e : Event) → event_at memory party "a" key ≡ some e → e.uuid ≡ "-L0"
party_uuid key e r = elim (Bool-cases ("-L0" == key)) [
  | inl q ↦
      (let p : some (new_event "a" "-L0" "Party" "at home" "05-06-2020") ≡ some e =
          rw q at (sym (party_stored key) ∙ r) in
        let same : new_event "a" "-L0" "Party" "at home" "05-06-2020" ≡ e = cc p in
        rw (← same) refl)
  | inr q ↦ absurd (cc (sym (party_stored key) ∙ r, q))
]

pub party-IsDated : (e : Event) → Stored memory "a" party e → IsDated june e
unfolding converted_date
party-IsDated e (key, x, r) = elim (Bool-cases ("-L0" == key)) [
  | inl q ↦
      (let p : some (new_event "a" "-L0" "Party" "at home" "05-06-2020") ≡ some e =
          rw q at (sym (party_stored key) ∙ r) in
        let same : new_event "a" "-L0" "Party" "at home" "05-06-2020" ≡ e = cc p in
        rw (← same) (5, refl))
  | inr q ↦ absurd (cc (sym (party_stored key) ∙ r, q))
]

abbrev pub bob : User
bob = record { name = "Bob Roe"; birthdate = "03-04-1991"; uid = "b"; profile_img_url = "" }

-- Bob answers first and has no events.
abbrev pub both_answers : List (User × ℕ)
both_answers = (bob, 3) ∷ (ann, 4) ∷ []

pub bob_has_none : (key : String) → memory.exists party (event_ref "b" key) ≡ false
unfolding memory party two_users upload_event
bob_has_none key = ground arith

pub party-IsReadable : IsReadable memory june party (bob ∷ ann ∷ [])
party-IsReadable = record {
  well_formed = λ u m. elim m [
    | inl p ↦ rw p (record { reads = λ key h. absurd (cc (bob_has_none key, h)) })
    | inr (inl p) ↦ rw p party-IsWellFormed
    | inr (inr k) ↦ elim k [ ]
  ];
  dated = λ u e m st. elim m [
    | inl p ↦ (let (key, x, r) = rw p at st in absurd (cc (bob_has_none key, x)))
    | inr (inl p) ↦ party-IsDated e (rw p at st)
    | inr (inr k) ↦ elim k [ ]
  ];
  apart = λ u v uuid m k x y. elim m [
    | inl p ↦ absurd (cc (bob_has_none uuid, rw p at x))
    | inr (inl p) ↦ (elim k [
      | inl q ↦ absurd (cc (bob_has_none uuid, rw q at y))
      | inr (inl q) ↦ rw (p, q) refl
      | inr (inr n) ↦ elim n [ ]
    ])
    | inr (inr n) ↦ elim n [ ]
  ];
}

-- A feed that still shows an event of a user who is followed no more.
abbrev concert : Event
concert = new_event "c" "-L9" "Concert" "" "06-06-2020"

abbrev pub left_over : Feed
left_over = record { events = concert ∷ []; friend_for_event = (concert, ann) ∷ [] }

pub left_over-IsFeed : IsFeed june 2 left_over
unfolding converted_date is_upcoming friend_of contains_event
left_over-IsFeed = record {
  distinct = (refl, tt);
  sorted = (tt, tt);
  upcoming = λ e m. elim m [ inl p ↦ rw p refl | inr k ↦ elim k [ ] ];
  owned = λ e m. elim m [ inl p ↦ (ann, rw p refl) | inr k ↦ elim k [ ] ];
}

pub left_over_unseen :
    (d : Event) (key : String) → Member d left_over.events → "-L9" ≢ key → d.uuid ≢ key
left_over_unseen d key (inl p) n = rw p n
left_over_unseen d key (inr k) n = elim k [ ]

pub left_over-Agrees : Agrees memory june party (bob ∷ ann ∷ []) left_over
left_over-Agrees = record {
  agree = λ u d e m k st p. elim m [
    | inl q ↦ (let (key, x, r) = rw q at st in absurd (cc (bob_has_none key, x)))
    | inr (inl q) ↦
        (let (key, x, r) = rw q at st in
          absurd (
            left_over_unseen d "-L0" k (ground (arith, eq_iff "-L9" "-L0"))
              (p ∙ party_uuid key e r)))
    | inr (inr n) ↦ elim n [ ]
  ];
}

fetch_data_exact_example :
    (after : Feed) × (fetch_data memory june party both_answers left_over ≡ some after)
    × Shows memory june party left_over 4 (bob ∷ ann ∷ []) after
fetch_data_exact_example =
    fetch_data_exact memory june party 2 left_over both_answers left_over-IsFeed (refl, (refl, tt))
      party-IsReadable left_over-Agrees

abbrev pub walk : Event
walk = new_event "a" "-L1" "Walk" "" "06-06-2020"

abbrev pub dinner : Event
dinner = new_event "a" "-L0" "Dinner" "" "05-06-2020"

-- The walk comes later and is answered first.
june_feed : Feed
june_feed = record {
  events = dinner ∷ walk ∷ [];
  friend_for_event = (walk, ann) ∷ (dinner, ann) ∷ [];
}

june_answer : on_events june 3 (walk ∷ dinner ∷ []) ann no_events ≡ some june_feed
unfolding on_events june_feed converted_date insert_event is_earlier
june_answer = refl

no_events-IsFeed : IsFeed june 0 no_events
no_events-IsFeed = record {
  distinct = tt;
  sorted = tt;
  upcoming = λ e m. elim m [ ];
  owned = λ e m. elim m [ ];
}

june_feed-IsFeed : IsFeed june 3 june_feed
june_feed-IsFeed =
    on_events-IsFeed june 0 3 (walk ∷ dinner ∷ []) ann no_events june_feed june_answer
      no_events-IsFeed

on_events-IsFeed_example : IsFeed june 3 june_feed
on_events-IsFeed_example =
    on_events-IsFeed june 0 3 (walk ∷ dinner ∷ []) ann no_events june_feed june_answer
      no_events-IsFeed

cell_for_row_total_example :
    (e : Event) × (u : User) × (x : ℕ) × Member e june_feed.events
    × (friend_of june_feed.friend_for_event e ≡ some u)
    × (converted_date june e ≡ some x)
    × (cell_for_row june june_feed 1 0 ≡ some (cells_of june u x e 0))
unfolding june_feed number_of_sections
cell_for_row_total_example = cell_for_row_total june 3 june_feed 1 0 june_feed-IsFeed (omega arith)
