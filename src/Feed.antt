-- ===== src/Feed.antt =====
-- Controller/EventsVC.swift: the events of the followed users, from the answers of `getEvents`. A
-- forced unwrapping, an index out of range and a `fatalError` stop the program and are `none`.
pub mod Cells
pub mod Fetching
pub mod Hashing
pub mod Merging
pub mod Order
pub mod Readable
pub mod Sorting
pub mod Shown
use on_my_way.Base.{
  ℕ, zero, suc, String, Bool, true, false, Option, none, some, List, [], ◌∷◌, ◌++◌, if◌then◌else◌,
  length,
}
use on_my_way.Database.{Database}
use on_my_way.Events.{get_events}
use on_my_way.Model.{Event, User, same_event, insert_event}
use on_my_way.Model.Dates.{Calendar, converted_date, day, month}
use on_my_way.Model.Sets.{map_to_set}

-- `events` and `friendForEvent`
pub record Feed : Type 0 where
  pub events : List Event
  pub friend_for_event : List (Event × User)

-- The fields of a new EventsVC.
abbrev pub no_events : Feed
no_events = record { events = []; friend_for_event = [] }

-- `friendForEvent[event] = friend`: an equal key stays.
unfoldable pub assign : Event → User → List (Event × User) → List (Event × User)
assign event friend [] = (event, friend) ∷ []
assign event friend ((e, u) ∷ rest) =
    if same_event e event then (e, friend) ∷ rest else (e, u) ∷ assign event friend rest

-- `for event in returnedEvents`
unfoldable pub assign_all : List Event → User → List (Event × User) → List (Event × User)
unfolding assign
assign_all [] friend table = table
assign_all (event ∷ events) friend table = assign_all events friend (assign event friend table)

-- `friendForEvent[event]`
unfoldable pub friend_of : List (Event × User) → Event → Option User
friend_of [] event = none
friend_of ((e, u) ∷ rest) event = if same_event e event then some u else friend_of rest event

-- `Array(events.mapToSet({ $0 }))`
abbrev pub unique : List Event → List Event
unique events = map_to_set insert_event (λ e. e) events []

pub data Cell : Type 0 where
  header : String → String → String → String → Cell
  title : String → Cell
  presents : User → Cell

abbrev pub event_in : List Event → ℕ → Option Event
event_in [] section = none
event_in (e ∷ es) zero = some e
event_in (e ∷ es) (suc section) = event_in es section

unfoldable pub number_of_sections : Feed → ℕ
number_of_sections feed = length feed.events

module _ (c : Calendar) where
  open c use {Date, is_before}

  -- `<` of two dates that `convertedDate` may fail to give.
  abbrev pub dates_before : Option Date → Option Date → Option Bool
  dates_before (some x) (some y) = some (is_before x y)
  dates_before _ _ = none

  -- `one.convertedDate < two.convertedDate`
  unfoldable pub is_earlier : Event → Event → Option Bool
  is_earlier one two = dates_before (converted_date c one) (converted_date c two)

  -- `e` is put before `d`, or after it into the rest, as `d` is not earlier or is.
  abbrev pub place :
      Option Bool → Event → Event → List Event → Option (List Event) → Option (List Event)
  place none e d ds rest = none
  place (some false) e d ds rest = some (e ∷ d ∷ ds)
  place (some true) e d ds none = none
  place (some true) e d ds (some rest) = some (d ∷ rest)

  unfoldable pub insert_by_date : Event → List Event → Option (List Event)
  insert_by_date e [] = some (e ∷ [])
  insert_by_date e (d ∷ ds) = place (is_earlier d e) e d ds (insert_by_date e ds)

  -- `events.sort`
  unfoldable pub sort_by_date : List Event → Option (List Event)
  unfolding insert_by_date
  sort_by_date [] = some []
  sort_by_date (e ∷ es) = elim (sort_by_date es) [ none ↦ none | some ds ↦ insert_by_date e ds ]

  -- `event.convertedDate > Date()`
  unfoldable pub is_upcoming : Date → Event → Option Bool
  is_upcoming now event = dates_before (some now) (converted_date c event)

  abbrev pub keep : Option Bool → Event → Option (List Event) → Option (List Event)
  keep (some true) e (some es) = some (e ∷ es)
  keep (some false) e (some es) = some es
  keep _ e _ = none

  -- `events.filter`
  unfoldable pub keep_upcoming : Date → List Event → Option (List Event)
  unfolding is_upcoming
  keep_upcoming now [] = some []
  keep_upcoming now (e ∷ es) = keep (is_upcoming now e) e (keep_upcoming now es)

  abbrev pub filtered : Date → Option (List Event) → Option (List Event)
  filtered now none = none
  filtered now (some sorted) = keep_upcoming now sorted

  abbrev pub with_events : Option (List Event) → List (Event × User) → Option Feed
  with_events none table = none
  with_events (some events) table = some (record { events = events; friend_for_event = table })

  -- The block of `getEvents` in `fetchData`; `now` is `Date()`.
  unfoldable pub on_events : Date → List Event → User → Feed → Option Feed
  unfolding sort_by_date keep_upcoming assign_all
  on_events now returned friend feed =
      with_events (filtered now (sort_by_date (unique (feed.events ++ returned))))
        (assign_all returned friend feed.friend_for_event)

  abbrev pub header_cell : Option User → Option String → Option String → Option Cell
  header_cell (some friend) (some d) (some m) = some (header d m friend.name friend.profile_img_url)
  header_cell _ _ _ = none

  abbrev pub presents_cell : Option User → Option Cell
  presents_cell none = none
  presents_cell (some friend) = some (presents friend)

  -- The three rows of an event.
  abbrev pub cell_of : Feed → Event → ℕ → Option Cell
  cell_of feed event zero =
      header_cell (friend_of feed.friend_for_event event) (day c event) (month c event)
  cell_of feed event (suc zero) = some (title event.title)
  cell_of feed event (suc (suc row)) = presents_cell (friend_of feed.friend_for_event event)

  -- `cellForRowAt`
  unfoldable pub cell_for_row : Feed → ℕ → ℕ → Option Cell
  unfolding friend_of day month
  cell_for_row feed section row = elim (event_in feed.events section) [
    | none ↦ none
    | some event ↦ cell_of feed event row
  ]

module _ (f : Database) (c : Calendar) where
  open f use {Db}
  open c use {Date}

  -- `fetchData`: the friends in the order in which their answers come, each with the `Date()` of its
  -- answer.
  unfoldable pub fetch_data : Db → List (User × Date) → Feed → Option Feed
  fetch_data db [] feed = some feed
  fetch_data db ((friend, now) ∷ answers) feed = elim (get_events f db friend.uid) [
    | none ↦ none
    | some returned ↦ (elim (on_events c now returned friend feed) [
      | none ↦ none
      | some feed1 ↦ fetch_data db answers feed1
    ])
  ]
