-- ===== src/Runs/Calendar.antt =====
-- The events of a user in a database in memory.
use on_my_way.Base.{◌≡◌, ◌≢◌, ◌↔◌, ◌⊎◌, refl, true, some, List, Member}
use on_my_way.Database.Memory.{memory}
use on_my_way.Model.{Event}
use on_my_way.Events.{upload_event, remove_events, get_events}
use on_my_way.Events.Reading.{IsWellFormed}
use on_my_way.Events.Writing.{new_event, upload_event-IsWellFormed, get_events-upload_event}
use on_my_way.Events.Removal.{get_events-remove_events}
use on_my_way.Runs.Sample.{two_users}

two_users-IsWellFormed : IsWellFormed memory "a" two_users
unfolding memory two_users
two_users-IsWellFormed = record { reads = λ key h. absurd (cc h) }

-- Ann with one event, whose key is "-L0".
unfoldable pub party : memory.Db
party = (upload_event memory two_users "a" "Party" "at home" "05-06-2020").0

pub party-IsWellFormed : IsWellFormed memory "a" party
unfolding party
party-IsWellFormed =
    upload_event-IsWellFormed memory "a" two_users "Party" "at home" "05-06-2020"
      two_users-IsWellFormed

get_events-upload_event_example :
    (es : List Event) × (new : List Event) × (get_events memory party "a" ≡ some es)
    × (get_events memory (upload_event memory party "a" "Walk" "" "06-06-2020").0 "a" ≡ some new)
    × ((e : Event)
        → Member e new ↔ ((e ≡ new_event "a" "-L1" "Walk" "" "06-06-2020") ⊎ Member e es))
unfolding memory party two_users upload_event
get_events-upload_event_example =
    get_events-upload_event memory "a" party "Walk" "" "06-06-2020" "-L1" party-IsWellFormed refl

get_events-remove_events_example :
    (es : List Event) × (left : List Event) × ((remove_events memory party "a" "-L0").1 ≡ true)
    × (get_events memory party "a" ≡ some es)
    × (get_events memory (remove_events memory party "a" "-L0").0 "a" ≡ some left)
    × ((e : Event) → Member e left ↔ (Member e es × (e.uuid ≢ "-L0")))
unfolding memory
get_events-remove_events_example =
    get_events-remove_events memory "a" party "-L0" party-IsWellFormed refl
