-- ===== src/Events.antt =====
-- Events: Services/EventDataExtension.swift. A forced unwrapping of a missing text stops the program;
-- a read that does so returns `none`.
pub mod Reading
pub mod Removal
pub mod Writing
use on_my_way.Base.{String, Bool, true, false, Option, none, some, List, [], ◌∷◌, if◌then◌else◌}
use on_my_way.Database.{NodePath, Database, as_string}
use on_my_way.Keys.UserKeys
use on_my_way.Keys.EventKeys
use on_my_way.Model.{Event, insert_event}
use on_my_way.Social.{or_empty}

abbrev pub events_ref : String → NodePath
events_ref uid = UserKeys.path ∷ uid ∷ EventKeys.path ∷ []

abbrev pub event_ref : String → String → NodePath
event_ref uid key = UserKeys.path ∷ uid ∷ EventKeys.path ∷ key ∷ []

abbrev pub event_child : String → String → String → NodePath
event_child uid key child = UserKeys.path ∷ uid ∷ EventKeys.path ∷ key ∷ child ∷ []

-- The event of a snapshot, where none of the three forced texts is missing.
abbrev pub force_event :
    String → Option String → Option String → Option String → Option String → Option Event
force_event uid (some uuid) (some title) description (some date) = some (record {
  uuid = uuid;
  title = title;
  description = or_empty description;
  date = date;
  sender_id = uid;
})
force_event uid _ _ _ _ = none

module _ (f : Database) where
  open f use {Db, read, children, update_child_values, remove_value, remove_error, auto_key}

  abbrev pub event_text : Db → String → String → String → Option String
  event_text db uid key child = as_string (read db (event_child uid key child))

  abbrev pub event_at : Db → String → String → Option Event
  event_at db uid key =
      force_event uid (event_text db uid key EventKeys.uuid)
        (event_text db uid key EventKeys.event_title) (event_text db uid key EventKeys.description)
        (event_text db uid key EventKeys.date)

  -- The loop of `getEvents`, over the snapshots; it inserts into a set.
  unfoldable pub collect_events : Db → String → List String → List Event → Option (List Event)
  unfolding insert_event
  collect_events db uid [] found = some found
  collect_events db uid (key ∷ keys) found = elim (event_at db uid key) [
    | none ↦ none
    | some event ↦ collect_events db uid keys (insert_event event found)
  ]

  unfoldable pub get_events : Db → String → Option (List Event)
  get_events db uid = collect_events db uid (children db (events_ref uid)) []

  -- `uploadEvent`: with no key it returns before it writes or calls its handler.
  unfoldable pub upload_event : Db → String → String → String → String → Db × Option Bool
  upload_event db uid title description date = elim (auto_key db (events_ref uid)) [
    | none ↦ (db, none)
    | some key ↦ (
      update_child_values db (event_ref uid key) (
          (EventKeys.event_title, title)
          ∷ (EventKeys.description, description)
          ∷ (EventKeys.date, date)
          ∷ (EventKeys.uuid, key)
          ∷ (EventKeys.sender_id, uid)
          ∷ []),
      some true,
    )
  ]

  unfoldable pub remove_events : Db → String → String → Db × Bool
  remove_events db uid uuid = (
    remove_value db (event_ref uid uuid),
    elim (remove_error db (event_ref uid uuid)) [ some error ↦ false | none ↦ true ],
  )
