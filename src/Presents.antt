-- ===== src/Presents.antt =====
-- Presents: Services/PresentDataExtension.swift. A forced unwrapping of a missing text stops the
-- program; a read that does so returns `none`.
pub mod Reading
pub mod Writing
pub mod Removal
use on_my_way.Base.{String, Bool, true, false, Option, none, some, List, [], ◌∷◌, ◌++◌}
use on_my_way.Database.{NodePath, Database, as_string}
use on_my_way.Keys.UserKeys
use on_my_way.Keys.PresentKeys
use on_my_way.Model.{Present}
use on_my_way.Social.{or_empty}

abbrev pub presents_ref : String → NodePath
presents_ref uid = UserKeys.path ∷ uid ∷ PresentKeys.path ∷ []

abbrev pub present_ref : String → String → NodePath
present_ref uid key = UserKeys.path ∷ uid ∷ PresentKeys.path ∷ key ∷ []

abbrev pub present_child : String → String → String → NodePath
present_child uid key child = UserKeys.path ∷ uid ∷ PresentKeys.path ∷ key ∷ child ∷ []

-- The present of a snapshot, where none of the four forced texts is missing.
abbrev pub force_present :
    Option String
    → Option String
    → Option String
    → Option String
    → Option String
    → Option String
    → Option Present
force_present (some name) (some price) (some details) (some image) uuid link = some (record {
  name = name;
  price = price;
  details = details;
  image_name = image;
  uuid = or_empty uuid;
  link = or_empty link;
})
force_present _ _ _ _ uuid link = none

module _ (f : Database) where
  open f use {Db, read, children, update_child_values, remove_value, remove_error, auto_key}

  abbrev pub present_text : Db → String → String → String → Option String
  present_text db uid key child = as_string (read db (present_child uid key child))

  abbrev pub present_at : Db → String → String → Option Present
  present_at db uid key =
      force_present (present_text db uid key PresentKeys.present_name)
        (present_text db uid key PresentKeys.price)
        (present_text db uid key PresentKeys.description)
        (present_text db uid key PresentKeys.image) (present_text db uid key PresentKeys.uuid)
        (present_text db uid key PresentKeys.link)

  -- The loop of `getPresents`, over the snapshots; it appends to an array.
  unfoldable pub collect_presents : Db → String → List String → List Present → Option (List Present)
  collect_presents db uid [] found = some found
  collect_presents db uid (key ∷ keys) found = elim (present_at db uid key) [
    | none ↦ none
    | some present ↦ collect_presents db uid keys (found ++ (present ∷ []))
  ]

  unfoldable pub get_presents : Db → String → Option (List Present)
  get_presents db uid = collect_presents db uid (children db (presents_ref uid)) []

  -- `uploadPresent`: with no key it returns before it writes or calls its handler.
  unfoldable pub upload_present :
      Db → String → String → String → String → String → String → Db × Option Bool
  upload_present db name description price image sender_id link =
      elim (auto_key db (presents_ref sender_id)) [
        | none ↦ (db, none)
        | some key ↦ (
          update_child_values db (present_ref sender_id key) (
              (PresentKeys.present_name, name)
              ∷ (PresentKeys.description, description)
              ∷ (PresentKeys.price, price)
              ∷ (PresentKeys.image, image)
              ∷ (PresentKeys.sender_id, sender_id)
              ∷ (PresentKeys.uuid, key)
              ∷ (PresentKeys.link, link)
              ∷ []),
          some true,
        )
      ]

  unfoldable pub remove_present : Db → String → String → Db × Bool
  remove_present db uid uuid = (
    remove_value db (present_ref uid uuid),
    elim (remove_error db (present_ref uid uuid)) [ some error ↦ false | none ↦ true ],
  )
