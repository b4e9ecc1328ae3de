-- ===== src/Accounts.antt =====
-- Accounts: Services/UserDataExtension.swift, Services/DeleteService.swift, `checkPhoneNumber` of
-- Services/DataService.swift and `regiserUser` of Services/PhoneAuthService.swift.
pub mod Deletion
pub mod Listing
pub mod PhoneCheck
pub mod SignUp
pub mod Profile
use Prim.Native.String.{◌++◌ as concat}
use on_my_way.Base.{
  String, Bool, true, false, not, ◌&&◌, Option, none, some, List, [], ◌∷◌, ◌==◌, if◌then◌else◌,
}
use on_my_way.Database.{NodePath, Database}
use on_my_way.Keys.UserKeys
use on_my_way.Keys.EventKeys
use on_my_way.Keys.PresentKeys
use on_my_way.Keys.{default_profile_img, following, followers, deleted}
use on_my_way.Model.{User}
use on_my_way.Social.{user_ref, user_field, user_at}

-- A child of a user's node.
abbrev pub below_user : String → String → NodePath
below_user uid key = UserKeys.path ∷ uid ∷ key ∷ []

-- The notifications that tell a known user from a new one.
pub data Notice : Type 0 where
  new_user user_exists : Notice

-- The answer to `signInAndRetrieveData`: no user, or one with a uid, a provider and perhaps a number.
pub data SignIn : Type 0 where
  refused : SignIn
  signed_in : String → String → Option String → SignIn

-- How the requests of `uploadMedia` end: the image has no JPEG form, the upload fails, the address
-- cannot be had, or it comes, perhaps empty.
pub data Upload : Type 0 where
  no_jpeg put_failed download_failed : Upload
  downloaded : Option String → Upload

-- `uploadMedia`: what its handler is given, if it is called.
unfoldable pub upload_media : Upload → Option (Option String)
upload_media no_jpeg = none
upload_media put_failed = some none
upload_media download_failed = none
upload_media (downloaded url) = some url

module _ (f : Database) where
  open f use {Db, read, update_child_values, remove_value, query_equal, remove_error}

  unfoldable pub create_db_user : Db → String → List (String × String) → Db
  create_db_user db uid user_data = update_child_values db (user_ref uid) user_data

  unfoldable pub update_db_user : Db → String → String → String → String → Db × Bool
  update_db_user db uid first_name last_name birthdate =
      let full_name = concat (concat first_name " ") last_name in
      (
        update_child_values db (user_ref uid) (
            (UserKeys.user_id, uid)
            ∷ (UserKeys.name, full_name)
            ∷ (UserKeys.birthdate, birthdate)
            ∷ (UserKeys.profile_img, default_profile_img)
            ∷ []),
        true,
      )

  unfoldable pub get_user_info : Db → String → User
  get_user_info db uid = user_at f db uid

  unfoldable pub add_user_img : Db → String → Upload → Db × Option Bool
  unfolding upload_media
  add_user_img db uid upload = elim (upload_media upload) [
    | none ↦ (db, none)
    | some none ↦ (db, none)
    | some (some url) ↦
        (update_child_values db (user_ref uid) ((UserKeys.profile_img, url) ∷ []), some true)
  ]

  -- `deleteUser`; `deleted_user` is the localised name that it writes.
  unfoldable pub delete_user : Db → String → String → Db
  delete_user db deleted_user uid =
      let db1 = update_child_values db (user_ref uid) (
        (UserKeys.name, deleted_user)
        ∷ (UserKeys.birthdate, deleted)
        ∷ (UserKeys.phone_number, "-1")
        ∷ (UserKeys.profile_img, default_profile_img)
        ∷ []) in
      let db2 = remove_value db1 (below_user uid EventKeys.path) in
      let db3 = remove_value db2 (below_user uid PresentKeys.path) in
      let db4 = remove_value db3 (below_user uid following) in
      remove_value db4 (below_user uid followers)

  -- What `checkPhoneNumber` takes for an account that is in use.
  abbrev pub is_live : Db → String → Bool
  is_live db id =
      not (user_field f db id UserKeys.birthdate == deleted)
      && not (user_field f db id UserKeys.name == "")

  -- The loop of `checkPhoneNumber`; `exists` is set and never unset.
  unfoldable pub any_live : Db → List String → Bool → Bool
  any_live db [] exists = exists
  any_live db (snap ∷ snaps) exists = any_live db snaps (if is_live db snap then true else exists)

  unfoldable pub check_phone_number : Db → String → Bool
  check_phone_number db phone =
      any_live db (query_equal db (UserKeys.path ∷ []) UserKeys.phone_number phone) false

  -- `regiserUser`: the tree, what the completion is given, and the notification. The number is
  -- checked by a request that is answered before the new data is written, or after (`late`).
  unfoldable pub register_user : Bool → Db → SignIn → Db × Option Bool × Option Notice
  register_user late db refused = (db, some false, none)
  register_user late db (signed_in uid provider none) = (db, none, none)
  register_user late db (signed_in uid provider (some phone)) =
      let db1 =
        create_db_user db uid
          ((UserKeys.provider, provider) ∷ (UserKeys.phone_number, phone) ∷ []) in
      let known = check_phone_number (if late then db1 else db) phone in
      (db1, some true, some (if known then user_exists else new_user))
