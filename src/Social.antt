-- ===== src/Social.antt =====
-- Services/FriendSystem.swift. The database is the value that each operation is given and returns;
-- a handler that is called is the result, and one that is not called is `none`.
use Prim.Native.String.{◌++◌ as concat}
pub mod Follow
pub mod Graph
pub mod Observer
pub mod Search
use on_my_way.Base.{
  String, Bool, true, not, ◌&&◌, Option, none, some, List, [], ◌∷◌, ◌==◌, if◌then◌else◌,
}
use on_my_way.Database.{flag, NodePath, as_string, Database}
use on_my_way.Keys.UserKeys
use on_my_way.Keys.{following, followers, deleted}
use on_my_way.Model.{User}

-- `value as? String ?? ""`
abbrev pub or_empty : Option String → String
or_empty none = ""
or_empty (some s) = s

abbrev pub user_ref : String → NodePath
user_ref uid = UserKeys.path ∷ uid ∷ []

abbrev pub following_ref : String → String → NodePath
following_ref a b = UserKeys.path ∷ a ∷ following ∷ b ∷ []

abbrev pub followers_ref : String → String → NodePath
followers_ref a b = UserKeys.path ∷ a ∷ followers ∷ b ∷ []

module _ (f : Database) where
  open f use {Db, read, set_value, remove_value, query_equal, query_between}

  -- The text of a child of a user's node.
  abbrev pub user_field : Db → String → String → String
  user_field db uid key = or_empty (as_string (read db (UserKeys.path ∷ uid ∷ key ∷ [])))

  -- The user that a snapshot of a node under `users` is read as.
  abbrev pub user_at : Db → String → User
  user_at db id = record {
    name = user_field db id UserKeys.name;
    birthdate = user_field db id UserKeys.birthdate;
    uid = user_field db id UserKeys.user_id;
    profile_img_url = user_field db id UserKeys.profile_img;
  }

  -- A user that a search shows: somebody else, whose account is not deleted.
  abbrev pub is_shown : String → User → Bool
  is_shown current user = not (user.uid == current) && not (user.birthdate == deleted)

  -- The loop of both searches over the snapshots found.
  unfoldable pub collect_users : Db → String → List String → List User
  collect_users db current [] = []
  collect_users db current (snap ∷ snaps) =
      let rest = collect_users db current snaps in
      let user = user_at db snap in if is_shown current user then user ∷ rest else rest

  unfoldable pub find_users : Db → String → String → Option (List User)
  unfolding collect_users
  find_users db current query =
      if query == ""
      then none
      else some (
          collect_users db current
            (query_between db (UserKeys.path ∷ []) UserKeys.name query (concat query "\u{f8ff}")))

  unfoldable pub find_users_by_phone : Db → String → String → List User
  unfolding collect_users
  find_users_by_phone db current phone =
      collect_users db current (query_equal db (UserKeys.path ∷ []) UserKeys.phone_number phone)

  unfoldable pub get_user : Db → String → User
  get_user db id = user_at db id

  unfoldable pub follow_user : Db → String → String → Db × Bool
  follow_user db current uid =
      let db1 = set_value db (following_ref current uid) (flag true) in
      (set_value db1 (followers_ref uid current) (flag true), true)

  unfoldable pub unfollow_user : Db → String → String → Db × Bool
  unfollow_user db current uid =
      let db1 = remove_value db (following_ref current uid) in
      (remove_value db1 (followers_ref uid current), true)
