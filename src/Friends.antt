-- ===== src/Friends.antt =====
-- Friends: Services/FriendsDataExtension.swift. The observer of `getUserFriends` answers after the
-- handler was called; a forced unwrapping of a missing text stops the program.
pub mod Adding
use on_my_way.Base.{String, Bool, true, Option, none, some, List, [], ◌∷◌, ◌++◌}
use on_my_way.Database.{NodePath, Database, as_string}
use on_my_way.Keys.UserKeys
use on_my_way.Keys.FriendKeys

abbrev pub friends_ref : String → NodePath
friends_ref uid = UserKeys.path ∷ uid ∷ FriendKeys.path ∷ []

abbrev pub friend_ref : String → String → NodePath
friend_ref uid key = UserKeys.path ∷ uid ∷ FriendKeys.path ∷ key ∷ []

abbrev pub friend_child : String → String → NodePath
friend_child uid key = UserKeys.path ∷ uid ∷ FriendKeys.path ∷ key ∷ FriendKeys.friend_uid ∷ []

module _ (f : Database) where
  open f use {Db, read, children, update_child_values}

  -- The loop of `addUserFriend`: every friend is written to the same child.
  unfoldable pub write_friends : Db → NodePath → List String → Db
  write_friends db ref [] = db
  write_friends db ref (fuid ∷ fuids) =
      write_friends (update_child_values db ref ((FriendKeys.friend_uid, fuid) ∷ [])) ref fuids

  -- `addUserFriend`; `key` is that of the child it asks the database for.
  unfoldable pub add_user_friend : Db → String → String → List String → Db × Bool
  add_user_friend db uid key fuids = (write_friends db (friend_ref uid key) fuids, true)

  abbrev pub friend_at : Db → String → String → Option String
  friend_at db uid key = as_string (read db (friend_child uid key))

  -- The loop of the observer of `getUserFriends`, on the array that the calls before have left.
  unfoldable pub collect_friends : Db → String → List String → List String → Option (List String)
  collect_friends db uid [] found = some found
  collect_friends db uid (key ∷ keys) found = elim (friend_at db uid key) [
    | none ↦ none
    | some fuid ↦ collect_friends db uid keys (found ++ (fuid ∷ []))
  ]

  -- What the handler of `getUserFriends` is given, and the array that its observer leaves.
  unfoldable pub get_user_friends : Db → String → List String × Option (List String)
  get_user_friends db uid = ([], collect_friends db uid (children db (friends_ref uid)) [])
