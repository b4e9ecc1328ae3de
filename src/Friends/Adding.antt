-- ===== src/Friends/Adding.antt =====
-- What `addUserFriend` leaves of a list of friends.
use on_my_way.Base.{
  String, ◌≡◌, some, List, [], ◌∷◌, ◌++◌, ◌==◌, eq_iff, arith, if◌then◌else◌, Bool-cases, inl, inr,
}
use on_my_way.Database.{Database}
use on_my_way.Database.Writes.{read-update, read-update_child}
use on_my_way.Keys.FriendKeys
use on_my_way.Friends.{friend_ref, friend_child, friend_at, write_friends, add_user_friend}

module _ (f : Database) where
  open f use {Db, read, update_child_values}

  friend_at-write_one :
      (db : Db) (uid key k fuid : String)
      → friend_at f
          (update_child_values db (friend_ref uid key) ((FriendKeys.friend_uid, fuid) ∷ []))
          uid
          k
        ≡ (if key == k then some fuid else friend_at f db uid k)
  friend_at-write_one db uid key k fuid = elim (Bool-cases (key == k)) [
    | inl e ↦
        rw (e, ← (eq_iff key k).0 e)
          (rw (
            read-update_child f ((FriendKeys.friend_uid, fuid) ∷ []) db (friend_ref uid key)
              FriendKeys.friend_uid))
    | inr n ↦ rw n (
        rw (
          read-update f ((FriendKeys.friend_uid, fuid) ∷ []) db (friend_ref uid key)
            (friend_child uid k) (ground (arith, eq_iff key k, eq_iff k key))))
  ]

  -- After `addUserFriend` of a list of friends that ends with `last`, the new child reads as `last`
  -- and every other child of the user's friends as before, whatever the friends before `last` are.
  pub friend_at-add_user_friend :
      (fuids : List String) (db : Db) (uid key last k : String)
      → friend_at f (add_user_friend f db uid key (fuids ++ (last ∷ []))).0 uid k
        ≡ (if key == k then some last else friend_at f db uid k)
  unfolding add_user_friend write_friends
  friend_at-add_user_friend [] db uid key last k = friend_at-write_one db uid key k last
  friend_at-add_user_friend (fuid ∷ fuids) db uid key last k =
      let db1 = update_child_values db (friend_ref uid key) ((FriendKeys.friend_uid, fuid) ∷ []) in
      ground (
        arith,
        friend_at-add_user_friend fuids db1 uid key last k,
        friend_at-write_one db uid key k fuid,
      )
