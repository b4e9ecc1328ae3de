-- ===== src/Accounts/Deletion.antt =====
-- What `deleteUser` leaves behind.
use on_my_way.Base.{
  String, ◌≡◌, ◌≢◌, refl, Bool, true, false, ◌||◌, List, [], ◌∷◌, ◌==◌, eq_iff, arith, eq_refl,
  Bool-cases, inl, inr, ◌∙◌, if◌then◌else◌,
}
use on_my_way.Database.{Database}
use on_my_way.Database.Writes.{exists-update, read-update, read-update_child, written}
use on_my_way.Keys.UserKeys
use on_my_way.Keys.EventKeys
use on_my_way.Keys.PresentKeys
use on_my_way.Keys.{default_profile_img, following, followers, deleted}
use on_my_way.Social.{user_ref, user_field, user_at, following_ref, followers_ref}
use on_my_way.Social.Follow.{Accepts, follows, has_follower, IsMutual}
use on_my_way.Accounts.{below_user, delete_user}

abbrev written_texts : String → List (String × String)
written_texts deleted_user =
    (UserKeys.name, deleted_user)
    ∷ (UserKeys.birthdate, deleted)
    ∷ (UserKeys.phone_number, "-1")
    ∷ (UserKeys.profile_img, default_profile_img)
    ∷ []

-- The four nodes below a user that `deleteUser` removes.
abbrev pub is_list : String → Bool
is_list key =
    key == EventKeys.path || key == PresentKeys.path || key == following || key == followers

module _ (f : Database) where
  open f use {Db, read, exists, update_child_values, remove_error, remove_value}
  open f use {exists-remove_value, exists-remove_value_self, read-remove_value}

  -- The four removals of `deleteUser` on the tree `db`.
  abbrev removals : Db → String → Db
  removals db uid =
      remove_value
        (remove_value
          (remove_value (remove_value db (below_user uid EventKeys.path))
            (below_user uid PresentKeys.path))
          (below_user uid following))
        (below_user uid followers)

  -- The server refuses none of the four removals.
  pub record AcceptsAll (uid : String) : Type 0 where
    pub events : Accepts f (below_user uid EventKeys.path)
    pub presents : Accepts f (below_user uid PresentKeys.path)
    pub following_list : Accepts f (below_user uid following)
    pub followers_list : Accepts f (below_user uid followers)

  module _ (uid : String) (ok : AcceptsAll uid) where
    follows-removals :
        (db : Db) (x y : String)
        → follows f (removals db uid) x y ≡ (if uid == x then false else follows f db x y)
    follows-removals db x y =
        let db1 = remove_value db (below_user uid EventKeys.path) in
        let db2 = remove_value db1 (below_user uid PresentKeys.path) in
        let db3 = remove_value db2 (below_user uid following) in
        ground (
          arith,
          ok.events db,
          ok.presents db1,
          ok.following_list db2,
          ok.followers_list db3,
          exists-remove_value db (below_user uid EventKeys.path) (following_ref x y),
          exists-remove_value db1 (below_user uid PresentKeys.path) (following_ref x y),
          exists-remove_value db2 (below_user uid following) (following_ref x y),
          exists-remove_value db3 (below_user uid followers) (following_ref x y),
          eq_iff uid x,
          eq_iff x uid,
        )

    has_follower-removals :
        (db : Db) (x y : String)
        → has_follower f (removals db uid) y x ≡ (if uid == y then false else has_follower f db y x)
    has_follower-removals db x y =
        let db1 = remove_value db (below_user uid EventKeys.path) in
        let db2 = remove_value db1 (below_user uid PresentKeys.path) in
        let db3 = remove_value db2 (below_user uid following) in
        ground (
          arith,
          ok.events db,
          ok.presents db1,
          ok.following_list db2,
          ok.followers_list db3,
          exists-remove_value db (below_user uid EventKeys.path) (followers_ref y x),
          exists-remove_value db1 (below_user uid PresentKeys.path) (followers_ref y x),
          exists-remove_value db2 (below_user uid following) (followers_ref y x),
          exists-remove_value db3 (below_user uid followers) (followers_ref y x),
          eq_iff uid y,
          eq_iff y uid,
        )

    -- The removals spare a text of any user whose key is not one of the four lists.
    read-removals :
        (db : Db) (x key : String)
        → is_list key ≡ false
        → read (removals db uid) (below_user x key) ≡ read db (below_user x key)
    read-removals db x key n =
        let db1 = remove_value db (below_user uid EventKeys.path) in
        let db2 = remove_value db1 (below_user uid PresentKeys.path) in
        let db3 = remove_value db2 (below_user uid following) in
        ground (
          arith,
          ok.events db,
          ok.presents db1,
          ok.following_list db2,
          ok.followers_list db3,
          read-remove_value db (below_user uid EventKeys.path) (below_user x key),
          read-remove_value db1 (below_user uid PresentKeys.path) (below_user x key),
          read-remove_value db2 (below_user uid following) (below_user x key),
          read-remove_value db3 (below_user uid followers) (below_user x key),
          eq_iff EventKeys.path key,
          eq_iff key EventKeys.path,
          eq_iff PresentKeys.path key,
          eq_iff key PresentKeys.path,
          eq_iff following key,
          eq_iff key following,
          eq_iff followers key,
          eq_iff key followers,
        )

  module _ (deleted_user : String) (uid : String) (ok : AcceptsAll uid) where
    follows-delete_user :
        (db : Db) (x y : String)
        → follows f (delete_user f db deleted_user uid) x y
          ≡ (if uid == x then false else follows f db x y)
    unfolding delete_user
    follows-delete_user db x y =
        let kvs : List (String × String) = written_texts deleted_user in
        ground (
          arith,
          follows-removals uid ok (update_child_values db (user_ref uid) kvs) x y,
          exists-update f kvs db (user_ref uid) (following_ref x y) (ground arith),
        )

    has_follower-delete_user :
        (db : Db) (x y : String)
        → has_follower f (delete_user f db deleted_user uid) y x
          ≡ (if uid == y then false else has_follower f db y x)
    unfolding delete_user
    has_follower-delete_user db x y =
        let kvs : List (String × String) = written_texts deleted_user in
        ground (
          arith,
          has_follower-removals uid ok (update_child_values db (user_ref uid) kvs) x y,
          exists-update f kvs db (user_ref uid) (followers_ref y x) (ground arith),
        )

    -- A deleted account keeps its uid and loses its name, birthdate, number and picture.
    pub read-delete_user :
        (db : Db) (x key : String)
        → is_list key ≡ false
        → read (delete_user f db deleted_user uid) (below_user x key) ≡ (
            if uid == x
            then written key (written_texts deleted_user) (read db (below_user x key))
            else read db (below_user x key))
    unfolding delete_user
    read-delete_user db x key n =
        let kvs : List (String × String) = written_texts deleted_user in
        let db1 = update_child_values db (user_ref uid) kvs in
        read-removals uid ok db1 x key n ∙ elim (Bool-cases (uid == x)) [
          | inl e ↦ rw e (rw (← (eq_iff uid x).0 e) (read-update_child f kvs db (user_ref uid) key))
          | inr ne ↦ rw ne (
              read-update f kvs db (user_ref uid) (below_user x key)
                (ground (arith, eq_iff uid x, eq_iff x uid)))
        ]

    -- Where the server accepts the removals of `deleteUser`, the deleted user reads afterwards as
    -- the placeholder name, the deletion mark and the default image with the stored user id, and
    -- every other user reads as before.
    pub user_at-delete_user :
        (db : Db) (x : String)
        → user_at f (delete_user f db deleted_user uid) x ≡ (
            if uid == x
            then record {
              name = deleted_user;
              birthdate = deleted;
              uid = user_field f db x UserKeys.user_id;
              profile_img_url = default_profile_img;
            }
            else user_at f db x)
    user_at-delete_user db x = ground (
      arith,
      read-delete_user db x UserKeys.name refl,
      read-delete_user db x UserKeys.birthdate refl,
      read-delete_user db x UserKeys.user_id refl,
      read-delete_user db x UserKeys.profile_img refl,
    )

    -- Where the server accepts the removals of `deleteUser` and some other user follows the deleted
    -- one, the entries of the two sides do not agree afterwards.
    pub delete_user_breaks :
        (db : Db) (x : String)
        → x ≢ uid
        → follows f db x uid ≡ true
        → ¬ IsMutual f (delete_user f db deleted_user uid)
    delete_user_breaks db x n h m = ground (
      arith,
      m.agree x uid,
      follows-delete_user db x uid,
      has_follower-delete_user db x uid,
      eq_iff uid x,
      eq_refl uid,
    )
