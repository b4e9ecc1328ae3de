-- ===== src/Accounts/Profile.antt =====
-- Profiles: what `updateDBUser` writes and what `getUserInfo` reads back.
use Prim.Native.String.{◌++◌ as concat}
use on_my_way.Base.{
  String, ◌≡◌, List, [], ◌∷◌, ◌==◌, eq_iff, arith, if◌then◌else◌, Bool-cases, inl, inr,
}
use on_my_way.Database.{Database}
use on_my_way.Database.Writes.{read-update, read-update_child}
use on_my_way.Keys.UserKeys
use on_my_way.Keys.{default_profile_img}
use on_my_way.Social.{user_ref}
use on_my_way.Accounts.{below_user, update_db_user, get_user_info}

module _ (f : Database) where
  open f use {Db, read, update_child_values}

  -- After `updateDBUser`, `getUserInfo` of that user gives the joined name, the birthdate, the user
  -- id and the default image, whatever image was stored before, and of any other user what it gave
  -- before.
  pub get_user_info-update_db_user :
      (db : Db) (uid first last birthdate id : String)
      → get_user_info f (update_db_user f db uid first last birthdate).0 id ≡ (
          if uid == id
          then record {
            name = concat (concat first " ") last;
            birthdate = birthdate;
            uid = uid;
            profile_img_url = default_profile_img;
          }
          else get_user_info f db id)
  unfolding update_db_user get_user_info
  get_user_info-update_db_user db uid first last birthdate id =
      let kvs : List (String × String) =
        (UserKeys.user_id, uid)
        ∷ (UserKeys.name, concat (concat first " ") last)
        ∷ (UserKeys.birthdate, birthdate)
        ∷ (UserKeys.profile_img, default_profile_img)
        ∷ [] in
      elim (Bool-cases (uid == id)) [
        | inl e ↦
            rw (e, ← (eq_iff uid id).0 e)
              (ground (
                arith,
                read-update_child f kvs db (user_ref uid) UserKeys.user_id,
                read-update_child f kvs db (user_ref uid) UserKeys.name,
                read-update_child f kvs db (user_ref uid) UserKeys.birthdate,
                read-update_child f kvs db (user_ref uid) UserKeys.profile_img,
              ))
        | inr n ↦ rw n (
            ground (
              arith,
              eq_iff uid id,
              eq_iff id uid,
              read-update f kvs db (user_ref uid) (below_user id UserKeys.user_id)
                  (ground (arith, eq_iff uid id, eq_iff id uid)),
              read-update f kvs db (user_ref uid) (below_user id UserKeys.name)
                  (ground (arith, eq_iff uid id, eq_iff id uid)),
              read-update f kvs db (user_ref uid) (below_user id UserKeys.birthdate)
                  (ground (arith, eq_iff uid id, eq_iff id uid)),
              read-update f kvs db (user_ref uid) (below_user id UserKeys.profile_img)
                  (ground (arith, eq_iff uid id, eq_iff id uid)),
            ))
      ]
