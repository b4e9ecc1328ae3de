-- ===== src/Accounts/Listing.antt =====
-- `getUsersByName` and `getUsersByPhoneNumber` of Services/DataService.swift. The observer stays, and
-- each of its snapshots adds to the array that the one before has left. `contains` of a text is
-- Foundation's, an argument.
use on_my_way.Base.{
  ℕ, zero, suc, ◌*◌, String, ◌≡◌, sym, ap, ◌∙◌, Bool, ◌||◌, Option, none, some, List, [], ◌∷◌, ◌++◌,
  elem, length, length-append, arith, if◌then◌else◌,
}
use mathlib.Core.List.{append_assoc, append-nil}
use on_my_way.Database.{Database, as_string}
use on_my_way.Keys.UserKeys
use on_my_way.Model.{User}
use on_my_way.Accounts.{below_user}

-- `childSnapshot(forPath: "profileImgURL").value as? String ?? "defaultProfileImg"`
abbrev pub or_default_img : Option String → String
or_default_img none = "defaultProfileImg"
or_default_img (some url) = url

-- A user whose name, birthdate and id are there; `continue` otherwise.
abbrev pub user_of : Option String → Option String → Option String → Option String → Option User
user_of (some name) (some birthdate) (some uid) url =
    some (record {
      name = name;
      birthdate = birthdate;
      uid = uid;
      profile_img_url = or_default_img url;
    })
user_of _ _ _ url = none

abbrev pub add_user : (String → Bool) → Option User → List User
add_user test none = []
add_user test (some user) = if test user.name then user ∷ [] else []

-- A record with a number of the query and an id.
abbrev pub add_uid : List String → Option String → Option String → List String
add_uid query (some phone) (some uid) = if elem phone query then uid ∷ [] else []
add_uid query _ _ = []

module _ (f : Database) where
  open f use {Db, read, children}

  abbrev pub text_of : Db → String → String → Option String
  text_of db id key = as_string (read db (below_user id key))

  -- The loop of `getUsersByName`, on the array so far.
  unfoldable pub add_users : Db → (String → Bool) → List String → List User → List User
  add_users db test [] user_array = user_array
  add_users db test (id ∷ ids) user_array = add_users db test ids (
      user_array
      ++ add_user test (
          user_of (text_of db id UserKeys.name) (text_of db id UserKeys.birthdate)
            (text_of db id UserKeys.user_id) (text_of db id UserKeys.profile_img)))

  -- One snapshot of `getUsersByName`, and what its handler is given.
  unfoldable pub get_users_by_name :
      Db → (String → String → Bool) → String → Bool → List User → List User
  unfolding add_users
  get_users_by_name db contains query all_users user_array =
      add_users db (λ name. all_users || contains name query) (children db (UserKeys.path ∷ []))
        user_array

  -- The loop of `getUsersByPhoneNumber`.
  unfoldable pub add_uids : Db → List String → List String → List String → List String
  add_uids db query [] uid_array = uid_array
  add_uids db query (id ∷ ids) uid_array = add_uids db query ids (
      uid_array
      ++ add_uid query (text_of db id UserKeys.phone_number) (text_of db id UserKeys.user_id))

  -- One snapshot of `getUsersByPhoneNumber`, and what its handler is given.
  unfoldable pub get_users_by_phone_number : Db → List String → List String → List String
  unfolding add_uids
  get_users_by_phone_number db query uid_array =
      add_uids db query (children db (UserKeys.path ∷ [])) uid_array

  add_uids-append :
      (db : Db) (query ids uid_array : List String)
      → add_uids db query ids uid_array ≡ uid_array ++ add_uids db query ids []
  unfolding add_uids
  add_uids-append db query [] uid_array = sym (append-nil uid_array)
  add_uids-append db query (id ∷ ids) uid_array =
      let one =
        add_uid query (text_of db id UserKeys.phone_number) (text_of db id UserKeys.user_id) in
      add_uids-append db query ids (uid_array ++ one)
      ∙ append_assoc uid_array one (add_uids db query ids [])
      ∙ ap (λ t. uid_array ++ t) (sym (add_uids-append db query ids one))

  -- The array after `n` snapshots of a tree that stays the same.
  abbrev pub observed : Db → List String → ℕ → List String
  observed db query zero = []
  observed db query (suc n) = get_users_by_phone_number db query (observed db query n)

  -- The handler of `getUsersByPhoneNumber` is given each uid once more with each snapshot: after the
  -- snapshot number `n` of a tree that stays the same, `n` times the first answer.
  pub length-observed :
      (db : Db) (query : List String) (n : ℕ)
      → length (observed db query n) ≡ n * length (get_users_by_phone_number db query [])
  unfolding get_users_by_phone_number
  length-observed db query zero = omega arith
  length-observed db query (suc n) =
      let ids = children db (UserKeys.path ∷ []) in
      let before = observed db query n in
      let more = ap length (add_uids-append db query ids before) in
      grind
        (arith, more, length-append before (add_uids db query ids []), length-observed db query n)
