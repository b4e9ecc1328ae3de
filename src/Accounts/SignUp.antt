-- ===== src/Accounts/SignUp.antt =====
-- `regiserUser` of Services/PhoneAuthService.swift: the race between the check of the number and the
-- write of the new data.
use on_my_way.Base.{
  String, ◌≡◌, refl, true, false, ◌||◌, some, List, [], ◌∷◌, ◌==◌, eq_iff, arith, if◌then◌else◌,
  Bool-cases, inl, inr, ◌≢◌,
}
use on_my_way.Database.{Database, words}
use on_my_way.Database.Writes.{read-update, read-update_child}
use on_my_way.Keys.UserKeys
use on_my_way.Keys.{deleted}
use on_my_way.Social.{user_ref, user_field}
use on_my_way.Accounts.{below_user, check_phone_number, create_db_user, register_user, signed_in}
use on_my_way.Accounts.PhoneCheck.{InUse, check_phone_number_exact}

module _ (f : Database) (uid provider phone : String) where
  open f use {Db, read, exists, set_value, exists-set_value, update_child_values_lem}

  abbrev pub sign_up_data : List (String × String)
  sign_up_data = (UserKeys.provider, provider) ∷ (UserKeys.phone_number, phone) ∷ []

  exists-create_db_user :
      (db : Db) (id : String)
      → exists (create_db_user f db uid sign_up_data) (user_ref id)
        ≡ (uid == id || exists db (user_ref id))
  unfolding create_db_user
  exists-create_db_user db id =
      let db1 = set_value db (below_user uid UserKeys.provider) (words provider) in
      rw (update_child_values_lem db (user_ref uid) sign_up_data) (
        ground (
          arith,
          exists-set_value db (below_user uid UserKeys.provider) (words provider) (user_ref id),
          exists-set_value db1 (below_user uid UserKeys.phone_number) (words phone) (user_ref id),
          eq_iff uid id,
          eq_iff id uid,
        ))

  -- Of the signed-in user only the provider and the number change, and nothing of any other.
  read-create_db_user :
      (db : Db) (id key : String)
      → (key == UserKeys.provider) ≡ false
      → (key == UserKeys.phone_number) ≡ false
      → read (create_db_user f db uid sign_up_data) (below_user id key)
        ≡ read db (below_user id key)
  unfolding create_db_user
  read-create_db_user db id key n k =
      read-update f sign_up_data db (user_ref uid) (below_user id key) (
        ground (
          arith,
          eq_iff key UserKeys.provider,
          eq_iff UserKeys.provider key,
          eq_iff key UserKeys.phone_number,
          eq_iff UserKeys.phone_number key,
        ))

  pub phone-create_db_user :
      (db : Db) (id : String)
      → read (create_db_user f db uid sign_up_data) (below_user id UserKeys.phone_number)
        ≡ (if uid == id then some (words phone) else read db (below_user id UserKeys.phone_number))
  unfolding create_db_user
  phone-create_db_user db id = elim (Bool-cases (uid == id)) [
    | inl e ↦ rw e (
        rw (← (eq_iff uid id).0 e)
          (read-update_child f sign_up_data db (user_ref uid) UserKeys.phone_number))
    | inr n ↦ rw n (
        read-update f sign_up_data db (user_ref uid) (below_user id UserKeys.phone_number)
          (ground (arith, eq_iff uid id, eq_iff id uid)))
  ]

  -- If the user who signs in has a record in use, it exists with the number of the sign-in.
  abbrev pub KeepsNumber : Db → Type 0
  KeepsNumber db =
      user_field f db uid UserKeys.birthdate ≢ deleted
      → user_field f db uid UserKeys.name ≢ ""
      → (exists db (user_ref uid) ≡ true)
        × (read db (below_user uid UserKeys.phone_number) ≡ some (words phone))

  pub InUse-before :
      (db : Db)
      → KeepsNumber db
      → InUse f (create_db_user f db uid sign_up_data) phone
      → InUse f db phone
  InUse-before db keeps (id, x, r, b, n) =
      let b' : user_field f db id UserKeys.birthdate ≢ deleted =
        rw (read-create_db_user db id UserKeys.birthdate refl refl) at b in
      let n' : user_field f db id UserKeys.name ≢ "" =
        rw (read-create_db_user db id UserKeys.name refl refl) at n in
      elim (Bool-cases (uid == id)) [
        | inl e ↦
            let (x', r') = keeps (rw ((eq_iff uid id).0 e) b') (rw ((eq_iff uid id).0 e) n') in
            (uid, x', r', rw ((eq_iff uid id).0 e) b', rw ((eq_iff uid id).0 e) n')
        | inr ne ↦ (
          id,
          ground (arith, exists-create_db_user db id),
          ground (arith, phone-create_db_user db id),
          b',
          n',
        )
      ]

  pub InUse-after :
      (db : Db) → InUse f db phone → InUse f (create_db_user f db uid sign_up_data) phone
  InUse-after db (id, x, r, b, n) = (
    id,
    ground (arith, exists-create_db_user db id),
    ground (arith, phone-create_db_user db id),
    rw (read-create_db_user db id UserKeys.birthdate refl refl) b,
    rw (read-create_db_user db id UserKeys.name refl refl) n,
  )

  -- If a record of the signed-in user that is in use already exists with the number of the sign-in,
  -- `regiserUser` ends in the same tree with the same notice and answer whether the number is
  -- checked before or after the new data is written.
  pub register_user_order :
      (db : Db)
      → KeepsNumber db
      → register_user f true db (signed_in uid provider (some phone))
        ≡ register_user f false db (signed_in uid provider (some phone))
  unfolding register_user
  register_user_order db keeps =
      let db1 = create_db_user f db uid sign_up_data in
      let after = check_phone_number_exact f db1 phone in
      let before = check_phone_number_exact f db phone in
      elim (Bool-cases (check_phone_number f db phone)) [
        | inl e ↦ rw (e, after.1 (InUse-after db (before.0 e)))
        | inr n ↦ elim (Bool-cases (check_phone_number f db1 phone)) [
          | inl e ↦ cc (n, before.1 (InUse-before db keeps (after.0 e)))
          | inr k ↦ rw (n, k)
        ]
      ]
