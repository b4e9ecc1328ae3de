-- ===== src/Accounts/PhoneCheck.antt =====
-- `checkPhoneNumber` and the sign-up that rests on it.
use on_my_way.Base.{
  String, ◌≡◌, ◌≢◌, ◌↔◌, refl, true, false, ◌&&◌, some, List, [], ◌∷◌, ◌==◌, eq_iff, eq_refl, arith,
  Bool-cases, inl, inr, elem,
}
use on_my_way.Database.{Database, words, is_words}
use on_my_way.Database.Writes.{words_of_is_words}
use on_my_way.Keys.UserKeys
use on_my_way.Keys.{deleted}
use on_my_way.Social.{user_ref, user_field}
use on_my_way.Accounts.{below_user, is_live, any_live, check_phone_number}

module _ (f : Database) where
  open f use {Db, read, exists, query_equal, elem-children, elem-query_equal, exists_of_read}

  any_live_set : (db : Db) (ids : List String) → any_live f db ids true ≡ true
  unfolding any_live
  any_live_set db [] = refl
  any_live_set db (i ∷ ids) = ground (arith, any_live_set db ids)

  live_of_any :
      (db : Db) (ids : List String)
      → any_live f db ids false ≡ true
      → (id : String) × (elem id ids ≡ true) × (is_live f db id ≡ true)
  unfolding any_live
  live_of_any db [] h = cc
  live_of_any db (i ∷ ids) h = elim (Bool-cases (is_live f db i)) [
    | inl l ↦ (i, ground (arith, eq_refl i), l)
    | inr d ↦ (let (j, e, l) = live_of_any db ids (rw d at h) in (j, ground arith, l))
  ]

  elem_tail :
      (db : Db) (id i : String) (ids : List String)
      → elem id (i ∷ ids) ≡ true
      → is_live f db id ≡ true
      → is_live f db i ≡ false
      → elem id ids ≡ true
  elem_tail db id i ids e l d = elim (Bool-cases (i == id)) [
    | inl q ↦ cc (d, rw (← (eq_iff i id).0 q) at l)
    | inr q ↦ ground arith
  ]

  any_of_live :
      (db : Db) (id : String) (ids : List String)
      → elem id ids ≡ true
      → is_live f db id ≡ true
      → any_live f db ids false ≡ true
  unfolding any_live
  any_of_live db id [] e l = cc
  any_of_live db id (i ∷ ids) e l = elim (Bool-cases (is_live f db i)) [
    | inl s ↦ rw s (any_live_set db ids)
    | inr d ↦ rw d (any_of_live db id ids (elem_tail db id i ids e l d) l)
  ]

  -- A user who exists, has the number, is not deleted and has a name.
  abbrev pub InUse : Db → String → Type 0
  InUse db phone =
      (id : String) × (exists db (user_ref id) ≡ true)
      × (read db (below_user id UserKeys.phone_number) ≡ some (words phone))
      × (user_field f db id UserKeys.birthdate ≢ deleted)
      × (user_field f db id UserKeys.name ≢ "")

  live_parts :
      (db : Db) (id : String)
      → is_live f db id ≡ true
      → (user_field f db id UserKeys.birthdate ≢ deleted) × (user_field f db id UserKeys.name ≢ "")
  live_parts db id h = (
    λ e. ground (arith, eq_iff (user_field f db id UserKeys.birthdate) deleted),
    λ e. ground (arith, eq_iff (user_field f db id UserKeys.name) ""),
  )

  found_by_phone :
      (db : Db) (phone id : String)
      → elem id (query_equal db (UserKeys.path ∷ []) UserKeys.phone_number phone) ≡ (
          exists db (user_ref id) && is_words phone (read db (below_user id UserKeys.phone_number)))
  found_by_phone db phone id =
      rw (elem-query_equal db (UserKeys.path ∷ []) UserKeys.phone_number phone id)
        (rw (elem-children db (UserKeys.path ∷ []) id))

  -- `checkPhoneNumber` answers true exactly when some existing record has that phone number, a
  -- birthdate that is not the deletion mark and a name that is not empty.
  pub check_phone_number_exact :
      (db : Db) (phone : String) → (check_phone_number f db phone ≡ true) ↔ InUse db phone
  unfolding check_phone_number
  check_phone_number_exact db phone = (
    λ h.
        let (id, e, l) =
          live_of_any db (query_equal db (UserKeys.path ∷ []) UserKeys.phone_number phone) h in
        let (b, n) = live_parts db id l in
        (
          id,
          ground (arith, found_by_phone db phone id),
          words_of_is_words phone _ (ground (arith, found_by_phone db phone id)),
          b,
          n,
        ),
    λ (id, x, r, b, n).
        any_of_live db id _ (ground (arith, found_by_phone db phone id, eq_refl phone)) (
          ground (
            arith,
            b,
            n,
            eq_iff (user_field f db id UserKeys.birthdate) deleted,
            eq_iff (user_field f db id UserKeys.name) "",
          )),
  )
