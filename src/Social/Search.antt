-- ===== src/Social/Search.antt =====
-- What the searches of Services/FriendSystem.swift return.
use Prim.Native.String.{◌++◌ as concat}
use on_my_way.Base.{
  String, ◌≡◌, ◌≢◌, ◌↔◌, refl, true, false, ◌&&◌, some, List, [], ◌∷◌, ◌==◌, eq_iff, eq_refl, arith,
  Bool-cases, inl, inr, Member, elem, ◌⊎◌,
}
use on_my_way.Database.Writes.{words_of_is_words}
use on_my_way.Database.{Database, words, is_words, has_words}
use on_my_way.Keys.UserKeys
use on_my_way.Keys.{deleted}
use on_my_way.Model.{User}
use on_my_way.Social.{user_ref, user_at, is_shown, collect_users, find_users, find_users_by_phone}

module _ (f : Database) where
  open f use {
    Db, read, exists, within, query_equal, query_between, elem-children, elem-query_equal,
    elem-query_between,
  }

  -- `u` is the shown user of the snapshot `id`, one of `ids`.
  abbrev pub IsHit : Db → String → List String → User → Type 0
  IsHit db current ids u =
      (id : String) × (elem id ids ≡ true) × (u ≡ user_at f db id) × (is_shown f current u ≡ true)

  later :
      (db : Db) (current : String) (j : String) (ids : List String) (u : User)
      → IsHit db current ids u
      → IsHit db current (j ∷ ids) u
  later db current j ids u (i, e, p, s) = (i, ground arith, p, s)

  not_head :
      (db : Db) (current id j : String) (ids : List String)
      → elem id (j ∷ ids) ≡ true
      → is_shown f current (user_at f db id) ≡ true
      → is_shown f current (user_at f db j) ≡ false
      → elem id ids ≡ true
  not_head db current id j ids e s t = elim (Bool-cases (j == id)) [
    | inl q ↦ cc (t, rw (← (eq_iff j id).0 q) at s)
    | inr q ↦ ground arith
  ]

  IsHit-of_Member :
      (db : Db) (current : String) (ids : List String) (u : User)
      → Member u (collect_users f db current ids)
      → IsHit db current ids u
  unfolding collect_users
  IsHit-of_Member db current [] u m = elim m [ ]
  IsHit-of_Member db current (id ∷ ids) u m =
      elim (Bool-cases (is_shown f current (user_at f db id))) [
        | inl t ↦
            (let m' : (u ≡ user_at f db id) ⊎ Member u (collect_users f db current ids) =
                rw t at m in
              elim m' [
                | inl e ↦ (id, ground (arith, eq_refl id), e, rw e t)
                | inr r ↦ later db current id ids u (IsHit-of_Member db current ids u r)
              ])
        | inr t ↦ later db current id ids u (IsHit-of_Member db current ids u (rw t at m))
      ]

  Member-of_hit :
      (db : Db) (current id : String) (ids : List String)
      → elem id ids ≡ true
      → is_shown f current (user_at f db id) ≡ true
      → Member (user_at f db id) (collect_users f db current ids)
  unfolding collect_users
  Member-of_hit db current id [] e s = ground arith
  Member-of_hit db current id (j ∷ ids) e s =
      elim (Bool-cases (is_shown f current (user_at f db j))) [
        | inl t ↦ rw t (elim (Bool-cases (j == id)) [
          | inl q ↦ inl (rw ((eq_iff j id).0 q) refl)
          | inr q ↦ inr (Member-of_hit db current id ids (ground arith) s)
        ])
        | inr t ↦ rw t (Member-of_hit db current id ids (not_head db current id j ids e s t) s)
      ]

  -- Somebody else, whose account is not deleted.
  abbrev pub IsOpenTo : String → User → Type 0
  IsOpenTo current u = (u.uid ≢ current) × (u.birthdate ≢ deleted)

  open_of_shown : (current : String) (u : User) → is_shown f current u ≡ true → IsOpenTo current u
  open_of_shown current u h =
      (λ e. ground (arith, eq_iff u.uid current), λ e. ground (arith, eq_iff u.birthdate deleted))

  shown_of_open : (current : String) (u : User) → IsOpenTo current u → is_shown f current u ≡ true
  shown_of_open current u h =
      ground (arith, eq_iff u.uid current, eq_iff u.birthdate deleted, h.0, h.1)

  -- What a name search must return: the users that exist, whose name is in the range of the query.
  abbrev pub Named : Db → String → String → User → Type 0
  Named db current query u =
      (id : String) × (exists db (user_ref id) ≡ true)
      × (has_words (within query (concat query "\u{f8ff}"))
            (read db (UserKeys.path ∷ id ∷ UserKeys.name ∷ []))
          ≡ true)
      × (u ≡ user_at f db id)
      × IsOpenTo current u

  -- What a search by number must return: the users that exist and have the number.
  abbrev pub Numbered : Db → String → String → User → Type 0
  Numbered db current phone u =
      (id : String) × (exists db (user_ref id) ≡ true)
      × (read db (UserKeys.path ∷ id ∷ UserKeys.phone_number ∷ []) ≡ some (words phone))
      × (u ≡ user_at f db id)
      × IsOpenTo current u

  -- For a text that is not empty, `findUsers` hands over a list, and a user is in it exactly when
  -- some existing record has a name within the searched range and reads as that user, who is not
  -- the one who searches and not deleted.
  pub find_users_exact :
      (db : Db) (current query : String)
      → query ≢ ""
      → (users : List User) × (find_users f db current query ≡ some users)
        × ((u : User) → Member u users ↔ Named db current query u)
  unfolding find_users
  find_users_exact db current query n = (
    collect_users f db current (query_between db (UserKeys.path ∷ []) UserKeys.name query hi),
    ground (arith, eq_iff query ""),
    λ u. (
      λ m.
          let (id, e, p, s) = IsHit-of_Member db current _ u m in
          (id, ground (arith, range id), ground (arith, range id), p, open_of_shown current u s),
      λ (id, x, r, p, o). rw p (
          Member-of_hit db current id _ (ground (arith, range id))
            (shown_of_open current (user_at f db id) (rw p at o))),
    ),
  )
    where
      hi : String
      hi = concat query "\u{f8ff}"

      range :
          (id : String)
          → elem id (query_between db (UserKeys.path ∷ []) UserKeys.name query hi) ≡ (
              exists db (user_ref id)
              && has_words (within query hi) (read db (UserKeys.path ∷ id ∷ UserKeys.name ∷ [])))
      range id =
          rw (elem-query_between db (UserKeys.path ∷ []) UserKeys.name query hi id)
            (rw (elem-children db (UserKeys.path ∷ []) id))

  -- A user is among the results of `findUsers(byPhoneNumber:)` exactly when some existing record
  -- has that phone number and reads as that user, who is not the one who searches and not deleted.
  pub find_users_by_phone_exact :
      (db : Db) (current phone : String) (u : User)
      → Member u (find_users_by_phone f db current phone) ↔ Numbered db current phone u
  unfolding find_users_by_phone
  find_users_by_phone_exact db current phone u = (
    λ m.
        let (id, e, p, s) = IsHit-of_Member db current _ u m in
        (
          id,
          ground (arith, range id),
          words_of_is_words phone _ (ground (arith, range id)),
          p,
          open_of_shown current u s,
        ),
    λ (id, x, r, p, o). rw p (
        Member-of_hit db current id _ (ground (arith, range id, eq_refl phone))
          (shown_of_open current (user_at f db id) (rw p at o))),
  )
    where
      range :
          (id : String)
          → elem id (query_equal db (UserKeys.path ∷ []) UserKeys.phone_number phone) ≡ (
              exists db (user_ref id)
              && is_words phone (read db (UserKeys.path ∷ id ∷ UserKeys.phone_number ∷ [])))
      range id =
          rw (elem-query_equal db (UserKeys.path ∷ []) UserKeys.phone_number phone id)
            (rw (elem-children db (UserKeys.path ∷ []) id))
