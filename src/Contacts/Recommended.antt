-- ===== src/Contacts/Recommended.antt =====
-- Whom Controller/FRecommendationsVC.swift recommends: the search of Services/FriendSystem.swift with
-- the numbers of Services/ContactsService.swift.
use on_my_way.Base.{
  String, ◌≡◌, ◌↔◌, refl, sym, ap, ◌∙◌, Bool, true, ◌⊎◌, inl, inr, List, [], ◌∷◌, ◌++◌, Member,
  Member-append, append-Member,
}
use on_my_way.Database.{Database}
use on_my_way.Model.{User, contains_user, insert_user}
use on_my_way.Model.Sets.Kept
use on_my_way.Model.Sets.Kept.{IsKeyed, IsDistinct}
use on_my_way.Social.{user_ref, user_at, find_users_by_phone}
use on_my_way.Social.Search.{Numbered, find_users_by_phone_exact}
use on_my_way.Contacts.{
  Contact, AuthorizationStatus, ContactsService, request_access, has_plus, filtered_number,
  get_phone_numbers, unique_users, find_users, get_recommendations,
}
use on_my_way.Contacts.Numbers.{Listed, digits_of-all_digits, get_phone_numbers_exact}

abbrev user_key : User → String
user_key u = u.uid

user_set : IsKeyed user_key contains_user insert_user
unfolding contains_user insert_user
user_set = record {
  contains-nil = λ x. refl;
  contains-cons = λ y x ys. refl;
  insert_old = λ x ys h. rw h refl;
  insert_new = λ x ys h. rw h refl;
}

module _ (f : Database) where
  open f use {Db, exists}

  -- The `userId` of every record is the key of its node.
  pub record HasOwnUids (db : Db) : Type 0 where
    pub own_uid : (id : String) → exists db (user_ref id) ≡ true → (user_at f db id).uid ≡ id

  -- `u` is what the record of its uid reads as.
  abbrev AsStored : Db → User → Type 0
  AsStored db u = u ≡ user_at f db u.uid

  AsStored-found :
      (db : Db) (uid p : String) (u : User)
      → HasOwnUids db
      → Member u (find_users_by_phone f db uid p)
      → AsStored db u
  AsStored-found db uid p u h m =
      let (id, x, q, same, o) = (find_users_by_phone_exact f db uid p u).0 m in
      let own : u.uid ≡ id = ap (λ (v : User). v.uid) same ∙ h.own_uid id x in
      same ∙ ap (user_at f db) (sym own)

  -- Where all are as stored, the set of an array has its members.
  Member-unique_users :
      (db : Db) (u : User) (us : List User)
      → ((v : User) → Member v us → AsStored db v)
      → Member u (unique_users us) ↔ Member u us
  Member-unique_users db u us h =
      let (there, back) = Kept.Member-unique user_key contains_user insert_user user_set u us in
      (
        λ m. Kept.Member-of_first user_key contains_user insert_user user_set u.uid u us (there m),
        λ m. back (
            Kept.Member-first user_key contains_user insert_user user_set us u
              (λ v k same. h v k ∙ ap (user_at f db) same ∙ sym (h u m)) m),
      )

  -- `u` is found with one of the phones.
  abbrev Found : Db → String → List String → User → Type 0
  Found db uid phones u = (p : String) × Member p phones × Member u (find_users_by_phone f db uid p)

  Member-find_users :
      (db : Db) (uid : String) (phones : List String) (r_users : List User) (u : User)
      → HasOwnUids db
      → ((v : User) → Member v r_users → AsStored db v)
      → Member u (find_users f db uid phones r_users) ↔ (Member u r_users ⊎ Found db uid phones u)
  unfolding find_users
  Member-find_users db uid [] r_users u h s =
      (λ m. inl m, λ k. elim k [ inl m ↦ m | inr (p, m, q) ↦ elim m [ ] ])
  Member-find_users db uid (p ∷ phones) r_users u h s =
      let returned = find_users_by_phone f db uid p in
      let all_stored : (v : User) → Member v (r_users ++ returned) → AsStored db v = λ v m.
        elim (Member-append v r_users returned m) [
          | inl k ↦ s v k
          | inr k ↦ AsStored-found db uid p v h k
        ] in
      let (there, back) =
        Member-find_users db uid phones (unique_users (r_users ++ returned)) u h
          (λ v m. all_stored v ((Member-unique_users db v (r_users ++ returned) all_stored).0 m)) in
      let (down, up) = Member-unique_users db u (r_users ++ returned) all_stored in
      (
        λ m. elim (there m) [
          | inl k ↦ (elim (Member-append u r_users returned (down k)) [
            | inl j ↦ inl j
            | inr j ↦ inr (p, inl refl, j)
          ])
          | inr (q, k, w) ↦ inr (q, inr k, w)
        ],
        λ m. back (elim m [
          | inl k ↦ inl (up (append-Member u r_users returned (inl k)))
          | inr (q, inl e, w) ↦ inl (up (append-Member u r_users returned (inr (rw e at w))))
          | inr (q, inr k, w) ↦ inr (q, k, w)
        ]),
      )

  find_users-IsDistinct :
      (db : Db) (uid : String) (phones : List String) (r_users : List User)
      → IsDistinct contains_user r_users
      → IsDistinct contains_user (find_users f db uid phones r_users)
  unfolding find_users
  find_users-IsDistinct db uid [] r_users d = d
  find_users-IsDistinct db uid (p ∷ phones) r_users d =
      let all = r_users ++ find_users_by_phone f db uid p in
      find_users-IsDistinct db uid phones (unique_users all)
        (Kept.unique-IsDistinct user_key contains_user insert_user user_set all)

  -- Where the user grants access to the contacts and the `userId` of every record is its key, a
  -- screen of recommendations that is newly opened, whatever the shared service holds from before,
  -- ends with exactly the users who are open to the search and whose number is one that the service
  -- had handed over before, or that of a text with a plus sign, which the service had kept or which
  -- is a labelled number in the contacts; and each user once.
  pub get_recommendations_exact :
      (db : Db) (uid : String) (status : AuthorizationStatus) (granted : Bool) (book : List Contact)
      (s : ContactsService)
      → HasOwnUids db
      → request_access status granted ≡ true
      → let users = get_recommendations f db uid status granted book s in
        IsDistinct contains_user users
        × ((u : User)
            → Member u users ↔ (
                ((p : String) × Member p s.filtered_numbers × Numbered f db uid p u)
                ⊎ ((t : String) × (Member t s.phone_numbers ⊎ Listed book t)
                    × (has_plus t ≡ true)
                    × Numbered f db uid (filtered_number t) u)))
  unfolding get_recommendations
  get_recommendations_exact db uid status granted book s h g =
      let (success, handed) = get_phone_numbers_exact status granted book s g in
      let phones = (get_phone_numbers status granted book s).1 in
      rw success (
        find_users-IsDistinct db uid phones [] tt,
        λ u.
            let (there, back) = Member-find_users db uid phones [] u h (λ v m. elim m [ ]) in
            let numbered = λ (p : String). find_users_by_phone_exact f db uid p u in
            (
              λ m. elim (there m) [
                | inl k ↦ elim k [ ]
                | inr (p, k, w) ↦ (elim ((handed p).0 k) [
                  | inl old ↦ inl (p, old, (numbered p).0 w)
                  | inr (t, l, plus, q, d) ↦
                      inr (t, l, plus, (numbered (filtered_number t)).0 (rw q at w))
                ])
              ],
              λ m. back (
                  inr (elim m [
                    | inl (p, old, n) ↦ (p, (handed p).1 (inl old), (numbered p).1 n)
                    | inr (t, l, plus, n) ↦ (
                      filtered_number t,
                      (handed (filtered_number t)).1
                          (inr (t, l, plus, refl, digits_of-all_digits t)),
                      (numbered (filtered_number t)).1 n,
                    )
                  ])),
            ),
      )
