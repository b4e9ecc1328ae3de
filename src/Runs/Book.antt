-- ===== src/Runs/Book.antt =====
-- An address book, and whom it recommends in a database in memory.
use on_my_way.Base.{
  ◌*◌, ◌≡◌, ◌↔◌, ◌⊎◌, refl, true, some, none, String, [], ◌∷◌, length, Member, arith, eq_iff,
}
use on_my_way.Database.Memory.{memory}
use on_my_way.Model.{User, contains_user}
use on_my_way.Model.Sets.Kept.{IsDistinct}
use on_my_way.Social.Search.{Numbered}
use on_my_way.Contacts.{
  Contact, ContactsService, not_determined, new_service, has_plus, digits_of, filtered_number,
  get_phone_numbers, get_recommendations, request_access,
}
use on_my_way.Contacts.Numbers.{Listed}
use on_my_way.Contacts.Repeats.{called, international, repeated_calls}
use on_my_way.Contacts.Recommended.{HasOwnUids, get_recommendations_exact}
use on_my_way.Runs.Sample.{two_users}

-- Bob's number, a number without a plus sign, and one without a label.
abbrev bob : Contact
bob = record {
  numbers =
      record { label = some "mobile"; string_value = "+7 (200)" }
      ∷ record { label = some "home"; string_value = "200" }
      ∷ record { label = none; string_value = "+7300" }
      ∷ [];
}

granted_now : request_access not_determined true ≡ true
unfolding request_access
granted_now = refl

handed_over : (get_phone_numbers not_determined true (bob ∷ []) new_service).1 ≡ "+7200" ∷ []
unfolding get_phone_numbers digits_of has_plus
handed_over = refl

-- The third call hands over six numbers.
repeated_calls_example :
    2
      * length
          (get_phone_numbers not_determined true
            (bob ∷ [])
            (called not_determined true (bob ∷ []) 2)).1
    ≡ 3 * 4 * length (international not_determined true (bob ∷ []))
repeated_calls_example = repeated_calls not_determined true (bob ∷ []) 2 granted_now

two_users-HasOwnUids : HasOwnUids memory two_users
unfolding memory two_users
two_users-HasOwnUids = record {
  own_uid = λ id h. ground (arith, eq_iff "a" id, eq_iff "b" id, eq_iff id "a", eq_iff id "b");
}

-- Ann's number is left from an earlier call.
abbrev used_service : ContactsService
used_service = record new_service { filtered_numbers = "+7100" ∷ [] }

get_recommendations_exact_example :
    let users =
      get_recommendations memory two_users "a" not_determined true (bob ∷ []) used_service in
    IsDistinct contains_user users
    × ((u : User)
        → Member u users ↔ (
            ((p : String) × Member p ("+7100" ∷ []) × Numbered memory two_users "a" p u)
            ⊎ ((t : String) × (Member t [] ⊎ Listed (bob ∷ []) t)
                × (has_plus t ≡ true)
                × Numbered memory two_users "a" (filtered_number t) u)))
get_recommendations_exact_example =
    get_recommendations_exact memory two_users "a" not_determined true (bob ∷ []) used_service
      two_users-HasOwnUids granted_now
