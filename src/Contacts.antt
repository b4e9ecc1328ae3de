-- ===== src/Contacts.antt =====
-- Services/ContactsService.swift: the numbers of the address book, and the recommendations of
-- Controller/FRecommendationsVC.swift that are searched with them. The address book is not part of
-- the source: what the user and the system answer, and the contacts that it enumerates, are
-- arguments.
pub mod Numbers
pub mod Repeats
pub mod Recommended
use Prim.Native.Char.{code}
use Prim.Native.String.{◌++◌ as concat}
use on_my_way.Base.{
  ℕ, String, Bool, true, false, ◌&&◌, ◌||◌, Option, none, some, List, [], ◌∷◌, ◌++◌, leb, eqb,
  if◌then◌else◌,
}
use on_my_way.Database.{Database}
use on_my_way.Model.{User, insert_user}
use on_my_way.Model.Sets.{map_to_set}
use on_my_way.Social.{find_users_by_phone}

-- CNLabeledValue with a phone number
pub record LabeledNumber : Type 0 where
  pub label : Option String
  pub string_value : String

pub record Contact : Type 0 where
  pub numbers : List LabeledNumber

-- CNAuthorizationStatus
pub data AuthorizationStatus : Type 0 where
  authorized denied restricted not_determined : AuthorizationStatus

-- `contacts`, `phoneNumbers` and `filteredNumbers`
pub record ContactsService : Type 0 where
  pub contacts : List Contact
  pub phone_numbers : List String
  pub filtered_numbers : List String

-- The fields of `ContactsService.instance` at the start.
abbrev pub new_service : ContactsService
new_service = record { contacts = []; phone_numbers = []; filtered_numbers = [] }

-- What `requestAccess` hands on: the settings alert answers false whatever the user taps.
unfoldable pub request_access : AuthorizationStatus → Bool → Bool
request_access authorized granted = true
request_access denied granted = false
request_access restricted granted = granted
request_access not_determined granted = granted

-- A number without a label is left out.
abbrev pub add_labeled : Option String → String → List String → List String
add_labeled none value found = found
add_labeled (some label) value found = found ++ (value ∷ [])

-- The inner loop of `getContacts`.
unfoldable pub add_numbers : List LabeledNumber → List String → List String
add_numbers [] found = found
add_numbers (n ∷ ns) found = add_numbers ns (add_labeled n.label n.string_value found)

-- `getContacts`, over the contacts that are enumerated; an error only ends the enumeration.
unfoldable pub get_contacts : List Contact → ContactsService → ContactsService
unfolding add_numbers
get_contacts [] s = s
get_contacts (contact ∷ rest) s = get_contacts rest (record s {
  contacts = s.contacts ++ (contact ∷ []);
  phone_numbers = add_numbers contact.numbers s.phone_numbers;
})

abbrev pub is_digit : ℕ → Bool
is_digit c = leb b'0' c && leb c b'9'

-- `contains("+")`
unfoldable pub has_plus : String → Bool
has_plus String.[] = false
has_plus (String.◌∷◌ c s) = eqb (code c) b'+' || has_plus s

-- `replacingOccurrences` of "[^0-9]" by nothing
unfoldable pub digits_of : String → String
digits_of String.[] = ""
digits_of (String.◌∷◌ c s) =
    let rest = digits_of s in if is_digit (code c) then String.◌∷◌ c rest else rest

abbrev pub filtered_number : String → String
filtered_number s = concat "+" (digits_of s)

unfoldable pub keep_international : List String → List String
unfolding has_plus
keep_international [] = []
keep_international (s ∷ ss) =
    let rest = keep_international ss in if has_plus s then s ∷ rest else rest

-- The loop that appends to `filteredNumbers`.
unfoldable pub append_filtered : List String → List String → List String
append_filtered [] found = found
append_filtered (s ∷ ss) found = append_filtered ss (found ++ (filtered_number s ∷ []))

-- `getPhoneNumbers`, with what its handler is given.
unfoldable pub get_phone_numbers :
    AuthorizationStatus
    → Bool
    → List Contact
    → ContactsService
    → ContactsService × List String × Bool
unfolding request_access get_contacts keep_international append_filtered
get_phone_numbers status granted book s =
    if request_access status granted
    then (let s1 = get_contacts book s in
        let kept = keep_international s1.phone_numbers in
        let filtered = append_filtered kept s1.filtered_numbers in
        (record s1 { phone_numbers = kept; filtered_numbers = filtered }, filtered, true))
    else (s, s.filtered_numbers, false)

-- `Array(rUsers.mapToSet({ $0 }))`
abbrev pub unique_users : List User → List User
unique_users users = map_to_set insert_user (λ u. u) users []

module _ (f : Database) where
  open f use {Db}

  -- The block of `findUsers` of FRecommendationsVC.
  abbrev pub on_users : List User → List User → List User
  on_users returned r_users = unique_users (r_users ++ returned)

  -- `findUsers(phones:)`, with the phones in the order in which the answers come.
  unfoldable pub find_users : Db → String → List String → List User → List User
  find_users db uid [] r_users = r_users
  find_users db uid (p ∷ phones) r_users =
      find_users db uid phones (on_users (find_users_by_phone f db uid p) r_users)

  -- `getRecommendations`
  unfoldable pub get_recommendations :
      Db → String → AuthorizationStatus → Bool → List Contact → ContactsService → List User
  unfolding get_phone_numbers find_users
  get_recommendations db uid status granted book s =
      let (s1, phones, success) = get_phone_numbers status granted book s in
      if success then find_users db uid phones [] else []
