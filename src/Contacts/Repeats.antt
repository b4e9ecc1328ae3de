-- ===== src/Contacts/Repeats.antt =====
-- Calls of `getPhoneNumbers` of Services/ContactsService.swift one after the other: the service is
-- one object, and its arrays are never emptied.
use on_my_way.Base.{
  ℕ, zero, suc, ◌+◌, ◌*◌, String, ◌≡◌, refl, sym, ap, ◌∙◌, Bool, true, Option, none, some, List, [],
  ◌∷◌, ◌++◌, length, length-append, Bool-cases, inl, inr, arith,
}
use mathlib.Core.List.{append_assoc, append-nil}
use on_my_way.Contacts.{
  LabeledNumber, Contact, AuthorizationStatus, ContactsService, new_service, request_access,
  add_labeled, add_numbers, get_contacts, has_plus, filtered_number, keep_international,
  append_filtered, get_phone_numbers,
}
use on_my_way.Contacts.Numbers.{get_contacts-filtered}

add_labeled-append :
    (o : Option String) (v : String) (found : List String)
    → add_labeled o v found ≡ found ++ add_labeled o v []
add_labeled-append none v found = sym (append-nil found)
add_labeled-append (some l) v found = refl

add_numbers-append :
    (ns : List LabeledNumber) (found : List String)
    → add_numbers ns found ≡ found ++ add_numbers ns []
unfolding add_numbers
add_numbers-append [] found = sym (append-nil found)
add_numbers-append (n ∷ ns) found =
    let one = add_labeled n.label n.string_value [] in
    add_numbers-append ns (add_labeled n.label n.string_value found)
    ∙ ap (λ t. t ++ add_numbers ns []) (add_labeled-append n.label n.string_value found)
    ∙ append_assoc found one (add_numbers ns [])
    ∙ ap (λ t. found ++ t) (sym (add_numbers-append ns one))

-- The labelled numbers of the contacts, in order.
abbrev pub numbers_of : List Contact → List String
numbers_of [] = []
numbers_of (c ∷ book) = add_numbers c.numbers [] ++ numbers_of book

get_contacts-numbers :
    (book : List Contact) (s : ContactsService)
    → (get_contacts book s).phone_numbers ≡ s.phone_numbers ++ numbers_of book
unfolding get_contacts
get_contacts-numbers [] s = sym (append-nil s.phone_numbers)
get_contacts-numbers (c ∷ book) s =
    get_contacts-numbers book (record s {
      contacts = s.contacts ++ (c ∷ []);
      phone_numbers = add_numbers c.numbers s.phone_numbers;
    })
    ∙ ap (λ t. t ++ numbers_of book) (add_numbers-append c.numbers s.phone_numbers)
    ∙ append_assoc s.phone_numbers (add_numbers c.numbers []) (numbers_of book)

keep-append :
    (xs ys : List String)
    → keep_international (xs ++ ys) ≡ keep_international xs ++ keep_international ys
unfolding keep_international
keep-append [] ys = refl
keep-append (x ∷ xs) ys = elim (Bool-cases (has_plus x)) [
  | inl q ↦ rw q (ap (λ t. x ∷ t) (keep-append xs ys))
  | inr q ↦ rw q (keep-append xs ys)
]

keep_twice : (xs : List String) → keep_international (keep_international xs) ≡ keep_international xs
unfolding keep_international
keep_twice [] = refl
keep_twice (x ∷ xs) = elim (Bool-cases (has_plus x)) [
  | inl q ↦
      rw (q, keep_international) (rw (q, keep_international) (ap (λ t. x ∷ t) (keep_twice xs)))
  | inr q ↦ rw (q, keep_international) (keep_twice xs)
]

keep_nothing : keep_international [] ≡ []
unfolding keep_international
keep_nothing = refl

length-append_filtered :
    (ss found : List String) → length (append_filtered ss found) ≡ length found + length ss
unfolding append_filtered
length-append_filtered [] found = omega arith
length-append_filtered (s ∷ ss) found = omega (
  arith,
  length-append_filtered ss (found ++ (filtered_number s ∷ [])),
  length-append found (filtered_number s ∷ []),
)

module _ (status : AuthorizationStatus) (granted : Bool) (book : List Contact) where
  -- The service after `n` calls.
  abbrev pub called : ℕ → ContactsService
  called zero = new_service
  called (suc n) = (get_phone_numbers status granted book (called n)).0

  -- The labelled numbers with a plus sign.
  abbrev pub international : List String
  international = keep_international (numbers_of book)

  one_call :
      (s : ContactsService)
      → request_access status granted ≡ true
      → keep_international s.phone_numbers ≡ s.phone_numbers
      → let r = get_phone_numbers status granted book s in
        (r.0.phone_numbers ≡ s.phone_numbers ++ international)
        × (keep_international r.0.phone_numbers ≡ r.0.phone_numbers)
        × (r.1 ≡ r.0.filtered_numbers)
        × (length r.1 ≡ length s.filtered_numbers + length s.phone_numbers + length international)
  unfolding get_phone_numbers
  one_call s h k =
      let s1 = get_contacts book s in
      let same : keep_international s1.phone_numbers ≡ s.phone_numbers ++ international =
        ap keep_international (get_contacts-numbers book s)
        ∙ keep-append s.phone_numbers (numbers_of book)
        ∙ ap (λ t. t ++ international) k in
      rw h (
        same,
        keep_twice s1.phone_numbers,
        refl,
        omega (
          arith,
          length-append_filtered (keep_international s1.phone_numbers) s1.filtered_numbers,
          ap length same,
          length-append s.phone_numbers international,
          ap length (get_contacts-filtered book s),
        ),
      )

  -- What `n` calls leave.
  IsAfter : ℕ → ContactsService → Type 0
  IsAfter n s =
      (keep_international s.phone_numbers ≡ s.phone_numbers)
      × (length s.phone_numbers ≡ n * length international)
      × (2 * length s.filtered_numbers ≡ n * (n + 1) * length international)

  called-IsAfter : (n : ℕ) → request_access status granted ≡ true → IsAfter n (called n)
  unfolding IsAfter
  called-IsAfter zero h = (keep_nothing, omega arith, omega arith)
  called-IsAfter (suc n) h =
      let (k, p, q) = called-IsAfter n h in
      let (same, kept, given, size) = one_call (called n) h k in
      (
        kept,
        grind (arith, ap length same, length-append (called n).phone_numbers international),
        grind (arith, ap length given, size),
      )

  -- Where access is granted and the contacts stay, the call number `n + 1` of `getPhoneNumbers` on
  -- the one service hands over (n + 1)(n + 2)/2 times as many numbers as there are labelled numbers
  -- with a plus sign: each call searches all numbers of the calls before again.
  pub repeated_calls :
      (n : ℕ)
      → request_access status granted ≡ true
      → 2 * length (get_phone_numbers status granted book (called n)).1
        ≡ (n + 1) * (n + 2) * length international
  unfolding IsAfter
  repeated_calls n h =
      let (k, p, q) = called-IsAfter n h in
      let (same, kept, given, size) = one_call (called n) h k in grind (arith, size)
