-- ===== src/Contacts/Numbers.antt =====
-- Which numbers `getPhoneNumbers` of Services/ContactsService.swift hands over.
use Prim.Native.Char.{code}
use Prim.Native.String.{◌++◌ as concat}
use on_my_way.Base.{
  String, ◌≡◌, ◌↔◌, refl, sym, ap, ◌∙◌, Bool, true, ◌&&◌, ◌⊎◌, inl, inr, Option, none, some, List,
  [], ◌∷◌, ◌++◌, Member, Member-append, append-Member, Bool-cases, arith,
}
use on_my_way.Contacts.{
  LabeledNumber, Contact, AuthorizationStatus, ContactsService, request_access, add_labeled,
  add_numbers, get_contacts, is_digit, has_plus, digits_of, filtered_number, keep_international,
  append_filtered, get_phone_numbers,
}

-- `t` is a number of `ns` that has a label.
abbrev pub Labeled : List LabeledNumber → String → Type 0
Labeled ns t =
    (n : LabeledNumber) × Member n ns × ((l : String) × (n.label ≡ some l)) × (n.string_value ≡ t)

Member-one :
    (t s : String) (found : List String) → Member t (found ++ (s ∷ [])) ↔ (Member t found ⊎ (t ≡ s))
Member-one t s found = (
  λ m. elim (Member-append t found (s ∷ []) m) [
    | inl k ↦ inl k
    | inr (inl p) ↦ inr p
    | inr (inr k) ↦ elim k [ ]
  ],
  λ m. append-Member t found (s ∷ []) (elim m [ inl k ↦ inl k | inr p ↦ inr (inl p) ]),
)

Labeled-cons :
    (n : LabeledNumber) (ns : List LabeledNumber) (t : String)
    → Labeled (n ∷ ns) t
      ↔ (((((l : String) × (n.label ≡ some l)) × (n.string_value ≡ t))) ⊎ Labeled ns t)
Labeled-cons n ns t = (
  λ (k, m, l, p). elim m [ inl q ↦ inl (rw q at l, rw q at p) | inr m' ↦ inr (k, m', l, p) ],
  λ h. elim h [ inl (l, p) ↦ (n, inl refl, l, p) | inr (k, m, l, p) ↦ (k, inr m, l, p) ],
)

Member-add_labeled :
    (t : String) (label : Option String) (value : String) (found : List String)
    → Member t (add_labeled label value found)
      ↔ (Member t found ⊎ (((l : String) × (label ≡ some l)) × (value ≡ t)))
Member-add_labeled t none value found =
    (λ m. inl m, λ h. elim h [ inl m ↦ m | inr ((l, q), p) ↦ absurd (cc q) ])
Member-add_labeled t (some label) value found =
    let (split, join) = Member-one t value found in
    (
      λ m. elim (split m) [ inl k ↦ inl k | inr p ↦ inr ((label, refl), sym p) ],
      λ h. join (elim h [ inl k ↦ inl k | inr (l, p) ↦ inr (sym p) ]),
    )

Member-add_numbers :
    (t : String) (ns : List LabeledNumber) (found : List String)
    → Member t (add_numbers ns found) ↔ (Member t found ⊎ Labeled ns t)
unfolding add_numbers
Member-add_numbers t [] found =
    (λ m. inl m, λ h. elim h [ inl m ↦ m | inr (k, m, l, p) ↦ elim m [ ] ])
Member-add_numbers t (n ∷ ns) found =
    let (there, back) = Member-add_numbers t ns (add_labeled n.label n.string_value found) in
    let (split, join) = Member-add_labeled t n.label n.string_value found in
    let (head, cons) = Labeled-cons n ns t in
    (
      λ m. elim (there m) [
        | inl k ↦ (elim (split k) [ inl j ↦ inl j | inr j ↦ inr (cons (inl j)) ])
        | inr k ↦ inr (cons (inr k))
      ],
      λ h. elim h [
        | inl k ↦ back (inl (join (inl k)))
        | inr k ↦ (elim (head k) [ inl j ↦ back (inl (join (inr j))) | inr j ↦ back (inr j) ])
      ],
    )

-- `t` is a labelled number of a contact in the book.
abbrev pub Listed : List Contact → String → Type 0
Listed book t = (c : Contact) × Member c book × Labeled c.numbers t

Member-get_contacts :
    (t : String) (book : List Contact) (s : ContactsService)
    → Member t (get_contacts book s).phone_numbers ↔ (Member t s.phone_numbers ⊎ Listed book t)
unfolding get_contacts
Member-get_contacts t [] s = (λ m. inl m, λ h. elim h [ inl m ↦ m | inr (c, m, l) ↦ elim m [ ] ])
Member-get_contacts t (c ∷ book) s =
    let (there, back) = Member-get_contacts t book (record s {
      contacts = s.contacts ++ (c ∷ []);
      phone_numbers = add_numbers c.numbers s.phone_numbers;
    }) in
    let (split, join) = Member-add_numbers t c.numbers s.phone_numbers in
    (
      λ m. elim (there m) [
        | inl k ↦ (elim (split k) [ inl j ↦ inl j | inr j ↦ inr (c, inl refl, j) ])
        | inr (d, k, l) ↦ inr (d, inr k, l)
      ],
      λ h. elim h [
        | inl k ↦ back (inl (join (inl k)))
        | inr (d, inl p, l) ↦ back (inl (join (inr (rw p at l))))
        | inr (d, inr k, l) ↦ back (inr (d, k, l))
      ],
    )

pub get_contacts-filtered :
    (book : List Contact) (s : ContactsService)
    → (get_contacts book s).filtered_numbers ≡ s.filtered_numbers
unfolding get_contacts
get_contacts-filtered [] s = refl
get_contacts-filtered (c ∷ book) s = get_contacts-filtered book (record s {
  contacts = s.contacts ++ (c ∷ []);
  phone_numbers = add_numbers c.numbers s.phone_numbers;
})

Member-keep_international :
    (t : String) (ss : List String)
    → Member t (keep_international ss) ↔ (Member t ss × (has_plus t ≡ true))
unfolding keep_international
Member-keep_international t [] = (λ m. elim m [ ], λ p. elim p.0 [ ])
Member-keep_international t (s ∷ ss) =
    let (there, back) = Member-keep_international t ss in
    elim (Bool-cases (has_plus s)) [
      | inl yes_plus ↦ rw yes_plus (
        λ m. elim m [
          | inl p ↦ (inl p, ap has_plus p ∙ yes_plus)
          | inr k ↦ (inr (there k).0, (there k).1)
        ],
        λ (m, q). elim m [ inl p ↦ inl p | inr k ↦ inr (back (k, q)) ],
      )
      | inr no_plus ↦ rw no_plus (
        λ m. (inr (there m).0, (there m).1),
        λ (m, q). elim m [ inl p ↦ absurd (cc (ap has_plus p, q, no_plus)) | inr k ↦ back (k, q) ],
      )
    ]

Member-append_filtered :
    (p : String) (ss found : List String)
    → Member p (append_filtered ss found)
      ↔ (Member p found ⊎ ((t : String) × Member t ss × (p ≡ filtered_number t)))
unfolding append_filtered
Member-append_filtered p [] found =
    (λ m. inl m, λ h. elim h [ inl m ↦ m | inr (t, m, q) ↦ elim m [ ] ])
Member-append_filtered p (s ∷ ss) found =
    let (there, back) = Member-append_filtered p ss (found ++ (filtered_number s ∷ [])) in
    let (split, join) = Member-one p (filtered_number s) found in
    (
      λ m. elim (there m) [
        | inl k ↦ (elim (split k) [ inl j ↦ inl j | inr q ↦ inr (s, inl refl, q) ])
        | inr (t, k, q) ↦ inr (t, inr k, q)
      ],
      λ h. elim h [
        | inl k ↦ back (inl (join (inl k)))
        | inr (t, inl q, r) ↦ back (inl (join (inr (r ∙ ap filtered_number q))))
        | inr (t, inr k, r) ↦ back (inr (t, k, r))
      ],
    )

abbrev pub all_digits : String → Bool
all_digits String.[] = true
all_digits (String.◌∷◌ c s) = is_digit (code c) && all_digits s

pub digits_of-all_digits : (s : String) → all_digits (digits_of s) ≡ true
unfolding digits_of
digits_of-all_digits String.[] = refl
digits_of-all_digits (String.◌∷◌ c s) = elim (Bool-cases (is_digit (code c))) [
  | inl q ↦ rw q (ground (arith, digits_of-all_digits s))
  | inr q ↦ rw q (digits_of-all_digits s)
]

-- Where access is granted, `getPhoneNumbers` hands over the numbers that it had handed over before,
-- and a number of each text with a plus sign, among those it had kept and the labelled numbers of
-- the contacts; and each of these is a plus sign and the digits of the text, and nothing else.
pub get_phone_numbers_exact :
    (status : AuthorizationStatus) (granted : Bool) (book : List Contact) (s : ContactsService)
    → request_access status granted ≡ true
    → ((get_phone_numbers status granted book s).2 ≡ true)
      × ((p : String)
          → Member p (get_phone_numbers status granted book s).1 ↔ (
              Member p s.filtered_numbers
              ⊎ ((t : String) × (Member t s.phone_numbers ⊎ Listed book t)
                  × (has_plus t ≡ true)
                  × (p ≡ concat "+" (digits_of t))
                  × (all_digits (digits_of t) ≡ true))))
unfolding get_phone_numbers
get_phone_numbers_exact status granted book s h = rw h (
  refl,
  λ p.
      let s1 = get_contacts book s in
      let (there, back) =
        Member-append_filtered p (keep_international s1.phone_numbers) s1.filtered_numbers in
      (
        λ m. elim (there m) [
          | inl k ↦ inl (rw (get_contacts-filtered book s) at k)
          | inr (t, k, q) ↦
              (let (j, plus) = (Member-keep_international t s1.phone_numbers).0 k in
                inr (t, (Member-get_contacts t book s).0 j, plus, q, digits_of-all_digits t))
        ],
        λ m. back (elim m [
          | inl k ↦ inl (rw (get_contacts-filtered book s) k)
          | inr (t, k, plus, q, d) ↦ inr (
            t,
            (Member-keep_international t s1.phone_numbers).1
                ((Member-get_contacts t book s).1 k, plus),
            q,
          )
        ]),
      ),
)
