-- ===== src/Model/Sets/Kept.antt =====
-- What `mapToSet` keeps of an array, for a type whose values are equal when a text of theirs is.
use on_my_way.Base.{
  String, ◌≡◌, ◌↔◌, refl, Bool, true, false, Option, some, none, ◌||◌, List, [], ◌∷◌, ◌==◌, eq_iff,
  eq_refl, arith, Member, ◌⊎◌, inl, inr, Bool-cases, if◌then◌else◌, ap, ◌∙◌, sym,
}
use on_my_way.Model.Sets.{map_to_set}

-- `contains` and `insert` of a set whose values are compared by `key`.
pub record IsKeyed {T : Type 0} (key : T → String) (contains : List T → T → Bool)
    (insert : T → List T → List T) : Type 0 where
  pub contains-nil : (x : T) → contains [] x ≡ false
  pub contains-cons :
      (y x : T) (ys : List T) → contains (y ∷ ys) x ≡ (key y == key x || contains ys x)
  pub insert_old : (x : T) (ys : List T) → contains ys x ≡ true → insert x ys ≡ ys
  pub insert_new : (x : T) (ys : List T) → contains ys x ≡ false → insert x ys ≡ x ∷ ys

-- No value is contained in what comes after it.
abbrev pub IsDistinct : {T : Type 0} → (List T → T → Bool) → List T → Type 0
IsDistinct contains [] = Unit {0}
IsDistinct contains (x ∷ xs) = (contains xs x ≡ false) × IsDistinct contains xs

-- The first value with a key.
abbrev pub first : {T : Type 0} → (T → String) → List T → String → Option T
first key [] k = none
first key (x ∷ xs) k = if key x == k then some x else first key xs k

both : {A B C : Type 0} → A ↔ B → B ↔ C → A ↔ C
both (f, g) (h, k) = (λ a. h (f a), λ c. g (k c))

module _ {T : Type 0} (key : T → String) (contains : List T → T → Bool)
    (insert : T → List T → List T) (laws : IsKeyed key contains insert) where
  open laws use {contains-nil, contains-cons, insert_old, insert_new}

  pub contains_of_Member : (x : T) (xs : List T) → Member x xs → contains xs x ≡ true
  contains_of_Member x [] m = elim m [ ]
  contains_of_Member x (y ∷ ys) (inl p) =
      rw (contains-cons y x ys) (ground (arith, eq_refl (key x), ap key p))
  contains_of_Member x (y ∷ ys) (inr m) =
      rw (contains-cons y x ys) (ground (arith, contains_of_Member x ys m))

  -- A value that a set contains already is in it under its key.
  pub contained :
      (x : T) (xs : List T) → contains xs x ≡ true → (y : T) × Member y xs × (key y ≡ key x)
  contained x [] h = absurd (cc (contains-nil x, h))
  contained x (y ∷ ys) h = elim (Bool-cases (key y == key x)) [
    | inl q ↦ (y, inl refl, (eq_iff (key y) (key x)).0 q)
    | inr q ↦
        (let (z, m, r) = contained x ys (ground (arith, contains-cons y x ys)) in (z, inr m, r))
  ]

  contains-key : (x y : T) (xs : List T) → key x ≡ key y → contains xs x ≡ contains xs y
  contains-key x y [] p = contains-nil x ∙ sym (contains-nil y)
  contains-key x y (z ∷ zs) p =
      ground (arith, contains-cons z x zs, contains-cons z y zs, contains-key x y zs p)

  -- Two members of one key are one.
  pub one_of_key :
      (x y : T) (xs : List T)
      → IsDistinct contains xs
      → Member x xs
      → Member y xs
      → key x ≡ key y
      → x ≡ y
  one_of_key x y [] d m n p = elim m [ ]
  one_of_key x y (z ∷ zs) d (inl q) (inl r) p = cc (q, r)
  one_of_key x y (z ∷ zs) d (inl q) (inr n) p =
      absurd (cc (d.0, contains_of_Member y zs n, contains-key x y zs p, q))
  one_of_key x y (z ∷ zs) d (inr m) (inl r) p =
      absurd (cc (d.0, contains_of_Member x zs m, contains-key x y zs p, r))
  one_of_key x y (z ∷ zs) d (inr m) (inr n) p = one_of_key x y zs d.1 m n p

  -- `x` is in the set so far, or the first of its key in what is to come.
  abbrev Comes : T → List T → List T → Type 0
  Comes x xs set = Member x set ⊎ ((contains set x ≡ false) × (first key xs (key x) ≡ some x))

  Comes-old :
      (y x : T) (xs set : List T) → contains set y ≡ true → Comes x xs set ↔ Comes x (y ∷ xs) set
  Comes-old y x xs set old = (
    λ h. elim h [
      | inl m ↦ inl m
      | inr (a, b) ↦ inr (a, ground (arith, contains-key y x set, eq_iff (key y) (key x)))
    ],
    λ h. elim h [
      | inl m ↦ inl m
      | inr (a, b) ↦ inr (a, ground (arith, contains-key y x set, eq_iff (key y) (key x)))
    ],
  )

  Comes-new :
      (y x : T) (xs set : List T)
      → contains set y ≡ false
      → Comes x xs (y ∷ set) ↔ Comes x (y ∷ xs) set
  Comes-new y x xs set new = (
    λ h. elim h [
      | inl (inl p) ↦ inr (rw p new, rw p (ground (arith, eq_refl (key y))))
      | inl (inr m) ↦ inl m
      | inr (a, b) ↦ inr (
        ground (arith, contains-cons y x set),
        ground (arith, contains-cons y x set, eq_iff (key y) (key x)),
      )
    ],
    λ h. elim h [
      | inl m ↦ inl (inr m)
      | inr (a, b) ↦ (elim (Bool-cases (key y == key x)) [
        | inl q ↦ (let p : some y ≡ some x = rw q at b in inl (inl (cc p)))
        | inr q ↦ inr (ground (arith, contains-cons y x set), ground arith)
      ])
    ],
  )

  added : (x : T) (xs set : List T) → Member x (map_to_set insert (λ t. t) xs set) ↔ Comes x xs set
  added x [] set = (λ m. inl m, λ h. elim h [ inl m ↦ m | inr (a, b) ↦ absurd (cc b) ])
  added x (y ∷ xs) set = elim (Bool-cases (contains set y)) [
    | inl old ↦ rw (insert_old y set old) (both (added x xs set) (Comes-old y x xs set old))
    | inr new ↦ rw (insert_new y set new) (both (added x xs (y ∷ set)) (Comes-new y x xs set new))
  ]

  -- `Array(items.mapToSet({ $0 }))`
  abbrev pub unique : List T → List T
  unique xs = map_to_set insert (λ t. t) xs []

  -- The set of a list has the first value of each key, and no others.
  pub Member-unique : (x : T) (xs : List T) → Member x (unique xs) ↔ (first key xs (key x) ≡ some x)
  Member-unique x xs = (
    λ m. elim ((added x xs []).0 m) [ inl n ↦ elim n [ ] | inr (a, b) ↦ b ],
    λ b. (added x xs []).1 (inr (contains-nil x, b)),
  )

  IsDistinct-set :
      (xs set : List T)
      → IsDistinct contains set
      → IsDistinct contains (map_to_set insert (λ t. t) xs set)
  IsDistinct-set [] set d = d
  IsDistinct-set (y ∷ xs) set d = elim (Bool-cases (contains set y)) [
    | inl old ↦ rw (insert_old y set old) (IsDistinct-set xs set d)
    | inr new ↦ rw (insert_new y set new) (IsDistinct-set xs (y ∷ set) (new, d))
  ]

  pub unique-IsDistinct : (xs : List T) → IsDistinct contains (unique xs)
  unique-IsDistinct xs = IsDistinct-set xs [] tt

  pub Member-of_first : (k : String) (x : T) (xs : List T) → first key xs k ≡ some x → Member x xs
  Member-of_first k x [] h = absurd (cc h)
  Member-of_first k x (y ∷ ys) h = elim (Bool-cases (key y == k)) [
    | inl q ↦ (let p : some y ≡ some x = rw q at h in inl (cc p))
    | inr q ↦ inr (Member-of_first k x ys (rw q at h))
  ]

  -- Where the values of the key of `x` are `x`, the first of its key is `x`.
  pub Member-first :
      (xs : List T) (x : T)
      → ((y : T) → Member y xs → key y ≡ key x → y ≡ x)
      → Member x xs
      → first key xs (key x) ≡ some x
  Member-first [] x h m = elim m [ ]
  Member-first (y ∷ ys) x h m = elim (Bool-cases (key y == key x)) [
    | inl q ↦ rw q (ap some (h y (inl refl) ((eq_iff (key y) (key x)).0 q)))
    | inr q ↦ rw q (elim m [
      | inl p ↦ absurd (cc (eq_refl (key x), p, q))
      | inr k ↦ Member-first ys x (λ z n. h z (inr n)) k
    ])
  ]
