-- ===== src/Forms/Names.antt =====
-- The two names in the form of Controller/EditProfileTable.swift against the one that is stored.
use Prim.Native.Char.{Char, char, code, IsScalar}
use Prim.Native.String.{◌++◌ as concat}
use text.Mathlib.TextLemmas.{nil-append, cons-append, append-nil, append_assoc}
use on_my_way.Base.{
  ℕ, String, ◌≡◌, refl, sym, ap, subst, ◌∙◌, Bool, true, false, not, ◌&&◌, none, some, List, [],
  ◌∷◌, eqb, Bool-cases, inl, inr, arith, eq_refl,
}
use on_my_way.Database.{Database}
use on_my_way.Model.{User}
use on_my_way.Accounts.{update_db_user, get_user_info}
use on_my_way.Accounts.Profile.{get_user_info-update_db_user}
use on_my_way.Keys.{default_profile_img}
use on_my_way.Forms.{components, done, accepts, open_edit, update_profile}

abbrev pub has_no_space : String → Bool
has_no_space String.[] = true
has_no_space (String.◌∷◌ c s) = not (eqb (code c) b' ') && has_no_space s

-- What comes after the first part, with a space before each.
abbrev pub after_first : List String → String
after_first [] = ""
after_first (part ∷ parts) = concat " " (concat part (after_first parts))

abbrev pub space : Char
space = char 32 tt

space_of_number : (n : ℕ) (p : IsScalar n) → n ≡ 32 → char n p ≡ space
space_of_number n p e = subst (λ m. (q : IsScalar m) → char m q ≡ space) (sym e) (λ q. refl) p

is_space : (c : Char) → eqb (code c) b' ' ≡ true → c ≡ space
is_space (char n p) h = space_of_number n p (ground arith)

-- The parts between the spaces make up the text.
components_join : (s : String) → concat (components s).0 (after_first (components s).1) ≡ s
unfolding components
components_join String.[] = refl
components_join (String.◌∷◌ c s) = elim (Bool-cases (eqb (code c) b' ')) [
  | inl q ↦ rw q (
      nil-append (concat " " (concat (components s).0 (after_first (components s).1)))
      ∙ ap (concat " ") (components_join s)
      ∙ cons-append space "" s
      ∙ ap (String.◌∷◌ space) (nil-append s)
      ∙ ap (λ d. String.◌∷◌ d s) (sym (is_space c q)))
  | inr q ↦ rw q (
      cons-append c (components s).0 (after_first (components s).1)
      ∙ ap (String.◌∷◌ c) (components_join s))
]

-- A text without spaces before another belongs to its first part.
components-append :
    (s t : String)
    → has_no_space s ≡ true
    → (components (concat s t)).0 ≡ concat s (components t).0
      × ((components (concat s t)).1 ≡ (components t).1)
unfolding components
components-append String.[] t h =
    (rw (nil-append t, nil-append (components t).0) refl, rw (nil-append t) refl)
components-append (String.◌∷◌ c s) t h =
    let q : eqb (code c) b' ' ≡ false = ground arith in
    let (first, rest) = components-append s t (ground arith) in
    (
      rw (cons-append c s t, components)
          (rw q (ap (String.◌∷◌ c) first ∙ sym (cons-append c s (components t).0))),
      rw (cons-append c s t, components) (rw q rest),
    )

one_part : (s : String) → has_no_space s ≡ true → ((components s).0 ≡ s) × ((components s).1 ≡ [])
unfolding components
one_part s h =
    let (first, rest) = components-append s "" h in
    (
      ap (λ t. (components t).0) (sym (append-nil s)) ∙ first ∙ append-nil s,
      ap (λ t. (components t).1) (sym (append-nil s)) ∙ rest,
    )

-- Two names without spaces are the parts of the joined name.
components-full_name :
    (first last : String)
    → has_no_space first ≡ true
    → has_no_space last ≡ true
    → ((components (concat (concat first " ") last)).0 ≡ first)
      × ((components (concat (concat first " ") last)).1 ≡ last ∷ [])
unfolding components
components-full_name first last h k =
    let (part, parts) = components-append first (concat " " last) h in
    let (p, q) = one_part last k in
    let after : concat " " last ≡ String.◌∷◌ space last =
      cons-append space "" last ∙ ap (String.◌∷◌ space) (nil-append last) in
    (
      ap (λ t. (components t).0) (append_assoc first " " last)
          ∙ part
          ∙ rw (after, components) (append-nil first),
      ap (λ t. (components t).1) (append_assoc first " " last)
          ∙ parts
          ∙ rw (after, components) (rw (p, q) refl),
    )

module _ (f : Database) where
  open f use {Db}

  opened :
      (db : Db) (uid p q : String) (rest : List String)
      → (components (get_user_info f db uid).name).0 ≡ p
      → (components (get_user_info f db uid).name).1 ≡ q ∷ rest
      → open_edit f db uid ≡ record {
        first_name = p;
        last_name = q;
        date = some (get_user_info f db uid).birthdate;
        new_image = none;
      }
  unfolding open_edit
  opened db uid p q rest h k = rw (h, k) refl

  saved :
      (db : Db) (uid p q birthdate : String)
      → accepts p q (some birthdate) ≡ true
      → update_profile f db uid
          (record { first_name = p; last_name = q; date = some birthdate; new_image = none })
        ≡ ((update_db_user f db uid p q birthdate).0, done)
  unfolding update_profile update_db_user
  saved db uid p q birthdate h = rw h refl

  -- Where the stored name has a first and a second part between its spaces that the form accepts,
  -- with the stored birthdate: opening the form and saving it unchanged succeeds, and leaves a name
  -- of these two parts. The name before had them and all further parts, which are lost.
  pub update_profile-open_edit :
      (db : Db) (uid p q : String) (rest : List String)
      → (components (get_user_info f db uid).name).0 ≡ p
      → (components (get_user_info f db uid).name).1 ≡ q ∷ rest
      → accepts p q (some (get_user_info f db uid).birthdate) ≡ true
      → let (after, answer) = update_profile f db uid (open_edit f db uid) in
        (answer ≡ done)
        × ((get_user_info f db uid).name ≡ concat (concat p " ") (concat q (after_first rest)))
        × ((get_user_info f after uid).name ≡ concat (concat p " ") q)
        × ((get_user_info f after uid).birthdate ≡ (get_user_info f db uid).birthdate)
  update_profile-open_edit db uid p q rest h k a =
      let old = get_user_info f db uid in
      let all = opened db uid p q rest h k in
      let new = saved db uid p q old.birthdate a in
      let info = get_user_info-update_db_user f db uid p q old.birthdate uid in
      (
        rw (all, new) refl,
        sym (components_join old.name)
            ∙ rw (h, k) (sym (append_assoc p " " (concat q (after_first rest)))),
        rw (all, new) (rw (info, eq_refl uid) refl),
        rw (all, new) (rw (info, eq_refl uid) refl),
      )

  -- After `updateDBUser` with two names that have no spaces, the form opens with these names and
  -- the birthdate.
  pub open_edit-update_db_user :
      (db : Db) (uid first last birthdate : String)
      → has_no_space first ≡ true
      → has_no_space last ≡ true
      → open_edit f (update_db_user f db uid first last birthdate).0 uid
        ≡ record { first_name = first; last_name = last; date = some birthdate; new_image = none }
  open_edit-update_db_user db uid first last birthdate h k =
      let info = get_user_info-update_db_user f db uid first last birthdate uid in
      let full : get_user_info f (update_db_user f db uid first last birthdate).0 uid ≡ record {
        name = concat (concat first " ") last;
        birthdate = birthdate;
        uid = uid;
        profile_img_url = default_profile_img;
      } =
        rw (info, eq_refl uid) refl in
      let (p, q) = components-full_name first last h k in
      opened (update_db_user f db uid first last birthdate).0 uid first last []
        (ap (λ (u : User). (components u.name).0) full ∙ p)
        (ap (λ (u : User). (components u.name).1) full ∙ q)
      ∙ ap
          (λ (u : User). record {
            first_name = first;
            last_name = last;
            date = some u.birthdate;
            new_image = none;
          })
          full
