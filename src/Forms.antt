-- ===== src/Forms.antt =====
-- The forms of the app: what they check in their fields and what they hand to the services.
-- Controller/PhoneVerifyVC.swift, PhoneSignUpVC.swift, EditProfileTable.swift with the part of ProfileTableVC.swift that
-- opens it, AddEventVC.swift and AddPresentsVC.swift. The text of a field is never missing; a forced
-- unwrapping that finds nothing stops the program.
pub mod Dates
pub mod Entry
pub mod Names
pub mod Prices
use Prim.Native.Char.{code}
use Prim.Native.Nat.{◌+◌}
use Prim.Native.String.{◌++◌ as concat}
use on_my_way.Base.{
  ℕ, String, Bool, true, false, not, ◌&&◌, ◌||◌, Option, none, some, List, [], ◌∷◌, eqb, ◌==◌,
  if◌then◌else◌,
}
use on_my_way.Database.{Database}
use on_my_way.Model.{User}
use on_my_way.Model.Dates.{Calendar, uniform}
use on_my_way.Accounts.{
  Upload, SignIn, Notice, new_user, user_exists, upload_media, update_db_user, get_user_info,
  add_user_img, register_user,
}
use on_my_way.Events.{upload_event}
use on_my_way.Presents.{upload_present}

-- What the user sees at the end: an alert, that the request goes on, or that it is done. `crashed`
-- is a forced unwrapping of nothing.
pub data Answer : Type 0 where
  wrong_data try_again waiting done crashed : Answer

-- What PhoneVerifyVC shows next: the spinner for good, the alert, or one of two screens.
pub data Screen : Type 0 where
  spinner wrong_code sign_up_screen presents_screen : Screen

-- The completion of `regiserUser`, and the observers that it adds before the notice is posted.
abbrev pub screen_of : Option Bool → Option Notice → Screen
screen_of none notice = spinner
screen_of (some false) notice = wrong_code
screen_of (some true) none = spinner
screen_of (some true) (some new_user) = sign_up_screen
screen_of (some true) (some user_exists) = presents_screen

-- The letters of `isAlphanumeric` in Helpers/Extension/StringExtensions.swift
abbrev pub allowed : String
allowed =
    "abcdefghijklmnopqrstuvwxyzABCDEFGHIJKLMNOPQRSTUVWXYZАаБбВвГгДдЕеЁёЖжЗзИиЙйКкЛлМмНнОоПпРрСсТтУуФфХхЦцЧчШшЩщЪъЫыЬьЭэЮюЯя "

unfoldable pub occurs : ℕ → String → Bool
occurs c String.[] = false
occurs c (String.◌∷◌ d s) = eqb (code d) c || occurs c s

-- `rangeOfCharacter(from: characterSet.inverted) == nil`
unfoldable pub all_allowed : String → Bool
unfolding occurs
all_allowed String.[] = true
all_allowed (String.◌∷◌ c s) = occurs (code c) allowed && all_allowed s

abbrev pub is_empty : String → Bool
is_empty s = s == ""

unfoldable pub is_alphanumeric : String → Bool
unfolding all_allowed
is_alphanumeric s = if is_empty s then false else all_allowed s

-- `donePressed` of PhoneSignUpVC and `updateProfile` share their guard.
abbrev pub accepts : String → String → Option String → Bool
accepts first_name last_name none = false
accepts first_name last_name (some birthdate) =
    is_alphanumeric first_name
    && is_alphanumeric last_name
    && not (is_empty first_name)
    && not (is_empty last_name)
    && not (is_empty birthdate)

-- `components(separatedBy: " ")`: the part before the first space, and the others.
unfoldable pub components : String → String × List String
components String.[] = ("", [])
components (String.◌∷◌ c s) =
    let (part, parts) = components s in
    if eqb (code c) b' ' then ("", part ∷ parts) else (String.◌∷◌ c part, parts)

-- The fields of EditProfileTable.
pub record EditForm : Type 0 where
  pub first_name : String
  pub last_name : String
  pub date : Option String
  pub new_image : Option Upload

abbrev pub second_of : List String → String
second_of [] = ""
second_of (part ∷ parts) = part

-- `price.last`
unfoldable pub last_code : String → Option ℕ
last_code String.[] = none
last_code (String.◌∷◌ c s) = elim (last_code s) [ none ↦ some (code c) | some d ↦ some d ]

abbrev pub is_code : ℕ → Option ℕ → Bool
is_code c none = false
is_code c (some d) = eqb d c

-- U+20BD
abbrev pub ruble : ℕ
ruble = 8381

-- `dollar` is `"$".localized`.
unfoldable pub with_currency : String → String → String
unfolding last_code
with_currency dollar price =
    if not (is_code b'$' (last_code price)) || not (is_code ruble (last_code price))
    then concat price dollar
    else price

-- `pickerDonePressed` of AddEventVC, PhoneSignUpVC and EditProfileTable: the stored text of a day.
module _ (c : Calendar) where
  open c use {Date, format}

  abbrev pub picker_done : Date → Option String
  picker_done x = some (format uniform x)

module _ (f : Database) where
  open f use {Db}

  -- `prepare(for:)` of ProfileTableVC and the answer to `getUserInfo` in `viewWillAppear`.
  unfoldable pub open_edit : Db → String → EditForm
  unfolding components
  open_edit db uid =
      let user = get_user_info f db uid in
      let (part, parts) = components user.name in
      record {
        first_name = part;
        last_name = second_of parts;
        date = some user.birthdate;
        new_image = none;
      }

  abbrev pub with_image : Db → String → Option Upload → Db
  with_image db uid none = db
  with_image db uid (some upload) = (add_user_img f db uid upload).0

  abbrev pub updated : Bool → Answer
  updated true = done
  updated false = try_again

  abbrev pub date_of : Option String → String
  date_of none = ""
  date_of (some birthdate) = birthdate

  -- `updateProfile`, with the image added after the data is written.
  unfoldable pub update_profile : Db → String → EditForm → Db × Answer
  unfolding is_alphanumeric
  update_profile db uid form =
      if accepts form.first_name form.last_name form.date
      then (let (db1, is_updated) =
            update_db_user f db uid form.first_name form.last_name (date_of form.date) in
          (with_image db1 uid form.new_image, updated is_updated))
      else (db, wrong_data)

  -- `donePressed` of PhoneSignUpVC: the profile and one of the six images, whose upload ends as it
  -- may.
  unfoldable pub done_pressed : Db → String → String → String → Option String → Upload → Db × Answer
  unfolding is_alphanumeric
  done_pressed db uid first_name last_name date chosen =
      if accepts first_name last_name date
      then (let (db1, is_updated) = update_db_user f db uid first_name last_name (date_of date) in
          ((add_user_img f db1 uid chosen).0, updated is_updated))
      else (db, wrong_data)

  -- `nextPressed` of PhoneVerifyVC, with the answer to the sign-in by the code.
  unfoldable pub next_pressed : Bool → Db → SignIn → Db × Screen
  next_pressed late db answer =
      let (db1, status, notice) = register_user f late db answer in (db1, screen_of status notice)

  abbrev pub success_of : Option Bool → Answer
  success_of none = waiting
  success_of (some true) = done
  success_of (some false) = try_again

  -- `addEvent` of AddEventVC; `date` is nothing until a day is picked.
  unfoldable pub add_event : Db → String → String → String → Option String → Db × Answer
  add_event db uid name description none = (db, wrong_data)
  add_event db uid name description (some date) =
      if not (is_empty name) && not (is_empty date)
      then (let (db1, success) = upload_event f db uid name description date in
          (db1, success_of success))
      else (db, wrong_data)

  abbrev pub add_with_image :
      Db → String → String → String → String → String → Option (Option String) → Db × Answer
  add_with_image db uid name description price link none = (db, waiting)
  add_with_image db uid name description price link (some none) = (db, crashed)
  add_with_image db uid name description price link (some (some url)) =
      let (db1, success) = upload_present f db name description price url uid link in
      (db1, success_of success)

  -- `check_input` of AddPresentsVC, with how the upload of the image ends.
  unfoldable pub check_input :
      Db → String → String → String → String → String → String → Upload → Db × Answer
  unfolding upload_media with_currency
  check_input db uid dollar name description price link upload =
      if not (is_empty name) && not (is_empty price)
      then add_with_image db uid name description (with_currency dollar price) link
          (upload_media upload)
      else (db, wrong_data)
