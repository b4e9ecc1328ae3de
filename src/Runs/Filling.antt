-- ===== src/Runs/Filling.antt =====
-- The forms at concrete data.
use Prim.Native.String.{◌++◌ as concat}
use on_my_way.Base.{
  ◌≡◌, ◌↔◌, ◌⊎◌, refl, true, none, some, List, [], ◌∷◌, Member, arith, eqb, eq_iff, Bool-cases, inl,
  inr,
}
use on_my_way.Database.Memory.{memory}
use on_my_way.Model.{Event, Present}
use on_my_way.Model.Dates.{uniform, local, day_only, month_only}
use on_my_way.Accounts.{update_db_user, get_user_info, put_failed, downloaded}
use on_my_way.Events.{upload_event}
use on_my_way.Feed.{Feed, fetch_data, is_upcoming}
use on_my_way.Feed.Shown.{IsFeed}
use on_my_way.Feed.Readable.{Known}
use on_my_way.Forms.{
  done, crashed, components, is_alphanumeric, open_edit, update_profile, add_event, picker_done,
  check_input,
}
use on_my_way.Forms.Names.{after_first, update_profile-open_edit, open_edit-update_db_user}
use on_my_way.Forms.Prices.{get_presents-check_input}
use on_my_way.Forms.Dates.{ReadsBack, fetch_data-add_event}
use on_my_way.Presents.{get_presents, upload_present}
use on_my_way.Presents.Writing.{new_present}
use on_my_way.Runs.Agenda.{
  june, ann, bob, walk, both_answers, bob_has_none, party-IsReadable, left_over, left_over-IsFeed,
  left_over_unseen, left_over-Agrees,
}
use on_my_way.Runs.Calendar.{party}
use on_my_way.Runs.Sample.{two_users}
use on_my_way.Runs.Wishes.{wished, wished-IsComplete}

-- Ann with a first name of two words.
anna_maria : memory.Db
anna_maria = (update_db_user memory two_users "a" "Anna Maria" "Lee" "01-02-1990").0

update_profile-open_edit_example :
    ((update_profile memory anna_maria "a" (open_edit memory anna_maria "a")).1 ≡ done)
    × ((get_user_info memory anna_maria "a").name
        ≡ concat (concat "Anna" " ") (concat "Maria" (after_first ("Lee" ∷ []))))
    × ((get_user_info memory
          (update_profile memory anna_maria "a" (open_edit memory anna_maria "a")).0
          "a").name
        ≡ concat (concat "Anna" " ") "Maria")
    × ((get_user_info memory
          (update_profile memory anna_maria "a" (open_edit memory anna_maria "a")).0
          "a").birthdate
        ≡ (get_user_info memory anna_maria "a").birthdate)
unfolding memory anna_maria two_users update_db_user components get_user_info is_alphanumeric
update_profile-open_edit_example =
    update_profile-open_edit memory anna_maria "a" "Anna" "Maria" ("Lee" ∷ []) refl refl refl

open_edit-update_db_user_example :
    open_edit memory (update_db_user memory two_users "a" "Anna" "Lee" "01-02-1990").0 "a"
    ≡ record { first_name = "Anna"; last_name = "Lee"; date = some "01-02-1990"; new_image = none }
open_edit-update_db_user_example =
    open_edit-update_db_user memory two_users "a" "Anna" "Lee" "01-02-1990" refl refl

get_presents-check_input_example :
    let added =
      check_input memory wished "a" "$" "Lamp" "" "20$" "" (downloaded (some "lamp.png")) in
    (added.1 ≡ done)
    × ((ps : List Present) × (new : List Present) × (get_presents memory wished "a" ≡ some ps)
        × (get_presents memory added.0 "a" ≡ some new)
        × ((p : Present)
            → Member p new
              ↔ ((p ≡ new_present "-L1" "Lamp" "" "20$$" "lamp.png" "") ⊎ Member p ps)))
    × (check_input memory wished "a" "$" "Lamp" "" "20$" "" put_failed ≡ (wished, crashed))
unfolding memory wished two_users upload_present
get_presents-check_input_example =
    get_presents-check_input memory wished "a" "$" "Lamp" "" "20$" "" "lamp.png" "-L1"
      (ground (arith, eq_iff "Lamp" "")) (ground (arith, eq_iff "20$" "")) wished-IsComplete refl

june-ReadsBack : ReadsBack june
june-ReadsBack uniform x = elim (Bool-cases (eqb x 5)) [
  | inl q ↦ (5, rw q refl)
  | inr q ↦ (6, rw q refl)
]
june-ReadsBack local x = elim (Bool-cases (eqb x 5)) [
  | inl q ↦ (5, rw q refl)
  | inr q ↦ (6, rw q refl)
]
june-ReadsBack day_only x = elim (Bool-cases (eqb x 5)) [
  | inl q ↦ (5, rw q refl)
  | inr q ↦ (6, rw q refl)
]
june-ReadsBack month_only x = (5, refl)

fetch_data-add_event_example :
    let (after, answer) = add_event memory party "a" "Walk" "" (picker_done june 6) in
    (answer ≡ done)
    × (feed : Feed) × (fetch_data memory june after both_answers left_over ≡ some feed)
    × IsFeed june 4 feed
    × ((e : Event)
        → Member e feed.events ↔ (
            ((e ≡ walk) ⊎ Known memory june party left_over (bob ∷ ann ∷ []) e)
            × (is_upcoming june 4 e ≡ some true)))
unfolding memory party two_users upload_event
fetch_data-add_event_example =
    fetch_data-add_event memory june party 2 6 left_over both_answers ann "Walk" "" "-L1"
      june-ReadsBack left_over-IsFeed (refl, (refl, tt)) party-IsReadable left_over-Agrees
      (inr (inl refl)) (ground (arith, eq_iff "Walk" "")) (ground (arith, eq_iff "06-06-2020" ""))
      refl
      (λ u m. elim m [
        | inl p ↦ rw p (bob_has_none "-L1")
        | inr (inl p) ↦ rw p refl
        | inr (inr k) ↦ elim k [ ]
      ])
      (λ d m. left_over_unseen d "-L1" m (ground (arith, eq_iff "-L9" "-L1")))
