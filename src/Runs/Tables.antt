-- ===== src/Runs/Tables.antt =====
-- The lists and buttons of the screens at concrete data.
use Prim.Native.String.{◌++◌ as concat}
use on_my_way.Base.{
  ℕ, ◌<◌, eq_iff, String, ◌≡◌, ◌↔◌, refl, true, false, ◌&&◌, ◌==◌, some, List, [], ◌∷◌, Member,
  arith,
}
use on_my_way.Database.Memory.{memory}
use on_my_way.Model.{User, Present, same_event, contains_event, hash_event}
use on_my_way.Feed.{friend_of}
use on_my_way.Feed.Hashing.{event_hashable}
use on_my_way.Presents.{get_presents, remove_present}
use on_my_way.Presents.Removal.{StoredElsewhere}
use on_my_way.Presents.Writing.{new_present}
use on_my_way.Social.Follow.{follows, has_follower}
use on_my_way.Social.Search.{Named}
use on_my_way.Screens.{Search, text_did_change, on_found, user_for_row, on_presents, did_select}
use on_my_way.Screens.Rows.{on_found_exact}
use on_my_way.Screens.Shelf.{on_presents-remove_present}
use on_my_way.Screens.Toggle.{did_select_agrees}
use on_my_way.Runs.Agenda.{ann, walk, dinner}
use on_my_way.Runs.Services.{Accepts-following, Accepts-followers}
use on_my_way.Runs.Sample.{two_users}
use on_my_way.Runs.Wishes.{wished, wished-IsComplete}

-- Bob searches; an earlier query has left two rows.
abbrev searching : Search
searching = record {
  filtered_users = ann ∷ ann ∷ [];
  search_active = true;
  current_text = some "An";
  rows = 2;
}

on_found_exact_example :
    let (typed, query) = text_did_change "Ann" searching in
    let after = on_found memory two_users "b" [] "Ann" typed in
    (query ≡ some "Ann")
    × ((row : ℕ)
        → row < after.rows
        → (u : User) × (user_for_row [] after row ≡ some u) × Named memory two_users "b" "Ann" u)
    × ((u : User)
        → Named memory two_users "b" "Ann" u
        → (row : ℕ) × (row < after.rows) × (user_for_row [] after row ≡ some u))
on_found_exact_example =
    on_found_exact memory two_users "b" "Ann" [] searching (ground (arith, eq_iff "Ann" "")) refl

abbrev book : Present
book = new_present "-L0" "Book" "" "10" "book.png" ""

on_presents-remove_present_example :
    (left : List Present) × ((remove_present memory wished "a" "-L0").1 ≡ true)
    × (get_presents memory (remove_present memory wished "a" "-L0").0 "a" ≡ some left)
    × ((p : Present) → Member p left ↔ StoredElsewhere memory "a" wished "-L0" p)
    × ((p : Present)
        → StoredElsewhere memory "a" wished "-L0" p
        → on_presents left (book ∷ []) ≡ left)
    × (((p : Present) → ¬ StoredElsewhere memory "a" wished "-L0" p)
        → on_presents left (book ∷ []) ≡ book ∷ [])
unfolding memory
on_presents-remove_present_example =
    on_presents-remove_present memory "a" wished "-L0" (book ∷ []) wished-IsComplete refl

did_select_agrees_example :
    ((did_select memory two_users "a" "b" false).1 ≡ true)
    × (follows memory (did_select memory two_users "a" "b" false).0 "a" "b"
        ≡ (did_select memory two_users "a" "b" false).1)
    × (has_follower memory (did_select memory two_users "a" "b" false).0 "b" "a"
        ≡ (did_select memory two_users "a" "b" false).1)
    × ((x y : String)
        → ("a" == x && "b" == y) ≡ false
        → (follows memory (did_select memory two_users "a" "b" false).0 x y
            ≡ follows memory two_users x y)
          × (has_follower memory (did_select memory two_users "a" "b" false).0 y x
              ≡ has_follower memory two_users y x))
unfolding memory two_users
did_select_agrees_example =
    did_select_agrees memory two_users "a" "b" false Accepts-following Accepts-followers refl

event_hashable_example :
    (same_event walk walk ≡ true)
    × (same_event walk dinner ≡ same_event dinner walk)
    × (same_event walk dinner ≡ true → same_event dinner walk ≡ true → same_event walk walk ≡ true)
    × (same_event walk dinner ≡ true
        → (hash_event concat walk "" ≡ hash_event concat dinner "")
          × (contains_event (walk ∷ []) walk ≡ contains_event (walk ∷ []) dinner)
          × (friend_of ((walk, ann) ∷ []) walk ≡ friend_of ((walk, ann) ∷ []) dinner))
event_hashable_example = event_hashable concat "" walk dinner walk (walk ∷ []) ((walk, ann) ∷ [])
