-- ===== src/Runs/Wishes.antt =====
-- The presents of a user in a database in memory.
use on_my_way.Base.{◌≡◌, ◌↔◌, ◌⊎◌, refl, true, some, List, Member}
use on_my_way.Database.Memory.{memory}
use on_my_way.Model.{Present}
use on_my_way.Presents.{upload_present, get_presents}
use on_my_way.Presents.Reading.{IsComplete}
use on_my_way.Presents.Writing.{new_present, with_present-IsComplete, get_presents-upload_present}
use on_my_way.Runs.Sample.{two_users}

two_users-IsComplete : IsComplete memory "a" two_users
unfolding memory two_users
two_users-IsComplete = record { reads = λ key h. absurd (cc h) }

-- Ann with one present, whose key is "-L0".
unfoldable pub wished : memory.Db
wished = (upload_present memory two_users "Book" "" "10" "book.png" "a" "").0

pub wished-IsComplete : IsComplete memory "a" wished
unfolding wished memory two_users upload_present
wished-IsComplete =
    with_present-IsComplete memory "a" "-L0" "Book" "" "10" "book.png" "" two_users
      two_users-IsComplete

get_presents-upload_present_example :
    (ps : List Present) × (new : List Present) × (get_presents memory wished "a" ≡ some ps)
    × ((upload_present memory wished "Lamp" "" "20" "lamp.png" "a" "").1 ≡ some true)
    × (get_presents memory (upload_present memory wished "Lamp" "" "20" "lamp.png" "a" "").0 "a"
        ≡ some new)
    × ((p : Present)
        → Member p new ↔ ((p ≡ new_present "-L1" "Lamp" "" "20" "lamp.png" "") ⊎ Member p ps))
unfolding memory wished two_users upload_present
get_presents-upload_present_example =
    get_presents-upload_present memory "a" wished "Lamp" "" "20" "lamp.png" "" "-L1"
      wished-IsComplete refl
