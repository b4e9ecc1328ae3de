-- ===== src/Runs/Circle.antt =====
-- The friends of a user in a database in memory.
use on_my_way.Base.{◌≡◌, some, [], ◌∷◌}
use on_my_way.Database.Memory.{memory}
use on_my_way.Friends.{friend_at, add_user_friend}
use on_my_way.Friends.Adding.{friend_at-add_user_friend}
use on_my_way.Runs.Sample.{two_users}

friend_at-add_user_friend_example :
    friend_at memory (add_user_friend memory two_users "a" "-L0" ("b" ∷ "c" ∷ [])).0 "a" "-L0"
    ≡ some "c"
friend_at-add_user_friend_example =
    friend_at-add_user_friend memory ("b" ∷ []) two_users "a" "-L0" "c" "-L0"
