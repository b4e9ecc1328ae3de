-- ===== src/Runs/Sample.antt =====
-- A small database in memory.
use on_my_way.Base.{[], ◌∷◌}
use on_my_way.Database.{words}
use on_my_way.Database.Memory.{memory}
use on_my_way.Social.{follow_user}

unfoldable pub two_users : memory.Db
unfolding memory
two_users =
    ("users" ∷ "a" ∷ "userId" ∷ [], words "a")
    ∷ ("users" ∷ "a" ∷ "name" ∷ [], words "Ann Lee")
    ∷ ("users" ∷ "a" ∷ "birthdate" ∷ [], words "01-02-1990")
    ∷ ("users" ∷ "a" ∷ "phoneNumber" ∷ [], words "+7100")
    ∷ ("users" ∷ "b" ∷ "userId" ∷ [], words "b")
    ∷ ("users" ∷ "b" ∷ "name" ∷ [], words "Bob Roe")
    ∷ ("users" ∷ "b" ∷ "birthdate" ∷ [], words "03-04-1991")
    ∷ ("users" ∷ "b" ∷ "phoneNumber" ∷ [], words "+7200")
    ∷ []

-- Ann follows Bob.
unfoldable pub a_follows_b : memory.Db
unfolding two_users
a_follows_b = (follow_user memory two_users "a" "b").0
