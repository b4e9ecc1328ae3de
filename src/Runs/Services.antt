-- ===== src/Runs/Services.antt =====
-- The services on a database in memory.
use on_my_way.Base.{◌≡◌, refl, true, false, [], ◌∷◌, arith}
use on_my_way.Database.Memory.{memory}
use on_my_way.Social.{following_ref, followers_ref, follow_user, unfollow_user}
use on_my_way.Runs.Sample.{two_users}
use on_my_way.Social.Graph.{Request, apply_requests, Served, Shows, Served-Shows}
use on_my_way.Social.Follow.{Accepts, follows, has_follower, unfollow_half}

pub Accepts-following : Accepts memory (following_ref "a" "b")
unfolding memory
Accepts-following db = refl

pub Accepts-followers : Accepts memory (followers_ref "b" "a")
unfolding memory
Accepts-followers db = refl

-- The account "locked" may not remove what is below it.
locked_follows_b : memory.Db
unfolding two_users
locked_follows_b = (follow_user memory two_users "locked" "b").0

unfollow_half_example :
    (follows memory (unfollow_user memory locked_follows_b "locked" "b").0 "locked" "b" ≡ true)
    × (has_follower memory (unfollow_user memory locked_follows_b "locked" "b").0 "b" "locked"
        ≡ false)
    × ((unfollow_user memory locked_follows_b "locked" "b").1 ≡ true)
unfolding memory locked_follows_b follow_user
unfollow_half_example =
    unfollow_half memory locked_follows_b "locked" "b" "permission denied" refl (λ db. refl) refl

-- Nobody follows anybody.
two_users-Shows : Shows memory two_users (λ x y. false)
unfolding two_users memory
two_users-Shows = record { out_edges = λ x y. ground arith; in_edges = λ x y. ground arith }

-- Ann follows Bob and takes it back.
Served-Shows_example :
    Shows memory
      (unfollow_user memory (follow_user memory two_users "a" "b").0 "a" "b").0
      (apply_requests (Request.follow "a" "b" ∷ Request.unfollow "a" "b" ∷ []) (λ x y. false))
Served-Shows_example =
    Served-Shows memory two_users
      (unfollow_user memory (follow_user memory two_users "a" "b").0 "a" "b").0
      (Request.follow "a" "b" ∷ Request.unfollow "a" "b" ∷ []) (λ x y. false)
      (Served.followed "a" "b"
        (Served.unfollowed "a" "b" Accepts-following Accepts-followers Served.idle))
      two_users-Shows
