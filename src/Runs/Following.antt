-- ===== src/Runs/Following.antt =====
-- The list of followed users over a database in memory, in which Ann follows Bob.
use on_my_way.Base.{
  ◌+◌, ◌≡◌, String, ◌⊎◌, refl, true, false, some, elem, Member, [], ◌∷◌, length, arith,
}
use on_my_way.Database.Memory.{memory}
use on_my_way.Social.{get_user, follow_user, unfollow_user}
use on_my_way.Social.Follow.{follows}
use on_my_way.Model.{User, contains_user}
use on_my_way.Social.Observer.{
  Follows, add_follows_observer, snapshot, on_snapshot, on_answer, Answers, quiet, answer, idle,
  answered,
}
use on_my_way.Social.Observer.Settled.{ShowsFollows, Run-shows, Answers-settle, unfollow_stale}
use on_my_way.Runs.Services.{Accepts-following, Accepts-followers}
use on_my_way.Runs.Sample.{two_users, a_follows_b}

-- An observer, and a list that is left of an earlier session.
abbrev opened : Follows
opened = record {
  follows_list = record { name = "Old"; birthdate = ""; uid = "x"; profile_img_url = "" } ∷ [];
  observers = "a" ∷ [];
  pending = [];
  updates = 0;
}

-- The observer is added again, and a second snapshot comes before the one answer.
abbrev reopened : Follows
reopened = add_follows_observer (some "a") opened

abbrev followed_list : Follows
followed_list =
    on_answer memory a_follows_b ("b" ∷ []) "b" []
      (on_snapshot memory a_follows_b "a" (on_snapshot memory a_follows_b "a" reopened))

Run-shows_example :
    ((u : User)
      → Member u followed_list.follows_list
      → (id : String) × (follows memory a_follows_b "a" id ≡ true)
        × (u ≡ get_user memory a_follows_b id))
    × ((id : String)
        → elem id followed_list.pending ≡ true
        → follows memory a_follows_b "a" id ≡ true)
    × ((id : String)
        → follows memory a_follows_b "a" id ≡ true
        → (elem id followed_list.pending ≡ true)
          ⊎ (contains_user followed_list.follows_list (get_user memory a_follows_b id) ≡ true))
unfolding a_follows_b memory on_snapshot follow_user two_users add_follows_observer
Run-shows_example =
    Run-shows memory a_follows_b "a" opened followed_list refl
      (snapshot refl (answered ("b" ∷ []) "b" [] refl idle))

Answers-settle_example :
    (0 + length (on_snapshot memory a_follows_b "a" opened).pending ≡ 1)
    × ((u : Follows) × Answers memory a_follows_b
          (on_snapshot memory a_follows_b "a" opened)
          (length (on_snapshot memory a_follows_b "a" opened).pending)
          u)
    × ((u : Follows)
        → Answers memory a_follows_b
            (on_snapshot memory a_follows_b "a" opened)
            (length (on_snapshot memory a_follows_b "a" opened).pending)
            u
        → (u.pending ≡ []) × ShowsFollows memory a_follows_b "a" u)
unfolding a_follows_b memory follow_user two_users
Answers-settle_example =
    Answers-settle memory a_follows_b "a" opened (on_snapshot memory a_follows_b "a" opened) 0 refl
      quiet

-- Ann takes it back before the request for Bob is answered.
a_left_b : memory.Db
a_left_b = (unfollow_user memory a_follows_b "a" "b").0

asked_twice : Follows
asked_twice = on_snapshot memory a_left_b "a" (on_snapshot memory a_follows_b "a" opened)

stale_list : Follows
stale_list = on_answer memory a_left_b [] "b" [] asked_twice

stale_answer : Answers memory a_left_b asked_twice 1 stale_list
unfolding a_follows_b a_left_b memory on_snapshot follow_user unfollow_user two_users stale_list
    asked_twice
stale_answer = answer {n = 0} [] "b" [] refl (omega arith) quiet

unfollow_stale_example :
    (follows memory a_left_b "a" "b" ≡ false)
    × (contains_user stale_list.follows_list (get_user memory a_left_b "b") ≡ true)
unfolding a_follows_b a_left_b memory follow_user two_users asked_twice stale_list on_answer
unfollow_stale_example =
    unfollow_stale memory a_follows_b "a" "b" opened stale_list 1 Accepts-following
      Accepts-followers refl stale_answer refl
