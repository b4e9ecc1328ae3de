-- ===== src/Runs/Profiles.antt =====
-- The searches and the account services on a database in memory.
use on_my_way.Base.{
  String, ◌≡◌, ◌≢◌, ◌↔◌, refl, true, false, some, List, [], ◌∷◌, eq_iff, arith, Member,
}
use on_my_way.Database.Memory.{memory}
use on_my_way.Model.{User}
use on_my_way.Social.{user_at, follow_user, find_users}
use on_my_way.Social.Follow.{IsMutual}
use on_my_way.Social.Search.{Named, find_users_exact}
use on_my_way.Accounts.{delete_user, check_phone_number, register_user, signed_in}
use on_my_way.Accounts.Deletion.{AcceptsAll, delete_user_breaks}
use on_my_way.Accounts.PhoneCheck.{InUse, check_phone_number_exact}
use on_my_way.Accounts.SignUp.{register_user_order}
use on_my_way.Runs.Sample.{two_users, a_follows_b}

not_empty : ◌≢◌ {A = String} "Ann" ""
not_empty = ground (arith, eq_iff "Ann" "")

a_ne_b : ◌≢◌ {A = String} "a" "b"
a_ne_b = ground (arith, eq_iff "a" "b")

find_users_exact_example :
    (users : List User) × (find_users memory two_users "b" "Ann" ≡ some users)
    × ((u : User) → Member u users ↔ Named memory two_users "b" "Ann" u)
find_users_exact_example = find_users_exact memory two_users "b" "Ann" not_empty

find_ann : find_users memory two_users "b" "Ann" ≡ some (user_at memory two_users "a" ∷ [])
unfolding find_users memory two_users
find_ann = refl

check_phone_number_exact_example :
    (check_phone_number memory two_users "+7100" ≡ true) ↔ InUse memory two_users "+7100"
check_phone_number_exact_example = check_phone_number_exact memory two_users "+7100"

register_user_order_example :
    register_user memory true two_users (signed_in "a" "phone" (some "+7100"))
    ≡ register_user memory false two_users (signed_in "a" "phone" (some "+7100"))
unfolding memory two_users
register_user_order_example =
    register_user_order memory "a" "phone" "+7100" two_users (λ b n. (refl, refl))

b_may_be_removed : AcceptsAll memory "b"
unfolding memory
b_may_be_removed = record {
  events = λ db. refl;
  presents = λ db. refl;
  following_list = λ db. refl;
  followers_list = λ db. refl;
}

delete_user_breaks_example : ¬ IsMutual memory (delete_user memory a_follows_b "Deleted User" "b")
unfolding memory two_users a_follows_b follow_user
delete_user_breaks_example =
    delete_user_breaks memory "Deleted User" "b" b_may_be_removed a_follows_b "a" a_ne_b refl
