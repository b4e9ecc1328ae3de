-- ===== src/Screens/Toggle.antt =====
-- The button of Controller/UserVC.swift: its flag and the entries in the database.
use on_my_way.Base.{String, ◌≡◌, refl, Bool, true, false, not, ◌&&◌, ◌==◌, arith, eq_refl}
use on_my_way.Database.{Database}
use on_my_way.Social.{following_ref, followers_ref}
use on_my_way.Social.Follow.{
  Accepts, follows, has_follower, follows-follow_user, has_follower-follow_user,
  follows-unfollow_user, has_follower-unfollow_user,
}
use on_my_way.Screens.{did_select}

module _ (f : Database) where
  open f use {Db}

  -- Where the flag `following` says what the database says of the two users and the server accepts
  -- the removals: after a tap it is the other one and says again what the database says, on both
  -- sides, and no other pair of users has changed.
  pub did_select_agrees :
      (db : Db) (current uid : String) (following : Bool)
      → Accepts f (following_ref current uid)
      → Accepts f (followers_ref uid current)
      → follows f db current uid ≡ following
      → let (after, flag) = did_select f db current uid following in
        (flag ≡ not following)
        × (follows f after current uid ≡ flag)
        × (has_follower f after uid current ≡ flag)
        × ((x y : String)
            → (current == x && uid == y) ≡ false
            → (follows f after x y ≡ follows f db x y)
              × (has_follower f after y x ≡ has_follower f db y x))
  unfolding did_select
  did_select_agrees db current uid true h k e = (
    refl,
    ground (
      arith,
      follows-unfollow_user f db current uid current uid h k,
      eq_refl current,
      eq_refl uid,
    ),
    ground (
      arith,
      has_follower-unfollow_user f db current uid current uid h k,
      eq_refl current,
      eq_refl uid,
    ),
    λ x y n. (
      ground (arith, follows-unfollow_user f db current uid x y h k),
      ground (arith, has_follower-unfollow_user f db current uid x y h k),
    ),
  )
  did_select_agrees db current uid false h k e = (
    refl,
    ground (arith, follows-follow_user f db current uid current uid, eq_refl current, eq_refl uid),
    ground (
      arith,
      has_follower-follow_user f db current uid current uid,
      eq_refl current,
      eq_refl uid,
    ),
    λ x y n. (
      ground (arith, follows-follow_user f db current uid x y),
      ground (arith, has_follower-follow_user f db current uid x y),
    ),
  )
