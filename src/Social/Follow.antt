-- ===== src/Social/Follow.antt =====
-- Following and unfollowing: `followUser` and `unfollowUser` of Services/FriendSystem.swift.
use on_my_way.Base.{
  String, ◌≡◌, refl, Bool, true, false, ◌&&◌, ◌||◌, none, some, ◌==◌, eq_iff, arith, if◌then◌else◌,
}
use on_my_way.Database.{flag, NodePath, apart, Database}
use on_my_way.Social.{following_ref, followers_ref, follow_user, unfollow_user}

module _ (f : Database) where
  open f use {Db, set_value, read, exists, children, remove_error, remove_value, read-set_value}
  open f use {
    exists-set_value, read-remove_value, exists-remove_value, exists-remove_value_self,
    remove_value_refused, elem-children,
  }

  -- `a` follows `b`, by the entry that each of the two keeps.
  abbrev pub follows : Db → String → String → Bool
  follows db a b = exists db (following_ref a b)

  abbrev pub has_follower : Db → String → String → Bool
  has_follower db b a = exists db (followers_ref b a)

  -- The entries of the two sides agree.
  pub record IsMutual (db : Db) : Type 0 where
    pub agree : (a b : String) → follows db a b ≡ has_follower db b a

  -- After `followUser`, the only new follow is the one asked for.
  pub follows-follow_user :
      (db : Db) (a b x y : String)
      → follows (follow_user f db a b).0 x y ≡ ((a == x && b == y) || follows db x y)
  unfolding follow_user
  follows-follow_user db a b x y =
      let db1 = set_value db (following_ref a b) (flag true) in
      ground (
        arith,
        exists-set_value db (following_ref a b) (flag true) (following_ref x y),
        exists-set_value db1 (followers_ref b a) (flag true) (following_ref x y),
        eq_iff a x,
        eq_iff x a,
        eq_iff b y,
        eq_iff y b,
      )

  pub has_follower-follow_user :
      (db : Db) (a b x y : String)
      → has_follower (follow_user f db a b).0 y x ≡ ((a == x && b == y) || has_follower db y x)
  unfolding follow_user
  has_follower-follow_user db a b x y =
      let db1 = set_value db (following_ref a b) (flag true) in
      ground (
        arith,
        exists-set_value db (following_ref a b) (flag true) (followers_ref y x),
        exists-set_value db1 (followers_ref b a) (flag true) (followers_ref y x),
        eq_iff a x,
        eq_iff x a,
        eq_iff b y,
        eq_iff y b,
      )

  -- If the entries of the two sides agree for all users, they still do after `followUser`.
  pub follow_user-IsMutual :
      (db : Db) (a b : String) → IsMutual db → IsMutual (follow_user f db a b).0
  follow_user-IsMutual db a b h = record {
    agree = λ x y.
        ground
          (arith, h.agree x y, follows-follow_user db a b x y, has_follower-follow_user db a b x y);
  }

  -- The server refuses no removal at `p`.
  abbrev pub Accepts : NodePath → Type 0
  Accepts p = (db : Db) → remove_error db p ≡ none

  pub follows-unfollow_user :
      (db : Db) (a b x y : String)
      → Accepts (following_ref a b)
      → Accepts (followers_ref b a)
      → follows (unfollow_user f db a b).0 x y
        ≡ (if a == x && b == y then false else follows db x y)
  unfolding unfollow_user
  follows-unfollow_user db a b x y h k =
      let db1 = remove_value db (following_ref a b) in
      ground (
        arith,
        h db,
        k db1,
        exists-remove_value db (following_ref a b) (following_ref x y),
        exists-remove_value_self db (following_ref a b),
        exists-remove_value db1 (followers_ref b a) (following_ref x y),
        eq_iff a x,
        eq_iff x a,
        eq_iff b y,
        eq_iff y b,
      )

  pub has_follower-unfollow_user :
      (db : Db) (a b x y : String)
      → Accepts (following_ref a b)
      → Accepts (followers_ref b a)
      → has_follower (unfollow_user f db a b).0 y x
        ≡ (if a == x && b == y then false else has_follower db y x)
  unfolding unfollow_user
  has_follower-unfollow_user db a b x y h k =
      let db1 = remove_value db (following_ref a b) in
      ground (
        arith,
        h db,
        k db1,
        exists-remove_value db (following_ref a b) (followers_ref y x),
        exists-remove_value db1 (followers_ref b a) (followers_ref y x),
        exists-remove_value_self db1 (followers_ref b a),
        eq_iff a x,
        eq_iff x a,
        eq_iff b y,
        eq_iff y b,
      )

  -- If the entries of the two sides agree for all users and the server accepts both removals, they
  -- still agree after `unfollowUser`.
  pub unfollow_user-IsMutual :
      (db : Db) (a b : String)
      → Accepts (following_ref a b)
      → Accepts (followers_ref b a)
      → IsMutual db
      → IsMutual (unfollow_user f db a b).0
  unfollow_user-IsMutual db a b h k m = record {
    agree = λ x y. ground (
      arith,
      m.agree x y,
      follows-unfollow_user db a b x y h k,
      has_follower-unfollow_user db a b x y h k,
    );
  }

  -- Where the server accepts both removals, `followUser` and then `unfollowUser` leaves no entry of
  -- the pair on either side, and every other entry as it was.
  pub unfollow-follow :
      (db : Db) (a b x y : String)
      → Accepts (following_ref a b)
      → Accepts (followers_ref b a)
      → (follows (unfollow_user f (follow_user f db a b).0 a b).0 x y
          ≡ (if a == x && b == y then false else follows db x y))
        × (has_follower (unfollow_user f (follow_user f db a b).0 a b).0 y x
            ≡ (if a == x && b == y then false else has_follower db y x))
  unfollow-follow db a b x y h k =
      let db1 = (follow_user f db a b).0 in
      (
        ground (arith, follows-unfollow_user db1 a b x y h k, follows-follow_user db a b x y),
        ground (
          arith,
          has_follower-unfollow_user db1 a b x y h k,
          has_follower-follow_user db a b x y,
        ),
      )

  -- If the server refuses to remove the entry of the one who follows, accepts the other removal,
  -- and the entry was there, `unfollowUser` removes only the follower entry and still reports
  -- success.
  pub unfollow_half :
      (db : Db) (a b e : String)
      → remove_error db (following_ref a b) ≡ some e
      → Accepts (followers_ref b a)
      → follows db a b ≡ true
      → (follows (unfollow_user f db a b).0 a b ≡ true)
        × (has_follower (unfollow_user f db a b).0 b a ≡ false)
        × ((unfollow_user f db a b).1 ≡ true)
  unfolding unfollow_user
  unfollow_half db a b e r k h =
      let same = remove_value_refused db (following_ref a b) e r in
      let rest = exists-remove_value db (followers_ref b a) (following_ref a b) (k db) in
      (
        rw same (ground (arith, rest)),
        rw same (exists-remove_value_self db (followers_ref b a) (k db)),
        refl,
      )

  -- What neither operation writes to reads the same.
  pub read-follow_user :
      (db : Db) (a b : String) (q : NodePath)
      → apart (following_ref a b) q ≡ true
      → apart (followers_ref b a) q ≡ true
      → read (follow_user f db a b).0 q ≡ read db q
  unfolding follow_user
  read-follow_user db a b q h k =
      let db1 = set_value db (following_ref a b) (flag true) in
      ground (
        arith,
        read-set_value db (following_ref a b) (flag true) q,
        read-set_value db1 (followers_ref b a) (flag true) q,
      )
