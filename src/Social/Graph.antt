-- ===== src/Social/Graph.antt =====
-- Any sequence of followUser and unfollowUser of Services/FriendSystem.swift against a graph of who
-- follows whom.
use on_my_way.Base.{
  String, ◌≡◌, ap, ◌∙◌, Bool, false, ◌&&◌, ◌||◌, List, [], ◌∷◌, ◌==◌, if◌then◌else◌,
}
use on_my_way.Database.{Database}
use on_my_way.Social.{following_ref, followers_ref, follow_user, unfollow_user}
use on_my_way.Social.Follow.{
  Accepts, follows, has_follower, follows-follow_user, has_follower-follow_user,
  follows-unfollow_user, has_follower-unfollow_user,
}

-- A call of the service: the user and the other one.
pub data Request : Type 0 where
  follow : String → String → Request
  unfollow : String → String → Request

abbrev pub Graph : Type 0
Graph = String → String → Bool

abbrev pub apply_request : Request → Graph → Graph
apply_request (Request.follow a b) graph x y = (a == x && b == y) || graph x y
apply_request (Request.unfollow a b) graph x y = if a == x && b == y then false else graph x y

abbrev pub apply_requests : List Request → Graph → Graph
apply_requests [] graph = graph
apply_requests (request ∷ requests) graph = apply_requests requests (apply_request request graph)

module _ (f : Database) where
  open f use {Db}

  -- The requests in turn, each with the tree that it finds; the server accepts the removals of an
  -- unfollow.
  pub data Served : Db → List Request → Db → Type 0 where
    idle : {db : Db} → Served db [] db
    followed :
        {db after : Db} {requests : List Request} (a b : String)
        → Served (follow_user f db a b).0 requests after
        → Served db (Request.follow a b ∷ requests) after
    unfollowed :
        {db after : Db} {requests : List Request} (a b : String)
        → Accepts f (following_ref a b)
        → Accepts f (followers_ref b a)
        → Served (unfollow_user f db a b).0 requests after
        → Served db (Request.unfollow a b ∷ requests) after

  -- The entries of both sides are those of the graph.
  pub record Shows (db : Db) (graph : Graph) : Type 0 where
    pub out_edges : (x y : String) → follows f db x y ≡ graph x y
    pub in_edges : (x y : String) → has_follower f db y x ≡ graph x y

  follow_user-Shows :
      (db : Db) (graph : Graph) (a b : String)
      → Shows db graph
      → Shows (follow_user f db a b).0 (apply_request (Request.follow a b) graph)
  follow_user-Shows db graph a b s = record {
    out_edges = λ x y.
        follows-follow_user f db a b x y ∙ ap (λ t. (a == x && b == y) || t) (s.out_edges x y);
    in_edges = λ x y.
        has_follower-follow_user f db a b x y ∙ ap (λ t. (a == x && b == y) || t) (s.in_edges x y);
  }

  unfollow_user-Shows :
      (db : Db) (graph : Graph) (a b : String)
      → Accepts f (following_ref a b)
      → Accepts f (followers_ref b a)
      → Shows db graph
      → Shows (unfollow_user f db a b).0 (apply_request (Request.unfollow a b) graph)
  unfollow_user-Shows db graph a b h k s = record {
    out_edges = λ x y.
        follows-unfollow_user f db a b x y h k
        ∙ ap (λ t. if a == x && b == y then false else t) (s.out_edges x y);
    in_edges = λ x y.
        has_follower-unfollow_user f db a b x y h k
        ∙ ap (λ t. if a == x && b == y then false else t) (s.in_edges x y);
  }

  -- Where the entries of both sides are those of a graph, they still are after any sequence of
  -- `followUser` and `unfollowUser` whose removals the server accepts, with the graph that has the
  -- edges added and taken away in the same order.
  pub Served-Shows :
      (db after : Db) (requests : List Request) (graph : Graph)
      → Served db requests after
      → Shows db graph
      → Shows after (apply_requests requests graph)
  Served-Shows db after requests graph idle s = s
  Served-Shows db after requests graph (followed {requests = rest} a b served) s =
      Served-Shows (follow_user f db a b).0 after rest (apply_request (Request.follow a b) graph)
        served (follow_user-Shows db graph a b s)
  Served-Shows db after requests graph (unfollowed {requests = rest} a b h k served) s =
      Served-Shows (unfollow_user f db a b).0 after rest
        (apply_request (Request.unfollow a b) graph) served (unfollow_user-Shows db graph a b h k s)
