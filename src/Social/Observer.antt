-- ===== src/Social/Observer.antt =====
-- The list of followed users that Services/FriendSystem.swift keeps: `followsList` with its
-- observers. An observer's block starts a request for each entry, and the answers come later, in
-- any order.
pub mod Tracking
pub mod Settled
use on_my_way.Base.{
  ℕ, ◌+◌, String, ◌≡◌, Bool, true, not, Option, none, some, List, [], ◌∷◌, ◌++◌, ◌==◌, elem,
  if◌then◌else◌,
}
use on_my_way.Database.{NodePath, Database}
use on_my_way.Keys.UserKeys
use on_my_way.Keys.{following}
use on_my_way.Model.{User, insert_user}
use on_my_way.Social.{get_user}

-- `followsList`, the users whose `following` nodes are observed, the ids whose `getUser` has not
-- answered, and how often an `update` block was called.
pub record Follows : Type 0 where
  pub follows_list : List User
  pub observers : List String
  pub pending : List String
  pub updates : ℕ

abbrev pub follows_ref : String → NodePath
follows_ref a = UserKeys.path ∷ a ∷ following ∷ []

-- `addFollowsObserver`
unfoldable pub add_follows_observer : Option String → Follows → Follows
add_follows_observer none s = s
add_follows_observer (some a) s = record s { observers = a ∷ s.observers }

abbrev pub without : String → List String → List String
without a [] = []
without a (b ∷ bs) = if b == a then without a bs else b ∷ without a bs

-- `removeFollowsObserver`: all observers of that node.
unfoldable pub remove_follows_observer : String → Follows → Follows
remove_follows_observer a s = record s { observers = without a s.observers }

abbrev pub is_empty : List String → Bool
is_empty [] = true
is_empty (k ∷ ks) = not true

-- The block of `getUser` in the observer.
unfoldable pub on_user : User → Follows → Follows
on_user user s = record s {
  follows_list = insert_user user s.follows_list;
  updates = s.updates + 1;
}

module _ (f : Database) where
  open f use {Db, children}

  -- The block of the observer, on a snapshot of the `following` node of `a`.
  unfoldable pub on_snapshot : Db → String → Follows → Follows
  on_snapshot db a s =
      let ids = children db (follows_ref a) in
      record s {
        follows_list = [];
        pending = s.pending ++ ids;
        updates = if is_empty ids then s.updates + 1 else s.updates;
      }

  -- The answer for `id`, with the requests before and after it still waiting.
  unfoldable pub on_answer : Db → List String → String → List String → Follows → Follows
  unfolding on_user
  on_answer db before id after s = record (on_user (get_user f db id) s) {
    pending = before ++ after;
  }

  -- `n` answers, in any order.
  pub data Answers (db : Db) : Follows → ℕ → Follows → Type 0 where
    quiet : {s : Follows} → Answers db s 0 s
    answer :
        {s t : Follows} {n m : ℕ} (before : List String) (id : String) (after : List String)
        → s.pending ≡ before ++ (id ∷ after)
        → m ≡ n + 1
        → Answers db (on_answer db before id after s) n t
        → Answers db s m t

  -- Snapshots of the node and answers, in any order.
  pub data Run (db : Db) (a : String) : Follows → Follows → Type 0 where
    idle : {s : Follows} → Run db a s s
    snapshot :
        {s t : Follows} → elem a s.observers ≡ true → Run db a (on_snapshot db a s) t → Run db a s t
    answered :
        {s t : Follows} (before : List String) (id : String) (after : List String)
        → s.pending ≡ before ++ (id ∷ after)
        → Run db a (on_answer db before id after s) t
        → Run db a s t
