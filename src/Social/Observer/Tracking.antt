-- ===== src/Social/Observer/Tracking.antt =====
-- How the list of followed users follows the database.
use on_my_way.Base.{
  String, ◌≡◌, ap, true, List, ◌∷◌, ◌++◌, ◌||◌, ◌==◌, eq_iff, eq_refl, arith, elem, elem-append,
  Member, ◌⊎◌, inl, inr, Bool-cases,
}
use on_my_way.Database.{Database}
use on_my_way.Model.{User, contains_user, insert_user}
use on_my_way.Social.{get_user}
use on_my_way.Social.Follow.{follows}
use on_my_way.Social.Observer.{
  Follows, follows_ref, on_snapshot, on_answer, Run, idle, snapshot, answered,
}

contains_user-insert_user_self :
    (u : User) (vs : List User) → contains_user (insert_user u vs) u ≡ true
unfolding insert_user contains_user
contains_user-insert_user_self u vs = ground (arith, eq_refl u.uid)

contains_user-insert_user :
    (u v : User) (vs : List User)
    → contains_user vs v ≡ true
    → contains_user (insert_user u vs) v ≡ true
unfolding insert_user contains_user
contains_user-insert_user u v vs h = ground arith

Member-insert_user :
    (u v : User) (vs : List User) → Member v (insert_user u vs) → (v ≡ u) ⊎ Member v vs
unfolding insert_user
Member-insert_user u v vs m = elim (Bool-cases (contains_user vs u)) [
  | inl old ↦ inr (rw old at m)
  | inr new ↦ rw new at m
]

module _ (f : Database) where
  open f use {Db, children, elem-children}

  -- Every listed user and every request is of an entry of `a`, and every entry is listed or has a
  -- request.
  pub record IsTracking (db : Db) (a : String) (s : Follows) : Type 0 where
    pub known :
        (u : User)
        → Member u s.follows_list
        → (id : String) × (follows f db a id ≡ true) × (u ≡ get_user f db id)
    pub asked : (id : String) → elem id s.pending ≡ true → follows f db a id ≡ true
    pub covered :
        (id : String)
        → follows f db a id ≡ true
        → (elem id s.pending ≡ true) ⊎ (contains_user s.follows_list (get_user f db id) ≡ true)

  pub on_snapshot-IsTracking :
      (db : Db) (a : String) (s : Follows)
      → ((id : String) → elem id s.pending ≡ true → follows f db a id ≡ true)
      → IsTracking db a (on_snapshot f db a s)
  unfolding on_snapshot
  on_snapshot-IsTracking db a s h =
      let ids = children db (follows_ref a) in
      record {
        known = λ u m. elim m [ ];
        asked = λ id e.
            ground (arith, h id, elem-append id s.pending ids, elem-children db (follows_ref a) id);
        covered = λ id e.
            inl (ground (arith, elem-append id s.pending ids, elem-children db (follows_ref a) id));
      }

  -- What has a request or is listed still does after an answer.
  pub on_answer-covers :
      (db : Db) (k : String) (before : List String) (id : String) (after : List String)
      (s : Follows)
      → s.pending ≡ before ++ (id ∷ after)
      → (elem k s.pending ≡ true) ⊎ (contains_user s.follows_list (get_user f db k) ≡ true)
      → (elem k (before ++ after) ≡ true)
        ⊎ (contains_user (insert_user (get_user f db id) s.follows_list) (get_user f db k) ≡ true)
  on_answer-covers db k before id after s e (inl p) = elim (Bool-cases (id == k)) [
    | inl q ↦ inr (
        rw (← (eq_iff id k).0 q) (contains_user-insert_user_self (get_user f db id) s.follows_list))
    | inr n ↦ inl (
        ground
          (arith, ap (elem k) e, elem-append k before (id ∷ after), elem-append k before after))
  ]
  on_answer-covers db k before id after s e (inr c) =
      inr (contains_user-insert_user (get_user f db id) (get_user f db k) s.follows_list c)

  pub on_answer-IsTracking :
      (db : Db) (a : String) (before : List String) (id : String) (after : List String)
      (s : Follows)
      → s.pending ≡ before ++ (id ∷ after)
      → IsTracking db a s
      → IsTracking db a (on_answer f db before id after s)
  unfolding on_answer
  on_answer-IsTracking db a before id after s e t = record {
    known = λ u m. elim (Member-insert_user (get_user f db id) u s.follows_list m) [
      | inl p ↦ (id, t.asked id (was id (ground (arith, eq_refl id))), p)
      | inr old ↦ t.known u old
    ];
    asked = λ k h. t.asked k (was k (ground (arith, elem-append k before after)));
    covered = λ k h. on_answer-covers db k before id after s e (t.covered k h);
  }
    where
      was :
          (k : String)
          → (elem k before || ((id == k) || elem k after)) ≡ true
          → elem k s.pending ≡ true
      was k h = rw e (rw (elem-append k before (id ∷ after)) h)

  pub Run-IsTracking :
      (db : Db) (a : String) (s t : Follows)
      → Run f db a s t
      → IsTracking db a s
      → IsTracking db a t
  Run-IsTracking db a s t idle h = h
  Run-IsTracking db a s t (snapshot o r) h =
      Run-IsTracking db a (on_snapshot f db a s) t r (on_snapshot-IsTracking db a s h.asked)
  Run-IsTracking db a s t (answered before id after e r) h =
      Run-IsTracking db a (on_answer f db before id after s) t r
        (on_answer-IsTracking db a before id after s e h)
