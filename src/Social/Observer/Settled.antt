-- ===== src/Social/Observer/Settled.antt =====
-- What the list of followed users is once all requests of the observer are answered, and how it
-- goes wrong where the database changes before.
use on_my_way.Base.{
  ℕ, ◌+◌, String, ◌≡◌, refl, true, false, some, List, [], ◌∷◌, ◌++◌, ap, eq_refl, arith, elem,
  Member, length, length-append, elem-append, ◌⊎◌, inl, inr,
}
use on_my_way.Database.{Database}
use on_my_way.Model.{User, contains_user}
use on_my_way.Social.{get_user, following_ref, followers_ref, unfollow_user}
use on_my_way.Social.Follow.{Accepts, follows, follows-unfollow_user}
use on_my_way.Social.Observer.{
  Follows, follows_ref, add_follows_observer, on_snapshot, on_answer, Answers, Run, quiet, answer,
}
use on_my_way.Social.Observer.Tracking.{
  IsTracking, on_snapshot-IsTracking, on_answer-IsTracking, on_answer-covers, Run-IsTracking,
}

module _ (f : Database) where
  open f use {Db, children, elem-children}

  -- The list has a user of every entry of `a`, and none that is not the user of one.
  abbrev pub ShowsFollows : Db → String → Follows → Type 0
  ShowsFollows db a s =
      ((u : User)
        → Member u s.follows_list
        → (id : String) × (follows f db a id ≡ true) × (u ≡ get_user f db id))
      × ((id : String)
          → follows f db a id ≡ true
          → contains_user s.follows_list (get_user f db id) ≡ true)

  shows_of_tracking :
      (db : Db) (a : String) (s : Follows)
      → IsTracking f db a s
      → s.pending ≡ []
      → ShowsFollows db a s
  shows_of_tracking db a s t q =
      (t.known, λ id h. elim (t.covered id h) [ inl p ↦ cc (rw q at p) | inr c ↦ c ])

  none_pending :
      (db : Db) (a : String) (s : Follows)
      → s.pending ≡ []
      → (id : String) → elem id s.pending ≡ true
      → follows f db a id ≡ true
  none_pending db a s q id e = cc (rw q at e)

  -- In a database that does not change: where a user adds an observer while no request waits, then
  -- after its first snapshot and any further snapshots and answers in any order, at every point: each
  -- user on the list is the user of an entry under `following`, each waiting request is for such an
  -- entry, and the user of each entry is on the list or its request waits.
  pub Run-shows :
      (db : Db) (a : String) (s t : Follows)
      → s.pending ≡ []
      → Run f db a (on_snapshot f db a (add_follows_observer (some a) s)) t
      → ((u : User)
          → Member u t.follows_list
          → (id : String) × (follows f db a id ≡ true) × (u ≡ get_user f db id))
        × ((id : String) → elem id t.pending ≡ true → follows f db a id ≡ true)
        × ((id : String)
            → follows f db a id ≡ true
            → (elem id t.pending ≡ true) ⊎ (contains_user t.follows_list (get_user f db id) ≡ true))
  unfolding add_follows_observer
  Run-shows db a s t p r =
      let opened = add_follows_observer (some a) s in
      let tracked =
        Run-IsTracking f db a (on_snapshot f db a opened) t r
          (on_snapshot-IsTracking f db a opened (none_pending db a opened p)) in
      (tracked.known, tracked.asked, tracked.covered)

  Answers-IsTracking :
      (db : Db) (a : String) (s t : Follows) (n : ℕ)
      → Answers f db s n t
      → IsTracking f db a s
      → IsTracking f db a t
  Answers-IsTracking db a s t n quiet h = h
  Answers-IsTracking db a s t n (answer {n = k} before id after e m r) h =
      Answers-IsTracking db a (on_answer f db before id after s) t k r
        (on_answer-IsTracking f db a before id after s e h)

  -- Each answer takes one request and calls `update` once.
  Answers-count :
      (db : Db) (s t : Follows) (n : ℕ)
      → Answers f db s n t
      → (n + length t.pending ≡ length s.pending) × (t.updates ≡ s.updates + n)
  unfolding on_answer
  Answers-count db s t n quiet = omega arith
  Answers-count db s t n (answer {n = k} before id after e m r) = omega (
    arith,
    Answers-count db (on_answer f db before id after s) t k r,
    ap length e,
    length-append before (id ∷ after),
    length-append before after,
  )

  nothing_left : (ids : List String) → length ids ≡ 0 → ids ≡ []
  nothing_left [] h = refl
  nothing_left (id ∷ ids) h = absurd (omega arith)

  drained :
      (db : Db) (ids : List String) (s : Follows)
      → s.pending ≡ ids
      → (t : Follows) × Answers f db s (length ids) t
  unfolding on_answer
  drained db [] s e = (s, quiet)
  drained db (id ∷ ids) s e =
      let (t, r) = drained db ids (on_answer f db [] id ids s) refl in
      (t, answer [] id ids e (omega arith) r)

  -- After a snapshot that finds no request waiting, each answer takes one of the requests for the
  -- entries under `following`; at every point the requests left can all be answered; and in whatever
  -- order that is done, no request waits then and the list has a user of each entry and no others.
  pub Answers-settle :
      (db : Db) (a : String) (s t : Follows) (n : ℕ)
      → s.pending ≡ []
      → Answers f db (on_snapshot f db a s) n t
      → (n + length t.pending ≡ length (children db (follows_ref a)))
        × ((u : Follows) × Answers f db t (length t.pending) u)
        × ((u : Follows)
            → Answers f db t (length t.pending) u
            → (u.pending ≡ []) × ShowsFollows db a u)
  Answers-settle db a s t n p r =
      let asked = on_snapshot f db a s in
      let tracked =
        Answers-IsTracking db a asked t n r
          (on_snapshot-IsTracking f db a s (none_pending db a s p)) in
      (
        unfold on_snapshot in
            omega (
              arith,
              Answers-count db asked t n r,
              length-append s.pending (children db (follows_ref a)),
              ap length p,
            ),
        drained db t.pending t refl,
        λ u k.
            let q =
              nothing_left u.pending (omega (arith, Answers-count db t u (length t.pending) k)) in
            (
              q,
              shows_of_tracking db a u (Answers-IsTracking db a t u (length t.pending) k tracked) q,
            ),
      )

  on_snapshot-asks_again :
      (db db1 : Db) (a b : String) (s : Follows)
      → follows f db a b ≡ true
      → elem b (on_snapshot f db1 a (on_snapshot f db a s)).pending ≡ true
  unfolding on_snapshot
  on_snapshot-asks_again db db1 a b s o =
      let ids = children db (follows_ref a) in
      ground (
        arith,
        elem-append b (s.pending ++ ids) (children db1 (follows_ref a)),
        elem-append b s.pending ids,
        elem-children db (follows_ref a) b,
      )

  abbrev Awaits : Db → String → Follows → Type 0
  Awaits db b s =
      (elem b s.pending ≡ true) ⊎ (contains_user s.follows_list (get_user f db b) ≡ true)

  Answers-Awaits :
      (db : Db) (b : String) (s t : Follows) (n : ℕ)
      → Answers f db s n t
      → Awaits db b s
      → Awaits db b t
  Answers-Awaits db b s t n quiet h = h
  Answers-Awaits db b s t n (answer {n = k} before id after e m r) h =
      Answers-Awaits db b (on_answer f db before id after s) t k r
        (unfold on_answer in on_answer-covers f db b before id after s e h)

  -- The bug: an answer to a request from before `unfollowUser` is not told from one after it. Where
  -- `a` follows `b`, the observer gets a snapshot, `a` unfollows `b` with both removals accepted,
  -- and the observer gets the next snapshot before any answer, then once the answers have come, in
  -- any order, `a` does not follow `b` and the list has the user of `b`.
  pub unfollow_stale :
      (db : Db) (a b : String) (s t : Follows) (n : ℕ)
      → Accepts f (following_ref a b)
      → Accepts f (followers_ref b a)
      → follows f db a b ≡ true
      → Answers f
          (unfollow_user f db a b).0
          (on_snapshot f (unfollow_user f db a b).0 a (on_snapshot f db a s))
          n
          t
      → t.pending ≡ []
      → (follows f (unfollow_user f db a b).0 a b ≡ false)
        × (contains_user t.follows_list (get_user f (unfollow_user f db a b).0 b) ≡ true)
  unfollow_stale db a b s t n h k o r q =
      let db1 = (unfollow_user f db a b).0 in
      (
        ground (arith, follows-unfollow_user f db a b a b h k, eq_refl a, eq_refl b),
        elim (Answers-Awaits db1 b (on_snapshot f db1 a (on_snapshot f db a s)) t n r
            (inl (on_snapshot-asks_again db db1 a b s o))) [ inl p ↦ cc (rw q at p) | inr c ↦ c ],
      )
