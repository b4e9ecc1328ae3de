-- ===== src/Feed/Readable.antt =====
-- One answer in `fetchData` of Controller/EventsVC.swift, over the events that are stored.
use on_my_way.Base.{
  String, ◌≡◌, ◌↔◌, ◌⊎◌, refl, sym, true, false, some, Option-cases, List, ◌∷◌, ◌++◌, Member, inl,
  inr, Bool-cases, Member-append, append-Member,
}
use on_my_way.Database.{Database}
use on_my_way.Events.{event_ref, event_at}
use on_my_way.Events.Reading.{IsWellFormed, Stored, contained}
use on_my_way.Model.{Event, User, contains_event}
use on_my_way.Model.Dates.{Calendar, converted_date}
use on_my_way.Feed.Merging.{contains_of_Member, Member-of_first, Member-first, one_of_uuid}
use on_my_way.Feed.Order.{IsDated}
use on_my_way.Feed.Shown.{
  IsFeed, on_events_exact, on_events-IsFeed, on_events_cases, friend_of-assign_all,
}
use on_my_way.Feed.{Feed, is_upcoming, on_events, friend_of}

module _ (f : Database) (c : Calendar) where
  open f use {Db, exists}
  open c use {Date, is_before, before_trans}

  -- The events of the friends can be read, and two friends have no event of one uuid.
  pub record IsReadable (db : Db) (friends : List User) : Type 0 where
    pub well_formed : (u : User) → Member u friends → IsWellFormed f u.uid db
    pub dated : (u : User) (e : Event) → Member u friends → Stored f u.uid db e → IsDated c e
    pub apart :
        (u v : User) (uuid : String)
        → Member u friends
        → Member v friends
        → exists db (event_ref u.uid uuid) ≡ true
        → exists db (event_ref v.uid uuid) ≡ true
        → u.uid ≡ v.uid

  -- An event shown in `before` and one stored for a friend under its uuid are one event.
  pub record Agrees (db : Db) (friends : List User) (before : Feed) : Type 0 where
    pub agree :
        (u : User) (d e : Event)
        → Member u friends
        → Member d before.events
        → Stored f u.uid db e
        → d.uuid ≡ e.uuid
        → d ≡ e

  -- `e` is shown in `before` or stored for one of the friends.
  abbrev pub Known : Db → Feed → List User → Event → Type 0
  Known db before friends e =
      Member e before.events ⊎ ((u : User) × Member u friends × Stored f u.uid db e)

  -- The feed has what was shown before and the events of `friends`, as far as they are to come; the
  -- friend of an event is one whose event it is, or the one it had.
  pub record Shows (db : Db) (before : Feed) (now : Date) (friends : List User) (feed : Feed)
      : Type 0 where
    pub feed_lem : IsFeed c now feed
    pub offered :
        (e : Event)
        → Member e feed.events ↔ (Known db before friends e × (is_upcoming c now e ≡ some true))
    pub friend_right :
        (e : Event)
        → Member e feed.events
        → (u : User) × (friend_of feed.friend_for_event e ≡ some u)
          × ((Member u friends × Stored f u.uid db e)
              ⊎ (Member e before.events × (friend_of before.friend_for_event e ≡ some u)))

  same_event_of_uuid :
      (db : Db) (friends : List User) (u v : User) (d e : Event)
      → IsReadable db friends
      → Member u friends
      → Member v friends
      → Stored f u.uid db d
      → Stored f v.uid db e
      → d.uuid ≡ e.uuid
      → (d ≡ e) × (u.uid ≡ v.uid)
  same_event_of_uuid db friends u v d e r mu mv (k, xk, rk) (j, xj, rj) p =
      let (d', rd, kd) = (r.well_formed u mu).reads k xk in
      let (e', re, je) = (r.well_formed v mv).reads j xj in
      let q : k ≡ j = cc (rk, rd, kd, rj, re, je, p) in
      let same = r.apart u v k mu mv xk (rw (← q) at xj) in
      let at_d : event_at f db v.uid j ≡ some d = rw (← q, ← same) rk in (cc (at_d, rj), same)

  -- What is to come at a time was to come at an earlier one.
  upcoming_before :
      (now later : Date) (e : Event)
      → is_before later now ≡ false
      → is_upcoming c later e ≡ some true
      → is_upcoming c now e ≡ some true
  unfolding is_upcoming
  upcoming_before now later e h up = elim (Option-cases (converted_date c e)) [
    | inl p ↦ absurd (cc (rw p at up))
    | inr (x, p) ↦
        let after : is_before later x ≡ true = cc (rw p at up) in
        elim (Bool-cases (is_before now x)) [
          | inl q ↦ rw (p, q) refl
          | inr q ↦ absurd (cc (before_trans x now later q h, after))
        ]
  ]

  module _ (db : Db) (opened : Date) (before : Feed) (i : IsFeed c opened before)
      (friends : List User) (r : IsReadable db friends) (g : Agrees db friends before) where
    same-Known :
        (d e : Event)
        → Known db before friends d
        → Known db before friends e
        → d.uuid ≡ e.uuid
        → d ≡ e
    same-Known d e (inl m) (inl n) p = one_of_uuid d e before.events i.distinct m n p
    same-Known d e (inl m) (inr (v, mv, st)) p = g.agree v d e mv m st p
    same-Known d e (inr (u, mu, su)) (inl n) p = sym (g.agree u e d mu n su (sym p))
    same-Known d e (inr (u, mu, su)) (inr (v, mv, sv)) p =
        (same_event_of_uuid db friends u v d e r mu mv su sv p).0

  module _ (db : Db) (opened : Date) (before : Feed) (i : IsFeed c opened before)
      (earlier now : Date) (done : List User) (friend : User) (feed after : Feed) (es : List Event)
      (r : IsReadable db (friend ∷ done)) (g : Agrees db (friend ∷ done) before)
      (s : Shows db before earlier done feed)
      (m : (e : Event) → Member e es ↔ Stored f friend.uid db e) (o : is_before now earlier ≡ false)
      (h : on_events c now es friend feed ≡ some after) where
    -- What is known is known with one more friend.
    Known-more : (e : Event) → Known db before done e → Known db before (friend ∷ done) e
    Known-more e (inl k) = inl k
    Known-more e (inr (u, mu, st)) = inr (u, inr mu, st)

    -- What the two lists that an answer joins hold.
    Known-in_both : (e : Event) → Member e (feed.events ++ es) → Known db before (friend ∷ done) e
    Known-in_both e k = elim (Member-append e feed.events es k) [
      | inl old ↦ Known-more e ((s.offered e).0 old).0
      | inr new ↦ inr (friend, inl refl, (m e).0 new)
    ]

    in_both-Known :
        (e : Event)
        → Known db before (friend ∷ done) e
        → is_upcoming c earlier e ≡ some true
        → Member e feed.events ⊎ Member e es
    in_both-Known e (inl k) up = inl ((s.offered e).1 (inl k, up))
    in_both-Known e (inr (u, inl p, st)) up = inr ((m e).1 (rw p at st))
    in_both-Known e (inr (u, inr mu, st)) up = inl ((s.offered e).1 (inr (u, mu, st), up))

    offered_after :
        (e : Event)
        → Member e after.events
          ↔ (Known db before (friend ∷ done) e × (is_upcoming c now e ≡ some true))
    offered_after e = (
      λ k.
          let (p, up) = (on_events_exact c now es friend feed after h e).0 k in
          (Known-in_both e (Member-of_first e.uuid e (feed.events ++ es) p), up),
      λ (k, up). (on_events_exact c now es friend feed after h e).1 (
        Member-first (feed.events ++ es) e
            (λ d n q. same-Known db opened before i (friend ∷ done) r g d e (Known-in_both d n) k q)
            (append-Member e feed.events es
              (in_both-Known e k (upcoming_before earlier now e o up))),
        up,
      ),
    )

    friend_right_after :
        (e : Event)
        → Member e after.events
        → (u : User) × (friend_of after.friend_for_event e ≡ some u)
          × ((Member u (friend ∷ done) × Stored f u.uid db e)
              ⊎ (Member e before.events × (friend_of before.friend_for_event e ≡ some u)))
    friend_right_after e k =
        let (sorted, p, q, w) = on_events_cases c now es friend feed after h in
        elim (Bool-cases (contains_event es e)) [
          | inl new ↦
              (let (d, kd, same) = contained e es new in
                let e_same : d ≡ e =
                  same-Known db opened before i (friend ∷ done) r g d e
                    (inr (friend, inl refl, (m d).0 kd)) ((offered_after e).0 k).0 same in
                (
                  friend,
                  rw (w, friend_of-assign_all es e friend feed.friend_for_event, new) refl,
                  inl (inl refl, rw (← e_same) ((m d).0 kd)),
                ))
          | inr old ↦
              (elim (Member-append e feed.events es (
                Member-of_first e.uuid e (feed.events ++ es)
                  ((on_events_exact c now es friend feed after h e).0 k).0)) [
                    | inl k' ↦
                        (let (u, o', mu) = s.friend_right e k' in
                          (
                            u,
                            rw (w, friend_of-assign_all es e friend feed.friend_for_event, old) o',
                            elim mu [ inl (a, b) ↦ inl (inr a, b) | inr b ↦ inr b ],
                          ))
                    | inr k' ↦ absurd (cc (contains_of_Member e es k', old))
                  ])
        ]

    pub Shows-after : Shows db before now (friend ∷ done) after
    Shows-after = record {
      feed_lem = on_events-IsFeed c earlier now es friend feed after h s.feed_lem;
      offered = offered_after;
      friend_right = friend_right_after;
    }
