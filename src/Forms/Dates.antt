-- ===== src/Forms/Dates.antt =====
-- An event that is added by the form of Controller/AddEventVC.swift in the feed of a follower.
use on_my_way.Base.{
  String, ◌≡◌, ◌≢◌, ◌↔◌, refl, sym, ◌∙◌, true, false, some, List, Member, ◌⊎◌, arith, Bool-cases,
  inl, inr, ◌==◌, eq_iff,
}
use on_my_way.Database.{Database}
use on_my_way.Model.{Event, User}
use on_my_way.Model.Dates.{Calendar, Style, uniform, local, converted_date}
use on_my_way.Events.{events_ref, event_ref, upload_event}
use on_my_way.Events.Reading.{IsWellFormed, Stored}
use on_my_way.Events.Writing.{
  new_event, upload_event-IsWellFormed, upload_event-some, upload_event-Stored, exists-upload_event,
  upload_event_elsewhere,
}
use on_my_way.Feed.{Feed, fetch_data, is_upcoming}
use on_my_way.Feed.Order.{IsDated}
use on_my_way.Feed.Shown.{IsFeed}
use on_my_way.Feed.Readable.{IsReadable, Agrees, Known}
use on_my_way.Feed.Fetching.{friends_of, last_time, InOrder, fetch_data_exact}
use on_my_way.Forms.{add_event, picker_done, done}
use on_my_way.Forms.Prices.{filled}

module _ (c : Calendar) where
  open c use {Date, format, parse}

  -- A formatter reads what it has written.
  abbrev pub ReadsBack : Type 0
  ReadsBack = (s : Style) (x : Date) → (y : Date) × (parse s (format s x) ≡ some y)

module _ (f : Database) (c : Calendar) where
  open f use {Db, exists, auto_key}
  open c use {Date, format, parse}

  picked-IsDated :
      (uid key title description : String) (x : Date)
      → ReadsBack c
      → IsDated c (new_event uid key title description (format uniform x))
  unfolding converted_date
  picked-IsDated uid key title description x r =
      let (y, p) = r uniform x in let (z, q) = r local y in (z, rw (p, converted_date) q)

  -- With a name and a day the form hands both to `uploadEvent`, and is done where that has a key.
  add_event_filled :
      (db : Db) (uid name description key : String) (x : Date)
      → name ≢ ""
      → format uniform x ≢ ""
      → auto_key db (events_ref uid) ≡ some key
      → add_event f db uid name description (picker_done c x)
        ≡ ((upload_event f db uid name description (format uniform x)).0, done)
  unfolding add_event
  add_event_filled db uid name description key x n d a =
      rw
        (
          filled name n,
          filled (format uniform x) d,
          upload_event-some f uid db name description (format uniform x) key a,
        )
        refl

  module _ (db : Db) (friends : List User) (friend : User) (name description key : String)
      (x : Date) (a : auto_key db (events_ref friend.uid) ≡ some key)
      (new_key : (u : User) → Member u friends → exists db (event_ref u.uid key) ≡ false) where
    abbrev added_event : Event
    added_event = new_event friend.uid key name description (format uniform x)

    abbrev db_after : Db
    db_after = (upload_event f db friend.uid name description (format uniform x)).0

    -- What is stored after the upload, for the user and for others.
    Stored-after :
        (u : User) (e : Event)
        → Stored f u.uid db_after e
          ↔ (((u.uid ≡ friend.uid) × (e ≡ added_event)) ⊎ Stored f u.uid db e)
    Stored-after u e = elim (Bool-cases (friend.uid == u.uid)) [
      | inl q ↦
          let same = (eq_iff friend.uid u.uid).0 q in
          let (there, back) =
            upload_event-Stored f friend.uid db name description (format uniform x) key a e in
          rw (← same) (
            λ st. elim (there st) [ inl p ↦ inl (refl, p) | inr old ↦ inr old ],
            λ h. back (elim h [ inl (r, p) ↦ inl p | inr old ↦ inr old ]),
          )
      | inr n ↦
          let elsewhere =
            upload_event_elsewhere f friend.uid db name description (format uniform x) key a
              u.uid in
          (
            λ (k, ex, at). inr (k, sym (elsewhere k n).1 ∙ ex, sym (elsewhere k n).0 ∙ at),
            λ h. elim h [
              | inl (p, q) ↦ absurd (ground (arith, eq_iff friend.uid u.uid, p))
              | inr (k, ex, at) ↦ (k, (elsewhere k n).1 ∙ ex, (elsewhere k n).0 ∙ at)
            ],
          )
    ]

    exists-after :
        (u : User) (uuid : String)
        → exists db_after (event_ref u.uid uuid) ≡ true
        → ((u.uid ≡ friend.uid) × (uuid ≡ key)) ⊎ (exists db (event_ref u.uid uuid) ≡ true)
    exists-after u uuid h = elim (Bool-cases (friend.uid == u.uid)) [
      | inl q ↦
          let same = (eq_iff friend.uid u.uid).0 q in
          let there =
            exists-upload_event f friend.uid db name description (format uniform x) key a uuid in
          elim (Bool-cases (key == uuid)) [
            | inl k ↦ inl (sym same, sym ((eq_iff key uuid).0 k))
            | inr k ↦ inr (rw (← same) (ground (arith, there, rw (← same) at h)))
          ]
      | inr n ↦ inr (
          sym
            (upload_event_elsewhere f friend.uid db name description (format uniform x) key a u.uid
              uuid n).1
          ∙ h)
    ]

    IsWellFormed-after : (u : User) → IsWellFormed f u.uid db → IsWellFormed f u.uid db_after
    IsWellFormed-after u w = elim (Bool-cases (friend.uid == u.uid)) [
      | inl q ↦
          let same = (eq_iff friend.uid u.uid).0 q in
          rw (← same) (
            upload_event-IsWellFormed f friend.uid db name description (format uniform x)
              (rw (← same) at w))
      | inr n ↦ record {
        reads = λ k ex.
            let (at, there) =
              upload_event_elsewhere f friend.uid db name description (format uniform x) key a u.uid
                k n in
            let (e, p, q) = w.reads k (sym there ∙ ex) in (e, at ∙ p, q);
      }
    ]

    IsReadable-after : ReadsBack c → IsReadable f c db friends → IsReadable f c db_after friends
    IsReadable-after reads r = record {
      well_formed = λ u m. IsWellFormed-after u (r.well_formed u m);
      dated = λ u e m st. elim ((Stored-after u e).0 st) [
        | inl (p, q) ↦ rw q (picked-IsDated friend.uid key name description x reads)
        | inr old ↦ r.dated u e m old
      ];
      apart = λ u v uuid m n p q. elim (exists-after u uuid p) [
        | inl (pu, pk) ↦ (elim (exists-after v uuid q) [
          | inl (qv, qk) ↦ pu ∙ sym qv
          | inr old ↦ cc (new_key v n, old, pk)
        ])
        | inr old ↦ (elim (exists-after v uuid q) [
          | inl (qv, qk) ↦ cc (new_key u m, old, qk)
          | inr old2 ↦ r.apart u v uuid m n old old2
        ])
      ];
    }

    Agrees-after :
        (before : Feed)
        → ((d : Event) → Member d before.events → d.uuid ≢ key)
        → Agrees f c db friends before
        → Agrees f c db_after friends before
    Agrees-after before unseen g = record {
      agree = λ u d e m k st p. elim ((Stored-after u e).0 st) [
        | inl (q, same) ↦ absurd (unseen d k (cc (p, same)))
        | inr old ↦ g.agree u d e m k old p
      ];
    }

    Known-after :
        (before : Feed) (e : Event)
        → Member friend friends
        → Known f c db_after before friends e ↔ ((e ≡ added_event) ⊎ Known f c db before friends e)
    Known-after before e m = (
      λ k. elim k [
        | inl shown ↦ inr (inl shown)
        | inr (u, mu, st) ↦ (elim ((Stored-after u e).0 st) [
          | inl (q, same) ↦ inl same
          | inr old ↦ inr (inr (u, mu, old))
        ])
      ],
      λ k. elim k [
        | inl same ↦ inr (friend, m, (Stored-after friend e).1 (inl (refl, same)))
        | inr (inl shown) ↦ inl shown
        | inr (inr (u, mu, old)) ↦ inr (u, mu, (Stored-after u e).1 (inr old))
      ],
    )

  -- A user who is followed adds an event with the form, under a name that is not empty and on a day
  -- of the picker whose text is not. Where a formatter reads what it has written; the list that is
  -- shown before, the times of the answers and the stored events meet the conditions of
  -- `fetch_data_exact`; and the database gives a key that no stored event of the followed users and no
  -- event shown has: the form is done; `fetchData` after it does not stop the program; and the
  -- follower is shown, in order, the new event, the events shown before and those stored for all
  -- followed users, as far as they are to come at the last answer, and no others.
  pub fetch_data-add_event :
      (db : Db) (opened x : Date) (before : Feed) (answers : List (User × Date)) (friend : User)
      (name description key : String)
      → ReadsBack c
      → IsFeed c opened before
      → InOrder f c opened answers
      → IsReadable f c db (friends_of answers)
      → Agrees f c db (friends_of answers) before
      → Member friend (friends_of answers)
      → name ≢ ""
      → format uniform x ≢ ""
      → auto_key db (events_ref friend.uid) ≡ some key
      → ((u : User) → Member u (friends_of answers) → exists db (event_ref u.uid key) ≡ false)
      → ((d : Event) → Member d before.events → d.uuid ≢ key)
      → let (db1, answer) = add_event f db friend.uid name description (picker_done c x) in
        let now = last_time opened answers in
        (answer ≡ done)
        × (feed : Feed) × (fetch_data f c db1 answers before ≡ some feed)
        × IsFeed c now feed
        × ((e : Event)
            → Member e feed.events ↔ (
                ((e ≡ new_event friend.uid key name description (format uniform x))
                  ⊎ Known f c db before (friends_of answers) e)
                × (is_upcoming c now e ≡ some true)))
  fetch_data-add_event db opened x before answers friend name description key reads i o r g m n t a
        new_key unseen =
      let friends = friends_of answers in
      let (feed, p, shows) =
        fetch_data_exact f c (db_after db friends friend name description key x a new_key) opened
          before answers i o
          (IsReadable-after db friends friend name description key x a new_key reads r)
          (Agrees-after db friends friend name description key x a new_key before unseen g) in
      let known =
        λ (e : Event). Known-after db friends friend name description key x a new_key before e m in
      rw (add_event_filled db friend.uid name description key x n t a) (
        refl,
        feed,
        p,
        shows.feed_lem,
        λ e. (
          λ k. let (shown, up) = (shows.offered e).0 k in ((known e).0 shown, up),
          λ (k, up). (shows.offered e).1 ((known e).1 k, up),
        ),
      )
