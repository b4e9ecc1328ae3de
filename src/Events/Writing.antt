-- ===== src/Events/Writing.antt =====
-- `uploadEvent` on the stored events.
use on_my_way.Base.{
  String, ◌≡◌, ◌≢◌, ◌↔◌, ◌⊎◌, ap, ◌∙◌, true, false, ◌||◌, none, some, List, [], ◌∷◌, ◌==◌, eq_iff,
  eq_refl, arith, if◌then◌else◌, Bool-cases, Option-cases, inl, inr, Member,
}
use on_my_way.Database.{Database}
use on_my_way.Database.Writes.{read-update, read-update_child, exists-update, exists-update_parent}
use on_my_way.Keys.EventKeys
use on_my_way.Model.{Event}
use on_my_way.Events.{events_ref, event_ref, event_child, event_at, upload_event, get_events}
use on_my_way.Events.Reading.{IsWellFormed, Stored, get_events_exact}

-- The event that `uploadEvent` stores.
abbrev pub new_event : String → String → String → String → String → Event
new_event uid key title description date = record {
  uuid = key;
  title = title;
  description = description;
  date = date;
  sender_id = uid;
}

pub other : (j k : String) → j ≢ k → (j == k) ≡ false
other j k h = ground (arith, eq_iff j k)

module _ (f : Database) (uid : String) where
  open f use {Db, read, exists, children, auto_key, update_child_values, update_child_values_lem}
  open f use {remove_value, remove_error, auto_key_fresh, exists-set_value, read-remove_value}
  open f use {exists-remove_value, exists-remove_value_self, remove_value_refused, set_value}

  module _ (key title description date : String) where
    abbrev event_data : List (String × String)
    event_data =
        (EventKeys.event_title, title)
        ∷ (EventKeys.description, description)
        ∷ (EventKeys.date, date)
        ∷ (EventKeys.uuid, key)
        ∷ (EventKeys.sender_id, uid)
        ∷ []

    -- The tree with the event's texts at its key.
    abbrev with_event : Db → Db
    with_event db = update_child_values db (event_ref uid key) event_data

    text-with_event :
        (db : Db) (k child : String)
        → (key == k) ≡ false
        → read (with_event db) (event_child uid k child) ≡ read db (event_child uid k child)
    text-with_event db k child n =
        read-update f event_data db (event_ref uid key) (event_child uid k child)
          (ground (arith, eq_iff key k, eq_iff k key))

    event_at-with_event :
        (db : Db) (k : String)
        → event_at f (with_event db) uid k ≡ (
            if key == k
            then some (new_event uid key title description date)
            else event_at f db uid k)
    event_at-with_event db k = elim (Bool-cases (key == k)) [
      | inl e ↦
          rw (e, ← (eq_iff key k).0 e)
            (simp (
              read-update_child f event_data db (event_ref uid key) EventKeys.uuid,
              read-update_child f event_data db (event_ref uid key) EventKeys.event_title,
              read-update_child f event_data db (event_ref uid key) EventKeys.description,
              read-update_child f event_data db (event_ref uid key) EventKeys.date,
            ))
      | inr n ↦ rw n (
          simp (
            text-with_event db k EventKeys.uuid n,
            text-with_event db k EventKeys.event_title n,
            text-with_event db k EventKeys.description n,
            text-with_event db k EventKeys.date n,
          ))
    ]

    exists-with_event :
        (db : Db) (k : String)
        → exists (with_event db) (event_ref uid k) ≡ (key == k || exists db (event_ref uid k))
    exists-with_event db k = elim (Bool-cases (key == k)) [
      | inl e ↦
          rw (e, ← (eq_iff key k).0 e)
            (exists-update_parent f EventKeys.event_title title _ db (event_ref uid key))
      | inr n ↦ rw n (
          exists-update f event_data db (event_ref uid key) (event_ref uid k)
            (ground (arith, eq_iff key k, eq_iff k key)))
    ]

  pub upload_event_cases :
      (db : Db) (title description date : String)
      → (auto_key db (events_ref uid) ≡ none)
          × (upload_event f db uid title description date ≡ (db, none))
        ⊎ ((key : String) × (exists db (event_ref uid key) ≡ false)
            × ((upload_event f db uid title description date).1 ≡ some true)
            × ((k : String)
                → event_at f (upload_event f db uid title description date).0 uid k ≡ (
                    if key == k
                    then some (new_event uid key title description date)
                    else event_at f db uid k))
            × ((k : String)
                → exists (upload_event f db uid title description date).0 (event_ref uid k)
                  ≡ (key == k || exists db (event_ref uid k))))
  unfolding upload_event
  upload_event_cases db title description date =
      elim (Option-cases (auto_key db (events_ref uid))) [
        | inl e ↦ inl (e, rw (e, upload_event))
        | inr (key, e) ↦ inr (
          key,
          auto_key_fresh db (events_ref uid) key e,
          rw (e, upload_event),
          λ k. rw (e, upload_event) (event_at-with_event key title description date db k),
          λ k. rw (e, upload_event) (exists-with_event key title description date db k),
        )
      ]

  pub upload_event-IsWellFormed :
      (db : Db) (title description date : String)
      → IsWellFormed f uid db
      → IsWellFormed f uid (upload_event f db uid title description date).0
  upload_event-IsWellFormed db title description date w =
      elim (upload_event_cases db title description date) [
        | inl (e, same) ↦ rw same w
        | inr (key, fresh, ok, at, ex) ↦ record {
          reads = λ k h. elim (Bool-cases (key == k)) [
            | inl q ↦ (new_event uid key title description date, at k ∙ rw q, (eq_iff key k).0 q)
            | inr q ↦ let (e, r, u) = w.reads k (ground (arith, ex k)) in (e, at k ∙ rw q r, u)
          ];
        }
      ]

  Stored-added :
      (db db1 : Db) (key : String) (new : Event)
      → ((k : String) → event_at f db1 uid k ≡ (if key == k then some new else event_at f db uid k))
      → ((k : String) → exists db1 (event_ref uid k) ≡ (key == k || exists db (event_ref uid k)))
      → exists db (event_ref uid key) ≡ false
      → (e : Event) → Stored f uid db1 e ↔ ((e ≡ new) ⊎ Stored f uid db e)
  Stored-added db db1 key new at ex fresh e = (
    λ (k, x, r). elim (Bool-cases (key == k)) [
      | inl q ↦ inl (ground (arith, at k))
      | inr q ↦ inr (k, ground (arith, ex k), ground (arith, at k))
    ],
    λ h. elim h [
      | inl q ↦ (key, ground (arith, ex key, eq_refl key), ground (arith, at key, eq_refl key))
      | inr (k, x, r) ↦ (
        k,
        ground (arith, ex k),
        at k ∙ rw (other key k (λ q. cc (fresh, x, ap (λ j. exists db (event_ref uid j)) q))) r,
      )
    ],
  )

  pub upload_event-some :
      (db : Db) (title description date key : String)
      → auto_key db (events_ref uid) ≡ some key
      → upload_event f db uid title description date
        ≡ (with_event key title description date db, some true)
  unfolding upload_event
  upload_event-some db title description date key a = rw (a, upload_event)

  pub exists-upload_event :
      (db : Db) (title description date key : String)
      → auto_key db (events_ref uid) ≡ some key
      → (k : String)
      → exists (upload_event f db uid title description date).0 (event_ref uid k)
        ≡ (key == k || exists db (event_ref uid k))
  exists-upload_event db title description date key a k =
      rw (upload_event-some db title description date key a)
        (exists-with_event key title description date db k)

  -- Where the database gives a key, `uploadEvent` adds the new event to those stored.
  pub upload_event-Stored :
      (db : Db) (title description date key : String)
      → auto_key db (events_ref uid) ≡ some key
      → (e : Event)
      → Stored f uid (upload_event f db uid title description date).0 e
        ↔ ((e ≡ new_event uid key title description date) ⊎ Stored f uid db e)
  upload_event-Stored db title description date key a =
      Stored-added db (upload_event f db uid title description date).0 key
        (new_event uid key title description date)
        (λ k.
          rw (upload_event-some db title description date key a)
            (event_at-with_event key title description date db k))
        (exists-upload_event db title description date key a)
        (auto_key_fresh db (events_ref uid) key a)

  -- `uploadEvent` leaves the events of other users.
  pub upload_event_elsewhere :
      (db : Db) (title description date key : String)
      → auto_key db (events_ref uid) ≡ some key
      → (v k : String) → (uid == v) ≡ false
      → let db1 = (upload_event f db uid title description date).0 in
        (event_at f db1 v k ≡ event_at f db v k)
        × (exists db1 (event_ref v k) ≡ exists db (event_ref v k))
  upload_event_elsewhere db title description date key a v k n =
      let texts = event_data key title description date in
      let same : (child : String)
          → read (with_event key title description date db) (event_child v k child)
            ≡ read db (event_child v k child) =
        λ child.
          read-update f texts db (event_ref uid key) (event_child v k child)
            (ground (arith, eq_iff uid v, eq_iff v uid)) in
      rw (upload_event-some db title description date key a) (
        simp (
          same EventKeys.uuid,
          same EventKeys.event_title,
          same EventKeys.description,
          same EventKeys.date,
        ),
        exists-update f texts db (event_ref uid key) (event_ref v k)
            (ground (arith, eq_iff uid v, eq_iff v uid)),
      )

  -- Where every event node of the user reads as an event whose uuid is its key and the database
  -- gives a key, `getEvents` after `uploadEvent` ends with the events from before and the new one,
  -- and no others.
  pub get_events-upload_event :
      (db : Db) (title description date key : String)
      → IsWellFormed f uid db
      → auto_key db (events_ref uid) ≡ some key
      → (es : List Event) × (new : List Event) × (get_events f db uid ≡ some es)
        × (get_events f (upload_event f db uid title description date).0 uid ≡ some new)
        × ((e : Event)
            → Member e new ↔ ((e ≡ new_event uid key title description date) ⊎ Member e es))
  get_events-upload_event db title description date key w a =
      let (es, g, m) = get_events_exact f uid db w in
      let (new, g1, m1) =
        get_events_exact f uid (upload_event f db uid title description date).0
          (upload_event-IsWellFormed db title description date w) in
      let add = upload_event-Stored db title description date key a in
      (
        es,
        new,
        g,
        g1,
        λ e. (
          λ h. elim ((add e).0 ((m1 e).0 h)) [ inl q ↦ inl q | inr t ↦ inr ((m e).1 t) ],
          λ h. (m1 e).1 ((add e).1 (elim h [ inl q ↦ inl q | inr t ↦ inr ((m e).0 t) ])),
        ),
      )
