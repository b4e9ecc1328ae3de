-- ===== src/Events/Removal.antt =====
-- `removeEvents` on the stored events.
use on_my_way.Base.{
  String, ◌≡◌, ◌≢◌, ◌↔◌, ◌∙◌, true, false, none, some, List, ◌==◌, eq_iff, eq_refl, arith,
  if◌then◌else◌, Bool-cases, Option-cases, inl, inr, Member,
}
use on_my_way.Database.{Database}
use on_my_way.Keys.EventKeys
use on_my_way.Model.{Event}
use on_my_way.Events.{event_ref, event_child, event_at, remove_events, get_events}
use on_my_way.Events.Reading.{IsWellFormed, Stored, get_events_exact}
use on_my_way.Events.Writing.{other}

module _ (f : Database) (uid : String) where
  open f use {Db, read, exists, remove_value, remove_error, read-remove_value}
  open f use {exists-remove_value, exists-remove_value_self, remove_value_refused}

  text-remove_value :
      (db : Db) (key k child : String)
      → remove_error db (event_ref uid key) ≡ none
      → read (remove_value db (event_ref uid key)) (event_child uid k child)
        ≡ (if key == k then none else read db (event_child uid k child))
  text-remove_value db key k child a =
      ground
        (arith, eq_refl uid, read-remove_value db (event_ref uid key) (event_child uid k child) a)

  -- The events after an accepted removal.
  event_at-remove_value :
      (db : Db) (key k : String)
      → remove_error db (event_ref uid key) ≡ none
      → event_at f (remove_value db (event_ref uid key)) uid k
        ≡ (if key == k then none else event_at f db uid k)
  event_at-remove_value db key k a =
      simp
        (
          text-remove_value db key k EventKeys.uuid a,
          text-remove_value db key k EventKeys.event_title a,
          text-remove_value db key k EventKeys.description a,
          text-remove_value db key k EventKeys.date a,
        )
        (ground arith)

  exists-remove_event :
      (db : Db) (key k : String)
      → remove_error db (event_ref uid key) ≡ none
      → exists (remove_value db (event_ref uid key)) (event_ref uid k)
        ≡ (if key == k then false else exists db (event_ref uid k))
  exists-remove_event db key k a = elim (Bool-cases (key == k)) [
    | inl q ↦ rw (q, ← (eq_iff key k).0 q) (exists-remove_value_self db (event_ref uid key) a)
    | inr q ↦ rw q (
        ground (
          arith,
          eq_iff key k,
          eq_iff k key,
          exists-remove_value db (event_ref uid key) (event_ref uid k) a,
        ))
  ]

  pub remove_events-IsWellFormed :
      (db : Db) (key : String)
      → IsWellFormed f uid db
      → IsWellFormed f uid (remove_events f db uid key).0
  unfolding remove_events
  remove_events-IsWellFormed db key w = elim (Option-cases (remove_error db (event_ref uid key))) [
    | inl a ↦ record {
      reads = λ k h. elim (Bool-cases (key == k)) [
        | inl q ↦ absurd (ground (arith, exists-remove_event db key k a))
        | inr q ↦
            let (e, r, u) = w.reads k (ground (arith, exists-remove_event db key k a)) in
            (e, event_at-remove_value db key k a ∙ rw q r, u)
      ];
    }
    | inr (e, r) ↦ rw (remove_value_refused db (event_ref uid key) e r) w
  ]

  Stored-removed :
      (db : Db) (key : String)
      → IsWellFormed f uid db
      → remove_error db (event_ref uid key) ≡ none
      → (e : Event)
      → Stored f uid (remove_value db (event_ref uid key)) e ↔ (Stored f uid db e × (e.uuid ≢ key))
  Stored-removed db key w a e = (
    λ (k, x, r). elim (Bool-cases (key == k)) [
      | inl q ↦ absurd (ground (arith, exists-remove_event db key k a))
      | inr q ↦
          let x' : exists db (event_ref uid k) ≡ true =
            ground (arith, exists-remove_event db key k a) in
          let r' : event_at f db uid k ≡ some e =
            ground (arith, event_at-remove_value db key k a) in
          let (d, t, u) = w.reads k x' in ((k, x', r'), λ n. cc (q, eq_refl k, u, n))
    ],
    λ ((k, x, r), n).
        let (d, t, u) = w.reads k x in
        let ne : (key == k) ≡ false = other key k (λ q. n (cc (u, q))) in
        (k, exists-remove_event db key k a ∙ rw ne x, event_at-remove_value db key k a ∙ rw ne r),
  )

  -- Where every event node of the user reads as an event whose uuid is its key and the server
  -- accepts the removal, `removeEvents` reports success and `getEvents` then ends with exactly the
  -- events from before that have another uuid.
  pub get_events-remove_events :
      (db : Db) (key : String)
      → IsWellFormed f uid db
      → remove_error db (event_ref uid key) ≡ none
      → (es : List Event) × (left : List Event) × ((remove_events f db uid key).1 ≡ true)
        × (get_events f db uid ≡ some es)
        × (get_events f (remove_events f db uid key).0 uid ≡ some left)
        × ((e : Event) → Member e left ↔ (Member e es × (e.uuid ≢ key)))
  unfolding remove_events
  get_events-remove_events db key w a =
      let (es, g, m) = get_events_exact f uid db w in
      let (left, g1, m1) =
        get_events_exact f uid (remove_events f db uid key).0
          (remove_events-IsWellFormed db key w) in
      let gone = Stored-removed db key w a in
      (
        es,
        left,
        rw (a, remove_events),
        g,
        g1,
        λ e. (
          λ h. let (t, n) = (gone e).0 ((m1 e).0 h) in ((m e).1 t, n),
          λ (h, n). (m1 e).1 ((gone e).1 ((m e).0 h, n)),
        ),
      )

  -- A refused removal says so and changes nothing.
  pub remove_events_refused :
      (db : Db) (key e : String)
      → remove_error db (event_ref uid key) ≡ some e
      → remove_events f db uid key ≡ (db, false)
  unfolding remove_events
  remove_events_refused db key e r =
      rw (r, remove_events) (rw (remove_value_refused db (event_ref uid key) e r))
