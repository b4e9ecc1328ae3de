-- ===== src/Events/Reading.antt =====
-- `getEvents` returns the stored events, each once, and does not stop on well-formed data.
use on_my_way.Base.{
  String, ◌≡◌, ◌↔◌, refl, ap, ◌∙◌, true, some, List, [], ◌∷◌, ◌==◌, eq_iff, eq_refl, arith,
  Bool-cases, inl, inr, elem, Member, ◌⊎◌,
}
use on_my_way.Database.{Database}
use on_my_way.Model.{Event, insert_event, contains_event, same_event}
use on_my_way.Events.{events_ref, event_ref, event_at, collect_events, get_events}

Member-insert : (e d : Event) (ds : List Event) → Member d ds → Member d (insert_event e ds)
unfolding insert_event
Member-insert e d ds m = elim (Bool-cases (contains_event ds e)) [
  | inl c ↦ rw c m
  | inr c ↦ rw c (inr m)
]

Member-of_insert :
    (e d : Event) (ds : List Event) → Member d (insert_event e ds) → (d ≡ e) ⊎ Member d ds
unfolding insert_event
Member-of_insert e d ds m = elim (Bool-cases (contains_event ds e)) [
  | inl c ↦ inr (rw c at m)
  | inr c ↦ rw c at m
]

-- An event that the set holds already is held under its uuid.
pub contained :
    (e : Event) (ds : List Event)
    → contains_event ds e ≡ true
    → (d : Event) × Member d ds × (d.uuid ≡ e.uuid)
unfolding contains_event
contained e [] h = cc
contained e (d ∷ ds) h = elim (Bool-cases (same_event d e)) [
  | inl s ↦ (d, inl refl, (eq_iff d.uuid e.uuid).0 s)
  | inr s ↦ (let (c, m, q) = contained e ds (ground arith) in (c, inr m, q))
]

module _ (f : Database) (uid : String) where
  open f use {Db, exists, children, elem-children}

  -- Every event node reads as an event whose uuid is the node's key.
  pub record IsWellFormed (db : Db) : Type 0 where
    pub reads :
        (key : String)
        → exists db (event_ref uid key) ≡ true
        → (e : Event) × (event_at f db uid key ≡ some e) × (e.uuid ≡ key)

  -- `e` is the event that is stored at one of `keys`.
  abbrev pub IsStored : Db → List String → Event → Type 0
  IsStored db keys e = (key : String) × (elem key keys ≡ true) × (event_at f db uid key ≡ some e)

  abbrev Sound : Db → List Event → Type 0
  Sound db found = (d : Event) → Member d found → event_at f db uid d.uuid ≡ some d

  abbrev Keyed : Db → List String → Type 0
  Keyed db keys =
      (key : String)
      → elem key keys ≡ true
      → (e : Event) × (event_at f db uid key ≡ some e) × (e.uuid ≡ key)

  insert_event_self :
      (db : Db) (e : Event) (found : List Event)
      → Sound db found
      → event_at f db uid e.uuid ≡ some e
      → Member e (insert_event e found)
  unfolding insert_event
  insert_event_self db e found s r = elim (Bool-cases (contains_event found e)) [
    | inl c ↦
        (let (d, m, q) = contained e found c in
          let same : d ≡ e = cc (s d m, r, q) in rw c (rw same at m))
    | inr c ↦ rw c (inl refl)
  ]

  Sound-insert_event :
      (db : Db) (e : Event) (found : List Event)
      → Sound db found
      → event_at f db uid e.uuid ≡ some e
      → Sound db (insert_event e found)
  Sound-insert_event db e found s r d m = elim (Member-of_insert e d found m) [
    | inl q ↦ rw q r
    | inr m' ↦ s d m'
  ]

  later :
      (db : Db) (key : String) (keys : List String) (e : Event)
      → IsStored db keys e
      → IsStored db (key ∷ keys) e
  later db key keys e (k, m, r) = (k, ground arith, r)

  IsStored-cases :
      (db : Db) (key : String) (keys : List String) (e x : Event)
      → event_at f db uid key ≡ some e
      → IsStored db (key ∷ keys) x
      → (x ≡ e) ⊎ IsStored db keys x
  IsStored-cases db key keys e x q (k, m, r) = elim (Bool-cases (key == k)) [
    | inl h ↦ inl (cc (q, r, (eq_iff key k).0 h))
    | inr h ↦ inr (k, ground arith, r)
  ]

  collect_events_step :
      (db : Db) (key : String) (keys : List String) (found : List Event) (e : Event)
      → event_at f db uid key ≡ some e
      → collect_events f db uid (key ∷ keys) found
        ≡ collect_events f db uid keys (insert_event e found)
  unfolding collect_events
  collect_events_step db key keys found e q = rw (q, collect_events)

  collect_events_exact :
      (db : Db) (keys : List String) (found : List Event)
      → Keyed db keys
      → Sound db found
      → (es : List Event) × (collect_events f db uid keys found ≡ some es)
        × ((x : Event) → Member x es ↔ (Member x found ⊎ IsStored db keys x))
  unfolding collect_events
  collect_events_exact db [] found r s =
      (found, refl, λ x. (λ m. inl m, λ t. elim t [ inl m ↦ m | inr (k, q, w) ↦ absurd (cc q) ]))
  collect_events_exact db (key ∷ keys) found r s =
      let (e, q, u) = r key (ground (arith, eq_refl key)) in
      let here : event_at f db uid e.uuid ≡ some e = ap (event_at f db uid) u ∙ q in
      let (es, c, m) =
        collect_events_exact db keys (insert_event e found) (λ k h. r k (ground arith))
          (Sound-insert_event db e found s here) in
      (
        es,
        collect_events_step db key keys found e q ∙ c,
        λ x. (
          λ h. elim ((m x).0 h) [
            | inl a ↦ (elim (Member-of_insert e x found a) [
              | inl p ↦ inr (key, ground (arith, eq_refl key), rw p q)
              | inr b ↦ inl b
            ])
            | inr a ↦ inr (later db key keys x a)
          ],
          λ h. (m x).1 (elim h [
            | inl a ↦ inl (Member-insert e x found a)
            | inr a ↦ (elim (IsStored-cases db key keys e x q a) [
              | inl p ↦ inl (rw p (insert_event_self db e found s here))
              | inr b ↦ inr b
            ])
          ]),
        ),
      )

  -- The events of a user, as they are stored.
  abbrev pub Stored : Db → Event → Type 0
  Stored db e =
      (key : String) × (exists db (event_ref uid key) ≡ true) × (event_at f db uid key ≡ some e)

  -- Where every event node of the user reads as an event whose uuid is its key, `getEvents` ends
  -- with a list, and an event is in it exactly when a stored node reads as it.
  pub get_events_exact :
      (db : Db)
      → IsWellFormed db
      → (es : List Event) × (get_events f db uid ≡ some es)
        × ((e : Event) → Member e es ↔ Stored db e)
  unfolding get_events
  get_events_exact db w =
      let keys = children db (events_ref uid) in
      let (es, c, m) =
        collect_events_exact db keys []
          (λ k h. w.reads k (rw (elem-children db (events_ref uid) k) at h)) (λ d h. elim h [ ]) in
      (
        es,
        c,
        λ e. (
          λ h. elim ((m e).0 h) [
            | inl a ↦ (elim a [ ])
            | inr (k, b, r) ↦ (k, rw (elem-children db (events_ref uid) k) at b, r)
          ],
          λ (k, b, r). (m e).1 (inr (k, rw (elem-children db (events_ref uid) k) b, r)),
        ),
      )
