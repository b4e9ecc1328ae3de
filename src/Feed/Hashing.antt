-- ===== src/Feed/Hashing.antt =====
-- The contract of Hashable that Model/Event.swift declares, and what the dictionary of
-- Controller/EventsVC.swift makes of it.
use on_my_way.Base.{String, ◌≡◌, refl, true, List, [], ◌∷◌, eq_iff, eq_refl, arith, ap}
use on_my_way.Model.{Event, User, same_event, contains_event, hash_event}
use on_my_way.Feed.{friend_of}

contains_same :
    (a b : Event) (es : List Event)
    → same_event a b ≡ true
    → contains_event es a ≡ contains_event es b
unfolding contains_event
contains_same a b [] h = refl
contains_same a b (e ∷ es) h = ground (
  arith,
  contains_same a b es h,
  eq_iff a.uuid b.uuid,
  eq_iff e.uuid a.uuid,
  eq_iff e.uuid b.uuid,
)

friend_of_same :
    (a b : Event) (table : List (Event × User))
    → same_event a b ≡ true
    → friend_of table a ≡ friend_of table b
unfolding friend_of
friend_of_same a b [] h = refl
friend_of_same a b ((e, u) ∷ table) h = ground (
  arith,
  friend_of_same a b table h,
  eq_iff a.uuid b.uuid,
  eq_iff e.uuid a.uuid,
  eq_iff e.uuid b.uuid,
)

-- `==` of events is reflexive, symmetric and transitive; two equal events put the same into every
-- hasher, are in the same sets, and have the same friend in `friendForEvent`.
pub event_hashable :
    {Hasher : Type 0} (combine : Hasher → String → Hasher) (hasher : Hasher) (a b c : Event)
    (es : List Event) (table : List (Event × User))
    → (same_event a a ≡ true)
      × (same_event a b ≡ same_event b a)
      × (same_event a b ≡ true → same_event b c ≡ true → same_event a c ≡ true)
      × (same_event a b ≡ true
          → (hash_event combine a hasher ≡ hash_event combine b hasher)
            × (contains_event es a ≡ contains_event es b)
            × (friend_of table a ≡ friend_of table b))
unfolding hash_event
event_hashable combine hasher a b c es table = (
  eq_refl a.uuid,
  ground (arith, eq_iff a.uuid b.uuid, eq_iff b.uuid a.uuid),
  λ p q. ground (arith, eq_iff a.uuid b.uuid, eq_iff b.uuid c.uuid, eq_iff a.uuid c.uuid),
  λ p. (
    ap (combine hasher) ((eq_iff a.uuid b.uuid).0 p),
    contains_same a b es p,
    friend_of_same a b table p,
  ),
)
