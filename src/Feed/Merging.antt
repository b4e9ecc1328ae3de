-- ===== src/Feed/Merging.antt =====
-- Sets of events, which are equal when their uuids are, by the laws of Model/Sets/Kept.antt.
use on_my_way.Base.{String, ◌≡◌, ◌↔◌, refl, true, Option, some, List, Member}
use on_my_way.Model.Sets.Kept
use on_my_way.Model.Sets.Kept.{IsKeyed}
use on_my_way.Model.{Event, contains_event, insert_event}
use on_my_way.Feed.{unique}

abbrev pub event_key : Event → String
event_key e = e.uuid

event_set : IsKeyed event_key contains_event insert_event
unfolding contains_event insert_event
event_set = record {
  contains-nil = λ x. refl;
  contains-cons = λ y x ys. refl;
  insert_old = λ x ys h. rw h refl;
  insert_new = λ x ys h. rw h refl;
}

-- No two events have one uuid.
abbrev pub IsDistinct : List Event → Type 0
IsDistinct = Kept.IsDistinct contains_event

-- The first event with a uuid.
abbrev pub first_event : List Event → String → Option Event
first_event = Kept.first event_key

pub contains_of_Member : (e : Event) (es : List Event) → Member e es → contains_event es e ≡ true
contains_of_Member = Kept.contains_of_Member event_key contains_event insert_event event_set

-- The set of a list has the first event of each uuid, and no others.
pub Member-unique :
    (e : Event) (es : List Event) → Member e (unique es) ↔ (first_event es e.uuid ≡ some e)
Member-unique = Kept.Member-unique event_key contains_event insert_event event_set

pub unique-IsDistinct : (es : List Event) → IsDistinct (unique es)
unique-IsDistinct = Kept.unique-IsDistinct event_key contains_event insert_event event_set

pub Member-of_first :
    (uuid : String) (e : Event) (es : List Event) → first_event es uuid ≡ some e → Member e es
Member-of_first = Kept.Member-of_first event_key contains_event insert_event event_set

-- Where the events of one uuid are one event, the first of a uuid is any.
pub Member-first :
    (es : List Event) (e : Event)
    → ((d : Event) → Member d es → d.uuid ≡ e.uuid → d ≡ e)
    → Member e es
    → first_event es e.uuid ≡ some e
Member-first = Kept.Member-first event_key contains_event insert_event event_set

-- Two events of one uuid in a list without repetition are one.
pub one_of_uuid :
    (d e : Event) (es : List Event)
    → IsDistinct es
    → Member d es
    → Member e es
    → d.uuid ≡ e.uuid
    → d ≡ e
one_of_uuid = Kept.one_of_key event_key contains_event insert_event event_set
