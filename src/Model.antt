-- ===== src/Model.antt =====
-- The classes of Model/: User, Event and Present. A Swift object with private fields and getters
-- is the record of its fields.
pub mod Dates
pub mod Sets
use on_my_way.Base.{String, Bool, false, List, [], ◌∷◌, ◌||◌, ◌==◌, if◌then◌else◌}

pub record User : Type 0 where
  pub name : String
  pub birthdate : String
  pub uid : String
  pub profile_img_url : String

pub record Event : Type 0 where
  pub uuid : String
  pub title : String
  pub description : String
  pub date : String
  pub sender_id : String

pub record Present : Type 0 where
  pub name : String
  pub price : String
  pub details : String
  pub image_name : String
  pub uuid : String
  pub link : String

-- `User.==` compares the uids alone, and `Event.==` the uuids alone.
abbrev pub same_user : User → User → Bool
same_user a b = a.uid == b.uid

abbrev pub same_event : Event → Event → Bool
same_event a b = a.uuid == b.uuid

-- `contains` of an array of users.
unfoldable pub contains_user : List User → User → Bool
contains_user [] u = false
contains_user (v ∷ vs) u = same_user v u || contains_user vs u

-- `insert` into a `Set<User>`: an equal member stays, and the new one is dropped.
unfoldable pub insert_user : User → List User → List User
unfolding contains_user
insert_user u vs = if contains_user vs u then vs else u ∷ vs

unfoldable pub contains_event : List Event → Event → Bool
contains_event [] e = false
contains_event (d ∷ ds) e = same_event d e || contains_event ds e

unfoldable pub insert_event : Event → List Event → List Event
unfolding contains_event
insert_event e ds = if contains_event ds e then ds else e ∷ ds

pub data UserStatus : Type 0 where
  friend requested sent_request neutral : UserStatus

-- `User.getStatus`
unfoldable pub get_status : User → List User → List User → List User → UserStatus
unfolding contains_user
get_status user friend_array requested_users requests_from_users =
    if contains_user friend_array user
    then friend
    else if contains_user requested_users user
    then requested
    else if contains_user requests_from_users user
    then sent_request
    else neutral

-- `hash(into:)` of User and of Event; `combine` is the hasher's.
module _ {ℓ} {Hasher : Type ℓ} (combine : Hasher → String → Hasher) where
  unfoldable pub hash_user : User → Hasher → Hasher
  hash_user user hasher = combine hasher user.uid

  unfoldable pub hash_event : Event → Hasher → Hasher
  hash_event event hasher = combine hasher event.uuid
