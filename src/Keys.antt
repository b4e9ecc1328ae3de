-- ===== src/Keys.antt =====
-- The names of the nodes in the database: the structs of Helpers/Constants.swift.
pub mod UserKeys
pub mod PresentKeys
pub mod EventKeys
pub mod FriendKeys
use on_my_way.Base.{String}

-- `URLs.defaultProfileImg`
abbrev pub default_profile_img : String
default_profile_img =
    "https://firebasestorage.googleapis.com/v0/b/ipresent-upd.appspot.com/o/profile_images.jpeg%2Faa6adde0-4d48-454d-9bd9-a66a16559009.jpeg?alt=media&token=18b230be-e847-4c0b-b797-2025744e6909"

-- The nodes that FriendSystem and DeleteService spell out.
abbrev pub following : String
following = "following"

abbrev pub followers : String
followers = "followers"

-- The birthdate of a deleted account.
abbrev pub deleted : String
deleted = "Deleted"
