-- ===== src/Keys/UserKeys.antt =====
-- struct UserKeys of Helpers/Constants.swift
use on_my_way.Base.{String}

abbrev pub path : String
path = "users"

abbrev pub provider : String
provider = "provider"

abbrev pub phone_number : String
phone_number = "phoneNumber"

abbrev pub user_id : String
user_id = "userId"

abbrev pub name : String
name = "name"

abbrev pub birthdate : String
birthdate = "birthdate"

abbrev pub profile_img : String
profile_img = "profileImgURL"
