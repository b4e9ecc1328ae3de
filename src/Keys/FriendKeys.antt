-- ===== src/Keys/FriendKeys.antt =====
-- struct FriendKeys of Helpers/Constants.swift
use on_my_way.Base.{String}

abbrev pub path : String
path = "friends"

abbrev pub requests : String
requests = "requests"

abbrev pub friend_uid : String
friend_uid = "fuid"
