-- ===== src/Keys/PresentKeys.antt =====
-- struct PresentKeys of Helpers/Constants.swift
use on_my_way.Base.{String}

abbrev pub path : String
path = "presents"

abbrev pub present_name : String
present_name = "present_name"

abbrev pub description : String
description = "description"

abbrev pub price : String
price = "price"

abbrev pub image : String
image = "image"

abbrev pub sender_id : String
sender_id = "senderId"

abbrev pub uuid : String
uuid = "uuid"

abbrev pub link : String
link = "link"
