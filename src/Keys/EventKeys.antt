-- ===== src/Keys/EventKeys.antt =====
-- struct EventKeys of Helpers/Constants.swift
use on_my_way.Base.{String}

abbrev pub path : String
path = "events"

abbrev pub event_title : String
event_title = "event_title"

abbrev pub description : String
description = "description"

abbrev pub date : String
date = "date"

abbrev pub uuid : String
uuid = "uuid"

abbrev pub sender_id : String
sender_id = "senderId"
