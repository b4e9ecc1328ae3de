-- ===== src/Lib.antt =====
-- iPresent, an iOS app for wishes and presents, and nanopb, the C code in its tree that writes and
-- reads protocol buffers.
--
-- PARTS AND FILES. Paths are from the root of the repository; APP stands for
-- "efedyaev_code/tableView Test for iPresent" and PB for efedyaev_code/Pods/nanopb.
--
-- The app keeps all of its data in a realtime database, a tree of texts that the services read and
-- write by paths. Database.antt is the interface of that database as the services use it: a record
-- with the type of a tree, reads, the keys below a node, queries, writes, removals that the server
-- may refuse, and the laws of these calls as the database documents them. It is a parameter of
-- every service. Database/Writes.antt has what follows for the writes of several children, and
-- Database/Memory.antt a database in memory that meets the laws.
--
-- - Keys.antt and Keys/: the structs of keys in APP/Helpers/Constants.swift.
-- - Model.antt: APP/Model/User.swift, Event.swift and Present.swift; Model/Dates.antt: the dates
--   of an event, over the interface of a calendar; Model/Sets.antt: mapToSet of
--   APP/Helpers/Extension/ArrayExtension.swift.
-- - Social.antt: APP/Services/FriendSystem.swift (followUser, unfollowUser, getUser, findUsers).
--   Social/Follow.antt and Social/Search.antt prove what these do; Social/Graph.antt has sequences
--   of them as a step relation, and the graph that they implement. Social/Observer.antt:
--   followsList with addFollowsObserver and removeFollowsObserver, and the relation of its
--   snapshots and answers.
-- - Accounts.antt: APP/Services/UserDataExtension.swift, DataService.swift (checkPhoneNumber,
--   uploadMedia), DeleteService.swift and PhoneAuthService.swift. Accounts/ has the proofs about
--   deletion, the check of a number, sign-up and the profile. Accounts/Listing.antt:
--   getUsersByName and getUsersByPhoneNumber of DataService.swift.
-- - Contacts.antt: APP/Services/ContactsService.swift and APP/Controller/FRecommendationsVC.swift,
--   with proofs in Contacts/.
-- - Events.antt: APP/Services/EventDataExtension.swift (uploadEvent, getEvents, removeEvents),
--   with proofs in Events/.
-- - Presents.antt: APP/Services/PresentDataExtension.swift (uploadPresent, getPresents,
--   removePresent), with proofs in Presents/.
-- - Friends.antt: APP/Services/FriendsDataExtension.swift (addUserFriend, getUserFriends), with a
--   proof in Friends/.
-- - Feed.antt: APP/Controller/EventsVC.swift, the events of the followed users from the answers of
--   getEvents to the cells of the table, with proofs in Feed/.
-- - Forms.antt: the forms that write through the services, APP/Controller/PhoneVerifyVC.swift,
--   PhoneSignUpVC.swift, EditProfileTable.swift, ProfileTableVC.swift (prepare), AddEventVC.swift
--   and AddPresentsVC.swift, and isAlphanumeric of APP/Helpers/Extension/StringExtensions.swift,
--   with proofs in Forms/.
-- - Screens.antt: the state of APP/Controller/SearchVC.swift, PresentsVC.swift and UserVC.swift,
--   with proofs in Screens/.
-- - Nanopb/Output.antt and Input.antt: the streams of PB/pb_encode.c and pb_decode.c.
--   Nanopb/Field.antt: constants and the field descriptor of PB/pb.h. Nanopb/Encode.antt and
--   Decode.antt: the wire encoders and decoders, with the encoders and decoders of single fields
--   below them. Nanopb/Iterator.antt: PB/pb_common.c. Nanopb/Varint.antt and below: the loops over
--   base-128 numbers. Nanopb/RoundTrips, Fixed, Numbers, Substreams, Bounds and Iterator/Search
--   prove how the operations fit together.
-- - Nanopb/Memory.antt: bytes at addresses, and where the members of the structs of PB/pb.h lie;
--   Nanopb/Stored.antt: what is read back from it. Nanopb/Default.antt: the check for proto3
--   default values. Nanopb/Message.antt and Message/Whole.antt: encode_array to
--   pb_get_encoded_size of PB/pb_encode.c, with a proof about its depth in Message/Depth.
--   Nanopb/Steady.antt and below: what an encoder writes, whatever the stream, with the results
--   about whole messages in Steady/Framing.
-- - Nanopb/Parsing.antt: the state of the decoder and allocate_field of PB/pb_decode.c. Below it
--   Defaults (pb_message_set_to_defaults), Release (pb_release), Values (the decoders of single
--   values on memory), Static, Pointers and Fields (decode_field), Progress and Rounds (the loop
--   of pb_decode_noinit, extensions) and Whole (pb_decode and what is built on it); Allocation,
--   Flags, Required and Transfer have proofs.
-- - Base.antt and Base/: tests on numbers, lists, and bit operations as arithmetic.
-- - Runs.antt and Runs/: the theorems at concrete data.
--
-- HOW THE CODE IS MODELLED. A service function takes the tree and gives the tree it leaves with
-- what it hands to its handler. A handler that runs when the server answers runs at once; where
-- two requests race, as in regiserUser, the order is an argument. A write with no completion is
-- taken to be accepted. A forced unwrapping of a missing text stops the program: a read that does
-- so gives none. The observers of followsList are a relation: snapshots, each of which asks for
-- users, and answers, in any order. Other observers are modelled by the function that runs on a
-- snapshot.
--
-- What the system answers is an argument or an interface: the calendar of Foundation (Date with
-- its order, DateFormatter with the formats of the source), the address book and the permission to
-- read it, how an upload ends, and Date(), one time per answer. A set is a list without
-- repetition; the order in which Swift enumerates it is the order of the list, and no theorem
-- depends on it but for events of one day, whose order sort leaves open. A screen is a record of
-- the fields that the source declares, and the table of SearchVC also keeps the number of rows of
-- its last reload. The characters of a text are code points.
--
-- A nanopb function takes a stream and gives its Boolean result, or its value where it has one,
-- with the stream it leaves; the first error message stays. A stream is a buffer, a stream that
-- only counts, or a callback of the caller with its state. Bytes are numbers below 256, size_t
-- wraps at 2^64, and an int64_t is its two's complement. The build is the one of the pod: 64 bits,
-- PB_FIELD_32BIT, an 8-bit uint_fast8_t.
--
-- Whole messages are structs in a memory of bytes at 64-bit addresses, little-endian and with
-- 8-byte pointers. What a message points to and the source does not define is a parameter: the
-- tables of field descriptors, which a generator makes, the callbacks and the functions of
-- extensions; and for the decoder pb_realloc and pb_free. The local fixed_count_size of
-- pb_decode_noinit, whose address is taken, lies above all addresses, in a place of its own for
-- each depth.
--
-- FUEL. The loop of pb_decode_varint has eleven rounds of fuel and stops itself in the eleventh;
-- those of pb_decode_varint32_eof and pb_skip_varint have one round more than bytes are left, and
-- a round takes a byte; skipping through a callback has a round per byte and takes sixteen;
-- pb_field_iter_find and find_extension_field have a round per field and one more. The functions
-- on whole messages have two bounds: messages are nested at most `depth` deep, at which encoder
-- and decoder give up, and a list of extensions has at most `hops` members; a caller gives the
-- numbers of its own messages. Their loops over fields have a round per field and one more, that
-- of pb_decode_noinit has a round per byte, of which each takes one at least, and a loop over a
-- packed array a round per entry or per byte; a callback is called at most once per byte and once
-- more.
--
-- NOT MODELLED. Layout, navigation, images and dialogs of the app; the request for a code, the
-- connection monitor and the rows of the profile; Firebase and the other pods; of nanopb, the
-- variants of the code for other build settings and what a field decoder that fails has stored.
pub mod Base
pub mod Database
pub mod Keys
pub mod Model
pub mod Social
pub mod Accounts
pub mod Contacts
pub mod Events
pub mod Feed
pub mod Presents
pub mod Forms
pub mod Friends
pub mod Nanopb
pub mod Screens
pub mod Runs
