-- ===== src/Nanopb/Parsing/Pointers.antt =====
-- decode_pointer_field of pb_decode.c.
use on_my_way.Base.{
  ℕ, zero, suc, ◌+◌, ◌-◌, ◌/◌, ◌%◌, ◌^◌, Bool, true, false, not, ◌&&◌, ◌||◌, Option, none, some,
  eqb, ltb, if◌then◌else◌,
}
use on_my_way.Nanopb.Memory.{load_pointer, store_size}
use on_my_way.Nanopb.Input.{IStream, input}
use on_my_way.Nanopb.Field.{
  Field, pb_ltype, pb_htype, pb_ltype_bytes, pb_ltype_string, pb_ltype_submessage,
  pb_htype_required, pb_htype_optional, pb_htype_repeated, pb_htype_oneof, pb_size_max,
}
use on_my_way.Nanopb.Decode.{pb_make_string_substream}
use on_my_way.Nanopb.Iterator.{FieldIter, here}
use on_my_way.Nanopb.Parsing.{
  State, Device, on_stream, on_memory, fail_decode, ◌then_decode◌, allocate_field,
}
use on_my_way.Nanopb.Parsing.Release.{pb_release_single_field}
use on_my_way.Nanopb.Parsing.Values.{Inner, close_after, decode_value, initialize_pointer_field}
use on_my_way.Nanopb.Parsing.Static.{entry_address, is_packed, count_at, set_count}

module _ {S H : Type 0} (device : Device S H) (inner : Inner S H) (hops depth : ℕ) where
  -- A submessage that was decoded before is released.
  abbrev pub release_duplicate : FieldIter → State S H → State S H
  release_duplicate iter state =
      if eqb (pb_ltype ((here iter).type)) pb_ltype_submessage
        && not (eqb (load_pointer (state.memory) (iter.p_data)) 0)
      then pb_release_single_field device hops (suc depth) iter state
      else state

  abbrev pub tag_union : FieldIter → State S H → State S H
  tag_union iter state =
      if eqb (pb_htype ((here iter).type)) pb_htype_oneof
      then on_memory state (store_size (state.memory) (iter.p_size) ((here iter).tag))
      else state

  -- The entry at `p_item`, and its decoder.
  abbrev pub decode_new : Field → ℕ → State S H → Bool × State S H
  decode_new field p_item state =
      decode_value device inner field p_item
        (initialize_pointer_field device hops depth field p_item state)

  abbrev pub pointer_single : FieldIter → State S H → Bool × State S H
  pointer_single iter state =
      let field = here iter in
      let ltype = pb_ltype (field.type) in
      let ready = tag_union iter (release_duplicate iter state) in
      if eqb ltype pb_ltype_string || eqb ltype pb_ltype_bytes
      then decode_value device inner field (iter.p_data) ready
      else allocate_field device (iter.p_data) (field.data_size) 1 ready then_decode λ new.
          decode_new field (load_pointer (new.memory) (iter.p_data)) new

  -- Room for the next entry, with `allocated` entries allocated: how many there are then.
  abbrev pub make_room : FieldIter → ℕ → State S H → ℕ × (Bool × State S H)
  make_room iter allocated state =
      let field = here iter in
      let more = (allocated + ((state.stream.bytes_left - 1) / field.data_size + 1)) % 2 ^ 64 in
      if ltb allocated (count_at iter state + 1)
      then (more, allocate_field device (iter.p_data) (field.data_size) more state)
      else (allocated, (true, state))

  abbrev pub decode_next : FieldIter → State S H → Bool × State S H
  decode_next iter state =
      let field = here iter in
      decode_new field
        (entry_address field (load_pointer (state.memory) (iter.p_data)) (count_at iter state))
        state

  -- The end of a round of the loop below, whose rest is `again`: whether the parent gets the message
  -- "too many array entries", and the result.
  abbrev pub count_entry :
      FieldIter
      → (State S H → Bool × (Bool × State S H))
      → Bool × State S H
      → Bool × (Bool × State S H)
  count_entry iter again (false, state) = (false, (false, state))
  count_entry iter again (true, state) =
      let next = again (set_count iter (count_at iter state + 1) state) in
      if eqb (count_at iter state) pb_size_max then (true, (false, state)) else next

  -- The loop over a packed array behind a pointer. A round takes a byte, so `bytes_left` rounds are
  -- enough.
  unfoldable pub pointer_entries : ℕ → FieldIter → ℕ → State S H → Bool × (Bool × State S H)
  pointer_entries zero iter allocated state = (false, (true, state))
  pointer_entries (suc rounds) iter allocated state =
      let (room, made) = make_room iter allocated state in
      let rest =
        count_entry iter (pointer_entries rounds iter room) (made then_decode decode_next iter) in
      if eqb (state.stream.bytes_left) 0 then (false, (true, state)) else rest

  abbrev pub too_many : IStream S → IStream S
  too_many parent = input (parent.source) (parent.bytes_left) (some "too many array entries")

  abbrev pub after_pointer_entries : IStream S → Bool × (Bool × State S H) → Bool × State S H
  after_pointer_entries parent (overflow, result) =
      close_after (if overflow then too_many parent else parent) result

  abbrev pub pointer_packed :
      FieldIter → State S H → Option (IStream S) × IStream S → Bool × State S H
  pointer_packed iter state (none, parent) = (false, on_stream state parent)
  pointer_packed iter state (some substream, parent) = after_pointer_entries parent (
      pointer_entries (substream.bytes_left) iter (count_at iter state) (on_stream state substream))

  abbrev pub pointer_entry : FieldIter → State S H → Bool × State S H
  pointer_entry iter state =
      let field = here iter in
      let counted = set_count iter (count_at iter state + 1) state in
      if eqb (count_at iter state) pb_size_max
      then fail_decode state "too many array entries"
      else allocate_field device (iter.p_data) (field.data_size) (count_at iter counted) counted
        then_decode λ new.
            decode_new field
              (entry_address field (load_pointer (new.memory) (iter.p_data))
                (count_at iter new - 1))
              new

  unfoldable pub decode_pointer_field : ℕ → FieldIter → State S H → Bool × State S H
  decode_pointer_field wire_type iter state =
      let field = here iter in
      let htype = pb_htype (field.type) in
      if eqb htype pb_htype_required || eqb htype pb_htype_optional || eqb htype pb_htype_oneof
      then pointer_single iter state
      else if eqb htype pb_htype_repeated
      then if is_packed wire_type field
        then pointer_packed iter state (pb_make_string_substream (state.stream))
        else pointer_entry iter state
      else fail_decode state "invalid field type"
