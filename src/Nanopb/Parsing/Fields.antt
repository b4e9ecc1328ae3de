-- ===== src/Nanopb/Parsing/Fields.antt =====
-- decode_callback_field and decode_field of pb_decode.c.
use on_my_way.Base.{
  ℕ, zero, suc, Bool, true, false, ◌||◌, Option, none, some, List, length, eqb, if◌then◌else◌,
}
use on_my_way.Nanopb.Memory.{load_pointer, callback_arg_offset}
use on_my_way.Nanopb.Input.{IStream, pb_istream_from_buffer}
use on_my_way.Nanopb.Field.{
  pb_htype, pb_atype, pb_htype_oneof, pb_atype_static, pb_atype_pointer, pb_atype_callback,
  pb_wt_string,
}
use on_my_way.Nanopb.Decode.{pb_skip_field, read_raw_value, pb_make_string_substream}
use on_my_way.Nanopb.Iterator.{FieldIter, here, address}
use on_my_way.Nanopb.Parsing.{State, Device, on_stream, fail_decode, ◌then_decode◌, returning}
use on_my_way.Nanopb.Parsing.Release.{pb_release_union_field}
use on_my_way.Nanopb.Parsing.Values.{Inner, close_after}
use on_my_way.Nanopb.Parsing.Static.{decode_static_field}
use on_my_way.Nanopb.Parsing.Pointers.{decode_pointer_field}

module _ {S H : Type 0} (device : Device S H) (inner : Inner S H) (hops depth : ℕ) where
  abbrev pub call_decode : FieldIter → State S H → Bool × State S H
  call_decode iter state =
      device.decode_callback (load_pointer (state.memory) (iter.p_data)) (here iter)
        (address (iter.p_data) callback_arg_offset) state

  -- The loop that calls the callback until its substream is empty, at most `calls` times.
  unfoldable pub callback_rounds : ℕ → FieldIter → State S H → Bool × State S H
  callback_rounds zero iter state = (false, state)
  callback_rounds (suc calls) iter state = call_decode iter state then_decode λ after.
      let rest = callback_rounds calls iter after in
      if eqb (after.stream.bytes_left) 0 then (true, after) else rest

  abbrev pub after_calls : IStream S → Bool × State S H → Bool × State S H
  after_calls parent (false, state) = fail_decode (on_stream state parent) "callback failed"
  after_calls parent (true, state) = close_after parent (true, state)

  abbrev pub callback_string :
      FieldIter → State S H → Option (IStream S) × IStream S → Bool × State S H
  callback_string iter state (none, parent) = (false, on_stream state parent)
  callback_string iter state (some substream, parent) =
      after_calls parent
        (callback_rounds (suc (substream.bytes_left)) iter (on_stream state substream))

  -- The scalar is read from a stream of its own.
  abbrev pub callback_scalar :
      FieldIter → State S H → Option (List ℕ) × IStream S → Bool × State S H
  callback_scalar iter state (none, stream) = (false, on_stream state stream)
  callback_scalar iter state (some buffer, stream) =
      let called =
        call_decode iter (on_stream state (pb_istream_from_buffer buffer (length buffer))) in
      (called.0, on_stream (called.1) stream)

  unfoldable pub decode_callback_field : ℕ → FieldIter → State S H → Bool × State S H
  decode_callback_field wire_type iter state =
      let stream = state.stream in
      if eqb (iter.p_data) 0 || eqb (load_pointer (state.memory) (iter.p_data)) 0
      then returning state (pb_skip_field stream wire_type)
      else if eqb wire_type pb_wt_string
      then callback_string iter state (pb_make_string_substream stream)
      else callback_scalar iter state (read_raw_value stream wire_type 10)

  abbrev pub decode_by_atype : ℕ → FieldIter → State S H → Bool × State S H
  decode_by_atype wire_type iter state =
      let atype = pb_atype ((here iter).type) in
      if eqb atype pb_atype_static
      then decode_static_field device inner hops depth wire_type iter state
      else if eqb atype pb_atype_pointer
      then decode_pointer_field device inner hops depth wire_type iter state
      else if eqb atype pb_atype_callback
      then decode_callback_field wire_type iter state
      else fail_decode state "invalid field type"

  abbrev pub release_union_first : FieldIter → State S H → FieldIter × (Bool × State S H)
  release_union_first iter state =
      if eqb (pb_htype ((here iter).type)) pb_htype_oneof
      then pb_release_union_field device hops (suc depth) iter state
      else (iter, (true, state))

  -- The result has the iterator, which the release of a union may have moved.
  unfoldable pub decode_field : ℕ → FieldIter → State S H → FieldIter × (Bool × State S H)
  decode_field wire_type iter state =
      let released = release_union_first iter state in
      (released.0, released.1 then_decode decode_by_atype wire_type (released.0))
