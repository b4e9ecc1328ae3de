-- ===== src/Nanopb/Parsing/Static.antt =====
-- decode_static_field of pb_decode.c.
use on_my_way.Base.{
  ℕ, zero, suc, ◌+◌, ◌*◌, ◌%◌, ◌^◌, Bool, true, false, not, ◌&&◌, Option, none, some, eqb, leb, ltb,
  if◌then◌else◌,
}
use on_my_way.Nanopb.Memory.{load_size, store_byte, store_size, memset_zero}
use on_my_way.Nanopb.Input.{IStream}
use on_my_way.Nanopb.Field.{
  Field, pb_ltype, pb_htype, pb_ltype_submessage, pb_ltype_last_packable, pb_htype_required,
  pb_htype_optional, pb_htype_repeated, pb_htype_oneof, pb_wt_string,
}
use on_my_way.Nanopb.Decode.{pb_make_string_substream}
use on_my_way.Nanopb.Iterator.{FieldIter, here, address}
use on_my_way.Nanopb.Parsing.{State, Device, on_stream, on_memory, fail_decode, ◌then_decode◌}
use on_my_way.Nanopb.Parsing.Defaults.{pb_message_set_to_defaults}
use on_my_way.Nanopb.Parsing.Values.{Inner, close_after, decode_value}

-- `(char*)base + field->data_size * index`, where both factors and the product have 32 bits.
abbrev pub entry_address : Field → ℕ → ℕ → ℕ
entry_address field base index = address base (field.data_size * index % 2 ^ 32)

abbrev pub is_packed : ℕ → Field → Bool
is_packed wire_type field =
    eqb wire_type pb_wt_string && leb (pb_ltype (field.type)) pb_ltype_last_packable

module _ {S H : Type 0} where
  abbrev pub count_at : FieldIter → State S H → ℕ
  count_at iter state = load_size (state.memory) (iter.p_size)

  abbrev pub set_count : FieldIter → ℕ → State S H → State S H
  set_count iter count state =
      on_memory state (store_size (state.memory) (iter.p_size) (count % 2 ^ 32))

module _ {S H : Type 0} (device : Device S H) (inner : Inner S H) (hops depth : ℕ) where
  -- The loop over a packed static array. A round fills an entry, so `array_size` rounds are enough.
  unfoldable pub static_entries : ℕ → FieldIter → State S H → Bool × State S H
  static_entries zero iter state = (true, state)
  static_entries (suc rounds) iter state =
      let field = here iter in
      let size = count_at iter state in
      let decoded =
        decode_value device inner field (entry_address field (iter.p_data) size) state
        then_decode λ after.
            static_entries rounds iter (set_count iter (count_at iter after + 1) after) in
      if ltb 0 (state.stream.bytes_left) && ltb size (field.array_size)
      then decoded
      else (true, state)

  -- What follows the loop. `parent` is the stream that the array is in.
  abbrev pub after_entries : IStream S → Bool × State S H → Bool × State S H
  after_entries parent (status, state) =
      if not (eqb (state.stream.bytes_left) 0)
      then fail_decode (on_stream state parent) "array overflow"
      else close_after parent (status, state)

  abbrev pub static_packed :
      FieldIter → State S H → Option (IStream S) × IStream S → Bool × State S H
  static_packed iter state (none, parent) = (false, on_stream state parent)
  static_packed iter state (some substream, parent) =
      after_entries parent
        (static_entries ((here iter).array_size) iter (on_stream state substream))

  -- `(*size)++ >= array_size` counts also where it fails.
  abbrev pub static_entry : FieldIter → State S H → Bool × State S H
  static_entry iter state =
      let field = here iter in
      let size = count_at iter state in
      let counted = set_count iter (size + 1) state in
      if leb (field.array_size) size
      then fail_decode counted "array overflow"
      else decode_value device inner field (entry_address field (iter.p_data) size) counted

  -- A submessage in a union is cleared first.
  abbrev pub static_oneof : FieldIter → State S H → Bool × State S H
  static_oneof iter state =
      let field = here iter in
      let tagged = store_size (state.memory) (iter.p_size) (field.tag) in
      decode_value device inner field (iter.p_data) (
        on_memory state (
          if eqb (pb_ltype (field.type)) pb_ltype_submessage
          then pb_message_set_to_defaults (device.message_at) hops depth
              (device.message_at (field.ptr)) (iter.p_data)
              (memset_zero tagged (iter.p_data) (field.data_size))
          else tagged))

  unfoldable pub decode_static_field : ℕ → FieldIter → State S H → Bool × State S H
  decode_static_field wire_type iter state =
      let field = here iter in
      let htype = pb_htype (field.type) in
      if eqb htype pb_htype_required
      then decode_value device inner field (iter.p_data) state
      else if eqb htype pb_htype_optional
      then decode_value device inner field (iter.p_data) (
          if eqb (iter.p_size) (iter.p_data)
          then state
          else on_memory state (store_byte (state.memory) (iter.p_size) 1))
      else if eqb htype pb_htype_repeated
      then if is_packed wire_type field
        then static_packed iter state (pb_make_string_substream (state.stream))
        else static_entry iter state
      else if eqb htype pb_htype_oneof
      then static_oneof iter state
      else fail_decode state "invalid field type"
