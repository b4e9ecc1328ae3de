-- ===== src/Nanopb/Parsing/Values.antt =====
-- The decoders of pb_decode.c on memory: PB_DECODERS with pb_dec_submessage, pb_dec_bytes and
-- pb_dec_string for pointer fields, and initialize_pointer_field. What a decoder that fails has
-- stored is left out.
use on_my_way.Base.{
  ℕ, ◌+◌, ◌%◌, ◌^◌, Bool, true, false, ◌||◌, Option, none, some, List, [], ◌∷◌, ◌++◌, length, eqb,
  ltb, if◌then◌else◌,
}
use on_my_way.Nanopb.Memory.{
  load_pointer, store, store_bytes, store_size, store_pointer, memset_zero, bytes_offset,
}
use on_my_way.Nanopb.Input.{IStream, pb_read}
use on_my_way.Nanopb.Field.{
  Field, pb_ltype, pb_htype, pb_atype, pb_ltype_varint, pb_ltype_uvarint, pb_ltype_svarint,
  pb_ltype_fixed32, pb_ltype_fixed64, pb_ltype_bytes, pb_ltype_string, pb_ltype_submessage,
  pb_ltype_fixed_length_bytes, pb_htype_repeated, pb_atype_pointer, pb_size_max,
}
use on_my_way.Nanopb.Decode.{
  pb_decode_varint32, pb_make_string_substream, pb_close_string_substream,
}
use on_my_way.Nanopb.Decode.Fields.{
  pb_dec_varint, pb_dec_uvarint, pb_dec_svarint, pb_dec_fixed32, pb_dec_fixed64, pb_dec_bytes,
  pb_dec_string, pb_dec_fixed_length_bytes,
}
use on_my_way.Nanopb.Encode.Fields.{pb_bytes_array_t_allocsize}
use on_my_way.Nanopb.Iterator.{address}
use on_my_way.Nanopb.Parsing.{
  State, Device, on_stream, on_memory, fail_decode, ◌then_decode◌, reading, returning,
  allocate_field,
}
use on_my_way.Nanopb.Parsing.Defaults.{pb_message_set_to_defaults}

-- `pb_decode` and `pb_decode_noinit` at the depth below.
pub record Inner (S H : Type 0) : Type 0 where
  pub decode : List Field → ℕ → State S H → Bool × State S H
  pub decode_noinit : List Field → ℕ → State S H → Bool × State S H

module _ {S H : Type 0} where
  -- `pb_close_string_substream(stream, &substream)` after `status` is known, and `return status`.
  abbrev pub close_after : IStream S → Bool × State S H → Bool × State S H
  close_after parent (status, state) =
      returning state (pb_close_string_substream parent (state.stream)) then_decode λ closed.
      (status, closed)

  abbrev pub store_number : ℕ → ℕ → ℕ → State S H → Bool × State S H
  store_number size dest value state =
      (true, on_memory state (store (state.memory) size dest value))

  -- A pb_bytes_array_t.
  abbrev pub store_array : ℕ → List ℕ → State S H → Bool × State S H
  store_array dest bytes state =
      let sized = store_size (state.memory) dest (length bytes) in
      (true, on_memory state (store_bytes sized (address dest bytes_offset) bytes))

  abbrev pub store_plain : ℕ → List ℕ → State S H → Bool × State S H
  store_plain dest bytes state = (true, on_memory state (store_bytes (state.memory) dest bytes))

  -- The characters and the terminator.
  abbrev pub store_text : ℕ → List ℕ → State S H → Bool × State S H
  store_text dest bytes state =
      (true, on_memory state (store_bytes (state.memory) dest (bytes ++ (0 ∷ []))))

  module _ (device : Device S H) where
    -- `pb_dec_bytes` where the field is a pointer.
    abbrev pub dec_bytes_pointer : ℕ → State S H → Bool × State S H
    dec_bytes_pointer dest state = reading state (pb_decode_varint32 (state.stream)) λ size sized.
        let alloc_size = pb_bytes_array_t_allocsize size in
        if ltb pb_size_max size
        then fail_decode sized "bytes overflow"
        else if ltb alloc_size size
        then fail_decode sized "size too large"
        else allocate_field device dest alloc_size 1 sized then_decode λ new.
            reading new (pb_read (new.stream) size) (store_array (load_pointer (new.memory) dest))

    abbrev pub dec_string_pointer : ℕ → State S H → Bool × State S H
    dec_string_pointer dest state = reading state (pb_decode_varint32 (state.stream)) λ size sized.
        let alloc_size = (size + 1) % 2 ^ 32 in
        if ltb alloc_size size
        then fail_decode sized "size too large"
        else allocate_field device dest alloc_size 1 sized then_decode λ new.
            reading new (pb_read (new.stream) size) (store_text (load_pointer (new.memory) dest))

    module _ (inner : Inner S H) where
      abbrev pub decode_inner : Field → ℕ → State S H → Bool × State S H
      decode_inner field dest state =
          if eqb (pb_htype (field.type)) pb_htype_repeated
          then inner.decode (device.message_at (field.ptr)) dest state
          else inner.decode_noinit (device.message_at (field.ptr)) dest state

      abbrev pub decode_substream :
          Field → ℕ → State S H → Option (IStream S) × IStream S → Bool × State S H
      decode_substream field dest state (none, parent) = (false, on_stream state parent)
      decode_substream field dest state (some substream, parent) =
          if eqb (field.ptr) 0
          then fail_decode (on_stream state parent) "invalid field descriptor"
          else close_after parent (decode_inner field dest (on_stream state substream))

      unfoldable pub pb_dec_submessage : Field → ℕ → State S H → Bool × State S H
      pb_dec_submessage field dest state =
          decode_substream field dest state (pb_make_string_substream (state.stream))

      -- `PB_DECODERS[PB_LTYPE(type)](stream, field, dest)`. There is no function for extensions and
      -- for the numbers above the table.
      abbrev pub decode_by_ltype : ℕ → Field → ℕ → State S H → Bool × State S H
      decode_by_ltype ltype field dest state =
          let is_pointer = eqb (pb_atype (field.type)) pb_atype_pointer in
          let stream = state.stream in
          if eqb ltype pb_ltype_varint
          then reading state (pb_dec_varint stream field) (store_number (field.data_size) dest)
          else if eqb ltype pb_ltype_uvarint
          then reading state (pb_dec_uvarint stream field) (store_number (field.data_size) dest)
          else if eqb ltype pb_ltype_svarint
          then reading state (pb_dec_svarint stream field) (store_number (field.data_size) dest)
          else if eqb ltype pb_ltype_fixed32
          then reading state (pb_dec_fixed32 stream field) (store_number 4 dest)
          else if eqb ltype pb_ltype_fixed64
          then reading state (pb_dec_fixed64 stream field) (store_number 8 dest)
          else if eqb ltype pb_ltype_bytes
          then if is_pointer
            then dec_bytes_pointer dest state
            else reading state (pb_dec_bytes stream field) (store_array dest)
          else if eqb ltype pb_ltype_string
          then if is_pointer
            then dec_string_pointer dest state
            else reading state (pb_dec_string stream field) (store_text dest)
          else if eqb ltype pb_ltype_submessage
          then pb_dec_submessage field dest state
          else if eqb ltype pb_ltype_fixed_length_bytes
          then reading state (pb_dec_fixed_length_bytes stream field) (store_plain dest)
          else (false, state)

      unfoldable pub decode_value : Field → ℕ → State S H → Bool × State S H
      decode_value field = decode_by_ltype (pb_ltype (field.type)) field

  -- A new entry that is a pointer is cleared, and a new submessage gets its default values.
  unfoldable pub initialize_pointer_field : Device S H → ℕ → ℕ → Field → ℕ → State S H → State S H
  initialize_pointer_field device hops depth field p_item state =
      let ltype = pb_ltype (field.type) in
      let memory = state.memory in
      if eqb ltype pb_ltype_string || eqb ltype pb_ltype_bytes
      then on_memory state (store_pointer memory p_item 0)
      else if eqb ltype pb_ltype_submessage
      then on_memory state (
          pb_message_set_to_defaults (device.message_at) hops depth (device.message_at (field.ptr))
            p_item (memset_zero memory p_item (field.data_size)))
      else state
