-- ===== src/Nanopb/Message.antt =====
-- Encoding of whole messages: encode_array to pb_get_encoded_size of pb_encode.c, with
-- pb_encode_submessage and pb_enc_submessage. The tables of field descriptors, which a generator
-- makes, and the functions that a message holds pointers to are parameters: `Program` says what
-- stands at an address.
pub mod Whole
pub mod Depth
use on_my_way.Base.{
  ℕ, zero, suc, ◌+◌, ◌-◌, ◌*◌, ◌%◌, ◌^◌, Bool, true, false, not, ◌&&◌, ◌||◌, Option, none, some,
  List, [], ◌∷◌, length, eqb, leb, ltb, if◌then◌else◌,
}
use on_my_way.Nanopb.Memory.{
  Memory, load, bytes_at, load_pointer, load_size, load_bool, bytes_offset, callback_arg_offset,
  extension_dest_offset, extension_next_offset, type_encode_offset, type_arg_offset,
}
use on_my_way.Nanopb.Output.{
  Sink, OStream, out, ◌then_write◌, pb_ostream_sizing, fail_write, count_written, pb_write,
}
use on_my_way.Nanopb.Field.{
  Field, pb_ltype, pb_htype, pb_atype, pb_ltype_varint, pb_ltype_uvarint, pb_ltype_svarint,
  pb_ltype_fixed32, pb_ltype_fixed64, pb_ltype_bytes, pb_ltype_string, pb_ltype_submessage,
  pb_ltype_extension, pb_ltype_fixed_length_bytes, pb_ltype_last_packable, pb_htype_required,
  pb_htype_optional, pb_htype_repeated, pb_htype_oneof, pb_atype_static, pb_atype_pointer,
  pb_atype_callback, pb_wt_string,
}
use on_my_way.Nanopb.Encode.{pb_encode_varint, pb_encode_tag, pb_encode_tag_for_field}
use on_my_way.Nanopb.Encode.Fields.{
  pb_enc_varint, pb_enc_uvarint, pb_enc_svarint, pb_enc_fixed32, pb_enc_fixed64, pb_enc_bytes,
  pb_enc_string, pb_enc_fixed_length_bytes, sign_extend,
}
use on_my_way.Nanopb.Iterator.{
  FieldIter, field_at, here, address, pb_field_iter_begin, pb_field_iter_next,
}

-- `message_at` is the array of descriptors at an address, without its terminator. An encoder
-- callback gets the field and the address of its `arg`, an extension's encoder the extension.
pub record Program (S : Type 0) : Type 0 where
  pub memory : Memory
  pub message_at : ℕ → List Field
  pub encode_callback : ℕ → Field → ℕ → OStream S → Bool × OStream S
  pub encode_extension : ℕ → ℕ → OStream S → Bool × OStream S

-- `encode(stream, fields, src)` and the check for default values, at the depth below.
pub record Below (S : Type 0) : Type 0 where
  pub encode : List Field → ℕ → OStream S → Bool × OStream S
  pub is_default : List Field → ℕ → Bool

abbrev pub is_sizing : {S : Type 0} → Sink S → Bool
is_sizing Sink.sizing = true
is_sizing (Sink.buffer _) = false
is_sizing (Sink.device _ _) = false

module _ {S : Type 0} (program : Program S) where
  abbrev pub null_or : ℕ → List ℕ → Option (List ℕ)
  null_or src bytes = if eqb src 0 then none else some bytes

  -- A loop of `encode_array` over `count` entries from `p` on.
  unfoldable pub encode_items :
      (ℕ → OStream S → Bool × OStream S) → ℕ → ℕ → ℕ → OStream S → Bool × OStream S
  encode_items item data_size zero p stream = (true, stream)
  encode_items item data_size (suc count) p stream =
      item p stream then_write encode_items item data_size count (address p data_size)

  module _ (below : Below S) where
    -- After both runs over the submessage: what the parent takes over from the substream.
    abbrev pub take_over : OStream S → ℕ → Bool × OStream S → Bool × OStream S
    take_over stream size (status, sub) =
        let after =
          out (sub.sink) (stream.max_size) ((stream.bytes_written + sub.bytes_written) % 2 ^ 64)
            (sub.errmsg) in
        if not (eqb (sub.bytes_written) size)
        then fail_write after "submsg size changed"
        else (status, after)

    abbrev pub write_submessage : List Field → ℕ → ℕ → OStream S → Bool × OStream S
    write_submessage fields src size stream =
        if is_sizing (stream.sink)
        then count_written stream size
        else if ltb (stream.max_size) ((stream.bytes_written + size) % 2 ^ 64)
        then fail_write stream "stream full"
        else take_over stream size (below.encode fields src (out (stream.sink) size 0 none))

    abbrev pub after_sizing : List Field → ℕ → OStream S → Bool × OStream S → Bool × OStream S
    after_sizing fields src stream (false, sub) =
        (false, out (stream.sink) (stream.max_size) (stream.bytes_written) (sub.errmsg))
    after_sizing fields src stream (true, sub) =
        pb_encode_varint stream (sub.bytes_written)
        then_write write_submessage fields src (sub.bytes_written)

    unfoldable pub pb_encode_submessage : List Field → ℕ → OStream S → Bool × OStream S
    pb_encode_submessage fields src stream =
        after_sizing fields src stream (below.encode fields src pb_ostream_sizing)

    unfoldable pub pb_enc_submessage : Field → ℕ → OStream S → Bool × OStream S
    pb_enc_submessage field src stream =
        if eqb (field.ptr) 0
        then fail_write stream "invalid field descriptor"
        else pb_encode_submessage (program.message_at (field.ptr)) src stream

    -- `PB_ENCODERS[PB_LTYPE(field->type)](stream, field, src)`, with the values at `src`. There is no
    -- function for extensions and for the numbers above the table.
    abbrev pub encode_by_ltype : ℕ → Field → ℕ → OStream S → Bool × OStream S
    encode_by_ltype ltype field src stream =
        let memory = program.memory in
        let size = field.data_size in
        if eqb ltype pb_ltype_varint
        then pb_enc_varint stream field (load memory size src)
        else if eqb ltype pb_ltype_uvarint
        then pb_enc_uvarint stream field (load memory size src)
        else if eqb ltype pb_ltype_svarint
        then pb_enc_svarint stream field (load memory size src)
        else if eqb ltype pb_ltype_fixed32
        then pb_enc_fixed32 stream field (load memory 4 src)
        else if eqb ltype pb_ltype_fixed64
        then pb_enc_fixed64 stream field (load memory 8 src)
        else if eqb ltype pb_ltype_bytes
        then pb_enc_bytes stream field
            (null_or src (bytes_at memory (load_size memory src) (address src bytes_offset)))
        else if eqb ltype pb_ltype_string
        then pb_enc_string stream field (
            null_or src (
              bytes_at memory
                (if eqb (pb_atype (field.type)) pb_atype_pointer then 2 ^ 64 - 1 else size) src))
        else if eqb ltype pb_ltype_submessage
        then pb_enc_submessage field src stream
        else if eqb ltype pb_ltype_fixed_length_bytes
        then pb_enc_fixed_length_bytes stream field (bytes_at memory size src)
        else (false, stream)

    unfoldable pub encode_value : Field → ℕ → OStream S → Bool × OStream S
    encode_value field = encode_by_ltype (pb_ltype (field.type)) field

    -- The data of a packed array, after its tag: the size, and the entries.
    abbrev pub write_packed : Field → ℕ → ℕ → ℕ → OStream S → Bool × OStream S
    write_packed field p_data count size stream = pb_encode_varint stream size then_write λ after.
        if is_sizing (after.sink)
        then count_written after size
        else encode_items (encode_value field) (field.data_size) count p_data after

    abbrev pub packed_after : Field → ℕ → ℕ → OStream S → Bool × OStream S → Bool × OStream S
    packed_after field p_data count stream (false, sizes) = (false, stream)
    packed_after field p_data count stream (true, sizes) =
        write_packed field p_data count (sizes.bytes_written) stream

    abbrev pub encode_packed : Field → ℕ → ℕ → OStream S → Bool × OStream S
    encode_packed field p_data count stream =
        if eqb (pb_ltype (field.type)) pb_ltype_fixed32
        then write_packed field p_data count (4 * count) stream
        else if eqb (pb_ltype (field.type)) pb_ltype_fixed64
        then write_packed field p_data count (8 * count) stream
        else packed_after field p_data count stream
            (encode_items (encode_value field) (field.data_size) count p_data pb_ostream_sizing)

    -- Whether the entries of the array are pointers to the data.
    abbrev pub has_pointers : Field → Bool
    has_pointers field =
        eqb (pb_atype (field.type)) pb_atype_pointer
        && (eqb (pb_ltype (field.type)) pb_ltype_string
            || eqb (pb_ltype (field.type)) pb_ltype_bytes)

    abbrev pub encode_entry : Field → ℕ → OStream S → Bool × OStream S
    encode_entry field p stream =
        pb_encode_tag_for_field stream field
        then_write encode_value field
            (if has_pointers field then load_pointer (program.memory) p else p)

    unfoldable pub encode_array : Field → ℕ → ℕ → OStream S → Bool × OStream S
    encode_array field p_data count stream =
        if eqb count 0
        then (true, stream)
        else if not (eqb (pb_atype (field.type)) pb_atype_pointer) && ltb (field.array_size) count
        then fail_write stream "array max size exceeded"
        else if leb (pb_ltype (field.type)) pb_ltype_last_packable
        then pb_encode_tag stream pb_wt_string (field.tag)
          then_write encode_packed field p_data count
        else encode_items (encode_entry field) (field.data_size) count p_data stream
