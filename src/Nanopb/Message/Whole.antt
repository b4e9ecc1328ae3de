-- ===== src/Nanopb/Message/Whole.antt =====
-- Fields of every kind, extensions, and pb_encode with what is built on it.
use on_my_way.Base.{
  ℕ, zero, suc, Bool, true, false, not, ◌&&◌, ◌||◌, Option, none, some, List, [], ◌∷◌, length, eqb,
  if◌then◌else◌,
}
use on_my_way.Nanopb.Memory.{
  load_pointer, load_size, load_bool, callback_arg_offset, extension_dest_offset,
  extension_next_offset, type_encode_offset, type_arg_offset,
}
use on_my_way.Nanopb.Output.{OStream, ◌then_write◌, pb_ostream_sizing, fail_write, pb_write}
use on_my_way.Nanopb.Field.{
  Field, pb_ltype, pb_htype, pb_atype, pb_ltype_extension, pb_htype_required, pb_htype_optional,
  pb_htype_repeated, pb_htype_oneof, pb_atype_static, pb_atype_pointer, pb_atype_callback,
}
use on_my_way.Nanopb.Encode.{pb_encode_tag_for_field}
use on_my_way.Nanopb.Iterator.{
  FieldIter, field_at, here, address, pb_field_iter_begin, pb_field_iter_next,
}
use on_my_way.Nanopb.Default.{size_address, pb_check_proto3_default_value, message_is_default}
use on_my_way.Nanopb.Message.{Program, Below, encode_value, encode_array, pb_encode_submessage}

module _ {S : Type 0} (program : Program S) where
  module _ (below : Below S) where
    -- The `has` of a field: with a size offset what stands there, else `implicit_has`, which the
    -- address of the data decides for a pointer field.
    abbrev pub has_value : Field → ℕ → ℕ → Bool
    has_value field p_data source =
        if not (eqb (field.size_offset) 0)
        then load_bool (program.memory) (size_address field p_data)
        else if eqb (pb_atype (field.type)) pb_atype_pointer
        then not (eqb source 0)
        else if eqb (pb_htype (field.type)) pb_htype_optional
        then not (
            pb_check_proto3_default_value (program.memory) (program.message_at) (below.is_default)
              field p_data)
        else true

    abbrev pub write_tagged : Field → ℕ → OStream S → Bool × OStream S
    write_tagged field source stream =
        pb_encode_tag_for_field stream field then_write encode_value program below field source

    abbrev pub entry_count : Field → ℕ → ℕ
    entry_count field p_data =
        if not (eqb (field.size_offset) 0)
        then load_size (program.memory) (size_address field p_data)
        else field.array_size

    -- The member of a union that is set. With no size offset the code would read a local of one
    -- byte as a size; no generated descriptor has that.
    abbrev pub is_current : Field → ℕ → Bool
    is_current field p_data =
        not (eqb (field.size_offset) 0)
        && eqb (load_size (program.memory) (size_address field p_data)) (field.tag)

    -- The switch of `encode_basic_field`, with the address of the field and of its data.
    abbrev pub encode_by_rule : Field → ℕ → ℕ → OStream S → Bool × OStream S
    encode_by_rule field p_data source stream =
        let htype = pb_htype (field.type) in
        if eqb htype pb_htype_required
        then if eqb source 0
          then fail_write stream "missing required field"
          else write_tagged field source stream
        else if eqb htype pb_htype_optional
        then if has_value field p_data source
          then write_tagged field source stream
          else (true, stream)
        else if eqb htype pb_htype_repeated
        then encode_array program below field source (entry_count field p_data) stream
        else if eqb htype pb_htype_oneof
        then if is_current field p_data then write_tagged field source stream else (true, stream)
        else fail_write stream "invalid field type"

    unfoldable pub encode_basic_field : Field → ℕ → OStream S → Bool × OStream S
    encode_basic_field field p_data stream =
        encode_by_rule field p_data
          (if eqb (pb_atype (field.type)) pb_atype_pointer
            then load_pointer (program.memory) p_data
            else p_data)
          stream

    abbrev pub after_callback : Bool × OStream S → Bool × OStream S
    after_callback (true, stream) = (true, stream)
    after_callback (false, stream) = fail_write stream "callback error"

    unfoldable pub encode_callback_field : Field → ℕ → OStream S → Bool × OStream S
    encode_callback_field field p_data stream =
        let function = load_pointer (program.memory) p_data in
        if not (eqb function 0)
        then after_callback
            (program.encode_callback function field (address p_data callback_arg_offset) stream)
        else (true, stream)

    unfoldable pub encode_field : Field → ℕ → OStream S → Bool × OStream S
    encode_field field p_data stream =
        let atype = pb_atype (field.type) in
        if eqb atype pb_atype_static || eqb atype pb_atype_pointer
        then encode_basic_field field p_data stream
        else if eqb atype pb_atype_callback
        then encode_callback_field field p_data stream
        else fail_write stream "invalid field type"

    -- The descriptor in `extension->type->arg`.
    abbrev pub extension_field : ℕ → Field
    extension_field extension =
        let type = load_pointer (program.memory) extension in
        field_at (program.message_at (load_pointer (program.memory) (address type type_arg_offset)))
          0

    unfoldable pub default_extension_encoder : ℕ → OStream S → Bool × OStream S
    default_extension_encoder extension stream =
        let field = extension_field extension in
        let dest = address extension extension_dest_offset in
        encode_field field
          (if eqb (pb_atype (field.type)) pb_atype_pointer
            then dest
            else load_pointer (program.memory) dest)
          stream

    abbrev pub encode_one_extension : ℕ → OStream S → Bool × OStream S
    encode_one_extension extension stream =
        let type = load_pointer (program.memory) extension in
        let encoder = load_pointer (program.memory) (address type type_encode_offset) in
        if not (eqb encoder 0)
        then program.encode_extension encoder extension stream
        else default_extension_encoder extension stream

    -- The loop of `encode_extension_field` over the linked list, of at most `hops` members.
    unfoldable pub encode_extensions : ℕ → ℕ → OStream S → Bool × OStream S
    encode_extensions zero extension stream = (eqb extension 0, stream)
    encode_extensions (suc hops) extension stream =
        let next = load_pointer (program.memory) (address extension extension_next_offset) in
        if eqb extension 0
        then (true, stream)
        else encode_one_extension extension stream then_write encode_extensions hops next

    abbrev pub encode_any : ℕ → Field → ℕ → OStream S → Bool × OStream S
    encode_any hops field p_data stream =
        if eqb (pb_ltype (field.type)) pb_ltype_extension
        then encode_extensions hops (load_pointer (program.memory) p_data) stream
        else encode_field field p_data stream

    -- The loop of `pb_encode`; a round moves on by a field.
    unfoldable pub encode_rounds : ℕ → ℕ → FieldIter → OStream S → Bool × OStream S
    encode_rounds hops zero iter stream = (true, stream)
    encode_rounds hops (suc rounds) iter stream =
        let next = pb_field_iter_next iter in
        encode_any hops (here iter) (iter.p_data) stream then_write λ after.
        if next.0 then encode_rounds hops rounds (next.1) after else (true, after)

    abbrev pub encode_fields : ℕ → List Field → ℕ → OStream S → Bool × OStream S
    encode_fields hops fields src stream =
        if (pb_field_iter_begin fields src).0
        then encode_rounds hops (suc (length fields)) ((pb_field_iter_begin fields src).1) stream
        else (true, stream)

  -- `pb_encode` with messages nested at most `depth` deep and at most `hops` extensions in a list. At
  -- depth 0 it gives up.
  unfoldable pub pb_encode : ℕ → ℕ → List Field → ℕ → OStream S → Bool × OStream S
  pb_encode hops zero fields src stream = (false, stream)
  pb_encode hops (suc depth) fields src stream =
      encode_fields
        (record {
          encode = pb_encode hops depth;
          is_default = message_is_default (program.memory) (program.message_at) depth;
        })
        hops fields src stream

  abbrev pub at_depth : ℕ → ℕ → Below S
  at_depth hops depth = record {
    encode = pb_encode hops depth;
    is_default = message_is_default (program.memory) (program.message_at) depth;
  }

  unfoldable pub pb_encode_delimited : ℕ → ℕ → List Field → ℕ → OStream S → Bool × OStream S
  pb_encode_delimited hops depth fields src stream =
      pb_encode_submessage program (at_depth hops depth) fields src stream

  unfoldable pub pb_encode_nullterminated : ℕ → ℕ → List Field → ℕ → OStream S → Bool × OStream S
  pb_encode_nullterminated hops depth fields src stream =
      pb_encode hops depth fields src stream then_write λ after. pb_write after (0 ∷ [])

  abbrev pub size_of : Bool × OStream S → Option ℕ
  size_of (false, stream) = none
  size_of (true, stream) = some (stream.bytes_written)

  unfoldable pub pb_get_encoded_size : ℕ → ℕ → List Field → ℕ → Option ℕ
  pb_get_encoded_size hops depth fields src =
      size_of (pb_encode hops depth fields src pb_ostream_sizing)
