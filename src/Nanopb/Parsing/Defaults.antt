-- ===== src/Nanopb/Parsing/Defaults.antt =====
-- iter_from_extension, pb_field_set_to_default and pb_message_set_to_defaults of pb_decode.c.
use on_my_way.Base.{ℕ, zero, suc, Bool, not, ◌&&◌, ◌||◌, List, length, eqb, if◌then◌else◌}
use on_my_way.Nanopb.Memory.{
  Memory, load_pointer, store_byte, store_pointer, store_size, memset_zero, memcpy,
  extension_dest_offset, extension_next_offset, extension_found_offset, type_arg_offset,
}
use on_my_way.Nanopb.Field.{
  Field, pb_ltype, pb_htype, pb_atype, pb_ltype_submessage, pb_ltype_extension, pb_htype_optional,
  pb_htype_repeated, pb_htype_oneof, pb_atype_static, pb_atype_pointer,
}
use on_my_way.Nanopb.Iterator.{
  FieldIter, field_at, here, address, pb_field_iter_begin, pb_field_iter_next,
}

module _ (message_at : ℕ → List Field) where
  -- `extension->type->arg`
  abbrev pub fields_of_extension : Memory → ℕ → List Field
  fields_of_extension memory extension =
      message_at (load_pointer memory (address (load_pointer memory extension) type_arg_offset))

  abbrev pub iter_from_extension : Memory → ℕ → FieldIter
  iter_from_extension memory extension =
      let fields = fields_of_extension memory extension in
      let dest = load_pointer memory (address extension extension_dest_offset) in
      record {
        start = fields;
        pos = 0;
        required_field_index = 0;
        dest_struct = dest;
        p_data =
            if eqb (pb_atype ((field_at fields 0).type)) pb_atype_pointer
            then address extension extension_dest_offset
            else dest;
        p_size = address extension extension_found_offset;
      }

  module _ (set_field : FieldIter → Memory → Memory) where
    -- The loop of `pb_message_set_to_defaults`; a round moves on by a field.
    unfoldable pub reset_rounds : ℕ → FieldIter → Memory → Memory
    reset_rounds zero iter memory = memory
    reset_rounds (suc rounds) iter memory =
        let next = pb_field_iter_next iter in
        if next.0
        then reset_rounds rounds (next.1) (set_field iter memory)
        else set_field iter memory

    abbrev pub reset_message : List Field → ℕ → Memory → Memory
    reset_message fields dest_struct memory =
        if (pb_field_iter_begin fields dest_struct).0
        then reset_rounds (suc (length fields)) ((pb_field_iter_begin fields dest_struct).1) memory
        else memory

    -- The loop over the linked list of extensions, of at most `hops` members.
    unfoldable pub reset_extensions : ℕ → ℕ → Memory → Memory
    reset_extensions zero extension memory = memory
    reset_extensions (suc hops) extension memory =
        let not_found = store_byte memory (address extension extension_found_offset) 0 in
        let after = set_field (iter_from_extension not_found extension) not_found in
        if eqb extension 0
        then memory
        else reset_extensions hops (load_pointer after (address extension extension_next_offset))
            after

    -- The data of a static field.
    abbrev pub init_data : FieldIter → Memory → Memory
    init_data iter memory =
        let field = here iter in
        if eqb (pb_ltype (field.type)) pb_ltype_submessage
        then reset_message (message_at (field.ptr)) (iter.p_data) memory
        else if not (eqb (field.ptr) 0)
        then memcpy memory (iter.p_data) (field.ptr) (field.data_size)
        else memset_zero memory (iter.p_data) (field.data_size)

    abbrev pub counts_entries : Field → Bool
    counts_entries field =
        eqb (pb_htype (field.type)) pb_htype_repeated || eqb (pb_htype (field.type)) pb_htype_oneof

    abbrev pub reset_static : FieldIter → Memory → Memory
    reset_static iter memory =
        let field = here iter in
        if eqb (pb_htype (field.type)) pb_htype_optional && not (eqb (iter.p_size) (iter.p_data))
        then init_data iter (store_byte memory (iter.p_size) 0)
        else if counts_entries field
        then store_size memory (iter.p_size) 0
        else init_data iter memory

    abbrev pub reset_pointer : FieldIter → Memory → Memory
    reset_pointer iter memory =
        let cleared = store_pointer memory (iter.p_data) 0 in
        if counts_entries (here iter) then store_size cleared (iter.p_size) 0 else cleared

    abbrev pub reset_by_type : ℕ → FieldIter → Memory → Memory
    reset_by_type hops iter memory =
        let field = here iter in
        if eqb (pb_ltype (field.type)) pb_ltype_extension
        then reset_extensions hops (load_pointer memory (iter.p_data)) memory
        else if eqb (pb_atype (field.type)) pb_atype_static
        then reset_static iter memory
        else if eqb (pb_atype (field.type)) pb_atype_pointer
        then reset_pointer iter memory
        else memory

  -- Messages are nested at most `depth` deep.
  unfoldable pub pb_field_set_to_default : ℕ → ℕ → FieldIter → Memory → Memory
  pb_field_set_to_default hops zero iter memory = memory
  pb_field_set_to_default hops (suc depth) iter memory =
      reset_by_type (pb_field_set_to_default hops depth) hops iter memory

  abbrev pub pb_message_set_to_defaults : ℕ → ℕ → List Field → ℕ → Memory → Memory
  pb_message_set_to_defaults hops depth fields dest_struct memory =
      reset_message (pb_field_set_to_default hops depth) fields dest_struct memory
