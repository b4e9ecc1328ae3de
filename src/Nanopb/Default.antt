-- ===== src/Nanopb/Default.antt =====
-- pb_check_proto3_default_value of pb_encode.c: whether a field has the value that proto3 leaves
-- out. The check of a submessage's fields is an argument, and `message_is_default` ties the knot
-- down to a depth.
use on_my_way.Base.{ℕ, zero, suc, Bool, true, false, not, ◌&&◌, List, length, eqb, if◌then◌else◌}
use on_my_way.Nanopb.Memory.{Memory, load_size, load_bool}
use on_my_way.Nanopb.Field.{
  Field, pb_ltype, pb_htype, pb_atype, pb_ltype_bytes, pb_ltype_string, pb_ltype_submessage,
  pb_ltype_fixed_length_bytes, pb_htype_required, pb_htype_optional, pb_htype_repeated,
  pb_htype_oneof, pb_atype_static,
}
use on_my_way.Nanopb.Encode.Fields.{sign_extend}
use on_my_way.Nanopb.Iterator.{FieldIter, here, address, pb_field_iter_begin, pb_field_iter_next}

-- `(const char*)pData + field->size_offset`
abbrev pub size_address : Field → ℕ → ℕ
size_address field p_data = address p_data (sign_extend 32 (field.size_offset))

module _ (memory : Memory) (message_at : ℕ → List Field) where
  unfoldable pub all_zero : ℕ → ℕ → Bool
  all_zero zero p = true
  all_zero (suc count) p = not (load_bool memory p) && all_zero count (suc p)

  module _ (fields_default : List Field → ℕ → Bool) where
    -- The part for static fields, and the comparison with zero bytes.
    abbrev pub static_is_default : Field → ℕ → Bool
    static_is_default field p_data =
        let ltype = pb_ltype (field.type) in
        if eqb ltype pb_ltype_bytes
        then eqb (load_size memory p_data) 0
        else if eqb ltype pb_ltype_string
        then not (load_bool memory p_data)
        else if eqb ltype pb_ltype_fixed_length_bytes
        then eqb (field.data_size) 0
        else if eqb ltype pb_ltype_submessage
        then fields_default (message_at (field.ptr)) p_data
        else all_zero (field.data_size) p_data

    unfoldable pub pb_check_proto3_default_value : Field → ℕ → Bool
    pb_check_proto3_default_value field p_data =
        let htype = pb_htype (field.type) in
        let p_size = size_address field p_data in
        if eqb htype pb_htype_required
        then false
        else if eqb htype pb_htype_repeated
        then eqb (load_size memory p_size) 0
        else if eqb htype pb_htype_oneof
        then eqb (load_size memory p_size) 0
        else if eqb htype pb_htype_optional && not (eqb (field.size_offset) 0)
        then not (load_bool memory p_size)
        else if eqb (pb_atype (field.type)) pb_atype_static
        then static_is_default field p_data
        else all_zero (field.data_size) p_data

    -- The loop over the fields of a submessage; a round moves on by a field.
    unfoldable pub default_rounds : ℕ → FieldIter → Bool
    default_rounds zero iter = true
    default_rounds (suc rounds) iter =
        let next = pb_field_iter_next iter in
        let rest = default_rounds rounds (next.1) in
        if not (pb_check_proto3_default_value (here iter) (iter.p_data))
        then false
        else if next.0
        then rest
        else true

    abbrev pub check_fields : List Field → ℕ → Bool
    check_fields fields p_data =
        if (pb_field_iter_begin fields p_data).0
        then default_rounds (suc (length fields)) ((pb_field_iter_begin fields p_data).1)
        else true

  -- At depth 0 the check does not pass, and the submessage is left to the encoder, which gives up.
  unfoldable pub message_is_default : ℕ → List Field → ℕ → Bool
  message_is_default zero fields p_data = false
  message_is_default (suc depth) fields p_data =
      check_fields (message_is_default depth) fields p_data
