-- ===== src/Nanopb/Iterator.antt =====
-- The iterator of pb_common.c over the fields of a message. An address is a number below 2^64, and
-- a size offset is the 32-bit two's complement of a signed number.
pub mod Rounds
pub mod Search
use on_my_way.Base.{
  ℕ, zero, suc, ◌+◌, ◌*◌, ◌%◌, ◌^◌, Bool, true, false, not, ◌&&◌, Option, none, some, List, [], ◌∷◌,
  length, eqb, if◌then◌else◌,
}
use on_my_way.Nanopb.Field.{
  Field, pb_ltype, pb_htype, pb_atype, pb_ltype_extension, pb_htype_required, pb_htype_repeated,
  pb_htype_oneof, pb_atype_static, pb_atype_pointer, pb_size_max,
}
use on_my_way.Nanopb.Encode.Fields.{sign_extend}

-- `fields` is the array at `start` without the terminator that ends it, and `pos` an index in it.
pub record FieldIter : Type 0 where
  pub start : List Field
  pub pos : ℕ
  pub required_field_index : ℕ
  pub dest_struct : ℕ
  pub p_data : ℕ
  pub p_size : ℕ

abbrev pub terminator : Field
terminator = record {
  tag = 0;
  type = 0;
  data_offset = 0;
  size_offset = 0;
  data_size = 0;
  array_size = 0;
  ptr = 0;
}

abbrev pub field_at : List Field → ℕ → Field
field_at [] i = terminator
field_at (field ∷ fields) zero = field
field_at (field ∷ fields) (suc i) = field_at fields i

abbrev pub here : FieldIter → Field
here iter = field_at (iter.start) (iter.pos)

abbrev pub address : ℕ → ℕ → ℕ
address base offset = (base + offset) % 2 ^ 64

abbrev pub begin_at : List Field → ℕ → FieldIter
begin_at fields dest_struct = record {
  start = fields;
  pos = 0;
  required_field_index = 0;
  dest_struct = dest_struct;
  p_data = address dest_struct ((field_at fields 0).data_offset);
  p_size =
      address (address dest_struct ((field_at fields 0).data_offset))
        (sign_extend 32 ((field_at fields 0).size_offset));
}

unfoldable pub pb_field_iter_begin : List Field → ℕ → Bool × FieldIter
pb_field_iter_begin fields dest_struct =
    (not (eqb ((field_at fields 0).tag) 0), begin_at fields dest_struct)

-- How far the pointers move from one field to the next, before `data_offset`.
abbrev pub prev_size_of : Field → ℕ
prev_size_of prev =
    if eqb (pb_atype (prev.type)) pb_atype_static && eqb (pb_htype (prev.type)) pb_htype_repeated
    then (prev.data_size) * (prev.array_size)
    else if eqb (pb_atype (prev.type)) pb_atype_pointer
    then 8
    else prev.data_size

abbrev pub stays_in_union : Field → Field → Bool
stays_in_union prev next =
    eqb (pb_htype (prev.type)) pb_htype_oneof
    && eqb (pb_htype (next.type)) pb_htype_oneof
    && eqb (next.data_offset) pb_size_max

-- The iterator on the next field, whose pointers are not moved yet.
abbrev pub step_pos : FieldIter → FieldIter
step_pos iter = record {
  start = iter.start;
  pos = suc (iter.pos);
  required_field_index = iter.required_field_index;
  dest_struct = iter.dest_struct;
  p_data = iter.p_data;
  p_size = iter.p_size;
}

abbrev pub move_pointers : FieldIter → Field → Field → FieldIter
move_pointers iter prev next =
    let moved = address (iter.p_data) (prev_size_of prev + (next.data_offset)) in
    record {
      start = iter.start;
      pos = suc (iter.pos);
      required_field_index =
          if eqb (pb_htype (prev.type)) pb_htype_required
          then suc (iter.required_field_index)
          else iter.required_field_index;
      dest_struct = iter.dest_struct;
      p_data = moved;
      p_size = address moved (sign_extend 32 (next.size_offset));
    }

unfoldable pub pb_field_iter_next : FieldIter → Bool × FieldIter
pb_field_iter_next iter =
    let next = field_at (iter.start) (suc (iter.pos)) in
    if eqb ((here iter).tag) 0
    then (false, iter)
    else if eqb (next.tag) 0
    then (false, begin_at (iter.start) (iter.dest_struct))
    else if stays_in_union (here iter) next
    then (true, step_pos iter)
    else (true, move_pointers iter (here iter) next)

abbrev pub matches : ℕ → Field → Bool
matches tag field = eqb (field.tag) tag && not (eqb (pb_ltype (field.type)) pb_ltype_extension)

-- The loop of `pb_field_iter_find`, and of `find_extension_field` of pb_decode.c, with its test: what
-- it ends with if it does within `fuel` rounds.
unfoldable pub find_rounds : (Field → Bool) → ℕ → FieldIter → ℕ → Option (Bool × FieldIter)
find_rounds test zero iter start = none
find_rounds test (suc fuel) iter start =
    let next = (pb_field_iter_next iter).1 in
    let rest = find_rounds test fuel next start in
    if test (here iter)
    then some (true, iter)
    else if eqb (next.pos) start
    then some (false, next)
    else rest

-- The result of the loop; its fuel is a round for each field and one more.
abbrev pub ended : FieldIter → Option (Bool × FieldIter) → Bool × FieldIter
ended iter none = (false, iter)
ended iter (some r) = r

unfoldable pub pb_field_iter_find : FieldIter → ℕ → Bool × FieldIter
pb_field_iter_find iter tag =
    ended iter (find_rounds (matches tag) (suc (length (iter.start))) iter (iter.pos))

abbrev pub is_extension : Field → Bool
is_extension field = eqb (pb_ltype (field.type)) pb_ltype_extension

-- Of pb_decode.c.
unfoldable pub find_extension_field : FieldIter → Bool × FieldIter
find_extension_field iter =
    ended iter (find_rounds is_extension (suc (length (iter.start))) iter (iter.pos))
