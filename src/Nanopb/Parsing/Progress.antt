-- ===== src/Nanopb/Parsing/Progress.antt =====
-- What pb_decode_noinit of pb_decode.c keeps between the fields: the required fields that it has seen.
use on_my_way.Base.{
  ℕ, zero, suc, ◌-◌, ◌/◌, ◌%◌, ◌^◌, Bool, not, ◌&&◌, ◌||◌, Option, length, eqb, leb, ltb, bit_or,
  if◌then◌else◌,
}
use on_my_way.Nanopb.Field.{pb_htype, pb_htype_required}
use on_my_way.Nanopb.Iterator.{FieldIter, here, pb_field_iter_next}

-- The variables of `pb_decode_noinit`: `fields_seen` has two words, and `fixed_count_field` the index
-- of the field. `fixed_count_size` lies in the memory.
pub record Progress : Type 0 where
  pub iter : FieldIter
  pub fields_seen : ℕ × ℕ
  pub extension_range_start : ℕ
  pub fixed_count_field : Option ℕ

abbrev pub pb_max_required_fields : ℕ
pb_max_required_fields = 64

abbrev pub allbits : ℕ
allbits = 2 ^ 32 - 1

abbrev pub word_at : ℕ × ℕ → ℕ → ℕ
word_at (low, high) i = if eqb i 0 then low else high

-- `fields_seen[index >> 5] |= 1 << (index & 31)`
abbrev pub mark_seen : ℕ × ℕ → ℕ → ℕ × ℕ
mark_seen (low, high) index =
    if eqb (index / 2 ^ 5) 0
    then (bit_or low (2 ^ (index % 32)), high)
    else (low, bit_or high (2 ^ (index % 32)))

abbrev pub with_iter : Progress → FieldIter → Progress
with_iter progress iter = record {
  iter = iter;
  fields_seen = progress.fields_seen;
  extension_range_start = progress.extension_range_start;
  fixed_count_field = progress.fixed_count_field;
}

-- A required field is marked.
abbrev pub mark_required : Progress → Progress
mark_required progress =
    let iter = progress.iter in
    if eqb (pb_htype ((here iter).type)) pb_htype_required
      && ltb (iter.required_field_index) pb_max_required_fields
    then record {
      iter = iter;
      fields_seen = mark_seen (progress.fields_seen) (iter.required_field_index);
      extension_range_start = progress.extension_range_start;
      fixed_count_field = progress.fixed_count_field;
    }
    else progress

-- The whole words before the last, and the remaining bits.
abbrev pub seen_all : ℕ × ℕ → ℕ → Bool
seen_all fields_seen count =
    (leb (count / 2 ^ 5) 0 || eqb (word_at fields_seen 0) allbits)
    && (leb (count / 2 ^ 5) 1 || eqb (word_at fields_seen 1) allbits)
    && (eqb (count % 32) 0
        || eqb (word_at fields_seen (count / 2 ^ 5)) (allbits / 2 ^ (32 - count % 32)))

-- The loop that seeks the end of the descriptors: the number of required fields before the last
-- field, the type of the last field, and the iterator.
unfoldable pub seek_end : ℕ → FieldIter → ℕ × ℕ × FieldIter
seek_end zero iter = (iter.required_field_index, (here iter).type, iter)
seek_end (suc rounds) iter =
    let next = pb_field_iter_next iter in
    let rest = seek_end rounds (next.1) in
    if next.0 then rest else (iter.required_field_index, (here iter).type, next.1)

abbrev pub required_count : ℕ × ℕ × FieldIter → ℕ
required_count (before, last_type, iter) =
    let count =
      if eqb (pb_htype last_type) pb_htype_required && not (eqb ((here iter).tag) 0)
      then suc before
      else before in
    if ltb pb_max_required_fields count then pb_max_required_fields else count

abbrev pub has_required : Progress → Bool
has_required progress =
    let iter = progress.iter in
    seen_all (progress.fields_seen) (required_count (seek_end (suc (length (iter.start))) iter))
