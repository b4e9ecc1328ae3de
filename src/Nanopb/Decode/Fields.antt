-- ===== src/Nanopb/Decode/Fields.antt =====
-- The field decoders pb_dec_varint to pb_dec_fixed_length_bytes of pb_decode.c for static fields,
-- without pb_dec_submessage. The result is what they store at `dest`; what they have stored there
-- when they fail is left out.
use on_my_way.Base.{
  ℕ, zero, suc, ◌+◌, ◌%◌, ◌^◌, Option, none, some, List, [], ◌∷◌, eqb, ltb, if◌then◌else◌,
}
use on_my_way.Nanopb.Input.{IStream, ◌>>=◌, fail_read, pb_read}
use on_my_way.Nanopb.Field.{Field, pb_size_max}
use on_my_way.Nanopb.Decode.{
  pb_decode_varint, pb_decode_varint32, pb_decode_svarint, pb_decode_fixed32, pb_decode_fixed64,
}
use on_my_way.Nanopb.Encode.Fields.{sign_extend, load_unsigned, pb_bytes_array_t_allocsize}

-- `clamped = *(intN_t*)dest = (intN_t)svalue`, by the size of the field.
abbrev pub clamp_signed : ℕ → ℕ → Option ℕ
clamp_signed data_size svalue =
    if eqb data_size 8
    then some svalue
    else if eqb data_size 4
    then some (sign_extend 32 svalue)
    else if eqb data_size 2
    then some (sign_extend 16 svalue)
    else if eqb data_size 1
    then some (sign_extend 8 svalue)
    else none

abbrev pub zeros : ℕ → List ℕ
zeros zero = []
zeros (suc n) = 0 ∷ zeros n

module _ {S : Type 0} where
  abbrev pub check_clamped : ℕ → Option ℕ → IStream S → Option ℕ × IStream S
  check_clamped value none stream = fail_read stream "invalid data_size"
  check_clamped value (some clamped) stream =
      if eqb clamped value then (some clamped, stream) else fail_read stream "integer too large"

  unfoldable pub pb_dec_varint : IStream S → Field → Option ℕ × IStream S
  pb_dec_varint stream field = pb_decode_varint stream >>= λ (value, rest).
      let svalue = if eqb (field.data_size) 8 then value else sign_extend 32 value in
      check_clamped svalue (clamp_signed (field.data_size) svalue) rest

  unfoldable pub pb_dec_uvarint : IStream S → Field → Option ℕ × IStream S
  pb_dec_uvarint stream field = pb_decode_varint stream >>= λ (value, rest).
      check_clamped value (load_unsigned (field.data_size) value) rest

  unfoldable pub pb_dec_svarint : IStream S → Field → Option ℕ × IStream S
  pb_dec_svarint stream field = pb_decode_svarint stream >>= λ (value, rest).
      check_clamped value (clamp_signed (field.data_size) value) rest

  unfoldable pub pb_dec_fixed32 : IStream S → Field → Option ℕ × IStream S
  pb_dec_fixed32 stream field = pb_decode_fixed32 stream

  unfoldable pub pb_dec_fixed64 : IStream S → Field → Option ℕ × IStream S
  pb_dec_fixed64 stream field = pb_decode_fixed64 stream

  -- `alloc_size` is a size_t, which a 32-bit size and the header never overflow.
  unfoldable pub pb_dec_bytes : IStream S → Field → Option (List ℕ) × IStream S
  pb_dec_bytes stream field = pb_decode_varint32 stream >>= λ (size, rest).
      if ltb pb_size_max size
      then fail_read rest "bytes overflow"
      else if ltb (pb_bytes_array_t_allocsize size) size
      then fail_read rest "size too large"
      else if ltb (field.data_size) (pb_bytes_array_t_allocsize size)
      then fail_read rest "bytes overflow"
      else pb_read rest size

  -- `size + 1` wraps on 32 bits. The terminator that the code adds is left out of the list.
  unfoldable pub pb_dec_string : IStream S → Field → Option (List ℕ) × IStream S
  pb_dec_string stream field = pb_decode_varint32 stream >>= λ (size, rest).
      let alloc_size = (size + 1) % 2 ^ 32 in
      if ltb alloc_size size
      then fail_read rest "size too large"
      else if ltb (field.data_size) alloc_size
      then fail_read rest "string overflow"
      else pb_read rest size

  unfoldable pub pb_dec_fixed_length_bytes : IStream S → Field → Option (List ℕ) × IStream S
  pb_dec_fixed_length_bytes stream field = pb_decode_varint32 stream >>= λ (size, rest).
      if ltb pb_size_max size
      then fail_read rest "bytes overflow"
      else if eqb size 0
      then (some (zeros (field.data_size)), rest)
      else if eqb size (field.data_size)
      then pb_read rest (field.data_size)
      else fail_read rest "incorrect fixed length bytes size"
