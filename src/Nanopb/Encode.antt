-- ===== src/Nanopb/Encode.antt =====
-- The wire encoders of pb_encode.c. An integer is given by its bits: an int64_t is the number below
-- 2^64 of its two's complement, and `*(const uint32_t*)value` a number below 2^32.
pub mod Fields
use on_my_way.Base.{
  ℕ, zero, suc, ◌-◌, ◌*◌, ◌/◌, ◌%◌, ◌^◌, Bool, false, ◌||◌, Option, none, some, List, [], ◌∷◌,
  length, eqb, leb, ltb, if◌then◌else◌, bit_and, bit_or,
}
use on_my_way.Nanopb.Output.{OStream, pb_write, ◌then_write◌, fail_write}
use on_my_way.Nanopb.Field.{
  Field, pb_ltype, pb_ltype_varint, pb_ltype_uvarint, pb_ltype_svarint, pb_ltype_fixed32,
  pb_ltype_fixed64, pb_ltype_bytes, pb_ltype_string, pb_ltype_submessage,
  pb_ltype_fixed_length_bytes, pb_wt_varint, pb_wt_64bit, pb_wt_string, pb_wt_32bit,
}

abbrev pub keep_byte : ℕ → Option (List ℕ) → Option (List ℕ)
keep_byte b none = none
keep_byte b (some bs) = some (b ∷ bs)

-- The loop of `pb_encode_varint`: `room` bytes of `buffer[10]` are left, and `none` is a write past
-- its end.
unfoldable pub fill_buffer : ℕ → ℕ → Option (List ℕ)
fill_buffer room zero = some []
fill_buffer zero (suc value) = none
fill_buffer (suc room) (suc value) =
    keep_byte (bit_or (bit_and (suc value) 0x7f) 0x80) (fill_buffer room (suc value / 128))

-- `buffer[i-1] &= 0x7F`.
unfoldable pub unset_last : List ℕ → List ℕ
unset_last [] = []
unset_last (b ∷ []) = bit_and b 0x7f ∷ []
unset_last (b ∷ c ∷ bs) = b ∷ unset_last (c ∷ bs)

-- `~` on 64 bits.
abbrev pub complement64 : ℕ → ℕ
complement64 x = 2 ^ 64 - 1 - x

abbrev pub zigzag : ℕ → ℕ
zigzag value = if leb (2 ^ 63) value then complement64 (value * 2 % 2 ^ 64) else value * 2 % 2 ^ 64

-- `(pb_byte_t)((val >> shift) & 0xFF)`.
abbrev pub byte_at : ℕ → ℕ → ℕ
byte_at val shift = bit_and (val / 2 ^ shift) 0xff

abbrev pub fixed32_bytes : ℕ → List ℕ
fixed32_bytes val = byte_at val 0 ∷ byte_at val 8 ∷ byte_at val 16 ∷ byte_at val 24 ∷ []

abbrev pub fixed64_bytes : ℕ → List ℕ
fixed64_bytes val =
    byte_at val 0
    ∷ byte_at val 8
    ∷ byte_at val 16
    ∷ byte_at val 24
    ∷ byte_at val 32
    ∷ byte_at val 40
    ∷ byte_at val 48
    ∷ byte_at val 56
    ∷ []

-- The switch of `pb_encode_tag_for_field`; `none` is its default case.
abbrev pub wire_type_of : ℕ → Option ℕ
wire_type_of ltype =
    if eqb ltype pb_ltype_varint || eqb ltype pb_ltype_uvarint || eqb ltype pb_ltype_svarint
    then some pb_wt_varint
    else if eqb ltype pb_ltype_fixed32
    then some pb_wt_32bit
    else if eqb ltype pb_ltype_fixed64
    then some pb_wt_64bit
    else if eqb ltype pb_ltype_bytes
        || eqb ltype pb_ltype_string
        || eqb ltype pb_ltype_submessage
        || eqb ltype pb_ltype_fixed_length_bytes
    then some pb_wt_string
    else none

module _ {S : Type 0} where
  abbrev pub write_buffer : OStream S → Option (List ℕ) → Bool × OStream S
  write_buffer stream none = (false, stream)
  write_buffer stream (some buffer) = pb_write stream (unset_last buffer)

  -- A write past `buffer[10]` would be no value of this function; no 64-bit value makes one.
  unfoldable pub pb_encode_varint : OStream S → ℕ → Bool × OStream S
  pb_encode_varint stream value =
      if leb value 0x7f
      then pb_write stream (value ∷ [])
      else write_buffer stream (fill_buffer 10 value)

  unfoldable pub pb_encode_svarint : OStream S → ℕ → Bool × OStream S
  pb_encode_svarint stream value = pb_encode_varint stream (zigzag value)

  unfoldable pub pb_encode_fixed32 : OStream S → ℕ → Bool × OStream S
  pb_encode_fixed32 stream val = pb_write stream (fixed32_bytes val)

  unfoldable pub pb_encode_fixed64 : OStream S → ℕ → Bool × OStream S
  pb_encode_fixed64 stream val = pb_write stream (fixed64_bytes val)

  unfoldable pub pb_encode_tag : OStream S → ℕ → ℕ → Bool × OStream S
  pb_encode_tag stream wiretype field_number =
      pb_encode_varint stream (bit_or (field_number * 2 ^ 3 % 2 ^ 64) wiretype)

  unfoldable pub pb_encode_tag_for_field : OStream S → Field → Bool × OStream S
  pb_encode_tag_for_field stream field = elim (wire_type_of (pb_ltype (field.type))) [
    | none ↦ fail_write stream "invalid field type"
    | some wiretype ↦ pb_encode_tag stream wiretype (field.tag)
  ]

  -- `size` is the length of the buffer.
  unfoldable pub pb_encode_string : OStream S → List ℕ → Bool × OStream S
  pb_encode_string stream buffer =
      pb_encode_varint stream (length buffer) then_write λ rest. pb_write rest buffer
