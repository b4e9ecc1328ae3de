-- ===== src/Nanopb/Encode/Fields.antt =====
-- The field encoders pb_enc_varint to pb_enc_fixed_length_bytes of pb_encode.c, without
-- pb_enc_submessage. The memory that `src` points to is given by its bits or its bytes, and a null
-- pointer by `none`.
use on_my_way.Base.{
  ℕ, zero, suc, ◌+◌, ◌-◌, ◌%◌, ◌^◌, Bool, ◌&&◌, Option, none, some, List, [], ◌∷◌, length, eqb, ltb,
  if◌then◌else◌,
}
use on_my_way.Nanopb.Output.{OStream, fail_write}
use on_my_way.Nanopb.Input.{take}
use on_my_way.Nanopb.Field.{Field, pb_atype, pb_atype_static, pb_atype_pointer}
use on_my_way.Nanopb.Encode.{
  pb_encode_varint, pb_encode_svarint, pb_encode_fixed32, pb_encode_fixed64, pb_encode_string,
}

-- A `bits`-bit two's complement, cast to int64_t.
abbrev pub sign_extend : ℕ → ℕ → ℕ
sign_extend bits x =
    if ltb (x % 2 ^ bits) (2 ^ (bits - 1)) then x % 2 ^ bits else x % 2 ^ bits + (2 ^ 64 - 2 ^ bits)

-- The load of a signed integer of `data_size` bytes.
abbrev pub load_signed : ℕ → ℕ → Option ℕ
load_signed data_size x =
    if eqb data_size 1
    then some (sign_extend 8 x)
    else if eqb data_size 2
    then some (sign_extend 16 x)
    else if eqb data_size 4
    then some (sign_extend 32 x)
    else if eqb data_size 8
    then some (sign_extend 64 x)
    else none

abbrev pub load_unsigned : ℕ → ℕ → Option ℕ
load_unsigned data_size x =
    if eqb data_size 1
    then some (x % 2 ^ 8)
    else if eqb data_size 2
    then some (x % 2 ^ 16)
    else if eqb data_size 4
    then some (x % 2 ^ 32)
    else if eqb data_size 8
    then some (x % 2 ^ 64)
    else none

-- `size < max_size && *p != '\0'`, over the characters at `src`.
unfoldable pub text_size : ℕ → List ℕ → ℕ
text_size zero src = 0
text_size (suc room) [] = 0
text_size (suc room) (zero ∷ src) = 0
text_size (suc room) (suc c ∷ src) = suc (text_size room src)

-- The offset of `bytes` in pb_bytes_array_t, behind its 32-bit `size`.
abbrev pub pb_bytes_array_t_allocsize : ℕ → ℕ
pb_bytes_array_t_allocsize n = n + 4

module _ {S : Type 0} where
  unfoldable pub pb_enc_varint : OStream S → Field → ℕ → Bool × OStream S
  pb_enc_varint stream field src = elim (load_signed (field.data_size) src) [
    | none ↦ fail_write stream "invalid data_size"
    | some value ↦ pb_encode_varint stream value
  ]

  unfoldable pub pb_enc_uvarint : OStream S → Field → ℕ → Bool × OStream S
  pb_enc_uvarint stream field src = elim (load_unsigned (field.data_size) src) [
    | none ↦ fail_write stream "invalid data_size"
    | some value ↦ pb_encode_varint stream value
  ]

  unfoldable pub pb_enc_svarint : OStream S → Field → ℕ → Bool × OStream S
  pb_enc_svarint stream field src = elim (load_signed (field.data_size) src) [
    | none ↦ fail_write stream "invalid data_size"
    | some value ↦ pb_encode_svarint stream value
  ]

  unfoldable pub pb_enc_fixed64 : OStream S → Field → ℕ → Bool × OStream S
  pb_enc_fixed64 stream field src = pb_encode_fixed64 stream src

  unfoldable pub pb_enc_fixed32 : OStream S → Field → ℕ → Bool × OStream S
  pb_enc_fixed32 stream field src = pb_encode_fixed32 stream src

  -- The list is the array's `bytes`, as many as its `size` says.
  unfoldable pub pb_enc_bytes : OStream S → Field → Option (List ℕ) → Bool × OStream S
  pb_enc_bytes stream field none = pb_encode_string stream []
  pb_enc_bytes stream field (some bytes) =
      if eqb (pb_atype (field.type)) pb_atype_static
        && ltb (field.data_size) (pb_bytes_array_t_allocsize (length bytes))
      then fail_write stream "bytes size exceeded"
      else pb_encode_string stream bytes

  unfoldable pub pb_enc_string : OStream S → Field → Option (List ℕ) → Bool × OStream S
  pb_enc_string stream field none = pb_encode_string stream []
  pb_enc_string stream field (some src) =
      let max_size =
        if eqb (pb_atype (field.type)) pb_atype_pointer then 2 ^ 64 - 1 else field.data_size in
      pb_encode_string stream (take (text_size max_size src) src)

  unfoldable pub pb_enc_fixed_length_bytes : OStream S → Field → List ℕ → Bool × OStream S
  pb_enc_fixed_length_bytes stream field src = pb_encode_string stream (take (field.data_size) src)
