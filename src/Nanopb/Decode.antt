-- ===== src/Nanopb/Decode.antt =====
-- The wire decoders of pb_decode.c, pb_decode_varint32_eof to pb_close_string_substream and
-- pb_decode_svarint to pb_decode_fixed64, on 64 bits and with an 8-bit uint_fast8_t.
pub mod Fields
use on_my_way.Base.{
  ℕ, zero, suc, ◌+◌, ◌-◌, ◌*◌, ◌/◌, ◌%◌, ◌^◌, Bool, true, false, not, ◌&&◌, ◌||◌, Option, none,
  some, List, [], ◌∷◌, eqb, leb, ltb, if◌then◌else◌, bit_and, bit_or,
}
use on_my_way.Nanopb.Input.{
  IStream, input, ◌>>=◌, fail_read, pb_read, pb_read_null, pb_readbyte, first_byte,
}
use on_my_way.Nanopb.Field.{pb_wt_varint, pb_wt_64bit, pb_wt_string, pb_wt_32bit}
use on_my_way.Nanopb.Encode.{complement64}

abbrev pub more : ℕ → Bool
more byte = not (eqb (bit_and byte 0x80) 0)

abbrev pub sign_extension : ℕ → ℕ
sign_extension bitpos = if ltb bitpos 63 then 0xff else 0x01

-- One byte of the loop of `pb_decode_varint32_eof`: the new `result`, or `none` for an overflow.
abbrev pub add_byte32 : ℕ → ℕ → ℕ → Option ℕ
add_byte32 result bitpos byte =
    if leb 32 bitpos
    then if not (eqb (bit_and byte 0x7f) 0)
        && (eqb (result / 2 ^ 31) 0 || not (eqb byte (sign_extension bitpos)))
      then none
      else some result
    else some (bit_or result (bit_and byte 0x7f * 2 ^ bitpos % 2 ^ 32))

-- `result |= (uint64_t)(byte & 0x7F) << bitpos`.
abbrev pub add_byte64 : ℕ → ℕ → ℕ → ℕ
add_byte64 result bitpos byte = bit_or result (bit_and byte 0x7f * 2 ^ bitpos % 2 ^ 64)

abbrev pub next_bitpos : ℕ → ℕ
next_bitpos bitpos = (bitpos + 7) % 2 ^ 8

-- `bytes[0] << 0 | bytes[1] << 8 | ...`
abbrev pub join32 : List ℕ → ℕ
join32 (b0 ∷ b1 ∷ b2 ∷ b3 ∷ []) =
    bit_or (bit_or (bit_or b0 (b1 * 2 ^ 8)) (b2 * 2 ^ 16)) (b3 * 2 ^ 24 % 2 ^ 32)
join32 _ = 0

abbrev pub join64 : List ℕ → ℕ
join64 (b0 ∷ b1 ∷ b2 ∷ b3 ∷ b4 ∷ b5 ∷ b6 ∷ b7 ∷ []) =
    let low = bit_or (bit_or (bit_or b0 (b1 * 2 ^ 8)) (b2 * 2 ^ 16)) (b3 * 2 ^ 24) in
    bit_or (bit_or (bit_or (bit_or low (b4 * 2 ^ 32)) (b5 * 2 ^ 40)) (b6 * 2 ^ 48))
      (b7 * 2 ^ 56 % 2 ^ 64)
join64 _ = 0

abbrev pub unzigzag : ℕ → ℕ
unzigzag value = if eqb (bit_and value 1) 1 then complement64 (value / 2) else value / 2

module _ {S : Type 0} where
  abbrev pub finish32 : IStream S → ℕ → ℕ → ℕ → Option ℕ × IStream S
  finish32 stream result bitpos byte =
      if eqb bitpos 35 && not (eqb (bit_and byte 0x70) 0)
      then fail_read stream "varint overflow"
      else (some result, stream)

  -- What a round of the loop of `pb_decode_varint32_eof` does with its byte, and the next rounds.
  abbrev pub extend32 :
      (IStream S → ℕ → ℕ → Option ℕ × IStream S)
      → ℕ
      → ℕ
      → IStream S
      → Option ℕ
      → Option ℕ × IStream S
  extend32 again bitpos byte rest none = fail_read rest "varint overflow"
  extend32 again bitpos byte rest (some result) =
      if more byte
      then again rest result (next_bitpos bitpos)
      else finish32 rest result (next_bitpos bitpos) byte

  abbrev pub step32 :
      (IStream S → ℕ → ℕ → Option ℕ × IStream S) → ℕ → ℕ → ℕ × IStream S → Option ℕ × IStream S
  step32 again result bitpos (byte, rest) =
      extend32 again bitpos byte rest (add_byte32 result bitpos byte)

  -- A round takes a byte, so `suc bytes_left` rounds are enough.
  unfoldable pub rounds32 : ℕ → IStream S → ℕ → ℕ → Option ℕ × IStream S
  rounds32 zero stream result bitpos = (none, stream)
  rounds32 (suc fuel) stream result bitpos =
      pb_readbyte stream >>= step32 (rounds32 fuel) result bitpos

  abbrev pub after_first_byte : ℕ × IStream S → Option ℕ × IStream S
  after_first_byte (byte, rest) =
      if more byte
      then rounds32 (suc (rest.bytes_left)) rest (bit_and byte 0x7f) 7
      else (some byte, rest)

  -- `*eof` is set where no byte could be read and none was left.
  abbrev pub at_eof : Option ℕ × IStream S → Bool
  at_eof (none, stream) = eqb (stream.bytes_left) 0
  at_eof (some byte, stream) = false

  unfoldable pub pb_decode_varint32_eof : IStream S → (Option ℕ × IStream S) × Bool
  pb_decode_varint32_eof stream =
      (pb_readbyte stream >>= after_first_byte, at_eof (pb_readbyte stream))

  unfoldable pub pb_decode_varint32 : IStream S → Option ℕ × IStream S
  pb_decode_varint32 stream = (pb_decode_varint32_eof stream).0

  abbrev pub step64 :
      (IStream S → ℕ → ℕ → Option ℕ × IStream S) → ℕ → ℕ → ℕ × IStream S → Option ℕ × IStream S
  step64 again result bitpos (byte, rest) =
      if more byte
      then again rest (add_byte64 result bitpos byte) (next_bitpos bitpos)
      else (some (add_byte64 result bitpos byte), rest)

  -- The loop of `pb_decode_varint`; `bitpos` stops it in its eleventh round.
  unfoldable pub rounds64 : ℕ → IStream S → ℕ → ℕ → Option ℕ × IStream S
  rounds64 zero stream result bitpos = (none, stream)
  rounds64 (suc fuel) stream result bitpos =
      if leb 64 bitpos
      then fail_read stream "varint overflow"
      else pb_readbyte stream >>= step64 (rounds64 fuel) result bitpos

  unfoldable pub pb_decode_varint : IStream S → Option ℕ × IStream S
  pb_decode_varint stream = rounds64 11 stream 0 0

  -- `pb_read(stream, &byte, 1)`.
  abbrev pub read_one : IStream S → Option ℕ × IStream S
  read_one stream = pb_read stream 1 >>= λ (buf, rest). first_byte buf rest

  abbrev pub skip_step : (IStream S → Option ℕ × IStream S) → ℕ × IStream S → Option ℕ × IStream S
  skip_step again (byte, rest) = if more byte then again rest else (some byte, rest)

  -- The loop of `pb_skip_varint`; a round takes a byte.
  unfoldable pub skip_rounds : ℕ → IStream S → Option ℕ × IStream S
  skip_rounds zero stream = (none, stream)
  skip_rounds (suc fuel) stream = read_one stream >>= skip_step (skip_rounds fuel)

  abbrev pub returns : {A : Type 0} → Option A × IStream S → Bool × IStream S
  returns (none, stream) = (false, stream)
  returns (some a, stream) = (true, stream)

  unfoldable pub pb_skip_varint : IStream S → Bool × IStream S
  pb_skip_varint stream = returns (skip_rounds (suc (stream.bytes_left)) stream)

  unfoldable pub pb_skip_string : IStream S → Bool × IStream S
  pb_skip_string stream =
      returns (pb_decode_varint32 stream >>= λ (length, rest). pb_read_null rest length)

  -- The wire type and the tag of a field, and `*eof`.
  abbrev pub split_tag : (Option ℕ × IStream S) × Bool → (Option (ℕ × ℕ) × IStream S) × Bool
  split_tag ((none, stream), eof) = ((none, stream), eof)
  split_tag ((some zero, stream), eof) = ((none, stream), true)
  split_tag ((some (suc temp), stream), eof) =
      ((some (bit_and (suc temp) 7, suc temp / 2 ^ 3), stream), eof)

  unfoldable pub pb_decode_tag : IStream S → (Option (ℕ × ℕ) × IStream S) × Bool
  pb_decode_tag stream = split_tag (pb_decode_varint32_eof stream)

  unfoldable pub pb_skip_field : IStream S → ℕ → Bool × IStream S
  pb_skip_field stream wire_type =
      if eqb wire_type pb_wt_varint
      then pb_skip_varint stream
      else if eqb wire_type pb_wt_64bit
      then returns (pb_read_null stream 8)
      else if eqb wire_type pb_wt_string
      then pb_skip_string stream
      else if eqb wire_type pb_wt_32bit
      then returns (pb_read_null stream 4)
      else returns (fail_read {A = ℕ} stream "invalid wire_type")

  abbrev pub keep_first : ℕ → Option (List ℕ) × IStream S → Option (List ℕ) × IStream S
  keep_first byte (none, stream) = (none, stream)
  keep_first byte (some buf, stream) = (some (byte ∷ buf), stream)

  abbrev pub raw_step :
      (IStream S → Option (List ℕ) × IStream S) → ℕ × IStream S → Option (List ℕ) × IStream S
  raw_step again (byte, rest) =
      if more byte then keep_first byte (again rest) else (some (byte ∷ []), rest)

  -- The varint case of `read_raw_value`, with `room` bytes of `max_size` left.
  unfoldable pub raw_rounds : ℕ → IStream S → Option (List ℕ) × IStream S
  raw_rounds zero stream = (none, stream)
  raw_rounds (suc room) stream = read_one stream >>= raw_step (raw_rounds room)

  -- `*size` is the length of the list.
  unfoldable pub read_raw_value : IStream S → ℕ → ℕ → Option (List ℕ) × IStream S
  read_raw_value stream wire_type max_size =
      if eqb wire_type pb_wt_varint
      then raw_rounds max_size stream
      else if eqb wire_type pb_wt_64bit
      then pb_read stream 8
      else if eqb wire_type pb_wt_32bit
      then pb_read stream 4
      else fail_read stream "invalid wire_type"

  -- The substream, and the parent.
  unfoldable pub pb_make_string_substream : IStream S → Option (IStream S) × IStream S
  pb_make_string_substream stream = pb_decode_varint32 stream >>= λ (size, rest).
      if ltb (rest.bytes_left) size then fail_read rest "parent stream too short" else (
        some (input (rest.source) size (rest.errmsg)),
        input (rest.source) (rest.bytes_left - size) (rest.errmsg),
      )

  abbrev pub skip_left : IStream S → Bool × IStream S
  skip_left substream =
      if eqb (substream.bytes_left) 0
      then (true, substream)
      else returns (pb_read_null substream (substream.bytes_left))

  abbrev pub hand_back : IStream S → Bool × IStream S → Bool × IStream S
  hand_back stream (false, substream) = (false, stream)
  hand_back stream (true, substream) =
      (true, input (substream.source) (stream.bytes_left) (substream.errmsg))

  -- The result is the parent; the substream is not used again.
  unfoldable pub pb_close_string_substream : IStream S → IStream S → Bool × IStream S
  pb_close_string_substream stream substream = hand_back stream (skip_left substream)

  unfoldable pub pb_decode_svarint : IStream S → Option ℕ × IStream S
  pb_decode_svarint stream =
      pb_decode_varint stream >>= λ (value, rest). (some (unzigzag value), rest)

  unfoldable pub pb_decode_fixed32 : IStream S → Option ℕ × IStream S
  pb_decode_fixed32 stream = pb_read stream 4 >>= λ (bytes, rest). (some (join32 bytes), rest)

  unfoldable pub pb_decode_fixed64 : IStream S → Option ℕ × IStream S
  pb_decode_fixed64 stream = pb_read stream 8 >>= λ (bytes, rest). (some (join64 bytes), rest)
