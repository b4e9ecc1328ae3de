-- ===== src/Nanopb/Steady/Fields.antt =====
-- The wire encoders and the field encoders of pb_encode.c write the same bytes to every stream.
use on_my_way.Base.{
  ℕ, ◌*◌, ◌%◌, ◌^◌, ◌<◌, Bool, ◌&&◌, Option, none, some, List, [], ◌∷◌, length, eqb, leb, ltb,
  String, bit_or,
}
use on_my_way.Nanopb.Output.{OStream, fail_write, pb_write}
use on_my_way.Nanopb.Field.{Field, pb_ltype, pb_atype, pb_atype_static}
use on_my_way.Nanopb.Encode.{
  pb_encode_varint, pb_encode_svarint, pb_encode_tag, pb_encode_tag_for_field, pb_encode_string,
  pb_encode_fixed32, pb_encode_fixed64, zigzag, wire_type_of, fixed32_bytes, fixed64_bytes,
  fill_buffer, write_buffer, unset_last,
}
use on_my_way.Nanopb.Encode.Fields.{
  load_signed, load_unsigned, pb_enc_varint, pb_enc_uvarint, pb_enc_svarint, pb_enc_fixed32,
  pb_enc_fixed64, pb_enc_bytes, pb_enc_string, pb_enc_fixed_length_bytes,
  pb_bytes_array_t_allocsize,
}
use on_my_way.Nanopb.Varint.{varint, pb_encode_varint-write}
use on_my_way.Nanopb.Steady.{
  Writes, IsSteady, pb_write-Writes, Writes-same, then-IsSteady, fail-IsSteady, stop-IsSteady,
  if-IsSteady,
}

module _ {S : Type 0} where
  pub pb_write-IsSteady : (bs : List ℕ) → IsSteady {S = S} (λ stream. pb_write stream bs)
  pb_write-IsSteady bs = IsSteady.writes bs (pb_write-Writes bs)

  write_buffer-IsSteady : (o : Option (List ℕ)) → IsSteady {S = S} (λ stream. write_buffer stream o)
  write_buffer-IsSteady none = stop-IsSteady
  write_buffer-IsSteady (some buffer) = pb_write-IsSteady (unset_last buffer)

  pub varint-IsSteady : (v : ℕ) → IsSteady {S = S} (λ stream. pb_encode_varint stream v)
  unfolding pb_encode_varint
  varint-IsSteady v =
      if-IsSteady (leb v 0x7f) (λ stream. pb_write stream (v ∷ []))
        (λ stream. write_buffer stream (fill_buffer 10 v)) (pb_write-IsSteady (v ∷ []))
        (write_buffer-IsSteady (fill_buffer 10 v))

  pub varint-Writes :
      (v : ℕ) → v < 2 ^ 64 → Writes {S = S} (λ stream. pb_encode_varint stream v) (varint 10 v)
  varint-Writes v h =
      Writes-same (λ stream. pb_encode_varint stream v) (λ stream. pb_write stream (varint 10 v))
        (varint 10 v) (λ stream. pb_encode_varint-write stream v h) (pb_write-Writes (varint 10 v))

  svarint-IsSteady : (v : ℕ) → IsSteady {S = S} (λ stream. pb_encode_svarint stream v)
  unfolding pb_encode_svarint
  svarint-IsSteady v = varint-IsSteady (zigzag v)

  pub tag-IsSteady : (wt n : ℕ) → IsSteady {S = S} (λ stream. pb_encode_tag stream wt n)
  unfolding pb_encode_tag
  tag-IsSteady wt n = varint-IsSteady (bit_or (n * 2 ^ 3 % 2 ^ 64) wt)

  -- A write of the value, where there is one.
  option-IsSteady :
      (message : String) (enc : ℕ → OStream S → Bool × OStream S)
      → ((v : ℕ) → IsSteady (enc v))
      → (o : Option ℕ)
      → IsSteady {S = S}
          λ stream. elim o [ none ↦ fail_write stream message | some v ↦ enc v stream ]
  option-IsSteady message enc steady none = fail-IsSteady message
  option-IsSteady message enc steady (some v) = steady v

  pub tag_for_field-IsSteady :
      (field : Field) → IsSteady {S = S} (λ stream. pb_encode_tag_for_field stream field)
  unfolding pb_encode_tag_for_field
  tag_for_field-IsSteady field =
      option-IsSteady "invalid field type" (λ wt stream. pb_encode_tag stream wt (field.tag))
        (λ wt. tag-IsSteady wt (field.tag)) (wire_type_of (pb_ltype (field.type)))

  string-IsSteady : (bytes : List ℕ) → IsSteady {S = S} (λ stream. pb_encode_string stream bytes)
  unfolding pb_encode_string
  string-IsSteady bytes =
      then-IsSteady (λ stream. pb_encode_varint stream (length bytes))
        (λ stream. pb_write stream bytes) (varint-IsSteady (length bytes)) (pb_write-IsSteady bytes)

  module _ (field : Field) where
    pub pb_enc_varint-IsSteady :
        (src : ℕ) → IsSteady {S = S} (λ stream. pb_enc_varint stream field src)
    unfolding pb_enc_varint
    pb_enc_varint-IsSteady src =
        option-IsSteady "invalid data_size" (λ v stream. pb_encode_varint stream v) varint-IsSteady
          (load_signed (field.data_size) src)

    pub pb_enc_uvarint-IsSteady :
        (src : ℕ) → IsSteady {S = S} (λ stream. pb_enc_uvarint stream field src)
    unfolding pb_enc_uvarint
    pb_enc_uvarint-IsSteady src =
        option-IsSteady "invalid data_size" (λ v stream. pb_encode_varint stream v) varint-IsSteady
          (load_unsigned (field.data_size) src)

    pub pb_enc_svarint-IsSteady :
        (src : ℕ) → IsSteady {S = S} (λ stream. pb_enc_svarint stream field src)
    unfolding pb_enc_svarint
    pb_enc_svarint-IsSteady src =
        option-IsSteady "invalid data_size" (λ v stream. pb_encode_svarint stream v)
          svarint-IsSteady (load_signed (field.data_size) src)

    pub pb_enc_fixed32-Writes :
        (src : ℕ) → Writes {S = S} (λ stream. pb_enc_fixed32 stream field src) (fixed32_bytes src)
    unfolding pb_enc_fixed32 pb_encode_fixed32
    pb_enc_fixed32-Writes src = pb_write-Writes (fixed32_bytes src)

    pub pb_enc_fixed64-Writes :
        (src : ℕ) → Writes {S = S} (λ stream. pb_enc_fixed64 stream field src) (fixed64_bytes src)
    unfolding pb_enc_fixed64 pb_encode_fixed64
    pb_enc_fixed64-Writes src = pb_write-Writes (fixed64_bytes src)

    pub pb_enc_bytes-IsSteady :
        (src : Option (List ℕ)) → IsSteady {S = S} (λ stream. pb_enc_bytes stream field src)
    unfolding pb_enc_bytes
    pb_enc_bytes-IsSteady none = string-IsSteady []
    pb_enc_bytes-IsSteady (some bytes) =
        if-IsSteady
          (eqb (pb_atype (field.type)) pb_atype_static
            && ltb (field.data_size) (pb_bytes_array_t_allocsize (length bytes)))
          (λ stream. fail_write stream "bytes size exceeded")
          (λ stream. pb_encode_string stream bytes) (fail-IsSteady "bytes size exceeded")
          (string-IsSteady bytes)

    pub pb_enc_string-IsSteady :
        (src : Option (List ℕ)) → IsSteady {S = S} (λ stream. pb_enc_string stream field src)
    unfolding pb_enc_string
    pb_enc_string-IsSteady none = string-IsSteady []
    pb_enc_string-IsSteady (some src) = string-IsSteady _

    pub pb_enc_fixed_length_bytes-IsSteady :
        (src : List ℕ) → IsSteady {S = S} (λ stream. pb_enc_fixed_length_bytes stream field src)
    unfolding pb_enc_fixed_length_bytes
    pb_enc_fixed_length_bytes-IsSteady src = string-IsSteady _
