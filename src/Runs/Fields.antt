-- ===== src/Runs/Fields.antt =====
-- The theorems about fields of nanopb messages at concrete descriptors.
use on_my_way.Base.{
  ℕ, ◌+◌, ◌≤◌, ◌<◌, ◌≡◌, refl, true, false, ◌⊎◌, inl, inr, Option, some, List, [], ◌∷◌, ◌++◌,
  length, All, String, ◌^◌, ◌*◌, arith, ltb, if◌then◌else◌,
}
use on_my_way.Nanopb.Output.{OStream, pb_write}
use on_my_way.Nanopb.Input.{Source, input, fail_read}
use on_my_way.Nanopb.Field.{Field}
use on_my_way.Nanopb.Encode.{pb_encode_varint}
use on_my_way.Nanopb.Encode.Fields.{pb_enc_varint}
use on_my_way.Nanopb.Decode.Fields.{pb_dec_varint, pb_dec_uvarint}
use on_my_way.Nanopb.Iterator.{FieldIter, here, find_rounds, matches, pb_field_iter_find}
use on_my_way.Nanopb.Iterator.Search.{pb_field_iter_find_exact}
use on_my_way.Nanopb.Numbers.{signed_value, pb_dec_varint-pb_enc_varint, pb_dec_uvarint_exact}

abbrev int32_field : Field
int32_field = record {
  tag = 1;
  type = 0x10;
  data_offset = 4;
  size_offset = 0xfffffffc;
  data_size = 4;
  array_size = 0;
  ptr = 0;
}

abbrev byte_field : Field
byte_field = record {
  tag = 2;
  type = 0x01;
  data_offset = 0;
  size_offset = 0;
  data_size = 1;
  array_size = 0;
  ptr = 0;
}

abbrev second_field : FieldIter
second_field = record {
  start = int32_field ∷ byte_field ∷ [];
  pos = 1;
  required_field_index = 0;
  dest_struct = 4096;
  p_data = 4104;
  p_size = 4104;
}

pb_field_iter_find_exact_example :
    let r = pb_field_iter_find second_field 1 in
    ((rounds : ℕ) → 2 ≤ rounds → find_rounds (matches 1) rounds second_field 1 ≡ some r)
    × (((r.0 ≡ true)
          × (r.1.pos < 2)
          × (r.1.start ≡ int32_field ∷ byte_field ∷ [])
          × (matches 1 (here (r.1)) ≡ true))
        ⊎ ((r.0 ≡ false) × All (λ field. matches 1 field ≡ false) (int32_field ∷ byte_field ∷ [])))
pb_field_iter_find_exact_example =
    pb_field_iter_find_exact second_field 1 ((λ e. omega arith), ((λ e. omega arith), tt))
      (omega arith)

-- The bits of -1 in an int32 field.
pb_dec_varint-pb_enc_varint_example :
    (bs : List ℕ) × ((stream : OStream ℕ)
      → pb_enc_varint stream int32_field 0xffffffff ≡ pb_write stream bs)
    × ((rest : List ℕ) (k : ℕ) (e : Option String)
        → pb_dec_varint {S = ℕ} (input (Source.buffer (bs ++ rest)) (length bs + k) e) int32_field
          ≡ (some (signed_value 4 0xffffffff), input (Source.buffer rest) k e))
pb_dec_varint-pb_enc_varint_example =
    pb_dec_varint-pb_enc_varint int32_field 0xffffffff (inr (inr (inl refl)))

-- 256 is too large for a byte.
pb_dec_uvarint_exact_example :
    (bs : List ℕ) × ((stream : OStream ℕ) → pb_encode_varint stream 256 ≡ pb_write stream bs)
    × ((rest : List ℕ) (k : ℕ) (e : Option String)
        → pb_dec_uvarint {S = ℕ} (input (Source.buffer (bs ++ rest)) (length bs + k) e) byte_field
          ≡ (if ltb 256 (2 ^ (8 * 1))
              then (some 256, input (Source.buffer rest) k e)
              else fail_read (input (Source.buffer rest) k e) "integer too large"))
pb_dec_uvarint_exact_example = pb_dec_uvarint_exact byte_field 256 (omega arith) (inl refl)
