-- ===== src/Runs/Messages.antt =====
-- The theorems about whole nanopb messages at a struct with a number, a packed array, a submessage
-- and a callback.
use on_my_way.Base.{
  ℕ, ◌+◌, ◌%◌, ◌^◌, ◌≤◌, ◌<◌, ◌≡◌, refl, Bool, true, false, ◌⊎◌, Option, none, some, List, [], ◌∷◌,
  ◌++◌, length, String, arith, eqb, if◌then◌else◌,
}
use on_my_way.Nanopb.Output.{Sink, out, pb_ostream_from_buffer, pb_write}
use on_my_way.Nanopb.Input.{Source, input}
use on_my_way.Nanopb.Decode.{pb_make_string_substream}
use on_my_way.Nanopb.Field.{Field}
use on_my_way.Nanopb.Memory.{load}
use on_my_way.Nanopb.Iterator.{pb_field_iter_begin, pb_field_iter_next}
use on_my_way.Nanopb.Encode.{
  fill_buffer, unset_last, pb_encode_varint, pb_encode_tag, pb_encode_tag_for_field,
}
use on_my_way.Nanopb.Encode.Fields.{pb_enc_varint, pb_enc_uvarint}
use on_my_way.Nanopb.Message.{
  Program, encode_value, encode_items, encode_array, pb_encode_submessage, pb_enc_submessage,
}
use on_my_way.Nanopb.Message.Whole.{
  encode_basic_field, encode_callback_field, encode_field, encode_rounds, pb_encode,
  pb_get_encoded_size, pb_encode_delimited,
}
use on_my_way.Nanopb.Steady.{IsSteady, pb_write-Writes}
use on_my_way.Nanopb.Steady.Messages.{CallbacksSteady}
use on_my_way.Nanopb.Steady.Framing.{
  pb_encode-pb_get_encoded_size, pb_make_string_substream-pb_encode_delimited,
}

abbrev number : Field
number = record {
  tag = 1;
  type = 0x10;
  data_offset = 4;
  size_offset = 0xfffffffc;
  data_size = 4;
  array_size = 0;
  ptr = 0;
}

abbrev numbers : Field
numbers = record {
  tag = 2;
  type = 0x21;
  data_offset = 4;
  size_offset = 0xfffffffc;
  data_size = 4;
  array_size = 2;
  ptr = 0;
}

abbrev inner : Field
inner = record {
  tag = 3;
  type = 0x17;
  data_offset = 4;
  size_offset = 0xfffffffc;
  data_size = 4;
  array_size = 0;
  ptr = 8192;
}

abbrev name : Field
name = record {
  tag = 4;
  type = 0x56;
  data_offset = 0;
  size_offset = 0;
  data_size = 16;
  array_size = 0;
  ptr = 0;
}

abbrev pub inner_number : Field
inner_number = record {
  tag = 1;
  type = 0;
  data_offset = 0;
  size_offset = 0;
  data_size = 4;
  array_size = 0;
  ptr = 0;
}

abbrev pub sample_fields : List Field
sample_fields = number ∷ numbers ∷ inner ∷ name ∷ []

-- The struct at 4096 with its flags, 150, the array of 3 and 300, the submessage of 5, and a callback
-- at 512.
abbrev cells : List (ℕ × ℕ)
cells =
    (4096, 1)
    ∷ (4100, 150)
    ∷ (4104, 2)
    ∷ (4108, 3)
    ∷ (4112, 44)
    ∷ (4113, 1)
    ∷ (4116, 1)
    ∷ (4120, 5)
    ∷ (4125, 2)
    ∷ []

unfoldable cell : List (ℕ × ℕ) → ℕ → ℕ
cell [] p = 0
cell ((q, b) ∷ rest) p = let other = cell rest p in if eqb p q then b else other

abbrev sample : Program ℕ
sample = record {
  memory = cell cells;
  message_at = λ p. if eqb p 8192 then inner_number ∷ [] else [];
  encode_callback = λ function field arg stream. pb_write stream (34 ∷ 1 ∷ 65 ∷ []);
  encode_extension = λ encoder extension stream. pb_write stream [];
}

sample_steady : CallbacksSteady sample
sample_steady = record {
  of_callback = λ function field arg. IsSteady.writes (34 ∷ 1 ∷ 65 ∷ []) (pb_write-Writes _);
  of_extension = λ encoder extension. IsSteady.writes [] (pb_write-Writes _);
}

abbrev pub sample_bytes : List ℕ
sample_bytes = 8 ∷ 150 ∷ 1 ∷ 18 ∷ 3 ∷ 3 ∷ 172 ∷ 2 ∷ 26 ∷ 2 ∷ 8 ∷ 5 ∷ 34 ∷ 1 ∷ 65 ∷ []

sample_size : pb_get_encoded_size sample 2 3 sample_fields 4096 ≡ some 15
unfolding pb_get_encoded_size pb_encode pb_field_iter_begin encode_rounds encode_field
    encode_basic_field cell pb_encode_tag_for_field pb_encode_tag pb_encode_varint pb_write
    encode_value pb_enc_varint pb_enc_uvarint load fill_buffer unset_last pb_field_iter_next
    encode_array encode_items pb_encode_submessage pb_enc_submessage encode_callback_field
sample_size = refl

sample_encoded :
    pb_encode sample 2 3 sample_fields 4096 (pb_ostream_from_buffer 20)
    ≡ (true, out (Sink.buffer sample_bytes) 20 15 none)
unfolding pb_get_encoded_size pb_encode pb_field_iter_begin encode_rounds encode_field
    encode_basic_field cell pb_encode_tag_for_field pb_encode_tag pb_encode_varint pb_write
    encode_value pb_enc_varint pb_enc_uvarint load fill_buffer unset_last pb_field_iter_next
    encode_array encode_items pb_encode_submessage pb_enc_submessage encode_callback_field
sample_encoded = refl

pb_encode-pb_get_encoded_size_example :
    (bs : List ℕ) × (15 ≡ length bs % 2 ^ 64)
    × (((length bs ≤ 20)
          × (pb_encode sample 2 3 sample_fields 4096 (pb_ostream_from_buffer 20)
              ≡ (true, out (Sink.buffer bs) 20 (length bs) none)))
        ⊎ ((20 < length bs)
            × (((pb_encode sample 2 3 sample_fields 4096 (pb_ostream_from_buffer 20)).0 ≡ false)
                ⊎ (2 ^ 64 ≤ length bs))))
pb_encode-pb_get_encoded_size_example =
    pb_encode-pb_get_encoded_size sample sample_steady 2 3 sample_fields 4096 15 20 sample_size
      (omega arith)

pb_make_string_substream-pb_encode_delimited_example :
    (header : List ℕ) × (bs : List ℕ) × (15 ≡ length bs % 2 ^ 64)
    × (((length (header ++ bs) ≤ 20)
          × (pb_encode_delimited sample 2 3 sample_fields 4096 (pb_ostream_from_buffer 20)
              ≡ (true, out (Sink.buffer (header ++ bs)) 20 (length (header ++ bs)) none))
          × ((rest : List ℕ) (k : ℕ) (e : Option String)
              → pb_make_string_substream {S = ℕ} (
                  input
                    (Source.buffer (header ++ (bs ++ rest)))
                    (length header + (length bs + k))
                    e)
                ≡ (
                  some (input (Source.buffer (bs ++ rest)) (length bs) e),
                  input (Source.buffer (bs ++ rest)) k e,
                )))
        ⊎ ((20 < length (header ++ bs))
            × (((pb_encode_delimited sample 2 3 sample_fields 4096 (pb_ostream_from_buffer 20)).0
                  ≡ false)
                ⊎ (2 ^ 64 ≤ length (header ++ bs)))))
pb_make_string_substream-pb_encode_delimited_example =
    pb_make_string_substream-pb_encode_delimited sample sample_steady 2 3 sample_fields 4096 15 20
      sample_size (omega arith)

-- Only the submessage has fields.
unfoldable sample_rank_if : Bool → ℕ
sample_rank_if true = 1
sample_rank_if false = 0

sample_rank : ℕ → ℕ
sample_rank p = sample_rank_if (eqb p 8192)
