-- ===== src/Runs/Parsing.antt =====
-- The theorems about decoding whole nanopb messages at concrete data.
use on_my_way.Base.{
  ℕ, ◌+◌, ◌*◌, ◌^◌, ◌≤◌, ◌<◌, ◌≡◌, ◌⊎◌, inl, inr, ◌↔◌, refl, Bool, true, false, Option, String,
  List, [], ◌∷◌, ◌++◌, length, foldl, Member, arith, eqb, if◌then◌else◌,
}
use on_my_way.Nanopb.Memory.{Memory, load_pointer, load, bytes_at, store, store_bytes}
use on_my_way.Nanopb.Input.{
  Source, input, pb_read_null, pb_istream_from_buffer, pb_read, pb_readbyte,
}
use on_my_way.Nanopb.Decode.{
  pb_skip_field, pb_skip_string, rounds32, pb_decode_varint32_eof, pb_decode_varint32, rounds64,
  pb_decode_varint, pb_decode_tag, pb_make_string_substream, pb_close_string_substream,
}
use on_my_way.Nanopb.Decode.Fields.{pb_dec_varint, pb_dec_uvarint}
use on_my_way.Nanopb.Iterator.{
  pb_field_iter_begin, pb_field_iter_next, find_rounds, pb_field_iter_find,
}
use on_my_way.Nanopb.Parsing.Defaults.{reset_rounds, pb_field_set_to_default}
use on_my_way.Nanopb.Parsing.Values.{Inner, pb_dec_submessage, decode_value}
use on_my_way.Nanopb.Parsing.Static.{static_entries, decode_static_field}
use on_my_way.Nanopb.Parsing.Fields.{decode_callback_field, decode_field}
use on_my_way.Nanopb.Parsing.Rounds.{decode_rounds}
use on_my_way.Nanopb.Parsing.Progress.{seek_end, mark_seen, seen_all}
use on_my_way.Nanopb.Parsing.{State, Device, fail_decode, call_realloc, store_new, allocate_field}
use on_my_way.Nanopb.Parsing.Required.{seen_all-mark_seen}
use on_my_way.Nanopb.Output.{OStream, pb_write}
use on_my_way.Nanopb.Message.{Program, Below, encode_value}
use on_my_way.Nanopb.Parsing.Transfer.{decode_value-encode_value}
use on_my_way.Nanopb.Parsing.Allocation.{allocate_field_exact}
use on_my_way.Nanopb.Parsing.Whole.{pb_decode_noinit, pb_decode}
use on_my_way.Runs.Messages.{sample_fields, sample_bytes, inner_number}

-- An allocator that gives the addresses from the heap's number on, and never runs out.
abbrev sample_device : Device ℕ ℕ
sample_device = record {
  message_at = λ p. if eqb p 8192 then inner_number ∷ [] else [];
  decode_callback = λ function field arg state. (true, state);
  decode_extension = λ decoder extension tag wire_type state. (true, state);
  realloc = λ ptr size memory heap. (heap, memory, heap + size);
  free = λ ptr memory heap. (memory, heap);
}

abbrev start : List ℕ → State ℕ ℕ
start bytes = record { stream = pb_istream_from_buffer bytes 15; memory = λ p. 0; heap = 65536 }

-- What stands in the struct: the flag and the number, the array's count and entries, and the flag and
-- the number of the submessage.
decoded_cells : Bool × State ℕ ℕ → Bool × List ℕ
decoded_cells (status, state) = (
  status,
  load (state.memory) 1 4096
      ∷ load (state.memory) 4 4100
      ∷ load (state.memory) 4 4104
      ∷ load (state.memory) 4 4108
      ∷ load (state.memory) 4 4112
      ∷ load (state.memory) 1 4116
      ∷ load (state.memory) 4 4120
      ∷ [],
)

sample_decoded :
    decoded_cells (pb_decode sample_device 2 3 sample_fields 4096 (start sample_bytes))
    ≡ (true, 1 ∷ 150 ∷ 2 ∷ 3 ∷ 300 ∷ 1 ∷ 5 ∷ [])
unfolding decoded_cells load bytes_at store store_bytes pb_read pb_readbyte rounds32
    pb_decode_varint32_eof pb_decode_varint32 rounds64 pb_decode_varint pb_decode_tag
    pb_make_string_substream pb_close_string_substream pb_dec_varint pb_dec_uvarint
    pb_field_iter_begin pb_field_iter_next find_rounds pb_field_iter_find reset_rounds
    pb_field_set_to_default pb_dec_submessage decode_value static_entries decode_static_field
    decode_callback_field decode_field decode_rounds seek_end pb_decode_noinit pb_decode
    pb_skip_field pb_skip_string pb_read_null
sample_decoded = refl

-- 2^32 entries of 2^32 bytes.
allocate_field_exact_example :
    ((0 < 2 ^ 32)
      × (0 < 2 ^ 32)
      × (2 ^ 32 * 2 ^ 32 < 2 ^ 64)
      × (allocate_field sample_device 4096 (2 ^ 32) (2 ^ 32) (start sample_bytes)
          ≡ store_new sample_device 4096 (
              call_realloc sample_device
                (start sample_bytes)
                (load_pointer ((start sample_bytes).memory) 4096)
                (2 ^ 32 * 2 ^ 32))))
    ⊎ (((2 ^ 32 ≡ 0) ⊎ (2 ^ 32 ≡ 0))
        × (allocate_field sample_device 4096 (2 ^ 32) (2 ^ 32) (start sample_bytes)
            ≡ fail_decode (start sample_bytes) "invalid size"))
    ⊎ ((2 ^ 64 ≤ 2 ^ 32 * 2 ^ 32)
        × (allocate_field sample_device 4096 (2 ^ 32) (2 ^ 32) (start sample_bytes)
            ≡ fail_decode (start sample_bytes) "size too large"))
allocate_field_exact_example =
    allocate_field_exact sample_device 4096 (start sample_bytes) (2 ^ 32) (2 ^ 32)

-- Two required fields, seen in the order 1, 0, 1.
seen_all-mark_seen_example :
    (seen_all (foldl mark_seen (0, 0) (1 ∷ 0 ∷ 1 ∷ [])) 2 ≡ true)
    ↔ ((k : ℕ) → k < 2 → Member k (1 ∷ 0 ∷ 1 ∷ []))
seen_all-mark_seen_example =
    seen_all-mark_seen 2 (1 ∷ 0 ∷ 1 ∷ []) (omega arith)
      (omega arith, (omega arith, (omega arith, tt)))

abbrev one_number : Program ℕ
one_number = record {
  memory = λ p. if eqb p 4100 then 150 else 0;
  message_at = λ p. [];
  encode_callback = λ function field arg stream. (true, stream);
  encode_extension = λ encoder extension stream. (true, stream);
}

-- Neither side has messages below.
abbrev no_messages : Below ℕ
no_messages = record {
  encode = λ fields src stream. (false, stream);
  is_default = λ fields p. true;
}

abbrev no_inner : Inner ℕ ℕ
no_inner = record {
  decode = λ fields dest state. (false, state);
  decode_noinit = λ fields dest state. (false, state);
}

-- The field with 150, to another address.
decode_value-encode_value_example :
    (bs : List ℕ) × ((stream : OStream ℕ)
      → encode_value one_number no_messages inner_number 4100 stream ≡ pb_write stream bs)
    × ((rest : List ℕ) (k : ℕ) (e : Option String) (memory : Memory) (heap : ℕ)
        → (after : Memory) × (decode_value sample_device no_inner inner_number 5000 (record {
          stream = input (Source.buffer (bs ++ rest)) (length bs + k) e;
          memory = memory;
          heap = heap;
        })
            ≡ (
              true,
              record { stream = input (Source.buffer rest) k e; memory = after; heap = heap },
            ))
          × (load after 4 5000 ≡ load (one_number.memory) 4 4100))
decode_value-encode_value_example =
    decode_value-encode_value one_number no_messages sample_device no_inner inner_number 4100 5000
      refl (inr (inr (inl refl)))
