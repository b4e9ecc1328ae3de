-- ===== src/Nanopb/RoundTrips.antt =====
-- Reading back what pb_encode.c writes with the decoders of pb_decode.c: tags, zigzag numbers,
-- numbers of fixed size and strings.
use on_my_way.Base.{
  ℕ, zero, suc, ◌+◌, ◌*◌, ◌/◌, ◌%◌, ◌<◌, ◌^◌, ◌≡◌, ap, refl, ◌∙◌, false, Option, some, List, ◌++◌,
  length, String, bit_or, arith,
}
use on_my_way.Base.Bits.{and_7, and_1, or_comm, or_shifted}
use on_my_way.Nanopb.Output.{OStream, pb_write}
use on_my_way.Nanopb.Input.{Source, IStream, input, ◌>>=◌}
use on_my_way.Nanopb.Encode.{pb_encode_varint, pb_encode_svarint, pb_encode_tag, zigzag}
use on_my_way.Nanopb.Decode.{pb_decode_svarint, pb_decode_tag, split_tag, unzigzag}
use on_my_way.Nanopb.Varint.{varint, pb_encode_varint-write}
use on_my_way.Nanopb.Varint.Reading.{left_before-length, pb_decode_varint-varint}
use on_my_way.Nanopb.Varint.Short.{pb_decode_varint32_eof-varint}

join_tag : (wt n : ℕ) → wt < 8 → n < 2 ^ 29 → bit_or (n * 2 ^ 3 % 2 ^ 64) wt ≡ wt + n * 8
join_tag wt n small fits =
    ap (λ t. bit_or t wt) whole ∙ or_comm (n * 2 ^ 3) wt ∙ or_shifted 3 wt n small
  where
    whole : n * 2 ^ 3 % 2 ^ 64 ≡ n * 2 ^ 3
    whole = omega arith

split-join :
    {S : Type 0} (stream : IStream S) (wt n : ℕ)
    → wt < 8
    → 0 < n
    → split_tag ((some (wt + n * 8), stream), false) ≡ ((some (wt, n), stream), false)
split-join stream wt n small pos = at (wt + n * 8) refl
  where
    at :
        (t : ℕ)
        → wt + n * 8 ≡ t
        → split_tag ((some t, stream), false) ≡ ((some (wt, n), stream), false)
    at zero same = absurd (omega arith)
    at (suc t) same =
        ap (λ w. ((some (w, suc t / 2 ^ 3), stream), false)) (and_7 (suc t) ∙ omega arith)
        ∙ ap (λ w. ((some (wt, w), stream), false)) (omega arith)

-- For a field number from 1 to 2^29 - 1 and any wire type below 8 there are bytes such that
-- `pb_encode_tag` is one `pb_write` of them on any stream, and `pb_decode_tag` gives both numbers
-- back from a buffer that starts with the bytes, stops behind them and does not report the end of
-- the message.
pub pb_decode_tag-pb_encode_tag :
    {S : Type 0} (wt n : ℕ)
    → wt < 8
    → 0 < n
    → n < 2 ^ 29
    → (bs : List ℕ) × ((stream : OStream S) → pb_encode_tag stream wt n ≡ pb_write stream bs)
      × ((rest : List ℕ) (k : ℕ) (e : Option String)
          → pb_decode_tag {S = S} (input (Source.buffer (bs ++ rest)) (length bs + k) e)
            ≡ ((some (wt, n), input (Source.buffer rest) k e), false))
unfolding pb_encode_tag pb_decode_tag
pb_decode_tag-pb_encode_tag {S} wt n small pos fits = (
  varint 10 (wt + n * 8),
  (λ stream.
      ap (pb_encode_varint stream) (join_tag wt n small fits)
      ∙ pb_encode_varint-write stream (wt + n * 8) (omega arith)),
  (λ rest k e.
      ap (λ t. pb_decode_tag {S = S} (input (Source.buffer (varint 10 (wt + n * 8) ++ rest)) t e))
        (left_before-length (varint 10 (wt + n * 8)) k)
      ∙ ap split_tag (pb_decode_varint32_eof-varint rest k e (wt + n * 8) (omega arith))
      ∙ split-join (input (Source.buffer rest) k e) wt n small pos),
)

zigzag-below : (v : ℕ) → v < 2 ^ 64 → zigzag v < 2 ^ 64
zigzag-below v h = ground arith

unzigzag-zigzag : (v : ℕ) → v < 2 ^ 64 → unzigzag (zigzag v) ≡ v
unzigzag-zigzag v h = ground (arith, and_1 (zigzag v))

-- For any 64-bit two's complement there are bytes such that `pb_encode_svarint` is one `pb_write` of
-- them on any stream, and `pb_decode_svarint` reads the number back from a buffer that starts with
-- them and stops behind them.
pub pb_decode_svarint-pb_encode_svarint :
    {S : Type 0} (v : ℕ)
    → v < 2 ^ 64
    → (bs : List ℕ) × ((stream : OStream S) → pb_encode_svarint stream v ≡ pb_write stream bs)
      × ((rest : List ℕ) (k : ℕ) (e : Option String)
          → pb_decode_svarint {S = S} (input (Source.buffer (bs ++ rest)) (length bs + k) e)
            ≡ (some v, input (Source.buffer rest) k e))
unfolding pb_encode_svarint pb_decode_svarint
pb_decode_svarint-pb_encode_svarint {S} v h = (
  varint 10 (zigzag v),
  (λ stream. pb_encode_varint-write stream (zigzag v) (zigzag-below v h)),
  (λ rest k e.
      ap (λ t. pb_decode_svarint {S = S} (input (Source.buffer (varint 10 (zigzag v) ++ rest)) t e))
        (left_before-length (varint 10 (zigzag v)) k)
      ∙ ap (λ r. r >>= λ (value, after). (some (unzigzag value), after))
          (pb_decode_varint-varint rest k e (zigzag v) (zigzag-below v h))
      ∙ ap (λ t. (some t, input (Source.buffer rest) k e)) (unzigzag-zigzag v h)),
)
