-- ===== src/Nanopb/Fixed.antt =====
-- Numbers of fixed size: pb_encode_fixed32 and pb_encode_fixed64 of pb_encode.c against
-- pb_decode_fixed32 and pb_decode_fixed64 of pb_decode.c.
use on_my_way.Base.{
  ℕ, ◌+◌, ◌*◌, ◌/◌, ◌%◌, ◌<◌, ◌^◌, ◌≡◌, refl, ap, ◌∙◌, Option, some, List, ◌++◌, length, String,
  bit_or, arith,
}
use on_my_way.Base.Bits.{and_0xff, or_shifted}
use on_my_way.Nanopb.Output.{OStream, pb_write}
use on_my_way.Nanopb.Input.{Source, input, ◌>>=◌}
use on_my_way.Nanopb.Encode.{
  byte_at, fixed32_bytes, fixed64_bytes, pb_encode_fixed32, pb_encode_fixed64,
}
use on_my_way.Nanopb.Decode.{join32, join64, pb_decode_fixed32, pb_decode_fixed64}
use on_my_way.Nanopb.Substreams.{pb_read-append}

low32 : ℕ → ℕ → ℕ → ℕ
low32 b0 b1 b2 = bit_or (bit_or b0 (b1 * 2 ^ 8)) (b2 * 2 ^ 16)

low32-sum :
    (b0 b1 b2 : ℕ) → b0 < 256 → b1 < 256 → b2 < 256 → low32 b0 b1 b2 ≡ b0 + b1 * 2 ^ 8 + b2 * 2 ^ 16
unfolding low32
low32-sum b0 b1 b2 h0 h1 h2 =
    ap (λ t. bit_or t (b2 * 2 ^ 16)) (or_shifted 8 b0 b1 h0)
    ∙ or_shifted 16 (b0 + b1 * 2 ^ 8) b2 (omega arith)

lows : (v : ℕ) → low32 (byte_at v 0) (byte_at v 8) (byte_at v 16) ≡ v % 2 ^ 24
lows v = omega (
  arith,
  and_0xff (v / 2 ^ 0),
  and_0xff (v / 2 ^ 8),
  and_0xff (v / 2 ^ 16),
  low32-sum (byte_at v 0) (byte_at v 8) (byte_at v 16) (omega (arith, and_0xff (v / 2 ^ 0)))
      (omega (arith, and_0xff (v / 2 ^ 8))) (omega (arith, and_0xff (v / 2 ^ 16))),
)

join32-fixed32_bytes : (v : ℕ) → v < 2 ^ 32 → join32 (fixed32_bytes v) ≡ v
unfolding low32
join32-fixed32_bytes v h =
    ap (λ t. bit_or (low32 (byte_at v 0) (byte_at v 8) (byte_at v 16)) (t * 2 ^ 24 % 2 ^ 32))
      (and_0xff (v / 2 ^ 24))
    ∙ ap (bit_or (low32 (byte_at v 0) (byte_at v 8) (byte_at v 16))) (omega arith)
    ∙ ap (λ t. bit_or t (v / 2 ^ 24 * 2 ^ 24)) (lows v)
    ∙ or_shifted 24 (v % 2 ^ 24) (v / 2 ^ 24) (omega arith)
    ∙ omega arith

-- For a value of 32 bits there are four bytes such that `pb_encode_fixed32` is one `pb_write` of
-- them on any stream, and `pb_decode_fixed32` reads the value back from a buffer that starts with
-- them and stops behind them.
pub pb_decode_fixed32-pb_encode_fixed32 :
    {S : Type 0} (v : ℕ)
    → v < 2 ^ 32
    → (bs : List ℕ) × (length bs ≡ 4)
      × ((stream : OStream S) → pb_encode_fixed32 stream v ≡ pb_write stream bs)
      × ((rest : List ℕ) (k : ℕ) (e : Option String)
          → pb_decode_fixed32 {S = S} (input (Source.buffer (bs ++ rest)) (4 + k) e)
            ≡ (some v, input (Source.buffer rest) k e))
unfolding pb_encode_fixed32 pb_decode_fixed32
pb_decode_fixed32-pb_encode_fixed32 {S} v h = (
  fixed32_bytes v,
  refl,
  (λ stream. refl),
  (λ rest k e.
      ap (λ r. r >>= λ (bytes, after). (some (join32 bytes), after))
        (pb_read-append {S = S} (fixed32_bytes v) rest k e)
      ∙ ap (λ t. (some t, input (Source.buffer rest) k e)) (join32-fixed32_bytes v h)),
)

-- The bytes 4 to 6, above `low`.
low64 : ℕ → ℕ → ℕ → ℕ → ℕ
low64 low b4 b5 b6 = bit_or (bit_or (bit_or low (b4 * 2 ^ 32)) (b5 * 2 ^ 40)) (b6 * 2 ^ 48)

low64-sum :
    (low b4 b5 b6 : ℕ)
    → low < 2 ^ 32
    → b4 < 256
    → b5 < 256
    → b6 < 256
    → low64 low b4 b5 b6 ≡ low + b4 * 2 ^ 32 + b5 * 2 ^ 40 + b6 * 2 ^ 48
unfolding low64
low64-sum low b4 b5 b6 h h4 h5 h6 =
    ap (λ t. bit_or (bit_or t (b5 * 2 ^ 40)) (b6 * 2 ^ 48)) (or_shifted 32 low b4 h)
    ∙ ap (λ t. bit_or t (b6 * 2 ^ 48)) (or_shifted 40 (low + b4 * 2 ^ 32) b5 (omega arith))
    ∙ or_shifted 48 (low + b4 * 2 ^ 32 + b5 * 2 ^ 40) b6 (omega arith)

low_four :
    (v : ℕ)
    → bit_or (low32 (byte_at v 0) (byte_at v 8) (byte_at v 16)) (byte_at v 24 * 2 ^ 24) ≡ v % 2 ^ 32
low_four v =
    ap (λ t. bit_or t (byte_at v 24 * 2 ^ 24)) (lows v)
    ∙ ap (λ t. bit_or (v % 2 ^ 24) (t * 2 ^ 24)) (and_0xff (v / 2 ^ 24))
    ∙ or_shifted 24 (v % 2 ^ 24) (v / 2 ^ 24 % 256) (omega arith)
    ∙ omega arith

low_seven : (v : ℕ) → low64 (v % 2 ^ 32) (byte_at v 32) (byte_at v 40) (byte_at v 48) ≡ v % 2 ^ 56
low_seven v = omega (
  arith,
  and_0xff (v / 2 ^ 32),
  and_0xff (v / 2 ^ 40),
  and_0xff (v / 2 ^ 48),
  low64-sum (v % 2 ^ 32) (byte_at v 32) (byte_at v 40) (byte_at v 48) (omega arith)
      (omega (arith, and_0xff (v / 2 ^ 32))) (omega (arith, and_0xff (v / 2 ^ 40)))
      (omega (arith, and_0xff (v / 2 ^ 48))),
)

join64-fixed64_bytes : (v : ℕ) → v < 2 ^ 64 → join64 (fixed64_bytes v) ≡ v
unfolding low32 low64
join64-fixed64_bytes v h =
    ap
      (λ t.
        bit_or (low64 t (byte_at v 32) (byte_at v 40) (byte_at v 48))
          (byte_at v 56 * 2 ^ 56 % 2 ^ 64))
      (low_four v)
    ∙ ap (λ t. bit_or t (byte_at v 56 * 2 ^ 56 % 2 ^ 64)) (low_seven v)
    ∙ ap (λ t. bit_or (v % 2 ^ 56) (t * 2 ^ 56 % 2 ^ 64)) (and_0xff (v / 2 ^ 56))
    ∙ ap (bit_or (v % 2 ^ 56)) (omega arith)
    ∙ or_shifted 56 (v % 2 ^ 56) (v / 2 ^ 56) (omega arith)
    ∙ omega arith

-- For a value of 64 bits there are eight bytes such that `pb_encode_fixed64` is one `pb_write` of
-- them on any stream, and `pb_decode_fixed64` reads the value back from a buffer that starts with
-- them and stops behind them.
pub pb_decode_fixed64-pb_encode_fixed64 :
    {S : Type 0} (v : ℕ)
    → v < 2 ^ 64
    → (bs : List ℕ) × (length bs ≡ 8)
      × ((stream : OStream S) → pb_encode_fixed64 stream v ≡ pb_write stream bs)
      × ((rest : List ℕ) (k : ℕ) (e : Option String)
          → pb_decode_fixed64 {S = S} (input (Source.buffer (bs ++ rest)) (8 + k) e)
            ≡ (some v, input (Source.buffer rest) k e))
unfolding pb_encode_fixed64 pb_decode_fixed64
pb_decode_fixed64-pb_encode_fixed64 {S} v h = (
  fixed64_bytes v,
  refl,
  (λ stream. refl),
  (λ rest k e.
      ap (λ r. r >>= λ (bytes, after). (some (join64 bytes), after))
        (pb_read-append {S = S} (fixed64_bytes v) rest k e)
      ∙ ap (λ t. (some t, input (Source.buffer rest) k e)) (join64-fixed64_bytes v h)),
)
