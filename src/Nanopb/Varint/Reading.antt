-- ===== src/Nanopb/Varint/Reading.antt =====
-- The loop of pb_decode_varint of pb_decode.c, over what pb_encode_varint writes.
use on_my_way.Base.{
  ℕ, zero, suc, ◌+◌, ◌*◌, ◌/◌, ◌%◌, ◌≤◌, ◌<◌, ◌^◌, ◌≡◌, ap, ◌∙◌, true, false, Option, some, List,
  [], ◌∷◌, ◌++◌, length, String, bit_and, bit_or, arith, lt→leb, if◌then◌else◌,
}
use native.Mathlib.Decide.{dec_lt}
use native.Mathlib.Nat.{mul-le-mul_right}
use on_my_way.Base.Bits.{and_0x7f, and_0x80, or_shifted, pow_7}
use on_my_way.Nanopb.Output.{OStream, pb_write}
use on_my_way.Nanopb.Input.{Source, IStream, input, ◌>>=◌, fail_read, pb_readbyte}
use on_my_way.Nanopb.Encode.{pb_encode_varint}
use on_my_way.Nanopb.Decode.{more, step64, add_byte64, rounds64, next_bitpos, pb_decode_varint}
use on_my_way.Nanopb.Varint.{capacity, varint, varint_last, varint_more, pb_encode_varint-write}

-- One group of seven bits, placed behind those below it.
pub or_group :
    (r b byte : ℕ)
    → r < 2 ^ b
    → byte % 128 * 2 ^ b < 2 ^ 64
    → bit_or r (bit_and byte 0x7f * 2 ^ b % 2 ^ 64) ≡ r + byte % 128 * 2 ^ b
or_group r b byte below fits =
    ap (λ t. bit_or r (t * 2 ^ b % 2 ^ 64)) (and_0x7f byte)
    ∙ ap (bit_or r) (within (byte % 128 * 2 ^ b) fits)
    ∙ or_shifted b r (byte % 128) below
  where
    within : (x : ℕ) → x < 2 ^ 64 → x % 2 ^ 64 ≡ x
    within x h = omega arith

pub more_small : (v : ℕ) → v < 128 → more v ≡ false
more_small v h = rw (and_0x80 v) (rw (none_left v h))
  where
    none_left : (x : ℕ) → x < 128 → x / 128 ≡ 0
    none_left x k = omega arith

pub more_high_bit : (v : ℕ) → more (v % 128 + 128) ≡ true
more_high_bit v = rw (and_0x80 (v % 128 + 128)) (rw one)
  where
    one : (v % 128 + 128) / 128 ≡ 1
    one = omega arith

pub small_group : (v b : ℕ) → v < 128 → v % 128 * 2 ^ b ≡ v * 2 ^ b
small_group v b h = ap (λ t. t * 2 ^ b) (whole v h)
  where
    whole : (x : ℕ) → x < 128 → x % 128 ≡ x
    whole x k = omega arith

pub next_bitpos-add : (b : ℕ) → b < 64 → next_bitpos b ≡ b + 7
next_bitpos-add b h = omega arith

-- The groups of `v` from `b` on: the lowest one, and those above it.
pub split_groups : (v b : ℕ) → v * 2 ^ b ≡ v % 128 * 2 ^ b + v / 128 * 2 ^ (b + 7)
split_groups v b =
    ap (λ (t : ℕ). t * 2 ^ b) (parts v) ∙ omega (arith, ap (λ (t : ℕ). v / 128 * t) (pow_7 b))
  where
    parts : (x : ℕ) → x ≡ x % 128 + 128 * (x / 128)
    parts x = omega arith

pub group_below : (r v b : ℕ) → r < 2 ^ b → r + v % 128 * 2 ^ b < 2 ^ (b + 7)
group_below r v b h = omega (arith, pow_7 b, mul-le-mul_right (2 ^ b) (low v))
  where
    low : (x : ℕ) → x % 128 ≤ 127
    low x = omega arith

module _ {S : Type 0} where
  enter64 :
      (fuel : ℕ) (stream : IStream S) (r b : ℕ)
      → b < 64
      → rounds64 (suc fuel) stream r b ≡ (pb_readbyte stream >>= step64 (rounds64 fuel) r b)
  unfolding rounds64
  enter64 fuel stream r b low =
      ap
        (λ t.
          if t
          then fail_read stream "varint overflow"
          else pb_readbyte stream >>= step64 (rounds64 fuel) r b)
        (lt→leb b 64 low)

  rounds64_last :
      (fuel v b r : ℕ) (rest : List ℕ) (left : ℕ) (e : Option String)
      → v < 128
      → b < 64
      → r < 2 ^ b
      → v * 2 ^ b < 2 ^ 64
      → rounds64 {S = S} (suc fuel) (input (Source.buffer (v ∷ rest)) (suc left) e) r b
        ≡ (some (r + v * 2 ^ b), input (Source.buffer rest) left e)
  unfolding rounds64 pb_readbyte
  rounds64_last fuel v b r rest left e small low below fits =
      enter64 fuel (input (Source.buffer (v ∷ rest)) (suc left) e) r b low
      ∙ ap
          (λ t.
            if t
            then rounds64 fuel (input (Source.buffer rest) left e) (add_byte64 r b v)
                (next_bitpos b)
            else (some (add_byte64 r b v), input (Source.buffer rest) left e))
          (more_small v small)
      ∙ ap (λ t. (some t, input (Source.buffer rest) left e))
          (or_group r b v below (omega (arith, small_group v b small))
            ∙ ap (λ t. r + t) (small_group v b small))

  rounds64_more :
      (fuel v b r : ℕ) (rest : List ℕ) (left : ℕ) (e : Option String)
      → b < 64
      → r < 2 ^ b
      → v * 2 ^ b < 2 ^ 64
      → rounds64 {S = S}
          (suc fuel)
          (input (Source.buffer ((v % 128 + 128) ∷ rest)) (suc left) e)
          r
          b
        ≡ rounds64 fuel (input (Source.buffer rest) left e) (r + v % 128 * 2 ^ b) (b + 7)
  unfolding rounds64 pb_readbyte
  rounds64_more fuel v b r rest left e low below fits =
      enter64 fuel (input (Source.buffer ((v % 128 + 128) ∷ rest)) (suc left) e) r b low
      ∙ ap
          (λ t.
            if t
            then rounds64 fuel (input (Source.buffer rest) left e) (add_byte64 r b (v % 128 + 128))
                (next_bitpos b)
            else (some (add_byte64 r b (v % 128 + 128)), input (Source.buffer rest) left e))
          (more_high_bit v)
      ∙ ap (λ t. rounds64 fuel (input (Source.buffer rest) left e) t (next_bitpos b))
          (or_group r b (v % 128 + 128) below group_fits ∙ ap (λ t. r + t * 2 ^ b) (high_bit v))
      ∙ ap (rounds64 fuel (input (Source.buffer rest) left e) (r + v % 128 * 2 ^ b))
          (next_bitpos-add b low)
    where
      high_bit : (x : ℕ) → (x % 128 + 128) % 128 ≡ x % 128
      high_bit x = omega arith

      group_fits : (v % 128 + 128) % 128 * 2 ^ b < 2 ^ 64
      group_fits = omega (arith, ap (λ (t : ℕ). t * 2 ^ b) (high_bit v), split_groups v b)

-- The bytes of `bs` before `k` others.
abbrev pub left_before : List ℕ → ℕ → ℕ
left_before [] k = k
left_before (b ∷ bs) k = suc (left_before bs k)

pub left_before-length : (bs : List ℕ) (k : ℕ) → length bs + k ≡ left_before bs k
left_before-length [] k = omega arith
left_before-length (b ∷ bs) k = omega (arith, left_before-length bs k)

-- A buffer that holds `bs` and then `rest`, with `k` bytes left after `bs`.
abbrev pub before : {S : Type 0} → List ℕ → List ℕ → ℕ → Option String → IStream S
before bs rest k e = input (Source.buffer (bs ++ rest)) (left_before bs k) e

above_groups : (v b : ℕ) → v * 2 ^ b < 2 ^ 64 → v / 128 * 2 ^ (b + 7) < 2 ^ 64
above_groups v b h = omega (arith, split_groups v b)

module _ {S : Type 0} (rest : List ℕ) (k : ℕ) (e : Option String) where
  pub rounds64-varint :
      (n v b r : ℕ)
      → v < capacity (suc n)
      → b + 7 * n ≡ 63
      → r < 2 ^ b
      → v * 2 ^ b < 2 ^ 64
      → rounds64 {S = S} (suc (suc n)) (before (varint (suc n) v) rest k e) r b
        ≡ (some (r + v * 2 ^ b), input (Source.buffer rest) k e)
  rounds64-varint zero v b r h bits below fits =
      ap (λ bs. rounds64 2 (before bs rest k e) r b) (varint_last 0 v (omega arith))
      ∙ rounds64_last 1 v b r rest k e (omega arith) (omega arith) below fits
  rounds64-varint (suc n) v b r h bits below fits = elim (dec_lt v 128) [
    | Dec.yes small ↦
        ap (λ bs. rounds64 (suc (suc (suc n))) (before bs rest k e) r b)
          (varint_last (suc n) v small)
        ∙ rounds64_last (suc (suc n)) v b r rest k e small (omega arith) below fits
    | Dec.no large ↦
        let higher = varint (suc n) (v / 128) in
        ap (λ bs. rounds64 (suc (suc (suc n))) (before bs rest k e) r b)
          (varint_more (suc n) v (omega arith))
        ∙ rounds64_more (suc (suc n)) v b r (higher ++ rest) (left_before higher k) e (omega arith)
            below fits
        ∙ rounds64-varint n (v / 128) (b + 7) (r + v % 128 * 2 ^ b) (omega arith) (omega arith)
            (group_below r v b below) (above_groups v b fits)
        ∙ ap (λ t. (some t, input (Source.buffer rest) k e)) (omega (arith, split_groups v b))
  ]

  pub pb_decode_varint-varint :
      (v : ℕ)
      → v < 2 ^ 64
      → pb_decode_varint {S = S} (before (varint 10 v) rest k e)
        ≡ (some v, input (Source.buffer rest) k e)
  unfolding pb_decode_varint
  pb_decode_varint-varint v h =
      rounds64-varint 9 v 0 0 (omega arith) (omega arith) (omega arith) (omega arith)
      ∙ ap (λ t. (some t, input (Source.buffer rest) k e)) (omega arith)

-- For a value of 64 bits there are bytes such that `pb_encode_varint` is one `pb_write` of them on
-- any stream, and `pb_decode_varint` reads the value back from a buffer that starts with them: it
-- stops behind them, whatever follows.
pub pb_decode_varint-pb_encode_varint :
    {S : Type 0} (v : ℕ)
    → v < 2 ^ 64
    → (bs : List ℕ) × ((stream : OStream S) → pb_encode_varint stream v ≡ pb_write stream bs)
      × ((rest : List ℕ) (k : ℕ) (e : Option String)
          → pb_decode_varint {S = S} (input (Source.buffer (bs ++ rest)) (length bs + k) e)
            ≡ (some v, input (Source.buffer rest) k e))
pb_decode_varint-pb_encode_varint {S} v h = (
  varint 10 v,
  (λ stream. pb_encode_varint-write stream v h),
  (λ rest k e.
      ap (λ n. pb_decode_varint {S = S} (input (Source.buffer (varint 10 v ++ rest)) n e))
        (left_before-length (varint 10 v) k)
      ∙ pb_decode_varint-varint rest k e v h),
)
