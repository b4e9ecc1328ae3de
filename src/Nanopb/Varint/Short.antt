-- ===== src/Nanopb/Varint/Short.antt =====
-- The loop of pb_decode_varint32_eof of pb_decode.c, over what pb_encode_varint writes for a value
-- of 32 bits, and what it makes of a number that is longer than it should be.
use on_my_way.Base.{
  ℕ, zero, suc, ◌+◌, ◌*◌, ◌/◌, ◌%◌, ◌≤◌, ◌<◌, ◌^◌, ◌≡◌, ap, ◌∙◌, false, not, ◌&&◌, ◌||◌, Option,
  none, some, List, [], ◌∷◌, ◌++◌, length, String, bit_and, bit_or, arith, lt→leb, if◌then◌else◌,
  eqb,
}
use native.Mathlib.Decide.{dec_lt}
use on_my_way.Base.Bits.{and_0x7f, and_0x70, or_shifted}
use on_my_way.Nanopb.Input.{Source, input, fail_read, pb_readbyte}
use on_my_way.Nanopb.Decode.{
  sign_extension, add_byte32, extend32, finish32, rounds32, next_bitpos, pb_decode_varint32,
  pb_decode_varint32_eof,
}
use on_my_way.Nanopb.Varint.{capacity, varint, varint_last, varint_more}
use on_my_way.Nanopb.Varint.Reading.{
  more_small, more_high_bit, small_group, next_bitpos-add, split_groups, group_below, left_before,
  left_before-length, before,
}

add_byte32-group :
    (r b byte : ℕ)
    → b < 32
    → r < 2 ^ b
    → byte % 128 * 2 ^ b < 2 ^ 32
    → add_byte32 r b byte ≡ some (r + byte % 128 * 2 ^ b)
add_byte32-group r b byte low below fits =
    ap
      (λ t.
        if t
        then if not (eqb (bit_and byte 0x7f) 0)
            && (eqb (r / 2 ^ 31) 0 || not (eqb byte (sign_extension b)))
          then none
          else some r
        else some (bit_or r (bit_and byte 0x7f * 2 ^ b % 2 ^ 32)))
      (lt→leb b 32 low)
    ∙ ap (λ t. some (bit_or r (t * 2 ^ b % 2 ^ 32))) (and_0x7f byte)
    ∙ ap (λ t. some (bit_or r t)) (within (byte % 128 * 2 ^ b) fits)
    ∙ ap some (or_shifted b r (byte % 128) below)
  where
    within : (x : ℕ) → x < 2 ^ 32 → x % 2 ^ 32 ≡ x
    within x h = omega arith

-- The last byte of a value of 32 bits passes the last check of the loop.
last_fits :
    (b v : ℕ)
    → b < 32
    → v * 2 ^ b < 2 ^ 32
    → (eqb (b + 7) 35 && not (eqb (bit_and v 0x70) 0)) ≡ false
last_fits b v low fits = elim (dec_lt b 28) [
  | Dec.yes small ↦ ground arith
  | Dec.no large ↦ elim (dec_lt 28 b) [
    | Dec.yes above ↦ ground arith
    | Dec.no same ↦ let narrow = at_28 (omega arith) in rw (and_0x70 v) (ground arith)
  ]
]
  where
    at_28 : b ≡ 28 → v < 16
    at_28 e = omega (arith, ap (λ (t : ℕ). v * 2 ^ t) e)

module _ {S : Type 0} where
  rounds32_last :
      (fuel v b r : ℕ) (rest : List ℕ) (left : ℕ) (e : Option String)
      → v < 128
      → b < 32
      → r < 2 ^ b
      → v * 2 ^ b < 2 ^ 32
      → rounds32 {S = S} (suc fuel) (input (Source.buffer (v ∷ rest)) (suc left) e) r b
        ≡ (some (r + v * 2 ^ b), input (Source.buffer rest) left e)
  unfolding rounds32 pb_readbyte
  rounds32_last fuel v b r rest left e small low below fits =
      let after = input (Source.buffer rest) left e in
      ap (extend32 (rounds32 fuel) b v after) (
        add_byte32-group r b v low below (omega (arith, small_group v b small))
        ∙ ap (λ t. some (r + t)) (small_group v b small))
      ∙ ap
          (λ t.
            if t
            then rounds32 fuel after (r + v * 2 ^ b) (next_bitpos b)
            else finish32 after (r + v * 2 ^ b) (next_bitpos b) v)
          (more_small v small)
      ∙ ap (λ t. finish32 after (r + v * 2 ^ b) t v) (next_bitpos-add b (omega arith))
      ∙ ap (λ t. if t then fail_read after "varint overflow" else (some (r + v * 2 ^ b), after))
          (last_fits b v low fits)

  rounds32_more :
      (fuel v b r : ℕ) (rest : List ℕ) (left : ℕ) (e : Option String)
      → b < 32
      → r < 2 ^ b
      → v * 2 ^ b < 2 ^ 32
      → rounds32 {S = S}
          (suc fuel)
          (input (Source.buffer ((v % 128 + 128) ∷ rest)) (suc left) e)
          r
          b
        ≡ rounds32 fuel (input (Source.buffer rest) left e) (r + v % 128 * 2 ^ b) (b + 7)
  unfolding rounds32 pb_readbyte
  rounds32_more fuel v b r rest left e low below fits =
      let after = input (Source.buffer rest) left e in
      ap (extend32 (rounds32 fuel) b (v % 128 + 128) after) (
        add_byte32-group r b (v % 128 + 128) low below group_fits
        ∙ ap (λ t. some (r + t * 2 ^ b)) (high_bit v))
      ∙ ap
          (λ t.
            if t
            then rounds32 fuel after (r + v % 128 * 2 ^ b) (next_bitpos b)
            else finish32 after (r + v % 128 * 2 ^ b) (next_bitpos b) (v % 128 + 128))
          (more_high_bit v)
      ∙ ap (rounds32 fuel after (r + v % 128 * 2 ^ b)) (next_bitpos-add b (omega arith))
    where
      high_bit : (x : ℕ) → (x % 128 + 128) % 128 ≡ x % 128
      high_bit x = omega arith

      group_fits : (v % 128 + 128) % 128 * 2 ^ b < 2 ^ 32
      group_fits = omega (arith, ap (λ (t : ℕ). t * 2 ^ b) (high_bit v), split_groups v b)

above_groups32 : (v b : ℕ) → v * 2 ^ b < 2 ^ 32 → v / 128 * 2 ^ (b + 7) < 2 ^ 32
above_groups32 v b h = omega (arith, split_groups v b)

length-varint_more :
    (m v : ℕ) → 128 ≤ v → length (varint (suc m) v) ≡ suc (length (varint m (v / 128)))
length-varint_more m v h = ap length (varint_more m v h)

length-varint_last : (m v : ℕ) → v < 128 → length (varint (suc m) v) ≡ 1
length-varint_last m v h = ap length (varint_last m v h)

varint_some : (m v : ℕ) → 0 < length (varint (suc m) v)
varint_some m v = elim (dec_lt v 128) [
  | Dec.yes small ↦ omega (arith, length-varint_last m v small)
  | Dec.no large ↦ omega (arith, length-varint_more m v (omega arith))
]

module _ {S : Type 0} (rest : List ℕ) (k : ℕ) (e : Option String) where
  rounds32_small :
      (m fuel v b r : ℕ)
      → v < 128
      → length (varint (suc m) v) ≤ fuel
      → b < 32
      → r < 2 ^ b
      → v * 2 ^ b < 2 ^ 32
      → rounds32 {S = S} fuel (before (varint (suc m) v) rest k e) r b
        ≡ (some (r + v * 2 ^ b), input (Source.buffer rest) k e)
  rounds32_small m zero v b r small enough low below fits =
      absurd (omega (arith, length-varint_last m v small))
  rounds32_small m (suc fuel) v b r small enough low below fits =
      ap (λ bs. rounds32 (suc fuel) (before bs rest k e) r b) (varint_last m v small)
      ∙ rounds32_last fuel v b r rest k e small low below fits

  rounds32_large :
      (m fuel v b r : ℕ)
      → 128 ≤ v
      → b < 32
      → r < 2 ^ b
      → v * 2 ^ b < 2 ^ 32
      → rounds32 {S = S} (suc fuel) (before (varint (suc m) v) rest k e) r b
        ≡ rounds32 fuel (before (varint m (v / 128)) rest k e) (r + v % 128 * 2 ^ b) (b + 7)
  rounds32_large m fuel v b r large low below fits =
      let higher = varint m (v / 128) in
      ap (λ bs. rounds32 (suc fuel) (before bs rest k e) r b) (varint_more m v large)
      ∙ rounds32_more fuel v b r (higher ++ rest) (left_before higher k) e low below fits

  rounds32-varint :
      (n m fuel v b r : ℕ)
      → v < capacity (suc n)
      → n ≤ m
      → length (varint (suc m) v) ≤ fuel
      → b + 7 * n ≡ 28
      → r < 2 ^ b
      → v * 2 ^ b < 2 ^ 32
      → rounds32 {S = S} fuel (before (varint (suc m) v) rest k e) r b
        ≡ (some (r + v * 2 ^ b), input (Source.buffer rest) k e)
  rounds32-varint zero m fuel v b r h hm enough bits below fits =
      rounds32_small m fuel v b r (omega arith) enough (omega arith) below fits
  rounds32-varint (suc n) zero fuel v b r h hm enough bits below fits = absurd (omega arith)
  rounds32-varint (suc n) (suc m) zero v b r h hm enough bits below fits =
      absurd (omega (arith, varint_some (suc m) v))
  rounds32-varint (suc n) (suc m) (suc fuel) v b r h hm enough bits below fits =
      elim (dec_lt v 128) [
        | Dec.yes small ↦
            rounds32_small (suc m) (suc fuel) v b r small enough (omega arith) below fits
        | Dec.no large ↦
            rounds32_large (suc m) fuel v b r (omega arith) (omega arith) below fits
            ∙ rounds32-varint n m fuel (v / 128) (b + 7) (r + v % 128 * 2 ^ b) (omega arith)
                (omega arith) (omega (arith, length-varint_more (suc m) v (omega arith)))
                (omega arith) (group_below r v b below) (above_groups32 v b fits)
            ∙ ap (λ t. (some t, input (Source.buffer rest) k e)) (omega (arith, split_groups v b))
      ]

  first_small :
      (v : ℕ)
      → v < 128
      → pb_decode_varint32_eof {S = S} (before (v ∷ []) rest k e)
        ≡ ((some v, input (Source.buffer rest) k e), false)
  unfolding pb_decode_varint32_eof pb_readbyte
  first_small v small =
      ap
        (λ t. (
          (if t
              then rounds32 (suc k) (input (Source.buffer rest) k e) (bit_and v 0x7f) 7
              else (some v, input (Source.buffer rest) k e)),
          false,
        ))
        (more_small v small)

  first_large :
      (v : ℕ) (higher : List ℕ)
      → pb_decode_varint32_eof {S = S} (before ((v % 128 + 128) ∷ higher) rest k e)
        ≡ (rounds32 (suc (left_before higher k)) (before higher rest k e) (v % 128) 7, false)
  unfolding pb_decode_varint32_eof pb_readbyte
  first_large v higher =
      ap
        (λ t. (
          (if t
              then rounds32 (suc (left_before higher k)) (before higher rest k e)
                  (bit_and (v % 128 + 128) 0x7f) 7
              else (some (v % 128 + 128), before higher rest k e)),
          false,
        ))
        (more_high_bit v)
      ∙ ap (λ t. (rounds32 (suc (left_before higher k)) (before higher rest k e) t 7, false))
          (and_0x7f (v % 128 + 128) ∙ omega arith)

  pub pb_decode_varint32_eof-varint :
      (v : ℕ)
      → v < 2 ^ 32
      → pb_decode_varint32_eof {S = S} (before (varint 10 v) rest k e)
        ≡ ((some v, input (Source.buffer rest) k e), false)
  pb_decode_varint32_eof-varint v h = elim (dec_lt v 128) [
    | Dec.yes small ↦
        ap (λ bs. pb_decode_varint32_eof (before bs rest k e)) (varint_last 9 v small)
        ∙ first_small v small
    | Dec.no large ↦
        let higher = varint 9 (v / 128) in
        ap (λ bs. pb_decode_varint32_eof (before bs rest k e)) (varint_more 9 v (omega arith))
        ∙ first_large v higher
        ∙ ap (λ t. (t, false))
            (rounds32-varint 3 8 (suc (left_before higher k)) (v / 128) 7 (v % 128) (omega arith)
                (omega arith) (omega (arith, left_before-length higher k)) (omega arith)
                (omega arith) (omega arith)
              ∙ ap (λ t. (some t, input (Source.buffer rest) k e)) (omega arith))
  ]

-- `pb_decode_varint32` reads back what `pb_encode_varint` writes for a value of 32 bits, from a
-- buffer that goes on after it.
pub pb_decode_varint32-varint :
    {S : Type 0} (rest : List ℕ) (k : ℕ) (e : Option String) (v : ℕ)
    → v < 2 ^ 32
    → pb_decode_varint32 {S = S} (before (varint 10 v) rest k e)
      ≡ (some v, input (Source.buffer rest) k e)
unfolding pb_decode_varint32
pb_decode_varint32-varint rest k e v h = ap (λ t. t.0) (pb_decode_varint32_eof-varint rest k e v h)

-- A number that is too long by far: 37 bytes without a bit of value, and one with `b`.
abbrev pub overlong : ℕ → List ℕ
overlong b =
    128 ∷ 128 ∷ 128 ∷ 128 ∷ 128 ∷ 128 ∷ 128 ∷ 128 ∷ 128 ∷ 128 ∷ 128 ∷ 128 ∷ 128 ∷ 128 ∷ 128 ∷ 128
    ∷ 128 ∷ 128 ∷ 128 ∷ 128 ∷ 128 ∷ 128 ∷ 128 ∷ 128 ∷ 128 ∷ 128 ∷ 128 ∷ 128 ∷ 128 ∷ 128 ∷ 128 ∷ 128
    ∷ 128 ∷ 128 ∷ 128 ∷ 128 ∷ 128 ∷ b ∷ []

-- After 37 bytes with a high bit and no other, `pb_decode_varint32` takes a byte `b` below 128 for
-- bits 3 to 9 of the result, since `bitpos` has wrapped round: it gives `b * 8` and no error.
pub pb_decode_varint32_wraps :
    {S : Type 0} (b : ℕ) (rest : List ℕ) (k : ℕ) (e : Option String)
    → b < 128
    → pb_decode_varint32 {S = S} (before (overlong b) rest k e)
      ≡ (some (b * 8), input (Source.buffer rest) k e)
unfolding pb_decode_varint32 pb_decode_varint32_eof rounds32 pb_readbyte
pb_decode_varint32_wraps b rest k e h =
    rounds32_last (suc k) b 3 0 rest k e h (omega arith) (omega arith) (omega arith)
    ∙ ap (λ t. (some t, input (Source.buffer rest) k e)) (omega arith)
