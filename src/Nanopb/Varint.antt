-- ===== src/Nanopb/Varint.antt =====
-- Base-128 numbers: what the loop of pb_encode_varint in pb_encode.c fills its buffer with.
pub mod Reading
pub mod Short
use on_my_way.Base.{
  ℕ, zero, suc, ◌+◌, ◌*◌, ◌/◌, ◌%◌, ◌≤◌, ◌<◌, ◌^◌, ◌≡◌, ap, ◌∙◌, some, List, [], ◌∷◌, length, ltb,
  lt→ltb, le→leb, lt→leb, ge→ltb, sym, if◌then◌else◌, bit_and, bit_or, arith,
}
use native.Mathlib.Decide.{dec_lt}
use on_my_way.Base.Bits.{and_0x7f, or_0x80}
use on_my_way.Nanopb.Output.{OStream, pb_write}
use on_my_way.Nanopb.Encode.{fill_buffer, unset_last, pb_encode_varint, keep_byte, write_buffer}

-- `128 ^ n`.
abbrev pub capacity : ℕ → ℕ
capacity zero = 1
capacity (suc n) = 128 * capacity n

-- The wire format: groups of 7 bits, the lowest first, and a high bit on all but the last.
unfoldable pub varint : ℕ → ℕ → List ℕ
varint zero v = []
varint (suc n) v =
    let rest = varint n (v / 128) in if ltb v 128 then v ∷ [] else (v % 128 + 128) ∷ rest

with_high_bit : (v : ℕ) → bit_or (bit_and v 0x7f) 0x80 ≡ v % 128 + 128
with_high_bit v = ap (λ t. bit_or t 0x80) (and_0x7f v) ∙ or_0x80 (v % 128) (omega arith)

Fills : ℕ → ℕ → List ℕ → Type 0
Fills n v bs = (fill_buffer n v ≡ some bs) × (unset_last bs ≡ varint n v) × (0 < length bs)

pub varint_last : (n v : ℕ) → v < 128 → varint (suc n) v ≡ v ∷ []
unfolding varint
varint_last n v h =
    ap (λ t. if t then v ∷ [] else (v % 128 + 128) ∷ varint n (v / 128)) (lt→ltb v 128 h)

pub varint_more : (n v : ℕ) → 128 ≤ v → varint (suc n) v ≡ (v % 128 + 128) ∷ varint n (v / 128)
unfolding varint
varint_more n v h =
    ap (λ t. if t then v ∷ [] else (v % 128 + 128) ∷ varint n (v / 128)) (ge→ltb v 128 h)

fill_last : (n v : ℕ) → 0 < v → v < 128 → (bs : List ℕ) × Fills (suc n) v bs
unfolding Fills fill_buffer unset_last
fill_last n zero pos h = absurd (omega arith)
fill_last n (suc v) pos h = (
  bit_or (bit_and (suc v) 0x7f) 0x80 ∷ [],
  (
    ap (λ w. keep_byte (bit_or (bit_and (suc v) 0x7f) 0x80) (fill_buffer n w)) none_left,
    ap (λ b. b ∷ []) unset ∙ sym (varint_last n (suc v) h),
    omega arith,
  ),
)
  where
    none_left : suc v / 128 ≡ 0
    none_left = omega arith

    unset : bit_and (bit_or (bit_and (suc v) 0x7f) 0x80) 0x7f ≡ suc v
    unset = omega (arith, with_high_bit (suc v), and_0x7f (bit_or (bit_and (suc v) 0x7f) 0x80))

fill_more :
    (n v : ℕ) → 128 ≤ v → (bs : List ℕ) → Fills n (v / 128) bs → (cs : List ℕ) × Fills (suc n) v cs
unfolding Fills fill_buffer unset_last
fill_more n zero large bs h = absurd (omega arith)
fill_more n (suc v) large [] (filled, same, some_bytes) = absurd (omega arith)
fill_more n (suc v) large (b ∷ bs) (filled, same, some_bytes) = (
  bit_or (bit_and (suc v) 0x7f) 0x80 ∷ b ∷ bs,
  (
    ap (keep_byte (bit_or (bit_and (suc v) 0x7f) 0x80)) filled,
    ap (λ c. c ∷ unset_last (b ∷ bs)) (with_high_bit (suc v))
        ∙ ap (λ cs. (suc v % 128 + 128) ∷ cs) same
        ∙ sym (varint_more n (suc v) large),
    omega arith,
  ),
)

fill_buffer-Fills : (n v : ℕ) → 0 < v → v < capacity n → (bs : List ℕ) × Fills n v bs
fill_buffer-Fills zero v pos h = absurd (omega arith)
fill_buffer-Fills (suc n) v pos h = elim (dec_lt v 128) [
  | Dec.yes small ↦ fill_last n v pos small
  | Dec.no large ↦
      let (bs, filled) = fill_buffer-Fills n (v / 128) (omega arith) (omega arith) in
      fill_more n v (omega arith) bs filled
]

module _ {S : Type 0} where
  -- What `pb_encode_varint` writes.
  pub pb_encode_varint-write :
      (stream : OStream S) (v : ℕ)
      → v < 2 ^ 64
      → pb_encode_varint stream v ≡ pb_write stream (varint 10 v)
  unfolding pb_encode_varint Fills
  pb_encode_varint-write stream v h = elim (dec_lt v 128) [
    | Dec.yes small ↦
        ap (λ t. if t then pb_write stream (v ∷ []) else write_buffer stream (fill_buffer 10 v))
          (le→leb v 127 (omega arith))
        ∙ ap (pb_write stream) (sym (varint_last 9 v small))
    | Dec.no large ↦
        let (bs, (filled, same, some_bytes)) = fill_buffer-Fills 10 v (omega arith) (omega arith) in
        ap (λ t. if t then pb_write stream (v ∷ []) else write_buffer stream (fill_buffer 10 v))
          (lt→leb 127 v (omega arith))
        ∙ ap (write_buffer stream) filled
        ∙ ap (pb_write stream) same
  ]
