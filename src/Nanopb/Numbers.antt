-- ===== src/Nanopb/Numbers.antt =====
-- Integer fields: pb_enc_varint and pb_enc_uvarint of pb_encode.c against pb_dec_varint and
-- pb_dec_uvarint of pb_decode.c.
use on_my_way.Base.{
  ℕ, ◌+◌, ◌*◌, ◌%◌, ◌<◌, ◌^◌, ◌≡◌, refl, ap, sym, subst, ◌∙◌, true, ◌⊎◌, inl, inr, Option, none,
  some, List, ◌++◌, length, String, arith, eqb, ltb, if◌then◌else◌, Bool-cases,
}
use on_my_way.Nanopb.Output.{OStream, pb_write, fail_write}
use on_my_way.Nanopb.Input.{Source, input, ◌>>=◌, fail_read}
use on_my_way.Nanopb.Field.{Field}
use on_my_way.Nanopb.Encode.{pb_encode_varint}
use on_my_way.Nanopb.Encode.Fields.{sign_extend, load_signed, load_unsigned, pb_enc_varint}
use on_my_way.Nanopb.Decode.Fields.{clamp_signed, check_clamped, pb_dec_varint, pb_dec_uvarint}
use on_my_way.Nanopb.Varint.{varint, pb_encode_varint-write}
use on_my_way.Nanopb.Varint.Reading.{left_before-length, pb_decode_varint-varint}

-- The sizes of integer fields.
abbrev pub IsIntSize : ℕ → Type 0
IsIntSize n = (n ≡ 1) ⊎ (n ≡ 2) ⊎ (n ≡ 4) ⊎ (n ≡ 8)

-- The value of a signed integer of `n` bytes at `x`, cast to 64 bits.
abbrev pub signed_value : ℕ → ℕ → ℕ
signed_value n x = sign_extend (8 * n) x

-- What `pb_dec_varint` makes of a 64-bit value before it clamps it.
svalue_of : ℕ → ℕ → ℕ
svalue_of n v = if eqb n 8 then v else sign_extend 32 v

Settles : ℕ → ℕ → Type 0
Settles n x =
    (load_signed n x ≡ some (signed_value n x))
    × (signed_value n x < 2 ^ 64)
    × (svalue_of n (signed_value n x) ≡ signed_value n x)
    × (clamp_signed n (signed_value n x) ≡ some (signed_value n x))

settles : (n x : ℕ) → IsIntSize n → Settles n x
unfolding Settles svalue_of
settles n x (inl e) =
    subst (λ t. Settles t x) (sym e) (refl, ground arith, ground arith, ap some (ground arith))
settles n x (inr (inl e)) =
    subst (λ t. Settles t x) (sym e) (refl, ground arith, ground arith, ap some (ground arith))
settles n x (inr (inr (inl e))) =
    subst (λ t. Settles t x) (sym e) (refl, ground arith, ground arith, ap some (ground arith))
settles n x (inr (inr (inr e))) = subst (λ t. Settles t x) (sym e) (refl, ground arith, refl, refl)

eqb_refl : (v : ℕ) → eqb v v ≡ true
eqb_refl v = ground arith

-- Whether a 64-bit value is the same after the cast to `n` bytes.
Fits : ℕ → ℕ → Type 0
Fits n v =
    (cut : ℕ) × (load_unsigned n v ≡ some cut)
    × (eqb cut v ≡ ltb v (2 ^ (8 * n)))
    × (ltb v (2 ^ (8 * n)) ≡ true → cut ≡ v)

fits : (n v : ℕ) → v < 2 ^ 64 → IsIntSize n → Fits n v
unfolding Fits
fits n v h (inl e) =
    subst (λ t. Fits t v) (sym e) (v % 2 ^ 8, refl, ground arith, λ k. ground arith)
fits n v h (inr (inl e)) =
    subst (λ t. Fits t v) (sym e) (v % 2 ^ 16, refl, ground arith, λ k. ground arith)
fits n v h (inr (inr (inl e))) =
    subst (λ t. Fits t v) (sym e) (v % 2 ^ 32, refl, ground arith, λ k. ground arith)
fits n v h (inr (inr (inr e))) =
    subst (λ t. Fits t v) (sym e) (v % 2 ^ 64, refl, ground arith, λ k. ground arith)

-- For a field of 1, 2, 4 or 8 bytes there are bytes such that `pb_enc_varint` is one `pb_write` of
-- them on any stream, and `pb_dec_varint` reads the field's signed value back, cast to 64 bits,
-- from a buffer that starts with them, without an error, and stops behind them.
pub pb_dec_varint-pb_enc_varint :
    {S : Type 0} (field : Field) (x : ℕ)
    → IsIntSize (field.data_size)
    → (bs : List ℕ) × ((stream : OStream S) → pb_enc_varint stream field x ≡ pb_write stream bs)
      × ((rest : List ℕ) (k : ℕ) (e : Option String)
          → pb_dec_varint {S = S} (input (Source.buffer (bs ++ rest)) (length bs + k) e) field
            ≡ (some (signed_value (field.data_size) x), input (Source.buffer rest) k e))
unfolding pb_enc_varint pb_dec_varint svalue_of Settles
pb_dec_varint-pb_enc_varint {S} field x size =
    let n = field.data_size in
    let v = signed_value n x in
    let (loaded, below, same, clamped) = settles n x size in
    (
      varint 10 v,
      (λ stream.
          ap
            (λ o. elim o [
              | none ↦ fail_write stream "invalid data_size"
              | some value ↦ pb_encode_varint stream value
            ])
            loaded
          ∙ pb_encode_varint-write stream v below),
      (λ rest k e.
          let after = input {S = S} (Source.buffer rest) k e in
          ap (λ t. pb_dec_varint {S = S} (input (Source.buffer (varint 10 v ++ rest)) t e) field)
            (left_before-length (varint 10 v) k)
          ∙ ap
              (λ r. r >>= λ (value, left).
                check_clamped (svalue_of n value) (clamp_signed n (svalue_of n value)) left)
              (pb_decode_varint-varint rest k e v below)
          ∙ ap (λ t. check_clamped t (clamp_signed n t) after) same
          ∙ ap (λ t. check_clamped v t after) clamped
          ∙ ap (λ t. if t then (some v, after) else fail_read after "integer too large")
              (eqb_refl v)),
    )

-- For a field of 1, 2, 4 or 8 bytes and a 64-bit value there are bytes such that `pb_encode_varint`
-- of the value is one `pb_write` of them on any stream. From a buffer that starts with them,
-- `pb_dec_uvarint` gives the value and stops behind them where it is below 2^(8 * data_size), and
-- fails with the message of a too large integer where it is not.
pub pb_dec_uvarint_exact :
    {S : Type 0} (field : Field) (v : ℕ)
    → v < 2 ^ 64
    → IsIntSize (field.data_size)
    → (bs : List ℕ) × ((stream : OStream S) → pb_encode_varint stream v ≡ pb_write stream bs)
      × ((rest : List ℕ) (k : ℕ) (e : Option String)
          → pb_dec_uvarint {S = S} (input (Source.buffer (bs ++ rest)) (length bs + k) e) field ≡ (
              if ltb v (2 ^ (8 * (field.data_size)))
              then (some v, input (Source.buffer rest) k e)
              else fail_read (input (Source.buffer rest) k e) "integer too large"))
unfolding pb_dec_uvarint Fits
pb_dec_uvarint_exact {S} field v h size =
    let n = field.data_size in
    let (cut, loaded, same, kept) = fits n v h size in
    (
      varint 10 v,
      (λ stream. pb_encode_varint-write stream v h),
      (λ rest k e.
          let after = input {S = S} (Source.buffer rest) k e in
          ap (λ t. pb_dec_uvarint {S = S} (input (Source.buffer (varint 10 v ++ rest)) t e) field)
            (left_before-length (varint 10 v) k)
          ∙ ap (λ r. r >>= λ (value, left). check_clamped value (load_unsigned n value) left)
              (pb_decode_varint-varint rest k e v h)
          ∙ ap (λ t. check_clamped v t after) loaded
          ∙ ap (λ t. if t then (some cut, after) else fail_read after "integer too large") same
          ∙ elim (Bool-cases (ltb v (2 ^ (8 * n)))) [
            | inl below ↦ rw below (ap (λ t. (some t, after)) (kept below))
            | inr above ↦ rw above refl
          ]),
    )
