-- ===== src/Nanopb/Parsing/Transfer.antt =====
-- Integer fields of messages in memory: encode_value against decode_value, which stand for the tables
-- PB_ENCODERS of pb_encode.c and PB_DECODERS of pb_decode.c.
use on_my_way.Base.{
  ℕ, ◌+◌, ◌*◌, ◌/◌, ◌<◌, ◌^◌, ◌≡◌, ap, sym, subst, ◌∙◌, true, inl, inr, Option, List, ◌++◌, length,
  String, arith,
}
use on_my_way.Nanopb.Memory.{Memory, load, store}
use on_my_way.Nanopb.Output.{OStream, pb_write}
use on_my_way.Nanopb.Input.{Source, input}
use on_my_way.Nanopb.Field.{Field, pb_ltype, pb_ltype_varint}
use on_my_way.Nanopb.Numbers.{IsIntSize, signed_value, pb_dec_varint-pb_enc_varint}
use on_my_way.Nanopb.Stored.{load-below, load-store}
use on_my_way.Nanopb.Message.{Program, Below, encode_by_ltype, encode_value}
use on_my_way.Nanopb.Parsing.{State, Device, reading}
use on_my_way.Nanopb.Parsing.Values.{Inner, store_number, decode_by_ltype, decode_value}

-- The cast to 64 bits keeps the lowest bytes.
Keeps : ℕ → ℕ → Type 0
Keeps n x = x < 256 ^ n → (q : ℕ) × (signed_value n x ≡ x + 256 ^ n * q)

keeps : (n x : ℕ) → IsIntSize n → Keeps n x
unfolding Keeps
keeps n x (inl e) = subst (λ t. Keeps t x) (sym e) (λ h. (signed_value 1 x / 256, ground arith))
keeps n x (inr (inl e)) =
    subst (λ t. Keeps t x) (sym e) (λ h. (signed_value 2 x / 256 ^ 2, ground arith))
keeps n x (inr (inr (inl e))) =
    subst (λ t. Keeps t x) (sym e) (λ h. (signed_value 4 x / 256 ^ 4, ground arith))
keeps n x (inr (inr (inr e))) =
    subst (λ t. Keeps t x) (sym e) (λ h. (signed_value 8 x / 256 ^ 8, ground arith))

stored_value :
    (n : ℕ) (memory : Memory) (dest x : ℕ)
    → IsIntSize n
    → x < 256 ^ n
    → load (store memory n dest (signed_value n x)) n dest ≡ x
unfolding Keeps
stored_value n memory dest x size below =
    let (q, same) = keeps n x size below in
    load-store n memory dest (signed_value n x) x q same below

module _ {S H : Type 0} where
  -- For a signed integer field of 1, 2, 4 or 8 bytes there are bytes such that encoding the field's
  -- value in one memory is one `pb_write` of them on any stream. Decoding the field from a buffer that
  -- starts with them, into any address of another memory, succeeds, stops behind them, leaves the
  -- heap alone and stores bytes that read as the value in the first memory.
  pub decode_value-encode_value :
      (program : Program S) (below : Below S) (device : Device S H) (inner : Inner S H)
      (field : Field) (src dest : ℕ)
      → pb_ltype (field.type) ≡ pb_ltype_varint
      → IsIntSize (field.data_size)
      → (bs : List ℕ) × ((stream : OStream S)
          → encode_value program below field src stream ≡ pb_write stream bs)
        × ((rest : List ℕ) (k : ℕ) (e : Option String) (memory : Memory) (heap : H)
            → (after : Memory) × (decode_value device inner field dest (record {
              stream = input (Source.buffer (bs ++ rest)) (length bs + k) e;
              memory = memory;
              heap = heap;
            })
                ≡ (
                  true,
                  record { stream = input (Source.buffer rest) k e; memory = after; heap = heap },
                ))
              × (load after (field.data_size) dest ≡ load (program.memory) (field.data_size) src))
  unfolding encode_value decode_value
  decode_value-encode_value program below device inner field src dest is_varint size =
      let n = field.data_size in
      let x = load (program.memory) n src in
      let (bs, written, read) = pb_dec_varint-pb_enc_varint {S = S} field x size in
      (
        bs,
        (λ stream.
            ap (λ l. encode_by_ltype program below l field src stream) is_varint ∙ written stream),
        (λ rest k e memory heap.
            let state : State S H = record {
              stream = input (Source.buffer (bs ++ rest)) (length bs + k) e;
              memory = memory;
              heap = heap;
            } in
            (
              store memory n dest (signed_value n x),
              ap (λ l. decode_by_ltype device inner l field dest state) is_varint
                  ∙ ap (λ r. reading state r (store_number n dest)) (read rest k e),
              stored_value n memory dest x size (load-below n (program.memory) src),
            )),
      )
