-- ===== src/Nanopb/Steady/Framing.antt =====
-- What pb_encode, pb_encode_delimited and pb_encode_nullterminated of pb_encode.c store in a buffer,
-- against the count of pb_get_encoded_size and the substreams of pb_decode.c.
use on_my_way.Base.{
  ℕ, ◌+◌, ◌%◌, ◌^◌, ◌≤◌, ◌<◌, ◌≡◌, ap, ◌∙◌, Bool, true, false, ◌⊎◌, inl, inr, Option, none, some,
  List, [], ◌∷◌, ◌++◌, length, length-append, arith, String,
}
use native.Mathlib.Decide.{dec_le}
use on_my_way.Nanopb.Output.{Sink, OStream, out, pb_ostream_from_buffer, pb_write}
use on_my_way.Nanopb.Input.{Source, input}
use on_my_way.Nanopb.Decode.{pb_make_string_substream}
use on_my_way.Nanopb.Field.{Field}
use on_my_way.Nanopb.Message.{Program}
use on_my_way.Nanopb.Message.Whole.{
  pb_encode, pb_get_encoded_size, pb_encode_delimited, pb_encode_nullterminated, at_depth,
}
use on_my_way.Nanopb.Varint.{varint}
use on_my_way.Nanopb.Varint.Reading.{left_before-length}
use on_my_way.Nanopb.Substreams.{make-varint}
use on_my_way.Nanopb.Steady.{filling, Writes, then-Writes, pb_write-Writes}
use on_my_way.Nanopb.Steady.Values.{submessage-Writes}
use on_my_way.Nanopb.Steady.Messages.{CallbacksSteady, sized-Writes}

module _ {S : Type 0} where
  -- What an encoder of `bs` does to a new buffer of `bufsize` bytes.
  buffer-Writes :
      (enc : OStream S → Bool × OStream S) (bs : List ℕ) (bufsize : ℕ)
      → Writes enc bs
      → bufsize < 2 ^ 64
      → ((length bs ≤ bufsize)
          × (enc (pb_ostream_from_buffer bufsize)
              ≡ (true, out (Sink.buffer bs) bufsize (length bs) none)))
        ⊎ ((bufsize < length bs)
            × (((enc (pb_ostream_from_buffer bufsize)).0 ≡ false) ⊎ (2 ^ 64 ≤ length bs)))
  buffer-Writes enc bs bufsize (count, fill, over) small = elim (dec_le (length bs) bufsize) [
    | Dec.yes fits ↦ inl (
      fits,
      fill [] bufsize 0 (omega arith) small ∙ ap (λ t. (true, filling bs bufsize t)) (omega arith),
    )
    | Dec.no full ↦ inr (
      omega arith,
      elim (dec_le (2 ^ 64) (length bs)) [
        | Dec.yes huge ↦ inr huge
        | Dec.no word ↦ inl (over [] bufsize 0 (omega arith) (omega arith) (omega arith))
      ],
    )
  ]

module _ {S : Type 0} (program : Program S) (callbacks : CallbacksSteady program) where
  -- For a message whose encoder callbacks write the same bytes to every stream and which has an
  -- encoded size, there are bytes, and `pb_get_encoded_size` is their number modulo 2^64. `pb_encode`
  -- into a buffer of a size below 2^64 stores exactly them where they fit; where they do not, it
  -- fails or they are 2^64 or more.
  pub pb_encode-pb_get_encoded_size :
      (hops depth : ℕ) (fields : List Field) (src size bufsize : ℕ)
      → pb_get_encoded_size program hops depth fields src ≡ some size
      → bufsize < 2 ^ 64
      → (bs : List ℕ) × (size ≡ length bs % 2 ^ 64)
        × (((length bs ≤ bufsize)
              × (pb_encode program hops depth fields src (pb_ostream_from_buffer bufsize)
                  ≡ (true, out (Sink.buffer bs) bufsize (length bs) none)))
            ⊎ ((bufsize < length bs)
                × (((pb_encode program hops depth fields src (pb_ostream_from_buffer bufsize)).0
                      ≡ false)
                    ⊎ (2 ^ 64 ≤ length bs))))
  pb_encode-pb_get_encoded_size hops depth fields src size bufsize h small =
      let (bs, same, written) = sized-Writes program callbacks hops depth fields src size h in
      (bs, same, buffer-Writes (pb_encode program hops depth fields src) bs bufsize written small)

  substream_of :
      (bs rest : List ℕ) (k : ℕ) (e : Option String)
      → length bs < 2 ^ 32
      → pb_make_string_substream {S = S} (
          input
            (Source.buffer (varint 10 (length bs % 2 ^ 64) ++ (bs ++ rest)))
            (length (varint 10 (length bs % 2 ^ 64)) + (length bs + k))
            e)
        ≡ (
          some (input (Source.buffer (bs ++ rest)) (length bs) e),
          input (Source.buffer (bs ++ rest)) k e,
        )
  substream_of bs rest k e h =
      ap
        (λ t. pb_make_string_substream {S = S} (
          input (Source.buffer (varint 10 t ++ (bs ++ rest)))
            (length (varint 10 t) + (length bs + k)) e))
        (omega arith)
      ∙ ap
          (λ t.
            pb_make_string_substream {S = S}
              (input (Source.buffer (varint 10 (length bs) ++ (bs ++ rest))) t e))
          (left_before-length (varint 10 (length bs)) (length bs + k))
      ∙ make-varint bs rest k e h

  -- For such a message and a buffer below 2^32 bytes there are a header and the message's bytes, whose
  -- number modulo 2^64 is the encoded size. `pb_encode_delimited` stores exactly both in the buffer
  -- where they fit, and then `pb_make_string_substream` on a buffer with both and others behind them
  -- gives a substream of exactly the message's bytes; where they do not fit, it fails or they are
  -- 2^64 or more.
  pub pb_make_string_substream-pb_encode_delimited :
      (hops depth : ℕ) (fields : List Field) (src size bufsize : ℕ)
      → pb_get_encoded_size program hops depth fields src ≡ some size
      → bufsize < 2 ^ 32
      → (header : List ℕ) × (bs : List ℕ) × (size ≡ length bs % 2 ^ 64)
        × (((length (header ++ bs) ≤ bufsize)
              × (pb_encode_delimited program hops depth fields src (pb_ostream_from_buffer bufsize)
                  ≡ (true, out (Sink.buffer (header ++ bs)) bufsize (length (header ++ bs)) none))
              × ((rest : List ℕ) (k : ℕ) (e : Option String)
                  → pb_make_string_substream {S = S} (
                      input
                        (Source.buffer (header ++ (bs ++ rest)))
                        (length header + (length bs + k))
                        e)
                    ≡ (
                      some (input (Source.buffer (bs ++ rest)) (length bs) e),
                      input (Source.buffer (bs ++ rest)) k e,
                    )))
            ⊎ ((bufsize < length (header ++ bs))
                × (((pb_encode_delimited program hops depth fields src
                        (pb_ostream_from_buffer bufsize)).0
                      ≡ false)
                    ⊎ (2 ^ 64 ≤ length (header ++ bs)))))
  unfolding pb_encode_delimited
  pb_make_string_substream-pb_encode_delimited hops depth fields src size bufsize h small =
      let (bs, same, written) = sized-Writes program callbacks hops depth fields src size h in
      let header = varint 10 (length bs % 2 ^ 64) in
      (
        header,
        bs,
        same,
        elim (buffer-Writes (pb_encode_delimited program hops depth fields src) (header ++ bs)
            bufsize (submessage-Writes program (at_depth program hops depth) fields src bs written)
            (omega arith)) [
              | inl (fits, stored) ↦ inl (
                fits,
                stored,
                (λ rest k e.
                    substream_of bs rest k e (omega (arith, fits, length-append header bs))),
              )
              | inr full ↦ inr full
            ],
      )

  -- For such a message there are bytes, whose number modulo 2^64 is the encoded size, and
  -- `pb_encode_nullterminated` stores them and a zero in a buffer below 2^64 bytes where both fit;
  -- where they do not, it fails or they are 2^64 or more.
  pub pb_encode_nullterminated-pb_get_encoded_size :
      (hops depth : ℕ) (fields : List Field) (src size bufsize : ℕ)
      → pb_get_encoded_size program hops depth fields src ≡ some size
      → bufsize < 2 ^ 64
      → (bs : List ℕ) × (size ≡ length bs % 2 ^ 64)
        × (((length (bs ++ (0 ∷ [])) ≤ bufsize)
              × (pb_encode_nullterminated program hops depth fields src
                    (pb_ostream_from_buffer bufsize)
                  ≡ (
                    true,
                    out (Sink.buffer (bs ++ (0 ∷ []))) bufsize (length (bs ++ (0 ∷ []))) none,
                  )))
            ⊎ ((bufsize < length (bs ++ (0 ∷ [])))
                × (((pb_encode_nullterminated program hops depth fields src
                        (pb_ostream_from_buffer bufsize)).0
                      ≡ false)
                    ⊎ (2 ^ 64 ≤ length (bs ++ (0 ∷ []))))))
  unfolding pb_encode_nullterminated
  pb_encode_nullterminated-pb_get_encoded_size hops depth fields src size bufsize h small =
      let (bs, same, written) = sized-Writes program callbacks hops depth fields src size h in
      (
        bs,
        same,
        buffer-Writes (pb_encode_nullterminated program hops depth fields src) (bs ++ (0 ∷ []))
            bufsize
            (then-Writes (pb_encode program hops depth fields src)
              (λ stream. pb_write stream (0 ∷ [])) bs (0 ∷ []) written (pb_write-Writes (0 ∷ [])))
            small,
      )
