-- ===== src/Nanopb/Substreams.antt =====
-- Length-delimited data: pb_encode_string of pb_encode.c against pb_make_string_substream, pb_read
-- and pb_close_string_substream of pb_decode.c.
use on_my_way.Base.{
  ℕ, suc, ◌+◌, ◌-◌, ◌<◌, ◌^◌, ◌≡◌, refl, ap, ◌∙◌, true, false, Option, some, List, [], ◌∷◌, ◌++◌,
  length, String, arith, ltb, eqb, ge→ltb, if◌then◌else◌,
}
use on_my_way.Nanopb.Output.{OStream, pb_write, ◌then_write◌}
use on_my_way.Nanopb.Input.{
  Source, IStream, input, ◌>>=◌, take, drop, pb_read, pb_read_null, fail_read,
}
use on_my_way.Nanopb.Encode.{pb_encode_string}
use on_my_way.Nanopb.Decode.{
  pb_make_string_substream, pb_close_string_substream, hand_back, returns,
}
use on_my_way.Nanopb.Varint.{varint, pb_encode_varint-write}
use on_my_way.Nanopb.Varint.Reading.{left_before-length, before}
use on_my_way.Nanopb.Varint.Short.{pb_decode_varint32-varint}

take-append : (bs rest : List ℕ) → take (length bs) (bs ++ rest) ≡ bs
take-append [] rest = refl
take-append (b ∷ bs) rest = ap (λ t. b ∷ t) (take-append bs rest)

drop-append : (bs rest : List ℕ) → drop (length bs) (bs ++ rest) ≡ rest
drop-append [] rest = refl
drop-append (b ∷ bs) rest = drop-append bs rest

module _ {S : Type 0} (bs rest : List ℕ) (k : ℕ) (e : Option String) where
  -- A read of exactly the bytes that a buffer starts with.
  pub pb_read-append :
      pb_read {S = S} (input (Source.buffer (bs ++ rest)) (length bs + k) e) (length bs)
      ≡ (some bs, input (Source.buffer rest) k e)
  unfolding pb_read
  pb_read-append =
      ap
        (λ t.
          if t
          then fail_read (input (Source.buffer (bs ++ rest)) (length bs + k) e) "end-of-stream"
          else (
            some (take (length bs) (bs ++ rest)),
            input (Source.buffer (drop (length bs) (bs ++ rest))) (length bs + k - length bs) e,
          ))
        (ge→ltb (length bs + k) (length bs) (omega arith))
      ∙ ap
          (λ t. (
            some t,
            input (Source.buffer (drop (length bs) (bs ++ rest))) (length bs + k - length bs) e,
          ))
          (take-append bs rest)
      ∙ ap (λ t. (some bs, input (Source.buffer t) (length bs + k - length bs) e))
          (drop-append bs rest)
      ∙ ap (λ t. (some bs, input (Source.buffer rest) t e)) (omega arith)

  pub make-varint :
      length bs < 2 ^ 32
      → pb_make_string_substream {S = S}
          (before (varint 10 (length bs)) (bs ++ rest) (length bs + k) e)
        ≡ (
          some (input (Source.buffer (bs ++ rest)) (length bs) e),
          input (Source.buffer (bs ++ rest)) k e,
        )
  unfolding pb_make_string_substream
  make-varint h =
      let sub = input (Source.buffer (bs ++ rest)) (length bs) e in
      ap
        (λ r. r >>= λ (size, after).
          if ltb (after.bytes_left) size then fail_read after "parent stream too short" else (
            some (input (after.source) size (after.errmsg)),
            input (after.source) (after.bytes_left - size) (after.errmsg),
          ))
        (pb_decode_varint32-varint (bs ++ rest) (length bs + k) e (length bs) h)
      ∙ ap
          (λ t.
            if t
            then fail_read (input (Source.buffer (bs ++ rest)) (length bs + k) e)
                "parent stream too short"
            else (some sub, input (Source.buffer (bs ++ rest)) (length bs + k - length bs) e))
          (ge→ltb (length bs + k) (length bs) (omega arith))
      ∙ ap (λ t. (some sub, input (Source.buffer (bs ++ rest)) t e)) (omega arith)

read_whole :
    {S : Type 0} (bs rest : List ℕ) (e : Option String)
    → pb_read {S = S} (input (Source.buffer (bs ++ rest)) (length bs) e) (length bs)
      ≡ (some bs, input (Source.buffer rest) 0 e)
read_whole {S} bs rest e =
    ap (λ t. pb_read {S = S} (input (Source.buffer (bs ++ rest)) t e) (length bs)) (omega arith)
    ∙ pb_read-append bs rest 0 e

module _ {S : Type 0} (rest : List ℕ) (k : ℕ) (e : Option String) where
  close-unread :
      (bs : List ℕ)
      → pb_close_string_substream {S = S}
          (input (Source.buffer (bs ++ rest)) k e)
          (input (Source.buffer (bs ++ rest)) (length bs) e)
        ≡ (true, input (Source.buffer rest) k e)
  unfolding pb_close_string_substream pb_read_null
  close-unread [] = refl
  close-unread (b ∷ bs) =
      let sub = input {S = S} (Source.buffer (b ∷ bs ++ rest)) (length (b ∷ bs)) e in
      ap
        (λ t.
          hand_back (input (Source.buffer (b ∷ bs ++ rest)) k e)
            (if t then (true, sub) else returns (pb_read sub (length (b ∷ bs)))))
        (some_left (length bs))
      ∙ ap (λ r. hand_back (input (Source.buffer (b ∷ bs ++ rest)) k e) (returns r))
          (read_whole (b ∷ bs) rest e)
    where
      some_left : (n : ℕ) → eqb (suc n) 0 ≡ false
      some_left n = ground arith

-- For bytes of a 32-bit length, `pb_encode_string` is two writes on any stream, of a header and of
-- the bytes. From a buffer with both and then others, `pb_make_string_substream` gives a substream
-- in which one read gives exactly the bytes, and `pb_close_string_substream` leaves the parent
-- behind them: after that read, and also where nothing of the substream was read.
pub pb_make_string_substream-pb_encode_string :
    {S : Type 0} (bs : List ℕ)
    → length bs < 2 ^ 32
    → (header : List ℕ) × ((stream : OStream S)
        → pb_encode_string stream bs
          ≡ (pb_write stream header then_write λ after. pb_write after bs))
      × ((rest : List ℕ) (k : ℕ) (e : Option String)
          → (sub : IStream S) × (read : IStream S) × (parent : IStream S)
            × (pb_make_string_substream (
                  input
                    (Source.buffer (header ++ (bs ++ rest)))
                    (length header + (length bs + k))
                    e)
                ≡ (some sub, parent))
            × (pb_read sub (length bs) ≡ (some bs, read))
            × (pb_close_string_substream parent read ≡ (true, input (Source.buffer rest) k e))
            × (pb_close_string_substream parent sub ≡ (true, input (Source.buffer rest) k e)))
unfolding pb_encode_string pb_close_string_substream
pb_make_string_substream-pb_encode_string {S} bs h = (
  varint 10 (length bs),
  (λ stream.
      ap (λ r. r then_write λ after. pb_write after bs)
        (pb_encode_varint-write stream (length bs) (omega arith))),
  (λ rest k e. (
    input (Source.buffer (bs ++ rest)) (length bs) e,
    input (Source.buffer rest) 0 e,
    input (Source.buffer (bs ++ rest)) k e,
    ap
          (λ t.
            pb_make_string_substream {S = S}
              (input (Source.buffer (varint 10 (length bs) ++ (bs ++ rest))) t e))
          (left_before-length (varint 10 (length bs)) (length bs + k))
        ∙ make-varint bs rest k e h,
    read_whole bs rest e,
    refl,
    close-unread rest k e bs,
  )),
)
