-- ===== src/Nanopb/Bounds.antt =====
-- What pb_write and pb_encode_varint of pb_encode.c keep within the space of a stream.
use on_my_way.Base.{
  ℕ, zero, suc, ◌+◌, ◌/◌, ◌%◌, ◌≤◌, ◌<◌, ◌^◌, ◌≡◌, ap, sym, subst, ◌∙◌, true, false, Option, none,
  List, [], ◌++◌, length, length-append, All, String, arith, ltb, ge→ltb, lt→ltb, if◌then◌else◌,
}
use native.Mathlib.Decide.{dec_lt}
use on_my_way.Nanopb.Output.{
  Sink, OStream, out, set_error, pb_ostream_sizing, pb_ostream_from_buffer, pb_write, fail_write,
  after_call, call_sink,
}
use on_my_way.Nanopb.Encode.{pb_encode_varint}
use on_my_way.Nanopb.Varint.{varint, varint_last, varint_more, pb_encode_varint-write}

-- A buffer holds as many bytes as the stream has counted, and no more than its size.
abbrev pub IsStored : {S : Type 0} → Sink S → ℕ → ℕ → Type 0
IsStored Sink.sizing max_size bytes_written = Unit
IsStored (Sink.buffer dest) max_size bytes_written =
    (length dest ≡ bytes_written) × (bytes_written ≤ max_size)
IsStored (Sink.device callback state) max_size bytes_written = Unit

abbrev pub IsWithin : {S : Type 0} → OStream S → Type 0
IsWithin stream = IsStored (stream.sink) (stream.max_size) (stream.bytes_written)

no_wrap : (n : ℕ) → n < 2 ^ 64 → n % 2 ^ 64 ≡ n
no_wrap n h = omega arith

module _ {S : Type 0} (dest : List ℕ) (max_size : ℕ) (e : Option String) (buf : List ℕ) where
  pub pb_write_fits :
      (w : ℕ)
      → w + length buf ≤ max_size
      → max_size < 2 ^ 64
      → pb_write {S = S} (out (Sink.buffer dest) max_size w e) buf
        ≡ (true, out (Sink.buffer (dest ++ buf)) max_size (w + length buf) e)
  unfolding pb_write
  pb_write_fits w fits h =
      let stream = out {S = S} (Sink.buffer dest) max_size w e in
      ap
        (λ t.
          if t
          then fail_write stream "stream full"
          else after_call stream (length buf) (call_sink (Sink.buffer dest) buf))
        (ap (ltb max_size) (no_wrap (w + length buf) (omega arith))
          ∙ ge→ltb max_size (w + length buf) fits)
      ∙ ap (λ t. (true, out (Sink.buffer (dest ++ buf)) max_size t e))
          (no_wrap (w + length buf) (omega arith))

  pub pb_write_full :
      (w : ℕ)
      → max_size < w + length buf
      → w + length buf < 2 ^ 64
      → pb_write {S = S} (out (Sink.buffer dest) max_size w e) buf
        ≡ (false, out (Sink.buffer dest) max_size w (set_error e "stream full"))
  unfolding pb_write
  pb_write_full w full h =
      let stream = out {S = S} (Sink.buffer dest) max_size w e in
      ap
        (λ t.
          if t
          then fail_write stream "stream full"
          else after_call stream (length buf) (call_sink (Sink.buffer dest) buf))
        (ap (ltb max_size) (no_wrap (w + length buf) h) ∙ lt→ltb max_size (w + length buf) full)

-- From a stream into a buffer that holds what it has counted, within its size, `pb_write` leaves
-- such a stream, whether the bytes fit or not, where the size and the number of bytes together stay
-- below 2^64.
pub pb_write-IsWithin :
    (S : Type 0) (dest buf : List ℕ) (max_size w : ℕ) (e : Option String)
    → length dest ≡ w
    → w ≤ max_size
    → max_size + length buf < 2 ^ 64
    → IsWithin (pb_write {S = S} (out (Sink.buffer dest) max_size w e) buf).1
pb_write-IsWithin S dest buf max_size w e same within h = elim (dec_lt max_size (w + length buf)) [
  | Dec.yes full ↦
      subst (λ r. IsWithin (r.1))
        (sym (pb_write_full {S = S} dest max_size e buf w full (omega arith))) (same, within)
  | Dec.no fits ↦
      subst (λ r. IsWithin (r.1))
        (sym (pb_write_fits {S = S} dest max_size e buf w (omega arith) (omega arith)))
        (omega (arith, length-append dest buf), omega arith)
]

abbrev pub IsByte : ℕ → Type 0
IsByte b = b < 256

length-varint : (n v : ℕ) → length (varint n v) ≤ n
unfolding varint
length-varint zero v = omega arith
length-varint (suc n) v = ground (arith, length-varint n (v / 128))

varint-some : (n v : ℕ) → 1 ≤ length (varint (suc n) v)
unfolding varint
varint-some n v = ground arith

varint-bytes : (n v : ℕ) → All IsByte (varint n v)
unfolding varint
varint-bytes zero v = tt
varint-bytes (suc n) v = elim (dec_lt v 128) [
  | Dec.yes small ↦ subst (All IsByte) (sym (varint_last n v small)) (omega arith, tt)
  | Dec.no large ↦
      subst (All IsByte) (sym (varint_more n v (omega arith)))
        (omega arith, varint-bytes n (v / 128))
]

-- For a value of 64 bits, a buffer of ten bytes takes what `pb_encode_varint` writes, which is 1 to
-- 10 bytes below 256, and a stream that only counts gives their number.
pub pb_encode_varint_size :
    (S : Type 0) (v : ℕ)
    → v < 2 ^ 64
    → (bs : List ℕ) × (pb_encode_varint {S = S} (pb_ostream_from_buffer 10) v
        ≡ (true, out (Sink.buffer bs) 10 (length bs) none))
      × (pb_encode_varint {S = S} pb_ostream_sizing v ≡ (true, out Sink.sizing 0 (length bs) none))
      × (1 ≤ length bs)
      × (length bs ≤ 10)
      × All IsByte bs
unfolding pb_write
pb_encode_varint_size S v h =
    let bs = varint 10 v in
    (
      bs,
      pb_encode_varint-write (pb_ostream_from_buffer 10) v h
          ∙ pb_write_fits [] 10 none bs 0 (omega (arith, length-varint 10 v)) (omega arith)
          ∙ ap (λ t. (true, out (Sink.buffer bs) 10 t none)) (omega arith),
      pb_encode_varint-write pb_ostream_sizing v h
          ∙ ap (λ t. (true, out Sink.sizing 0 t none))
              (no_wrap (0 + length bs) (omega (arith, length-varint 10 v)) ∙ omega arith),
      varint-some 9 v,
      length-varint 10 v,
      varint-bytes 10 v,
    )
