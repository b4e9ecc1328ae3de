-- ===== src/Nanopb/Input.antt =====
-- Input streams: pb_istream_t of pb_decode.h, buf_read, pb_istream_from_buffer, pb_read and
-- pb_readbyte of pb_decode.c. A reading function gives its value, or `none` where the C function
-- returns false, with the stream it leaves.
use on_my_way.Base.{
  ℕ, zero, suc, ◌-◌, String, true, false, Option, none, some, List, [], ◌∷◌, ltb, if◌then◌else◌,
}
use on_my_way.Nanopb.Output.{set_error}

-- `callback` and `state`: `buf_read` with the memory from its pointer on, or the caller's own.
pub data Source (S : Type 0) : Type 0 where
  buffer : List ℕ → Source S
  device : (S → ℕ → Option (List ℕ) × S) → S → Source S

pub record IStream (S : Type 0) : Type 0 where
  pub source : Source S
  pub bytes_left : ℕ
  pub errmsg : Option String

abbrev pub take : ℕ → List ℕ → List ℕ
take zero xs = []
take (suc n) [] = []
take (suc n) (x ∷ xs) = x ∷ take n xs

abbrev pub drop : ℕ → List ℕ → List ℕ
drop zero xs = xs
drop (suc n) [] = []
drop (suc n) (x ∷ xs) = drop n xs

-- Past the end of its memory C's read is undefined; here it gives the bytes there are. A stream
-- whose `bytes_left` is within its memory never comes to that.
abbrev pub buf_read : List ℕ → ℕ → Option (List ℕ) × List ℕ
buf_read source count = (some (take count source), drop count source)

module _ {S : Type 0} where
  abbrev pub input : Source S → ℕ → Option String → IStream S
  input source bytes_left errmsg = record {
    source = source;
    bytes_left = bytes_left;
    errmsg = errmsg;
  }

  infixl 5 ◌>>=◌
  abbrev pub ◌>>=◌ :
      {A B : Type 0}
      → Option A × IStream S
      → (A × IStream S → Option B × IStream S)
      → Option B × IStream S
  (none, stream) >>= next = (none, stream)
  (some a, stream) >>= next = next (a, stream)

  abbrev pub fail_read : {A : Type 0} → IStream S → String → Option A × IStream S
  fail_read stream message =
      (none, input (stream.source) (stream.bytes_left) (set_error (stream.errmsg) message))

  abbrev pub pb_istream_from_buffer : List ℕ → ℕ → IStream S
  pb_istream_from_buffer buf bufsize = input (Source.buffer buf) bufsize none

  abbrev pub call_source : Source S → ℕ → Option (List ℕ) × Source S
  call_source (Source.buffer source) count =
      ((buf_read source count).0, Source.buffer ((buf_read source count).1))
  call_source (Source.device callback state) count =
      ((callback state count).0, Source.device callback ((callback state count).1))

  -- What follows the callback: `bytes_left -= count`.
  abbrev pub after_read : IStream S → ℕ → Option (List ℕ) × Source S → Option (List ℕ) × IStream S
  after_read stream count (none, source) =
      fail_read (input source (stream.bytes_left) (stream.errmsg)) "io error"
  after_read stream count (some buf, source) =
      (some buf, input source (stream.bytes_left - count) (stream.errmsg))

  -- `pb_read` with a buffer to read into.
  unfoldable pub pb_read : IStream S → ℕ → Option (List ℕ) × IStream S
  pb_read stream count =
      if ltb (stream.bytes_left) count
      then fail_read stream "end-of-stream"
      else after_read stream count (call_source (stream.source) count)

  -- The loop of `pb_read` with no buffer, over a callback that is not `buf_read`.
  unfoldable pub skip_chunks : ℕ → IStream S → ℕ → Option (List ℕ) × IStream S
  skip_chunks zero stream count = pb_read stream count
  skip_chunks (suc fuel) stream count = elim (ltb 16 count) [
    | false ↦ pb_read stream count
    | true ↦ pb_read stream 16 >>= λ (_, rest). skip_chunks fuel rest (count - 16)
  ]

  -- `pb_read` with no buffer. A round takes 16 bytes, so `count` rounds are enough.
  abbrev pub skip_source : Source S → IStream S → ℕ → Option (List ℕ) × IStream S
  skip_source (Source.buffer _) stream count = pb_read stream count
  skip_source (Source.device _ _) stream count = skip_chunks count stream count

  unfoldable pub pb_read_null : IStream S → ℕ → Option (List ℕ) × IStream S
  pb_read_null stream count = skip_source (stream.source) stream count

  -- The byte that a read of one byte gives.
  abbrev pub first_byte : List ℕ → IStream S → Option ℕ × IStream S
  first_byte [] stream = (none, stream)
  first_byte (byte ∷ _) stream = (some byte, stream)

  -- What follows the callback in `pb_readbyte`, which leaves `left` bytes.
  abbrev pub after_byte : IStream S → ℕ → Option (List ℕ) × Source S → Option ℕ × IStream S
  after_byte stream left (none, source) =
      fail_read (input source (stream.bytes_left) (stream.errmsg)) "io error"
  after_byte stream left (some buf, source) = first_byte buf (input source left (stream.errmsg))

  unfoldable pub pb_readbyte : IStream S → Option ℕ × IStream S
  pb_readbyte stream = elim (stream.bytes_left) [
    | zero ↦ fail_read stream "end-of-stream"
    | suc left ↦ after_byte stream left (call_source (stream.source) 1)
  ]
