-- ===== src/Nanopb/Output.antt =====
-- Output streams: pb_ostream_t of pb_encode.h, buf_write, pb_ostream_from_buffer and pb_write of
-- pb_encode.c, and PB_SET_ERROR of pb.h.
use on_my_way.Base.{
  ℕ, ◌+◌, ◌%◌, ◌^◌, String, Bool, true, false, Option, none, some, List, [], ◌++◌, length, ltb,
  if◌then◌else◌,
}

-- The `callback` and `state` of a stream: no callback, `buf_write` with the bytes it has stored, or
-- the caller's own callback with its state.
pub data Sink (S : Type 0) : Type 0 where
  sizing : Sink S
  buffer : List ℕ → Sink S
  device : (S → List ℕ → Bool × S) → S → Sink S

pub record OStream (S : Type 0) : Type 0 where
  pub sink : Sink S
  pub max_size : ℕ
  pub bytes_written : ℕ
  pub errmsg : Option String

-- The first message stays.
abbrev pub set_error : Option String → String → Option String
set_error none message = some message
set_error (some earlier) message = some earlier

abbrev pub buf_write : List ℕ → List ℕ → Bool × List ℕ
buf_write dest buf = (true, dest ++ buf)

module _ {S : Type 0} where
  abbrev pub out : Sink S → ℕ → ℕ → Option String → OStream S
  out sink max_size bytes_written errmsg = record {
    sink = sink;
    max_size = max_size;
    bytes_written = bytes_written;
    errmsg = errmsg;
  }

  -- `if (!first) return false;` and what comes next.
  infixl 5 ◌then_write◌
  abbrev pub ◌then_write◌ : Bool × OStream S → (OStream S → Bool × OStream S) → Bool × OStream S
  (true, stream) then_write next = next stream
  (false, stream) then_write next = (false, stream)

  abbrev pub pb_ostream_sizing : OStream S
  pb_ostream_sizing = out Sink.sizing 0 0 none

  abbrev pub pb_ostream_from_buffer : ℕ → OStream S
  pb_ostream_from_buffer bufsize = out (Sink.buffer []) bufsize 0 none

  abbrev pub fail_write : OStream S → String → Bool × OStream S
  fail_write stream message = (
    false,
    out (stream.sink) (stream.max_size) (stream.bytes_written) (set_error (stream.errmsg) message),
  )

  -- `stream->callback(stream, buf, count)`.
  abbrev pub call_sink : Sink S → List ℕ → Bool × Sink S
  call_sink Sink.sizing buf = (true, Sink.sizing)
  call_sink (Sink.buffer dest) buf = ((buf_write dest buf).0, Sink.buffer ((buf_write dest buf).1))
  call_sink (Sink.device callback state) buf =
      ((callback state buf).0, Sink.device callback ((callback state buf).1))

  abbrev pub count_written : OStream S → ℕ → Bool × OStream S
  count_written stream count = (
    true,
    out (stream.sink) (stream.max_size) ((stream.bytes_written + count) % 2 ^ 64) (stream.errmsg),
  )

  -- What follows the callback in `pb_write`.
  abbrev pub after_call : OStream S → ℕ → Bool × Sink S → Bool × OStream S
  after_call stream count (true, sink) =
      count_written (out sink (stream.max_size) (stream.bytes_written) (stream.errmsg)) count
  after_call stream count (false, sink) =
      fail_write (out sink (stream.max_size) (stream.bytes_written) (stream.errmsg)) "io error"

  abbrev pub guarded_write : OStream S → List ℕ → Bool × OStream S
  guarded_write stream buf =
      if ltb (stream.max_size) ((stream.bytes_written + length buf) % 2 ^ 64)
      then fail_write stream "stream full"
      else after_call stream (length buf) (call_sink (stream.sink) buf)

  abbrev pub write_to : Sink S → OStream S → List ℕ → Bool × OStream S
  write_to Sink.sizing stream buf = count_written stream (length buf)
  write_to (Sink.buffer _) stream buf = guarded_write stream buf
  write_to (Sink.device _ _) stream buf = guarded_write stream buf

  unfoldable pub pb_write : OStream S → List ℕ → Bool × OStream S
  pb_write stream buf = write_to (stream.sink) stream buf
