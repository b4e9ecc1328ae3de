-- ===== src/Nanopb/Parsing/Whole.antt =====
-- pb_decode_noinit, pb_decode and what is built on them in pb_decode.c.
use on_my_way.Base.{ℕ, zero, suc, Bool, true, false, Option, none, some, List}
use on_my_way.Nanopb.Input.{IStream}
use on_my_way.Nanopb.Field.{Field}
use on_my_way.Nanopb.Decode.{pb_make_string_substream}
use on_my_way.Nanopb.Parsing.{State, Device, on_stream, on_memory}
use on_my_way.Nanopb.Parsing.Defaults.{pb_message_set_to_defaults}
use on_my_way.Nanopb.Parsing.Release.{pb_release}
use on_my_way.Nanopb.Parsing.Values.{close_after}
use on_my_way.Nanopb.Parsing.Rounds.{decode_message}

module _ {S H : Type 0} (device : Device S H) where
  abbrev pub release_failed : ℕ → ℕ → List Field → ℕ → Bool × State S H → Bool × State S H
  release_failed hops depth fields dest_struct (true, state) = (true, state)
  release_failed hops depth fields dest_struct (false, state) =
      (false, pb_release device hops depth fields dest_struct state)

  abbrev pub initialized :
      (List Field → ℕ → State S H → Bool × State S H)
      → ℕ
      → ℕ
      → List Field
      → ℕ
      → State S H
      → Bool × State S H
  initialized noinit hops depth fields dest_struct state =
      release_failed hops depth fields dest_struct (
        noinit fields dest_struct (
          on_memory state (
            pb_message_set_to_defaults (device.message_at) hops depth fields dest_struct
              (state.memory))))

  -- Messages are nested at most `depth` deep, and a list of extensions has at most `hops` members.
  -- At depth 0 the decoder gives up.
  unfoldable pub pb_decode_noinit : ℕ → ℕ → List Field → ℕ → State S H → Bool × State S H
  pb_decode_noinit hops zero fields dest_struct state = (false, state)
  pb_decode_noinit hops (suc depth) fields dest_struct state =
      let noinit = pb_decode_noinit hops depth in
      decode_message device hops depth
        (record { decode = initialized noinit hops depth; decode_noinit = noinit }) fields
        dest_struct state

  unfoldable pub pb_decode : ℕ → ℕ → List Field → ℕ → State S H → Bool × State S H
  pb_decode hops depth = initialized (pb_decode_noinit hops depth) hops depth

  abbrev pub in_substream :
      (State S H → Bool × State S H) → State S H → Option (IStream S) × IStream S → Bool × State S H
  in_substream decode state (none, parent) = (false, on_stream state parent)
  in_substream decode state (some substream, parent) =
      close_after parent (decode (on_stream state substream))

  unfoldable pub pb_decode_delimited_noinit : ℕ → ℕ → List Field → ℕ → State S H → Bool × State S H
  pb_decode_delimited_noinit hops depth fields dest_struct state =
      in_substream (pb_decode_noinit hops depth fields dest_struct) state
        (pb_make_string_substream (state.stream))

  unfoldable pub pb_decode_delimited : ℕ → ℕ → List Field → ℕ → State S H → Bool × State S H
  pb_decode_delimited hops depth fields dest_struct state =
      in_substream (pb_decode hops depth fields dest_struct) state
        (pb_make_string_substream (state.stream))

  unfoldable pub pb_decode_nullterminated : ℕ → ℕ → List Field → ℕ → State S H → Bool × State S H
  pb_decode_nullterminated hops depth fields dest_struct state =
      pb_decode hops depth fields dest_struct state
