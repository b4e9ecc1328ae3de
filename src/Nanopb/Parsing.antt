-- ===== src/Nanopb/Parsing.antt =====
-- Decoding of whole messages: decode_static_field to pb_decode_nullterminated of pb_decode.c, with
-- pb_release and pb_dec_submessage, built with PB_ENABLE_MALLOC. This file has the state that the
-- decoder works on and allocate_field. The descriptors, the functions that a message holds pointers
-- to, pb_realloc and pb_free are parameters.
pub mod Allocation
pub mod Transfer
pub mod Flags
pub mod Required
pub mod Defaults
pub mod Release
pub mod Values
pub mod Static
pub mod Pointers
pub mod Fields
pub mod Progress
pub mod Rounds
pub mod Whole
use on_my_way.Base.{
  ℕ, ◌+◌, ◌-◌, ◌*◌, ◌/◌, ◌%◌, ◌^◌, Bool, true, false, ◌&&◌, ◌||◌, String, Option, none, some, List,
  eqb, leb, ltb, if◌then◌else◌,
}
use on_my_way.Nanopb.Memory.{Memory, load_pointer, store_pointer}
use on_my_way.Nanopb.Input.{IStream, input}
use on_my_way.Nanopb.Output.{set_error}
use on_my_way.Nanopb.Field.{Field}

pub record State (S H : Type 0) : Type 0 where
  pub stream : IStream S
  pub memory : Memory
  pub heap : H

-- A decoder callback gets the field and the address of its `arg`, an extension's decoder the
-- extension, the tag and the wire type. `realloc` gives the address of the new block, or 0.
pub record Device (S H : Type 0) : Type 0 where
  pub message_at : ℕ → List Field
  pub decode_callback : ℕ → Field → ℕ → State S H → Bool × State S H
  pub decode_extension : ℕ → ℕ → ℕ → ℕ → State S H → Bool × State S H
  pub realloc : ℕ → ℕ → Memory → H → ℕ × Memory × H
  pub free : ℕ → Memory → H → Memory × H

-- The test in `allocate_field` before the multiplication.
abbrev pub is_too_large : ℕ → ℕ → Bool
is_too_large data_size array_size =
    (leb (2 ^ 32) data_size || leb (2 ^ 32) array_size) && ltb ((2 ^ 64 - 1) / array_size) data_size

module _ {S H : Type 0} where
  abbrev pub on_stream : State S H → IStream S → State S H
  on_stream state stream = record { stream = stream; memory = state.memory; heap = state.heap }

  abbrev pub on_memory : State S H → Memory → State S H
  on_memory state memory = record { stream = state.stream; memory = memory; heap = state.heap }

  abbrev pub fail_decode : State S H → String → Bool × State S H
  fail_decode state message = (
    false,
    on_stream state (
        input (state.stream.source) (state.stream.bytes_left)
          (set_error (state.stream.errmsg) message)),
  )

  -- `if (!first) return false;` and what comes next.
  infixl 5 ◌then_decode◌
  abbrev pub ◌then_decode◌ : Bool × State S H → (State S H → Bool × State S H) → Bool × State S H
  (true, state) then_decode next = next state
  (false, state) then_decode next = (false, state)

  -- A reading function of the stream, and what comes next with its value.
  abbrev pub reading :
      {A : Type 0}
      → State S H
      → Option A × IStream S
      → (A → State S H → Bool × State S H)
      → Bool × State S H
  reading state (none, stream) next = (false, on_stream state stream)
  reading state (some a, stream) next = next a (on_stream state stream)

  abbrev pub returning : State S H → Bool × IStream S → Bool × State S H
  returning state (status, stream) = (status, on_stream state stream)

  module _ (device : Device S H) where
    abbrev pub call_realloc : State S H → ℕ → ℕ → ℕ × State S H
    call_realloc state ptr size =
        let answer = device.realloc ptr size (state.memory) (state.heap) in
        (answer.0, record { stream = state.stream; memory = answer.1; heap = answer.2 })

    abbrev pub pb_free : State S H → ℕ → State S H
    pb_free state ptr =
        let answer = device.free ptr (state.memory) (state.heap) in
        record { stream = state.stream; memory = answer.0; heap = answer.1 }

    abbrev pub store_new : ℕ → ℕ × State S H → Bool × State S H
    store_new p_data (ptr, state) =
        if eqb ptr 0
        then fail_decode state "realloc failed"
        else (true, on_memory state (store_pointer (state.memory) p_data ptr))

    unfoldable pub allocate_field : ℕ → ℕ → ℕ → State S H → Bool × State S H
    allocate_field p_data data_size array_size state =
        if eqb data_size 0 || eqb array_size 0
        then fail_decode state "invalid size"
        else if is_too_large data_size array_size
        then fail_decode state "size too large"
        else store_new p_data (
            call_realloc state (load_pointer (state.memory) p_data)
              (array_size * data_size % 2 ^ 64))
