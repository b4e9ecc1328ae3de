-- ===== src/Nanopb/Parsing/Rounds.antt =====
-- Extensions and the loop of pb_decode_noinit of pb_decode.c.
use on_my_way.Base.{
  ℕ, zero, suc, ◌+◌, ◌*◌, ◌^◌, Bool, true, false, not, ◌&&◌, ◌||◌, Option, none, some, List, eqb,
  ltb, if◌then◌else◌,
}
use on_my_way.Nanopb.Memory.{
  load_pointer, load_size, store_byte, store_size, extension_next_offset, extension_found_offset,
}
use on_my_way.Nanopb.Input.{IStream}
use on_my_way.Nanopb.Field.{Field, pb_htype, pb_htype_repeated}
use on_my_way.Nanopb.Decode.{pb_decode_tag, pb_skip_field}
use on_my_way.Nanopb.Iterator.{
  FieldIter, field_at, here, address, pb_field_iter_begin, pb_field_iter_find, find_extension_field,
}
use on_my_way.Nanopb.Parsing.{
  State, Device, on_stream, on_memory, fail_decode, ◌then_decode◌, returning,
}
use on_my_way.Nanopb.Parsing.Defaults.{fields_of_extension, iter_from_extension}
use on_my_way.Nanopb.Parsing.Values.{Inner}
use on_my_way.Nanopb.Parsing.Fields.{decode_field}
use on_my_way.Nanopb.Parsing.Progress.{Progress, allbits, with_iter, mark_required, has_required}

-- How a round of its loop ends: with the next round, with `break`, or with `return false`.
pub data Outcome (S H : Type 0) : Type 0 where
  again : Progress → State S H → Outcome S H
  leave : Progress → State S H → Outcome S H
  failed : State S H → Outcome S H

module _ {S H : Type 0} (device : Device S H) (hops depth : ℕ) where
  module _ (inner : Inner S H) where
    unfoldable pub default_extension_decoder : ℕ → ℕ → ℕ → State S H → Bool × State S H
    default_extension_decoder extension tag wire_type state =
        let memory = state.memory in
        let field = field_at (fields_of_extension (device.message_at) memory extension) 0 in
        let iter = iter_from_extension (device.message_at) memory extension in
        if not (eqb (field.tag) tag)
        then (true, state)
        else (decode_field device inner hops depth wire_type iter
            (on_memory state (store_byte memory (address extension extension_found_offset) 1))).1

    abbrev pub decode_one_extension : ℕ → ℕ → ℕ → State S H → Bool × State S H
    decode_one_extension extension tag wire_type state =
        let type = load_pointer (state.memory) extension in
        let decoder = load_pointer (state.memory) type in
        if not (eqb decoder 0)
        then device.decode_extension decoder extension tag wire_type state
        else default_extension_decoder extension tag wire_type state

    -- The loop of `decode_extension`, until a decoder has read something from `pos` on.
    unfoldable pub decode_extensions : ℕ → ℕ → ℕ → ℕ → ℕ → State S H → Bool × State S H
    decode_extensions zero extension tag wire_type pos state =
        (eqb extension 0 || not (eqb pos (state.stream.bytes_left)), state)
    decode_extensions (suc rounds) extension tag wire_type pos state =
        if eqb extension 0 || not (eqb pos (state.stream.bytes_left))
        then (true, state)
        else decode_one_extension extension tag wire_type state then_decode λ after.
            decode_extensions rounds
              (load_pointer (after.memory) (address extension extension_next_offset)) tag wire_type
              pos after

    unfoldable pub decode_extension : ℕ → ℕ → FieldIter → State S H → Bool × State S H
    decode_extension tag wire_type iter state =
        decode_extensions hops (load_pointer (state.memory) (iter.p_data)) tag wire_type
          (state.stream.bytes_left) state

    abbrev pub outcome_of : Progress → Bool × State S H → Outcome S H
    outcome_of progress (true, state) = Outcome.again progress state
    outcome_of progress (false, state) = Outcome.failed state

    abbrev pub skip_unknown : ℕ → Progress → State S H → Outcome S H
    skip_unknown wire_type progress state =
        outcome_of progress (returning state (pb_skip_field (state.stream) wire_type))

    -- Whether the field was handled.
    abbrev pub unless_handled : ℕ → ℕ → Progress → Bool × State S H → Outcome S H
    unless_handled wire_type pos progress (false, state) = Outcome.failed state
    unless_handled wire_type pos progress (true, state) =
        if not (eqb pos (state.stream.bytes_left))
        then Outcome.again progress state
        else skip_unknown wire_type progress state

    abbrev pub start_range : Progress → Bool × FieldIter → Progress
    start_range progress (found, iter) = record {
      iter = iter;
      fields_seen = progress.fields_seen;
      extension_range_start = if found then (here iter).tag else allbits;
      fixed_count_field = progress.fixed_count_field;
    }

    -- A tag that no field has.
    abbrev pub decode_unknown : ℕ → ℕ → Progress → State S H → Outcome S H
    decode_unknown tag wire_type progress state =
        let ranged = start_range progress (find_extension_field (progress.iter)) in
        if ltb tag (progress.extension_range_start)
        then skip_unknown wire_type progress state
        else if ltb tag (ranged.extension_range_start)
        then skip_unknown wire_type ranged state
        else unless_handled wire_type (state.stream.bytes_left) ranged
            (decode_extension tag wire_type (ranged.iter) state)

    -- `fixed_count_size`, a local of the message at this depth, above all addresses.
    abbrev pub frame : ℕ
    frame = 2 ^ 64 + 8 * depth

    -- The last field of a fixed count is not finished.
    abbrev pub is_short : Progress → State S H → Bool
    is_short progress state = elim (progress.fixed_count_field) [
      | none ↦ false
      | some pos ↦
          not
            (eqb (load_size (state.memory) frame) ((field_at (progress.iter.start) pos).array_size))
    ]

    abbrev pub is_fixed_count : FieldIter → Bool
    is_fixed_count iter =
        eqb (pb_htype ((here iter).type)) pb_htype_repeated && eqb (iter.p_size) (iter.p_data)

    abbrev pub same_field : Option ℕ → ℕ → Bool
    same_field none pos = false
    same_field (some other) pos = eqb other pos

    abbrev pub counted_here : Progress → Progress
    counted_here progress = record {
      iter = record {
        start = progress.iter.start;
        pos = progress.iter.pos;
        required_field_index = progress.iter.required_field_index;
        dest_struct = progress.iter.dest_struct;
        p_data = progress.iter.p_data;
        p_size = frame;
      };
      fields_seen = progress.fields_seen;
      extension_range_start = progress.extension_range_start;
      fixed_count_field = some (progress.iter.pos);
    }

    abbrev pub finish_field : Progress → FieldIter × (Bool × State S H) → Outcome S H
    finish_field progress (iter, result) = outcome_of (with_iter progress iter) result

    abbrev pub decode_marked : ℕ → Progress → State S H → Outcome S H
    decode_marked wire_type progress state =
        finish_field (mark_required progress)
          (decode_field device inner hops depth wire_type (progress.iter) state)

    -- A field that the iterator stands on.
    abbrev pub decode_known : ℕ → Progress → State S H → Outcome S H
    decode_known wire_type progress state =
        if not (is_fixed_count (progress.iter))
        then decode_marked wire_type progress state
        else if same_field (progress.fixed_count_field) (progress.iter.pos)
        then decode_marked wire_type (counted_here progress) state
        else if is_short progress state
        then Outcome.failed ((fail_decode state "wrong size for fixed count field").1)
        else decode_marked wire_type (counted_here progress)
            (on_memory state (store_size (state.memory) frame 0))

    abbrev pub decode_tagged : ℕ → ℕ → Progress → State S H → Outcome S H
    decode_tagged tag wire_type progress state =
        let (found, iter) = pb_field_iter_find (progress.iter) tag in
        if found
        then decode_known wire_type (with_iter progress iter) state
        else decode_unknown tag wire_type (with_iter progress iter) state

    abbrev pub after_tag : Progress → State S H → (Option (ℕ × ℕ) × IStream S) × Bool → Outcome S H
    after_tag progress state ((none, stream), eof) =
        if eof
        then Outcome.leave progress (on_stream state stream)
        else Outcome.failed (on_stream state stream)
    after_tag progress state ((some (wire_type, tag), stream), eof) =
        decode_tagged tag wire_type progress (on_stream state stream)

    abbrev pub decode_round : Progress → State S H → Outcome S H
    decode_round progress state = after_tag progress state (pb_decode_tag (state.stream))

    -- The two checks behind the loop.
    abbrev pub check_end : Progress → State S H → Bool × State S H
    check_end progress state =
        if is_short progress state
        then fail_decode state "wrong size for fixed count field"
        else if has_required progress
        then (true, state)
        else fail_decode state "missing required field"

    -- The loop of `pb_decode_noinit`. A round takes a byte, so `bytes_left` rounds are enough.
    unfoldable pub decode_rounds : ℕ → Progress → State S H → Bool × State S H
    decode_rounds zero progress state = check_end progress state
    decode_rounds (suc rounds) progress state =
        if eqb (state.stream.bytes_left) 0
        then check_end progress state
        else elim (decode_round progress state) [
          | Outcome.again next after ↦ decode_rounds rounds next after
          | Outcome.leave next after ↦ check_end next after
          | Outcome.failed after ↦ (false, after)
        ]

    abbrev pub begin_progress : List Field → ℕ → Progress
    begin_progress fields dest_struct = record {
      iter = (pb_field_iter_begin fields dest_struct).1;
      fields_seen = (0, 0);
      extension_range_start = 0;
      fixed_count_field = none;
    }

    abbrev pub decode_message : List Field → ℕ → State S H → Bool × State S H
    decode_message fields dest_struct state =
        decode_rounds (state.stream.bytes_left) (begin_progress fields dest_struct) state
