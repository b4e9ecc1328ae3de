-- ===== src/Nanopb/Parsing/Release.antt =====
-- pb_release_single_field, pb_release and pb_release_union_field of pb_decode.c.
use on_my_way.Base.{
  ℕ, zero, suc, Bool, true, false, not, ◌&&◌, ◌||◌, List, length, eqb, ltb, if◌then◌else◌,
}
use on_my_way.Nanopb.Memory.{
  load_pointer, load_size, store_pointer, store_size, extension_next_offset,
}
use on_my_way.Nanopb.Field.{
  Field, pb_ltype, pb_htype, pb_atype, pb_ltype_bytes, pb_ltype_string, pb_ltype_submessage,
  pb_ltype_extension, pb_htype_repeated, pb_htype_oneof, pb_atype_static, pb_atype_pointer,
}
use on_my_way.Nanopb.Iterator.{
  FieldIter, here, address, pb_field_iter_begin, pb_field_iter_next, pb_field_iter_find,
}
use on_my_way.Nanopb.Parsing.{State, Device, on_memory, fail_decode, pb_free}
use on_my_way.Nanopb.Parsing.Defaults.{iter_from_extension}

module _ {S H : Type 0} (device : Device S H) where
  -- The loop over the entries of a repeated string or bytes field.
  unfoldable pub free_entries : ℕ → ℕ → State S H → State S H
  free_entries zero p_item state = state
  free_entries (suc count) p_item state =
      let freed = pb_free device state (load_pointer (state.memory) p_item) in
      free_entries count (address p_item 8)
        (on_memory freed (store_pointer (freed.memory) p_item 0))

  module _ (release_field : FieldIter → State S H → State S H) where
    -- The loop of `pb_release`; a round moves on by a field.
    unfoldable pub release_rounds : ℕ → FieldIter → State S H → State S H
    release_rounds zero iter state = state
    release_rounds (suc rounds) iter state =
        let next = pb_field_iter_next iter in
        if next.0
        then release_rounds rounds (next.1) (release_field iter state)
        else release_field iter state

    abbrev pub release_message : List Field → ℕ → State S H → State S H
    release_message fields dest_struct state =
        if eqb dest_struct 0
        then state
        else if (pb_field_iter_begin fields dest_struct).0
        then release_rounds (suc (length fields)) ((pb_field_iter_begin fields dest_struct).1) state
        else state

    unfoldable pub release_extensions : ℕ → ℕ → State S H → State S H
    release_extensions zero extension state = state
    release_extensions (suc hops) extension state =
        let after =
          release_field (iter_from_extension (device.message_at) (state.memory) extension) state in
        if eqb extension 0
        then state
        else release_extensions hops
            (load_pointer (after.memory) (address extension extension_next_offset)) after

    unfoldable pub release_items : List Field → ℕ → ℕ → ℕ → State S H → State S H
    release_items fields data_size zero p_item state = state
    release_items fields data_size (suc count) p_item state =
        release_items fields data_size count (address p_item data_size)
          (release_message fields p_item state)

    -- How many submessages the field has.
    abbrev pub item_count : FieldIter → State S H → ℕ
    item_count iter state =
        let field = here iter in
        let is_static = eqb (pb_atype (field.type)) pb_atype_static in
        let stored = load_size (state.memory) (iter.p_size) in
        if not (eqb (pb_htype (field.type)) pb_htype_repeated)
        then 1
        else if is_static && eqb (iter.p_size) (iter.p_data)
        then field.array_size
        else if is_static && ltb (field.array_size) stored
        then field.array_size
        else stored

    abbrev pub release_submessages : FieldIter → State S H → State S H
    release_submessages iter state =
        let field = here iter in
        let p_item =
          if eqb (pb_atype (field.type)) pb_atype_pointer
          then load_pointer (state.memory) (iter.p_data)
          else iter.p_data in
        if eqb p_item 0
        then state
        else release_items (device.message_at (field.ptr)) (field.data_size) (item_count iter state)
            p_item state

    abbrev pub release_contents : ℕ → FieldIter → State S H → State S H
    release_contents hops iter state =
        let ltype = pb_ltype ((here iter).type) in
        if eqb ltype pb_ltype_extension
        then release_extensions hops (load_pointer (state.memory) (iter.p_data)) state
        else if eqb ltype pb_ltype_submessage
        then release_submessages iter state
        else state

    abbrev pub release_entries : FieldIter → State S H → State S H
    release_entries iter state =
        let field = here iter in
        if eqb (pb_htype (field.type)) pb_htype_repeated
          && (eqb (pb_ltype (field.type)) pb_ltype_string
              || eqb (pb_ltype (field.type)) pb_ltype_bytes)
        then free_entries (load_size (state.memory) (iter.p_size))
            (load_pointer (state.memory) (iter.p_data)) state
        else state

    abbrev pub forget_count : FieldIter → State S H → State S H
    forget_count iter state =
        if eqb (pb_htype ((here iter).type)) pb_htype_repeated
        then on_memory state (store_size (state.memory) (iter.p_size) 0)
        else state

    abbrev pub free_main : FieldIter → State S H → State S H
    free_main iter state =
        let freed = pb_free device state (load_pointer (state.memory) (iter.p_data)) in
        on_memory freed (store_pointer (freed.memory) (iter.p_data) 0)

    abbrev pub release_by_type : ℕ → FieldIter → State S H → State S H
    release_by_type hops iter state =
        let field = here iter in
        let inside = release_contents hops iter state in
        if eqb (pb_htype (field.type)) pb_htype_oneof
          && not (eqb (load_size (state.memory) (iter.p_size)) (field.tag))
        then state
        else if eqb (pb_atype (field.type)) pb_atype_pointer
        then free_main iter (forget_count iter (release_entries iter inside))
        else inside

  unfoldable pub pb_release_single_field : ℕ → ℕ → FieldIter → State S H → State S H
  pb_release_single_field hops zero iter state = state
  pb_release_single_field hops (suc depth) iter state =
      release_by_type (pb_release_single_field hops depth) hops iter state

  abbrev pub pb_release : ℕ → ℕ → List Field → ℕ → State S H → State S H
  pb_release hops depth fields dest_struct state =
      release_message (pb_release_single_field hops depth) fields dest_struct state

  -- The result has the iterator, which the searches move.
  abbrev pub back_to_new : ℕ → Bool × FieldIter → State S H → FieldIter × (Bool × State S H)
  back_to_new new_tag (found, iter) state =
      (iter, if found then (true, state) else fail_decode state "iterator error")

  abbrev pub release_old : ℕ → ℕ → ℕ → Bool × FieldIter → State S H → FieldIter × (Bool × State S H)
  release_old hops depth new_tag (false, iter) state = (iter, fail_decode state "invalid union tag")
  release_old hops depth new_tag (true, iter) state =
      back_to_new new_tag (pb_field_iter_find iter new_tag)
        (pb_release_single_field hops depth iter state)

  unfoldable pub pb_release_union_field :
      ℕ → ℕ → FieldIter → State S H → FieldIter × (Bool × State S H)
  pb_release_union_field hops depth iter state =
      let old_tag = load_size (state.memory) (iter.p_size) in
      let new_tag = (here iter).tag in
      if eqb old_tag 0
      then (iter, (true, state))
      else if eqb old_tag new_tag
      then (iter, (true, state))
      else release_old hops depth new_tag (pb_field_iter_find iter old_tag) state
