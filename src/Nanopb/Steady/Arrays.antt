-- ===== src/Nanopb/Steady/Arrays.antt =====
-- Arrays of pb_encode.c write the same bytes to every stream, when the messages
-- below do.
use on_my_way.Base.{
  ℕ, zero, suc, ◌+◌, ◌*◌, ◌%◌, ◌^◌, ◌≡◌, refl, ap, sym, ◌∙◌, Bool, true, false, not, ◌&&◌, List, [],
  ◌++◌, length, length-append, eqb, leb, ltb, arith, if◌then◌else◌, eqb→eq, subst,
}
use on_my_way.Nanopb.Memory.{load}
use on_my_way.Nanopb.Output.{OStream, count_written, pb_ostream_sizing}
use on_my_way.Nanopb.Field.{
  Field, pb_ltype, pb_atype, pb_ltype_fixed32, pb_ltype_fixed64, pb_ltype_last_packable,
  pb_atype_pointer, pb_wt_string,
}
use on_my_way.Nanopb.Encode.{
  pb_encode_varint, pb_encode_tag, pb_encode_tag_for_field, fixed32_bytes, fixed64_bytes,
}
use on_my_way.Nanopb.Iterator.{address}
use on_my_way.Nanopb.Message.{
  Program, Below, is_sizing, encode_by_ltype, encode_value, encode_items, write_packed,
  packed_after, encode_packed, encode_entry, encode_array,
}
use on_my_way.Nanopb.Steady.{
  counting, Writes, IsSteady, nothing-Writes, then-Writes, IsSteady-same, then-IsSteady,
  fail-IsSteady, nothing-IsSteady, if-IsSteady, when-IsSteady,
}
use on_my_way.Nanopb.Steady.Fields.{
  varint-IsSteady, tag-IsSteady, tag_for_field-IsSteady, pb_enc_fixed32-Writes,
  pb_enc_fixed64-Writes,
}
use on_my_way.Nanopb.Steady.Values.{AllSteady, encode_value-IsSteady}

module _ {S : Type 0} (program : Program S) (below : Below S) where
  module _ (steady : AllSteady below) where
    module _ (item : ℕ → OStream S → Bool × OStream S) (data_size : ℕ) where
      pub items-IsSteady :
          ((p : ℕ) → IsSteady (item p))
          → (count p : ℕ) → IsSteady (λ stream. encode_items program item data_size count p stream)
      unfolding encode_items
      items-IsSteady each zero p = nothing-IsSteady
      items-IsSteady each (suc count) p =
          then-IsSteady (item p) (encode_items program item data_size count (address p data_size))
            (each p) (items-IsSteady each count (address p data_size))

      -- Items of `width` bytes each.
      items-Writes :
          (width : ℕ)
          → ((p : ℕ) → (bs : List ℕ) × Writes (item p) bs × (length bs ≡ width))
          → (count p : ℕ)
          → (bs : List ℕ) × Writes (λ stream. encode_items program item data_size count p stream) bs
            × (length bs ≡ width * count)
      unfolding encode_items
      items-Writes width each zero p = ([], nothing-Writes, omega arith)
      items-Writes width each (suc count) p =
          let (cs, first, wide) = each p in
          let (bs, rest, same) = items-Writes width each count (address p data_size) in
          (
            cs ++ bs,
            then-Writes (item p) (encode_items program item data_size count (address p data_size))
                cs bs first rest,
            length-append cs bs
                ∙ ap (λ t. t + length bs) wide
                ∙ ap (λ t. width + t) same
                ∙ omega arith,
          )

    module _ (field : Field) (p count : ℕ) where
      abbrev items : OStream S → Bool × OStream S
      items stream =
          encode_items program (encode_value program below field) (field.data_size) count p stream

      packed-Writes :
          (size : ℕ) (bs : List ℕ)
          → Writes items bs
          → size % 2 ^ 64 ≡ length bs % 2 ^ 64
          → Writes
              (λ stream.
                if is_sizing (stream.sink) then count_written stream size else items stream)
              bs
      packed-Writes size bs (count_items, fill_items, full_items) same =
          (λ w h. ap (λ t. (true, counting t)) (omega arith), fill_items, full_items)

      write_packed-IsSteady :
          (size : ℕ) (bs : List ℕ)
          → Writes items bs
          → size % 2 ^ 64 ≡ length bs % 2 ^ 64
          → IsSteady (λ stream. write_packed program below field p count size stream)
      write_packed-IsSteady size bs all same =
          then-IsSteady (λ stream. pb_encode_varint stream size)
            (λ stream. if is_sizing (stream.sink) then count_written stream size else items stream)
            (varint-IsSteady size) (IsSteady.writes bs (packed-Writes size bs all same))

      packed_after-IsSteady :
          IsSteady items
          → IsSteady
              (λ stream. packed_after program below field p count stream (items pb_ostream_sizing))
      packed_after-IsSteady (IsSteady.writes bs (count_items, fill_items, full_items)) =
          IsSteady-same _
            (λ stream. write_packed program below field p count ((0 + length bs) % 2 ^ 64) stream)
            (λ stream.
              ap (packed_after program below field p count stream) (count_items 0 (omega arith)))
            (write_packed-IsSteady ((0 + length bs) % 2 ^ 64) bs
              (count_items, fill_items, full_items) (omega arith))
      packed_after-IsSteady (IsSteady.fails never) =
          IsSteady.fails
            (λ w h. failed_packed (counting w) (items pb_ostream_sizing) (never 0 (omega arith)))
        where
          failed_packed :
              (stream : OStream S) (r : Bool × OStream S)
              → r.0 ≡ false
              → (packed_after program below field p count stream r).0 ≡ false
          failed_packed stream (false, sizes) h = refl
          failed_packed stream (true, sizes) h = absurd (cc h)

      -- Numbers of fixed size are counted without a run.
      fixed_packed-IsSteady :
          (ltype width : ℕ)
          → pb_ltype (field.type) ≡ ltype
          → ((src : ℕ)
              → (bs : List ℕ) × Writes
                  (λ stream. encode_by_ltype program below ltype field src stream)
                  bs
                × (length bs ≡ width))
          → IsSteady (λ stream. write_packed program below field p count (width * count) stream)
      unfolding encode_value
      fixed_packed-IsSteady ltype width is_ltype each =
          let (bs, all, same) =
            items-Writes (encode_value program below field) (field.data_size) width
              (λ src.
                subst
                  (λ l.
                    (bs : List ℕ) × Writes
                      (λ stream. encode_by_ltype program below l field src stream) bs
                    × (length bs ≡ width))
                  (sym is_ltype) (each src))
              count p in
          write_packed-IsSteady (width * count) bs all (ap (λ t. t % 2 ^ 64) (sym same))

      encode_packed-IsSteady : IsSteady (λ stream. encode_packed program below field p count stream)
      encode_packed-IsSteady =
          let ltype = pb_ltype (field.type) in
          when-IsSteady (eqb ltype pb_ltype_fixed32) _ _
            (λ is_fixed32.
              fixed_packed-IsSteady pb_ltype_fixed32 4 (eqb→eq ltype pb_ltype_fixed32 is_fixed32)
                (λ src. (
                  fixed32_bytes (load (program.memory) 4 src),
                  pb_enc_fixed32-Writes field _,
                  refl,
                )))
            (when-IsSteady (eqb ltype pb_ltype_fixed64) _ _
              (λ is_fixed64.
                fixed_packed-IsSteady pb_ltype_fixed64 8 (eqb→eq ltype pb_ltype_fixed64 is_fixed64)
                  (λ src. (
                    fixed64_bytes (load (program.memory) 8 src),
                    pb_enc_fixed64-Writes field _,
                    refl,
                  )))
              (packed_after-IsSteady (
                items-IsSteady (encode_value program below field) (field.data_size)
                  (encode_value-IsSteady program below steady field) count p)))

    encode_entry-IsSteady :
        (field : Field) (p : ℕ) → IsSteady (λ stream. encode_entry program below field p stream)
    encode_entry-IsSteady field p =
        then-IsSteady (λ stream. pb_encode_tag_for_field stream field)
          (encode_value program below field _) (tag_for_field-IsSteady field)
          (encode_value-IsSteady program below steady field _)

    pub encode_array-IsSteady :
        (field : Field) (p_data count : ℕ)
        → IsSteady (λ stream. encode_array program below field p_data count stream)
    unfolding encode_array
    encode_array-IsSteady field p_data count = if-IsSteady (eqb count 0) _ _ nothing-IsSteady (
        if-IsSteady
          (not (eqb (pb_atype (field.type)) pb_atype_pointer) && ltb (field.array_size) count) _ _
          (fail-IsSteady "array max size exceeded")
          (if-IsSteady (leb (pb_ltype (field.type)) pb_ltype_last_packable) _ _
            (then-IsSteady (λ stream. pb_encode_tag stream pb_wt_string (field.tag))
              (encode_packed program below field p_data count)
              (tag-IsSteady pb_wt_string (field.tag)) (encode_packed-IsSteady field p_data count))
            (items-IsSteady (encode_entry program below field) (field.data_size)
              (encode_entry-IsSteady field) count p_data)))
