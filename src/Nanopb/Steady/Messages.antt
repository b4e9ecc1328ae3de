-- ===== src/Nanopb/Steady/Messages.antt =====
-- pb_encode of pb_encode.c writes the same bytes to every stream, when the encoder callbacks of the
-- message do, and what pb_get_encoded_size counts is their number.
use on_my_way.Base.{
  ℕ, zero, suc, ◌+◌, ◌%◌, ◌^◌, ◌≡◌, refl, ap, sym, ◌∙◌, Bool, true, false, not, ◌||◌, none, some,
  List, length, eqb, arith,
}
use mathlib.Core.Option.{some-injective}
use on_my_way.Nanopb.Memory.{load_pointer, type_encode_offset}
use on_my_way.Nanopb.Output.{OStream, pb_ostream_sizing}
use on_my_way.Nanopb.Field.{
  Field, pb_ltype, pb_htype, pb_atype, pb_ltype_extension, pb_htype_required, pb_htype_optional,
  pb_htype_repeated, pb_htype_oneof, pb_atype_static, pb_atype_pointer, pb_atype_callback,
}
use on_my_way.Nanopb.Encode.{pb_encode_tag_for_field}
use on_my_way.Nanopb.Iterator.{FieldIter, address, here, pb_field_iter_next, pb_field_iter_begin}
use on_my_way.Nanopb.Message.{Program, Below, encode_value}
use on_my_way.Nanopb.Message.Whole.{
  has_value, write_tagged, is_current, encode_by_rule, encode_basic_field, after_callback,
  encode_callback_field, encode_field, extension_field, default_extension_encoder,
  encode_one_extension, encode_extensions, encode_any, encode_rounds, encode_fields, pb_encode,
  at_depth, size_of, pb_get_encoded_size,
}
use on_my_way.Nanopb.Steady.{
  counting, filling, Writes, IsSteady, then-IsSteady, fail-IsSteady, stop-IsSteady,
  nothing-IsSteady, if-IsSteady,
}
use on_my_way.Nanopb.Steady.Fields.{tag_for_field-IsSteady}
use on_my_way.Nanopb.Steady.Values.{AllSteady, encode_value-IsSteady}
use on_my_way.Nanopb.Steady.Arrays.{encode_array-IsSteady}

-- "The callback must write the same data on each call": of a callback and of an extension's encoder.
pub record CallbacksSteady {S : Type 0} (program : Program S) : Type 0 where
  pub of_callback :
      (function : ℕ) (field : Field) (arg : ℕ)
      → IsSteady (λ stream. program.encode_callback function field arg stream)
  pub of_extension :
      (encoder extension : ℕ)
      → IsSteady (λ stream. program.encode_extension encoder extension stream)

module _ {S : Type 0} (program : Program S) (callbacks : CallbacksSteady program) where
  module _ (below : Below S) (steady : AllSteady below) where
    write_tagged-IsSteady :
        (field : Field) (source : ℕ)
        → IsSteady (λ stream. write_tagged program below field source stream)
    write_tagged-IsSteady field source =
        then-IsSteady (λ stream. pb_encode_tag_for_field stream field)
          (encode_value program below field source) (tag_for_field-IsSteady field)
          (encode_value-IsSteady program below steady field source)

    by_rule-IsSteady :
        (field : Field) (p_data source : ℕ)
        → IsSteady (λ stream. encode_by_rule program below field p_data source stream)
    by_rule-IsSteady field p_data source =
        let htype = pb_htype (field.type) in
        if-IsSteady (eqb htype pb_htype_required) _ _
          (if-IsSteady (eqb source 0) _ _ (fail-IsSteady "missing required field")
            (write_tagged-IsSteady field source))
          (if-IsSteady (eqb htype pb_htype_optional) _ _
            (if-IsSteady (has_value program below field p_data source) _ _
              (write_tagged-IsSteady field source) nothing-IsSteady)
            (if-IsSteady (eqb htype pb_htype_repeated) _ _
              (encode_array-IsSteady program below steady field source _)
              (if-IsSteady (eqb htype pb_htype_oneof) _ _
                (if-IsSteady (is_current program below field p_data) _ _
                  (write_tagged-IsSteady field source) nothing-IsSteady)
                (fail-IsSteady "invalid field type"))))

    failed_callback :
        (r : Bool × OStream S) → r.0 ≡ false → (after_callback program below r).0 ≡ false
    failed_callback (false, stream) h = refl
    failed_callback (true, stream) h = absurd (cc h)

    after_callback-IsSteady :
        (f : OStream S → Bool × OStream S)
        → IsSteady f
        → IsSteady (λ stream. after_callback program below (f stream))
    after_callback-IsSteady f (IsSteady.writes bs (count, fill, over)) = IsSteady.writes bs (
      λ w h. ap (after_callback program below) (count w h),
      λ dest max_size w fits small.
          ap (after_callback program below) (fill dest max_size w fits small),
      λ dest max_size w before full small.
          failed_callback (f (filling dest max_size w)) (over dest max_size w before full small),
    )
    after_callback-IsSteady f (IsSteady.fails never) =
        IsSteady.fails (λ w h. failed_callback (f (counting w)) (never w h))

    encode_field-IsSteady :
        (field : Field) (p_data : ℕ)
        → IsSteady (λ stream. encode_field program below field p_data stream)
    unfolding encode_field encode_basic_field encode_callback_field
    encode_field-IsSteady field p_data =
        let atype = pb_atype (field.type) in
        if-IsSteady (eqb atype pb_atype_static || eqb atype pb_atype_pointer) _ _
          (by_rule-IsSteady field p_data _)
          (if-IsSteady (eqb atype pb_atype_callback) _ _
            (if-IsSteady (not (eqb (load_pointer (program.memory) p_data) 0)) _ _
              (after_callback-IsSteady _ (callbacks.of_callback _ field _)) nothing-IsSteady)
            (fail-IsSteady "invalid field type"))

    one_extension-IsSteady :
        (extension : ℕ) → IsSteady (λ stream. encode_one_extension program below extension stream)
    unfolding default_extension_encoder
    one_extension-IsSteady extension =
        let type = load_pointer (program.memory) extension in
        let encoder = load_pointer (program.memory) (address type type_encode_offset) in
        if-IsSteady (not (eqb encoder 0)) _ _ (callbacks.of_extension encoder extension)
          (encode_field-IsSteady (extension_field program below extension) _)

    end-IsSteady : (b : Bool) → IsSteady {S = S} (λ stream. (b, stream))
    end-IsSteady true = nothing-IsSteady
    end-IsSteady false = stop-IsSteady

    extensions-IsSteady :
        (hops extension : ℕ)
        → IsSteady (λ stream. encode_extensions program below hops extension stream)
    unfolding encode_extensions
    extensions-IsSteady zero extension = end-IsSteady (eqb extension 0)
    extensions-IsSteady (suc hops) extension = if-IsSteady (eqb extension 0) _ _ nothing-IsSteady (
        then-IsSteady (encode_one_extension program below extension) _
          (one_extension-IsSteady extension) (extensions-IsSteady hops _))

    rounds-IsSteady :
        (hops rounds : ℕ) (iter : FieldIter)
        → IsSteady (λ stream. encode_rounds program below hops rounds iter stream)
    unfolding encode_rounds
    rounds-IsSteady hops zero iter = nothing-IsSteady
    rounds-IsSteady hops (suc rounds) iter =
        then-IsSteady (encode_any program below hops (here iter) (iter.p_data)) _
          (if-IsSteady (eqb (pb_ltype ((here iter).type)) pb_ltype_extension) _ _
            (extensions-IsSteady hops _) (encode_field-IsSteady (here iter) (iter.p_data)))
          (if-IsSteady ((pb_field_iter_next iter).0) _ _ (rounds-IsSteady hops rounds _)
            nothing-IsSteady)

    fields-IsSteady :
        (hops : ℕ) (fields : List Field) (src : ℕ)
        → IsSteady (λ stream. encode_fields program below hops fields src stream)
    fields-IsSteady hops fields src =
        if-IsSteady ((pb_field_iter_begin fields src).0) _ _ (rounds-IsSteady hops _ _)
          nothing-IsSteady

  pub pb_encode-IsSteady :
      (hops depth : ℕ) (fields : List Field) (src : ℕ)
      → IsSteady (λ stream. pb_encode program hops depth fields src stream)
  unfolding pb_encode
  pb_encode-IsSteady hops zero fields src = stop-IsSteady
  pb_encode-IsSteady hops (suc depth) fields src =
      fields-IsSteady (at_depth program hops depth) (pb_encode-IsSteady hops depth) hops fields src

  size_of-failed : (r : Bool × OStream S) → r.0 ≡ false → size_of program r ≡ none
  size_of-failed (false, stream) h = refl
  size_of-failed (true, stream) h = absurd (cc h)

  -- A message with an encoded size is written: `pb_encode` writes bytes, as many as the size is.
  pub sized-Writes :
      (hops depth : ℕ) (fields : List Field) (src size : ℕ)
      → pb_get_encoded_size program hops depth fields src ≡ some size
      → (bs : List ℕ) × (size ≡ length bs % 2 ^ 64)
        × Writes (λ stream. pb_encode program hops depth fields src stream) bs
  unfolding pb_get_encoded_size
  sized-Writes hops depth fields src size h = elim (pb_encode-IsSteady hops depth fields src) [
    | IsSteady.fails never ↦ absurd (
        cc (
          h,
          size_of-failed (pb_encode program hops depth fields src pb_ostream_sizing)
              (never 0 (omega arith)),
        ))
    | IsSteady.writes bs (count, fill, over) ↦ (
      bs,
      some-injective size ((0 + length bs) % 2 ^ 64)
            (sym h ∙ ap (size_of program) (count 0 (omega arith)))
          ∙ ap (λ t. t % 2 ^ 64) (omega arith),
      (count, fill, over),
    )
  ]
