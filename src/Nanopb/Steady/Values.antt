-- ===== src/Nanopb/Steady/Values.antt =====
-- Submessages and single values of pb_encode.c write the same bytes to every stream, when the
-- messages below do.
use on_my_way.Base.{
  ℕ, ◌+◌, ◌%◌, ◌^◌, ◌≤◌, ◌<◌, ◌≡◌, refl, ap, ◌∙◌, Bool, true, false, not, List, ◌++◌, length, eqb,
  arith, if◌then◌else◌, ge→ltb, lt→ltb, eq→eqb,
}
use on_my_way.Nanopb.Output.{OStream, ◌then_write◌, fail_write, pb_ostream_sizing}
use on_my_way.Nanopb.Field.{
  Field, pb_ltype, pb_ltype_varint, pb_ltype_uvarint, pb_ltype_svarint, pb_ltype_fixed32,
  pb_ltype_fixed64, pb_ltype_bytes, pb_ltype_string, pb_ltype_submessage,
  pb_ltype_fixed_length_bytes,
}
use on_my_way.Nanopb.Encode.{pb_encode_varint}
use on_my_way.Nanopb.Varint.{varint}
use on_my_way.Nanopb.Message.{
  Program, Below, take_over, write_submessage, after_sizing, pb_encode_submessage,
  pb_enc_submessage, encode_by_ltype, encode_value,
}
use on_my_way.Nanopb.Steady.{
  counting, filling, Writes, IsSteady, then-Writes, Writes-same, fail-IsSteady, stop-IsSteady,
  if-IsSteady,
}
use on_my_way.Nanopb.Steady.Fields.{
  varint-Writes, pb_enc_varint-IsSteady, pb_enc_uvarint-IsSteady, pb_enc_svarint-IsSteady,
  pb_enc_fixed32-Writes, pb_enc_fixed64-Writes, pb_enc_bytes-IsSteady, pb_enc_string-IsSteady,
  pb_enc_fixed_length_bytes-IsSteady,
}

abbrev pub AllSteady : {S : Type 0} → Below S → Type 0
AllSteady {S} below =
    (fields : List Field) (src : ℕ) → IsSteady {S = S} (λ stream. below.encode fields src stream)

module _ {S : Type 0} (program : Program S) (below : Below S) where
  taken :
      (dest bs : List ℕ) (max_size w : ℕ)
      → w + length bs ≤ max_size
      → max_size < 2 ^ 64
      → take_over program below
          (filling dest max_size w)
          (length bs)
          (true, filling (dest ++ bs) (length bs) (0 + length bs))
        ≡ (true, filling {S = S} (dest ++ bs) max_size (w + length bs))
  taken dest bs max_size w fits small =
      ap
        (λ t.
          let after = filling (dest ++ bs) max_size ((w + (0 + length bs)) % 2 ^ 64) in
          if not t then fail_write after "submsg size changed" else (true, after))
        (eq→eqb (0 + length bs) (length bs) (omega arith))
      ∙ ap (λ t. (true, filling (dest ++ bs) max_size t)) (omega arith)

  write_submessage-Writes :
      (fields : List Field) (src size : ℕ) (bs : List ℕ)
      → Writes (λ stream. below.encode fields src stream) bs
      → size ≡ length bs % 2 ^ 64
      → Writes (λ stream. write_submessage program below fields src size stream) bs
  write_submessage-Writes fields src size bs (count, fill, over) h = (
    λ w room. ap (λ t. (true, counting t)) (omega arith),
    λ dest max_size w fits small.
        ap (λ t. write_submessage program below fields src t (filling dest max_size w))
          (exact_size max_size w fits small)
        ∙ ap
            (λ t.
              if t
              then fail_write (filling dest max_size w) "stream full"
              else take_over program below (filling dest max_size w) (length bs)
                  (below.encode fields src (filling dest (length bs) 0)))
            (ge→ltb max_size ((w + length bs) % 2 ^ 64) (omega arith))
        ∙ ap (take_over program below (filling dest max_size w) (length bs))
            (fill dest (length bs) 0 (omega arith) (omega arith))
        ∙ taken dest bs max_size w fits small,
    λ dest max_size w before full small.
        ap
          (λ t.
            (if t
              then fail_write (filling dest max_size w) "stream full"
              else take_over program below (filling dest max_size w) size
                  (below.encode fields src (filling dest size 0))).0)
          (lt→ltb max_size ((w + size) % 2 ^ 64) (omega arith)),
  )
    where
      exact_size :
          (max_size w : ℕ) → w + length bs ≤ max_size → max_size < 2 ^ 64 → size ≡ length bs
      exact_size max_size w fits small = omega arith

  failed_sizing :
      (fields : List Field) (src : ℕ) (stream : OStream S) (r : Bool × OStream S)
      → r.0 ≡ false
      → (after_sizing program below fields src stream r).0 ≡ false
  failed_sizing fields src stream (false, sub) h = refl
  failed_sizing fields src stream (true, sub) h = absurd (cc h)

  -- A submessage is its size and its bytes.
  pub submessage-Writes :
      (fields : List Field) (src : ℕ) (bs : List ℕ)
      → Writes (λ stream. below.encode fields src stream) bs
      → Writes
          (λ stream. pb_encode_submessage program below fields src stream)
          (varint 10 (length bs % 2 ^ 64) ++ bs)
  unfolding pb_encode_submessage
  submessage-Writes fields src bs (count, fill, over) =
      let size = length bs % 2 ^ 64 in
      Writes-same
        (λ stream.
          after_sizing program below fields src stream (below.encode fields src pb_ostream_sizing))
        (λ stream.
          pb_encode_varint stream size then_write write_submessage program below fields src size)
        (varint 10 size ++ bs)
        (λ stream.
          ap (after_sizing program below fields src stream)
            (count 0 (omega arith) ∙ ap (λ t. (true, counting (t % 2 ^ 64))) (omega arith)))
        (then-Writes (λ stream. pb_encode_varint stream size)
          (write_submessage program below fields src size) (varint 10 size) bs
          (varint-Writes size (omega arith))
          (write_submessage-Writes fields src size bs (count, fill, over) refl))

  pub submessage-IsSteady :
      (fields : List Field) (src : ℕ)
      → IsSteady (λ stream. below.encode fields src stream)
      → IsSteady (λ stream. pb_encode_submessage program below fields src stream)
  unfolding pb_encode_submessage
  submessage-IsSteady fields src (IsSteady.writes bs w) =
      IsSteady.writes (varint 10 (length bs % 2 ^ 64) ++ bs) (submessage-Writes fields src bs w)
  submessage-IsSteady fields src (IsSteady.fails never) = IsSteady.fails (λ w h.
      failed_sizing fields src (counting w) (below.encode fields src pb_ostream_sizing)
        (never 0 (omega arith)))

  module _ (steady : AllSteady below) where
    pub pb_enc_submessage-IsSteady :
        (field : Field) (src : ℕ)
        → IsSteady (λ stream. pb_enc_submessage program below field src stream)
    unfolding pb_enc_submessage
    pb_enc_submessage-IsSteady field src =
        if-IsSteady (eqb (field.ptr) 0) (λ stream. fail_write stream "invalid field descriptor")
          (pb_encode_submessage program below (program.message_at (field.ptr)) src)
          (fail-IsSteady "invalid field descriptor")
          (submessage-IsSteady (program.message_at (field.ptr)) src
            (steady (program.message_at (field.ptr)) src))

    encode_by_ltype-IsSteady :
        (ltype : ℕ) (field : Field) (src : ℕ)
        → IsSteady (λ stream. encode_by_ltype program below ltype field src stream)
    encode_by_ltype-IsSteady ltype field src =
        if-IsSteady (eqb ltype pb_ltype_varint) _ _ (pb_enc_varint-IsSteady field _) (
          if-IsSteady (eqb ltype pb_ltype_uvarint) _ _ (pb_enc_uvarint-IsSteady field _) (
            if-IsSteady (eqb ltype pb_ltype_svarint) _ _ (pb_enc_svarint-IsSteady field _) (
              if-IsSteady (eqb ltype pb_ltype_fixed32) _ _
                (IsSteady.writes _ (pb_enc_fixed32-Writes field _))
                (if-IsSteady (eqb ltype pb_ltype_fixed64) _ _
                  (IsSteady.writes _ (pb_enc_fixed64-Writes field _))
                  (if-IsSteady (eqb ltype pb_ltype_bytes) _ _ (pb_enc_bytes-IsSteady field _) (
                    if-IsSteady (eqb ltype pb_ltype_string) _ _ (pb_enc_string-IsSteady field _) (
                      if-IsSteady (eqb ltype pb_ltype_submessage) _ _
                        (pb_enc_submessage-IsSteady field src)
                        (if-IsSteady (eqb ltype pb_ltype_fixed_length_bytes) _ _
                          (pb_enc_fixed_length_bytes-IsSteady field _) stop-IsSteady))))))))

    pub encode_value-IsSteady :
        (field : Field) (src : ℕ) → IsSteady (λ stream. encode_value program below field src stream)
    unfolding encode_value
    encode_value-IsSteady field src = encode_by_ltype-IsSteady (pb_ltype (field.type)) field src
