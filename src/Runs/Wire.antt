-- ===== src/Runs/Wire.antt =====
-- The theorems about nanopb at concrete values.
use on_my_way.Base.{
  ℕ, ◌+◌, ◌≡◌, refl, false, Option, none, some, List, [], ◌∷◌, ◌++◌, length, String, arith,
}
use on_my_way.Nanopb.Output.{Sink, OStream, out, pb_write}
use on_my_way.Nanopb.Input.{Source, input}
use on_my_way.Nanopb.Field.{pb_wt_string}
use on_my_way.Nanopb.Encode.{pb_encode_varint, pb_encode_tag}
use on_my_way.Nanopb.Decode.{pb_decode_varint, pb_decode_varint32, pb_decode_tag}
use on_my_way.Nanopb.Varint.Reading.{before, pb_decode_varint-pb_encode_varint}
use on_my_way.Nanopb.Varint.Short.{overlong, pb_decode_varint32_wraps}
use on_my_way.Nanopb.RoundTrips.{pb_decode_tag-pb_encode_tag}
use on_my_way.Nanopb.Bounds.{IsWithin, pb_write-IsWithin}

pb_decode_varint-pb_encode_varint_example :
    (bs : List ℕ) × ((stream : OStream ℕ) → pb_encode_varint stream 300 ≡ pb_write stream bs)
    × ((rest : List ℕ) (k : ℕ) (e : Option String)
        → pb_decode_varint {S = ℕ} (input (Source.buffer (bs ++ rest)) (length bs + k) e)
          ≡ (some 300, input (Source.buffer rest) k e))
pb_decode_varint-pb_encode_varint_example = pb_decode_varint-pb_encode_varint 300 (omega arith)

pb_decode_tag-pb_encode_tag_example :
    (bs : List ℕ) × ((stream : OStream ℕ)
      → pb_encode_tag stream pb_wt_string 16 ≡ pb_write stream bs)
    × ((rest : List ℕ) (k : ℕ) (e : Option String)
        → pb_decode_tag {S = ℕ} (input (Source.buffer (bs ++ rest)) (length bs + k) e)
          ≡ ((some (pb_wt_string, 16), input (Source.buffer rest) k e), false))
pb_decode_tag-pb_encode_tag_example =
    pb_decode_tag-pb_encode_tag pb_wt_string 16 (omega arith) (omega arith) (omega arith)

pb_write-IsWithin_example :
    IsWithin (pb_write {S = ℕ} (out (Sink.buffer (1 ∷ 2 ∷ [])) 3 2 none) (7 ∷ 8 ∷ [])).1
pb_write-IsWithin_example =
    pb_write-IsWithin ℕ (1 ∷ 2 ∷ []) (7 ∷ 8 ∷ []) 3 2 none refl (omega arith) (omega arith)

pb_decode_varint32_wraps_example :
    pb_decode_varint32 {S = ℕ} (before (overlong 5) (9 ∷ []) 1 none)
    ≡ (some 40, input (Source.buffer (9 ∷ [])) 1 none)
pb_decode_varint32_wraps_example = pb_decode_varint32_wraps 5 (9 ∷ []) 1 none (omega arith)
