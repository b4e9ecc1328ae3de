-- ===== src/Nanopb/Steady.antt =====
-- Encoders that write the same bytes to every stream with room, and count them on a stream that only
-- counts.
pub mod Fields
pub mod Values
pub mod Arrays
pub mod Messages
pub mod Framing
use on_my_way.Base.{
  ℕ, ◌+◌, ◌%◌, ◌^◌, ◌≤◌, ◌<◌, ◌≡◌, refl, ap, sym, ◌∙◌, Bool, true, false, ◌⊎◌, inl, inr, Option,
  none, some, List, [], ◌∷◌, ◌++◌, length, length-append, String, arith, if◌then◌else◌, Bool-cases,
}
use mathlib.Core.List.{append_assoc, append-nil}
use native.Mathlib.Decide.{dec_le}
use on_my_way.Nanopb.Output.{Sink, OStream, out, ◌then_write◌, fail_write, pb_write}
use on_my_way.Nanopb.Bounds.{pb_write_fits, pb_write_full}

module _ {S : Type 0} where
  -- A stream that counts, and one into a buffer, without a message.
  abbrev pub counting : ℕ → OStream S
  counting w = out Sink.sizing 0 w none

  abbrev pub filling : List ℕ → ℕ → ℕ → OStream S
  filling dest max_size w = out (Sink.buffer dest) max_size w none

  -- The encoder writes `bs`: it counts them modulo 2^64, and stores them where they fit, and
  -- fails where they do not.
  abbrev pub Writes : (OStream S → Bool × OStream S) → List ℕ → Type 0
  Writes enc bs =
      ((w : ℕ) → w < 2 ^ 64 → enc (counting w) ≡ (true, counting ((w + length bs) % 2 ^ 64)))
      × ((dest : List ℕ) (max_size w : ℕ)
          → w + length bs ≤ max_size
          → max_size < 2 ^ 64
          → enc (filling dest max_size w) ≡ (true, filling (dest ++ bs) max_size (w + length bs)))
      × ((dest : List ℕ) (max_size w : ℕ)
          → w ≤ max_size
          → max_size < w + length bs
          → w + length bs < 2 ^ 64
          → (enc (filling dest max_size w)).0 ≡ false)

  abbrev pub Fails : (OStream S → Bool × OStream S) → Type 0
  Fails enc = (w : ℕ) → w < 2 ^ 64 → (enc (counting w)).0 ≡ false

  -- It writes some bytes, or it fails where it only counts.
  pub data IsSteady (enc : OStream S → Bool × OStream S) : Type 0 where
    writes : (bs : List ℕ) → Writes enc bs → IsSteady enc
    fails : Fails enc → IsSteady enc

  pub pb_write-Writes : (bs : List ℕ) → Writes (λ stream. pb_write stream bs) bs
  unfolding pb_write
  pb_write-Writes bs = (
    λ w h. refl,
    λ dest max_size w fits small. pb_write_fits dest max_size none bs w fits small,
    λ dest max_size w before full small.
        ap (λ r. r.0) (pb_write_full dest max_size none bs w full small),
  )

  pub nothing-Writes : Writes (λ stream. (true, stream)) []
  nothing-Writes = (
    λ w h. ap (λ t. (true, counting t)) (omega arith),
    λ dest max_size w fits small.
        ap (λ t. (true, filling t max_size w)) (sym (append-nil dest))
        ∙ ap (λ t. (true, filling (dest ++ []) max_size t)) (omega arith),
    λ dest max_size w before full small. absurd (omega arith),
  )

  failed_first :
      (g : OStream S → Bool × OStream S) (r : Bool × OStream S)
      → r.0 ≡ false
      → (r then_write g).0 ≡ false
  failed_first g (true, stream) h = absurd (cc h)
  failed_first g (false, stream) h = refl

  pub then-Writes :
      (f g : OStream S → Bool × OStream S) (cs bs : List ℕ)
      → Writes f cs
      → Writes g bs
      → Writes (λ stream. f stream then_write g) (cs ++ bs)
  then-Writes f g cs bs (count_f, fill_f, full_f) (count_g, fill_g, full_g) = (
    λ w h.
        ap (λ r. r then_write g) (count_f w h)
        ∙ count_g ((w + length cs) % 2 ^ 64) (omega arith)
        ∙ ap (λ t. (true, counting t)) (omega (arith, length-append cs bs)),
    λ dest max_size w fits small.
        ap (λ r. r then_write g) (fill_f dest max_size w (omega (arith, length-append cs bs)) small)
        ∙ fill_g (dest ++ cs) max_size (w + length cs) (omega (arith, length-append cs bs)) small
        ∙ ap (λ t. (true, filling t max_size (w + length cs + length bs))) (append_assoc dest cs bs)
        ∙ ap (λ t. (true, filling (dest ++ (cs ++ bs)) max_size t))
            (omega (arith, length-append cs bs)),
    λ dest max_size w before full small. elim (dec_le (w + length cs) max_size) [
      | Dec.yes fits ↦
          ap (λ r. (r then_write g).0)
            (fill_f dest max_size w fits (omega (arith, length-append cs bs)))
          ∙ full_g (dest ++ cs) max_size (w + length cs) fits (omega (arith, length-append cs bs))
              (omega (arith, length-append cs bs))
      | Dec.no over ↦
          failed_first g (f (filling dest max_size w))
            (full_f dest max_size w before (omega arith) (omega (arith, length-append cs bs)))
    ],
  )

  pub Writes-same :
      (f g : OStream S → Bool × OStream S) (bs : List ℕ)
      → ((stream : OStream S) → f stream ≡ g stream)
      → Writes g bs
      → Writes f bs
  Writes-same f g bs same (count, fill, over) = (
    λ w h. same (counting w) ∙ count w h,
    λ dest max_size w fits small. same (filling dest max_size w) ∙ fill dest max_size w fits small,
    λ dest max_size w before full small.
        ap (λ r. r.0) (same (filling dest max_size w)) ∙ over dest max_size w before full small,
  )

  pub IsSteady-same :
      (f g : OStream S → Bool × OStream S)
      → ((stream : OStream S) → f stream ≡ g stream)
      → IsSteady g
      → IsSteady f
  IsSteady-same f g same (writes bs w) = writes bs (Writes-same f g bs same w)
  IsSteady-same f g same (fails never) =
      fails (λ w h. ap (λ r. r.0) (same (counting w)) ∙ never w h)

  pub then-IsSteady :
      (f g : OStream S → Bool × OStream S)
      → IsSteady f
      → IsSteady g
      → IsSteady (λ stream. f stream then_write g)
  then-IsSteady f g (writes cs wf) (writes bs wg) = writes (cs ++ bs) (then-Writes f g cs bs wf wg)
  then-IsSteady f g (writes cs (count, fill, over)) (fails never) = fails (λ w h.
      ap (λ r. (r then_write g).0) (count w h) ∙ never ((w + length cs) % 2 ^ 64) (omega arith))
  then-IsSteady f g (fails never) sg = fails (λ w h. failed_first g (f (counting w)) (never w h))

  pub fail-IsSteady : (message : String) → IsSteady (λ stream. fail_write stream message)
  fail-IsSteady message = fails (λ w h. refl)

  pub stop-IsSteady : IsSteady (λ stream. (false, stream))
  stop-IsSteady = fails (λ w h. refl)

  pub nothing-IsSteady : IsSteady (λ stream. (true, stream))
  nothing-IsSteady = writes [] nothing-Writes

  pub if-IsSteady :
      (b : Bool) (f g : OStream S → Bool × OStream S)
      → IsSteady f
      → IsSteady g
      → IsSteady (λ stream. if b then f stream else g stream)
  if-IsSteady true f g sf sg = sf
  if-IsSteady false f g sf sg = sg

  pub when-IsSteady :
      (b : Bool) (f g : OStream S → Bool × OStream S)
      → (b ≡ true → IsSteady f)
      → IsSteady g
      → IsSteady (λ stream. if b then f stream else g stream)
  when-IsSteady true f g sf sg = sf refl
  when-IsSteady false f g sf sg = sg
