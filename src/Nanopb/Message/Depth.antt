-- ===== src/Nanopb/Message/Depth.antt =====
-- pb_encode of pb_encode.c with more depth than its messages are nested.
use on_my_way.Base.{ℕ, ◌<◌, ◌≡◌, false, All}
use on_my_way.Nanopb.Output.{OStream}
use on_my_way.Nanopb.Field.{Field}
use on_my_way.Nanopb.Iterator.{is_extension}
use on_my_way.Nanopb.Message.{Program, Below}

module _ {S : Type 0} (program : Program S) where
  -- What a field uses of the messages below.
  at_pointer : Below S → Field → Below S
  at_pointer below field = record {
    encode = λ fields src stream. below.encode (program.message_at (field.ptr)) src stream;
    is_default = λ fields p. below.is_default (program.message_at (field.ptr)) p;
  }

  -- Two depths below that agree on the message that a field points to.
  abbrev Agree : Below S → Below S → Field → Type 0
  Agree b c field =
      ((src : ℕ) (stream : OStream S)
        → b.encode (program.message_at (field.ptr)) src stream
          ≡ c.encode (program.message_at (field.ptr)) src stream)
      × ((p : ℕ)
          → b.is_default (program.message_at (field.ptr)) p
            ≡ c.is_default (program.message_at (field.ptr)) p)

  -- A measure of messages that goes down from a message to the submessages of its fields, which are no
  -- extensions.
  pub record Ranked (rank : ℕ → ℕ) : Type 0 where
    pub no_pointer : rank 0 ≡ 0
    pub falls : (p : ℕ) → All (λ field. rank (field.ptr) < rank p) (program.message_at p)
    pub no_extension : (p : ℕ) → All (λ field. is_extension field ≡ false) (program.message_at p)

  module _ (rank : ℕ → ℕ) (ranked : Ranked rank) where
    -- The fields of a message of rank `n`.
    abbrev pub Fits : ℕ → Field → Type 0
    Fits n field = (rank (field.ptr) < n) × (is_extension field ≡ false)
