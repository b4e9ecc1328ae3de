-- ===== src/Nanopb/Parsing/Allocation.antt =====
-- What allocate_field of pb_decode.c asks the allocator for.
use on_my_way.Base.{
  ℕ, ◌-◌, ◌*◌, ◌/◌, ◌%◌, ◌^◌, ◌≤◌, ◌<◌, ◌≡◌, ap, refl, ◌∙◌, Bool, true, false, ◌&&◌, ◌||◌, ◌⊎◌, inl,
  inr, eqb, leb, ltb, arith, eq→eqb, if◌then◌else◌, ge→ltb, lt→ltb, le→leb,
}
use native.Mathlib.Decide.{dec_le, dec_lt}
use native.Mathlib.Nat.{le-div_iff_mul-le, mul-le-mul}
use on_my_way.Nanopb.Memory.{load_pointer}
use on_my_way.Nanopb.Parsing.{
  State, Device, fail_decode, is_too_large, call_realloc, store_new, allocate_field,
}

within : (d a : ℕ) → 0 < a → d * a < 2 ^ 64 → d ≤ (2 ^ 64 - 1) / a
within d a pos h = (le-div_iff_mul-le pos).1 (omega arith)

beyond : (d a : ℕ) → 0 < a → 2 ^ 64 ≤ d * a → (2 ^ 64 - 1) / a < d
beyond d a pos h = elim (dec_le d ((2 ^ 64 - 1) / a)) [
  | Dec.yes inside ↦ absurd (omega (arith, h, (le-div_iff_mul-le pos).0 inside))
  | Dec.no over ↦ omega arith
]

small_product : (d a : ℕ) → d ≤ 2 ^ 32 - 1 → a ≤ 2 ^ 32 - 1 → d * a ≤ (2 ^ 32 - 1) * (2 ^ 32 - 1)
small_product d a hd ha = mul-le-mul hd ha

-- Below the check's limit no product is too large.
below_limit : (d a : ℕ) → 2 ^ 64 ≤ d * a → (2 ^ 32 ≤ d) ⊎ (2 ^ 32 ≤ a)
below_limit d a h = elim (dec_le (2 ^ 32) d) [
  | Dec.yes large ↦ inl large
  | Dec.no small ↦ elim (dec_le (2 ^ 32) a) [
    | Dec.yes large ↦ inr large
    | Dec.no narrow ↦ absurd (omega (arith, h, small_product d a (omega arith) (omega arith)))
  ]
]

and_false : (b : Bool) → (b && false) ≡ false
and_false true = refl
and_false false = refl

or_true : (b : Bool) → (b || true) ≡ true
or_true true = refl
or_true false = refl

is_too_large-fits : (d a : ℕ) → 0 < a → d * a < 2 ^ 64 → is_too_large d a ≡ false
is_too_large-fits d a pos h =
    ap (λ t. (leb (2 ^ 32) d || leb (2 ^ 32) a) && t)
      (ge→ltb ((2 ^ 64 - 1) / a) d (within d a pos h))
    ∙ and_false (leb (2 ^ 32) d || leb (2 ^ 32) a)

is_too_large-over : (d a : ℕ) → 0 < a → 2 ^ 64 ≤ d * a → is_too_large d a ≡ true
is_too_large-over d a pos h =
    ap (λ t. t && ltb ((2 ^ 64 - 1) / a) d)
      (elim (below_limit d a h) [
        | inl large ↦ ap (λ t. t || leb (2 ^ 32) a) (le→leb (2 ^ 32) d large)
        | inr large ↦
            ap (λ t. leb (2 ^ 32) d || t) (le→leb (2 ^ 32) a large) ∙ or_true (leb (2 ^ 32) d)
      ])
    ∙ lt→ltb ((2 ^ 64 - 1) / a) d (beyond d a pos h)

module _ {S H : Type 0} (device : Device S H) (p_data : ℕ) (state : State S H) where
  -- The branches of `allocate_field`, by its two tests.
  by_tests : ℕ → ℕ → Bool → Bool → Bool × State S H
  by_tests data_size array_size empty large =
      if empty
      then fail_decode state "invalid size"
      else if large
      then fail_decode state "size too large"
      else store_new device p_data (
          call_realloc device state (load_pointer (state.memory) p_data)
            (array_size * data_size % 2 ^ 64))

  positive :
      (d a : ℕ)
      → 0 < d
      → 0 < a
      → by_tests d a (eqb d 0 || eqb a 0) (is_too_large d a) ≡ by_tests d a false (is_too_large d a)
  positive d a hd ha = ap (λ t. by_tests d a t (is_too_large d a)) (ground arith)

  -- For positive sizes whose product is below 2^64, `allocate_field` asks the allocator for exactly
  -- the product, at the pointer stored before; for a size of 0 or a product from 2^64 on it fails with
  -- a message and asks for nothing.
  pub allocate_field_exact :
      (data_size array_size : ℕ)
      → ((0 < data_size)
          × (0 < array_size)
          × (data_size * array_size < 2 ^ 64)
          × (allocate_field device p_data data_size array_size state
              ≡ store_new device p_data (
                  call_realloc device state
                    (load_pointer (state.memory) p_data)
                    (array_size * data_size))))
        ⊎ (((data_size ≡ 0) ⊎ (array_size ≡ 0))
            × (allocate_field device p_data data_size array_size state
                ≡ fail_decode state "invalid size"))
        ⊎ ((2 ^ 64 ≤ data_size * array_size)
            × (allocate_field device p_data data_size array_size state
                ≡ fail_decode state "size too large"))
  unfolding allocate_field by_tests
  allocate_field_exact data_size array_size =
      let d = data_size in
      let a = array_size in
      elim (dec_le d 0) [
        | Dec.yes none ↦ inr (
            inl (
              inl (omega arith),
              ap (λ t. by_tests d a (t || eqb a 0) (is_too_large d a)) (eq→eqb d 0 (omega arith)),
            ))
        | Dec.no some_d ↦ elim (dec_le a 0) [
          | Dec.yes none ↦ inr (
              inl (
                inr (omega arith),
                ap (λ t. by_tests d a (eqb d 0 || t) (is_too_large d a)) (eq→eqb a 0 (omega arith))
                    ∙ ap (λ t. by_tests d a t (is_too_large d a)) (or_true (eqb d 0)),
              ))
          | Dec.no some_a ↦ elim (dec_lt (d * a) (2 ^ 64)) [
            | Dec.yes fits ↦ inl (
              omega arith,
              omega arith,
              fits,
              positive d a (omega arith) (omega arith)
                  ∙ ap (by_tests d a false) (is_too_large-fits d a (omega arith) fits)
                  ∙ ap
                      (λ t.
                        store_new device p_data
                          (call_realloc device state (load_pointer (state.memory) p_data) t))
                      (omega arith),
            )
            | Dec.no over ↦ inr (
                inr (
                  omega arith,
                  positive d a (omega arith) (omega arith)
                      ∙ ap (by_tests d a false) (is_too_large-over d a (omega arith) (omega arith)),
                ))
          ]
        ]
      ]
