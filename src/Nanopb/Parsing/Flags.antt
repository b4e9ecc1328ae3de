-- ===== src/Nanopb/Parsing/Flags.antt =====
-- The bits that pb_decode_noinit of pb_decode.c sets for the required fields it has seen.
use on_my_way.Base.{
  ℕ, ◌+◌, ◌/◌, ◌%◌, ◌^◌, ◌≤◌, ◌<◌, ◌≡◌, ◌≢◌, ◌↔◌, ◌⊎◌, inl, inr, refl, ap, sym, ◌∙◌, Bool, true,
  false, List, [], ◌∷◌, foldl, All, Member, eqb, arith, Bool-cases, eqb→eq, bit_or, if◌then◌else◌,
}
use on_my_way.Base.BitAt.{
  bit_at, bit_at-or, bit_at-pow, bit_at-pow_other, bit_at-below, or_below, pow_lt,
}
use on_my_way.Nanopb.Parsing.Progress.{mark_seen}

-- The bit of a required field.
unfoldable pub flag_by : Bool → ℕ → ℕ × ℕ → ℕ
flag_by low m p = if low then bit_at (p.0) m else bit_at (p.1) m

unfoldable pub mark_by : Bool → ℕ → ℕ × ℕ → ℕ × ℕ
mark_by low m p = if low then (bit_or (p.0) (2 ^ m), p.1) else (p.0, bit_or (p.1) (2 ^ m))

unfoldable pub flag : ℕ × ℕ → ℕ → ℕ
flag p k = flag_by (eqb (k / 2 ^ 5) 0) (k % 32) p

set_bit : (w m : ℕ) → bit_at (bit_or w (2 ^ m)) m ≡ 1
set_bit w m = omega (arith, bit_at-or m w (2 ^ m), bit_at-pow m, bit_at-below m w)

keep_bit : (w j m : ℕ) → j ≢ m → bit_at (bit_or w (2 ^ j)) m ≡ bit_at w m
keep_bit w j m h = omega (arith, bit_at-or m w (2 ^ j), bit_at-pow_other j m h)

flag_by-mark_by : (b : Bool) (m : ℕ) (p : ℕ × ℕ) → flag_by b m (mark_by b m p) ≡ 1
unfolding flag_by mark_by
flag_by-mark_by true m p = set_bit (p.0) m
flag_by-mark_by false m p = set_bit (p.1) m

flag_by-mark_other :
    (b c : Bool) (j m : ℕ) (p : ℕ × ℕ)
    → (b ≡ c → j ≢ m)
    → flag_by c m (mark_by b j p) ≡ flag_by c m p
unfolding flag_by mark_by
flag_by-mark_other true true j m p h = keep_bit (p.0) j m (h refl)
flag_by-mark_other true false j m p h = refl
flag_by-mark_other false true j m p h = refl
flag_by-mark_other false false j m p h = keep_bit (p.1) j m (h refl)

flag-mark_seen : (k : ℕ) (p : ℕ × ℕ) → flag (mark_seen p k) k ≡ 1
unfolding flag mark_by
flag-mark_seen k p = flag_by-mark_by (eqb (k / 2 ^ 5) 0) (k % 32) p

flag-mark_other :
    (i k : ℕ) (p : ℕ × ℕ) → i < 64 → k < 64 → i ≢ k → flag (mark_seen p i) k ≡ flag p k
unfolding flag mark_by
flag-mark_other i k p hi hk ne =
    flag_by-mark_other (eqb (i / 2 ^ 5) 0) (eqb (k / 2 ^ 5) 0) (i % 32) (k % 32) p
      (λ same e. ne (ground arith))

pub eq_or : (k i : ℕ) → (k ≡ i) ⊎ (i ≢ k)
eq_or k i = elim (Bool-cases (eqb k i)) [
  | inl same ↦ inl (eqb→eq k i same)
  | inr other ↦ inr (λ e. ground arith)
]

module _ (n : ℕ) (most : n ≤ 64) where
  pub flag-foldl :
      (ids : List ℕ) (p : ℕ × ℕ) (k : ℕ)
      → All (λ i. i < n) ids
      → k < n
      → (flag (foldl mark_seen p ids) k ≡ 1) ↔ ((flag p k ≡ 1) ⊎ Member k ids)
  flag-foldl [] p k low h =
      (inl, λ (s : (flag p k ≡ 1) ⊎ Member k []). elim s [ inl set ↦ set | inr e ↦ elim e [ ] ])
  flag-foldl (i ∷ ids) p k low h =
      let (there, back) = flag-foldl ids (mark_seen p i) k (low.1) h in
      (
        (λ set. elim (there set) [
          | inr later ↦ inr (inr later)
          | inl now ↦ elim (eq_or k i) [
            | inl same ↦ inr (inl same)
            | inr ne ↦
                inl (sym (flag-mark_other i k p (omega (arith, low.0)) (omega arith) ne) ∙ now)
          ]
        ]),
        (λ (s : (flag p k ≡ 1) ⊎ Member k (i ∷ ids)). elim s [
          | inl set ↦ elim (eq_or k i) [
            | inl same ↦
                back (inl (ap (λ t. flag (mark_seen p t) k) (sym same) ∙ flag-mark_seen k p))
            | inr ne ↦
                back (inl (flag-mark_other i k p (omega (arith, low.0)) (omega arith) ne ∙ set))
          ]
          | inr (inl same) ↦
              back (inl (ap (λ t. flag (mark_seen p t) k) (sym same) ∙ flag-mark_seen k p))
          | inr (inr later) ↦ back (inr later)
        ]),
      )

-- No bit is set from `a` on in the first word and from `b` on in the second.
abbrev pub IsWithinBits : ℕ → ℕ → ℕ × ℕ → Type 0
IsWithinBits a b p = (p.0 < 2 ^ a) × (p.1 < 2 ^ b)

mark_by-IsWithinBits :
    (a b : ℕ) (first : Bool) (m : ℕ) (p : ℕ × ℕ)
    → (first ≡ true → m < a)
    → (first ≡ false → m < b)
    → IsWithinBits a b p
    → IsWithinBits a b (mark_by first m p)
unfolding mark_by
mark_by-IsWithinBits a b true m p ha hb (low, high) =
    (or_below a (p.0) (2 ^ m) low (pow_lt m a (ha refl)), high)
mark_by-IsWithinBits a b false m p ha hb (low, high) =
    (low, or_below b (p.1) (2 ^ m) high (pow_lt m b (hb refl)))

pub foldl-IsWithinBits :
    (n a b : ℕ)
    → ((i : ℕ) → i < n → eqb (i / 2 ^ 5) 0 ≡ true → i % 32 < a)
    → ((i : ℕ) → i < n → eqb (i / 2 ^ 5) 0 ≡ false → i % 32 < b)
    → (ids : List ℕ) (p : ℕ × ℕ) → All (λ i. i < n) ids
    → IsWithinBits a b p
    → IsWithinBits a b (foldl mark_seen p ids)
unfolding mark_by
foldl-IsWithinBits n a b ha hb [] p low within = within
foldl-IsWithinBits n a b ha hb (i ∷ ids) p low within =
    foldl-IsWithinBits n a b ha hb ids (mark_seen p i) (low.1)
      (mark_by-IsWithinBits a b (eqb (i / 2 ^ 5) 0) (i % 32) p (ha i (low.0)) (hb i (low.0)) within)

pub flag_low : (p : ℕ × ℕ) (k : ℕ) → k < 32 → flag p k ≡ bit_at (p.0) k
unfolding flag flag_by
flag_low p k h =
    let first : eqb (k / 2 ^ 5) 0 ≡ true = ground arith in
    ap (λ t. flag_by t (k % 32) p) first ∙ ap (bit_at (p.0)) (omega arith)

pub flag_high : (p : ℕ × ℕ) (k : ℕ) → k < 32 → flag p (k + 32) ≡ bit_at (p.1) k
unfolding flag flag_by
flag_high p k h =
    let second : eqb ((k + 32) / 2 ^ 5) 0 ≡ false = ground arith in
    ap (λ t. flag_by t ((k + 32) % 32) p) second ∙ ap (bit_at (p.1)) (omega arith)
