-- ===== src/Nanopb/Parsing/Required.antt =====
-- The check for required fields at the end of pb_decode_noinit of pb_decode.c.
use on_my_way.Base.{
  ℕ, zero, suc, ◌+◌, ◌-◌, ◌*◌, ◌/◌, ◌%◌, ◌^◌, ◌≤◌, ◌<◌, ◌≡◌, ◌≢◌, ◌↔◌, inl, inr, refl, ap, sym,
  subst, ◌∙◌, Bool, true, false, ◌&&◌, ◌||◌, List, foldl, All, Member, eqb, leb, arith, eqb→eq,
  eq→eqb, if◌then◌else◌,
}
use on_my_way.Base.BitAt.{bit_at, bit_at-zero, pow_pos, pow_split, all_set, each_set}
use native.Mathlib.Decide.{dec_lt}
use native.Mathlib.Nat.{div-eq_of_lt-le}
use on_my_way.Nanopb.Parsing.Progress.{allbits, mark_seen, seen_all}
use on_my_way.Nanopb.Parsing.Flags.{
  flag_by, flag, eq_or, flag-foldl, IsWithinBits, foldl-IsWithinBits, flag_low, flag_high,
}

-- The bits that a word of `r` bits is compared with.
mask_of : (a q : ℕ) → 0 < a → 0 < q → a * q ≡ 2 ^ 32 → suc (allbits / q) ≡ a
mask_of zero q pos_a pos_q whole = absurd (omega arith)
mask_of (suc a) q pos_a pos_q whole =
    ap suc (div-eq_of_lt-le {k = a} q (omega (arith, whole)) (omega (arith, whole)))

mask : (r : ℕ) → r < 32 → suc (allbits / 2 ^ (32 - r)) ≡ 2 ^ r
mask r h =
    let whole : r + (32 - r) ≡ 32 = omega arith in
    mask_of (2 ^ r) (2 ^ (32 - r)) (pow_pos r) (pow_pos (32 - r))
      (pow_split r (32 - r) ∙ ap (λ (t : ℕ). 2 ^ t) whole)

or_true_right : (b : Bool) → (b || true) ≡ true
or_true_right true = refl
or_true_right false = refl

module _ (r w : ℕ) (h : r < 32) (bound : w < 2 ^ r) where
  rest_set : ((eqb r 0 || eqb w (allbits / 2 ^ (32 - r))) ≡ true) ↔ (suc w ≡ 2 ^ r)
  rest_set = (
    (λ test. elim (eq_or r 0) [
      | inl none ↦ omega (arith, bound, ap (λ (t : ℕ). 2 ^ t) none)
      | inr some_bits ↦ ap suc (eqb→eq w (allbits / 2 ^ (32 - r)) (rest test some_bits)) ∙ mask r h
    ]),
    (λ all.
        ap (λ t. eqb r 0 || t) (eq→eqb w (allbits / 2 ^ (32 - r)) (omega (arith, all, mask r h)))
        ∙ or_true_right (eqb r 0)),
  )
    where
      rest :
          (eqb r 0 || eqb w (allbits / 2 ^ (32 - r))) ≡ true
          → 0 ≢ r
          → eqb w (allbits / 2 ^ (32 - r)) ≡ true
      rest test ne = ground arith

full_word : (w : ℕ) → (eqb w allbits ≡ true) ↔ (suc w ≡ 2 ^ 32)
full_word w = ((λ test. ap suc (eqb→eq w allbits test)), (λ all. eq→eqb w allbits (omega arith)))

-- `seen_all` by the quotient and the remainder of the count.
seen_by : ℕ → ℕ → ℕ × ℕ → Bool
seen_by q r p =
    (leb q 0 || eqb (p.0) allbits)
    && (leb q 1 || eqb (p.1) allbits)
    && (eqb r 0 || eqb (if eqb q 0 then p.0 else p.1) (allbits / 2 ^ (32 - r)))

seen_all-seen_by :
    (p : ℕ × ℕ) (n q r : ℕ) → n / 2 ^ 5 ≡ q → n % 32 ≡ r → seen_all p n ≡ seen_by q r p
unfolding seen_by
seen_all-seen_by p n q r hq hr = ap (λ t. seen_by t (n % 32) p) hq ∙ ap (λ t. seen_by q t p) hr

and_parts : (a b : Bool) → (a && b) ≡ true → (a ≡ true) × (b ≡ true)
and_parts true b h = (refl, h)
and_parts false b h = absurd (cc h)

and_join : (a b : Bool) → a ≡ true → b ≡ true → (a && b) ≡ true
and_join a b ha hb = ap (λ t. t && b) ha ∙ hb

-- All flags below `n`.
abbrev AllSeen : ℕ → ℕ × ℕ → Type 0
AllSeen n p = (k : ℕ) → k < n → flag p k ≡ 1

one_word : (n b : ℕ) (p : ℕ × ℕ) → n < 32 → IsWithinBits n b p → (seen_all p n ≡ true) ↔ AllSeen n p
unfolding seen_by
one_word n b p h (low, high) =
    let by = seen_all-seen_by p n 0 n (omega arith) (omega arith) in
    let (there, back) = rest_set n (p.0) h low in
    (
      (λ all k hk. flag_low p k (omega arith) ∙ each_set n (p.0) (there (sym by ∙ all)) k hk),
      (λ each.
          by ∙ back (all_set n (p.0) low (λ k hk. sym (flag_low p k (omega arith)) ∙ each k hk))),
    )

-- The first word full, and `r` bits of the second.
both_words :
    (r : ℕ) (p : ℕ × ℕ)
    → p.0 < 2 ^ 32
    → (suc (p.0) ≡ 2 ^ 32) × (suc (p.1) ≡ 2 ^ r)
    → r ≤ 32
    → AllSeen (r + 32) p
both_words r p low (full, rest) h k hk = elim (dec_lt k 32) [
  | Dec.yes small ↦ flag_low p k small ∙ each_set 32 (p.0) full k small
  | Dec.no large ↦
      ap (flag p) (omega arith)
      ∙ flag_high p (k - 32) (omega arith)
      ∙ each_set r (p.1) rest (k - 32) (omega arith)
]

words_full :
    (r : ℕ) (p : ℕ × ℕ)
    → IsWithinBits 32 r p
    → r ≤ 32
    → AllSeen (r + 32) p
    → (suc (p.0) ≡ 2 ^ 32) × (suc (p.1) ≡ 2 ^ r)
words_full r p (low, high) h each = (
  all_set 32 (p.0) low (λ k hk. sym (flag_low p k hk) ∙ each k (omega arith)),
  all_set r (p.1) high (λ k hk. sym (flag_high p k (omega arith)) ∙ each (k + 32) (omega arith)),
)

two_words :
    (r : ℕ) (p : ℕ × ℕ)
    → r < 32
    → IsWithinBits 32 r p
    → (seen_all p (r + 32) ≡ true) ↔ AllSeen (r + 32) p
unfolding seen_by
two_words r p h (low, high) =
    let by = seen_all-seen_by p (r + 32) 1 r (omega arith) (omega arith) in
    let (there, back) = rest_set r (p.1) h high in
    (
      (λ all.
          let (words, rest) =
            and_parts (eqb (p.0) allbits && true) (eqb r 0 || eqb (p.1) (allbits / 2 ^ (32 - r)))
              (sym by ∙ all) in
          let (first, none) = and_parts (eqb (p.0) allbits) true words in
          both_words r p low ((full_word (p.0)).0 first, there rest) (omega arith)),
      (λ each.
          let (full, rest) = words_full r p (low, high) (omega arith) each in
          by
          ∙ and_join (eqb (p.0) allbits && true) (eqb r 0 || eqb (p.1) (allbits / 2 ^ (32 - r)))
              (and_join (eqb (p.0) allbits) true ((full_word (p.0)).1 full) refl) (back rest)),
    )

whole_words : (p : ℕ × ℕ) → IsWithinBits 32 32 p → (seen_all p 64 ≡ true) ↔ AllSeen 64 p
unfolding seen_by
whole_words p (low, high) =
    let by = seen_all-seen_by p 64 2 0 refl refl in
    (
      (λ all.
          let (words, none) =
            and_parts (eqb (p.0) allbits && eqb (p.1) allbits) true (sym by ∙ all) in
          let (first, second) = and_parts (eqb (p.0) allbits) (eqb (p.1) allbits) words in
          both_words 32 p low ((full_word (p.0)).0 first, (full_word (p.1)).0 second)
            (omega arith)),
      (λ each.
          let (full, rest) = words_full 32 p (low, high) (omega arith) each in
          by
          ∙ and_join (eqb (p.0) allbits && eqb (p.1) allbits) true
              (and_join (eqb (p.0) allbits) (eqb (p.1) allbits) ((full_word (p.0)).1 full)
                ((full_word (p.1)).1 rest))
              refl),
    )

-- `seen_all` of the words in which the fields `ids` are marked, from any words within the count.
by_count :
    (n : ℕ) (ids : List ℕ)
    → n ≤ 64
    → All (λ i. i < n) ids
    → (seen_all (foldl mark_seen (0, 0) ids) n ≡ true) ↔ AllSeen n (foldl mark_seen (0, 0) ids)
by_count n ids most low = elim (dec_lt n 32) [
  | Dec.yes small ↦ one_word n 0 (foldl mark_seen (0, 0) ids) small (
      foldl-IsWithinBits n n 0 (λ i h first. ground arith) (λ i h second. ground arith) ids (0, 0)
        low (pow_pos n, omega arith))
  | Dec.no large ↦ elim (dec_lt n 64) [
    | Dec.yes below ↦ subst counts (omega arith) (
        two_words (n - 32) (foldl mark_seen (0, 0) ids) (omega arith) (
          foldl-IsWithinBits n 32 (n - 32) (λ i h first. omega arith) (λ i h second. ground arith)
            ids (0, 0) low (omega arith, pow_pos (n - 32))))
    | Dec.no full ↦ subst counts (omega arith) (
        whole_words (foldl mark_seen (0, 0) ids) (
          foldl-IsWithinBits n 32 32 (λ i h first. omega arith) (λ i h second. omega arith) ids
            (0, 0) low (omega arith, omega arith)))
  ]
]
  where
    counts : ℕ → Type 0
    counts m =
        (seen_all (foldl mark_seen (0, 0) ids) m ≡ true) ↔ AllSeen m (foldl mark_seen (0, 0) ids)

no_flag : (k : ℕ) → flag (0, 0) k ≢ 1
unfolding flag flag_by
no_flag k = none (eqb (k / 2 ^ 5) 0)
  where
    none : (b : Bool) → (if b then bit_at 0 (k % 32) else bit_at 0 (k % 32)) ≢ 1
    none true h = omega (arith, h, bit_at-zero (k % 32))
    none false h = omega (arith, h, bit_at-zero (k % 32))

-- With at most 64 required fields and marks for none but them, in any order and with repetitions, the
-- check at the end of `pb_decode_noinit` passes exactly when each of the fields was marked.
pub seen_all-mark_seen :
    (n : ℕ) (ids : List ℕ)
    → n ≤ 64
    → All (λ i. i < n) ids
    → (seen_all (foldl mark_seen (0, 0) ids) n ≡ true) ↔ ((k : ℕ) → k < n → Member k ids)
seen_all-mark_seen n ids most low =
    let (there, back) = by_count n ids most low in
    (
      (λ all k h. elim ((flag-foldl n most ids (0, 0) k low h).0 (there all k h)) [
        | inl set ↦ absurd (no_flag k set)
        | inr marked ↦ marked
      ]),
      (λ each. back (λ k h. (flag-foldl n most ids (0, 0) k low h).1 (inr (each k h)))),
    )
