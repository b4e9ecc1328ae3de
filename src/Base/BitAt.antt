-- ===== src/Base/BitAt.antt =====
-- The single bits of a number.
use Prim.Native.Nat.{ℕ, zero, suc, ◌+◌, ◌*◌, ◌/◌, ◌%◌, ◌^◌, ◌<◌, max, bit_or}
use mathlib.Core.Path.{◌≡◌, refl, ap, sym, ◌∙◌}
use mathlib.Core.Logic.{◌≢◌}
use native.Mathlib.Nat.{pow-suc}
use native.Mathlib.Omega.{arith}
use on_my_way.Base.Bits.{or_half, or-zero-left}

unfoldable pub bit_at : ℕ → ℕ → ℕ
bit_at w zero = w % 2
bit_at w (suc k) = bit_at (w / 2) k

pub bit_at-or : (k x y : ℕ) → bit_at (bit_or x y) k ≡ max (bit_at x k) (bit_at y k)
unfolding bit_at
bit_at-or zero x y = omega (arith, or_half x y)
bit_at-or (suc k) x y = ap (λ t. bit_at t k) half ∙ bit_at-or k (x / 2) (y / 2)
  where
    half : bit_or x y / 2 ≡ bit_or (x / 2) (y / 2)
    half = omega (arith, or_half x y)

pub bit_at-zero : (k : ℕ) → bit_at 0 k ≡ 0
unfolding bit_at
bit_at-zero zero = refl
bit_at-zero (suc k) = bit_at-zero k

half_pow : (j : ℕ) → 2 ^ suc j / 2 ≡ 2 ^ j
half_pow j = omega (arith, pow-suc 2 j)

pub bit_at-pow : (j : ℕ) → bit_at (2 ^ j) j ≡ 1
unfolding bit_at
bit_at-pow zero = refl
bit_at-pow (suc j) = ap (λ t. bit_at t j) (half_pow j) ∙ bit_at-pow j

pub bit_at-pow_other : (j k : ℕ) → j ≢ k → bit_at (2 ^ j) k ≡ 0
unfolding bit_at
bit_at-pow_other zero zero h = absurd (h refl)
bit_at-pow_other zero (suc k) h = bit_at-zero k
bit_at-pow_other (suc j) zero h = omega (arith, pow-suc 2 j)
bit_at-pow_other (suc j) (suc k) h =
    ap (λ t. bit_at t k) (half_pow j) ∙ bit_at-pow_other j k (λ e. h (ap suc e))

pub or_below : (r x y : ℕ) → x < 2 ^ r → y < 2 ^ r → bit_or x y < 2 ^ r
or_below zero x y hx hy = omega (arith, ap (λ t. bit_or t y) (zero_of x hx), or-zero-left y)
  where
    zero_of : (v : ℕ) → v < 1 → v ≡ 0
    zero_of v h = omega arith
or_below (suc r) x y hx hy = omega (
  arith,
  or_half x y,
  pow-suc 2 r,
  or_below r (x / 2) (y / 2) (omega (arith, pow-suc 2 r)) (omega (arith, pow-suc 2 r)),
)

pub pow_pos : (r : ℕ) → 0 < 2 ^ r
pow_pos zero = omega arith
pow_pos (suc r) = omega (arith, pow-suc 2 r, pow_pos r)

pub pow_lt : (j r : ℕ) → j < r → 2 ^ j < 2 ^ r
pow_lt j zero h = absurd (omega arith)
pow_lt zero (suc r) h = omega (arith, pow-suc 2 r, pow_pos r)
pow_lt (suc j) (suc r) h = omega (arith, pow-suc 2 r, pow-suc 2 j, pow_lt j r (omega arith))

-- The number with exactly the lowest `r` bits.
pub all_set : (r w : ℕ) → w < 2 ^ r → ((k : ℕ) → k < r → bit_at w k ≡ 1) → suc w ≡ 2 ^ r
unfolding bit_at
all_set zero w h each = omega arith
all_set (suc r) w h each = omega (
  arith,
  pow-suc 2 r,
  each 0 (omega arith),
  all_set r (w / 2) (omega (arith, pow-suc 2 r)) (λ k b. each (suc k) (omega arith)),
)

pub each_set : (r w : ℕ) → suc w ≡ 2 ^ r → (k : ℕ) → k < r → bit_at w k ≡ 1
unfolding bit_at
each_set zero w h k b = absurd (omega arith)
each_set (suc r) w h zero b = omega (arith, pow-suc 2 r)
each_set (suc r) w h (suc k) b = each_set r (w / 2) (omega (arith, h, pow-suc 2 r)) k (omega arith)

pub bit_at-below : (k w : ℕ) → bit_at w k < 2
unfolding bit_at
bit_at-below zero w = omega arith
bit_at-below (suc k) w = bit_at-below k (w / 2)

pub pow_split : (r q : ℕ) → 2 ^ r * 2 ^ q ≡ 2 ^ (r + q)
pow_split zero q = omega (arith, ap (λ (t : ℕ). 2 ^ t) (zero_left q))
  where
    zero_left : (v : ℕ) → 0 + v ≡ v
    zero_left v = omega arith
pow_split (suc r) q =
    ap (λ (t : ℕ). t * 2 ^ q) (pow-suc 2 r)
    ∙ omega (arith, pow_split r q)
    ∙ sym (pow-suc 2 (r + q))
    ∙ ap (λ (t : ℕ). 2 ^ t) (suc_left r q)
  where
    suc_left : (v u : ℕ) → suc (v + u) ≡ suc v + u
    suc_left v u = omega arith
