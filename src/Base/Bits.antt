-- ===== src/Base/Bits.antt =====
-- `&` with a low mask and `|` of disjoint fields, as arithmetic.
use Prim.Native.Nat.{
  ℕ, zero, suc, ◌+◌, ◌*◌, ◌/◌, ◌%◌, ◌^◌, ◌≤◌, ◌<◌, min, max, bit_and, bit_or, digits,
  bit_and-bitwise, bit_or-bitwise,
}
use mathlib.Core.Path.{◌≡◌, refl, ap, sym, ◌∙◌}
use native.Mathlib.Nat.{pow-suc}
use native.Mathlib.Omega.{arith}

-- More rounds than binary digits change nothing.
module _ (tail : ℕ → ℕ) (digit : ℕ → ℕ → ℕ) where
  digits-rounds : (m n x y : ℕ) → x ≤ m → x ≤ n → digits tail digit m x y ≡ digits tail digit n x y
  digits-rounds zero zero x y hm hn = refl
  digits-rounds zero (suc n) zero y hm hn = refl
  digits-rounds zero (suc n) (suc x) y hm hn = absurd (omega arith)
  digits-rounds (suc m) zero zero y hm hn = refl
  digits-rounds (suc m) zero (suc x) y hm hn = absurd (omega arith)
  digits-rounds (suc m) (suc n) zero y hm hn = refl
  digits-rounds (suc m) (suc n) (suc x) y hm hn =
      ap (λ t. t * 2 + digit (suc x % 2) (y % 2))
        (digits-rounds m n (suc x / 2) (y / 2) (omega arith) (omega arith))

-- The lowest digit and the rest.
and_half : (x y : ℕ) → bit_and x y ≡ bit_and (x / 2) (y / 2) * 2 + min (x % 2) (y % 2)
and_half zero y = omega (arith, bit_and-bitwise 0 y, bit_and-bitwise 0 (y / 2))
and_half (suc x) y = omega (
  arith,
  bit_and-bitwise (suc x) y,
  bit_and-bitwise (suc x / 2) (y / 2),
  digits-rounds (λ t. 0) min x (suc x / 2) (suc x / 2) (y / 2) (omega arith) (omega arith),
)

pub or_half : (x y : ℕ) → bit_or x y ≡ bit_or (x / 2) (y / 2) * 2 + max (x % 2) (y % 2)
or_half zero y = omega (arith, bit_or-bitwise 0 y, bit_or-bitwise 0 (y / 2))
or_half (suc x) y = omega (
  arith,
  bit_or-bitwise (suc x) y,
  bit_or-bitwise (suc x / 2) (y / 2),
  digits-rounds (λ t. t) max x (suc x / 2) (suc x / 2) (y / 2) (omega arith) (omega arith),
)

zero-and : (y : ℕ) → bit_and 0 y ≡ 0
zero-and y = omega (arith, bit_and-bitwise 0 y)

and-zero-below : (n x : ℕ) → x ≤ n → bit_and x 0 ≡ 0
and-zero-below n zero h = zero-and 0
and-zero-below zero (suc x) h = absurd (omega arith)
and-zero-below (suc n) (suc x) h =
    omega (arith, and_half (suc x) 0, and-zero-below n (suc x / 2) (omega arith))

and-zero : (x : ℕ) → bit_and x 0 ≡ 0
and-zero x = and-zero-below x x (omega arith)

-- `x & 7` and `x & 0x7F`.
pub and_7 : (x : ℕ) → bit_and x 7 ≡ x % 8
and_7 x =
    omega
      (arith, and_half x 7, and_half (x / 2) 3, and_half (x / 2 / 2) 1, and-zero (x / 2 / 2 / 2))

pub and_0x7f : (x : ℕ) → bit_and x 0x7f ≡ x % 128
and_0x7f x = omega (
  arith,
  and_half x 127,
  and_half (x / 2) 63,
  and_half (x / 2 / 2) 31,
  and_half (x / 2 / 2 / 2) 15,
  and_7 (x / 2 / 2 / 2 / 2),
  and_half (x / 2 / 2 / 2 / 2) 7,
)

pub and_0xff : (x : ℕ) → bit_and x 0xff ≡ x % 256
and_0xff x = omega (arith, and_half x 255, and_0x7f (x / 2))

pub or-zero-left : (y : ℕ) → bit_or 0 y ≡ y
or-zero-left y = omega (arith, bit_or-bitwise 0 y)

double_pow : (q k : ℕ) → q * 2 ^ suc k ≡ 2 * (q * 2 ^ k)
double_pow q k = omega (arith, ap (λ (t : ℕ). q * t) (pow-suc 2 k))

r_zero : (r : ℕ) → r < 1 → r ≡ 0
r_zero r h = omega arith

-- A value below `2 ^ k` and one shifted by `k` share no bit.
pub or_shifted : (k r q : ℕ) → r < 2 ^ k → bit_or r (q * 2 ^ k) ≡ r + q * 2 ^ k
or_shifted zero r q h =
    ap (λ t. bit_or t (q * 1)) (r_zero r h) ∙ or-zero-left (q * 1) ∙ omega (arith, h)
or_shifted (suc k) r q h =
    ground (arith, or_half r (q * 2 ^ suc k), double_pow q k, pow-suc 2 k, or_shifted k (r / 2) q)

or_high_bit : (x y : ℕ) → x < 128 → bit_or x (y * 128) ≡ x + y * 128
or_high_bit = or_shifted 7

-- `x | 0x80` and `x & 0x80`.
pub or_0x80 : (x : ℕ) → x < 128 → bit_or x 0x80 ≡ x + 128
or_0x80 x h = or_high_bit x 1 h

and_double : (x y : ℕ) → bit_and x (2 * y) ≡ bit_and (x / 2) y * 2
and_double x y =
    and_half x (2 * y)
    ∙ ap (λ t. bit_and (x / 2) t * 2 + min (x % 2) (2 * y % 2)) (half y)
    ∙ omega arith
  where
    half : (z : ℕ) → 2 * z / 2 ≡ z
    half z = omega arith

pub and_1 : (x : ℕ) → bit_and x 1 ≡ x % 2
and_1 x = omega (arith, and_half x 1, and-zero (x / 2))

and_16 : (x : ℕ) → bit_and x 16 ≡ x / 16 % 2 * 16
and_16 x = omega (
  arith,
  and_double x 8,
  and_double (x / 2) 4,
  and_double (x / 2 / 2) 2,
  and_double (x / 2 / 2 / 2) 1,
  and_1 (x / 2 / 2 / 2 / 2),
)

pub and_0x70 : (x : ℕ) → bit_and x 0x70 ≡ x / 16 % 8 * 16
and_0x70 x = omega (
  arith,
  and_double x 56,
  and_double (x / 2) 28,
  and_double (x / 2 / 2) 14,
  and_double (x / 2 / 2 / 2) 7,
  and_7 (x / 2 / 2 / 2 / 2),
)

pub and_0x80 : (x : ℕ) → bit_and x 0x80 ≡ x / 128 % 2 * 128
and_0x80 x = omega (
  arith,
  and_double x 64,
  and_double (x / 2) 32,
  and_double (x / 2 / 2) 16,
  and_16 (x / 2 / 2 / 2),
)

pub pow_7 : (k : ℕ) → 2 ^ (k + 7) ≡ 128 * 2 ^ k
pow_7 k =
    ap (λ (t : ℕ). 2 ^ t) (sum k)
    ∙ omega (
      arith,
      pow-suc 2 k,
      pow-suc 2 (suc k),
      pow-suc 2 (suc (suc k)),
      pow-suc 2 (suc (suc (suc k))),
      pow-suc 2 (suc (suc (suc (suc k)))),
      pow-suc 2 (suc (suc (suc (suc (suc k))))),
      pow-suc 2 (suc (suc (suc (suc (suc (suc k)))))),
    )
  where
    sum : (n : ℕ) → n + 7 ≡ suc (suc (suc (suc (suc (suc (suc n))))))
    sum n = omega arith

or_comm-below : (n x y : ℕ) → x ≤ n → y ≤ n → bit_or x y ≡ bit_or y x
or_comm-below zero x y hx hy =
    ap (λ t. bit_or t y) (none x hx)
    ∙ ap (bit_or 0) (none y hy)
    ∙ sym (ap (λ t. bit_or t x) (none y hy) ∙ ap (bit_or 0) (none x hx))
  where
    none : (z : ℕ) → z ≤ 0 → z ≡ 0
    none z h = omega arith
or_comm-below (suc n) x y hx hy =
    omega
      (arith, or_half x y, or_half y x, or_comm-below n (x / 2) (y / 2) (omega arith) (omega arith))

pub or_comm : (x y : ℕ) → bit_or x y ≡ bit_or y x
or_comm x y = or_comm-below (x + y) x y (omega arith) (omega arith)
