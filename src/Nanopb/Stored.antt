-- ===== src/Nanopb/Stored.antt =====
-- Numbers in the memory of Nanopb/Memory.antt.
use on_my_way.Base.{
  ℕ, zero, suc, ◌+◌, ◌*◌, ◌/◌, ◌%◌, ◌^◌, ◌<◌, ◌≡◌, refl, ap, ◌∙◌, false, eqb, eq→eqb, arith,
  if◌then◌else◌,
}
use native.Mathlib.Nat.{pow-suc}
use on_my_way.Nanopb.Memory.{Memory, load, store, store_byte}

ne→eqb : (q p : ℕ) → q < p → eqb q p ≡ false
ne→eqb q p h = ground arith

store-before :
    (n : ℕ) (memory : Memory) (p value q : ℕ) → q < p → store memory n p value q ≡ memory q
unfolding store
store-before zero memory p value q h = refl
store-before (suc n) memory p value q h =
    store-before n (store_byte memory p value) (suc p) (value / 256) q (omega arith)
    ∙ ap (λ t. if t then value % 256 else memory q) (ne→eqb q p h)

pub load-below : (n : ℕ) (memory : Memory) (p : ℕ) → load memory n p < 256 ^ n
unfolding load
load-below zero memory p = omega arith
load-below (suc n) memory p = omega (arith, pow-suc 256 n, load-below n memory (suc p))

shift : (n q : ℕ) → 256 ^ suc n * q ≡ 256 * (256 ^ n * q)
shift n q = omega (arith, ap (λ (t : ℕ). t * q) (pow-suc 256 n))

-- What is stored is cut to its size.
pub load-store :
    (n : ℕ) (memory : Memory) (p value r q : ℕ)
    → value ≡ r + 256 ^ n * q
    → r < 256 ^ n
    → load (store memory n p value) n p ≡ r
unfolding load store
load-store zero memory p value r q h below = omega (arith, below)
load-store (suc n) memory p value r q h below =
    let byte : store (store_byte memory p value) n (suc p) (value / 256) p ≡ value % 256 =
      store-before n (store_byte memory p value) (suc p) (value / 256) p (omega arith)
      ∙ ap (λ t. if t then value % 256 else memory p) (eq→eqb p p refl) in
    omega (
      arith,
      h,
      byte,
      shift n q,
      load-store n (store_byte memory p value) (suc p) (value / 256) (r / 256) q
          (omega (arith, h, shift n q)) (omega (arith, below, pow-suc 256 n)),
    )
