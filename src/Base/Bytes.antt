-- ===== src/Base/Bytes.antt =====
-- Exclusive or and masks on numbers cut into a high part and `k` low bits, at every `k`.
use native.Mathlib.Nat.{mod-eq_of_lt, pow-suc, one-le-pow, mod-add-div, div-div-eq-div-mul}
use dma.Base.Bits.{zero-bit_and, bit_xor_step, bit_and_step, zero-bit_xor, bit_or_step, bit_or-zero}
use Prim.Native.Nat.{
  ℕ, zero, suc, ◌+◌, ◌-◌, ◌*◌, ◌/◌, ◌%◌, ◌^◌, ◌≤◌, ◌<◌, min, bit_and, bit_or, bit_xor,
}
use mathlib.Core.Path.{◌≡◌, refl, ap, ap₂, ◌∙◌}
use native.Mathlib.Omega.{arith}

mul-pow-suc : (q k : ℕ) → q * 2 ^ suc k ≡ 2 * (q * 2 ^ k)
mul-pow-suc q k = omega (arith, ap (λ (t : ℕ). q * t) (pow-suc 2 k))

pub bit_xor-lt : (k a b : ℕ) → a < 2 ^ k → b < 2 ^ k → bit_xor a b < 2 ^ k
bit_xor-lt zero zero b p q = omega (arith, zero-bit_xor b)
bit_xor-lt zero (suc a) b p q = absurd (omega arith)
bit_xor-lt (suc k) a b p q = omega (
  arith,
  pow-suc 2 k,
  bit_xor_step a b,
  bit_xor-lt k (a / 2) (b / 2) (omega (arith, pow-suc 2 k)) (omega (arith, pow-suc 2 k)),
)

-- High parts and low parts meet only one another.
pub bit_xor_split :
    (k q r s t : ℕ)
    → r < 2 ^ k
    → t < 2 ^ k
    → bit_xor (q * 2 ^ k + r) (s * 2 ^ k + t) ≡ bit_xor q s * 2 ^ k + bit_xor r t
bit_xor_split zero q r s t p h = ground (arith, zero-bit_xor 0)
bit_xor_split (suc k) q r s t p h = ground (
  arith,
  bit_xor_step (q * 2 ^ suc k + r) (s * 2 ^ suc k + t),
  bit_xor_step r t,
  mul-pow-suc q k,
  mul-pow-suc s k,
  mul-pow-suc (bit_xor q s) k,
  pow-suc 2 k,
  bit_xor_split k q (r / 2) s (t / 2),
)

bit_and-zero_below : (n a : ℕ) → a ≤ n → bit_and a 0 ≡ 0
bit_and-zero_below zero zero h = refl
bit_and-zero_below zero (suc a) h = absurd (omega arith)
bit_and-zero_below (suc n) zero h = refl
bit_and-zero_below (suc n) (suc a) h =
    omega (arith, bit_and_step (suc a) 0, bit_and-zero_below n (suc a / 2) (omega arith))

pub bit_and-zero : (a : ℕ) → bit_and a 0 ≡ 0
bit_and-zero a = bit_and-zero_below a a (omega arith)

mod_half : (a m : ℕ) → a % (2 * m) ≡ 2 * ((a / 2) % m) + a % 2
mod_half a m = omega (
  arith,
  mod-add-div a (2 * m),
  mod-add-div (a / 2) m,
  ap (λ (t : ℕ). 2 * m * t) (div-div-eq-div-mul a 2 m),
)

-- A mask of `k` ones is the remainder by `2 ^ k`.
pub bit_and_mask : (k a : ℕ) → bit_and a (2 ^ k - 1) ≡ a % 2 ^ k
bit_and_mask zero a = omega (arith, bit_and-zero a)
bit_and_mask (suc k) a = ground (
  arith,
  bit_and_step a (2 ^ suc k - 1),
  bit_and_mask k (a / 2),
  pow-suc 2 k,
  one-le-pow k 2,
  mod_half a (2 ^ k),
)

-- Where no bit is set on both sides, `bit_or` adds.
pub bit_or_disjoint : (k q r : ℕ) → r < 2 ^ k → bit_or (q * 2 ^ k) r ≡ q * 2 ^ k + r
bit_or_disjoint zero q r h =
    ap₂ bit_or {x = q * 2 ^ 0} {y = q} (omega arith) (omega arith) ∙ bit_or-zero q ∙ omega arith
bit_or_disjoint (suc k) q r h = ground (
  arith,
  bit_or_step (q * 2 ^ suc k) r,
  mul-pow-suc q k,
  pow-suc 2 k,
  bit_or_disjoint k q (r / 2),
)

pub bit_and-lt : (k a b : ℕ) → a < 2 ^ k → bit_and a b < 2 ^ k
bit_and-lt zero zero b p = omega (arith, zero-bit_and b)
bit_and-lt zero (suc a) b p = absurd (omega arith)
bit_and-lt (suc k) a b p = omega (
  arith,
  pow-suc 2 k,
  bit_and_step a b,
  bit_and-lt k (a / 2) (b / 2) (omega (arith, pow-suc 2 k)),
)

pub bit_or-lt : (k a b : ℕ) → a < 2 ^ k → b < 2 ^ k → bit_or a b < 2 ^ k
bit_or-lt zero zero zero p q = omega (arith, bit_or-zero 0)
bit_or-lt zero (suc a) b p q = absurd (omega arith)
bit_or-lt zero zero (suc b) p q = absurd (omega arith)
bit_or-lt (suc k) a b p q = omega (
  arith,
  pow-suc 2 k,
  bit_or_step a b,
  bit_or-lt k (a / 2) (b / 2) (omega (arith, pow-suc 2 k)) (omega (arith, pow-suc 2 k)),
)

-- A mask of ones above `k` zeros rounds down to a multiple of `2 ^ k`.
pub bit_and_high : (k j x : ℕ) → x < 2 ^ (k + j) → bit_and x (2 ^ (k + j) - 2 ^ k) ≡ x - x % 2 ^ k
bit_and_high zero j x h = bit_and_mask (0 + j) x ∙ mod-eq_of_lt h ∙ omega arith
bit_and_high (suc k) j x h =
    bit_and_step x (2 ^ (suc k + j) - 2 ^ suc k)
    ∙ ap (λ m. bit_and (x / 2) m * 2 + min (x % 2) ((2 ^ (suc k + j) - 2 ^ suc k) % 2))
        {y = 2 ^ (k + j) - 2 ^ k} (omega (arith, pow-suc 2 k, doubled))
    ∙ omega (
      arith,
      bit_and_high k j (x / 2) (omega (arith, doubled)),
      pow-suc 2 k,
      doubled,
      mod_half x (2 ^ k),
      ap (λ (t : ℕ). x % t) {x = 2 ^ suc k} {y = 2 * 2 ^ k} (omega (arith, pow-suc 2 k)),
    )
  where
    doubled : 2 ^ (suc k + j) ≡ 2 * 2 ^ (k + j)
    doubled =
        ap (λ (n : ℕ). 2 ^ n) {x = suc k + j} {y = suc (k + j)} (omega arith)
        ∙ omega (arith, pow-suc 2 (k + j))

pub bit_and_split :
    (k q r s t : ℕ)
    → r < 2 ^ k
    → t < 2 ^ k
    → bit_and (q * 2 ^ k + r) (s * 2 ^ k + t) ≡ bit_and q s * 2 ^ k + bit_and r t
bit_and_split zero q r s t p h = ground (arith, zero-bit_and 0)
bit_and_split (suc k) q r s t p h = ground (
  arith,
  bit_and_step (q * 2 ^ suc k + r) (s * 2 ^ suc k + t),
  bit_and_step r t,
  mul-pow-suc q k,
  mul-pow-suc s k,
  mul-pow-suc (bit_and q s) k,
  pow-suc 2 k,
  bit_and_split k q (r / 2) s (t / 2),
)

pub bit_or_split :
    (k q r s t : ℕ)
    → r < 2 ^ k
    → t < 2 ^ k
    → bit_or (q * 2 ^ k + r) (s * 2 ^ k + t) ≡ bit_or q s * 2 ^ k + bit_or r t
bit_or_split zero q r s t p h = ground (arith, bit_or-zero 0)
bit_or_split (suc k) q r s t p h = ground (
  arith,
  bit_or_step (q * 2 ^ suc k + r) (s * 2 ^ suc k + t),
  bit_or_step r t,
  mul-pow-suc q k,
  mul-pow-suc s k,
  mul-pow-suc (bit_or q s) k,
  pow-suc 2 k,
  bit_or_split k q (r / 2) s (t / 2),
)
