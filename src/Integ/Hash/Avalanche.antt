-- ===== src/Integ/Hash/Avalanche.antt =====
-- The last steps of `hash_memory`, on 32 bits.
use native.Mathlib.Nat.{pow-suc, div-le_self, div-div-eq-div-mul}
use dma.Base.{ℕ, zero, suc, ◌*◌, ◌/◌, ◌^◌, ◌<◌, ◌≡◌, sym, ap, ap₂, ◌∙◌, arith, bit_xor, u32}
use dma.Base.Bits.{bit_xor_injective, bit_xor_half}
use dma.Base.Bytes.{bit_xor-lt}
use dma.Integ.Hash.{avalanche, prime_2, prime_3}
use dma.Integ.Hash.Mix.{OneToOne, odd_2, odd_3}

-- `x ^= x >> k` on the value shifted, and undone from the value shifted.
abbrev fold_down : ℕ → ℕ → ℕ
fold_down k x = bit_xor x (x / 2 ^ k)

bit_xor-shift : (k a b : ℕ) → bit_xor a b / 2 ^ k ≡ bit_xor (a / 2 ^ k) (b / 2 ^ k)
bit_xor-shift zero a b =
    omega (
      arith,
      ap₂ bit_xor {x = a} {y = a / 2 ^ 0} {u = b} {v = b / 2 ^ 0} (omega arith) (omega arith),
    )
bit_xor-shift (suc k) a b =
    half (bit_xor a b)
    ∙ ap (λ (t : ℕ). t / 2) (bit_xor-shift k a b)
    ∙ bit_xor_half (a / 2 ^ k) (b / 2 ^ k)
    ∙ ap₂ bit_xor (sym (half a)) (sym (half b))
  where
    half : (x : ℕ) → x / 2 ^ suc k ≡ x / 2 ^ k / 2
    half x = ap (λ (t : ℕ). x / t) (pow-suc 2 k) ∙ sym (div-div-eq-div-mul x (2 ^ k) 2)

module _ (k : ℕ) where
  shifted :
      (a b : ℕ) → fold_down k a ≡ fold_down k b → fold_down k (a / 2 ^ k) ≡ fold_down k (b / 2 ^ k)
  shifted a b e =
      sym (bit_xor-shift k a (a / 2 ^ k))
      ∙ ap (λ (t : ℕ). t / 2 ^ k) e
      ∙ bit_xor-shift k b (b / 2 ^ k)

  unshifted : (a b : ℕ) → fold_down k a ≡ fold_down k b → a / 2 ^ k ≡ b / 2 ^ k → a ≡ b
  unshifted a b e h = bit_xor_injective a b (b / 2 ^ k) (ap (bit_xor a) (sym h) ∙ e)

  -- Three shifts leave nothing.
  fold_down_injective :
      (a b : ℕ)
      → a / 2 ^ k / 2 ^ k / 2 ^ k ≡ b / 2 ^ k / 2 ^ k / 2 ^ k
      → fold_down k a ≡ fold_down k b
      → a ≡ b
  fold_down_injective a b gone e =
      let once = shifted a b e in
      let twice = shifted (a / 2 ^ k) (b / 2 ^ k) once in
      unshifted a b e (
        unshifted (a / 2 ^ k) (b / 2 ^ k) once
          (unshifted (a / 2 ^ k / 2 ^ k) (b / 2 ^ k / 2 ^ k) twice gone))

fold_down-lt : (k x : ℕ) → x < 2 ^ 32 → fold_down k x < 2 ^ 32
fold_down-lt k x h = bit_xor-lt 32 x (x / 2 ^ k) h (omega (arith, h, div-le_self x (2 ^ k)))

pub avalanche_injective : OneToOne avalanche
unfolding avalanche
avalanche_injective x y p q e = fold_down_injective 15 x y (omega arith) (
    odd_2 (fold_down 15 x) (fold_down 15 y) (fold_down-lt 15 x p) (fold_down-lt 15 y q) (
      fold_down_injective 13 (first x) (first y) (omega arith) (
        odd_3 (fold_down 13 (first x)) (fold_down 13 (first y))
          (fold_down-lt 13 (first x) (omega arith)) (fold_down-lt 13 (first y) (omega arith))
          (fold_down_injective 16 (second x) (second y) (omega arith) e))))
  where
    first : ℕ → ℕ
    first h = u32 (bit_xor h (h / 2 ^ 15) * prime_2)

    second : ℕ → ℕ
    second h = u32 (bit_xor (first h) (first h / 2 ^ 13) * prime_3)
