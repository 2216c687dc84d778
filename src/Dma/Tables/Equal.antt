-- ===== src/Dma/Tables/Equal.antt =====
-- The selectors that the lookups of `Equ` come to.
use dma.Base.{ℕ, zero, suc, ◌+◌, ◌*◌, ◌^◌, ◌<◌, ◌≡◌, ◌≢◌, refl, ap, ◌∙◌, arith}
use dma.Base.{ltb, ◌==◌, if◌then◌else◌, Bool-cases, ==→eq, ==→ne, inl, inr, List, ◌∷◌, ◌++◌}
use native.Mathlib.Nat.{mul-le-mul_left}
use dma.Dma.Arith.{hyper_equ}
use dma.Dma.Arith.Number.{number, number-lt}
use dma.Dma.Tables.{Table, Initializer, run_initializers}
use dma.Dma.Tables.Order.{run_initializers-value}
use dma.Dma.Tables.Truth.{selected}

-- A higher byte outweighs all lower ones.
number-ne :
    (w : ℕ) (l r : ℕ → ℕ)
    → ((k : ℕ) → k < suc w → (l k < 256) × (r k < 256))
    → l w ≢ r w
    → number (suc w) l ≢ number (suc w) r
unfolding number
number-ne w l r bytes ne e = elim (Bool-cases (ltb (l w) (r w))) [
  | inl less ↦ ground (
    arith,
    e,
    number-lt w l (λ k b. (bytes k (omega arith)).0),
    mul-le-mul_left {m = suc (l w)} {n = r w} (256 ^ w) (ground arith),
  )
  | inr more ↦ ground (
    arith,
    e,
    number-lt w r (λ k b. (bytes k (omega arith)).1),
    mul-le-mul_left {m = suc (r w)} {n = l w} (256 ^ w) (ground arith),
  )
]

module _ (before after : List Initializer) (t : Table) (l r : ℕ → ℕ) where
  pub equ-selected :
      (w : ℕ)
      → ((k : ℕ) → k < w → (l k < 256) × (r k < 256))
      → selected (run_initializers (before ++ (Initializer.equ ∷ after)) t) (hyper_equ + 1) l r w
        ≡ 46 + (if number w l == number w r then 1 else 0)
  unfolding number
  equ-selected zero bytes = refl
  equ-selected (suc w) bytes =
      ap (run_initializers (before ++ (Initializer.equ ∷ after)) t)
        {y = l w * 65536 + r w * 256 + 46 + (if number w l == number w r then 1 else 0)}
        (omega (arith, equ-selected w (λ k b. bytes k (omega arith))))
      ∙ run_initializers-value before Initializer.equ after t (l w) (r w)
          (if number w l == number w r then 1 else 0)
          ((bytes w (omega arith)).0, (bytes w (omega arith)).1, ground arith)
      ∙ elim (Bool-cases (l w == r w)) [
        | inl same ↦
            ground (arith, ==→eq (l w) (r w) same, ap (λ x. 256 ^ w * x) (==→eq (l w) (r w) same))
        | inr differ ↦ ground (arith, number-ne w l r bytes (==→ne (l w) (r w) differ))
      ]
