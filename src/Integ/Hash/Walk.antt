-- ===== src/Integ/Hash/Walk.antt =====
-- Two runs of a `while (at < stop)` loop with different bodies, side by side.
use dma.Base.{
  ℕ, zero, suc, ◌+◌, ◌-◌, ◌*◌, ◌<◌, ◌≤◌, ◌≡◌, ◌∙◌, arith, ltb, if◌then◌else◌, Bool-cases, inl, inr,
  ltb→lt, lt→ltb, le→ltb, ap, refl, sym,
}
use native.Mathlib.Nat.{mul-le-mul_left}
use mathlib.Core.Path.{subst}
use dma.Integ.Hash.{walk, while_below}

module _ {ℓ} {S : Type ℓ} (step : ℕ) (body : ℕ → S → S) where
  walk_stop : (fuel at stop : ℕ) (s : S) → stop ≤ at → walk step body fuel at stop s ≡ s
  unfolding walk
  walk_stop zero at stop s h = refl
  walk_stop (suc fuel) at stop s h =
      ap (λ b. if b then walk step body fuel (at + step) stop (body at s) else s) (le→ltb at stop h)

  walk_go :
      (fuel at stop : ℕ) (s : S)
      → at < stop
      → walk step body (suc fuel) at stop s ≡ walk step body fuel (at + step) stop (body at s)
  unfolding walk
  walk_go fuel at stop s h =
      ap (λ b. if b then walk step body fuel (at + step) stop (body at s) else s) (lt→ltb at stop h)

  -- Fuel beyond the distance changes nothing: the loop has ended by its test.
  pub walk_enough :
      (fuel more at stop : ℕ) (s : S)
      → 1 ≤ step
      → stop ≤ at + fuel
      → walk step body fuel at stop s ≡ walk step body (fuel + more) at stop s
  walk_enough zero more at stop s forward near =
      walk_stop zero at stop s (omega arith) ∙ sym (walk_stop (0 + more) at stop s (omega arith))
  walk_enough (suc fuel) more at stop s forward near = elim (Bool-cases (ltb at stop)) [
    | inl on ↦
        walk_go fuel at stop s (ltb→lt at stop on)
        ∙ walk_enough fuel more (at + step) stop (body at s) forward (omega arith)
        ∙ sym (walk_go (fuel + more) at stop s (ltb→lt at stop on))
        ∙ ap (λ n. walk step body n at stop s) (omega arith)
    | inr off ↦
        walk_stop (suc fuel) at stop s (ground arith)
        ∙ sym (walk_stop (suc fuel + more) at stop s (ground arith))
  ]

-- Two runs over `n` whole rounds, related round by round.
module _ {ℓ ℓ'} {S : Type ℓ} (R : S → S → Type ℓ') (step : ℕ) (body body' : ℕ → S → S) where
  pub walk_keep :
      (n fuel at stop : ℕ) (s t : S)
      → stop ≡ at + n * step
      → n ≤ fuel
      → 1 ≤ step
      → ((d : ℕ) (a b : S) → at ≤ d → d + step ≤ stop → R a b → R (body d a) (body' d b))
      → R s t
      → R (walk step body fuel at stop s) (walk step body' fuel at stop t)
  walk_keep zero fuel at stop s t whole enough forward keep r =
      rw
        (
          walk_stop step body fuel at stop s (omega arith),
          walk_stop step body' fuel at stop t (omega arith),
        )
        r
  walk_keep (suc n) zero at stop s t whole enough forward keep r = absurd (omega arith)
  walk_keep (suc n) (suc fuel) at stop s t whole enough forward keep r =
      rw
        (
          walk_go step body fuel at stop s (omega arith),
          walk_go step body' fuel at stop t (omega arith),
        )
        (walk_keep n fuel (at + step) stop (body at s) (body' at t) (omega arith) (omega arith)
          forward (λ d a b p q h. keep d a b (omega arith) q h)
          (keep at s t (omega arith) (omega arith) r))

  -- The round that reads place `i` makes the states related; the others only keep what they find.
  pub walk_change :
      (P : S → Type ℓ') (i n fuel at stop : ℕ) (s : S)
      → stop ≡ at + n * step
      → n ≤ fuel
      → 1 ≤ step
      → ((d : ℕ) (a : S)
          → d + step ≤ stop
          → d + step ≤ i
          → P a
          → (body d a ≡ body' d a) × P (body d a))
      → ((d : ℕ) (a : S) → d + step ≤ stop → d ≤ i → i < d + step → P a → R (body d a) (body' d a))
      → ((d : ℕ) (a b : S) → d + step ≤ stop → i < d → R a b → R (body d a) (body' d b))
      → at ≤ i
      → i < stop
      → P s
      → R (walk step body fuel at stop s) (walk step body' fuel at stop s)
  walk_change P i zero fuel at stop s whole enough forward same hit keep from till p =
      absurd (omega arith)
  walk_change P i (suc n) zero at stop s whole enough forward same hit keep from till p =
      absurd (omega arith)
  walk_change P i (suc n) (suc fuel) at stop s whole enough forward same hit keep from till p =
      rw
        (
          walk_go step body fuel at stop s (omega arith),
          walk_go step body' fuel at stop s (omega arith),
        )
        (elim (Bool-cases (ltb i (at + step))) [
          | inl here ↦
              walk_keep n fuel (at + step) stop (body at s) (body' at s) (omega arith) (omega arith)
                forward (λ d a b q e h. keep d a b e (ground arith) h)
                (hit at s (omega arith) from (ltb→lt i (at + step) here) p)
          | inr later ↦
              let (eq, p') = same at s (omega arith) (ground arith) p in
              subst
                (λ b.
                  R (walk step body fuel (at + step) stop (body at s))
                    (walk step body' fuel (at + step) stop b))
                eq
                (walk_change P i n fuel (at + step) stop (body at s) (omega arith) (omega arith)
                  forward same hit keep (ground arith) till p')
        ])

-- The rounds fit into the fuel.
pub rounds_fit : (n at stop step : ℕ) → stop ≡ at + n * step → 1 ≤ step → n ≤ stop - at
rounds_fit n at stop step whole forward =
    omega (arith, mul-le-mul_left {m = 1} {n = step} n forward)

-- Bodies that agree on what they read.
pub walk_same {ℓ} :
    {S : Type ℓ} (step : ℕ) (body body' : ℕ → S → S) (n at stop : ℕ) (s : S)
    → stop ≡ at + n * step
    → 1 ≤ step
    → ((d : ℕ) (a : S) → at ≤ d → d + step ≤ stop → body d a ≡ body' d a)
    → while_below step body at stop s ≡ while_below step body' at stop s
walk_same step body body' n at stop s whole forward agree =
    walk_keep (λ a b. a ≡ b) step body body' n (stop - at) at stop s s whole
      (rounds_fit n at stop step whole forward) forward
      (λ d a b p q e. ap (body d) e ∙ agree d b p q) refl
