-- ===== src/Dma/Arith/Compare/Run.antt =====
-- A whole run of `Geu` or `Equ` on the engine.
use dma.Base.{ℕ, zero, suc, ◌+◌, ◌-◌, ◌*◌, ◌<◌, ◌≤◌, ◌≡◌, ◌≢◌, sym, ap, ◌∙◌, arith}
use dma.Base.{◌==◌, if◌then◌else◌, ◌⊎◌, inl, inr, get_or}
use mathlib.Core.Path.{subst}
use dma.Dma.Arith.Compare.Setting.{
  Apart, after, emitted, patched, lookup, plain, ending, patched_lhs, patched_rhs,
}
use dma.Dma.Arith.Compare.Setting.{
  patched_else, patched_end, emitted-outside, scattered_lem, step-scattered,
}
use dma.Dma.Arith.Lookup.{Operands, lhs_byte, rhs_byte}
use dma.Dma.Arith.Setting.{Places, table_at}
use dma.Dma.Cblk.{Memory, cblk_at, cblk_bytes}
use dma.Dma.Emit.Laid.{linear}
use dma.Dma.Emit.Layout.{cblk_at-patched}
use dma.Dma.Engine.{Engine, step, step_lem, run}
use dma.Dma.Tables.Truth.{selected}

-- The selector that the bytes of HYPER in memory lead to after `j` bytes of the operands.
abbrev pub selector_at : Places → Memory → ℕ → ℕ
selector_at p m = selected (λ x. m (table_at p + x)) p.selector (lhs_byte p m) (rhs_byte p m)

-- All of them are bytes.
abbrev pub Selectors : Places → Memory → Type 0
Selectors p m = (j : ℕ) → j ≤ p.width → selector_at p m j < 256

abbrev pub found_at : Places → Memory → ℕ → ℕ
found_at p m j = table_at p + (lhs_byte p m j * 65536 + rhs_byte p m j * 256 + selector_at p m j)

-- Before the `i`th lookup.
abbrev pub Done : ℕ → Places → Memory → ℕ → ℕ × Memory → Type 0
Done truth p m i (at, n) =
    (at ≡ lookup p i)
    × ((x : ℕ) → lookup p i ≤ x → x < after p → x ≢ lookup p i + 4 → n x ≡ patched truth p m x)
    × (n (lookup p i + 4) ≡ selector_at p m i)
    × ((x : ℕ) → (x < p.a) ⊎ (after p ≤ x) → n x ≡ m x)

module _ (e : Engine) (truth : ℕ) (p : Places) (m : Memory) (h : Apart truth p) (o : Operands p m)
    (s : Selectors p m) where
  lookup_at :
      (j at : ℕ) (n : Memory)
      → j < p.width
      → Done truth p m j (at, n)
      → cblk_at n (lookup p j) ≡ linear (lookup p j) (lookup p j + 36) (found_at p m j) 1
  lookup_at j at n b r =
      cblk_at-patched (lookup p j) n (plain p j) (found_at p m j)
        (omega arith, omega arith, omega arith, omega arith, omega arith, omega arith)
        (λ k c w. byte k c (λ q. ground arith) ∙ patched_else truth p m h j k b c (ground arith))
        (omega (
          arith,
          r.2,
          ap n {x = lookup p j + 4 + 1} {y = lookup p j + 5} (omega arith)
              ∙ byte 5 (omega arith) (λ q. omega arith)
              ∙ patched_rhs truth p m h j b,
          ap n {x = lookup p j + 4 + 2} {y = lookup p j + 6} (omega arith)
              ∙ byte 6 (omega arith) (λ q. omega arith)
              ∙ patched_lhs truth p m h j b,
          ap n {x = lookup p j + 4 + 3} {y = lookup p j + 7} (omega arith)
              ∙ byte 7 (omega arith) (λ q. omega arith)
              ∙ patched_else truth p m h j 7 b (omega arith) (inr (omega arith)),
          o j b,
          s j (omega arith),
        ))
    where
      byte : (k : ℕ) → k < 24 → k ≢ 4 → n (lookup p j + k) ≡ patched truth p m (lookup p j + k)
      byte k c d = r.1 (lookup p j + k) (omega arith) (omega arith) (λ q. d (omega arith))

  found_at-outside : (j : ℕ) → j < p.width → (found_at p m j + 1 ≤ p.a) ⊎ (after p ≤ found_at p m j)
  found_at-outside j b = ground (arith, o j b, s j (omega arith))

  looked_up : ℕ → Memory → Memory
  looked_up j n = e.transfer (linear (lookup p j) (lookup p j + 36) (found_at p m j) 1) n

  looked_up_lem :
      (j at : ℕ) (n : Memory) (x : ℕ)
      → j < p.width
      → Done truth p m j (at, n)
      → looked_up j n x ≡ (if x == lookup p j + 36 then selector_at p m (suc j) else n x)
  unfolding looked_up
  looked_up_lem j at n x b r =
      e.transfer-linear (lookup p j) (lookup p j + 36) (found_at p m j) 1 n x (omega arith)
        (ground (arith, found_at-outside j b))
      ∙ ground (
        arith,
        r.3 (found_at p m j) (ground (arith, found_at-outside j b)),
        λ (q : x ≡ lookup p j + 36).
            ap n {x = found_at p m j + (x - (lookup p j + 36))} {y = found_at p m j} (omega arith),
      )

  lookup-Done :
      (j at : ℕ) (n : Memory)
      → j < p.width
      → Done truth p m j (at, n)
      → Done truth p m (suc j) (step e (at, n))
  unfolding looked_up
  lookup-Done j at n b r =
      subst (Done truth p m (suc j))
        (sym (
          ap (λ z. step e (z, n)) r.0
          ∙ step_lem e (lookup p j) n (linear (lookup p j) (lookup p j + 36) (found_at p m j) 1)
              (lookup_at j at n b r)))
        (
          omega arith,
          λ x k l d.
              looked_up_lem j at n x b r ∙ ground (arith, r.1 x (omega arith) l (λ q. omega arith)),
          looked_up_lem j at n (lookup p (suc j) + 4) b r ∙ ground arith,
          λ x w. looked_up_lem j at n x b r ∙ ground (arith, r.3 x w),
        )

  first-Done : Done truth p m 0 (step e (step e (p.a, emitted truth p m)))
  first-Done = subst (Done truth p m 0) (sym (step-scattered truth p m h e)) (
    omega arith,
    λ x k l d. scattered_lem truth p m h e x,
    scattered_lem truth p m h e (lookup p 0 + 4)
        ∙ patched_else truth p m h 0 4 (omega arith) (omega arith) (inl (omega arith))
        ∙ omega arith,
    λ x w. scattered_lem truth p m h e x ∙ ground (arith, emitted-outside truth p m h x),
  )

  pub run-Done :
      (i : ℕ) → i ≤ p.width → Done truth p m i (run e (suc (suc i)) (p.a, emitted truth p m))
  unfolding run
  run-Done zero b = first-Done
  run-Done (suc i) b =
      lookup-Done i (run e (suc (suc i)) (p.a, emitted truth p m)).0
        (run e (suc (suc i)) (p.a, emitted truth p m)).1 (omega arith) (run-Done i (omega arith))

  ending_at :
      (at : ℕ) (n : Memory)
      → Done truth p m p.width (at, n)
      → cblk_at n (lookup p p.width)
        ≡ linear (lookup p p.width) p.ret (truth + 0x40000000 + selector_at p m p.width) 1
  ending_at at n r =
      cblk_at-patched (lookup p p.width) n (ending truth p)
        (truth + 0x40000000 + selector_at p m p.width)
        (omega arith, omega arith, omega arith, omega arith, omega arith, omega arith)
        (λ k c w. byte k c (λ q. ground arith))
        (omega (
          arith,
          r.2,
          ap n {x = lookup p p.width + 4 + 1} {y = lookup p p.width + 5} (omega arith)
              ∙ byte 5 (omega arith) (λ q. omega arith),
          ap n {x = lookup p p.width + 4 + 2} {y = lookup p p.width + 6} (omega arith)
              ∙ byte 6 (omega arith) (λ q. omega arith),
          ap n {x = lookup p p.width + 4 + 3} {y = lookup p p.width + 7} (omega arith)
              ∙ byte 7 (omega arith) (λ q. omega arith),
          s p.width (omega arith),
        ))
    where
      byte :
          (k : ℕ)
          → k < 24
          → k ≢ 4
          → n (lookup p p.width + k) ≡ get_or (cblk_bytes (ending truth p)) k 0
      byte k c d =
          r.1 (lookup p p.width + k) (omega arith) (omega arith) (λ q. d (omega arith))
          ∙ patched_end truth p m h k c

  -- The last block copies the byte of the truth table at the last selector.
  pub run-answer :
      ((run e (suc (suc (suc p.width))) (p.a, emitted truth p m)).0 ≡ after p)
      × ((run e (suc (suc (suc p.width))) (p.a, emitted truth p m)).1 p.ret
          ≡ m (truth + 0x40000000 + selector_at p m p.width))
  unfolding run
  run-answer =
      answer (run e (suc (suc p.width)) (p.a, emitted truth p m)).0
        (run e (suc (suc p.width)) (p.a, emitted truth p m)).1 (run-Done p.width (omega arith))
    where
      answer :
          (at : ℕ) (n : Memory)
          → Done truth p m p.width (at, n)
          → ((step e (at, n)).0 ≡ after p)
            × ((step e (at, n)).1 p.ret ≡ m (truth + 0x40000000 + selector_at p m p.width))
      answer at n r =
          subst
            (λ (z : ℕ × Memory).
              (z.0 ≡ after p) × (z.1 p.ret ≡ m (truth + 0x40000000 + selector_at p m p.width)))
            (sym (
              ap (λ z. step e (z, n)) r.0
              ∙ step_lem e (lookup p p.width) n
                  (linear (lookup p p.width) p.ret (truth + 0x40000000 + selector_at p m p.width) 1)
                  (ending_at at n r)))
            (
              omega arith,
              e.transfer-linear (lookup p p.width) p.ret
                    (truth + 0x40000000 + selector_at p m p.width) 1 n p.ret (omega arith)
                    (ground (arith, s p.width (omega arith)))
                  ∙ ground arith
                  ∙ ap n {x = truth + 0x40000000 + selector_at p m p.width + (p.ret - p.ret)}
                      {y = truth + 0x40000000 + selector_at p m p.width} (omega arith)
                  ∙ r.3 (truth + 0x40000000 + selector_at p m p.width)
                      (ground (arith, s p.width (omega arith))),
            )
