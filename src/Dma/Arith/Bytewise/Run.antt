-- ===== src/Dma/Arith/Bytewise/Run.antt =====
-- A whole run of `And`, `Or` or `Xor` on the engine.
use dma.Base.{ℕ, zero, suc, ◌+◌, ◌-◌, ◌*◌, ◌<◌, ◌≤◌, ◌≡◌, sym, ap, ◌∙◌, arith}
use dma.Base.{◌==◌, if◌then◌else◌, ◌⊎◌, inl, inr, Bool-cases, ==→eq, ==→ne}
use mathlib.Core.Path.{subst}
use dma.Dma.Arith.Bytewise.Setting.{
  Apart, after, emitted, patched, lookup, patched_lhs, patched_rhs, patched_else,
}
use dma.Dma.Arith.Bytewise.Setting.{emitted-outside, scattered_lem, step-scattered}
use dma.Dma.Arith.Lookup.{Operands}
use dma.Dma.Arith.Setting.{Places, table_at}
use dma.Dma.Cblk.{Memory, cblk_at}
use dma.Dma.Emit.Laid.{linear}
use dma.Dma.Emit.Layout.{cblk_at-patched}
use dma.Dma.Engine.{Engine, step, step_lem, run}

-- Neither the program's nor the result's.
abbrev pub Elsewhere : Places → ℕ → Type 0
Elsewhere p x = ((x < p.a) ⊎ (p.a + 32 * p.width + 96 ≤ x)) × ((x < p.ret) ⊎ (p.ret + p.width ≤ x))

-- The table's bytes are an operation on two bytes.
abbrev pub TableHolds : (ℕ → ℕ → ℕ) → Places → Memory → Type 0
TableHolds op p m =
    (i j : ℕ) → (i < 256) × (j < 256) → m (table_at p + (i * 65536 + j * 256 + p.selector)) ≡ op i j

-- Before the `i`th lookup.
abbrev pub Done : (ℕ → ℕ → ℕ) → Places → Memory → ℕ → ℕ × Memory → Type 0
Done op p m i (at, n) =
    (at ≡ lookup p i)
    × ((x : ℕ) → lookup p i ≤ x → x < after p → n x ≡ patched p m x)
    × ((k : ℕ) → k < i → n (p.ret + k) ≡ op (m (p.rhs + k)) (m (p.lhs + k)))
    × ((x : ℕ) → Elsewhere p x → n x ≡ m x)

module _ (e : Engine) (op : ℕ → ℕ → ℕ) (p : Places) (m : Memory) (h : Apart p) (o : Operands p m)
    (t : TableHolds op p m) where
  found_at : ℕ → ℕ
  found_at j = table_at p + (m (p.rhs + j) * 65536 + m (p.lhs + j) * 256 + p.selector)

  lookup_at :
      (j : ℕ) (n : Memory)
      → j < p.width
      → ((x : ℕ) → lookup p j ≤ x → x < after p → n x ≡ patched p m x)
      → cblk_at n (lookup p j) ≡ linear (lookup p j) (p.ret + j) (found_at j) 1
  unfolding found_at
  lookup_at j n b r =
      cblk_at-patched (lookup p j) n (linear (lookup p j) (p.ret + j) (table_at p + p.selector) 1)
        (table_at p + (m (p.rhs + j) * 65536 + m (p.lhs + j) * 256 + p.selector))
        (omega arith, omega arith, omega arith, omega arith, omega arith, omega arith)
        (λ k c w.
          r (lookup p j + k) (omega arith) (omega arith)
          ∙ patched_else p m h j k b c (ground arith))
        (omega (
          arith,
          byte 4 (omega arith) ∙ patched_else p m h j 4 b (omega arith) (inl (omega arith)),
          ap n {x = lookup p j + 4 + 1} {y = lookup p j + 5} (omega arith)
              ∙ byte 5 (omega arith)
              ∙ patched_lhs p m h j b,
          ap n {x = lookup p j + 4 + 2} {y = lookup p j + 6} (omega arith)
              ∙ byte 6 (omega arith)
              ∙ patched_rhs p m h j b,
          ap n {x = lookup p j + 4 + 3} {y = lookup p j + 7} (omega arith)
              ∙ byte 7 (omega arith)
              ∙ patched_else p m h j 7 b (omega arith) (inr (omega arith)),
          o j b,
        ))
    where
      byte : (k : ℕ) → k < 24 → n (lookup p j + k) ≡ patched p m (lookup p j + k)
      byte k c = r (lookup p j + k) (omega arith) (omega arith)

  looked_up : ℕ → Memory → Memory
  looked_up j n = e.transfer (linear (lookup p j) (p.ret + j) (found_at j) 1) n

  looked_up_lem :
      (j : ℕ) (n : Memory) (x : ℕ)
      → j < p.width
      → ((y : ℕ) → Elsewhere p y → n y ≡ m y)
      → looked_up j n x ≡ (if x == p.ret + j then op (m (p.rhs + j)) (m (p.lhs + j)) else n x)
  unfolding looked_up found_at
  looked_up_lem j n x b r =
      e.transfer-linear (lookup p j) (p.ret + j) (found_at j) 1 n x (omega arith)
        (ground (arith, o j b))
      ∙ ground (
        arith,
        r (found_at j) (ground (arith, o j b))
            ∙ t (m (p.rhs + j)) (m (p.lhs + j)) ((o j b).1, (o j b).0),
        λ (q : x ≡ p.ret + j).
            ap n {x = found_at j + (x - (p.ret + j))} {y = found_at j} (omega arith),
      )

  lookup-Done :
      (j at : ℕ) (n : Memory)
      → j < p.width
      → Done op p m j (at, n)
      → Done op p m (suc j) (step e (at, n))
  unfolding looked_up
  lookup-Done j at n b r =
      subst (Done op p m (suc j))
        (sym (
          ap (λ z. step e (z, n)) r.0
          ∙ step_lem e (lookup p j) n (linear (lookup p j) (p.ret + j) (found_at j) 1)
              (lookup_at j n b r.1)))
        (
          omega arith,
          λ x k l. looked_up_lem j n x b r.3 ∙ ground (arith, r.1 x (omega arith) l),
          λ k c. looked_up_lem j n (p.ret + k) b r.3 ∙ elim (Bool-cases (k == j)) [
            | inl same ↦
                subst
                  (λ z.
                    (if p.ret + z == p.ret + j
                      then op (m (p.rhs + j)) (m (p.lhs + j))
                      else n (p.ret + z))
                    ≡ op (m (p.rhs + z)) (m (p.lhs + z)))
                  (sym (==→eq k j same)) (ground arith)
            | inr other ↦ ground (arith, ==→ne k j other, r.2 k (omega (arith, ==→ne k j other)))
          ],
          λ x w. looked_up_lem j n x b r.3 ∙ ground (arith, r.3 x w),
        )

  first-Done : Done op p m 0 (step e (step e (p.a, emitted p m)))
  first-Done = subst (Done op p m 0) (sym (step-scattered p m h e)) (
    omega arith,
    λ x k l. scattered_lem p m h e x,
    λ k b. absurd (omega arith),
    λ x w. scattered_lem p m h e x ∙ ground (arith, emitted-outside p m h x),
  )

  pub run-Done : (i : ℕ) → i ≤ p.width → Done op p m i (run e (suc (suc i)) (p.a, emitted p m))
  unfolding run
  run-Done zero b = first-Done
  run-Done (suc i) b =
      lookup-Done i (run e (suc (suc i)) (p.a, emitted p m)).0
        (run e (suc (suc i)) (p.a, emitted p m)).1 (omega arith) (run-Done i (omega arith))
