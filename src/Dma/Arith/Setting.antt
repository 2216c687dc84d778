-- ===== src/Dma/Arith/Setting.antt =====
-- The memory in which a program of `Add` or `Sub` runs, and its first two blocks, which put the
-- operands' bytes into the source addresses of the lookups.
use dma.Base.{ℕ, ◌+◌, ◌-◌, ◌*◌, ◌/◌, ◌%◌, ◌^◌, ◌<◌, ◌≤◌, ◌≡◌, refl, ap, ◌∙◌, arith, max}
use dma.Base.{◌&&◌, ◌==◌, ltb, leb, if◌then◌else◌, ◌⊎◌, inl, inr}
use dma.Dma.Arith.Program.{program, length-program}
use dma.Dma.Bus.{Busad}
use dma.Dma.Cblk.{Memory, cblk_at}
use dma.Dma.Emit.Laid.{laid, scatter, cblk_at-laid, laid-outside}
use dma.Dma.Emit.Layout.{cblk_at-same}
use dma.Dma.Engine.{Engine, step, step_lem}

-- Where things stand on the bus: the program from `a` on, HYPER at `table`.
pub record Places : Type 0 where
  pub hyper : ℕ
  pub selector : ℕ
  pub width : ℕ
  pub ret : Busad
  pub lhs : Busad
  pub rhs : Busad
  pub a : ℕ

abbrev pub table_at : Places → ℕ
table_at p = p.hyper + 0x40000000

abbrev pub after : Places → ℕ
after p = p.a + 64 * p.width + 32

-- `n` bytes from `x` on keep clear of the program and of the bytes that the scattered copies span.
abbrev pub Clear : Places → ℕ → ℕ → Type 0
Clear p x n = (x + n ≤ p.a) ⊎ (p.a + 64 * p.width + 128 ≤ x)

-- The bytes that the program may write to the result.
abbrev pub span : Places → ℕ
span p = max p.width 2

abbrev pub Apart : Places → Type 0
Apart p =
    ((1 ≤ p.width) × (p.width ≤ 0x4000))
    × (Clear p p.lhs p.width × Clear p p.rhs p.width)
    × (Clear p p.ret (span p) × Clear p (table_at p) (2 ^ 24))
    × ((p.ret + span p ≤ table_at p) ⊎ (table_at p + 2 ^ 24 ≤ p.ret))
    × ((p.hyper % 2 ^ 24 ≡ 0) × (p.selector < 248))
    × ((p.lhs + p.width ≤ 2 ^ 32) × (p.rhs + p.width ≤ 2 ^ 32))
    × ((p.ret + span p ≤ 2 ^ 32)
        × (p.hyper + 2 ^ 24 ≤ 0x20000000)
        × (p.a + 64 * p.width + 128 ≤ 2 ^ 32))

abbrev pub emitted : Places → Memory → Memory
emitted p m = laid p.a (program p.hyper p.selector p.width p.ret p.lhs p.rhs p.a) m

-- The memory after the two scattered copies: byte `j` of each operand in the `j`th lookup.
abbrev pub patched : Places → Memory → Memory
patched p m x =
    if leb (p.a + 70) x && (ltb x (p.a + 70 + p.width * 64) && ((x - (p.a + 70)) % 64 == 0))
    then m (p.lhs + (x - (p.a + 70)) / 64)
    else if leb (p.a + 69) x && (ltb x (p.a + 69 + p.width * 64) && ((x - (p.a + 69)) % 64 == 0))
    then m (p.rhs + (x - (p.a + 69)) / 64)
    else emitted p m x

module _ (e : Engine) (p : Places) (m : Memory) (h : Apart p) where
  first-at : cblk_at (emitted p m) p.a ≡ scatter p.a (p.a + 69) p.rhs p.width 63
  first-at =
      ap (cblk_at (emitted p m)) {y = p.a + 32 * 0} (omega arith)
      ∙ cblk_at-laid p.a (program p.hyper p.selector p.width p.ret p.lhs p.rhs p.a) m 0
          (scatter p.a (p.a + 69) p.rhs p.width 63) refl
          (omega arith, omega arith, omega arith, omega arith, omega arith, omega arith)

  -- After the first block.
  abbrev half : Memory
  half = e.transfer (scatter p.a (p.a + 69) p.rhs p.width 63) (emitted p m)

  half_lem :
      (x : ℕ)
      → half x ≡ (
          if leb (p.a + 69) x && (ltb x (p.a + 69 + p.width * 64) && ((x - (p.a + 69)) % 64 == 0))
          then emitted p m (p.rhs + (x - (p.a + 69)) / 64)
          else emitted p m x)
  half_lem x =
      e.transfer-scatter p.a (p.a + 69) p.rhs p.width 63 (emitted p m) x
        (omega arith, omega arith, omega arith) (ground arith)

  second-at : cblk_at half (p.a + 32) ≡ scatter (p.a + 32) (p.a + 70) p.lhs p.width 63
  second-at =
      cblk_at-same (p.a + 32) half (emitted p m) (λ x k l. half_lem x ∙ ground arith)
      ∙ cblk_at-laid p.a (program p.hyper p.selector p.width p.ret p.lhs p.rhs p.a) m 1
          (scatter (p.a + 32) (p.a + 70) p.lhs p.width 63) refl
          (omega arith, omega arith, omega arith, omega arith, omega arith, omega arith)

  -- The first two steps.
  pub scattered : Memory
  scattered = e.transfer (scatter (p.a + 32) (p.a + 70) p.lhs p.width 63) half

  pub step-scattered : step e (step e (p.a, emitted p m)) ≡ (p.a + 64, scattered)
  unfolding scattered
  step-scattered =
      ap (step e) (step_lem e p.a (emitted p m) (scatter p.a (p.a + 69) p.rhs p.width 63) first-at)
      ∙ step_lem e (p.a + 32) half (scatter (p.a + 32) (p.a + 70) p.lhs p.width 63) second-at
      ∙ ap (λ n. (n, e.transfer (scatter (p.a + 32) (p.a + 70) p.lhs p.width 63) half))
          (omega arith)

  pub emitted-outside : (x : ℕ) → (x < p.a) ⊎ (after p ≤ x) → emitted p m x ≡ m x
  emitted-outside x k =
      laid-outside p.a (program p.hyper p.selector p.width p.ret p.lhs p.rhs p.a) m x (elim k [
        | inl l ↦ inl l
        | inr l ↦ inr (
            omega (
              arith,
              length-program p.hyper p.selector p.width p.ret p.lhs p.rhs p.a (omega arith),
            ))
      ])

  -- An operand is still there for the copies.
  half-lhs : (k : ℕ) → k < p.width → half (p.lhs + k) ≡ m (p.lhs + k)
  half-lhs k b = half_lem (p.lhs + k) ∙ ground (arith, emitted-outside (p.lhs + k))

  emitted-rhs : (k : ℕ) → k < p.width → emitted p m (p.rhs + k) ≡ m (p.rhs + k)
  emitted-rhs k b = emitted-outside (p.rhs + k) (ground arith)

  pub scattered_lem : (x : ℕ) → scattered x ≡ patched p m x
  unfolding scattered
  scattered_lem x =
      e.transfer-scatter (p.a + 32) (p.a + 70) p.lhs p.width 63 half x
        (omega arith, omega arith, omega arith) (ground arith)
      ∙ ground
          (arith, half-lhs ((x - (p.a + 70)) / 64), half_lem x, emitted-rhs ((x - (p.a + 69)) / 64))
