-- ===== src/Dma/Arith/Bytewise/Setting.antt =====
-- The memory in which `And`, `Or` or `Xor` runs, and its first two blocks.
use dma.Base.{ℕ, suc, ◌+◌, ◌-◌, ◌*◌, ◌/◌, ◌%◌, ◌^◌, ◌<◌, ◌≤◌, ◌≡◌, refl, ap, ◌∙◌, arith}
use dma.Base.{◌&&◌, ◌==◌, ltb, leb, if◌then◌else◌, ◌⊎◌, inl, inr, get_or, some}
use dma.Dma.Arith.Bytewise.{program, length-lookups, get_elem?-lookups}
use dma.Dma.Arith.Setting.{Places, table_at}
use dma.Dma.Cblk.{Memory, cblk_at, cblk_bytes}
use dma.Dma.Emit.Laid.{laid, linear, scatter, cblk_at-laid, laid-byte, laid-outside}
use dma.Dma.Emit.Layout.{cblk_at-same}
use dma.Dma.Engine.{Engine, step, step_lem}

abbrev pub after : Places → ℕ
after p = p.a + 32 * p.width + 64

-- `n` bytes from `x` on keep clear of the program and of the bytes that the scattered copies span.
abbrev pub Clear : Places → ℕ → ℕ → Type 0
Clear p x n = (x + n ≤ p.a) ⊎ (p.a + 32 * p.width + 96 ≤ x)

abbrev pub Apart : Places → Type 0
Apart p =
    ((1 ≤ p.width) × (p.width ≤ 0x4000))
    × (Clear p p.lhs p.width × Clear p p.rhs p.width)
    × (Clear p p.ret p.width × Clear p (table_at p) (2 ^ 24))
    × ((p.ret + p.width ≤ table_at p) ⊎ (table_at p + 2 ^ 24 ≤ p.ret))
    × ((p.hyper % 2 ^ 24 ≡ 0) × (p.selector < 256))
    × ((p.lhs + p.width ≤ 2 ^ 32) × (p.rhs + p.width ≤ 2 ^ 32))
    × ((p.ret + p.width ≤ 2 ^ 32)
        × (p.hyper + 2 ^ 24 ≤ 0x20000000)
        × (p.a + 32 * p.width + 96 ≤ 2 ^ 32))

abbrev pub emitted : Places → Memory → Memory
emitted p m = laid p.a (program p.hyper p.selector p.width p.ret p.lhs p.rhs p.a) m

-- The memory after the two scattered copies: byte `j` of each operand in the `j`th lookup.
abbrev pub patched : Places → Memory → Memory
patched p m x =
    if leb (p.a + 70) x && (ltb x (p.a + 70 + p.width * 32) && ((x - (p.a + 70)) % 32 == 0))
    then m (p.rhs + (x - (p.a + 70)) / 32)
    else if leb (p.a + 69) x && (ltb x (p.a + 69 + p.width * 32) && ((x - (p.a + 69)) % 32 == 0))
    then m (p.lhs + (x - (p.a + 69)) / 32)
    else emitted p m x

-- The address of the `j`th lookup.
abbrev pub lookup : Places → ℕ → ℕ
lookup p j = p.a + 64 + 32 * j

module _ (p : Places) (m : Memory) (h : Apart p) where
  pub emitted-outside : (x : ℕ) → (x < p.a) ⊎ (after p ≤ x) → emitted p m x ≡ m x
  emitted-outside x k =
      laid-outside p.a (program p.hyper p.selector p.width p.ret p.lhs p.rhs p.a) m x (elim k [
        | inl l ↦ inl l
        | inr l ↦
            inr
              (omega (arith, length-lookups p.hyper p.selector p.width p.ret p.width 0 (p.a + 64)))
      ])

  emitted_byte :
      (j o : ℕ)
      → j < p.width
      → o < 32
      → emitted p m (lookup p j + o)
        ≡ get_or (cblk_bytes (linear (lookup p j) (p.ret + j) (table_at p + p.selector) 1)) o 0
  emitted_byte j o b c =
      ap (emitted p m) {y = p.a + 32 * suc (suc j) + o} (omega arith)
      ∙ laid-byte p.a (program p.hyper p.selector p.width p.ret p.lhs p.rhs p.a) m (suc (suc j)) o
          (linear (lookup p j) (p.ret + j) (table_at p + p.selector) 1)
          (get_elem?-lookups p.hyper p.selector p.width p.ret p.width 0 (p.a + 64) j b
            ∙ ap (λ y. some (linear (lookup p j) (p.ret + y) (table_at p + p.selector) 1))
                {x = 0 + j} {y = j} (omega arith))
          c

  pub patched_lhs : (j : ℕ) → j < p.width → patched p m (lookup p j + 5) ≡ m (p.lhs + j)
  patched_lhs j b = ground arith

  pub patched_rhs : (j : ℕ) → j < p.width → patched p m (lookup p j + 6) ≡ m (p.rhs + j)
  patched_rhs j b = ground arith

  pub patched_else :
      (j o : ℕ)
      → j < p.width
      → o < 24
      → (o < 5) ⊎ (7 ≤ o)
      → patched p m (lookup p j + o)
        ≡ get_or (cblk_bytes (linear (lookup p j) (p.ret + j) (table_at p + p.selector) 1)) o 0
  patched_else j o b c w = same ∙ emitted_byte j o b (omega arith)
    where
      same : patched p m (lookup p j + o) ≡ emitted p m (lookup p j + o)
      same = ground arith

  module _ (e : Engine) where
    first-at : cblk_at (emitted p m) p.a ≡ scatter p.a (p.a + 69) p.lhs p.width 31
    first-at =
        ap (cblk_at (emitted p m)) {y = p.a + 32 * 0} (omega arith)
        ∙ cblk_at-laid p.a (program p.hyper p.selector p.width p.ret p.lhs p.rhs p.a) m 0
            (scatter p.a (p.a + 69) p.lhs p.width 31) refl
            (omega arith, omega arith, omega arith, omega arith, omega arith, omega arith)

    -- After the first block.
    abbrev half : Memory
    half = e.transfer (scatter p.a (p.a + 69) p.lhs p.width 31) (emitted p m)

    half_lem :
        (x : ℕ)
        → half x ≡ (
            if leb (p.a + 69) x && (ltb x (p.a + 69 + p.width * 32) && ((x - (p.a + 69)) % 32 == 0))
            then emitted p m (p.lhs + (x - (p.a + 69)) / 32)
            else emitted p m x)
    half_lem x =
        e.transfer-scatter p.a (p.a + 69) p.lhs p.width 31 (emitted p m) x
          (omega arith, omega arith, omega arith) (ground arith)

    second-at : cblk_at half (p.a + 32) ≡ scatter (p.a + 32) (p.a + 70) p.rhs p.width 31
    second-at =
        cblk_at-same (p.a + 32) half (emitted p m) (λ x k l. half_lem x ∙ ground arith)
        ∙ cblk_at-laid p.a (program p.hyper p.selector p.width p.ret p.lhs p.rhs p.a) m 1
            (scatter (p.a + 32) (p.a + 70) p.rhs p.width 31) refl
            (omega arith, omega arith, omega arith, omega arith, omega arith, omega arith)

    pub scattered : Memory
    scattered = e.transfer (scatter (p.a + 32) (p.a + 70) p.rhs p.width 31) half

    pub step-scattered : step e (step e (p.a, emitted p m)) ≡ (p.a + 64, scattered)
    unfolding scattered
    step-scattered =
        ap (step e)
          (step_lem e p.a (emitted p m) (scatter p.a (p.a + 69) p.lhs p.width 31) first-at)
        ∙ step_lem e (p.a + 32) half (scatter (p.a + 32) (p.a + 70) p.rhs p.width 31) second-at
        ∙ ap (λ n. (n, e.transfer (scatter (p.a + 32) (p.a + 70) p.rhs p.width 31) half))
            (omega arith)

    half-rhs : (k : ℕ) → k < p.width → half (p.rhs + k) ≡ m (p.rhs + k)
    half-rhs k b = half_lem (p.rhs + k) ∙ ground (arith, emitted-outside (p.rhs + k))

    emitted-lhs : (k : ℕ) → k < p.width → emitted p m (p.lhs + k) ≡ m (p.lhs + k)
    emitted-lhs k b = emitted-outside (p.lhs + k) (ground arith)

    pub scattered_lem : (x : ℕ) → scattered x ≡ patched p m x
    unfolding scattered
    scattered_lem x =
        e.transfer-scatter (p.a + 32) (p.a + 70) p.rhs p.width 31 half x
          (omega arith, omega arith, omega arith) (ground arith)
        ∙ ground (
          arith,
          half-rhs ((x - (p.a + 70)) / 32),
          half_lem x,
          emitted-lhs ((x - (p.a + 69)) / 32),
        )
