-- ===== src/Dma/Arith/Compare/Setting.antt =====
-- The memory in which `Geu` or `Equ` runs, and its first two blocks.
use dma.Base.{ℕ, suc, ◌+◌, ◌-◌, ◌*◌, ◌/◌, ◌%◌, ◌^◌, ◌<◌, ◌≤◌, ◌≡◌, refl, ap, ◌∙◌, arith}
use dma.Base.{◌&&◌, ◌==◌, ltb, leb, if◌then◌else◌, ◌⊎◌, inl, inr, get_or, List}
use dma.Dma.Arith.Compare.Program.{program, length-behind, get_elem?-lookups, get_elem?-behind}
use dma.Dma.Arith.Setting.{Places, table_at}
use dma.Dma.Cblk.{Memory, Cblk, cblk_at, cblk_bytes}
use dma.Dma.Emit.Laid.{laid, linear, scatter, cblk_at-laid, laid-byte, laid-outside}
use dma.Dma.Emit.Layout.{cblk_at-same}
use dma.Dma.Engine.{Engine, step, step_lem}

abbrev pub after : Places → ℕ
after p = p.a + 32 * p.width + 96

-- `n` bytes from `x` on keep clear of the program.
abbrev pub Clear : Places → ℕ → ℕ → Type 0
Clear p x n = (x + n ≤ p.a) ⊎ (after p ≤ x)

-- `truth` is the truth table that answers.
abbrev pub Apart : ℕ → Places → Type 0
Apart truth p =
    ((1 ≤ p.width) × (p.width ≤ 0x4000))
    × (Clear p p.lhs p.width × Clear p p.rhs p.width)
    × (Clear p (truth + 0x40000000) 256 × Clear p (table_at p) (2 ^ 24))
    × ((p.ret < truth + 0x40000000) ⊎ (truth + 0x40000000 + 256 ≤ p.ret))
    × ((p.hyper % 2 ^ 24 ≡ 0) × (p.selector < 256))
    × ((p.lhs + p.width ≤ 2 ^ 32) × (p.rhs + p.width ≤ 2 ^ 32))
    × ((truth % 256 ≡ 0) × (truth + 256 ≤ 0x20000000))
    × ((p.ret < 2 ^ 32) × (p.hyper + 2 ^ 24 ≤ 0x20000000) × (after p < 2 ^ 32))

abbrev pub blocks : ℕ → Places → List Cblk
blocks truth p = program p.hyper p.selector p.width truth p.ret p.lhs p.rhs p.a

abbrev pub emitted : ℕ → Places → Memory → Memory
emitted truth p m = laid p.a (blocks truth p) m

-- The memory after the two scattered copies: byte `j` of each operand in the `j`th lookup.
abbrev pub patched : ℕ → Places → Memory → Memory
patched truth p m x =
    if leb (p.a + 70) x && (ltb x (p.a + 70 + p.width * 32) && ((x - (p.a + 70)) % 32 == 0))
    then m (p.lhs + (x - (p.a + 70)) / 32)
    else if leb (p.a + 69) x && (ltb x (p.a + 69 + p.width * 32) && ((x - (p.a + 69)) % 32 == 0))
    then m (p.rhs + (x - (p.a + 69)) / 32)
    else emitted truth p m x

-- The address of the `j`th lookup; behind the last one stands the block that answers.
abbrev pub lookup : Places → ℕ → ℕ
lookup p j = p.a + 64 + 32 * j

-- The `j`th lookup as it was emitted, and the last block.
abbrev pub plain : Places → ℕ → Cblk
plain p j = linear (lookup p j) (lookup p j + 36) (table_at p + p.selector) 1

abbrev pub ending : ℕ → Places → Cblk
ending truth p = linear (lookup p p.width) p.ret (truth + 0x40000000) 1

module _ (truth : ℕ) (p : Places) (m : Memory) (h : Apart truth p) where
  pub emitted-outside : (x : ℕ) → (x < p.a) ⊎ (after p ≤ x) → emitted truth p m x ≡ m x
  emitted-outside x k = laid-outside p.a (blocks truth p) m x (elim k [
    | inl l ↦ inl l
    | inr l ↦ inr (
        omega (arith, length-behind p.hyper p.selector p.width p.width (p.a + 64) (ending truth p)))
  ])

  emitted_byte :
      (j o : ℕ)
      → j < p.width
      → o < 32
      → emitted truth p m (lookup p j + o) ≡ get_or (cblk_bytes (plain p j)) o 0
  emitted_byte j o b c =
      ap (emitted truth p m) {y = p.a + 32 * suc (suc j) + o} (omega arith)
      ∙ laid-byte p.a (blocks truth p) m (suc (suc j)) o (plain p j)
          (get_elem?-lookups p.hyper p.selector p.width p.width (p.a + 64) j _ b) c

  emitted_end :
      (o : ℕ)
      → o < 32
      → emitted truth p m (lookup p p.width + o) ≡ get_or (cblk_bytes (ending truth p)) o 0
  emitted_end o c =
      ap (emitted truth p m) {y = p.a + 32 * suc (suc p.width) + o} (omega arith)
      ∙ laid-byte p.a (blocks truth p) m (suc (suc p.width)) o (ending truth p)
          (get_elem?-behind p.hyper p.selector p.width p.width (p.a + 64) (ending truth p)) c

  pub patched_rhs : (j : ℕ) → j < p.width → patched truth p m (lookup p j + 5) ≡ m (p.rhs + j)
  patched_rhs j b = ground arith

  pub patched_lhs : (j : ℕ) → j < p.width → patched truth p m (lookup p j + 6) ≡ m (p.lhs + j)
  patched_lhs j b = ground arith

  pub patched_else :
      (j o : ℕ)
      → j < p.width
      → o < 24
      → (o < 5) ⊎ (7 ≤ o)
      → patched truth p m (lookup p j + o) ≡ get_or (cblk_bytes (plain p j)) o 0
  patched_else j o b c w = same ∙ emitted_byte j o b (omega arith)
    where
      same : patched truth p m (lookup p j + o) ≡ emitted truth p m (lookup p j + o)
      same = ground arith

  pub patched_end :
      (o : ℕ)
      → o < 24
      → patched truth p m (lookup p p.width + o) ≡ get_or (cblk_bytes (ending truth p)) o 0
  patched_end o c = same ∙ emitted_end o (omega arith)
    where
      same : patched truth p m (lookup p p.width + o) ≡ emitted truth p m (lookup p p.width + o)
      same = ground arith

  module _ (e : Engine) where
    first-at : cblk_at (emitted truth p m) p.a ≡ scatter p.a (p.a + 69) p.rhs p.width 31
    first-at =
        ap (cblk_at (emitted truth p m)) {y = p.a + 32 * 0} (omega arith)
        ∙ cblk_at-laid p.a (blocks truth p) m 0 (scatter p.a (p.a + 69) p.rhs p.width 31) refl
            (omega arith, omega arith, omega arith, omega arith, omega arith, omega arith)

    -- After the first block.
    abbrev half : Memory
    half = e.transfer (scatter p.a (p.a + 69) p.rhs p.width 31) (emitted truth p m)

    half_lem :
        (x : ℕ)
        → half x ≡ (
            if leb (p.a + 69) x && (ltb x (p.a + 69 + p.width * 32) && ((x - (p.a + 69)) % 32 == 0))
            then emitted truth p m (p.rhs + (x - (p.a + 69)) / 32)
            else emitted truth p m x)
    half_lem x =
        e.transfer-scatter p.a (p.a + 69) p.rhs p.width 31 (emitted truth p m) x
          (omega arith, omega arith, omega arith) (ground arith)

    second-at : cblk_at half (p.a + 32) ≡ scatter (p.a + 32) (p.a + 70) p.lhs p.width 31
    second-at =
        cblk_at-same (p.a + 32) half (emitted truth p m) (λ x k l. half_lem x ∙ ground arith)
        ∙ cblk_at-laid p.a (blocks truth p) m 1 (scatter (p.a + 32) (p.a + 70) p.lhs p.width 31)
            refl (omega arith, omega arith, omega arith, omega arith, omega arith, omega arith)

    pub scattered : Memory
    scattered = e.transfer (scatter (p.a + 32) (p.a + 70) p.lhs p.width 31) half

    pub step-scattered : step e (step e (p.a, emitted truth p m)) ≡ (p.a + 64, scattered)
    unfolding scattered
    step-scattered =
        ap (step e)
          (step_lem e p.a (emitted truth p m) (scatter p.a (p.a + 69) p.rhs p.width 31) first-at)
        ∙ step_lem e (p.a + 32) half (scatter (p.a + 32) (p.a + 70) p.lhs p.width 31) second-at
        ∙ ap (λ n. (n, e.transfer (scatter (p.a + 32) (p.a + 70) p.lhs p.width 31) half))
            (omega arith)

    half-lhs : (k : ℕ) → k < p.width → half (p.lhs + k) ≡ m (p.lhs + k)
    half-lhs k b = half_lem (p.lhs + k) ∙ ground (arith, emitted-outside (p.lhs + k))

    emitted-rhs : (k : ℕ) → k < p.width → emitted truth p m (p.rhs + k) ≡ m (p.rhs + k)
    emitted-rhs k b = emitted-outside (p.rhs + k) (ground arith)

    pub scattered_lem : (x : ℕ) → scattered x ≡ patched truth p m x
    unfolding scattered
    scattered_lem x =
        e.transfer-scatter (p.a + 32) (p.a + 70) p.lhs p.width 31 half x
          (omega arith, omega arith, omega arith) (ground arith)
        ∙ ground (
          arith,
          half-lhs ((x - (p.a + 70)) / 32),
          half_lem x,
          emitted-rhs ((x - (p.a + 69)) / 32),
        )
