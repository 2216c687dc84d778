-- ===== src/Dma/Arith/Program.antt =====
-- The control blocks that `Add` and `Sub` emit.
use dma.Base.{ℕ, zero, suc, ◌+◌, ◌-◌, ◌*◌, ◌^◌, ◌<◌, ◌≤◌, ◌≡◌, ap, ◌∙◌, arith}
use dma.Base.{List, [], ◌∷◌, ◌++◌, length, some}
use dma.Base.{ap₂, get_elem?}
use dma.Dma.Arith.{entry_len}
use dma.Dma.Bus.{Busad}
use dma.Dma.Cblk.{Cblk}
use dma.Dma.Emit.{EmitCtx}
use dma.Dma.Emit.Laid.{Room, linear, scatter}

module _ (hyper : ℕ) (selector width : ℕ) (ret : Busad) where
  -- From byte `i` on, the blocks starting at `a`.
  abbrev pub carry_blocks : ℕ → ℕ → ℕ → List Cblk
  carry_blocks zero i a = []
  carry_blocks (suc k) i a =
      linear a (a + 36) (ret + i) 1
      ∷ linear (a + 32) (ret + i) (hyper + 0x40000000) (entry_len i width)
      ∷ carry_blocks k (suc i) (a + 64)

  abbrev pub head_blocks : Busad → Busad → ℕ → List Cblk
  head_blocks lhs rhs a =
      scatter a (a + 69) rhs width 63
      ∷ scatter (a + 32) (a + 70) lhs width 63
      ∷ linear (a + 64) ret (hyper + 0x40000000 + selector) 2
      ∷ []

  abbrev pub program : Busad → Busad → ℕ → List Cblk
  program lhs rhs a = head_blocks lhs rhs a ++ carry_blocks (width - 1) 1 (a + 96)

  -- What emission needs: room, and addresses in DRAM.
  abbrev pub Emits : EmitCtx → Type 0
  Emits ctx =
      Room (2 * width + 1) ctx
      × ((1 ≤ width) × (width ≤ 0x4000))
      × (hyper + 2 ^ 24 ≤ 0x20000000)
      × ((selector < 256) × (ret + width ≤ 0x60000000))

  length-carry_blocks : (k i a : ℕ) → length (carry_blocks k i a) ≡ 2 * k
  length-carry_blocks zero i a = omega arith
  length-carry_blocks (suc k) i a = omega (arith, length-carry_blocks k (suc i) (a + 64))

  pub length-program :
      (lhs rhs : Busad) (a : ℕ) → 1 ≤ width → length (program lhs rhs a) ≡ 2 * width + 1
  length-program lhs rhs a h = omega (arith, length-carry_blocks (width - 1) 1 (a + 96))

  -- The blocks by their index.
  pub get_elem?-carry_blocks :
      (k i a j : ℕ)
      → j < k
      → (get_elem? (carry_blocks k i a) (2 * j)
          ≡ some (linear (a + 64 * j) (a + 64 * j + 36) (ret + (i + j)) 1))
        × (get_elem? (carry_blocks k i a) (2 * j + 1)
            ≡ some (
                linear
                  (a + 64 * j + 32)
                  (ret + (i + j))
                  (hyper + 0x40000000)
                  (entry_len (i + j) width)))
  get_elem?-carry_blocks zero i a j h = absurd (omega arith)
  get_elem?-carry_blocks (suc k) i a zero h = (
    ap₂ (λ x y. some (linear x (x + 36) (ret + y) 1)) (omega arith) (omega arith),
    ap₂ (λ x y. some (linear (x + 32) (ret + y) (hyper + 0x40000000) (entry_len y width)))
        (omega arith) (omega arith),
  )
  get_elem?-carry_blocks (suc k) i a (suc j) h = (
    ap (get_elem? (carry_blocks (suc k) i a)) {y = suc (suc (2 * j))} (omega arith)
        ∙ (get_elem?-carry_blocks k (suc i) (a + 64) j (omega arith)).0
        ∙ ap₂ (λ x y. some (linear x (x + 36) (ret + y) 1)) (omega arith) (omega arith),
    ap (get_elem? (carry_blocks (suc k) i a)) {y = suc (suc (2 * j + 1))} (omega arith)
        ∙ (get_elem?-carry_blocks k (suc i) (a + 64) j (omega arith)).1
        ∙ ap₂ (λ x y. some (linear (x + 32) (ret + y) (hyper + 0x40000000) (entry_len y width)))
            (omega arith) (omega arith),
  )
