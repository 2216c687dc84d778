-- ===== src/Dma/Arith/Bytewise.antt =====
-- The control blocks that `And`, `Or` and `Xor` emit.
pub mod Setting
pub mod Run
pub mod Result
use dma.Base.{ℕ, zero, suc, ◌+◌, ◌-◌, ◌*◌, ◌^◌, ◌<◌, ◌≤◌, ◌≡◌, refl, sym, ap, ◌∙◌, arith}
use dma.Base.{List, [], ◌∷◌, ◌++◌, length, some, ap₂, get_elem?, u32}
use dma.Dma.Arith.Bitwise.{bytewise}
use dma.Dma.Bus.{Busad, arm_to_bus, bus_add}
use dma.Dma.Cblk.{Cblk}
use dma.Dma.Emit.{EmitCtx, Emission, ◌>>=◌, ◌>>◌, lift, label, bus_rel_fld, emit, emit_strided}
use dma.Dma.Emit.{fld_src, for_each, bus_}
use dma.Dma.Emit.Laid.{laid, Room, place, with_blocks, linear, scatter}
use dma.Dma.Emit.Steps.{emit_lem, emit_strided_lem, in_sequence, Room-with_blocks}
use dma.Dma.Emit.Steps.{after_label, after_bus, after_fld}

module _ (hyper selector width : ℕ) (ret : Busad) where
  -- The lookups from byte `i` on, starting at `a`.
  abbrev pub lookups : ℕ → ℕ → ℕ → List Cblk
  lookups zero i a = []
  lookups (suc k) i a =
      linear a (ret + i) (hyper + 0x40000000 + selector) 1 ∷ lookups k (suc i) (a + 32)

  abbrev pub program : Busad → Busad → ℕ → List Cblk
  program lhs rhs a =
      scatter a (a + 69) lhs width 31
      ∷ scatter (a + 32) (a + 70) rhs width 31
      ∷ lookups width 0 (a + 64)

  -- What emission needs: room, and addresses in DRAM.
  abbrev pub Emits : EmitCtx → Type 0
  Emits ctx =
      Room (width + 2) ctx
      × ((1 ≤ width) × (width ≤ 0x4000))
      × (hyper + 2 ^ 24 ≤ 0x20000000)
      × ((selector < 256) × (ret + width ≤ 0x60000000))

  abbrev lookup_step : ℕ → Emission (Unit {0})
  lookup_step i = do entry ← lift (bus_ hyper selector); emit (bus_add ret i) entry 1

  lookup_step_lem :
      (i : ℕ) (ctx : EmitCtx)
      → Room 1 ctx
      → hyper + selector < 0x20000000
      → ret + i < 2 ^ 32
      → lookup_step i ctx
        ≡ some (
          tt,
          with_blocks (linear (place ctx) (ret + i) (hyper + 0x40000000 + selector) 1 ∷ []) ctx,
        )
  lookup_step_lem i ctx r h b =
      ap (λ a. (lift (arm_to_bus a) >>= rest) ctx) {y = hyper + selector} (omega arith)
      ∙ after_bus ctx (hyper + selector) rest h
      ∙ ap₂ (λ d s. emit d s 1 ctx) {y = ret + i} {v = hyper + 0x40000000 + selector} (omega arith)
          (omega arith)
      ∙ emit_lem (ret + i) (hyper + 0x40000000 + selector) 1 ctx r
    where
      rest : Busad → Emission (Unit {0})
      rest entry = emit (bus_add ret i) entry 1

  for_each_lem :
      (k i : ℕ) (ctx : EmitCtx)
      → Room k ctx
      → hyper + selector < 0x20000000
      → ret + i + k ≤ 2 ^ 32
      → for_each k i lookup_step ctx ≡ some (tt, with_blocks (lookups k i (place ctx)) ctx)
  unfolding for_each laid
  for_each_lem zero i ctx r h b =
      ap (λ n. some (tt, record ctx { p = n })) {x = ctx.p} {y = ctx.p + 32 * 0} (omega arith)
  for_each_lem (suc k) i ctx r h b =
      in_sequence (lookup_step i) (for_each k (suc i) lookup_step) one
        (lookups k (suc i) (place ctx + 32)) ctx
        (lookup_step_lem i ctx (omega arith, omega arith, omega arith, omega arith) h (omega arith))
        (for_each_lem k (suc i) (with_blocks one ctx)
            (Room-with_blocks one k ctx (omega arith, omega arith, omega arith, omega arith)) h
            (omega arith)
          ∙ ap (λ a. some (tt, with_blocks (lookups k (suc i) a) (with_blocks one ctx)))
              {y = place ctx + 32} (omega arith))
    where
      one : List Cblk
      one = linear (place ctx) (ret + i) (hyper + 0x40000000 + selector) 1 ∷ []

  pub length-lookups : (k i a : ℕ) → length (lookups k i a) ≡ k
  length-lookups zero i a = refl
  length-lookups (suc k) i a = ap suc (length-lookups k (suc i) (a + 32))

  -- The lookups by their index.
  pub get_elem?-lookups :
      (k i a j : ℕ)
      → j < k
      → get_elem? (lookups k i a) j
        ≡ some (linear (a + 32 * j) (ret + (i + j)) (hyper + 0x40000000 + selector) 1)
  get_elem?-lookups zero i a j h = absurd (omega arith)
  get_elem?-lookups (suc k) i a zero h =
      ap₂ (λ x y. some (linear x (ret + y) (hyper + 0x40000000 + selector) 1)) (omega arith)
        (omega arith)
  get_elem?-lookups (suc k) i a (suc j) h =
      get_elem?-lookups k (suc i) (a + 32) j (omega arith)
      ∙ ap₂ (λ x y. some (linear x (ret + y) (hyper + 0x40000000 + selector) 1)) (omega arith)
          (omega arith)

  module _ (lhs rhs : Busad) where
    abbrev rhs_part : Busad → Emission (Unit {0})
    rhs_part start = do
      high ← bus_rel_fld start 2 fld_src 2
      emit_strided high rhs width 1 31 0
      for_each width 0 lookup_step

    abbrev lhs_part : Busad → Emission (Unit {0})
    lhs_part start = do
      low ← bus_rel_fld start 2 fld_src 1
      emit_strided low lhs width 1 31 0
      rhs_part start

    rhs_part_lem :
        (start : ℕ) (ctx : EmitCtx)
        → place ctx ≡ start + 32
        → Room (width + 1) ctx
        → (1 ≤ width)
          × (width ≤ 0x4000)
          × (hyper + selector < 0x20000000)
          × (ret + width ≤ 0x60000000)
        → rhs_part start ctx
          ≡ some (
            tt,
            with_blocks
                (scatter (start + 32) (start + 70) rhs width 31 ∷ lookups width 0 (start + 64))
                ctx,
          )
    rhs_part_lem start ctx e r h =
        after_fld ctx start 2 2 rest (omega arith, omega arith, omega arith)
        ∙ ap (λ d. rest d ctx) {y = start + 70} (omega arith)
        ∙ in_sequence (emit_strided (start + 70) rhs width 1 31 0) (for_each width 0 lookup_step)
            one (lookups width 0 (start + 64)) ctx
            (emit_strided_lem (start + 70) rhs width 31 ctx
                (omega arith, omega arith, omega arith, omega arith) (h.0, h.1, omega arith)
              ∙ ap (λ a. some (tt, with_blocks (scatter a (start + 70) rhs width 31 ∷ []) ctx)) e)
            (for_each_lem width 0 (with_blocks one ctx)
                (Room-with_blocks one width ctx
                  (omega arith, omega arith, omega arith, omega arith))
                h.2 (omega arith)
              ∙ ap (λ a. some (tt, with_blocks (lookups width 0 a) (with_blocks one ctx)))
                  {y = start + 64} (omega arith))
      where
        rest : Busad → Emission (Unit {0})
        rest high = emit_strided high rhs width 1 31 0 >> for_each width 0 lookup_step

        one : List Cblk
        one = scatter (start + 32) (start + 70) rhs width 31 ∷ []

    -- With room for `width + 2` blocks, the program is emitted and nothing else.
    pub bytewise_lem :
        (ctx : EmitCtx)
        → Emits ctx
        → bytewise hyper selector width ret lhs rhs ctx
          ≡ some (tt, with_blocks (program lhs rhs (place ctx)) ctx)
    unfolding bytewise
    bytewise_lem ctx h =
        after_label ctx lhs_part (omega arith)
        ∙ after_fld ctx (place ctx) 2 1 rest (omega arith, omega arith, omega arith)
        ∙ ap (λ d. rest d ctx) {y = place ctx + 69} (omega arith)
        ∙ in_sequence (emit_strided (place ctx + 69) lhs width 1 31 0) (rhs_part (place ctx)) one
            (scatter (place ctx + 32) (place ctx + 70) rhs width 31
              ∷ lookups width 0 (place ctx + 64))
            ctx
            (emit_strided_lem (place ctx + 69) lhs width 31 ctx
              (omega arith, omega arith, omega arith, omega arith)
              (omega arith, omega arith, omega arith))
            (rhs_part_lem (place ctx) (with_blocks one ctx) (omega arith)
              (Room-with_blocks one (width + 1) ctx
                (omega arith, omega arith, omega arith, omega arith))
              (omega arith, omega arith, omega arith, omega arith))
      where
        rest : Busad → Emission (Unit {0})
        rest low = emit_strided low lhs width 1 31 0 >> rhs_part (place ctx)

        one : List Cblk
        one = scatter (place ctx) (place ctx + 69) lhs width 31 ∷ []
