-- ===== src/Dma/Arith/Emitted.antt =====
-- `Add` and `Sub` emit their programs.
use dma.Base.{ℕ, zero, suc, ◌+◌, ◌-◌, ◌*◌, ◌^◌, ◌<◌, ◌≤◌, ◌≡◌, sym, ap, ◌∙◌, arith}
use dma.Base.{not, ◌==◌, ne→==, List, [], ◌∷◌, some}
use dma.Base.{ap₂}
use dma.Dma.Arith.{with_carry, carry_step, entry_len}
use dma.Dma.Bus.{Busad, arm_to_bus, bus_add}
use dma.Dma.Cblk.{Cblk}
use dma.Dma.Emit.{
  EmitCtx, Emission, ◌>>=◌, ◌>>◌, assert, lift, label, bus_rel_fld, emit, emit_strided,
}
use dma.Dma.Emit.{fld_src, for_each, bus_, bus}
use dma.Dma.Emit.Laid.{laid, Room, place, with_blocks, linear, scatter}
use dma.Dma.Emit.Steps.{then_step}
use dma.Dma.Emit.Steps.{emit_lem, emit_strided_lem, in_sequence, Room-with_blocks}
use dma.Dma.Emit.Steps.{after_label, after_bus, after_fld}
use dma.Dma.Arith.Program.{carry_blocks, program, Emits}

module _ (hyper selector width : ℕ) (ret : Busad) where
  carry_step_lem :
      (i : ℕ) (ctx : EmitCtx)
      → Room 2 ctx
      → hyper < 0x20000000
      → ret + i < 2 ^ 32
      → carry_step hyper width ret i ctx
        ≡ some (
          tt,
          with_blocks
              (linear (place ctx) (place ctx + 36) (ret + i) 1
                ∷ linear (place ctx + 32) (ret + i) (hyper + 0x40000000) (entry_len i width)
                ∷ [])
              ctx,
        )
  carry_step_lem i ctx r h b =
      after_label ctx (λ here. bus_rel_fld here 1 fld_src 0 >>= body) (omega arith)
      ∙ after_fld ctx (place ctx) 1 0 body (omega arith, omega arith, omega arith)
      ∙ in_sequence (emit (place ctx + 1 * 32 + 4 + 0) (bus_add ret i) 1) second
          (linear (place ctx) (place ctx + 36) (ret + i) 1 ∷ [])
          (linear (place ctx + 32) (ret + i) (hyper + 0x40000000) (entry_len i width) ∷ []) ctx
          (ap₂ (λ d s. emit d s 1 ctx) {y = place ctx + 36} {v = ret + i} (omega arith)
              (omega arith)
            ∙ emit_lem (place ctx + 36) (ret + i) 1 ctx
                (omega arith, omega arith, omega arith, omega arith))
          (second_lem (with_blocks (linear (place ctx) (place ctx + 36) (ret + i) 1 ∷ []) ctx)
            (Room-with_blocks (linear (place ctx) (place ctx + 36) (ret + i) 1 ∷ []) 1 ctx r)
            (omega arith))
    where
      second : Emission (Unit {0})
      second = lift (bus hyper) >>= λ table. emit (bus_add ret i) table (entry_len i width)

      second_lem :
          (c : EmitCtx)
          → Room 1 c
          → place ctx + 32 ≡ place c
          → second c
            ≡ some (
              tt,
              with_blocks
                  (linear (place ctx + 32) (ret + i) (hyper + 0x40000000) (entry_len i width) ∷ [])
                  c,
            )
      second_lem c q e =
          after_bus c hyper (λ table. emit (bus_add ret i) table (entry_len i width)) h
          ∙ ap (λ d. emit d (hyper + 0x40000000) (entry_len i width) c) {y = ret + i} (omega arith)
          ∙ emit_lem (ret + i) (hyper + 0x40000000) (entry_len i width) c q
          ∙ ap
              (λ a. some (
                tt,
                with_blocks (linear a (ret + i) (hyper + 0x40000000) (entry_len i width) ∷ []) c,
              ))
              (sym e)

      body : Busad → Emission (Unit {0})
      body dst = emit dst (bus_add ret i) 1 >> second

  for_each_lem :
      (k i : ℕ) (ctx : EmitCtx)
      → Room (2 * k) ctx
      → hyper < 0x20000000
      → ret + i + k ≤ 2 ^ 32
      → for_each k i (carry_step hyper width ret) ctx
        ≡ some (tt, with_blocks (carry_blocks hyper selector width ret k i (place ctx)) ctx)
  unfolding for_each laid
  for_each_lem zero i ctx r h b =
      ap (λ n. some (tt, record ctx { p = n })) {x = ctx.p} {y = ctx.p + 32 * 0} (omega arith)
  for_each_lem (suc k) i ctx r h b =
      in_sequence (carry_step hyper width ret i) (for_each k (suc i) (carry_step hyper width ret))
        pair (carry_blocks hyper selector width ret k (suc i) (place ctx + 64)) ctx
        (carry_step_lem i ctx (omega arith, omega arith, omega arith, omega arith) h (omega arith))
        (for_each_lem k (suc i) (with_blocks pair ctx)
            (Room-with_blocks pair (2 * k) ctx (omega arith, omega arith, omega arith, omega arith))
            h (omega arith)
          ∙ ap
              (λ a. some (
                tt,
                with_blocks (carry_blocks hyper selector width ret k (suc i) a)
                    (with_blocks pair ctx),
              ))
              {y = place ctx + 64} (omega arith))
    where
      pair : List Cblk
      pair =
          linear (place ctx) (place ctx + 36) (ret + i) 1
          ∷ linear (place ctx + 32) (ret + i) (hyper + 0x40000000) (entry_len i width)
          ∷ []

  module _ (lhs rhs : Busad) where
    abbrev last_part : Emission (Unit {0})
    last_part = do
      entry ← lift (bus_ hyper selector)
      emit (bus_add ret 0) entry 2
      for_each (width - 1) 1 (carry_step hyper width ret)

    abbrev lhs_part : Busad → Emission (Unit {0})
    lhs_part start = do
      high ← bus_rel_fld start 2 fld_src 2
      emit_strided high lhs width 1 63 0
      last_part

    abbrev rhs_part : Busad → Emission (Unit {0})
    rhs_part start = do
      low ← bus_rel_fld start 2 fld_src 1
      emit_strided low rhs width 1 63 0
      lhs_part start

    last_part_lem :
        (ctx : EmitCtx)
        → Room (2 * (width - 1) + 1) ctx
        → (1 ≤ width)
          × (hyper + 2 ^ 24 ≤ 0x20000000)
          × (selector < 256)
          × (ret + width ≤ 0x60000000)
        → last_part ctx
          ≡ some (
            tt,
            with_blocks
                (linear (place ctx) ret (hyper + 0x40000000 + selector) 2
                  ∷ carry_blocks hyper selector width ret (width - 1) 1 (place ctx + 32))
                ctx,
          )
    last_part_lem ctx r h =
        ap (λ a. (lift (arm_to_bus a) >>= rest) ctx) {y = hyper + selector} (omega arith)
        ∙ after_bus ctx (hyper + selector) rest (omega arith)
        ∙ ap₂ (λ d s. (emit d s 2 >> for_each (width - 1) 1 (carry_step hyper width ret)) ctx)
            {y = ret} {v = hyper + 0x40000000 + selector} (omega arith) (omega arith)
        ∙ in_sequence (emit ret (hyper + 0x40000000 + selector) 2)
            (for_each (width - 1) 1 (carry_step hyper width ret)) one
            (carry_blocks hyper selector width ret (width - 1) 1 (place ctx + 32)) ctx
            (emit_lem ret (hyper + 0x40000000 + selector) 2 ctx
              (omega arith, omega arith, omega arith, omega arith))
            (for_each_lem (width - 1) 1 (with_blocks one ctx)
                (Room-with_blocks one (2 * (width - 1)) ctx
                  (omega arith, omega arith, omega arith, omega arith))
                (omega arith) (omega arith)
              ∙ ap
                  (λ a. some (
                    tt,
                    with_blocks (carry_blocks hyper selector width ret (width - 1) 1 a)
                        (with_blocks one ctx),
                  ))
                  {y = place ctx + 32} (omega arith))
      where
        rest : Busad → Emission (Unit {0})
        rest entry =
            emit (bus_add ret 0) entry 2 >> for_each (width - 1) 1 (carry_step hyper width ret)

        one : List Cblk
        one = linear (place ctx) ret (hyper + 0x40000000 + selector) 2 ∷ []

    abbrev lhs_blocks : ℕ → List Cblk
    lhs_blocks start =
        scatter (start + 32) (start + 70) lhs width 63
        ∷ linear (start + 64) ret (hyper + 0x40000000 + selector) 2
        ∷ carry_blocks hyper selector width ret (width - 1) 1 (start + 96)

    lhs_part_lem :
        (start : ℕ) (ctx : EmitCtx)
        → place ctx ≡ start + 32
        → Room (2 * (width - 1) + 2) ctx
        → (1 ≤ width)
          × (width ≤ 0x4000)
          × (hyper + 2 ^ 24 ≤ 0x20000000)
          × (selector < 256)
          × (ret + width ≤ 0x60000000)
        → lhs_part start ctx ≡ some (tt, with_blocks (lhs_blocks start) ctx)
    lhs_part_lem start ctx e r h =
        after_fld ctx start 2 2 rest (omega arith, omega arith, omega arith)
        ∙ ap (λ d. rest d ctx) {y = start + 70} (omega arith)
        ∙ in_sequence (emit_strided (start + 70) lhs width 1 63 0) last_part one
            (linear (start + 64) ret (hyper + 0x40000000 + selector) 2
              ∷ carry_blocks hyper selector width ret (width - 1) 1 (start + 96))
            ctx
            (emit_strided_lem (start + 70) lhs width 63 ctx
                (omega arith, omega arith, omega arith, omega arith) (h.0, h.1, omega arith)
              ∙ ap (λ a. some (tt, with_blocks (scatter a (start + 70) lhs width 63 ∷ []) ctx)) e)
            (last_part_lem (with_blocks one ctx)
                (Room-with_blocks one (2 * (width - 1) + 1) ctx
                  (omega arith, omega arith, omega arith, omega arith))
                (h.0, h.2, h.3, h.4)
              ∙ ap₂
                  (λ a b. some (
                    tt,
                    with_blocks
                        (linear a ret (hyper + 0x40000000 + selector) 2
                          ∷ carry_blocks hyper selector width ret (width - 1) 1 b)
                        (with_blocks one ctx),
                  ))
                  {y = start + 64} {v = start + 96} (omega arith) (omega arith))
      where
        rest : Busad → Emission (Unit {0})
        rest high = emit_strided high lhs width 1 63 0 >> last_part

        one : List Cblk
        one = scatter (start + 32) (start + 70) lhs width 63 ∷ []

    -- With room for `2 * width + 1` blocks, `Add` and `Sub` emit the program and nothing else.
    pub with_carry_lem :
        (ctx : EmitCtx)
        → Emits hyper selector width ret ctx
        → with_carry hyper selector width ret lhs rhs ctx
          ≡ some (tt, with_blocks (program hyper selector width ret lhs rhs (place ctx)) ctx)
    unfolding with_carry
    with_carry_lem ctx h =
        then_step (assert (not (width == 0))) (λ _. label >>= rhs_part) ctx ctx tt
          (ap (λ b. assert (not b) ctx) (ne→== width 0 (omega arith)))
        ∙ after_label ctx rhs_part (omega arith)
        ∙ after_fld ctx (place ctx) 2 1 rest (omega arith, omega arith, omega arith)
        ∙ ap (λ d. rest d ctx) {y = place ctx + 69} (omega arith)
        ∙ in_sequence (emit_strided (place ctx + 69) rhs width 1 63 0) (lhs_part (place ctx)) one
            (lhs_blocks (place ctx)) ctx
            (emit_strided_lem (place ctx + 69) rhs width 63 ctx
              (omega arith, omega arith, omega arith, omega arith)
              (omega arith, omega arith, omega arith))
            (lhs_part_lem (place ctx) (with_blocks one ctx) (omega arith)
              (Room-with_blocks one (2 * (width - 1) + 2) ctx
                (omega arith, omega arith, omega arith, omega arith))
              (omega arith, omega arith, omega arith, omega arith, omega arith))
      where
        rest : Busad → Emission (Unit {0})
        rest low = emit_strided low rhs width 1 63 0 >> lhs_part (place ctx)

        one : List Cblk
        one = scatter (place ctx) (place ctx + 69) rhs width 63 ∷ []
