-- ===== src/Dma/Arith/Compare/Program.antt =====
-- The control blocks that `Geu` and `Equ` emit.
use dma.Base.{ℕ, zero, suc, ◌+◌, ◌*◌, ◌^◌, ◌<◌, ◌≤◌, ◌≡◌, refl, ap, ◌∙◌, arith}
use dma.Base.{List, [], ◌∷◌, ◌++◌, length, some, ap₂, get_elem?, ne→==, not, true, false}
use dma.Dma.Arith.Compare.{TruthTables, truth_table, compare_up}
use dma.Dma.Bus.{Busad, arm_to_bus}
use dma.Dma.Cblk.{Cblk}
use dma.Dma.Emit.{
  EmitCtx, Emission, ◌>>=◌, ◌>>◌, assert, lift, label, bus_rel_fld, emit, emit_strided,
}
use dma.Dma.Emit.{fld_src, for_each, bus, bus_}
use dma.Dma.Emit.Laid.{laid, Room, place, with_blocks, linear, scatter}
use dma.Dma.Emit.Steps.{emit_lem, emit_strided_lem, in_sequence, Room-with_blocks, then_step}
use dma.Dma.Emit.Steps.{after_label, after_bus, after_fld}

module _ (hyper selector width : ℕ) where
  -- `k` lookups, starting at `a`: each writes the selector of the next block.
  abbrev pub lookups : ℕ → ℕ → List Cblk
  lookups zero a = []
  lookups (suc k) a = linear a (a + 36) (hyper + 0x40000000 + selector) 1 ∷ lookups k (a + 32)

  pub length-lookups : (k a : ℕ) → length (lookups k a) ≡ k
  length-lookups zero a = refl
  length-lookups (suc k) a = ap suc (length-lookups k (a + 32))

  abbrev step_on : ℕ → Emission (Unit {0})
  step_on i = do
    here ← label
    dst ← bus_rel_fld here 1 fld_src 0
    entry ← lift (bus_ hyper selector)
    emit dst entry 1

  step_on_lem :
      (i : ℕ) (ctx : EmitCtx)
      → Room 1 ctx
      → hyper + selector < 0x20000000
      → step_on i ctx
        ≡ some (
          tt,
          with_blocks
              (linear (place ctx) (place ctx + 36) (hyper + 0x40000000 + selector) 1 ∷ [])
              ctx,
        )
  step_on_lem i ctx r h =
      after_label ctx from_here (omega arith)
      ∙ after_fld ctx (place ctx) 1 0 to (omega arith, omega arith, omega arith)
      ∙ ap (λ a. (lift (arm_to_bus a) >>= rest) ctx) {y = hyper + selector} (omega arith)
      ∙ after_bus ctx (hyper + selector) rest h
      ∙ ap₂ (λ d s. emit d s 1 ctx) {y = place ctx + 36} {v = hyper + 0x40000000 + selector}
          (omega arith) (omega arith)
      ∙ emit_lem (place ctx + 36) (hyper + 0x40000000 + selector) 1 ctx r
    where
      rest : Busad → Emission (Unit {0})
      rest entry = emit (place ctx + 1 * 32 + 4 + 0) entry 1

      to : Busad → Emission (Unit {0})
      to dst = do entry ← lift (bus_ hyper selector); emit dst entry 1

      from_here : Busad → Emission (Unit {0})
      from_here here = do
        dst ← bus_rel_fld here 1 fld_src 0
        entry ← lift (bus_ hyper selector)
        emit dst entry 1

  pub for_each_lem :
      (k i : ℕ) (ctx : EmitCtx)
      → Room k ctx
      → hyper + selector < 0x20000000
      → for_each k i step_on ctx ≡ some (tt, with_blocks (lookups k (place ctx)) ctx)
  unfolding for_each laid
  for_each_lem zero i ctx r h =
      ap (λ n. some (tt, record ctx { p = n })) {x = ctx.p} {y = ctx.p + 32 * 0} (omega arith)
  for_each_lem (suc k) i ctx r h =
      in_sequence (step_on i) (for_each k (suc i) step_on) one (lookups k (place ctx + 32)) ctx
        (step_on_lem i ctx (omega arith, omega arith, omega arith, omega arith) h)
        (for_each_lem k (suc i) (with_blocks one ctx)
            (Room-with_blocks one k ctx (omega arith, omega arith, omega arith, omega arith)) h
          ∙ ap (λ a. some (tt, with_blocks (lookups k a) (with_blocks one ctx)))
              {y = place ctx + 32} (omega arith))
    where
      one : List Cblk
      one = linear (place ctx) (place ctx + 36) (hyper + 0x40000000 + selector) 1 ∷ []

  -- The lookups by their index, and the block behind them.
  pub get_elem?-lookups :
      (k a j : ℕ) (cs : List Cblk)
      → j < k
      → get_elem? (lookups k a ++ cs) j
        ≡ some (linear (a + 32 * j) (a + 32 * j + 36) (hyper + 0x40000000 + selector) 1)
  get_elem?-lookups zero a j cs h = absurd (omega arith)
  get_elem?-lookups (suc k) a zero cs h =
      ap₂ (λ x y. some (linear x y (hyper + 0x40000000 + selector) 1)) (omega arith) (omega arith)
  get_elem?-lookups (suc k) a (suc j) cs h =
      get_elem?-lookups k (a + 32) j cs (omega arith)
      ∙ ap₂ (λ x y. some (linear x y (hyper + 0x40000000 + selector) 1)) (omega arith) (omega arith)

  pub get_elem?-behind : (k a : ℕ) (c : Cblk) → get_elem? (lookups k a ++ (c ∷ [])) k ≡ some c
  get_elem?-behind zero a c = refl
  get_elem?-behind (suc k) a c = get_elem?-behind k (a + 32) c

  pub length-behind : (k a : ℕ) (c : Cblk) → length (lookups k a ++ (c ∷ [])) ≡ suc k
  length-behind zero a c = refl
  length-behind (suc k) a c = ap suc (length-behind k (a + 32) c)

  -- With the truth table at `truth`.
  abbrev pub program : ℕ → Busad → Busad → Busad → ℕ → List Cblk
  program truth ret8 lhs rhs a =
      scatter a (a + 69) rhs width 31
      ∷ scatter (a + 32) (a + 70) lhs width 31
      ∷ (lookups width (a + 64) ++ (linear (a + 64 + 32 * width) ret8 (truth + 0x40000000) 1 ∷ []))

  -- What emission needs: room, and addresses in DRAM.
  abbrev pub Emits : ℕ → EmitCtx → Type 0
  Emits truth ctx =
      Room (width + 3) ctx
      × ((1 ≤ width) × (width ≤ 0x4000))
      × ((hyper + 2 ^ 24 ≤ 0x20000000) × (selector < 256) × (truth + 256 ≤ 0x20000000))

  module _ (truth : ℕ) (ret8 lhs rhs : Busad) where
    abbrev answer : Emission (Unit {0})
    answer = do table ← lift (bus truth); emit ret8 table 1

    abbrev tail : Emission (Unit {0})
    tail = do for_each width 0 step_on; answer

    abbrev lhs_part : Busad → Emission (Unit {0})
    lhs_part start = do
      high ← bus_rel_fld start 2 fld_src 2
      emit_strided high lhs width 1 31 0
      tail

    abbrev rhs_part : Busad → Emission (Unit {0})
    rhs_part start = do
      low ← bus_rel_fld start 2 fld_src 1
      emit_strided low rhs width 1 31 0
      lhs_part start

    answer_lem :
        (ctx : EmitCtx)
        → Room 1 ctx
        → truth < 0x20000000
        → answer ctx
          ≡ some (tt, with_blocks (linear (place ctx) ret8 (truth + 0x40000000) 1 ∷ []) ctx)
    answer_lem ctx r h =
        after_bus ctx truth (λ table. emit ret8 table 1) h
        ∙ emit_lem ret8 (truth + 0x40000000) 1 ctx r

    tail_lem :
        (ctx : EmitCtx)
        → Room (width + 1) ctx
        → (hyper + selector < 0x20000000) × (truth < 0x20000000)
        → tail ctx
          ≡ some (
            tt,
            with_blocks
                (lookups width (place ctx)
                  ++ (linear (place ctx + 32 * width) ret8 (truth + 0x40000000) 1 ∷ []))
                ctx,
          )
    tail_lem ctx r h =
        in_sequence (for_each width 0 step_on) answer (lookups width (place ctx))
          (linear (place ctx + 32 * width) ret8 (truth + 0x40000000) 1 ∷ []) ctx
          (for_each_lem width 0 ctx (omega arith, omega arith, omega arith, omega arith) h.0)
          (answer_lem (with_blocks (lookups width (place ctx)) ctx)
              (Room-with_blocks (lookups width (place ctx)) 1 ctx room) h.1
            ∙ ap
                (λ a. some (
                  tt,
                  with_blocks (linear a ret8 (truth + 0x40000000) 1 ∷ [])
                      (with_blocks (lookups width (place ctx)) ctx),
                ))
                (omega (arith, length-lookups width (place ctx))))
      where
        room : Room (length (lookups width (place ctx)) + 1) ctx
        room = (
          omega arith,
          omega arith,
          omega (arith, length-lookups width (place ctx)),
          omega (arith, length-lookups width (place ctx)),
        )

    lhs_part_lem :
        (start : ℕ) (ctx : EmitCtx)
        → place ctx ≡ start + 32
        → Room (width + 2) ctx
        → ((1 ≤ width) × (width ≤ 0x4000))
          × ((hyper + selector < 0x20000000) × (truth < 0x20000000))
        → lhs_part start ctx
          ≡ some (
            tt,
            with_blocks
                (scatter (start + 32) (start + 70) lhs width 31
                  ∷ (lookups width (start + 64)
                      ++ (linear (start + 64 + 32 * width) ret8 (truth + 0x40000000) 1 ∷ [])))
                ctx,
          )
    lhs_part_lem start ctx e r h =
        after_fld ctx start 2 2 rest (omega arith, omega arith, omega arith)
        ∙ ap (λ d. rest d ctx) {y = start + 70} (omega arith)
        ∙ in_sequence (emit_strided (start + 70) lhs width 1 31 0) tail one
            (lookups width (start + 64)
              ++ (linear (start + 64 + 32 * width) ret8 (truth + 0x40000000) 1 ∷ []))
            ctx
            (emit_strided_lem (start + 70) lhs width 31 ctx
                (omega arith, omega arith, omega arith, omega arith) (h.0.0, h.0.1, omega arith)
              ∙ ap (λ a. some (tt, with_blocks (scatter a (start + 70) lhs width 31 ∷ []) ctx)) e)
            (tail_lem (with_blocks one ctx)
                (Room-with_blocks one (width + 1) ctx
                  (omega arith, omega arith, omega arith, omega arith))
                h.1
              ∙ ap
                  (λ a. some (
                    tt,
                    with_blocks
                        (lookups width a
                          ++ (linear (a + 32 * width) ret8 (truth + 0x40000000) 1 ∷ []))
                        (with_blocks one ctx),
                  ))
                  {y = start + 64} (omega arith))
      where
        rest : Busad → Emission (Unit {0})
        rest high = emit_strided high lhs width 1 31 0 >> tail

        one : List Cblk
        one = scatter (start + 32) (start + 70) lhs width 31 ∷ []

-- With room for `width + 3` blocks, the program is emitted and nothing else.
pub compare_up_lem :
    (t : TruthTables) (selector width : ℕ) (ret8 lhs rhs : Busad) (flags : ℕ) (ctx : EmitCtx)
    → Emits t.hyper selector width (truth_table t flags) ctx
    → compare_up t selector width ret8 lhs rhs flags ctx
      ≡ some (
        tt,
        with_blocks
            (program t.hyper selector width (truth_table t flags) ret8 lhs rhs (place ctx))
            ctx,
      )
unfolding compare_up
compare_up_lem t selector width ret8 lhs rhs flags ctx h =
    ap (λ b. (assert (not b) >> whole) ctx) {y = false} (ne→== width 0 (omega arith))
    ∙ then_step (assert true) (λ _. whole) ctx ctx tt refl
    ∙ after_label ctx (rhs_part t.hyper selector width truth ret8 lhs rhs) (omega arith)
    ∙ after_fld ctx (place ctx) 2 1 rest (omega arith, omega arith, omega arith)
    ∙ ap (λ d. rest d ctx) {y = place ctx + 69} (omega arith)
    ∙ in_sequence (emit_strided (place ctx + 69) rhs width 1 31 0)
        (lhs_part t.hyper selector width truth ret8 lhs rhs (place ctx)) one
        (scatter (place ctx + 32) (place ctx + 70) lhs width 31
          ∷ (lookups t.hyper selector width width (place ctx + 64)
              ++ (linear (place ctx + 64 + 32 * width) ret8 (truth + 0x40000000) 1 ∷ [])))
        ctx
        (emit_strided_lem (place ctx + 69) rhs width 31 ctx
          (omega arith, omega arith, omega arith, omega arith)
          (omega arith, omega arith, omega arith))
        (lhs_part_lem t.hyper selector width truth ret8 lhs rhs (place ctx) (with_blocks one ctx)
          (omega arith)
          (Room-with_blocks one (width + 2) ctx
            (omega arith, omega arith, omega arith, omega arith))
          ((omega arith, omega arith), (omega arith, omega arith)))
  where
    truth : ℕ
    truth = truth_table t flags

    whole : Emission (Unit {0})
    whole = label >>= rhs_part t.hyper selector width truth ret8 lhs rhs

    rest : Busad → Emission (Unit {0})
    rest low =
        emit_strided low rhs width 1 31 0
        >> lhs_part t.hyper selector width truth ret8 lhs rhs (place ctx)

    one : List Cblk
    one = scatter (place ctx) (place ctx + 69) rhs width 31 ∷ []
