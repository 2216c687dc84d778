-- ===== src/Dma/Arith/Compare/Result.antt =====
-- `Geu` and `Equ` from the emission to the answer in memory.
use dma.Base.{ℕ, suc, ◌+◌, ◌*◌, ◌^◌, ◌<◌, ◌≤◌, ◌≡◌, ap, ◌∙◌, arith}
use dma.Base.{not, ltb, ◌==◌, if◌then◌else◌}
use dma.Base.{some, List, ◌∷◌, ◌++◌}
use dma.Dma.Arith.{hyper_geu, hyper_equ}
use dma.Dma.Arith.Compare.{TruthTables, truth_table, compare_up, geu, equ}
use dma.Dma.Arith.Compare.Program.{program, compare_up_lem, Emits, length-behind}
use dma.Dma.Arith.Compare.Run.{selector_at, run-answer}
use dma.Dma.Arith.Compare.Setting.{Apart, ending}
use dma.Dma.Arith.Lookup.{Operands, carry_at}
use dma.Dma.Arith.Number.{sub_digit, borrow_at-lt}
use dma.Dma.Arith.Setting.{Places}
use dma.Dma.Arith.Sum.{placed, Filled, at}
use dma.Dma.Bus.{Busad}
use dma.Dma.Cblk.{Memory}
use dma.Dma.Emit.{EmitCtx}
use dma.Dma.Emit.Laid.{place, with_blocks}
use dma.Dma.Engine.{Engine, run}
use dma.Dma.Tables.{Table, Initializer, run_initializers}
use dma.Dma.Tables.Equal.{equ-selected}
use dma.Dma.Tables.Truth.{Truth, selected, selected-same, geu-selected, borrow_lem}
use dma.Dma.Arith.Compare.Answer.{Answers, verdict, geu_verdict, geu-answer, equ-answer}

-- There is room, nothing that matters overlaps, and the operands are bytes.
abbrev pub Prepared : ℕ → Places → EmitCtx → Type 0
Prepared truth p ctx =
    Emits p.hyper p.selector p.width truth ctx × (Apart truth p × Operands p ctx.mem)

abbrev pub finished : ℕ → Places → EmitCtx → EmitCtx
finished truth p ctx =
    with_blocks (program p.hyper p.selector p.width truth p.ret p.lhs p.rhs (place ctx)) ctx

abbrev pub result : Engine → ℕ → Places → EmitCtx → ℕ × Memory
result e truth p ctx = run e (suc (suc (suc p.width))) (place ctx, (finished truth p ctx).mem)

module _ (e : Engine) (t : TruthTables) (width : ℕ) (ret8 lhs rhs : Busad) (flags : ℕ)
    (ctx : EmitCtx) where
  -- Emission and run for any first selector, if the table in memory leads to byte `c`.
  compare-run :
      (selector c : ℕ) (g : Table)
      → Prepared (truth_table t flags) (placed t.hyper selector width ret8 lhs rhs ctx) ctx
      → ((x : ℕ) → x < 2 ^ 24 → ctx.mem (t.hyper + 0x40000000 + x) ≡ g x)
      → ((k : ℕ)
          → k ≤ width
          → selected g selector (λ j. ctx.mem (lhs + j)) (λ j. ctx.mem (rhs + j)) k < 256)
      → selected g selector (λ j. ctx.mem (lhs + j)) (λ j. ctx.mem (rhs + j)) width ≡ c
      → (compare_up t selector width ret8 lhs rhs flags ctx
          ≡ some (
            tt,
            finished (truth_table t flags) (placed t.hyper selector width ret8 lhs rhs ctx) ctx,
          ))
        × ((result e (truth_table t flags) (placed t.hyper selector width ret8 lhs rhs ctx) ctx).0
            ≡ place (
                finished
                  (truth_table t flags)
                  (placed t.hyper selector width ret8 lhs rhs ctx)
                  ctx))
        × ((result e (truth_table t flags) (placed t.hyper selector width ret8 lhs rhs ctx) ctx).1
              ret8
            ≡ ctx.mem (truth_table t flags + 0x40000000 + c))
  compare-run selector c g prepared same small last = (
    compare_up_lem t selector width ret8 lhs rhs flags ctx prepared.0,
    answered.0
        ∙ omega (
          arith,
          length-behind t.hyper selector width width (place ctx + 64)
              (ending (truth_table t flags) (placed t.hyper selector width ret8 lhs rhs ctx)),
        ),
    answered.1
        ∙ ap (λ x. ctx.mem (truth_table t flags + 0x40000000 + x))
            (in_memory width (omega arith) ∙ last),
  )
    where
      in_memory :
          (k : ℕ)
          → k ≤ width
          → selector_at (placed t.hyper selector width ret8 lhs rhs ctx) ctx.mem k
            ≡ selected g selector (λ j. ctx.mem (lhs + j)) (λ j. ctx.mem (rhs + j)) k
      in_memory k b =
          selected-same (λ x. ctx.mem (t.hyper + 0x40000000 + x)) g selector
            (λ j. ctx.mem (lhs + j)) (λ j. ctx.mem (rhs + j)) k same
            (λ j l. prepared.1.1 j (omega arith)) (λ j l. small j (omega arith))

      answered :
          ((result e (truth_table t flags) (placed t.hyper selector width ret8 lhs rhs ctx) ctx).0
            ≡ place ctx + 32 * width + 96)
          × ((result e (truth_table t flags) (placed t.hyper selector width ret8 lhs rhs ctx) ctx).1
                ret8
              ≡ ctx.mem (
                  truth_table t flags
                  + 0x40000000
                  + selector_at (placed t.hyper selector width ret8 lhs rhs ctx) ctx.mem width))
      answered =
          run-answer e (truth_table t flags) (placed t.hyper selector width ret8 lhs rhs ctx)
            ctx.mem prepared.1.0 prepared.1.1 (λ k b. omega (arith, in_memory k b, small k b))

-- Given room for the blocks, HYPER and the truth tables as `run_initializers` leaves them with a
-- list that includes the initializer of `Geu`, operands of bytes, program, tables and operands that
-- do not overlap, and a result outside the truth table that answers: `Geu` emits its control blocks
-- without a panic, and an engine that behaves as documented, started at the first of them, is behind
-- the last one after `width + 3` blocks, with the answer whether the left operand is at least the
-- right one in the result: 1 or, with ICF_X4, 4 for yes and 0 for no, and the opposite with ICF_INV,
-- but with ICF_X4 alone, where 4 is meant for yes, it is 1.
pub geu-run :
    (e : Engine) (t : TruthTables) (width : ℕ) (ret8 lhs rhs : Busad) (flags : ℕ) (ctx : EmitCtx)
    (before after : List Initializer) (hyper : Table) (truth : Truth)
    → Prepared (truth_table t flags) (placed t.hyper hyper_geu width ret8 lhs rhs ctx) ctx
    → Filled t.hyper (before ++ (Initializer.geu ∷ after)) hyper ctx.mem
    → Answers t (before ++ (Initializer.geu ∷ after)) truth ctx.mem
    → (geu t width ret8 lhs rhs flags ctx
        ≡ some (
          tt,
          finished (truth_table t flags) (placed t.hyper hyper_geu width ret8 lhs rhs ctx) ctx,
        ))
      × ((result e (truth_table t flags) (placed t.hyper hyper_geu width ret8 lhs rhs ctx) ctx).0
          ≡ place (
              finished (truth_table t flags) (placed t.hyper hyper_geu width ret8 lhs rhs ctx) ctx))
      × ((result e (truth_table t flags) (placed t.hyper hyper_geu width ret8 lhs rhs ctx) ctx).1
            ret8
          ≡ geu_verdict flags (not (ltb (at width ctx.mem lhs) (at width ctx.mem rhs))))
geu-run e t width ret8 lhs rhs flags ctx before after hyper truth prepared filled answers =
    let ran =
      compare-run e t width ret8 lhs rhs flags ctx hyper_geu
        (44 + (if ltb (at width ctx.mem lhs) (at width ctx.mem rhs) then 1 else 0))
        (run_initializers (before ++ (Initializer.geu ∷ after)) hyper) prepared filled
        (λ k b.
          omega
            (arith, chosen k b, borrow_at-lt (λ j. ctx.mem (lhs + j)) (λ j. ctx.mem (rhs + j)) k))
        (chosen width (omega arith)
          ∙ ap (λ b. 44 + b)
              (borrow_lem before after hyper (λ j. ctx.mem (lhs + j)) (λ j. ctx.mem (rhs + j)) width
                prepared.1.1)) in
    (
      ran.0,
      ran.1,
      ran.2
          ∙ geu-answer t flags before after truth ctx.mem
              (ltb (at width ctx.mem lhs) (at width ctx.mem rhs)) answers,
    )
  where
    chosen :
        (k : ℕ)
        → k ≤ width
        → selected
            (run_initializers (before ++ (Initializer.geu ∷ after)) hyper)
            hyper_geu
            (λ j. ctx.mem (lhs + j))
            (λ j. ctx.mem (rhs + j))
            k
          ≡ 44 + carry_at sub_digit (λ j. ctx.mem (lhs + j)) (λ j. ctx.mem (rhs + j)) k
    chosen k b =
        geu-selected before after hyper (λ j. ctx.mem (lhs + j)) (λ j. ctx.mem (rhs + j)) k
          (λ j l. prepared.1.1 j (omega arith))

-- Under the same conditions, with the initializer of `Equ` in the list: `Equ` emits its control
-- blocks without a panic, and the engine is behind the last one after `width + 3` blocks, with the
-- answer whether the operands are equal in the result: 1 or, with ICF_X4, 4 for yes and 0 for no,
-- and the opposite with ICF_INV.
pub equ-run :
    (e : Engine) (t : TruthTables) (width : ℕ) (ret8 lhs rhs : Busad) (flags : ℕ) (ctx : EmitCtx)
    (before after : List Initializer) (hyper : Table) (truth : Truth)
    → Prepared (truth_table t flags) (placed t.hyper (hyper_equ + 1) width ret8 lhs rhs ctx) ctx
    → Filled t.hyper (before ++ (Initializer.equ ∷ after)) hyper ctx.mem
    → Answers t (before ++ (Initializer.equ ∷ after)) truth ctx.mem
    → (equ t width ret8 lhs rhs flags ctx
        ≡ some (
          tt,
          finished
              (truth_table t flags)
              (placed t.hyper (hyper_equ + 1) width ret8 lhs rhs ctx)
              ctx,
        ))
      × ((result e
            (truth_table t flags)
            (placed t.hyper (hyper_equ + 1) width ret8 lhs rhs ctx)
            ctx).0
          ≡ place (
              finished
                (truth_table t flags)
                (placed t.hyper (hyper_equ + 1) width ret8 lhs rhs ctx)
                ctx))
      × ((result e
              (truth_table t flags)
              (placed t.hyper (hyper_equ + 1) width ret8 lhs rhs ctx)
              ctx).1
            ret8
          ≡ verdict flags (at width ctx.mem lhs == at width ctx.mem rhs))
equ-run e t width ret8 lhs rhs flags ctx before after hyper truth prepared filled answers =
    let ran =
      compare-run e t width ret8 lhs rhs flags ctx (hyper_equ + 1)
        (46 + (if at width ctx.mem lhs == at width ctx.mem rhs then 1 else 0))
        (run_initializers (before ++ (Initializer.equ ∷ after)) hyper) prepared filled
        (λ k b. ground (arith, chosen k b)) (chosen width (omega arith)) in
    (
      ran.0,
      ran.1,
      ran.2
          ∙ equ-answer t flags before after truth ctx.mem
              (at width ctx.mem lhs == at width ctx.mem rhs) answers,
    )
  where
    chosen :
        (k : ℕ)
        → k ≤ width
        → selected
            (run_initializers (before ++ (Initializer.equ ∷ after)) hyper)
            (hyper_equ + 1)
            (λ j. ctx.mem (lhs + j))
            (λ j. ctx.mem (rhs + j))
            k
          ≡ 46 + (if at k ctx.mem lhs == at k ctx.mem rhs then 1 else 0)
    chosen k b =
        equ-selected before after hyper (λ j. ctx.mem (lhs + j)) (λ j. ctx.mem (rhs + j)) k
          (λ j l. prepared.1.1 j (omega arith))
