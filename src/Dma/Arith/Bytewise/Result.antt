-- ===== src/Dma/Arith/Bytewise/Result.antt =====
-- `And`, `Or` and `Xor` from the emission to the result in memory.
use dma.Base.{ℕ, suc, ◌+◌, ◌*◌, ◌<◌, ◌≡◌, ap, ◌∙◌, arith}
use dma.Base.{some, bit_and, bit_or, bit_xor, List, ◌∷◌, ◌++◌}
use dma.Dma.Arith.Bitwise.{and, or, xor}
use dma.Dma.Arith.Bytewise.{program, bytewise_lem, Emits, length-lookups}
use dma.Dma.Arith.Bytewise.Run.{Done, TableHolds, run-Done}
use dma.Dma.Arith.Bytewise.Setting.{Apart}
use dma.Dma.Arith.Lookup.{Operands}
use dma.Dma.Arith.Setting.{Places}
use dma.Dma.Arith.Sum.{placed, Filled}
use dma.Dma.Bus.{Busad}
use dma.Dma.Cblk.{Memory}
use dma.Dma.Emit.{EmitCtx, Emission}
use dma.Dma.Emit.Laid.{place, with_blocks}
use dma.Dma.Engine.{Engine, run}
use dma.Dma.Tables.{Table, Initializer, run_initializers}
use dma.Dma.Tables.Order.{run_initializers-value}

-- The three operations, their selectors, tables and meanings.
pub data Operation : Type 0 where
  and_op or_op xor_op : Operation

abbrev pub emission : Operation → ℕ → ℕ → Busad → Busad → Busad → Emission (Unit {0})
emission and_op = and
emission or_op = or
emission xor_op = xor

abbrev pub selector_of : Operation → ℕ
selector_of and_op = 12
selector_of or_op = 13
selector_of xor_op = 14

abbrev pub table_of : Operation → Initializer
table_of and_op = Initializer.and
table_of or_op = Initializer.or
table_of xor_op = Initializer.xor

abbrev pub meaning : Operation → ℕ → ℕ → ℕ
meaning and_op = bit_and
meaning or_op = bit_or
meaning xor_op = bit_xor

-- There is room, nothing that matters overlaps, and the operands are bytes.
abbrev pub Prepared : Places → EmitCtx → Type 0
Prepared p ctx = Emits p.hyper p.selector p.width p.ret ctx × (Apart p × Operands p ctx.mem)

abbrev pub finished : Places → EmitCtx → EmitCtx
finished p ctx = with_blocks (program p.hyper p.selector p.width p.ret p.lhs p.rhs (place ctx)) ctx

abbrev pub result : Engine → Places → EmitCtx → ℕ × Memory
result e p ctx = run e (suc (suc p.width)) (place ctx, (finished p ctx).mem)

module _ (hyper width : ℕ) (ret lhs rhs : Busad) (ctx : EmitCtx) where
  Filled-TableHolds :
      (b : Operation) (before after : List Initializer) (t : Table)
      → Filled hyper (before ++ (table_of b ∷ after)) t ctx.mem
      → TableHolds (meaning b) (placed hyper (selector_of b) width ret lhs rhs ctx) ctx.mem
  Filled-TableHolds and_op before after t f i j h =
      f (i * 65536 + j * 256 + 12) (omega arith)
      ∙ ap (run_initializers (before ++ (Initializer.and ∷ after)) t)
          {y = i * 65536 + j * 256 + 12 + 0} (omega arith)
      ∙ run_initializers-value before Initializer.and after t i j 0 (h.0, h.1, omega arith)
  Filled-TableHolds or_op before after t f i j h =
      f (i * 65536 + j * 256 + 13) (omega arith)
      ∙ ap (run_initializers (before ++ (Initializer.or ∷ after)) t)
          {y = i * 65536 + j * 256 + 13 + 0} (omega arith)
      ∙ run_initializers-value before Initializer.or after t i j 0 (h.0, h.1, omega arith)
  Filled-TableHolds xor_op before after t f i j h =
      f (i * 65536 + j * 256 + 14) (omega arith)
      ∙ ap (run_initializers (before ++ (Initializer.xor ∷ after)) t)
          {y = i * 65536 + j * 256 + 14 + 0} (omega arith)
      ∙ run_initializers-value before Initializer.xor after t i j 0 (h.0, h.1, omega arith)

  emission_lem :
      (b : Operation)
      → Prepared (placed hyper (selector_of b) width ret lhs rhs ctx) ctx
      → emission b hyper width ret lhs rhs ctx
        ≡ some (tt, finished (placed hyper (selector_of b) width ret lhs rhs ctx) ctx)
  emission_lem and_op h = bytewise_lem hyper 12 width ret lhs rhs ctx h.0
  emission_lem or_op h = bytewise_lem hyper 13 width ret lhs rhs ctx h.0
  emission_lem xor_op h = bytewise_lem hyper 14 width ret lhs rhs ctx h.0

-- Given room for the blocks, HYPER filled by initializers that include that of the operation's
-- table, and program, tables, operands and result that do not overlap (the operands may be the
-- result): `And`, `Or` and `Xor` emit their control blocks without a panic, and an engine that
-- behaves as documented, started at the first of them, is behind the last one after `width + 2`
-- blocks, with the operation on the operands' `k`th bytes in the `k`th byte of the result.
pub emission-run :
    (e : Engine) (b : Operation) (hyper width : ℕ) (ret lhs rhs : Busad) (ctx : EmitCtx)
    (before after : List Initializer) (t : Table) (k : ℕ)
    → Prepared (placed hyper (selector_of b) width ret lhs rhs ctx) ctx
    → Filled hyper (before ++ (table_of b ∷ after)) t ctx.mem
    → k < width
    → (emission b hyper width ret lhs rhs ctx
        ≡ some (tt, finished (placed hyper (selector_of b) width ret lhs rhs ctx) ctx))
      × ((result e (placed hyper (selector_of b) width ret lhs rhs ctx) ctx).0
          ≡ place (finished (placed hyper (selector_of b) width ret lhs rhs ctx) ctx))
      × ((result e (placed hyper (selector_of b) width ret lhs rhs ctx) ctx).1 (ret + k)
          ≡ meaning b (ctx.mem (rhs + k)) (ctx.mem (lhs + k)))
emission-run e b hyper width ret lhs rhs ctx before after t k prepared filled below = (
  emission_lem hyper width ret lhs rhs ctx b prepared,
  final.0 ∙ omega (arith, length-lookups hyper (selector_of b) width ret width 0 (place ctx + 64)),
  final.2 k below,
)
  where
    final :
        Done
          (meaning b)
          (placed hyper (selector_of b) width ret lhs rhs ctx)
          ctx.mem
          width
          (result e (placed hyper (selector_of b) width ret lhs rhs ctx) ctx)
    final =
        run-Done e (meaning b) (placed hyper (selector_of b) width ret lhs rhs ctx) ctx.mem
          prepared.1.0 prepared.1.1
          (Filled-TableHolds hyper width ret lhs rhs ctx b before after t filled) width
          (omega arith)
