-- ===== src/Dma/Arith/Sum.antt =====
-- `Add` and `Sub` from the emission to the result in memory.
use dma.Base.{ℕ, ◌+◌, ◌-◌, ◌*◌, ◌%◌, ◌^◌, ◌<◌, ◌≡◌, ap, ◌∙◌, arith, some}
use dma.Base.{List, ◌∷◌, ◌++◌}
use dma.Dma.Arith.{add, sub}
use dma.Dma.Arith.Lookup.{Operands, TableHolds, Digit, digit, Elsewhere, lhs_byte, rhs_byte}
use dma.Dma.Arith.Number.{number, add_digit, sub_digit, number-same, number-sum, number-difference}
use dma.Dma.Arith.Emitted.{with_carry_lem}
use dma.Dma.Arith.Program.{Emits, program, length-program}
use dma.Dma.Arith.Run.{Done, run-Done}
use dma.Dma.Arith.Setting.{Places, Apart}
use dma.Dma.Bus.{Busad}
use dma.Dma.Cblk.{Memory}
use dma.Dma.Emit.{EmitCtx}
use dma.Dma.Emit.Laid.{place, with_blocks}
use dma.Dma.Engine.{Engine, run}
use dma.Dma.Tables.{Table, Initializer, run_initializers}
use dma.Dma.Tables.Order.{run_initializers-value}

-- The program stands where the context points, the other places as given.
abbrev pub placed : ℕ → ℕ → ℕ → Busad → Busad → Busad → EmitCtx → Places
placed hyper selector width ret lhs rhs ctx = record {
  hyper = hyper;
  selector = selector;
  width = width;
  ret = ret;
  lhs = lhs;
  rhs = rhs;
  a = place ctx;
}

-- There is room, nothing that matters overlaps, and the operands are bytes.
abbrev pub Prepared : Places → EmitCtx → Type 0
Prepared p ctx = Emits p.hyper p.selector p.width p.ret ctx × (Apart p × Operands p ctx.mem)

-- HYPER is as the initializers leave it.
abbrev pub Filled : ℕ → List Initializer → Table → Memory → Type 0
Filled hyper order t m =
    (i : ℕ) → i < 2 ^ 24 → m (hyper + 0x40000000 + i) ≡ run_initializers order t i

-- The number of `width` bytes at an address.
abbrev pub at : ℕ → Memory → Busad → ℕ
at width m x = number width (λ k. m (x + k))

-- The context after the emission, and the engine's state after the program.
abbrev pub finished : Places → EmitCtx → EmitCtx
finished p ctx = with_blocks (program p.hyper p.selector p.width p.ret p.lhs p.rhs (place ctx)) ctx

abbrev pub result : Engine → Places → EmitCtx → ℕ × Memory
result e p ctx = run e (2 * p.width + 1) (place ctx, (finished p ctx).mem)

module _ (e : Engine) (hyper width : ℕ) (ret lhs rhs : Busad) (ctx : EmitCtx) where
  add_digit-Filled :
      (before after : List Initializer) (t : Table)
      → Filled hyper (before ++ (Initializer.add ∷ after)) t ctx.mem
      → TableHolds add_digit (placed hyper 4 width ret lhs rhs ctx) ctx.mem
  add_digit-Filled before after t f l r c h = (
    ap ctx.mem {y = hyper + 0x40000000 + (l * 65536 + r * 256 + 4 + 2 * c)} (omega arith)
        ∙ f (l * 65536 + r * 256 + 4 + 2 * c) (omega arith)
        ∙ run_initializers-value before Initializer.add after t l r (2 * c) (h.0, h.1, omega arith)
        ∙ ground arith,
    ap ctx.mem {y = hyper + 0x40000000 + (l * 65536 + r * 256 + 4 + (2 * c + 1))} (omega arith)
        ∙ f (l * 65536 + r * 256 + 4 + (2 * c + 1)) (omega arith)
        ∙ run_initializers-value before Initializer.add after t l r (2 * c + 1)
            (h.0, h.1, omega arith)
        ∙ ground arith,
    omega arith,
  )

  sub_digit-Filled :
      (before after : List Initializer) (t : Table)
      → Filled hyper (before ++ (Initializer.sub ∷ after)) t ctx.mem
      → TableHolds sub_digit (placed hyper 8 width ret lhs rhs ctx) ctx.mem
  sub_digit-Filled before after t f l r c h = (
    ap ctx.mem {y = hyper + 0x40000000 + (l * 65536 + r * 256 + 8 + 2 * c)} (omega arith)
        ∙ f (l * 65536 + r * 256 + 8 + 2 * c) (omega arith)
        ∙ run_initializers-value before Initializer.sub after t l r (2 * c) (h.0, h.1, omega arith)
        ∙ ground arith,
    ap ctx.mem {y = hyper + 0x40000000 + (l * 65536 + r * 256 + 8 + (2 * c + 1))} (omega arith)
        ∙ f (l * 65536 + r * 256 + 8 + (2 * c + 1)) (omega arith)
        ∙ run_initializers-value before Initializer.sub after t l r (2 * c + 1)
            (h.0, h.1, omega arith)
        ∙ ground arith,
    ground arith,
  )

  -- Whatever the table means, the run ends behind the program with the digits in the result.
  done :
      (d : Digit) (selector : ℕ)
      → Prepared (placed hyper selector width ret lhs rhs ctx) ctx
      → TableHolds d (placed hyper selector width ret lhs rhs ctx) ctx.mem
      → Done d
          (placed hyper selector width ret lhs rhs ctx)
          ctx.mem
          width
          (result e (placed hyper selector width ret lhs rhs ctx) ctx)
  done d selector p t =
      run-Done e d (placed hyper selector width ret lhs rhs ctx) ctx.mem p.1.0 p.1.1 t width
        (omega arith) (omega arith)

-- Given room for the blocks, HYPER filled by initializers that include that of `Add`'s table, and
-- program, tables, operands and result that do not overlap (the operands may be the result),
-- `Add` emits its control blocks without a panic, and an engine that behaves as documented, started
-- at the first of them, is behind the last one after `2 * width + 1` blocks and has put the sum of the two operands
-- of `width` bytes, modulo `256 ^ width`, into the result.
pub add-run :
    (e : Engine) (hyper width : ℕ) (ret lhs rhs : Busad) (ctx : EmitCtx)
    (before after : List Initializer) (t : Table)
    → Prepared (placed hyper 4 width ret lhs rhs ctx) ctx
    → Filled hyper (before ++ (Initializer.add ∷ after)) t ctx.mem
    → (add hyper width ret lhs rhs ctx
        ≡ some (tt, finished (placed hyper 4 width ret lhs rhs ctx) ctx))
      × ((result e (placed hyper 4 width ret lhs rhs ctx) ctx).0
          ≡ place (finished (placed hyper 4 width ret lhs rhs ctx) ctx))
      × (at width (result e (placed hyper 4 width ret lhs rhs ctx) ctx).1 ret
          ≡ (at width ctx.mem lhs + at width ctx.mem rhs) % 256 ^ width)
add-run e hyper width ret lhs rhs ctx before after t prepared filled = (
  with_carry_lem hyper 4 width ret lhs rhs ctx prepared.0,
  final.0 ∙ omega (arith, length-program hyper 4 width ret lhs rhs (place ctx) (omega arith)),
  number-same width (λ k. (result e (placed hyper 4 width ret lhs rhs ctx) ctx).1 (ret + k))
        (digit add_digit (placed hyper 4 width ret lhs rhs ctx) ctx.mem) final.2
      ∙ number-sum width (lhs_byte (placed hyper 4 width ret lhs rhs ctx) ctx.mem)
          (rhs_byte (placed hyper 4 width ret lhs rhs ctx) ctx.mem),
)
  where
    final :
        Done add_digit
          (placed hyper 4 width ret lhs rhs ctx)
          ctx.mem
          width
          (result e (placed hyper 4 width ret lhs rhs ctx) ctx)
    final =
        done e hyper width ret lhs rhs ctx add_digit 4 prepared
          (add_digit-Filled e hyper width ret lhs rhs ctx before after t filled)

-- Given room for the blocks, HYPER filled by initializers that include that of `Sub`'s table, and
-- program, tables, operands and result that do not overlap (the operands may be the result),
-- `Sub` emits its control blocks without a panic, and an engine that behaves as documented, started
-- at the first of them, is behind the last one after `2 * width + 1` blocks and has put the difference of the two operands
-- of `width` bytes, modulo `256 ^ width`, into the result.
pub sub-run :
    (e : Engine) (hyper width : ℕ) (ret lhs rhs : Busad) (ctx : EmitCtx)
    (before after : List Initializer) (t : Table)
    → Prepared (placed hyper 8 width ret lhs rhs ctx) ctx
    → Filled hyper (before ++ (Initializer.sub ∷ after)) t ctx.mem
    → (sub hyper width ret lhs rhs ctx
        ≡ some (tt, finished (placed hyper 8 width ret lhs rhs ctx) ctx))
      × ((result e (placed hyper 8 width ret lhs rhs ctx) ctx).0
          ≡ place (finished (placed hyper 8 width ret lhs rhs ctx) ctx))
      × (at width (result e (placed hyper 8 width ret lhs rhs ctx) ctx).1 ret
          ≡ (at width ctx.mem lhs + 256 ^ width - at width ctx.mem rhs) % 256 ^ width)
sub-run e hyper width ret lhs rhs ctx before after t prepared filled = (
  with_carry_lem hyper 8 width ret lhs rhs ctx prepared.0,
  final.0 ∙ omega (arith, length-program hyper 8 width ret lhs rhs (place ctx) (omega arith)),
  number-same width (λ k. (result e (placed hyper 8 width ret lhs rhs ctx) ctx).1 (ret + k))
        (digit sub_digit (placed hyper 8 width ret lhs rhs ctx) ctx.mem) final.2
      ∙ number-difference width (lhs_byte (placed hyper 8 width ret lhs rhs ctx) ctx.mem)
          (rhs_byte (placed hyper 8 width ret lhs rhs ctx) ctx.mem) prepared.1.1,
)
  where
    final :
        Done sub_digit
          (placed hyper 8 width ret lhs rhs ctx)
          ctx.mem
          width
          (result e (placed hyper 8 width ret lhs rhs ctx) ctx)
    final =
        done e hyper width ret lhs rhs ctx sub_digit 8 prepared
          (sub_digit-Filled e hyper width ret lhs rhs ctx before after t filled)

-- Under the same conditions, the run of `Add` changes no byte outside the program's blocks, the 96
-- bytes behind them and the
-- result (two bytes even if `width` is 1).
pub add-Elsewhere :
    (e : Engine) (hyper width : ℕ) (ret lhs rhs : Busad) (ctx : EmitCtx)
    (before after : List Initializer) (t : Table) (x : ℕ)
    → Prepared (placed hyper 4 width ret lhs rhs ctx) ctx
    → Filled hyper (before ++ (Initializer.add ∷ after)) t ctx.mem
    → Elsewhere (placed hyper 4 width ret lhs rhs ctx) x
    → (result e (placed hyper 4 width ret lhs rhs ctx) ctx).1 x ≡ ctx.mem x
add-Elsewhere e hyper width ret lhs rhs ctx before after t x prepared filled w =
    (done e hyper width ret lhs rhs ctx add_digit 4 prepared
        (add_digit-Filled e hyper width ret lhs rhs ctx before after t filled)).4
      x w
