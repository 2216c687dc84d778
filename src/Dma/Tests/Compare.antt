-- ===== src/Dma/Tests/Compare.antt =====
-- `Geu` and `Equ` on operands of three bytes.
use dma.Base.{ℕ, ◌+◌, ◌-◌, ◌%◌, ◌<◌, ◌≡◌, refl, ap, arith, List, [], ◌∷◌, some}
use dma.Base.{◌&&◌, ◌==◌, ltb, leb, not, if◌then◌else◌, inl, inr}
use dma.Dma.Arith.{hyper_geu, hyper_equ}
use dma.Dma.Arith.Compare.{TruthTables, truth_table, geu, equ}
use dma.Dma.Arith.Compare.Result
use dma.Dma.Arith.Compare.Answer.{Answers, verdict, geu_verdict}
use dma.Dma.Arith.Compare.Result.{Prepared, geu-run, equ-run}
use dma.Dma.Arith.Sum.{placed, Filled, at}
use dma.Dma.Cblk.{Memory}
use dma.Dma.Emit.{EmitCtx}
use dma.Dma.Emit.Laid.{place}
use dma.Dma.Tables.{Initializer, run_initializers}
use dma.Dma.Tables.Truth.{Truth, run_truths}
use dma.Dma.Tests.{engine, zeros, hyper_place}

abbrev blank : Truth
blank = record { polar_x1 = zeros; antipolar_x1 = zeros; polar_x4 = zeros; antipolar_x4 = zeros }

abbrev order : List Initializer
order = Initializer.ges ∷ Initializer.equ ∷ Initializer.geu ∷ []

abbrev tables : TruthTables
tables = record {
  hyper = hyper_place;
  polar_x1 = 0x50000;
  antipolar_x1 = 0x50100;
  polar_x4 = 0x50200;
  antipolar_x4 = 0x50300;
}

abbrev memory : Memory
memory x =
    if leb 0x41000000 x && ltb x 0x42000000
    then run_initializers order zeros (x - 0x41000000)
    else if leb 0x40050000 x && ltb x 0x40050100
    then (run_truths order blank).polar_x1 (x - 0x40050000)
    else if leb 0x40050100 x && ltb x 0x40050200
    then (run_truths order blank).antipolar_x1 (x - 0x40050100)
    else if leb 0x40050200 x && ltb x 0x40050300
    then (run_truths order blank).polar_x4 (x - 0x40050200)
    else if leb 0x40050300 x && ltb x 0x40050400
    then (run_truths order blank).antipolar_x4 (x - 0x40050300)
    else x % 256

abbrev context : EmitCtx
context = record { base = 0x1000; p = 0x1000; cap = 100; mem = memory }

memory-Filled : Filled hyper_place order zeros memory
memory-Filled i h = ground (
  arith,
  ap (run_initializers order zeros) {x = 0x41000000 + i - 0x41000000} {y = i} (omega arith),
)

memory-Answers : Answers tables order blank memory
memory-Answers i h = (
  ground (
    arith,
    ap (run_truths order blank).polar_x1 {x = 0x40050000 + i - 0x40050000} {y = i} (omega arith),
  ),
  ground (
    arith,
    ap (run_truths order blank).antipolar_x1 {x = 0x40050100 + i - 0x40050100} {y = i}
        (omega arith),
  ),
  ground (
    arith,
    ap (run_truths order blank).polar_x4 {x = 0x40050200 + i - 0x40050200} {y = i} (omega arith),
  ),
  ground (
    arith,
    ap (run_truths order blank).antipolar_x4 {x = 0x40050300 + i - 0x40050300} {y = i}
        (omega arith),
  ),
)

-- With the flags clear, POLAR_TRUTH_X1 answers.
compared-Prepared :
    (selector : ℕ)
    → selector < 248
    → Prepared 0x50000
        (placed hyper_place selector 3 0x40030000 0x40010000 0x40020000 context)
        context
compared-Prepared selector h = (
  (
    (refl, omega arith, omega arith, omega arith),
    (omega arith, omega arith),
    (omega arith, omega arith, omega arith),
  ),
  (
    (
      (omega arith, omega arith),
      (inr (omega arith), inr (omega arith)),
      (inr (omega arith), inr (omega arith)),
      inl (omega arith),
      (refl, omega arith),
      (omega arith, omega arith),
      (refl, omega arith),
      (omega arith, omega arith, omega arith),
    ),
    λ k b. (ground arith, ground arith),
  ),
)

geu-run_example :
    (geu tables 3 0x40030000 0x40010000 0x40020000 0 context
      ≡ some (
        tt,
        Result.finished 0x50000
            (placed hyper_place hyper_geu 3 0x40030000 0x40010000 0x40020000 context)
            context,
      ))
    × ((Result.result engine 0x50000
          (placed hyper_place hyper_geu 3 0x40030000 0x40010000 0x40020000 context)
          context).0
        ≡ place (
            Result.finished 0x50000
              (placed hyper_place hyper_geu 3 0x40030000 0x40010000 0x40020000 context)
              context))
    × ((Result.result engine 0x50000
            (placed hyper_place hyper_geu 3 0x40030000 0x40010000 0x40020000 context)
            context).1
          0x40030000
        ≡ geu_verdict 0 (not (ltb (at 3 memory 0x40010000) (at 3 memory 0x40020000))))
unfolding truth_table
geu-run_example =
    geu-run engine tables 3 0x40030000 0x40010000 0x40020000 0 context
      (Initializer.ges ∷ Initializer.equ ∷ []) [] zeros blank (compared-Prepared 44 (omega arith))
      memory-Filled memory-Answers

equ-run_example :
    (equ tables 3 0x40030000 0x40010000 0x40020000 0 context
      ≡ some (
        tt,
        Result.finished 0x50000
            (placed hyper_place (hyper_equ + 1) 3 0x40030000 0x40010000 0x40020000 context)
            context,
      ))
    × ((Result.result engine 0x50000
          (placed hyper_place (hyper_equ + 1) 3 0x40030000 0x40010000 0x40020000 context)
          context).0
        ≡ place (
            Result.finished 0x50000
              (placed hyper_place (hyper_equ + 1) 3 0x40030000 0x40010000 0x40020000 context)
              context))
    × ((Result.result engine 0x50000
            (placed hyper_place (hyper_equ + 1) 3 0x40030000 0x40010000 0x40020000 context)
            context).1
          0x40030000
        ≡ verdict 0 (at 3 memory 0x40010000 == at 3 memory 0x40020000))
unfolding truth_table
equ-run_example =
    equ-run engine tables 3 0x40030000 0x40010000 0x40020000 0 context (Initializer.ges ∷ [])
      (Initializer.geu ∷ []) zeros blank (compared-Prepared 47 (omega arith)) memory-Filled
      memory-Answers
