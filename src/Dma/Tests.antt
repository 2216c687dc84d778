-- ===== src/Dma/Tests.antt =====
-- The theorems on the DMA programs at concrete inputs, with an engine that copies byte by byte.
mod Kit
mod Start
mod Compare
use dma.Base.{
  ℕ, ◌+◌, ◌-◌, ◌*◌, ◌/◌, ◌%◌, ◌^◌, ◌<◌, ◌≤◌, ◌≡◌, refl, ap, ap₂, arith, List, [], ◌∷◌, some,
}
use dma.Base.{◌&&◌, ◌==◌, ltb, leb, if◌then◌else◌, inl, inr, ◌⊎◌}
use dma.Base.{none, u32}
use dma.Dma.Arena.{Arena, arena_alloc, mk_arena}
use dma.Dma.Arena.Fresh.{up, arena_alloc-fits, arena_alloc-mk_arena}
use dma.Dma.Arith.Bytewise.Result
use dma.Dma.Arith.Bytewise.Result.{emission, xor_op, emission-run}
use dma.Base.{bit_xor}
use dma.Base.{u64, true, false}
use dma.Dma.{
  Reservations, reserve, dmakit_channel_acquire, dmakit_channel_release, free_channel,
  dmakit_channel_is_lite,
}
use dma.Dma.Release.{dmakit_channel_release-acquire}
use dma.Dma.Timing.{RunInfo, whole_mhz, dma_run_info_get_time_ns}
use dma.Dma.Emit.{skip_to_align}
use dma.Dma.Emit.Align.{aligned, skip_to_align_lem}
use dma.Dma.Cblk.{store, word_bytes}
use dma.Dma.Bus.{Busad, arm_to_bus, bus_to_arm, arm_peri_end, bus_to_arm-arm_to_bus}
use dma.Dma.Tables.Order.{run_initializers-value}
use dma.Dma.Arith.{add, sub}
use dma.Dma.Arith.Sum.{
  placed, Prepared, Filled, at, finished, result, add-run, sub-run, add-Elsewhere,
}
use dma.Dma.Cblk.{Cblk, Memory}
use dma.Dma.Emit.{EmitCtx}
use dma.Dma.Emit.Laid.{place}
use dma.Dma.Engine.{Engine}
use dma.Dma.Tables.{Table, Initializer, run_initializers}

abbrev copy : ℕ → ℕ → ℕ → Memory → Memory
copy dst src len m x = if leb dst x && ltb x (dst + len) then m (src + (x - dst)) else m x

abbrev spread : ℕ → ℕ → ℕ → ℕ → Memory → Memory
spread dst src rows step m x =
    if leb dst x && (ltb x (dst + rows * (step + 1)) && ((x - dst) % (step + 1) == 0))
    then m (src + (x - dst) / (step + 1))
    else m x

abbrev copying : Cblk → Memory → Memory
copying c m x =
    if c.ti == 0x110
    then copy c.dst_addr c.src_addr c.txfr_len m x
    else spread c.dst_addr c.src_addr (c.txfr_len / 2 ^ 16 + 1) (c.stride_word / 2 ^ 16) m x

abbrev pub engine : Engine
engine = record {
  transfer = copying;
  transfer-linear = λ a dst src len m x small apart. refl;
  transfer-scatter = λ a dst src rows step m x small apart.
      ap₂ (λ r s. spread dst src r s m x) {x = ((rows - 1) * 2 ^ 16 + 1) / 2 ^ 16 + 1} {y = rows}
        {u = step * 2 ^ 16 / 2 ^ 16} {v = step} (omega arith) (omega arith);
}

abbrev pub zeros : Table
zeros i = 0

abbrev pub hyper_place : ℕ
hyper_place = 0x1000000

abbrev memory : List Initializer → Memory
memory order x =
    if leb 0x41000000 x && ltb x 0x42000000
    then run_initializers order zeros (x - 0x41000000)
    else x % 256

abbrev context : List Initializer → EmitCtx
context order = record { base = 0x1000; p = 0x1000; cap = 100; mem = memory order }

abbrev add_order : List Initializer
add_order = Initializer.sub ∷ Initializer.add ∷ Initializer.and ∷ []

abbrev sub_order : List Initializer
sub_order = Initializer.add ∷ Initializer.sub ∷ []

memory-Filled : (order : List Initializer) → Filled hyper_place order zeros (memory order)
memory-Filled order i h = ground (
  arith,
  ap (run_initializers order zeros) {x = 0x41000000 + i - 0x41000000} {y = i} (omega arith),
)

placed-Prepared :
    (selector : ℕ) (order : List Initializer)
    → selector < 248
    → Prepared
        (placed hyper_place selector 4 0x40030000 0x40010000 0x40020000 (context order))
        (context order)
placed-Prepared selector order h = (
  (
    (refl, omega arith, omega arith, omega arith),
    (omega arith, omega arith),
    omega arith,
    (omega arith, omega arith),
  ),
  (
    (
      (omega arith, omega arith),
      (inr (omega arith), inr (omega arith)),
      (inr (omega arith), inr (omega arith)),
      inl (omega arith),
      (refl, h),
      (omega arith, omega arith),
      (omega arith, omega arith, omega arith),
    ),
    λ k b. (ground arith, ground arith),
  ),
)

add-run_example :
    (add hyper_place 4 0x40030000 0x40010000 0x40020000 (context add_order)
      ≡ some (
        tt,
        finished
            (placed hyper_place 4 4 0x40030000 0x40010000 0x40020000 (context add_order))
            (context add_order),
      ))
    × ((result engine
          (placed hyper_place 4 4 0x40030000 0x40010000 0x40020000 (context add_order))
          (context add_order)).0
        ≡ place (
            finished
              (placed hyper_place 4 4 0x40030000 0x40010000 0x40020000 (context add_order))
              (context add_order)))
    × (at 4
          (result engine
            (placed hyper_place 4 4 0x40030000 0x40010000 0x40020000 (context add_order))
            (context add_order)).1
          0x40030000
        ≡ (at 4 (memory add_order) 0x40010000 + at 4 (memory add_order) 0x40020000) % 256 ^ 4)
add-run_example =
    add-run engine hyper_place 4 0x40030000 0x40010000 0x40020000 (context add_order)
      (Initializer.sub ∷ []) (Initializer.and ∷ []) zeros
      (placed-Prepared 4 add_order (omega arith)) (memory-Filled add_order)

sub-run_example :
    (sub hyper_place 4 0x40030000 0x40010000 0x40020000 (context sub_order)
      ≡ some (
        tt,
        finished
            (placed hyper_place 8 4 0x40030000 0x40010000 0x40020000 (context sub_order))
            (context sub_order),
      ))
    × ((result engine
          (placed hyper_place 8 4 0x40030000 0x40010000 0x40020000 (context sub_order))
          (context sub_order)).0
        ≡ place (
            finished
              (placed hyper_place 8 4 0x40030000 0x40010000 0x40020000 (context sub_order))
              (context sub_order)))
    × (at 4
          (result engine
            (placed hyper_place 8 4 0x40030000 0x40010000 0x40020000 (context sub_order))
            (context sub_order)).1
          0x40030000
        ≡ (at 4 (memory sub_order) 0x40010000 + 256 ^ 4 - at 4 (memory sub_order) 0x40020000)
          % 256 ^ 4)
sub-run_example =
    sub-run engine hyper_place 4 0x40030000 0x40010000 0x40020000 (context sub_order)
      (Initializer.add ∷ []) [] zeros (placed-Prepared 8 sub_order (omega arith))
      (memory-Filled sub_order)

add-Elsewhere_example :
    (result engine
        (placed hyper_place 4 4 0x40030000 0x40010000 0x40020000 (context add_order))
        (context add_order)).1
      0x40030004
    ≡ memory add_order 0x40030004
add-Elsewhere_example =
    add-Elsewhere engine hyper_place 4 0x40030000 0x40010000 0x40020000 (context add_order)
      (Initializer.sub ∷ []) (Initializer.and ∷ []) zeros 0x40030004
      (placed-Prepared 4 add_order (omega arith)) (memory-Filled add_order)
      (inr (omega arith), inr (omega arith))

run_initializers-value_example :
    run_initializers
      (Initializer.sub ∷ Initializer.ges ∷ Initializer.add ∷ [])
      zeros
      (0x80 * 65536 + 0x7f * 256 + 52 + 0)
    ≡ 53
run_initializers-value_example =
    run_initializers-value (Initializer.sub ∷ []) Initializer.ges (Initializer.add ∷ []) zeros 0x80
      0x7f 0 (omega arith, omega arith, omega arith)

abbrev bitwise_order : List Initializer
bitwise_order = Initializer.or ∷ Initializer.xor ∷ Initializer.and ∷ []

narrow-Prepared :
    (selector : ℕ) (order : List Initializer)
    → selector < 248
    → Result.Prepared
        (placed hyper_place selector 4 0x40030000 0x40010000 0x40020000 (context order))
        (context order)
narrow-Prepared selector order h = (
  (
    (refl, omega arith, omega arith, omega arith),
    (omega arith, omega arith),
    omega arith,
    (omega arith, omega arith),
  ),
  (
    (
      (omega arith, omega arith),
      (inr (omega arith), inr (omega arith)),
      (inr (omega arith), inr (omega arith)),
      inl (omega arith),
      (refl, omega arith),
      (omega arith, omega arith),
      (omega arith, omega arith, omega arith),
    ),
    λ k b. (ground arith, ground arith),
  ),
)

emission-run_example :
    (emission xor_op hyper_place 4 0x40030000 0x40010000 0x40020000 (context bitwise_order)
      ≡ some (
        tt,
        Result.finished
            (placed hyper_place 14 4 0x40030000 0x40010000 0x40020000 (context bitwise_order))
            (context bitwise_order),
      ))
    × ((Result.result engine
          (placed hyper_place 14 4 0x40030000 0x40010000 0x40020000 (context bitwise_order))
          (context bitwise_order)).0
        ≡ place (
            Result.finished
              (placed hyper_place 14 4 0x40030000 0x40010000 0x40020000 (context bitwise_order))
              (context bitwise_order)))
    × ((Result.result engine
            (placed hyper_place 14 4 0x40030000 0x40010000 0x40020000 (context bitwise_order))
            (context bitwise_order)).1
          (0x40030000 + 2)
        ≡ bit_xor (memory bitwise_order (0x40020000 + 2)) (memory bitwise_order (0x40010000 + 2)))
emission-run_example =
    emission-run engine xor_op hyper_place 4 0x40030000 0x40010000 0x40020000
      (context bitwise_order) (Initializer.or ∷ []) (Initializer.and ∷ []) zeros 2
      (narrow-Prepared 14 bitwise_order (omega arith)) (memory-Filled bitwise_order) (omega arith)
