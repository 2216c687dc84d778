-- ===== src/Dma/Tests/Kit.antt =====
-- The theorems on bus addresses, arenas, channels, timing and alignment at concrete inputs.
use dma.Base.{◌+◌, ◌-◌, ◌/◌, ◌%◌, ◌^◌, ◌<◌, ◌≤◌, ◌≡◌, refl, arith, some}
use dma.Base.{ltb, if◌then◌else◌, ◌⊎◌}
use dma.Base.{none, u32}
use dma.Dma.Arena.{Arena, arena_alloc}
use dma.Dma.Arena.Fresh.{up, arena_alloc-fits}
use dma.Base.{true, false}
use dma.Dma.{
  Reservations, reserve, dmakit_channel_acquire, dmakit_channel_release, free_channel,
  dmakit_channel_is_lite,
}
use dma.Dma.Release.{dmakit_channel_release-acquire}
use dma.Dma.Timing.{RunInfo}
use dma.Dma.Emit.{skip_to_align}
use dma.Dma.Emit.Align.{aligned, skip_to_align_lem}
use dma.Dma.Cblk.{store, word_bytes}
use dma.Base.{◌+◌}
use dma.Dma.Bus.{Busad, arm_to_bus, bus_to_arm, arm_peri_end, bus_to_arm-arm_to_bus}
use dma.Dma.Arith.Sum.{}
use dma.Dma.Emit.{EmitCtx}

bus_to_arm-arm_to_bus_example :
    ((arm_peri_end ≤ 0x20200000) × (arm_to_bus 0x20200000 ≡ none))
    ⊎ ((0x20200000 < arm_peri_end)
        × ((b : Busad) × ((arm_to_bus 0x20200000 ≡ some b) × (bus_to_arm b ≡ some 0x20200000))))
bus_to_arm-arm_to_bus_example = bus_to_arm-arm_to_bus 0x20200000

abbrev small_arena : Arena
small_arena = record { start = 0x10000; end = 0x20000; p = 0x10003; util = 3 }

arena_alloc-fits_example :
    (arena_alloc small_arena 100 (2 ^ 4) ≡ (
      if ltb (up 0x10003 4 + 100) 0x20000
      then some (up 0x10003 4, record small_arena { p = up 0x10003 4 + 100; util = u32 (3 + 100) })
      else none))
    × ((0x10003 ≤ up 0x10003 4) × (up 0x10003 4 < 0x10003 + 2 ^ 4) × (up 0x10003 4 % 2 ^ 4 ≡ 0))
arena_alloc-fits_example =
    arena_alloc-fits small_arena 100 4 (omega arith, omega arith, omega arith)
      (omega arith, omega arith)

abbrev turned : Arena
turned = record { start = 0x20000; end = 0x10000; p = 0x20000; util = 0 }

abbrev timed : RunInfo
timed = record {
  cycle_start = 4294967290;
  cycle_end = 12339;
  us_start = 10;
  us_end = 30678366;
  status = 0;
}

abbrev nobody : Reservations
nobody i = none

abbrev somebody : Reservations
somebody = reserve nobody 0 (some 7)

dmakit_channel_release-acquire_example :
    dmakit_channel_release somebody (λ c. false) 0 7 ≡ some nobody
unfolding dmakit_channel_acquire free_channel dmakit_channel_is_lite
dmakit_channel_release-acquire_example =
    dmakit_channel_release-acquire nobody somebody true 7 0 (λ c. false) refl refl

abbrev emitting : EmitCtx
emitting = record { base = 0x1000; p = 0x1060; cap = 100; mem = λ x. x % 256 }

skip_to_align_lem_example :
    (skip_to_align (2 ^ 8) true emitting ≡ (
      if ltb ((aligned 8 emitting - 0x1000) / 32) 100
      then some (
        tt,
        record emitting {
          p = aligned 8 emitting;
          mem =
              store
                (0x1060 - 32 + 0x40000000 + 20)
                (word_bytes (aligned 8 emitting + 0x40000000))
                (λ x. x % 256);
        },
      )
      else none))
    × ((0x1060 ≤ aligned 8 emitting)
        × (aligned 8 emitting < 0x1060 + 2 ^ 8)
        × (aligned 8 emitting % 2 ^ 8 ≡ 0))
skip_to_align_lem_example =
    skip_to_align_lem 8 emitting ((omega arith, omega arith), refl, omega arith, omega arith)
