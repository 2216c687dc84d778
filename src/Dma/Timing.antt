-- ===== src/Dma/Timing.antt =====
-- The duration of a timed run, dma/private.c: cycles are counted modulo 2 ^ 32, microseconds are
-- not, and the coarse clock tells how often the cycle counter wrapped.
use dma.Base.{ℕ, ◌+◌, ◌-◌, ◌*◌, ◌/◌, ◌^◌, u32, u64, sub32}
use dma.Base.{bit_and, ◌==◌, if◌then◌else◌}

-- `struct dma_run_info`
pub record RunInfo : Type 0 where
  pub cycle_start : ℕ
  pub cycle_end : ℕ
  pub us_start : ℕ
  pub us_end : ℕ
  pub status : ℕ

-- The measured clock rate, rounded up to a multiple of 1 MHz.
abbrev pub whole_mhz : ℕ → ℕ
whole_mhz rate = u32 (u32 (rate + 999999) / 1000000 * 1000000)

abbrev pub elapsed_cycles : RunInfo → ℕ
elapsed_cycles info = sub32 info.cycle_end info.cycle_start

abbrev pub elapsed_us : RunInfo → ℕ
elapsed_us info = u64 (info.us_end + 2 ^ 64 - info.us_start)

-- `k`, how often the cycle counter wrapped.
unfoldable pub wraps : ℕ → ℕ → ℕ → ℕ
wraps dm arm_freq dc =
    if dm == 0
    then 0
    else let k = u64 (u64 (dm * arm_freq) / 1000000 + 2 ^ 64 - dc) / 2 ^ 31 in k / 2 + bit_and k 1

-- `dma_run_info_get_time_ns`; the clock rate comes from a property tag.
unfoldable pub dma_run_info_get_time_ns : ℕ → RunInfo → ℕ
dma_run_info_get_time_ns rate info =
    let arm_freq = whole_mhz rate in
    let dc = elapsed_cycles info in
    let t = u64 (dc + u64 (wraps (elapsed_us info) arm_freq dc * 2 ^ 32)) in
    u64 (t * 1000000000) / arm_freq
