-- ===== src/Pup/Config.antt =====
-- `config_t` and its timeouts in microseconds (pup/common.h).
use native.Mathlib.Nat.{mod-add-div}
use dma.Base.{ℕ, ◌+◌, ◌*◌, ◌/◌, ◌^◌, ◌<◌, ◌≤◌, ◌≡◌, arith, u64, if◌then◌else◌, ◌==◌, ◌⊎◌}
use dma.Base.{Option, none, some}

pub record Config : Type 0 where
  pub baud : ℕ
  pub symbol_timeout : ℕ
  pub resend_timeout : ℕ
  pub reset_timeout : ℕ
  pub heartbeat_interval : ℕ

-- The computation that the three functions share; `none` is the division by zero at baud rates
-- below 10.
unfoldable pub timeout_us : ℕ → ℕ → Option ℕ
timeout_us baud symbols =
    if baud / 10 == 0
    then none
    else let baseline = u64 (symbols * 1_000_000) / (baud / 10) in
      some (if baseline == 0 then 1 else baseline)

pub config_symbol_timeout_us : Config → Option ℕ
config_symbol_timeout_us c = timeout_us c.baud c.symbol_timeout

pub config_resend_timeout_us : Config → Option ℕ
config_resend_timeout_us c = timeout_us c.baud c.resend_timeout

pub config_reset_timeout_us : Config → Option ℕ
config_reset_timeout_us c = timeout_us c.baud c.reset_timeout

below_next : (x d : ℕ) → 0 < d → x < (x / d + 1) * d
below_next x d h = grind (arith, mod-add-div x d)

not_above : (x d : ℕ) → x / d * d ≤ x
not_above x d = grind (arith, mod-add-div x d)

-- At a baud rate of 10 or more and for a 32-bit number of symbols a timeout `t` is given. It is at
-- least 1; and unless it is 1 it is the symbols' duration at a tenth of the baud rate, in
-- microseconds, rounded down. It is never more than a microsecond short of that duration.
pub timeout_us_lem :
    (baud symbols : ℕ)
    → 10 ≤ baud
    → symbols < 2 ^ 32
    → (t : ℕ) × (timeout_us baud symbols ≡ some t)
      × (1 ≤ t)
      × (symbols * 1_000_000 < (t + 1) * (baud / 10))
      × ((t ≡ 1) ⊎ (t * (baud / 10) ≤ symbols * 1_000_000))
unfolding timeout_us
timeout_us_lem baud symbols hb hs = (
  if q == 0 then 1 else q,
  ground arith,
  ground arith,
  ground (arith, below_next (symbols * 1_000_000) (baud / 10) (omega arith)),
  ground (arith, not_above (symbols * 1_000_000) (baud / 10)),
)
  where
    q : ℕ
    q = u64 (symbols * 1_000_000) / (baud / 10)
