-- ===== src/Pup/Port.antt =====
-- The protocol's state: the timers and the frame buffer of pup/fsm.c (`fsm`, `framebuf`), and the
-- serial line and clock that `platform_can_read`, `platform_read`, `platform_put`,
-- `platform_write` and `platform_time` stand for.
use dma.Base.{ℕ, ◌+◌, u64, leb, Bool, true, false, ◌&&◌, if◌then◌else◌}
use dma.Base.{List, [], ◌∷◌, ◌++◌}

-- `timer_t`
pub record Timer : Type 0 where
  pub last : ℕ
  pub period : ℕ
  pub active : Bool

pub data TimerId : Type 0 where
  timer_reset timer_resend timer_symbol : TimerId

-- `mframe_t`: two arrays of bytes. The buffer is static, so that a byte past the end of a list is
-- one that was never written, and reads 0.
pub record Mframe : Type 0 where
  pub raw_hdr : List ℕ
  pub raw_body : List ℕ

-- The other end of the line and the clock. The environment is arbitrary: the `n`-th reading of the
-- clock gives `clock n`, and an entry `(t, b)` of `input` is a byte `b` that is there to be read
-- once the clock has been read `t` times. `sent` is what was put, `passed` what `passthru` got.
pub record Port : Type 0 where
  pub clock : ℕ → ℕ
  pub polls : ℕ
  pub input : List (ℕ × ℕ)
  pub sent : List ℕ
  pub passed : List ℕ

-- `fsm_t`, with `framebuf`, whether `passthru` is set, and the line.
pub record Fsm : Type 0 where
  pub reset : Timer
  pub resend : Timer
  pub symbol : Timer
  pub iden : ℕ
  pub has_passthru : Bool
  pub framebuf : Mframe
  pub port : Port

-- How a wait ends: by its event, by `goto wait_for_…`, or not within the fuel.
pub data Got {ℓ} (A : Type ℓ) : Type ℓ where
  got : A → Fsm → Got A
  lost : Fsm → Got A
  starved : Got A

abbrev pub timer_of : TimerId → Fsm → Timer
timer_of TimerId.timer_reset s = s.reset
timer_of TimerId.timer_resend s = s.resend
timer_of TimerId.timer_symbol s = s.symbol

abbrev pub set_timer : TimerId → Timer → Fsm → Fsm
set_timer TimerId.timer_reset t s = record s { reset = t }
set_timer TimerId.timer_resend t s = record s { resend = t }
set_timer TimerId.timer_symbol t s = record s { symbol = t }

-- `platform_time()`
abbrev pub platform_time : Fsm → ℕ
platform_time s = s.port.clock s.port.polls

abbrev pub polled : Fsm → Fsm
polled s = let p = s.port in record s { port = record p { polls = p.polls + 1 } }

abbrev pub ready : ℕ → List (ℕ × ℕ) → Bool
ready n [] = false
ready n ((t, b) ∷ rest) = leb t n

abbrev pub platform_can_read : Fsm → Bool
platform_can_read s = ready s.port.polls s.port.input

-- `platform_read` takes the byte that `platform_can_read` saw.
abbrev pub next_byte : List (ℕ × ℕ) → ℕ
next_byte [] = 0
next_byte ((t, b) ∷ rest) = b

abbrev pub rest_of : List (ℕ × ℕ) → List (ℕ × ℕ)
rest_of [] = []
rest_of ((t, b) ∷ rest) = rest

abbrev pub consumed : Fsm → Fsm
consumed s = let p = s.port in record s { port = record p { input = rest_of p.input } }

unfoldable pub platform_put : ℕ → Fsm → Fsm
platform_put x s = let p = s.port in record s { port = record p { sent = p.sent ++ (x ∷ []) } }

unfoldable pub platform_write : List ℕ → Fsm → Fsm
platform_write xs s = let p = s.port in record s { port = record p { sent = p.sent ++ xs } }

-- `if (passthru) passthru(c);`
abbrev pub passthru : ℕ → Fsm → Fsm
passthru c s =
    let p = s.port in
    let passed = if s.has_passthru then p.passed ++ (c ∷ []) else p.passed in
    record s { port = record p { passed = passed } }

-- `timer_triggered`; the sum is a `uint64_t`.
unfoldable pub timer_triggered : Timer → ℕ → Bool
timer_triggered t now = t.active && leb (u64 (t.last + t.period)) now

-- `fsm_timer_tick(timer, platform_time())`
unfoldable pub fsm_timer_tick : TimerId → Fsm → Bool × Fsm
fsm_timer_tick id s =
    let now = platform_time s in
    let t = timer_of id s in
    if timer_triggered t now
    then (true, polled (set_timer id (record t { last = now }) s))
    else (false, polled s)

-- `fsm_timer_clear(timer, platform_time())`
unfoldable pub fsm_timer_clear : TimerId → Fsm → Fsm
fsm_timer_clear id s =
    let t = timer_of id s in
    polled (set_timer id (record t { last = platform_time s; active = true }) s)
