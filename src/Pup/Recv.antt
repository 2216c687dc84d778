-- ===== src/Pup/Recv.antt =====
-- `fsm_recv` and `fsm_recv_ack` of pup/fsm.c. A `while` loop runs on fuel, and `starved` or `none`
-- is the end of it. The host and device variants differ only in diagnostics.
pub mod Ready
pub mod Frame
pub mod Noise
pub mod RoundTrip
pub mod Ack
pub mod Eats
pub mod Inverse
pub mod Sound
pub mod Iden
use dma.Base.{ℕ, zero, suc, ◌+◌, ◌*◌, ◌^◌, Bool, true, false, ◌==◌, if◌then◌else◌}
use dma.Base.{Option, none, some, [], ◌∷◌}
use dma.Pup.Port.{Fsm, Mframe, Got, got, lost, starved, TimerId, fsm_timer_tick, fsm_timer_clear}
use dma.Pup.Port.{platform_can_read, next_byte, consumed, passthru}
use dma.Pup.Fcs.{fcs16, fcs_init, fcs_ok}
use dma.Pup.Wire.{asc_soh, asc_stx, asc_etx, asc_eot, asc_ack, first, put_at, frame_plen}

-- `enum fsm_status`
pub data Status : Type 0 where
  fsm_ok fsm_reset fsm_resend : Status

abbrev pub M : Type 0 → Type 0
M A = Fsm → Got A

infixl 5 ◌>>=◌ ◌>>◌
abbrev pub ◌>>=◌ : {A B : Type 0} → M A → (A → M B) → M B
◌>>=◌ m k s = elim (m s) [ got a s' ↦ k a s' | lost s' ↦ lost s' | starved ↦ starved ]

abbrev pub ◌>>◌ : {B : Type 0} → M (Unit {0}) → M B → M B
m >> k = m >>= λ _. k

-- `while (!platform_can_read()) if (fsm_timer_tick(TIMER_SYMBOL, …)) goto lbl;`
pub await : ℕ → M (Unit {0})
await zero s = starved
await (suc f) s = elim (platform_can_read s) [
  | true ↦ got tt s
  | false ↦
      let t = fsm_timer_tick TimerId.timer_symbol s in
      elim (t.0) [ true ↦ lost (t.1) | false ↦ await f (t.1) ]
]

abbrev read_byte : M ℕ
read_byte s = got (next_byte s.port.input) (consumed s)

abbrev restart_symbol : M (Unit {0})
restart_symbol s = got tt (fsm_timer_clear TimerId.timer_symbol s)

-- One symbol: restart TIMER_SYMBOL, wait, read.
pub symbol : ℕ → M ℕ
symbol f = do restart_symbol; await f; read_byte

-- A test that goes back to waiting when it fails.
abbrev pub require : (Fsm → Bool) → M (Unit {0})
require test s = if test s then got tt s else lost s

-- the macro `wait_for`
pub wait_for : ℕ → ℕ → M (Unit {0})
wait_for x f = do c ← symbol f; require (λ _. c == x)

abbrev pub store_hdr : ℕ → ℕ → Mframe → Mframe
store_hdr i b m = record m { raw_hdr = put_at m.raw_hdr i b }

abbrev pub store_body : ℕ → ℕ → Mframe → Mframe
store_body i b m = record m { raw_body = put_at m.raw_body i b }

-- Symbols `i, i + 1, …` into a buffer, `n` of them.
pub read_into : (ℕ → ℕ → Mframe → Mframe) → ℕ → ℕ → ℕ → M (Unit {0})
read_into store zero i f s = got tt s
read_into store (suc n) i f s =
    (symbol f
        >>= (λ b s'. read_into store n (i + 1) f (record s' { framebuf = store i b s'.framebuf })))
      s

abbrev pub hdr_ok : Fsm → Bool
hdr_ok s = fcs16 fcs_init (first 10 s.framebuf.raw_hdr) == fcs_ok

abbrev pub body_size : Fsm → ℕ
body_size s = 2 + frame_plen s.framebuf

abbrev pub read_body : ℕ → M (Unit {0})
read_body f s = read_into store_body (body_size s) 0 f s

abbrev pub body_ok : Fsm → Bool
body_ok s = fcs16 fcs_init (first (body_size s) s.framebuf.raw_body) == fcs_ok

-- `fsm_recv` behind ASC_SOH.
pub recv_frame : ℕ → M (Unit {0})
recv_frame f = do
  read_into store_hdr 10 0 f
  require hdr_ok
  wait_for asc_stx f
  read_body f
  wait_for asc_etx f
  wait_for asc_eot f
  require body_ok

-- `fsm_recv_ack` behind ASC_ACK.
pub recv_ack : ℕ → ℕ → M (Unit {0})
recv_ack iden f = do
  a ← symbol f
  b ← symbol f
  c ← symbol f
  d ← symbol f
  wait_for asc_eot f
  require (λ _. fcs16 fcs_init (a ∷ b ∷ c ∷ d ∷ []) == fcs_ok)
  require (λ _. a + 2 ^ 8 * b == iden)

-- One round of the loop that both functions wait in.
pub data Poll : Type 0 where
  quit : Status → Fsm → Poll
  idle : Fsm → Poll
  byte : ℕ → Fsm → Poll

pub fsm_poll : Fsm → Poll
fsm_poll s =
    let t = fsm_timer_tick TimerId.timer_reset s in
    elim (t.0) [
      | true ↦ quit fsm_reset (t.1)
      | false ↦
          let u = fsm_timer_tick TimerId.timer_resend (t.1) in
          elim (u.0) [
            | true ↦ quit fsm_resend (u.1)
            | false ↦
                let v = u.1 in
                if platform_can_read v then byte (next_byte v.port.input) (consumed v) else idle v
          ]
    ]

-- Wait for `start`, receive what is behind it, and go back if that fails. `none` is the end of
-- the fuel.
module _ (start : ℕ) (behind : ℕ → M (Unit {0})) where
  pub receive : ℕ → Fsm → Option (Status × Fsm)
  receive zero s = none
  receive (suc f) s = elim (fsm_poll s) [
    | quit r s' ↦ some (r, s')
    | idle s' ↦ receive f s'
    | byte c s' ↦ elim (c == start) [
      | true ↦ elim (behind f s') [
        | got _ s'' ↦ some (fsm_ok, s'')
        | lost s'' ↦ receive f s''
        | starved ↦ none
      ]
      | false ↦ receive f (passthru c s')
    ]
  ]

unfoldable pub fsm_recv : ℕ → Fsm → Option (Status × Fsm)
fsm_recv = receive asc_soh recv_frame

unfoldable pub fsm_recv_ack : ℕ → ℕ → Fsm → Option (Status × Fsm)
fsm_recv_ack iden = receive asc_ack (recv_ack iden)
