-- ===== src/Pup/Recv/Noise.antt =====
-- The loop that waits for a frame's first byte: what stands before it on the line is passed on.
use dma.Base.{ℕ, zero, suc, ◌+◌, ◌≤◌, ◌≡◌, ◌≢◌, refl, ◌∙◌, arith, false, le→leb}
use dma.Base.{eq→==, ne→==, if◌then◌else◌, some, All}
use dma.Base.{List, [], ◌∷◌, ◌++◌, length, append_assoc, append-nil}
use dma.Pup.Port.{timer_of, platform_time}
use dma.Pup.Port.{Fsm, got, TimerId, timer_triggered, fsm_timer_tick, polled, consumed, passthru}
use dma.Pup.Recv.{M, fsm_ok, byte, fsm_poll, receive}
use dma.Pup.Recv.Ready.{at, Takes, Kept}

-- Neither TIMER_RESET nor TIMER_RESEND is ever due.
abbrev pub IsQuiet : Fsm → Type 0
IsQuiet s =
    (n : ℕ)
    → (timer_triggered s.reset (s.port.clock n) ≡ false)
      × (timer_triggered s.resend (s.port.clock n) ≡ false)

-- What a reception leaves alone, and what it passes on.
pub record Heard (noise : List ℕ) (s e : Fsm) : Type 0 where
  pub reset : e.reset ≡ s.reset
  pub resend : e.resend ≡ s.resend
  pub iden : e.iden ≡ s.iden
  pub has_passthru : e.has_passthru ≡ s.has_passthru
  pub clock : e.port.clock ≡ s.port.clock
  pub sent : e.port.sent ≡ s.port.sent
  pub passed : e.port.passed ≡ (if s.has_passthru then s.port.passed ++ noise else s.port.passed)

tick_quiet :
    (id : TimerId) (s : Fsm)
    → timer_triggered (timer_of id s) (platform_time s) ≡ false
    → fsm_timer_tick id s ≡ (false, polled s)
unfolding fsm_timer_tick
tick_quiet id s e = rw e

poll-ready :
    (t c : ℕ) (rest : List (ℕ × ℕ)) (s : Fsm)
    → s.port.input ≡ (t, c) ∷ rest
    → t ≤ s.port.polls
    → IsQuiet s
    → fsm_poll s ≡ byte c (consumed (polled (polled s)))
unfolding fsm_poll
poll-ready t c rest s e h q = ground (
  arith,
  tick_quiet TimerId.timer_reset s (q s.port.polls).0,
  tick_quiet TimerId.timer_resend (polled s) (q (s.port.polls + 1)).1,
  le→leb t (s.port.polls + 1 + 1),
)

-- One round of the loop.
receive-found :
    (start : ℕ) (behind : ℕ → M (Unit {0})) (g : ℕ) (s s' e : Fsm)
    → fsm_poll s ≡ byte start s'
    → behind g s' ≡ got tt e
    → receive start behind (suc g) s ≡ some (fsm_ok, e)
unfolding receive
receive-found start behind g s s' e p r = ground (arith, eq→== start start refl)

receive-noise :
    (start : ℕ) (behind : ℕ → M (Unit {0})) (g c : ℕ) (s s' : Fsm)
    → fsm_poll s ≡ byte c s'
    → c ≢ start
    → receive start behind (suc g) s ≡ receive start behind g (passthru c s')
unfolding receive
receive-noise start behind g c s s' p ne = ground (arith, ne→== c start ne)

-- After a byte of noise.
abbrev heard : ℕ → Fsm → Fsm
heard c s = passthru c (consumed (polled (polled s)))

Heard-cons :
    (c : ℕ) (noise : List ℕ) (s e : Fsm) → Heard noise (heard c s) e → Heard (c ∷ noise) s e
Heard-cons c noise s e k = ground (arith, append_assoc s.port.passed (c ∷ []) noise)

Heard-start : (s e : Fsm) → Kept (consumed (polled (polled s))) e → Heard [] s e
Heard-start s e k = record {
  reset = k.reset;
  resend = k.resend;
  iden = k.iden;
  has_passthru = k.has_passthru;
  clock = k.clock;
  sent = k.sent;
  passed = k.passed ∙ ground (arith, append-nil s.port.passed);
}

heard_facts :
    (c : ℕ) (s : Fsm)
    → ((heard c s).port.input ≡ (consumed s).port.input)
      × (s.port.polls ≤ (heard c s).port.polls)
      × (IsQuiet s → IsQuiet (heard c s))
heard_facts c s = (refl, omega arith, λ q. q)

module _ (start : ℕ) (behind : ℕ → M (Unit {0})) (t : ℕ) (more rest : List (ℕ × ℕ))
    (P : Fsm → Type 0)
    (after : (f : ℕ) (s : Fsm)
      → s.port.input ≡ more
      → t ≤ s.port.polls
      → (v : Takes tt rest s (behind (suc f) s)) × P v.end) where
  pub receive-ready :
      (noise : List ℕ) (g : ℕ) (s : Fsm)
      → length noise + 2 ≤ g
      → All (λ c. c ≢ start) noise
      → s.port.input ≡ at t noise ++ (t, start) ∷ more
      → t ≤ s.port.polls
      → IsQuiet s
      → (e : Fsm) × (receive start behind g s ≡ some (fsm_ok, e))
        × (e.port.input ≡ rest)
        × P e
        × Heard noise s e
  receive-ready noise zero s h clean input arrived q = absurd (omega arith)
  receive-ready [] (suc zero) s h clean input arrived q = absurd (omega arith)
  receive-ready [] (suc (suc g)) s h clean input arrived q =
      let (v, p) = after g (consumed (polled (polled s))) (rw input refl) (omega arith) in
      (
        v.end,
        receive-found start behind (suc g) s (consumed (polled (polled s))) v.end
            (poll-ready t start more s input arrived q) v.returns,
        v.input,
        p,
        Heard-start s v.end v.kept,
      )
  receive-ready (c ∷ noise) (suc g) s h clean input arrived q =
      let (same, later, still) = heard_facts c s in
      let (e, r, i, p, k) =
        receive-ready noise g (heard c s) (omega arith) (clean.1) (same ∙ rw input refl)
          (omega (arith, later)) (still q) in
      (
        e,
        receive-noise start behind g c s (consumed (polled (polled s)))
              (poll-ready t c (at t noise ++ (t, start) ∷ more) s input arrived q) (clean.0)
            ∙ r,
        i,
        p,
        Heard-cons c noise s e k,
      )
