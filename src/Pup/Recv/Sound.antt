-- ===== src/Pup/Recv/Sound.antt =====
-- What `fsm_recv` accepts, under every behaviour of the line and the clock.
use dma.Base.{ℕ, zero, suc, ◌≡◌, refl, sym, ap, ◌∙◌, Bool, true, false}
use dma.Base.{List, [], ◌∷◌, ◌++◌, append_assoc, if◌then◌else◌, ◌==◌, ==→eq}
use dma.Base.{Option, none, some}
use dma.Pup.Port.{Fsm, Got, got, lost, starved, consumed, passthru}
use dma.Pup.Port.{TimerId, fsm_timer_tick, platform_can_read, next_byte}
use dma.Pup.Wire.{asc_soh}
use dma.Pup.Recv.{Status, fsm_ok, fsm_reset, fsm_resend}
use dma.Pup.Recv.{recv_frame, Poll, quit, idle, byte, fsm_poll, receive, fsm_recv}
use dma.Pup.Recv.Eats.{bytes_of, Reads, Reads-trans, Ends, tick_facts}
use dma.Pup.Recv.Eats.{recv_frame-Eats, head_ready}
use dma.Base.{◌≢◌}
use dma.Pup.Recv.Inverse.{Framed, recv_frame-inv}

-- One round of the waiting loop.
abbrev Polled : Fsm → Poll → Type 0
Polled s (quit r s') = r ≢ fsm_ok
Polled s (idle s') = Reads s [] s'
Polled s (byte c s') = Reads s (c ∷ []) s'

fsm_poll-Polled : (s : Fsm) → Polled s (fsm_poll s)
unfolding fsm_poll
fsm_poll-Polled s =
    split ((fsm_timer_tick TimerId.timer_reset s).0) ((fsm_timer_tick TimerId.timer_resend t).0)
      (platform_can_read u) refl
  where
    t : Fsm
    t = (fsm_timer_tick TimerId.timer_reset s).1

    u : Fsm
    u = (fsm_timer_tick TimerId.timer_resend t).1

    input : bytes_of u.port.input ≡ bytes_of s.port.input
    input =
        ap bytes_of ((tick_facts TimerId.timer_resend t).0 ∙ (tick_facts TimerId.timer_reset s).0)

    split :
        (a b c : Bool)
        → platform_can_read u ≡ c
        → Polled s (elim a as (λ _. Poll) [
          | true ↦ quit fsm_reset t
          | false ↦ elim b as (λ _. Poll) [
            | true ↦ quit fsm_resend u
            | false ↦ if c then byte (next_byte u.port.input) (consumed u) else idle u
          ]
        ])
    split true b c e = cc
    split false true c e = cc
    split false false true e = sym input ∙ head_ready u.port.polls u.port.input e
    split false false false e = sym input

-- Before `s` reached `e` the line gave `junk`, ASC_SOH and a whole frame.
abbrev pub Found : Fsm → Fsm → Type 0
Found s e = (junk : List ℕ) × (u : Fsm) × Reads s (junk ++ asc_soh ∷ []) u × Framed u e

Found-later : (s t e : Fsm) (bs : List ℕ) → Reads s bs t → Found t e → Found s e
Found-later s t e bs r (junk, u, r', good) = (
  bs ++ junk,
  u,
  Reads-trans s t u bs (junk ++ asc_soh ∷ []) r r'
      ∙ ap (λ l. l ++ bytes_of u.port.input) (sym (append_assoc bs junk (asc_soh ∷ []))),
  good,
)

-- A round that succeeds at once, or leaves the success to the rounds after it.
module _ (f : ℕ) (s e : Fsm)
    (later : (t : Fsm) → receive asc_soh recv_frame f t ≡ some (fsm_ok, e) → Found t e) where
  after_frame :
      (t : Fsm) (r : Got (Unit {0}))
      → Reads s (asc_soh ∷ []) t
      → recv_frame f t ≡ r
      → Ends t r
      → elim r as (λ _. Option (Status × Fsm)) [
        | got _ u ↦ some (fsm_ok, u)
        | lost u ↦ receive asc_soh recv_frame f u
        | starved ↦ none
      ]
        ≡ some (fsm_ok, e)
      → Found s e
  after_frame t (got tt u) i eq _ h = ([], t, i, recv_frame-inv f t e (eq ∙ ap (got tt) (same h)))
    where
      same : ◌≡◌ {A = Option (Status × Fsm)} (some (fsm_ok, u)) (some (fsm_ok, e)) → u ≡ e
      same h = cc
  after_frame t (lost u) i eq (bs, p) h =
      Found-later s u e (asc_soh ∷ bs) (Reads-trans s t u (asc_soh ∷ []) bs i p) (later u h)
  after_frame t starved i eq _ h = absurd (cc)

  after_poll :
      (p : Poll)
      → Polled s p
      → elim p as (λ _. Option (Status × Fsm)) [
        | quit r t ↦ some (r, t)
        | idle t ↦ receive asc_soh recv_frame f t
        | byte c t ↦ elim (c == asc_soh) as (λ _. Option (Status × Fsm)) [
          | true ↦ elim (recv_frame f t) as (λ _. Option (Status × Fsm)) [
            | got _ u ↦ some (fsm_ok, u)
            | lost u ↦ receive asc_soh recv_frame f u
            | starved ↦ none
          ]
          | false ↦ receive asc_soh recv_frame f (passthru c t)
        ]
      ]
        ≡ some (fsm_ok, e)
      → Found s e
  after_poll (quit r t) bad h = absurd (bad (same h))
    where
      same : ◌≡◌ {A = Option (Status × Fsm)} (some (r, t)) (some (fsm_ok, e)) → r ≡ fsm_ok
      same h = cc
  after_poll (idle t) i h = Found-later s t e [] i (later t h)
  after_poll (byte c t) i h = split (c == asc_soh) refl h
    where
      split :
          (b : Bool)
          → (c == asc_soh) ≡ b
          → elim b as (λ _. Option (Status × Fsm)) [
            | true ↦ elim (recv_frame f t) as (λ _. Option (Status × Fsm)) [
              | got _ u ↦ some (fsm_ok, u)
              | lost u ↦ receive asc_soh recv_frame f u
              | starved ↦ none
            ]
            | false ↦ receive asc_soh recv_frame f (passthru c t)
          ]
            ≡ some (fsm_ok, e)
          → Found s e
      split true b h =
          after_frame t (recv_frame f t)
            (i ∙ ap (λ x. x ∷ bytes_of t.port.input) (==→eq c asc_soh b)) refl (recv_frame-Eats f t)
            h
      split false b h = Found-later s (passthru c t) e (c ∷ []) i (later (passthru c t) h)

-- Under every behaviour of clock and line: if `fsm_recv` returns FSM_OK, then what it took off the
-- line is some bytes, ASC_SOH and one whole frame, of which both parts pass their frame check
-- sequence, the body is as long as the header says, and the frame buffer holds exactly the two.
pub fsm_recv-Framed :
    (g : ℕ) (s e : Fsm)
    → fsm_recv g s ≡ some (fsm_ok, e)
    → (junk : List ℕ) × (u : Fsm) × Reads s (junk ++ asc_soh ∷ []) u × Framed u e
unfolding fsm_recv receive
fsm_recv-Framed zero s e h = absurd (cc)
fsm_recv-Framed (suc f) s e h =
    after_poll f s e (λ t. fsm_recv-Framed f t e) (fsm_poll s) (fsm_poll-Polled s) h
