-- ===== src/Pup/Recv/Iden.antt =====
-- Receiving never changes the identifier that the protocol counts with.
use dma.Base.{ℕ, zero, suc, ◌+◌, ◌≡◌, refl, ◌∙◌, arith, Bool, true, false, Option, none, some}
use dma.Base.{if◌then◌else◌, ◌==◌}
use dma.Pup.Port.{Fsm, Mframe, Got, got, lost, starved, TimerId, fsm_timer_tick, fsm_timer_clear}
use dma.Pup.Port.{platform_can_read, consumed, next_byte, passthru}
use dma.Pup.Wire.{asc_soh, asc_stx, asc_etx, asc_eot}
use dma.Pup.Recv.{M, ◌>>=◌, await, symbol, require, wait_for, read_into, recv_frame, read_body}
use dma.Pup.Recv.{store_hdr, store_body, hdr_ok, body_ok, body_size, Status, Poll, quit, idle, byte}
use dma.Pup.Recv.{fsm_ok, fsm_reset, fsm_resend, fsm_poll, receive, fsm_recv}

abbrev Keeps : {A : Type 0} → Fsm → Got A → Type 0
Keeps s (got a t) = t.iden ≡ s.iden
Keeps s (lost t) = t.iden ≡ s.iden
Keeps s starved = Unit

abbrev Steady : {A : Type 0} → M A → Type 0
Steady m = (s : Fsm) → Keeps s (m s)

Keeps-later : {A : Type 0} (s t : Fsm) (r : Got A) → t.iden ≡ s.iden → Keeps t r → Keeps s r
Keeps-later s t (got a u) e k = k ∙ e
Keeps-later s t (lost u) e k = k ∙ e
Keeps-later s t starved e k = tt

Steady-bind :
    {A B : Type 0} (m : M A) (k : A → M B) → Steady m → ((a : A) → Steady (k a)) → Steady (m >>= k)
Steady-bind {A} {B} m k hm hk s = go (m s) (hm s)
  where
    go :
        (r : Got A)
        → Keeps s r
        → Keeps s (elim r as (λ _. Got B) [ got a t ↦ k a t | lost t ↦ lost t | starved ↦ starved ])
    go (got a t) e = Keeps-later s t (k a t) e (hk a t)
    go (lost t) e = e
    go starved e = tt

tick-iden : (id : TimerId) (s : Fsm) → (fsm_timer_tick id s).1.iden ≡ s.iden
unfolding fsm_timer_tick
tick-iden TimerId.timer_reset s = ground arith
tick-iden TimerId.timer_resend s = ground arith
tick-iden TimerId.timer_symbol s = ground arith

await-Steady : (f : ℕ) → Steady (await f)
unfolding await
await-Steady zero s = tt
await-Steady (suc f) s =
    split (platform_can_read s) (fsm_timer_tick TimerId.timer_symbol s).0
      (await-Steady f (fsm_timer_tick TimerId.timer_symbol s).1)
  where
    split :
        (b c : Bool)
        → Keeps
            (fsm_timer_tick TimerId.timer_symbol s).1
            (await f (fsm_timer_tick TimerId.timer_symbol s).1)
        → Keeps s (elim b as (λ _. Got (Unit {0})) [
          | true ↦ got tt s
          | false ↦ elim c as (λ _. Got (Unit {0})) [
            | true ↦ lost (fsm_timer_tick TimerId.timer_symbol s).1
            | false ↦ await f (fsm_timer_tick TimerId.timer_symbol s).1
          ]
        ])
    split true c k = refl
    split false true k = tick-iden TimerId.timer_symbol s
    split false false k =
        Keeps-later s (fsm_timer_tick TimerId.timer_symbol s).1
          (await f (fsm_timer_tick TimerId.timer_symbol s).1) (tick-iden TimerId.timer_symbol s) k

symbol-Steady : (f : ℕ) → Steady (symbol f)
unfolding symbol fsm_timer_clear
symbol-Steady f s =
    Steady-bind (await f) (λ _ t. got (next_byte t.port.input) (consumed t)) (await-Steady f)
      (λ _ t. refl) (fsm_timer_clear TimerId.timer_symbol s)

require-Steady : (test : Fsm → Bool) → Steady (require test)
require-Steady test s = go (test s)
  where
    go : (b : Bool) → Keeps s (if b then got tt s else lost s)
    go true = refl
    go false = refl

wait_for-Steady : (x f : ℕ) → Steady (wait_for x f)
unfolding wait_for
wait_for-Steady x f =
    Steady-bind (symbol f) (λ c. require (λ _. c == x)) (symbol-Steady f)
      (λ c. require-Steady (λ _. c == x))

read_into-Steady : (store : ℕ → ℕ → Mframe → Mframe) (n i f : ℕ) → Steady (read_into store n i f)
unfolding read_into
read_into-Steady store zero i f s = refl
read_into-Steady store (suc n) i f s =
    Steady-bind (symbol f) _ (symbol-Steady f)
      (λ b t. read_into-Steady store n (i + 1) f (record t { framebuf = store i b t.framebuf })) s

recv_frame-Steady : (f : ℕ) → Steady (recv_frame f)
unfolding recv_frame
recv_frame-Steady f =
    Steady-bind (read_into store_hdr 10 0 f) _ (read_into-Steady store_hdr 10 0 f) λ _.
      Steady-bind (require hdr_ok) _ (require-Steady hdr_ok) λ _.
        Steady-bind (wait_for asc_stx f) _ (wait_for-Steady asc_stx f) λ _.
          Steady-bind (read_body f) _ (λ s. read_into-Steady store_body (body_size s) 0 f s)
            λ _. Steady-bind (wait_for asc_etx f) _ (wait_for-Steady asc_etx f) λ _.
              Steady-bind (wait_for asc_eot f) _ (wait_for-Steady asc_eot f)
                λ _. require-Steady body_ok

abbrev pub Answers : Fsm → Option (Status × Fsm) → Type 0
Answers s none = Unit
Answers s (some (r, e)) = e.iden ≡ s.iden

Answers-later :
    (s t : Fsm) (o : Option (Status × Fsm)) → t.iden ≡ s.iden → Answers t o → Answers s o
Answers-later s t none e a = tt
Answers-later s t (some (r, u)) e a = a ∙ e

abbrev Polls : Fsm → Poll → Type 0
Polls s (quit r t) = t.iden ≡ s.iden
Polls s (idle t) = t.iden ≡ s.iden
Polls s (byte c t) = t.iden ≡ s.iden

fsm_poll-iden : (s : Fsm) → Polls s (fsm_poll s)
unfolding fsm_poll
fsm_poll-iden s =
    split (fsm_timer_tick TimerId.timer_reset s).0 (fsm_timer_tick TimerId.timer_resend t).0
      (platform_can_read u)
  where
    t : Fsm
    t = (fsm_timer_tick TimerId.timer_reset s).1

    u : Fsm
    u = (fsm_timer_tick TimerId.timer_resend t).1

    split :
        (a b c : Bool)
        → Polls s (elim a as (λ _. Poll) [
          | true ↦ quit fsm_reset t
          | false ↦ elim b as (λ _. Poll) [
            | true ↦ quit fsm_resend u
            | false ↦ if c then byte (next_byte u.port.input) (consumed u) else idle u
          ]
        ])
    split true b c = tick-iden TimerId.timer_reset s
    split false true c = tick-iden TimerId.timer_resend t ∙ tick-iden TimerId.timer_reset s
    split false false true = tick-iden TimerId.timer_resend t ∙ tick-iden TimerId.timer_reset s
    split false false false = tick-iden TimerId.timer_resend t ∙ tick-iden TimerId.timer_reset s

pub fsm_recv-iden : (g : ℕ) (s : Fsm) → Answers s (fsm_recv g s)
unfolding fsm_recv receive
fsm_recv-iden zero s = tt
fsm_recv-iden (suc f) s = after (fsm_poll s) (fsm_poll-iden s) (λ t. fsm_recv-iden f t)
  where
    behind :
        (t : Fsm) (r : Got (Unit {0}))
        → t.iden ≡ s.iden
        → Keeps t r
        → ((v : Fsm) → Answers v (receive asc_soh recv_frame f v))
        → Answers s (elim r as (λ _. Option (Status × Fsm)) [
          | got _ u ↦ some (fsm_ok, u)
          | lost u ↦ receive asc_soh recv_frame f u
          | starved ↦ none
        ])
    behind t (got _ u) e k ih = k ∙ e
    behind t (lost u) e k ih = Answers-later s u (receive asc_soh recv_frame f u) (k ∙ e) (ih u)
    behind t starved e k ih = tt

    after :
        (p : Poll)
        → Polls s p
        → ((v : Fsm) → Answers v (receive asc_soh recv_frame f v))
        → Answers s (elim p as (λ _. Option (Status × Fsm)) [
          | quit r t ↦ some (r, t)
          | idle t ↦ receive asc_soh recv_frame f t
          | byte c t ↦ elim (c == asc_soh) as (λ _. Option (Status × Fsm)) [
            | true ↦ elim (recv_frame f t) as (λ _. Option (Status × Fsm)) [
              | got _ u ↦ some (fsm_ok, u)
              | lost u ↦ receive asc_soh recv_frame f u
              | starved ↦ none
            ]
            | false ↦ receive asc_soh recv_frame f (passthru c t)
          ]
        ])
    after (quit r t) e ih = e
    after (idle t) e ih = Answers-later s t (receive asc_soh recv_frame f t) e (ih t)
    after (byte c t) e ih = split (c == asc_soh)
      where
        split :
            (b : Bool)
            → Answers s (elim b as (λ _. Option (Status × Fsm)) [
              | true ↦ elim (recv_frame f t) as (λ _. Option (Status × Fsm)) [
                | got _ u ↦ some (fsm_ok, u)
                | lost u ↦ receive asc_soh recv_frame f u
                | starved ↦ none
              ]
              | false ↦ receive asc_soh recv_frame f (passthru c t)
            ])
        split true = behind t (recv_frame f t) e (recv_frame-Steady f t) ih
        split false =
            Answers-later s (passthru c t) (receive asc_soh recv_frame f (passthru c t)) e
              (ih (passthru c t))
