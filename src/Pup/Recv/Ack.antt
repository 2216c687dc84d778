-- ===== src/Pup/Recv/Ack.antt =====
-- An acknowledgement that is sent is received by the side that waits for its identifier.
use dma.Base.{ℕ, suc, ◌+◌, ◌*◌, ◌^◌, ◌≤◌, ◌<◌, ◌≡◌, ◌≢◌, ap, ◌∙◌, arith, some, All}
use dma.Base.{List, [], ◌∷◌, ◌++◌, length, append_assoc, eq→==, ◌==◌}
use dma.Pup.Port.{Fsm, got}
use dma.Pup.Fcs.{fcs16, fcs_init, fcs_ok}
use dma.Pup.Fcs.Residue.{put16, fcs16-residue}
use dma.Pup.Wire.{asc_ack, asc_eot, fsm_send_ack}
use dma.Pup.Wire.Bytes.{sent-write, sealed, ack_bytes, fsm_send_ack-write}
use dma.Pup.Recv.{fsm_ok, symbol, wait_for, require, recv_ack, fsm_recv_ack}
use dma.Pup.Recv.Ready.{at, at-append, Takes, Kept-trans, symbol-ready, wait_for-ready, bind-got}
use dma.Pup.Recv.Ready.{require-got}
use dma.Pup.Recv.Noise.{IsQuiet, Heard, receive-ready}
use dma.Pup.Recv.RoundTrip.{put16_value, put16-IsBytes}

module _ (iden f a b c d : ℕ) (good : fcs16 fcs_init (a ∷ b ∷ c ∷ d ∷ []) ≡ fcs_ok)
    (mine : a + 2 ^ 8 * b ≡ iden) where
  -- The stages of `recv_ack` in a row.
  stages :
      (s s₁ s₂ s₃ s₄ e : Fsm)
      → symbol f s ≡ got a s₁
      → symbol f s₁ ≡ got b s₂
      → symbol f s₂ ≡ got c s₃
      → symbol f s₃ ≡ got d s₄
      → wait_for asc_eot f s₄ ≡ got tt e
      → recv_ack iden f s ≡ got tt e
  unfolding recv_ack
  stages s s₁ s₂ s₃ s₄ e r₁ r₂ r₃ r₄ r =
      bind-got (symbol f) _ s r₁
      ∙ bind-got (symbol f) _ s₁ r₂
      ∙ bind-got (symbol f) _ s₂ r₃
      ∙ bind-got (symbol f) _ s₃ r₄
      ∙ bind-got (wait_for asc_eot f) _ s₄ r
      ∙ bind-got (require (λ _. fcs16 fcs_init (a ∷ b ∷ c ∷ d ∷ []) == fcs_ok)) _ e
          (require-got (λ _. fcs16 fcs_init (a ∷ b ∷ c ∷ d ∷ []) == fcs_ok) e (eq→== _ _ good))
      ∙ require-got (λ _. a + 2 ^ 8 * b == iden) e (eq→== _ _ mine)

recv_ack-ready :
    (iden f t a b c d : ℕ) (rest : List (ℕ × ℕ)) (s : Fsm)
    → fcs16 fcs_init (a ∷ b ∷ c ∷ d ∷ []) ≡ fcs_ok
    → a + 2 ^ 8 * b ≡ iden
    → s.port.input ≡ (t, a) ∷ (t, b) ∷ (t, c) ∷ (t, d) ∷ (t, asc_eot) ∷ rest
    → t ≤ s.port.polls
    → Takes tt rest s (recv_ack iden (suc f) s)
recv_ack-ready iden f t a b c d rest s good mine input arrived =
    let u = (symbol-ready f t a _ s input arrived).0 in
    let v = (symbol-ready f t b _ u.end u.input (omega (arith, u.kept.later))).0 in
    let w = (symbol-ready f t c _ v.end v.input (omega (arith, u.kept.later, v.kept.later))).0 in
    let x =
      (symbol-ready f t d _ w.end w.input
        (omega (arith, u.kept.later, v.kept.later, w.kept.later))).0 in
    let y =
      (wait_for-ready asc_eot f t _ x.end x.input
        (omega (arith, u.kept.later, v.kept.later, w.kept.later, x.kept.later))).0 in
    record {
      end = y.end;
      returns =
          stages iden (suc f) a b c d good mine s u.end v.end w.end x.end y.end u.returns v.returns
            w.returns x.returns y.returns;
      input = y.input;
      kept = Kept-trans u.kept (Kept-trans v.kept (Kept-trans w.kept (Kept-trans x.kept y.kept)));
    }

-- Acknowledgements are undone by receiving. If `sender`, its line still empty, acknowledges a
-- 16-bit identifier, and the receiver's line holds those bytes behind noise that has no ASC_ACK,
-- all arrived, and neither TIMER_RESET nor TIMER_RESEND falls due, then `fsm_recv_ack` for that
-- identifier, with more than `length noise + 1` rounds of fuel, returns FSM_OK, has taken exactly
-- the noise and the acknowledgement off the line, and passed the noise on.
pub fsm_recv_ack-fsm_send_ack :
    (sender : Fsm) (iden t : ℕ) (noise : List ℕ) (rest : List (ℕ × ℕ)) (g : ℕ) (s : Fsm)
    → iden < 2 ^ 16
    → sender.port.sent ≡ []
    → length noise + 2 ≤ g
    → All (λ c. c ≢ asc_ack) noise
    → s.port.input ≡ at t (noise ++ (fsm_send_ack iden sender).port.sent) ++ rest
    → t ≤ s.port.polls
    → IsQuiet s
    → (e : Fsm) × (fsm_recv_ack iden g s ≡ some (fsm_ok, e))
      × (e.port.input ≡ rest)
      × Heard noise s e
unfolding fsm_recv_ack
fsm_recv_ack-fsm_send_ack sender iden t noise rest g s small empty h clean input arrived q =
    let (e, r, i, _, k) =
      receive-ready asc_ack (recv_ack iden) t (at t (sealed (put16 iden)) ++ (t, asc_eot) ∷ rest)
        rest (λ _. Unit {0})
        (λ f u i a. (
          recv_ack-ready iden f t _ _ _ _ rest u
              (fcs16-residue fcs_init (put16 iden) (omega arith) (put16-IsBytes iden))
              (put16_value iden small) i a,
          tt,
        ))
        noise g s h clean
        (input ∙ ap (λ l. at t (noise ++ l) ++ rest) sent ∙ simp (at-append, append_assoc)) arrived
        q in
    (e, r, i, k)
  where
    sent : (fsm_send_ack iden sender).port.sent ≡ ack_bytes iden
    sent =
        ap (λ r. r.port.sent) (fsm_send_ack-write iden sender)
        ∙ sent-write (ack_bytes iden) sender
        ∙ ap (λ l. l ++ ack_bytes iden) empty
