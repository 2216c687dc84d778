-- ===== src/Pup/Recv/RoundTrip.antt =====
-- What one side sends, the other receives.
use dma.Base.{ℕ, zero, suc, ◌+◌, ◌*◌, ◌^◌, ◌≤◌, ◌<◌, ◌≡◌, ◌≢◌, refl, sym, ap, ap₂, ◌∙◌}
use dma.Base.{arith, u16, bit_xor, get_or, some, All, IsBytes}
use dma.Base.{List, [], ◌∷◌, ◌++◌, length, length-append, append_assoc}
use dma.Base.Bytes.{bit_and_mask}
use dma.Pup.Port.{Fsm, Mframe}
use dma.Pup.Fcs.{fcs16, fcs_init, fcs_ok}
use dma.Pup.Fcs.Residue.{put16, fcs16-residue}
use dma.Pup.Wire.{asc_soh, asc_stx, asc_etx, asc_eot, first, le16_at}
use dma.Pup.Wire.{frame_iden, frame_plen, frame_type, frame_body, fsm_send}
use dma.Pup.Wire.Bytes.{sent-write, sealed, header, frame_bytes, fsm_send-write}
use dma.Pup.Recv.{fsm_ok, recv_frame, fsm_recv}
use dma.Pup.Recv.Ready.{at, at-append, Takes, get_or-first}
use dma.Pup.Recv.Frame.{recv_frame-ready}
use dma.Pup.Recv.Noise.{IsQuiet, Heard, receive-ready}

pub put16_value : (x : ℕ) → x < 2 ^ 16 → le16_at (put16 x) 0 ≡ x
put16_value x h = omega (arith, bit_and_mask 8 x)

pub put16-IsBytes : (x : ℕ) → IsBytes (put16 x)
put16-IsBytes x = omega arith

first_prefix :
    (ys zs : List ℕ) (n : ℕ) (xs : List ℕ) → first n xs ≡ ys ++ zs → first (length ys) xs ≡ ys
first_prefix [] zs n xs e = refl
first_prefix (y ∷ ys) zs zero xs e = absurd (cc)
first_prefix (y ∷ ys) zs (suc n) [] e = ground (arith, first_prefix ys zs n [])
first_prefix (y ∷ ys) zs (suc n) (x ∷ xs) e = ground (arith, first_prefix ys zs n xs)

-- What the receiver sees of a frame.
pub record Delivered (iden : ℕ) (type payload : List ℕ) (m : Mframe) : Type 0 where
  pub iden_seen : frame_iden m ≡ iden
  pub plen_seen : frame_plen m ≡ length payload
  pub type_seen : frame_type m ≡ type
  pub body_seen : frame_body (length payload) m ≡ payload

module _ (iden x0 x1 x2 x3 : ℕ) (payload : List ℕ) (small : iden < 2 ^ 16)
    (letters : IsBytes (x0 ∷ x1 ∷ x2 ∷ x3 ∷ [])) (bytes : IsBytes payload)
    (short : length payload < 2 ^ 16) where
  abbrev type : List ℕ
  type = x0 ∷ x1 ∷ x2 ∷ x3 ∷ []

  abbrev hdr : List ℕ
  hdr = sealed (header iden type payload)

  hdr_good : fcs16 fcs_init hdr ≡ fcs_ok
  hdr_good = fcs16-residue fcs_init (header iden type payload) (omega arith) (omega arith)

  plen_sent : le16_at hdr 2 ≡ length payload
  plen_sent = omega (arith, put16_value (u16 (length payload)) (omega arith))

  size : length (sealed payload) ≡ 2 + le16_at hdr 2
  size =
      omega
        (arith, plen_sent, length-append payload (put16 (bit_xor (fcs16 fcs_init payload) 0xffff)))

  delivered :
      (m : Mframe) (n : ℕ)
      → first 10 m.raw_hdr ≡ hdr
      → first n m.raw_body ≡ sealed payload
      → Delivered iden type payload m
  delivered m n eh eb = record {
    iden_seen =
        ap₂ (λ x y. x + 2 ^ 8 * y) (seen 0 (omega arith)) (seen 1 (omega arith))
        ∙ put16_value iden small;
    plen_seen =
        ap₂ (λ x y. x + 2 ^ 8 * y) (seen 2 (omega arith)) (seen 3 (omega arith)) ∙ plen_sent;
    type_seen =
        cc (seen 4 (omega arith), seen 5 (omega arith), seen 6 (omega arith), seen 7 (omega arith));
    body_seen =
        first_prefix payload (put16 (bit_xor (fcs16 fcs_init payload) 0xffff)) n m.raw_body eb;
  }
    where
      seen : (i : ℕ) → i < 10 → get_or m.raw_hdr i 0 ≡ get_or hdr i 0
      seen i h = sym (get_or-first 10 i m.raw_hdr h) ∙ ap (λ l. get_or l i 0) eh

  abbrev more : ℕ → List (ℕ × ℕ) → List (ℕ × ℕ)
  more t rest =
      at t hdr ++ (t, asc_stx) ∷ (at t (sealed payload) ++ (t, asc_etx) ∷ (t, asc_eot) ∷ rest)

  laid_out :
      (t : ℕ) (noise : List ℕ) (rest : List (ℕ × ℕ))
      → at t (noise ++ frame_bytes iden type payload) ++ rest
        ≡ at t noise ++ (t, asc_soh) ∷ more t rest
  laid_out t noise rest = simp (at-append, append_assoc)

  -- A frame on the line, behind noise without ASC_SOH, is received.
  pub frame_arrives :
      (t : ℕ) (noise : List ℕ) (rest : List (ℕ × ℕ)) (g : ℕ) (s : Fsm)
      → length noise + 2 ≤ g
      → All (λ c. c ≢ asc_soh) noise
      → s.port.input ≡ at t (noise ++ frame_bytes iden type payload) ++ rest
      → t ≤ s.port.polls
      → IsQuiet s
      → (e : Fsm) × (fsm_recv g s ≡ some (fsm_ok, e))
        × (e.port.input ≡ rest)
        × Delivered iden type payload e.framebuf
        × Heard noise s e
  unfolding fsm_recv
  frame_arrives t noise rest g s h clean input arrived q =
      receive-ready asc_soh recv_frame t (more t rest) rest
        (λ e. Delivered iden type payload e.framebuf) after noise g s h clean
        (input ∙ laid_out t noise rest) arrived q
    where
      after :
          (f : ℕ) (r : Fsm)
          → r.port.input ≡ more t rest
          → t ≤ r.port.polls
          → (v : Takes tt rest r (recv_frame (suc f) r)) × Delivered iden type payload
              v.end.framebuf
      after f r i a =
          let (v, shown) =
            recv_frame-ready f t hdr (sealed payload) rest r refl hdr_good size
              (fcs16-residue fcs_init payload (omega arith) bytes) i a in
          (v, delivered v.end.framebuf _ shown.0 shown.1)

-- Framing is undone by receiving. If `sender`, its line still empty, sends a payload of fewer than
-- 2 ^ 16 bytes with a four-byte type, and the receiver's line holds those bytes behind noise that
-- has no ASC_SOH, all arrived, and neither TIMER_RESET nor TIMER_RESEND falls due, then `fsm_recv`
-- with more than `length noise + 1` rounds of fuel returns FSM_OK, has taken exactly the noise and
-- the frame off the line, holds the sender's identifier, the length, type and payload in its frame
-- buffer, sent nothing, passed the noise on, and kept its own identifier and those two timers.
pub fsm_recv-fsm_send :
    (sender : Fsm) (x0 x1 x2 x3 : ℕ) (payload : List ℕ) (t : ℕ) (noise : List ℕ)
    (rest : List (ℕ × ℕ)) (g : ℕ) (s : Fsm)
    → sender.iden < 2 ^ 16
    → IsBytes (x0 ∷ x1 ∷ x2 ∷ x3 ∷ [])
    → IsBytes payload
    → length payload < 2 ^ 16
    → sender.port.sent ≡ []
    → length noise + 2 ≤ g
    → All (λ c. c ≢ asc_soh) noise
    → s.port.input
      ≡ at t (noise ++ (fsm_send (x0 ∷ x1 ∷ x2 ∷ x3 ∷ []) payload sender).port.sent) ++ rest
    → t ≤ s.port.polls
    → IsQuiet s
    → (e : Fsm) × (fsm_recv g s ≡ some (fsm_ok, e))
      × (e.port.input ≡ rest)
      × Delivered sender.iden (x0 ∷ x1 ∷ x2 ∷ x3 ∷ []) payload e.framebuf
      × Heard noise s e
fsm_recv-fsm_send sender x0 x1 x2 x3 payload t noise rest g s small letters bytes short empty h
      clean input arrived q =
    frame_arrives sender.iden x0 x1 x2 x3 payload small letters bytes short t noise rest g s h clean
      (input ∙ ap (λ l. at t (noise ++ l) ++ rest) sent) arrived q
  where
    sent :
        (fsm_send (x0 ∷ x1 ∷ x2 ∷ x3 ∷ []) payload sender).port.sent
        ≡ frame_bytes sender.iden (x0 ∷ x1 ∷ x2 ∷ x3 ∷ []) payload
    sent =
        ap (λ r. r.port.sent) (fsm_send-write (x0 ∷ x1 ∷ x2 ∷ x3 ∷ []) payload sender)
        ∙ sent-write _ sender
        ∙ ap (λ l. l ++ frame_bytes sender.iden (x0 ∷ x1 ∷ x2 ∷ x3 ∷ []) payload) empty
