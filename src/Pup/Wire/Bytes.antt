-- ===== src/Pup/Wire/Bytes.antt =====
-- What `fsm_send` and `fsm_send_ack` put on the line, as one string of bytes.
use dma.Base.{ℕ, ◌≡◌, refl, sym, ap, u16, bit_xor}
use dma.Base.{List, [], ◌∷◌, ◌++◌, length, append_assoc, append-nil}
use dma.Pup.Port.{Fsm, platform_put, platform_write}
use dma.Pup.Fcs.{fcs16, fcs_init}
use dma.Pup.Fcs.Serial.{fcs16-append}
use dma.Pup.Fcs.Residue.{put16}
use dma.Pup.Wire.{asc_soh, asc_stx, asc_etx, asc_eot, asc_ack, fsm_put16, fsm_put16_fcs, put_type}
use dma.Pup.Wire.{fsm_send, fsm_send_ack}

-- A message with its frame check sequence.
abbrev pub sealed : List ℕ → List ℕ
sealed bs = bs ++ put16 (bit_xor (fcs16 fcs_init bs) 0xffff)

abbrev pub header : ℕ → List ℕ → List ℕ → List ℕ
header iden type payload = put16 iden ++ put16 (u16 (length payload)) ++ type

-- The general wire protocol of pup/README.md.
abbrev pub frame_bytes : ℕ → List ℕ → List ℕ → List ℕ
frame_bytes iden type payload =
    asc_soh
    ∷ (sealed (header iden type payload) ++ asc_stx ∷ (sealed payload ++ asc_etx ∷ asc_eot ∷ []))

abbrev pub ack_bytes : ℕ → List ℕ
ack_bytes iden = asc_ack ∷ (sealed (put16 iden) ++ asc_eot ∷ [])

write-write :
    (xs ys : List ℕ) (s : Fsm)
    → platform_write ys (platform_write xs s) ≡ platform_write (xs ++ ys) s
unfolding platform_write
write-write xs ys s =
    ap (λ l. let p = s.port in record s { port = record p { sent = l } })
      (append_assoc s.port.sent xs ys)

pub sent-write : (xs : List ℕ) (s : Fsm) → (platform_write xs s).port.sent ≡ s.port.sent ++ xs
unfolding platform_write
sent-write xs s = refl

write-nil : (s : Fsm) → platform_write [] s ≡ s
unfolding platform_write
write-nil s =
    ap (λ l. let p = s.port in record s { port = record p { sent = l } }) (append-nil s.port.sent)

put-write : (x : ℕ) (s : Fsm) → platform_put x s ≡ platform_write (x ∷ []) s
unfolding platform_put platform_write
put-write x s = refl

put16-write : (x : ℕ) (s : Fsm) → fsm_put16 x s ≡ platform_write (put16 x) s
unfolding fsm_put16
put16-write x s = simp (put-write, write-write)

put16_fcs-write :
    (x fcs : ℕ) (s : Fsm)
    → fsm_put16_fcs x fcs s ≡ (fcs16 fcs (put16 x), platform_write (put16 x) s)
unfolding fsm_put16_fcs fcs16
put16_fcs-write x fcs s = simp (put-write, write-write)

put_type-write :
    (bs : List ℕ) (fcs : ℕ) (s : Fsm) → put_type bs fcs s ≡ (fcs16 fcs bs, platform_write bs s)
unfolding put_type fcs16
put_type-write [] fcs s = ap (λ t. (fcs, t)) (sym (write-nil s))
put_type-write (b ∷ bs) fcs s = simp (put_type-write bs, put-write, write-write)

-- `fsm_send` puts exactly the frame of its identifier, type and payload on the line, and changes
-- nothing else.
pub fsm_send-write :
    (type payload : List ℕ) (s : Fsm)
    → fsm_send type payload s ≡ platform_write (frame_bytes s.iden type payload) s
unfolding fsm_send
fsm_send-write type payload s = simp (
  put-write,
  put16-write,
  put16_fcs-write,
  put_type-write,
  write-write,
  ← fcs16-append,
  append_assoc,
)

-- `fsm_send_ack` puts exactly the acknowledgement of its identifier on the line.
pub fsm_send_ack-write :
    (iden : ℕ) (s : Fsm) → fsm_send_ack iden s ≡ platform_write (ack_bytes iden) s
unfolding fsm_send_ack
fsm_send_ack-write iden s =
    simp (put-write, put16-write, put16_fcs-write, write-write, append_assoc)
