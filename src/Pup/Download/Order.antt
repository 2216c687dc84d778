-- ===== src/Pup/Download/Order.antt =====
-- The identifier counts the chunks that were taken.
use dma.Base.{ℕ, ◌+◌, ◌≡◌, refl, ap, ◌∙◌, arith, u16, Bool, true, false, ltb}
use dma.Base.{◌==◌, ◌&&◌, if◌then◌else◌, Option, none, some, List, [], ◌∷◌}
use dma.Pup.Port.{Fsm, TimerId, fsm_timer_clear, platform_write}
use dma.Pup.Wire.{
  fsm_send, fsm_send_ack, type_rqch, type_chnk, type_boot, frame_type, frame_iden, frame_body,
}
use dma.Pup.Wire.{frame_plen}
use dma.Pup.Wire.Bytes.{fsm_send-write, fsm_send_ack-write}
use dma.Pup.Recv.{Status, fsm_ok, fsm_reset, fsm_resend, fsm_recv, fsm_recv_ack}
use dma.Pup.Recv.Iden.{Answers, fsm_recv-iden}
use dma.Pup.Image.{Meta, Loader}
use dma.Pup.Download.{Phase, resetting, polling, requesting, booting, booted, download_step}
use dma.Pup.Download.{
  is_poll, announce, poll, take_chunk, request, load, announce_boot, on_fsm, same_bytes,
}
use dma.Pup.Download.{chunk_count, meta_of, le32}

send-iden : (type payload : List ℕ) (s : Fsm) → (fsm_send type payload s).iden ≡ s.iden
unfolding platform_write
send-iden type payload s = ap (λ t. t.iden) (fsm_send-write type payload s)

ack-iden : (iden : ℕ) (s : Fsm) → (fsm_send_ack iden s).iden ≡ s.iden
unfolding platform_write
ack-iden iden s = ap (λ t. t.iden) (fsm_send_ack-write iden s)

clear-iden : (id : TimerId) (s : Fsm) → (fsm_timer_clear id s).iden ≡ s.iden
unfolding fsm_timer_clear
clear-iden TimerId.timer_reset s = refl
clear-iden TimerId.timer_resend s = refl
clear-iden TimerId.timer_symbol s = refl

-- While chunks are asked for, the identifier is the chunk's number, as 16 bits.
abbrev pub Synced : {X : Type 0} → Phase → Loader X → Type 0
Synced resetting l = Unit
Synced polling l = l.fsm.iden ≡ 0
Synced (requesting count num) l = l.fsm.iden ≡ u16 num
Synced (booting ok) l = Unit
Synced booted l = Unit

abbrev pub SyncedAfter : {X : Type 0} → Option (Phase × Loader X) → Type 0
SyncedAfter none = Unit
SyncedAfter (some (p, l)) = Synced p l

abbrev pub FeedKeeps : {X : Type 0} → Loader X → Option (Bool × Loader X) → Type 0
FeedKeeps l none = Unit
FeedKeeps l (some (ok, l')) = l'.fsm.iden ≡ l.fsm.iden

module _ {X : Type 0} (init_meta : Meta → Loader X → Bool × Loader X)
    (feed : ℕ → List ℕ → Loader X → Option (Bool × Loader X))
    (load_image : Loader X → Bool × Loader X) (g : ℕ)
    (init_keeps : (m : Meta) (l : Loader X) → (init_meta m l).1.fsm.iden ≡ l.fsm.iden)
    (feed_keeps : (num : ℕ) (xs : List ℕ) (l : Loader X) → FeedKeeps l (feed num xs l)) where
  announce-Synced :
      (m : Meta) (l : Loader X)
      → l.fsm.iden ≡ 0
      → SyncedAfter (some (announce init_meta feed load_image g m l))
  unfolding announce
  announce-Synced m l e = go (init_meta m l).0 (init_meta m l).1 (init_keeps m l)
    where
      go :
          (ok : Bool) (l' : Loader X)
          → l'.fsm.iden ≡ l.fsm.iden
          → SyncedAfter (
              some (
                if ok
                then (
                  requesting (chunk_count m.wire_size) 0,
                  on_fsm (λ s. fsm_send_ack 0 (fsm_timer_clear TimerId.timer_reset s)) l',
                )
                else (resetting, l')))
      go true l' k =
          ack-iden 0 (fsm_timer_clear TimerId.timer_reset l'.fsm)
          ∙ clear-iden TimerId.timer_reset l'.fsm
          ∙ k
          ∙ e
      go false l' k = tt

  take_chunk-Synced :
      (count num : ℕ) (l : Loader X)
      → l.fsm.iden ≡ u16 num
      → SyncedAfter (take_chunk init_meta feed load_image g count num l)
  unfolding take_chunk
  take_chunk-Synced count num l e =
      go (feed num (frame_body (frame_plen l.fsm.framebuf) l.fsm.framebuf) l) (feed_keeps num _ l)
    where
      go :
          (o : Option (Bool × Loader X))
          → FeedKeeps l o
          → SyncedAfter (elim o as (λ _. Option (Phase × Loader X)) [
            | none ↦ none
            | some (true, l') ↦ some (
              requesting count (num + 1),
              on_fsm
                  (λ s.
                    let t = fsm_timer_clear TimerId.timer_reset s in
                    record t { iden = u16 (t.iden + 1) })
                  l',
            )
            | some (false, l') ↦ some (resetting, l')
          ])
      go none k = tt
      go (some (true, l')) k = omega (arith, clear-iden TimerId.timer_reset l'.fsm, k, e)
      go (some (false, l')) k = tt

  poll-Synced : (l : Loader X) → l.fsm.iden ≡ 0 → SyncedAfter (poll init_meta feed load_image g l)
  unfolding poll
  poll-Synced l e = go (fsm_recv g l.fsm) (fsm_recv-iden g l.fsm)
    where
      accepted :
          (b : Bool) (s : Fsm)
          → s.iden ≡ l.fsm.iden
          → SyncedAfter (
              if b
              then some (
                  announce init_meta feed load_image g
                    (meta_of s.framebuf.raw_body)
                    (record l { fsm = s }))
              else some (polling, record l { fsm = s }))
      accepted true s k =
          announce-Synced (meta_of s.framebuf.raw_body) (record l { fsm = s }) (k ∙ e)
      accepted false s k = k ∙ e

      go :
          (o : Option (Status × Fsm))
          → Answers l.fsm o
          → SyncedAfter (elim o as (λ _. Option (Phase × Loader X)) [
            | none ↦ none
            | some (fsm_ok, s) ↦
                if is_poll init_meta feed load_image g s.framebuf
                then some (
                    announce init_meta feed load_image g
                      (meta_of s.framebuf.raw_body)
                      (record l { fsm = s }))
                else some (polling, record l { fsm = s })
            | some (_, s) ↦ some (polling, record l { fsm = s })
          ])
      go none k = tt
      go (some (fsm_ok, s)) k = accepted (is_poll init_meta feed load_image g s.framebuf) s k
      go (some (fsm_reset, s)) k = k ∙ e
      go (some (fsm_resend, s)) k = k ∙ e

  asked : ℕ → Loader X → Fsm
  asked num l = fsm_timer_clear TimerId.timer_resend (fsm_send type_rqch (le32 num) l.fsm)

  asked-iden : (num : ℕ) (l : Loader X) → (asked num l).iden ≡ l.fsm.iden
  unfolding asked
  asked-iden num l =
      clear-iden TimerId.timer_resend (fsm_send type_rqch (le32 num) l.fsm)
      ∙ send-iden type_rqch (le32 num) l.fsm

  request-Synced :
      (count num : ℕ) (l : Loader X)
      → l.fsm.iden ≡ u16 num
      → SyncedAfter (request init_meta feed load_image g count num l)
  unfolding request asked
  request-Synced count num l e = go (fsm_recv g (asked num l)) (fsm_recv-iden g (asked num l))
    where
      taken :
          (b : Bool) (s : Fsm)
          → s.iden ≡ u16 num
          → SyncedAfter (
              if b
              then take_chunk init_meta feed load_image g count num (record l { fsm = s })
              else some (requesting count num, record l { fsm = s }))
      taken true s k = take_chunk-Synced count num (record l { fsm = s }) k
      taken false s k = k

      go :
          (o : Option (Status × Fsm))
          → Answers (asked num l) o
          → SyncedAfter (elim o as (λ _. Option (Phase × Loader X)) [
            | none ↦ none
            | some (fsm_ok, s) ↦
                if same_bytes (frame_type s.framebuf) type_chnk && frame_iden s.framebuf == s.iden
                then take_chunk init_meta feed load_image g count num (record l { fsm = s })
                else some (requesting count num, record l { fsm = s })
            | some (fsm_reset, s) ↦ some (resetting, record l { fsm = s })
            | some (fsm_resend, s) ↦ some (requesting count num, record l { fsm = s })
          ])
      go none k = tt
      go (some (fsm_ok, s)) k =
          taken (same_bytes (frame_type s.framebuf) type_chnk && frame_iden s.framebuf == s.iden) s
            (k ∙ asked-iden num l ∙ e)
      go (some (fsm_reset, s)) k = tt
      go (some (fsm_resend, s)) k = k ∙ asked-iden num l ∙ e

  booting-Synced :
      (ok : Bool) (l : Loader X) → SyncedAfter (announce_boot init_meta feed load_image g ok l)
  unfolding announce_boot
  booting-Synced ok l = go (
      fsm_recv_ack l.fsm.iden g (
        fsm_timer_clear TimerId.timer_resend
          (fsm_send type_boot ((if ok then 1 else 0) ∷ []) l.fsm)))
    where
      go :
          (o : Option (Status × Fsm))
          → SyncedAfter (elim o as (λ _. Option (Phase × Loader X)) [
            | none ↦ none
            | some (fsm_ok, s) ↦ some (booted, record l { fsm = s })
            | some (fsm_reset, s) ↦ some (resetting, record l { fsm = s })
            | some (fsm_resend, s) ↦ some (booting ok, record l { fsm = s })
          ])
      go none = tt
      go (some (fsm_ok, s)) = tt
      go (some (fsm_reset, s)) = tt
      go (some (fsm_resend, s)) = tt

  pub step-Synced :
      (p : Phase) (l : Loader X)
      → Synced p l
      → SyncedAfter (download_step init_meta feed load_image g p l)
  unfolding download_step load
  step-Synced resetting l e = refl
  step-Synced polling l e = poll-Synced l e
  step-Synced (requesting count num) l e = go (ltb num count) (request-Synced count num l e)
    where
      go :
          (b : Bool)
          → SyncedAfter (request init_meta feed load_image g count num l)
          → SyncedAfter (
              if b
              then request init_meta feed load_image g count num l
              else some (load init_meta feed load_image g l))
      go true k = k
      go false k = tt
  step-Synced (booting ok) l e = booting-Synced ok l
  step-Synced booted l e = tt
