-- ===== src/Pup/Download.antt =====
-- The device's side of the protocol, `fsm_download` of pup/fsm.c, as a step function: one round of
-- one of its loops at a time, with the label `reset` as a state.
pub mod Order
pub mod Run
use dma.Base.{
  ℕ, zero, suc, ◌+◌, ◌*◌, ◌/◌, ◌%◌, ◌^◌, u8, u16, u32, Bool, true, false, ◌&&◌, ◌==◌, ltb,
}
use dma.Base.{if◌then◌else◌, Option, none, some, List, [], ◌∷◌, length, get_or}
use dma.Pup.Port.{Timer, Fsm, Mframe, TimerId, fsm_timer_clear, set_timer, timer_of}
use dma.Pup.Wire.{type_poll, type_chnk, type_rqch, type_boot, frame_iden, frame_plen, frame_type}
use dma.Pup.Wire.{frame_body, fsm_send, fsm_send_ack, le16_at}
use dma.Pup.Recv.{Status, fsm_ok, fsm_reset, fsm_resend, fsm_recv, fsm_recv_ack}
use dma.Pup.Image.{Meta, Loader}
use dma.Pup.Image.Load.{XzRet, platform_init_meta, platform_feed, platform_load_image}

-- `memcmp` of a type
abbrev pub same_bytes : List ℕ → List ℕ → Bool
same_bytes [] [] = true
same_bytes (x ∷ xs) (y ∷ ys) = x == y && same_bytes xs ys
same_bytes _ _ = false

abbrev pub le32_at : List ℕ → ℕ → ℕ
le32_at xs i = le16_at xs i + 2 ^ 16 * le16_at xs (suc (suc i))

abbrev pub le32 : ℕ → List ℕ
le32 x = u8 x ∷ u8 (x / 2 ^ 8) ∷ u8 (x / 2 ^ 16) ∷ u8 (x / 2 ^ 24) ∷ []

-- `sizeof(meta_t)`: five words, padding, and a 64-bit address.
abbrev pub meta_size : ℕ
meta_size = 32

-- `memcpy(&meta, framebuf.raw_body, sizeof meta)`
abbrev pub meta_of : List ℕ → Meta
meta_of b = record {
  image_format = le32_at b 0;
  compression_type = le32_at b 4;
  wire_size = le32_at b 8;
  mem_size = le32_at b 12;
  mem_crc32 = le32_at b 16;
  load_addr = le32_at b 24 + 2 ^ 32 * le32_at b 28;
}

abbrev pub chunk_count : ℕ → ℕ
chunk_count wire_size = u32 (wire_size + 0xfffe) / 0xffff

-- `fsm_init`
unfoldable pub fsm_init : Fsm → Fsm
fsm_init s =
    let off : Timer = record { last = 0; period = 0; active = false } in
    record s { reset = off; resend = off; symbol = off }

-- Where `fsm_download` stands.
pub data Phase : Type 0 where
  resetting polling : Phase
  requesting : ℕ → ℕ → Phase
  booting : Bool → Phase
  booted : Phase

abbrev pub stopped : TimerId → Fsm → Fsm
stopped id s = let t = timer_of id s in set_timer id (record t { active = false }) s

abbrev pub on_fsm : {X : Type 0} → (Fsm → Fsm) → Loader X → Loader X
on_fsm f l = record l { fsm = f l.fsm }

module _ {X : Type 0} (init_meta : Meta → Loader X → Bool × Loader X)
    (feed : ℕ → List ℕ → Loader X → Option (Bool × Loader X))
    (load_image : Loader X → Bool × Loader X) (g : ℕ) where
  -- `reset:`
  abbrev pub at_reset : Loader X → Loader X
  at_reset l =
      on_fsm
        (λ s. stopped TimerId.timer_resend (stopped TimerId.timer_reset (record s { iden = 0 }))) l

  pub is_poll : Mframe → Bool
  is_poll m = same_bytes (frame_type m) type_poll && frame_iden m == 0 && frame_plen m == meta_size

  -- The metadata of a HOST_POLL.
  pub announce : Meta → Loader X → Phase × Loader X
  announce m l =
      let (ok, l') = init_meta m l in
      if ok
      then (
        requesting (chunk_count m.wire_size) 0,
        on_fsm (λ s. fsm_send_ack 0 (fsm_timer_clear TimerId.timer_reset s)) l',
      )
      else (resetting, l')

  pub poll : Loader X → Option (Phase × Loader X)
  poll l = elim (fsm_recv g l.fsm) [
    | none ↦ none
    | some (fsm_ok, s) ↦
        if is_poll s.framebuf
        then some (announce (meta_of s.framebuf.raw_body) (record l { fsm = s }))
        else some (polling, record l { fsm = s })
    | some (_, s) ↦ some (polling, record l { fsm = s })
  ]

  -- The chunk that was asked for.
  pub take_chunk : ℕ → ℕ → Loader X → Option (Phase × Loader X)
  take_chunk count num l =
      let m = l.fsm.framebuf in
      elim (feed num (frame_body (frame_plen m) m) l) [
        | none ↦ none
        | some (true, l') ↦ some (
          requesting count (num + 1),
          on_fsm
              (λ s.
                let t = fsm_timer_clear TimerId.timer_reset s in
                record t { iden = u16 (t.iden + 1) })
              l',
        )
        | some (false, l') ↦ some (resetting, l')
      ]

  pub request : ℕ → ℕ → Loader X → Option (Phase × Loader X)
  request count num l =
      elim (fsm_recv g
        (fsm_timer_clear TimerId.timer_resend (fsm_send type_rqch (le32 num) l.fsm))) [
          | none ↦ none
          | some (fsm_ok, s) ↦
              if same_bytes (frame_type s.framebuf) type_chnk && frame_iden s.framebuf == s.iden
              then take_chunk count num (record l { fsm = s })
              else some (requesting count num, record l { fsm = s })
          | some (fsm_reset, s) ↦ some (resetting, record l { fsm = s })
          | some (fsm_resend, s) ↦ some (requesting count num, record l { fsm = s })
        ]

  -- All chunks are there.
  pub load : Loader X → Phase × Loader X
  load l =
      let (ok, l') = load_image l in (booting ok, on_fsm (fsm_timer_clear TimerId.timer_reset) l')

  pub announce_boot : Bool → Loader X → Option (Phase × Loader X)
  announce_boot ok l =
      elim (fsm_recv_ack l.fsm.iden g (
        fsm_timer_clear TimerId.timer_resend
          (fsm_send type_boot ((if ok then 1 else 0) ∷ []) l.fsm))) [
            | none ↦ none
            | some (fsm_ok, s) ↦ some (booted, record l { fsm = s })
            | some (fsm_reset, s) ↦ some (resetting, record l { fsm = s })
            | some (fsm_resend, s) ↦ some (booting ok, record l { fsm = s })
          ]

  unfoldable pub download_step : Phase → Loader X → Option (Phase × Loader X)
  download_step resetting l = some (polling, at_reset l)
  download_step polling l = poll l
  download_step (requesting count num) l =
      if ltb num count then request count num l else some (load l)
  download_step (booting ok) l = announce_boot ok l
  download_step booted l = some (booted, l)
