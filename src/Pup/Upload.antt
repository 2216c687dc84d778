-- ===== src/Pup/Upload.antt =====
-- The host's side of the protocol, `fsm_upload` of pup/fsm.c, as a step function over its loops,
-- with `platform_marshal` of pup/host.c. The hooks are recorded as events.
pub mod Announce
pub mod File
use dma.Base.{ℕ, zero, suc, ◌+◌, ◌-◌, ◌*◌, ◌/◌, ◌^◌, u8, u16, Bool, true, false, ◌&&◌, ◌==◌}
use dma.Base.{if◌then◌else◌, Option, none, some, List, [], ◌∷◌, ◌++◌, take, drop, get_or}
use dma.Pup.Port.{Fsm, Mframe, TimerId, fsm_timer_clear}
use dma.Pup.Wire.{type_poll, type_chnk, type_rqch, type_beat, type_boot, frame_iden, frame_plen}
use dma.Pup.Wire.{frame_type, fsm_send, fsm_send_ack}
use dma.Pup.Recv.{Status, fsm_ok, fsm_reset, fsm_resend, fsm_recv, fsm_recv_ack}
use dma.Pup.Image.{Meta}
use dma.Pup.Download.{same_bytes, le32, le32_at, stopped}

-- `struct uploader_hooks`, as what was called; `on_passthru` is `passed` of the line.
pub data Event : Type 0 where
  on_poll_acked on_heartbeat on_all_chunks : Event
  on_sent_chunk : ℕ → Event

-- `enum fsm_upload_status`
pub data UploadStatus : Type 0 where
  upload_ok upload_timeout upload_failed : UploadStatus

-- `fsm`, the variable `retries`, and the hooks' calls.
pub record Upload : Type 0 where
  pub fsm : Fsm
  pub retries : ℕ
  pub events : List Event

-- Where `fsm_upload` stands; `exited` is `exit(1)` in `platform_marshal`.
pub data UploadPhase : Type 0 where
  up_reset up_polling up_beats up_boot : UploadPhase
  up_chunks : ℕ → UploadPhase
  finished : UploadStatus → UploadPhase
  exited : UploadPhase

-- `meta_t` as the wire has it: five words, four bytes of padding, the 64-bit load address.
abbrev pub meta_bytes : Meta → List ℕ
meta_bytes m =
    le32 m.image_format
    ++ le32 m.compression_type
    ++ le32 m.wire_size
    ++ le32 m.mem_size
    ++ le32 m.mem_crc32
    ++ le32 0
    ++ le32 m.load_addr
    ++ le32 (m.load_addr / 2 ^ 32)

abbrev pub staging_size : ℕ
staging_size = 0xffff

-- `platform_marshal`: the chunk of the input file, or `none` where the program exits because the
-- chunk lies past its end.
unfoldable pub platform_marshal : List ℕ → ℕ → Option (List ℕ)
platform_marshal file num = elim (take staging_size (drop (num * staging_size) file)) [
  | [] ↦ none
  | b ∷ bs ↦ some (b ∷ bs)
]

abbrev pub with_fsm : Fsm → Upload → Upload
with_fsm s u = record u { fsm = s }

abbrev pub called : Event → Upload → Upload
called e u = record u { events = u.events ++ (e ∷ []) }

abbrev pub restart_reset : Upload → Upload
restart_reset u = with_fsm (fsm_timer_clear TimerId.timer_reset u.fsm) u

-- `!memcmp(type, framebuf.type, 4) && framebuf.plen == size`
abbrev pub is_frame : List ℕ → ℕ → Mframe → Bool
is_frame type size m = same_bytes type (frame_type m) && frame_plen m == size

module _ (meta : Meta) (file : List ℕ) (g : ℕ) where
  -- `reset:`
  pub try_again : Upload → UploadPhase × Upload
  try_again u =
      if u.retries == 0
      then (finished upload_timeout, u)
      else let s = stopped TimerId.timer_resend (record (u.fsm) { iden = 0 }) in
        (
          up_polling,
          record u { retries = u.retries - 1; fsm = fsm_timer_clear TimerId.timer_reset s },
        )

  pub poll_device : Upload → Option (UploadPhase × Upload)
  poll_device u =
      elim (fsm_recv_ack 0 g
        (fsm_timer_clear TimerId.timer_resend (fsm_send type_poll (meta_bytes meta) u.fsm))) [
          | none ↦ none
          | some (fsm_reset, s) ↦ some (up_reset, with_fsm s u)
          | some (fsm_resend, s) ↦ some (up_polling, with_fsm s u)
          | some (fsm_ok, s) ↦
              let v = restart_reset (called on_poll_acked (with_fsm s u)) in
              some (up_chunks 0, with_fsm (stopped TimerId.timer_resend v.fsm) v)
        ]

  -- A request for a chunk: the answer bears the request's identifier.
  pub send_chunk : ℕ → Upload → UploadPhase × Upload
  send_chunk last u =
      let m = u.fsm.framebuf in
      let num = le32_at m.raw_body 0 in
      elim (platform_marshal file num) [
        | none ↦ (exited, u)
        | some bytes ↦
            let s = fsm_send type_chnk bytes (record (u.fsm) { iden = frame_iden m }) in
            let v = called (on_sent_chunk num) (with_fsm (record s { iden = u.fsm.iden }) u) in
            (up_chunks num, if last == num then v else restart_reset v)
      ]

  -- A frame in the loop that answers requests.
  pub answer : ℕ → Upload → UploadPhase × Upload
  answer last u =
      let m = u.fsm.framebuf in
      if is_frame type_beat 0 m
      then (up_beats, restart_reset (called on_heartbeat (called on_all_chunks u)))
      else if is_frame type_boot 1 m
      then (up_boot, called on_all_chunks u)
      else if is_frame type_rqch 4 m
      then send_chunk last u
      else (up_chunks last, u)

  pub serve_chunks : ℕ → Upload → Option (UploadPhase × Upload)
  serve_chunks last u = elim (fsm_recv g u.fsm) [
    | none ↦ none
    | some (fsm_reset, s) ↦ some (up_reset, with_fsm s u)
    | some (_, s) ↦ some (answer last (with_fsm s u))
  ]

  pub await_boot : Upload → Option (UploadPhase × Upload)
  await_boot u = elim (fsm_recv g u.fsm) [
    | none ↦ none
    | some (fsm_reset, s) ↦ some (up_reset, with_fsm s u)
    | some (_, s) ↦
        let v = with_fsm s u in
        if is_frame type_beat 0 s.framebuf
        then some (up_beats, restart_reset (called on_heartbeat v))
        else if is_frame type_boot 1 s.framebuf
        then some (up_boot, v)
        else some (up_beats, v)
  ]

  -- `received_boot:`
  pub received_boot : Upload → UploadPhase × Upload
  received_boot u =
      let m = u.fsm.framebuf in
      let v = with_fsm (fsm_send_ack (frame_iden m) u.fsm) u in
      (finished (if get_or m.raw_body 0 0 == 0 then upload_failed else upload_ok), v)

  unfoldable pub upload_step : UploadPhase → Upload → Option (UploadPhase × Upload)
  upload_step up_reset u = some (try_again u)
  upload_step up_polling u = poll_device u
  upload_step (up_chunks last) u = serve_chunks last u
  upload_step up_beats u = await_boot u
  upload_step up_boot u = some (received_boot u)
  upload_step (finished r) u = some (finished r, u)
  upload_step exited u = some (exited, u)
