-- ===== src/Pup/Tests.antt =====
-- Runs of the protocol at concrete inputs.
mod Host
use dma.Base.{ℕ, ◌≡◌, ◌≢◌, refl, arith, true, false, bit_xor}
use dma.Base.{some, List, [], ◌∷◌, ◌++◌}
use dma.Pup.Port.{Fsm, Timer, timer_triggered, platform_write}
use dma.Pup.Fcs.{fcs16, fcs_byte, fcs_init, fcs_ok}
use dma.Pup.Fcs.Serial.{fcs_poly, fcs16-serial}
use dma.Pup.Fcs.Residue.{put16, fcs16-residue}
use dma.Pup.Fcs.Detect.{fcs16-burst}
use dma.Pup.Crc.Table.{crc32_tab}
use dma.Pup.Fcs.Table.{fcstab}
use dma.Pup.Crc.{crc32, crc32_loop}
use dma.Pup.Crc.Serial.{crc_poly, crc32-serial, crc32-append}
use dma.Base.{Bool, ◌==◌, none}
use dma.Pup.Crc.{crc_init}
use dma.Pup.Image.{Meta, Loader, no_reloc, image_flat_binary, compress_none, image_base, relocate}
use dma.Pup.Image.{overlap}
use dma.Pup.Image.Load.{XzRet, xz_error, platform_init_meta, platform_load_image}
use dma.Pup.Image.Deliver.{Holds}
use dma.Pup.Image.Booted.{feed_chunks, platform_feed-Holds, platform_load_image-fed}
use dma.Base.{zero, suc, ◌⊎◌, ◌+◌, ◌*◌, ◌/◌, ◌<◌, ◌≤◌}
use dma.Pup.Config.{timeout_us, timeout_us_lem}
use dma.Base.{length, ltb, if◌then◌else◌}
use dma.Dma.{Reservations, Acquired, dmakit_channel_acquire, dmakit_channel_acquire-Acquired}
use dma.Pup.Download.{requesting, meta_of, meta_size}
use dma.Pup.Upload.{meta_bytes}
use dma.Pup.Upload.Announce.{meta_of-meta_bytes}
use dma.Pup.Download.Order.{SyncedAfter}
use dma.Pup.Download.Run.{fsm_download, fsm_download-Synced}
use dma.Pup.Elf.{Range, MemoryMap, slot, insert_at, claim_space, elf_max_segments}
use dma.Pup.Elf.Sorted.{IsSorted, Claimed, claim_space-Claimed}
use dma.Pup.Elf.Load.{LoaderOps, register_segments}
use dma.Pup.Elf.Bounds.{Bounded, register_segments-Bounded}
use dma.Pup.Serial.{serial}
use dma.Pup.Wire.{asc_soh, type_chnk, fsm_send, fsm_send_ack}
use dma.Pup.Wire.Bytes.{frame_bytes, fsm_send-write}
use dma.Pup.Recv.{fsm_ok, fsm_recv, fsm_recv_ack}
use dma.Pup.Recv.Ready.{at}
use dma.Pup.Recv.Noise.{IsQuiet, Heard}
use dma.Pup.Recv.RoundTrip.{Delivered, fsm_recv-fsm_send}
use dma.Pup.Recv.Ack.{fsm_recv_ack-fsm_send_ack}
use dma.Pup.Recv.Eats.{Reads}
use dma.Pup.Recv.Inverse.{Framed}
use dma.Pup.Recv.Sound.{fsm_recv-Framed}

-- The check value of RFC 1662's FCS and of CRC-32 over "123456789".
abbrev digits : List ℕ
digits = b'1' ∷ b'2' ∷ b'3' ∷ b'4' ∷ b'5' ∷ b'6' ∷ b'7' ∷ b'8' ∷ b'9' ∷ []

fcs16-digits : bit_xor (fcs16 fcs_init digits) 0xffff ≡ 0x906e
unfolding fcs16 fcs_byte fcstab
fcs16-digits = refl

crc32-digits : crc32 0 digits ≡ 0xcbf43926
unfolding crc32 crc32_loop crc32_tab
crc32-digits = refl

fcs16-serial_example : fcs16 fcs_init (1 ∷ 200 ∷ []) ≡ serial fcs_poly fcs_init (1 ∷ 200 ∷ [])
fcs16-serial_example = fcs16-serial fcs_init (1 ∷ 200 ∷ []) (omega arith) (omega arith)

fcs16-residue_example :
    fcs16 fcs_init (1 ∷ 200 ∷ put16 (bit_xor (fcs16 fcs_init (1 ∷ 200 ∷ [])) 0xffff)) ≡ fcs_ok
fcs16-residue_example = fcs16-residue fcs_init (1 ∷ 200 ∷ []) (omega arith) (omega arith)

fcs16-burst_example : fcs16 fcs_init (9 ∷ 1 ∷ 2 ∷ 7 ∷ []) ≢ fcs16 fcs_init (9 ∷ 1 ∷ 3 ∷ 7 ∷ [])
fcs16-burst_example =
    fcs16-burst fcs_init (9 ∷ []) 1 2 1 3 (7 ∷ []) (omega arith) (omega arith) (omega arith)
      (omega arith) (omega arith)

crc32-serial_example :
    crc32 0 (1 ∷ 200 ∷ [])
    ≡ bit_xor (serial crc_poly (bit_xor 0 0xffff_ffff) (1 ∷ 200 ∷ [])) 0xffff_ffff
crc32-serial_example = crc32-serial 0 (1 ∷ 200 ∷ []) (omega arith)

-- Two ends of a line, no timer running.
abbrev off : Timer
off = record { last = 0; period = 0; active = false }

abbrev end_with : List (ℕ × ℕ) → ℕ → Fsm
end_with input iden = record {
  reset = off;
  resend = off;
  symbol = off;
  iden = iden;
  has_passthru = true;
  framebuf = record { raw_hdr = []; raw_body = [] };
  port = record { clock = λ n. n; polls = 0; input = input; sent = []; passed = [] };
}

abbrev sender : Fsm
sender = end_with [] 5

-- The bytes of a frame with identifier 5 and body 7, 8, two bytes of noise before it.
abbrev line : List (ℕ × ℕ)
line = at 0 (40 ∷ 41 ∷ (fsm_send type_chnk (7 ∷ 8 ∷ []) sender).port.sent) ++ []

abbrev receiver : Fsm
receiver = end_with line 0

receiver-IsQuiet : (input : List (ℕ × ℕ)) → IsQuiet (end_with input 0)
unfolding timer_triggered
receiver-IsQuiet input n = (refl, refl)

fsm_send-write_example :
    fsm_send type_chnk (7 ∷ 8 ∷ []) sender
    ≡ platform_write (frame_bytes 5 type_chnk (7 ∷ 8 ∷ [])) sender
fsm_send-write_example = fsm_send-write type_chnk (7 ∷ 8 ∷ []) sender

fsm_recv-fsm_send_example :
    (e : Fsm) × (fsm_recv 4 receiver ≡ some (fsm_ok, e))
    × (e.port.input ≡ [])
    × Delivered 5 type_chnk (7 ∷ 8 ∷ []) e.framebuf
    × Heard (40 ∷ 41 ∷ []) receiver e
fsm_recv-fsm_send_example =
    fsm_recv-fsm_send sender b'C' b'H' b'N' b'K' (7 ∷ 8 ∷ []) 0 (40 ∷ 41 ∷ []) [] 4 receiver
      (omega arith) (omega arith) (omega arith) (omega arith) refl (omega arith) (omega arith) refl
      (omega arith) (receiver-IsQuiet line)

reception : (e : Fsm) × (fsm_recv 4 receiver ≡ some (fsm_ok, e))
reception =
    let (e, r, _, _, _) =
      fsm_recv-fsm_send sender b'C' b'H' b'N' b'K' (7 ∷ 8 ∷ []) 0 (40 ∷ 41 ∷ []) [] 4 receiver
        (omega arith) (omega arith) (omega arith) (omega arith) refl (omega arith) (omega arith)
        refl (omega arith) (receiver-IsQuiet line) in
    (e, r)

fsm_recv-Framed_example :
    (junk : List ℕ) × (u : Fsm) × Reads receiver (junk ++ asc_soh ∷ []) u × Framed u reception.0
fsm_recv-Framed_example = fsm_recv-Framed 4 receiver reception.0 reception.1

-- The same for an acknowledgement of identifier 5.
abbrev ack_line : List (ℕ × ℕ)
ack_line = at 0 (40 ∷ 41 ∷ (fsm_send_ack 5 sender).port.sent) ++ []

fsm_recv_ack-fsm_send_ack_example :
    (e : Fsm) × (fsm_recv_ack 5 4 (end_with ack_line 0) ≡ some (fsm_ok, e))
    × (e.port.input ≡ [])
    × Heard (40 ∷ 41 ∷ []) (end_with ack_line 0) e
fsm_recv_ack-fsm_send_ack_example =
    fsm_recv_ack-fsm_send_ack sender 5 0 (40 ∷ 41 ∷ []) [] 4 (end_with ack_line 0) (omega arith)
      refl (omega arith) (omega arith) refl (omega arith) (receiver-IsQuiet ack_line)

-- A flat binary of six bytes that lies half over the running program.
abbrev announced : Meta
announced = record {
  image_format = image_flat_binary;
  compression_type = compress_none;
  wire_size = 6;
  mem_size = 6;
  mem_crc32 = 0;
  load_addr = 0x8004;
}

abbrev blank : Loader ℕ
blank = record {
  meta = record announced { mem_size = 0 };
  reloc = no_reloc;
  img_start = 0;
  img_end = 0;
  feed = 0;
  xz = none;
  mem = λ a. a;
  fsm = sender;
}

abbrev no_xz : ℕ → List ℕ → XzRet × ℕ × List ℕ × ℕ
no_xz x input = (xz_error, 0, [], x)

abbrev no_elf : Loader ℕ → Bool × Loader ℕ
no_elf l = (false, l)

abbrev set_up : Loader ℕ
set_up = record blank {
  meta = announced;
  img_start = 0x8004;
  img_end = 0x800a;
  feed = 0x8004;
  xz = some 7;
  reloc = record {
    tgt_start = 0x8004;
    tgt_end = 0x8008;
    buf_start = 0x800a;
    buf_end = 0x800e;
    stub_start = 0x8010;
    stub_end = 0x8050;
    size = 4;
  };
}

blank_accepted : platform_init_meta 0x8000 0x8008 64 (some 7) announced blank ≡ (true, set_up)
unfolding platform_init_meta image_base relocate overlap
blank_accepted = refl

abbrev chunks : List (List ℕ)
chunks = (1 ∷ 2 ∷ []) ∷ (3 ∷ 4 ∷ 5 ∷ 6 ∷ []) ∷ []

platform_feed-Holds_example :
    (l₂ : Loader ℕ) × (feed_chunks no_xz 1 chunks set_up ≡ some (true, l₂))
    × Holds 0x8000 0x8008 set_up l₂ (1 ∷ 2 ∷ 3 ∷ 4 ∷ 5 ∷ 6 ∷ [])
platform_feed-Holds_example =
    platform_feed-Holds 0x8000 0x8008 64 (some 7) no_xz no_elf 1 (omega arith) (omega arith)
      announced blank set_up chunks (omega arith) blank_accepted refl (omega arith)

platform_load_image-fed_example :
    (l₂ : Loader ℕ) × (feed_chunks no_xz 1 chunks set_up ≡ some (true, l₂))
    × ((platform_load_image no_elf l₂).0 ≡ (crc32 crc_init (1 ∷ 2 ∷ 3 ∷ 4 ∷ 5 ∷ 6 ∷ []) == 0))
platform_load_image-fed_example =
    platform_load_image-fed 0x8000 0x8008 64 (some 7) no_xz no_elf 1 (omega arith) (omega arith)
      announced blank set_up chunks (omega arith) blank_accepted refl refl refl

-- Three rounds from where chunk 5 of 9 is asked for.
fsm_download-Synced_example :
    SyncedAfter (fsm_download 0x8000 0x8008 64 (some 7) no_xz no_elf 1 4 3 (requesting 9 5) blank)
fsm_download-Synced_example =
    fsm_download-Synced 0x8000 0x8008 64 (some 7) no_xz no_elf 1 4 3 (requesting 9 5) blank refl

-- Two ranges, and one that belongs between them.
abbrev two_cells : ℕ → Range
two_cells zero = record { start = 16; end = 32 }
two_cells (suc i) = record { start = 64; end = 80 }

abbrev two_ranges : MemoryMap
two_ranges = record { cells = two_cells; count = 2 }

two_ranges-IsSorted : IsSorted two_ranges
unfolding IsSorted
two_ranges-IsSorted zero zero le lt = omega arith
two_ranges-IsSorted zero (suc zero) le lt = omega arith
two_ranges-IsSorted zero (suc (suc j)) le lt = absurd (omega arith)
two_ranges-IsSorted (suc i) zero le lt = absurd (omega arith)
two_ranges-IsSorted (suc i) (suc j) le lt = omega arith

abbrev three_ranges : MemoryMap
three_ranges = record {
  cells = insert_at two_ranges.cells 3 1 (record { start = 40; end = 48 });
  count = 3;
}

claimed_between :
    claim_space (record { start = 40; end = 48 }) false two_ranges ≡ some (true, three_ranges)
unfolding claim_space slot
claimed_between = refl

claim_space-Claimed_example :
    Claimed two_ranges
      (record { start = 40; end = 48 })
      false
      (claim_space (record { start = 40; end = 48 }) false two_ranges)
claim_space-Claimed_example =
    claim_space-Claimed two_ranges (record { start = 40; end = 48 }) two_ranges-IsSorted false

abbrev no_ops : LoaderOps
no_ops = record { ops = λ i. record { kind = 0; arg0 = 0; arg1 = 0; arg2 = 0 }; op_count = 0 }

-- Program headers in a memory that reads 1 everywhere.
register_segments-Bounded_example :
    Bounded 4 no_ops (register_segments (λ a. 1) 0 0x1000 2 0 no_ops)
register_segments-Bounded_example =
    register_segments-Bounded (λ a. 1) 0 0x1000 2 0 no_ops (omega arith)

meta_of-meta_bytes_example :
    (meta_of (meta_bytes announced) ≡ announced) × (length (meta_bytes announced) ≡ meta_size)
meta_of-meta_bytes_example = meta_of-meta_bytes announced (omega arith)

-- Channels 0 to 4 are taken.
abbrev five_taken : Reservations
five_taken i = if ltb i 5 then some 7 else none

dmakit_channel_acquire-Acquired_example :
    Acquired five_taken false 9 (dmakit_channel_acquire five_taken false 9)
dmakit_channel_acquire-Acquired_example = dmakit_channel_acquire-Acquired five_taken false 9
