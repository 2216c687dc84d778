-- ===== src/Pup/Image.antt =====
-- The device's loader, pup/bcm2835.c: where an image goes (`platform_init_meta`), how its bytes get
-- there (`feed_impl`, `platform_feed`), and the check before it is started
-- (`platform_load_image`). Addresses are 32-bit; memory is a function of the address.
pub mod Store
pub mod Feed
pub mod Load
pub mod Fits
pub mod Sum
pub mod Check
pub mod Boot
pub mod Deliver
pub mod Booted
use dma.Base.{ℕ, zero, suc, ◌+◌, ◌-◌, ◌*◌, ◌^◌, min, max, u32, u64, sub32, bit_and, ltb, leb}
use dma.Base.{Bool, true, false, ◌&&◌, ◌||◌, ◌==◌, if◌then◌else◌, get_or, drop}
use dma.Base.{Option, none, some, List, [], ◌∷◌, length}
use dma.Pup.Port.{Fsm}
use dma.Pup.Wire.{fsm_send, type_beat}
use dma.Pup.Crc.{crc32, crc_init}

-- `meta_t`; `load_addr` is the metadata of a flat binary.
pub record Meta : Type 0 where
  pub image_format : ℕ
  pub compression_type : ℕ
  pub wire_size : ℕ
  pub mem_size : ℕ
  pub mem_crc32 : ℕ
  pub load_addr : ℕ

abbrev pub compress_none : ℕ
compress_none = 0

abbrev pub compress_xz : ℕ
compress_xz = 1

abbrev pub num_compress_types : ℕ
num_compress_types = 2

abbrev pub image_flat_binary : ℕ
image_flat_binary = 0

abbrev pub image_elf : ℕ
image_elf = 1

abbrev pub num_image_formats : ℕ
num_image_formats = 2

abbrev pub dram_limit : ℕ
dram_limit = 0x2000_0000

-- `struct reloc`
pub record Reloc : Type 0 where
  pub tgt_start : ℕ
  pub tgt_end : ℕ
  pub buf_start : ℕ
  pub buf_end : ℕ
  pub stub_start : ℕ
  pub stub_end : ℕ
  pub size : ℕ

abbrev pub Memory : Type 0
Memory = ℕ → ℕ

-- The statics of pup/bcm2835.c, the memory, and the line that heartbeats go to. `X` is the state
-- of the XZ decoder.
pub record Loader (X : Type 0) : Type 0 where
  pub meta : Meta
  pub reloc : Reloc
  pub img_start : ℕ
  pub img_end : ℕ
  pub feed : ℕ
  pub xz : Option X
  pub mem : Memory
  pub fsm : Fsm

-- `memcpy(dst, src, n)`
abbrev pub memcpy : Memory → ℕ → List ℕ → ℕ → Memory
memcpy mem dst src n a = if leb dst a && ltb a (dst + n) then get_or src (a - dst) 0 else mem a

-- `n` bytes from an address on
abbrev pub bytes_at : Memory → ℕ → ℕ → List ℕ
bytes_at mem a zero = []
bytes_at mem a (suc n) = mem a ∷ bytes_at mem (suc a) n

-- The switch on the image format: where the image starts.
unfoldable pub image_base : ℕ → Meta → Option ℕ
image_base prog_end m =
    if m.image_format == image_flat_binary
    then if leb dram_limit m.load_addr
      then none
      else if leb dram_limit (u64 (m.load_addr + m.mem_size))
      then none
      else if bit_and m.load_addr 3 == 0
      then some (u32 m.load_addr)
      else none
    else if m.image_format == image_elf
    then some prog_end
    else none

-- The overlap of image and program, or 0.
unfoldable pub overlap : ℕ → ℕ → ℕ → ℕ → ℕ
overlap prog_start prog_end img_start img_end =
    if (leb prog_start img_start && ltb img_start prog_end)
      || (ltb img_start prog_start && ltb prog_start img_end)
    then sub32 (min img_end prog_end) (max img_start prog_start)
    else 0

abbrev pub no_reloc : Reloc
no_reloc = record {
  tgt_start = 0;
  tgt_end = 0;
  buf_start = 0;
  buf_end = 0;
  stub_start = 0;
  stub_end = 0;
  size = 0;
}

-- The relocation record, or the error "relocation buffer overflows address space".
unfoldable pub relocate : ℕ → ℕ → ℕ → ℕ → ℕ → Option Reloc
relocate prog_start prog_end stub_size img_start img_end =
    let size = overlap prog_start prog_end img_start img_end in
    if size == 0
    then some no_reloc
    else let buf_start = max prog_end img_end in
      if leb (sub32 (sub32 dram_limit size) stub_size) buf_start
      then none
      else let buf_end = u32 (buf_start + size) in
        let stub_start = bit_and (u32 (buf_end + 3)) 0xffff_fffc in
        some record {
          tgt_start = max img_start prog_start;
          tgt_end = min img_end prog_end;
          buf_start = buf_start;
          buf_end = buf_end;
          stub_start = stub_start;
          stub_end = u32 (stub_start + stub_size);
          size = size;
        }

-- Feeding: what is left of `data` and `len`, the pointer, and memory.
pub record Feeding : Type 0 where
  pub src : List ℕ
  pub len : ℕ
  pub at : ℕ
  pub mem : Memory

-- `memcpy(dst, data, cnt); len -= cnt; data += cnt; feed += cnt;`
abbrev pub copy_to : ℕ → ℕ → Feeding → Feeding
copy_to dst cnt f = record {
  src = drop cnt f.src;
  len = sub32 f.len cnt;
  at = u32 (f.at + cnt);
  mem = memcpy f.mem dst f.src cnt;
}

abbrev pub feed_before : Reloc → Feeding → Feeding
feed_before r f =
    if ltb f.at r.tgt_start && ltb r.tgt_start (u32 (f.at + f.len))
    then copy_to f.at (r.tgt_start - f.at) f
    else f

abbrev pub feed_inside : Reloc → Feeding → Feeding
feed_inside r f =
    if leb r.tgt_start f.at && ltb f.at r.tgt_end
    then copy_to (u32 (r.buf_start + (f.at - r.tgt_start))) (min (r.tgt_end - f.at) f.len) f
    else f

abbrev pub feed_rest : Feeding → Feeding
feed_rest f = if f.len == 0 then f else copy_to f.at f.len f

-- `feed_impl`
unfoldable pub feed_bytes : Reloc → Feeding → Feeding
feed_bytes r f = feed_rest (if r.size == 0 then f else feed_inside r (feed_before r f))

unfoldable pub feed_impl : {X : Type 0} → List ℕ → Loader X → Loader X
feed_impl xs l =
    let f = feed_bytes l.reloc (record { src = xs; len = length xs; at = l.feed; mem = l.mem }) in
    record l { feed = f.at; mem = f.mem }
