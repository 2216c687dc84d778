-- ===== src/Pup/Image/Load.antt =====
-- The operations of pup/bcm2835.c on the loader's state. Parameters: the program's bounds from the
-- linker script (`__prog_start`, `__prog_end`), the trampoline's size, xz-embedded's `xz_dec_init`
-- and `xz_dec_run`, and the ELF loader that is called at the end.
use dma.Base.{ℕ, zero, suc, ◌+◌, ◌-◌, min, u32, ltb, leb, sub32, bit_and, ◌||◌}
use dma.Base.{Bool, true, false, ◌&&◌, ◌==◌, if◌then◌else◌, drop}
use dma.Base.{Option, none, some, List, [], ◌∷◌}
use dma.Pup.Port.{Fsm}
use dma.Pup.Wire.{fsm_send, type_beat}
use dma.Pup.Crc.{crc32, crc_init}
use dma.Pup.Image.{Meta, Reloc, Loader, Memory, bytes_at, image_base, relocate, feed_impl}
use dma.Pup.Image.{compress_none, compress_xz, num_compress_types, num_image_formats}
use dma.Pup.Image.{image_flat_binary, image_elf}

abbrev pub xz_arena_size : ℕ
xz_arena_size = 0x20_0000

-- `xz_malloc_stub` on an arena that starts at `base`: the block and the next pointer, or NULL.
unfoldable pub xz_malloc_stub : ℕ → ℕ → ℕ → Option (ℕ × ℕ)
xz_malloc_stub base size ptr =
    if leb xz_arena_size size || leb (sub32 (u32 (base + xz_arena_size)) size) ptr
    then none
    else some (ptr, bit_and (u32 (ptr + size + 7)) 0xffff_fff8)

-- `fsm_heartbeat` of pup/fsm.c
pub fsm_heartbeat : Fsm → Fsm
fsm_heartbeat s = fsm_send type_beat [] s

-- `crc_with_heartbeat`: on fuel `until - data`, enough because `block_size` is not 0.
unfoldable pub crc_blocks : ℕ → Memory → ℕ → ℕ → ℕ → ℕ → Fsm → ℕ × Fsm
unfolding fsm_heartbeat
crc_blocks zero mem block_size until crc from s = (crc, s)
crc_blocks (suc f) mem block_size until crc from s =
    let blocksz = min (until - from) block_size in
    let rest =
      crc_blocks f mem block_size until (crc32 crc (bytes_at mem from blocksz)) (from + blocksz)
        (fsm_heartbeat s) in
    if ltb from until then rest else (crc, s)

unfoldable pub crc_with_heartbeat : Memory → ℕ → ℕ → ℕ → ℕ → Fsm → ℕ × Fsm
crc_with_heartbeat mem block_size crc from until s =
    crc_blocks (until - from) mem block_size until crc from s

abbrev pub crc_blocksize : ℕ
crc_blocksize = 0x4000

-- The checksum of the image, and the pointer, in the order of `platform_load_image`: before the
-- program, in the relocation buffer, behind the program.
pub record Summing : Type 0 where
  pub crc : ℕ
  pub at : ℕ
  pub fsm : Fsm

abbrev pub sum_block : Memory → ℕ → ℕ → Summing → Summing
sum_block mem from cnt w =
    let r = crc_with_heartbeat mem crc_blocksize w.crc from (from + cnt) w.fsm in
    record { crc = r.0; at = w.at + cnt; fsm = r.1 }

abbrev pub sum_before : Memory → Reloc → ℕ → Summing → Summing
sum_before mem r end w =
    if ltb w.at r.tgt_start && ltb r.tgt_start end
    then sum_block mem w.at (r.tgt_start - w.at) w
    else w

abbrev pub sum_inside : Memory → Reloc → ℕ → Summing → Summing
sum_inside mem r end w =
    if leb r.tgt_start w.at && ltb w.at r.tgt_end
    then sum_block mem (r.buf_start + (w.at - r.tgt_start)) (min (r.tgt_end - w.at) (end - w.at)) w
    else w

abbrev pub sum_rest : Memory → ℕ → Summing → Summing
sum_rest mem end w =
    if ltb w.at end then record (sum_block mem w.at (end - w.at) w) { at = w.at } else w

unfoldable pub image_crc : Memory → Reloc → ℕ → ℕ → Fsm → Summing
image_crc mem r start end s =
    let w : Summing = record { crc = crc_init; at = start; fsm = s } in
    sum_rest mem end (if r.size == 0 then w else sum_inside mem r end (sum_before mem r end w))

-- `enum xz_ret`, the codes the loop tells apart.
pub data XzRet : Type 0 where
  xz_ok xz_stream_end xz_unsupported_check xz_error : XzRet

module _ {X : Type 0} (prog_start prog_end stub_size : ℕ) (xz_dec_init : Option X) where
  -- `platform_init_meta`
  unfoldable pub platform_init_meta : Meta → Loader X → Bool × Loader X
  platform_init_meta m l =
      if leb num_compress_types m.compression_type
      then (false, l)
      else if leb num_image_formats m.image_format
      then (false, l)
      else elim (image_base prog_end m) [
        | none ↦ (false, l)
        | some start ↦
            let end = u32 (start + m.mem_size) in
            let l₁ = record l { meta = m; img_start = start; img_end = end } in
            elim (relocate prog_start prog_end stub_size start end) [
              | none ↦ (false, l₁)
              | some r ↦
                  let l₂ = record l₁ { reloc = r; xz = xz_dec_init } in
                  elim xz_dec_init [
                    | none ↦ (false, l₂)
                    | some x ↦ (true, record l₂ { feed = start })
                  ]
            ]
      ]

module _ {X : Type 0} (xz_dec_run : X → List ℕ → XzRet × ℕ × List ℕ × X) where
  -- `while (xzbuf.in_pos < xzbuf.in_size)`, on fuel: the decoder may be called again and again
  -- without taking input. `xz_dec_run` gives its code, how much input it took, its output and its
  -- next state. `none` is the end of the fuel.
  unfoldable pub inflate : ℕ → X → List ℕ → Loader X → Option (Bool × Loader X)
  inflate zero x input l = none
  inflate (suc f) x [] l = some (true, record l { xz = some x })
  inflate (suc f) x (b ∷ input) l =
      let (r, taken, out, x') = xz_dec_run x (b ∷ input) in
      let l' = record l { xz = some x' } in
      elim r [
        | xz_ok ↦ inflate f x' (drop taken (b ∷ input)) (feed_impl out l')
        | xz_stream_end ↦ inflate f x' (drop taken (b ∷ input)) (feed_impl out l')
        | xz_unsupported_check ↦ inflate f x' (drop taken (b ∷ input)) l'
        | xz_error ↦ some (false, l')
      ]

  -- `platform_feed`
  unfoldable pub platform_feed : ℕ → List ℕ → Loader X → Option (Bool × Loader X)
  platform_feed fuel input l =
      if l.meta.compression_type == compress_xz
      then elim l.xz [ none ↦ some (false, l) | some x ↦ inflate fuel x input l ]
      else some (true, feed_impl input l)

module _ {X : Type 0} (load_elf_image : Loader X → Bool × Loader X) where
  -- The image's checksum, or the decoder's word for it; `none` for an unknown compression.
  unfoldable pub check_crc : Loader X → Option (Bool × Loader X)
  check_crc l =
      if l.meta.compression_type == compress_none
      then (let w =
            image_crc l.mem l.reloc l.img_start (u32 (l.img_start + l.meta.mem_size)) l.fsm in
          some (w.crc == l.meta.mem_crc32, record l { feed = w.at; fsm = w.fsm }))
      else if l.meta.compression_type == compress_xz
      then some (true, l)
      else none

  unfoldable pub check_format : Loader X → Option (Bool × Loader X)
  check_format l =
      if l.meta.image_format == image_flat_binary
      then some (true, l)
      else if l.meta.image_format == image_elf
      then some (load_elf_image l)
      else none

  -- `platform_load_image`
  unfoldable pub platform_load_image : Loader X → Bool × Loader X
  platform_load_image l =
      if l.feed == u32 (l.img_start + l.meta.mem_size)
      then elim (check_crc l) [
        | none ↦ (false, l)
        | some (crc_ok, l') ↦ elim (check_format l') [
          | none ↦ (false, l')
          | some (format_ok, l'') ↦ (crc_ok && format_ok, l'')
        ]
      ]
      else (false, l)
