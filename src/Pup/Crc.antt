-- ===== src/Pup/Crc.antt =====
-- `crc32` of pup/crc.c, with its initial value (pup/common.h).
pub mod Table
pub mod Serial
use dma.Base.{ℕ, ◌+◌, ◌/◌, ◌^◌, bit_and, bit_xor, get_or, List, [], ◌∷◌}
use Table.{crc32_tab}

abbrev pub crc_init : ℕ
crc_init = 0

-- The loop: `while (size--) crc = crc32_tab[(crc ^ *p++) & 0xFF] ^ (crc >> 8);`
unfoldable pub crc32_loop : ℕ → List ℕ → ℕ
crc32_loop crc [] = crc
crc32_loop crc (b ∷ p) =
    crc32_loop (bit_xor (get_or crc32_tab (bit_and (bit_xor crc b) 0xff) 0) (crc / 2 ^ 8)) p

-- The bytes are `p[0..size)`; `~0U` is 2 ^ 32 - 1.
unfoldable pub crc32 : ℕ → List ℕ → ℕ
crc32 crc p = bit_xor (crc32_loop (bit_xor crc 0xffff_ffff) p) 0xffff_ffff
