-- ===== src/Pup/Fcs.antt =====
-- `fcs16` of pup/fcs.c, the frame check sequence of RFC 1662, and its constants (pup/common.h).
pub mod Table
pub mod Serial
pub mod Residue
pub mod Detect
use dma.Base.{ℕ, ◌+◌, ◌/◌, ◌%◌, ◌^◌, bit_and, bit_xor, u16, get_or, List, [], ◌∷◌}
use Table.{fcstab}

abbrev pub fcs_init : ℕ
fcs_init = 0xffff

abbrev pub fcs_ok : ℕ
fcs_ok = 0xf0b8

-- The loop's body: `fcs = (fcs >> 8) ^ fcstab[(fcs ^ *p++) & 0xff]`.
unfoldable pub fcs_byte : ℕ → ℕ → ℕ
fcs_byte fcs b = u16 (bit_xor (fcs / 2 ^ 8) (get_or fcstab (bit_and (bit_xor fcs b) 0xff) 0))

-- The bytes are `p[0..len)`.
unfoldable pub fcs16 : ℕ → List ℕ → ℕ
unfolding fcs_byte
fcs16 fcs [] = fcs
fcs16 fcs (b ∷ p) = fcs16 (fcs_byte fcs b) p
