-- ===== src/Pup/Wire.antt =====
-- The framing bytes (pup/common.h), the frame buffer as memory, and `fsm_send` and `fsm_send_ack`
-- of pup/fsm.c with the `fsm_put…` helpers of pup/common.h.
pub mod Bytes
use dma.Base.{ℕ, zero, suc, ◌+◌, ◌*◌, ◌/◌, ◌^◌, u8, u16, bit_and, bit_xor}
use dma.Base.{List, [], ◌∷◌, length, get_or}
use dma.Pup.Port.{Fsm, Mframe, platform_put, platform_write}
use dma.Pup.Fcs.{fcs16, fcs_init}

abbrev pub asc_soh : ℕ
asc_soh = 0x01

abbrev pub asc_stx : ℕ
asc_stx = 0x02

abbrev pub asc_etx : ℕ
asc_etx = 0x03

abbrev pub asc_eot : ℕ
asc_eot = 0x04

abbrev pub asc_ack : ℕ
asc_ack = 0x06

-- Memory that is zero where nothing was written: the first `n` bytes, and a write.
abbrev pub first : ℕ → List ℕ → List ℕ
first zero xs = []
first (suc n) [] = 0 ∷ first n []
first (suc n) (x ∷ xs) = x ∷ first n xs

abbrev pub put_at : List ℕ → ℕ → ℕ → List ℕ
put_at [] zero v = v ∷ []
put_at [] (suc i) v = 0 ∷ put_at [] i v
put_at (x ∷ xs) zero v = v ∷ xs
put_at (x ∷ xs) (suc i) v = x ∷ put_at xs i v

-- A little-endian `uint16_t` at a byte offset.
abbrev pub le16_at : List ℕ → ℕ → ℕ
le16_at xs i = get_or xs i 0 + 2 ^ 8 * get_or xs (suc i) 0

-- `mframe_t`'s view of `raw_hdr`, and `body`.
abbrev pub frame_iden : Mframe → ℕ
frame_iden m = le16_at m.raw_hdr 0

abbrev pub frame_plen : Mframe → ℕ
frame_plen m = le16_at m.raw_hdr 2

abbrev pub frame_type : Mframe → List ℕ
frame_type m =
    get_or m.raw_hdr 4 0 ∷ get_or m.raw_hdr 5 0 ∷ get_or m.raw_hdr 6 0 ∷ get_or m.raw_hdr 7 0 ∷ []

abbrev pub frame_body : ℕ → Mframe → List ℕ
frame_body n m = first n m.raw_body

abbrev pub type_poll : List ℕ
type_poll = b'P' ∷ b'O' ∷ b'L' ∷ b'L' ∷ []

abbrev pub type_chnk : List ℕ
type_chnk = b'C' ∷ b'H' ∷ b'N' ∷ b'K' ∷ []

abbrev pub type_rqch : List ℕ
type_rqch = b'R' ∷ b'Q' ∷ b'C' ∷ b'H' ∷ []

abbrev pub type_beat : List ℕ
type_beat = b'B' ∷ b'E' ∷ b'A' ∷ b'T' ∷ []

abbrev pub type_boot : List ℕ
type_boot = b'B' ∷ b'O' ∷ b'O' ∷ b'T' ∷ []

-- `fsm_put16`
pub fsm_put16 : ℕ → Fsm → Fsm
fsm_put16 x s = platform_put (u8 (x / 2 ^ 8)) (platform_put (u8 (bit_and x 0xff)) s)

-- `fsm_put_fcs` and `fsm_put16_fcs`: the register, and the line after the bytes.
pub fsm_put_fcs : ℕ → ℕ → Fsm → ℕ × Fsm
fsm_put_fcs x fcs s = (fcs16 fcs (x ∷ []), platform_put x s)

pub fsm_put16_fcs : ℕ → ℕ → Fsm → ℕ × Fsm
unfolding fsm_put_fcs
fsm_put16_fcs x fcs s =
    let (fcs', s') = fsm_put_fcs (u8 (bit_and x 0xff)) fcs s in fsm_put_fcs (u8 (x / 2 ^ 8)) fcs' s'

-- The loop over the four bytes of `type`.
pub put_type : List ℕ → ℕ → Fsm → ℕ × Fsm
unfolding fsm_put_fcs
put_type [] fcs s = (fcs, s)
put_type (b ∷ bs) fcs s = let (fcs', s') = fsm_put_fcs b fcs s in put_type bs fcs' s'

-- `payload_len` is a `uint16_t`: a payload is shorter than 2 ^ 16 bytes.
unfoldable pub fsm_send : List ℕ → List ℕ → Fsm → Fsm
fsm_send type payload s =
    let (fcs₁, s₁) = fsm_put16_fcs s.iden fcs_init (platform_put asc_soh s) in
    let (fcs₂, s₂) = fsm_put16_fcs (u16 (length payload)) fcs₁ s₁ in
    let (fcs₃, s₃) = put_type type fcs₂ s₂ in
    let s₄ = platform_put asc_stx (fsm_put16 (bit_xor fcs₃ 0xffff) s₃) in
    let s₅ = fsm_put16 (bit_xor (fcs16 fcs_init payload) 0xffff) (platform_write payload s₄) in
    platform_put asc_eot (platform_put asc_etx s₅)

unfoldable pub fsm_send_ack : ℕ → Fsm → Fsm
fsm_send_ack iden s =
    let (fcs, s') = fsm_put16_fcs iden fcs_init (platform_put asc_ack s) in
    platform_put asc_eot (fsm_put16 (bit_xor fcs 0xffff) s')
