-- ===== src/Pup/Fcs/Residue.antt =====
-- The sender appends the complement of the register, low byte first; the receiver runs the
-- register over message and sequence and compares with a constant.
use dma.Base.{ℕ, ◌+◌, ◌*◌, ◌/◌, ◌%◌, ◌^◌, ◌<◌, ◌≡◌, refl, sym, ap, ◌∙◌, arith}
use dma.Base.{bit_xor, bit_and, get_or, u8, List, [], ◌∷◌, ◌++◌, IsBytes}
use dma.Base.Bits.{bit_xor_comm, bit_xor_assoc, bit_xor_self, zero-bit_xor}
use dma.Base.Bytes.{bit_xor_split, bit_xor-lt, bit_and_mask}
use dma.Pup.Serial.{xor_byte_parts}
use dma.Pup.Fcs.{fcs_byte, fcs16, fcs_ok}
use dma.Pup.Fcs.Serial.{fcs_byte_lem, fcs16-append, fcs16-lt}
use dma.Pup.Fcs.Table.{fcstab}

xor_back : (x y : ℕ) → bit_xor x (bit_xor x y) ≡ y
xor_back x y = sym (bit_xor_assoc x x y) ∙ ap (λ t. bit_xor t y) (bit_xor_self x) ∙ zero-bit_xor y

xor_shared : (x y z : ℕ) → bit_xor (bit_xor x y) (bit_xor x z) ≡ bit_xor y z
xor_shared x y z =
    ap (λ t. bit_xor t (bit_xor x z)) (bit_xor_comm x y)
    ∙ bit_xor_assoc y x (bit_xor x z)
    ∙ ap (bit_xor y) (xor_back x z)

-- The two bytes of the complement.
complement :
    (c : ℕ)
    → c < 2 ^ 16
    → bit_xor c 0xffff ≡ bit_xor (c / 2 ^ 8) 255 * 2 ^ 8 + bit_xor (c % 2 ^ 8) 255
complement c h =
    ground (arith, bit_xor_split 8 (c / 2 ^ 8) (c % 2 ^ 8) 255 255 (omega arith) (omega arith))

-- The complement of the low byte brings the register's high byte down onto entry 255.
first_byte :
    (c : ℕ)
    → c < 2 ^ 16
    → fcs_byte c (bit_xor (c % 2 ^ 8) 255) ≡ 0x0f * 2 ^ 8 + bit_xor (c / 2 ^ 8) 0x78
first_byte c h = ground (
  arith,
  bit_xor-lt 8 (c % 2 ^ 8) 255 (omega arith) (omega arith),
  fcs_byte_lem c (bit_xor (c % 2 ^ 8) 255),
  xor_byte_parts c (bit_xor (c % 2 ^ 8) 255),
  xor_back (c % 2 ^ 8) 255,
  at_255,
  bit_xor_split 8 0 (c / 2 ^ 8) 0x0f 0x78 (omega arith) (omega arith),
)
  where
    at_255 : get_or fcstab 255 0 ≡ 0x0f78
    at_255 = unfold fcstab in refl

second_byte : (q : ℕ) → q < 256 → fcs_byte (0x0f * 2 ^ 8 + bit_xor q 0x78) (bit_xor q 255) ≡ fcs_ok
second_byte q h = ground (
  arith,
  bit_xor-lt 8 q 0x78 h (omega arith),
  bit_xor-lt 8 q 255 h (omega arith),
  fcs_byte_lem (0x0f * 2 ^ 8 + bit_xor q 0x78) (bit_xor q 255),
  xor_byte_parts (0x0f * 2 ^ 8 + bit_xor q 0x78) (bit_xor q 255),
  xor_shared q 0x78 255,
  at_0x87,
)
  where
    at_0x87 : get_or fcstab 0x87 0 ≡ 0xf0b7
    at_0x87 = unfold fcstab in refl

-- `fsm_put16`: the low byte, then the high byte, each passed as a `uint8_t`.
abbrev pub put16 : ℕ → List ℕ
put16 x = u8 (bit_and x 0xff) ∷ u8 (x / 2 ^ 8) ∷ []

put16_complement :
    (c : ℕ)
    → c < 2 ^ 16
    → put16 (bit_xor c 0xffff) ≡ bit_xor (c % 2 ^ 8) 255 ∷ bit_xor (c / 2 ^ 8) 255 ∷ []
put16_complement c h = ground (
  arith,
  complement c h,
  bit_and_mask 8 (bit_xor c 0xffff),
  bit_xor-lt 8 (c % 2 ^ 8) 255 (omega arith) (omega arith),
  bit_xor-lt 8 (c / 2 ^ 8) 255 (omega arith) (omega arith),
)

residue : (c : ℕ) → c < 2 ^ 16 → fcs16 c (put16 (bit_xor c 0xffff)) ≡ fcs_ok
residue c h = rw (put16_complement c h) (steps c h)
  where
    steps :
        (r : ℕ)
        → r < 2 ^ 16
        → fcs16 r (bit_xor (r % 2 ^ 8) 255 ∷ bit_xor (r / 2 ^ 8) 255 ∷ []) ≡ fcs_ok
    steps r k = unfold fcs16 in rw (first_byte r k) (second_byte (r / 2 ^ 8) (omega arith))

-- Whatever message of bytes was sent from a 16-bit register, the register run over the message and
-- the appended complement ends at FCS_OK.
pub fcs16-residue :
    (c : ℕ) (bs : List ℕ)
    → c < 2 ^ 16
    → IsBytes bs
    → fcs16 c (bs ++ put16 (bit_xor (fcs16 c bs) 0xffff)) ≡ fcs_ok
fcs16-residue c bs hc hb =
    fcs16-append c bs (put16 (bit_xor (fcs16 c bs) 0xffff))
    ∙ residue (fcs16 c bs) (fcs16-lt c bs hc hb)
