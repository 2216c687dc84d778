-- ===== src/Pup/Fcs/Serial.antt =====
-- `fcs16` against the bit-serial CRC of RFC 1662, whose reflected polynomial is 0x8408.
use dma.Base.{ℕ, ◌/◌, ◌%◌, ◌^◌, ◌<◌, ◌≡◌, refl, arith, List, [], ◌∷◌, ◌++◌, IsBytes, ◌∙◌, ap}
use dma.Base.{all_below, all_below_sound, ltb, ltb→lt, ◌==◌, true, get_or, bit_and, bit_xor}
use dma.Base.Bytes.{bit_xor-lt}
use dma.Pup.Serial.{bit_step, bit_steps, serial_byte, serial, lookup-serial, xor_byte_parts}
use dma.Pup.Fcs.{fcs_byte, fcs16}
use dma.Pup.Fcs.Table.{fcstab}

abbrev pub fcs_poly : ℕ
fcs_poly = 0x8408

-- The table holds the eight bit steps of every byte.
pub table_exact : all_below 256 (λ i. get_or fcstab i 0 == bit_steps fcs_poly 8 i) ≡ true
unfolding all_below fcstab bit_steps bit_step
table_exact = refl

table_small : all_below 256 (λ i. ltb (get_or fcstab i 0) (2 ^ 16)) ≡ true
unfolding all_below fcstab
table_small = refl

pub fcstab-lt : (i : ℕ) → i < 256 → get_or fcstab i 0 < 2 ^ 16
fcstab-lt i h = ltb→lt _ _ (all_below_sound 256 _ i table_small h)

-- On a 16-bit register and a byte the cast cuts nothing off.
pub fcs_byte_lem :
    (c b : ℕ)
    → c < 2 ^ 16
    → b < 256
    → (fcs_byte c b ≡ bit_xor (c / 2 ^ 8) (get_or fcstab (bit_and (bit_xor c b) 0xff) 0))
      × (fcs_byte c b < 2 ^ 16)
unfolding fcs_byte
fcs_byte_lem c b hc hb = omega (arith, bound)
  where
    parts :
        (bit_xor c b / 2 ^ 8 ≡ c / 2 ^ 8)
        × (bit_and (bit_xor c b) 0xff ≡ bit_xor (c % 2 ^ 8) b)
        × (bit_xor (c % 2 ^ 8) b < 2 ^ 8)
    parts = xor_byte_parts c b hb

    bound : bit_xor (c / 2 ^ 8) (get_or fcstab (bit_and (bit_xor c b) 0xff) 0) < 2 ^ 16
    bound =
        bit_xor-lt 16 (c / 2 ^ 8) (get_or fcstab (bit_and (bit_xor c b) 0xff) 0) (omega arith)
          (rw (parts.1) (fcstab-lt (bit_xor (c % 2 ^ 8) b) parts.2))

fcs_byte-serial : (c b : ℕ) → c < 2 ^ 16 → b < 256 → fcs_byte c b ≡ serial_byte fcs_poly c b
fcs_byte-serial c b hc hb =
    (fcs_byte_lem c b hc hb).0 ∙ lookup-serial fcs_poly fcstab table_exact c b hb

-- From any 16-bit register, the table-driven `fcs16` computes the bit-serial CRC with polynomial
-- 0x8408 over every message of bytes.
pub fcs16-serial :
    (c : ℕ) (bs : List ℕ) → c < 2 ^ 16 → IsBytes bs → fcs16 c bs ≡ serial fcs_poly c bs
unfolding fcs16 serial
fcs16-serial c [] hc hb = refl
fcs16-serial c (b ∷ bs) hc hb =
    fcs16-serial (fcs_byte c b) bs (fcs_byte_lem c b hc hb.0).1 hb.1
    ∙ ap (λ t. serial fcs_poly t bs) (fcs_byte-serial c b hc hb.0)

pub fcs16-lt : (c : ℕ) (bs : List ℕ) → c < 2 ^ 16 → IsBytes bs → fcs16 c bs < 2 ^ 16
unfolding fcs16
fcs16-lt c [] hc hb = hc
fcs16-lt c (b ∷ bs) hc hb = fcs16-lt (fcs_byte c b) bs (fcs_byte_lem c b hc hb.0).1 hb.1

-- A message in two parts.
pub fcs16-append : (c : ℕ) (xs ys : List ℕ) → fcs16 c (xs ++ ys) ≡ fcs16 (fcs16 c xs) ys
unfolding fcs16
fcs16-append c [] ys = refl
fcs16-append c (x ∷ xs) ys = fcs16-append (fcs_byte c x) xs ys
