-- ===== src/Pup/Crc/Serial.antt =====
-- `crc32` against the bit-serial CRC-32, whose reflected polynomial is 0xedb88320.
use dma.Base.{ℕ, ◌/◌, ◌^◌, ◌≡◌, refl, sym, List, [], ◌∷◌, ◌++◌, IsBytes, ◌∙◌, ap}
use dma.Base.{all_below, ◌==◌, true, get_or, bit_and, bit_xor}
use dma.Base.Bits.{bit_xor_comm, bit_xor_cancel}
use dma.Pup.Serial.{bit_step, bit_steps, serial, lookup-serial}
use dma.Pup.Crc.{crc32_loop, crc32}
use dma.Pup.Crc.Table.{crc32_tab}

abbrev pub crc_poly : ℕ
crc_poly = 0xedb88320

-- The table holds the eight bit steps of every byte.
table_exact : all_below 256 (λ i. get_or crc32_tab i 0 == bit_steps crc_poly 8 i) ≡ true
unfolding all_below crc32_tab bit_steps bit_step
table_exact = refl

crc32_loop-serial : (c : ℕ) (bs : List ℕ) → IsBytes bs → crc32_loop c bs ≡ serial crc_poly c bs
unfolding crc32_loop serial
crc32_loop-serial c [] hb = refl
crc32_loop-serial c (b ∷ bs) hb =
    crc32_loop-serial (bit_xor (get_or crc32_tab (bit_and (bit_xor c b) 0xff) 0) (c / 2 ^ 8)) bs
      hb.1
    ∙ ap (λ t. serial crc_poly t bs)
        (bit_xor_comm (get_or crc32_tab (bit_and (bit_xor c b) 0xff) 0) (c / 2 ^ 8)
          ∙ lookup-serial crc_poly crc32_tab table_exact c b hb.0)

-- The table-driven `crc32` is the bit-serial CRC with polynomial 0xedb88320, its register inverted
-- before and after, over every message of bytes.
pub crc32-serial :
    (c : ℕ) (bs : List ℕ)
    → IsBytes bs
    → crc32 c bs ≡ bit_xor (serial crc_poly (bit_xor c 0xffff_ffff) bs) 0xffff_ffff
unfolding crc32
crc32-serial c bs hb =
    ap (λ t. bit_xor t 0xffff_ffff) (crc32_loop-serial (bit_xor c 0xffff_ffff) bs hb)

crc32_loop-append :
    (c : ℕ) (xs ys : List ℕ) → crc32_loop c (xs ++ ys) ≡ crc32_loop (crc32_loop c xs) ys
unfolding crc32_loop
crc32_loop-append c [] ys = refl
crc32_loop-append c (x ∷ xs) ys =
    crc32_loop-append (bit_xor (get_or crc32_tab (bit_and (bit_xor c x) 0xff) 0) (c / 2 ^ 8)) xs ys

-- Feeding a message in two parts, the first result handed to the second call, gives the checksum
-- of the whole.
pub crc32-append : (c : ℕ) (xs ys : List ℕ) → crc32 c (xs ++ ys) ≡ crc32 (crc32 c xs) ys
unfolding crc32
crc32-append c xs ys =
    ap (λ t. bit_xor t 0xffff_ffff)
      (crc32_loop-append (bit_xor c 0xffff_ffff) xs ys
        ∙ ap (λ t. crc32_loop t ys)
            (sym (bit_xor_cancel (crc32_loop (bit_xor c 0xffff_ffff) xs) 0xffff_ffff)))

-- An empty message leaves the checksum alone.
pub crc32-nil : (c : ℕ) → crc32 c [] ≡ c
unfolding crc32 crc32_loop
crc32-nil c = bit_xor_cancel c 0xffff_ffff
