-- ===== src/Pup/Upload/Announce.antt =====
-- The announcement: what the host writes of `meta_t`, the device reads.
use dma.Base.{ℕ, ◌+◌, ◌*◌, ◌/◌, ◌%◌, ◌^◌, ◌<◌, ◌≡◌, refl, arith, u8, length}
use dma.Pup.Image.{Meta}
use dma.Pup.Download.{meta_of, meta_size}
use dma.Pup.Upload.{meta_bytes}

-- Four bytes make the number again, as far as 32 bits go.
word :
    (x : ℕ)
    → (u8 x + 2 ^ 8 * u8 (x / 2 ^ 8)) + 2 ^ 16 * (u8 (x / 2 ^ 16) + 2 ^ 8 * u8 (x / 2 ^ 24))
      ≡ x % 2 ^ 32
word x = omega arith

same_meta :
    (m n : Meta)
    → m.image_format ≡ n.image_format
    → m.compression_type ≡ n.compression_type
    → m.wire_size ≡ n.wire_size
    → m.mem_size ≡ n.mem_size
    → m.mem_crc32 ≡ n.mem_crc32
    → m.load_addr ≡ n.load_addr
    → m ≡ n
same_meta m n a b c d e f = cc

-- If the five words of `meta_t` are 32-bit and the load address is 64-bit, the 32 bytes that the
-- host announces are read back as the same `meta_t` by the device.
pub meta_of-meta_bytes :
    (m : Meta)
    → (m.image_format < 2 ^ 32)
      × (m.compression_type < 2 ^ 32)
      × (m.wire_size < 2 ^ 32)
      × (m.mem_size < 2 ^ 32)
      × (m.mem_crc32 < 2 ^ 32)
      × (m.load_addr < 2 ^ 64)
    → (meta_of (meta_bytes m) ≡ m) × (length (meta_bytes m) ≡ meta_size)
meta_of-meta_bytes m h = (
  same_meta (meta_of (meta_bytes m)) m (omega (arith, word m.image_format, h))
      (omega (arith, word m.compression_type, h)) (omega (arith, word m.wire_size, h))
      (omega (arith, word m.mem_size, h)) (omega (arith, word m.mem_crc32, h))
      (omega (arith, word m.load_addr, word (m.load_addr / 2 ^ 32), h)),
  refl,
)
