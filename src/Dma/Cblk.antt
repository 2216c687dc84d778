-- ===== src/Dma/Cblk.antt =====
-- Control blocks, dma/private.h, and their bytes in memory.
use dma.Base.{ℕ, suc, ◌+◌, ◌*◌, ◌/◌, ◌^◌, u8, u32}
use dma.Base.{bit_or, Option, none, some, ltb, if◌then◌else◌}
use dma.Base.{List, [], ◌∷◌, ◌++◌, ◌==◌}
use dma.Dma.Bus.{Busad}

-- `cblk`, eight words.
pub record Cblk : Type 0 where
  pub ti : ℕ
  pub src_addr : Busad
  pub dst_addr : Busad
  pub txfr_len : ℕ
  pub stride_word : ℕ
  pub next_cb : Busad

abbrev pub cblk_size : ℕ
cblk_size = 32

abbrev pub ti_2dmode : ℕ
ti_2dmode = 2 ^ 1

abbrev pub ti_dst_inc : ℕ
ti_dst_inc = 2 ^ 4

abbrev pub ti_src_inc : ℕ
ti_src_inc = 2 ^ 8

-- Both halves are `uint16_t`: a stride of -1 is 0xffff.
unfoldable pub stride : ℕ → ℕ → ℕ
stride dst src = bit_or (u32 (dst * 2 ^ 16)) src

-- `length`; `none` is the failed `assert`.
unfoldable pub length_2d : ℕ → ℕ → Option ℕ
length_2d rows cols = if ltb rows 0x4000 then some (bit_or (u32 (rows * 2 ^ 16)) cols) else none

-- Memory, by bus address.
abbrev pub Memory : Type 0
Memory = ℕ → ℕ

-- A 32-bit word, the lowest byte first.
abbrev pub word_bytes : ℕ → List ℕ
word_bytes x = u8 x ∷ u8 (x / 2 ^ 8) ∷ u8 (x / 2 ^ 16) ∷ u8 (x / 2 ^ 24) ∷ []

-- The layout of `cblk`; the last two words are `_ignore0` and `_ignore1`.
abbrev pub cblk_bytes : Cblk → List ℕ
cblk_bytes cb =
    word_bytes cb.ti
    ++ word_bytes cb.src_addr
    ++ word_bytes cb.dst_addr
    ++ word_bytes cb.txfr_len
    ++ word_bytes cb.stride_word
    ++ word_bytes cb.next_cb
    ++ word_bytes 0
    ++ word_bytes 0

-- Bytes written at an address.
unfoldable pub store : ℕ → List ℕ → Memory → Memory
store a [] m = m
store a (b ∷ bs) m = λ x. if x == a then b else store (suc a) bs m x

abbrev pub word_at : Memory → ℕ → ℕ
word_at m a = m a + 2 ^ 8 * m (a + 1) + 2 ^ 16 * m (a + 2) + 2 ^ 24 * m (a + 3)

-- The control block at an address, as the engine loads it.
abbrev pub cblk_at : Memory → ℕ → Cblk
cblk_at m a = record {
  ti = word_at m a;
  src_addr = word_at m (a + 4);
  dst_addr = word_at m (a + 8);
  txfr_len = word_at m (a + 12);
  stride_word = word_at m (a + 16);
  next_cb = word_at m (a + 20);
}
