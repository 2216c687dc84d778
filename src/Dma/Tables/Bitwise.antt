-- ===== src/Dma/Tables/Bitwise.antt =====
-- The tables of the bitwise operations and of multiplication.
use dma.Base.{ℕ, ◌*◌, ◌/◌, ◌^◌, ◌<◌, ◌≤◌, refl, arith}
use dma.Base.{bit_and, bit_or, bit_xor}
use dma.Base.Bytes.{bit_and_mask, bit_and-lt, bit_or-lt, bit_xor-lt}
use native.Mathlib.Nat.{mul-le-mul_left, mul-le-mul_right}
use dma.Dma.Tables.{write, for, entry}
use dma.Dma.Tables.{init_and, init_or, init_xor, init_mul, and, or, xor, mul}
use dma.Dma.Tables.Entries.{entry_lem, Fills, FillsRow, FillsRow-Fills}

and_row : FillsRow and (λ i j. write (entry i j 12) (bit_and i j))
unfolding for write
and_row = (
  λ i j o t h.
      rw (entry_lem i j 12 h.1 (omega arith)) (ground (arith, bit_and-lt 8 i j (omega arith))),
  λ i j a t h k. rw (entry_lem i j 12 h (omega arith)) (ground arith),
)

pub and-Fills : Fills and
unfolding init_and
and-Fills =
    FillsRow-Fills and (λ i j. write (entry i j 12) (bit_and i j)) (omega arith) (λ t a. refl)
      and_row

or_row : FillsRow or (λ i j. write (entry i j 13) (bit_or i j))
unfolding for write
or_row = (
  λ i j o t h.
      rw (entry_lem i j 13 h.1 (omega arith))
        (ground (arith, bit_or-lt 8 i j (omega arith) (omega arith))),
  λ i j a t h k. rw (entry_lem i j 13 h (omega arith)) (ground arith),
)

pub or-Fills : Fills or
unfolding init_or
or-Fills =
    FillsRow-Fills or (λ i j. write (entry i j 13) (bit_or i j)) (omega arith) (λ t a. refl) or_row

xor_row : FillsRow xor (λ i j. write (entry i j 14) (bit_xor i j))
unfolding for write
xor_row = (
  λ i j o t h.
      rw (entry_lem i j 14 h.1 (omega arith))
        (ground (arith, bit_xor-lt 8 i j (omega arith) (omega arith))),
  λ i j a t h k. rw (entry_lem i j 14 h (omega arith)) (ground arith),
)

pub xor-Fills : Fills xor
unfolding init_xor
xor-Fills =
    FillsRow-Fills xor (λ i j. write (entry i j 14) (bit_xor i j)) (omega arith) (λ t a. refl)
      xor_row

mul-le_bytes : (i j : ℕ) → i < 256 → j < 256 → i * j ≤ 255 * 255
mul-le_bytes i j h k = omega (
  arith,
  mul-le-mul_right {m = i} {n = 255} j (omega arith),
  mul-le-mul_left {m = j} {n = 255} 255 (omega arith),
)

mul_row :
    FillsRow mul (λ b c t.
      write (entry b c 57) (b * c / 2 ^ 8) (write (entry b c 56) (bit_and (b * c) 0xff) t))
unfolding for write
mul_row = (
  λ i j o t h.
      rw (entry_lem i j 56 h.1 (omega arith), entry_lem i j 57 h.1 (omega arith))
        (ground (arith, mul-le_bytes i j h.0 h.1, bit_and_mask 8 (i * j))),
  λ i j a t h k.
      rw (entry_lem i j 56 h (omega arith), entry_lem i j 57 h (omega arith))
        (ground (arith, bit_and_mask 8 (i * j))),
)

pub mul-Fills : Fills mul
unfolding init_mul
mul-Fills =
    FillsRow-Fills mul
      (λ b c t.
        write (entry b c 57) (b * c / 2 ^ 8) (write (entry b c 56) (bit_and (b * c) 0xff) t))
      (omega arith) (λ t a. refl) mul_row
