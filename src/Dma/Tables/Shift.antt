-- ===== src/Dma/Tables/Shift.antt =====
-- The tables of the shifts.
use dma.Base.{◌+◌, ◌*◌, refl, arith}
use dma.Base.Bytes.{bit_or_disjoint}
use dma.Dma.Tables.{write, for}
use dma.Dma.Tables.{sll_entry, init_sll, srl_entry, init_srl, sll, srl}
use dma.Dma.Tables.Spec.{value}
use dma.Dma.Tables.Entries.{for-at, for-frame, Fills, FillsRow, FillsRow-FillsWide}

sll_row : FillsRow sll (λ i j. for 8 (sll_entry (i * 256 + j)))
unfolding write
sll_row = (
  λ i j o t h.
      for-at (i * 65536 + j * 256 + 20 + o) 8 (sll_entry (i * 256 + j)) o (value sll i j o)
        (omega arith) (λ u. rw (bit_or_disjoint 8 (i * 256 + j) 20 (omega arith)) (ground arith))
        (λ s u c ne. rw (bit_or_disjoint 8 (i * 256 + j) 20 (omega arith)) (ground arith)) t,
  λ i j a t h k.
      for-frame a 8 (sll_entry (i * 256 + j))
        (λ s u c. rw (bit_or_disjoint 8 (i * 256 + j) 20 (omega arith)) (ground arith)) t,
)

pub sll-Fills : Fills sll
unfolding init_sll
sll-Fills = FillsRow-FillsWide sll (λ i. for 8 (sll_entry i)) (omega arith) (λ t a. refl) sll_row

srl_row : FillsRow srl (λ i j. for 8 (srl_entry (i * 256 + j)))
unfolding write
srl_row = (
  λ i j o t h.
      for-at (i * 65536 + j * 256 + 36 + o) 8 (srl_entry (i * 256 + j)) o (value srl i j o)
        (omega arith) (λ u. rw (bit_or_disjoint 8 (i * 256 + j) 36 (omega arith)) (ground arith))
        (λ s u c ne. rw (bit_or_disjoint 8 (i * 256 + j) 36 (omega arith)) (ground arith)) t,
  λ i j a t h k.
      for-frame a 8 (srl_entry (i * 256 + j))
        (λ s u c. rw (bit_or_disjoint 8 (i * 256 + j) 36 (omega arith)) (ground arith)) t,
)

pub srl-Fills : Fills srl
unfolding init_srl
srl-Fills = FillsRow-FillsWide srl (λ i. for 8 (srl_entry i)) (omega arith) (λ t a. refl) srl_row
