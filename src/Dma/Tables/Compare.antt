-- ===== src/Dma/Tables/Compare.antt =====
-- The tables of the comparisons.
use dma.Base.{◌+◌, refl, arith}
use dma.Dma.Tables.{write, for, entry_at}
use dma.Dma.Tables.{geu_entry, init_geu, equ_entry, init_equ, init_ges, ges_next, geu, equ, ges}
use dma.Dma.Tables.Entries.{Fills, FillsRow, FillsRow-Fills}

geu_row : FillsRow geu (λ i j. for 2 (geu_entry i j))
unfolding for write
geu_row = (λ i j o t h. ground arith, λ i j a t h k. ground arith)

pub geu-Fills : Fills geu
unfolding init_geu
geu-Fills = FillsRow-Fills geu (λ i j. for 2 (geu_entry i j)) (omega arith) (λ t a. refl) geu_row

equ_row : FillsRow equ (λ i j. for 2 (equ_entry i j))
unfolding for write
equ_row = (λ i j o t h. ground arith, λ i j a t h k. ground arith)

pub equ-Fills : Fills equ
unfolding init_equ
equ-Fills = FillsRow-Fills equ (λ i j. for 2 (equ_entry i j)) (omega arith) (λ t a. refl) equ_row

ges_row : FillsRow ges (λ i j. for 4 (λ l. write (entry_at i j (52 + l)) (ges_next i j l)))
unfolding for write
ges_row = (λ i j o t h. ground arith, λ i j a t h k. ground arith)

pub ges-Fills : Fills ges
unfolding init_ges
ges-Fills =
    FillsRow-Fills ges (λ i j. for 4 (λ l. write (entry_at i j (52 + l)) (ges_next i j l)))
      (omega arith) (λ t a. refl) ges_row
