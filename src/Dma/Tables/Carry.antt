-- ===== src/Dma/Tables/Carry.antt =====
-- The tables of addition and subtraction.
use dma.Base.{ℕ, ◌+◌, ◌*◌, ◌^◌, ◌<◌, ◌≡◌, refl, ap, ◌∙◌, arith}
use dma.Base.{bit_or}
use dma.Base.Bytes.{bit_or_disjoint, bit_and_mask}
use dma.Dma.Tables.{write, for}
use dma.Dma.Tables.{
  add_entry, init_add, sub_entry, init_sub, add_r_entry, init_add_r, add, sub, add_r,
}
use dma.Dma.Tables.Entries.{entry_lem, Fills, FillsRow, FillsRow-Fills}

add_row : FillsRow add (λ i j. for 2 (add_entry i j))
unfolding for write
add_row = (
  λ i j o t h. rw (entry_lem i j 4 h.1 (omega arith)) (ground arith),
  λ i j a t h k. rw (entry_lem i j 4 h (omega arith)) (ground arith),
)

pub add-Fills : Fills add
unfolding init_add
add-Fills = FillsRow-Fills add (λ i j. for 2 (add_entry i j)) (omega arith) (λ t a. refl) add_row

sub_row : FillsRow sub (λ i j. for 2 (sub_entry i j))
unfolding for write
sub_row = (
  λ i j o t h. rw (entry_lem i j 8 h.1 (omega arith)) (ground arith),
  λ i j a t h k. rw (entry_lem i j 8 h (omega arith)) (ground arith),
)

pub sub-Fills : Fills sub
unfolding init_sub
sub-Fills = FillsRow-Fills sub (λ i j. for 2 (sub_entry i j)) (omega arith) (λ t a. refl) sub_row

-- The lowest bits of the index of the reversed table.
reversed_at :
    (i j l b : ℕ)
    → (l < 2) × (b < 2)
    → bit_or (bit_or (i * 65536 + j * 256 + 72) (l * 2)) b ≡ i * 65536 + j * 256 + 72 + l * 2 + b
reversed_at i j l b h =
    ap (λ t. bit_or t b) {x = bit_or (i * 65536 + j * 256 + 72) (l * 2)}
      {y = (i * 32768 + j * 128 + 36 + l) * 2 ^ 1}
      (ap (λ t. bit_or t (l * 2)) {y = (i * 16384 + j * 64 + 18) * 2 ^ 2} (omega arith)
        ∙ bit_or_disjoint 2 (i * 16384 + j * 64 + 18) (l * 2) (omega arith)
        ∙ omega arith)
    ∙ bit_or_disjoint 1 (i * 32768 + j * 128 + 36 + l) b (omega arith)
    ∙ omega arith

add_r_row : FillsRow add_r (λ i j. for 2 (add_r_entry i j))
unfolding for write
add_r_row = (
  λ i j o t h.
      rw
        (
          entry_lem i j 72 h.1 (omega arith),
          reversed_at i j 0 0 (omega arith, omega arith),
          reversed_at i j 0 1 (omega arith, omega arith),
          reversed_at i j 1 0 (omega arith, omega arith),
          reversed_at i j 1 1 (omega arith, omega arith),
        )
        (ground (arith, bit_and_mask 8 (i + j + 0), bit_and_mask 8 (i + j + 1))),
  λ i j a t h k.
      rw
        (
          entry_lem i j 72 h (omega arith),
          reversed_at i j 0 0 (omega arith, omega arith),
          reversed_at i j 0 1 (omega arith, omega arith),
          reversed_at i j 1 0 (omega arith, omega arith),
          reversed_at i j 1 1 (omega arith, omega arith),
        )
        (ground arith),
)

pub add_r-Fills : Fills add_r
unfolding init_add_r
add_r-Fills =
    FillsRow-Fills add_r (λ i j. for 2 (add_r_entry i j)) (omega arith) (λ t a. refl) add_r_row
