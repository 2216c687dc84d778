-- ===== src/Board/Mmu.antt =====
-- The translation table of `mmu_init` and what the ARM1176 makes of it (bcm2835/mmu.c).
use dma.Base.{
  ℕ, ◌+◌, ◌*◌, ◌/◌, ◌%◌, ◌^◌, Bool, ◌==◌, ◌&&◌, ltb, if◌then◌else◌, bit_or, Option, none, some,
}

-- Arguments as the callers' types leave them: 8, 4, 3, 1 and 1 bits.
unfoldable pub supersection_entry : ℕ → ℕ → ℕ → ℕ → ℕ → ℕ
supersection_entry idx domain tex c b =
    bit_or
      (bit_or
        (bit_or
          (bit_or (bit_or (bit_or (bit_or 2 (idx * 2 ^ 24)) (2 ^ 18)) (tex * 2 ^ 12)) (3 * 2 ^ 10))
          (domain * 2 ^ 5))
        (c * 2 ^ 3))
      (b * 2 ^ 2)

-- `tbl->entries` after the loops of `mmu_init`.
unfoldable pub mmu_init : ℕ → ℕ
mmu_init i =
    if ltb i 512
    then supersection_entry (i / 2 ^ 4) 0 1 0 1
    else if ltb i (512 + 16)
    then supersection_entry (i / 2 ^ 4) 0 0 0 1
    else 0

-- Of a first-level descriptor, from the ARM1176 manual: readable and writable at every privilege,
-- executable, domain 0, in the secure world, global and not shared.
unfoldable pub open_to_all : ℕ → Bool
open_to_all e =
    (e / 2 ^ 10 % 4 == 3)
    && ((e / 2 ^ 15 % 2 == 0)
        && ((e / 2 ^ 4 % 2 == 0) && ((e / 2 ^ 5 % 16 == 0) && (e / 2 ^ 16 % 16 == 4))))

-- The bits of a descriptor from which the MMU takes the type of the memory.
pub record Attributes : Type 0 where
  pub tex : ℕ
  pub c : ℕ
  pub b : ℕ

abbrev pub attributes : ℕ → Attributes
attributes e = record { tex = e / 2 ^ 12 % 8; c = e / 2 ^ 3 % 2; b = e / 2 ^ 2 % 2 }

-- The access that a supersection's descriptor allows to a virtual address: the physical address and
-- the attributes; other descriptors fault here.
unfoldable pub access : ℕ → ℕ → Option (ℕ × Attributes)
access e va =
    if (e % 4 == 2) && ((e / 2 ^ 18 % 2 == 1) && open_to_all e)
    then some (e / 2 ^ 24 * 2 ^ 24 + va % 2 ^ 24, attributes e)
    else none

unfoldable pub translate : (ℕ → ℕ) → ℕ → Option (ℕ × Attributes)
translate table va = access (table (va / 2 ^ 20)) va

-- What the comments in `mmu_init` call cached normal memory and shared device memory.
abbrev pub normal_memory : Attributes
normal_memory = record { tex = 1; c = 0; b = 1 }

abbrev pub device_memory : Attributes
device_memory = record { tex = 0; c = 0; b = 1 }

abbrev good_entry : ℕ → Bool
good_entry i =
    let e = mmu_init i in
    (e % 4 == 2)
    && ((e / 2 ^ 18 % 2 == 1)
        && ((e / 2 ^ 24 == i / 16)
            && (open_to_all e
                && ((e / 2 ^ 12 % 8 == (if ltb i 512 then 1 else 0))
                    && ((e / 2 ^ 3 % 2 == 0) && (e / 2 ^ 2 % 2 == 1))))))
