-- ===== src/Pup/Elf.antt =====
-- The memory map of pup/elf_loader.c: `claim_space` and `allocate_space`. An array is a function of
-- the index, so that cells that are not in use keep what they held. Code that stops at an `assert`
-- or writes outside the array gives `none`.
pub mod Load
pub mod Sorted
pub mod Bounds
use dma.Base.{ℕ, zero, suc, ◌+◌, ◌-◌, ◌*◌, ◌^◌, u32, sub32, Bool, true, false, ◌&&◌, ltb, leb, ◌==◌}
use dma.Base.{if◌then◌else◌, Option, none, some}

-- `range`
pub record Range : Type 0 where
  pub start : ℕ
  pub end : ℕ

abbrev pub elf_max_segments : ℕ
elf_max_segments = 16

abbrev pub uintptr_max : ℕ
uintptr_max = 0xffff_ffff

-- `memory_map`, of `elf_max_segments + 2` cells, and `range_count`
pub record MemoryMap : Type 0 where
  pub cells : ℕ → Range
  pub count : ℕ

-- The loop of `claim_space`: the first of `k` cells from `i` on that starts behind `x`.
unfoldable pub slot : (ℕ → Range) → ℕ → ℕ → ℕ → Option ℕ
slot cells x zero i = none
slot cells x (suc k) i =
    let later = slot cells x k (suc i) in if ltb x (cells i).start then some i else later

-- `memmove(map + i + 1, map + i, sizeof(range) * (n - i)); map[i] = r;`, which writes cells `i` to `n`.
unfoldable pub insert_at : (ℕ → Range) → ℕ → ℕ → Range → ℕ → Range
insert_at cells n i r j =
    if j == i then r else if ltb i j && leb j n then cells (j - 1) else cells j

abbrev pub put_cell : (ℕ → Range) → ℕ → Range → ℕ → Range
put_cell cells i r j = if j == i then r else cells j

unfoldable pub claim_space : Range → Bool → MemoryMap → Option (Bool × MemoryMap)
claim_space r force m =
    if leb elf_max_segments m.count && (if force then false else true)
    then some (false, m)
    else let n = suc m.count in
      if ltb (elf_max_segments + 2) n then none else elim (slot m.cells r.start n 0) [
        | some i ↦
            if ltb n (elf_max_segments + 2)
            then some (true, record { cells = insert_at m.cells n i r; count = n })
            else none
        | none ↦ some (true, record { cells = put_cell m.cells m.count r; count = n })
      ]

-- How the search of `allocate_space` ends: at a gap, out of the allowed range, or behind all cells.
pub data Search : Type 0 where
  gap past : ℕ → Search
  too_far : Search

unfoldable pub search_gap : (ℕ → Range) → ℕ → ℕ → ℕ → ℕ → ℕ → Search
search_gap cells size limit zero i p = past p
search_gap cells size limit (suc k) i p =
    let skipped = search_gap cells size limit k (suc i) p in
    let behind = search_gap cells size limit k (suc i) (cells i).end in
    if ltb (cells i).start p
    then skipped
    else if ltb limit (u32 (p + size))
    then too_far
    else if leb size (sub32 (cells i).start p)
    then gap p
    else behind

-- `success:`
abbrev pub claim_block : ℕ → ℕ → Bool → MemoryMap → Option (ℕ × MemoryMap)
claim_block p size force m =
    elim (claim_space (record { start = p; end = u32 (p + size) }) force m) [
      | none ↦ none
      | some (true, m') ↦ some (p, m')
      | some (false, m') ↦ some (uintptr_max, m')
    ]

unfoldable pub allocate_space : ℕ → Range → Bool → MemoryMap → Option (ℕ × MemoryMap)
allocate_space size allowed force m =
    if size == 0 then none else elim (search_gap m.cells size allowed.end m.count 0 allowed.start) [
      | too_far ↦ some (uintptr_max, m)
      | gap p ↦ claim_block p size force m
      | past p ↦
          if leb size (sub32 allowed.end p)
          then claim_block p size force m
          else some (uintptr_max, m)
    ]
