-- ===== src/Dma/Arena.antt =====
-- The arena that buffers are cut from, dma/emit.h. Pointers and sizes have 32 bits; a panic or a
-- failed `assert` is `none`.
pub mod Fresh
use dma.Base.{
  ℕ, ◌+◌, ◌-◌, ◌^◌, u32, sub32, bit_and, Bool, ◌&&◌, ◌||◌, ◌==◌, ltb, leb, if◌then◌else◌,
}
use dma.Base.{Option, none, some}

-- `arena`
pub record Arena : Type 0 where
  pub start : ℕ
  pub end : ℕ
  pub p : ℕ
  pub util : ℕ

-- The assertion is the source's: `start >= end`.
unfoldable pub mk_arena : ℕ → ℕ → Option Arena
mk_arena start end =
    if leb end start then some (record { start = start; end = end; p = start; util = 0 }) else none

unfoldable pub arena_alloc : Arena → ℕ → ℕ → Option (ℕ × Arena)
arena_alloc a size align =
    let q = bit_and (u32 (a.p + align + (2 ^ 32 - 1))) (sub32 0 align) in
    let r = u32 (q + size) in
    if leb size 0x7fffffff && (bit_and align (sub32 align 1) == 0)
    then (if leb a.end r || ltb r a.start
        then none
        else some (q, record a { p = r; util = u32 (a.util + size) }))
    else none

-- `arena_stats`
pub record ArenaStats : Type 0 where
  pub cap : ℕ
  pub util : ℕ
  pub rem : ℕ

unfoldable pub arena_get_stats : Arena → ArenaStats
arena_get_stats a = record { cap = sub32 a.end a.start; util = a.util; rem = sub32 a.end a.p }

unfoldable pub arena_reset : Arena → Arena
arena_reset a = record a { p = a.start }

-- The arena ARENA over its backing store of 64 KB.
unfoldable pub backed : ℕ → Arena
backed backing = record { start = backing; end = backing + 2 ^ 16; p = backing; util = 0 }
