-- ===== src/Dma/Arena/Fresh.antt =====
-- What `arena_alloc` hands out.
use dma.Base.{ℕ, ◌+◌, ◌-◌, ◌*◌, ◌/◌, ◌%◌, ◌^◌, ◌<◌, ◌≤◌, ◌≡◌, refl, ap, ◌∙◌, arith, u32, sub32}
use dma.Base.{
  bit_and, Bool, true, false, ◌&&◌, ◌||◌, ◌==◌, ltb, leb, if◌then◌else◌, Option, none, some,
}
use dma.Base.{leb→le, le→leb, le→ltb, ap₂, eq→==, one-le-pow}
use native.Mathlib.Nat.{pow-le-pow_right, mod-lt, mod-add-div, mul-mod_right}
use dma.Base.Bytes.{bit_and_high, bit_and_mask}
use dma.Dma.Arena.{Arena, mk_arena, arena_alloc}
use mathlib.Core.Path.{subst}

-- An arena in the device's memory, its next byte between its ends.
abbrev pub IsArena : Arena → Type 0
IsArena a = (a.start ≤ a.p) × (a.p ≤ a.end) × (a.end ≤ 0x20000000)

-- The least multiple of `2 ^ k` from `p` on.
abbrev pub up : ℕ → ℕ → ℕ
up p k = p + (2 ^ k - 1) - (p + (2 ^ k - 1)) % 2 ^ k

pub small_power : (k : ℕ) → k ≤ 30 → (1 ≤ 2 ^ k) × (2 ^ k ≤ 2 ^ 30)
small_power k h = (one-le-pow k 2 (omega arith), pow-le-pow_right {n = 2} (omega arith) h)

rounded_lem :
    (p k : ℕ)
    → p ≤ 0x20000000
    → k ≤ 30
    → bit_and (u32 (p + 2 ^ k + (2 ^ 32 - 1))) (sub32 0 (2 ^ k)) ≡ up p k
rounded_lem p k h b =
    ap₂ bit_and {y = p + (2 ^ k - 1)} {v = 2 ^ (k + (32 - k)) - 2 ^ k}
      (omega (arith, small_power k b)) (omega (arith, small_power k b, whole))
    ∙ bit_and_high k (32 - k) (p + (2 ^ k - 1)) (omega (arith, small_power k b, whole))
  where
    whole : 2 ^ (k + (32 - k)) ≡ 2 ^ 32
    whole = ap (λ (n : ℕ). 2 ^ n) {x = k + (32 - k)} {y = 32} (omega arith)

pub up_lem : (p k : ℕ) → (p ≤ up p k) × (up p k < p + 2 ^ k) × (up p k % 2 ^ k ≡ 0)
up_lem p k = (
  omega (arith, mod-lt (p + (2 ^ k - 1)) (one-le-pow k 2 (omega arith))),
  omega (arith, one-le-pow k 2 (omega arith)),
  ap (λ (n : ℕ). n % 2 ^ k) {x = up p k} {y = 2 ^ k * ((p + (2 ^ k - 1)) / 2 ^ k)}
        (omega (arith, mod-add-div (p + (2 ^ k - 1)) (2 ^ k)))
      ∙ mul-mod_right (2 ^ k) ((p + (2 ^ k - 1)) / 2 ^ k),
)

pub power_lem : (k : ℕ) → k ≤ 30 → (bit_and (2 ^ k) (sub32 (2 ^ k) 1) == 0) ≡ true
power_lem k h = eq→== (bit_and (2 ^ k) (sub32 (2 ^ k) 1)) 0 (
    ap (bit_and (2 ^ k)) {y = 2 ^ k - 1} (omega (arith, small_power k h))
    ∙ bit_and_mask k (2 ^ k)
    ∙ ap (λ (n : ℕ). n % 2 ^ k) {x = 2 ^ k} {y = 2 ^ k * 1} (omega arith)
    ∙ mul-mod_right (2 ^ k) 1)

-- In an arena within the device's memory, for an alignment `2 ^ k` of at most 1 GB and a size below
-- 2 GB: `arena_alloc` succeeds exactly if the size fits strictly below the end from the least
-- aligned address on, at or after the next free byte; then it hands out that address and the free
-- part begins right after the allocation. Otherwise it panics.
pub arena_alloc-fits :
    (a : Arena) (size k : ℕ)
    → IsArena a
    → (size ≤ 0x7fffffff) × (k ≤ 30)
    → (arena_alloc a size (2 ^ k) ≡ (
        if ltb (up a.p k + size) a.end
        then some (up a.p k, record a { p = up a.p k + size; util = u32 (a.util + size) })
        else none))
      × ((a.p ≤ up a.p k) × (up a.p k < a.p + 2 ^ k) × (up a.p k % 2 ^ k ≡ 0))
unfolding arena_alloc
arena_alloc-fits a size k h b = (
  ap₂
        (λ q t.
          if leb size 0x7fffffff && t
          then (if leb a.end (u32 (q + size)) || ltb (u32 (q + size)) a.start
              then none
              else some (q, record a { p = u32 (q + size); util = u32 (a.util + size) }))
          else none)
        (rounded_lem a.p k (omega arith) b.1) (power_lem k b.1)
      ∙ ap
          (λ r.
            if leb size 0x7fffffff && true
            then (if leb a.end r || ltb r a.start
                then none
                else some (up a.p k, record a { p = r; util = u32 (a.util + size) }))
            else none)
          {y = up a.p k + size} (omega (arith, up_lem a.p k, small_power k b.1))
      ∙ rw
          (
            le→leb size 0x7fffffff b.0,
            le→ltb (up a.p k + size) a.start (omega (arith, up_lem a.p k)),
          )
          (ground arith),
  up_lem a.p k,
)

empty_arena : (a : Arena) (size align : ℕ) → a.end ≤ a.start → arena_alloc a size align ≡ none
unfolding arena_alloc
empty_arena a size align h = ground arith

-- The assertion in `mk_arena` is the wrong way round: an arena that it lets through has its end at
-- or before its start, and every allocation from it panics.
pub arena_alloc-mk_arena :
    (start end size align : ℕ) (a : Arena)
    → mk_arena start end ≡ some a
    → (end ≤ start) × (arena_alloc a size align ≡ none)
unfolding mk_arena
arena_alloc-mk_arena start end size align a h = split (leb end start) refl h
  where
    made : Arena
    made = record { start = start; end = end; p = start; util = 0 }

    same : (b c : Arena) → Path (Option Arena) (some b) (some c) → b ≡ c
    same b c g = cc

    split :
        (b : Bool)
        → leb end start ≡ b
        → (if b then some made else none) ≡ some a
        → (end ≤ start) × (arena_alloc a size align ≡ none)
    split false e g = absurd (cc)
    split true e g = (
      leb→le end start e,
      subst (λ c. arena_alloc c size align ≡ none) (same made a g)
          (empty_arena made size align (leb→le end start e)),
    )
