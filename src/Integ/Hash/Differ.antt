-- ===== src/Integ/Hash/Differ.antt =====
-- Words, lanes and steps of `hash_memory` on two memories that differ in one byte.
use dma.Base.{ℕ, ◌+◌, ◌^◌, ◌<◌, ◌≤◌, ◌≡◌, ◌≢◌, ◌⊎◌, ap, arith}
use dma.Integ.Hash.{
  Memory, Lanes, load, block_step, word_step, byte_step, lane, prime_1, prime_2, prime_3, prime_4,
  prime_5,
}
use dma.Integ.Hash.Mix.{
  Differ, mix-lt, mix_keep, mix_hit, lane_undoable, word_undoable, byte_undoable,
}

-- Bytes that differ at `i` and nowhere else.
abbrev pub Patched : Memory → Memory → ℕ → Type 0
Patched m m' i =
    ((a : ℕ) → m a < 256) × ((a : ℕ) → m' a < 256) × ((a : ℕ) → a ≢ i → m a ≡ m' a) × (m i ≢ m' i)

abbrev pub InWords : Lanes → Type 0
InWords s = (s.s0 < 2 ^ 32) × (s.s1 < 2 ^ 32) × (s.s2 < 2 ^ 32)

abbrev pub lane_keep : (h h' w w' : ℕ) → Differ h h' → w ≡ w' → Differ (lane h w) (lane h' w')
lane_keep = mix_keep prime_2 13 prime_1 lane_undoable

abbrev pub lane_hit : (h w w' : ℕ) → h < 2 ^ 32 → Differ w w' → Differ (lane h w) (lane h w')
lane_hit = mix_hit prime_2 13 prime_1 lane_undoable

abbrev pub lane-lt : (h w : ℕ) → lane h w < 2 ^ 32
lane-lt = mix-lt prime_2 13 prime_1

pub block_small : (m : Memory) (d : ℕ) (s : Lanes) → InWords (block_step m d s)
block_small m d s = (lane-lt _ _, lane-lt _ _, lane-lt _ _)

module _ (m m' : Memory) (i : ℕ) (patched : Patched m m' i) where
  pub load-lt : (d : ℕ) → (load m d < 2 ^ 32) × (load m' d < 2 ^ 32)
  load-lt d =
      let (b, b', _, _) = patched in
      (
        omega (arith, b d, b (1 + d), b (2 + d), b (3 + d)),
        omega (arith, b' d, b' (1 + d), b' (2 + d), b' (3 + d)),
      )

  -- A word away from the changed byte.
  pub load_away : (d : ℕ) → (4 + d ≤ i) ⊎ (i < d) → load m d ≡ load m' d
  load_away d away =
      let (_, _, same, _) = patched in
      ground (arith, same d, same (1 + d), same (2 + d), same (3 + d))

  -- The word with the changed byte.
  pub load_hit : (d : ℕ) → d ≤ i → i < 4 + d → Differ (load m d) (load m' d)
  load_hit d from till =
      let (b, b', same, ne) = patched in
      (
        (load-lt d).0,
        (load-lt d).1,
        λ e. ground (
          arith,
          same d,
          same (1 + d),
          same (2 + d),
          same (3 + d),
          b d,
          b (1 + d),
          b (2 + d),
          b (3 + d),
          b' d,
          b' (1 + d),
          b' (2 + d),
          b' (3 + d),
          ap m {x = i} {y = d},
          ap m {x = i} {y = 1 + d},
          ap m {x = i} {y = 2 + d},
          ap m {x = i} {y = 3 + d},
          ap m' {x = i} {y = d},
          ap m' {x = i} {y = 1 + d},
          ap m' {x = i} {y = 2 + d},
          ap m' {x = i} {y = 3 + d},
        ),
      )

  -- Steps behind the changed byte keep a difference; the step that reads it makes one.
  pub word_keep :
      (d h h' : ℕ)
      → (4 + d ≤ i) ⊎ (i < d)
      → Differ h h'
      → Differ (word_step m d h) (word_step m' d h')
  word_keep d h h' away r =
      mix_keep prime_3 17 prime_4 word_undoable h h' (load m d) (load m' d) r (load_away d away)

  pub word_hit :
      (d h : ℕ) → d ≤ i → i < d + 4 → h < 2 ^ 32 → Differ (word_step m d h) (word_step m' d h)
  word_hit d h from till small =
      mix_hit prime_3 17 prime_4 word_undoable h (load m d) (load m' d) small
        (load_hit d from (omega arith))

  pub byte_keep :
      (d h h' : ℕ)
      → (1 + d ≤ i) ⊎ (i < d)
      → Differ h h'
      → Differ (byte_step m d h) (byte_step m' d h')
  byte_keep d h h' away r =
      mix_keep prime_5 11 prime_1 byte_undoable h h' (m d) (m' d) r (patched.2 d (ground arith))

  pub byte_hit :
      (d h : ℕ) → d ≤ i → i < d + 1 → h < 2 ^ 32 → Differ (byte_step m d h) (byte_step m' d h)
  byte_hit d h from till small = mix_hit prime_5 11 prime_1 byte_undoable h (m d) (m' d) small (
    omega (arith, patched.0 d),
    omega (arith, patched.1 d),
    λ e. patched.3 (ground (arith, ap m {x = i} {y = d}, ap m' {x = i} {y = d})),
  )
