-- ===== src/Integ/Hash/Changed.antt =====
-- The loops of `hash_memory` on two memories that differ in one byte.
use dma.Base.{ℕ, ◌+◌, ◌-◌, ◌*◌, ◌^◌, ◌<◌, ◌≤◌, ◌≡◌, ◌⊎◌, inl, inr, ap, arith}
use dma.Integ.Hash.{
  Memory, Lanes, load, block_step, word_step, byte_step, mix, while_below, prime_3, prime_4,
  prime_5, prime_1,
}
use dma.Integ.Hash.Blocks.{block_keep, block_hit}
use dma.Integ.Hash.Mix.{Differ, OneOff, mix-lt}
use dma.Integ.Hash.Walk.{walk_keep, walk_change, rounds_fit}
use dma.Integ.Hash.Agree.{SameBytes, block_step_same}
use dma.Integ.Hash.Differ.{
  Patched, InWords, word_keep, word_hit, byte_keep, byte_hit, load_away, block_small,
}

module _ (m m' : Memory) (i : ℕ) (patched : Patched m m' i) where
  pub agree_off : (at stop : ℕ) → (stop ≤ i) ⊎ (i < at) → SameBytes m m' at stop
  agree_off at stop off a p q = patched.2 a (ground arith)

  module _ (n at stop : ℕ) where
    pub words_on :
        (h : ℕ)
        → stop ≡ at + n * 4
        → at ≤ i
        → i < stop
        → h < 2 ^ 32
        → Differ (while_below 4 (word_step m) at stop h) (while_below 4 (word_step m') at stop h)
    words_on h whole from till small =
        walk_change Differ 4 (word_step m) (word_step m') (λ a. a < 2 ^ 32) i n (stop - at) at stop
          h whole (rounds_fit n at stop 4 whole (omega arith)) (omega arith)
          (λ d a _ before _. (
            ap (mix prime_3 17 prime_4 a) (load_away m m' i patched d (inl (omega arith))),
            mix-lt prime_3 17 prime_4 a (load m d),
          ))
          (λ d a _ p q small'. word_hit m m' i patched d a p q small')
          (λ d a b _ past r. word_keep m m' i patched d a b (inr past) r) from till small

    pub words_off :
        (h h' : ℕ)
        → stop ≡ at + n * 4
        → (stop ≤ i) ⊎ (i < at)
        → Differ h h'
        → Differ (while_below 4 (word_step m) at stop h) (while_below 4 (word_step m') at stop h')
    words_off h h' whole off r =
        walk_keep Differ 4 (word_step m) (word_step m') n (stop - at) at stop h h' whole
          (rounds_fit n at stop 4 whole (omega arith)) (omega arith)
          (λ d a b p q s. word_keep m m' i patched d a b (ground arith) s) r

    pub words-lt :
        (h : ℕ) → stop ≡ at + n * 4 → h < 2 ^ 32 → while_below 4 (word_step m) at stop h < 2 ^ 32
    words-lt h whole small =
        walk_keep (λ a _. a < 2 ^ 32) 4 (word_step m) (word_step m) n (stop - at) at stop h h whole
          (rounds_fit n at stop 4 whole (omega arith)) (omega arith)
          (λ d a b _ _ _. mix-lt prime_3 17 prime_4 a (load m d)) small

    pub bytes_on :
        (h : ℕ)
        → stop ≡ at + n * 1
        → at ≤ i
        → i < stop
        → h < 2 ^ 32
        → Differ (while_below 1 (byte_step m) at stop h) (while_below 1 (byte_step m') at stop h)
    bytes_on h whole from till small =
        walk_change Differ 1 (byte_step m) (byte_step m') (λ a. a < 2 ^ 32) i n (stop - at) at stop
          h whole (rounds_fit n at stop 1 whole (omega arith)) (omega arith)
          (λ d a _ before _. (
            ap (mix prime_5 11 prime_1 a) (patched.2 d (omega arith)),
            mix-lt prime_5 11 prime_1 a (m d),
          ))
          (λ d a _ p q small'. byte_hit m m' i patched d a p q small')
          (λ d a b _ past r. byte_keep m m' i patched d a b (inr past) r) from till small

    pub bytes_off :
        (h h' : ℕ)
        → stop ≡ at + n * 1
        → (stop ≤ i) ⊎ (i < at)
        → Differ h h'
        → Differ (while_below 1 (byte_step m) at stop h) (while_below 1 (byte_step m') at stop h')
    bytes_off h h' whole off r =
        walk_keep Differ 1 (byte_step m) (byte_step m') n (stop - at) at stop h h' whole
          (rounds_fit n at stop 1 whole (omega arith)) (omega arith)
          (λ d a b p q s. byte_keep m m' i patched d a b (ground arith) s) r

    pub bytes-lt :
        (h : ℕ) → stop ≡ at + n * 1 → h < 2 ^ 32 → while_below 1 (byte_step m) at stop h < 2 ^ 32
    bytes-lt h whole small =
        walk_keep (λ a _. a < 2 ^ 32) 1 (byte_step m) (byte_step m) n (stop - at) at stop h h whole
          (rounds_fit n at stop 1 whole (omega arith)) (omega arith)
          (λ d a b _ _ _. mix-lt prime_5 11 prime_1 a (m d)) small

    pub blocks_on :
        (s : Lanes)
        → stop ≡ at + n * 32
        → at ≤ i
        → i < stop
        → InWords s
        → OneOff
            (while_below 32 (block_step m) at stop s)
            (while_below 32 (block_step m') at stop s)
    blocks_on s whole from till small =
        walk_change OneOff 32 (block_step m) (block_step m') InWords i n (stop - at) at stop s whole
          (rounds_fit n at stop 32 whole (omega arith)) (omega arith)
          (λ d a _ before _. (
            block_step_same m m' d (d + 32) (agree_off d (d + 32) (inl before)) d a (omega arith)
                (omega arith),
            block_small m d a,
          ))
          (λ d a _ p q small'. block_hit m m' i patched d a p q small')
          (λ d a b _ past r. block_keep m m' i patched d a b past r) from till small
