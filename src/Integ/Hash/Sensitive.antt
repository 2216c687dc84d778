-- ===== src/Integ/Hash/Sensitive.antt =====
-- `hash_memory` on two memories that differ in one byte of the region.
use dma.Base.{
  ℕ, ◌+◌, ◌*◌, ◌^◌, ◌<◌, ◌≤◌, ◌≡◌, ◌≢◌, ◌⊎◌, inl, inr, ap, ◌∙◌, sym, arith, max, Option, none, some,
}
use dma.Integ.Hash.{
  Memory, Lanes, block_step, word_step, byte_step, while_below, bounds, tail, combine, avalanche,
  seed_of, start_lanes, hash_memory,
}
use dma.Integ.Hash.Changed.{
  agree_off, words_on, words_off, words-lt, bytes_on, bytes_off, bytes-lt, blocks_on,
}
use dma.Integ.Hash.Avalanche.{avalanche_injective}
use dma.Integ.Hash.Mix.{Differ, combine-OneOff}
use dma.Integ.Hash.Agree.{words_same, bytes_same, blocks_same}
use dma.Integ.Hash.Span.{Reaches, blocks, tail_words, tail_bytes, head_bytes, head_words, ordered}
use dma.Integ.Hash.Differ.{Patched, InWords}
use mathlib.Core.Path.{subst}

combine-lt : (sz : ℕ) (s : Lanes) → combine sz s < 2 ^ 32
unfolding combine
combine-lt sz s = omega arith

start_lanes-InWords : (seed : ℕ) → seed < 2 ^ 32 → InWords (start_lanes seed)
unfolding start_lanes
start_lanes-InWords seed h = (omega arith, omega arith, h)

-- A loop that reads the changed byte makes a difference; another one keeps what it finds.
abbrev MakesDifference : (ℕ → ℕ) → (ℕ → ℕ) → Type 0
MakesDifference f f' = (h : ℕ) → h < 2 ^ 32 → Differ (f h) (f' h)

abbrev KeepsDifference : (ℕ → ℕ) → (ℕ → ℕ) → Type 0
KeepsDifference f f' =
    ((h h' : ℕ) → Differ h h' → Differ (f h) (f' h'))
    × ((h : ℕ) → f h ≡ f' h)
    × ((h : ℕ) → h < 2 ^ 32 → f h < 2 ^ 32)

module _ (f f' g g' : ℕ → ℕ) where
  hit_then :
      MakesDifference f f' → KeepsDifference g g' → MakesDifference (λ h. g (f h)) (λ h. g' (f' h))
  hit_then hit off h small = off.0 (f h) (f' h) (hit h small)

  then_hit :
      KeepsDifference f f' → MakesDifference g g' → MakesDifference (λ h. g (f h)) (λ h. g' (f' h))
  then_hit off hit h small =
      subst (λ x. Differ (g (f h)) (g' x)) (off.1 h) (hit (f h) (off.2 h small))

  off_then :
      KeepsDifference f f' → KeepsDifference g g' → KeepsDifference (λ h. g (f h)) (λ h. g' (f' h))
  off_then off more = (
    λ h h' r. more.0 (f h) (f' h') (off.0 h h' r),
    λ h. ap g (off.1 h) ∙ more.1 (f' h),
    λ h small. more.2 (f h) (off.2 h small),
  )

-- Where the byte is, outside the blocks.
abbrev Part : ℕ → ℕ → ℕ → Type 0
Part p sz i =
    (((bounds p sz).stop_block ≤ i) × (i < (bounds p sz).stop_word))
    ⊎ (((bounds p sz).stop_word ≤ i) × (i < (bounds p sz).stop))
    ⊎ ((p ≤ i) × (i < (bounds p sz).start_word))
    ⊎ (((bounds p sz).start_word ≤ i) × (i < (bounds p sz).start_block))

parts :
    (p sz i : ℕ)
    → Reaches p sz
    → p ≤ i
    → i < p + sz
    → (((bounds p sz).start_block ≤ i) × (i < (bounds p sz).stop_block)) ⊎ Part p sz i
parts p sz i reaches from till = ground (arith, ordered p sz reaches)

module _ (m m' : Memory) (i p sz : ℕ) (patched : Patched m m' i) (reaches : Reaches p sz) where
  words_Off :
      (n at stop : ℕ)
      → stop ≡ at + n * 4
      → (stop ≤ i) ⊎ (i < at)
      → KeepsDifference (while_below 4 (word_step m) at stop) (while_below 4 (word_step m') at stop)
  words_Off n at stop whole off = (
    λ h h' r. words_off m m' i patched n at stop h h' whole off r,
    λ h.
        words_same m m' at stop (agree_off m m' i patched at stop off) n at stop (omega arith)
          (omega arith) h whole,
    λ h small. words-lt m m' i patched n at stop h whole small,
  )

  bytes_Off :
      (n at stop : ℕ)
      → stop ≡ at + n * 1
      → (stop ≤ i) ⊎ (i < at)
      → KeepsDifference (while_below 1 (byte_step m) at stop) (while_below 1 (byte_step m') at stop)
  bytes_Off n at stop whole off = (
    λ h h' r. bytes_off m m' i patched n at stop h h' whole off r,
    λ h.
        bytes_same m m' at stop (agree_off m m' i patched at stop off) n at stop (omega arith)
          (omega arith) h whole,
    λ h small. bytes-lt m m' i patched n at stop h whole small,
  )

  -- The four loops after the blocks, by where the changed byte is.
  first :
      ((bounds p sz).stop_word ≤ i) ⊎ (i < (bounds p sz).stop_block)
      → KeepsDifference
          (while_below 4 (word_step m) (bounds p sz).stop_block (bounds p sz).stop_word)
          (while_below 4 (word_step m') (bounds p sz).stop_block (bounds p sz).stop_word)
  first = words_Off _ _ _ (tail_words p sz reaches)

  second :
      ((bounds p sz).stop ≤ i) ⊎ (i < (bounds p sz).stop_word)
      → KeepsDifference
          (while_below 1 (byte_step m) (bounds p sz).stop_word (bounds p sz).stop)
          (while_below 1 (byte_step m') (bounds p sz).stop_word (bounds p sz).stop)
  second = bytes_Off _ _ _ (tail_bytes p sz reaches)

  third :
      ((bounds p sz).start_word ≤ i) ⊎ (i < p)
      → KeepsDifference
          (while_below 1 (byte_step m) p (bounds p sz).start_word)
          (while_below 1 (byte_step m') p (bounds p sz).start_word)
  third = bytes_Off _ _ _ (head_bytes p sz reaches)

  fourth :
      ((bounds p sz).start_block ≤ i) ⊎ (i < max p (bounds p sz).start_word)
      → KeepsDifference
          (while_below 4 (word_step m) (max p (bounds p sz).start_word) (bounds p sz).start_block)
          (while_below 4 (word_step m') (max p (bounds p sz).start_word) (bounds p sz).start_block)
  fourth = words_Off _ _ _ (head_words p sz reaches)

  tail-KeepsDifference :
      (bounds p sz).start_block ≤ i
      → i < (bounds p sz).stop_block
      → KeepsDifference (tail m p (bounds p sz)) (tail m' p (bounds p sz))
  unfolding tail
  tail-KeepsDifference from till =
      let (o1, o2, o3, o4, o5, o6) = ordered p sz reaches in
      off_then _ _ _ _
        (off_then _ _ _ _ (off_then _ _ _ _ (first (inr till)) (second (inr (omega arith))))
          (third (inl (omega arith))))
        (fourth (inl from))

  tail-MakesDifference :
      Part p sz i → MakesDifference (tail m p (bounds p sz)) (tail m' p (bounds p sz))
  unfolding tail
  tail-MakesDifference part =
      let (o1, o2, o3, o4, o5, o6) = ordered p sz reaches in
      elim part [
        | inl (from, till) ↦
            hit_then _ _ _ _
              (hit_then _ _ _ _
                (hit_then _ _ _ _
                  (λ h. words_on m m' i patched _ _ _ h (tail_words p sz reaches) from till)
                  (second (inr till)))
                (third (inl (omega arith))))
              (fourth (inl (omega arith)))
        | inr (inl (from, till)) ↦
            hit_then _ _ _ _
              (hit_then _ _ _ _
                (then_hit _ _ _ _ (first (inl from))
                  (λ h. bytes_on m m' i patched _ _ _ h (tail_bytes p sz reaches) from till))
                (third (inl (omega arith))))
              (fourth (inl (omega arith)))
        | inr (inr (inl (from, till))) ↦
            hit_then _ _ _ _
              (then_hit _ _ _ _
                (off_then _ _ _ _ (first (inr (omega arith))) (second (inr (omega arith))))
                (λ h. bytes_on m m' i patched _ _ _ h (head_bytes p sz reaches) from till))
              (fourth (inr (omega arith)))
        | inr (inr (inr (from, till))) ↦
            then_hit _ _ _ _
              (off_then _ _ _ _
                (off_then _ _ _ _ (first (inr (omega arith))) (second (inr (omega arith))))
                (third (inl from)))
              (λ h. words_on m m' i patched _ _ _ h (head_words p sz reaches) (omega arith) till)
      ]

seed_of-lt :
    (m : Memory) (seed_ptr : Option ℕ) → ((a : ℕ) → m a < 256) → seed_of m seed_ptr < 2 ^ 32
unfolding seed_of
seed_of-lt m none bytes = omega arith
seed_of-lt m (some a) bytes = omega (arith, bytes a, bytes (1 + a), bytes (2 + a), bytes (3 + a))

-- Where the region [p, p + sz) reaches a multiple of 32, changing one byte of it changes the value
-- of hash_memory, as long as the seed stays.
pub hash_memory-changed :
    (m m' : Memory) (seed_ptr : Option ℕ) (i p sz : ℕ)
    → Reaches p sz
    → Patched m m' i
    → p ≤ i
    → i < p + sz
    → seed_of m seed_ptr ≡ seed_of m' seed_ptr
    → hash_memory m seed_ptr p sz ≢ hash_memory m' seed_ptr p sz
unfolding hash_memory
hash_memory-changed m m' seed_ptr i p sz reaches patched from till seeds e =
    let small = start_lanes-InWords (seed_of m seed_ptr) (seed_of-lt m seed_ptr patched.0) in
    let (a, b, ne) = different (start_lanes (seed_of m seed_ptr)) small in
    ne (
      avalanche_injective _ _ a b (
        e
        ∙ ap
            (λ seed. avalanche (
              tail m' p (bounds p sz) (
                combine sz (
                  while_below 32 (block_step m') (bounds p sz).start_block (bounds p sz).stop_block
                    (start_lanes seed)))))
            (sym seeds)))
  where
    before : Memory → Lanes → ℕ
    before n s =
        combine sz
          (while_below 32 (block_step n) (bounds p sz).start_block (bounds p sz).stop_block s)

    different :
        (s : Lanes)
        → InWords s
        → Differ (tail m p (bounds p sz) (before m s)) (tail m' p (bounds p sz) (before m' s))
    different s small = elim (parts p sz i reaches from till) [
      | inl (inside, below) ↦
          (tail-KeepsDifference m m' i p sz patched reaches inside below).0 (before m s)
            (before m' s)
            (
              combine-lt sz _,
              combine-lt sz _,
              combine-OneOff sz _ _
                  (blocks_on m m' i patched _ _ _ s (blocks p sz reaches) inside below small),
            )
      | inr part ↦
          subst
            (λ x.
              Differ (tail m p (bounds p sz) (before m s)) (tail m' p (bounds p sz) (combine sz x)))
            (blocks_same m m' (bounds p sz).start_block (bounds p sz).stop_block
              (agree_off m m' i patched (bounds p sz).start_block (bounds p sz).stop_block
                (ground (arith, ordered p sz reaches, part)))
              _ _ _ (omega arith) (omega arith) s (blocks p sz reaches))
            (tail-MakesDifference m m' i p sz patched reaches part (before m s) (combine-lt sz _))
    ]
