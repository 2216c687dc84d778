-- ===== src/Integ/Hash/Agree.antt =====
-- `hash_memory` on two memories with the same region.
use dma.Base.{ℕ, ◌+◌, ◌-◌, ◌*◌, ◌/◌, ◌<◌, ◌≤◌, ◌≡◌, refl, ap, ◌∙◌, arith, max, Option}
use dma.Integ.Hash.{
  Memory, Lanes, load, block_step, word_step, byte_step, mix, while_below, bounds, tail, combine,
  avalanche, seed_of, start_lanes, hash_memory, prime_3, prime_4, prime_5, prime_1,
}
use dma.Integ.Hash.Walk.{walk_same}
use dma.Integ.Hash.Span.{Reaches, blocks, tail_words, tail_bytes, head_bytes, head_words, ordered}

-- Two memories with the same bytes in `[lo, hi)`.
abbrev pub SameBytes : Memory → Memory → ℕ → ℕ → Type 0
SameBytes m m' lo hi = (a : ℕ) → lo ≤ a → a < hi → m a ≡ m' a

module _ (m m' : Memory) (lo hi : ℕ) (agree : SameBytes m m' lo hi) where
  pub load_same : (d : ℕ) → lo ≤ d → 4 + d ≤ hi → load m d ≡ load m' d
  load_same d p q = omega (
    arith,
    agree d (omega arith) (omega arith),
    agree (1 + d) (omega arith) (omega arith),
    agree (2 + d) (omega arith) (omega arith),
    agree (3 + d) (omega arith) (omega arith),
  )

  pub word_step_same : (d h : ℕ) → lo ≤ d → d + 4 ≤ hi → word_step m d h ≡ word_step m' d h
  word_step_same d h p q = ap (mix prime_3 17 prime_4 h) (load_same d p (omega arith))

  pub byte_step_same : (d h : ℕ) → lo ≤ d → d + 1 ≤ hi → byte_step m d h ≡ byte_step m' d h
  byte_step_same d h p q = ap (mix prime_5 11 prime_1 h) (agree d p (omega arith))

  pub block_step_same :
      (d : ℕ) (s : Lanes) → lo ≤ d → d + 32 ≤ hi → block_step m d s ≡ block_step m' d s
  block_step_same d s p q =
      rw
        (
          load_same d (omega arith) (omega arith),
          load_same (4 + d) (omega arith) (omega arith),
          load_same (8 + d) (omega arith) (omega arith),
          load_same (12 + d) (omega arith) (omega arith),
          load_same (16 + d) (omega arith) (omega arith),
          load_same (20 + d) (omega arith) (omega arith),
          load_same (24 + d) (omega arith) (omega arith),
          load_same (28 + d) (omega arith) (omega arith),
        )
        refl

  -- The loops over ranges inside.
  module _ (n at stop : ℕ) (from : lo ≤ at) (till : stop ≤ hi) where
    pub words_same :
        (h : ℕ)
        → stop ≡ at + n * 4
        → while_below 4 (word_step m) at stop h ≡ while_below 4 (word_step m') at stop h
    words_same h whole =
        walk_same 4 (word_step m) (word_step m') n at stop h whole (omega arith)
          (λ d a p q. word_step_same d a (omega arith) (omega arith))

    pub bytes_same :
        (h : ℕ)
        → stop ≡ at + n * 1
        → while_below 1 (byte_step m) at stop h ≡ while_below 1 (byte_step m') at stop h
    bytes_same h whole =
        walk_same 1 (byte_step m) (byte_step m') n at stop h whole (omega arith)
          (λ d a p q. byte_step_same d a (omega arith) (omega arith))

    pub blocks_same :
        (s : Lanes)
        → stop ≡ at + n * 32
        → while_below 32 (block_step m) at stop s ≡ while_below 32 (block_step m') at stop s
    blocks_same s whole =
        walk_same 32 (block_step m) (block_step m') n at stop s whole (omega arith)
          (λ d a p q. block_step_same d a (omega arith) (omega arith))

-- Where the region [p, p + sz) reaches a multiple of 32, hash_memory depends on nothing but the
-- bytes of the region and the seed.
pub hash_memory-agree :
    (m m' : Memory) (seed_ptr : Option ℕ) (p sz : ℕ)
    → Reaches p sz
    → SameBytes m m' p (p + sz)
    → seed_of m seed_ptr ≡ seed_of m' seed_ptr
    → hash_memory m seed_ptr p sz ≡ hash_memory m' seed_ptr p sz
unfolding hash_memory tail
hash_memory-agree m m' seed_ptr p sz reaches agree seeds =
    let b = bounds p sz in
    let (o1, o2, o3, o4, o5, o6) = ordered p sz reaches in
    ap avalanche (
      words_same m m' p (p + sz) agree ((b.start_block - max p b.start_word) / 4)
        (max p b.start_word) b.start_block (omega arith) (omega arith) _ (head_words p sz reaches)
      ∙ ap (while_below 4 (word_step m') (max p b.start_word) b.start_block) (
          bytes_same m m' p (p + sz) agree (b.start_word - p) p b.start_word (omega arith)
            (omega arith) _ (head_bytes p sz reaches)
          ∙ ap (while_below 1 (byte_step m') p b.start_word) (
              bytes_same m m' p (p + sz) agree (b.stop - b.stop_word) b.stop_word b.stop
                (omega arith) (omega arith) _ (tail_bytes p sz reaches)
              ∙ ap (while_below 1 (byte_step m') b.stop_word b.stop) (
                  words_same m m' p (p + sz) agree ((b.stop_word - b.stop_block) / 4) b.stop_block
                    b.stop_word (omega arith) (omega arith) _ (tail_words p sz reaches)
                  ∙ ap (λ s. while_below 4 (word_step m') b.stop_block b.stop_word (combine sz s))
                      (blocks_same m m' p (p + sz) agree ((b.stop_block - b.start_block) / 32)
                          b.start_block b.stop_block (omega arith) (omega arith) _
                          (blocks p sz reaches)
                        ∙ ap
                            (λ s.
                              while_below 32 (block_step m') b.start_block b.stop_block
                                (start_lanes s))
                            seeds)))))
