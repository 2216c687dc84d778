-- ===== src/Integ/Hash/Span.antt =====
-- The five loops of `hash_memory` over a region that reaches a 32-byte boundary.
use dma.Base.{ℕ, ◌+◌, ◌-◌, ◌*◌, ◌/◌, ◌≤◌, ◌≡◌, refl, arith, max}
use dma.Integ.Hash.{bounds}

-- The region reaches a multiple of 32.
abbrev pub Reaches : ℕ → ℕ → Type 0
Reaches p sz = p ≤ (p + sz) / 32 * 32

-- In order: the head's bytes, its words, the blocks, the tail's words, its bytes.
module _ (p sz : ℕ) (reaches : Reaches p sz) where
  pub blocks :
      (bounds p sz).stop_block
      ≡ (bounds p sz).start_block + ((bounds p sz).stop_block - (bounds p sz).start_block) / 32 * 32
  unfolding bounds
  blocks = omega arith

  pub tail_words :
      (bounds p sz).stop_word
      ≡ (bounds p sz).stop_block + ((bounds p sz).stop_word - (bounds p sz).stop_block) / 4 * 4
  unfolding bounds
  tail_words = omega arith

  pub tail_bytes :
      (bounds p sz).stop
      ≡ (bounds p sz).stop_word + ((bounds p sz).stop - (bounds p sz).stop_word) * 1
  unfolding bounds
  tail_bytes = omega arith

  pub head_bytes : (bounds p sz).start_word ≡ p + ((bounds p sz).start_word - p) * 1
  unfolding bounds
  head_bytes = omega arith

  pub head_words :
      (bounds p sz).start_block
      ≡ max p (bounds p sz).start_word
        + ((bounds p sz).start_block - max p (bounds p sz).start_word) / 4 * 4
  unfolding bounds
  head_words = omega arith

  -- The bounds in order.
  pub ordered :
      (p ≤ (bounds p sz).start_word)
      × ((bounds p sz).start_word ≤ (bounds p sz).start_block)
      × ((bounds p sz).start_block ≤ (bounds p sz).stop_block)
      × ((bounds p sz).stop_block ≤ (bounds p sz).stop_word)
      × ((bounds p sz).stop_word ≤ (bounds p sz).stop)
      × ((bounds p sz).stop ≡ p + sz)
  unfolding bounds
  ordered = (omega arith, omega arith, omega arith, omega arith, omega arith, refl)
