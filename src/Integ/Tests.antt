-- ===== src/Integ/Tests.antt =====
-- `hash_memory` at concrete inputs.
use dma.Base.{ℕ, ◌≡◌, ◌≢◌, refl, arith, ◌==◌, false, none, if◌then◌else◌}
use dma.Integ.Hash.{
  Memory, hash_memory, seed_of, bounds, walk, tail, combine, avalanche, start_lanes, mix,
  rotate_left,
}
use dma.Integ.Hash.Agree.{hash_memory-agree}
use dma.Integ.Hash.Sensitive.{hash_memory-changed}

abbrev zeros : Memory
zeros a = 0

-- Memory with a one at one place.
abbrev one_at : ℕ → Memory
one_at i a = if a == i then 1 else 0

hash_memory-changed_example : hash_memory zeros none 70 60 ≢ hash_memory (one_at 100) none 70 60
unfolding seed_of
hash_memory-changed_example =
    hash_memory-changed zeros (one_at 100) none 100 70 60 (omega arith)
      (λ a. omega arith, λ a. ground arith, λ a ne. ground arith, λ e. ground arith) (omega arith)
      (omega arith) refl

hash_memory-agree_example : hash_memory zeros none 70 60 ≡ hash_memory (one_at 69) none 70 60
unfolding seed_of
hash_memory-agree_example =
    hash_memory-agree zeros (one_at 69) none 70 60 (omega arith) (λ a p q. ground arith) refl

-- A region that reaches no multiple of 32 is hashed together with the bytes in front of it.
reads_in_front : (hash_memory zeros none 36 8 == hash_memory (one_at 32) none 36 8) ≡ false
unfolding hash_memory bounds walk tail combine avalanche start_lanes seed_of mix rotate_left
reads_in_front = refl
