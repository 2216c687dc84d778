-- ===== src/Integ/Hash.antt =====
-- `hash_memory` of bcm2835/240-integ/hash.c: the portable path, in C.
pub mod Mix
pub mod Avalanche
pub mod Walk
pub mod Span
pub mod Agree
pub mod Differ
pub mod Blocks
pub mod Changed
pub mod Sensitive
use dma.Base.{
  ℕ, zero, suc, ◌+◌, ◌-◌, ◌*◌, ◌/◌, ◌%◌, ◌^◌, min, max, ltb, if◌then◌else◌, Option, none, some,
  bit_or, bit_xor, u32,
}

abbrev pub Memory : Type 0
Memory = ℕ → ℕ

abbrev pub prime_1 : ℕ
prime_1 = 2654435761

abbrev pub prime_2 : ℕ
prime_2 = 2246822519

abbrev pub prime_3 : ℕ
prime_3 = 3266489917

abbrev pub prime_4 : ℕ
prime_4 = 668265263

abbrev pub prime_5 : ℕ
prime_5 = 374761393

-- The macro `RotateLeft`, on `uint32_t`.
unfoldable pub rotate_left : ℕ → ℕ → ℕ
rotate_left x r = bit_or (u32 (x * 2 ^ r)) (x / 2 ^ ((32 - r % 32) % 32))

-- The word that a load at `d` gives.
abbrev pub load : Memory → ℕ → ℕ
load m d = m d + m (1 + d) * 2 ^ 8 + m (2 + d) * 2 ^ 16 + m (3 + d) * 2 ^ 24

-- `RotateLeft(h + w * factor, r) * prime`, the step of every loop.
unfoldable pub mix : ℕ → ℕ → ℕ → ℕ → ℕ → ℕ
mix factor r prime h w = u32 (rotate_left (u32 (h + u32 (w * factor))) r * prime)

abbrev pub lane : ℕ → ℕ → ℕ
lane = mix prime_2 13 prime_1

abbrev pub word_step : Memory → ℕ → ℕ → ℕ
word_step m d h = mix prime_3 17 prime_4 h (load m d)

abbrev pub byte_step : Memory → ℕ → ℕ → ℕ
byte_step m d h = mix prime_5 11 prime_1 h (m d)

pub record Lanes : Type 0 where
  pub s0 : ℕ
  pub s1 : ℕ
  pub s2 : ℕ

-- One block of eight words.
abbrev pub block_step : Memory → ℕ → Lanes → Lanes
block_step m d s = record {
  s0 = lane (lane (lane s.s0 (load m d)) (load m (12 + d))) (load m (24 + d));
  s1 = lane (lane (lane s.s1 (load m (4 + d))) (load m (16 + d))) (load m (28 + d));
  s2 = lane (lane s.s2 (load m (8 + d))) (load m (20 + d));
}

-- `while (data < stop) { body; data += step; }` on fuel.
unfoldable pub walk {ℓ} : {S : Type ℓ} → ℕ → (ℕ → S → S) → ℕ → ℕ → ℕ → S → S
walk step body zero at stop s = s
walk step body (suc fuel) at stop s =
    let rest = walk step body fuel (at + step) stop (body at s) in if ltb at stop then rest else s

-- One round goes at least one byte forward: the distance to `stop` is fuel enough.
abbrev pub while_below {ℓ} : {S : Type ℓ} → ℕ → (ℕ → S → S) → ℕ → ℕ → S → S
while_below step body at stop s = walk step body (stop - at) at stop s

-- The five bounds, of a region `[p, p + sz)` that does not reach the end of the address space.
pub record Bounds : Type 0 where
  pub start_word : ℕ
  pub start_block : ℕ
  pub stop_block : ℕ
  pub stop_word : ℕ
  pub stop : ℕ

unfoldable pub bounds : ℕ → ℕ → Bounds
bounds p sz = record {
  start_word = min ((p + sz) / 4 * 4) ((p + 3) / 4 * 4);
  start_block = min ((p + sz) / 32 * 32) ((p + 31) / 32 * 32);
  stop_block = (p + sz) / 32 * 32;
  stop_word = (p + sz) / 4 * 4;
  stop = p + sz;
}

-- The lanes put together.
unfoldable pub combine : ℕ → Lanes → ℕ
combine sz s = u32 (sz + rotate_left s.s0 1 + rotate_left s.s1 7 + rotate_left s.s2 12)

-- The loops after the blocks: to the end of the region, then its head. Each starts where `data`
-- stands: the bounds are multiples of the step, so the loop before it stopped at its bound.
unfoldable pub tail : Memory → ℕ → Bounds → ℕ → ℕ
tail m p b h = while_below 4 (word_step m) (max p b.start_word) b.start_block (
    while_below 1 (byte_step m) p b.start_word (
      while_below 1 (byte_step m) b.stop_word b.stop
        (while_below 4 (word_step m) b.stop_block b.stop_word h)))

unfoldable pub avalanche : ℕ → ℕ
avalanche h =
    let a = u32 (bit_xor h (h / 2 ^ 15) * prime_2) in
    let b = u32 (bit_xor a (a / 2 ^ 13) * prime_3) in bit_xor b (b / 2 ^ 16)

unfoldable pub seed_of : Memory → Option ℕ → ℕ
seed_of m none = 0
seed_of m (some seed_ptr) = load m seed_ptr

unfoldable pub start_lanes : ℕ → Lanes
start_lanes seed = record {
  s0 = u32 (seed + prime_1 + prime_2);
  s1 = u32 (seed + prime_2);
  s2 = seed;
}

unfoldable pub hash_memory : Memory → Option ℕ → ℕ → ℕ → ℕ
hash_memory m seed_ptr p sz =
    let b = bounds p sz in
    avalanche (
      tail m p b (
        combine sz (
          while_below 32 (block_step m) b.start_block b.stop_block
            (start_lanes (seed_of m seed_ptr)))))
