-- ===== src/Integ/Hash/Mix.antt =====
-- The step of the loops of `hash_memory` on 32 bits, in the value that it continues and in the
-- input that it takes in.
use native.Mathlib.Nat.{div-le_self}
use dma.Base.{
  ℕ, ◌≢◌, ◌⊎◌, ◌+◌, ◌-◌, ◌*◌, ◌/◌, ◌%◌, ◌^◌, ◌<◌, ◌≡◌, refl, ap, ap₂, ◌∙◌, arith, bit_or, u32,
}
use dma.Base.Bytes.{bit_or_disjoint, bit_or-lt}
use dma.Integ.Hash.{rotate_left, mix, combine, Lanes, prime_1, prime_2, prime_3, prime_4, prime_5}

-- A map on 32-bit values that can be undone.
abbrev pub OneToOne : (ℕ → ℕ) → Type 0
OneToOne f = (x y : ℕ) → x < 2 ^ 32 → y < 2 ^ 32 → f x ≡ f y → x ≡ y

module _ (x y : ℕ) (below : x < 2 ^ 32) (under : y < 2 ^ 32) where
  odd_1 : u32 (x * prime_1) ≡ u32 (y * prime_1) → x ≡ y
  odd_1 e = omega arith

  pub odd_2 : u32 (x * prime_2) ≡ u32 (y * prime_2) → x ≡ y
  odd_2 e = omega arith

  pub odd_3 : u32 (x * prime_3) ≡ u32 (y * prime_3) → x ≡ y
  odd_3 e = omega arith

  odd_4 : u32 (x * prime_4) ≡ u32 (y * prime_4) → x ≡ y
  odd_4 e = omega arith

  odd_5 : u32 (x * prime_5) ≡ u32 (y * prime_5) → x ≡ y
  odd_5 e = omega arith

-- A rotation swaps the high `r` bits and the others.
rotate_left_lem :
    (r l x : ℕ)
    → (32 - r % 32) % 32 ≡ l
    → u32 (x * 2 ^ r) ≡ x % 2 ^ l * 2 ^ r
    → x / 2 ^ l < 2 ^ r
    → rotate_left x r ≡ x % 2 ^ l * 2 ^ r + x / 2 ^ l
unfolding rotate_left
rotate_left_lem r l x shift high low =
    ap₂ (λ h n. bit_or h (x / 2 ^ n)) high shift ∙ bit_or_disjoint r (x % 2 ^ l) (x / 2 ^ l) low

turn_13 : OneToOne (λ x. rotate_left x 13)
turn_13 x y p q e = omega (
  arith,
  rotate_left_lem 13 19 x refl (omega arith) (omega arith),
  rotate_left_lem 13 19 y refl (omega arith) (omega arith),
)

turn_17 : OneToOne (λ x. rotate_left x 17)
turn_17 x y p q e = omega (
  arith,
  rotate_left_lem 17 15 x refl (omega arith) (omega arith),
  rotate_left_lem 17 15 y refl (omega arith) (omega arith),
)

turn_11 : OneToOne (λ x. rotate_left x 11)
turn_11 x y p q e = omega (
  arith,
  rotate_left_lem 11 21 x refl (omega arith) (omega arith),
  rotate_left_lem 11 21 y refl (omega arith) (omega arith),
)

turn_1 : OneToOne (λ x. rotate_left x 1)
turn_1 x y p q e = omega (
  arith,
  rotate_left_lem 1 31 x refl (omega arith) (omega arith),
  rotate_left_lem 1 31 y refl (omega arith) (omega arith),
)

turn_7 : OneToOne (λ x. rotate_left x 7)
turn_7 x y p q e = omega (
  arith,
  rotate_left_lem 7 25 x refl (omega arith) (omega arith),
  rotate_left_lem 7 25 y refl (omega arith) (omega arith),
)

turn_12 : OneToOne (λ x. rotate_left x 12)
turn_12 x y p q e = omega (
  arith,
  rotate_left_lem 12 20 x refl (omega arith) (omega arith),
  rotate_left_lem 12 20 y refl (omega arith) (omega arith),
)

rotate_left-lt : (x r : ℕ) → x < 2 ^ 32 → rotate_left x r < 2 ^ 32
unfolding rotate_left
rotate_left-lt x r p =
    bit_or-lt 32 (u32 (x * 2 ^ r)) (x / 2 ^ ((32 - r % 32) % 32)) (omega arith)
      (omega (arith, p, div-le_self x (2 ^ ((32 - r % 32) % 32))))

module _ (factor r prime : ℕ) (turn : OneToOne (λ x. rotate_left x r))
    (odd : OneToOne (λ x. u32 (x * prime))) where
  undone :
      (x y : ℕ)
      → x < 2 ^ 32
      → y < 2 ^ 32
      → u32 (rotate_left x r * prime) ≡ u32 (rotate_left y r * prime)
      → x ≡ y
  undone x y p q e =
      turn x y p q
        (odd (rotate_left x r) (rotate_left y r) (rotate_left-lt x r p) (rotate_left-lt y r q) e)

  pub mix_injective :
      (w h h' : ℕ)
      → h < 2 ^ 32
      → h' < 2 ^ 32
      → mix factor r prime h w ≡ mix factor r prime h' w
      → h ≡ h'
  unfolding mix
  mix_injective w h h' p q e = omega (
    arith,
    undone (u32 (h + u32 (w * factor))) (u32 (h' + u32 (w * factor))) (omega arith) (omega arith) e,
  )

  pub mix_input :
      OneToOne (λ x. u32 (x * factor))
      → (h w w' : ℕ) → h < 2 ^ 32
      → w < 2 ^ 32
      → w' < 2 ^ 32
      → mix factor r prime h w ≡ mix factor r prime h w'
      → w ≡ w'
  unfolding mix
  mix_input input h w w' b p q e = input w w' p q (
      omega (
        arith,
        undone (u32 (h + u32 (w * factor))) (u32 (h + u32 (w' * factor))) (omega arith)
            (omega arith) e,
      ))

-- Two different 32-bit values, and two equal ones.
abbrev pub Differ : ℕ → ℕ → Type 0
Differ a b = (a < 2 ^ 32) × (b < 2 ^ 32) × (a ≢ b)

abbrev pub EqualWords : ℕ → ℕ → Type 0
EqualWords a b = (a < 2 ^ 32) × (a ≡ b)

-- Exactly one lane differs.
abbrev pub OneOff : Lanes → Lanes → Type 0
OneOff s t =
    (Differ s.s0 t.s0 × EqualWords s.s1 t.s1 × EqualWords s.s2 t.s2)
    ⊎ (EqualWords s.s0 t.s0 × Differ s.s1 t.s1 × EqualWords s.s2 t.s2)
    ⊎ (EqualWords s.s0 t.s0 × EqualWords s.s1 t.s1 × Differ s.s2 t.s2)

pub combine-OneOff : (sz : ℕ) (s t : Lanes) → OneOff s t → combine sz s ≢ combine sz t
unfolding combine
combine-OneOff sz s t one e = ground (
  arith,
  ap (λ x. rotate_left x 1) {x = s.s0} {y = t.s0},
  ap (λ x. rotate_left x 7) {x = s.s1} {y = t.s1},
  ap (λ x. rotate_left x 12) {x = s.s2} {y = t.s2},
  turn_1 s.s0 t.s0,
  turn_7 s.s1 t.s1,
  turn_12 s.s2 t.s2,
  rotate_left-lt s.s0 1,
  rotate_left-lt t.s0 1,
  rotate_left-lt s.s1 7,
  rotate_left-lt t.s1 7,
  rotate_left-lt s.s2 12,
  rotate_left-lt t.s2 12,
)

pub mix-lt : (factor r prime h w : ℕ) → mix factor r prime h w < 2 ^ 32
unfolding mix
mix-lt factor r prime h w = omega arith

-- The constants of a step can be undone.
abbrev pub CanUndo : ℕ → ℕ → ℕ → Type 0
CanUndo factor r prime =
    OneToOne (λ x. u32 (x * factor))
    × OneToOne (λ x. rotate_left x r)
    × OneToOne (λ x. u32 (x * prime))

pub lane_undoable : CanUndo prime_2 13 prime_1
lane_undoable = (odd_2, turn_13, odd_1)

pub word_undoable : CanUndo prime_3 17 prime_4
word_undoable = (odd_3, turn_17, odd_4)

pub byte_undoable : CanUndo prime_5 11 prime_1
byte_undoable = (odd_5, turn_11, odd_1)

module _ (factor r prime : ℕ) (undoable : CanUndo factor r prime) where
  -- A difference stays, and different inputs make one.
  pub mix_keep :
      (h h' w w' : ℕ)
      → Differ h h'
      → w ≡ w'
      → Differ (mix factor r prime h w) (mix factor r prime h' w')
  mix_keep h h' w w' (p, q, ne) e = rw (← e) (
    mix-lt factor r prime h w,
    mix-lt factor r prime h' w,
    λ same. ne (mix_injective factor r prime undoable.1 undoable.2 w h h' p q same),
  )

  pub mix_hit :
      (h w w' : ℕ)
      → h < 2 ^ 32
      → Differ w w'
      → Differ (mix factor r prime h w) (mix factor r prime h w')
  mix_hit h w w' b (p, q, ne) = (
    mix-lt factor r prime h w,
    mix-lt factor r prime h w',
    λ same. ne (mix_input factor r prime undoable.1 undoable.2 undoable.0 h w w' b p q same),
  )
