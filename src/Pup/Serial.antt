-- ===== src/Pup/Serial.antt =====
-- The checksums as their standards define them: one bit at a time, lowest bit first, by a
-- reflected polynomial. The table-driven routines of pup/fcs.c and pup/crc.c are held to this.
use dma.Base.{ℕ, zero, suc, ◌+◌, ◌*◌, ◌/◌, ◌%◌, ◌^◌, ◌<◌, ◌≡◌, refl, sym, ap, ◌∙◌, arith, bit_xor}
use dma.Base.{◌==◌, if◌then◌else◌, List, [], ◌∷◌, pow-suc}
use dma.Base.Bits.{bit_xor_half, bit_xor_digit, bit_xor_comm, bit_xor_assoc, bit_xor_self}
use dma.Base.Bits.{bit_xor-zero, zero-bit_xor}
use dma.Base.{bit_and, all_below, all_below_sound, ==→eq, get_or, true}
use dma.Base.Bytes.{bit_xor_split, bit_xor-lt, bit_and_mask}

-- One bit through the register.
unfoldable pub bit_step : ℕ → ℕ → ℕ
bit_step poly x = if x % 2 == 1 then bit_xor (x / 2) poly else x / 2

unfoldable pub bit_steps : ℕ → ℕ → ℕ → ℕ
bit_steps poly zero x = x
bit_steps poly (suc n) x = bit_steps poly n (bit_step poly x)

-- One byte, then a message.
unfoldable pub serial_byte : ℕ → ℕ → ℕ → ℕ
serial_byte poly c b = bit_steps poly 8 (bit_xor c b)

unfoldable pub serial : ℕ → ℕ → List ℕ → ℕ
serial poly c [] = c
serial poly c (b ∷ bs) = serial poly (serial_byte poly c b) bs

xor_middle : (x y p : ℕ) → bit_xor (bit_xor x y) p ≡ bit_xor (bit_xor x p) y
xor_middle x y p =
    bit_xor_assoc x y p ∙ ap (bit_xor x) (bit_xor_comm y p) ∙ sym (bit_xor_assoc x p y)

xor_both : (x y p : ℕ) → bit_xor (bit_xor x p) (bit_xor y p) ≡ bit_xor x y
xor_both x y p =
    sym (bit_xor_assoc (bit_xor x p) y p)
    ∙ ap (λ t. bit_xor t p) (xor_middle x p y)
    ∙ bit_xor_assoc (bit_xor x y) p p
    ∙ ap (bit_xor (bit_xor x y)) (bit_xor_self p)
    ∙ bit_xor-zero (bit_xor x y)

-- The register is linear.
bit_step-xor :
    (poly a b : ℕ) → bit_step poly (bit_xor a b) ≡ bit_xor (bit_step poly a) (bit_step poly b)
unfolding bit_step
bit_step-xor poly a b = ground (
  arith,
  bit_xor_half a b,
  bit_xor_digit a b,
  xor_both (a / 2) (b / 2) poly,
  xor_middle (a / 2) (b / 2) poly,
  bit_xor_assoc (a / 2) (b / 2) poly,
)

bit_steps-xor :
    (poly n a b : ℕ)
    → bit_steps poly n (bit_xor a b) ≡ bit_xor (bit_steps poly n a) (bit_steps poly n b)
unfolding bit_steps
bit_steps-xor poly zero a b = refl
bit_steps-xor poly (suc n) a b =
    ap (bit_steps poly n) (bit_step-xor poly a b)
    ∙ bit_steps-xor poly n (bit_step poly a) (bit_step poly b)

bit_step-even : (poly x : ℕ) → bit_step poly (2 * x) ≡ x
unfolding bit_step
bit_step-even poly x = ground arith

bit_steps-high : (poly n x : ℕ) → bit_steps poly n (x * 2 ^ n) ≡ x
unfolding bit_steps
bit_steps-high poly zero x = omega arith
bit_steps-high poly (suc n) x =
    ap (bit_steps poly n) (ap (bit_step poly) (shape x n) ∙ bit_step-even poly (x * 2 ^ n))
    ∙ bit_steps-high poly n x
  where
    shape : (q k : ℕ) → q * 2 ^ suc k ≡ 2 * (q * 2 ^ k)
    shape q k = omega (arith, ap (λ (t : ℕ). q * t) (pow-suc 2 k))

-- The high part passes through unchanged, and only the low byte meets the polynomial.
pub bit_steps_split :
    (poly q r : ℕ) → r < 2 ^ 8 → bit_steps poly 8 (q * 2 ^ 8 + r) ≡ bit_xor q (bit_steps poly 8 r)
bit_steps_split poly q r h =
    ap (bit_steps poly 8) joined
    ∙ bit_steps-xor poly 8 (q * 2 ^ 8) r
    ∙ ap (λ t. bit_xor t (bit_steps poly 8 r)) (bit_steps-high poly 8 q)
  where
    joined : q * 2 ^ 8 + r ≡ bit_xor (q * 2 ^ 8) r
    joined = ground (arith, bit_xor_split 8 q 0 0 r (omega arith) h, bit_xor-zero q, zero-bit_xor r)

-- A byte changes only the low byte of the register it meets.
pub xor_byte : (c b : ℕ) → b < 2 ^ 8 → bit_xor c b ≡ c / 2 ^ 8 * 2 ^ 8 + bit_xor (c % 2 ^ 8) b
xor_byte c b h =
    ground
      (arith, bit_xor_split 8 (c / 2 ^ 8) (c % 2 ^ 8) 0 b (omega arith) h, bit_xor-zero (c / 2 ^ 8))

-- The index and the remaining register of a table-driven step.
pub xor_byte_parts :
    (c b : ℕ)
    → b < 2 ^ 8
    → (bit_xor c b / 2 ^ 8 ≡ c / 2 ^ 8)
      × (bit_and (bit_xor c b) 0xff ≡ bit_xor (c % 2 ^ 8) b)
      × (bit_xor (c % 2 ^ 8) b < 2 ^ 8)
xor_byte_parts c b h = ground (
  arith,
  xor_byte c b h,
  bit_xor-lt 8 (c % 2 ^ 8) b (omega arith) h,
  bit_and_mask 8 (bit_xor c b),
)

-- A table of 256 entries that holds each byte's eight steps makes one lookup do their work.
module _ (poly : ℕ) (table : List ℕ)
    (exact : all_below 256 (λ i. get_or table i 0 == bit_steps poly 8 i) ≡ true) where
  pub entry : (i : ℕ) → i < 256 → get_or table i 0 ≡ bit_steps poly 8 i
  entry i h = ==→eq _ _ (all_below_sound 256 _ i exact h)

  pub lookup-serial :
      (c b : ℕ)
      → b < 2 ^ 8
      → bit_xor (c / 2 ^ 8) (get_or table (bit_and (bit_xor c b) 0xff) 0) ≡ serial_byte poly c b
  unfolding serial_byte
  lookup-serial c b h =
      let parts = xor_byte_parts c b h in
      rw (parts.1, entry (bit_xor (c % 2 ^ 8) b) parts.2)
        (sym (bit_steps_split poly (c / 2 ^ 8) (bit_xor (c % 2 ^ 8) b) parts.2)
          ∙ ap (bit_steps poly 8) (sym (xor_byte c b h)))
