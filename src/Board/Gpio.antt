-- ===== src/Board/Gpio.antt =====
-- The function of each pin, three bits in a register of ten pins (bcm2835/gpio.c).
use native.Mathlib.Nat.{pow-suc, pow-le-pow_right, mod-eq_of_lt, mul-le-mul_right}
use dma.Base.{
  ℕ, zero, suc, ◌+◌, ◌-◌, ◌*◌, ◌/◌, ◌%◌, ◌^◌, ◌<◌, ◌≤◌, ◌≡◌, ◌≢◌, refl, ap, ap₂, ◌∙◌, arith, Bool,
  ◌==◌, ◌&&◌, ltb, if◌then◌else◌, bit_and, bit_or, u32,
}
use dma.Base.Bits.{bit_or-zero}
use dma.Base.Bytes.{bit_or_disjoint, bit_and_high, bit_and_split, bit_or_split, bit_and_mask}

-- `gpio->gpfsel`, `gpio->gpset` and `gpio->gpclr`.
pub record Gpio : Type 0 where
  pub gpfsel : ℕ → ℕ
  pub gpset : ℕ → ℕ
  pub gpclr : ℕ → ℕ

abbrev pub assign : (ℕ → ℕ) → ℕ → ℕ → ℕ → ℕ
assign r i v j = if j == i then v else r j

-- `((*r) & ~(7 << shift)) | (fsel << shift)` on 32 bits, for the pin at place `j` of the register.
unfoldable pub with_function : ℕ → ℕ → ℕ → ℕ
with_function r j fsel =
    bit_or (bit_and r (2 ^ 32 - 1 - 7 * 2 ^ (j * 3))) (u32 (fsel * 2 ^ (j * 3)))

unfoldable pub gpio_pin_set_function : ℕ → ℕ → Gpio → Gpio
gpio_pin_set_function pin fsel g = if ltb 53 pin then g else record g {
  gpfsel = assign g.gpfsel (pin / 10) (with_function (g.gpfsel (pin / 10)) (pin % 10) fsel);
}

unfoldable pub gpio_pin_write : ℕ → Bool → Gpio → Gpio
gpio_pin_write pin lev g =
    if ltb 53 pin
    then g
    else if lev
    then record g { gpset = assign g.gpset (pin / 32) (2 ^ (pin % 32)) }
    else record g { gpclr = assign g.gpclr (pin / 32) (2 ^ (pin % 32)) }

-- The three bits at place `j`, from the manual's layout.
unfoldable pub field : ℕ → ℕ → ℕ
field zero r = r % 8
field (suc j) r = field j (r / 8)

unfoldable pub function_of : Gpio → ℕ → ℕ
function_of g pin = field (pin % 10) (g.gpfsel (pin / 10))

-- The register with another digit, in base 8.
put : ℕ → ℕ → ℕ → ℕ
put zero fsel r = r / 8 * 8 + fsel
put (suc j) fsel r = put j fsel (r / 8) * 8 + r % 8

field-put_self : (j fsel r : ℕ) → fsel < 8 → field j (put j fsel r) ≡ fsel
unfolding field put
field-put_self zero fsel r small = omega arith
field-put_self (suc j) fsel r small =
    ap (field j) {y = put j fsel (r / 8)} (omega arith) ∙ field-put_self j fsel (r / 8) small

field-put_ne : (i j fsel r : ℕ) → fsel < 8 → i ≢ j → field i (put j fsel r) ≡ field i r
unfolding field put
field-put_ne zero zero fsel r small other = absurd (other refl)
field-put_ne zero (suc j) fsel r small other = omega arith
field-put_ne (suc i) zero fsel r small other = ap (field i) (omega arith)
field-put_ne (suc i) (suc j) fsel r small other =
    ap (field i) {y = put j fsel (r / 8)} (omega arith)
    ∙ field-put_ne i j fsel (r / 8) small (λ e. other (ap suc e))

eightfold : (n : ℕ) → 2 ^ suc (suc (suc n)) ≡ 8 * 2 ^ n
eightfold n = omega (arith, pow-suc 2 (suc (suc n)), pow-suc 2 (suc n), pow-suc 2 n)

-- The masked register with the new digits in the gap, on `width` bits.
module _ (fsel : ℕ) (small : fsel < 8) where
  masked-put :
      (j rest r : ℕ)
      → r < 2 ^ (j * 3 + 3 + rest)
      → bit_or (bit_and r (2 ^ (j * 3 + 3 + rest) - 1 - 7 * 2 ^ (j * 3))) (fsel * 2 ^ (j * 3))
        ≡ put j fsel r
  unfolding put
  masked-put zero rest r below =
      ap₂ bit_or {y = r / 8 * 2 ^ 3} {u = fsel * 2 ^ (0 * 3)} {v = fsel}
        (ap (bit_and r) {y = 2 ^ (3 + rest) - 2 ^ 3} (omega arith)
          ∙ bit_and_high 3 rest r below
          ∙ omega arith)
        (omega arith)
      ∙ bit_or_disjoint 3 (r / 8) fsel small
  masked-put (suc j) rest r below =
      ap₂ bit_or {y = bit_and (r / 8) low * 2 ^ 3 + r % 8} {v = fsel * 2 ^ (j * 3) * 2 ^ 3 + 0}
        (ap₂ bit_and {y = r / 8 * 2 ^ 3 + r % 8} {v = low * 2 ^ 3 + (2 ^ 3 - 1)} (omega arith)
            (omega (arith, wide, scale, room))
          ∙ bit_and_split 3 (r / 8) (r % 8) low 7 (omega arith) (omega arith)
          ∙ ap (λ t. bit_and (r / 8) low * 2 ^ 3 + t) (bit_and_mask 3 (r % 8) ∙ omega arith))
        (omega (arith, ap (λ (t : ℕ). fsel * t) scale))
      ∙ bit_or_split 3 (bit_and (r / 8) low) (r % 8) (fsel * 2 ^ (j * 3)) 0 (omega arith)
          (omega arith)
      ∙ ap₂ (λ a b. a * 2 ^ 3 + b) {v = r % 8} (masked-put j rest (r / 8) (omega (arith, wide)))
          (bit_or-zero (r % 8))
    where
      low : ℕ
      low = 2 ^ (j * 3 + 3 + rest) - 1 - 7 * 2 ^ (j * 3)

      scale : 2 ^ (suc j * 3) ≡ 8 * 2 ^ (j * 3)
      scale = ap (λ (n : ℕ). 2 ^ n) {y = suc (suc (suc (j * 3)))} (omega arith) ∙ eightfold (j * 3)

      wide : 2 ^ (suc j * 3 + 3 + rest) ≡ 8 * 2 ^ (j * 3 + 3 + rest)
      wide =
          ap (λ (n : ℕ). 2 ^ n) {y = suc (suc (suc (j * 3 + 3 + rest)))} (omega arith)
          ∙ eightfold (j * 3 + 3 + rest)

      room : 8 * 2 ^ (j * 3) ≤ 2 ^ (j * 3 + 3 + rest)
      room = omega (
        arith,
        eightfold (j * 3),
        pow-le-pow_right {n = 2} (omega arith) {i = suc (suc (suc (j * 3)))} {j = j * 3 + 3 + rest}
            (omega arith),
      )

-- A register of ten pins.
with_function-put :
    (r j fsel : ℕ) → r < 2 ^ 32 → fsel < 8 → j < 10 → with_function r j fsel ≡ put j fsel r
unfolding with_function
with_function-put r j fsel below small ten =
    ap₂ (λ (m f : ℕ). bit_or (bit_and r m) f)
      {y = 2 ^ (j * 3 + 3 + (29 - j * 3)) - 1 - 7 * 2 ^ (j * 3)} {v = fsel * 2 ^ (j * 3)}
      (ap (λ (n : ℕ). 2 ^ n - 1 - 7 * 2 ^ (j * 3)) {x = 32} (omega arith))
      (mod-eq_of_lt {n = fsel * 2 ^ (j * 3)} {m = 2 ^ 32} (omega (arith, fits, place)))
    ∙ masked-put fsel small j (29 - j * 3) r (omega (arith, below, width))
  where
    width : 2 ^ 32 ≡ 2 ^ (j * 3 + 3 + (29 - j * 3))
    width = ap (λ (n : ℕ). 2 ^ n) {x = 32} (omega arith)

    place : 2 ^ (j * 3) ≤ 2 ^ 27
    place = pow-le-pow_right {n = 2} (omega arith) {i = j * 3} {j = 27} (omega arith)

    fits : fsel * 2 ^ (j * 3) ≤ 7 * 2 ^ (j * 3)
    fits = mul-le-mul_right {m = fsel} {n = 7} (2 ^ (j * 3)) (omega arith)

-- Below pin 54, gpio_pin_set_function gives the pin its function and leaves the other pins theirs;
-- from pin 54 on it changes nothing. Registers have 32 bits and functions three.
pub gpio_pin_set_function-function_of :
    (g : Gpio) (pin fsel other : ℕ)
    → ((i : ℕ) → g.gpfsel i < 2 ^ 32)
    → fsel < 8
    → function_of (gpio_pin_set_function pin fsel g) other
      ≡ (if ltb pin 54 && (other == pin) then fsel else function_of g other)
unfolding gpio_pin_set_function function_of
gpio_pin_set_function-function_of g pin fsel other words small = ground (
  arith,
  with_function-put (g.gpfsel (pin / 10)) (pin % 10) fsel (words (pin / 10)) small (omega arith),
  field-put_self (pin % 10) fsel (g.gpfsel (pin / 10)) small,
  field-put_ne (other % 10) (pin % 10) fsel (g.gpfsel (pin / 10)) small,
)
