-- ===== src/Dma/Arith/Number.antt =====
-- Numbers of `width` bytes, the lowest first, and the digits of a sum and of a difference.
use dma.Base.{
  ℕ, zero, suc, ◌+◌, ◌-◌, ◌*◌, ◌/◌, ◌%◌, ◌^◌, ◌<◌, ◌≡◌, refl, sym, ap, ◌∙◌, arith, pow-suc,
}
use dma.Base.{Bool-cases, ==→eq, ==→ne, ◌==◌, inl, inr}
use dma.Dma.Arith.Lookup.{Digit, carry_at}
use dma.Dma.Tables.Spec.{borrow}
use native.Mathlib.Nat.{mul-le-mul_left, mod-eq_of_lt, add-mul-mod_self_left, add-mod_right}

unfoldable pub number : ℕ → (ℕ → ℕ) → ℕ
number zero f = 0
number (suc w) f = number w f + 256 ^ w * f w

abbrev pub add_digit : Digit
add_digit = record { low = λ l r c. (l + r + c) % 256; next = λ l r c. (l + r + c) / 256 }

abbrev pub sub_digit : Digit
sub_digit = record { low = λ l r c. (l + 256 - (r + c)) % 256; next = borrow }

pub number-same : (w : ℕ) (f g : ℕ → ℕ) → ((k : ℕ) → k < w → f k ≡ g k) → number w f ≡ number w g
unfolding number
number-same zero f g h = refl
number-same (suc w) f g h =
    omega (
      arith,
      number-same w f g (λ k b. h k (omega arith)),
      ap (λ x. 256 ^ w * x) (h w (omega arith)),
    )

pub number-lt : (w : ℕ) (f : ℕ → ℕ) → ((k : ℕ) → k < w → f k < 256) → number w f < 256 ^ w
unfolding number
number-lt zero f h = omega arith
number-lt (suc w) f h = omega (
  arith,
  pow-suc 256 w,
  number-lt w f (λ k b. h k (omega arith)),
  mul-le-mul_left {m = f w} {n = 255} (256 ^ w) (omega (arith, h w (omega arith))),
)

module _ (l r : ℕ → ℕ) where
  abbrev pub sum_at : ℕ → ℕ
  sum_at k = add_digit.low (l k) (r k) (carry_at add_digit l r k)

  abbrev pub difference_at : ℕ → ℕ
  difference_at k = sub_digit.low (l k) (r k) (carry_at sub_digit l r k)

  sum_lem : (w : ℕ) → number w sum_at + 256 ^ w * carry_at add_digit l r w ≡ number w l + number w r
  unfolding number carry_at
  sum_lem zero = omega arith
  sum_lem (suc w) = omega (
    arith,
    pow-suc 256 w,
    sum_lem w,
    ap (λ x. x * carry_at add_digit l r (suc w)) (pow-suc 256 w),
    ap (λ x. 256 ^ w * x) {x = sum_at w + 256 * carry_at add_digit l r (suc w)}
        {y = l w + r w + carry_at add_digit l r w} (omega arith),
  )

  difference_digit :
      (a b c : ℕ)
      → (a < 256) × (b < 256) × (c < 2)
      → (((a + 256 - (b + c)) % 256) + (b + c) ≡ a + 256 * borrow a b c) × (borrow a b c < 2)
  difference_digit a b c h = (ground arith, ground arith)

  pub borrow_at-lt : (w : ℕ) → carry_at sub_digit l r w < 2
  unfolding carry_at
  borrow_at-lt zero = omega arith
  borrow_at-lt (suc w) = ground arith

  pub difference_lem :
      (w : ℕ)
      → ((k : ℕ) → k < w → (l k < 256) × (r k < 256))
      → number w difference_at + number w r ≡ number w l + 256 ^ w * carry_at sub_digit l r w
  unfolding number carry_at
  difference_lem zero bytes = omega arith
  difference_lem (suc w) bytes = omega (
    arith,
    difference_lem w (λ k b. bytes k (omega arith)),
    ap (λ x. x * carry_at sub_digit l r (suc w)) (pow-suc 256 w),
    ap (λ x. 256 ^ w * x)
        ((difference_digit (l w) (r w) (carry_at sub_digit l r w)
          ((bytes w (omega arith)).0, (bytes w (omega arith)).1, borrow_at-lt w)).0),
  )

-- Only the low bytes of the exact sum or difference remain.
pub number-sum : (w : ℕ) (l r : ℕ → ℕ) → number w (sum_at l r) ≡ (number w l + number w r) % 256 ^ w
number-sum w l r =
    sym (mod-eq_of_lt (number-lt w (sum_at l r) (λ k b. omega arith)))
    ∙ sym (add-mul-mod_self_left (number w (sum_at l r)) (256 ^ w) (carry_at add_digit l r w))
    ∙ ap (λ x. x % 256 ^ w) (sum_lem l r w)

pub number-difference :
    (w : ℕ) (l r : ℕ → ℕ)
    → ((k : ℕ) → k < w → (l k < 256) × (r k < 256))
    → number w (difference_at l r) ≡ (number w l + 256 ^ w - number w r) % 256 ^ w
number-difference w l r bytes =
    sym (mod-eq_of_lt small) ∙ elim (Bool-cases (carry_at sub_digit l r w == 0)) [
      | inl zero_borrow ↦
          sym (add-mod_right (number w (difference_at l r)) (256 ^ w))
          ∙ ap (λ x. x % 256 ^ w)
              (omega (
                arith,
                difference_lem l r w bytes,
                ap (λ x. 256 ^ w * x) (==→eq (carry_at sub_digit l r w) 0 zero_borrow),
              ))
      | inr one ↦
          ap (λ x. x % 256 ^ w) {x = number w (difference_at l r)}
            (omega (
              arith,
              difference_lem l r w bytes,
              ap (λ x. 256 ^ w * x) {x = carry_at sub_digit l r w} {y = 1}
                  (omega (arith, ==→ne (carry_at sub_digit l r w) 0 one, borrow_at-lt l r w)),
            ))
    ]
  where
    small : number w (difference_at l r) < 256 ^ w
    small = number-lt w (difference_at l r) (λ k b. omega arith)
