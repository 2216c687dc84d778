-- ===== src/Superopt/Refine.antt =====
-- The mask of free supersections stands for a set of numbers below 32.
use native.Mathlib.Nat.{
  pow-suc, zero-div, div-eq_of_lt, div-eq_of_lt-le, add-mul-div_right, pow-le-pow_right, one-le-pow,
}
use dma.Base.{
  ℕ, zero, suc, ◌+◌, ◌-◌, ◌*◌, ◌/◌, ◌%◌, ◌^◌, ◌<◌, ◌≤◌, ◌≡◌, ◌≢◌, refl, sym, ap, ◌∙◌, fun_ext,
  arith, Bool, true, false, ◌==◌, if◌then◌else◌, Bool-cases, inl, inr, ==→eq, ==→ne, Option, none,
  some,
}
use mathlib.Core.Path.{subst}
use dma.Superopt.Ppa.{Ppa, Outcome, done, ppa_alloc, find_list, claim, counted, rk_supersection}
use dma.Superopt.Free.{next_supersection, rest, highest, rest-lt, claimed, alloc-next}

-- The abstract allocator: a set of numbers, of which the highest is taken.
abbrev pub FreeSet : Type 0
FreeSet = ℕ → Bool

unfoldable pub find_highest : ℕ → FreeSet → Option ℕ
find_highest zero free = none
find_highest (suc k) free = let lower = find_highest k free in if free k then some k else lower

unfoldable pub take_highest : FreeSet → Option (ℕ × FreeSet)
take_highest free = elim (find_highest 32 free) [
  | none ↦ none
  | some n ↦ some (n, λ j. if j == n then false else free j)
]

-- The set that a mask stands for.
unfoldable pub free_set : Ppa → FreeSet
free_set p j = p.supersection_mask / 2 ^ j % 2 == 1

find_highest-lem :
    (k n : ℕ) (free : FreeSet)
    → n < k
    → free n ≡ true
    → ((j : ℕ) → n < j → free j ≡ false)
    → find_highest k free ≡ some n
unfolding find_highest
find_highest-lem zero n free below set above = absurd (omega arith)
find_highest-lem (suc k) n free below set above = elim (Bool-cases (n == k)) [
  | inl last ↦
      ap (λ b. if b then some k else find_highest k free) (ap free (sym (==→eq n k last)) ∙ set)
      ∙ ap some (sym (==→eq n k last))
  | inr lower ↦
      ap (λ b. if b then some k else find_highest k free) (above k (ground arith))
      ∙ find_highest-lem k n free (ground arith) set above
]

pow_split : (j d : ℕ) → 2 ^ (j + d) ≡ 2 ^ d * 2 ^ j
pow_split j zero = ap (λ (n : ℕ). 2 ^ n) {x = j + 0} {y = j} (omega arith) ∙ omega arith
pow_split j (suc d) =
    ap (λ (n : ℕ). 2 ^ n) {x = j + suc d} {y = suc (j + d)} (omega arith)
    ∙ omega (arith, pow-suc 2 (j + d), pow_split j d, ap (λ (t : ℕ). t * 2 ^ j) (pow-suc 2 d))

-- The digits of `2 ^ n + r`.
module _ (n r : ℕ) (low : r < 2 ^ n) where
  digit_at : (2 ^ n + r) / 2 ^ n ≡ 1
  digit_at = div-eq_of_lt-le {k = 1} (2 ^ n) (omega arith) (omega (arith, low))

  digit_above : (j : ℕ) → n < j → ((2 ^ n + r) / 2 ^ j ≡ 0) × (r / 2 ^ j ≡ 0)
  digit_above j above =
      let wide : 2 ^ suc n ≤ 2 ^ j =
        pow-le-pow_right {n = 2} (omega arith) {i = suc n} {j = j} (omega arith) in
      (
        div-eq_of_lt (omega (arith, low, wide, pow-suc 2 n)),
        div-eq_of_lt (omega (arith, low, wide, pow-suc 2 n)),
      )

  digit_below : (j : ℕ) → j < n → (2 ^ n + r) / 2 ^ j % 2 ≡ r / 2 ^ j % 2
  digit_below j below =
      ap (λ (t : ℕ). t / 2 ^ j % 2) {y = r + 2 ^ suc (n - j - 1) * 2 ^ j}
        (omega (
          arith,
          pow_split j (suc (n - j - 1)),
          ap (λ (e : ℕ). 2 ^ e) {x = n} {y = j + suc (n - j - 1)} (omega arith),
        ))
      ∙ ap (λ (t : ℕ). t % 2)
          (add-mul-div_right r (2 ^ suc (n - j - 1)) (one-le-pow j 2 (omega arith)))
      ∙ omega (arith, pow-suc 2 (n - j - 1))

-- What the abstract allocator's answer asks of `ppa_alloc`.
abbrev pub Implements : Ppa → Option (ℕ × FreeSet) → Outcome (ℕ × Ppa) → Type 0
Implements p none o = o ≡ done (2 ^ 32 - 1, p)
Implements p (some (n, free)) o = (q : Ppa) × (o ≡ done (n * 2 ^ 24, q)) × (free_set q ≡ free)

find_highest-none :
    (k : ℕ) (free : FreeSet) → ((j : ℕ) → free j ≡ false) → find_highest k free ≡ none
unfolding find_highest
find_highest-none zero free empty = refl
find_highest-none (suc k) free empty =
    ap (λ b. if b then some k else find_highest k free) (empty k) ∙ find_highest-none k free empty

module _ (p : Ppa) (some_free : p.supersection_mask ≢ 0) (word : p.supersection_mask < 2 ^ 32) where
  whole : p.supersection_mask ≡ 2 ^ next_supersection p + rest p some_free word
  unfolding rest
  whole = omega (arith, highest p some_free word)

  take_highest-next :
      take_highest (free_set p)
      ≡ some (next_supersection p, λ j. if j == next_supersection p then false else free_set p j)
  unfolding take_highest free_set
  take_highest-next =
      ap
        (λ o. elim o as (λ _. Option (ℕ × FreeSet)) [
          | none ↦ none
          | some n ↦ some (n, λ j. if j == n then false else free_set p j)
        ])
        (find_highest-lem 32 (next_supersection p) (free_set p) (omega arith)
          (ap (λ (m : ℕ). m / 2 ^ next_supersection p % 2 == 1) whole
            ∙ ap (λ (t : ℕ). t % 2 == 1)
                (digit_at (next_supersection p) (rest p some_free word) (rest-lt p some_free word)))
          (λ j above.
            ap (λ (m : ℕ). m / 2 ^ j % 2 == 1) whole
            ∙ ap (λ (t : ℕ). t % 2 == 1)
                (digit_above (next_supersection p) (rest p some_free word)
                  (rest-lt p some_free word) j above).0))

  claimed-set :
      free_set (counted rk_supersection (claim p))
      ≡ (λ j. if j == next_supersection p then false else free_set p j)
  unfolding free_set
  claimed-set = fun_ext (λ j.
      ap (λ (m : ℕ). m / 2 ^ j % 2 == 1) (claimed p some_free word)
      ∙ ground (
        arith,
        ap (λ (m : ℕ). m / 2 ^ j % 2) whole,
        digit_above (next_supersection p) (rest p some_free word) (rest-lt p some_free word) j,
        digit_below (next_supersection p) (rest p some_free word) (rest-lt p some_free word) j,
        (λ (e : j ≡ next_supersection p).
            ap (λ (t : ℕ). rest p some_free word / 2 ^ t) e
            ∙ div-eq_of_lt (rest-lt p some_free word)),
      ))

take_highest-none : (p : Ppa) → p.supersection_mask ≡ 0 → take_highest (free_set p) ≡ none
unfolding take_highest free_set
take_highest-none p empty =
    ap
      (λ o. elim o as (λ _. Option (ℕ × FreeSet)) [
        | none ↦ none
        | some n ↦ some (n, λ j. if j == n then false else free_set p j)
      ])
      (find_highest-none 32 (free_set p) (λ j.
        ap (λ (m : ℕ). m / 2 ^ j % 2 == 1) empty ∙ ap (λ (t : ℕ). t % 2 == 1) (zero-div (2 ^ j))))

alloc-empty :
    (fuel : ℕ) (p : Ppa)
    → (p.supersection_mask == 0) ≡ true
    → ppa_alloc (suc fuel) rk_supersection p ≡ done (2 ^ 32 - 1, p)
unfolding ppa_alloc find_list
alloc-empty fuel p empty = rw empty refl

-- On 32-bit masks ppa_alloc for a supersection implements the abstract allocator: with an empty
-- set it fails and changes nothing, otherwise it returns the address of the highest number in the
-- set, and its new mask stands for the set without that number.
pub ppa_alloc-refines :
    (fuel : ℕ) (p : Ppa)
    → p.supersection_mask < 2 ^ 32
    → Implements p (take_highest (free_set p)) (ppa_alloc (suc fuel) rk_supersection p)
ppa_alloc-refines fuel p word = elim (Bool-cases (p.supersection_mask == 0)) [
  | inl empty ↦
      subst (λ o. Implements p o (ppa_alloc (suc fuel) rk_supersection p))
        (sym (take_highest-none p (==→eq p.supersection_mask 0 empty))) (alloc-empty fuel p empty)
  | inr some_free ↦
      subst (λ o. Implements p o (ppa_alloc (suc fuel) rk_supersection p))
        (sym (take_highest-next p (==→ne p.supersection_mask 0 some_free) word))
        (
          counted rk_supersection (claim p),
          alloc-next fuel p (==→ne p.supersection_mask 0 some_free) word,
          claimed-set p (==→ne p.supersection_mask 0 some_free) word,
        )
]
