-- ===== src/Superopt/Free.antt =====
-- Supersections, allocated and freed again.
use native.Mathlib.Nat.{pow-suc, div-eq_of_lt-le, mod-eq_of_lt}
use dma.Base.Bytes.{bit_and_split, bit_or_split, bit_and_mask}
use dma.Base.Bits.{zero-bit_and, bit_and_step, bit_or-zero}
use dma.Base.{
  ℕ, zero, suc, ◌+◌, ◌-◌, ◌*◌, ◌/◌, ◌^◌, ◌<◌, ◌≤◌, ◌≡◌, ◌≢◌, refl, ap, ap₂, ◌∙◌, fun_ext, arith,
  true, ◌==◌, ltb, if◌then◌else◌, Bool-cases, inl, inr, ne→==, ==→eq, lt→ltb, u32, sub32, bit_and,
  bit_or, all_below, all_below_sound, ltb→lt,
}
use dma.Superopt.Ppa.{
  Ppa, Outcome, done, undefined_behaviour, ◌>>=◌, assign, find_list, counted, claim, ppa_alloc,
  ppa_free, free_region_recursive, get_region_ptr, region_scale, clz, clz_from, rk_supersection,
}

-- The highest bit that is set.
clz_from-highest :
    (k x : ℕ)
    → 0 < x
    → x < 2 ^ k
    → (clz_from k x < k) × (2 ^ (k - 1 - clz_from k x) ≤ x) × (x < 2 ^ suc (k - 1 - clz_from k x))
unfolding clz_from
clz_from-highest zero x some_bit below = absurd (omega arith)
clz_from-highest (suc k) x some_bit below = elim (Bool-cases (ltb x (2 ^ k))) [
  | inl low ↦
      let (a, b, c) = clz_from-highest k x some_bit (ltb→lt x (2 ^ k) low) in
      rw low (
        omega (arith, a),
        omega (arith, b, same a),
        omega (
          arith,
          c,
          pow-suc 2 (suc k - 1 - suc (clz_from k x)),
          pow-suc 2 (k - 1 - clz_from k x),
          same a,
        ),
      )
  | inr high ↦ rw high (
    omega arith,
    ground (arith, ap (λ (n : ℕ). 2 ^ n) {x = suc k - 1 - 0} {y = k} (omega arith)),
    ground (
      arith,
      pow-suc 2 (suc k - 1 - 0),
      pow-suc 2 k,
      ap (λ (n : ℕ). 2 ^ n) {x = suc k - 1 - 0} {y = k} (omega arith),
    ),
  )
]
  where
    same : clz_from k x < k → 2 ^ (suc k - 1 - suc (clz_from k x)) ≡ 2 ^ (k - 1 - clz_from k x)
    same a =
        ap (λ (n : ℕ). 2 ^ n) {x = suc k - 1 - suc (clz_from k x)} {y = k - 1 - clz_from k x}
          (omega arith)

shifted_down : (c : ℕ) → c < 32 → 2 ^ 31 / 2 ^ c ≡ 2 ^ (31 - c)
unfolding all_below
shifted_down c h =
    ==→eq (2 ^ 31 / 2 ^ c) (2 ^ (31 - c))
      (all_below_sound 32 (λ i. 2 ^ 31 / 2 ^ i == 2 ^ (31 - i)) c table h)
  where
    table : all_below 32 (λ i. 2 ^ 31 / 2 ^ i == 2 ^ (31 - i)) ≡ true
    table = refl

-- The mask of one bit less, on 32 bits, in halves.
complement : (n : ℕ) → n < 32 → 2 ^ 32 - 1 - 2 ^ n ≡ (2 ^ (31 - n) - 1) * 2 * 2 ^ n + (2 ^ n - 1)
unfolding all_below
complement n h = ==→eq _ _ (
    all_below_sound 32 (λ i. 2 ^ 32 - 1 - 2 ^ i == (2 ^ (31 - i) - 1) * 2 * 2 ^ i + (2 ^ i - 1)) n
      table h)
  where
    table :
        all_below 32 (λ i. 2 ^ 32 - 1 - 2 ^ i == (2 ^ (31 - i) - 1) * 2 * 2 ^ i + (2 ^ i - 1))
        ≡ true
    table = refl

-- Taking the bit away and putting it back.
module _ (n r : ℕ) (place : n < 32) (rest : r < 2 ^ n) where
  bit_and-taken : bit_and (2 ^ n + r) (2 ^ 32 - 1 - 2 ^ n) ≡ r
  bit_and-taken =
      ap₂ bit_and {x = 2 ^ n + r} {y = 1 * 2 ^ n + r} (omega arith) (complement n place)
      ∙ bit_and_split n 1 r ((2 ^ (31 - n) - 1) * 2) (2 ^ n - 1) rest (omega (arith, rest))
      ∙ ap₂ (λ a b. a * 2 ^ n + b) {y = 0} {v = r}
          (bit_and_step 1 ((2 ^ (31 - n) - 1) * 2)
            ∙ ground (arith, zero-bit_and ((2 ^ (31 - n) - 1) * 2 / 2)))
          (bit_and_mask n r ∙ mod-eq_of_lt rest)
      ∙ omega arith

  bit_or-put : bit_or r (2 ^ n) ≡ 2 ^ n + r
  bit_or-put =
      ap₂ bit_or {x = r} {y = 0 * 2 ^ n + r} {u = 2 ^ n} {v = 1 * 2 ^ n + 0} (omega arith)
        (omega arith)
      ∙ bit_or_split n 0 r 1 0 rest (omega (arith, rest))
      ∙ ap (λ t. 1 * 2 ^ n + t) (bit_or-zero r)
      ∙ omega arith

-- The supersection that the next claim takes.
abbrev pub next_supersection : Ppa → ℕ
next_supersection p = 31 - clz p.supersection_mask

-- The mask as its highest bit and the rest.
module _ (p : Ppa) (some_free : p.supersection_mask ≢ 0) (word : p.supersection_mask < 2 ^ 32) where
  unfoldable pub rest : ℕ
  rest = p.supersection_mask - 2 ^ next_supersection p

  pub highest :
      (clz p.supersection_mask < 32)
      × (2 ^ next_supersection p ≤ p.supersection_mask)
      × (p.supersection_mask < 2 ^ suc (next_supersection p))
  highest = clz_from-highest 32 p.supersection_mask (omega arith) word

  pub rest-lt : rest < 2 ^ next_supersection p
  unfolding rest
  rest-lt = omega (arith, highest, pow-suc 2 (next_supersection p))

  pub claimed : (claim p).supersection_mask ≡ rest
  unfolding rest
  claimed =
      ap₂ (λ m b. bit_and m (2 ^ 32 - 1 - b)) {y = 2 ^ next_supersection p + rest}
        (omega (arith, highest)) (shifted_down (clz p.supersection_mask) highest.0)
      ∙ bit_and-taken (next_supersection p) rest (omega arith) rest-lt

  freed : bit_or (claim p).supersection_mask (2 ^ next_supersection p) ≡ p.supersection_mask
  unfolding rest
  freed =
      ap (λ m. bit_or m (2 ^ next_supersection p)) claimed
      ∙ bit_or-put (next_supersection p) rest (omega arith) rest-lt
      ∙ omega (arith, highest)

-- One supersection more and less.
count_back :
    (counts : ℕ → ℕ)
    → counts 0 < 2 ^ 32
    → assign (assign counts 0 (u32 (counts 0 + 1))) 0 (sub32 (u32 (counts 0 + 1)) 1) ≡ counts
count_back counts word = fun_ext (λ j. ground (arith, ap counts {x = j} {y = 0}))

pub alloc-next :
    (fuel : ℕ) (p : Ppa)
    → p.supersection_mask ≢ 0
    → p.supersection_mask < 2 ^ 32
    → ppa_alloc (suc fuel) rk_supersection p
      ≡ done (next_supersection p * 2 ^ 24, counted rk_supersection (claim p))
unfolding ppa_alloc find_list get_region_ptr region_scale
alloc-next fuel p some_free word =
    ap
      (λ b.
        if b
        then done (2 ^ 32 - 1, p)
        else done (u32 (16 * 1024 * 1024 * next_supersection p), counted rk_supersection (claim p)))
      (ne→== p.supersection_mask 0 some_free)
    ∙ ap (λ a. done (a, counted rk_supersection (claim p))) (omega arith)

-- When a supersection is free, ppa_alloc for a supersection returns the address of the one with the
-- highest number that is free, and ppa_free of that address leads back to the same allocator.
pub ppa_free-ppa_alloc :
    (fuel : ℕ) (p : Ppa)
    → p.supersection_mask ≢ 0
    → p.supersection_mask < 2 ^ 32
    → p.allocated_counts 0 < 2 ^ 32
    → (q : Ppa) × (ppa_alloc (suc fuel) rk_supersection p ≡ done (next_supersection p * 2 ^ 24, q))
      × (p.supersection_mask / 2 ^ next_supersection p ≡ 1)
      × (ppa_free (next_supersection p * 2 ^ 24) rk_supersection q ≡ done p)
unfolding ppa_free free_region_recursive region_scale
ppa_free-ppa_alloc fuel p some_free word count = (
  counted rk_supersection (claim p),
  alloc-next fuel p some_free word,
  div-eq_of_lt-le {k = 1} (2 ^ next_supersection p) (omega (arith, highest p some_free word))
      (omega (arith, highest p some_free word, pow-suc 2 (next_supersection p))),
  ap₂
        (λ (a n : ℕ).
          if a == 0
          then free_region_recursive n rk_supersection (counted rk_supersection (claim p))
            >>= discount
          else undefined_behaviour)
        {x = bit_and (next_supersection p * 2 ^ 24) (16 * 1024 * 1024 - 1)} {y = 0}
        {u = next_supersection p * 2 ^ 24 / (16 * 1024 * 1024)} {v = next_supersection p}
        (bit_and_mask 24 (next_supersection p * 2 ^ 24) ∙ omega arith) (omega arith)
      ∙ ap
          (λ b.
            (if b
              then done (record (counted rk_supersection (claim p)) {
                supersection_mask = bit_or (claim p).supersection_mask (2 ^ next_supersection p);
              })
              else undefined_behaviour)
            >>= discount)
          (lt→ltb (next_supersection p) 32 (omega arith))
      ∙ ap₂ (λ m counts. done (record p { supersection_mask = m; allocated_counts = counts }))
          (freed p some_free word) (count_back p.allocated_counts count),
)
  where
    discount : Ppa → Outcome Ppa
    discount q = done (record q {
      allocated_counts = assign q.allocated_counts 0 (sub32 (q.allocated_counts 0) 1);
    })
