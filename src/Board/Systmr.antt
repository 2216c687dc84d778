-- ===== src/Board/Systmr.antt =====
-- The 64-bit system timer, read in two halves (bcm2835/systmr.c). `clock n` is the value of the
-- counter at the `n`-th access to it; the loops that wait for it run on fuel.
pub mod Reading
use dma.Base.{
  ℕ, zero, suc, ◌+◌, ◌-◌, ◌*◌, ◌/◌, ◌%◌, ◌^◌, ◌<◌, ◌≤◌, ◌≡◌, refl, ap, ap₂, ◌∙◌, arith, Bool, false,
  ◌==◌, ltb, if◌then◌else◌, Option, none, some, bit_or, Bool-cases, inl, inr, ◌⊎◌, ==→eq, ==→ne,
  le→ltb, u64,
}
use dma.Base.Bytes.{bit_or_disjoint}

-- The counter never runs backwards, and its 64 bits do not wrap.
abbrev pub Rising : (ℕ → ℕ) → Type 0
Rising clock = ((n : ℕ) → clock n ≤ clock (suc n)) × ((n : ℕ) → clock n < 2 ^ 64)

-- Five accesses in a row take less than the 2^32 microseconds of the lower half.
abbrev pub Prompt : (ℕ → ℕ) → Type 0
Prompt clock = (n : ℕ) → clock (suc (suc (suc (suc n)))) < clock n + 2 ^ 32

module _ (clock : ℕ → ℕ) where
  -- `systmr->chi` and `systmr->clo` at the `n`-th access.
  abbrev pub chi : ℕ → ℕ
  chi n = clock n / 2 ^ 32

  abbrev pub clo : ℕ → ℕ
  clo n = clock n % 2 ^ 32

  -- The loop of `systmr_read_raw`: the value, and the accesses made so far.
  unfoldable pub read_loop : ℕ → ℕ → ℕ → Option (ℕ × ℕ)
  read_loop zero hi n = none
  read_loop (suc fuel) hi n =
      let again = read_loop fuel (chi (suc n)) (suc (suc n)) in
      if chi (suc n) == hi then some (bit_or (u64 (hi * 2 ^ 32)) (clo n), suc (suc n)) else again

  unfoldable pub systmr_read_raw : ℕ → ℕ → Option (ℕ × ℕ)
  systmr_read_raw fuel n = read_loop fuel (chi n) (suc n)

  -- `while (test(systmr_read_raw()));`
  unfoldable pub wait_while : (ℕ → Bool) → ℕ → ℕ → Option ℕ
  wait_while test zero n = none
  wait_while test (suc fuel) n = elim (systmr_read_raw (suc fuel) n) [
    | none ↦ none
    | some (now, m) ↦ let again = wait_while test fuel m in if test now then again else some m
  ]

  -- The rest of `systmr_delay_us`, once `start` was read.
  abbrev pub delay_until : ℕ → ℕ → ℕ → ℕ → Option ℕ
  delay_until fuel us start m =
      let end = u64 (start + us) in
      if end == start
      then some m
      else if ltb end start
      then elim (wait_while (λ now. ltb start now) fuel m) [
        | none ↦ none
        | some k ↦ wait_while (λ now. ltb now end) fuel k
      ]
      else wait_while (λ now. ltb now end) fuel m

  unfoldable pub systmr_delay_us : ℕ → ℕ → ℕ → Option ℕ
  systmr_delay_us fuel us n = elim (systmr_read_raw fuel n) [
    | none ↦ none
    | some (start, m) ↦ delay_until fuel us start m
  ]
