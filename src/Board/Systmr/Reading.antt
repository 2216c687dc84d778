-- ===== src/Board/Systmr/Reading.antt =====
-- Reading the system timer and waiting for it, on a counter that rises and is read promptly.
use dma.Base.{
  ℕ, zero, suc, ◌+◌, ◌-◌, ◌*◌, ◌/◌, ◌^◌, ◌<◌, ◌≤◌, ◌≡◌, refl, ap, ap₂, ◌∙◌, arith, Bool, false,
  ◌==◌, ltb, if◌then◌else◌, Option, none, some, bit_or, Bool-cases, inl, inr, ◌⊎◌, ==→eq, ==→ne,
  le→ltb, u64,
}
use dma.Base.Bytes.{bit_or_disjoint}
use dma.Board.Systmr.{
  Rising, Prompt, chi, clo, read_loop, systmr_read_raw, wait_while, systmr_delay_us, delay_until,
}

module _ (clock : ℕ → ℕ) where
  module _ (rising : Rising clock) where
    rises : (n k : ℕ) → clock n ≤ clock (k + n)
    rises n zero = omega (arith, ap clock {x = 0 + n} {y = n} (omega arith))
    rises n (suc k) = omega (
      arith,
      rises n k,
      rising.0 (k + n),
      ap clock {x = suc k + n} {y = suc (k + n)} (omega arith),
    )

    -- The halves, joined.
    joined : (n : ℕ) → bit_or (u64 (clock n / 2 ^ 32 * 2 ^ 32)) (clo clock n) ≡ clock n
    joined n =
        ap (λ h. bit_or h (clo clock n)) {y = clock n / 2 ^ 32 * 2 ^ 32} (omega (arith, rising.1 n))
        ∙ bit_or_disjoint 32 (clock n / 2 ^ 32) (clo clock n) (omega arith)
        ∙ omega arith

    until : (m k : ℕ) → m ≤ k → clock m ≤ clock k
    until m k h = omega (arith, rises m (k - m), ap clock {x = (k - m) + m} {y = k} (omega arith))

    -- Equal upper halves around a reading of the lower half are its upper half.
    between : (hi n : ℕ) → hi ≤ chi clock n → chi clock (suc n) ≡ hi → hi ≡ chi clock n
    between hi n below e = omega (arith, rising.0 n)

    -- One round, from the upper half read just before.
    read_loop_lem :
        (fuel n : ℕ)
        → ((chi clock (suc (suc n)) ≡ chi clock n)
            × (read_loop clock (suc fuel) (chi clock n) (suc n)
                ≡ some (clock (suc n), suc (suc (suc n)))))
          ⊎ ((chi clock n < chi clock (suc (suc n)))
              × (read_loop clock (suc fuel) (chi clock n) (suc n)
                  ≡ read_loop clock fuel (chi clock (suc (suc n))) (suc (suc (suc n)))))
    unfolding read_loop
    read_loop_lem fuel n = elim (Bool-cases (chi clock (suc (suc n)) == chi clock n)) [
      | inl e ↦ inl (
        ==→eq (chi clock (suc (suc n))) (chi clock n) e,
        rw e (
            ap (λ v. some (v, suc (suc (suc n))))
              (same (==→eq (chi clock (suc (suc n))) (chi clock n) e))),
      )
      | inr ne ↦ inr (
        omega
            (arith, ==→ne (chi clock (suc (suc n))) (chi clock n) ne, rising.0 n, rising.0 (suc n)),
        rw ne refl,
      )
    ]
      where
        same :
            chi clock (suc (suc n)) ≡ chi clock n
            → bit_or (u64 (chi clock n * 2 ^ 32)) (clo clock (suc n)) ≡ clock (suc n)
        same e =
            ap (λ h. bit_or (u64 (h * 2 ^ 32)) (clo clock (suc n))) {y = chi clock (suc n)}
              (omega (arith, e, rising.0 n, rising.0 (suc n)))
            ∙ joined (suc n)

    module _ (prompt : Prompt clock) where
      -- On a counter that never runs backwards and that takes less than 2^32 microseconds for
      -- five accesses, systmr_read_raw returns after at most two rounds, and its value is the one that
      -- the counter had at the last access to the lower half.
      pub systmr_read_raw_lem :
          (fuel n : ℕ)
          → (k : ℕ) × (n < k)
            × (k ≤ suc (suc (suc n)))
            × (systmr_read_raw clock (suc (suc fuel)) n ≡ some (clock k, suc (suc k)))
      unfolding systmr_read_raw
      systmr_read_raw_lem fuel n = elim (read_loop_lem (suc fuel) n) [
        | inl (e, now) ↦ (suc n, omega arith, omega arith, now)
        | inr (more, later) ↦ elim (read_loop_lem fuel (suc (suc n))) [
          | inl (e, now) ↦ (suc (suc (suc n)), omega arith, omega arith, later ∙ now)
          | inr (again, _) ↦ absurd (omega (arith, prompt n, more, again))
        ]
      ]

      -- One round of waiting for the time `end`, with the value read.
      wait_while_step :
          (end fuel n k : ℕ)
          → systmr_read_raw clock (suc (suc fuel)) n ≡ some (clock k, suc (suc k))
          → wait_while clock (λ now. ltb now end) (suc (suc fuel)) n ≡ (
              if ltb (clock k) end
              then wait_while clock (λ now. ltb now end) (suc fuel) (suc (suc k))
              else some (suc (suc k)))
      unfolding wait_while
      wait_while_step end fuel n k e =
          ap
            (λ o. elim o as (λ _. Option ℕ) [
              | none ↦ none
              | some (now, m) ↦
                  let again = wait_while clock (λ t. ltb t end) (suc fuel) m in
                  if ltb now end then again else some m
            ])
            e

      -- Waiting for the time `end`, which the counter has reached by access `m`.
      wait_while-ends :
          (end m fuel n : ℕ)
          → end ≤ clock m
          → m ≤ n + fuel
          → (k : ℕ) × (wait_while clock (λ now. ltb now end) (suc (suc fuel)) n ≡ some k)
            × (end ≤ clock k)
      wait_while-ends end m zero n reached near =
          let (k, after, _, e) = systmr_read_raw_lem zero n in
          let late : end ≤ clock k = omega (arith, reached, until m k (omega arith)) in
          (
            suc (suc k),
            wait_while_step end zero n k e ∙ rw (le→ltb (clock k) end late) refl,
            omega (arith, late, rising.0 k, rising.0 (suc k)),
          )
      wait_while-ends end m (suc fuel) n reached near =
          let (k, after, _, e) = systmr_read_raw_lem (suc fuel) n in
          elim (Bool-cases (ltb (clock k) end)) [
            | inr done ↦ (
              suc (suc k),
              wait_while_step end (suc fuel) n k e ∙ rw done refl,
              ground (arith, rising.0 k, rising.0 (suc k)),
            )
            | inl early ↦
                let (j, ends, passed) =
                  wait_while-ends end m fuel (suc (suc k)) reached (omega arith) in
                (j, wait_while_step end (suc fuel) n k e ∙ rw early ends, passed)
          ]

      delay_from :
          (us fuel n j : ℕ)
          → clock j + us < 2 ^ 64
          → systmr_read_raw clock fuel n ≡ some (clock j, suc (suc j))
          → systmr_delay_us clock fuel us n ≡ (
              if us == 0
              then some (suc (suc j))
              else wait_while clock (λ now. ltb now (clock j + us)) fuel (suc (suc j)))
      unfolding systmr_delay_us
      delay_from us fuel n j fits e =
          ap
            (λ o. elim o as (λ _. Option ℕ) [
              | none ↦ none
              | some (start, m) ↦ delay_until clock fuel us start m
            ])
            e
          ∙ ap₂
              (λ (a b : Bool).
                if a
                then some (suc (suc j))
                else if b
                then elim (wait_while clock (λ now. ltb (clock j) now) fuel (suc (suc j))) [
                  | none ↦ none
                  | some k ↦ wait_while clock (λ now. ltb now (u64 (clock j + us))) fuel k
                ]
                else wait_while clock (λ now. ltb now (u64 (clock j + us))) fuel (suc (suc j)))
              {y = us == 0} {v = false} (ground arith)
              (le→ltb (u64 (clock j + us)) (clock j) (omega arith))
          ∙ ap
              (λ t.
                if us == 0
                then some (suc (suc j))
                else wait_while clock (λ now. ltb now t) fuel (suc (suc j)))
              (omega arith)

      -- On a counter that never runs backwards and that takes less than 2^32 microseconds for
      -- five accesses, systmr_delay_us returns once the counter has come `us` past its value at some
      -- access `m`, and when it returns the counter is `us` or more past its value at the call.
      pub systmr_delay_us-returns :
          (us m n : ℕ)
          → clock (suc (suc (suc n))) + us ≤ clock m
          → (k : ℕ) × (systmr_delay_us clock (suc (suc m)) us n ≡ some k) × (clock n + us ≤ clock k)
      systmr_delay_us-returns us m n reached =
          let (j, after, soon, e) = systmr_read_raw_lem m n in
          let late : clock j + us ≤ clock m =
            omega (arith, reached, until j (suc (suc (suc n))) soon) in
          let early : clock n ≤ clock j = until n j (omega arith) in
          let step = delay_from us (suc (suc m)) n j (omega (arith, late, rising.1 m)) e in
          let (k, ends, passed) =
            wait_while-ends (clock j + us) m m (suc (suc j)) late (omega arith) in
          elim (Bool-cases (us == 0)) [
            | inl none_left ↦ (
              suc (suc j),
              step ∙ rw none_left refl,
              ground (arith, early, rising.0 j, rising.0 (suc j)),
            )
            | inr some_left ↦ (k, step ∙ rw some_left ends, omega (arith, early, passed))
          ]
