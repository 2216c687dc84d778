-- ===== src/Dma/Arith/Run.antt =====
-- A whole run of `Add` or `Sub` on the engine: lookups and, between them, copies of the carry.
use dma.Base.{ℕ, zero, suc, ◌+◌, ◌-◌, ◌*◌, ◌^◌, ◌<◌, ◌≤◌, ◌≡◌, refl, sym, ap, ◌∙◌, arith}
use dma.Base.{◌&&◌, ◌==◌, ltb, leb, if◌then◌else◌, some, inl, inr}
use dma.Base.{Bool-cases, ==→eq, ==→ne, ap₂, get_elem?}
use mathlib.Core.Path.{subst}
use dma.Dma.Arith.Program.{program, get_elem?-carry_blocks}
use dma.Dma.Arith.Setting.{Places, Apart, after, span, table_at, emitted, patched, emitted-outside}
use dma.Dma.Arith.Setting.{scattered, scattered_lem, step-scattered}
use dma.Dma.Arith.Lookup.{
  Digit, digit, carry_in, carry_at, Operands, TableHolds, Elsewhere, lookup, lookup_len,
}
use dma.Dma.Arith.Lookup.{
  emitted_byte, patched_else, lookup_len-le, found_at, Ready, carry_in-lt, lookup_at, lhs_byte,
  rhs_byte,
}
use dma.Dma.Cblk.{Memory, cblk_at}
use dma.Dma.Emit.Laid.{linear, cblk_at-laid}
use dma.Dma.Emit.Layout.{cblk_at-same}
use dma.Dma.Engine.{Engine, step, step_lem, run}

-- After `i` lookups: the next block, and the carry's selector in the next byte of the result.
abbrev pub Done : Digit → Places → Memory → ℕ → ℕ × Memory → Type 0
Done d p m i (at, n) =
    (at ≡ p.a + 32 + 64 * i)
    × ((x : ℕ) → p.a + 32 + 64 * i ≤ x → x < after p → n x ≡ patched p m x)
    × ((k : ℕ) → k < i → n (p.ret + k) ≡ digit d p m k)
    × (i < p.width → n (p.ret + i) ≡ p.selector + 2 * carry_in d p m i)
    × ((x : ℕ) → Elsewhere p x → n x ≡ m x)

module _ (e : Engine) (d : Digit) (p : Places) (m : Memory) (h : Apart p) (o : Operands p m)
    (t : TableHolds d p m) where
  len_span :
      (j : ℕ) → j < p.width → (j + lookup_len p j ≤ span p) × (suc j < p.width → lookup_len p j ≡ 2)
  len_span zero b = (omega arith, λ c. refl)
  len_span (suc j) b = (ground arith, λ c. ground arith)

  found_bound :
      (j : ℕ)
      → j < p.width
      → (table_at p ≤ found_at d p m j) × (found_at d p m j + 2 ≤ table_at p + 2 ^ 24)
  found_bound j b = omega (arith, o j b, carry_in-lt d p m h o t j (omega arith))

  -- What the block of the `j`th lookup does.
  looked_up : ℕ → Memory → Memory
  looked_up j n = e.transfer (linear (lookup p j) (p.ret + j) (found_at d p m j) (lookup_len p j)) n

  looked_up_lem :
      (j : ℕ) (n : Memory) (x : ℕ)
      → j < p.width
      → looked_up j n x ≡ (
          if leb (p.ret + j) x && ltb x (p.ret + j + lookup_len p j)
          then n (found_at d p m j + (x - (p.ret + j)))
          else n x)
  unfolding looked_up
  looked_up_lem j n x b =
      e.transfer-linear (lookup p j) (p.ret + j) (found_at d p m j) (lookup_len p j) n x
        (omega (arith, lookup_len-le d p m h j))
        (ground (arith, len_span j b, found_bound j b, lookup_len-le d p m h j))

  -- The entry is still in the table.
  entry_there :
      (j : ℕ) (n : Memory)
      → j < p.width
      → Ready d p m j n
      → (n (found_at d p m j) ≡ digit d p m j)
        × (n (found_at d p m j + 1) ≡ p.selector + 2 * carry_in d p m (suc j))
  unfolding carry_at
  entry_there j n b r = (
    r.3 (found_at d p m j) (ground (arith, found_bound j b)) ∙ entry.0,
    r.3 (found_at d p m j + 1) (ground (arith, found_bound j b)) ∙ entry.1,
  )
    where
      entry :
          (m (found_at d p m j) ≡ digit d p m j)
          × (m (found_at d p m j + 1) ≡ p.selector + 2 * carry_in d p m (suc j))
          × (carry_in d p m (suc j) < 2)
      entry =
          t (lhs_byte p m j) (rhs_byte p m j) (carry_in d p m j)
            ((o j b).0, (o j b).1, carry_in-lt d p m h o t j (omega arith))

  lookup-Done :
      (j : ℕ) (n : Memory)
      → j < p.width
      → Ready d p m j n
      → Done d p m (suc j) (step e (lookup p j, n))
  unfolding looked_up
  lookup-Done j n b r =
      subst (Done d p m (suc j))
        (sym (
          step_lem e (lookup p j) n
            (linear (lookup p j) (p.ret + j) (found_at d p m j) (lookup_len p j))
            (lookup_at d p m h j n b o t r)))
        (
          omega arith,
          λ x k l.
              looked_up_lem j n x b
              ∙ ground (arith, len_span j b, r.0 x (omega arith) l (λ q. omega arith)),
          λ k c. elim (Bool-cases (k == j)) [
            | inl same ↦
                subst (λ z. looked_up j n (p.ret + z) ≡ digit d p m z) (sym (==→eq k j same)) here
            | inr other ↦
                looked_up_lem j n (p.ret + k) b
                ∙ ground (arith, ==→ne k j other, r.2 k (omega (arith, ==→ne k j other)))
          ],
          λ c.
              looked_up_lem j n (p.ret + suc j) b
              ∙ ground (
                arith,
                len_span j b,
                ap n {x = found_at d p m j + (p.ret + suc j - (p.ret + j))}
                    {y = found_at d p m j + 1} (omega arith),
                entry_there j n b r,
              ),
          λ x w. looked_up_lem j n x b ∙ ground (arith, len_span j b, r.3 x w),
        )
    where
      here : looked_up j n (p.ret + j) ≡ digit d p m j
      here =
          looked_up_lem j n (p.ret + j) b
          ∙ ground (
            arith,
            lookup_len-le d p m h j,
            ap n {x = found_at d p m j + (p.ret + j - (p.ret + j))} {y = found_at d p m j}
                (omega arith),
            entry_there j n b r,
          )

  -- Between lookups the carry's selector is copied into the next source address.
  copy_block :
      (i : ℕ)
      → 1 ≤ i
      → i < p.width
      → cblk_at (emitted p m) (p.a + 32 + 64 * i)
        ≡ linear (p.a + 32 + 64 * i) (lookup p i + 4) (p.ret + i) 1
  copy_block i b c =
      ap (cblk_at (emitted p m)) {y = p.a + 32 * (1 + 2 * i)} (omega arith)
      ∙ cblk_at-laid p.a (program p.hyper p.selector p.width p.ret p.lhs p.rhs p.a) m (1 + 2 * i)
          (linear (p.a + 32 + 64 * i) (lookup p i + 4) (p.ret + i) 1)
          (ap (get_elem? (program p.hyper p.selector p.width p.ret p.lhs p.rhs p.a))
              {y = suc (suc (suc (2 * (i - 1))))} (omega arith)
            ∙ (get_elem?-carry_blocks p.hyper p.selector p.width p.ret (p.width - 1) 1 (p.a + 96)
                (i - 1) (omega arith)).0
            ∙ ap₂ (λ x y. some (linear x y (p.ret + (1 + (i - 1))) 1)) {y = p.a + 32 + 64 * i}
                {v = lookup p i + 4} (omega arith) (omega arith)
            ∙ ap (λ z. some (linear (p.a + 32 + 64 * i) (lookup p i + 4) (p.ret + z) 1)) {y = i}
                (omega arith))
          (omega arith, omega arith, omega arith, omega arith, omega arith, omega arith)

  patched_copy :
      (i x : ℕ)
      → i < p.width
      → p.a + 32 + 64 * i ≤ x
      → x < p.a + 32 + 64 * i + 24
      → patched p m x ≡ emitted p m x
  patched_copy i x b k l = ground arith

  copied : ℕ → Memory → Memory
  copied i n = e.transfer (linear (p.a + 32 + 64 * i) (lookup p i + 4) (p.ret + i) 1) n

  copied_lem :
      (i : ℕ) (n : Memory) (x : ℕ)
      → i < p.width
      → copied i n x ≡ (
          if leb (lookup p i + 4) x && ltb x (lookup p i + 4 + 1)
          then n (p.ret + i + (x - (lookup p i + 4)))
          else n x)
  unfolding copied
  copied_lem i n x b =
      e.transfer-linear (p.a + 32 + 64 * i) (lookup p i + 4) (p.ret + i) 1 n x (omega arith)
        (ground arith)

  step-copied :
      (i at : ℕ) (n : Memory)
      → 1 ≤ i
      → i < p.width
      → Done d p m i (at, n)
      → step e (at, n) ≡ (lookup p i, copied i n)
  unfolding copied
  step-copied i at n b c r =
      ap (λ z. step e (z, n)) r.0
      ∙ step_lem e (p.a + 32 + 64 * i) n (linear (p.a + 32 + 64 * i) (lookup p i + 4) (p.ret + i) 1)
          (cblk_at-same (p.a + 32 + 64 * i) n (emitted p m)
              (λ x k l. r.1 x k (omega arith) ∙ patched_copy i x c k l)
            ∙ copy_block i b c)
      ∙ ap (λ z. (z, e.transfer (linear (p.a + 32 + 64 * i) (lookup p i + 4) (p.ret + i) 1) n))
          {y = lookup p i} (omega arith)

  copied-Ready :
      (i at : ℕ) (n : Memory) → i < p.width → Done d p m i (at, n) → Ready d p m i (copied i n)
  copied-Ready i at n c r = (
    λ x k l q.
        copied_lem i n x c ∙ ground (arith, r.1 x (omega arith) l, λ (z : x ≡ lookup p i + 4). q z),
    copied_lem i n (lookup p i + 4) c
        ∙ ground (
          arith,
          r.3 c,
          ap n {x = p.ret + i + (lookup p i + 4 - (lookup p i + 4))} {y = p.ret + i} (omega arith),
        ),
    λ k b. copied_lem i n (p.ret + k) c ∙ ground (arith, r.2 k b),
    λ x w. copied_lem i n x c ∙ ground (arith, r.4 x w),
  )

  scattered-Ready : Ready d p m 0 (scattered e p m h)
  unfolding carry_at
  scattered-Ready = (
    λ x k l q. scattered_lem e p m h x,
    scattered_lem e p m h (lookup p 0 + 4)
        ∙ patched_else d p m h 0 4 (omega arith) (omega arith) (inl (omega arith))
        ∙ emitted_byte d p m h 0 4 (omega arith) (omega arith)
        ∙ omega arith,
    λ k b. absurd (omega arith),
    λ x w. scattered_lem e p m h x ∙ ground (arith, emitted-outside e p m h x),
  )

  -- A copy and a lookup.
  next-Done :
      (i at : ℕ) (n : Memory)
      → 1 ≤ i
      → i < p.width
      → Done d p m i (at, n)
      → Done d p m (suc i) (step e (step e (at, n)))
  next-Done i at n b c done =
      subst (λ s. Done d p m (suc i) (step e s)) (sym (step-copied i at n b c done))
        (lookup-Done i (copied i n) c (copied-Ready i at n c done))

  pub run-Done : (i : ℕ) → 1 ≤ i → i ≤ p.width → Done d p m i (run e (2 * i + 1) (p.a, emitted p m))
  unfolding run
  run-Done zero b c = absurd (omega arith)
  run-Done (suc zero) b c =
      subst (λ s. Done d p m 1 (step e s))
        (sym (
          step-scattered e p m h ∙ ap (λ z. (z, scattered e p m h)) {y = lookup p 0} (omega arith)))
        (lookup-Done 0 (scattered e p m h) (omega arith) scattered-Ready)
  run-Done (suc (suc i)) b c =
      subst (Done d p m (suc (suc i)))
        (ap (λ n. run e n (p.a, emitted p m)) {x = suc (suc (2 * suc i + 1))} (omega arith))
        (next-Done (suc i) (run e (2 * suc i + 1) (p.a, emitted p m)).0
          (run e (2 * suc i + 1) (p.a, emitted p m)).1 (omega arith) (omega arith)
          (run-Done (suc i) (omega arith) (omega arith)))
