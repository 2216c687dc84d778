-- ===== src/Pup/Elf/Sorted.antt =====
-- `claim_space` on a sorted memory map.
use dma.Base.{ℕ, zero, suc, ◌+◌, ◌-◌, ◌<◌, ◌≤◌, ◌≡◌, refl, ap, arith, Bool, true, false, ◌&&◌}
use dma.Base.{ltb, leb, ◌==◌, if◌then◌else◌, Option, none, some, ◌⊎◌, inl, inr, ap₂}
use dma.Pup.Elf.{Range, MemoryMap, slot, insert_at, put_cell, claim_space, elf_max_segments}

-- What the loop finds.
abbrev Slot : (ℕ → Range) → ℕ → ℕ → ℕ → Option ℕ → Type 0
Slot cells x k i none = (j : ℕ) → i ≤ j → j < i + k → (cells j).start ≤ x
Slot cells x k i (some s) =
    (i ≤ s) × (s < i + k) × (x < (cells s).start) × ((j : ℕ) → i ≤ j → j < s → (cells j).start ≤ x)

slot-Slot : (cells : ℕ → Range) (x k i : ℕ) → Slot cells x k i (slot cells x k i)
unfolding slot
slot-Slot cells x zero i = λ j a b. absurd (omega arith)
slot-Slot cells x (suc k) i =
    split (ltb x (cells i).start) refl (slot cells x k (suc i)) (slot-Slot cells x k (suc i))
  where
    first :
        (x' : (cells i).start ≤ x) (s : ℕ)
        → ((j : ℕ) → suc i ≤ j → j < s → (cells j).start ≤ x)
        → (j : ℕ) → i ≤ j
        → j < s
        → (cells j).start ≤ x
    first low s h j a b = cases (i == j) refl
      where
        cases : (c : Bool) → (i == j) ≡ c → (cells j).start ≤ x
        cases true e =
            let same : i ≡ j = ground arith in omega (arith, low, ap (λ y. (cells y).start) same)
        cases false e = h j (ground arith) b

    split :
        (b : Bool)
        → ltb x (cells i).start ≡ b
        → (o : Option ℕ) → Slot cells x k (suc i) o
        → Slot cells x (suc k) i (if b then some i else o)
    split true e o h = (omega arith, omega arith, ground arith, λ j a b. absurd (omega arith))
    split false e none h =
        λ j a b. first (ground arith) (i + suc k) (λ j' a' b'. h j' a' (omega arith)) j a b
    split false e (some s) h =
        (omega (arith, h.0), omega (arith, h.1), h.2, first (ground arith) s h.3)

-- The cells in use, in order of their starts.
unfoldable pub IsSorted : MemoryMap → Type 0
IsSorted m = (i j : ℕ) → i ≤ j → j < m.count → (m.cells i).start ≤ (m.cells j).start

insert_at-cases :
    (cells : ℕ → Range) (n s : ℕ) (r : Range) (j : ℕ)
    → j ≤ n
    → ((j < s) × (insert_at cells n s r j ≡ cells j))
      ⊎ (((j ≡ s) × (insert_at cells n s r j ≡ r))
          ⊎ ((s < j) × (insert_at cells n s r j ≡ cells (j - 1))))
unfolding insert_at
insert_at-cases cells n s r j h = split (j == s) refl (ltb s j && leb j n) refl
  where
    split :
        (b : Bool)
        → (j == s) ≡ b
        → (c : Bool) → (ltb s j && leb j n) ≡ c
        → ((j < s) × ((if b then r else if c then cells (j - 1) else cells j) ≡ cells j))
          ⊎ (((j ≡ s) × ((if b then r else if c then cells (j - 1) else cells j) ≡ r))
              ⊎ ((s < j)
                  × ((if b then r else if c then cells (j - 1) else cells j) ≡ cells (j - 1))))
    split true e c e' = inr (inl (ground arith, refl))
    split false e true e' = inr (inr (ground arith, refl))
    split false e false e' = inl (ground arith, refl)

module _ (m : MemoryMap) (r : Range) (sorted : IsSorted m) where
  -- Everything before the slot starts no later than `r`, everything from it on starts behind.
  inserted-IsSorted :
      (s : ℕ)
      → s ≤ m.count
      → ((j : ℕ) → j < s → (m.cells j).start ≤ r.start)
      → ((j : ℕ) → s ≤ j → j < m.count → r.start ≤ (m.cells j).start)
      → IsSorted (record { cells = insert_at m.cells (suc m.count) s r; count = suc m.count })
  unfolding IsSorted
  inserted-IsSorted s hs low high i j le lt =
      go (insert_at-cases m.cells (suc m.count) s r i (omega arith))
        (insert_at-cases m.cells (suc m.count) s r j (omega arith))
    where
      a : Range
      a = insert_at m.cells (suc m.count) s r i

      b : Range
      b = insert_at m.cells (suc m.count) s r j

      ordered : (x y : Range) → a ≡ x → b ≡ y → x.start ≤ y.start → a.start ≤ b.start
      ordered x y ex ey h = omega (arith, h, ap (λ z. z.start) ex, ap (λ z. z.start) ey)

      go :
          ((i < s) × (a ≡ m.cells i)) ⊎ (((i ≡ s) × (a ≡ r)) ⊎ ((s < i) × (a ≡ m.cells (i - 1))))
          → ((j < s) × (b ≡ m.cells j)) ⊎ (((j ≡ s) × (b ≡ r)) ⊎ ((s < j) × (b ≡ m.cells (j - 1))))
          → a.start ≤ b.start
      go (inl u) (inl v) =
          ordered (m.cells i) (m.cells j) u.1 v.1 (sorted i j le (omega (arith, v.0)))
      go (inl u) (inr (inl v)) = ordered (m.cells i) r u.1 v.1 (low i u.0)
      go (inl u) (inr (inr v)) =
          ordered (m.cells i) (m.cells (j - 1)) u.1 v.1
            (sorted i (j - 1) (omega (arith, u.0, v.0)) (omega (arith, v.0)))
      go (inr (inl u)) (inl v) = absurd (omega (arith, u.0, v.0))
      go (inr (inl u)) (inr (inl v)) = ordered r r u.1 v.1 (omega arith)
      go (inr (inl u)) (inr (inr v)) =
          ordered r (m.cells (j - 1)) u.1 v.1
            (high (j - 1) (omega (arith, v.0)) (omega (arith, v.0)))
      go (inr (inr u)) (inl v) = absurd (omega (arith, u.0, v.0))
      go (inr (inr u)) (inr (inl v)) = absurd (omega (arith, u.0, v.0))
      go (inr (inr u)) (inr (inr v)) =
          ordered (m.cells (i - 1)) (m.cells (j - 1)) u.1 v.1
            (sorted (i - 1) (j - 1) (omega arith) (omega (arith, v.0)))

  appended-IsSorted :
      ((j : ℕ) → j < m.count → (m.cells j).start ≤ r.start)
      → IsSorted (record { cells = put_cell m.cells m.count r; count = suc m.count })
  unfolding IsSorted
  appended-IsSorted low i j le lt = go (i == m.count) refl (j == m.count) refl
    where
      go :
          (b : Bool)
          → (i == m.count) ≡ b
          → (c : Bool) → (j == m.count) ≡ c
          → (if b then r else m.cells i).start ≤ (if c then r else m.cells j).start
      go true e true e' = omega arith
      go true e false e' = absurd (ground arith)
      go false e true e' = low i (ground arith)
      go false e false e' = sorted i j le (ground arith)

  in_order : (i j : ℕ) → i ≤ j → j < m.count → (m.cells i).start ≤ (m.cells j).start
  in_order = unfold IsSorted in sorted

-- `m'` is `m` with `r` at place `p` and the ranges from there on moved up by one.
abbrev pub InsertedAt : ℕ → Range → MemoryMap → MemoryMap → Type 0
InsertedAt p r m m' =
    (p ≤ m.count)
    × (m'.count ≡ suc m.count)
    × ((j : ℕ) → j < p → m'.cells j ≡ m.cells j)
    × (m'.cells p ≡ r)
    × ((j : ℕ) → p < j → j ≤ m.count → m'.cells j ≡ m.cells (j - 1))

-- What `claim_space` promises; it does not return at 17 ranges or more.
abbrev pub Claimed : MemoryMap → Range → Bool → Option (Bool × MemoryMap) → Type 0
Claimed m r force none = elf_max_segments < m.count
Claimed m r force (some (true, m')) = IsSorted m' × ((p : ℕ) × InsertedAt p r m m')
Claimed m r force (some (false, m')) =
    IsSorted m' × (force ≡ false) × (elf_max_segments ≤ m.count) × (m' ≡ m)

module _ (m : MemoryMap) (r : Range) where
  inserted-InsertedAt :
      (s : ℕ)
      → s ≤ m.count
      → InsertedAt s r m
          (record { cells = insert_at m.cells (suc m.count) s r; count = suc m.count })
  unfolding insert_at
  inserted-InsertedAt s hs = (
    hs,
    refl,
    λ j before.
        ap₂ (λ b c. if b then r else if c then m.cells (j - 1) else m.cells j) {y = false}
          {v = false} (ground arith) (ground arith),
    ap (λ b. if b then r else if ltb s s && leb s (suc m.count) then m.cells (s - 1) else m.cells s)
        {y = true} (ground arith),
    λ j behind last.
        ap₂ (λ b c. if b then r else if c then m.cells (j - 1) else m.cells j) {y = false}
          {v = true} (ground arith) (ground arith),
  )

  appended-InsertedAt :
      InsertedAt m.count r m (record { cells = put_cell m.cells m.count r; count = suc m.count })
  appended-InsertedAt = (
    omega arith,
    refl,
    λ j before. ap (λ b. if b then r else m.cells j) {y = false} (ground arith),
    ap (λ b. if b then r else m.cells m.count) {y = true} (ground arith),
    λ j behind last. absurd (omega arith),
  )

  module _ (sorted : IsSorted m) where
    inserted :
        (force : Bool) (o : Option ℕ)
        → Slot m.cells r.start (suc m.count) 0 o
        → Claimed m r force (elim o as (λ _. Option (Bool × MemoryMap)) [
          | some i ↦
              if ltb (suc m.count) (elf_max_segments + 2)
              then some (
                true,
                record { cells = insert_at m.cells (suc m.count) i r; count = suc m.count },
              )
              else none
          | none ↦ some (true, record { cells = put_cell m.cells m.count r; count = suc m.count })
        ])
    inserted force none h = (
      appended-IsSorted m r sorted (λ j lt. h j (omega arith) (omega arith)),
      (m.count, appended-InsertedAt),
    )
    inserted force (some s) h = fits (ltb (suc m.count) (elf_max_segments + 2)) refl
      where
        high : (j : ℕ) → s ≤ j → j < m.count → r.start ≤ (m.cells j).start
        high j le lt = omega (arith, h.2, in_order m r sorted s j le lt)

        fits :
            (b : Bool)
            → ltb (suc m.count) (elf_max_segments + 2) ≡ b
            → Claimed m r force (
                if b
                then some (
                  true,
                  record { cells = insert_at m.cells (suc m.count) s r; count = suc m.count },
                )
                else none)
        fits false e = ground arith
        fits true e = (
          inserted-IsSorted m r sorted s (omega (arith, h.1)) (λ j lt. h.3 j (omega arith) lt) high,
          (s, inserted-InsertedAt s (omega (arith, h.1))),
        )

    -- If the memory map is sorted by start, then it is after `claim_space`. Either the range stands
    -- at its place, the ranges before it are as they were and those behind it have moved up by one;
    -- or the call was refused, which happens only when it is not forced and 16 ranges are claimed
    -- already, and the map is as it was. Only at 17 ranges or more it can fail an assertion or write
    -- outside the array.
    pub claim_space-Claimed : (force : Bool) → Claimed m r force (claim_space r force m)
    unfolding claim_space
    claim_space-Claimed force =
        split force (leb elf_max_segments m.count) refl (ltb (elf_max_segments + 2) (suc m.count))
          refl (slot m.cells r.start (suc m.count) 0) (slot-Slot m.cells r.start (suc m.count) 0)
      where
        split :
            (force full : Bool)
            → leb elf_max_segments m.count ≡ full
            → (over : Bool) → ltb (elf_max_segments + 2) (suc m.count) ≡ over
            → (o : Option ℕ) → Slot m.cells r.start (suc m.count) 0 o
            → Claimed m r force (
                if full && (if force then false else true)
                then some (false, m)
                else if over
                then none
                else elim o as (λ _. Option (Bool × MemoryMap)) [
                  | some i ↦
                      if ltb (suc m.count) (elf_max_segments + 2)
                      then some (
                        true,
                        record { cells = insert_at m.cells (suc m.count) i r; count = suc m.count },
                      )
                      else none
                  | none ↦
                      some
                        (true, record { cells = put_cell m.cells m.count r; count = suc m.count })
                ])
        split false true e over e' o h = (sorted, refl, ground arith, refl)
        split true true e true e' o h = ground arith
        split true true e false e' o h = inserted true o h
        split false false e true e' o h = ground arith
        split false false e false e' o h = inserted false o h
        split true false e true e' o h = ground arith
        split true false e false e' o h = inserted true o h
