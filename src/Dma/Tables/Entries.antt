-- ===== src/Dma/Tables/Entries.antt =====
-- What the initializers leave in HYPER: loops of writes, and who writes where.
use dma.Base.{ℕ, zero, suc, ◌+◌, ◌*◌, ◌/◌, ◌%◌, ◌^◌, ◌<◌, ◌≤◌, ◌≡◌, ◌≢◌, refl, ap, ◌∙◌, arith}
use dma.Base.{◌⊎◌, Bool-cases, ==→eq, ==→ne, inl, inr, bit_or, ◌==◌}
use dma.Base.Bytes.{bit_or_disjoint}
use dma.Dma.Tables.{Table, write, for, for_bytes, entry, Initializer, func}
use dma.Dma.Tables.Spec.{first_byte, bytes, value}

pub write-same : (a v : ℕ) (t : Table) → v < 256 → write a v t a ≡ v
unfolding write
write-same a v t h = ground arith

pub write-ne : (a v : ℕ) (t : Table) (x : ℕ) → x ≢ a → write a v t x ≡ t x
unfolding write
write-ne a v t x h = ground arith

pub entry_lem : (i j s : ℕ) → j < 256 → s < 256 → entry i j s ≡ i * 65536 + j * 256 + s
unfolding entry
entry_lem i j s h k =
    ap (λ t. bit_or t s) {x = bit_or (i * 2 ^ 16) (j * 2 ^ 8)} {y = (i * 256 + j) * 2 ^ 8}
      (omega (arith, bit_or_disjoint 16 i (j * 2 ^ 8) (omega arith)))
    ∙ bit_or_disjoint 8 (i * 256 + j) s k
    ∙ omega arith

module _ (a : ℕ) where
  -- Rounds that leave the entry alone.
  pub for-frame :
      (n : ℕ) (body : ℕ → Table → Table)
      → ((k : ℕ) (t : Table) → k < n → body k t a ≡ t a)
      → (t : Table) → for n body t a ≡ t a
  unfolding for
  for-frame zero body h t = refl
  for-frame (suc n) body h t =
      h n (for n body t) (omega arith) ∙ for-frame n body (λ k u b. h k u (omega arith)) t

  -- One round writes the entry, the others leave it alone.
  pub for-at :
      (n : ℕ) (body : ℕ → Table → Table) (i v : ℕ)
      → i < n
      → ((t : Table) → body i t a ≡ v)
      → ((k : ℕ) (t : Table) → k < n → k ≢ i → body k t a ≡ t a)
      → (t : Table) → for n body t a ≡ v
  unfolding for
  for-at zero body i v b e h t = absurd (omega arith)
  for-at (suc n) body i v b e h t = elim (Bool-cases (n == i)) [
    | inl same ↦ ap (λ k. body k (for n body t) a) (==→eq n i same) ∙ e (for n body t)
    | inr other ↦
        h n (for n body t) (omega arith) (==→ne n i other)
        ∙ for-at n body i v (omega (arith, ==→ne n i other)) e (λ k u c d. h k u (omega arith) d) t
  ]

-- A loop over two bytes in which only one round writes the entry.
pub for_bytes-at :
    (a i j v : ℕ) (body : ℕ → ℕ → Table → Table)
    → (i < 256) × (j < 256)
    → ((t : Table) → body i j t a ≡ v)
    → ((k l : ℕ) (t : Table) → l < 256 → k * 256 + l ≢ i * 256 + j → body k l t a ≡ t a)
    → (t : Table) → for_bytes body t a ≡ v
for_bytes-at a i j v body b e h =
    for-at a 256 (λ k. for 256 (body k)) i v b.0
      (for-at a 256 (body i) j v b.1 e (λ l t c ne. h i l t c (omega arith)))
      (λ k t c ne. for-frame a 256 (body k) (λ l u d. h k l u d (omega arith)) t)

pub for_bytes-frame :
    (a : ℕ) (body : ℕ → ℕ → Table → Table)
    → ((k l : ℕ) (t : Table) → l < 256 → body k l t a ≡ t a)
    → (t : Table) → for_bytes body t a ≡ t a
for_bytes-frame a body h =
    for-frame a 256 (λ k. for 256 (body k))
      (λ k t c. for-frame a 256 (body k) (λ l u d. h k l u d) t)

-- An initializer writes its values in its own bytes of every row, and nothing else.
abbrev pub Outside : Initializer → ℕ → Type 0
Outside x a = (a % 256 < first_byte x) ⊎ (first_byte x + bytes x ≤ a % 256)

abbrev pub Fills : Initializer → Type 0
Fills x =
    ((i j o : ℕ) (t : Table)
      → (i < 256) × (j < 256) × (o < bytes x)
      → func x t (i * 65536 + j * 256 + first_byte x + o) ≡ value x i j o)
    × ((a : ℕ) (t : Table) → Outside x a → func x t a ≡ t a)

-- The same of one row.
abbrev pub FillsRow : Initializer → (ℕ → ℕ → Table → Table) → Type 0
FillsRow x body =
    ((i j o : ℕ) (t : Table)
      → (i < 256) × (j < 256) × (o < bytes x)
      → body i j t (i * 65536 + j * 256 + first_byte x + o) ≡ value x i j o)
    × ((i j a : ℕ) (t : Table)
        → j < 256
        → (i * 256 + j ≢ a / 256) ⊎ Outside x a
        → body i j t a ≡ t a)

pub FillsRow-Fills :
    (x : Initializer) (body : ℕ → ℕ → Table → Table)
    → first_byte x + bytes x ≤ 256
    → ((t : Table) (a : ℕ) → func x t a ≡ for_bytes body t a)
    → FillsRow x body
    → Fills x
FillsRow-Fills x body small same row = (
  λ i j o t h.
      same t (i * 65536 + j * 256 + first_byte x + o)
      ∙ for_bytes-at (i * 65536 + j * 256 + first_byte x + o) i j (value x i j o) body (h.0, h.1)
          (λ u. row.0 i j o u h)
          (λ k l u c ne.
            row.1 k l (i * 65536 + j * 256 + first_byte x + o) u c (inl (λ e. ne (omega arith))))
          t,
  λ a t out. same t a ∙ for_bytes-frame a body (λ k l u c. row.1 k l a u c (inr out)) t,
)

-- The same for a loop over both bytes at once.
pub FillsRow-FillsWide :
    (x : Initializer) (body : ℕ → Table → Table)
    → first_byte x + bytes x ≤ 256
    → ((t : Table) (a : ℕ) → func x t a ≡ for (2 ^ 16) body t a)
    → FillsRow x (λ i j. body (i * 256 + j))
    → Fills x
FillsRow-FillsWide x body small same row = (
  λ i j o t h.
      same t (i * 65536 + j * 256 + first_byte x + o)
      ∙ for-at (i * 65536 + j * 256 + first_byte x + o) (2 ^ 16) body (i * 256 + j) (value x i j o)
          (omega arith) (λ u. row.0 i j o u h)
          (λ k u c ne.
            one (i * 65536 + j * 256 + first_byte x + o) k u (inl (λ e. ne (omega arith))))
          t,
  λ a t out. same t a ∙ for-frame a (2 ^ 16) body (λ k u c. one a k u (inr out)) t,
)
  where
    one : (a k : ℕ) (u : Table) → (k ≢ a / 256) ⊎ Outside x a → body k u a ≡ u a
    one a k u c =
        ap (λ n. body n u a) {x = k} {y = k / 256 * 256 + k % 256} (omega arith)
        ∙ row.1 (k / 256) (k % 256) a u (omega arith)
            (elim c [ inl ne ↦ inl (λ e. ne (omega arith)) | inr out ↦ inr out ])
