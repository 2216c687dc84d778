-- ===== src/Dma/Arith/Lookup.antt =====
-- One lookup of `Add` or `Sub`: its patched block reads the entry for two bytes and a carry.
use dma.Base.{ℕ, zero, suc, ◌+◌, ◌-◌, ◌*◌, ◌/◌, ◌^◌, ◌<◌, ◌≤◌, ◌≡◌, ◌≢◌, ap, ◌∙◌, arith}
use dma.Base.{some, ◌⊎◌, inr}
use dma.Base.{ap₂, get_elem?, get_or, u8}
use dma.Dma.Arith.{entry_len}
use dma.Dma.Arith.Program.{program, get_elem?-carry_blocks}
use dma.Dma.Arith.Setting.{Places, Apart, after, span, table_at, emitted, patched}
use dma.Dma.Cblk.{Memory, cblk_at, cblk_bytes}
use dma.Dma.Emit.Laid.{linear, laid-byte}
use dma.Dma.Emit.Layout.{cblk_at-patched}

-- What the table is said to hold for two bytes and a carry: a byte and the next carry.
pub record Digit : Type 0 where
  pub low : ℕ → ℕ → ℕ → ℕ
  pub next : ℕ → ℕ → ℕ → ℕ

-- The carry into byte `k`.
unfoldable pub carry_at : Digit → (ℕ → ℕ) → (ℕ → ℕ) → ℕ → ℕ
carry_at d l r zero = 0
carry_at d l r (suc k) = d.next (l k) (r k) (carry_at d l r k)

abbrev pub lhs_byte : Places → Memory → ℕ → ℕ
lhs_byte p m k = m (p.lhs + k)

abbrev pub rhs_byte : Places → Memory → ℕ → ℕ
rhs_byte p m k = m (p.rhs + k)

abbrev pub carry_in : Digit → Places → Memory → ℕ → ℕ
carry_in d p m = carry_at d (lhs_byte p m) (rhs_byte p m)

abbrev pub digit : Digit → Places → Memory → ℕ → ℕ
digit d p m k = d.low (lhs_byte p m k) (rhs_byte p m k) (carry_in d p m k)

abbrev pub Operands : Places → Memory → Type 0
Operands p m = (k : ℕ) → k < p.width → (lhs_byte p m k < 256) × (rhs_byte p m k < 256)

abbrev pub TableHolds : Digit → Places → Memory → Type 0
TableHolds d p m =
    (l r c : ℕ)
    → (l < 256) × (r < 256) × (c < 2)
    → (m (table_at p + (l * 65536 + r * 256 + p.selector + 2 * c)) ≡ d.low l r c)
      × (m (table_at p + (l * 65536 + r * 256 + p.selector + 2 * c) + 1)
          ≡ p.selector + 2 * d.next l r c)
      × (d.next l r c < 2)

-- Neither the program's nor the result's.
abbrev pub Elsewhere : Places → ℕ → Type 0
Elsewhere p x = ((x < p.a) ⊎ (p.a + 64 * p.width + 128 ≤ x)) × ((x < p.ret) ⊎ (p.ret + span p ≤ x))

-- The address of the `j`th lookup.
abbrev pub lookup : Places → ℕ → ℕ
lookup p j = p.a + 64 + 64 * j

abbrev pub first_src : Places → ℕ → ℕ
first_src p zero = table_at p + p.selector
first_src p (suc j) = table_at p

abbrev pub lookup_len : Places → ℕ → ℕ
lookup_len p zero = 2
lookup_len p (suc j) = entry_len (suc j) p.width

abbrev pub found_at : Digit → Places → Memory → ℕ → ℕ
found_at d p m j =
    table_at p + (lhs_byte p m j * 65536 + rhs_byte p m j * 256 + p.selector + 2 * carry_in d p m j)

-- Before the `j`th lookup.
abbrev pub Ready : Digit → Places → Memory → ℕ → Memory → Type 0
Ready d p m j n =
    ((x : ℕ) → lookup p j ≤ x → x < after p → x ≢ lookup p j + 4 → n x ≡ patched p m x)
    × (n (lookup p j + 4) ≡ p.selector + 2 * carry_in d p m j)
    × ((k : ℕ) → k < j → n (p.ret + k) ≡ digit d p m k)
    × ((x : ℕ) → Elsewhere p x → n x ≡ m x)

module _ (d : Digit) (p : Places) (m : Memory) (h : Apart p) where
  lookup_block :
      (j : ℕ)
      → j < p.width
      → get_elem? (program p.hyper p.selector p.width p.ret p.lhs p.rhs p.a) (2 + 2 * j)
        ≡ some (linear (lookup p j) (p.ret + j) (first_src p j) (lookup_len p j))
  lookup_block zero b =
      ap₂ (λ x y. some (linear x y (table_at p + p.selector) 2)) (omega arith) (omega arith)
  lookup_block (suc j) b =
      ap (get_elem? (program p.hyper p.selector p.width p.ret p.lhs p.rhs p.a))
        {y = suc (suc (suc (2 * j + 1)))} (omega arith)
      ∙ (get_elem?-carry_blocks p.hyper p.selector p.width p.ret (p.width - 1) 1 (p.a + 96) j
          (omega arith)).1
      ∙ ap₂ (λ x y. some (linear x (p.ret + y) (table_at p) (entry_len y p.width)))
          {y = lookup p (suc j)} {v = suc j} (omega arith) (omega arith)

  first_src_lem :
      (j : ℕ) → (first_src p j < 2 ^ 32) × (u8 (first_src p j / 2 ^ 24) ≡ u8 (table_at p / 2 ^ 24))
  first_src_lem zero = (omega arith, omega arith)
  first_src_lem (suc j) = (omega arith, omega arith)

  pub lookup_len-le : (j : ℕ) → (1 ≤ lookup_len p j) × (lookup_len p j ≤ 2)
  lookup_len-le zero = (omega arith, omega arith)
  lookup_len-le (suc j) = (ground arith, ground arith)

  pub emitted_byte :
      (j o : ℕ)
      → j < p.width
      → o < 32
      → emitted p m (lookup p j + o)
        ≡ get_or (cblk_bytes (linear (lookup p j) (p.ret + j) (first_src p j) (lookup_len p j))) o 0
  emitted_byte j o b c =
      ap (emitted p m) {y = p.a + 32 * (2 + 2 * j) + o} (omega arith)
      ∙ laid-byte p.a (program p.hyper p.selector p.width p.ret p.lhs p.rhs p.a) m (2 + 2 * j) o
          (linear (lookup p j) (p.ret + j) (first_src p j) (lookup_len p j)) (lookup_block j b) c

  patched_rhs : (j : ℕ) → j < p.width → patched p m (lookup p j + 5) ≡ rhs_byte p m j
  patched_rhs j b = ground arith

  patched_lhs : (j : ℕ) → j < p.width → patched p m (lookup p j + 6) ≡ lhs_byte p m j
  patched_lhs j b = ground arith

  pub patched_else :
      (j o : ℕ)
      → j < p.width
      → o < 24
      → (o < 5) ⊎ (7 ≤ o)
      → patched p m (lookup p j + o) ≡ emitted p m (lookup p j + o)
  patched_else j o b c w = ground arith

  pub carry_in-lt : Operands p m → TableHolds d p m → (j : ℕ) → j ≤ p.width → carry_in d p m j < 2
  unfolding carry_at
  carry_in-lt o t zero b = omega arith
  carry_in-lt o t (suc j) b =
      (t (lhs_byte p m j) (rhs_byte p m j) (carry_in d p m j)
        ((o j (omega arith)).0, (o j (omega arith)).1, carry_in-lt o t j (omega arith))).2

  pub lookup_at :
      (j : ℕ) (n : Memory)
      → j < p.width
      → Operands p m
      → TableHolds d p m
      → Ready d p m j n
      → cblk_at n (lookup p j) ≡ linear (lookup p j) (p.ret + j) (found_at d p m j) (lookup_len p j)
  lookup_at j n b o t r =
      cblk_at-patched (lookup p j) n
        (linear (lookup p j) (p.ret + j) (first_src p j) (lookup_len p j)) (found_at d p m j)
        (
          omega arith,
          (first_src_lem j).0,
          omega arith,
          omega (arith, lookup_len-le j),
          omega arith,
          omega arith,
        )
        (λ k c w.
          r.0 (lookup p j + k) (omega arith) (omega arith) (λ e. ground arith)
          ∙ patched_else j k b c (ground arith)
          ∙ emitted_byte j k b (omega arith))
        (omega (
          arith,
          r.1,
          ap n {x = lookup p j + 4 + 1} {y = lookup p j + 5} (omega arith)
              ∙ r.0 (lookup p j + 5) (omega arith) (omega arith) (λ e. omega arith)
              ∙ patched_rhs j b,
          ap n {x = lookup p j + 4 + 2} {y = lookup p j + 6} (omega arith)
              ∙ r.0 (lookup p j + 6) (omega arith) (omega arith) (λ e. omega arith)
              ∙ patched_lhs j b,
          ap n {x = lookup p j + 4 + 3} {y = lookup p j + 7} (omega arith)
              ∙ r.0 (lookup p j + 7) (omega arith) (omega arith) (λ e. omega arith)
              ∙ patched_else j 7 b (omega arith) (inr (omega arith))
              ∙ emitted_byte j 7 b (omega arith),
          first_src_lem j,
          o j b,
          carry_in-lt o t j (omega arith),
        ))
