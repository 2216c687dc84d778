-- ===== src/Dma/Arith/Compare/Answer.antt =====
-- What the truth tables in memory answer, by the flags.
use dma.Base.{ℕ, ◌+◌, ◌<◌, ◌≡◌, refl, ◌∙◌, arith}
use dma.Base.{Bool, true, false, not, ◌&&◌, ◌==◌, if◌then◌else◌, bit_and, Bool-cases, inl, inr}
use dma.Base.{List, ◌∷◌, ◌++◌}
use dma.Dma.Arith.Compare.{TruthTables, truth_table, icf_x4, icf_inv}
use dma.Dma.Cblk.{Memory}
use dma.Dma.Tables.{Initializer}
use dma.Dma.Tables.Truth.{Truth, Entries, run_truths, run_truths-ServesGeu, run_truths-ServesEqu}

-- The four truth tables in memory are as `run_initializers` left them.
abbrev pub Answers : TruthTables → List Initializer → Truth → Memory → Type 0
Answers t order truth m =
    (i : ℕ)
    → i < 256
    → (m (t.polar_x1 + 0x40000000 + i) ≡ (run_truths order truth).polar_x1 i)
      × (m (t.antipolar_x1 + 0x40000000 + i) ≡ (run_truths order truth).antipolar_x1 i)
      × (m (t.polar_x4 + 0x40000000 + i) ≡ (run_truths order truth).polar_x4 i)
      × (m (t.antipolar_x4 + 0x40000000 + i) ≡ (run_truths order truth).antipolar_x4 i)

-- The answer with ICF_X4 and ICF_INV: 1 or 4 for true, and the opposite.
unfoldable pub verdict : ℕ → Bool → ℕ
verdict flags answer =
    if bit_and flags icf_x4 == 0
    then (if bit_and flags icf_inv == 0
        then (if answer then 1 else 0)
        else (if answer then 0 else 1))
    else (if bit_and flags icf_inv == 0
        then (if answer then 4 else 0)
        else (if answer then 0 else 4))

-- With ICF_X4 alone, `Geu` answers 1 where 4 is meant.
unfoldable pub geu_verdict : ℕ → Bool → ℕ
geu_verdict flags answer =
    if not (bit_and flags icf_x4 == 0) && (bit_and flags icf_inv == 0)
    then (if answer then 1 else 0)
    else verdict flags answer

table-answer :
    (t : TruthTables) (flags c x1 y1 x4 y4 : ℕ) (order : List Initializer) (truth : Truth)
    (m : Memory)
    → c < 256
    → Answers t order truth m
    → Entries (run_truths order truth) c x1 y1 x4 y4
    → m (truth_table t flags + 0x40000000 + c) ≡ (
        if bit_and flags icf_x4 == 0
        then (if bit_and flags icf_inv == 0 then x1 else y1)
        else (if bit_and flags icf_inv == 0 then x4 else y4))
unfolding truth_table
table-answer t flags c x1 y1 x4 y4 order truth m small holds entries =
    elim (Bool-cases (bit_and flags icf_x4 == 0)) [
      | inl x ↦ elim (Bool-cases (bit_and flags icf_inv == 0)) [
        | inl y ↦ rw (x, y) ((holds c small).0 ∙ entries.0)
        | inr y ↦ rw (x, y) ((holds c small).1 ∙ entries.1)
      ]
      | inr x ↦ elim (Bool-cases (bit_and flags icf_inv == 0)) [
        | inl y ↦ rw (x, y) ((holds c small).2 ∙ entries.2)
        | inr y ↦ rw (x, y) ((holds c small).3 ∙ entries.3)
      ]
    ]

-- `verdict` and `geu_verdict` by the two flags.
module _ (flags : ℕ) (answer : Bool) where
  geu_verdict_lem :
      (if bit_and flags icf_x4 == 0
        then (if bit_and flags icf_inv == 0
            then (if answer then 1 else 0)
            else (if answer then 0 else 1))
        else (if bit_and flags icf_inv == 0
            then (if answer then 1 else 0)
            else (if answer then 0 else 4)))
      ≡ geu_verdict flags answer
  unfolding geu_verdict verdict
  geu_verdict_lem = elim (Bool-cases (bit_and flags icf_x4 == 0)) [
    | inl x ↦ elim (Bool-cases (bit_and flags icf_inv == 0)) [
      | inl y ↦ rw (x, y) refl
      | inr y ↦ rw (x, y) refl
    ]
    | inr x ↦ elim (Bool-cases (bit_and flags icf_inv == 0)) [
      | inl y ↦ rw (x, y) refl
      | inr y ↦ rw (x, y) refl
    ]
  ]

module _ (t : TruthTables) (flags : ℕ) (before after : List Initializer) (truth : Truth)
    (m : Memory) where
  pub geu-answer :
      (less : Bool)
      → Answers t (before ++ (Initializer.geu ∷ after)) truth m
      → m (truth_table t flags + 0x40000000 + (44 + (if less then 1 else 0)))
        ≡ geu_verdict flags (not less)
  geu-answer true holds =
      table-answer t flags 45 0 1 0 4 (before ++ (Initializer.geu ∷ after)) truth m (omega arith)
        holds (run_truths-ServesGeu before after truth).1
      ∙ geu_verdict_lem flags false
  geu-answer false holds =
      table-answer t flags 44 1 0 1 0 (before ++ (Initializer.geu ∷ after)) truth m (omega arith)
        holds (run_truths-ServesGeu before after truth).0
      ∙ geu_verdict_lem flags true

  pub equ-answer :
      (equal : Bool)
      → Answers t (before ++ (Initializer.equ ∷ after)) truth m
      → m (truth_table t flags + 0x40000000 + (46 + (if equal then 1 else 0))) ≡ verdict flags equal
  unfolding verdict
  equ-answer true holds =
      table-answer t flags 47 1 0 4 0 (before ++ (Initializer.equ ∷ after)) truth m (omega arith)
        holds (run_truths-ServesEqu before after truth).1
  equ-answer false holds =
      table-answer t flags 46 0 1 0 4 (before ++ (Initializer.equ ∷ after)) truth m (omega arith)
        holds (run_truths-ServesEqu before after truth).0
