-- ===== src/Dma/Tables/Truth.antt =====
-- The truth tables of dma/arith_cmp.c, what the initializers write there, and the selectors that
-- the lookups of `Geu` come to.
use dma.Base.{ℕ, zero, suc, ◌+◌, ◌*◌, ◌^◌, ◌<◌, ◌≡◌, refl, ap, ◌∙◌, arith}
use dma.Base.{
  false, ltb, ◌==◌, if◌then◌else◌, Bool-cases, ==→eq, ==→ne, inl, inr, List, [], ◌∷◌, ◌++◌,
}
use dma.Dma.Arith.{hyper_geu, hyper_equ, hyper_ges}
use dma.Dma.Arith.Lookup.{carry_at}
use dma.Dma.Arith.Number.{number, sub_digit, difference_at, difference_lem, number-lt, borrow_at-lt}
use dma.Dma.Tables.{Table, Initializer, run_initializers, write, ges_false, ges_true, ges_equ}
use dma.Dma.Tables.{add, sub, and, or, xor, add_r, mul, geu, equ, ges, sll, srl}
use dma.Dma.Tables.Order.{run_initializers-value}

pub record Truth : Type 0 where
  pub polar_x1 : Table
  pub antipolar_x1 : Table
  pub polar_x4 : Table
  pub antipolar_x4 : Table

-- `SET_TRUTH_TABLES(hyper, b0, b1)`
unfoldable pub set_truth_tables : ℕ → ℕ → ℕ → Truth → Truth
set_truth_tables hyper b0 b1 t = record {
  polar_x1 = write (hyper + 1) b1 (write (hyper + 0) b0 t.polar_x1);
  antipolar_x1 = write (hyper + 1) b0 (write (hyper + 0) b1 t.antipolar_x1);
  polar_x4 = write (hyper + 1) (4 * b1) (write (hyper + 0) b0 t.polar_x4);
  antipolar_x4 = write (hyper + 1) (4 * b0) (write (hyper + 0) (4 * b1) t.antipolar_x4);
}

-- `table[GES_HIGH] = table[GES_FALSE] = less; table[GES_TRUE] = table[GES_EQU] = at_least`
abbrev signed : ℕ → ℕ → Table → Table
signed less at_least table =
    write ges_true at_least
      (write ges_equ at_least (write hyper_ges less (write ges_false less table)))

-- The truth tables' part of `INITIALIZER(ges)`.
unfoldable pub set_ges_truth : Truth → Truth
set_ges_truth t = record {
  polar_x1 = signed 0 1 t.polar_x1;
  antipolar_x1 = signed 1 0 t.antipolar_x1;
  polar_x4 = signed 0 4 t.polar_x4;
  antipolar_x4 = signed 4 0 t.antipolar_x4;
}

-- What each initializer does to the truth tables: only the comparisons write there.
abbrev pub truth_func : Initializer → Truth → Truth
truth_func geu = set_truth_tables hyper_geu 1 0
truth_func equ = set_truth_tables hyper_equ 0 1
truth_func ges = set_ges_truth
truth_func add = λ t. t
truth_func sub = λ t. t
truth_func and = λ t. t
truth_func or = λ t. t
truth_func xor = λ t. t
truth_func add_r = λ t. t
truth_func mul = λ t. t
truth_func sll = λ t. t
truth_func srl = λ t. t

-- The loop of `run_initializers`, as the truth tables see it.
unfoldable pub run_truths : List Initializer → Truth → Truth
run_truths [] t = t
run_truths (init ∷ rest) t = run_truths rest (truth_func init t)

-- The entries of the four tables at a selector.
abbrev pub Entries : Truth → ℕ → ℕ → ℕ → ℕ → ℕ → Type 0
Entries t c x1 y1 x4 y4 =
    (t.polar_x1 c ≡ x1) × (t.antipolar_x1 c ≡ y1) × (t.polar_x4 c ≡ x4) × (t.antipolar_x4 c ≡ y4)

-- What `Geu` needs there, and what `Equ` needs.
abbrev pub ServesGeu : Truth → Type 0
ServesGeu t = Entries t 44 1 0 1 0 × Entries t 45 0 1 0 4

abbrev pub ServesEqu : Truth → Type 0
ServesEqu t = Entries t 46 0 1 0 4 × Entries t 47 1 0 4 0

module _ (Serves : Truth → Type 0)
    (kept : (i : Initializer) (t : Truth) → Serves t → Serves (truth_func i t)) where
  after_all : (after : List Initializer) (t : Truth) → Serves t → Serves (run_truths after t)
  unfolding run_truths
  after_all [] t s = s
  after_all (i ∷ after) t s = after_all after (truth_func i t) (kept i t s)

  among :
      (x : Initializer)
      → ((t : Truth) → Serves (truth_func x t))
      → (before after : List Initializer) (t : Truth)
      → Serves (run_truths (before ++ (x ∷ after)) t)
  unfolding run_truths
  among x made [] after t = after_all after (truth_func x t) (made t)
  among x made (i ∷ before) after t = among x made before after (truth_func i t)

made_geu : (t : Truth) → ServesGeu (truth_func geu t)
unfolding set_truth_tables write
made_geu t = ((refl, refl, refl, refl), (refl, refl, refl, refl))

kept_geu : (i : Initializer) (t : Truth) → ServesGeu t → ServesGeu (truth_func i t)
unfolding set_truth_tables set_ges_truth write
kept_geu geu t s = made_geu t
kept_geu equ t s = s
kept_geu ges t s = s
kept_geu add t s = s
kept_geu sub t s = s
kept_geu and t s = s
kept_geu or t s = s
kept_geu xor t s = s
kept_geu add_r t s = s
kept_geu mul t s = s
kept_geu sll t s = s
kept_geu srl t s = s

made_equ : (t : Truth) → ServesEqu (truth_func equ t)
unfolding set_truth_tables write
made_equ t = ((refl, refl, refl, refl), (refl, refl, refl, refl))

kept_equ : (i : Initializer) (t : Truth) → ServesEqu t → ServesEqu (truth_func i t)
unfolding set_truth_tables set_ges_truth write
kept_equ geu t s = s
kept_equ equ t s = made_equ t
kept_equ ges t s = s
kept_equ add t s = s
kept_equ sub t s = s
kept_equ and t s = s
kept_equ or t s = s
kept_equ xor t s = s
kept_equ add_r t s = s
kept_equ mul t s = s
kept_equ sll t s = s
kept_equ srl t s = s

-- In whatever order the initializers run.
pub run_truths-ServesGeu :
    (before after : List Initializer) (t : Truth)
    → ServesGeu (run_truths (before ++ (geu ∷ after)) t)
run_truths-ServesGeu = among ServesGeu kept_geu geu made_geu

pub run_truths-ServesEqu :
    (before after : List Initializer) (t : Truth)
    → ServesEqu (run_truths (before ++ (equ ∷ after)) t)
run_truths-ServesEqu = among ServesEqu kept_equ equ made_equ

-- The selector after the lookups of `k` bytes: each reads HYPER at the bytes of both operands and
-- the selector before it, and its entry is the selector of the next.
abbrev pub selected : Table → ℕ → (ℕ → ℕ) → (ℕ → ℕ) → ℕ → ℕ
selected hyper start l r zero = start
selected hyper start l r (suc k) = hyper (l k * 65536 + r k * 256 + selected hyper start l r k)

-- A memory that holds the table leads to the same selectors.
pub selected-same :
    (f g : Table) (start : ℕ) (l r : ℕ → ℕ) (w : ℕ)
    → ((x : ℕ) → x < 2 ^ 24 → f x ≡ g x)
    → ((k : ℕ) → k < w → (l k < 256) × (r k < 256))
    → ((k : ℕ) → k < w → selected g start l r k < 256)
    → selected f start l r w ≡ selected g start l r w
selected-same f g start l r zero same bytes small = refl
selected-same f g start l r (suc w) same bytes small =
    ap (λ s. f (l w * 65536 + r w * 256 + s))
      (selected-same f g start l r w same (λ k b. bytes k (omega arith))
        (λ k b. small k (omega arith)))
    ∙ same (l w * 65536 + r w * 256 + selected g start l r w)
        (omega (arith, bytes w (omega arith), small w (omega arith)))

module _ (before after : List Initializer) (t : Table) (l r : ℕ → ℕ) where
  pub geu-selected :
      (w : ℕ)
      → ((k : ℕ) → k < w → (l k < 256) × (r k < 256))
      → selected (run_initializers (before ++ (Initializer.geu ∷ after)) t) hyper_geu l r w
        ≡ 44 + carry_at sub_digit l r w
  unfolding carry_at
  geu-selected zero bytes = refl
  geu-selected (suc w) bytes =
      ap (run_initializers (before ++ (Initializer.geu ∷ after)) t)
        {y = l w * 65536 + r w * 256 + 44 + carry_at sub_digit l r w}
        (omega (arith, geu-selected w (λ k b. bytes k (omega arith))))
      ∙ run_initializers-value before Initializer.geu after t (l w) (r w) (carry_at sub_digit l r w)
          ((bytes w (omega arith)).0, (bytes w (omega arith)).1, borrow_at-lt l r w)

  pub borrow_lem :
      (w : ℕ)
      → ((k : ℕ) → k < w → (l k < 256) × (r k < 256))
      → carry_at sub_digit l r w ≡ (if ltb (number w l) (number w r) then 1 else 0)
  borrow_lem w bytes = elim (Bool-cases (carry_at sub_digit l r w == 0)) [
    | inl none ↦ ground (
      arith,
      ==→eq (carry_at sub_digit l r w) 0 none,
      difference_lem l r w bytes,
      ap (λ x. 256 ^ w * x) (==→eq (carry_at sub_digit l r w) 0 none),
    )
    | inr some ↦ ground (
      arith,
      one some,
      difference_lem l r w bytes,
      number-lt w (difference_at l r) (λ k b. omega arith),
      ap (λ x. 256 ^ w * x) (one some),
    )
  ]
    where
      one : (carry_at sub_digit l r w == 0) ≡ false → carry_at sub_digit l r w ≡ 1
      one e = omega (arith, ==→ne (carry_at sub_digit l r w) 0 e, borrow_at-lt l r w)
