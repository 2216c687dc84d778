-- ===== src/Dma/Tables/Order.antt =====
-- The tables share HYPER without disturbing one another, in whatever order they are filled.
use dma.Base.{ℕ, ◌+◌, ◌*◌, ◌%◌, ◌<◌, ◌≤◌, ◌≡◌, sym, ap, ◌∙◌, arith}
use dma.Base.{Option, some, ◌⊎◌, inl, inr, List, [], ◌∷◌, ◌++◌}
use mathlib.Core.Path.{subst}
use dma.Dma.Tables.{Table, Initializer, func, run_initializers}
use dma.Dma.Tables.{add, sub, and, or, xor, add_r, mul, geu, equ, ges, sll, srl}
use dma.Dma.Tables.Spec.{first_byte, bytes, value, owner}
use dma.Dma.Tables.Entries.{Fills, Outside}
use dma.Dma.Tables.Carry.{add-Fills, sub-Fills, add_r-Fills}
use dma.Dma.Tables.Bitwise.{and-Fills, or-Fills, xor-Fills, mul-Fills}
use dma.Dma.Tables.Compare.{geu-Fills, equ-Fills, ges-Fills}
use dma.Dma.Tables.Shift.{sll-Fills, srl-Fills}

func-Fills : (x : Initializer) → Fills x
func-Fills add = add-Fills
func-Fills sub = sub-Fills
func-Fills and = and-Fills
func-Fills or = or-Fills
func-Fills xor = xor-Fills
func-Fills add_r = add_r-Fills
func-Fills mul = mul-Fills
func-Fills geu = geu-Fills
func-Fills equ = equ-Fills
func-Fills ges = ges-Fills
func-Fills sll = sll-Fills
func-Fills srl = srl-Fills

owner_lem :
    (x : Initializer) (b : ℕ) → first_byte x ≤ b → b < first_byte x + bytes x → owner b ≡ some x
unfolding owner
owner_lem add b h k = ground arith
owner_lem sub b h k = ground arith
owner_lem and b h k = ground arith
owner_lem or b h k = ground arith
owner_lem xor b h k = ground arith
owner_lem add_r b h k = ground arith
owner_lem mul b h k = ground arith
owner_lem geu b h k = ground arith
owner_lem equ b h k = ground arith
owner_lem ges b h k = ground arith
owner_lem sll b h k = ground arith
owner_lem srl b h k = ground arith

low_byte : (x : Initializer) (o : ℕ) → o < bytes x → first_byte x + o < 256
low_byte add o h = omega arith
low_byte sub o h = omega arith
low_byte and o h = omega arith
low_byte or o h = omega arith
low_byte xor o h = omega arith
low_byte add_r o h = omega arith
low_byte mul o h = omega arith
low_byte geu o h = omega arith
low_byte equ o h = omega arith
low_byte ges o h = omega arith
low_byte sll o h = omega arith
low_byte srl o h = omega arith

-- The entries of one table.
abbrev pub Entries : Initializer → Table → Type 0
Entries x t =
    (i j o : ℕ)
    → (i < 256) × (j < 256) × (o < bytes x)
    → t (i * 65536 + j * 256 + first_byte x + o) ≡ value x i j o

same_owner : (x y : Initializer) → Path (Option Initializer) (some x) (some y) → x ≡ y
same_owner x y e = cc

owned_or_not :
    (y : Initializer) (a : ℕ)
    → ((first_byte y ≤ a % 256) × (a % 256 < first_byte y + bytes y)) ⊎ Outside y a
owned_or_not y a = ground arith

func-Entries : (x y : Initializer) (t : Table) → Entries x t → Entries x (func y t)
func-Entries x y t e i j o h = elim (owned_or_not y (i * 65536 + j * 256 + first_byte x + o)) [
  | inl own ↦
      subst (λ z. func z t (i * 65536 + j * 256 + first_byte x + o) ≡ value x i j o)
        (same_owner x y (
          sym (owner_lem x (first_byte x + o) (omega arith) (omega (arith, h.2)))
          ∙ ap owner {y = (i * 65536 + j * 256 + first_byte x + o) % 256}
              (omega (arith, low_byte x o h.2))
          ∙ owner_lem y ((i * 65536 + j * 256 + first_byte x + o) % 256) own.0 own.1))
        ((func-Fills x).0 i j o t h)
  | inr out ↦ (func-Fills y).1 (i * 65536 + j * 256 + first_byte x + o) t out ∙ e i j o h
]

run_initializers-keeps :
    (x : Initializer) (rest : List Initializer) (t : Table)
    → Entries x t
    → Entries x (run_initializers rest t)
unfolding run_initializers
run_initializers-keeps x [] t e = e
run_initializers-keeps x (y ∷ rest) t e =
    run_initializers-keeps x rest (func y t) (func-Entries x y t e)

run_initializers-Entries :
    (before : List Initializer) (x : Initializer) (after : List Initializer) (t : Table)
    → Entries x (run_initializers (before ++ (x ∷ after)) t)
unfolding run_initializers
run_initializers-Entries [] x after t =
    run_initializers-keeps x after (func x t) (λ i j o h. (func-Fills x).0 i j o t h)
run_initializers-Entries (y ∷ before) x after t = run_initializers-Entries before x after (func y t)

-- Whatever HYPER held before and in whatever order the linker put the initializers, once
-- `run_initializers` has run a list that contains a table's initializer, each of the table's bytes
-- holds the value that the operation needs there: for the sum of two bytes and a carry, its low
-- byte and the selector of the next step, and so on for all twelve tables.
pub run_initializers-value :
    (before : List Initializer) (x : Initializer) (after : List Initializer) (t : Table) (i j o : ℕ)
    → (i < 256) × (j < 256) × (o < bytes x)
    → run_initializers (before ++ (x ∷ after)) t (i * 65536 + j * 256 + first_byte x + o)
      ≡ value x i j o
run_initializers-value before x after t i j o h = run_initializers-Entries before x after t i j o h
