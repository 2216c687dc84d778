-- ===== src/Dma/Tables.antt =====
-- The lookup tables in HYPER and SUPER and the initializers that fill them, dma/arith_int.c,
-- dma/arith_bit.c, dma/arith_cmp.c and dma/arith_sxx.c, in the order the linker puts them in.
pub mod Spec
pub mod Entries
pub mod Carry
pub mod Order
pub mod Truth
pub mod Equal
pub mod Shift
pub mod Bitwise
pub mod Compare
use dma.Base.{ℕ, zero, suc, ◌+◌, ◌-◌, ◌*◌, ◌/◌, ◌%◌, ◌^◌, u8, u16, u32, bit_and, bit_or, bit_xor}
use dma.Base.{Bool, true, false, ◌&&◌, ◌==◌, ltb, if◌then◌else◌, List, [], ◌∷◌, Option, none, some}
use dma.Dma.Arith.{hyper_add, hyper_sub, hyper_and, hyper_or, hyper_xor, hyper_sll, hyper_srl}
use dma.Dma.Arith.{hyper_geu, hyper_equ, hyper_ges, hyper_mul, hyper_add_r, super_inc}

-- An array of `uint8_t`.
abbrev pub Table : Type 0
Table = ℕ → ℕ

unfoldable pub write : ℕ → ℕ → Table → Table
write a v t x = if x == a then u8 v else t x

-- `for (i = 0; i < n; i++)`
unfoldable pub for : ℕ → (ℕ → Table → Table) → Table → Table
for zero body t = t
for (suc n) body t = body n (for n body t)

abbrev pub for_bytes : (ℕ → ℕ → Table → Table) → Table → Table
for_bytes body = for 256 (λ i. for 256 (body i))

-- `i << 16 | j << 8 | selector`
unfoldable pub entry : ℕ → ℕ → ℕ → ℕ
entry i j selector = bit_or (bit_or (i * 2 ^ 16) (j * 2 ^ 8)) selector

-- The selector of a further step: with a carry, two more.
abbrev pub carry : ℕ → ℕ → ℕ
carry r selector = if r / 2 ^ 8 == 0 then selector else selector + 2

abbrev pub add_entry : ℕ → ℕ → ℕ → Table → Table
add_entry i j l t =
    let r = u16 (i + j + l) in
    write (entry i j hyper_add + 2 * l + 1) (carry r hyper_add)
      (write (entry i j hyper_add + 2 * l) (r % 2 ^ 8) t)

unfoldable pub init_add : Table → Table
init_add = for_bytes (λ i j. for 2 (add_entry i j))

abbrev pub sub_entry : ℕ → ℕ → ℕ → Table → Table
sub_entry i j l t =
    let r = u16 (i + 2 ^ 16 - j - l) in
    write (entry i j hyper_sub + 2 * l + 1) (carry r hyper_sub)
      (write (entry i j hyper_sub + 2 * l) (r % 2 ^ 8) t)

unfoldable pub init_sub : Table → Table
init_sub = for_bytes (λ i j. for 2 (sub_entry i j))

unfoldable pub init_and : Table → Table
init_and = for_bytes (λ i j. write (entry i j hyper_and) (bit_and i j))

unfoldable pub init_or : Table → Table
init_or = for_bytes (λ i j. write (entry i j hyper_or) (bit_or i j))

unfoldable pub init_xor : Table → Table
init_xor = for_bytes (λ i j. write (entry i j hyper_xor) (bit_xor i j))

-- The carry comes first.
abbrev pub add_r_entry : ℕ → ℕ → ℕ → Table → Table
add_r_entry i j l t =
    let at = bit_or (entry i j hyper_add_r) (l * 2) in
    write (bit_or at 1) (bit_and (i + j + l) 255)
      (write (bit_or at 0) (carry (i + j + l) hyper_add_r) t)

unfoldable pub init_add_r : Table → Table
init_add_r = for_bytes (λ i j. for 2 (add_r_entry i j))

unfoldable pub init_mul : Table → Table
init_mul = for_bytes (λ b c t.
    write (entry b c (hyper_mul + 1)) (b * c / 2 ^ 8)
      (write (entry b c hyper_mul) (bit_and (b * c) 0xff) t))

-- `(k << 8) + selector + l` with `k = i * 256 + j`
abbrev pub entry_at : ℕ → ℕ → ℕ → ℕ
entry_at i j o = (i * 256 + j) * 2 ^ 8 + o

abbrev pub geu_entry : ℕ → ℕ → ℕ → Table → Table
geu_entry i j l =
    write (entry_at i j (hyper_geu + l))
      (if u32 (i + 2 ^ 32 - j - l) / 2 ^ 8 == 0 then hyper_geu else hyper_geu + 1)

unfoldable pub init_geu : Table → Table
init_geu = for_bytes (λ i j. for 2 (geu_entry i j))

abbrev pub equ_entry : ℕ → ℕ → ℕ → Table → Table
equ_entry i j l =
    write (entry_at i j (hyper_equ + l))
      (if (i == j) && (if l == 0 then false else true) then hyper_equ + 1 else hyper_equ)

unfoldable pub init_equ : Table → Table
init_equ = for_bytes (λ i j. for 2 (equ_entry i j))

abbrev pub ges_false : ℕ
ges_false = hyper_ges + 1

abbrev pub ges_true : ℕ
ges_true = hyper_ges + 2

abbrev pub ges_equ : ℕ
ges_equ = hyper_ges + 3

-- An `int8_t` shifted by 128, which keeps the order.
abbrev pub biased : ℕ → ℕ
biased i = u8 (i + 128)

abbrev pub order : ℕ → ℕ → ℕ
order a b = if ltb a b then ges_false else if ltb b a then ges_true else ges_equ

abbrev pub ges_next : ℕ → ℕ → ℕ → ℕ
ges_next i j l =
    if l == 0 then order (biased i) (biased j) else if l == 3 then order i j else hyper_ges + l

unfoldable pub init_ges : Table → Table
init_ges = for_bytes (λ i j. for 4 (λ l. write (entry_at i j (hyper_ges + l)) (ges_next i j l)))

abbrev pub sll_entry : ℕ → ℕ → Table → Table
sll_entry i s = write (bit_or (i * 2 ^ 8) hyper_sll + s) (i * 2 ^ s / 2 ^ 8)

unfoldable pub init_sll : Table → Table
init_sll = for (2 ^ 16) (λ i. for 8 (sll_entry i))

abbrev pub srl_entry : ℕ → ℕ → Table → Table
srl_entry i s = write (bit_or (i * 2 ^ 8) hyper_srl + s) (i / 2 ^ s)

unfoldable pub init_srl : Table → Table
init_srl = for (2 ^ 16) (λ i. for 8 (srl_entry i))

-- The entries of `struct initializer` in `.inittab` that write to HYPER.
pub data Initializer : Type 0 where
  add sub and or xor add_r mul geu equ ges sll srl : Initializer

abbrev pub func : Initializer → Table → Table
func add = init_add
func sub = init_sub
func and = init_and
func or = init_or
func xor = init_xor
func add_r = init_add_r
func mul = init_mul
func geu = init_geu
func equ = init_equ
func ges = init_ges
func sll = init_sll
func srl = init_srl

-- The loop of `run_initializers`.
unfoldable pub run_initializers : List Initializer → Table → Table
run_initializers [] t = t
run_initializers (init ∷ rest) t = run_initializers rest (func init t)

-- `run_initializers` and its flag `did_run_initializers`: a second call panics.
unfoldable initialize : Bool → List Initializer → Table → Option (Table × Bool)
initialize did_run_initializers inittab t =
    if did_run_initializers then none else some (run_initializers inittab t, true)

-- The increment's table, in SUPER: without and with the carry.
abbrev pub inc_entry : ℕ → Table → Table
inc_entry i t =
    let at = bit_or (i * 2 ^ 8) super_inc in
    write (at + 3) (carry (i + 1) super_inc) (
      write (at + 2) (bit_and (i + 1) 0xff)
        (write (at + 1) (carry (i + 0) super_inc) (write (at + 0) (bit_and (i + 0) 0xff) t)))

unfoldable pub init_increment : Table → Table
init_increment = for 256 inc_entry
