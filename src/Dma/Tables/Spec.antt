-- ===== src/Dma/Tables/Spec.antt =====
-- What each part of HYPER is for: the low bytes that an initializer owns, and the value that stands
-- at a pair of bytes and a low byte, in plain arithmetic.
use dma.Base.{ℕ, ◌+◌, ◌-◌, ◌*◌, ◌/◌, ◌%◌, ◌^◌, bit_and, bit_or, bit_xor, if◌then◌else◌, ltb, ◌==◌}
use dma.Base.{Option, none, some}
use dma.Dma.Tables.{Initializer, add, sub, and, or, xor, add_r, mul, geu, equ, ges, sll, srl}

abbrev pub first_byte : Initializer → ℕ
first_byte add = 4
first_byte sub = 8
first_byte and = 12
first_byte or = 13
first_byte xor = 14
first_byte sll = 20
first_byte srl = 36
first_byte geu = 44
first_byte equ = 46
first_byte ges = 52
first_byte mul = 56
first_byte add_r = 72

abbrev pub bytes : Initializer → ℕ
bytes add = 4
bytes sub = 4
bytes and = 1
bytes or = 1
bytes xor = 1
bytes sll = 8
bytes srl = 8
bytes geu = 2
bytes equ = 2
bytes ges = 4
bytes mul = 2
bytes add_r = 4

-- 1 where `i - (j + l)` borrows, for bytes `i` and `j` and a bit `l`.
abbrev pub borrow : ℕ → ℕ → ℕ → ℕ
borrow i j l = if ltb i (j + l) then 1 else 0

-- A byte as a signed number, raised by 128.
abbrev pub raised : ℕ → ℕ
raised i = if ltb i 128 then i + 128 else i - 128

-- 1 below, 2 above, 3 equal.
abbrev pub verdict : ℕ → ℕ → ℕ
verdict a b = if ltb a b then 1 else if ltb b a then 2 else 3

abbrev pub value : Initializer → ℕ → ℕ → ℕ → ℕ
value add i j o = if o % 2 == 0 then (i + j + o / 2) % 256 else 4 + 2 * ((i + j + o / 2) / 256)
value sub i j o = if o % 2 == 0 then (i + 256 - (j + o / 2)) % 256 else 8 + 2 * borrow i j (o / 2)
value and i j o = bit_and i j
value or i j o = bit_or i j
value xor i j o = bit_xor i j
value sll i j o = ((i * 256 + j) * 2 ^ o / 256) % 256
value srl i j o = ((i * 256 + j) / 2 ^ o) % 256
value geu i j o = 44 + borrow i j o
value equ i j o = if i == j then 46 + o else 46
value ges i j o =
    if o == 0
    then 52 + verdict (raised i) (raised j)
    else if o == 3
    then 52 + verdict i j
    else 52 + o
value mul i j o = if o == 0 then i * j % 256 else i * j / 256
value add_r i j o = if o % 2 == 0 then 72 + 2 * ((i + j + o / 2) / 256) else (i + j + o / 2) % 256

-- Whose table the low byte of an index selects.
unfoldable pub owner : ℕ → Option Initializer
owner b =
    if ltb b 4
    then none
    else if ltb b 8
    then some add
    else if ltb b 12
    then some sub
    else if b == 12
    then some and
    else if b == 13
    then some or
    else if b == 14
    then some xor
    else if ltb b 20
    then none
    else if ltb b 28
    then some sll
    else if ltb b 36
    then none
    else if ltb b 44
    then some srl
    else if ltb b 46
    then some geu
    else if ltb b 48
    then some equ
    else if ltb b 52
    then none
    else if ltb b 56
    then some ges
    else if ltb b 58
    then some mul
    else if ltb b 72
    then none
    else if ltb b 76
    then some add_r
    else none
