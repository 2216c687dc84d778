-- ===== src/Dma/Arith.antt =====
-- Programs of control blocks for integer arithmetic, dma/arith.h and dma/arith_int.c: `Inc`, `Add`
-- and `Sub`. A program patches the low bytes of the source addresses of its own later blocks, so
-- that these read the wanted entry of a table.
pub mod Bitwise
pub mod Bytewise
pub mod Program
pub mod Emitted
pub mod Setting
pub mod Lookup
pub mod Run
pub mod Number
pub mod Sum
pub mod Compare
pub mod Shift
use dma.Base.{ℕ, ◌+◌, ◌-◌, ◌*◌, ◌^◌, Bool, true, false, not, ◌==◌, ltb, if◌then◌else◌}
use dma.Dma.Bus.{Busad, bus_add}
use dma.Dma.Emit.{Emission, ◌>>=◌, ◌>>◌, return, assert, lift, CbField, fld_src, bus, bus_, label}
use dma.Dma.Emit.{bus_rel_fld, emit, emit_strided, for_each}

-- The low bytes that select a table of HYPER.
abbrev pub hyper_add : ℕ
hyper_add = 0x04

abbrev pub hyper_sub : ℕ
hyper_sub = 0x08

abbrev pub hyper_and : ℕ
hyper_and = 0x0c

abbrev pub hyper_or : ℕ
hyper_or = 0x0d

abbrev pub hyper_xor : ℕ
hyper_xor = 0x0e

abbrev pub hyper_sll : ℕ
hyper_sll = 0x14

abbrev pub hyper_srl : ℕ
hyper_srl = 0x24

abbrev pub hyper_geu : ℕ
hyper_geu = 0x2c

abbrev pub hyper_equ : ℕ
hyper_equ = 0x2e

abbrev pub hyper_ges : ℕ
hyper_ges = 0x34

abbrev pub hyper_mul : ℕ
hyper_mul = 0x38

abbrev pub hyper_add_r : ℕ
hyper_add_r = 0x48

abbrev pub super_inc : ℕ
super_inc = 0x00

-- Two bytes of a table's entry while a carry is still wanted, one byte at the end.
abbrev pub entry_len : ℕ → ℕ → ℕ
entry_len i width = if ltb i (width - 1) then 2 else 1

-- The ARM address of HYPER or SUPER is the linker's choice. The assertion on the width is part of
-- each operation.
module _ (super : ℕ) where
  abbrev inc_step : ℕ → Busad → ℕ → Emission (Unit {0})
  inc_step width ret i = do
    here ← label
    entry ← lift (bus_ super (super_inc + 2))
    emit (bus_add ret i) entry (entry_len i width)
    if ltb i (width - 1)
        then (do dst ← bus_rel_fld here 2 fld_src 0; emit dst (bus_add ret (i + 1)) 1)
        else return tt

  -- `Inc`
  unfoldable pub inc : ℕ → Busad → Busad → Emission (Unit {0})
  inc width ret inp = do
    assert (not (width == 0))
    start ← label
    dst ← bus_rel_fld start 1 fld_src 1
    emit_strided dst inp width 1 63 0
    for_each width 0 (inc_step width ret)

module _ (hyper : ℕ) where
  abbrev pub carry_step : ℕ → Busad → ℕ → Emission (Unit {0})
  carry_step width ret i = do
    here ← label
    dst ← bus_rel_fld here 1 fld_src 0
    emit dst (bus_add ret i) 1
    table ← lift (bus hyper)
    emit (bus_add ret i) table (entry_len i width)

  -- The body that `Add` and `Sub` share but for the table.
  unfoldable pub with_carry : ℕ → ℕ → Busad → Busad → Busad → Emission (Unit {0})
  with_carry selector width ret lhs rhs = do
    assert (not (width == 0))
    start ← label
    low ← bus_rel_fld start 2 fld_src 1
    emit_strided low rhs width 1 63 0
    high ← bus_rel_fld start 2 fld_src 2
    emit_strided high lhs width 1 63 0
    entry ← lift (bus_ hyper selector)
    emit (bus_add ret 0) entry 2
    for_each (width - 1) 1 (carry_step width ret)

  -- `Add`
  abbrev pub add : ℕ → Busad → Busad → Busad → Emission (Unit {0})
  add = with_carry hyper_add

  -- `Sub`
  abbrev pub sub : ℕ → Busad → Busad → Busad → Emission (Unit {0})
  sub = with_carry hyper_sub
