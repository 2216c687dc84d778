-- ===== src/Dma/Arith/Bitwise.antt =====
-- The bitwise operations of dma/arith_bit.c: `Not`, `And`, `Or` and `Xor`.
use dma.Base.{ℕ, not, ◌==◌, ltb}
use dma.Dma.Arith.{hyper_and, hyper_or, hyper_xor}
use dma.Dma.Bus.{Busad, bus_add}
use dma.Dma.Emit.{Emission, ◌>>=◌, ◌>>◌, assert, lift, fld_src, bus, bus_, label}
use dma.Dma.Emit.{bus_rel_fld, emit, emit_strided, for_each}

-- `Not`, from the table at `not_table`
unfoldable pub not_bytes : ℕ → ℕ → Busad → Busad → Emission (Unit {0})
not_bytes not_table width ret inp = do
  assert (not (width == 0))
  assert (ltb width 16)
  start ← label
  dst ← bus_rel_fld start 1 fld_src 0
  emit_strided dst inp width 1 31 0
  for_each width 0 (λ i. do table ← lift (bus not_table); emit (bus_add ret i) table 1)

module _ (hyper : ℕ) where
  unfoldable pub bytewise : ℕ → ℕ → Busad → Busad → Busad → Emission (Unit {0})
  bytewise selector width ret lhs rhs = do
    start ← label
    low ← bus_rel_fld start 2 fld_src 1
    emit_strided low lhs width 1 31 0
    high ← bus_rel_fld start 2 fld_src 2
    emit_strided high rhs width 1 31 0
    for_each width 0 (λ i. do entry ← lift (bus_ hyper selector); emit (bus_add ret i) entry 1)

  -- `And`
  abbrev pub and : ℕ → Busad → Busad → Busad → Emission (Unit {0})
  and = bytewise hyper_and

  -- `Or`
  abbrev pub or : ℕ → Busad → Busad → Busad → Emission (Unit {0})
  or = bytewise hyper_or

  -- `Xor`
  abbrev pub xor : ℕ → Busad → Busad → Busad → Emission (Unit {0})
  xor = bytewise hyper_xor
