-- ===== src/Dma/Arith/Shift.antt =====
-- The shifts of dma/arith_sxx.c. The buffers that `MonomorphizeOn` keeps for a width are given as
-- their addresses.
use dma.Base.{ℕ, ◌-◌, bit_or, ltb, leb}
use dma.Dma.Bus.{Busad, bus_add}
use dma.Dma.Cblk.{ti_2dmode, ti_dst_inc}
use dma.Dma.Emit.{Emission, ◌>>=◌, ◌>>◌, assert, lift, fld_src, bus, bus_, label}
use dma.Dma.Emit.{bus_rel_fld, emit, emit_with, emit_strided, emit_strided_with, for_each}

-- The tables' addresses.
pub record ShiftTables : Type 0 where
  pub hyper : ℕ
  pub zero_bytes : ℕ
  pub sll_hyper_select : ℕ
  pub srl_hyper_select : ℕ
  pub sext_which : ℕ
  pub sext_bufs : ℕ
  pub sra_hi : ℕ

-- The `uint16_t` -1.
abbrev minus_one : ℕ
minus_one = 0xffff

module _ (t : ShiftTables) where
  abbrev from_hyper : Busad → ℕ → Emission (Unit {0})
  from_hyper ret i = do table ← lift (bus t.hyper); emit (bus_add ret i) table 1

  -- `Sll8`
  unfoldable pub sll8 : ℕ → Busad → Busad → Busad → Emission (Unit {0})
  sll8 width ret inp shf8 = do
    assert (leb 2 width)
    start ← label
    pairs ← bus_rel_fld start 5 fld_src 1
    emit_strided pairs inp (width - 1) 2 30 minus_one
    shift ← bus_rel_fld start 2 fld_src 0
    emit shift shf8 1
    selectors ← bus_rel_fld start 4 fld_src 0
    select ← lift (bus t.sll_hyper_select)
    emit_strided_with (bit_or ti_dst_inc ti_2dmode) selectors select width 1 31 0
    lowest ← bus_rel_fld start 4 fld_src 2
    emit lowest inp 1
    from_hyper ret 0
    for_each (width - 1) 1 (from_hyper ret)

  -- `Srl8`
  unfoldable pub srl8 : ℕ → Busad → Busad → Busad → Emission (Unit {0})
  srl8 width ret inp shf8 = do
    assert (leb 2 width)
    start ← label
    pairs ← bus_rel_fld start 5 fld_src 1
    emit_strided pairs inp (width - 1) 2 30 minus_one
    shift ← bus_rel_fld start 2 fld_src 0
    emit shift shf8 1
    selectors ← bus_rel_fld start 4 fld_src 0
    select ← lift (bus t.srl_hyper_select)
    emit_strided_with (bit_or ti_dst_inc ti_2dmode) selectors select width 1 31 0
    highest ← bus_rel_fld start 4 fld_src 1
    emit highest (bus_add inp (width - 1)) 1
    from_hyper ret (width - 1)
    for_each (width - 1) 0 (from_hyper ret)

  -- `Sra8`
  unfoldable pub sra8 : ℕ → Busad → Busad → Busad → Emission (Unit {0})
  sra8 width ret inp shf8 = do
    assert (leb 2 width)
    start ← label
    pairs ← bus_rel_fld start 5 fld_src 1
    emit_strided pairs inp (width - 1) 2 30 minus_one
    shifts ← bus_rel_fld start 2 fld_src 0
    emit_strided_with (bit_or ti_dst_inc ti_2dmode) shifts shf8 2 1 63 0
    selectors ← bus_rel_fld start 5 fld_src 0
    select ← lift (bus t.srl_hyper_select)
    emit_strided_with (bit_or ti_dst_inc ti_2dmode) selectors select (width - 1) 1 31 0
    highest ← bus_rel_fld start 4 fld_src 1
    emit highest (bus_add inp (width - 1)) 1
    sign ← lift (bus t.sra_hi)
    emit (bus_add ret (width - 1)) sign 1
    for_each (width - 1) 0 (from_hyper ret)

  -- The end of `Sll`, `Srl` and `Sra`: the whole bytes of the shift pick where in `tmp` to read.
  abbrev pick : ℕ → ℕ → ℕ → Busad → Busad → Emission (Unit {0})
  pick shift_select tmp width ret shf8 = do
    start ← label
    first ← bus_rel_fld start 1 fld_src 0
    emit first shf8 1
    second ← bus_rel_fld start 2 fld_src 0
    select ← lift (bus shift_select)
    emit second select 1
    from_tmp ← lift (bus tmp)
    emit ret from_tmp width

  module _ (shift_select tmp : ℕ) where
    -- `Sll`
    unfoldable pub sll : ℕ → Busad → Busad → Busad → Emission (Unit {0})
    sll width ret inp shf8 = do
      assert (ltb width 128)
      low ← lift (bus tmp)
      zeros ← lift (bus t.zero_bytes)
      emit low zeros width
      high ← lift (bus_ tmp width)
      sll8 width high inp shf8
      pick shift_select tmp width ret shf8

    -- `Srl`
    unfoldable pub srl : ℕ → Busad → Busad → Busad → Emission (Unit {0})
    srl width ret inp shf8 = do
      assert (ltb width 128)
      low ← lift (bus tmp)
      zeros ← lift (bus t.zero_bytes)
      emit low zeros width
      whole ← lift (bus_ tmp 0)
      srl8 width whole inp shf8
      pick shift_select tmp width ret shf8

    -- `Sra`
    unfoldable pub sra : ℕ → Busad → Busad → Busad → Emission (Unit {0})
    sra width ret inp shf8 = do
      assert (ltb width 128)
      start ← label
      first ← bus_rel_fld start 1 fld_src 0
      emit first (bus_add inp (width - 1)) 1
      second ← bus_rel_fld start 2 fld_src 0
      which ← lift (bus t.sext_which)
      emit second which 1
      high ← lift (bus_ tmp width)
      bufs ← lift (bus t.sext_bufs)
      emit_with ti_dst_inc high bufs width
      whole ← lift (bus tmp)
      sra8 width whole inp shf8
      pick shift_select tmp width ret shf8
