-- ===== src/Dma/Arith/Compare.antt =====
-- The comparisons of dma/arith_cmp.c and dma/arith.h: `Geu`, `Equ`, `Ges` and their negations.
pub mod Program
pub mod Setting
pub mod Run
pub mod Answer
pub mod Result
use dma.Base.{ℕ, ◌+◌, ◌-◌, ◌^◌, bit_and, bit_xor, not, ◌==◌, if◌then◌else◌}
use dma.Dma.Arith.{hyper_geu, hyper_equ, hyper_ges}
use dma.Dma.Bus.{Busad, bus_add}
use dma.Dma.Emit.{Emission, ◌>>=◌, ◌>>◌, assert, lift, fld_src, bus, bus_, label, branch}
use dma.Dma.Emit.{bus_rel_cb, bus_rel_fld, emit, emit_strided, for_each}

abbrev pub icf_x4 : ℕ
icf_x4 = 1

abbrev pub icf_inv : ℕ
icf_inv = 2

-- The addresses of HYPER and of the four truth tables.
pub record TruthTables : Type 0 where
  pub hyper : ℕ
  pub polar_x1 : ℕ
  pub antipolar_x1 : ℕ
  pub polar_x4 : ℕ
  pub antipolar_x4 : ℕ

unfoldable pub truth_table : TruthTables → ℕ → ℕ
truth_table t flags =
    if bit_and flags icf_x4 == 0
    then (if bit_and flags icf_inv == 0 then t.polar_x1 else t.antipolar_x1)
    else (if bit_and flags icf_inv == 0 then t.polar_x4 else t.antipolar_x4)

module _ (t : TruthTables) where
  -- `Geu` and `Equ`, each with its own first entry.
  unfoldable pub compare_up : ℕ → ℕ → Busad → Busad → Busad → ℕ → Emission (Unit {0})
  compare_up selector width ret8 lhs rhs flags = do
    assert (not (width == 0))
    start ← label
    low ← bus_rel_fld start 2 fld_src 1
    emit_strided low rhs width 1 31 0
    high ← bus_rel_fld start 2 fld_src 2
    emit_strided high lhs width 1 31 0
    for_each width 0 (λ i. do
      here ← label
      dst ← bus_rel_fld here 1 fld_src 0
      entry ← lift (bus_ t.hyper selector)
      emit dst entry 1)
    table ← lift (bus (truth_table t flags))
    emit ret8 table 1

  abbrev pub geu : ℕ → Busad → Busad → Busad → ℕ → Emission (Unit {0})
  geu = compare_up hyper_geu

  abbrev pub ltu : ℕ → Busad → Busad → Busad → ℕ → Emission (Unit {0})
  ltu width ret8 lhs rhs flags = geu width ret8 lhs rhs (bit_xor flags icf_inv)

  abbrev pub equ : ℕ → Busad → Busad → Busad → ℕ → Emission (Unit {0})
  equ = compare_up (hyper_equ + 1)

  abbrev pub neq : ℕ → Busad → Busad → Busad → ℕ → Emission (Unit {0})
  neq width ret8 lhs rhs flags = equ width ret8 lhs rhs (bit_xor flags icf_inv)

  -- One round of `Ges`: the blocks run from the highest byte down, then the lookup of the result;
  -- -1 is the word 2 ^ 32 - 1.
  abbrev ges_step : ℕ → ℕ → Emission (Unit {0})
  ges_step width i =
      let next = (if i == 0 then width else 2 ^ 32 - 1) in
      do
        here ← label
        dst ← bus_rel_fld here next fld_src 0
        entry ← lift (bus_ t.hyper hyper_ges)
        emit dst entry 1
        branch (bus_rel_cb here next)

  -- `Ges`
  unfoldable pub ges : ℕ → Busad → Busad → Busad → ℕ → Emission (Unit {0})
  ges width ret8 lhs rhs flags = do
    assert (not (width == 0))
    start ← label
    low ← bus_rel_fld start 2 fld_src 1
    emit_strided low (bus_add rhs 0) width 1 31 0
    high ← bus_rel_fld start 2 fld_src 2
    emit_strided high (bus_add lhs 0) width 1 31 0
    branch (bus_rel_cb start (width + 1))
    for_each width 0 (ges_step width)
    table ← lift (bus (truth_table t flags))
    emit ret8 table 1

  abbrev pub lts : ℕ → Busad → Busad → Busad → ℕ → Emission (Unit {0})
  lts width ret8 lhs rhs flags = ges width ret8 lhs rhs (bit_xor flags icf_inv)
