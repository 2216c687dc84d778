-- ===== src/Dma/Emit.antt =====
-- Emission of control blocks, dma/emit.h: an `emit_ctx` together with the memory that its pointers
-- reach. A panic or a failed `assert` is `none`.
pub mod Layout
pub mod Laid
pub mod Steps
pub mod Align
use dma.Base.{ℕ, zero, suc, ◌+◌, ◌-◌, ◌*◌, ◌/◌, ◌%◌, ◌^◌, u16, u32, sub32}
use dma.Base.{bit_and, bit_or, Bool, true, false, not, ◌&&◌, Option, none, some, ltb, leb, ◌==◌}
use dma.Base.{if◌then◌else◌, List, [], ◌∷◌}
use dma.Dma.Bus.{Busad, arm_to_bus, bus_add, bus_eq, bus_null}
use dma.Dma.Cblk.{Cblk, cblk_size, ti_2dmode, ti_dst_inc, ti_src_inc, stride, length_2d}
use dma.Dma.Cblk.{Memory, cblk_bytes, word_bytes, store}

-- `emit_ctx`; the pointers are ARM addresses, the memory goes by bus address.
pub record EmitCtx : Type 0 where
  pub base : ℕ
  pub p : ℕ
  pub cap : ℕ
  pub mem : Memory

-- Emission that may panic.
abbrev pub Emission : Type 0 → Type 0
Emission A = EmitCtx → Option (A × EmitCtx)

infixl 5 ◌>>=◌ ◌>>◌
abbrev pub ◌>>=◌ : {A B : Type 0} → Emission A → (A → Emission B) → Emission B
◌>>=◌ m k ctx = elim (m ctx) [ none ↦ none | some (a, ctx') ↦ k a ctx' ]

abbrev pub ◌>>◌ : {B : Type 0} → Emission (Unit {0}) → Emission B → Emission B
m >> k = m >>= λ _. k

abbrev pub return : {A : Type 0} → A → Emission A
return a ctx = some (a, ctx)

abbrev pub assert : Bool → Emission (Unit {0})
assert c ctx = if c then some (tt, ctx) else none

abbrev pub lift : {A : Type 0} → Option A → Emission A
lift none ctx = none
lift (some a) ctx = some (a, ctx)

-- `enum cb_field`
pub data CbField : Type 0 where
  fld_src fld_dst fld_len fld_nxt : CbField

abbrev pub cb_field_offset : CbField → ℕ
cb_field_offset fld_src = 4
cb_field_offset fld_dst = 8
cb_field_offset fld_len = 12
cb_field_offset fld_nxt = 20

-- `bus_`: `ptr + byte_offset` on 32 bits.
abbrev pub bus_ : ℕ → ℕ → Option Busad
bus_ ptr byte_offset = arm_to_bus (u32 (ptr + byte_offset))

abbrev pub bus : ℕ → Option Busad
bus ptr = arm_to_bus ptr

-- The offset counts control blocks, as a 32-bit word.
abbrev pub bus_rel_cb : Busad → ℕ → Busad
bus_rel_cb base cb_offset = bus_add base (u32 (cb_offset * cblk_size))

unfoldable pub bus_rel_fld : Busad → ℕ → CbField → ℕ → Emission Busad
bus_rel_fld base cb_offset field offset_in_field = do
  assert (base % 32 == 0)
  assert (ltb offset_in_field 4)
  return (bus_add base (u32 (cb_offset * cblk_size + cb_field_offset field + offset_in_field)))

abbrev pub here : Emission ℕ
here ctx = some (ctx.p, ctx)

abbrev pub last : Emission ℕ
last ctx = if ltb ctx.base ctx.p then some (ctx.p - cblk_size, ctx) else none

abbrev pub label : Emission Busad
label ctx = lift (bus ctx.p) ctx

abbrev pub at : Busad → Emission Bool
at b = do l ← label; return (bus_eq l b)

abbrev pub write_at : Busad → List ℕ → Emission (Unit {0})
write_at a bs ctx = some (tt, record ctx { mem = store a bs ctx.mem })

-- `Last(ctx)->next_cb = label`
unfoldable pub branch : Busad → Emission (Unit {0})
branch target = do
  l ← last
  a ← lift (bus l)
  write_at (a + cb_field_offset fld_nxt) (word_bytes target)

unfoldable pub end : Emission (Unit {0})
end = branch bus_null

-- The room that is left, and the step to the next block: `cb = ctx->p++`.
abbrev pub claim : Emission ℕ
claim ctx =
    if leb ctx.cap ((ctx.p - ctx.base) / cblk_size)
    then none
    else some (ctx.p, record ctx { p = ctx.p + cblk_size })

-- The whole block is written, its `next_cb` the block that comes after it.
abbrev pub fill : ℕ → ℕ → Busad → Busad → ℕ → ℕ → Emission (Unit {0})
fill cb flags dst src len step = do
  a ← lift (bus cb)
  next ← label
  write_at a (
      cblk_bytes (record {
        ti = flags;
        src_addr = src;
        dst_addr = dst;
        txfr_len = len;
        stride_word = step;
        next_cb = next;
      }))

-- A loop of `k` rounds, its counter from `i` on.
unfoldable pub for_each : ℕ → ℕ → (ℕ → Emission (Unit {0})) → Emission (Unit {0})
for_each zero i body = return tt
for_each (suc k) i body = do body i; for_each k (suc i) body

-- `EmitStridedWith`; rows, columns and strides are `uint16_t`.
unfoldable pub emit_strided_with : ℕ → Busad → Busad → ℕ → ℕ → ℕ → ℕ → Emission (Unit {0})
emit_strided_with flags dst src rows cols dst_stride src_stride = do
  cb ← claim
  assert (not (bit_and flags ti_2dmode == 0))
  len ← lift (length_2d (u16 (rows + 0xffff)) cols)
  fill cb flags dst src len (stride dst_stride src_stride)

unfoldable pub emit_strided : Busad → Busad → ℕ → ℕ → ℕ → ℕ → Emission (Unit {0})
emit_strided dst src rows cols dst_stride src_stride =
    emit_strided_with (bit_or (bit_or ti_dst_inc ti_src_inc) ti_2dmode) dst src rows cols dst_stride
      src_stride

unfoldable pub emit_with : ℕ → Busad → Busad → ℕ → Emission (Unit {0})
emit_with flags dst src len = do cb ← claim; fill cb flags dst src len 0

unfoldable pub emit : Busad → Busad → ℕ → Emission (Unit {0})
emit dst src len = emit_with (bit_or ti_dst_inc ti_src_inc) dst src len

-- `SkipToAlign`: the alignment is a power of two of at least a block.
unfoldable pub skip_to_align : ℕ → Bool → Emission (Unit {0})
skip_to_align align update_last ctx =
    let next_aligned = bit_and (u32 (ctx.p + (align - 1))) (2 ^ 32 - align) in
    let new_p = u32 (ctx.p + sub32 next_aligned ctx.p / cblk_size * cblk_size) in
    (do
      assert (leb cblk_size align)
      assert (align % cblk_size == 0)
      assert (bit_and align (align - 1) == 0)
      assert (ltb ((new_p - ctx.base) / cblk_size) ctx.cap)
      if update_last then (do a ← lift (bus new_p); branch a) else return tt
      (λ c. some (tt, record c { p = new_p })))
      ctx
