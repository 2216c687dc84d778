-- ===== src/Dma/Emit/Steps.antt =====
-- What the emitting operations do to context and memory, and emission in sequence.
use dma.Base.{ℕ, ◌+◌, ◌-◌, ◌*◌, ◌/◌, ◌%◌, ◌^◌, ◌<◌, ◌≤◌, ◌≡◌, refl, sym, ap, ◌∙◌, arith}
use dma.Base.{bit_or, u16, u32, List, [], ◌∷◌, ◌++◌, length}
use dma.Base.{length-append, Option, some, none, lt→leb, lt→ltb, eq→==, ap₂}
use dma.Base.Bits.{bit_or-zero}
use dma.Base.Bytes.{bit_or_disjoint}
use dma.Dma.Bus.{Busad, arm_to_bus, arm_to_bus-dram}
use dma.Dma.Cblk.{Cblk, store, cblk_bytes, stride, length_2d}
use dma.Dma.Emit.{EmitCtx, emit_with, emit, emit_strided, emit_strided_with, label, bus_rel_fld}
use dma.Dma.Emit.{fld_src, Emission, ◌>>=◌, ◌>>◌, claim, fill, lift, write_at}
use dma.Dma.Emit.Laid.{laid, Room, place, with_blocks, linear, scatter, laid-append}

-- A first part that succeeds.
pub then_step :
    {A B : Type 0} (m : Emission A) (k : A → Emission B) (ctx ctx' : EmitCtx) (a : A)
    → m ctx ≡ some (a, ctx')
    → (m >>= k) ctx ≡ k a ctx'
then_step {A} {B} m k ctx ctx' a e =
    ap (λ r. elim r as (λ _. Option (B × EmitCtx)) [ none ↦ none | some (x, c) ↦ k x c ]) e

pub lift_lem :
    {A : Type 0} (o : Option A) (a : A) (ctx : EmitCtx) → o ≡ some a → lift o ctx ≡ some (a, ctx)
lift_lem o a ctx e = ap (λ r. lift r ctx) e

pub label_lem : (ctx : EmitCtx) → ctx.p < 0x20000000 → label ctx ≡ some (place ctx, ctx)
label_lem ctx h = lift_lem (arm_to_bus ctx.p) (place ctx) ctx (arm_to_bus-dram ctx.p h)

claim_lem : (ctx : EmitCtx) → Room 1 ctx → claim ctx ≡ some (ctx.p, record ctx { p = ctx.p + 32 })
claim_lem ctx r = rw (lt→leb ctx.cap ((ctx.p - ctx.base) / 32) (omega arith)) refl

fill_lem :
    (cb flags dst src len step : ℕ) (ctx : EmitCtx)
    → cb < 0x20000000
    → ctx.p < 0x20000000
    → fill cb flags dst src len step ctx
      ≡ some (
        tt,
        record ctx {
          mem =
              store
                (cb + 0x40000000)
                (cblk_bytes (record {
                  ti = flags;
                  src_addr = src;
                  dst_addr = dst;
                  txfr_len = len;
                  stride_word = step;
                  next_cb = ctx.p + 0x40000000;
                }))
                ctx.mem;
        },
      )
fill_lem cb flags dst src len step ctx h k =
    then_step (lift (arm_to_bus cb)) (λ a. label >>= λ n. block a n) ctx ctx (cb + 0x40000000)
      (lift_lem (arm_to_bus cb) (cb + 0x40000000) ctx (arm_to_bus-dram cb h))
    ∙ then_step label (block (cb + 0x40000000)) ctx ctx (place ctx) (label_lem ctx k)
  where
    block : ℕ → ℕ → Emission (Unit {0})
    block a n = write_at a (
        cblk_bytes (record {
          ti = flags;
          src_addr = src;
          dst_addr = dst;
          txfr_len = len;
          stride_word = step;
          next_cb = n;
        }))

pub emit_lem :
    (dst src len : ℕ) (ctx : EmitCtx)
    → Room 1 ctx
    → emit dst src len ctx ≡ some (tt, with_blocks (linear (place ctx) dst src len ∷ []) ctx)
unfolding emit emit_with laid
emit_lem dst src len ctx r =
    then_step claim (λ cb. fill cb 0x110 dst src len 0) ctx (record ctx { p = ctx.p + 32 }) ctx.p
      (claim_lem ctx r)
    ∙ fill_lem ctx.p 0x110 dst src len 0 (record ctx { p = ctx.p + 32 }) (omega arith) (omega arith)
    ∙ ap
        (λ n. some (
          tt,
          record ctx {
            p = ctx.p + 32;
            mem =
                store (place ctx)
                  (cblk_bytes (record (linear (place ctx) dst src len) { next_cb = n })) ctx.mem;
          },
        ))
        (omega arith)

length_2d_lem :
    (rows : ℕ)
    → 1 ≤ rows
    → rows ≤ 0x4000
    → length_2d (u16 (rows + 0xffff)) 1 ≡ some ((rows - 1) * 2 ^ 16 + 1)
unfolding length_2d
length_2d_lem rows h k =
    ap (λ n. length_2d n 1) {y = rows - 1} (omega arith)
    ∙ rw (lt→ltb (rows - 1) 0x4000 (omega arith)) (
        ap some (
          ap (λ n. bit_or n 1) {y = (rows - 1) * 2 ^ 16} (omega arith)
          ∙ bit_or_disjoint 16 (rows - 1) 1 (omega arith)))

stride_lem : (d : ℕ) → d < 2 ^ 16 → stride d 0 ≡ d * 2 ^ 16
unfolding stride
stride_lem d h = bit_or-zero (u32 (d * 2 ^ 16)) ∙ omega arith

pub emit_strided_lem :
    (dst src rows d : ℕ) (ctx : EmitCtx)
    → Room 1 ctx
    → (1 ≤ rows) × (rows ≤ 0x4000) × (d < 2 ^ 16)
    → emit_strided dst src rows 1 d 0 ctx
      ≡ some (tt, with_blocks (scatter (place ctx) dst src rows d ∷ []) ctx)
unfolding emit_strided emit_strided_with laid
emit_strided_lem dst src rows d ctx r h =
    then_step claim
      (λ cb.
        lift (length_2d (u16 (rows + 0xffff)) 1) >>= λ len. fill cb 0x112 dst src len (stride d 0))
      ctx (record ctx { p = ctx.p + 32 }) ctx.p (claim_lem ctx r)
    ∙ then_step (lift (length_2d (u16 (rows + 0xffff)) 1))
        (λ len. fill ctx.p 0x112 dst src len (stride d 0)) (record ctx { p = ctx.p + 32 })
        (record ctx { p = ctx.p + 32 }) ((rows - 1) * 2 ^ 16 + 1)
        (lift_lem (length_2d (u16 (rows + 0xffff)) 1) ((rows - 1) * 2 ^ 16 + 1)
          (record ctx { p = ctx.p + 32 }) (length_2d_lem rows h.0 h.1))
    ∙ fill_lem ctx.p 0x112 dst src ((rows - 1) * 2 ^ 16 + 1) (stride d 0)
        (record ctx { p = ctx.p + 32 }) (omega arith) (omega arith)
    ∙ ap₂
        (λ n s. some (
          tt,
          record ctx {
            p = ctx.p + 32;
            mem =
                store (place ctx)
                  (cblk_bytes
                    (record (scatter (place ctx) dst src rows d) { next_cb = n; stride_word = s }))
                  ctx.mem;
          },
        ))
        (omega arith) (stride_lem d h.2)

pub bus_rel_fld_lem :
    (base cb o : ℕ) (ctx : EmitCtx)
    → (base % 32 ≡ 0) × (o < 4) × (base + cb * 32 + 8 < 2 ^ 32)
    → bus_rel_fld base cb fld_src o ctx ≡ some (base + cb * 32 + 4 + o, ctx)
unfolding bus_rel_fld
bus_rel_fld_lem base cb o ctx h =
    rw (eq→== (base % 32) 0 h.0, lt→ltb o 4 h.1) (ap (λ a. some (a, ctx)) (omega arith))

pub Room-with_blocks :
    (cs : List Cblk) (n : ℕ) (ctx : EmitCtx)
    → Room (length cs + n) ctx
    → Room n (with_blocks cs ctx)
Room-with_blocks cs n ctx r = (omega arith, omega arith, omega arith, omega arith)

pub append_blocks :
    (cs ds : List Cblk) (ctx : EmitCtx)
    → with_blocks ds (with_blocks cs ctx) ≡ with_blocks (cs ++ ds) ctx
append_blocks cs ds ctx =
    ap₂ (λ n m. record ctx { p = n; mem = m }) {x = ctx.p + 32 * length cs + 32 * length ds}
      {y = ctx.p + 32 * length (cs ++ ds)} (omega (arith, length-append cs ds))
      (ap (λ n. laid n ds (laid (place ctx) cs ctx.mem)) (omega arith)
        ∙ sym (laid-append (place ctx) cs ds ctx.mem))

pub in_sequence :
    (m k : Emission (Unit {0})) (cs ds : List Cblk) (ctx : EmitCtx)
    → m ctx ≡ some (tt, with_blocks cs ctx)
    → k (with_blocks cs ctx) ≡ some (tt, with_blocks ds (with_blocks cs ctx))
    → (m >> k) ctx ≡ some (tt, with_blocks (cs ++ ds) ctx)
in_sequence m k cs ds ctx e f =
    then_step m (λ _. k) ctx (with_blocks cs ctx) tt e
    ∙ f
    ∙ ap (λ c. some (tt, c)) (append_blocks cs ds ctx)

-- Questions that emit nothing.
module _ {A : Type 0} (ctx : EmitCtx) where
  pub after_label :
      (k : Busad → Emission A) → ctx.p < 0x20000000 → (label >>= k) ctx ≡ k (place ctx) ctx
  after_label k h = then_step label k ctx ctx (place ctx) (label_lem ctx h)

  pub after_bus :
      (a : ℕ) (k : Busad → Emission A)
      → a < 0x20000000
      → (lift (arm_to_bus a) >>= k) ctx ≡ k (a + 0x40000000) ctx
  after_bus a k h =
      then_step (lift (arm_to_bus a)) k ctx ctx (a + 0x40000000)
        (lift_lem (arm_to_bus a) (a + 0x40000000) ctx (arm_to_bus-dram a h))

  pub after_fld :
      (base cb o : ℕ) (k : Busad → Emission A)
      → (base % 32 ≡ 0) × (o < 4) × (base + cb * 32 + 8 < 2 ^ 32)
      → (bus_rel_fld base cb fld_src o >>= k) ctx ≡ k (base + cb * 32 + 4 + o) ctx
  after_fld base cb o k h =
      then_step (bus_rel_fld base cb fld_src o) k ctx ctx (base + cb * 32 + 4 + o)
        (bus_rel_fld_lem base cb o ctx h)
