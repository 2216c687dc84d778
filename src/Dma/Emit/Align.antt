-- ===== src/Dma/Emit/Align.antt =====
-- `SkipToAlign` moves on to an aligned block.
use dma.Base.{ℕ, ◌+◌, ◌-◌, ◌*◌, ◌/◌, ◌%◌, ◌^◌, ◌<◌, ◌≤◌, ◌≡◌, refl, ap, ap₂, ◌∙◌, arith, u32, sub32}
use dma.Base.{
  suc, pow-suc, one-le-pow, Bool, false, bit_and, true, ltb, leb, ◌==◌, if◌then◌else◌, some, none,
  le→leb, lt→ltb, eq→==,
}
use dma.Dma.Arena.Fresh.{up, up_lem, power_lem, small_power}
use dma.Dma.Bus.{arm_to_bus}
use dma.Dma.Cblk.{store, word_bytes}
use dma.Dma.Emit.{
  EmitCtx, Emission, ◌>>=◌, ◌>>◌, assert, lift, last, write_at, branch, skip_to_align,
}
use dma.Dma.Emit.Steps.{then_step, after_bus}
use dma.Base.Bytes.{bit_and_high}
use native.Mathlib.Nat.{mul_assoc, mul-mod_right, mod-add-div}

-- The least aligned block from the context's next one on.
abbrev pub aligned : ℕ → EmitCtx → ℕ
aligned k ctx = up ctx.p k

-- An alignment of `2 ^ k` bytes, at least a block's.
abbrev pub Alignable : ℕ → EmitCtx → Type 0
Alignable k ctx =
    ((5 ≤ k) × (k ≤ 29)) × (ctx.p % 32 ≡ 0) × (ctx.base < ctx.p) × (aligned k ctx < 0x20000000)

next_aligned :
    (p k : ℕ)
    → p < 0x20000000
    → (5 ≤ k) × (k ≤ 29)
    → bit_and (u32 (p + (2 ^ k - 1))) (2 ^ 32 - 2 ^ k) ≡ up p k
next_aligned p k b h =
    ap₂ bit_and {y = p + (2 ^ k - 1)} {v = 2 ^ (k + (32 - k)) - 2 ^ k}
      (omega (arith, small_power k (omega arith))) (omega (arith, whole))
    ∙ bit_and_high k (32 - k) (p + (2 ^ k - 1)) (omega (arith, small_power k (omega arith), whole))
  where
    whole : 2 ^ (k + (32 - k)) ≡ 2 ^ 32
    whole = ap (λ (n : ℕ). 2 ^ n) {x = k + (32 - k)} {y = 32} (omega arith)

branch_lem :
    (target : ℕ) (ctx : EmitCtx)
    → ctx.base < ctx.p
    → 32 ≤ ctx.p
    → ctx.p < 0x20000000
    → branch target ctx
      ≡ some (
        tt,
        record ctx { mem = store (ctx.p - 32 + 0x40000000 + 20) (word_bytes target) ctx.mem },
      )
unfolding branch
branch_lem target ctx h l b =
    then_step last rest ctx ctx (ctx.p - 32) (rw (lt→ltb ctx.base ctx.p h) refl)
    ∙ after_bus ctx (ctx.p - 32) (λ a. write_at (a + 20) (word_bytes target)) (omega arith)
  where
    rest : ℕ → Emission (Unit {0})
    rest l = lift (arm_to_bus l) >>= λ a. write_at (a + 20) (word_bytes target)

pow_five : (n : ℕ) → 2 ^ (5 + n) ≡ 32 * 2 ^ n
pow_five n =
    ap (λ (t : ℕ). 2 ^ t) {x = 5 + n} {y = suc (suc (suc (suc (suc n))))} (omega arith)
    ∙ omega (
      arith,
      pow-suc 2 n,
      pow-suc 2 (suc n),
      pow-suc 2 (suc (suc n)),
      pow-suc 2 (suc (suc (suc n))),
      pow-suc 2 (suc (suc (suc (suc n)))),
    )

divided : (k : ℕ) → 5 ≤ k → (2 ^ k ≡ 32 * 2 ^ (k - 5)) × (2 ^ k % 32 ≡ 0)
divided k h = (whole, ap (λ (n : ℕ). n % 32) whole ∙ mul-mod_right 32 (2 ^ (k - 5)))
  where
    whole : 2 ^ k ≡ 32 * 2 ^ (k - 5)
    whole = ap (λ (n : ℕ). 2 ^ n) {x = k} {y = 5 + (k - 5)} (omega arith) ∙ pow_five (k - 5)

new_place :
    (k : ℕ) (ctx : EmitCtx)
    → Alignable k ctx
    → u32 (ctx.p + sub32 (bit_and (u32 (ctx.p + (2 ^ k - 1))) (2 ^ 32 - 2 ^ k)) ctx.p / 32 * 32)
      ≡ aligned k ctx
new_place k ctx h =
    omega (
      arith,
      next_aligned ctx.p k (omega (arith, up_lem ctx.p k)) h.0,
      up_lem ctx.p k,
      whole_blocks,
    )
  where
    multiple : up ctx.p k ≡ 2 ^ k * ((ctx.p + (2 ^ k - 1)) / 2 ^ k)
    multiple = omega (arith, mod-add-div (ctx.p + (2 ^ k - 1)) (2 ^ k))

    whole_blocks : up ctx.p k % 32 ≡ 0
    whole_blocks =
        ap (λ (n : ℕ). n % 32)
          (multiple
            ∙ ap (λ (t : ℕ). t * ((ctx.p + (2 ^ k - 1)) / 2 ^ k)) (divided k h.0.0).0
            ∙ mul_assoc 32 (2 ^ (k - 5)) ((ctx.p + (2 ^ k - 1)) / 2 ^ k))
        ∙ mul-mod_right 32 (2 ^ (k - 5) * ((ctx.p + (2 ^ k - 1)) / 2 ^ k))

-- If the alignment is `2 ^ k` bytes with `5 ≤ k ≤ 29` (at least a block), something was emitted
-- before, the next block is aligned to 32 bytes and the aligned place is in DRAM: `SkipToAlign`, told
-- to update the last block, panics exactly if the aligned place is not below the limit of blocks,
-- and otherwise goes on there. The place is the least aligned one, and the block that was emitted
-- last has it as its next block.
pub skip_to_align_lem :
    (k : ℕ) (ctx : EmitCtx)
    → Alignable k ctx
    → (skip_to_align (2 ^ k) true ctx ≡ (
        if ltb ((aligned k ctx - ctx.base) / 32) ctx.cap
        then some (
          tt,
          record ctx {
            p = aligned k ctx;
            mem =
                store
                  (ctx.p - 32 + 0x40000000 + 20)
                  (word_bytes (aligned k ctx + 0x40000000))
                  ctx.mem;
          },
        )
        else none))
      × ((ctx.p ≤ aligned k ctx) × (aligned k ctx < ctx.p + 2 ^ k) × (aligned k ctx % 2 ^ k ≡ 0))
unfolding skip_to_align
skip_to_align_lem k ctx h = (
  ap (λ np. onward np ctx) {y = aligned k ctx} (new_place k ctx h)
      ∙ then_step (assert (leb 32 (2 ^ k))) (λ _. second (aligned k ctx)) ctx ctx tt
          (ap (λ b. assert b ctx)
            (le→leb 32 (2 ^ k)
              (omega (arith, divided k h.0.0, one-le-pow (k - 5) 2 (omega arith)))))
      ∙ then_step (assert (2 ^ k % 32 == 0)) (λ _. third (aligned k ctx)) ctx ctx tt
          (ap (λ b. assert b ctx) (eq→== (2 ^ k % 32) 0 (divided k h.0.0).1))
      ∙ then_step (assert (bit_and (2 ^ k) (2 ^ k - 1) == 0)) (λ _. fourth (aligned k ctx)) ctx ctx
          tt
          (ap (λ b. assert b ctx)
            (ap (λ m. bit_and (2 ^ k) m == 0) {x = 2 ^ k - 1} {y = sub32 (2 ^ k) 1}
                (omega (arith, small_power k (omega arith)))
              ∙ power_lem k (omega arith)))
      ∙ chosen (ltb ((aligned k ctx - ctx.base) / 32) ctx.cap),
  up_lem ctx.p k,
)
  where
    told : EmitCtx
    told = record ctx {
      mem = store (ctx.p - 32 + 0x40000000 + 20) (word_bytes (aligned k ctx + 0x40000000)) ctx.mem;
    }

    chosen :
        (b : Bool)
        → (assert b
              >> ((lift (arm_to_bus (aligned k ctx)) >>= branch)
                  >> (λ c. some (tt, record c { p = aligned k ctx }))))
            ctx
          ≡ (if b then some (tt, record told { p = aligned k ctx }) else none)
    chosen false = refl
    chosen true =
        then_step (lift (arm_to_bus (aligned k ctx)) >>= branch)
          (λ _ c. some (tt, record c { p = aligned k ctx })) ctx told tt
          (after_bus ctx (aligned k ctx) branch (omega arith)
            ∙ branch_lem (aligned k ctx + 0x40000000) ctx (omega arith) (omega arith)
                (omega (arith, up_lem ctx.p k)))

    fourth : ℕ → Emission (Unit {0})
    fourth np = do
      assert (ltb ((np - ctx.base) / 32) ctx.cap)
      do a ← lift (arm_to_bus np); branch a
      (λ c. some (tt, record c { p = np }))

    third : ℕ → Emission (Unit {0})
    third np = assert (bit_and (2 ^ k) (2 ^ k - 1) == 0) >> fourth np

    second : ℕ → Emission (Unit {0})
    second np = assert (2 ^ k % 32 == 0) >> third np

    onward : ℕ → Emission (Unit {0})
    onward np = assert (leb 32 (2 ^ k)) >> second np
