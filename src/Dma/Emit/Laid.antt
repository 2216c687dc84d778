-- ===== src/Dma/Emit/Laid.antt =====
-- What emission does to the memory: the blocks stand one after the other from the label on.
use dma.Base.{ℕ, zero, suc, ◌+◌, ◌-◌, ◌*◌, ◌/◌, ◌%◌, ◌^◌, ◌<◌, ◌≤◌, ◌≡◌, refl, sym, ap, ◌∙◌, arith}
use dma.Base.{◌⊎◌, inl, List, [], ◌∷◌, ◌++◌, length}
use dma.Base.{Option, some, get_elem?, get_or}
use dma.Dma.Bus.{Busad}
use dma.Dma.Cblk.{Cblk, Memory, store, cblk_bytes, cblk_at}
use dma.Dma.Emit.{EmitCtx}
use dma.Dma.Emit.Layout.{store-outside, store-inside, IsCblk, cblk_at-store, cblk_at-same}
use mathlib.Core.Path.{subst}

unfoldable pub laid : ℕ → List Cblk → Memory → Memory
laid a [] m = m
laid a (c ∷ cs) m = laid (a + 32) cs (store a (cblk_bytes c) m)

-- There is room for `n` more blocks, all in DRAM, and the next one is aligned.
abbrev pub Room : ℕ → EmitCtx → Type 0
Room n ctx =
    (ctx.p % 32 ≡ 0)
    × (ctx.base ≤ ctx.p)
    × ((ctx.p - ctx.base) / 32 + n ≤ ctx.cap)
    × (ctx.p + 32 * n < 0x20000000)

-- The bus address of the next block.
abbrev pub place : EmitCtx → ℕ
place ctx = ctx.p + 0x40000000

abbrev pub with_blocks : List Cblk → EmitCtx → EmitCtx
with_blocks cs ctx = record ctx { p = ctx.p + 32 * length cs; mem = laid (place ctx) cs ctx.mem }

-- A block of `Emit`, at a bus address.
abbrev pub linear : ℕ → Busad → Busad → ℕ → Cblk
linear a dst src len = record {
  ti = 0x110;
  src_addr = src;
  dst_addr = dst;
  txfr_len = len;
  stride_word = 0;
  next_cb = a + 32;
}

-- A block of `EmitStrided` with rows of one byte.
abbrev pub scatter : ℕ → Busad → Busad → ℕ → ℕ → Cblk
scatter a dst src rows step = record {
  ti = 0x112;
  src_addr = src;
  dst_addr = dst;
  txfr_len = (rows - 1) * 2 ^ 16 + 1;
  stride_word = step * 2 ^ 16;
  next_cb = a + 32;
}

-- Emission in two parts.
pub laid-append :
    (a : ℕ) (cs ds : List Cblk) (m : Memory)
    → laid a (cs ++ ds) m ≡ laid (a + 32 * length cs) ds (laid a cs m)
unfolding laid
laid-append a [] ds m = ap (λ n. laid n ds m) {x = a} {y = a + 32 * 0} (omega arith)
laid-append a (c ∷ cs) ds m =
    laid-append (a + 32) cs ds (store a (cblk_bytes c) m)
    ∙ ap (λ n. laid n ds (laid (a + 32) cs (store a (cblk_bytes c) m)))
        {x = a + 32 + 32 * length cs} {y = a + 32 * suc (length cs)} (omega arith)

pub laid-outside :
    (a : ℕ) (cs : List Cblk) (m : Memory) (x : ℕ)
    → (x < a) ⊎ (a + 32 * length cs ≤ x)
    → laid a cs m x ≡ m x
unfolding laid
laid-outside a [] m x h = refl
laid-outside a (c ∷ cs) m x h =
    laid-outside (a + 32) cs (store a (cblk_bytes c) m) x (ground arith)
    ∙ store-outside a (cblk_bytes c) m x (ground arith)

same_block : (d c : Cblk) → Path (Option Cblk) (some d) (some c) → d ≡ c
same_block d c e = cc

-- The block at an index.
pub cblk_at-laid :
    (a : ℕ) (cs : List Cblk) (m : Memory) (k : ℕ) (c : Cblk)
    → get_elem? cs k ≡ some c
    → IsCblk c
    → cblk_at (laid a cs m) (a + 32 * k) ≡ c
unfolding laid
cblk_at-laid a [] m k c e h = absurd (cc)
cblk_at-laid a (d ∷ cs) m zero c e h =
    ap (cblk_at (laid (a + 32) cs (store a (cblk_bytes d) m))) {y = a} (omega arith)
    ∙ cblk_at-same a (laid (a + 32) cs (store a (cblk_bytes d) m)) (store a (cblk_bytes d) m)
        (λ x k l. laid-outside (a + 32) cs (store a (cblk_bytes d) m) x (inl (omega arith)))
    ∙ cblk_at-store a d m (subst IsCblk (sym (same_block d c e)) h)
    ∙ same_block d c e
cblk_at-laid a (d ∷ cs) m (suc k) c e h =
    ap (cblk_at (laid (a + 32) cs (store a (cblk_bytes d) m))) {y = a + 32 + 32 * k} (omega arith)
    ∙ cblk_at-laid (a + 32) cs (store a (cblk_bytes d) m) k c e h

-- The bytes of the block at an index.
pub laid-byte :
    (a : ℕ) (cs : List Cblk) (m : Memory) (k o : ℕ) (c : Cblk)
    → get_elem? cs k ≡ some c
    → o < 32
    → laid a cs m (a + 32 * k + o) ≡ get_or (cblk_bytes c) o 0
unfolding laid
laid-byte a [] m k o c e h = absurd (cc)
laid-byte a (d ∷ cs) m zero o c e h =
    laid-outside (a + 32) cs (store a (cblk_bytes d) m) (a + 32 * 0 + o) (inl (omega arith))
    ∙ store-inside a (cblk_bytes d) m (a + 32 * 0 + o) o (omega arith) h
    ∙ ap (λ x. get_or (cblk_bytes x) o 0) (same_block d c e)
laid-byte a (d ∷ cs) m (suc k) o c e h =
    ap (laid (a + 32) cs (store a (cblk_bytes d) m)) {y = a + 32 + 32 * k + o} (omega arith)
    ∙ laid-byte (a + 32) cs (store a (cblk_bytes d) m) k o c e h
