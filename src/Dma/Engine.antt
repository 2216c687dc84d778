-- ===== src/Dma/Engine.antt =====
-- The DMA engine, which is hardware: what the BCM2835's documentation says of the two kinds of
-- transfer that the programs use, as an interface.
use dma.Base.{ℕ, zero, suc, ◌+◌, ◌-◌, ◌*◌, ◌/◌, ◌%◌, ◌^◌, ◌<◌, ◌≤◌, ◌≡◌, ◌&&◌, ◌==◌, ltb, leb}
use dma.Base.{ap, if◌then◌else◌, ◌⊎◌}
use dma.Dma.Cblk.{Cblk, Memory, cblk_at}
use dma.Dma.Emit.Laid.{linear, scatter}

-- `transfer` is what one control block does to the memory. With both addresses incremented it
-- copies bytes to a place apart; in 2D mode with one byte a row, each byte goes `step + 1` on.
pub record Engine : Type 0 where
  pub transfer : Cblk → Memory → Memory
  pub transfer-linear :
      (a dst src len : ℕ) (m : Memory) (x : ℕ)
      → len < 2 ^ 16
      → (src + len ≤ dst) ⊎ (dst + len ≤ src)
      → transfer (linear a dst src len) m x
        ≡ (if leb dst x && ltb x (dst + len) then m (src + (x - dst)) else m x)
  pub transfer-scatter :
      (a dst src rows step : ℕ) (m : Memory) (x : ℕ)
      → (1 ≤ rows) × (rows ≤ 0x4000) × (step < 2 ^ 15)
      → (src + rows ≤ dst) ⊎ (dst + rows * (step + 1) ≤ src)
      → transfer (scatter a dst src rows step) m x ≡ (
          if leb dst x && (ltb x (dst + rows * (step + 1)) && ((x - dst) % (step + 1) == 0))
          then m (src + (x - dst) / (step + 1))
          else m x)

module _ (e : Engine) where
  -- The engine loads a block, does its transfer and goes on to `next_cb`.
  unfoldable pub step : ℕ × Memory → ℕ × Memory
  step (a, m) = ((cblk_at m a).next_cb, e.transfer (cblk_at m a) m)

  -- After so many blocks.
  unfoldable pub run : ℕ → ℕ × Memory → ℕ × Memory
  run zero s = s
  run (suc n) s = step (run n s)

  pub step_lem :
      (a : ℕ) (m : Memory) (c : Cblk) → cblk_at m a ≡ c → step (a, m) ≡ (c.next_cb, e.transfer c m)
  unfolding step
  step_lem a m c h = ap (λ d. (d.next_cb, e.transfer d m)) h
