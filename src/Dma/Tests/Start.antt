-- ===== src/Dma/Tests/Start.antt =====
-- The start of the DMA kit, with the firmware of a board where channels 0, 2, 4, 5 and 8 to 14 are free.
use dma.Base.{◌+◌, ◌^◌, ◌<◌, ◌≡◌, ◌≢◌, refl, arith, true, false, some, [], ◌∷◌, bit_and}
use dma.Board.Ptags.{Firmware}
use dma.Dma.{
  Reservations, reserve, dmakit_init_channels, dmakit_channel_acquire, free_channel,
  dmakit_channel_is_lite,
}
use dma.Dma.Boot.{boot_channels, boot_channels-acquire}

abbrev firmware : Firmware
firmware w request = (w, 28 ∷ (2 ^ 31) ∷ 0x60001 ∷ 4 ∷ (2 ^ 31 + 4) ∷ 0x7f35 ∷ 0 ∷ [])

abbrev started : Reservations
started = reserve (dmakit_init_channels 0x7f35) 0 (some 5)

first_channel : dmakit_channel_acquire (dmakit_init_channels 0x7f35) false 5 ≡ some (0, started)
unfolding dmakit_channel_acquire free_channel dmakit_channel_is_lite dmakit_init_channels
first_channel = refl

boot_channels-acquire_example :
    (boot_channels firmware 0x8000 false ≡ some (dmakit_init_channels 0x7f35, true))
    × (0 < 16)
    × (bit_and 0x7f35 (2 ^ 0) ≢ 0)
boot_channels-acquire_example =
    boot_channels-acquire firmware 0x8000 0x7f35 false 5 0 started (omega arith) (omega arith)
      (omega arith) (λ w. refl) first_channel
