-- ===== src/Dma/Boot.antt =====
-- `dmakit_init_channels` with its question to the firmware (bcm2835/dma/dmakit.c, bcm2835/ptags.c),
-- and the channels that are handed out afterwards.
use mathlib.Core.Path.{subst}
use dma.Base.Bytes.{bit_and_mask, bit_and_high}
use dma.Base.{
  ℕ, ◌+◌, ◌%◌, ◌^◌, ◌<◌, ◌≡◌, ◌≢◌, refl, ap, ap₂, ◌∙◌, arith, Bool, true, false, ◌==◌,
  if◌then◌else◌, Option, none, some, [], ◌∷◌, bit_and, bit_or, u16, u32, get_or, lt→ltb, eq→==, ltb,
  ◌&&◌,
}
use dma.Board.Ptags.{
  Firmware, Mailed, request_ok, panicked, ptag_get_dma_channel_mask, query, mail, mail_result,
  response, tag_words, mk_tag_hdr, arm_to_vc,
}
use dma.Dma.{
  Reservations, dmakit_init_channels, dmakit_channel_acquire, dmakit_channel_acquire-Acquired,
  Acquired,
}

-- `dmakit_init_channels` and the flag `did_init_reservations`: a second call panics.
unfoldable pub boot_channels : Firmware → ℕ → Bool → Option (Reservations × Bool)
boot_channels firmware bufaddr did_init_reservations =
    let started =
      elim (ptag_get_dma_channel_mask firmware bufaddr) as (λ _. Option (Reservations × Bool)) [
        | none ↦ none
        | some chan_mask ↦ some (dmakit_init_channels chan_mask, true)
      ] in
    if did_init_reservations then none else started

-- The firmware's documented answer to the request for the channel mask: the message comes back, the
-- buffer's code is success and the tag's is a response of four bytes.
abbrev pub AnswersMask : Firmware → ℕ → Type 0
AnswersMask firmware mask =
    (writev : ℕ)
    → firmware writev (28 ∷ 0 ∷ 0x60001 ∷ 4 ∷ 0 ∷ 0 ∷ 0 ∷ [])
      ≡ (writev, 28 ∷ (2 ^ 31) ∷ 0x60001 ∷ 4 ∷ (2 ^ 31 + 4) ∷ mask ∷ 0 ∷ [])

module _ (firmware : Firmware) (bufaddr mask : ℕ) (aligned : bufaddr % 16 ≡ 0)
    (low : bufaddr < 0x20000000) (word : mask < 2 ^ 16) (answers : AnswersMask firmware mask) where
  mail-lem :
      mail firmware bufaddr arm_to_vc (0x60001 ∷ 4 ∷ 0 ∷ 0 ∷ [])
      ≡ request_ok (0x60001 ∷ 4 ∷ (2 ^ 31 + 4) ∷ mask ∷ [])
  unfolding mail mail_result
  mail-lem =
      ap
        (λ r.
          if (bit_and bufaddr 0xf == 0) && ltb bufaddr 0x20000000
          then (if writev == r.0 then mail_result 4 r.1 else panicked)
          else panicked)
        (answers writev)
      ∙ ap₂ (λ a b. if a then (if b then answered else panicked) else panicked) {y = true}
          {v = true}
          (ap₂ (λ n b. (n == 0) && b) {y = 0} {v = true} (bit_and_mask 4 bufaddr ∙ aligned)
            (lt→ltb bufaddr 0x20000000 low))
          (eq→== writev writev refl)
    where
      writev : ℕ
      writev = bit_or (u32 (0x40000000 + bufaddr)) arm_to_vc

      answered : Mailed
      answered = request_ok (0x60001 ∷ 4 ∷ (2 ^ 31 + 4) ∷ mask ∷ [])

  mask-lem : ptag_get_dma_channel_mask firmware bufaddr ≡ some mask
  unfolding ptag_get_dma_channel_mask query response tag_words mk_tag_hdr
  mask-lem =
      ap
        (λ t. elim (response 4 t) as (λ _. Option ℕ) [
          | none ↦ none
          | some payload ↦
              if bit_and (get_or payload 0 0) 0xffff0000 == 0
              then some (u16 (get_or payload 0 0))
              else none
        ])
        mail-lem
      ∙ ap₂ (λ a m. if a == 0 then some m else none) {y = 0} {v = mask}
          (bit_and_high 16 16 mask (omega arith) ∙ omega arith) (omega arith)

usable : (mask j : ℕ) → dmakit_init_channels mask j ≡ none → bit_and mask (2 ^ j) ≢ 0
unfolding dmakit_init_channels
usable mask j h = ground arith

-- When the firmware answers with a 16-bit mask of usable channels and the channels were not set up
-- before, they are set up once: the channels start with those
-- outside the mask held by the VideoCore, and dmakit_channel_acquire then hands out only a channel
-- of the mask. The buffer of the message is aligned to 16 bytes, below 0x20000000.
pub boot_channels-acquire :
    (firmware : Firmware) (bufaddr mask : ℕ) (allow_lite : Bool) (who c : ℕ) (r : Reservations)
    → bufaddr % 16 ≡ 0
    → bufaddr < 0x20000000
    → mask < 2 ^ 16
    → AnswersMask firmware mask
    → dmakit_channel_acquire (dmakit_init_channels mask) allow_lite who ≡ some (c, r)
    → (boot_channels firmware bufaddr false ≡ some (dmakit_init_channels mask, true))
      × (c < 16)
      × (bit_and mask (2 ^ c) ≢ 0)
unfolding boot_channels
boot_channels-acquire firmware bufaddr mask allow_lite who c r aligned low word answers e =
    let acquired : Acquired (dmakit_init_channels mask) allow_lite who (some (c, r)) =
      subst (Acquired (dmakit_init_channels mask) allow_lite who) e
        (dmakit_channel_acquire-Acquired (dmakit_init_channels mask) allow_lite who) in
    (
      ap
          (λ o. elim o as (λ _. Option (Reservations × Bool)) [
            | none ↦ none
            | some chan_mask ↦ some (dmakit_init_channels chan_mask, true)
          ])
          (mask-lem firmware bufaddr mask aligned low word answers),
      acquired.0,
      usable mask c acquired.1.0,
    )
