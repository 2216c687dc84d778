-- ===== src/Dma.antt =====
-- The DMA channels of bcm2835/dma: who holds which (`channel_reservations` of dmakit.c).
pub mod Bus
pub mod Cblk
pub mod Emit
pub mod Arith
pub mod Tables
pub mod Engine
pub mod Arena
pub mod Timing
pub mod Release
pub mod Boot
mod Tests
use dma.Base.{
  ℕ, zero, suc, ◌+◌, ◌^◌, ◌<◌, ◌≤◌, ◌≡◌, ◌≢◌, refl, arith, bit_and, Bool, true, false, ◌&&◌, ◌==◌,
}
use mathlib.Core.Path.{subst}
use dma.Base.{
  ap, Bool-cases, ==→eq, eq→==, ne→==, ltb, leb, if◌then◌else◌, Option, none, some, ◌⊎◌, inl, inr,
}

-- The array; `none` is NULL. Names are numbers.
abbrev pub Reservations : Type 0
Reservations = ℕ → Option ℕ

abbrev pub video_core : ℕ
video_core = 0

-- `dmakit_init_channels`; the firmware's mask of usable channels comes from a property tag.
unfoldable pub dmakit_init_channels : ℕ → Reservations
dmakit_init_channels chan_mask i = if bit_and chan_mask (2 ^ i) == 0 then some video_core else none

-- Channels 7 to 14.
unfoldable pub dmakit_channel_is_lite : ℕ → Bool
dmakit_channel_is_lite c = leb 7 c && ltb c 15

-- The loop of `dmakit_channel_acquire`, `k` channels from `i` on.
unfoldable pub free_channel : Reservations → Bool → ℕ → ℕ → Option ℕ
free_channel r allow_lite zero i = none
free_channel r allow_lite (suc k) i =
    let later = free_channel r allow_lite k (suc i) in
    elim (r i) [
      | some who ↦ later
      | none ↦
          if (if allow_lite then false else true) && dmakit_channel_is_lite i then later else some i
    ]

abbrev pub reserve : Reservations → ℕ → Option ℕ → Reservations
reserve r c who i = if i == c then who else r i

unfoldable pub dmakit_channel_acquire : Reservations → Bool → ℕ → Option (ℕ × Reservations)
dmakit_channel_acquire r allow_lite who = elim (free_channel r allow_lite 16 0) [
  | some c ↦ some (c, reserve r c (some who))
  | none ↦ none
]

-- `dmakit_channel_release`; `none` is a failed `assert`, or a channel that
-- nobody holds. Whether a channel is active is read from the hardware.
unfoldable pub dmakit_channel_release : Reservations → (ℕ → Bool) → ℕ → ℕ → Option Reservations
dmakit_channel_release r is_active c who = elim (r c) [
  | none ↦ none
  | some holder ↦
      if holder == who && (if is_active c then false else true)
      then some (reserve r c none)
      else none
]

-- A channel that the caller may take.
abbrev pub Suits : Reservations → Bool → ℕ → Type 0
Suits r allow_lite c = (r c ≡ none) × ((allow_lite ≡ true) ⊎ (dmakit_channel_is_lite c ≡ false))

abbrev Found : Reservations → Bool → ℕ → ℕ → Option ℕ → Type 0
Found r allow_lite k i none = (j : ℕ) → i ≤ j → j < i + k → ¬ Suits r allow_lite j
Found r allow_lite k i (some c) =
    (i ≤ c)
    × (c < i + k)
    × Suits r allow_lite c
    × ((j : ℕ) → i ≤ j → j < c → ¬ Suits r allow_lite j)

from_next :
    (r : Reservations) (allow_lite : Bool) (i c : ℕ)
    → ¬ Suits r allow_lite i
    → ((j : ℕ) → suc i ≤ j → j < c → ¬ Suits r allow_lite j)
    → (j : ℕ) → i ≤ j
    → j < c
    → ¬ Suits r allow_lite j
from_next r allow_lite i c bad h j a b = cases (Bool-cases (i == j))
  where
    cases : ((i == j) ≡ true) ⊎ ((i == j) ≡ false) → ¬ Suits r allow_lite j
    cases (inl e) = subst (λ x. ¬ Suits r allow_lite x) (==→eq i j e) bad
    cases (inr e) = h j (ground arith) b

free_channel-Found :
    (r : Reservations) (allow_lite : Bool) (k i : ℕ)
    → Found r allow_lite k i (free_channel r allow_lite k i)
unfolding free_channel
free_channel-Found r allow_lite zero i = λ j a b. absurd (omega arith)
free_channel-Found r allow_lite (suc k) i =
    split (r i) refl allow_lite refl (dmakit_channel_is_lite i) refl
      (free_channel r allow_lite k (suc i)) (free_channel-Found r allow_lite k (suc i))
  where
    passed :
        ¬ Suits r allow_lite i
        → (o : Option ℕ) → Found r allow_lite k (suc i) o
        → Found r allow_lite (suc k) i o
    passed bad none h = from_next r allow_lite i (i + suc k) bad (λ j a b. h j a (omega arith))
    passed bad (some c) h =
        (omega (arith, h.0), omega (arith, h.1), h.2, from_next r allow_lite i c bad h.3)

    split :
        (o : Option ℕ)
        → r i ≡ o
        → (a : Bool) → allow_lite ≡ a
        → (l : Bool) → dmakit_channel_is_lite i ≡ l
        → (later : Option ℕ) → Found r allow_lite k (suc i) later
        → Found r allow_lite (suc k) i (elim o as (λ _. Option ℕ) [
          | some who ↦ later
          | none ↦ if (if a then false else true) && l then later else some i
        ])
    split (some w) eo a ea l el later h = passed (λ s. absurd (cc)) later h
    split none eo true ea l el later h =
        (omega arith, omega arith, (eo, inl ea), λ j x y. absurd (omega arith))
    split none eo false ea true el later h = passed (λ s. ground arith) later h
    split none eo false ea false el later h =
        (omega arith, omega arith, (eo, inr el), λ j x y. absurd (omega arith))

-- What `dmakit_channel_acquire` promises.
abbrev pub Acquired : Reservations → Bool → ℕ → Option (ℕ × Reservations) → Type 0
Acquired r allow_lite who none = (j : ℕ) → j < 16 → ¬ Suits r allow_lite j
Acquired r allow_lite who (some (c, r')) =
    (c < 16)
    × Suits r allow_lite c
    × ((j : ℕ) → j < c → ¬ Suits r allow_lite j)
    × (r' c ≡ some who)
    × ((j : ℕ) → j ≢ c → r' j ≡ r j)

-- `dmakit_channel_acquire` fails only when none of the 16 channels is free and of an allowed kind;
-- otherwise it takes the first such channel for the caller and leaves all others with their
-- holders.
pub dmakit_channel_acquire-Acquired :
    (r : Reservations) (allow_lite : Bool) (who : ℕ)
    → Acquired r allow_lite who (dmakit_channel_acquire r allow_lite who)
unfolding dmakit_channel_acquire
dmakit_channel_acquire-Acquired r allow_lite who =
    go (free_channel r allow_lite 16 0) (free_channel-Found r allow_lite 16 0)
  where
    go :
        (o : Option ℕ)
        → Found r allow_lite 16 0 o
        → Acquired r allow_lite who (elim o as (λ _. Option (ℕ × Reservations)) [
          | some c ↦ some (c, reserve r c (some who))
          | none ↦ none
        ])
    go none h = λ j b. h j (omega arith) (omega arith)
    go (some c) h = (
      omega (arith, h.1),
      h.2,
      λ j b. h.3 j (omega arith) b,
      ap (λ b. if b then some who else r c) (eq→== c c refl),
      λ j ne. ap (λ b. if b then some who else r j) (ne→== j c ne),
    )
