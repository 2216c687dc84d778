-- ===== src/Dma/Release.antt =====
-- Taking a channel and giving it back.
use dma.Base.{ℕ, ◌≡◌, refl, sym, ap, ◌∙◌, Bool, true, false, Option, some, none}
use dma.Base.{◌&&◌, ◌==◌, if◌then◌else◌, Bool-cases, ==→eq, ==→ne, inl, inr, fun_ext, eq→==}
use dma.Dma.{
  Reservations, dmakit_channel_acquire, dmakit_channel_release, dmakit_channel_acquire-Acquired,
}
use dma.Dma.{Acquired, reserve}
use mathlib.Core.Path.{subst}

-- A channel that `dmakit_channel_acquire` took, released by its holder while it is not active,
-- leaves every channel with the holder it had before.
pub dmakit_channel_release-acquire :
    (r r' : Reservations) (allow_lite : Bool) (who c : ℕ) (is_active : ℕ → Bool)
    → dmakit_channel_acquire r allow_lite who ≡ some (c, r')
    → is_active c ≡ false
    → dmakit_channel_release r' is_active c who ≡ some r
unfolding dmakit_channel_release
dmakit_channel_release-acquire r r' allow_lite who c is_active e idle =
    ap
      (λ o. elim o as (λ _. Option Reservations) [
        | none ↦ none
        | some holder ↦
            if holder == who && (if is_active c then false else true)
            then some (reserve r' c none)
            else none
      ])
      acquired.3
    ∙ rw (idle, eq→== who who refl) (ap some (fun_ext restored))
  where
    acquired : Acquired r allow_lite who (some (c, r'))
    acquired =
        subst (Acquired r allow_lite who) e (dmakit_channel_acquire-Acquired r allow_lite who)

    restored : (j : ℕ) → reserve r' c none j ≡ r j
    restored j = elim (Bool-cases (j == c)) [
      | inl same ↦ rw (same) (sym acquired.1.0 ∙ ap r (sym (==→eq j c same)))
      | inr other ↦ rw (other) (acquired.4 j (==→ne j c other))
    ]
