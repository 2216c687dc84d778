-- ===== src/Pup/Download/Run.antt =====
-- `fsm_download` on the loader of pup/bcm2835.c.
use dma.Base.{ℕ, zero, suc, ◌≡◌, refl, ◌∙◌, arith, Bool, true, false}
use dma.Base.{◌==◌, if◌then◌else◌, Option, none, some, List, [], ◌∷◌, drop}
use dma.Pup.Image.{Meta, Loader, feed_impl, compress_xz}
use dma.Pup.Image.Load.{XzRet, xz_ok, xz_stream_end, xz_unsupported_check, xz_error}
use dma.Pup.Image.Load.{platform_init_meta, platform_feed, platform_load_image, inflate}
use dma.Pup.Download.{Phase, download_step}
use dma.Pup.Download.Order.{Synced, SyncedAfter, FeedKeeps, step-Synced}

module _ {X : Type 0} (prog_start prog_end stub_size : ℕ) (xz_dec_init : Option X)
    (run : X → List ℕ → XzRet × ℕ × List ℕ × X) (load_elf : Loader X → Bool × Loader X)
    (fuel g : ℕ) where
  -- `n` rounds of `fsm_download`.
  unfoldable pub fsm_download : ℕ → Phase → Loader X → Option (Phase × Loader X)
  fsm_download zero p l = some (p, l)
  fsm_download (suc n) p l =
      elim (download_step (platform_init_meta prog_start prog_end stub_size xz_dec_init)
        (λ num xs l. platform_feed run fuel xs l) (platform_load_image load_elf) g p l) [
          | none ↦ none
          | some (p', l') ↦ fsm_download n p' l'
        ]

  init-keeps :
      (m : Meta) (l : Loader X)
      → (platform_init_meta prog_start prog_end stub_size xz_dec_init m l).1.fsm.iden ≡ l.fsm.iden
  unfolding platform_init_meta
  init-keeps m l = ground arith

  inflate-keeps :
      (f : ℕ) (x : X) (input : List ℕ) (l : Loader X) → FeedKeeps l (inflate run f x input l)
  unfolding inflate feed_impl
  inflate-keeps zero x input l = tt
  inflate-keeps (suc f) x [] l = refl
  inflate-keeps (suc f) x (b ∷ input) l =
      go (run x (b ∷ input)) (λ y rest l'. inflate-keeps f y rest l')
    where
      later :
          (l' : Loader X)
          → l'.fsm.iden ≡ l.fsm.iden
          → (o : Option (Bool × Loader X)) → FeedKeeps l' o
          → FeedKeeps l o
      later l' e none k = tt
      later l' e (some (ok, l'')) k = k ∙ e

      go :
          (r : XzRet × ℕ × List ℕ × X)
          → ((y : X) (rest : List ℕ) (l' : Loader X) → FeedKeeps l' (inflate run f y rest l'))
          → FeedKeeps l (elim r.0 as (λ _. Option (Bool × Loader X)) [
            | xz_ok ↦
                inflate run f r.3
                  (drop r.1 (b ∷ input))
                  (feed_impl r.2 (record l { xz = some r.3 }))
            | xz_stream_end ↦
                inflate run f r.3
                  (drop r.1 (b ∷ input))
                  (feed_impl r.2 (record l { xz = some r.3 }))
            | xz_unsupported_check ↦
                inflate run f r.3 (drop r.1 (b ∷ input)) (record l { xz = some r.3 })
            | xz_error ↦ some (false, record l { xz = some r.3 })
          ])
      go (xz_ok, n, out, y) ih =
          later (feed_impl out (record l { xz = some y })) refl
            (inflate run f y (drop n (b ∷ input)) (feed_impl out (record l { xz = some y })))
            (ih y _ _)
      go (xz_stream_end, n, out, y) ih =
          later (feed_impl out (record l { xz = some y })) refl
            (inflate run f y (drop n (b ∷ input)) (feed_impl out (record l { xz = some y })))
            (ih y _ _)
      go (xz_unsupported_check, n, out, y) ih =
          later (record l { xz = some y }) refl
            (inflate run f y (drop n (b ∷ input)) (record l { xz = some y })) (ih y _ _)
      go (xz_error, n, out, y) ih = refl

  feed-keeps : (num : ℕ) (xs : List ℕ) (l : Loader X) → FeedKeeps l (platform_feed run fuel xs l)
  unfolding platform_feed feed_impl
  feed-keeps num xs l =
      go (l.meta.compression_type == compress_xz) l.xz (λ x. inflate-keeps fuel x xs l)
    where
      go :
          (b : Bool) (o : Option X)
          → ((x : X) → FeedKeeps l (inflate run fuel x xs l))
          → FeedKeeps l (
              if b
              then elim o as (λ _. Option (Bool × Loader X)) [
                | none ↦ some (false, l)
                | some x ↦ inflate run fuel x xs l
              ]
              else some (true, feed_impl xs l))
      go true none k = refl
      go true (some x) k = k x
      go false o k = refl

  -- However the line and the clock behave: as long as `fsm_download`, started at its label `reset`
  -- or in a state that is in step, asks for chunks, its identifier is the number of the chunk it
  -- asks for, as a `uint16_t`, and it is 0 while it waits for the announcement.
  pub fsm_download-Synced :
      (n : ℕ) (p : Phase) (l : Loader X) → Synced p l → SyncedAfter (fsm_download n p l)
  unfolding fsm_download
  fsm_download-Synced zero p l h = h
  fsm_download-Synced (suc n) p l h =
      go
        (download_step (platform_init_meta prog_start prog_end stub_size xz_dec_init)
          (λ num xs l. platform_feed run fuel xs l) (platform_load_image load_elf) g p l)
        (step-Synced (platform_init_meta prog_start prog_end stub_size xz_dec_init)
          (λ num xs l. platform_feed run fuel xs l) (platform_load_image load_elf) g init-keeps
          feed-keeps p l h)
        (λ p' l' k. fsm_download-Synced n p' l' k)
    where
      go :
          (o : Option (Phase × Loader X))
          → SyncedAfter o
          → ((p' : Phase) (l' : Loader X) → Synced p' l' → SyncedAfter (fsm_download n p' l'))
          → SyncedAfter (elim o as (λ _. Option (Phase × Loader X)) [
            | none ↦ none
            | some (p', l') ↦ fsm_download n p' l'
          ])
      go none k ih = tt
      go (some (p', l')) k ih = ih p' l' k
