-- ===== src/Pup/Image/Booted.antt =====
-- A whole download of an uncompressed image: set up, fed in chunks, checked.
use mathlib.Core.Path.{subst}
use dma.Base.{ℕ, suc, ◌+◌, ◌^◌, ◌<◌, ◌≤◌, ◌≡◌, refl, sym, ap, ap₂, ◌∙◌, arith, u32}
use dma.Base.{◌==◌, eq→==, ◌&&◌, Bool, true, false, if◌then◌else◌}
use dma.Base.{
  Option, none, some, List, [], ◌∷◌, ◌++◌, length, length-append, append-nil, append_assoc, get_or,
}
use dma.Pup.Crc.{crc32, crc_init}
use dma.Pup.Image.{
  Memory, Reloc, Meta, Loader, feed_impl, dram_limit, compress_none, compress_xz, image_flat_binary,
}
use dma.Pup.Image.Load.{XzRet, platform_init_meta, platform_feed, check_crc, check_format, inflate}
use dma.Pup.Image.Load.{platform_load_image, image_crc}
use dma.Pup.Image.Feed.{place}
use dma.Pup.Image.Sum.{placed}
use dma.Pup.Image.Check.{image_crc-placed}
use dma.Pup.Image.Boot.{Ready, platform_init_meta-Ready}
use dma.Pup.Image.Deliver.{Holds, feed_impl-Holds}

abbrev pub concat : List (List ℕ) → List ℕ
concat [] = []
concat (xs ∷ xss) = xs ++ concat xss

-- The device's calls of `platform_feed`, one for each chunk, up to the first that fails.
unfoldable pub feed_chunks :
    {X : Type 0}
    → (X → List ℕ → XzRet × ℕ × List ℕ × X)
    → ℕ
    → List (List ℕ)
    → Loader X
    → Option (Bool × Loader X)
feed_chunks run fuel [] l = some (true, l)
feed_chunks run fuel (xs ∷ xss) l = elim (platform_feed run fuel xs l) [
  | none ↦ none
  | some (ok, l') ↦ if ok then feed_chunks run fuel xss l' else some (false, l')
]

placed_bytes :
    (r : Reloc) (mem : Memory) (a : ℕ) (bytes : List ℕ)
    → ((j : ℕ) → j < length bytes → mem (place r (a + j)) ≡ get_or bytes j 0)
    → placed r mem a (length bytes) ≡ bytes
placed_bytes r mem a [] h = refl
placed_bytes r mem a (b ∷ bytes) h =
    ap₂ (λ x l. x ∷ l) (ap (λ x. mem (place r x)) (omega arith) ∙ h 0 (omega arith))
      (placed_bytes r mem (suc a) bytes
        (λ j lt. ap (λ x. mem (place r x)) (shift a j) ∙ h (suc j) (omega arith)))
  where
    shift : (x y : ℕ) → suc x + y ≡ x + suc y
    shift x y = omega arith

module _ {X : Type 0} (prog_start prog_end stub_size : ℕ) (xz_dec_init : Option X)
    (run : X → List ℕ → XzRet × ℕ × List ℕ × X) (load_elf : Loader X → Bool × Loader X) (fuel : ℕ)
    (ordered : prog_start < prog_end) (in_dram : prog_end + stub_size ≤ dram_limit) where
  plain_chunk :
      (xs : List ℕ) (xss : List (List ℕ)) (l₁ : Loader X)
      → l₁.meta.compression_type ≡ compress_none
      → feed_chunks run fuel (xs ∷ xss) l₁ ≡ feed_chunks run fuel xss (feed_impl xs l₁)
  unfolding feed_chunks platform_feed
  plain_chunk xs xss l₁ e =
      ap
        (λ (c : ℕ).
          elim (if c == compress_xz
              then elim l₁.xz as (λ _. Option (Bool × Loader X)) [
                | none ↦ some (false, l₁)
                | some x ↦ inflate run fuel x xs l₁
              ]
              else some (true, feed_impl xs l₁))
            as (λ _. Option (Bool × Loader X)) [
              | none ↦ none
              | some (ok, l') ↦ if ok then feed_chunks run fuel xss l' else some (false, l')
            ])
        e

  chunks-Holds :
      (m : Meta) (l l₀ : Loader X) (xss : List (List ℕ)) (bytes : List ℕ) (l₁ : Loader X)
      → Ready prog_start prog_end m l l₀
      → m.compression_type ≡ compress_none
      → length bytes + length (concat xss) ≤ m.mem_size
      → Holds prog_start prog_end l₀ l₁ bytes
      → (l₂ : Loader X) × (feed_chunks run fuel xss l₁ ≡ some (true, l₂))
        × Holds prog_start prog_end l₀ l₂ (bytes ++ concat xss)
  unfolding feed_chunks platform_feed
  chunks-Holds m l l₀ [] bytes l₁ ready plain room h =
      (l₁, refl, subst (Holds prog_start prog_end l₀ l₁) (sym (append-nil bytes)) h)
  chunks-Holds m l l₀ (xs ∷ xss) bytes l₁ ready plain room h =
      let (l₂, e, held) =
        chunks-Holds m l l₀ xss (bytes ++ xs) (feed_impl xs l₁) ready plain
          (omega (arith, length-append bytes xs, length-append xs (concat xss)))
          (feed_impl-Holds prog_start prog_end l₀ m.mem_size ready.fits ready.spares bytes xs l₁
            (omega (arith, length-append xs (concat xss))) h) in
      (
        l₂,
        plain_chunk xs xss l₁ (ap (λ m. m.compression_type) (h.meta ∙ ready.meta) ∙ plain) ∙ e,
        subst (Holds prog_start prog_end l₀ l₂) (append_assoc bytes xs (concat xss)) held,
      )

  -- The verdict.
  verdict :
      (m : Meta) (l l₀ l₂ : Loader X) (bytes : List ℕ)
      → Ready prog_start prog_end m l l₀
      → m.compression_type ≡ compress_none
      → m.image_format ≡ image_flat_binary
      → length bytes ≡ m.mem_size
      → Holds prog_start prog_end l₀ l₂ bytes
      → (platform_load_image load_elf l₂).0 ≡ (crc32 crc_init bytes == m.mem_crc32)
  unfolding platform_load_image check_crc check_format
  verdict m l l₀ l₂ bytes ready plain flat whole h =
      rw (h.meta, ready.meta, plain, flat, reached, summed)
        (and_true (crc32 crc_init bytes == m.mem_crc32))
    where
      and_true : (b : Bool) → (b && true) ≡ b
      and_true true = refl
      and_true false = refl

      end_low : l₀.img_start + m.mem_size < 2 ^ 32
      end_low = ready.fits.low

      reached : (l₂.feed == u32 (l₂.img_start + m.mem_size)) ≡ true
      reached =
          eq→== l₂.feed (u32 (l₂.img_start + m.mem_size))
            (omega (arith, end_low, h.feed, h.img_start, whole))

      summed :
          (image_crc l₂.mem l₂.reloc l₂.img_start (u32 (l₂.img_start + m.mem_size)) l₂.fsm).crc
          ≡ crc32 crc_init bytes
      summed =
          ap (λ r. (image_crc l₂.mem r l₂.img_start (u32 (l₂.img_start + m.mem_size)) l₂.fsm).crc)
            h.reloc
          ∙ ap₂ (λ s e. (image_crc l₂.mem l₀.reloc s e l₂.fsm).crc) h.img_start
              (omega (arith, end_low, h.img_start))
          ∙ image_crc-placed l₀.reloc l₂.mem l₀.img_start (l₀.img_start + m.mem_size) l₂.fsm
              ready.fits (omega arith)
          ∙ ap (crc32 crc_init) (
              ap (placed l₀.reloc l₂.mem l₀.img_start) (omega (arith, whole))
              ∙ placed_bytes l₀.reloc l₂.mem l₀.img_start bytes h.put)

  Holds-none : (l₀ : Loader X) → l₀.feed ≡ l₀.img_start → Holds prog_start prog_end l₀ l₀ []
  Holds-none l₀ e = record {
    reloc = refl;
    img_start = refl;
    meta = refl;
    feed = omega (arith, e);
    put = λ j h. absurd (omega arith);
    spared = λ x lo hi. refl;
  }

  -- If `platform_init_meta` accepts an uncompressed image whose end stays below 2 ^ 32 even when it
  -- stands right behind the program, then feeding at most `mem_size` bytes in any chunks succeeds,
  -- puts each byte at its place, and leaves every byte of the running program as it was.
  pub platform_feed-Holds :
      (m : Meta) (l l₀ : Loader X) (chunks : List (List ℕ))
      → prog_end + m.mem_size < 2 ^ 32
      → platform_init_meta prog_start prog_end stub_size xz_dec_init m l ≡ (true, l₀)
      → m.compression_type ≡ compress_none
      → length (concat chunks) ≤ m.mem_size
      → (l₂ : Loader X) × (feed_chunks run fuel chunks l₀ ≡ some (true, l₂))
        × Holds prog_start prog_end l₀ l₂ (concat chunks)
  platform_feed-Holds m l l₀ chunks low accepted plain room =
      let ready =
        platform_init_meta-Ready prog_start prog_end stub_size xz_dec_init ordered in_dram m l l₀
          low accepted in
      chunks-Holds m l l₀ chunks [] l₀ ready plain (omega arith) (Holds-none l₀ ready.feed)

  -- If `platform_init_meta` accepts an uncompressed flat binary whose size would also fit below
  -- 2 ^ 32 behind the program, and exactly its `mem_size` bytes are fed, in any chunks, then feeding
  -- succeeds and `platform_load_image` says yes if and only if the CRC-32 of the bytes is the one
  -- announced.
  pub platform_load_image-fed :
      (m : Meta) (l l₀ : Loader X) (chunks : List (List ℕ))
      → prog_end + m.mem_size < 2 ^ 32
      → platform_init_meta prog_start prog_end stub_size xz_dec_init m l ≡ (true, l₀)
      → m.compression_type ≡ compress_none
      → m.image_format ≡ image_flat_binary
      → length (concat chunks) ≡ m.mem_size
      → (l₂ : Loader X) × (feed_chunks run fuel chunks l₀ ≡ some (true, l₂))
        × ((platform_load_image load_elf l₂).0 ≡ (crc32 crc_init (concat chunks) == m.mem_crc32))
  platform_load_image-fed m l l₀ chunks low accepted plain flat whole =
      let ready =
        platform_init_meta-Ready prog_start prog_end stub_size xz_dec_init ordered in_dram m l l₀
          low accepted in
      let (l₂, e, held) =
        chunks-Holds m l l₀ chunks [] l₀ ready plain (omega (arith, whole))
          (Holds-none l₀ ready.feed) in
      (l₂, e, verdict m l l₀ l₂ (concat chunks) ready plain flat whole held)
