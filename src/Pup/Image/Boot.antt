-- ===== src/Pup/Image/Boot.antt =====
-- From `platform_init_meta` over `platform_feed` to `platform_load_image`.
use mathlib.Core.Path.{subst}
use dma.Base.{ℕ, ◌+◌, ◌^◌, ◌<◌, ◌≤◌, ◌≡◌, refl, ap, ◌∙◌, arith, u32}
use dma.Base.{leb, Bool, true, false, if◌then◌else◌}
use dma.Base.{Option, none, some}
use dma.Pup.Image.{Reloc, Meta, Loader, image_base, relocate, dram_limit}
use dma.Pup.Image.{num_compress_types, num_image_formats}
use dma.Pup.Image.Load.{platform_init_meta}
use dma.Pup.Image.Feed.{Fits}
use dma.Pup.Image.Fits.{Spares, relocate-Fits}

base_low :
    (prog_end : ℕ) (m : Meta) (start : ℕ)
    → prog_end + m.mem_size < 2 ^ 32
    → image_base prog_end m ≡ some start
    → start + m.mem_size < 2 ^ 32
unfolding image_base
base_low prog_end m start h e = ground arith

-- What a successful `platform_init_meta` leaves.
pub record Ready {X : Type 0} (prog_start prog_end : ℕ) (m : Meta) (l l' : Loader X) : Type 0 where
  pub fits : Fits l'.reloc l'.img_start (l'.img_start + m.mem_size)
  pub spares : Spares prog_start prog_end l'.reloc l'.img_start (l'.img_start + m.mem_size)
  pub feed : l'.feed ≡ l'.img_start
  pub meta : l'.meta ≡ m
  pub mem : l'.mem ≡ l.mem

module _ {X : Type 0} (prog_start prog_end stub_size : ℕ) (xz_dec_init : Option X)
    (ordered : prog_start < prog_end) (in_dram : prog_end + stub_size ≤ dram_limit) where
  pub platform_init_meta-Ready :
      (m : Meta) (l l' : Loader X)
      → prog_end + m.mem_size < 2 ^ 32
      → platform_init_meta prog_start prog_end stub_size xz_dec_init m l ≡ (true, l')
      → Ready prog_start prog_end m l l'
  unfolding platform_init_meta
  platform_init_meta-Ready m l l' small h =
      formats (leb num_compress_types m.compression_type) (leb num_image_formats m.image_format)
        (image_base prog_end m) refl h
    where
      loader : ℕ → Reloc → X → Loader X
      loader start r x = record l {
        meta = m;
        img_start = start;
        img_end = u32 (start + m.mem_size);
        reloc = r;
        xz = some x;
        feed = start;
      }

      same : (a b : Loader X) → ◌≡◌ {A = Bool × Loader X} (true, a) (true, b) → a ≡ b
      same a b h = cc

      moved :
          (start : ℕ)
          → start + m.mem_size < 2 ^ 32
          → (o : Option Reloc)
          → relocate prog_start prog_end stub_size start (u32 (start + m.mem_size)) ≡ o
          → (x : Option X)
          → elim o as (λ _. Bool × Loader X) [
            | none ↦ (
              false,
              record l { meta = m; img_start = start; img_end = u32 (start + m.mem_size) },
            )
            | some r ↦ elim x as (λ _. Bool × Loader X) [
              | none ↦ (
                false,
                record l {
                  meta = m;
                  img_start = start;
                  img_end = u32 (start + m.mem_size);
                  reloc = r;
                  xz = x;
                },
              )
              | some y ↦ (
                true,
                record l {
                  meta = m;
                  img_start = start;
                  img_end = u32 (start + m.mem_size);
                  reloc = r;
                  xz = x;
                  feed = start;
                },
              )
            ]
          ]
            ≡ (true, l')
          → Ready prog_start prog_end m l l'
      moved start low none eo x h = absurd (cc)
      moved start low (some r) eo none h = absurd (cc)
      moved start low (some r) eo (some y) h =
          let (fits, spares) =
            relocate-Fits prog_start prog_end stub_size ordered in_dram start (start + m.mem_size) r
              (omega arith) low
              (ap (relocate prog_start prog_end stub_size start) (omega (arith, low)) ∙ eo) in
          subst (Ready prog_start prog_end m l) (same (loader start r y) l' h)
            (record { fits = fits; spares = spares; feed = refl; meta = refl; mem = refl })

      formats :
          (a b : Bool) (o : Option ℕ)
          → image_base prog_end m ≡ o
          → (if a then (false, l) else if b then (false, l) else elim o as (λ _. Bool × Loader X) [
            | none ↦ (false, l)
            | some start ↦
                elim (relocate prog_start prog_end stub_size start (u32 (start + m.mem_size)))
                  as (λ _. Bool × Loader X) [
                    | none ↦ (
                      false,
                      record l { meta = m; img_start = start; img_end = u32 (start + m.mem_size) },
                    )
                    | some r ↦ elim xz_dec_init as (λ _. Bool × Loader X) [
                      | none ↦ (
                        false,
                        record l {
                          meta = m;
                          img_start = start;
                          img_end = u32 (start + m.mem_size);
                          reloc = r;
                          xz = xz_dec_init;
                        },
                      )
                      | some y ↦ (
                        true,
                        record l {
                          meta = m;
                          img_start = start;
                          img_end = u32 (start + m.mem_size);
                          reloc = r;
                          xz = xz_dec_init;
                          feed = start;
                        },
                      )
                    ]
                  ]
          ])
            ≡ (true, l')
          → Ready prog_start prog_end m l l'
      formats true b o eo h = absurd (cc)
      formats false true o eo h = absurd (cc)
      formats false false none eo h = absurd (cc)
      formats false false (some start) eo h =
          moved start (base_low prog_end m start small eo)
            (relocate prog_start prog_end stub_size start (u32 (start + m.mem_size))) refl
            xz_dec_init h
