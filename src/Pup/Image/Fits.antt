-- ===== src/Pup/Image/Fits.antt =====
-- What `platform_init_meta` settles: image, program and relocation buffer do not get in one
-- another's way.
use mathlib.Core.Path.{subst}
use dma.Base.{ℕ, ◌+◌, ◌-◌, ◌^◌, ◌<◌, ◌≤◌, ◌≡◌, refl, arith, u32, sub32, min, max}
use dma.Base.{leb, ◌==◌, Bool, true, false, ◌⊎◌, inl, inr, if◌then◌else◌, bit_and}
use dma.Base.{Option, none, some}
use dma.Pup.Image.{Reloc, relocate, overlap, no_reloc, dram_limit}
use dma.Pup.Image.Feed.{Fits, place}

-- No byte of the image has its place in the program.
unfoldable pub Spares : ℕ → ℕ → Reloc → ℕ → ℕ → Type 0
Spares prog_start prog_end r s e =
    (a : ℕ) → s ≤ a → a < e → (place r a < prog_start) ⊎ (prog_end ≤ place r a)

pub place-cases :
    (r : Reloc) (a : ℕ)
    → ((r.tgt_start ≤ a) × (a < r.tgt_end) × (place r a ≡ r.buf_start + (a - r.tgt_start)))
      ⊎ (((a < r.tgt_start) ⊎ (r.tgt_end ≤ a)) × (place r a ≡ a))
place-cases r a = ground arith

-- The overlap is 0 when image and program are apart, and the length of what they share otherwise.
overlap-cases :
    (ps pe s e : ℕ)
    → ps < pe
    → pe < 2 ^ 32
    → s ≤ e
    → e < 2 ^ 32
    → ((overlap ps pe s e ≡ 0) × ((e ≤ ps) ⊎ ((pe ≤ s) ⊎ (e ≤ s))))
      ⊎ ((max s ps < min e pe) × (overlap ps pe s e ≡ min e pe - max s ps))
unfolding overlap
overlap-cases ps pe s e hp low le high = ground arith

module _ (prog_start prog_end stub_size : ℕ) (ordered : prog_start < prog_end)
    (in_dram : prog_end + stub_size ≤ dram_limit) where
  none_moved :
      (s e : ℕ)
      → e < 2 ^ 32
      → (e ≤ prog_start) ⊎ ((prog_end ≤ s) ⊎ (e ≤ s))
      → Fits no_reloc s e × Spares prog_start prog_end no_reloc s e
  unfolding Spares
  none_moved s e low apart =
      (record { low = low; moved = inl (refl, refl, refl) }, λ a ha hb. ground arith)

  moved :
      (s e : ℕ) (r : Reloc)
      → e < 2 ^ 32
      → max s prog_start < min e prog_end
      → r.size ≡ min e prog_end - max s prog_start
      → r.tgt_start ≡ max s prog_start
      → r.tgt_end ≡ min e prog_end
      → r.buf_start ≡ max prog_end e
      → r.buf_start + r.size < 2 ^ 32
      → Fits r s e × Spares prog_start prog_end r s e
  unfolding Spares
  moved s e r low some_size hs ht he hb room = (
    record { low = low; moved = inr (omega arith) },
    λ a ha hb'. away a ha hb' (place r a) (place-cases r a),
  )
    where
      away :
          (a : ℕ)
          → s ≤ a
          → a < e
          → (p : ℕ)
          → ((r.tgt_start ≤ a) × (a < r.tgt_end) × (p ≡ r.buf_start + (a - r.tgt_start)))
            ⊎ (((a < r.tgt_start) ⊎ (r.tgt_end ≤ a)) × (p ≡ a))
          → (p < prog_start) ⊎ (prog_end ≤ p)
      away a ha hb' p (inl c) = inr (omega arith)
      away a ha hb' p (inr c) = ground arith

  -- The record that `relocate` makes of an overlap.
  abbrev moving : ℕ → ℕ → ℕ → Reloc
  moving s e size = record {
    tgt_start = max s prog_start;
    tgt_end = min e prog_end;
    buf_start = max prog_end e;
    buf_end = u32 (max prog_end e + size);
    stub_start = bit_and (u32 (u32 (max prog_end e + size) + 3)) 0xffff_fffc;
    stub_end = u32 (bit_and (u32 (u32 (max prog_end e + size) + 3)) 0xffff_fffc + stub_size);
    size = size;
  }

  pub relocate-Fits :
      (s e : ℕ) (r : Reloc)
      → s ≤ e
      → e < 2 ^ 32
      → relocate prog_start prog_end stub_size s e ≡ some r
      → Fits r s e × Spares prog_start prog_end r s e
  unfolding relocate
  relocate-Fits s e r le low h =
      split (overlap-cases prog_start prog_end s e ordered (omega arith) le low)
        (overlap prog_start prog_end s e) refl (overlap prog_start prog_end s e == 0)
        (leb (sub32 (sub32 dram_limit (overlap prog_start prog_end s e)) stub_size)
          (max prog_end e))
        refl refl h
    where
      same : (q : Reloc) → ◌≡◌ {A = Option Reloc} (some q) (some r) → q ≡ r
      same q h = cc

      split :
          ((overlap prog_start prog_end s e ≡ 0) × ((e ≤ prog_start) ⊎ ((prog_end ≤ s) ⊎ (e ≤ s))))
            ⊎ ((max s prog_start < min e prog_end)
                × (overlap prog_start prog_end s e ≡ min e prog_end - max s prog_start))
          → (size : ℕ) → overlap prog_start prog_end s e ≡ size
          → (b c : Bool) → (size == 0) ≡ b
          → leb (sub32 (sub32 dram_limit size) stub_size) (max prog_end e) ≡ c
          → ◌≡◌ {A = Option Reloc}
              (if b then some no_reloc else if c then none else some (moving s e size))
              (some r)
          → Fits r s e × Spares prog_start prog_end r s e
      split (inl v) size es true c eb ec k =
          subst (λ q. Fits q s e × Spares prog_start prog_end q s e) (same no_reloc k)
            (none_moved s e low v.1)
      split (inr v) size es true c eb ec k = absurd (ground arith)
      split (inl v) size es false c eb ec k = absurd (ground arith)
      split (inr v) size es false true eb ec k = absurd (cc)
      split (inr v) size es false false eb ec k =
          subst (λ q. Fits q s e × Spares prog_start prog_end q s e) (same (moving s e size) k)
            (moved s e (moving s e size) low v.0 (omega arith) refl refl refl (ground arith))
