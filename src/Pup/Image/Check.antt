-- ===== src/Pup/Image/Check.antt =====
-- The three stretches of the checksum in a row.
use dma.Base.{ℕ, ◌+◌, ◌-◌, ◌^◌, ◌<◌, ◌≤◌, ◌≡◌, refl, sym, ap, ap₂, ◌∙◌, arith, min}
use dma.Base.{ltb, leb, ◌==◌, ◌&&◌, Bool, true, false, ◌⊎◌, inl, inr, if◌then◌else◌}
use dma.Pup.Port.{Fsm}
use dma.Pup.Crc.{crc32, crc_init}
use dma.Pup.Crc.Serial.{crc32-append, crc32-nil}
use dma.Pup.Image.{Memory, Reloc}
use dma.Pup.Image.Load.{Summing, sum_block, sum_before, sum_inside, sum_rest, image_crc}
use dma.Pup.Image.Feed.{Fits}
use dma.Pup.Image.Sum.{placed, placed-append, Summed, Summed-none, Summed-block, Summed-then}

before-Summed :
    (r : Reloc) (mem : Memory) (e : ℕ) (w : Summing)
    → w.at ≤ e
    → Summed r mem w (sum_before mem r e w)
      × ((sum_before mem r e w).at ≤ e)
      × ((r.tgt_start ≤ (sum_before mem r e w).at) ⊎ (e ≤ r.tgt_start))
before-Summed r mem e w le = split (ltb w.at r.tgt_start && ltb r.tgt_start e) refl
  where
    next : Summing
    next = sum_block mem w.at (r.tgt_start - w.at) w

    split :
        (b : Bool)
        → (ltb w.at r.tgt_start && ltb r.tgt_start e) ≡ b
        → Summed r mem w (if b then next else w)
          × ((if b then next else w).at ≤ e)
          × ((r.tgt_start ≤ (if b then next else w).at) ⊎ (e ≤ r.tgt_start))
    split true h =
        let span : (w.at < r.tgt_start) × (r.tgt_start < e) = ground arith in
        (
          Summed-block r mem w.at (r.tgt_start - w.at) w (λ j lt. ground (arith, span)),
          omega (arith, span),
          inl (omega (arith, span)),
        )
    split false h = (Summed-none r mem w, le, ground arith)

inside-Summed :
    (r : Reloc) (mem : Memory) (e : ℕ) (w : Summing)
    → w.at ≤ e
    → (r.tgt_start ≤ w.at) ⊎ (e ≤ r.tgt_start)
    → Summed r mem w (sum_inside mem r e w)
      × ((sum_inside mem r e w).at ≤ e)
      × ((r.tgt_end ≤ (sum_inside mem r e w).at)
          ⊎ ((e ≤ (sum_inside mem r e w).at) ⊎ (e ≤ r.tgt_start)))
inside-Summed r mem e w le side = split (leb r.tgt_start w.at && ltb w.at r.tgt_end) refl
  where
    next : Summing
    next = sum_block mem (r.buf_start + (w.at - r.tgt_start)) (min (r.tgt_end - w.at) (e - w.at)) w

    split :
        (b : Bool)
        → (leb r.tgt_start w.at && ltb w.at r.tgt_end) ≡ b
        → Summed r mem w (if b then next else w)
          × ((if b then next else w).at ≤ e)
          × ((r.tgt_end ≤ (if b then next else w).at)
              ⊎ ((e ≤ (if b then next else w).at) ⊎ (e ≤ r.tgt_start)))
    split true h =
        let span : (r.tgt_start ≤ w.at) × (w.at < r.tgt_end) = ground arith in
        (
          Summed-block r mem (r.buf_start + (w.at - r.tgt_start))
              (min (r.tgt_end - w.at) (e - w.at)) w (λ j lt. ground (arith, span)),
          omega (arith, le, span),
          ground (arith, span, le),
        )
    split false h = (Summed-none r mem w, le, ground arith)

rest-Summed :
    (r : Reloc) (mem : Memory) (e : ℕ) (w : Summing)
    → w.at ≤ e
    → (r.tgt_end ≤ w.at) ⊎ ((e ≤ w.at) ⊎ (e ≤ r.tgt_start))
    → (sum_rest mem e w).crc ≡ crc32 w.crc (placed r mem w.at (e - w.at))
rest-Summed r mem e w le out = split (ltb w.at e) refl
  where
    split :
        (b : Bool)
        → ltb w.at e ≡ b
        → (if b then record (sum_block mem w.at (e - w.at) w) { at = w.at } else w).crc
          ≡ crc32 w.crc (placed r mem w.at (e - w.at))
    split true h =
        let lt : w.at < e = ground arith in
        let one = Summed-block r mem w.at (e - w.at) w (λ j hj. ground (arith, lt, out)) in
        one.crc_next ∙ ap (λ n. crc32 w.crc (placed r mem w.at n)) (omega (arith, one.at_next))
    split false h =
        let ge : e ≤ w.at = ground arith in
        sym (crc32-nil w.crc)
        ∙ ap (λ n. crc32 w.crc (placed r mem w.at n)) {x = 0} (omega (arith, ge))

whole :
    (r : Reloc) (mem : Memory) (e : ℕ) (u v : Summing)
    → Summed r mem u v
    → v.at ≤ e
    → (r.tgt_end ≤ v.at) ⊎ ((e ≤ v.at) ⊎ (e ≤ r.tgt_start))
    → (sum_rest mem e v).crc ≡ crc32 u.crc (placed r mem u.at (e - u.at))
whole r mem e u v a le out =
    rest-Summed r mem e v le out
    ∙ ap₂ (λ c x. crc32 c (placed r mem x (e - v.at))) a.crc_next a.at_next
    ∙ sym (crc32-append u.crc (placed r mem u.at a.n) _)
    ∙ ap (crc32 u.crc) (
        sym (placed-append r mem u.at a.n (e - v.at))
        ∙ ap (placed r mem u.at) (omega (arith, a.at_next, le)))

-- The checksum that the device takes is `crc32` of the image's bytes, each read at its place.
pub image_crc-placed :
    (r : Reloc) (mem : Memory) (s e : ℕ) (f : Fsm)
    → Fits r s e
    → s ≤ e
    → (image_crc mem r s e f).crc ≡ crc32 crc_init (placed r mem s (e - s))
unfolding image_crc
image_crc-placed r mem s e f fits le = split (r.size == 0) refl fits.moved
  where
    u : Summing
    u = record { crc = crc_init; at = s; fsm = f }

    split :
        (b : Bool)
        → (r.size == 0) ≡ b
        → ((r.size ≡ 0) × (r.tgt_start ≡ 0) × (r.tgt_end ≡ 0))
          ⊎ ((0 < r.size)
              × (r.tgt_start ≤ r.tgt_end)
              × (s ≤ r.tgt_start)
              × (r.tgt_end ≤ e)
              × (e ≤ r.buf_start)
              × (r.buf_start + (r.tgt_end - r.tgt_start) < 2 ^ 32))
        → (sum_rest mem e (if b then u else sum_inside mem r e (sum_before mem r e u))).crc
          ≡ crc32 crc_init (placed r mem s (e - s))
    split true h (inl m) = whole r mem e u u (Summed-none r mem u) le (inl (omega arith))
    split true h (inr m) = absurd (ground arith)
    split false h m =
        let (a, le₁, side) = before-Summed r mem e u le in
        let (b, le₂, out) = inside-Summed r mem e (sum_before mem r e u) le₁ side in
        whole r mem e u (sum_inside mem r e (sum_before mem r e u))
          (Summed-then r mem u (sum_before mem r e u) (sum_inside mem r e (sum_before mem r e u)) a
            b)
          le₂ out
