-- ===== src/Integ/Hash/Blocks.antt =====
-- A block of eight words with one changed byte.
use dma.Base.{ℕ, ◌+◌, ◌^◌, ◌<◌, ◌≤◌, ◌≡◌, ◌⊎◌, inl, inr, refl, ap₂, arith}
use mathlib.Core.Path.{subst}
use dma.Integ.Hash.{Memory, Lanes, load, block_step, lane}
use dma.Integ.Hash.Mix.{Differ, EqualWords, OneOff}
use dma.Integ.Hash.Differ.{Patched, InWords, lane_keep, lane_hit, lane-lt, load_away, load_hit}

module _ (m m' : Memory) (i : ℕ) (patched : Patched m m' i) where
  -- One lane, two or three words on.
  two_keep :
      (h h' : ℕ) (j k : ℕ)
      → i < j
      → i < k
      → Differ h h'
      → Differ (lane (lane h (load m j)) (load m k)) (lane (lane h' (load m' j)) (load m' k))
  two_keep h h' j k p q r =
      lane_keep (lane h (load m j)) (lane h' (load m' j)) (load m k) (load m' k)
        (lane_keep h h' (load m j) (load m' j) r (load_away m m' i patched j (inr p)))
        (load_away m m' i patched k (inr q))

  two_same :
      (h h' : ℕ) (j k : ℕ)
      → (4 + j ≤ i) ⊎ (i < j)
      → (4 + k ≤ i) ⊎ (i < k)
      → h ≡ h'
      → EqualWords (lane (lane h (load m j)) (load m k)) (lane (lane h' (load m' j)) (load m' k))
  two_same h h' j k p q r = (
    lane-lt (lane h (load m j)) (load m k),
    ap₂ lane (ap₂ lane r (load_away m m' i patched j p)) (load_away m m' i patched k q),
  )

  three_same :
      (h h' : ℕ) (j k l : ℕ)
      → (4 + j ≤ i) ⊎ (i < j)
      → (4 + k ≤ i) ⊎ (i < k)
      → (4 + l ≤ i) ⊎ (i < l)
      → h ≡ h'
      → EqualWords
          (lane (lane (lane h (load m j)) (load m k)) (load m l))
          (lane (lane (lane h' (load m' j)) (load m' k)) (load m' l))
  three_same h h' j k l p q s r =
      two_same (lane h (load m j)) (lane h' (load m' j)) k l q s
        (ap₂ lane r (load_away m m' i patched j p))

  pub block_keep :
      (d : ℕ) (s t : Lanes) → i < d → OneOff s t → OneOff (block_step m d s) (block_step m' d t)
  block_keep d s t past (inl (x, y, z)) = inl (
    two_keep (lane s.s0 (load m d)) (lane t.s0 (load m' d)) (12 + d) (24 + d) (omega arith)
        (omega arith)
        (lane_keep s.s0 t.s0 (load m d) (load m' d) x (load_away m m' i patched d (inr past))),
    three_same s.s1 t.s1 (4 + d) (16 + d) (28 + d) (inr (omega arith)) (inr (omega arith))
        (inr (omega arith)) y.1,
    two_same s.s2 t.s2 (8 + d) (20 + d) (inr (omega arith)) (inr (omega arith)) z.1,
  )
  block_keep d s t past (inr (inl (x, y, z))) = inr (
      inl (
        three_same s.s0 t.s0 d (12 + d) (24 + d) (inr (omega arith)) (inr (omega arith))
            (inr (omega arith)) x.1,
        two_keep (lane s.s1 (load m (4 + d))) (lane t.s1 (load m' (4 + d))) (16 + d) (28 + d)
            (omega arith) (omega arith)
            (lane_keep s.s1 t.s1 (load m (4 + d)) (load m' (4 + d)) y
              (load_away m m' i patched (4 + d) (inr (omega arith)))),
        two_same s.s2 t.s2 (8 + d) (20 + d) (inr (omega arith)) (inr (omega arith)) z.1,
      ))
  block_keep d s t past (inr (inr (x, y, z))) = inr (
      inr (
        three_same s.s0 t.s0 d (12 + d) (24 + d) (inr (omega arith)) (inr (omega arith))
            (inr (omega arith)) x.1,
        three_same s.s1 t.s1 (4 + d) (16 + d) (28 + d) (inr (omega arith)) (inr (omega arith))
            (inr (omega arith)) y.1,
        two_keep s.s2 t.s2 (8 + d) (20 + d) (omega arith) (omega arith) z,
      ))

  -- Word `j` holds the changed byte, or does not.
  abbrev Holds : ℕ → Type 0
  Holds j = (j ≤ i) × (i < 4 + j)

  abbrev Away : ℕ → Type 0
  Away j = (4 + j ≤ i) ⊎ (i < j)

  three_hit :
      (h j k l : ℕ)
      → 4 + j ≤ k
      → 4 + k ≤ l
      → h < 2 ^ 32
      → Holds j ⊎ Holds k ⊎ Holds l
      → Differ
          (lane (lane (lane h (load m j)) (load m k)) (load m l))
          (lane (lane (lane h (load m' j)) (load m' k)) (load m' l))
  three_hit h j k l p q small (inl here) =
      two_keep (lane h (load m j)) (lane h (load m' j)) k l (omega arith) (omega arith)
        (lane_hit h (load m j) (load m' j) small (load_hit m m' i patched j here.0 here.1))
  three_hit h j k l p q small (inr (inl here)) =
      lane_keep (lane (lane h (load m j)) (load m k)) (lane (lane h (load m' j)) (load m' k))
        (load m l) (load m' l)
        (subst (λ w. Differ (lane (lane h (load m j)) (load m k)) (lane (lane h w) (load m' k)))
          (load_away m m' i patched j (inl (omega arith)))
          (lane_hit (lane h (load m j)) (load m k) (load m' k) (lane-lt h (load m j))
            (load_hit m m' i patched k here.0 here.1)))
        (load_away m m' i patched l (inr (omega arith)))
  three_hit h j k l p q small (inr (inr here)) =
      subst
        (λ w. Differ (lane (lane (lane h (load m j)) (load m k)) (load m l)) (lane w (load m' l)))
        (ap₂ lane (ap₂ lane refl (load_away m m' i patched j (inl (omega arith))))
          (load_away m m' i patched k (inl (omega arith))))
        (lane_hit (lane (lane h (load m j)) (load m k)) (load m l) (load m' l)
          (lane-lt (lane h (load m j)) (load m k)) (load_hit m m' i patched l here.0 here.1))

  two_hit :
      (h j k : ℕ)
      → 4 + j ≤ k
      → h < 2 ^ 32
      → Holds j ⊎ Holds k
      → Differ (lane (lane h (load m j)) (load m k)) (lane (lane h (load m' j)) (load m' k))
  two_hit h j k p small (inl here) =
      lane_keep (lane h (load m j)) (lane h (load m' j)) (load m k) (load m' k)
        (lane_hit h (load m j) (load m' j) small (load_hit m m' i patched j here.0 here.1))
        (load_away m m' i patched k (inr (omega arith)))
  two_hit h j k p small (inr here) =
      subst (λ w. Differ (lane (lane h (load m j)) (load m k)) (lane (lane h w) (load m' k)))
        (load_away m m' i patched j (inl (omega arith)))
        (lane_hit (lane h (load m j)) (load m k) (load m' k) (lane-lt h (load m j))
          (load_hit m m' i patched k here.0 here.1))

  holders :
      (d : ℕ)
      → d ≤ i
      → i < d + 32
      → (Holds d ⊎ Holds (12 + d) ⊎ Holds (24 + d))
        ⊎ (Holds (4 + d) ⊎ Holds (16 + d) ⊎ Holds (28 + d))
        ⊎ (Holds (8 + d) ⊎ Holds (20 + d))
  holders d from till = ground arith

  pub block_hit :
      (d : ℕ) (s : Lanes)
      → d ≤ i
      → i < d + 32
      → InWords s
      → OneOff (block_step m d s) (block_step m' d s)
  block_hit d s from till (a, b, c) = elim (holders d from till) [
    | inl h ↦ inl (
      three_hit s.s0 d (12 + d) (24 + d) (omega arith) (omega arith) a h,
      three_same s.s1 s.s1 (4 + d) (16 + d) (28 + d) (ground arith) (ground arith) (ground arith)
          refl,
      two_same s.s2 s.s2 (8 + d) (20 + d) (ground arith) (ground arith) refl,
    )
    | inr (inl h) ↦ inr (
        inl (
          three_same s.s0 s.s0 d (12 + d) (24 + d) (ground arith) (ground arith) (ground arith)
              refl,
          three_hit s.s1 (4 + d) (16 + d) (28 + d) (omega arith) (omega arith) b h,
          two_same s.s2 s.s2 (8 + d) (20 + d) (ground arith) (ground arith) refl,
        ))
    | inr (inr h) ↦ inr (
        inr (
          three_same s.s0 s.s0 d (12 + d) (24 + d) (ground arith) (ground arith) (ground arith)
              refl,
          three_same s.s1 s.s1 (4 + d) (16 + d) (28 + d) (ground arith) (ground arith)
              (ground arith) refl,
          two_hit s.s2 (8 + d) (20 + d) (omega arith) c h,
        ))
  ]
