-- ===== src/Pup/Image/Feed.antt =====
-- `feed_impl` writes each byte of the image to its place: the relocation buffer for an address of
-- the running program, the address itself otherwise.
use mathlib.Core.Path.{subst}
use dma.Base.{ℕ, zero, suc, ◌+◌, ◌-◌, ◌^◌, ◌<◌, ◌≤◌, ◌≡◌, ◌≢◌, refl, sym, ap, ◌∙◌, arith, u32}
use dma.Base.{ltb, leb, min, ◌==◌, ◌&&◌, Bool, true, false, ◌⊎◌, inl, inr}
use dma.Base.{if◌then◌else◌, drop, List, [], ◌∷◌}
use dma.Pup.Image.{Reloc, Feeding, copy_to, feed_before, feed_inside, feed_rest}
use dma.Pup.Image.{feed_bytes}
use dma.Pup.Image.Store.{Wrote, Wrote-none, Wrote-memcpy, Wrote-then}

abbrev pub place : Reloc → ℕ → ℕ
place r a = if leb r.tgt_start a && ltb a r.tgt_end then r.buf_start + (a - r.tgt_start) else a

-- The image `[s, e)` stands in the address space, and a relocation buffer stands behind it.
pub record Fits (r : Reloc) (s e : ℕ) : Type 0 where
  pub low : e < 2 ^ 32
  pub moved :
      ((r.size ≡ 0) × (r.tgt_start ≡ 0) × (r.tgt_end ≡ 0))
      ⊎ ((0 < r.size)
          × (r.tgt_start ≤ r.tgt_end)
          × (s ≤ r.tgt_start)
          × (r.tgt_end ≤ e)
          × (e ≤ r.buf_start)
          × (r.buf_start + (r.tgt_end - r.tgt_start) < 2 ^ 32))

pub place_injective :
    (r : Reloc) (s e a b : ℕ) → Fits r s e → a < e → b < e → a ≢ b → place r a ≢ place r b
place_injective r s e a b fits ha hb ne same = go fits.moved
  where
    go :
        ((r.size ≡ 0) × (r.tgt_start ≡ 0) × (r.tgt_end ≡ 0))
          ⊎ ((0 < r.size)
              × (r.tgt_start ≤ r.tgt_end)
              × (s ≤ r.tgt_start)
              × (r.tgt_end ≤ e)
              × (e ≤ r.buf_start)
              × (r.buf_start + (r.tgt_end - r.tgt_start) < 2 ^ 32))
        → ⊥
    go (inl h) = ground arith
    go (inr h) = ground arith

-- `n` bytes further.
pub record Advance (r : Reloc) (f f' : Feeding) : Type 0 where
  pub n : ℕ
  pub within : n ≤ f.len
  pub left : f'.src ≡ drop n f.src
  pub len_left : f'.len ≡ f.len - n
  pub at_next : f'.at ≡ f.at + n
  pub wrote : Wrote (place r) f.src f.at n f.mem f'.mem

Advance-none : (r : Reloc) (f : Feeding) → Advance r f f
Advance-none r f = record {
  n = 0;
  within = omega arith;
  left = refl;
  len_left = omega arith;
  at_next = omega arith;
  wrote = Wrote-none (place r) f.src f.at f.mem;
}

Advance-copy :
    (r : Reloc) (dst cnt : ℕ) (f : Feeding)
    → cnt ≤ f.len
    → f.at + f.len < 2 ^ 32
    → ((j : ℕ) → j < cnt → place r (f.at + j) ≡ dst + j)
    → Advance r f (copy_to dst cnt f)
Advance-copy r dst cnt f h low at = record {
  n = cnt;
  within = h;
  left = refl;
  len_left = omega arith;
  at_next = omega arith;
  wrote = Wrote-memcpy (place r) f.src f.at cnt dst f.mem at;
}

before-Advance :
    (r : Reloc) (f : Feeding)
    → f.at + f.len < 2 ^ 32
    → Advance r f (feed_before r f)
      × ((r.tgt_start ≤ (feed_before r f).at)
          ⊎ ((feed_before r f).at + (feed_before r f).len ≤ r.tgt_start))
before-Advance r f low = split (ltb f.at r.tgt_start && ltb r.tgt_start (u32 (f.at + f.len))) refl
  where
    split :
        (b : Bool)
        → (ltb f.at r.tgt_start && ltb r.tgt_start (u32 (f.at + f.len))) ≡ b
        → Advance r f (if b then copy_to f.at (r.tgt_start - f.at) f else f)
          × ((r.tgt_start ≤ (if b then copy_to f.at (r.tgt_start - f.at) f else f).at)
              ⊎ ((if b then copy_to f.at (r.tgt_start - f.at) f else f).at
                    + (if b then copy_to f.at (r.tgt_start - f.at) f else f).len
                  ≤ r.tgt_start))
    split true e =
        let span : (f.at < r.tgt_start) × (r.tgt_start < f.at + f.len) = ground arith in
        (
          Advance-copy r f.at (r.tgt_start - f.at) f (omega (arith, span)) low
              (λ j h. ground (arith, span)),
          inl (omega (arith, span)),
        )
    split false e = (Advance-none r f, ground arith)

-- What is left lies outside the program.
abbrev Outside : Reloc → Feeding → Type 0
Outside r f = (r.tgt_end ≤ f.at) ⊎ ((f.len ≡ 0) ⊎ (f.at + f.len ≤ r.tgt_start))

inside-Advance :
    (r : Reloc) (f : Feeding)
    → f.at + f.len < 2 ^ 32
    → r.buf_start + (r.tgt_end - r.tgt_start) < 2 ^ 32
    → (r.tgt_start ≤ f.at) ⊎ (f.at + f.len ≤ r.tgt_start)
    → Advance r f (feed_inside r f) × Outside r (feed_inside r f)
inside-Advance r f low room side = split (leb r.tgt_start f.at && ltb f.at r.tgt_end) refl
  where
    moved : Feeding
    moved = copy_to (u32 (r.buf_start + (f.at - r.tgt_start))) (min (r.tgt_end - f.at) f.len) f

    split :
        (b : Bool)
        → (leb r.tgt_start f.at && ltb f.at r.tgt_end) ≡ b
        → Advance r f (if b then moved else f) × Outside r (if b then moved else f)
    split true e =
        let span : (r.tgt_start ≤ f.at) × (f.at < r.tgt_end) = ground arith in
        (
          Advance-copy r (u32 (r.buf_start + (f.at - r.tgt_start))) (min (r.tgt_end - f.at) f.len) f
              (omega arith) low (λ j h. ground (arith, span)),
          ground (arith, span),
        )
    split false e = (Advance-none r f, ground arith)

rest-Advance :
    (r : Reloc) (f : Feeding)
    → f.at + f.len < 2 ^ 32
    → Outside r f
    → Advance r f (feed_rest f) × ((feed_rest f).len ≡ 0)
rest-Advance r f low out = split (f.len == 0) refl
  where
    split :
        (b : Bool)
        → (f.len == 0) ≡ b
        → Advance r f (if b then f else copy_to f.at f.len f)
          × ((if b then f else copy_to f.at f.len f).len ≡ 0)
    split true e = (Advance-none r f, ground arith)
    split false e =
        let some_left : f.len ≢ 0 = ground arith in
        (
          Advance-copy r f.at f.len f (omega arith) low (λ j h. ground (arith, some_left)),
          omega arith,
        )

drop_nil : (k : ℕ) → drop {A = ℕ} k [] ≡ []
drop_nil zero = refl
drop_nil (suc k) = refl

drop-drop : (k n : ℕ) (xs : List ℕ) → drop k (drop n xs) ≡ drop (n + k) xs
drop-drop k zero xs = ap (λ m. drop m xs) (omega arith)
drop-drop k (suc n) [] = drop_nil k ∙ sym (drop_nil (suc n + k))
drop-drop k (suc n) (x ∷ xs) = drop-drop k n xs ∙ ap (λ m. drop m (x ∷ xs)) (shift n k)
  where
    shift : (a b : ℕ) → suc (a + b) ≡ suc a + b
    shift a b = omega arith

Advance-then :
    (r : Reloc) (s e : ℕ) (f g h : Feeding)
    → Fits r s e
    → f.at + f.len ≤ e
    → Advance r f g
    → Advance r g h
    → Advance r f h
Advance-then r s e f g h fits le a b = record {
  n = a.n + b.n;
  within = omega (arith, a.within, b.within, a.len_left);
  left = b.left ∙ ap (drop b.n) a.left ∙ drop-drop b.n a.n f.src;
  len_left = omega (arith, a.len_left, b.len_left);
  at_next = omega (arith, a.at_next, b.at_next);
  wrote =
      Wrote-then (place r) f.src f.at a.n b.n f.mem g.mem h.mem
        (λ i j hi hj.
          place_injective r s e (f.at + a.n + j) (f.at + i) fits
            (omega (arith, hi, hj, a.within, b.within, a.len_left)) (omega (arith, hi, a.within))
            (omega (arith, hi)))
        a.wrote
        (subst (λ l. Wrote (place r) l (f.at + a.n) b.n g.mem h.mem) a.left
          (subst (λ x. Wrote (place r) g.src x b.n g.mem h.mem) a.at_next b.wrote));
}

-- The whole of `feed_impl`.
pub feed_bytes-Advance :
    (r : Reloc) (s e : ℕ) (f : Feeding)
    → Fits r s e
    → f.at + f.len ≤ e
    → Advance r f (feed_bytes r f) × ((feed_bytes r f).len ≡ 0)
unfolding feed_bytes
feed_bytes-Advance r s e f fits le = split (r.size == 0) refl fits.moved
  where
    split :
        (b : Bool)
        → (r.size == 0) ≡ b
        → ((r.size ≡ 0) × (r.tgt_start ≡ 0) × (r.tgt_end ≡ 0))
          ⊎ ((0 < r.size)
              × (r.tgt_start ≤ r.tgt_end)
              × (s ≤ r.tgt_start)
              × (r.tgt_end ≤ e)
              × (e ≤ r.buf_start)
              × (r.buf_start + (r.tgt_end - r.tgt_start) < 2 ^ 32))
        → Advance r f (feed_rest (if b then f else feed_inside r (feed_before r f)))
          × ((feed_rest (if b then f else feed_inside r (feed_before r f))).len ≡ 0)
    split true e (inl h) = rest-Advance r f (omega (arith, fits.low)) (inl (omega arith))
    split true e (inr h) = absurd (ground arith)
    split false e (inl h) = absurd (ground arith)
    split false _ (inr h) =
        let (a, side) = before-Advance r f (omega (arith, fits.low)) in
        let g = feed_before r f in
        let low_g : g.at + g.len < 2 ^ 32 =
          omega (arith, fits.low, a.within, a.at_next, a.len_left) in
        let (b, out) = inside-Advance r g low_g h.5 side in
        let i = feed_inside r g in
        let low_i : i.at + i.len < 2 ^ 32 = omega (arith, low_g, b.within, b.at_next, b.len_left) in
        let (c, done) = rest-Advance r i low_i out in
        (
          Advance-then r s e f g (feed_rest i) fits le a (
              Advance-then r s e g i (feed_rest i) fits
                (omega (arith, le, a.within, a.at_next, a.len_left)) b c),
          done,
        )
