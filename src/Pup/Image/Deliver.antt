-- ===== src/Pup/Image/Deliver.antt =====
-- Chunks fed one after another, up to the decision to boot.
use mathlib.Core.Path.{subst}
use dma.Base.{ℕ, zero, suc, ◌+◌, ◌-◌, ◌<◌, ◌≤◌, ◌≡◌, refl, sym, ap, ◌∙◌, arith}
use dma.Base.{ltb, ltb→lt, true, false, Bool-cases, ◌⊎◌, inl, inr}
use dma.Base.{List, [], ◌∷◌, ◌++◌, length, length-append, get_or}
use dma.Pup.Image.{Loader, Feeding, feed_impl, feed_bytes}
use dma.Pup.Image.Feed.{Fits, place, place_injective, Advance, feed_bytes-Advance}
use dma.Pup.Image.Fits.{Spares}

get_or-append_left :
    (xs ys : List ℕ) (j : ℕ) → j < length xs → get_or (xs ++ ys) j 0 ≡ get_or xs j 0
get_or-append_left [] ys j h = absurd (omega arith)
get_or-append_left (x ∷ xs) ys zero h = refl
get_or-append_left (x ∷ xs) ys (suc j) h = get_or-append_left xs ys j (omega arith)

get_or-append_right : (xs ys : List ℕ) (j : ℕ) → get_or (xs ++ ys) (length xs + j) 0 ≡ get_or ys j 0
get_or-append_right [] ys j = ap (λ k. get_or ys k 0) (omega arith)
get_or-append_right (x ∷ xs) ys j =
    ap (λ k. get_or (x ∷ xs ++ ys) k 0) (shift (length xs) j) ∙ get_or-append_right xs ys j
  where
    shift : (a b : ℕ) → suc a + b ≡ suc (a + b)
    shift a b = omega arith

-- The loader `l`, set up as `l₀`, holds the first bytes of an image: each at its place, the
-- running program untouched.
pub record Holds {X : Type 0} (prog_start prog_end : ℕ) (l₀ l : Loader X) (bytes : List ℕ)
    : Type 0 where
  pub reloc : l.reloc ≡ l₀.reloc
  pub img_start : l.img_start ≡ l₀.img_start
  pub meta : l.meta ≡ l₀.meta
  pub feed : l.feed ≡ l₀.img_start + length bytes
  pub put :
      (j : ℕ) → j < length bytes → l.mem (place l₀.reloc (l₀.img_start + j)) ≡ get_or bytes j 0
  pub spared : (x : ℕ) → prog_start ≤ x → x < prog_end → l.mem x ≡ l₀.mem x

module _ {X : Type 0} (prog_start prog_end : ℕ) (l₀ : Loader X) (size : ℕ)
    (fits : Fits l₀.reloc l₀.img_start (l₀.img_start + size))
    (spares : Spares prog_start prog_end l₀.reloc l₀.img_start (l₀.img_start + size)) where
  feeding : List ℕ → Loader X → Feeding
  feeding xs l = record { src = xs; len = length xs; at = l.feed; mem = l.mem }

  -- The step on the pieces that `feed_impl` changes.
  Holds-step :
      (bytes xs : List ℕ) (l : Loader X) (f : Feeding)
      → length bytes + length xs ≤ size
      → Holds prog_start prog_end l₀ l bytes
      → Advance l₀.reloc (feeding xs l) f
      → f.len ≡ 0
      → Holds prog_start prog_end l₀ (record l { feed = f.at; mem = f.mem }) (bytes ++ xs)
  unfolding feeding Spares
  Holds-step bytes xs l f room h a done = record {
    reloc = h.reloc;
    img_start = h.img_start;
    meta = h.meta;
    feed = omega (arith, a.at_next, all, h.feed, length-append bytes xs);
    put = put;
    spared = spared;
  }
    where
      all : a.n ≡ length xs
      all = omega (arith, a.within, a.len_left, done)

      put :
          (j : ℕ)
          → j < length (bytes ++ xs)
          → f.mem (place l₀.reloc (l₀.img_start + j)) ≡ get_or (bytes ++ xs) j 0
      put j lt = cases (Bool-cases (ltb j (length bytes)))
        where
          cases :
              (ltb j (length bytes) ≡ true) ⊎ (ltb j (length bytes) ≡ false)
              → f.mem (place l₀.reloc (l₀.img_start + j)) ≡ get_or (bytes ++ xs) j 0
          cases (inl e) =
              let old = ltb→lt j (length bytes) e in
              a.wrote.kept (place l₀.reloc (l₀.img_start + j)) (λ i hi.
                place_injective l₀.reloc l₀.img_start (l₀.img_start + size) (l.feed + i)
                  (l₀.img_start + j) fits (omega (arith, hi, all, h.feed, room))
                  (omega (arith, old, room)) (omega (arith, h.feed, old)))
              ∙ h.put j old
              ∙ sym (get_or-append_left bytes xs j old)
          cases (inr e) =
              let new : length bytes ≤ j = ground arith in
              ap (λ x. f.mem (place l₀.reloc x)) (omega (arith, new, h.feed))
              ∙ a.wrote.put (j - length bytes) (omega (arith, new, lt, all, length-append bytes xs))
              ∙ sym (get_or-append_right bytes xs (j - length bytes))
              ∙ ap (λ k. get_or (bytes ++ xs) k 0) (omega (arith, new))

      spared : (x : ℕ) → prog_start ≤ x → x < prog_end → f.mem x ≡ l₀.mem x
      spared x lo hi =
          a.wrote.kept x (λ j hj e. ground (
            arith,
            spares (l.feed + j) (omega (arith, h.feed)) (omega (arith, h.feed, hj, all, room)),
            e,
          ))
          ∙ h.spared x lo hi

  pub feed_impl-Holds :
      (bytes xs : List ℕ) (l : Loader X)
      → length bytes + length xs ≤ size
      → Holds prog_start prog_end l₀ l bytes
      → Holds prog_start prog_end l₀ (feed_impl xs l) (bytes ++ xs)
  unfolding feed_impl feeding
  feed_impl-Holds bytes xs l room h =
      let (a, done) =
        feed_bytes-Advance l₀.reloc l₀.img_start (l₀.img_start + size) (feeding xs l) fits
          (omega (arith, h.feed, room)) in
      subst
        (λ r.
          Holds prog_start prog_end l₀
            (record l {
              feed = (feed_bytes r (feeding xs l)).at;
              mem = (feed_bytes r (feeding xs l)).mem;
            })
            (bytes ++ xs))
        (sym h.reloc) (Holds-step bytes xs l (feed_bytes l₀.reloc (feeding xs l)) room h a done)
