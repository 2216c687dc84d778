-- ===== src/Pup/Image/Store.antt =====
-- Writing consecutive bytes to redirected places.
use dma.Base.{ℕ, zero, suc, ◌+◌, ◌-◌, ◌<◌, ◌≤◌, ◌≡◌, ◌≢◌, refl, ap, ◌∙◌, arith}
use dma.Base.{ltb, ltb→lt, leb, ◌&&◌, true, false, if◌then◌else◌}
use dma.Base.{Bool-cases, ◌⊎◌, inl, inr, get_or, drop, List, [], ◌∷◌}
use dma.Pup.Image.{Memory, memcpy}

sub_back : (a b : ℕ) → a + b - a ≡ b
sub_back a b = omega arith

shift : (n i : ℕ) → suc (n + i) ≡ suc n + i
shift n i = omega arith

pub get_or-drop : (n i : ℕ) (xs : List ℕ) → get_or (drop n xs) i 0 ≡ get_or xs (n + i) 0
get_or-drop zero i xs = ap (λ k. get_or xs k 0) (omega arith)
get_or-drop (suc n) i [] = refl
get_or-drop (suc n) i (x ∷ xs) = get_or-drop n i xs ∙ ap (λ k. get_or (x ∷ xs) k 0) (shift n i)

-- The `n` bytes of `src` stand at the places of `f, f + 1, …`; all else is as it was.
pub record Wrote (place : ℕ → ℕ) (src : List ℕ) (f n : ℕ) (m m' : Memory) : Type 0 where
  pub put : (j : ℕ) → j < n → m' (place (f + j)) ≡ get_or src j 0
  pub kept : (x : ℕ) → ((j : ℕ) → j < n → place (f + j) ≢ x) → m' x ≡ m x

pub Wrote-none : (place : ℕ → ℕ) (src : List ℕ) (f : ℕ) (m : Memory) → Wrote place src f 0 m m
Wrote-none place src f m = record { put = λ j h. absurd (omega arith); kept = λ x h. refl }

pub Wrote-memcpy :
    (place : ℕ → ℕ) (src : List ℕ) (f n dst : ℕ) (m : Memory)
    → ((j : ℕ) → j < n → place (f + j) ≡ dst + j)
    → Wrote place src f n m (memcpy m dst src n)
Wrote-memcpy place src f n dst m h = record {
  put = λ j lt. ap (memcpy m dst src n) (h j lt) ∙ written j lt;
  kept = λ x away. outside x away;
}
  where
    written : (j : ℕ) → j < n → memcpy m dst src n (dst + j) ≡ get_or src j 0
    written j lt = ground (arith, ap (λ (k : ℕ). get_or src k 0) (sub_back dst j))

    outside : (x : ℕ) → ((j : ℕ) → j < n → place (f + j) ≢ x) → memcpy m dst src n x ≡ m x
    outside x away = cases (Bool-cases (leb dst x && ltb x (dst + n)))
      where
        cases :
            ((leb dst x && ltb x (dst + n)) ≡ true) ⊎ ((leb dst x && ltb x (dst + n)) ≡ false)
            → memcpy m dst src n x ≡ m x
        cases (inl e) = absurd (
            let within : (dst ≤ x) × (x < dst + n) = ground arith in
            away (x - dst) (omega (arith, within))
              (h (x - dst) (omega (arith, within)) ∙ omega (arith, within)))
        cases (inr e) = ap (λ b. if b then get_or src (x - dst) 0 else m x) e

-- One write after another, when the second spares the places of the first.
pub Wrote-then :
    (place : ℕ → ℕ) (src : List ℕ) (f n k : ℕ) (m m₁ m₂ : Memory)
    → ((i j : ℕ) → i < n → j < k → place (f + n + j) ≢ place (f + i))
    → Wrote place src f n m m₁
    → Wrote place (drop n src) (f + n) k m₁ m₂
    → Wrote place src f (n + k) m m₂
Wrote-then place src f n k m m₁ m₂ apart w₁ w₂ = record { put = put; kept = kept }
  where
    put : (j : ℕ) → j < n + k → m₂ (place (f + j)) ≡ get_or src j 0
    put j h = cases (Bool-cases (ltb j n))
      where
        cases : (ltb j n ≡ true) ⊎ (ltb j n ≡ false) → m₂ (place (f + j)) ≡ get_or src j 0
        cases (inl e) =
            let lt = ltb→lt j n e in w₂.kept (place (f + j)) (λ i h. apart j i lt h) ∙ w₁.put j lt
        cases (inr e) =
            let ge : n ≤ j = ground arith in
            ap (λ i. m₂ (place i)) (omega (arith, ge))
            ∙ w₂.put (j - n) (omega (arith, ge))
            ∙ get_or-drop n (j - n) src
            ∙ ap (λ i. get_or src i 0) (omega (arith, ge))

    kept : (x : ℕ) → ((j : ℕ) → j < n + k → place (f + j) ≢ x) → m₂ x ≡ m x
    kept x away =
        w₂.kept x (λ j h e. away (n + j) (omega arith) (ap place (omega arith) ∙ e))
        ∙ w₁.kept x (λ j h. away j (omega arith))
