-- ===== src/Pup/Fcs/Detect.antt =====
-- What the frame check sequence detects.
use dma.Base.{ℕ, ◌+◌, ◌*◌, ◌/◌, ◌%◌, ◌^◌, ◌<◌, ◌≡◌, ◌≢◌, refl, sym, ap, ◌∙◌, arith}
use dma.Base.{bit_xor, get_or, all_below, all_below_sound, ◌==◌, ==→eq, true}
use dma.Base.{List, [], ◌∷◌, ◌++◌, IsBytes}
use dma.Base.Bits.{bit_xor_comm, bit_xor_injective, zero-bit_xor}
use dma.Base.Bytes.{bit_xor_split, bit_xor-lt}
use dma.Pup.Serial.{xor_byte_parts}
use dma.Pup.Fcs.{fcs_byte, fcs16}
use dma.Pup.Fcs.Serial.{fcs_byte_lem, fcs16-append, fcs16-lt, fcstab-lt}
use dma.Pup.Fcs.Table.{fcstab}

-- The index of the entry with a given high byte.
find_high : ℕ → List ℕ → ℕ
find_high h [] = 0
find_high h (x ∷ xs) = elim (x / 2 ^ 8 == h) [ true ↦ 0 | _ ↦ find_high h xs + 1 ]

high_distinct : all_below 256 (λ i. find_high (get_or fcstab i 0 / 2 ^ 8) fcstab == i) ≡ true
unfolding all_below fcstab find_high
high_distinct = refl

-- An entry is known by its high byte.
high_injective :
    (i j : ℕ) → i < 256 → j < 256 → get_or fcstab i 0 / 2 ^ 8 ≡ get_or fcstab j 0 / 2 ^ 8 → i ≡ j
high_injective i j hi hj e = sym (back i hi) ∙ ap (λ h. find_high h fcstab) e ∙ back j hj
  where
    back : (k : ℕ) → k < 256 → find_high (get_or fcstab k 0 / 2 ^ 8) fcstab ≡ k
    back k hk = ==→eq _ _ (all_below_sound 256 _ k high_distinct hk)

-- One step: the high byte is the entry's, the low byte is mixed with the old high byte.
fcs_byte_bytes :
    (c b : ℕ)
    → c < 2 ^ 16
    → b < 256
    → let t = get_or fcstab (bit_xor (c % 2 ^ 8) b) 0 in
      (bit_xor (c % 2 ^ 8) b < 256)
      × (fcs_byte c b ≡ t / 2 ^ 8 * 2 ^ 8 + bit_xor (c / 2 ^ 8) (t % 2 ^ 8))
      × (bit_xor (c / 2 ^ 8) (t % 2 ^ 8) < 256)
fcs_byte_bytes c b hc hb = mixed (get_or fcstab (bit_xor (c % 2 ^ 8) b) 0) refl
  where
    mixed :
        (t : ℕ)
        → get_or fcstab (bit_xor (c % 2 ^ 8) b) 0 ≡ t
        → (bit_xor (c % 2 ^ 8) b < 256)
          × (fcs_byte c b ≡ t / 2 ^ 8 * 2 ^ 8 + bit_xor (c / 2 ^ 8) (t % 2 ^ 8))
          × (bit_xor (c / 2 ^ 8) (t % 2 ^ 8) < 256)
    mixed t e = ground (
      arith,
      fcs_byte_lem c b hc hb,
      xor_byte_parts c b hb,
      fcstab-lt (bit_xor (c % 2 ^ 8) b),
      bit_xor_split 8 0 (c / 2 ^ 8) (t / 2 ^ 8) (t % 2 ^ 8),
      zero-bit_xor (t / 2 ^ 8),
      bit_xor-lt 8 (c / 2 ^ 8) (t % 2 ^ 8),
    )

-- Two steps that end alike looked at the same entry from the same high byte.
fcs_byte_injective :
    (c c' b b' : ℕ)
    → c < 2 ^ 16
    → c' < 2 ^ 16
    → b < 256
    → b' < 256
    → fcs_byte c b ≡ fcs_byte c' b'
    → (bit_xor (c % 2 ^ 8) b ≡ bit_xor (c' % 2 ^ 8) b') × (c / 2 ^ 8 ≡ c' / 2 ^ 8)
fcs_byte_injective c c' b b' hc hc' hb hb' e =
    let left = fcs_byte_bytes c b hc hb in
    let right = fcs_byte_bytes c' b' hc' hb' in
    let i = bit_xor (c % 2 ^ 8) b in
    let j = bit_xor (c' % 2 ^ 8) b' in
    let same : i ≡ j = high_injective i j left.0 right.0 (omega arith) in
    (
      same,
      bit_xor_injective (c / 2 ^ 8) (c' / 2 ^ 8) (get_or fcstab j 0 % 2 ^ 8)
          (ground (arith, ap (λ (k : ℕ). get_or fcstab k 0) same)),
    )

fcs_byte_state :
    (c c' b : ℕ) → c < 2 ^ 16 → c' < 2 ^ 16 → b < 256 → fcs_byte c b ≡ fcs_byte c' b → c ≡ c'
fcs_byte_state c c' b hc hc' hb e =
    let parts = fcs_byte_injective c c' b b hc hc' hb hb e in
    omega (arith, parts.1, bit_xor_injective (c % 2 ^ 8) (c' % 2 ^ 8) b parts.0)

-- The same bytes keep two registers apart.
fcs16_injective :
    (bs : List ℕ) (c c' : ℕ)
    → c < 2 ^ 16
    → c' < 2 ^ 16
    → IsBytes bs
    → fcs16 c bs ≡ fcs16 c' bs
    → c ≡ c'
unfolding fcs16
fcs16_injective [] c c' hc hc' hb e = e
fcs16_injective (b ∷ bs) c c' hc hc' hb e = fcs_byte_state c c' b hc hc' hb.0 (
    fcs16_injective bs (fcs_byte c b) (fcs_byte c' b) (fcs_byte_lem c b hc hb.0).1
      (fcs_byte_lem c' b hc' hb.0).1 hb.1 e)

xor_byte_injective : (q b b' : ℕ) → bit_xor q b ≡ bit_xor q b' → b ≡ b'
xor_byte_injective q b b' e = bit_xor_injective b b' q (bit_xor_comm b q ∙ e ∙ bit_xor_comm q b')

-- Two bytes are known by what they make of a register.
pair_injective :
    (c x y x' y' : ℕ)
    → c < 2 ^ 16
    → x < 256
    → y < 256
    → x' < 256
    → y' < 256
    → fcs_byte (fcs_byte c x) y ≡ fcs_byte (fcs_byte c x') y'
    → (x ≡ x') × (y ≡ y')
pair_injective c x y x' y' hc hx hy hx' hy' e = (first, second)
  where
    last :
        (bit_xor (fcs_byte c x % 2 ^ 8) y ≡ bit_xor (fcs_byte c x' % 2 ^ 8) y')
        × (fcs_byte c x / 2 ^ 8 ≡ fcs_byte c x' / 2 ^ 8)
    last =
        fcs_byte_injective (fcs_byte c x) (fcs_byte c x') y y' (fcs_byte_lem c x hc hx).1
          (fcs_byte_lem c x' hc hx').1 hy hy' e

    first : x ≡ x'
    first =
        let left = fcs_byte_bytes c x hc hx in
        let right = fcs_byte_bytes c x' hc hx' in
        xor_byte_injective (c % 2 ^ 8) x x' (
          high_injective (bit_xor (c % 2 ^ 8) x) (bit_xor (c % 2 ^ 8) x') left.0 right.0
            (omega (arith, last.1)))

    second : y ≡ y'
    second =
        xor_byte_injective (fcs_byte c x % 2 ^ 8) y y'
          (last.0 ∙ ap (λ t. bit_xor (fcs_byte c t % 2 ^ 8) y') (sym first))

-- An error burst within two neighbouring bytes is always detected: two messages of bytes that
-- differ nowhere but in two neighbouring bytes, and differ there, have different `fcs16`.
pub fcs16-burst :
    (c : ℕ) (pre : List ℕ) (x y x' y' : ℕ) (post : List ℕ)
    → c < 2 ^ 16
    → IsBytes pre
    → (x < 256) × (y < 256) × (x' < 256) × (y' < 256)
    → IsBytes post
    → ¬ ((x ≡ x') × (y ≡ y'))
    → fcs16 c (pre ++ x ∷ y ∷ post) ≢ fcs16 c (pre ++ x' ∷ y' ∷ post)
fcs16-burst c pre x y x' y' post hc hpre h hpost differ e =
    differ (pair_injective (fcs16 c pre) x y x' y' r h.0 h.1 h.2 h.3 meet)
  where
    r : fcs16 c pre < 2 ^ 16
    r = fcs16-lt c pre hc hpre

    after :
        (a b : ℕ)
        → fcs16 c (pre ++ a ∷ b ∷ post) ≡ fcs16 (fcs_byte (fcs_byte (fcs16 c pre) a) b) post
    after a b = fcs16-append c pre (a ∷ b ∷ post) ∙ (unfold fcs16 in refl)

    small : (a b : ℕ) → a < 256 → b < 256 → fcs_byte (fcs_byte (fcs16 c pre) a) b < 2 ^ 16
    small a b ha hb =
        (fcs_byte_lem (fcs_byte (fcs16 c pre) a) b (fcs_byte_lem (fcs16 c pre) a r ha).1 hb).1

    meet : fcs_byte (fcs_byte (fcs16 c pre) x) y ≡ fcs_byte (fcs_byte (fcs16 c pre) x') y'
    meet =
        fcs16_injective post (fcs_byte (fcs_byte (fcs16 c pre) x) y)
          (fcs_byte (fcs_byte (fcs16 c pre) x') y') (small x y h.0 h.1) (small x' y' h.2 h.3) hpost
          (sym (after x y) ∙ e ∙ after x' y')
