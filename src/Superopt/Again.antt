-- ===== src/Superopt/Again.antt =====
-- `commit_region`, which counts the leading zeros of a 16-bit map on 32 bits.
use dma.Base.Bytes.{bit_and_mask}
use mathlib.Core.Path.{subst}
use native.Mathlib.Nat.{div-eq_of_lt, pow-le-pow_right}
use dma.Base.{
  ℕ, zero, suc, ◌+◌, ◌-◌, ◌/◌, ◌^◌, ◌<◌, ◌≡◌, ◌≢◌, refl, sym, ap, ◌∙◌, fun_ext, arith, Bool, true,
  false, ◌==◌, ltb, leb, if◌then◌else◌, Bool-cases, inl, inr, ne→==, ==→eq, lt→ltb, bit_and, ◌&&◌,
}
use dma.Superopt.Ppa.{
  Ppa, Outcome, done, undefined_behaviour, out_of_fuel, ◌>>=◌, assign, region_index, update_region,
  unfloat_region, commit_region, commit_bitmap, commit_lz, clz, clz_from, rk_small_page,
  region_count,
}

clz_from_step : (k x : ℕ) → x < 2 ^ k → clz_from (suc k) x ≡ suc (clz_from k x)
unfolding clz_from
clz_from_step k x below = ap (λ b. if b then suc (clz_from k x) else 0) (lt→ltb x (2 ^ k) below)

-- A zero for each place above `k`.
clz_from-above : (j k x : ℕ) → x < 2 ^ k → clz_from (j + k) x ≡ j + clz_from k x
clz_from-above zero k x below = ap (λ n. clz_from n x) {y = k} (omega arith) ∙ omega arith
clz_from-above (suc j) k x below =
    ap (λ n. clz_from n x) {y = suc (j + k)} (omega arith)
    ∙ clz_from_step (j + k) x (
        omega
          (arith, below, pow-le-pow_right {n = 2} (omega arith) {i = k} {j = j + k} (omega arith)))
    ∙ omega (arith, clz_from-above j k x below)

commit_bitmap_kept : (bitmap : ℕ) → bitmap < 2 ^ 16 → bitmap ≢ 0 → commit_bitmap bitmap ≡ bitmap
unfolding commit_bitmap commit_lz
commit_bitmap_kept bitmap small some_free =
    ap (λ b. bit_and bitmap (2 ^ 16 - 1 - 0x8000 / 2 ^ (if b then 0 else clz bitmap)))
      (ne→== bitmap 0 some_free)
    ∙ ap (λ n. bit_and bitmap (2 ^ 16 - 1 - n)) {y = 0} shifted_out
    ∙ bit_and_mask 16 bitmap
    ∙ omega arith
  where
    shifted_out : 0x8000 / 2 ^ clz bitmap ≡ 0
    shifted_out = div-eq_of_lt (
        omega (
          arith,
          pow-le-pow_right {n = 2} (omega arith) {i = 16} {j = clz bitmap}
              (omega (arith, clz_from-above 16 16 bitmap small)),
        ))

-- Every map has a free place.
abbrev pub SomeFree : Ppa → Type 0
SomeFree p = (i : ℕ) → ((p.regions i).bitmap ≢ 0) × ((p.regions i).bitmap < 2 ^ 16)

abbrev Kept : Ppa → Outcome (ℕ × Ppa) → Type 0
Kept p (done (a, q)) = q ≡ p
Kept p undefined_behaviour = Unit
Kept p out_of_fuel = Unit

module _ (p : Ppa) (free : SomeFree p) where
  same_map : (i : ℕ) → commit_bitmap (p.regions i).bitmap ≡ (p.regions i).bitmap
  same_map i = commit_bitmap_kept (p.regions i).bitmap (free i).1 (free i).0

  rewritten :
      (i : ℕ)
      → assign p.regions i (record (p.regions i) { bitmap = commit_bitmap (p.regions i).bitmap })
        ≡ p.regions
  rewritten i = fun_ext (λ j. elim (Bool-cases (j == i)) [
    | inl e ↦ rw e (
        ap (λ b. record (p.regions i) { bitmap = b }) (same_map i)
        ∙ ap p.regions (sym (==→eq j i e)))
    | inr ne ↦ rw ne refl
  ])

  if-Kept : (b : Bool) (x y : Outcome (ℕ × Ppa)) → Kept p x → Kept p y → Kept p (if b then x else y)
  if-Kept true x y h k = h
  if-Kept false x y h k = k

  abbrev Stays : Outcome Ppa → Type 0
  Stays (done q) = q ≡ p
  Stays undefined_behaviour = Unit
  Stays out_of_fuel = Unit

  >>=-Kept :
      (m : Outcome Ppa) (f : Ppa → Outcome (ℕ × Ppa)) → Stays m → Kept p (f p) → Kept p (m >>= f)
  >>=-Kept (done q) f same k = subst (λ r. Kept p (f r)) (sym same) k
  >>=-Kept undefined_behaviour f same k = tt
  >>=-Kept out_of_fuel f same k = tt

  index-Kept :
      (m : Outcome ℕ) (f : ℕ → Outcome (ℕ × Ppa)) → ((i : ℕ) → Kept p (f i)) → Kept p (m >>= f)
  index-Kept (done i) f k = k i
  index-Kept undefined_behaviour f k = tt
  index-Kept out_of_fuel f k = tt

  write-Stays :
      (i : ℕ)
      → Stays (update_region i (λ r. record r { bitmap = commit_bitmap (p.regions i).bitmap }) p)
  unfolding update_region
  write-Stays i =
      elim (ltb i region_count)
        as (λ b. Stays (
          if b
          then done (record p {
            regions =
                assign p.regions i
                  (record (p.regions i) { bitmap = commit_bitmap (p.regions i).bitmap });
          })
          else undefined_behaviour)) [
            | true ↦ ap (λ rs. record p { regions = rs }) (rewritten i)
            | false ↦ tt
          ]

  unfloat-Stays :
      (i from : ℕ)
      → Stays (if commit_bitmap (p.regions i).bitmap == 0 then unfloat_region i from p else done p)
  unfloat-Stays i from =
      subst (λ b. Stays (if b then unfloat_region i from p else done p))
        (sym
          (ne→== (commit_bitmap (p.regions i).bitmap) 0 (λ e. (free i).0 (sym (same_map i) ∙ e))))
        refl

  -- With every map as it was, only the choice of the address is left.
  commit-Kept : (fuel i from kind : ℕ) → Kept p (commit_region fuel i from kind p)
  unfolding commit_region
  commit-Kept zero i from kind = tt
  commit-Kept (suc fuel) i from kind =
      if-Kept (leb kind rk_small_page && ltb from kind) _ _
        (>>=-Kept _ _ (write-Stays i) (
          >>=-Kept _ _ (unfloat-Stays i from) (
            if-Kept (suc from == kind) _ _ refl
              (index-Kept (region_index _ _) _ (λ idx. commit-Kept fuel idx (suc from) kind)))))
        tt

-- Where the map of every region has a free place: whenever commit_region returns an address, it
-- leaves the allocator as it was, so the place it returns is not marked as taken.
pub commit_region-keeps :
    (p q : Ppa) (fuel i from kind address : ℕ)
    → SomeFree p
    → commit_region fuel i from kind p ≡ done (address, q)
    → q ≡ p
commit_region-keeps p q fuel i from kind address free e =
    subst (Kept p) e (commit-Kept p free fuel i from kind)
