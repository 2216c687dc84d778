-- ===== src/Superopt/Alloc.antt =====
-- The calls that `ppa_alloc` makes, and its tail call.
use dma.Base.{
  ℕ, zero, suc, ◌+◌, ◌-◌, ◌<◌, ◌≤◌, ◌≡◌, ◌≢◌, refl, sym, ap, ◌∙◌, arith, Option, none, some, Bool,
  true, false, ◌==◌, ltb, leb, if◌then◌else◌, Bool-cases, inl, inr, ne→==, lt→ltb, u32, u16, ◌&&◌,
}
use mathlib.Core.Path.{subst}
use dma.Superopt.Ppa.{
  Ppa, RegionInfo, Outcome, done, undefined_behaviour, out_of_fuel, ◌>>=◌, assign, region_index,
  index_offset, update_region, set_list, float_region, unfloat_region, commit_region, commit_bitmap,
  find_list, counted, claim, ppa_alloc, clz, rk_supersection, size_max, chain_end, region_count,
  rk_small_page,
}

abbrev Ends {ℓ} : {A : Type ℓ} → Outcome A → Type 0
Ends (done a) = Unit
Ends undefined_behaviour = Unit
Ends out_of_fuel = ⊥

>>=-Ends {ℓ κ} :
    {A : Type ℓ} {B : Type κ} (m : Outcome A) (f : A → Outcome B)
    → Ends m
    → ((a : A) → Ends (f a))
    → Ends (m >>= f)
>>=-Ends (done a) f h k = k a
>>=-Ends undefined_behaviour f h k = tt
>>=-Ends out_of_fuel f h k = h

if-Ends {ℓ} :
    {A : Type ℓ} (b : Bool) (x y : Outcome A)
    → (b ≡ true → Ends x)
    → (b ≡ false → Ends y)
    → Ends (if b then x else y)
if-Ends true x y h k = h refl
if-Ends false x y h k = k refl

region_index-Ends : (i rk : ℕ) → Ends (region_index i rk)
unfolding region_index
region_index-Ends i rk = if-Ends (rk == 3) undefined_behaviour _ (λ _. tt) (λ _. tt)

update_region-Ends : (i : ℕ) (f : RegionInfo → RegionInfo) (p : Ppa) → Ends (update_region i f p)
unfolding update_region
update_region-Ends i f p = if-Ends (ltb i region_count) _ _ (λ _. tt) (λ _. tt)

set_list-Ends : (rk head : ℕ) (p : Ppa) → Ends (set_list rk head p)
unfolding set_list
set_list-Ends rk head p = if-Ends (ltb rk 3) _ _ (λ _. tt) (λ _. tt)

unfloat_region-Ends : (i rk : ℕ) (p : Ppa) → Ends (unfloat_region i rk p)
unfolding unfloat_region
unfloat_region-Ends i rk p =
    >>=-Ends _ _
      (if-Ends ((p.regions i).next == chain_end) _ _ (λ _. tt) (λ _. update_region-Ends _ _ _))
      (λ q.
        if-Ends ((q.regions i).prev == chain_end) _ _ (λ _. set_list-Ends _ _ _)
          (λ _. update_region-Ends _ _ _))

commit_region-Ends :
    (fuel i from kind : ℕ) (p : Ppa)
    → kind ≤ from + fuel
    → 1 ≤ fuel
    → Ends (commit_region fuel i from kind p)
unfolding commit_region
commit_region-Ends zero i from kind p deep some_fuel = absurd (omega arith)
commit_region-Ends (suc fuel) i from kind p deep some_fuel =
    if-Ends (leb kind rk_small_page && ltb from kind) _ _
      (λ guard. >>=-Ends _ _ (update_region-Ends _ _ _) (λ q.
        >>=-Ends _ _
          (if-Ends (commit_bitmap (p.regions i).bitmap == 0) _ _ (λ _. unfloat_region-Ends _ _ _)
            (λ _. tt))
          (λ q'.
            if-Ends (suc from == kind) _ _ (λ _. tt)
              (λ other. >>=-Ends _ _ (region_index-Ends _ _) (λ idx.
                commit_region-Ends fuel idx (suc from) kind q' (omega arith) (ground arith))))))
      (λ _. tt)

-- A supersection that `float_region` puts on the list.
abbrev floated : ℕ → Ppa → Ppa
floated i p = record p {
  floating_counts = assign p.floating_counts 0 (u32 (p.floating_counts 0 + 1));
  regions = assign p.regions (i + 0x2200) (record (p.regions (i + 0x2200)) {
    prev = chain_end;
    next = if p.floating_lists 0 == size_max then chain_end else u16 (p.floating_lists 0);
  });
  floating_lists = assign p.floating_lists 0 (i + 0x2200);
}

float_region_lem : (i : ℕ) (p : Ppa) → i < 32 → float_region i 0 p ≡ done (floated i p)
unfolding float_region update_region set_list region_index index_offset
float_region_lem i p small =
    ap (λ idx. float_at idx) {y = i + 0x2200} (omega arith)
    ∙ ap
        (λ b.
          (if b
            then done (record (floated i p) { floating_lists = p.floating_lists })
            else undefined_behaviour)
          >>= set_list 0 (i + 0x2200))
        (lt→ltb (i + 0x2200) region_count (omega arith))
  where
    float_at : ℕ → Outcome Ppa
    float_at idx =
        update_region idx
          (λ r. record r {
            prev = chain_end;
            next =
                if p.floating_lists rk_supersection == size_max
                then chain_end
                else u16 (p.floating_lists rk_supersection);
          })
          (record p {
            floating_counts =
                assign p.floating_counts rk_supersection
                  (u32 (p.floating_counts rk_supersection + 1));
          })
        >>= set_list rk_supersection idx

find_list-some :
    (lists : ℕ → ℕ) (rk : ℕ)
    → lists 0 ≢ size_max
    → (rki : ℕ) × (find_list lists (suc rk) ≡ some rki) × (rki ≤ rk)
unfolding find_list
find_list-some lists zero h =
    (0, ap (λ b. if b then none else some 0) (ne→== (lists 0) size_max h), omega arith)
find_list-some lists (suc rk) h = elim (Bool-cases (lists (suc rk) == size_max)) [
  | inl empty ↦
      let (rki, e, below) = find_list-some lists rk h in (rki, rw empty e, omega (arith, below))
  | inr full ↦ (suc rk, rw full refl, omega arith)
]

choice-Ends :
    {A : Type 0} (o : Option ℕ) (f : ℕ → Outcome A) (m : Outcome A)
    → ((rki : ℕ) → o ≡ some rki → Ends (f rki))
    → (o ≡ none → Ends m)
    → Ends (elim o as (λ _. Outcome A) [ some rki ↦ f rki | none ↦ m ])
choice-Ends none f m h k = k refl
choice-Ends (some rki) f m h k = h rki refl

find_list-below : (lists : ℕ → ℕ) (rk rki : ℕ) → find_list lists rk ≡ some rki → rki < rk
unfolding find_list
find_list-below lists zero rki e = ground arith
find_list-below lists (suc rk) rki e = ground (arith, find_list-below lists rk rki)

from_list-Ends :
    (rk rki : ℕ) (p : Ppa)
    → rk ≤ 3
    → Ends {A = ℕ × Ppa}
        (commit_region 3 (p.floating_lists rki) rki rk p >>= λ (ix, q). done (ix, counted rk q))
from_list-Ends rk rki p kinds =
    >>=-Ends _ _ (commit_region-Ends 3 (p.floating_lists rki) rki rk p (omega arith) (omega arith))
      (λ _. tt)

-- Once a supersection is on the list, one call is enough.
listed-Ends :
    (fuel rk : ℕ) (p : Ppa)
    → suc rk ≤ 3
    → p.floating_lists 0 ≢ size_max
    → Ends (ppa_alloc (suc fuel) (suc rk) p)
unfolding ppa_alloc
listed-Ends fuel rk p kinds listed =
    let (found, e, below) = find_list-some p.floating_lists rk listed in
    choice-Ends (find_list p.floating_lists (suc rk)) _ _
      (λ rki _. from_list-Ends (suc rk) rki p kinds)
      (λ none_found. absurd (ground (arith, e, none_found)))

alloc-Ends : (rk : ℕ) (p : Ppa) → rk ≤ 3 → Ends (ppa_alloc 2 rk p)
unfolding ppa_alloc find_list
alloc-Ends zero p kinds = if-Ends (p.supersection_mask == 0) _ _ (λ _. tt) (λ _. tt)
alloc-Ends (suc rk) p kinds =
    choice-Ends (find_list p.floating_lists (suc rk)) _ _
      (λ rki _. from_list-Ends (suc rk) rki p kinds)
      (λ _.
        if-Ends (p.supersection_mask == 0) _ _ (λ _. tt)
          (λ _. if-Ends (suc rk == rk_supersection) _ _ (λ _. tt) (λ _. second)))
  where
    i : ℕ
    i = 31 - clz p.supersection_mask

    second : Ends (float_region i rk_supersection (claim p) >>= λ q. ppa_alloc 1 (suc rk) q)
    second =
        subst (λ o. Ends (o >>= λ q. ppa_alloc 1 (suc rk) q))
          (sym (float_region_lem i (claim p) (omega arith)))
          (listed-Ends 0 rk (floated i (claim p)) kinds (omega arith))

-- For every kind of region and every state of the allocator, ppa_alloc comes to its end: two
-- calls of it are enough, for the second finds the supersection that the first has put on the list.
pub ppa_alloc-ends : (rk : ℕ) (p : Ppa) → rk ≤ 3 → ppa_alloc 2 rk p ≢ out_of_fuel
ppa_alloc-ends rk p kinds e = subst Ends e (alloc-Ends rk p kinds)
