-- ===== src/Superopt/Ppa.antt =====
-- The physical page allocator of bcm2835/240-superopt/ppa.c and sopter.h: four sizes of regions,
-- each split into sixteen of the next, with lists of the regions that are partly free.
use dma.Base.{
  ℕ, zero, suc, ◌+◌, ◌-◌, ◌*◌, ◌/◌, ◌%◌, ◌^◌, ◌==◌, ltb, leb, if◌then◌else◌, ◌&&◌, Option, none,
  some, bit_and, bit_or, u16, u32, sub32,
}

-- `RegionKind`, on which the code calculates.
abbrev pub rk_supersection : ℕ
rk_supersection = 0

abbrev pub rk_section : ℕ
rk_section = 1

abbrev pub rk_large_page : ℕ
rk_large_page = 2

abbrev pub rk_small_page : ℕ
rk_small_page = 3

abbrev pub region_count : ℕ
region_count = 0x2220

abbrev pub chain_end : ℕ
chain_end = 0xffff

-- On the device `size_t` and `uintptr_t` have 32 bits.
abbrev pub size_max : ℕ
size_max = 2 ^ 32 - 1

pub record RegionInfo : Type 0 where
  pub bitmap : ℕ
  pub next : ℕ
  pub prev : ℕ

pub record Ppa : Type 0 where
  pub regions : ℕ → RegionInfo
  pub supersection_mask : ℕ
  pub floating_lists : ℕ → ℕ
  pub floating_counts : ℕ → ℕ
  pub allocated_counts : ℕ → ℕ

-- A failed `assert` or an access outside an array is `undefined_behaviour`.
pub data Outcome {ℓ} (A : Type ℓ) : Type ℓ where
  done : A → Outcome A
  undefined_behaviour : Outcome A
  out_of_fuel : Outcome A

abbrev pub assign {ℓ} : {A : Type ℓ} → (ℕ → A) → ℕ → A → ℕ → A
assign f i a j = if j == i then a else f j

-- `REGION_SCALES`; there is no fifth kind.
unfoldable pub region_scale : ℕ → ℕ
region_scale zero = 16 * 1024 * 1024
region_scale (suc zero) = 1 * 1024 * 1024
region_scale (suc (suc zero)) = 64 * 1024
region_scale (suc (suc (suc rk))) = 4 * 1024

unfoldable pub get_region_ptr : ℕ → ℕ → ℕ
get_region_ptr number rk = u32 (region_scale rk * number)

-- `INDEX_OFFSETS`
unfoldable pub index_offset : ℕ → ℕ
index_offset zero = 0x2200
index_offset (suc zero) = 0x2000
index_offset (suc (suc zero)) = 0
index_offset (suc (suc (suc rk))) = 0xdeaddead

unfoldable pub region_index : ℕ → ℕ → Outcome ℕ
region_index i rk = if rk == 3 then undefined_behaviour else done (u32 (i + index_offset rk))

infixl 5 ◌>>=◌
abbrev pub ◌>>=◌ {ℓ κ} : {A : Type ℓ} {B : Type κ} → Outcome A → (A → Outcome B) → Outcome B
done a >>= f = f a
undefined_behaviour >>= f = undefined_behaviour
out_of_fuel >>= f = out_of_fuel

-- `ppa->regions[idx] = f(ppa->regions[idx])`
unfoldable pub update_region : ℕ → (RegionInfo → RegionInfo) → Ppa → Outcome Ppa
update_region idx f p =
    if ltb idx region_count
    then done (record p { regions = assign p.regions idx (f (p.regions idx)) })
    else undefined_behaviour

-- `ppa->floating_lists[rk] = head`
unfoldable pub set_list : ℕ → ℕ → Ppa → Outcome Ppa
set_list rk head p =
    if ltb rk 3
    then done (record p { floating_lists = assign p.floating_lists rk head })
    else undefined_behaviour

unfoldable pub float_region : ℕ → ℕ → Ppa → Outcome Ppa
float_region idx_in_kind rk p = do
  idx ← region_index idx_in_kind rk
  q ←
      update_region idx
        (λ r. record r {
          prev = chain_end;
          next = if p.floating_lists rk == size_max then chain_end else u16 (p.floating_lists rk);
        })
        (record p {
          floating_counts = assign p.floating_counts rk (u32 (p.floating_counts rk + 1));
        })
  set_list rk idx q

-- The list that `unfloat_region` changes is the one numbered by the region.
unfoldable pub unfloat_region : ℕ → ℕ → Ppa → Outcome Ppa
unfloat_region region_idx rk p =
    let next = (p.regions region_idx).next in
    do
      q ←
          (if next == chain_end
            then done (record p {
              floating_counts = assign p.floating_counts rk (sub32 (p.floating_counts rk) 1);
            })
            else update_region next (λ r. record r { prev = chain_end })
                (record p {
                  floating_counts = assign p.floating_counts rk (sub32 (p.floating_counts rk) 1);
                }))
      let prev = (q.regions region_idx).prev
      if prev == chain_end
          then set_list region_idx (if next == chain_end then size_max else next) q
          else update_region prev (λ r. record r { next = next }) q

-- `__builtin_clz`, on 32 bits; 32 at 0, where the builtin has no value.
unfoldable pub clz_from : ℕ → ℕ → ℕ
clz_from zero x = 0
clz_from (suc k) x = let more = suc (clz_from k x) in if ltb x (2 ^ k) then more else 0

abbrev pub clz : ℕ → ℕ
clz x = clz_from 32 x

-- `bitmap &= ~(0x8000 >> lz)`, with its `lz`.
unfoldable pub commit_lz : ℕ → ℕ
commit_lz bitmap = if bitmap == 0 then 0 else clz bitmap

unfoldable pub commit_bitmap : ℕ → ℕ
commit_bitmap bitmap = bit_and bitmap (2 ^ 16 - 1 - 0x8000 / 2 ^ commit_lz bitmap)

-- The recursion goes one kind down each time: three calls are enough.
unfoldable pub commit_region : ℕ → ℕ → ℕ → ℕ → Ppa → Outcome (ℕ × Ppa)
commit_region zero from_region_idx from_region_kind alloc_kind p = out_of_fuel
commit_region (suc fuel) from_region_idx from_region_kind alloc_kind p =
    if leb alloc_kind rk_small_page && ltb from_region_kind alloc_kind
    then (let bitmap = (p.regions from_region_idx).bitmap in
        do
          q ← update_region from_region_idx (λ r. record r { bitmap = commit_bitmap bitmap }) p
          q' ←
              (if commit_bitmap bitmap == 0
                then unfloat_region from_region_idx from_region_kind q
                else done q)
          let child_no = sub32 16 (commit_lz bitmap)
          let from_region_no = sub32 from_region_idx (index_offset from_region_kind)
          let region_no = u32 (child_no + from_region_no * 16)
          if suc from_region_kind == alloc_kind
              then done (get_region_ptr region_no alloc_kind, q')
              else (region_index region_no (suc from_region_kind) >>= λ idx.
                  commit_region fuel idx (suc from_region_kind) alloc_kind q'))
    else undefined_behaviour

-- `while (rki >= RK_Section)`: the nearest larger kind with a region on its list.
unfoldable pub find_list : (ℕ → ℕ) → ℕ → Option ℕ
find_list lists zero = none
find_list lists (suc rki) =
    let larger = find_list lists rki in if lists rki == size_max then larger else some rki

abbrev pub counted : ℕ → Ppa → Ppa
counted rk p = record p {
  allocated_counts = assign p.allocated_counts rk (u32 (p.allocated_counts rk + 1));
}

abbrev pub claim : Ppa → Ppa
claim p = record p {
  supersection_mask =
      bit_and p.supersection_mask (2 ^ 32 - 1 - 2 ^ 31 / 2 ^ clz p.supersection_mask);
}

-- The tail call goes through a supersection on its list: two calls are enough.
unfoldable pub ppa_alloc : ℕ → ℕ → Ppa → Outcome (ℕ × Ppa)
ppa_alloc zero rk p = out_of_fuel
ppa_alloc (suc fuel) rk p = elim (find_list p.floating_lists rk) [
  | some rki ↦
      commit_region 3 (p.floating_lists rki) rki rk p >>= λ (ix, q). done (ix, counted rk q)
  | none ↦
      if p.supersection_mask == 0
      then done (2 ^ 32 - 1, p)
      else if rk == rk_supersection
      then done
          (get_region_ptr (31 - clz p.supersection_mask) rk_supersection, counted rk (claim p))
      else (float_region (31 - clz p.supersection_mask) rk_supersection (claim p) >>= λ q.
          ppa_alloc fuel rk q)
]

-- `region_no` below 32 in the shift `1 << region_no`.
unfoldable pub free_region_recursive : ℕ → ℕ → Ppa → Outcome Ppa
free_region_recursive region_no zero p =
    if ltb region_no 32
    then done (record p { supersection_mask = bit_or p.supersection_mask (2 ^ region_no) })
    else undefined_behaviour
free_region_recursive region_no (suc parent_kind) p = do
  parent_idx ← region_index (region_no / 16) parent_kind
  let bitmap = bit_or (p.regions parent_idx).bitmap (2 ^ (region_no % 16))
  q ← update_region parent_idx (λ r. record r { bitmap = bitmap }) p
  if bitmap == 0xffff
      then (unfloat_region parent_idx parent_kind q >>= λ q'.
          free_region_recursive (region_no / 16) parent_kind q')
      else if bitmap == 0
      then float_region parent_idx parent_kind q
      else done q

unfoldable pub ppa_free : ℕ → ℕ → Ppa → Outcome Ppa
ppa_free address rk p =
    if bit_and address (region_scale rk - 1) == 0
    then (free_region_recursive (address / region_scale rk) rk p >>= λ q. done (record q {
      allocated_counts = assign q.allocated_counts rk (sub32 (q.allocated_counts rk) 1);
    }))
    else undefined_behaviour
