-- ===== src/Superopt/Tests.antt =====
-- The allocator at concrete states.
use dma.Base.{ℕ, ◌*◌, ◌/◌, ◌^◌, ◌≡◌, ◌≢◌, refl, arith}
use dma.Superopt.Ppa.{
  Ppa, Outcome, assign, done, undefined_behaviour, out_of_fuel, ppa_alloc, ppa_free, commit_region,
  clz_from, region_scale, get_region_ptr, find_list, float_region, update_region, set_list,
  region_index, index_offset, commit_lz, commit_bitmap,
}
use dma.Superopt.Refine.{Implements, take_highest, free_set, ppa_alloc-refines}
use dma.Base.{[]}
use dma.Superopt.Init.{fresh, ppa_init}
use dma.Superopt.Alloc.{ppa_alloc-ends}
use dma.Superopt.Free.{next_supersection, ppa_free-ppa_alloc}
use dma.Superopt.Again.{commit_region-keeps}

ppa_alloc-ends_example : ppa_alloc 2 1 fresh ≢ out_of_fuel
ppa_alloc-ends_example = ppa_alloc-ends 1 fresh (omega arith)

ppa_free-ppa_alloc_example :
    (q : Ppa) × (ppa_alloc 1 0 fresh ≡ done (next_supersection fresh * 2 ^ 24, q))
    × (fresh.supersection_mask / 2 ^ next_supersection fresh ≡ 1)
    × (ppa_free (next_supersection fresh * 2 ^ 24) 0 q ≡ done fresh)
ppa_free-ppa_alloc_example = ppa_free-ppa_alloc 0 fresh (omega arith) (omega arith) (omega arith)

-- What commit_region writes back for supersection 1.
abbrev written : Ppa
written = record fresh {
  regions = assign fresh.regions 0x2201 (record (fresh.regions 0x2201) { bitmap = 0xffff });
}

commit_fresh : commit_region 3 0x2201 0 1 fresh ≡ done (16 * 2 ^ 20, written)
unfolding commit_region commit_bitmap commit_lz clz_from get_region_ptr region_scale update_region
    index_offset
commit_fresh = refl

commit_region-keeps_example : written ≡ fresh
commit_region-keeps_example =
    commit_region-keeps fresh written 3 0x2201 0 1 (16 * 2 ^ 20) (λ i. (omega arith, omega arith))
      commit_fresh

-- Two sections in a row, at the same address.
abbrev twice : ℕ → Outcome (ℕ × Ppa) → Outcome (ℕ × ℕ)
twice rk (done (a, q)) = elim (ppa_alloc 2 rk q) [
  | done (b, r) ↦ done (a, b)
  | undefined_behaviour ↦ undefined_behaviour
  | out_of_fuel ↦ out_of_fuel
]
twice rk undefined_behaviour = undefined_behaviour
twice rk out_of_fuel = out_of_fuel

same_section_twice : twice 1 (ppa_alloc 2 1 fresh) ≡ done (31 * 2 ^ 24, 31 * 2 ^ 24)
unfolding ppa_alloc find_list float_region region_index index_offset update_region set_list
    commit_region commit_bitmap commit_lz clz_from get_region_ptr region_scale
same_section_twice = refl

ppa_alloc-refines_example : Implements fresh (take_highest (free_set fresh)) (ppa_alloc 1 0 fresh)
ppa_alloc-refines_example = ppa_alloc-refines 0 fresh (omega arith)

init_without_claims : ppa_init [] ≡ done fresh
unfolding ppa_init
init_without_claims = refl
