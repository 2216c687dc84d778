-- ===== src/Superopt/Init.antt =====
-- `ppa_init` of bcm2835/240-superopt/ppa.c.
use dma.Base.{
  ℕ, zero, suc, ◌+◌, ◌-◌, ◌/◌, ◌%◌, ◌^◌, ◌==◌, leb, if◌then◌else◌, Option, none, some, List, [],
  ◌∷◌, bit_and, length, get_elem?,
}
use dma.Superopt.Ppa.{
  Ppa, Outcome, done, undefined_behaviour, out_of_fuel, ◌>>=◌, region_index, update_region,
  float_region, counted, get_region_ptr, size_max, chain_end, rk_supersection, rk_section,
  rk_large_page, rk_small_page,
}

-- All free.
abbrev pub fresh : Ppa
fresh = record {
  regions = λ i. record { bitmap = 0xffff; next = chain_end; prev = chain_end };
  supersection_mask = 2 ^ 32 - 1;
  floating_lists = λ rk. size_max;
  floating_counts = λ rk. 0;
  allocated_counts = λ rk. 0;
}

-- `regions[region_index(i, rk)].bitmap &= ~(1 << (n % 16))`
unfoldable pub take_place : ℕ → ℕ → ℕ → Ppa → Outcome Ppa
take_place i rk place p = region_index i rk >>= λ idx.
    update_region idx (λ r. record r { bitmap = bit_and r.bitmap (2 ^ 16 - 1 - 2 ^ (place % 16)) })
      p

-- `while (preclaims[j][1] <= r1)`; `none` is the jump to `finished_preclaims`.
unfoldable pub advance : List (ℕ × ℕ) → ℕ → ℕ → ℕ → Outcome (Option ℕ)
advance preclaims zero j r1 = out_of_fuel
advance preclaims (suc fuel) j r1 = elim (get_elem? preclaims j) [
  | none ↦ undefined_behaviour
  | some (start, end) ↦
      let more = advance preclaims fuel (suc j) r1 in
      if leb end r1 then (if leb (length preclaims) j then done none else more) else done (some j)
]

-- The loop over the small pages, `n` of them from `i` on.
unfoldable pub claim_pages : List (ℕ × ℕ) → ℕ → ℕ → ℕ → ℕ → Ppa → Outcome Ppa
claim_pages preclaims first_start zero i j p = done p
claim_pages preclaims first_start (suc n) i j p =
    let r1 = get_region_ptr (i + 1) rk_small_page in
    if leb r1 first_start then claim_pages preclaims first_start n (suc i) j p else do
      q ← take_place (i / 16) rk_large_page i (counted rk_small_page p)
      next ← advance preclaims (length preclaims + 1) j r1
      elim next [ none ↦ done q | some k ↦ claim_pages preclaims first_start n (suc i) k q ]

-- A region of kind `rk` with a claimed part: counted, marked in its parent, and on its list if some
-- of it is free.
unfoldable pub raise_region : ℕ → (Ppa → Outcome Ppa) → ℕ → Ppa → Outcome Ppa
raise_region rk mark j p = do
  idx ← region_index j rk
  if (p.regions idx).bitmap == 0xffff
      then done p
      else (mark (counted rk p) >>= λ q.
          if (q.regions idx).bitmap == 0 then done q else float_region j rk q)

-- `for (i = 0; ...) body`, `n` rounds from `i` on.
unfoldable pub each_region : (ℕ → Ppa → Outcome Ppa) → ℕ → ℕ → Ppa → Outcome Ppa
each_region body zero i p = done p
each_region body (suc n) i p = body i p >>= λ q. each_region body n (suc i) q

-- The three loops from `finished_preclaims` on; the two nested ones go through `j` in order.
unfoldable pub raise_all : Ppa → Outcome Ppa
raise_all p = do
  q ← each_region (λ j. raise_region rk_large_page (take_place (j / 16) rk_section j) j) 0x2000 0 p
  r ← each_region (λ j. raise_region rk_section (take_place (j / 16) rk_supersection j) j) 0x200 0 q
  each_region
      (λ i.
        raise_region rk_supersection
          (λ s.
            done
              (record s { supersection_mask = bit_and s.supersection_mask (2 ^ 32 - 1 - 2 ^ i) }))
          i)
      32 0 r

unfoldable pub ppa_init : List (ℕ × ℕ) → Outcome Ppa
ppa_init [] = done fresh
ppa_init ((start, end) ∷ rest) =
    claim_pages ((start, end) ∷ rest) start 0x20000 0 0 fresh >>= raise_all
