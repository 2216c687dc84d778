-- ===== src/Dma/Bus.antt =====
-- Bus addresses, dma/private.h: where DRAM and the peripherals stand for the ARM and on the bus.
use dma.Base.{ℕ, ◌+◌, ◌<◌, ◌≤◌, ◌≡◌, arith, u32, sub32, Bool, ◌&&◌}
use dma.Base.{Option, none, some, ltb, leb, ◌==◌, ltb→lt, ◌⊎◌, Bool-cases, inl, inr, if◌then◌else◌}

-- `busad`, a 32-bit word.
abbrev pub Busad : Type 0
Busad = ℕ

abbrev pub arm_dram_base : ℕ
arm_dram_base = 0

abbrev pub arm_dram_end : ℕ
arm_dram_end = 0x20000000

abbrev pub bus_dram_base : ℕ
bus_dram_base = 0x40000000

abbrev pub bus_dram_end : ℕ
bus_dram_end = 0x60000000

abbrev pub arm_peri_base : ℕ
arm_peri_base = 0x20000000

abbrev pub arm_peri_end : ℕ
arm_peri_end = 0x21000000

abbrev pub bus_peri_base : ℕ
bus_peri_base = 0x7e000000

abbrev pub bus_peri_end : ℕ
bus_peri_end = 0x80000000

unfoldable pub arm_is_dram : ℕ → Bool
arm_is_dram addr = leb arm_dram_base addr && ltb addr arm_dram_end

unfoldable pub arm_is_peri : ℕ → Bool
arm_is_peri addr = leb arm_peri_base addr && ltb addr arm_peri_end

-- `none` is the panic.
unfoldable pub arm_to_bus : ℕ → Option Busad
arm_to_bus addr =
    if arm_is_dram addr
    then some (u32 (sub32 addr arm_dram_base + bus_dram_base))
    else if arm_is_peri addr
    then some (u32 (sub32 addr arm_peri_base + bus_peri_base))
    else none

unfoldable pub bus_is_dram : Busad → Bool
bus_is_dram b = leb bus_dram_base b && ltb b bus_dram_end

unfoldable pub bus_is_peri : Busad → Bool
bus_is_peri b = leb bus_peri_base b && ltb b bus_peri_end

unfoldable pub bus_to_arm : Busad → Option ℕ
bus_to_arm b =
    if bus_is_dram b
    then some (u32 (sub32 b bus_dram_base + arm_dram_base))
    else if bus_is_peri b
    then some (u32 (sub32 b bus_peri_base + arm_peri_base))
    else none

-- `base + byte_offset`, the offset as a 32-bit word (-1 is 2 ^ 32 - 1).
abbrev pub bus_add : Busad → ℕ → Busad
bus_add base byte_offset = u32 (base + byte_offset)

abbrev pub bus_eq : Busad → Busad → Bool
bus_eq a b = a == b

abbrev pub bus_null : Busad
bus_null = 0

-- An ARM address of the memory or of a peripheral.
abbrev pub IsArm : ℕ → Type 0
IsArm a = a < arm_peri_end

pub arm_to_bus-dram : (a : ℕ) → a < arm_dram_end → arm_to_bus a ≡ some (a + bus_dram_base)
unfolding arm_to_bus arm_is_dram arm_is_peri
arm_to_bus-dram a h = ground arith

pub arm_to_bus-peri :
    (a : ℕ) → arm_peri_base ≤ a → a < arm_peri_end → arm_to_bus a ≡ some (a + 0x5e000000)
unfolding arm_to_bus arm_is_dram arm_is_peri
arm_to_bus-peri a h k = ground arith

-- `arm_to_bus` succeeds on exactly the addresses of DRAM and of the peripherals, those below
-- ARM_PERI_END, and then `bus_to_arm` gives the address back; on every other address it panics.
pub bus_to_arm-arm_to_bus :
    (a : ℕ)
    → ((arm_peri_end ≤ a) × (arm_to_bus a ≡ none))
      ⊎ ((a < arm_peri_end) × ((b : Busad) × ((arm_to_bus a ≡ some b) × (bus_to_arm b ≡ some a))))
unfolding arm_to_bus bus_to_arm arm_is_dram arm_is_peri bus_is_dram bus_is_peri
bus_to_arm-arm_to_bus a = elim (Bool-cases (ltb a arm_peri_end)) [
  | inl h ↦ inr (ltb→lt a arm_peri_end h, found (ltb→lt a arm_peri_end h))
  | inr h ↦ inl (ground arith, ground arith)
]
  where
    dram :
        a < arm_dram_end
        → (arm_to_bus a ≡ some (a + bus_dram_base)) × (bus_to_arm (a + bus_dram_base) ≡ some a)
    dram h = (ground arith, ground arith)

    peri :
        arm_peri_base ≤ a
        → a < arm_peri_end
        → (arm_to_bus a ≡ some (a + 0x5e000000)) × (bus_to_arm (a + 0x5e000000) ≡ some a)
    peri h k = (ground arith, ground arith)

    found : a < arm_peri_end → (b : Busad) × ((arm_to_bus a ≡ some b) × (bus_to_arm b ≡ some a))
    found h = elim (Bool-cases (ltb a arm_dram_end)) [
      | inl k ↦ (a + bus_dram_base, dram (ground arith))
      | inr k ↦ (a + 0x5e000000, peri (ground arith) h)
    ]
