-- ===== src/Pup/Elf/Load.antt =====
-- `load_elf_image` of pup/elf_loader.c, with the header's check and the operations that it leaves
-- for the trampoline. Parameters: the program's bounds and the trampoline's code (assembly), with
-- the offset of its parameter block. Code that stops at an `assert` gives `none`.
use dma.Base.{ℕ, zero, suc, ◌+◌, ◌*◌, ◌^◌, u32, sub32, bit_and, Bool, true, false, ◌&&◌, ltb, leb}
use dma.Base.{◌==◌, if◌then◌else◌, Option, none, some, List, [], ◌++◌, length}
use dma.Pup.Image.{Memory, memcpy}
use dma.Pup.Download.{le32}
use dma.Pup.Elf.{MemoryMap, claim_space, allocate_space, elf_max_segments, uintptr_max}

abbrev pub half_at : Memory → ℕ → ℕ
half_at mem a = mem a + 2 ^ 8 * mem (u32 (a + 1))

abbrev pub word_at : Memory → ℕ → ℕ
word_at mem a = half_at mem a + 2 ^ 16 * half_at mem (u32 (a + 2))

-- The fields of `Elf32_Ehdr` that the loader reads.
pub record Ehdr : Type 0 where
  pub magic : ℕ
  pub ei_class : ℕ
  pub ei_data : ℕ
  pub ei_version : ℕ
  pub ei_osabi : ℕ
  pub ei_abiversion : ℕ
  pub e_type : ℕ
  pub e_machine : ℕ
  pub e_version : ℕ
  pub e_entry : ℕ
  pub e_phoff : ℕ
  pub e_phentsize : ℕ
  pub e_phnum : ℕ

abbrev pub ehdr_at : Memory → ℕ → Ehdr
ehdr_at mem a = record {
  magic = word_at mem a;
  ei_class = mem (u32 (a + 4));
  ei_data = mem (u32 (a + 5));
  ei_version = mem (u32 (a + 6));
  ei_osabi = mem (u32 (a + 7));
  ei_abiversion = mem (u32 (a + 8));
  e_type = half_at mem (u32 (a + 16));
  e_machine = half_at mem (u32 (a + 18));
  e_version = word_at mem (u32 (a + 20));
  e_entry = word_at mem (u32 (a + 24));
  e_phoff = word_at mem (u32 (a + 28));
  e_phentsize = half_at mem (u32 (a + 42));
  e_phnum = half_at mem (u32 (a + 44));
}

-- "\x7fELF" as a word
abbrev pub elfmag : ℕ
elfmag = 0x464c_457f

unfoldable pub validate_elf_header : Ehdr → Bool → Bool → ℕ → Bool
validate_elf_header e elf32_p elfle_p machine =
    e.magic == elfmag
    && e.ei_class == (if elf32_p then 1 else 2)
    && e.ei_data == (if elfle_p then 1 else 2)
    && e.ei_version == 1
    && e.ei_osabi == 0
    && e.ei_abiversion == 0
    && e.e_type == 2
    && e.e_machine == machine
    && e.e_version == 1

-- The fields of `Elf32_Phdr` that the loader uses.
pub record Phdr : Type 0 where
  pub p_type : ℕ
  pub p_offset : ℕ
  pub p_vaddr : ℕ
  pub p_filesz : ℕ
  pub p_memsz : ℕ

abbrev pub phdr_at : Memory → ℕ → Phdr
phdr_at mem a = record {
  p_type = word_at mem a;
  p_offset = word_at mem (u32 (a + 4));
  p_vaddr = word_at mem (u32 (a + 8));
  p_filesz = word_at mem (u32 (a + 16));
  p_memsz = word_at mem (u32 (a + 20));
}

-- `(Elf32_Phdr *)(img_start + ehdr->e_phoff + i * ehdr->e_phentsize)`
abbrev pub phdr : Memory → ℕ → ℕ → Phdr
phdr mem img i = let e = ehdr_at mem img in phdr_at mem (u32 (img + e.e_phoff + i * e.e_phentsize))

abbrev pub pt_load : ℕ
pt_load = 1

-- `struct elf_loader_op` as its four words; a cell that was never written is zero.
pub record LoaderOp : Type 0 where
  pub kind : ℕ
  pub arg0 : ℕ
  pub arg1 : ℕ
  pub arg2 : ℕ

abbrev pub op_copy : ℕ
op_copy = 1

abbrev pub op_zero : ℕ
op_zero = 2

-- `loader_ops` and `op_count`
pub record LoaderOps : Type 0 where
  pub ops : ℕ → LoaderOp
  pub op_count : ℕ

abbrev pub add_op : LoaderOp → LoaderOps → LoaderOps
add_op op o = record {
  ops = λ i. if i == o.op_count then op else o.ops i;
  op_count = suc o.op_count;
}

unfoldable pub register_loader_op : ℕ → ℕ → ℕ → ℕ → LoaderOps → Bool × LoaderOps
register_loader_op kind dst src size o =
    if leb elf_max_segments o.op_count
    then (false, o)
    else if kind == op_copy
    then (true, add_op (record { kind = op_copy; arg0 = dst; arg1 = src; arg2 = size }) o)
    else if kind == op_zero
    then (
      true,
      add_op (record { kind = op_zero; arg0 = dst; arg1 = size; arg2 = bit_and src 0xff }) o,
    )
    else (false, o)

-- The first loop over the program headers, `k` of them from `i` on. The result of `claim_space` is
-- not looked at.
unfoldable pub claim_segments : Memory → ℕ → ℕ → ℕ → MemoryMap → Option MemoryMap
claim_segments mem img zero i m = some m
claim_segments mem img (suc k) i m =
    let p = phdr mem img i in
    if p.p_type == pt_load
    then elim (claim_space (record { start = p.p_vaddr; end = u32 (p.p_vaddr + p.p_memsz) }) false
        m) [ none ↦ none | some (_, m') ↦ claim_segments mem img k (suc i) m' ]
    else claim_segments mem img k (suc i) m

-- One loadable segment: copy what is in the file, clear the rest.
unfoldable pub register_segment : Phdr → ℕ → LoaderOps → Bool × LoaderOps
register_segment p elf_alloc o =
    let (ok, o₁) =
      if ltb 0 p.p_filesz
      then register_loader_op op_copy p.p_vaddr (u32 (elf_alloc + p.p_offset)) p.p_filesz o
      else (true, o) in
    if ok && ltb p.p_filesz p.p_memsz
    then register_loader_op op_zero (u32 (p.p_vaddr + p.p_filesz)) 0 (sub32 p.p_memsz p.p_filesz) o₁
    else (ok, o₁)

unfoldable pub register_segments : Memory → ℕ → ℕ → ℕ → ℕ → LoaderOps → Bool × LoaderOps
register_segments mem img elf_alloc zero i o = (true, o)
register_segments mem img elf_alloc (suc k) i o =
    let p = phdr mem img i in
    let (ok, o') = if p.p_type == pt_load then register_segment p elf_alloc o else (true, o) in
    elim ok [ true ↦ register_segments mem img elf_alloc k (suc i) o' | false ↦ (false, o') ]

-- The statics of pup/elf_loader.c, and memory.
pub record ElfState : Type 0 where
  pub map : MemoryMap
  pub loader : LoaderOps
  pub trampoline_ptr : ℕ
  pub mem : Memory

-- `memcpy(params->loader_ops, loader_ops, sizeof loader_ops)`: all 16 cells.
abbrev pub op_bytes : LoaderOps → ℕ → ℕ → List ℕ
op_bytes o zero i = []
op_bytes o (suc k) i =
    let p = o.ops i in
    le32 p.kind ++ le32 p.arg0 ++ le32 p.arg1 ++ le32 p.arg2 ++ op_bytes o k (suc i)

module _ (prog_start prog_end : ℕ) (trampoline : List ℕ) (params_offset : ℕ) where
  -- The boot image: the trampoline's code, over it the parameter block.
  pub boot_image : Memory → ℕ → LoaderOps → ℕ → ℕ → ℕ → ℕ → List ℕ → Memory
  boot_image mem boot_alloc o img entry elf_alloc elf_size cmdline =
      let params =
        op_bytes o elf_max_segments 0
        ++ le32 o.op_count
        ++ le32 img
        ++ le32 entry
        ++ le32 elf_alloc
        ++ le32 elf_size
        ++ le32 (length cmdline)
        ++ cmdline in
      memcpy (memcpy mem boot_alloc trampoline (length trampoline))
        (u32 (boot_alloc + params_offset)) params (length params)

  -- Room for the boot image: below the program, or behind it.
  pub boot_space : ℕ → ℕ → MemoryMap → Option (ℕ × MemoryMap)
  boot_space size mem_hi m =
      elim (allocate_space size (record { start = 0; end = prog_start }) true m) [
        | none ↦ none
        | some (a, m') ↦
            if a == uintptr_max
            then allocate_space size (record { start = prog_end; end = mem_hi }) true m'
            else some (a, m')
      ]

  -- From the place of the image on.
  pub load_at : ℕ → ℕ → ℕ → ℕ → List ℕ → MemoryMap → ElfState → Option (Bool × ElfState)
  load_at img elf_size elf_alloc mem_hi cmdline m s =
      let e = ehdr_at s.mem img in
      let (ok, o) =
        register_segments s.mem img elf_alloc e.e_phnum 0 (record (s.loader) { op_count = 0 }) in
      let s₁ = record s { map = m; loader = o } in
      if ok
      then elim (boot_space (length trampoline + length cmdline) mem_hi m) [
        | none ↦ none
        | some (boot_alloc, m') ↦
            if boot_alloc == uintptr_max
            then some (false, record s₁ { map = m' })
            else some (
              true,
              record s₁ {
                map = m';
                trampoline_ptr = boot_alloc;
                mem = boot_image s.mem boot_alloc o img e.e_entry elf_alloc elf_size cmdline;
              },
            )
      ]
      else some (false, s₁)

  unfoldable pub load_elf_image :
      ℕ → ℕ → Bool → Bool → ℕ → ℕ → List ℕ → ElfState → Option (Bool × ElfState)
  load_elf_image img img_end elf32_p elfle_p machine mem_hi cmdline s =
      let e = ehdr_at s.mem img in
      if validate_elf_header e elf32_p elfle_p machine
      then elim (claim_segments s.mem img e.e_phnum 0 (record (s.map) { count = 0 })) [
        | none ↦ none
        | some m ↦
            elim (allocate_space (sub32 img_end img) (record { start = 0; end = mem_hi }) true m) [
              | none ↦ none
              | some (elf_alloc, m') ↦
                  if elf_alloc == uintptr_max
                  then some
                      (false, record s { map = m'; loader = record (s.loader) { op_count = 0 } })
                  else load_at img (sub32 img_end img) elf_alloc mem_hi cmdline m' s
            ]
      ]
      else some (false, s)
