-- ===== src/Pup/Elf/Bounds.antt =====
-- The loader operations stay within their array.
use dma.Base.{ℕ, zero, suc, ◌+◌, ◌≤◌, arith, u32, sub32, Bool, true, false, ◌&&◌, ltb, ◌==◌}
use dma.Base.{if◌then◌else◌}
use dma.Pup.Image.{Memory}
use dma.Pup.Elf.{elf_max_segments}
use dma.Pup.Elf.Load.{Phdr, phdr, pt_load, LoaderOps, op_copy, op_zero, register_loader_op}
use dma.Pup.Elf.Load.{register_segment, register_segments}

-- At most two operations more than there were, and never more than 16.
abbrev pub Bounded : ℕ → LoaderOps → Bool × LoaderOps → Type 0
Bounded more o r =
    (o.op_count ≤ r.1.op_count)
    × (r.1.op_count ≤ o.op_count + more)
    × (r.1.op_count ≤ elf_max_segments)

register-Bounded :
    (kind dst src size : ℕ) (o : LoaderOps)
    → o.op_count ≤ elf_max_segments
    → Bounded 1 o (register_loader_op kind dst src size o)
unfolding register_loader_op
register-Bounded kind dst src size o h = ground arith

segment-Bounded :
    (p : Phdr) (elf_alloc : ℕ) (o : LoaderOps)
    → o.op_count ≤ elf_max_segments
    → Bounded 2 o (register_segment p elf_alloc o)
unfolding register_segment
segment-Bounded p elf_alloc o h =
    first (ltb 0 p.p_filesz)
      (register-Bounded op_copy p.p_vaddr (u32 (elf_alloc + p.p_offset)) p.p_filesz o h)
  where
    copy : Bool × LoaderOps
    copy = register_loader_op op_copy p.p_vaddr (u32 (elf_alloc + p.p_offset)) p.p_filesz o

    clear : LoaderOps → Bool × LoaderOps
    clear q =
        register_loader_op op_zero (u32 (p.p_vaddr + p.p_filesz)) 0 (sub32 p.p_memsz p.p_filesz) q

    second :
        (r : Bool × LoaderOps) (b : Bool)
        → Bounded 1 o r
        → Bounded 1 r.1 (clear r.1)
        → Bounded 2 o (if b then clear r.1 else r)
    second r true k c = omega (arith, k, c)
    second r false k c = omega (arith, k)

    first :
        (b : Bool)
        → Bounded 1 o copy
        → Bounded 2 o (
            if (if b then copy else (true, o)).0 && ltb p.p_filesz p.p_memsz
            then clear (if b then copy else (true, o)).1
            else (if b then copy else (true, o)))
    first true k = second copy (copy.0 && ltb p.p_filesz p.p_memsz) k (
        register-Bounded op_zero (u32 (p.p_vaddr + p.p_filesz)) 0 (sub32 p.p_memsz p.p_filesz)
          copy.1 (omega (arith, k)))
    first false k =
        second (true, o) (true && ltb p.p_filesz p.p_memsz) (omega arith)
          (register-Bounded op_zero (u32 (p.p_vaddr + p.p_filesz)) 0 (sub32 p.p_memsz p.p_filesz) o
            h)

-- Whatever the program headers hold, registering `k` of them adds at most `2 * k` operations and
-- never more than the 16 that the array of operations has room for.
pub register_segments-Bounded :
    (mem : Memory) (img elf_alloc k i : ℕ) (o : LoaderOps)
    → o.op_count ≤ elf_max_segments
    → Bounded (k + k) o (register_segments mem img elf_alloc k i o)
unfolding register_segments
register_segments-Bounded mem img elf_alloc zero i o h = omega arith
register_segments-Bounded mem img elf_alloc (suc k) i o h =
    one (phdr mem img i).p_type (segment-Bounded (phdr mem img i) elf_alloc o h)
      (λ q low. register_segments-Bounded mem img elf_alloc k (suc i) q low)
  where
    after :
        (r : Bool × LoaderOps)
        → Bounded 2 o r
        → ((q : LoaderOps)
            → q.op_count ≤ elf_max_segments
            → Bounded (k + k) q (register_segments mem img elf_alloc k (suc i) q))
        → Bounded (suc k + suc k) o (elim r.0 as (λ _. Bool × LoaderOps) [
          | true ↦ register_segments mem img elf_alloc k (suc i) r.1
          | false ↦ (false, r.1)
        ])
    after (true, q) b ih = omega (arith, b, ih q (omega (arith, b)))
    after (false, q) b ih = omega (arith, b)

    one :
        (t : ℕ)
        → Bounded 2 o (register_segment (phdr mem img i) elf_alloc o)
        → ((q : LoaderOps)
            → q.op_count ≤ elf_max_segments
            → Bounded (k + k) q (register_segments mem img elf_alloc k (suc i) q))
        → Bounded
            (suc k + suc k)
            o
            (elim (if t == pt_load
                then register_segment (phdr mem img i) elf_alloc o
                else (true, o)).0
              as (λ _. Bool × LoaderOps) [
                | true ↦
                    register_segments mem img elf_alloc k
                      (suc i)
                      (if t == pt_load
                        then register_segment (phdr mem img i) elf_alloc o
                        else (true, o)).1
                | false ↦ (
                  false,
                  (if t == pt_load
                      then register_segment (phdr mem img i) elf_alloc o
                      else (true, o)).1,
                )
              ])
    one t b ih = cases (t == pt_load)
      where
        cases :
            (c : Bool)
            → Bounded
                (suc k + suc k)
                o
                (elim (if c then register_segment (phdr mem img i) elf_alloc o else (true, o)).0
                  as (λ _. Bool × LoaderOps) [
                    | true ↦
                        register_segments mem img elf_alloc k
                          (suc i)
                          (if c then register_segment (phdr mem img i) elf_alloc o else (true, o)).1
                    | false ↦ (
                      false,
                      (if c then register_segment (phdr mem img i) elf_alloc o else (true, o)).1,
                    )
                  ])
        cases true = after (register_segment (phdr mem img i) elf_alloc o) b ih
        cases false = after (true, o) (omega arith) ih
