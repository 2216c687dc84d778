-- ===== src/Lib.antt =====
-- A model of the PUP boot uploader and its loader, of the DMA kit (arithmetic by programs of
-- DMA control blocks), and of drivers, a hash and a page allocator for the same board.
--
-- The repository holds code for the Raspberry Pi (BCM2835). Most of what is modelled is pup/: a
-- host uploads a program image over a serial line to a loader on the board. Messages are framed
-- with ASCII control bytes and two frame check sequences (pup/fcs.c); pup/fsm.c sends and
-- receives them under three timers, the device side requests the image chunk by chunk, and
-- pup/bcm2835.c places the chunks in memory, in a buffer behind image and program where the
-- image would overwrite the running loader, checks the CRC-32 (pup/crc.c) and starts the image.
--
-- The DMA kit (bcm2835/dma/) emits chains of control blocks that compute: a block copies an
-- entry of a lookup table, whose address an earlier block has patched with the operands' bytes,
-- into the result and the address of a later block. The initializers fill the tables; the
-- emitter writes the blocks into memory; the engine runs them.
--
--   - Base: numbers, lists, Boolean tests, machine words, and laws of the native bit
--     operations.
--   - Pup/Serial: the checksums' definition bit by bit, independent of the code.
--   - Pup/Fcs and Pup/Crc: `fcs16` and `crc32` with their tables.
--   - Pup/Port: the timers (`timer_t`), the frame buffer (`mframe_t`), the statics of
--     pup/fsm.c, and the line and clock.
--   - Pup/Wire: the `fsm_put…` helpers of pup/common.h, `fsm_send` and `fsm_send_ack`.
--   - Pup/Recv: `fsm_recv` and `fsm_recv_ack`; the macro `wait_for` and the receiving loops are
--     a small monad in which a symbol timeout goes back to waiting.
--   - Pup/Image: `platform_init_meta`, `feed_impl`, `platform_feed`, `crc_with_heartbeat`,
--     `platform_load_image`, and the decoder's allocator `xz_malloc_stub`.
--   - Pup/Config and Pup/Download: the timeouts of `config_t`, and `fsm_download` as a step
--     function over its loops, with its label `reset` as a state.
--   - Pup/Upload: `fsm_upload` in the same way, with `platform_marshal` of pup/host.c;
--     Pup/Upload/File: `input_crc` and the number of chunks of the host's main program;
--     Pup/Options: its `parse_opts`, with `open`, `strtoull` and the search for a device as
--     parameters.
--   - Pup/Elf: `claim_space`, `allocate_space` and `load_elf_image` of pup/elf_loader.c.
--   - Dma, Dma/Release: the channel reservations of bcm2835/dma/dmakit.c; Dma/Timing: the
--     duration of a timed run (bcm2835/dma/private.c).
--   - Dma/Bus, Dma/Cblk, Dma/Emit, Dma/Arena: bus addresses and control blocks of
--     bcm2835/dma/private.h, and the emitter and arena of bcm2835/dma/emit.h, with what they
--     leave in memory.
--   - Dma/Tables: the initializers of bcm2835/dma/arith_int.c, arith_bit.c, arith_cmp.c and
--     arith_sxx.c, and `run_initializers`, which runs once (`initialize`); Truth and Equal:
--     what the initializers write to the truth tables, and the selectors that the lookups of
--     `Geu` and `Equ` come to. Arith/Compare: their control blocks, from the emission (Program)
--     over the memory and the two scattered copies (Setting) to a whole run on the engine (Run)
--     and the answer of the truth tables (Answer, Result); the blocks of `Ges` are emitted but
--     not run.
--   - Dma/Arith: the operations of these files; below it, Program, Setting, Lookup and Run
--     follow `Add` and `Sub` through the engine, block by block, and Number and Sum say what
--     the digits mean; Bytewise does the same for `And`, `Or` and `Xor`.
--   - Dma/Engine: the engine, an interface with the two documented kinds of transfer; Dma/Tests
--     has one that copies byte by byte.
--   - Board/Systmr (Reading: what it does), Board/Gpio, Board/Mmu: the 64-bit system timer read
--     in two halves (bcm2835/systmr.c), the function fields of the GPIO registers
--     (bcm2835/gpio.c), and the translation table of `mmu_init` (bcm2835/mmu.c) with the part
--     of the ARM1176's walk that reads it. Board/Ptags: the requests to the firmware
--     (bcm2835/ptags.c), with the firmware and the mailbox as a parameter; Dma/Boot: the
--     channels at the start, which ask it.
--   - Integ/Hash: `hash_memory` of bcm2835/240-integ/hash.c, the path in C; Mix and Avalanche:
--     its steps; Walk and Span: its loops, and the region that they split; Agree, Differ,
--     Blocks, Changed and Sensitive: two memories side by side.
--   - Superopt/Ppa, Superopt/Init: the physical page allocator of bcm2835/240-superopt/ppa.c
--     and sopter.h, with undefined behaviour as an outcome; Alloc, Again, Free and Refine: what
--     it does.
--   - Pup/Tests, Dma/Tests, Board/Tests, Integ/Tests, Superopt/Tests: runs at concrete inputs.
--
-- The environment of the protocol is arbitrary: the n-th reading of the clock gives any number,
-- and each byte on the line is there once the clock has been read often enough. Numbers are
-- natural numbers with C's wrap-around written out where the code's types cut (u16, u32, u64);
-- addresses are 32-bit.
--
-- Loops without a bound in the code run on fuel, and `none` or `starved` is the end of the
-- fuel: the waiting loop of a reception, where the round trips give a bound (noise plus two
-- rounds, since the bytes have arrived), the wait for one symbol, and the decompression loop.
-- `fsm_download` is followed for any number of rounds. `crc_with_heartbeat` runs on the length
-- of its range, which is enough because every block has at least one byte. The loops of
-- `hash_memory` run on the distance to their bound, at least one byte a round; those that read
-- the system timer on any fuel, and two rounds of `systmr_read_raw` are enough; `ppa_alloc` on
-- two calls and `commit_region` on three.
--
-- Not modelled: diagnostics output; xz-embedded, whose `xz_dec_init` and `xz_dec_run` are
-- parameters; the trampolines (assembly) and the linker script, whose program bounds are
-- parameters; the rest of the host's main program, its xz support and device discovery; the
-- receiver-overrun diagnostics of the UART; in `fsm_download` and `fsm_upload` the lines that
-- set the timers' periods; of the DMA kit `MonomorphizeOn`, whose buffers are given as
-- addresses, `Neg`, `UmulWide` (unfinished in the source), the small tables outside HYPER and
-- SUPER but for the truth tables, probes, and starting the engine; of the board the register
-- writes that switch the MMU on, the UART's registers and start-up; the assembly path of
-- `hash_memory`; and the other code outside pup/ and these parts of bcm2835/.
pub mod Base
pub mod Board
pub mod Dma
pub mod Integ
pub mod Pup
pub mod Superopt
