-- ===== src/Pup/Image/Sum.antt =====
-- The checksum of `platform_load_image` is that of the image's bytes at their places.
use dma.Base.{ℕ, zero, suc, ◌+◌, ◌-◌, ◌<◌, ◌≤◌, ◌≡◌, refl, sym, ap, ap₂, ◌∙◌, arith, min}
use dma.Base.{ltb, Bool, true, false, if◌then◌else◌}
use dma.Base.{List, [], ◌∷◌, ◌++◌}
use dma.Pup.Port.{Fsm}
use dma.Pup.Crc.{crc32}
use dma.Pup.Crc.Serial.{crc32-append, crc32-nil}
use dma.Pup.Image.{Memory, Reloc, bytes_at}
use dma.Pup.Image.Load.{crc_blocks, crc_with_heartbeat, crc_blocksize, Summing, sum_block}
use dma.Pup.Image.Load.{fsm_heartbeat}
use dma.Pup.Image.Feed.{place}

-- The image's bytes from `a` on.
abbrev pub placed : Reloc → Memory → ℕ → ℕ → List ℕ
placed r mem a zero = []
placed r mem a (suc n) = mem (place r a) ∷ placed r mem (suc a) n

suc_shift : (a n : ℕ) → suc a + n ≡ a + suc n
suc_shift a n = omega arith

suc_add : (n k : ℕ) → suc n + k ≡ suc (n + k)
suc_add n k = omega arith

bytes_at-append :
    (mem : Memory) (a n k : ℕ) → bytes_at mem a (n + k) ≡ bytes_at mem a n ++ bytes_at mem (a + n) k
bytes_at-append mem a zero k = ap₂ (bytes_at mem) (omega arith) (omega arith)
bytes_at-append mem a (suc n) k =
    ap (bytes_at mem a) (suc_add n k)
    ∙ ap (λ l. mem a ∷ l)
        (bytes_at-append mem (suc a) n k
          ∙ ap (λ b. bytes_at mem (suc a) n ++ bytes_at mem b k) (suc_shift a n))

pub placed-append :
    (r : Reloc) (mem : Memory) (a n k : ℕ)
    → placed r mem a (n + k) ≡ placed r mem a n ++ placed r mem (a + n) k
placed-append r mem a zero k = ap₂ (placed r mem) (omega arith) (omega arith)
placed-append r mem a (suc n) k =
    ap (placed r mem a) (suc_add n k)
    ∙ ap (λ l. mem (place r a) ∷ l)
        (placed-append r mem (suc a) n k
          ∙ ap (λ b. placed r mem (suc a) n ++ placed r mem b k) (suc_shift a n))

-- Where places are consecutive, so are the bytes.
placed-bytes_at :
    (r : Reloc) (mem : Memory) (a dst n : ℕ)
    → ((j : ℕ) → j < n → place r (a + j) ≡ dst + j)
    → bytes_at mem dst n ≡ placed r mem a n
placed-bytes_at r mem a dst zero h = refl
placed-bytes_at r mem a dst (suc n) h =
    ap₂ (λ x l. x ∷ l) (ap mem (sym (ap (place r) (omega arith) ∙ h 0 (omega arith) ∙ omega arith)))
      (placed-bytes_at r mem (suc a) (suc dst) n
        (λ j lt. ap (place r) (suc_shift a j) ∙ h (suc j) (omega arith) ∙ omega arith))

-- Heartbeats do not touch the checksum, and cutting into blocks does not change it.
crc_blocks_lem :
    (f : ℕ) (mem : Memory) (block until crc from : ℕ) (s : Fsm)
    → 1 ≤ block
    → until - from ≤ f
    → (crc_blocks f mem block until crc from s).0 ≡ crc32 crc (bytes_at mem from (until - from))
unfolding crc_blocks
crc_blocks_lem zero mem block until crc from s hb hf =
    sym (crc32-nil crc) ∙ ap (λ n. crc32 crc (bytes_at mem from n)) {x = 0} (omega arith)
crc_blocks_lem (suc f) mem block until crc from s hb hf = split (ltb from until) refl (λ h.
    crc_blocks_lem f mem block until (crc32 crc (bytes_at mem from (min (until - from) block)))
      (from + min (until - from) block) (fsm_heartbeat s) hb h)
  where
    split :
        (b : Bool)
        → ltb from until ≡ b
        → (until - (from + min (until - from) block) ≤ f
            → (crc_blocks f mem block until
                (crc32 crc (bytes_at mem from (min (until - from) block)))
                (from + min (until - from) block)
                (fsm_heartbeat s)).0
              ≡ crc32 (crc32 crc (bytes_at mem from (min (until - from) block))) (
                  bytes_at mem
                    (from + min (until - from) block)
                    (until - (from + min (until - from) block))))
        → (if b
            then crc_blocks f mem block until
                (crc32 crc (bytes_at mem from (min (until - from) block)))
                (from + min (until - from) block)
                (fsm_heartbeat s)
            else (crc, s)).0
          ≡ crc32 crc (bytes_at mem from (until - from))
    split true e ih =
        let lt : from < until = ground arith in
        ih (omega (arith, lt))
        ∙ sym (crc32-append crc (bytes_at mem from (min (until - from) block)) _)
        ∙ ap (crc32 crc) (
            sym (
              bytes_at-append mem from (min (until - from) block)
                (until - (from + min (until - from) block)))
            ∙ ap (bytes_at mem from) (omega (arith, lt)))
    split false e ih =
        let ge : until ≤ from = ground arith in
        sym (crc32-nil crc) ∙ ap (λ n. crc32 crc (bytes_at mem from n)) {x = 0} (omega (arith, ge))

crc_with_heartbeat_lem :
    (mem : Memory) (block crc from n : ℕ) (s : Fsm)
    → 1 ≤ block
    → (crc_with_heartbeat mem block crc from (from + n) s).0 ≡ crc32 crc (bytes_at mem from n)
unfolding crc_with_heartbeat
crc_with_heartbeat_lem mem block crc from n s hb =
    crc_blocks_lem (from + n - from) mem block (from + n) crc from s hb (omega arith)
    ∙ ap (λ k. crc32 crc (bytes_at mem from k)) (omega arith)

-- `n` bytes of the image further.
pub record Summed (r : Reloc) (mem : Memory) (w w' : Summing) : Type 0 where
  pub n : ℕ
  pub at_next : w'.at ≡ w.at + n
  pub crc_next : w'.crc ≡ crc32 w.crc (placed r mem w.at n)

pub Summed-none : (r : Reloc) (mem : Memory) (w : Summing) → Summed r mem w w
Summed-none r mem w = record { n = 0; at_next = omega arith; crc_next = sym (crc32-nil w.crc) }

pub Summed-block :
    (r : Reloc) (mem : Memory) (dst n : ℕ) (w : Summing)
    → ((j : ℕ) → j < n → place r (w.at + j) ≡ dst + j)
    → Summed r mem w (sum_block mem dst n w)
Summed-block r mem dst n w h = record {
  n = n;
  at_next = refl;
  crc_next =
      crc_with_heartbeat_lem mem crc_blocksize w.crc dst n w.fsm (omega arith)
      ∙ ap (crc32 w.crc) (placed-bytes_at r mem w.at dst n h);
}

pub Summed-then :
    (r : Reloc) (mem : Memory) (u v w : Summing)
    → Summed r mem u v
    → Summed r mem v w
    → Summed r mem u w
Summed-then r mem u v w a b = record {
  n = a.n + b.n;
  at_next = omega (arith, a.at_next, b.at_next);
  crc_next =
      b.crc_next
      ∙ ap₂ (λ c x. crc32 c (placed r mem x b.n)) a.crc_next a.at_next
      ∙ sym (crc32-append u.crc (placed r mem u.at a.n) _)
      ∙ ap (crc32 u.crc) (sym (placed-append r mem u.at a.n b.n));
}
