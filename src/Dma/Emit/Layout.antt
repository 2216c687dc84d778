-- ===== src/Dma/Emit/Layout.antt =====
-- Control blocks in memory: what is stored is loaded again, and nothing else changes.
use dma.Base.{ℕ, zero, suc, ◌+◌, ◌/◌, ◌^◌, ◌<◌, ◌≤◌, ◌≡◌, refl, ap, ◌∙◌, arith, u8}
use dma.Base.{◌⊎◌, inl, inr, List, [], ◌∷◌, get_or, length}
use dma.Dma.Cblk.{Cblk, Memory, store, cblk_bytes, cblk_at, word_at}

pub store-outside :
    (a : ℕ) (bs : List ℕ) (m : Memory) (x : ℕ)
    → (x < a) ⊎ (a + length bs ≤ x)
    → store a bs m x ≡ m x
unfolding store
store-outside a [] m x h = refl
store-outside a (b ∷ bs) m x h = ground (arith, store-outside (suc a) bs m x)

pub store-inside :
    (a : ℕ) (bs : List ℕ) (m : Memory) (x k : ℕ)
    → x ≡ a + k
    → k < length bs
    → store a bs m x ≡ get_or bs k 0
unfolding store
store-inside a [] m x k e h = absurd (omega arith)
store-inside a (b ∷ bs) m x zero e h = ground arith
store-inside a (b ∷ bs) m x (suc k) e h =
    ground (arith, store-inside (suc a) bs m x k (omega arith) (omega arith))

-- Every field is a word.
abbrev pub IsCblk : Cblk → Type 0
IsCblk c =
    (c.ti < 2 ^ 32)
    × (c.src_addr < 2 ^ 32)
    × (c.dst_addr < 2 ^ 32)
    × (c.txfr_len < 2 ^ 32)
    × (c.stride_word < 2 ^ 32)
    × (c.next_cb < 2 ^ 32)

word-at :
    (m : Memory) (a x : ℕ)
    → x < 2 ^ 32
    → (m a ≡ u8 x)
      × (m (a + 1) ≡ u8 (x / 2 ^ 8))
      × (m (a + 2) ≡ u8 (x / 2 ^ 16))
      × (m (a + 3) ≡ u8 (x / 2 ^ 24))
    → word_at m a ≡ x
word-at m a x h e = omega arith

pub same_cblk :
    (c d : Cblk)
    → c.ti ≡ d.ti
    → c.src_addr ≡ d.src_addr
    → c.dst_addr ≡ d.dst_addr
    → c.txfr_len ≡ d.txfr_len
    → c.stride_word ≡ d.stride_word
    → c.next_cb ≡ d.next_cb
    → c ≡ d
same_cblk c d e f g h i j = cc

-- A block whose source address alone was overwritten.
pub cblk_at-patched :
    (a : ℕ) (m : Memory) (d : Cblk) (src : ℕ)
    → IsCblk d
    → ((o : ℕ) → o < 24 → (o < 4) ⊎ (8 ≤ o) → m (a + o) ≡ get_or (cblk_bytes d) o 0)
    → word_at m (a + 4) ≡ src
    → cblk_at m a ≡ record d { src_addr = src }
cblk_at-patched a m d src h kept patched =
    same_cblk (cblk_at m a) (record d { src_addr = src })
      (ap (word_at m) {x = a} {y = a + 0} (omega arith)
        ∙ field 0 d.ti h.0 (inl (omega arith)) (omega arith) refl refl refl refl)
      patched (field 8 d.dst_addr h.2 (inr (omega arith)) (omega arith) refl refl refl refl)
      (field 12 d.txfr_len h.3 (inr (omega arith)) (omega arith) refl refl refl refl)
      (field 16 d.stride_word h.4 (inr (omega arith)) (omega arith) refl refl refl refl)
      (field 20 d.next_cb h.5 (inr (omega arith)) (omega arith) refl refl refl refl)
  where
    field :
        (o x : ℕ)
        → x < 2 ^ 32
        → (o + 4 ≤ 4) ⊎ (8 ≤ o)
        → o + 4 ≤ 24
        → get_or (cblk_bytes d) (o + 0) 0 ≡ u8 x
        → get_or (cblk_bytes d) (o + 1) 0 ≡ u8 (x / 2 ^ 8)
        → get_or (cblk_bytes d) (o + 2) 0 ≡ u8 (x / 2 ^ 16)
        → get_or (cblk_bytes d) (o + 3) 0 ≡ u8 (x / 2 ^ 24)
        → word_at m (a + o) ≡ x
    field o x small which b e f g l = word-at m (a + o) x small (
      ap m {y = a + (o + 0)} (omega arith) ∙ kept (o + 0) (omega arith) (ground arith) ∙ e,
      ap m {y = a + (o + 1)} (omega arith) ∙ kept (o + 1) (omega arith) (ground arith) ∙ f,
      ap m {y = a + (o + 2)} (omega arith) ∙ kept (o + 2) (omega arith) (ground arith) ∙ g,
      ap m {y = a + (o + 3)} (omega arith) ∙ kept (o + 3) (omega arith) (ground arith) ∙ l,
    )

pub cblk_at-store :
    (a : ℕ) (c : Cblk) (m : Memory) → IsCblk c → cblk_at (store a (cblk_bytes c) m) a ≡ c
cblk_at-store a c m h =
    cblk_at-patched a (store a (cblk_bytes c) m) c c.src_addr h
      (λ o b w. store-inside a (cblk_bytes c) m (a + o) o refl (omega arith))
      (word-at (store a (cblk_bytes c) m) (a + 4) c.src_addr h.1 (
        store-inside a (cblk_bytes c) m (a + 4) 4 refl (omega arith),
        store-inside a (cblk_bytes c) m (a + 4 + 1) 5 (omega arith) (omega arith),
        store-inside a (cblk_bytes c) m (a + 4 + 2) 6 (omega arith) (omega arith),
        store-inside a (cblk_bytes c) m (a + 4 + 3) 7 (omega arith) (omega arith),
      ))

-- A block depends on its own bytes only.
pub cblk_at-same :
    (a : ℕ) (m n : Memory) → ((x : ℕ) → a ≤ x → x < a + 24 → m x ≡ n x) → cblk_at m a ≡ cblk_at n a
cblk_at-same a m n h =
    same_cblk (cblk_at m a) (cblk_at n a) (word a (omega arith) (omega arith))
      (word (a + 4) (omega arith) (omega arith)) (word (a + 8) (omega arith) (omega arith))
      (word (a + 12) (omega arith) (omega arith)) (word (a + 16) (omega arith) (omega arith))
      (word (a + 20) (omega arith) (omega arith))
  where
    word : (b : ℕ) → a ≤ b → b ≤ a + 20 → word_at m b ≡ word_at n b
    word b k l = omega (
      arith,
      h b k (omega arith),
      h (b + 1) (omega arith) (omega arith),
      h (b + 2) (omega arith) (omega arith),
      h (b + 3) (omega arith) (omega arith),
    )
