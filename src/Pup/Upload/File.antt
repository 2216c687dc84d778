-- ===== src/Pup/Upload/File.antt =====
-- What the host's main program announces of the input file (pup/host.c), and the chunks of it.
use dma.Base.{
  ℕ, zero, suc, ◌+◌, ◌-◌, ◌*◌, ◌/◌, ◌<◌, ◌≤◌, ◌≡◌, refl, sym, ap, ◌∙◌, arith, Option, none, some,
  List, [], ◌∷◌, ◌++◌, take, drop, length, take-append-drop, length-drop, All,
}
use dma.Pup.Crc.{crc32, crc_init}
use dma.Pup.Crc.Serial.{crc32-append, crc32-nil}
use dma.Pup.Upload.{platform_marshal, staging_size}

-- The loop of `input_crc` over the results of `read`, which may be shorter than the buffer; `none`
-- is an error, and there the program exits.
unfoldable pub read_crc : ℕ → List (Option (List ℕ)) → Option ℕ
read_crc crc [] = some crc
read_crc crc (none ∷ reads) = none
read_crc crc (some [] ∷ reads) = some crc
read_crc crc (some (b ∷ bs) ∷ reads) = read_crc (crc32 crc (b ∷ bs)) reads

unfoldable pub input_crc : List (Option (List ℕ)) → Option ℕ
input_crc reads = read_crc crc_init reads

-- The source keeps the quotient in an `int`: files below about 2 ^ 47 bytes.
unfoldable pub total_chunks : ℕ → ℕ
total_chunks wire_size = (wire_size + 0xfffe) / 0xffff

-- Reads that give the file piece by piece.
abbrev pub pieces_read : List (List ℕ) → List (Option (List ℕ))
pieces_read [] = []
pieces_read (piece ∷ pieces) = some piece ∷ pieces_read pieces

abbrev pub joined : List (List ℕ) → List ℕ
joined [] = []
joined (piece ∷ pieces) = piece ++ joined pieces

-- The `n` chunks from `num` on, put together.
unfoldable pub chunks_from : List ℕ → ℕ → ℕ → Option (List ℕ)
chunks_from file zero num = some []
chunks_from file (suc n) num =
    let later = chunks_from file n (suc num) in
    elim (platform_marshal file num) [
      | none ↦ none
      | some chunk ↦ elim later [ none ↦ none | some rest ↦ some (chunk ++ rest) ]
    ]

drop-nil : (n : ℕ) → drop {A = ℕ} n [] ≡ []
drop-nil zero = refl
drop-nil (suc n) = refl

drop-drop : (n k : ℕ) (xs : List ℕ) → drop n (drop k xs) ≡ drop (k + n) xs
drop-drop n zero xs = ap (λ i. drop i xs) (omega arith)
drop-drop n (suc k) [] = drop-nil n ∙ sym (drop-nil (suc k + n))
drop-drop n (suc k) (x ∷ xs) =
    drop-drop n k xs ∙ ap (λ i. drop i (x ∷ xs)) {x = suc (k + n)} (omega arith)

drop-all : (n : ℕ) (xs : List ℕ) → length xs ≤ n → drop n xs ≡ []
drop-all n [] h = drop-nil n
drop-all zero (x ∷ xs) h = absurd (omega arith)
drop-all (suc n) (x ∷ xs) h = drop-all n xs (omega arith)

-- A chunk before the end of the file.
platform_marshal-take :
    (file : List ℕ) (num : ℕ)
    → 0 < length (drop (num * staging_size) file)
    → platform_marshal file num ≡ some (take staging_size (drop (num * staging_size) file))
unfolding platform_marshal
platform_marshal-take file num inside = full (drop (num * staging_size) file) inside
  where
    full :
        (xs : List ℕ)
        → 0 < length xs
        → elim (take staging_size xs) as (λ _. Option (List ℕ)) [
          | [] ↦ none
          | b ∷ bs ↦ some (b ∷ bs)
        ]
          ≡ some (take staging_size xs)
    full [] h = absurd (omega arith)
    full (x ∷ xs) h = refl

chunks_from-drop :
    (file : List ℕ) (n num : ℕ)
    → length file - num * staging_size ≤ n * staging_size
    → n * staging_size < length file - num * staging_size + staging_size
    → chunks_from file n num ≡ some (drop (num * staging_size) file)
unfolding chunks_from
chunks_from-drop file zero num enough needed =
    ap some (sym (drop-all (num * staging_size) file (omega arith)))
chunks_from-drop file (suc n) num enough needed =
    ap
      (λ o. elim o as (λ _. Option (List ℕ)) [
        | none ↦ none
        | some chunk ↦ elim (chunks_from file n (suc num)) [
          | none ↦ none
          | some rest ↦ some (chunk ++ rest)
        ]
      ])
      (platform_marshal-take file num (omega (arith, length-drop (num * staging_size) file)))
    ∙ ap
        (λ o. elim o as (λ _. Option (List ℕ)) [
          | none ↦ none
          | some rest ↦ some (take staging_size (drop (num * staging_size) file) ++ rest)
        ])
        (chunks_from-drop file n (suc num) (omega arith) (omega arith)
          ∙ ap some (
              ap (λ i. drop i file) {y = num * staging_size + staging_size} (omega arith)
              ∙ sym (drop-drop staging_size (num * staging_size) file)))
    ∙ ap some (take-append-drop staging_size (drop (num * staging_size) file))

read_crc-pieces :
    (crc : ℕ) (pieces : List (List ℕ))
    → All (λ piece. 0 < length piece) pieces
    → read_crc crc (pieces_read pieces) ≡ some (crc32 crc (joined pieces))
unfolding read_crc
read_crc-pieces crc [] full = ap some (sym (crc32-nil crc))
read_crc-pieces crc ([] ∷ pieces) full = absurd (omega (arith, full.0))
read_crc-pieces crc ((b ∷ bs) ∷ pieces) full =
    read_crc-pieces (crc32 crc (b ∷ bs)) pieces full.1
    ∙ ap some (sym (crc32-append crc (b ∷ bs) (joined pieces)))

-- However `read` cuts the file into nonempty pieces, input_crc is the CRC-32 of the file; and the
-- chunks that platform_marshal hands out for the numbers below total_chunks of the file's length
-- are, put together, the file.
pub input_crc-chunks :
    (pieces : List (List ℕ))
    → All (λ piece. 0 < length piece) pieces
    → (input_crc (pieces_read pieces) ≡ some (crc32 crc_init (joined pieces)))
      × (chunks_from (joined pieces) (total_chunks (length (joined pieces))) 0
          ≡ some (joined pieces))
unfolding input_crc total_chunks
input_crc-chunks pieces full = (
  read_crc-pieces crc_init pieces full,
  chunks_from-drop (joined pieces) ((length (joined pieces) + 0xfffe) / 0xffff) 0 (omega arith)
      (omega arith),
)
