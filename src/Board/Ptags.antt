-- ===== src/Board/Ptags.antt =====
-- Property tags (bcm2835/ptags.c): requests to the VideoCore firmware through its mailbox, as words.
-- What the firmware does to the buffer, and the mailbox's registers, are a parameter.
use dma.Base.{
  ℕ, ◌+◌, ◌*◌, ◌/◌, ◌%◌, ◌^◌, ◌==◌, ◌&&◌, ltb, if◌then◌else◌, Option, none, some, List, [], ◌∷◌,
  ◌++◌, length, take, drop, get_or, bit_and, bit_or, u16, u32,
}

-- `struct mbox_tag_hdr`
pub record TagHdr : Type 0 where
  pub ident : ℕ
  pub vbuf_size : ℕ
  pub resp_size : ℕ
  pub is_response : ℕ

unfoldable pub mk_tag_hdr : ℕ → ℕ → ℕ → TagHdr
mk_tag_hdr ident0 ident1 vbuf_size = record {
  ident = bit_or (ident0 * 2 ^ 16) ident1;
  vbuf_size = vbuf_size;
  resp_size = 0;
  is_response = 0;
}

-- A tag in memory: the header's three words, then the value buffer.
unfoldable pub tag_words : TagHdr → List ℕ → List ℕ
tag_words hdr payload =
    hdr.ident ∷ hdr.vbuf_size ∷ (hdr.resp_size + hdr.is_response * 2 ^ 31) ∷ payload

-- How `mail` ends: with the tag that the firmware has left, or with `false`; `panicked` is a failed
-- `assert` or `panic`.
pub data Mailed : Type 0 where
  request_ok : List ℕ → Mailed
  request_err : Mailed
  panicked : Mailed

abbrev pub arm_to_vc : ℕ
arm_to_vc = 8

-- The word written to the mailbox and the buffer there, to the word read and the buffer then.
abbrev pub Firmware : Type 0
Firmware = ℕ → List ℕ → ℕ × List ℕ

-- The end of `mail`, on the buffer's code.
unfoldable pub mail_result : ℕ → List ℕ → Mailed
mail_result tagsz buf =
    if get_or buf 1 0 == 2 ^ 31
    then request_ok (take tagsz (drop 2 buf))
    else if get_or buf 1 0 == 2 ^ 31 + 1
    then request_err
    else panicked

-- `mail`, with the address of its buffer; sizes in the buffer are in bytes, `length` is in words.
unfoldable pub mail : Firmware → ℕ → ℕ → List ℕ → Mailed
mail firmware bufaddr channel tag =
    let writev = bit_or (u32 (0x40000000 + bufaddr)) channel in
    let (readv, buf) = firmware writev ((8 + 4 * length tag + 4) ∷ 0 ∷ tag ++ (0 ∷ [])) in
    if (bit_and bufaddr 0xf == 0) && ltb bufaddr 0x20000000
    then (if writev == readv then mail_result (length tag) buf else panicked)
    else panicked

-- The value buffer of a response of `size` bytes; `none` is a panic.
unfoldable pub response : ℕ → Mailed → Option (List ℕ)
response size (request_ok tag) =
    if (get_or tag 2 0 / 2 ^ 31 == 1) && (get_or tag 2 0 % 2 ^ 31 == size)
    then some (drop 3 tag)
    else none
response size request_err = none
response size panicked = none

module _ (firmware : Firmware) (bufaddr : ℕ) where
  unfoldable pub query : ℕ → ℕ → ℕ → List ℕ → Option (List ℕ)
  query ident0 ident1 size payload =
      response size
        (mail firmware bufaddr arm_to_vc (tag_words (mk_tag_hdr ident0 ident1 size) payload))

  -- Two words: base and size of a `struct ptag_mem_region`.
  pub ptag_get_arm_memory : Option (List ℕ)
  ptag_get_arm_memory = query 1 5 8 (0 ∷ 0 ∷ [])

  pub ptag_get_vc_memory : Option (List ℕ)
  ptag_get_vc_memory = query 1 6 8 (0 ∷ 0 ∷ [])

  unfoldable pub ptag_get_dma_channel_mask : Option ℕ
  ptag_get_dma_channel_mask = elim (query 6 1 4 (0 ∷ [])) [
    | none ↦ none
    | some payload ↦
        if bit_and (get_or payload 0 0) 0xffff0000 == 0
        then some (u16 (get_or payload 0 0))
        else none
  ]

  pub ptag_get_nominal_clock_rate : ℕ → Option ℕ
  ptag_get_nominal_clock_rate which_clock = elim (query 3 2 8 (which_clock ∷ 0 ∷ [])) [
    | none ↦ none
    | some payload ↦ some (get_or payload 1 0)
  ]

  pub ptag_get_measured_clock_rate : ℕ → Option ℕ
  ptag_get_measured_clock_rate which_clock = elim (query 3 0x47 8 (which_clock ∷ 0 ∷ [])) [
    | none ↦ none
    | some payload ↦ some (get_or payload 1 0)
  ]
