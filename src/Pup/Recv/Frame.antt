-- ===== src/Pup/Recv/Frame.antt =====
-- A frame that has arrived whole is received, whatever stood in the buffer.
use dma.Base.{ℕ, suc, ◌+◌, ◌*◌, ◌^◌, ◌≤◌, ◌≡◌, refl, sym, ap, ap₂, ◌∙◌, arith, true, eq→==}
use dma.Base.{List, ◌∷◌, ◌++◌, length, get_or}
use dma.Pup.Port.{Fsm, Mframe, got}
use dma.Pup.Fcs.{fcs16, fcs_init, fcs_ok}
use dma.Pup.Wire.{first, le16_at, frame_plen, asc_stx, asc_etx, asc_eot}
use dma.Pup.Recv.{recv_frame, read_into, read_body, store_hdr, store_body, hdr_ok, body_ok}
use dma.Pup.Recv.{wait_for, body_size}
use dma.Pup.Recv.Ready.{at, Takes, Kept-trans, read_exact, wait_for-ready, require-got}
use dma.Pup.Recv.Ready.{get_or-first, bind-got}
use dma.Pup.Recv.{require}

-- The plen that the buffer shows is the one received.
plen_seen : (hdr raw : List ℕ) → first 10 raw ≡ hdr → le16_at raw 2 ≡ le16_at hdr 2
plen_seen hdr raw e =
    ap₂ (λ x y. x + 2 ^ 8 * y)
      (sym (get_or-first 10 2 raw (omega arith)) ∙ ap (λ l. get_or l 2 0) e)
      (sym (get_or-first 10 3 raw (omega arith)) ∙ ap (λ l. get_or l 3 0) e)

-- The stages of `recv_frame` in a row.
stages :
    (f : ℕ) (s h x b e o : Fsm)
    → read_into store_hdr 10 0 f s ≡ got tt h
    → hdr_ok h ≡ true
    → wait_for asc_stx f h ≡ got tt x
    → read_into store_body (body_size x) 0 f x ≡ got tt b
    → wait_for asc_etx f b ≡ got tt e
    → wait_for asc_eot f e ≡ got tt o
    → body_ok o ≡ true
    → recv_frame f s ≡ got tt o
unfolding recv_frame
stages f s h x b e o hr ho xr br er or oo =
    bind-got (read_into store_hdr 10 0 f) _ s hr
    ∙ bind-got (require hdr_ok) _ h (require-got hdr_ok h ho)
    ∙ bind-got (wait_for asc_stx f) _ h xr
    ∙ bind-got (read_body f) _ x br
    ∙ bind-got (wait_for asc_etx f) _ b er
    ∙ bind-got (wait_for asc_eot f) _ e or
    ∙ require-got body_ok o oo

-- The buffers at the end are those of the header's and the body's stage.
pub buffers :
    {h x b o : Mframe} {hdr body : List ℕ}
    → x ≡ h
    → o ≡ b
    → b.raw_hdr ≡ x.raw_hdr
    → first 10 h.raw_hdr ≡ hdr
    → first (2 + frame_plen x) b.raw_body ≡ body
    → (first 10 o.raw_hdr ≡ hdr) × (first (2 + frame_plen o) o.raw_body ≡ body)
buffers {h} {x} {b} {o} {hdr} {body} xh ob spared seen body_seen =
    let hdr_kept : o.raw_hdr ≡ h.raw_hdr =
      ap (λ m. m.raw_hdr) ob ∙ spared ∙ ap (λ m. m.raw_hdr) xh in
    (
      ap (first 10) hdr_kept ∙ seen,
      ap₂ (λ (l : List ℕ) (m : Mframe). first (2 + le16_at l 2) m.raw_body)
            (ap (λ m. m.raw_hdr) ob ∙ spared) ob
          ∙ body_seen,
    )

module _ (f t : ℕ) (hdr body : List ℕ) (rest : List (ℕ × ℕ)) (s : Fsm) (ten : length hdr ≡ 10)
    (hdr_good : fcs16 fcs_init hdr ≡ fcs_ok) (size : length body ≡ 2 + le16_at hdr 2)
    (body_good : fcs16 fcs_init body ≡ fcs_ok)
    (input : s.port.input
      ≡ at t hdr ++ (t, asc_stx) ∷ (at t body ++ (t, asc_etx) ∷ (t, asc_eot) ∷ rest))
    (arrived : t ≤ s.port.polls) where
  abbrev behind_body : List (ℕ × ℕ)
  behind_body = (t, asc_etx) ∷ (t, asc_eot) ∷ rest

  abbrev pub Received : Fsm → Type 0
  Received end =
      (first 10 end.framebuf.raw_hdr ≡ hdr) × (first (body_size end) end.framebuf.raw_body ≡ body)

  finish :
      (h : Takes tt
        ((t, asc_stx) ∷ (at t body ++ behind_body))
        s
        (read_into store_hdr 10 0 (suc f) s))
      → first 10 h.end.framebuf.raw_hdr ≡ hdr
      → (x : Takes tt (at t body ++ behind_body) h.end (wait_for asc_stx (suc f) h.end))
      → x.end.framebuf ≡ h.end.framebuf
      → (b : Takes tt behind_body x.end (read_body (suc f) x.end))
      → first (body_size x.end) b.end.framebuf.raw_body ≡ body
      → b.end.framebuf.raw_hdr ≡ x.end.framebuf.raw_hdr
      → (e : Takes tt ((t, asc_eot) ∷ rest) b.end (wait_for asc_etx (suc f) b.end))
      → e.end.framebuf ≡ b.end.framebuf
      → (o : Takes tt rest e.end (wait_for asc_eot (suc f) e.end)) → o.end.framebuf ≡ e.end.framebuf
      → (v : Takes tt rest s (recv_frame (suc f) s)) × Received v.end
  finish h seen x x_same b body_seen spared e e_same o o_same =
      let final = buffers x_same (o_same ∙ e_same) spared seen body_seen in
      (
        record {
          end = o.end;
          returns =
              stages (suc f) s h.end x.end b.end e.end o.end h.returns
                (eq→== _ _ (ap (fcs16 fcs_init) seen ∙ hdr_good)) x.returns b.returns e.returns
                o.returns (eq→== _ _ (ap (fcs16 fcs_init) (final.1) ∙ body_good));
          input = o.input;
          kept =
              Kept-trans h.kept (Kept-trans x.kept (Kept-trans b.kept (Kept-trans e.kept o.kept)));
        },
        final,
      )

  -- A frame that is on the line whole is received: both buffers hold it, and it is off the line.
  pub recv_frame-ready : (v : Takes tt rest s (recv_frame (suc f) s)) × Received v.end
  recv_frame-ready =
      let (h, seen, _) =
        read_exact store_hdr (λ m. m.raw_hdr) (λ m. m.raw_body) (λ i b m. refl) (λ i b m. refl) hdr
          10 f t _ s ten input arrived in
      let (x, x_same) = wait_for-ready asc_stx f t _ h.end h.input (omega (arith, h.kept.later)) in
      let (b, body_seen, spared) =
        read_exact store_body (λ m. m.raw_body) (λ m. m.raw_hdr) (λ i b m. refl) (λ i b m. refl)
          body (body_size x.end) f t _ x.end
          (size
            ∙ ap (λ n. 2 + n)
                (sym (ap (λ m. frame_plen m) x_same ∙ plen_seen hdr h.end.framebuf.raw_hdr seen)))
          x.input (omega (arith, h.kept.later, x.kept.later)) in
      let (e, e_same) =
        wait_for-ready asc_etx f t _ b.end b.input
          (omega (arith, h.kept.later, x.kept.later, b.kept.later)) in
      let (o, o_same) =
        wait_for-ready asc_eot f t _ e.end e.input
          (omega (arith, h.kept.later, x.kept.later, b.kept.later, e.kept.later)) in
      finish h seen x x_same b body_seen spared e e_same o o_same
