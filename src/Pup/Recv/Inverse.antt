-- ===== src/Pup/Recv/Inverse.antt =====
-- What a reception behind ASC_SOH that ends well has read.
use mathlib.Core.Path.{subst}
use native.Mathlib.Numerals.{add-one}
use dma.Base.{ℕ, zero, suc, ◌+◌, ◌≡◌, refl, sym, ap, ◌∙◌, arith, Bool, true}
use dma.Base.{List, [], ◌∷◌, ◌++◌, length, append_assoc, append-nil, ◌==◌, ==→eq}
use dma.Pup.Port.{Fsm, Mframe, Got, got, lost, starved}
use dma.Pup.Fcs.{fcs16, fcs_init, fcs_ok}
use dma.Pup.Wire.{asc_stx, asc_etx, asc_eot, first, put_at, frame_plen}
use dma.Pup.Recv.{M, ◌>>=◌, symbol, require, wait_for}
use dma.Pup.Recv.{read_into, read_body, store_hdr, store_body, hdr_ok, body_ok, body_size}
use dma.Pup.Recv.{recv_frame}
use dma.Pup.Recv.Ready.{first-put_at}
use dma.Pup.Recv.Eats.{bytes_of, Reads, Reads-trans, Symbol, symbol-Symbol}
use dma.Pup.Recv.Frame.{buffers}
use dma.Pup.Wire.{le16_at}

bind-inv :
    {A B : Type 0} (m : M A) (k : A → M B) (s : Fsm) {b : B} {e : Fsm}
    → (m >>= k) s ≡ got b e
    → (a : A) × (t : Fsm) × (m s ≡ got a t) × (k a t ≡ got b e)
bind-inv {A} {B} m k s {b} {e} h = go (m s) refl h
  where
    go :
        (r : Got A)
        → m s ≡ r
        → ◌≡◌ {A = Got B}
            (elim r [ got a s' ↦ k a s' | lost s' ↦ lost s' | starved ↦ starved ])
            (got b e)
        → (a : A) × (t : Fsm) × (m s ≡ got a t) × (k a t ≡ got b e)
    go (got a t) e₁ e₂ = (a, t, e₁, e₂)
    go (lost t) e₁ e₂ = absurd (cc)
    go starved e₁ e₂ = absurd (cc)

require-inv :
    (test : Fsm → Bool) (s e : Fsm) → require test s ≡ got tt e → (test s ≡ true) × (s ≡ e)
require-inv test s e h = ground arith

symbol-inv :
    (f b : ℕ) (s t : Fsm) → symbol f s ≡ got b t → Reads s (b ∷ []) t × (t.framebuf ≡ s.framebuf)
symbol-inv f b s t h = subst (Symbol s) h (symbol-Symbol f s)

wait_for-inv :
    (x f : ℕ) (s t : Fsm)
    → wait_for x f s ≡ got tt t
    → Reads s (x ∷ []) t × (t.framebuf ≡ s.framebuf)
unfolding wait_for
wait_for-inv x f s t h =
    let (c, u, e₁, e₂) = bind-inv (symbol f) (λ c. require (λ _. c == x)) s h in
    let (same, there) = require-inv (λ _. c == x) u t e₂ in
    let (r, m) = symbol-inv f c s u e₁ in
    subst (λ v. Reads s (x ∷ []) v × (v.framebuf ≡ s.framebuf)) there
      (r ∙ ap (λ y. y ∷ bytes_of u.port.input) (==→eq c x same), m)

module _ (store : ℕ → ℕ → Mframe → Mframe) (view other : Mframe → List ℕ)
    (writes : (i b : ℕ) (m : Mframe) → view (store i b m) ≡ put_at (view m) i b)
    (spares : (i b : ℕ) (m : Mframe) → other (store i b m) ≡ other m) where
  -- The symbols read from index `i` on stand in the buffer.
  Filled : ℕ → ℕ → Fsm → Fsm → Type 0
  Filled n i s e =
      (bs : List ℕ) × (length bs ≡ n)
      × Reads s bs e
      × ((j : ℕ) → i + n ≡ j → first j (view e.framebuf) ≡ first i (view s.framebuf) ++ bs)
      × (other e.framebuf ≡ other s.framebuf)

  Filled-cons :
      (n i b : ℕ) (s t e : Fsm)
      → Reads s (b ∷ []) t
      → t.framebuf ≡ s.framebuf
      → Filled n (i + 1) (record t { framebuf = store i b t.framebuf }) e
      → Filled (suc n) i s e
  unfolding Filled
  Filled-cons n i b s t e r m (bs, l, r', seen, spared) = (
    b ∷ bs,
    ap suc l,
    Reads-trans s t e (b ∷ []) bs r r',
    λ j ej.
        seen j (omega arith)
        ∙ ap (λ k. first k (view (store i b t.framebuf)) ++ bs) (add-one i)
        ∙ ap (λ l. first (suc i) l ++ bs) (writes i b t.framebuf)
        ∙ ap (λ l. l ++ bs) (first-put_at i (view t.framebuf) b)
        ∙ append_assoc (first i (view t.framebuf)) (b ∷ []) bs
        ∙ ap (λ f. first i (view f) ++ b ∷ bs) m,
    spared ∙ spares i b t.framebuf ∙ ap other m,
  )

  read_into-inv : (n i f : ℕ) (s e : Fsm) → read_into store n i f s ≡ got tt e → Filled n i s e
  unfolding read_into
  read_into-inv zero i f s e h = subst (Filled zero i s) (same h) (
      unfold Filled in
      (
        [],
        refl,
        refl,
        λ j ej.
            ap (λ k. first k (view s.framebuf)) (omega arith)
            ∙ sym (append-nil (first i (view s.framebuf))),
        refl,
      ))
    where
      same : ◌≡◌ {A = Got (Unit {0})} (got tt s) (got tt e) → s ≡ e
      same h = cc
  read_into-inv (suc n) i f s e h =
      let (b, t, e₁, e₂) =
        bind-inv (symbol f)
          (λ b s'. read_into store n (i + 1) f (record s' { framebuf = store i b s'.framebuf })) s
          h in
      let (r, m) = symbol-inv f b s t e₁ in
      Filled-cons n i b s t e r m
        (read_into-inv n (i + 1) f (record t { framebuf = store i b t.framebuf }) e e₂)

  read_exact-inv :
      (n f : ℕ) (s e : Fsm)
      → read_into store n 0 f s ≡ got tt e
      → (bs : List ℕ) × (length bs ≡ n)
        × Reads s bs e
        × (first n (view e.framebuf) ≡ bs)
        × (other e.framebuf ≡ other s.framebuf)
  unfolding Filled
  read_exact-inv n f s e h =
      let (bs, l, r, seen, spared) = read_into-inv n 0 f s e h in
      (bs, l, r, seen n (omega arith), spared)

-- The bytes of one frame, from ASC_SOH on, with both sequences intact and the buffer filled.
pub record Framed (s e : Fsm) : Type 0 where
  pub hdr : List ℕ
  pub body : List ℕ
  pub on_line :
      bytes_of s.port.input ≡ hdr ++ asc_stx ∷ (body ++ asc_etx ∷ asc_eot ∷ bytes_of e.port.input)
  pub hdr_length : length hdr ≡ 10
  pub body_length : length body ≡ 2 + frame_plen e.framebuf
  pub hdr_good : fcs16 fcs_init hdr ≡ fcs_ok
  pub body_good : fcs16 fcs_init body ≡ fcs_ok
  pub hdr_held : first 10 e.framebuf.raw_hdr ≡ hdr
  pub body_held : first (2 + frame_plen e.framebuf) e.framebuf.raw_body ≡ body

framed :
    (s h x b e o : Fsm) (hdr body : List ℕ)
    → Reads s hdr h
    → length hdr ≡ 10
    → first 10 h.framebuf.raw_hdr ≡ hdr
    → hdr_ok h ≡ true
    → Reads h (asc_stx ∷ []) x
    → x.framebuf ≡ h.framebuf
    → Reads x body b
    → length body ≡ body_size x
    → first (body_size x) b.framebuf.raw_body ≡ body
    → b.framebuf.raw_hdr ≡ x.framebuf.raw_hdr
    → Reads b (asc_etx ∷ []) e
    → e.framebuf ≡ b.framebuf
    → Reads e (asc_eot ∷ []) o
    → o.framebuf ≡ e.framebuf
    → body_ok o ≡ true
    → Framed s o
framed s h x b e o hdr body rh lh sh gh rx mx rb lb sb spared re me ro mo go =
    let (held, body_held) = buffers mx (mo ∙ me) spared sh sb in
    record {
      hdr = hdr;
      body = body;
      on_line =
          rh
          ∙ ap (λ l. hdr ++ l)
              (rx
                ∙ ap (λ l. asc_stx ∷ l) (rb ∙ ap (λ l. body ++ l) (re ∙ ap (λ l. asc_etx ∷ l) ro)));
      hdr_length = lh;
      body_length =
          lb ∙ ap (λ l. 2 + le16_at l 2) (sym spared ∙ ap (λ m. m.raw_hdr) (sym (mo ∙ me)));
      hdr_good = ap (fcs16 fcs_init) (sym sh) ∙ ==→eq _ _ gh;
      body_good = ap (fcs16 fcs_init) (sym body_held) ∙ ==→eq _ _ go;
      hdr_held = held;
      body_held = body_held;
    }

pub recv_frame-inv : (f : ℕ) (s o : Fsm) → recv_frame f s ≡ got tt o → Framed s o
unfolding recv_frame
recv_frame-inv f s o r =
    let (_, h, eh, r₁) = bind-inv (read_into store_hdr 10 0 f) _ s r in
    let (_, h', eh', r₂) = bind-inv (require hdr_ok) _ h r₁ in
    let (gh, sh) = require-inv hdr_ok h h' eh' in
    let (_, x, ex, r₃) = bind-inv (wait_for asc_stx f) _ h' r₂ in
    let (_, b, eb, r₄) = bind-inv (read_body f) _ x r₃ in
    let (_, e, ee, r₅) = bind-inv (wait_for asc_etx f) _ b r₄ in
    let (_, o', eo, r₆) = bind-inv (wait_for asc_eot f) _ e r₅ in
    let (go, so) = require-inv body_ok o' o r₆ in
    let (hdr, lh, rh, seen, _) =
      read_exact-inv store_hdr (λ m. m.raw_hdr) (λ m. m.raw_body) (λ i b m. refl) (λ i b m. refl) 10
        f s h eh in
    let (rx, mx) = wait_for-inv asc_stx f h x (ap (wait_for asc_stx f) sh ∙ ex) in
    let (body, lb, rb, body_seen, spared) =
      read_exact-inv store_body (λ m. m.raw_body) (λ m. m.raw_hdr) (λ i b m. refl) (λ i b m. refl)
        (body_size x) f x b eb in
    let (re, me) = wait_for-inv asc_etx f b e ee in
    let (ro, mo) = wait_for-inv asc_eot f e o' eo in
    subst (Framed s) so
      (framed s h x b e o' hdr body rh lh seen gh rx mx rb lb body_seen spared re me ro mo go)
