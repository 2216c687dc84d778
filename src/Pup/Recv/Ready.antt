-- ===== src/Pup/Recv/Ready.antt =====
-- Receiving bytes that have already arrived.
use dma.Base.{get_or, ◌<◌, eq→==, ◌==◌, if◌then◌else◌}
use dma.Base.{ℕ, zero, suc, ◌+◌, ◌≤◌, ◌≡◌, refl, sym, ap, ◌∙◌, arith, Bool, true, le→leb}
use dma.Base.{List, [], ◌∷◌, ◌++◌, length, append_assoc, append-nil}
use mathlib.Core.Path.{subst}
use native.Mathlib.Numerals.{add-one}
use dma.Pup.Port.{Fsm, Mframe, Got, got, lost, TimerId, fsm_timer_clear, consumed}
use dma.Pup.Wire.{first, put_at}
use dma.Pup.Recv.{M, ◌>>=◌, await, symbol, read_into, wait_for, require}

-- Bytes that are there once the clock has been read `t` times.
abbrev pub at : ℕ → List ℕ → List (ℕ × ℕ)
at t [] = []
at t (b ∷ bs) = (t, b) ∷ at t bs

pub at-append : (t : ℕ) (xs ys : List ℕ) → at t (xs ++ ys) ≡ at t xs ++ at t ys
at-append t [] ys = refl
at-append t (x ∷ xs) ys = ap (λ l. (t, x) ∷ l) (at-append t xs ys)

-- What receiving symbols leaves alone; the clock goes on.
pub record Kept (s s' : Fsm) : Type 0 where
  pub reset : s'.reset ≡ s.reset
  pub resend : s'.resend ≡ s.resend
  pub iden : s'.iden ≡ s.iden
  pub has_passthru : s'.has_passthru ≡ s.has_passthru
  pub clock : s'.port.clock ≡ s.port.clock
  pub sent : s'.port.sent ≡ s.port.sent
  pub passed : s'.port.passed ≡ s.port.passed
  pub later : s.port.polls ≤ s'.port.polls

pub Kept-refl : (s : Fsm) → Kept s s
Kept-refl s = record {
  reset = refl;
  resend = refl;
  iden = refl;
  has_passthru = refl;
  clock = refl;
  sent = refl;
  passed = refl;
  later = omega arith;
}

pub Kept-trans : {s t u : Fsm} → Kept s t → Kept t u → Kept s u
Kept-trans a b = record {
  reset = b.reset ∙ a.reset;
  resend = b.resend ∙ a.resend;
  iden = b.iden ∙ a.iden;
  has_passthru = b.has_passthru ∙ a.has_passthru;
  clock = b.clock ∙ a.clock;
  sent = b.sent ∙ a.sent;
  passed = b.passed ∙ a.passed;
  later = omega (arith, a.later, b.later);
}

pub Kept-framebuf : {s s' : Fsm} (m : Mframe) → Kept s s' → Kept s (record s' { framebuf = m })
Kept-framebuf m k = record {
  reset = k.reset;
  resend = k.resend;
  iden = k.iden;
  has_passthru = k.has_passthru;
  clock = k.clock;
  sent = k.sent;
  passed = k.passed;
  later = k.later;
}

-- A computation that succeeds on the bytes `bs` at the head of the line and leaves `rest` there.
pub record Takes {A : Type 0} (a : A) (rest : List (ℕ × ℕ)) (s : Fsm) (r : Got A) : Type 0 where
  pub end : Fsm
  pub returns : r ≡ got a end
  pub input : end.port.input ≡ rest
  pub kept : Kept s end

pub symbol-ready :
    (f t b : ℕ) (rest : List (ℕ × ℕ)) (s : Fsm)
    → s.port.input ≡ (t, b) ∷ rest
    → t ≤ s.port.polls
    → (v : Takes b rest s (symbol (suc f) s)) × (v.end.framebuf ≡ s.framebuf)
unfolding symbol await fsm_timer_clear
symbol-ready f t b rest s e h = (
  record {
    end = consumed (fsm_timer_clear TimerId.timer_symbol s);
    returns = ground (arith, le→leb t (s.port.polls + 1));
    input = rw e refl;
    kept = record {
      reset = refl;
      resend = refl;
      iden = refl;
      has_passthru = refl;
      clock = refl;
      sent = refl;
      passed = refl;
      later = omega arith;
    };
  },
  refl,
)

pub first-put_at :
    (k : ℕ) (xs : List ℕ) (v : ℕ) → first (suc k) (put_at xs k v) ≡ first k xs ++ (v ∷ [])
first-put_at zero [] v = refl
first-put_at zero (x ∷ xs) v = refl
first-put_at (suc k) [] v = ap (λ l. 0 ∷ l) (first-put_at k [] v)
first-put_at (suc k) (x ∷ xs) v = ap (λ l. x ∷ l) (first-put_at k xs v)

pub bind-got :
    {A B : Type 0} (m : M A) (k : A → M B) (s : Fsm) {a : A} {s' : Fsm}
    → m s ≡ got a s'
    → (m >>= k) s ≡ k a s'
bind-got m k s e = rw (e, ◌>>=◌)

-- A buffer of the frame: reading into it writes symbol after symbol, and spares the other buffer.
module _ (store : ℕ → ℕ → Mframe → Mframe) (view other : Mframe → List ℕ)
    (writes : (i b : ℕ) (m : Mframe) → view (store i b m) ≡ put_at (view m) i b)
    (spares : (i b : ℕ) (m : Mframe) → other (store i b m) ≡ other m) where
  stored :
      (i b : ℕ) (m : Mframe) → first (i + 1) (view (store i b m)) ≡ first i (view m) ++ (b ∷ [])
  stored i b m =
      ap (λ k. first k (view (store i b m))) (add-one i)
      ∙ ap (first (suc i)) (writes i b m)
      ∙ first-put_at i (view m) b

  pub read_into-ready :
      (bs : List ℕ) (i j f t : ℕ) (rest : List (ℕ × ℕ)) (s : Fsm)
      → i + length bs ≡ j
      → s.port.input ≡ at t bs ++ rest
      → t ≤ s.port.polls
      → (v : Takes tt rest s (read_into store (length bs) i (suc f) s)) × (first j
            (view v.end.framebuf)
          ≡ first i (view s.framebuf) ++ bs)
        × (other v.end.framebuf ≡ other s.framebuf)
  unfolding read_into
  read_into-ready [] i j f t rest s ej e h =
      let same : j ≡ i = omega arith in
      (
        record { end = s; returns = refl; input = e; kept = Kept-refl s },
        ap (λ k. first k (view s.framebuf)) same ∙ sym (append-nil (first i (view s.framebuf))),
        refl,
      )
  read_into-ready (b ∷ bs) i j f t rest s ej e h =
      let (one, same) = symbol-ready f t b (at t bs ++ rest) s e h in
      let (more, seen, spared) =
        read_into-ready bs (i + 1) j f t rest
          (record (one.end) { framebuf = store i b one.end.framebuf }) (omega arith) one.input
          (omega (arith, one.kept.later)) in
      (
        record {
          end = more.end;
          returns = bind-got (symbol (suc f)) _ s one.returns ∙ more.returns;
          input = more.input;
          kept =
              Kept-trans {t = record (one.end) { framebuf = store i b one.end.framebuf }}
                (Kept-framebuf (store i b one.end.framebuf) one.kept) more.kept;
        },
        seen
            ∙ ap (λ l. l ++ bs) (stored i b one.end.framebuf)
            ∙ append_assoc (first i (view one.end.framebuf)) (b ∷ []) bs
            ∙ ap (λ m. first i (view m) ++ b ∷ bs) same,
        spared ∙ spares i b one.end.framebuf ∙ ap other same,
      )

  -- The same with the count that the code computes.
  pub read_exact :
      (bs : List ℕ) (n f t : ℕ) (rest : List (ℕ × ℕ)) (s : Fsm)
      → length bs ≡ n
      → s.port.input ≡ at t bs ++ rest
      → t ≤ s.port.polls
      → (v : Takes tt rest s (read_into store n 0 (suc f) s)) × (first n (view v.end.framebuf) ≡ bs)
        × (other v.end.framebuf ≡ other s.framebuf)
  read_exact bs n f t rest s en e h =
      subst
        (λ k.
          (v : Takes tt rest s (read_into store k 0 (suc f) s)) × (first k (view v.end.framebuf)
            ≡ bs)
          × (other v.end.framebuf ≡ other s.framebuf))
        en (read_into-ready bs 0 (length bs) f t rest s (omega arith) e h)

pub get_or-first : (n i : ℕ) (xs : List ℕ) → i < n → get_or (first n xs) i 0 ≡ get_or xs i 0
get_or-first zero i xs h = absurd (omega arith)
get_or-first (suc n) zero [] h = refl
get_or-first (suc n) (suc i) [] h = get_or-first n i [] (omega arith)
get_or-first (suc n) zero (x ∷ xs) h = refl
get_or-first (suc n) (suc i) (x ∷ xs) h = get_or-first n i xs (omega arith)

pub require-got : (test : Fsm → Bool) (s : Fsm) → test s ≡ true → require test s ≡ got tt s
require-got test s e = ap (λ b. if b then got tt s else lost s) e

pub wait_for-ready :
    (x f t : ℕ) (rest : List (ℕ × ℕ)) (s : Fsm)
    → s.port.input ≡ (t, x) ∷ rest
    → t ≤ s.port.polls
    → (v : Takes tt rest s (wait_for x (suc f) s)) × (v.end.framebuf ≡ s.framebuf)
unfolding wait_for
wait_for-ready x f t rest s e h =
    let (one, same) = symbol-ready f t x rest s e h in
    (
      record {
        end = one.end;
        returns =
            bind-got (symbol (suc f)) (λ c. require (λ _. c == x)) s one.returns
            ∙ require-got (λ _. x == x) one.end (eq→== x x refl);
        input = one.input;
        kept = one.kept;
      },
      same,
    )
