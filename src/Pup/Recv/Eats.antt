-- ===== src/Pup/Recv/Eats.antt =====
-- What any reception, whatever its end, does to the line: it takes bytes off the front.
use dma.Base.{ℕ, zero, suc, ◌+◌, ◌≡◌, refl, sym, ap, ◌∙◌, arith, Bool, true, false}
use dma.Base.{List, [], ◌∷◌, ◌++◌, append_assoc, if◌then◌else◌, ◌==◌}
use dma.Pup.Port.{Fsm, Mframe, Got, got, lost, starved, TimerId, fsm_timer_tick, fsm_timer_clear}
use dma.Pup.Port.{platform_can_read, ready, next_byte, rest_of, consumed}
use dma.Pup.Recv.{M, ◌>>=◌, await, symbol, require, wait_for, read_into, recv_frame, read_body}
use dma.Pup.Recv.{store_hdr, store_body, hdr_ok, body_ok, body_size}
use dma.Pup.Wire.{asc_stx, asc_etx, asc_eot}

abbrev pub bytes_of : List (ℕ × ℕ) → List ℕ
bytes_of [] = []
bytes_of ((t, b) ∷ rest) = b ∷ bytes_of rest

-- `s'` is `s` after the bytes `bs` were read.
abbrev pub Reads : Fsm → List ℕ → Fsm → Type 0
Reads s bs s' = bytes_of s.port.input ≡ bs ++ bytes_of s'.port.input

pub Reads-trans :
    (s t u : Fsm) (xs ys : List ℕ) → Reads s xs t → Reads t ys u → Reads s (xs ++ ys) u
Reads-trans s t u xs ys p q =
    p ∙ ap (λ l. xs ++ l) q ∙ sym (append_assoc xs ys (bytes_of u.port.input))

abbrev pub Eaten : Fsm → Fsm → Type 0
Eaten s s' = (bs : List ℕ) × Reads s bs s'

abbrev pub Ends : {A : Type 0} → Fsm → Got A → Type 0
Ends s (got a s') = Eaten s s'
Ends s (lost s') = Eaten s s'
Ends s starved = Unit

abbrev pub Eats : {A : Type 0} → M A → Type 0
Eats m = (s : Fsm) → Ends s (m s)

Ends-later : {A : Type 0} (s t : Fsm) (r : Got A) → Eaten s t → Ends t r → Ends s r
Ends-later s t (got a u) (xs, p) (ys, q) = (xs ++ ys, Reads-trans s t u xs ys p q)
Ends-later s t (lost u) (xs, p) (ys, q) = (xs ++ ys, Reads-trans s t u xs ys p q)
Ends-later s t starved e q = tt

pub Eats-bind :
    {A B : Type 0} (m : M A) (k : A → M B) → Eats m → ((a : A) → Eats (k a)) → Eats (m >>= k)
Eats-bind {A} {B} m k em ek s = go (m s) (em s)
  where
    go :
        (r : Got A)
        → Ends s r
        → Ends s
            (elim r as (λ _. Got B) [ got a s' ↦ k a s' | lost s' ↦ lost s' | starved ↦ starved ])
    go (got a t) e = Ends-later s t (k a t) e (ek a t)
    go (lost t) e = e
    go starved e = tt

-- The clock leaves the line and the buffer alone.
pub tick_facts :
    (id : TimerId) (s : Fsm)
    → ((fsm_timer_tick id s).1.port.input ≡ s.port.input)
      × ((fsm_timer_tick id s).1.framebuf ≡ s.framebuf)
unfolding fsm_timer_tick
tick_facts TimerId.timer_reset s = ground arith
tick_facts TimerId.timer_resend s = ground arith
tick_facts TimerId.timer_symbol s = ground arith

-- A wait ends with a byte at hand and the same line, or gives up with the same line.
abbrev pub Waited : Fsm → Got (Unit {0}) → Type 0
Waited s (got _ s') =
    (platform_can_read s' ≡ true) × (s'.port.input ≡ s.port.input) × (s'.framebuf ≡ s.framebuf)
Waited s (lost s') = s'.port.input ≡ s.port.input
Waited s starved = Unit

Waited-later :
    (s t : Fsm) (r : Got (Unit {0}))
    → t.port.input ≡ s.port.input
    → t.framebuf ≡ s.framebuf
    → Waited t r
    → Waited s r
Waited-later s t (got _ u) i m w = (w.0, w.1 ∙ i, w.2 ∙ m)
Waited-later s t (lost u) i m w = w ∙ i
Waited-later s t starved i m w = tt

pub await-Waited : (f : ℕ) (s : Fsm) → Waited s (await f s)
unfolding await
await-Waited zero s = tt
await-Waited (suc f) s =
    split (platform_can_read s) (fsm_timer_tick TimerId.timer_symbol s).0 refl
      (await-Waited f (fsm_timer_tick TimerId.timer_symbol s).1)
  where
    split :
        (b c : Bool)
        → platform_can_read s ≡ b
        → Waited
            (fsm_timer_tick TimerId.timer_symbol s).1
            (await f (fsm_timer_tick TimerId.timer_symbol s).1)
        → Waited s (elim b as (λ _. Got (Unit {0})) [
          | true ↦ got tt s
          | false ↦ elim c as (λ _. Got (Unit {0})) [
            | true ↦ lost (fsm_timer_tick TimerId.timer_symbol s).1
            | false ↦ await f (fsm_timer_tick TimerId.timer_symbol s).1
          ]
        ])
    split true c e ih = (e, refl, refl)
    split false true e ih = (tick_facts TimerId.timer_symbol s).0
    split false false e ih =
        let (i, m) = tick_facts TimerId.timer_symbol s in
        Waited-later s (fsm_timer_tick TimerId.timer_symbol s).1
          (await f (fsm_timer_tick TimerId.timer_symbol s).1) i m ih

-- A byte at hand is the head of the line.
pub head_ready :
    (n : ℕ) (l : List (ℕ × ℕ)) → ready n l ≡ true → bytes_of l ≡ next_byte l ∷ bytes_of (rest_of l)
head_ready n [] e = absurd (cc)
head_ready n ((t, b) ∷ l) e = refl

-- A symbol is the next byte; a symbol that is lost takes none.
abbrev pub Symbol : Fsm → Got ℕ → Type 0
Symbol s (got b s') = Reads s (b ∷ []) s' × (s'.framebuf ≡ s.framebuf)
Symbol s (lost s') = Reads s [] s'
Symbol s starved = Unit

pub symbol-Symbol : (f : ℕ) (s : Fsm) → Symbol s (symbol f s)
unfolding symbol fsm_timer_clear
symbol-Symbol f s = read (await f (fsm_timer_clear TimerId.timer_symbol s)) (await-Waited f _)
  where
    read :
        (r : Got (Unit {0}))
        → Waited (fsm_timer_clear TimerId.timer_symbol s) r
        → Symbol s (elim r as (λ _. Got ℕ) [
          | got _ s' ↦ got (next_byte s'.port.input) (consumed s')
          | lost s' ↦ lost s'
          | starved ↦ starved
        ])
    read (got _ t) w = (sym (ap bytes_of w.1) ∙ head_ready t.port.polls t.port.input w.0, w.2)
    read (lost t) w = sym (ap bytes_of w)
    read starved w = tt

pub symbol-Eats : (f : ℕ) → Eats (symbol f)
symbol-Eats f s = go (symbol f s) (symbol-Symbol f s)
  where
    go : (r : Got ℕ) → Symbol s r → Ends s r
    go (got b t) w = (b ∷ [], w.0)
    go (lost t) w = ([], w)
    go starved w = tt

pub require-Eats : (test : Fsm → Bool) → Eats (require test)
require-Eats test s = go (test s)
  where
    go : (b : Bool) → Ends s (if b then got tt s else lost s)
    go true = ([], refl)
    go false = ([], refl)

pub wait_for-Eats : (x f : ℕ) → Eats (wait_for x f)
unfolding wait_for
wait_for-Eats x f =
    Eats-bind (symbol f) (λ c. require (λ _. c == x)) (symbol-Eats f)
      (λ c. require-Eats (λ _. c == x))

pub read_into-Eats : (store : ℕ → ℕ → Mframe → Mframe) (n i f : ℕ) → Eats (read_into store n i f)
unfolding read_into
read_into-Eats store zero i f s = ([], refl)
read_into-Eats store (suc n) i f s =
    Eats-bind (symbol f) _ (symbol-Eats f)
      (λ b t. read_into-Eats store n (i + 1) f (record t { framebuf = store i b t.framebuf })) s

-- Whatever happens behind ASC_SOH, bytes leave the line only from its front.
pub recv_frame-Eats : (f : ℕ) → Eats (recv_frame f)
unfolding recv_frame
recv_frame-Eats f = Eats-bind (read_into store_hdr 10 0 f) _ (read_into-Eats store_hdr 10 0 f) λ _.
    Eats-bind (require hdr_ok) _ (require-Eats hdr_ok) λ _.
      Eats-bind (wait_for asc_stx f) _ (wait_for-Eats asc_stx f) λ _.
        Eats-bind (read_body f) _ (λ s. read_into-Eats store_body (body_size s) 0 f s)
          λ _. Eats-bind (wait_for asc_etx f) _ (wait_for-Eats asc_etx f) λ _.
            Eats-bind (wait_for asc_eot f) _ (wait_for-Eats asc_eot f) λ _. require-Eats body_ok
