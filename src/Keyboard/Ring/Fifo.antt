-- ===== src/Keyboard/Ring/Fifo.antt =====
-- The scancode buffer against a queue: what arrives is what is read, up to the wrap of the
-- write pointer.
use sunflower.Common.{
  leb, length, set, get_or, length-set, ℕ, zero, suc, ◌+◌, ◌-◌, ◌%◌, ◌≤◌, ◌<◌, ◌≡◌, refl, sym, ap,
  subst, ◌∙◌, ◌≢◌, ◌⊎◌, inl, inr, true, false, Option, none, some, List, [], ◌∷◌, ◌++◌, arith,
  ℕ_discrete,
}
use sunflower.Keyboard.Ring.{Ring, kbd_handler, next_scancode}

-- What an interrupt or the poll loop does next.
pub data Event : Type 0 where
  interrupt : ℕ → Event
  poll : Event

unfoldable pub received : List Event → List ℕ
received [] = []
received (interrupt c ∷ es) = c ∷ received es
received (poll ∷ es) = received es

abbrev push : Option ℕ → List ℕ → List ℕ
push none cs = cs
push (some c) cs = c ∷ cs

-- The scancodes that the polls return, in order, and the buffer at the end.
unfoldable pub serve : List Event → Ring → List ℕ × Ring
serve [] s = ([], s)
serve (interrupt c ∷ es) s = serve es (kbd_handler true c s)
serve (poll ∷ es) s =
    let (c, s') = next_scancode s in let (cs, last) = serve es s' in (push c cs, last)

-- `n` cells from index `r`.
abbrev cells : ℕ → ℕ → List ℕ → List ℕ
cells zero r buf = []
cells (suc n) r buf = get_or buf r 0 ∷ cells n (r + 1) buf

unfoldable pub unread : Ring → List ℕ
unread s = cells (s.wptr - s.rptr) s.rptr s.buf

get_or-set_self : (xs : List ℕ) (i v : ℕ) → i < length xs → get_or (set xs i v) i 0 ≡ v
get_or-set_self [] i v h = absurd (omega arith)
get_or-set_self (x ∷ xs) zero v h = refl
get_or-set_self (x ∷ xs) (suc i) v h = get_or-set_self xs i v (omega arith)

get_or-set_ne : (xs : List ℕ) (i j v : ℕ) → i ≢ j → get_or (set xs i v) j 0 ≡ get_or xs j 0
get_or-set_ne [] i j v h = refl
get_or-set_ne (x ∷ xs) zero zero v h = absurd (h refl)
get_or-set_ne (x ∷ xs) zero (suc j) v h = refl
get_or-set_ne (x ∷ xs) (suc i) zero v h = refl
get_or-set_ne (x ∷ xs) (suc i) (suc j) v h = get_or-set_ne xs i j v (λ e. h (ap suc e))

-- Writing the cell after the last appends to what is read.
cells-set :
    (n r : ℕ) (buf : List ℕ) (c : ℕ)
    → r + n < length buf
    → cells (suc n) r (set buf (r + n) c) ≡ cells n r buf ++ (c ∷ [])
cells-set zero r buf c h =
    ap (λ x. x ∷ [])
      (ap (λ i. get_or (set buf i c) r 0) (omega arith) ∙ get_or-set_self buf r c (omega arith))
cells-set (suc n) r buf c h =
    let same : get_or (set buf (r + suc n) c) r 0 ≡ get_or buf r 0 =
      get_or-set_ne buf (r + suc n) r c (λ e. omega (arith, e)) in
    let shifted : set buf (r + suc n) c ≡ set buf (r + 1 + n) c =
      ap (λ i. set buf i c) (omega arith) in
    let rest = cells-set n (r + 1) buf c (omega (arith, h)) in
    let moved : cells (suc n) (r + 1) (set buf (r + suc n) c) ≡ cells n (r + 1) buf ++ (c ∷ []) =
      ap (cells (suc n) (r + 1)) shifted ∙ rest in
    cc

-- The queue that the buffer implements, with what the polls take from it.
abbrev pub queue : List Event → List ℕ → List ℕ × List ℕ
queue [] waiting = ([], waiting)
queue (interrupt c ∷ es) waiting = queue es (waiting ++ (c ∷ []))
queue (poll ∷ es) [] = queue es []
queue (poll ∷ es) (c ∷ waiting) = let (cs, last) = queue es waiting in (c ∷ cs, last)

pub record IsOrdered (s : Ring) : Type 0 where
  pub cells_256 : length s.buf ≡ 256
  pub behind : s.rptr ≤ s.wptr
  pub unwrapped : s.wptr < 256

interrupt_lem :
    (s : Ring) (c : ℕ)
    → IsOrdered s
    → s.wptr + 1 < 256
    → IsOrdered (kbd_handler true c s)
      × ((kbd_handler true c s).wptr ≡ s.wptr + 1)
      × (unread (kbd_handler true c s) ≡ unread s ++ (c ∷ []))
unfolding kbd_handler unread
interrupt_lem s c v h =
    let w : (s.wptr + 1) % 256 ≡ s.wptr + 1 = omega arith in
    let n : (s.wptr + 1) % 256 - s.rptr ≡ suc (s.wptr - s.rptr) = omega (arith, v.behind) in
    let at : s.wptr ≡ s.rptr + (s.wptr - s.rptr) = omega (arith, v.behind) in
    let added = cells-set (s.wptr - s.rptr) s.rptr s.buf c (omega (arith, v.cells_256, h)) in
    (
      record {
        cells_256 = length-set s.buf s.wptr c ∙ v.cells_256;
        behind = omega (arith, v.behind);
        unwrapped = omega (arith, h);
      },
      w,
      ap (λ k. cells k s.rptr (set s.buf s.wptr c)) n
          ∙ ap (λ i. cells (suc (s.wptr - s.rptr)) s.rptr (set s.buf i c)) at
          ∙ added,
    )

abbrev after_read : Ring → Ring
after_read s = record s { rptr = (s.rptr + 1) % 256 }

-- What a poll takes: nothing when nothing is unread, the first unread scancode otherwise.
poll_lem :
    (s : Ring)
    → IsOrdered s
    → (unread s ≡ []) × (next_scancode s ≡ (none, s))
      ⊎ (unread s ≡ get_or s.buf s.rptr 0 ∷ unread (after_read s))
        × (next_scancode s ≡ (some (get_or s.buf s.rptr 0), after_read s))
        × IsOrdered (after_read s)
unfolding next_scancode unread
poll_lem s v = elim (ℕ_discrete (s.wptr - s.rptr) 0) [
  | yes z ↦
      let full : s.rptr ≡ s.wptr = omega (arith, v.behind) in
      let e : leb s.wptr s.rptr ≡ true = ground arith in
      inl (
        ap (λ k. cells k s.rptr s.buf) z,
        rw e (ap (λ r. (none, record s { rptr = r })) (sym full)),
      )
  | no nz ↦
      let e : leb s.wptr s.rptr ≡ false = ground arith in
      let w : (s.rptr + 1) % 256 ≡ s.rptr + 1 = omega (arith, v.unwrapped) in
      let n : s.wptr - s.rptr ≡ suc (s.wptr - (s.rptr + 1) % 256) = omega arith in
      inr (
        ap (λ k. cells k s.rptr s.buf) n
            ∙ ap (λ r. get_or s.buf s.rptr 0 ∷ cells (s.wptr - (s.rptr + 1) % 256) r s.buf) (sym w),
        rw e refl,
        record { cells_256 = v.cells_256; behind = omega arith; unwrapped = v.unwrapped },
      )
]

-- The same scancodes returned, and the same ones waiting.
abbrev pub Agrees : List ℕ × Ring → List ℕ × List ℕ → Type 0
Agrees x y = (x.0 ≡ y.0) × (unread x.1 ≡ y.1)

poll-Agrees :
    (es : List Event) (s s' : Ring) (c : Option ℕ) (q : List ℕ × List ℕ)
    → next_scancode s ≡ (c, s')
    → Agrees (serve es s') q
    → Agrees (serve (poll ∷ es) s) (push c q.0, q.1)
unfolding serve
poll-Agrees es s s' c q e h =
    subst (λ x. Agrees (push x.0 (serve es x.1).0, (serve es x.1).1) (push c q.0, q.1)) (sym e)
      (ap (push c) h.0, h.1)

-- Until the write pointer wraps, the buffer is a queue: with interrupts and polls in any order,
-- from an ordered buffer and with the write pointer and the scancodes received together below
-- 256, the polls return what the queue's do, and the queue's contents are what is unread.
pub serve_refines :
    (es : List Event) (s : Ring)
    → IsOrdered s
    → s.wptr + length (received es) < 256
    → Agrees (serve es s) (queue es (unread s))
unfolding serve received
serve_refines [] s v h = (refl, refl)
serve_refines (interrupt c ∷ es) s v h =
    let (v', w, e) = interrupt_lem s c v (omega arith) in
    subst (λ q. Agrees (serve es (kbd_handler true c s)) (queue es q)) e
      (serve_refines es (kbd_handler true c s) v' (omega (arith, w)))
serve_refines (poll ∷ es) s v h = elim (poll_lem s v) [
  | inl (u, e) ↦
      subst (λ q. Agrees (serve (poll ∷ es) s) (queue (poll ∷ es) q)) (sym u)
        (poll-Agrees es s s none (queue es []) e
          (subst (λ q. Agrees (serve es s) (queue es q)) u (serve_refines es s v h)))
  | inr (u, e, v') ↦
      subst (λ q. Agrees (serve (poll ∷ es) s) (queue (poll ∷ es) q)) (sym u)
        (poll-Agrees es s (after_read s) (some (get_or s.buf s.rptr 0))
          (queue es (unread (after_read s))) e (serve_refines es (after_read s) v' h))
]

-- One scancode too many: with the write pointer at 255, an interrupt wraps it to 0, and the next
-- poll then returns nothing and catches up with it, so that every unread scancode is lost,
-- whatever the buffer holds.
pub poll-wrapped :
    (s : Ring) (c : ℕ)
    → s.wptr ≡ 255
    → ((next_scancode (kbd_handler true c s)).0 ≡ none)
      × (unread (next_scancode (kbd_handler true c s)).1 ≡ [])
unfolding next_scancode kbd_handler unread
poll-wrapped s c h =
    let w : (s.wptr + 1) % 256 ≡ 0 = omega arith in
    let e : leb ((s.wptr + 1) % 256) s.rptr ≡ true = ground arith in
    let z : (s.wptr + 1) % 256 - (s.wptr + 1) % 256 ≡ 0 = omega arith in
    rw e (refl, ap (λ n. cells n ((s.wptr + 1) % 256) (set s.buf s.wptr c)) z)
