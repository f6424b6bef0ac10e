-- ===== src/Tcp/Queue.antt =====
-- The unsent buffers as a queue, and their delivery.
use webrtc_caller.Base.{
  ℕ, zero, suc, ◌+◌, ◌≤◌, ◌<◌, ◌≡◌, refl, ap, ◌∙◌, inl, inr, Bool, true, false, Option, none, some,
  List, [], ◌∷◌, ◌++◌, arith, leb, if◌then◌else◌, by_if, Bool-cases, length, length-append,
}
use webrtc_caller.Tcp.{
  Unsent, max_unsent_buffer_size, clear_unsent_buffer, add_unsent_buffer, top_unsent_buffer,
  pop_unsent_buffer, deliver_loop, tcp_deliver_delayed_buffer,
}

-- The buffers that wait, in the order of their arrival.
abbrev pub waiting : Unsent → List ℕ
waiting [] = []
waiting (none ∷ ub) = waiting ub
waiting (some nbh ∷ ub) = nbh ∷ waiting ub

abbrev pub first : List ℕ → Option ℕ
first [] = none
first (x ∷ xs) = some x

abbrev pub but_first : List ℕ → List ℕ
but_first [] = []
but_first (x ∷ xs) = xs

top-waiting : (ub : Unsent) → top_unsent_buffer ub ≡ first (waiting ub)
unfolding top_unsent_buffer
top-waiting [] = refl
top-waiting (none ∷ ub) = top-waiting ub
top-waiting (some nbh ∷ ub) = refl

pop-waiting :
    (ub : Unsent)
    → (waiting (pop_unsent_buffer ub) ≡ but_first (waiting ub))
      × (length (pop_unsent_buffer ub) ≡ length ub)
unfolding pop_unsent_buffer
pop-waiting [] = (refl, refl)
pop-waiting (none ∷ ub) = ((pop-waiting ub).0, ap suc (pop-waiting ub).1)
pop-waiting (some nbh ∷ ub) = (refl, refl)

waiting-append :
    (ub : Unsent) (nbh : ℕ) → waiting (ub ++ (some nbh ∷ [])) ≡ waiting ub ++ (nbh ∷ [])
waiting-append [] nbh = refl
waiting-append (none ∷ ub) nbh = waiting-append ub nbh
waiting-append (some x ∷ ub) nbh = ap (λ ys. x ∷ ys) (waiting-append ub nbh)

length-waiting : (ub : Unsent) → length (waiting ub) ≤ length ub
length-waiting [] = omega arith
length-waiting (none ∷ ub) = omega (arith, length-waiting ub)
length-waiting (some x ∷ ub) = omega (arith, length-waiting ub)

-- What a connection does with its buffers.
pub data Use : Type 0 where
  push : ℕ → Use
  pop clear : Use

unfoldable pub use_buffer : Use → Unsent → Unsent
unfolding add_unsent_buffer pop_unsent_buffer clear_unsent_buffer
use_buffer (push nbh) ub = add_unsent_buffer ub nbh
use_buffer pop ub = pop_unsent_buffer ub
use_buffer clear ub = clear_unsent_buffer ub

abbrev pub use_all : List Use → Unsent → Unsent
use_all [] ub = ub
use_all (u ∷ us) ub = use_all us (use_buffer u ub)

-- A queue, and how many buffers it has taken since it was cleared: sixteen in all.
abbrev pub spec_use : Use → List ℕ × ℕ → List ℕ × ℕ
spec_use (push nbh) (q, n) = if leb 16 n then (q, n) else (q ++ (nbh ∷ []), n + 1)
spec_use pop (q, n) = (but_first q, n)
spec_use clear (q, n) = ([], 0)

abbrev pub spec_all : List Use → List ℕ × ℕ → List ℕ × ℕ
spec_all [] s = s
spec_all (u ∷ us) s = spec_all us (spec_use u s)

-- What the buffers stand for.
abbrev pub taken : Unsent → List ℕ × ℕ
taken ub = (waiting ub, length ub)

use_buffer-spec : (u : Use) (ub : Unsent) → taken (use_buffer u ub) ≡ spec_use u (taken ub)
unfolding use_buffer add_unsent_buffer clear_unsent_buffer
use_buffer-spec (push nbh) ub = elim (Bool-cases (leb 16 (length ub))) [
  | inl full ↦ rw (full, add_unsent_buffer) refl
  | inr room ↦
      let more : length (ub ++ (some nbh ∷ [])) ≡ length ub + 1 =
        omega (arith, length-append ub (some nbh ∷ [])) in
      let w = waiting-append ub nbh in rw (room, add_unsent_buffer, w, more) refl
]
use_buffer-spec pop ub = let (w, n) = pop-waiting ub in rw (use_buffer, w, n) refl
use_buffer-spec clear ub = refl

use_buffer-bounded :
    (v : Use) (ub : Unsent)
    → length ub ≤ max_unsent_buffer_size
    → length (use_buffer v ub) ≤ max_unsent_buffer_size
unfolding use_buffer add_unsent_buffer clear_unsent_buffer
use_buffer-bounded (push nbh) ub short =
    by_if (λ (x : Unsent). length x ≤ max_unsent_buffer_size) (leb 16 (length ub)) _ _ (λ z. short)
      (λ room. let more = length-append ub (some nbh ∷ []) in ground (arith, more, room))
use_buffer-bounded pop ub short = rw (pop-waiting ub).1 short
use_buffer-bounded clear ub short = omega arith

-- The unsent buffers are a queue that takes sixteen buffers in all until it is cleared: after any
-- additions, removals and clearings the buffers that wait, and the number of places, are those of the
-- queue, top_unsent_buffer gives its first one, and no more than sixteen ever wait. A buffer that is sent
-- does not make room.
pub unsent_buffer_refines :
    (us : List Use) (ub : Unsent)
    → length ub ≤ max_unsent_buffer_size
    → (taken (use_all us ub) ≡ spec_all us (taken ub))
      × (top_unsent_buffer (use_all us ub) ≡ first (spec_all us (taken ub)).0)
      × (length (use_all us ub) ≤ max_unsent_buffer_size)
unsent_buffer_refines [] ub short = (refl, top-waiting ub, short)
unsent_buffer_refines (u ∷ us) ub short =
    let step = use_buffer-spec u ub in
    let (same, top, short') =
      unsent_buffer_refines us (use_buffer u ub) (use_buffer-bounded u ub short) in
    (same ∙ ap (spec_all us) step, top ∙ ap (λ s. first (spec_all us s).0) step, short')

deliver_loop-all :
    (ok : ℕ → Bool) (rounds : ℕ) (ub : Unsent) (q : List ℕ)
    → ((nbh : ℕ) → ok nbh ≡ true)
    → waiting ub ≡ q
    → length q < rounds
    → ((deliver_loop ok false rounds ub).0 ≡ q) × (waiting (deliver_loop ok false rounds ub).1 ≡ [])
unfolding deliver_loop
deliver_loop-all ok zero ub q fine e h = absurd (omega (arith, h))
deliver_loop-all ok (suc rounds) ub [] fine e h =
    let nothing : top_unsent_buffer ub ≡ none = top-waiting ub ∙ ap first e in
    rw (deliver_loop, nothing) (refl, e)
deliver_loop-all ok (suc rounds) ub (x ∷ xs) fine e h =
    let next : top_unsent_buffer ub ≡ some x = top-waiting ub ∙ ap first e in
    let rest : waiting (pop_unsent_buffer ub) ≡ xs = (pop-waiting ub).0 ∙ ap but_first e in
    let (sent, left) =
      deliver_loop-all ok rounds (pop_unsent_buffer ub) xs fine rest (omega (arith, h)) in
    rw (deliver_loop, next, fine x) (ap (λ ys. x ∷ ys) sent, left)

-- On a socket that takes every buffer and is not being closed, tcp_deliver_delayed_buffer sends all
-- that wait, in the order of their arrival, and none waits afterwards.
pub deliver_all :
    (ok : ℕ → Bool) (ub : Unsent)
    → ((nbh : ℕ) → ok nbh ≡ true)
    → length ub ≤ max_unsent_buffer_size
    → ((tcp_deliver_delayed_buffer ok false ub).0 ≡ waiting ub)
      × (waiting (tcp_deliver_delayed_buffer ok false ub).1 ≡ [])
unfolding tcp_deliver_delayed_buffer
deliver_all ok ub fine short =
    deliver_loop-all ok 17 ub (waiting ub) fine refl (omega (arith, length-waiting ub, short))
