-- ===== src/Ports/Membership.antt =====
-- The queue of the free ports and the status of the ports.
use webrtc_caller.Base.{
  ℕ, zero, suc, ◌+◌, ◌-◌, ◌%◌, ◌≤◌, ◌≡◌, refl, sym, ap, ◌∙◌, ◌↔◌, Bool, true, false, not, ◌&&◌,
  Option, none, some, List, [], ◌∷◌, arith, ltb, leb, ◌==◌, contains, Memory,
}
use webrtc_caller.Ports.{PortTable, ports_size, is_taken, allocate}
use webrtc_caller.Ports.Queue.{entries, free, pop}
use webrtc_caller.Ports.Valid.{IsValid, is_taken-position}
use webrtc_caller.Ports.Pop.{Popped, allocate-Popped}
use webrtc_caller.Ports.Taken.{allocate-Took}

-- `p` is an entry exactly when its status is a position of the window that holds it.
contains-entries :
    (status ports : Memory) (p k n : ℕ)
    → contains (entries status ports k n) p
      ≡ (leb k (status p) && ltb (status p) (k + n) && ports (status p % ports_size) == p)
contains-entries status ports p k zero = ground arith
contains-entries status ports p k (suc n) =
    ground (arith, contains-entries status ports p (k + 1) n)

-- A port of the range is in the queue exactly when it is not taken.
pub contains-free :
    (t : PortTable) (p : ℕ)
    → IsValid t
    → t.range_start ≤ p
    → p ≤ t.range_stop
    → contains (free t) p ≡ not (is_taken (t.status p))
unfolding free
contains-free t p v a b = ground (
  arith,
  contains-entries t.status t.ports p t.low (t.high - t.low),
  v.listed p a b,
  v.order,
  v.young,
  is_taken-position (t.status p),
)

pop-none : (q : List ℕ) → (pop q).0 ≡ none → q ≡ []
unfolding pop
pop-none [] e = refl
pop-none (p ∷ q) e = cc

not-true : (b : Bool) → false ≡ not b → b ≡ true
not-true b e = ground arith

-- turnports_allocate fails exactly when every port of the range is taken.
pub allocate-none_iff :
    (t : PortTable)
    → IsValid t
    → ((allocate t).0 ≡ none)
      ↔ ((p : ℕ) → t.range_start ≤ p → p ≤ t.range_stop → is_taken (t.status p) ≡ true)
allocate-none_iff t v = (all_taken (allocate-Popped t v), λ h. none_left h (allocate t) refl)
  where
    all_taken :
        Popped t (allocate t)
        → (allocate t).0 ≡ none
        → (p : ℕ) → t.range_start ≤ p
        → p ≤ t.range_stop
        → is_taken (t.status p) ≡ true
    all_taken r e p a b =
        let no_entry = pop-none (free t) (sym (ap (λ (o : Option ℕ × List ℕ). o.0) r.queue) ∙ e) in
        not-true _ (rw no_entry at (contains-free t p v a b))

    none_left :
        ((p : ℕ) → t.range_start ≤ p → p ≤ t.range_stop → is_taken (t.status p) ≡ true)
        → (out : Option ℕ × PortTable) → allocate t ≡ out
        → out.0 ≡ none
    none_left h (none, t') e = refl
    none_left h (some p, t') e =
        let k = allocate-Took t p t' e in absurd (cc (k.idle, h p k.above k.below))
