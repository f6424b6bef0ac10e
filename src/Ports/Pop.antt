-- ===== src/Ports/Pop.antt =====
-- turnports_allocate against the queue of the free ports.
use webrtc_caller.Base.{
  ℕ, zero, suc, ◌+◌, ◌-◌, ◌%◌, ◌≤◌, ◌<◌, ◌≡◌, ◌≢◌, inl, inr, refl, ap, ◌∙◌, Option, none, some, ◌∷◌,
  arith, update, u32, eq-cases, lt-cases,
}
use webrtc_caller.Ports.{
  PortTable, ports_size, is_taken, taken_single, empty, skip, take, inspect, next_low,
  allocate_loop, allocate,
}
use webrtc_caller.Ports.Queue.{entries-status, free, pop}
use webrtc_caller.Ports.Valid.{IsValid, is_taken-position}

inspect-skip :
    (t : PortTable)
    → IsValid t
    → t.low < t.high
    → t.status (t.ports (t.low % ports_size)) ≢ t.low
    → inspect t ≡ skip
unfolding inspect
inspect-skip t v lt ne = ground (arith, v.in_range t.low)

inspect-take :
    (t : PortTable)
    → IsValid t
    → t.low < t.high
    → t.status (t.ports (t.low % ports_size)) ≡ t.low
    → inspect t ≡ take (t.ports (t.low % ports_size))
unfolding inspect
inspect-take t v lt e = ground (arith, v.in_range t.low, is_taken-position t.low, v.young)

inspect-empty : (t : PortTable) → t.high ≤ t.low → inspect t ≡ empty
unfolding inspect
inspect-empty t h = ground arith

-- A skipped entry is stale: it is the entry of no port.
skip-IsValid :
    (t : PortTable)
    → IsValid t
    → t.low < t.high
    → t.status (t.ports (t.low % ports_size)) ≢ t.low
    → IsValid (next_low t)
unfolding next_low
skip-IsValid t v lt ne = record {
  range_order = v.range_order;
  range_bound = v.range_bound;
  order = omega (arith, v.young);
  window = omega (arith, v.window, v.young);
  young = v.young;
  in_range = λ k a b. v.in_range k (omega (arith, v.young)) b;
  listed = λ p a b. ground (arith, v.listed p a b, v.young);
}

free-skip :
    (t : PortTable)
    → IsValid t
    → t.low < t.high
    → t.status (t.ports (t.low % ports_size)) ≢ t.low
    → free (next_low t) ≡ free t
unfolding next_low free
free-skip t v lt ne =
    let e : t.high - t.low ≡ suc (t.high - (t.low + 1)) = omega arith in
    let f : u32 (t.low + 1) ≡ t.low + 1 = omega (arith, v.young) in rw (e, f) (ground arith)

abbrev taken_head : PortTable → PortTable
taken_head t =
    next_low (record t { status = update t.status (t.ports (t.low % ports_size)) taken_single })

take-IsValid :
    (t : PortTable)
    → IsValid t
    → t.low < t.high
    → t.status (t.ports (t.low % ports_size)) ≡ t.low
    → IsValid (taken_head t)
unfolding next_low is_taken
take-IsValid t v lt e = record {
  range_order = v.range_order;
  range_bound = v.range_bound;
  order = omega (arith, v.young);
  window = omega (arith, v.window, v.young);
  young = v.young;
  in_range = λ k a b. v.in_range k (omega (arith, v.young)) b;
  listed = λ p a b. ground (arith, v.listed p a b, v.young);
}

free-take :
    (t : PortTable)
    → IsValid t
    → t.low < t.high
    → t.status (t.ports (t.low % ports_size)) ≡ t.low
    → free t ≡ t.ports (t.low % ports_size) ∷ free (taken_head t)
unfolding next_low free
free-take t v lt e =
    let e' : t.high - t.low ≡ suc (t.high - (t.low + 1)) = omega arith in
    let f : u32 (t.low + 1) ≡ t.low + 1 = omega (arith, v.young) in
    rw (e', f)
      (ground (
        arith,
        v.young,
        entries-status t.status t.ports (t.ports (t.low % ports_size)) taken_single (t.low + 1)
            (t.high - (t.low + 1)),
      ))

-- What a call leaves: a valid table whose queue is the old one less its head, which it returns.
pub record Popped (t : PortTable) (out : Option ℕ × PortTable) : Type 0 where
  pub valid : IsValid out.1
  pub queue : (out.0, free out.1) ≡ pop (free t)
  pub high : out.1.high ≡ t.high
  pub start : out.1.range_start ≡ t.range_start
  pub stop : out.1.range_stop ≡ t.range_stop
  pub low : t.low ≤ out.1.low
  -- the popped position can be written again
  pub room : out.1.high < out.1.low + ports_size

Popped-empty : (t : PortTable) → IsValid t → t.high ≤ t.low → Popped t (none, t)
unfolding free pop
Popped-empty t v le =
    let e : t.high - t.low ≡ 0 = omega arith in
    record {
      valid = v;
      queue = rw e;
      high = refl;
      start = refl;
      stop = refl;
      low = omega arith;
      room = omega arith;
    }

Popped-skip :
    (t : PortTable) (out : Option ℕ × PortTable)
    → IsValid t
    → t.low < t.high
    → t.status (t.ports (t.low % ports_size)) ≢ t.low
    → Popped (next_low t) out
    → Popped t out
unfolding next_low
Popped-skip t out v lt ne p = record {
  valid = p.valid;
  queue = p.queue ∙ ap pop (unfold next_low in free-skip t v lt ne);
  high = p.high;
  start = p.start;
  stop = p.stop;
  low = omega (arith, p.low, v.young);
  room = p.room;
}

Popped-take :
    (t : PortTable)
    → IsValid t
    → t.low < t.high
    → t.status (t.ports (t.low % ports_size)) ≡ t.low
    → Popped t (some (t.ports (t.low % ports_size)), taken_head t)
unfolding pop
Popped-take t v lt e = record {
  valid = take-IsValid t v lt e;
  queue = rw (free-take t v lt e);
  high = unfold next_low in refl;
  start = unfold next_low in refl;
  stop = unfold next_low in refl;
  low = unfold next_low in omega (arith, v.young);
  room = unfold next_low in omega (arith, v.window, v.young);
}

loop-Popped :
    (n : ℕ) (t : PortTable) → IsValid t → t.high - t.low < n → Popped t (allocate_loop n t)
unfolding allocate_loop
loop-Popped zero t v h = absurd (omega arith)
loop-Popped (suc n) t v h = elim (lt-cases t.low t.high) [
  | inr le ↦ rw (inspect-empty t le, allocate_loop) (Popped-empty t v le)
  | inl lt ↦ elim (eq-cases (t.status (t.ports (t.low % ports_size))) t.low) [
    | inr ne ↦
        rw (inspect-skip t v lt ne, allocate_loop)
          (Popped-skip t _ v lt ne (
            loop-Popped n (next_low t) (skip-IsValid t v lt ne)
              (unfold next_low in omega (arith, v.young))))
    | inl e ↦ rw (inspect-take t v lt e, allocate_loop) (Popped-take t v lt e)
  ]
]

pub allocate-Popped : (t : PortTable) → IsValid t → Popped t (allocate t)
unfolding allocate
allocate-Popped t v = loop-Popped (suc (t.high - t.low)) t v (omega arith)

-- turnports_allocate returns the oldest free port of a valid table and leaves the others in order.
-- It returns -1 where none is free.
pub allocate_refines :
    (t : PortTable) → IsValid t → ((allocate t).0, free (allocate t).1) ≡ pop (free t)
allocate_refines t v = (allocate-Popped t v).queue
