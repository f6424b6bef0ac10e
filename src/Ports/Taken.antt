-- ===== src/Ports/Taken.antt =====
-- What turnports_allocate changes in a table, valid or not.
use webrtc_caller.Base.{ℕ, zero, suc, ◌-◌, ◌≤◌, ◌≡◌, refl, false, Option, none, some, arith, update}
use mathlib.Core.Path.{subst, subst₂}
use webrtc_caller.Ports.{
  PortTable, is_taken, taken_single, Round, empty, skip, take, inspect, next_low, allocate_loop,
  allocate,
}

-- What a call that returns `p` has done, on any table: `p` was not taken, and only its status is new.
pub record Took (t : PortTable) (p : ℕ) (t' : PortTable) : Type 0 where
  pub above : t.range_start ≤ p
  pub below : p ≤ t.range_stop
  pub idle : is_taken (t.status p) ≡ false
  pub status : t'.status ≡ update t.status p taken_single
  pub ports : t'.ports ≡ t.ports
  pub high : t'.high ≡ t.high
  pub start : t'.range_start ≡ t.range_start
  pub stop : t'.range_stop ≡ t.range_stop

inspect-eq-take :
    (t : PortTable) (p : ℕ)
    → inspect t ≡ take p
    → (t.range_start ≤ p) × (p ≤ t.range_stop) × (is_taken (t.status p) ≡ false)
unfolding inspect
inspect-eq-take t p e = ground arith

Took-skip : (t : PortTable) (p : ℕ) (t' : PortTable) → Took (next_low t) p t' → Took t p t'
unfolding next_low
Took-skip t p t' k = record {
  above = k.above;
  below = k.below;
  idle = k.idle;
  status = k.status;
  ports = k.ports;
  high = k.high;
  start = k.start;
  stop = k.stop;
}

Took-take :
    (t : PortTable) (p : ℕ)
    → inspect t ≡ take p
    → Took t p (next_low (record t { status = update t.status p taken_single }))
unfolding next_low
Took-take t p i =
    let (a, b, idle) = inspect-eq-take t p i in
    record {
      above = a;
      below = b;
      idle = idle;
      status = refl;
      ports = refl;
      high = refl;
      start = refl;
      stop = refl;
    }

Took-eq :
    (t : PortTable) (q : ℕ) (u : PortTable) (p : ℕ) (t' : PortTable)
    → ◌≡◌ {A = Option ℕ × PortTable} (some q, u) (some p, t')
    → Took t q u
    → Took t p t'
Took-eq t q u p t' e k =
    let same_port : q ≡ p = cc in
    let same_table : u ≡ t' = cc in subst₂ (Took t) same_port same_table k

loop-Took :
    (n : ℕ) (t : PortTable) (p : ℕ) (t' : PortTable)
    → allocate_loop n t ≡ (some p, t')
    → Took t p t'
unfolding allocate_loop
loop-Took zero t p t' e = cc
loop-Took (suc n) t p t' e = go (inspect t) refl (loop-Took n (next_low t) p t')
  where
    next : ℕ → PortTable
    next q = next_low (record t { status = update t.status q taken_single })

    go :
        (r : Round)
        → inspect t ≡ r
        → (allocate_loop n (next_low t) ≡ (some p, t') → Took (next_low t) p t')
        → Took t p t'
    go empty i ih = cc (rw (i, allocate_loop) at e)
    go skip i ih = Took-skip t p t' (ih (rw (i, allocate_loop) at e))
    go (take q) i ih = Took-eq t q (next q) p t' (rw (i, allocate_loop) at e) (Took-take t q i)

-- A port that turnports_allocate returns was free, and is the only one whose status has changed.
pub allocate-Took :
    (t : PortTable) (p : ℕ) (t' : PortTable) → allocate t ≡ (some p, t') → Took t p t'
unfolding allocate
allocate-Took t p t' e = loop-Took (suc (t.high - t.low)) t p t' e

-- What a call that returns -1 has done, on any table: nothing but moving `low`.
pub record Missed (t t' : PortTable) : Type 0 where
  pub status : t'.status ≡ t.status
  pub ports : t'.ports ≡ t.ports
  pub high : t'.high ≡ t.high
  pub start : t'.range_start ≡ t.range_start
  pub stop : t'.range_stop ≡ t.range_stop

Missed-skip : (t t' : PortTable) → Missed (next_low t) t' → Missed t t'
unfolding next_low
Missed-skip t t' k = record {
  status = k.status;
  ports = k.ports;
  high = k.high;
  start = k.start;
  stop = k.stop;
}

Missed-refl : (t : PortTable) → Missed t t
Missed-refl t = record { status = refl; ports = refl; high = refl; start = refl; stop = refl }

Missed-eq :
    (t u t' : PortTable)
    → ◌≡◌ {A = Option ℕ × PortTable} (none, u) (none, t')
    → Missed t u
    → Missed t t'
Missed-eq t u t' e k = let same : u ≡ t' = cc in subst (Missed t) same k

loop-Missed : (n : ℕ) (t t' : PortTable) → allocate_loop n t ≡ (none, t') → Missed t t'
unfolding allocate_loop
loop-Missed zero t t' e = Missed-eq t t t' e (Missed-refl t)
loop-Missed (suc n) t t' e = go (inspect t) refl (loop-Missed n (next_low t) t')
  where
    go :
        (r : Round)
        → inspect t ≡ r
        → (allocate_loop n (next_low t) ≡ (none, t') → Missed (next_low t) t')
        → Missed t t'
    go empty i ih = Missed-eq t t t' (rw (i, allocate_loop) at e) (Missed-refl t)
    go skip i ih = Missed-skip t t' (ih (rw (i, allocate_loop) at e))
    go (take q) i ih = cc (rw (i, allocate_loop) at e)

pub allocate-Missed : (t t' : PortTable) → allocate t ≡ (none, t') → Missed t t'
unfolding allocate
allocate-Missed t t' e = loop-Missed (suc (t.high - t.low)) t t' e
