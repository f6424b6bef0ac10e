-- ===== src/Ports/Init.antt =====
-- turnports_create: the table that it fills in and shuffles.
use webrtc_caller.Base.{
  ℕ, zero, suc, ◌+◌, ◌-◌, ◌*◌, ◌%◌, ◌≤◌, ◌<◌, ◌≡◌, refl, ◌≢◌, ◌⊎◌, inl, inr, true, false, some,
  arith, ◌==◌, ==_iff, eq-cases, contains, update, u16, u32,
}
use webrtc_caller.Ports.{
  PortTable, ports_size, exchange, exchanges, randomize, filled, init, create,
}
use webrtc_caller.Ports.Valid.{IsValid, is_taken-position}
use webrtc_caller.Ports.Queue.{free}
use webrtc_caller.Ports.Membership.{contains-free}

-- What a shuffle keeps: status and ports are inverse to each other on the range.
record Shuffled (start end : ℕ) (t : PortTable) : Type 0 where
  low_eq : t.low ≡ start
  high_eq : t.high ≡ end + 1
  start_eq : t.range_start ≡ start
  stop_eq : t.range_stop ≡ end
  position : (p : ℕ) → start ≤ p → p ≤ end → (start ≤ t.status p) × (t.status p ≤ end)
  port : (k : ℕ) → start ≤ k → k ≤ end → (start ≤ t.ports k) × (t.ports k ≤ end)
  there : (p : ℕ) → start ≤ p → p ≤ end → t.ports (t.status p) ≡ p
  back : (k : ℕ) → start ≤ k → k ≤ end → t.status (t.ports k) ≡ k

abbrev swapped : PortTable → ℕ → ℕ → PortTable
swapped t x y = record t {
  status = update (update t.status x (t.status y)) y (t.status x);
  ports =
      update (update t.ports (t.status x) (t.ports (t.status y))) (t.status y)
        (t.ports (t.status x));
}

ne→== : (x y : ℕ) → x ≢ y → (x == y) ≡ false
ne→== x y h = ground arith

module _ (start end : ℕ) (order : start ≤ end) (bound : end < ports_size) where
  filled-Shuffled : Shuffled start end (filled start end)
  unfolding filled
  filled-Shuffled = record {
    low_eq = refl;
    high_eq = refl;
    start_eq = refl;
    stop_eq = refl;
    position = λ p a b. ground arith;
    port = λ k a b. ground arith;
    there = λ p a b. ground arith;
    back = λ k a b. ground arith;
  }

  swapped-Shuffled :
      (t : PortTable) (x y : ℕ)
      → start ≤ x
      → x ≤ end
      → start ≤ y
      → y ≤ end
      → x ≢ y
      → Shuffled start end t
      → Shuffled start end (swapped t x y)
  swapped-Shuffled t x y ax bx ay by ne s = record {
    low_eq = s.low_eq;
    high_eq = s.high_eq;
    start_eq = s.start_eq;
    stop_eq = s.stop_eq;
    position = λ p a b. ground (arith, s.position p a b, s.position x ax bx, s.position y ay by);
    port = λ k a b. ground (arith, s.port k a b, s.there x ax bx, s.there y ay by);
    there = λ p a b. ground (arith, s.there p a b, s.there x ax bx, s.there y ay by);
    back = λ k a b. ground (arith, s.back k a b, s.there x ax bx, s.there y ay by);
  }

  -- The index that a random number picks lies in the range.
  pick_in_range :
      (t : PortTable) (r : ℕ)
      → Shuffled start end t
      → let x = u16 (t.low + u16 (r % u32 (t.high + 0x1_0000_0000 - t.low))) in
        (start ≤ x) × (x ≤ end)
  pick_in_range t r s =
      let size : u32 (t.high + 0x1_0000_0000 - t.low) ≡ end + 1 - start =
        omega (arith, s.low_eq, s.high_eq) in
      let small : r % (end + 1 - start) < end + 1 - start = omega arith in
      rw (size, s.low_eq) (omega (arith, small))

  exchange-Shuffled :
      (t : PortTable) (r1 r2 : ℕ) → Shuffled start end t → Shuffled start end (exchange t r1 r2)
  unfolding exchange
  exchange-Shuffled t r1 r2 s = go (eq-cases x y)
    where
      x : ℕ
      x = u16 (t.low + u16 (r1 % u32 (t.high + 0x1_0000_0000 - t.low)))

      y : ℕ
      y = u16 (t.low + u16 (r2 % u32 (t.high + 0x1_0000_0000 - t.low)))

      go : (x ≡ y) ⊎ (x ≢ y) → Shuffled start end (exchange t r1 r2)
      go (inl e) = rw ((==_iff x y).1 e) s
      go (inr ne) =
          let (ax, bx) = pick_in_range t r1 s in
          let (ay, by) = pick_in_range t r2 s in
          rw (ne→== x y ne) (swapped-Shuffled t x y ax bx ay by ne s)

  exchanges-Shuffled :
      (n : ℕ) (random : ℕ → ℕ) (t : PortTable)
      → Shuffled start end t
      → Shuffled start end (exchanges n random t)
  unfolding exchanges
  exchanges-Shuffled zero random t s = s
  exchanges-Shuffled (suc n) random t s =
      exchange-Shuffled _ (random (2 * n)) (random (2 * n + 1)) (exchanges-Shuffled n random t s)

  Shuffled-IsValid : (t : PortTable) → Shuffled start end t → IsValid t
  Shuffled-IsValid t s = record {
    range_order = omega (arith, s.start_eq, s.stop_eq);
    range_bound = omega (arith, s.stop_eq);
    order = omega (arith, s.low_eq, s.high_eq);
    window = omega (arith, s.low_eq, s.high_eq);
    young = omega (arith, s.high_eq);
    in_range = λ k a b.
        let e : k % ports_size ≡ k = omega (arith, s.high_eq) in
        rw (e, s.start_eq, s.stop_eq)
          (s.port k (omega (arith, s.low_eq)) (omega (arith, s.high_eq)));
    listed = λ p a b.
        let a' : start ≤ p = omega (arith, s.start_eq) in
        let b' : p ≤ end = omega (arith, s.stop_eq) in
        let (c, d) = s.position p a' b' in
        let e : t.status p % ports_size ≡ t.status p = omega arith in
        inr (omega (arith, s.low_eq), omega (arith, s.high_eq), rw e (s.there p a' b'));
  }

-- Whatever the random numbers are, turnports_create makes a valid table for a range that is not
-- empty, and each port of the range is in its queue.
pub create-IsValid :
    (random : ℕ → ℕ) (start end p : ℕ)
    → end < ports_size
    → start ≤ p
    → p ≤ end
    → (create random start end ≡ some (init random start end))
      × IsValid (init random start end)
      × (contains (free (init random start end)) p ≡ true)
unfolding create init randomize
create-IsValid random start end p bound a b =
    let order : start ≤ end = omega arith in
    let s =
      exchanges-Shuffled start end order bound
        (u32 (u32 ((filled start end).high + 0x1_0000_0000 - (filled start end).low) * 10)) random
        (filled start end) (filled-Shuffled start end order bound) in
    let v = Shuffled-IsValid start end order bound _ s in
    let (c, d) = s.position p a b in
    let free_status = is_taken-position ((init random start end).status p) (omega (arith, d)) in
    (
      ground arith,
      v,
      rw (contains-free _ p v (omega (arith, s.start_eq)) (omega (arith, s.stop_eq)), free_status),
    )
