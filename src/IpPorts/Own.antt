-- ===== src/IpPorts/Own.antt =====
-- The IP-mapped operations on the table of the address itself.
use webrtc_caller.Base.{ℕ, ◌≡◌, refl, inl, inr, Bool, false, ◌&&◌, none, some, arith, Option-cases}
use webrtc_caller.Ports.{PortTable}
use webrtc_caller.Ports
use webrtc_caller.Addr.{IoaAddr, addr_eq, addr_set_port, addr_get_port}
use webrtc_caller.Addr.Equal.{IsInet, addr_eq_refl}
use webrtc_caller.IpPorts.{IpPorts, transport_udp, set_table, add, allocate, release, allocate_even}
use webrtc_caller.IpPorts.Separate.{
  shared, IsSeparate, pointer_of, table_of, Placed, add-found, add-new, add-Placed, Placed-owner,
  Placed-IsSeparate,
}

-- The table of the address, and the one that is made where it has none.
abbrev pub own_table : (ℕ → ℕ) → IpPorts → ℕ → IoaAddr → PortTable
own_table random tp proto a = elim (table_of tp proto a) [
  | none ↦ Ports.init random tp.start tp.finish
  | some table ↦ table
]

-- Other addresses, and the same one under the other transport.
abbrev pub IsOther : ℕ → IoaAddr → ℕ → IoaAddr → Type 0
IsOther proto a proto' b =
    (shared proto proto' && addr_eq (addr_set_port a 0) (addr_set_port b 0)) ≡ false

pub set_table-IsSeparate :
    (tp : IpPorts) (t : ℕ) (table : PortTable) → IsSeparate tp → IsSeparate (set_table tp t table)
set_table-IsSeparate tp t table s = record {
  range = s.range;
  udp_valid = s.udp_valid;
  tcp_valid = s.tcp_valid;
  first = s.first;
  made = s.made;
  apart = s.apart;
}

set_port-IsInet : (a : IoaAddr) → IsInet a → IsInet (addr_set_port a 0)
unfolding addr_set_port
set_port-IsInet a inet = ground (arith, inet)

module _ (random : ℕ → ℕ) (tp : IpPorts) (proto : ℕ) (a : IoaAddr) (s : IsSeparate tp) where
  abbrev pointer : ℕ
  pointer = (add random tp proto a).0

  abbrev after : IpPorts
  after = (add random tp proto a).1

  placed : Placed tp proto (addr_set_port a 0) pointer after
  placed = add-Placed random tp proto a s

  pub after-IsSeparate : IsSeparate after
  after-IsSeparate = Placed-IsSeparate tp proto (addr_set_port a 0) pointer after s placed

  -- The pointer leads to the address's own table.
  own_content : after.tables pointer ≡ own_table random tp proto a
  own_content = content
    where
      content :
          (add random tp proto a).1.tables (add random tp proto a).0 ≡ own_table random tp proto a
      content = elim (Option-cases (pointer_of tp proto a)) [
        | inl e ↦ ground (arith, add-new random tp proto a s.range e, e)
        | inr (t, e) ↦ ground (arith, add-found random tp proto a t e, e)
      ]

  own_after :
      (table : PortTable) → IsInet a → table_of (set_table after pointer table) proto a ≡ some table
  own_after table inet =
      let same = addr_eq_refl (addr_set_port a 0) (set_port-IsInet a inet) in
      ground (arith, placed.reads proto (addr_set_port a 0), same)

  pub other_after :
      (table : PortTable) (proto' : ℕ) (b : IoaAddr)
      → IsOther proto a proto' b
      → table_of (set_table after pointer table) proto' b ≡ table_of tp proto' b
  other_after table proto' b other =
      let k = addr_set_port b 0 in
      let read = placed.reads proto' k in
      elim (Option-cases (pointer_of tp proto' b)) [
        | inl e ↦ ground (arith, other, read, e)
        | inr (u, e) ↦ ground (
          arith,
          other,
          read,
          e,
          placed.kept u (s.made proto' k u e).1,
          Placed-owner tp proto (addr_set_port a 0) pointer after s placed proto' k,
        )
      ]

  pub allocate_lem : allocate random tp proto a ≡ (
    (Ports.allocate (own_table random tp proto a)).0,
    set_table after pointer (Ports.allocate (own_table random tp proto a)).1,
  )
  unfolding allocate
  allocate_lem = ground (arith, own_content, placed.above)

pub allocate_even_lem :
    (random : ℕ → ℕ) (tp : IpPorts) (a : IoaAddr) (s : IsSeparate tp) (rtcp wants : Bool)
    (token_random : ℕ)
    → let step =
        Ports.allocate_even rtcp wants token_random (own_table random tp transport_udp a) in
      allocate_even random tp a rtcp wants token_random ≡ (
        step.0,
        set_table (after random tp transport_udp a s) (pointer random tp transport_udp a s) step.1,
      )
unfolding allocate_even
allocate_even_lem random tp a s rtcp wants token_random =
    ground
      (arith, own_content random tp transport_udp a s, (placed random tp transport_udp a s).above)

-- For an address of the two families turnipports_allocate gives what turnports_allocate gives on the
-- table of the address, and that table is then what turnports_allocate made of it. A table that the
-- address has not yet is the one that turnports_create makes for the range.
pub allocate_own :
    (random : ℕ → ℕ) (tp : IpPorts) (proto : ℕ) (a : IoaAddr)
    → IsSeparate tp
    → IsInet a
    → let step = Ports.allocate (own_table random tp proto a) in
      ((allocate random tp proto a).0 ≡ step.0)
      × (table_of (allocate random tp proto a).1 proto a ≡ some step.1)
allocate_own random tp proto a s inet =
    rw (allocate_lem random tp proto a s)
      (refl, own_after random tp proto a s (Ports.allocate (own_table random tp proto a)).1 inet)

-- The same of turnipports_allocate_even, for the transport UDP.
pub allocate_even_own :
    (random : ℕ → ℕ) (tp : IpPorts) (a : IoaAddr) (rtcp wants : Bool) (token_random : ℕ)
    → IsSeparate tp
    → IsInet a
    → let step =
        Ports.allocate_even rtcp wants token_random (own_table random tp transport_udp a) in
      ((allocate_even random tp a rtcp wants token_random).0 ≡ step.0)
      × (table_of (allocate_even random tp a rtcp wants token_random).1 transport_udp a
          ≡ some step.1)
allocate_even_own random tp a rtcp wants token_random s inet =
    rw (allocate_even_lem random tp a s rtcp wants token_random) (
      refl,
      own_after random tp transport_udp a s
          (Ports.allocate_even rtcp wants token_random (own_table random tp transport_udp a)).1
          inet,
    )

pub release-some :
    (tp : IpPorts) (proto : ℕ) (a : IoaAddr) (t : ℕ)
    → pointer_of tp proto a ≡ some t
    → release tp proto a ≡ set_table tp t (Ports.release (tp.tables t) (addr_get_port a))
unfolding release
release-some tp proto a t e = ground (arith, e)

pub release-none :
    (tp : IpPorts) (proto : ℕ) (a : IoaAddr)
    → pointer_of tp proto a ≡ none
    → release tp proto a ≡ tp
unfolding release
release-none tp proto a e = ground (arith, e)

-- turnipports_release frees the port of the address in the table of the address, if it has one.
pub release_own :
    (tp : IpPorts) (proto : ℕ) (a : IoaAddr)
    → table_of (release tp proto a) proto a ≡ (elim (table_of tp proto a) [
      | none ↦ none
      | some table ↦ some (Ports.release table (addr_get_port a))
    ])
release_own tp proto a = elim (Option-cases (pointer_of tp proto a)) [
  | inl e ↦ ground (arith, release-none tp proto a e, e)
  | inr (t, e) ↦ ground (arith, release-some tp proto a t e, e)
]
