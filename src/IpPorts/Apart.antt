-- ===== src/IpPorts/Apart.antt =====
-- The IP-mapped operations and the tables of other addresses.
use webrtc_caller.Base.{ℕ, ◌≤◌, ◌≡◌, refl, ap, ◌∙◌, inl, inr, Bool, some, arith, Option-cases}
use webrtc_caller.Ports.{PortTable}
use webrtc_caller.Ports
use webrtc_caller.Addr.{IoaAddr, addr_set_port, addr_get_port}
use webrtc_caller.Maps.AddrMap.{get}
use webrtc_caller.Maps.AddrMap.Laws.{get-init, init_valid}
use webrtc_caller.IpPorts.{
  IpPorts, transport_udp, get_map, turnipports_create, add, allocate, release, allocate_even,
}
use webrtc_caller.IpPorts.Separate.{IsSeparate, pointer_of, table_of}
use webrtc_caller.IpPorts.Own.{
  own_table, IsOther, set_table-IsSeparate, after-IsSeparate, other_after, allocate_lem,
  allocate_even_lem, release-some, release-none,
}

pub created :
    (tables : ℕ → PortTable) (start finish : ℕ)
    → start ≤ finish
    → IsSeparate (turnipports_create tables start finish)
unfolding turnipports_create
created tables start finish h = record {
  range = h;
  udp_valid = init_valid;
  tcp_valid = init_valid;
  first = omega arith;
  made = λ proto k v e. absurd (empty_map proto k v e);
  apart = λ proto proto' k k' v e e'. absurd (empty_map proto k v e);
}
  where
    empty_map :
        (proto : ℕ) (k : IoaAddr) (v : ℕ)
        → get (get_map (turnipports_create tables start finish) proto) k ≡ some v
        → ⊥
    empty_map proto k v e = ground (arith, e, get-init k)

release_other :
    (tp : IpPorts) (proto proto' : ℕ) (a b : IoaAddr)
    → IsSeparate tp
    → IsOther proto a proto' b
    → table_of (release tp proto a) proto' b ≡ table_of tp proto' b
release_other tp proto proto' a b s other = elim (Option-cases (pointer_of tp proto a)) [
  | inl e ↦ rw (release-none tp proto a e) refl
  | inr (t, e) ↦ elim (Option-cases (pointer_of tp proto' b)) [
    | inl e' ↦ ground (arith, release-some tp proto a t e, e')
    | inr (u, e') ↦ ground (
      arith,
      release-some tp proto a t e,
      e',
      other,
      λ (q : u ≡ t).
          s.apart proto proto' (addr_set_port a 0) (addr_set_port b 0) t e (e' ∙ ap some q),
    )
  ]
]

release-IsSeparate :
    (tp : IpPorts) (proto : ℕ) (a : IoaAddr) → IsSeparate tp → IsSeparate (release tp proto a)
release-IsSeparate tp proto a s = elim (Option-cases (pointer_of tp proto a)) [
  | inl e ↦ rw (release-none tp proto a e) s
  | inr (t, e) ↦
      rw (release-some tp proto a t e)
        (set_table-IsSeparate tp t (Ports.release (tp.tables t) (addr_get_port a)) s)
]

-- The operations on the ports of an address; allocate_even is for UDP only.
pub data Operation : Type 0 where
  allocating releasing : ℕ → Operation
  allocating_even : Bool → Bool → ℕ → Operation

abbrev pub transport_of : Operation → ℕ
transport_of (allocating transport) = transport
transport_of (releasing transport) = transport
transport_of (allocating_even rtcp wants token_random) = transport_udp

abbrev pub after_operation : (ℕ → ℕ) → Operation → IoaAddr → IpPorts → IpPorts
after_operation random (allocating transport) a tp = (allocate random tp transport a).1
after_operation random (releasing transport) a tp = release tp transport a
after_operation random (allocating_even rtcp wants token_random) a tp =
    (allocate_even random tp a rtcp wants token_random).1

-- Neither turnipports_allocate, turnipports_release nor turnipports_allocate_even, which is for UDP,
-- changes the table of another address, or of the same address under the other transport, where the
-- maps are separate.
pub operations_other :
    (random : ℕ → ℕ) (tp : IpPorts) (o : Operation) (proto' : ℕ) (a b : IoaAddr)
    → IsSeparate tp
    → IsOther (transport_of o) a proto' b
    → table_of (after_operation random o a tp) proto' b ≡ table_of tp proto' b
operations_other random tp (allocating proto) proto' a b s other =
    rw (after_operation, allocate_lem random tp proto a s)
      (other_after random tp proto a s (Ports.allocate (own_table random tp proto a)).1 proto' b
        other)
operations_other random tp (releasing proto) proto' a b s other =
    release_other tp proto proto' a b s other
operations_other random tp (allocating_even rtcp wants token_random) proto' a b s other =
    rw (after_operation, allocate_even_lem random tp a s rtcp wants token_random)
      (other_after random tp transport_udp a s
        (Ports.allocate_even rtcp wants token_random (own_table random tp transport_udp a)).1 proto'
        b other)

-- The maps of a new structure are separate where the range is not empty, and each operation keeps
-- them so.
pub operations-IsSeparate :
    (random : ℕ → ℕ) (tp : IpPorts) (proto : ℕ) (a : IoaAddr) (rtcp wants : Bool) (token_random : ℕ)
    → IsSeparate tp
    → IsSeparate (turnipports_create tp.tables tp.start tp.finish)
      × IsSeparate (allocate random tp proto a).1
      × IsSeparate (release tp proto a)
      × IsSeparate (allocate_even random tp a rtcp wants token_random).1
operations-IsSeparate random tp proto a rtcp wants token_random s = (
  created tp.tables tp.start tp.finish s.range,
  rw (allocate_lem random tp proto a s) (
      set_table-IsSeparate (add random tp proto a).1 (add random tp proto a).0
        (Ports.allocate (own_table random tp proto a)).1 (after-IsSeparate random tp proto a s)),
  release-IsSeparate tp proto a s,
  rw (allocate_even_lem random tp a s rtcp wants token_random) (
      set_table-IsSeparate (add random tp transport_udp a).1 (add random tp transport_udp a).0
        (Ports.allocate_even rtcp wants token_random (own_table random tp transport_udp a)).1
        (after-IsSeparate random tp transport_udp a s)),
)
