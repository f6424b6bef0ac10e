-- ===== src/Addr/Host.antt =====
-- addr_eq_no_port and addr_hash_no_port: addresses without their ports.
use webrtc_caller.Base.{◌≡◌, ◌≢◌, ◌⊎◌, inl, inr, true, arith}
use webrtc_caller.Addr.{
  IoaAddr, af_inet, af_inet6, same_bytes, addr_eq, addr_eq_no_port, addr_hash_no_port,
  addr_get_port,
}
use webrtc_caller.Addr.Equal.{
  IsInet, same_bytes_refl, same_bytes-sym, same_bytes_trans, load_host-same,
}

pub addr_eq_no_port_refl : (a : IoaAddr) → IsInet a → addr_eq_no_port a a ≡ true
unfolding addr_eq_no_port
addr_eq_no_port_refl a h =
    ground (arith, h, same_bytes_refl a.sin_addr 4, same_bytes_refl a.sin6_addr 16)

pub addr_eq_no_port-sym : (a b : IoaAddr) → addr_eq_no_port a b ≡ addr_eq_no_port b a
unfolding addr_eq_no_port
addr_eq_no_port-sym a b =
    ground
      (arith, same_bytes-sym a.sin_addr b.sin_addr 4, same_bytes-sym a.sin6_addr b.sin6_addr 16)

pub addr_eq_no_port_trans :
    (a b c : IoaAddr) → addr_eq_no_port a b ≡ true → addr_eq_no_port a c ≡ addr_eq_no_port b c
unfolding addr_eq_no_port
addr_eq_no_port_trans a b c h = ground (
  arith,
  same_bytes_trans a.sin_addr b.sin_addr c.sin_addr 4,
  same_bytes_trans a.sin6_addr b.sin6_addr c.sin6_addr 16,
)

host_parts :
    (a b : IoaAddr)
    → addr_eq_no_port a b ≡ true
    → (a.family ≡ b.family)
      × ((a.family ≡ af_inet) × (same_bytes a.sin_addr b.sin_addr 4 ≡ true)
          ⊎ (a.family ≡ af_inet6) × (same_bytes a.sin6_addr b.sin6_addr 16 ≡ true))
unfolding addr_eq_no_port
host_parts a b h = ground arith

pub addr_hash_no_port-addr_eq_no_port :
    (a b : IoaAddr) → addr_eq_no_port a b ≡ true → addr_hash_no_port a ≡ addr_hash_no_port b
unfolding addr_hash_no_port
addr_hash_no_port-addr_eq_no_port a b h = go (host_parts a b h)
  where
    go :
        (a.family ≡ b.family)
          × ((a.family ≡ af_inet) × (same_bytes a.sin_addr b.sin_addr 4 ≡ true)
              ⊎ (a.family ≡ af_inet6) × (same_bytes a.sin6_addr b.sin6_addr 16 ≡ true))
        → addr_hash_no_port a ≡ addr_hash_no_port b
    go (f, inl (v4, s)) = rw (← f, v4, load_host-same a.sin_addr b.sin_addr 4 0 4 s (omega arith))
    go (f, inr (v6, s)) = rw (
      ← f,
      v6,
      load_host-same a.sin6_addr b.sin6_addr 16 0 8 s (omega arith),
      load_host-same a.sin6_addr b.sin6_addr 16 8 8 s (omega arith),
    )

-- Equal addresses are equal without their ports, and have the same port.
pub addr_eq_no_port-addr_eq :
    (a b : IoaAddr)
    → addr_eq a b ≡ true
    → (addr_eq_no_port a b ≡ true) × (addr_get_port a ≡ addr_get_port b)
unfolding addr_eq addr_eq_no_port addr_get_port same_bytes
addr_eq_no_port-addr_eq a b h = ground arith

-- An address with a port is of one of the two families.
pub addr_get_port-IsInet : (a : IoaAddr) → addr_get_port a ≢ 0 → IsInet a
unfolding addr_get_port
addr_get_port-IsInet a h = ground (arith, h)
