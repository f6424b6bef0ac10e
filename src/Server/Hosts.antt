-- ===== src/Server/Hosts.antt =====
-- good_peer_addr on two addresses of one host, which differ in their ports at most.
use webrtc_caller.Base.{
  ℕ, zero, suc, ◌+◌, ◌<◌, ◌≡◌, refl, sym, ◌∙◌, true, List, [], ◌∷◌, arith, Memory, load32,
}
use webrtc_caller.Addr.{
  IoaAddr, IoaAddrRange, af_inet, af_inet6, all_zero, addr_eq_no_port, addr_set_port, bytes_less_eq,
  addr_less_eq, ioa_addr_in_range, ioa_addr_is_multicast, ioa_addr_is_loopback, ioa_addr_is_zero,
}
use webrtc_caller.Addr.Equal.{same_bytes-at}
use webrtc_caller.Server.{IpRange, TurnServer, in_ranges, good_peer_addr}

-- Two addresses of one host: the same family and the same bytes.
pub record SameHost (a b : IoaAddr) : Type 0 where
  pub family : a.family ≡ b.family
  pub v4 : a.family ≡ af_inet → (i : ℕ) → i < 4 → a.sin_addr i ≡ b.sin_addr i
  pub v6 : a.family ≡ af_inet6 → (i : ℕ) → i < 16 → a.sin6_addr i ≡ b.sin6_addr i

pub SameHost-sym : (a b : IoaAddr) → SameHost a b → SameHost b a
SameHost-sym a b h = record {
  family = sym h.family;
  v4 = λ e i l. sym (h.v4 (h.family ∙ e) i l);
  v6 = λ e i l. sym (h.v6 (h.family ∙ e) i l);
}

pub SameHost-eq_no_port : (a b : IoaAddr) → addr_eq_no_port a b ≡ true → SameHost a b
unfolding addr_eq_no_port
SameHost-eq_no_port a b e = record {
  family = ground (arith, e);
  v4 = λ f i l. same_bytes-at a.sin_addr b.sin_addr 4 i (ground (arith, e, f)) l;
  v6 = λ f i l. same_bytes-at a.sin6_addr b.sin6_addr 16 i (ground (arith, e, f)) l;
}

pub SameHost-set_port : (a : IoaAddr) (port : ℕ) → SameHost a (addr_set_port a port)
unfolding addr_set_port
SameHost-set_port a port = record {
  family = ground arith;
  v4 = λ f i l. ground (arith, f);
  v6 = λ f i l. ground (arith, f);
}

all_zero-agree :
    (x y : Memory) (n : ℕ) → ((i : ℕ) → i < n → x i ≡ y i) → all_zero x n ≡ all_zero y n
unfolding all_zero
all_zero-agree x y zero h = refl
all_zero-agree x y (suc n) h =
    ground (arith, h n (omega arith), all_zero-agree x y n (λ i l. h i (omega (arith, l))))

-- Both sides of the comparison of IPv6 addresses.
bytes_less_eq-agree :
    (x y z : Memory) (i n : ℕ)
    → ((j : ℕ) → j < i + n → x j ≡ y j)
    → (bytes_less_eq z x i n ≡ bytes_less_eq z y i n)
      × (bytes_less_eq x z i n ≡ bytes_less_eq y z i n)
unfolding bytes_less_eq
bytes_less_eq-agree x y z i zero h = (refl, refl)
bytes_less_eq-agree x y z i (suc n) h =
    let rest = bytes_less_eq-agree x y z (i + 1) n (λ j l. h j (omega (arith, l))) in
    ground (arith, rest, h i (omega arith))

module _ (a b : IoaAddr) (h : SameHost a b) where
  load32-agree : a.family ≡ af_inet → load32 a.sin_addr 0 ≡ load32 b.sin_addr 0
  load32-agree f = ground (
    arith,
    h.v4 f 0 (omega arith),
    h.v4 f 1 (omega arith),
    h.v4 f 2 (omega arith),
    h.v4 f 3 (omega arith),
  )

  less_eq-agree :
      (c : IoaAddr) → (addr_less_eq c a ≡ addr_less_eq c b) × (addr_less_eq a c ≡ addr_less_eq b c)
  unfolding addr_less_eq
  less_eq-agree c =
      let six = λ (f : a.family ≡ af_inet6).
        bytes_less_eq-agree a.sin6_addr b.sin6_addr c.sin6_addr 0 16
          (λ j l. h.v6 f j (omega (arith, l))) in
      ground (arith, h.family, load32-agree, six)

  in_range-agree : (range : IoaAddrRange) → ioa_addr_in_range range a ≡ ioa_addr_in_range range b
  unfolding ioa_addr_in_range
  in_range-agree range =
      rw ((less_eq-agree range.min_addr).0, (less_eq-agree range.max_addr).1) refl

  in_ranges-agree :
      (realm : List ℕ) (rs : List IpRange) → in_ranges realm a rs ≡ in_ranges realm b rs
  unfolding in_ranges
  in_ranges-agree realm [] = refl
  in_ranges-agree realm (r ∷ rs) = rw (in_ranges-agree realm rs, in_range-agree r.enc) refl

  multicast-agree : ioa_addr_is_multicast a ≡ ioa_addr_is_multicast b
  unfolding ioa_addr_is_multicast
  multicast-agree = ground (
    arith,
    h.family,
    λ (f : a.family ≡ af_inet). h.v4 f 0 (omega arith),
    λ (f : a.family ≡ af_inet6). h.v6 f 0 (omega arith),
  )

  loopback-agree : ioa_addr_is_loopback a ≡ ioa_addr_is_loopback b
  unfolding ioa_addr_is_loopback
  loopback-agree = ground (
    arith,
    h.family,
    λ (f : a.family ≡ af_inet). h.v4 f 0 (omega arith),
    λ (f : a.family ≡ af_inet6). h.v6 f 15 (omega arith),
    λ (f : a.family ≡ af_inet6).
        all_zero-agree a.sin6_addr b.sin6_addr 15 (λ i l. h.v6 f i (omega (arith, l))),
  )

  zero-agree : ioa_addr_is_zero a ≡ ioa_addr_is_zero b
  unfolding ioa_addr_is_zero
  zero-agree = ground (
    arith,
    h.family,
    λ (f : a.family ≡ af_inet). h.v4 f 0 (omega arith),
    λ (f : a.family ≡ af_inet6). all_zero-agree a.sin6_addr b.sin6_addr 16 (λ i l. h.v6 f i l),
  )

  pub good_peer_addr-agree :
      (server : TurnServer) (realm : List ℕ)
      → good_peer_addr server realm a ≡ good_peer_addr server realm b
  unfolding good_peer_addr
  good_peer_addr-agree server realm = ground (
    arith,
    multicast-agree,
    loopback-agree,
    zero-agree,
    in_ranges-agree realm server.ip_whitelist,
    in_ranges-agree realm server.engine_whitelist,
    in_ranges-agree realm server.ip_blacklist,
    in_ranges-agree realm server.engine_blacklist,
  )
