-- ===== src/IpPorts/Separate.antt =====
-- The maps of the IP-mapped ports: which pointers they hold, and what turnipports_add leaves in them.
use webrtc_caller.Base.{
  ℕ, ◌+◌, ◌≤◌, ◌<◌, ◌≡◌, refl, sym, ap, ◌∙◌, ◌≢◌, ◌⊎◌, inl, inr, Bool, true, not, ◌&&◌, Option,
  none, some, arith, ◌==◌, if◌then◌else◌, Option-cases, eq-cases,
}
use webrtc_caller.Ports.{PortTable, create}
use webrtc_caller.Ports
use webrtc_caller.Addr.{IoaAddr, addr_eq, addr_set_port}
use webrtc_caller.Addr.Equal.{addr_eq_trans}
use webrtc_caller.Maps.AddrMap.{AddrMap, put, get}
use webrtc_caller.Maps.AddrMap.Laws.{get-put, get-addr_eq}
use webrtc_caller.IpPorts.{IpPorts, transport_tcp, get_map, set_map, set_table, new_table, add}

-- Two transports share their map.
abbrev pub shared : ℕ → ℕ → Bool
shared proto proto' =
    if proto == transport_tcp then proto' == transport_tcp else not (proto' == transport_tcp)

pub record IsSeparate (tp : IpPorts) : Type 0 where
  pub range : tp.start ≤ tp.finish
  pub udp_valid : tp.udp.valid ≡ true
  pub tcp_valid : tp.tcp.valid ≡ true
  pub first : 0 < tp.next
  -- a pointer in a map is one of a table that was made
  pub made :
      (proto : ℕ) (k : IoaAddr) (v : ℕ)
      → get (get_map tp proto) k ≡ some v
      → (0 < v) × (v < tp.next)
  -- and it stands there for one address
  pub apart :
      (proto proto' : ℕ) (k k' : IoaAddr) (v : ℕ)
      → get (get_map tp proto) k ≡ some v
      → get (get_map tp proto') k' ≡ some v
      → (shared proto proto' ≡ true) × (addr_eq k k' ≡ true)

-- The table of an address.
abbrev pub pointer_of : IpPorts → ℕ → IoaAddr → Option ℕ
pointer_of tp proto a = get (get_map tp proto) (addr_set_port a 0)

abbrev pub deref : (ℕ → PortTable) → Option ℕ → Option PortTable
deref tables none = none
deref tables (some t) = some (tables t)

abbrev pub table_of : IpPorts → ℕ → IoaAddr → Option PortTable
table_of tp proto a = deref tp.tables (pointer_of tp proto a)

get_map_valid : (tp : IpPorts) (proto : ℕ) → IsSeparate tp → (get_map tp proto).valid ≡ true
get_map_valid tp proto s = ground (arith, s.udp_valid, s.tcp_valid)

-- What turnipports_add leaves: the pointer `t`, which the address and its equals now read.
pub record Placed (tp : IpPorts) (proto : ℕ) (ba : IoaAddr) (t : ℕ) (tp' : IpPorts) : Type 0 where
  pub range : tp'.start ≤ tp'.finish
  pub udp_valid : tp'.udp.valid ≡ true
  pub tcp_valid : tp'.tcp.valid ≡ true
  pub above : 0 < t
  pub below : t < tp'.next
  pub grows : tp.next ≤ tp'.next
  pub reads :
      (proto' : ℕ) (k : IoaAddr)
      → get (get_map tp' proto') k
        ≡ (if shared proto proto' && addr_eq ba k then some t else get (get_map tp proto') k)
  -- the pointer is new, or the key had it
  pub origin : (t ≡ tp.next) ⊎ (get (get_map tp proto) ba ≡ some t)
  pub kept : (u : ℕ) → u < tp.next → tp'.tables u ≡ tp.tables u

abbrev made_new : (ℕ → ℕ) → IpPorts → IpPorts
made_new random tp = record (set_table tp tp.next (Ports.init random tp.start tp.finish)) {
  next = tp.next + 1;
}

new_table_lem :
    (random : ℕ → ℕ) (tp : IpPorts)
    → tp.start ≤ tp.finish
    → new_table random tp ≡ (tp.next, made_new random tp)
unfolding new_table create
new_table_lem random tp h = ground arith

pub add-found :
    (random : ℕ → ℕ) (tp : IpPorts) (proto : ℕ) (a : IoaAddr) (t : ℕ)
    → pointer_of tp proto a ≡ some t
    → add random tp proto a ≡ (t, tp)
unfolding add
add-found random tp proto a t e = ground (arith, e)

pub add-new :
    (random : ℕ → ℕ) (tp : IpPorts) (proto : ℕ) (a : IoaAddr)
    → tp.start ≤ tp.finish
    → pointer_of tp proto a ≡ none
    → add random tp proto a ≡ (
      tp.next,
      set_map (made_new random tp) proto (put (get_map tp proto) (addr_set_port a 0) tp.next).0,
    )
unfolding add
add-new random tp proto a h e = ground (arith, e, new_table_lem random tp h)

get_map-set_map :
    (tp : IpPorts) (proto proto' : ℕ) (m : AddrMap)
    → get_map (set_map tp proto m) proto' ≡ (if shared proto proto' then m else get_map tp proto')
get_map-set_map tp proto proto' m = ground arith

shared-get_map :
    (tp : IpPorts) (proto proto' : ℕ)
    → shared proto proto' ≡ true
    → get_map tp proto ≡ get_map tp proto'
shared-get_map tp proto proto' h = ground arith

Placed-found :
    (tp : IpPorts) (proto : ℕ) (ba : IoaAddr) (t : ℕ)
    → IsSeparate tp
    → get (get_map tp proto) ba ≡ some t
    → Placed tp proto ba t tp
Placed-found tp proto ba t s e = record {
  range = s.range;
  udp_valid = s.udp_valid;
  tcp_valid = s.tcp_valid;
  above = (s.made proto ba t e).0;
  below = (s.made proto ba t e).1;
  grows = omega arith;
  reads = λ proto' k.
      ground (arith, shared-get_map tp proto proto', get-addr_eq (get_map tp proto) ba k, e);
  origin = inr e;
  kept = λ u h. refl;
}

Placed-new :
    (random : ℕ → ℕ) (tp : IpPorts) (proto : ℕ) (ba : IoaAddr)
    → IsSeparate tp
    → Placed tp proto ba tp.next
        (set_map (made_new random tp) proto (put (get_map tp proto) ba tp.next).0)
unfolding put
Placed-new random tp proto ba s = record {
  range = ground (arith, s.range);
  udp_valid = ground (arith, s.udp_valid, s.tcp_valid);
  tcp_valid = ground (arith, s.udp_valid, s.tcp_valid);
  above = s.first;
  below = ground arith;
  grows = ground arith;
  reads = λ proto' k.
      let after =
        (get-put (get_map tp proto) ba k tp.next (get_map_valid tp proto s)
          (λ z. omega (arith, s.first, z))).1 in
      ground (
        arith,
        get_map-set_map (made_new random tp) proto proto' (put (get_map tp proto) ba tp.next).0,
        shared-get_map tp proto proto',
        after,
      );
  origin = inl refl;
  kept = λ u h. ground (arith, h);
}

pub add-Placed :
    (random : ℕ → ℕ) (tp : IpPorts) (proto : ℕ) (a : IoaAddr)
    → IsSeparate tp
    → Placed tp proto (addr_set_port a 0) (add random tp proto a).0 (add random tp proto a).1
add-Placed random tp proto a s = elim (Option-cases (pointer_of tp proto a)) [
  | inl e ↦
      rw (add-new random tp proto a s.range e) (Placed-new random tp proto (addr_set_port a 0) s)
  | inr (t, e) ↦
      rw (add-found random tp proto a t e) (Placed-found tp proto (addr_set_port a 0) t s e)
]

module _ (tp : IpPorts) (proto : ℕ) (ba : IoaAddr) (t : ℕ) (tp' : IpPorts) (s : IsSeparate tp)
    (placed : Placed tp proto ba t tp') where
  -- Whoever reads the pointer is the address that asked for it.
  pub Placed-owner :
      (p : ℕ) (k : IoaAddr)
      → get (get_map tp' p) k ≡ some t
      → (shared proto p ≡ true) × (addr_eq ba k ≡ true)
  Placed-owner p k e =
      ground (arith, e, placed.reads p k, placed.origin, s.made p k t, s.apart proto p ba k t)

  Placed-else :
      (p : ℕ) (k : IoaAddr) (v : ℕ)
      → get (get_map tp' p) k ≡ some v
      → v ≢ t
      → get (get_map tp p) k ≡ some v
  Placed-else p k v e n = ground (arith, e, placed.reads p k, λ (z : t ≡ v). n (sym z))

  made_after :
      (p : ℕ) (k : IoaAddr) (v : ℕ) → get (get_map tp' p) k ≡ some v → (0 < v) × (v < tp'.next)
  made_after p k v e =
      ground (arith, e, placed.reads p k, placed.above, placed.below, placed.grows, s.made p k v)

  apart_after :
      (p p' : ℕ) (k k' : IoaAddr) (v : ℕ)
      → get (get_map tp' p) k ≡ some v
      → get (get_map tp' p') k' ≡ some v
      → (shared p p' ≡ true) × (addr_eq k k' ≡ true)
  apart_after p p' k k' v e e' = elim (eq-cases v t) [
    | inl q ↦ ground (
      arith,
      Placed-owner p k (e ∙ ap some q),
      Placed-owner p' k' (e' ∙ ap some q),
      addr_eq_trans ba k k',
    )
    | inr q ↦ s.apart p p' k k' v (Placed-else p k v e q) (Placed-else p' k' v e' q)
  ]

  pub Placed-IsSeparate : IsSeparate tp'
  Placed-IsSeparate = record {
    range = placed.range;
    udp_valid = placed.udp_valid;
    tcp_valid = placed.tcp_valid;
    first = omega (arith, s.first, placed.grows);
    made = made_after;
    apart = apart_after;
  }
