-- ===== src/IpPorts.antt =====
-- The IP-mapped ports of coturn/src/apps/relay/turn_ports.c: struct _turnipports, which keeps a port
-- table for each address of the host and each of the transports UDP and TCP.
-- A `turnports *` is a number: 0 is NULL, and the others are the tables in the order of their creation,
-- which super memory never gives back. The pointers that a caller passes are not NULL.
pub mod Separate
pub mod Own
pub mod Apart
mod Tests
use webrtc_caller.Base.{
  ℕ, zero, suc, ◌+◌, ◌-◌, ◌*◌, ◌/◌, ◌%◌, ◌^◌, ◌≤◌, ◌<◌, min, bit_and, bit_or, bit_xor, ◌≡◌, refl,
  sym, ap, ◌∙◌, fun_ext, ◌≢◌, ◌↔◌, ◌⊎◌, inl, inr, Bool, true, false, not, ◌&&◌, ◌||◌, Option, none,
  some, List, [], ◌∷◌, ◌++◌, arith, ltb, leb, ◌==◌, if◌then◌else◌, ltb→lt, lt→ltb, leb→le, ==_iff,
  Bool-cases, Option-cases, eq-cases, lt-cases, length, get_or, length-append, contains, Memory,
  update, u16, u32, copy, zeros, load16, load32, store16, store32, bytes, AllBytes, AgreeOn,
  bytes-AgreeOn, bytes-shift, copy-in, copy-start, copy-before, all_below, all_below-at,
}
use webrtc_caller.Ports.{PortTable, create}
use webrtc_caller.Ports
use webrtc_caller.Addr.{IoaAddr, addr_set_port, addr_get_port}
use webrtc_caller.Maps.AddrMap.{AddrMap, put, get}
use webrtc_caller.Maps.AddrMap

abbrev pub transport_tcp : ℕ
transport_tcp = 6

abbrev pub transport_udp : ℕ
transport_udp = 17

pub record IpPorts : Type 0 where
  pub start : ℕ
  pub finish : ℕ
  pub udp : AddrMap
  pub tcp : AddrMap
  -- what the pointers point to, and the next one to be given
  pub tables : ℕ → PortTable
  pub next : ℕ

abbrev pub get_map : IpPorts → ℕ → AddrMap
get_map tp transport = if transport == transport_tcp then tp.tcp else tp.udp

-- The map that get_map points to is overwritten.
abbrev pub set_map : IpPorts → ℕ → AddrMap → IpPorts
set_map tp transport m =
    if transport == transport_tcp then record tp { tcp = m } else record tp { udp = m }

abbrev pub set_table : IpPorts → ℕ → PortTable → IpPorts
set_table tp t table = record tp { tables = update tp.tables t table }

-- `tables` are what the memory holds before any table is made.
unfoldable pub turnipports_create : (ℕ → PortTable) → ℕ → ℕ → IpPorts
turnipports_create tables start finish = record {
  start = start;
  finish = finish;
  udp = AddrMap.init;
  tcp = AddrMap.init;
  tables = tables;
  next = 1;
}

-- A table that turnports_create makes, and its pointer; NULL where it makes none.
unfoldable pub new_table : (ℕ → ℕ) → IpPorts → ℕ × IpPorts
new_table random tp = elim (create random tp.start tp.finish) [
  | none ↦ (0, tp)
  | some table ↦ (tp.next, record (set_table tp tp.next table) { next = tp.next + 1 })
]

-- turnipports_add, for what turn_random gives while the table is filled.
unfoldable pub add : (ℕ → ℕ) → IpPorts → ℕ → IoaAddr → ℕ × IpPorts
add random tp transport backend_addr =
    let ba = addr_set_port backend_addr 0 in
    elim (get (get_map tp transport) ba) [
      | some t ↦ (t, tp)
      | none ↦
          let (t, tp') = new_table random tp in
          (t, set_map tp' transport (put (get_map tp' transport) ba t).0)
    ]

-- The code locks the table that turnipports_add gives without a test for NULL, which is refused here;
-- only an empty range has a NULL table.
unfoldable pub allocate : (ℕ → ℕ) → IpPorts → ℕ → IoaAddr → Option ℕ × IpPorts
allocate random tp transport backend_addr =
    let (t, tp') = add random tp transport backend_addr in
    if t == 0
    then (none, tp')
    else (let (port, table) = Ports.allocate (tp'.tables t) in (port, set_table tp' t table))

unfoldable pub release : IpPorts → ℕ → IoaAddr → IpPorts
release tp transport socket_addr = elim (get (get_map tp transport) (addr_set_port socket_addr 0)) [
  | none ↦ tp
  | some t ↦ set_table tp t (Ports.release (tp.tables t) (addr_get_port socket_addr))
]

unfoldable pub is_allocated : IpPorts → ℕ → IoaAddr → ℕ → Bool
is_allocated tp transport backend_addr port =
    elim (get (get_map tp transport) (addr_set_port backend_addr 0)) [
      | none ↦ false
      | some t ↦ Ports.is_allocated (tp.tables t) port
    ]

-- Where the address has no table yet, each of its ports is available.
unfoldable pub is_available : IpPorts → ℕ → IoaAddr → ℕ → Bool
is_available tp transport backend_addr port =
    elim (get (get_map tp transport) (addr_set_port backend_addr 0)) [
      | none ↦ true
      | some t ↦ Ports.is_available (tp.tables t) port
    ]

-- The result of the port table, with the token where the caller asks for one.
unfoldable pub allocate_even :
    (ℕ → ℕ) → IpPorts → IoaAddr → Bool → Bool → ℕ → Option (ℕ × Option Ports.Token) × IpPorts
allocate_even random tp backend_addr allocate_rtcp wants_token token_random =
    let (t, tp') = add random tp transport_udp backend_addr in
    if t == 0
    then (none, tp')
    else (let (port, table) =
          Ports.allocate_even allocate_rtcp wants_token token_random (tp'.tables t) in
        (port, set_table tp' t table))
