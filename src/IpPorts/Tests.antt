-- ===== src/IpPorts/Tests.antt =====
-- The IP-mapped ports at concrete inputs.
use webrtc_caller.Base.{ℕ, ◌≡◌, refl, true, arith, ◌==◌, if◌then◌else◌, zeros}
use webrtc_caller.Ports.{PortTable}
use webrtc_caller.Addr.{IoaAddr}
use webrtc_caller.IpPorts.{IpPorts, transport_udp, transport_tcp, turnipports_create, allocate}
use webrtc_caller.IpPorts.Separate.{IsSeparate, table_of}
use webrtc_caller.IpPorts.Own.{IsOther}
use webrtc_caller.IpPorts.Apart.{
  releasing, after_operation, created, operations_other, operations-IsSeparate,
}

abbrev host : ℕ → IoaAddr
host n = record {
  family = 2;
  port = λ i. if i == 0 then 0xff else 0xfc;
  sin_addr = λ i. if i == 3 then n else 10;
  sin6_addr = zeros;
}

abbrev random : ℕ → ℕ
random i = 0

abbrev no_table : PortTable
no_table = record {
  status = zeros;
  low = 0;
  high = 0;
  range_start = 0;
  range_stop = 0;
  ports = zeros;
}

fresh : IpPorts
fresh = turnipports_create (λ i. no_table) 65532 65535

fresh-IsSeparate : IsSeparate fresh
unfolding fresh
fresh-IsSeparate = created (λ i. no_table) 65532 65535 (omega arith)

held : IpPorts
held = (allocate random fresh transport_udp (host 1)).1

held-IsSeparate : IsSeparate held
unfolding held
held-IsSeparate =
    (operations-IsSeparate random fresh transport_udp (host 1) true true 0 fresh-IsSeparate).1

transports-IsOther : IsOther transport_tcp (host 1) transport_udp (host 1)
transports-IsOther = refl

-- The port of the address under TCP is released, and the table of UDP stays.
operations_other_example :
    table_of (after_operation random (releasing transport_tcp) (host 1) held) transport_udp (host 1)
    ≡ table_of held transport_udp (host 1)
operations_other_example =
    operations_other random held (releasing transport_tcp) transport_udp (host 1) (host 1)
      held-IsSeparate transports-IsOther
