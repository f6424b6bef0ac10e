-- ===== src/Tcp/Tests.antt =====
-- The connections and buffers at concrete inputs.
use webrtc_caller.Base.{
  ℕ, ◌≤◌, ◌≡◌, refl, ◌⊎◌, inl, inr, true, false, Option, none, some, List, [], ◌∷◌, arith, ◌==◌,
  if◌then◌else◌, length, get_or, zeros,
}
use webrtc_caller.Addr.{IoaAddr, addr_eq, af_inet, same_bytes}
use webrtc_caller.Tcp.{
  Unsent, max_unsent_buffer_size, top_unsent_buffer, tcp_deliver_delayed_buffer, TcpConnection,
  TcpState, create_tcp_connection, get_tcp_connection_by_id, get_tcp_connection_by_peer, new_tc_id,
  find_by_peer, put_elem,
}
use webrtc_caller.Tcp.Queue.{
  Use, push, pop, use_all, spec_all, taken, first, waiting, unsent_buffer_refines, deliver_all,
}
use webrtc_caller.Tcp.Connections.{IsNewId, has_elem, create_tcp_connection-found}

-- Two buffers after one that has been sent.
two_buffers : Unsent
two_buffers = none ∷ some 7 ∷ some 9 ∷ []

two_buffers-short : length two_buffers ≤ max_unsent_buffer_size
unfolding two_buffers
two_buffers-short = omega arith

steps : List Use
steps = push 5 ∷ pop ∷ push 6 ∷ []

unsent_buffer_refines_example :
    (taken (use_all steps two_buffers) ≡ spec_all steps (taken two_buffers))
    × (top_unsent_buffer (use_all steps two_buffers) ≡ first (spec_all steps (taken two_buffers)).0)
    × (length (use_all steps two_buffers) ≤ max_unsent_buffer_size)
unsent_buffer_refines_example = unsent_buffer_refines steps two_buffers two_buffers-short

deliver_all_example :
    ((tcp_deliver_delayed_buffer (λ nbh. true) false two_buffers).0 ≡ waiting two_buffers)
    × (waiting (tcp_deliver_delayed_buffer (λ nbh. true) false two_buffers).1 ≡ [])
deliver_all_example = deliver_all (λ nbh. true) two_buffers (λ nbh. refl) two_buffers-short

-- 10.0.0.1, port 80.
peer : IoaAddr
peer = record {
  family = af_inet;
  port = λ i. get_or (0 ∷ 80 ∷ []) i 0;
  sin_addr = λ i. get_or (10 ∷ 0 ∷ 0 ∷ 1 ∷ []) i 0;
  sin6_addr = zeros;
}

no_connection : TcpConnection
no_connection = record { id = 0; peer_addr = peer; tid = zeros; done = false; ub_to_client = [] }

empty_state : TcpState
empty_state = record { elems = none ∷ []; conns = λ tc. no_connection; by_id = λ id. none }

state_of : Option (ℕ ⊎ TcpState) → TcpState
state_of none = empty_state
state_of (some (inl err)) = empty_state
state_of (some (inr st)) = st

one_connection : TcpState
one_connection = state_of (create_tcp_connection empty_state 3 1 none peer (0 ∷ 77 ∷ []))

run_connections : ℕ
unfolding peer no_connection empty_state state_of one_connection create_tcp_connection new_tc_id
    find_by_peer get_tcp_connection_by_peer put_elem addr_eq same_bytes
run_connections = 0

-- A second connection, for another peer, with the first one in its place.
second_peer : IoaAddr
second_peer = record peer { port = λ i. get_or (0 ∷ 81 ∷ []) i 0 }

two_connections : TcpState
two_connections = state_of (create_tcp_connection one_connection 3 2 none second_peer (78 ∷ []))

run_second : ℕ
unfolding run_connections second_peer two_connections
run_second = 0

second_made :
    create_tcp_connection one_connection 3 2 none second_peer (78 ∷ []) ≡ some (inr two_connections)
unfolding run_second
second_made = refl

second_pointer : has_elem one_connection.elems 2 ≡ false
unfolding run_second
second_pointer = refl

second_itself : addr_eq second_peer second_peer ≡ true
unfolding run_second
second_itself = refl

create_tcp_connection-found_example :
    (id : ℕ) × IsNewId one_connection.by_id 3 id
    × (get_tcp_connection_by_id two_connections.by_id id ≡ some 2)
    × (get_tcp_connection_by_peer two_connections second_peer ≡ some 2)
    × ((two_connections.conns 2).id ≡ id)
    × (get_tcp_connection_by_id two_connections.by_id 5
        ≡ (if 5 == id then some 2 else get_tcp_connection_by_id one_connection.by_id 5))
    × (get_tcp_connection_by_peer two_connections peer ≡ (
        if addr_eq second_peer peer
        then some 2
        else get_tcp_connection_by_peer one_connection peer))
create_tcp_connection-found_example =
    create_tcp_connection-found one_connection two_connections 3 2 5 none second_peer peer (78 ∷ [])
      second_pointer second_itself second_made
