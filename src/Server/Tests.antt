-- ===== src/Server/Tests.antt =====
-- A session with a permission and a channel for the peer 10.0.0.1, port 5000.
use webrtc_caller.Base.{
  ℕ, zero, suc, ◌<◌, ◌≡◌, refl, ◌⊎◌, Bool, true, false, ◌&&◌, Option, none, some, List, [], ◌∷◌,
  ◌++◌, arith, ltb, get_or, Memory, AllBytes,
}
use webrtc_caller.Stun.Header.{command_message_len}
use webrtc_caller.Stun.Attr.{check_valid, padded, next_from}
use webrtc_caller.Addr.Codec.{cookie_byte, mask}
use webrtc_caller.Allocation.Slots.{find_slot}
use webrtc_caller.Addr.{
  IoaAddr, ioa_addr_in_range, addr_less_eq, same_bytes, addr_set_any, addr_hash_no_port, hash_int32,
  load_host,
}
use webrtc_caller.Allocation.{init_allocation, new_slot, get_permission, get_ch_info}
use webrtc_caller.Allocation.Linked.{IsLinked}
use webrtc_caller.Allocation.Bind.{Held}
use webrtc_caller.Maps.LmMap
use webrtc_caller.Server.{TurnServer, Session, good_peer_addr}
use webrtc_caller.Server.Requests.{read_bind, handle_channel_bind, handle_create_permission}
use webrtc_caller.Server.Relay.{
  Sent, handle_send, write_to_peerchannel, PeerInput, dropped, channel_message, peer_input,
}
use webrtc_caller.Server.Handlers.{Handled, handle_channel_bind-Handled}
use webrtc_caller.Server.Checked.{AllChecked}
use webrtc_caller.Server.Created.{handle_create_permission-AllChecked}
use webrtc_caller.Server.Reach.{
  channel_bind, Policy, was_good, Reach, start, step, change, IsSafe, Reach-IsSafe, with_alloc,
  channel_bind-AllPass,
}
use webrtc_caller.Server.Safety.{
  handle_send-good, write_to_peerchannel-good, peer_input-good, peer_input-Held,
}
use webrtc_caller.Server.RoundTrip.{Carries, handle_channel_bind-Carries}

server : TurnServer
server = record {
  ctime = 1000;
  permission_lifetime = 300;
  channel_lifetime = 600;
  no_multicast_peers = true;
  allow_loopback_peers = false;
  server_relay = false;
  dont_fragment = false;
  ip_whitelist = [];
  ip_blacklist = [];
  engine_whitelist = [];
  engine_blacklist = [];
  mappings = [];
}

fresh : Session
unfolding init_allocation
fresh = record {
  alloc = record init_allocation { is_valid = true };
  relay_sockets = λ i. true;
  realm = [];
  is_tcp_relay = false;
  peer_sent_packets = 0;
  peer_sent_bytes = 0;
  peer_received_packets = 0;
  peer_received_bytes = 0;
}

-- The header of a request of a type and a length, with an id of zeros.
head : ℕ → ℕ → List ℕ
head ty len =
    0 ∷ ty ∷ 0 ∷ len ∷ 0x21 ∷ 0x12 ∷ 0xa4 ∷ 0x42 ∷ 0 ∷ 0 ∷ 0 ∷ 0 ∷ 0 ∷ 0 ∷ 0 ∷ 0 ∷ 0 ∷ 0 ∷ 0 ∷ 0
    ∷ []

-- XOR-PEER-ADDRESS 10.0.0.1, port 5000.
peer_attr : List ℕ
peer_attr = 0 ∷ 0x12 ∷ 0 ∷ 8 ∷ 0 ∷ 1 ∷ 0x32 ∷ 0x9a ∷ 0x2b ∷ 0x12 ∷ 0xa4 ∷ 0x43 ∷ []

bind_wire : List ℕ
bind_wire = head 9 20 ++ (0 ∷ 0x0c ∷ 0 ∷ 4 ∷ 0x40 ∷ 0 ∷ 0 ∷ 0 ∷ peer_attr)

permission_wire : List ℕ
permission_wire = head 8 12 ++ peer_attr

send_wire : List ℕ
send_wire = head 0x16 20 ++ (peer_attr ++ (0 ∷ 0x13 ∷ 0 ∷ 4 ∷ 1 ∷ 2 ∷ 3 ∷ 4 ∷ []))

bind_message : Memory
bind_message i = get_or bind_wire i 0

permission_message : Memory
permission_message i = get_or permission_wire i 0

send_message : Memory
send_message i = get_or send_wire i 0

reached : Session
reached = with_alloc fresh (handle_channel_bind server fresh bind_message 40).alloc

run_server : ℕ
unfolding server fresh head peer_attr bind_wire permission_wire send_wire bind_message
    permission_message send_message reached handle_channel_bind handle_create_permission handle_send
    write_to_peerchannel peer_input read_bind command_message_len check_valid padded next_from
    cookie_byte mask find_slot new_slot addr_hash_no_port hash_int32 load_host
run_server = 0

bind_answered : (handle_channel_bind server fresh bind_message 40).err_code ≡ 0
unfolding run_server
bind_answered = refl

sent_of : Option Sent → Sent
sent_of (some x) = x
sent_of none = record { peer = addr_set_any; offset = 0; len = 0; ttl = 0; df = false }

to_peer : Sent
to_peer = sent_of (handle_send server reached send_message 40 64 false).sent

on_channel : Sent
on_channel = sent_of (write_to_peerchannel reached 0x4000 8 64 false true).sent

input : PeerInput
input = record {
  readable = true;
  ttl = 64;
  socket_open = true;
  session_open = true;
  client_open = true;
  relay_socket = true;
  size = 100;
  capacity = 1500;
  src_addr = (read_bind server fresh bind_message 40).peer_addr;
}

run_data : ℕ
unfolding run_server sent_of to_peer on_channel input same_bytes LmMap.get LmMap.get_array
    LmMap.get_main LmMap.put LmMap.put_array LmMap.put_main LmMap.init
run_data = 0

sent_to_peer : (handle_send server reached send_message 40 64 false).sent ≡ some to_peer
unfolding run_data
sent_to_peer = refl

sent_on_channel : (write_to_peerchannel reached 0x4000 8 64 false true).sent ≡ some on_channel
unfolding run_data
sent_on_channel = refl

input_on_channel : (peer_input server reached input).0 ≡ channel_message 0x4000 100
unfolding run_data
input_on_channel = refl

all_small : List ℕ → Bool
all_small [] = true
all_small (x ∷ xs) = ltb x 256 && all_small xs

get_or-lt : (xs : List ℕ) (i : ℕ) → all_small xs ≡ true → get_or xs i 0 < 256
unfolding all_small
get_or-lt [] i h = omega arith
get_or-lt (x ∷ xs) zero h = ground (arith, h)
get_or-lt (x ∷ xs) (suc i) h = get_or-lt xs i (ground (arith, h))

bind_bytes : AllBytes bind_message
unfolding run_server all_small
bind_bytes i = get_or-lt bind_wire i refl

abbrev policy : Policy
policy = (server, fresh.realm)

fresh-Reach : Reach (policy ∷ []) server fresh
unfolding fresh
fresh-Reach = start server fresh refl

reached-Reach : Reach (policy ∷ []) server reached
unfolding reached server
reached-Reach =
    step (policy ∷ []) server fresh reached fresh-Reach
      (channel_bind fresh 1000 bind_message 40 bind_bytes)

-- The peer is refused after the list of the refused peers has been read again.
refused : IoaAddr
unfolding run_server
refused = (read_bind server fresh bind_message 40).peer_addr

stricter : TurnServer
stricter = record server {
  ip_blacklist =
      record { realm = []; enc = record { min_addr = refused; max_addr = refused } } ∷ [];
}

stricter_refuses : good_peer_addr stricter reached.realm refused ≡ false
unfolding run_data stricter refused good_peer_addr ioa_addr_in_range addr_less_eq
stricter_refuses = refl

abbrev history : List Policy
history = (stricter, reached.realm) ∷ policy ∷ []

changed-Reach : Reach history stricter reached
changed-Reach = change (policy ∷ []) server stricter reached.realm reached reached-Reach

off : server.server_relay ≡ false
unfolding server
off = refl

Reach-IsSafe_example : IsSafe history stricter reached
Reach-IsSafe_example = Reach-IsSafe history stricter reached changed-Reach

handle_send-good_example : was_good (policy ∷ []) to_peer.peer ≡ true
handle_send-good_example =
    handle_send-good (policy ∷ []) server reached send_message 40 64 false to_peer reached-Reach off
      sent_to_peer

write_to_peerchannel-good_example :
    (was_good history on_channel.peer ≡ true)
    × ((p : ℕ) × (get_permission reached.alloc on_channel.peer ≡ some p))
write_to_peerchannel-good_example =
    write_to_peerchannel-good history stricter reached 0x4000 8 64 false true on_channel
      changed-Reach sent_on_channel

peer_input-good_example :
    ((peer_input server reached input).0 ≡ dropped) ⊎ (was_good (policy ∷ []) input.src_addr ≡ true)
peer_input-good_example = peer_input-good (policy ∷ []) server reached input reached-Reach off

peer_input-Held_example :
    (c : ℕ) × (get_ch_info reached.alloc 0x4000 ≡ some c)
    × Held reached.alloc c 0x4000 input.src_addr
peer_input-Held_example =
    peer_input-Held (policy ∷ []) server reached input 0x4000 100 reached-Reach input_on_channel

fresh-IsLinked : IsLinked fresh.alloc
fresh-IsLinked = (Reach-IsSafe (policy ∷ []) server fresh fresh-Reach).linked

reached-IsLinked : IsLinked reached.alloc
reached-IsLinked = (Reach-IsSafe (policy ∷ []) server reached reached-Reach).linked

reached_checked : AllChecked server reached.realm reached.alloc
unfolding reached fresh
reached_checked =
    channel_bind-AllPass server fresh (good_peer_addr server []) bind_message 40 (λ peer good. good)
      fresh-IsLinked (λ p used. cc)

handle_channel_bind-Handled_example :
    Handled fresh
      (read_bind server fresh bind_message 40)
      (handle_channel_bind server fresh bind_message 40)
handle_channel_bind-Handled_example =
    handle_channel_bind-Handled server fresh bind_message 40 bind_bytes fresh-IsLinked

handle_create_permission-AllChecked_example :
    AllChecked server reached.realm
      (handle_create_permission server reached permission_message 32).alloc
handle_create_permission-AllChecked_example =
    handle_create_permission-AllChecked server reached permission_message 32 reached-IsLinked
      reached_checked

answered : (handle_channel_bind server fresh bind_message 40).resp_constructed ≡ true
unfolding run_server
answered = refl

still_valid : (handle_channel_bind server fresh bind_message 40).alloc.is_valid ≡ true
unfolding run_server
still_valid = refl

handle_channel_bind-Carries_example :
    Carries server
      (with_alloc fresh (handle_channel_bind server fresh bind_message 40).alloc)
      (read_bind server fresh bind_message 40).chnum
      (read_bind server fresh bind_message 40).peer_addr
handle_channel_bind-Carries_example =
    handle_channel_bind-Carries server fresh bind_message 40 bind_bytes fresh-IsLinked answered
      still_valid
