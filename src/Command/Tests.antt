-- ===== src/Command/Tests.antt =====
-- A CreatePermission request with user name, nonce, realm and digest, from a client with an allocation.
use webrtc_caller.Base.{◌≡◌, refl, Bool, true, false, none, some, [], zeros}
use webrtc_caller.Stun.Integrity.{sha1}
use webrtc_caller.Allocation.{init_allocation}
use webrtc_caller.Server.{TurnServer, Session}
use webrtc_caller.Command.{
  CommandServer, Client, Message, CommandHooks, Handled, udp_socket, Reply, reply, start_command,
  handle_message, handle_turn_command,
}
use webrtc_caller.Command.Guarded.{Guarded, handle_turn_command-Guarded}
use webrtc_caller.Auth.Tests

turn_options : TurnServer
turn_options = record {
  ctime = 1000;
  permission_lifetime = 300;
  channel_lifetime = 600;
  no_multicast_peers = true;
  allow_loopback_peers = false;
  server_relay = false;
  dont_fragment = false;
  ip_whitelist = [];
  ip_blacklist = [];
  engine_whitelist = [];
  engine_blacklist = [];
  mappings = [];
}

abbrev options : CommandServer
options = record {
  turn = turn_options;
  auth = Tests.server;
  no_stun = false;
  stun_only = false;
  secure_stun = false;
  mobility = false;
  check_origin = false;
  self_udp_balance = false;
  alternate_servers = [];
  tls_alternate_servers = [];
  aux_servers = [];
}

allocated : Session
unfolding init_allocation
allocated = record {
  alloc = record init_allocation { is_valid = true };
  relay_sockets = λ i. true;
  realm = [];
  is_tcp_relay = false;
  peer_sent_packets = 0;
  peer_sent_bytes = 0;
  peer_received_packets = 0;
  peer_received_bytes = 0;
}

abbrev sender : Client
sender = record {
  session = allocated;
  creds = Tests.client;
  alloc_tid = zeros;
  has_socket = true;
  socket_type = udp_socket;
  local_addr = none;
  closing = false;
  origin = [];
  origin_set = true;
}

abbrev message : Message
message = record { buf = Tests.request; len = 80; ttl = 64; skip = false; can_resume = true }

-- A handler that does nothing.
abbrev untouched : Message → Bool → Client → Handled
untouched m signed c = record {
  client = c;
  err_code = 0;
  unknown_attrs = [];
  resp_constructed = true;
  no_response = false;
}

abbrev handlers : CommandHooks
handlers = record {
  auth = Tests.hooks;
  canonic_origin = λ name. name;
  realm_options_by_origin = λ name. (false, name);
  handle_allocate = untouched;
  handle_connect = untouched;
  handle_connection_bind = untouched;
  handle_refresh = untouched;
  handle_binding = untouched;
}

abbrev result : Reply
result = reply (handle_message handlers options message (start_command sender 0))

handle_turn_command-runs : handle_turn_command handlers options message sender 0 ≡ some result
unfolding handle_turn_command
handle_turn_command-runs = refl

handle_turn_command-Guarded_example : Guarded handlers options message sender result
handle_turn_command-Guarded_example =
    handle_turn_command-Guarded handlers options message sender 0 result (Tests.toy-IsTotal sha1)
      Tests.request-bytes refl handle_turn_command-runs
