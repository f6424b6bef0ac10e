-- ===== src/Server/Relay.antt =====
-- The data that is relayed: handle_turn_send, write_to_peerchannel and the choice that
-- peer_input_handler makes, of coturn/src/server/ns_turn_server.c. What a socket does with the data is
-- an argument: whether it skips them, and whether it fails. The buffer of a channel message holds the
-- four bytes of its header at least.
use webrtc_caller.Base.{
  ℕ, ◌+◌, ◌-◌, min, Bool, true, false, not, ◌&&◌, ◌||◌, Option, none, some, List, [], ◌∷◌, ◌++◌,
  ltb, leb, ◌==◌, if◌then◌else◌, length, Memory, u32,
}
use webrtc_caller.Stun.Attr.{attr_type, attr_len, attr_value, get_first}
use webrtc_caller.Addr.{IoaAddr, addr_set_any, addr_any}
use webrtc_caller.Allocation.{get_permission, get_ch_info, get_turn_channel_number}
use webrtc_caller.Server.{TurnServer, Session}
use webrtc_caller.Server.Requests.{
  attribute_xor_peer_address, max_number_of_unknown_attrs, skip_attribute, attr_get_addr, walk,
}

abbrev pub attribute_data : ℕ
attribute_data = 0x0013

abbrev pub attribute_dont_fragment : ℕ
attribute_dont_fragment = 0x001A

abbrev pub channel_header_length : ℕ
channel_header_length = 4

-- The variables of the loop of handle_turn_send; `len` is `none` for -1.
pub record SendRequest : Type 0 where
  pub err_code : ℕ
  pub unknown_attrs : List ℕ
  pub peer_addr : IoaAddr
  pub addr_found : Bool
  pub value : Option ℕ
  pub len : Option ℕ
  pub set_df : Bool

abbrev pub send_more : SendRequest → Bool
send_more r = r.err_code == 0 && ltb (length r.unknown_attrs) max_number_of_unknown_attrs

abbrev pub unknown_attr : SendRequest → ℕ → SendRequest
unknown_attr r t = record r { unknown_attrs = r.unknown_attrs ++ (t ∷ []) }

abbrev pub take_data : SendRequest → Option ℕ → ℕ → Option ℕ → SendRequest
take_data r none n v = record r { len = some n; value = v }
take_data r (some old) n v = record r { err_code = 400 }

unfoldable pub send_visit : TurnServer → Memory → ℕ → SendRequest → SendRequest
unfolding attr_get_addr attr_value
send_visit server buf a r =
    let t = attr_type buf a in
    if skip_attribute t
    then r
    else if t == attribute_dont_fragment
    then (if server.dont_fragment then record r { set_df = true } else unknown_attr r t)
    else if t == attribute_xor_peer_address
    then (if r.addr_found
        then record r { err_code = 400 }
        else record r { peer_addr = (attr_get_addr server.mappings buf a none).1 })
    else if t == attribute_data
    then take_data r r.len (attr_len buf a) (attr_value buf a)
    else if leb t 0x7FFF
    then unknown_attr r t
    else r

abbrev pub send_start : SendRequest
send_start = record {
  err_code = 0;
  unknown_attrs = [];
  peer_addr = addr_set_any;
  addr_found = false;
  value = none;
  len = none;
  set_df = false;
}

unfoldable pub read_send : TurnServer → Memory → ℕ → SendRequest
unfolding walk send_visit get_first
read_send server buf len =
    walk send_more (send_visit server buf) len buf len (get_first buf len) send_start

-- What is given to the relay socket of the family of the peer.
pub record Sent : Type 0 where
  pub peer : IoaAddr
  pub offset : ℕ
  pub len : ℕ
  pub ttl : ℕ
  pub df : Bool

pub record SendOutcome : Type 0 where
  pub err_code : ℕ
  pub unknown_attrs : List ℕ
  pub sent : Option Sent
  pub session : Session

abbrev pub count_sent : Session → ℕ → Session
count_sent ss n = record ss {
  peer_sent_packets = u32 (ss.peer_sent_packets + 1);
  peer_sent_bytes = u32 (ss.peer_sent_bytes + n);
}

abbrev pub unsent : Session → ℕ → List ℕ → SendOutcome
unsent ss err ua = record { err_code = err; unknown_attrs = ua; sent = none; session = ss }

-- The data, or an empty buffer where the attribute has no value.
abbrev pub send_to : Session → SendRequest → ℕ → ℕ → Bool → Option ℕ → SendOutcome
send_to ss r n ttl skip none = record {
  err_code = 0;
  unknown_attrs = [];
  sent = some (record { peer = r.peer_addr; offset = 0; len = 0; ttl = ttl - 1; df = r.set_df });
  session = if skip then ss else count_sent ss 0;
}
send_to ss r n ttl skip (some v) = record {
  err_code = 0;
  unknown_attrs = [];
  sent = some (record { peer = r.peer_addr; offset = v; len = n; ttl = ttl - 1; df = r.set_df });
  session = if skip then ss else count_sent ss n;
}

-- Only for a peer with a permission, unless the server relays all.
unfoldable pub send_permitted : TurnServer → Session → SendRequest → ℕ → ℕ → Bool → SendOutcome
unfolding get_permission
send_permitted server ss r n ttl skip =
    if server.server_relay
    then send_to ss r n ttl skip r.value
    else elim (get_permission ss.alloc r.peer_addr) [
      | none ↦ unsent ss 0 []
      | some p ↦ send_to ss r n ttl skip r.value
    ]

-- A request without data is refused.
abbrev pub send_sized : TurnServer → Session → SendRequest → ℕ → Bool → Option ℕ → SendOutcome
send_sized server ss r ttl skip none = unsent ss 400 []
send_sized server ss r ttl skip (some n) = send_permitted server ss r n ttl skip

unfoldable pub handle_send : TurnServer → Session → Memory → ℕ → ℕ → Bool → SendOutcome
unfolding read_send send_permitted addr_any
handle_send server ss buf len ttl skip =
    let r = read_send server buf len in
    if ss.is_tcp_relay
    then unsent ss 403 []
    else if not ss.alloc.is_valid || ttl == 0
    then unsent ss 0 []
    else if not (r.err_code == 0)
    then unsent ss r.err_code []
    else if ltb 0 (length r.unknown_attrs)
    then unsent ss 420 r.unknown_attrs
    else if addr_any r.peer_addr
    then unsent ss 400 []
    else send_sized server ss r ttl skip r.len

-- `rc` is false for a return value below 0.
pub record ChannelOutcome : Type 0 where
  pub rc : Bool
  pub sent : Option Sent
  pub session : Session

unfoldable pub write_to_peerchannel : Session → ℕ → ℕ → ℕ → Bool → Bool → ChannelOutcome
unfolding get_ch_info
write_to_peerchannel ss chnum size ttl skip ok =
    if ttl == 0 || not ss.alloc.is_valid
    then record { rc = true; sent = none; session = ss }
    else elim (get_ch_info ss.alloc chnum) [
      | none ↦ record { rc = false; sent = none; session = ss }
      | some c ↦ record {
        rc = ok;
        sent = some (record {
          peer = (ss.alloc.chns c).peer_addr;
          offset = channel_header_length;
          len = size - channel_header_length;
          ttl = ttl - 1;
          df = false;
        });
        session = if not skip && ok then count_sent ss (size - channel_header_length) else ss;
      }
    ]

-- What goes to the client for the data of a peer: nothing, a channel message of the number, or a DATA
-- indication with the address; both with the number of bytes.
pub data PeerOutput : Type 0 where
  dropped : PeerOutput
  channel_message : ℕ → ℕ → PeerOutput
  data_indication : IoaAddr → ℕ → PeerOutput

-- What the socket and the session say at the time of the event.
pub record PeerInput : Type 0 where
  pub readable : Bool
  pub ttl : ℕ
  pub socket_open : Bool
  pub session_open : Bool
  pub client_open : Bool
  pub relay_socket : Bool
  pub size : ℕ
  pub capacity : ℕ
  pub src_addr : IoaAddr

abbrev pub choose_output : TurnServer → Session → IoaAddr → ℕ → Option ℕ → PeerOutput
choose_output server ss src n none = if server.server_relay then data_indication src n else dropped
choose_output server ss src n (some p) =
    let chnum = get_turn_channel_number ss.alloc p src in
    if chnum == 0 then data_indication src n else channel_message chnum n

abbrev pub count_received : Session → ℕ → Session
count_received ss n = record ss {
  peer_received_packets = u32 (ss.peer_received_packets + 1);
  peer_received_bytes = u32 (ss.peer_received_bytes + n);
}

-- The bytes that are taken, so that a channel header fits before them.
abbrev pub input_length : PeerInput → ℕ
input_length i = min i.size (i.capacity - channel_header_length)

-- The first returns of peer_input_handler.
abbrev pub input_ignored : PeerInput → Bool
input_ignored i =
    not i.readable
    || i.ttl == 0
    || not i.socket_open
    || not i.session_open
    || not i.client_open
    || not i.relay_socket
    || ltb i.capacity channel_header_length

unfoldable pub peer_input : TurnServer → Session → PeerInput → PeerOutput × Session
unfolding get_permission get_turn_channel_number
peer_input server ss i =
    if input_ignored i
    then (dropped, ss)
    else (let ss' = count_received ss (input_length i) in
        if not ss.alloc.is_valid then (dropped, ss') else (
          choose_output server ss i.src_addr (input_length i) (get_permission ss.alloc i.src_addr),
          ss',
        ))
