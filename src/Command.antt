-- ===== src/Command.antt =====
-- One message of a client: handle_turn_command and set_alternate_server of
-- coturn/src/server/ns_turn_server.c, over the authentication and the handlers. The handlers of
-- Allocate, Connect, ConnectionBind, Refresh and Binding are parameters, get_canonic_origin and
-- get_realm_options_by_origin too. Counters and the log are left out. Of an answer it is said what it
-- is; its bytes are not. The hook for Binding is the whole case of the switch.
pub mod Admitted
pub mod Guarded
mod Tests
use webrtc_caller.Base.{
  ℕ, zero, suc, ◌+◌, ◌-◌, ◌*◌, ◌/◌, ◌%◌, ◌^◌, ◌≤◌, ◌<◌, min, bit_and, bit_or, bit_xor, ◌≡◌, refl,
  sym, ap, ◌∙◌, fun_ext, ◌≢◌, ◌↔◌, ◌⊎◌, inl, inr, Bool, true, false, not, ◌&&◌, ◌||◌, Option, none,
  some, List, [], ◌∷◌, ◌++◌, arith, ltb, leb, ◌==◌, if◌then◌else◌, ltb→lt, lt→ltb, leb→le, ==_iff,
  ==-refl, by_if, Bool-cases, Option-cases, eq-cases, lt-cases, length, get_or, length-append,
  contains, Memory, update, u16, u32, copy, zeros, load16, load32, store16, store32, bytes,
  AllBytes, AgreeOn, bytes-AgreeOn, bytes-shift, copy-in, copy-start, copy-before, all_below,
  all_below-at,
}
use webrtc_caller.Stun.Header.{get_method, is_request, is_indication, tid_equals, tid_from_message}
use webrtc_caller.Stun.Attr.{attr_type, attr_len, get_first}
use webrtc_caller.Stun.Error.{same_text, first_bytes}
use webrtc_caller.Stun.Integrity.{c_string}
use webrtc_caller.Addr.{IoaAddr, addr_eq}
use webrtc_caller.Allocation.{Allocation}
use webrtc_caller.Server.{TurnServer, Session}
use webrtc_caller.Server.Requests.{Outcome, walk, handle_channel_bind, handle_create_permission}
use webrtc_caller.Server.Relay.{handle_send}
use webrtc_caller.Auth.{
  AuthServer, AuthHooks, Credentials, AuthResult, Verdict, unchecked, authenticated, postponed,
  failed, challenged, method_allocate, method_connection_bind, is_set, check_stun_auth,
}

abbrev pub method_binding : ℕ
method_binding = 0x0001

abbrev pub method_refresh : ℕ
method_refresh = 0x0004

abbrev pub method_send : ℕ
method_send = 0x0006

abbrev pub method_data : ℕ
method_data = 0x0007

abbrev pub method_create_permission : ℕ
method_create_permission = 0x0008

abbrev pub method_channel_bind : ℕ
method_channel_bind = 0x0009

abbrev pub method_connect : ℕ
method_connect = 0x000A

abbrev pub attribute_origin : ℕ
attribute_origin = 0x802F

abbrev pub stun_max_origin_size : ℕ
stun_max_origin_size = 127

pub data SocketType : Type 0 where
  tcp_socket udp_socket tls_socket sctp_socket tls_sctp_socket dtls_socket other_socket : SocketType

-- The options of turn_turnserver that the function reads; a list that is NULL is an empty one.
pub record CommandServer : Type 0 where
  pub turn : TurnServer
  pub auth : AuthServer
  pub no_stun : Bool
  pub stun_only : Bool
  pub secure_stun : Bool
  pub mobility : Bool
  pub check_origin : Bool
  pub self_udp_balance : Bool
  pub alternate_servers : List IoaAddr
  pub tls_alternate_servers : List IoaAddr
  pub aux_servers : List IoaAddr

-- ts_ur_super_session as the function sees it. The realm of the credentials is the name of the realm
-- options; `alloc_tid` is the transaction id of the allocation.
pub record Client : Type 0 where
  pub session : Session
  pub creds : Credentials
  pub alloc_tid : Memory
  pub has_socket : Bool
  pub socket_type : SocketType
  pub local_addr : Option IoaAddr
  pub closing : Bool
  pub origin : List ℕ
  pub origin_set : Bool

-- A message with its TTL, whether the socket refuses what is sent to it, and whether the reply can wait.
pub record Message : Type 0 where
  pub buf : Memory
  pub len : ℕ
  pub ttl : ℕ
  pub skip : Bool
  pub can_resume : Bool

-- What an answer is. A handler makes its own response.
pub data Answer : Type 0 where
  handled : Answer
  challenge error : ℕ → Answer
  try_alternate : IoaAddr → Answer
  unknown_attributes : List ℕ → Answer

-- The variables of the function; an answer that is not constructed is none.
pub record Command : Type 0 where
  pub client : Client
  pub as_counter : ℕ
  pub err_code : ℕ
  pub answer : Option Answer
  pub no_response : Bool
  pub message_integrity : Bool
  pub unknown_attrs : List ℕ

-- What a handler that is a parameter leaves behind.
pub record Handled : Type 0 where
  pub client : Client
  pub err_code : ℕ
  pub unknown_attrs : List ℕ
  pub resp_constructed : Bool
  pub no_response : Bool

-- What is left to others. A handler is given whether the request is authenticated.
pub record CommandHooks : Type 0 where
  pub auth : AuthHooks
  pub canonic_origin : List ℕ → List ℕ
  pub realm_options_by_origin : List ℕ → Bool × List ℕ
  pub handle_allocate : Message → Bool → Client → Handled
  pub handle_connect : Message → Bool → Client → Handled
  pub handle_connection_bind : Message → Bool → Client → Handled
  pub handle_refresh : Message → Bool → Client → Handled
  pub handle_binding : Message → Bool → Client → Handled

-- The session with the realm of the realm options.
abbrev pub session_of : Client → Session
session_of c = record c.session { realm = c.creds.realm }

abbrev pub with_allocation : Client → Allocation → Client
with_allocation c a = record c { session = record c.session { alloc = a } }

abbrev pub has_address : List IoaAddr → IoaAddr → Bool
has_address [] local = false
has_address (a ∷ more) local = addr_eq a local || has_address more local

abbrev pub address_at : List IoaAddr → ℕ → Option IoaAddr
address_at [] i = none
address_at (a ∷ more) zero = some a
address_at (a ∷ more) (suc i) = address_at more i

-- The second loop of set_alternate_server, by the rounds that are left.
unfoldable pub alternate_loop : List IoaAddr → ℕ → ℕ → ℕ → ℕ × Option IoaAddr
alternate_loop servers family zero counter = (counter, none)
alternate_loop servers family (suc rounds) counter =
    let c = if leb (length servers) counter then 0 else counter in
    let rest = alternate_loop servers family rounds (c + 1) in
    elim (address_at servers c) [
      | none ↦ rest
      | some a ↦ if a.family == family then (c + 1, some a) else rest
    ]

unfoldable pub set_alternate_server : List IoaAddr → Option IoaAddr → ℕ → ℕ × Option IoaAddr
unfolding alternate_loop addr_eq
set_alternate_server servers none counter = (counter, none)
set_alternate_server servers (some local) counter =
    if has_address servers local
    then (counter, none)
    else alternate_loop servers local.family (length servers) counter

-- The list for the type of the socket.
abbrev pub is_datagram : SocketType → Bool
is_datagram udp_socket = true
is_datagram dtls_socket = true
is_datagram _ = false

abbrev pub is_tls : SocketType → Bool
is_tls tls_socket = true
is_tls dtls_socket = true
is_tls tls_sctp_socket = true
is_tls _ = false

abbrev pub some_servers : List IoaAddr → Bool
some_servers [] = false
some_servers (a ∷ more) = true

unfoldable pub servers_for : CommandServer → SocketType → List IoaAddr
servers_for server cst =
    if is_datagram cst && server.self_udp_balance && some_servers server.aux_servers
    then server.aux_servers
    else if is_tls cst && some_servers server.tls_alternate_servers
    then server.tls_alternate_servers
    else server.alternate_servers

abbrev pub redirected : Command → ℕ × Option IoaAddr → Command
redirected k (counter, none) = record k { as_counter = counter }
redirected k (counter, some a) = record k {
  as_counter = counter;
  err_code = 300;
  answer = some (try_alternate a);
}

-- The part for an Allocate request.
unfoldable pub check_allocate : CommandServer → Message → Command → Command
unfolding tid_from_message tid_equals servers_for set_alternate_server
check_allocate server m k =
    if k.client.session.alloc.is_valid
      && not (tid_equals k.client.alloc_tid (tid_from_message m.buf))
    then record k { err_code = 437 }
    else (let servers = servers_for server k.client.socket_type in
        if some_servers servers
        then redirected k (set_alternate_server servers k.client.local_addr k.as_counter)
        else k)

-- The loop that looks for the origin of the session: whether it is found, and the origins with a value.
unfoldable pub origin_visit : CommandHooks → List ℕ → Memory → ℕ → Bool × ℕ → Bool × ℕ
unfolding same_text
origin_visit hooks origin buf a (found, norigins) =
    if attr_type buf a == attribute_origin && ltb 0 (attr_len buf a)
    then (let corigin = hooks.canonic_origin (c_string (bytes buf (a + 4) (attr_len buf a))) in
        (
          found
              || same_text (first_bytes stun_max_origin_size origin)
                  (first_bytes stun_max_origin_size corigin),
          norigins + 1,
        ))
    else (found, norigins)

unfoldable pub find_origin : CommandHooks → List ℕ → Message → Bool × ℕ
unfolding walk origin_visit get_first
find_origin hooks origin m =
    walk (λ s. not s.0) (origin_visit hooks origin m.buf) m.len m.buf m.len (get_first m.buf m.len)
      (false, 0)

unfoldable pub check_origin_of : CommandHooks → CommandServer → Message → Command → Command
unfolding find_origin
check_origin_of hooks server m k =
    if k.client.origin_set
    then (let (found, norigins) = find_origin hooks k.client.origin m in
        if not server.check_origin
        then k
        else if is_set k.client.origin
        then (if found then k else record k { err_code = 441 })
        else if ltb 0 norigins
        then record k { err_code = 441 }
        else k)
    else k

-- The loop that takes the initial origin, and the realm options with it.
unfoldable pub initial_visit :
    CommandHooks → Memory → ℕ → Bool × List ℕ × List ℕ → Bool × List ℕ × List ℕ
initial_visit hooks buf a (found, origin, realm) =
    if attr_type buf a == attribute_origin && ltb 0 (attr_len buf a)
    then (let corigin = hooks.canonic_origin (c_string (bytes buf (a + 4) (attr_len buf a))) in
        let origin' = first_bytes stun_max_origin_size corigin in
        let (found', realm') = hooks.realm_options_by_origin origin' in (found', origin', realm'))
    else (found, origin, realm)

unfoldable pub initial_origin : CommandHooks → Message → Client → Client
unfolding walk initial_visit get_first
initial_origin hooks m c =
    let (found, origin, realm) =
      walk (λ (s : Bool × List ℕ × List ℕ). not s.0) (initial_visit hooks m.buf) m.len m.buf m.len
        (get_first m.buf m.len) (false, c.origin, c.creds.realm) in
    record c { origin = origin; origin_set = true; creds = record c.creds { realm = realm } }

unfoldable pub take_origin : CommandHooks → ℕ → Message → Command → Command
unfolding initial_origin
take_origin hooks method m k =
    if k.err_code == 0 && not k.client.origin_set && method == method_allocate
    then record k { client = initial_origin hooks m k.client }
    else k

-- Nothing stops the request so far.
abbrev pub is_none {ℓ} : {A : Type ℓ} → Option A → Bool
is_none none = true
is_none (some x) = false

abbrev pub goes_on : Command → Bool
goes_on k = k.err_code == 0 && is_none k.answer && not k.no_response

abbrev pub with_verdict : Command → Verdict → Credentials → Command
with_verdict k unchecked s = record k { client = record k.client { creds = s } }
with_verdict k authenticated s = record k {
  client = record k.client { creds = s };
  message_integrity = true;
}
with_verdict k postponed s = record k { client = record k.client { creds = s }; no_response = true }
with_verdict k (failed err) s = record k { client = record k.client { creds = s }; err_code = err }
with_verdict k (challenged err) s = record k {
  client = record k.client { creds = s };
  err_code = err;
  answer = some (challenge err);
}

-- Requests that check_stun_auth is not called for.
abbrev pub skips_auth : CommandServer → ℕ → Client → Bool
skips_auth server method c =
    method == method_connection_bind
    || (server.mobility && method == method_refresh && not c.session.alloc.is_valid)

unfoldable pub authenticate : CommandHooks → CommandServer → ℕ → Message → Command → Command
unfolding check_stun_auth
authenticate hooks server method m k =
    if goes_on k && not (skips_auth server method k.client)
    then (let r =
          check_stun_auth hooks.auth server.auth method m.can_resume m.buf m.len k.client.creds in
        with_verdict k r.verdict r.creds)
    else k

-- The request before its handler.
unfoldable pub admit : CommandHooks → CommandServer → ℕ → Message → Command → Command
unfolding check_allocate check_origin_of take_origin authenticate
admit hooks server method m k =
    if method == method_binding && server.no_stun
    then record k { no_response = true }
    else if not (method == method_binding) && server.stun_only
    then record k { no_response = true }
    else if not (method == method_binding) || server.secure_stun
    then authenticate hooks server method m (
        take_origin hooks method m (
          check_origin_of hooks server m
            (if method == method_allocate then check_allocate server m k else k)))
    else k

-- A handler that is modelled here: the error code, the unknown attributes, the response, the tables.
abbrev pub with_outcome : Command → Outcome → Command
with_outcome k out = record k {
  client = with_allocation k.client out.alloc;
  err_code = out.err_code;
  unknown_attrs = out.unknown_attrs;
  answer = if out.resp_constructed then some handled else k.answer;
}

abbrev pub with_handled : Command → Handled → Command
with_handled k h = record k {
  client = h.client;
  err_code = h.err_code;
  unknown_attrs = h.unknown_attrs;
  answer = if h.resp_constructed then some handled else k.answer;
  no_response = h.no_response;
}

-- Connect is answered later, where there is no error.
abbrev pub connected : Command → Handled → Command
connected k h = record (with_handled k h) { no_response = h.err_code == 0 || h.no_response }

unfoldable pub dispatch : CommandHooks → CommandServer → ℕ → Message → Command → Command
unfolding handle_channel_bind handle_create_permission
dispatch hooks server method m k =
    if method == method_allocate
    then with_handled k (hooks.handle_allocate m k.message_integrity k.client)
    else if method == method_connect
    then connected k (hooks.handle_connect m k.message_integrity k.client)
    else if method == method_connection_bind
    then with_handled k (hooks.handle_connection_bind m k.message_integrity k.client)
    else if method == method_refresh
    then with_handled k (hooks.handle_refresh m k.message_integrity k.client)
    else if method == method_channel_bind
    then with_outcome k (handle_channel_bind server.turn (session_of k.client) m.buf m.len)
    else if method == method_create_permission
    then with_outcome k (handle_create_permission server.turn (session_of k.client) m.buf m.len)
    else if method == method_binding
    then with_handled k (hooks.handle_binding m k.message_integrity k.client)
    else k

unfoldable pub handle_request : CommandHooks → CommandServer → ℕ → Message → Command → Command
unfolding admit dispatch
handle_request hooks server method m k =
    let k' = admit hooks server method m k in
    if goes_on k' then dispatch hooks server method m k' else k'

unfoldable pub handle_indication : CommandServer → ℕ → Message → Command → Command
unfolding handle_send
handle_indication server method m k =
    if method == method_send
    then (let out = handle_send server.turn (session_of k.client) m.buf m.len m.ttl m.skip in
        record k {
          client = record k.client { session = out.session };
          err_code = out.err_code;
          unknown_attrs = out.unknown_attrs;
          no_response = true;
        })
    else if method == method_data
    then record k { err_code = 403; no_response = true }
    else record k { no_response = true }

-- The end of the function: what is answered, with or without MESSAGE-INTEGRITY.
pub record Reply : Type 0 where
  pub client : Client
  pub as_counter : ℕ
  pub answer : Option Answer
  pub signed : Bool

abbrev pub chosen : Command → Answer
chosen k =
    if ltb 0 (length k.unknown_attrs)
    then unknown_attributes k.unknown_attrs
    else elim k.answer [ some a ↦ a | none ↦ error (if k.err_code == 0 then 400 else k.err_code) ]

-- A session that is being closed keeps the response as it is.
unfoldable pub reply : Command → Reply
reply k =
    if k.client.closing || not k.client.has_socket
    then record { client = k.client; as_counter = k.as_counter; answer = k.answer; signed = false }
    else if k.no_response
    then record { client = k.client; as_counter = k.as_counter; answer = none; signed = false }
    else record {
      client = k.client;
      as_counter = k.as_counter;
      answer = some (chosen k);
      signed = k.message_integrity;
    }

abbrev pub start_command : Client → ℕ → Command
start_command c as_counter = record {
  client = c;
  as_counter = as_counter;
  err_code = 0;
  answer = none;
  no_response = false;
  message_integrity = false;
  unknown_attrs = [];
}

unfoldable pub handle_message : CommandHooks → CommandServer → Message → Command → Command
unfolding get_method is_request is_indication handle_request handle_indication
handle_message hooks server m k =
    let method = get_method m.buf m.len in
    if is_request m.buf m.len
    then handle_request hooks server method m k
    else if is_indication m.buf m.len
    then handle_indication server method m k
    else record k { no_response = true }

-- handle_turn_command; none is its result -1.
unfoldable pub handle_turn_command :
    CommandHooks → CommandServer → Message → Client → ℕ → Option Reply
unfolding handle_message reply
handle_turn_command hooks server m c as_counter =
    if not c.has_socket
    then none
    else some (reply (handle_message hooks server m (start_command c as_counter)))
