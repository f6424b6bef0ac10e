-- ===== src/Server.antt =====
-- The requests and the data of a client with an allocation: coturn/src/server/ns_turn_server.c.
-- A reason phrase and what is only logged or counted for reports are left out. A timer is always set.
pub mod Same
pub mod Relay
pub mod Hosts
pub mod Requests
pub mod Links
pub mod Binding
pub mod PeerPort
pub mod Handlers
pub mod Checked
pub mod Created
pub mod Relayed
pub mod Reach
pub mod Safety
pub mod RoundTrip
mod Tests
use webrtc_caller.Base.{
  ℕ, zero, suc, ◌+◌, ◌-◌, ◌*◌, ◌/◌, ◌%◌, ◌^◌, ◌≤◌, ◌<◌, min, bit_and, bit_or, bit_xor, ◌≡◌, refl,
  sym, ap, ◌∙◌, fun_ext, ◌≢◌, ◌↔◌, ◌⊎◌, inl, inr, Bool, true, false, not, ◌&&◌, ◌||◌, Option, none,
  some, List, [], ◌∷◌, ◌++◌, arith, ltb, leb, ◌==◌, if◌then◌else◌, ltb→lt, lt→ltb, leb→le, ==_iff,
  ==-refl, Bool-cases, Option-cases, eq-cases, lt-cases, length, get_or, length-append, contains,
  Memory, update, u16, u32, copy, zeros, load16, load32, store16, store32, bytes, AllBytes, AgreeOn,
  bytes-AgreeOn, bytes-shift, copy-in, copy-start, copy-before, all_below, all_below-at,
}
use webrtc_caller.Stun.Types.{valid_channel}
use webrtc_caller.Stun.Header.{magic_cookie, tid_from_message}
use webrtc_caller.Stun.Attr.{attr_type, attr_len, attr_value, get_first, next_from}
use webrtc_caller.Stun.Request.{attribute_channel_number, channel_number}
use webrtc_caller.Addr.{
  IoaAddr, IoaAddrRange, Mappings, af_inet6, addr_set_any, addr_any, addr_any_no_port, addr_eq,
  addr_eq_no_port, addr_get_port, addr_set_port, ioa_addr_in_range, ioa_addr_is_multicast,
  ioa_addr_is_loopback, ioa_addr_is_zero, public_to_private,
}
use webrtc_caller.Addr.Codec.{decode}
use webrtc_caller.Allocation.{
  PermInfo, ChInfo, Allocation, set_perm, set_chn, get_permission, ensure_permission, get_ch_info,
  get_ch_info_by_peer_addr, get_turn_channel, get_turn_channel_number, get_new_ch_info,
}

-- ip_range_t; the realm is its bytes.
pub record IpRange : Type 0 where
  pub realm : List ℕ
  pub enc : IoaAddrRange

-- The options of turn_turnserver that the handlers read, the two lists of the engine, and the mappings
-- of the addresses. A list that is NULL is an empty one.
pub record TurnServer : Type 0 where
  pub ctime : ℕ
  pub permission_lifetime : ℕ
  pub channel_lifetime : ℕ
  pub no_multicast_peers : Bool
  pub allow_loopback_peers : Bool
  pub server_relay : Bool
  pub dont_fragment : Bool
  pub ip_whitelist : List IpRange
  pub ip_blacklist : List IpRange
  pub engine_whitelist : List IpRange
  pub engine_blacklist : List IpRange
  pub mappings : Mappings

-- What the handlers use of ts_ur_super_session. `relay_sockets` says which of the two relay sessions
-- has a socket.
pub record Session : Type 0 where
  pub alloc : Allocation
  pub relay_sockets : ℕ → Bool
  pub realm : List ℕ
  pub is_tcp_relay : Bool
  pub peer_sent_packets : ℕ
  pub peer_sent_bytes : ℕ
  pub peer_received_packets : ℕ
  pub peer_received_bytes : ℕ

abbrev pub alloc_index : ℕ → ℕ
alloc_index family = if family == af_inet6 then 1 else 0

abbrev pub get_relay_socket : Session → ℕ → Bool
get_relay_socket ss family = ss.relay_sockets (alloc_index family)

-- strcmp as a test, and CHECK_REALM.
unfoldable pub same_realm : List ℕ → List ℕ → Bool
same_realm [] [] = true
same_realm [] (y ∷ ys) = false
same_realm (x ∷ xs) [] = false
same_realm (x ∷ xs) (y ∷ ys) = x == y && same_realm xs ys

abbrev pub is_empty : List ℕ → Bool
is_empty [] = true
is_empty (x ∷ xs) = false

unfoldable pub in_realm : List ℕ → List ℕ → Bool
unfolding same_realm
in_realm r realm = is_empty r || is_empty realm || same_realm r realm

-- A loop over the ranges, from the last one to the first.
unfoldable pub in_ranges : List ℕ → IoaAddr → List IpRange → Bool
unfolding in_realm
in_ranges realm peer [] = false
in_ranges realm peer (r ∷ rs) =
    let later = in_ranges realm peer rs in
    if later then true else in_realm r.realm realm && ioa_addr_in_range r.enc peer

unfoldable pub good_peer_addr : TurnServer → List ℕ → IoaAddr → Bool
unfolding in_ranges ioa_addr_is_multicast ioa_addr_is_loopback ioa_addr_is_zero
good_peer_addr server realm peer =
    if server.no_multicast_peers && ioa_addr_is_multicast peer
    then false
    else if not server.allow_loopback_peers && ioa_addr_is_loopback peer
    then false
    else if ioa_addr_is_zero peer
    then false
    else if in_ranges realm peer server.ip_whitelist
    then true
    else if in_ranges realm peer server.engine_whitelist
    then true
    else if in_ranges realm peer server.ip_blacklist
    then false
    else if in_ranges realm peer server.engine_blacklist
    then false
    else true

-- The result of update_turn_permission_lifetime and its neighbours: false for -1, and the allocation.
abbrev pub with_lifetime : PermInfo → ℕ → ℕ → PermInfo
with_lifetime info now delta = record info {
  expiration_time = u32 (now + delta);
  lifetime_ev = some delta;
}

unfoldable pub update_turn_permission_lifetime : TurnServer → Allocation → ℕ → ℕ → Bool × Allocation
update_turn_permission_lifetime server a p time_delta =
    if (a.perms p).owner
    then (let delta = if time_delta == 0 then server.permission_lifetime else time_delta in
        (true, set_perm a p (with_lifetime (a.perms p) server.ctime delta)))
    else (false, a)

abbrev pub chn_with_lifetime : ChInfo → ℕ → ℕ → ChInfo
chn_with_lifetime info now delta = record info {
  expiration_time = u32 (now + delta);
  lifetime_ev = some delta;
}

unfoldable pub update_channel_lifetime : TurnServer → Allocation → ℕ → Bool × Allocation
unfolding update_turn_permission_lifetime
update_channel_lifetime server a c =
    let p = (a.chns c).owner in
    if not (p == 0) && (a.perms p).owner
    then (let (ok, a') = update_turn_permission_lifetime server a p server.channel_lifetime in
        if ok
        then (
          true,
          set_chn a' c (chn_with_lifetime (a'.chns c) server.ctime server.channel_lifetime),
        )
        else (false, a'))
    else (false, a)

-- The channel of the peer, where there is one, is given its lifetime.
abbrev pub refresh_found : TurnServer → Option ℕ → Allocation → Bool × Allocation
refresh_found server none a = (true, a)
refresh_found server (some c) a = update_channel_lifetime server a c

abbrev pub refresh_channel : TurnServer → ℕ → IoaAddr → Bool × Allocation → Bool × Allocation
refresh_channel server p peer (false, a) = (false, a)
refresh_channel server p peer (true, a) = refresh_found server (get_turn_channel a p peer) a

unfoldable pub update_permission : TurnServer → Allocation → IoaAddr → Bool × Allocation
unfolding ensure_permission update_turn_permission_lifetime update_channel_lifetime get_turn_channel
update_permission server a peer =
    let (p, a1) = ensure_permission a peer in
    refresh_channel server p peer (update_turn_permission_lifetime server a1 p 0)
