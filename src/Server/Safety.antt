-- ===== src/Server/Safety.antt =====
-- Who data are sent to, and whose data are taken, in the sessions that are reached.
use webrtc_caller.Base.{
  ℕ, ◌≡◌, refl, sym, ◌∙◌, ◌≢◌, ◌⊎◌, inl, inr, Bool, true, false, not, Option, none, some, List, [],
  ◌∷◌, arith, ◌==◌, if◌then◌else◌, by_if, Option-cases, Memory,
}
use webrtc_caller.Addr.{IoaAddr, addr_eq_no_port}
use webrtc_caller.Addr.Host.{addr_eq_no_port-sym, addr_eq_no_port_trans}
use webrtc_caller.Allocation.{
  Allocation, get_permission, get_ch_info, get_turn_channel, get_turn_channel_number,
}
use webrtc_caller.Allocation.Linked.{get_permission-some}
use webrtc_caller.Allocation.Channels.{get_ch_info-some, get_ch_info-linked, get_turn_channel-some}
use webrtc_caller.Allocation.Bind.{Held, get_permission-owner}
use webrtc_caller.Server.{TurnServer, Session}
use webrtc_caller.Server.Relay.{
  Sent, handle_send, write_to_peerchannel, PeerInput, PeerOutput, dropped, channel_message,
  data_indication, choose_output, peer_input, input_ignored, input_length, count_received,
}
use webrtc_caller.Server.Hosts.{SameHost, SameHost-eq_no_port, good_peer_addr-agree}
use webrtc_caller.Server.Relayed.{handle_send-SendKeeps}
use webrtc_caller.Server.Reach.{Policy, was_good, Reach, IsSafe, Reach-IsSafe}

-- Addresses of the same host are judged alike.
was_good-agree :
    (history : List Policy) (a b : IoaAddr) → SameHost a b → was_good history a ≡ was_good history b
unfolding was_good
was_good-agree [] a b same = refl
was_good-agree ((server, realm) ∷ history) a b same =
    rw (good_peer_addr-agree a b same server realm, was_good-agree history a b same) refl

-- A peer with a permission is one that a policy of the session accepts.
permitted_good :
    (history : List Policy) (server : TurnServer) (ss : Session) (peer : IoaAddr) (p : ℕ)
    → IsSafe history server ss
    → get_permission ss.alloc peer ≡ some p
    → was_good history peer ≡ true
permitted_good history server ss peer p safe e =
    let (used, host) = get_permission-some ss.alloc peer p e in
    sym (
      was_good-agree history (ss.alloc.perms p).addr peer
        (SameHost-eq_no_port (ss.alloc.perms p).addr peer host))
    ∙ safe.checked p used

-- In every session that is reached, with the server_relay option off, whatever handle_turn_send gives
-- to a relay socket is for a peer that good_peer_addr accepts under a policy that has been in force in
-- the session. The handler looks for a permission only, so the policy can be an earlier one.
pub handle_send-good :
    (history : List Policy) (server : TurnServer) (ss : Session) (buf : Memory) (len ttl : ℕ)
    (skip : Bool) (x : Sent)
    → Reach history server ss
    → server.server_relay ≡ false
    → (handle_send server ss buf len ttl skip).sent ≡ some x
    → was_good history x.peer ≡ true
handle_send-good history server ss buf len ttl skip x reach off e =
    go ((handle_send-SendKeeps server ss buf len ttl skip).sent x e)
  where
    go :
        (server.server_relay ≡ true) ⊎ ((p : ℕ) × (get_permission ss.alloc x.peer ≡ some p))
        → was_good history x.peer ≡ true
    go (inl relay) = cc (relay, off)
    go (inr (p, found)) =
        permitted_good history server ss x.peer p (Reach-IsSafe history server ss reach) found

sent_on_channel :
    (ss : Session) (chnum size ttl : ℕ) (skip ok : Bool) (x : Sent)
    → (write_to_peerchannel ss chnum size ttl skip ok).sent ≡ some x
    → (c : ℕ) × (get_ch_info ss.alloc chnum ≡ some c) × ((ss.alloc.chns c).peer_addr ≡ x.peer)
unfolding write_to_peerchannel
sent_on_channel ss chnum size ttl skip ok x e = elim (Option-cases (get_ch_info ss.alloc chnum)) [
  | inl absent ↦ absurd (ground (arith, e, absent))
  | inr (c, found) ↦ (c, found, ground (arith, e, found))
]

-- In every session that is reached, whatever write_to_peerchannel gives to a relay socket is for a peer
-- that good_peer_addr accepts under a policy that has been in force in the session, the present one or
-- an earlier one, and that has a permission.
pub write_to_peerchannel-good :
    (history : List Policy) (server : TurnServer) (ss : Session) (chnum size ttl : ℕ)
    (skip ok : Bool) (x : Sent)
    → Reach history server ss
    → (write_to_peerchannel ss chnum size ttl skip ok).sent ≡ some x
    → (was_good history x.peer ≡ true) × ((p : ℕ) × (get_permission ss.alloc x.peer ≡ some p))
write_to_peerchannel-good history server ss chnum size ttl skip ok x reach e =
    let safe = Reach-IsSafe history server ss reach in
    let (c, found, same) = sent_on_channel ss chnum size ttl skip ok x e in
    let (used, number) = get_ch_info-some ss.alloc chnum c found in
    let p = (ss.alloc.chns c).owner in
    let permitted : get_permission ss.alloc x.peer ≡ some p =
      rw same at (get_permission-owner ss.alloc safe.linked c used) in
    (permitted_good history server ss x.peer p safe permitted, (p, permitted))

-- What is known of data that peer_input_handler does not drop: the permission of the source, and the
-- channel for a channel message.
pub record IsTaken (server : TurnServer) (ss : Session) (src : IoaAddr) (o : PeerOutput × Session)
    : Type 0 where
  pub permitted :
      (o.0 ≡ dropped)
      ⊎ (server.server_relay ≡ true)
      ⊎ ((p : ℕ) × (get_permission ss.alloc src ≡ some p))
  pub on_channel :
      (n k : ℕ)
      → o.0 ≡ channel_message n k
      → (p : ℕ) × (get_permission ss.alloc src ≡ some p)
        × (n ≢ 0)
        × (get_turn_channel_number ss.alloc p src ≡ n)

IsTaken-dropped :
    (server : TurnServer) (ss s : Session) (src : IoaAddr) → IsTaken server ss src (dropped, s)
IsTaken-dropped server ss s src = record { permitted = inl refl; on_channel = λ n k e. cc (e) }

IsTaken-choose :
    (server : TurnServer) (ss s : Session) (src : IoaAddr) (n : ℕ) (found : Option ℕ)
    → get_permission ss.alloc src ≡ found
    → IsTaken server ss src (choose_output server ss src n found, s)
IsTaken-choose server ss s src n none e =
    by_if (λ (o : PeerOutput). IsTaken server ss src (o, s)) server.server_relay
      (data_indication src n) dropped
      (λ relay. record { permitted = inr (inl relay); on_channel = λ m k f. cc (f) })
      (λ z. IsTaken-dropped server ss s src)
IsTaken-choose server ss s src n (some p) e =
    let chnum = get_turn_channel_number ss.alloc p src in
    by_if (λ (o : PeerOutput). IsTaken server ss src (o, s)) (chnum == 0) (data_indication src n)
      (channel_message chnum n)
      (λ z. record { permitted = inr (inr (p, e)); on_channel = λ m k f. cc (f) })
      (λ z. record {
        permitted = inr (inr (p, e));
        on_channel = λ m k f.
            let same : chnum ≡ m = ground (arith, f) in
            (p, e, λ zero_m. ground (arith, z, same, zero_m), same);
      })

peer_input-IsTaken :
    (server : TurnServer) (ss : Session) (i : PeerInput)
    → IsTaken server ss i.src_addr (peer_input server ss i)
unfolding peer_input
peer_input-IsTaken server ss i =
    let P = IsTaken server ss i.src_addr in
    let n = input_length i in
    let found = get_permission ss.alloc i.src_addr in
    let counted = count_received ss n in
    let chosen : PeerOutput × Session = (choose_output server ss i.src_addr n found, counted) in
    by_if P (input_ignored i) (dropped, ss)
      (if not ss.alloc.is_valid then (dropped, counted) else chosen)
      (λ z. IsTaken-dropped server ss ss i.src_addr)
      (λ z.
        by_if P (not ss.alloc.is_valid) (dropped, counted) chosen
          (λ z. IsTaken-dropped server ss counted i.src_addr)
          (λ z. IsTaken-choose server ss counted i.src_addr n found refl))

-- In every session that is reached, with the server_relay option off, the data of a peer are dropped
-- unless good_peer_addr accepts the peer under a policy that has been in force in the session, the
-- present one or an earlier one.
pub peer_input-good :
    (history : List Policy) (server : TurnServer) (ss : Session) (i : PeerInput)
    → Reach history server ss
    → server.server_relay ≡ false
    → ((peer_input server ss i).0 ≡ dropped) ⊎ (was_good history i.src_addr ≡ true)
peer_input-good history server ss i reach off = go (peer_input-IsTaken server ss i).permitted
  where
    go :
        ((peer_input server ss i).0 ≡ dropped)
          ⊎ (server.server_relay ≡ true)
          ⊎ ((p : ℕ) × (get_permission ss.alloc i.src_addr ≡ some p))
        → ((peer_input server ss i).0 ≡ dropped) ⊎ (was_good history i.src_addr ≡ true)
    go (inl e) = inl e
    go (inr (inl relay)) = cc (relay, off)
    go (inr (inr (p, found))) =
        inr (
          permitted_good history server ss i.src_addr p (Reach-IsSafe history server ss reach)
            found)

number_channel :
    (a : Allocation) (p n : ℕ) (src : IoaAddr)
    → n ≢ 0
    → get_turn_channel_number a p src ≡ n
    → (c : ℕ) × (get_turn_channel a p src ≡ some c) × ((a.chns c).chnum ≡ n)
unfolding get_turn_channel_number
number_channel a p n src nonzero e = elim (Option-cases (get_turn_channel a p src)) [
  | inl absent ↦ absurd (nonzero (sym (rw (absent, get_turn_channel_number) at e)))
  | inr (c, found) ↦ (c, found, rw (found, get_turn_channel_number) at e)
]

-- In every session that is reached, a channel message goes to the client only under the number of the
-- channel that is bound to the peer that sent the data: the channel found by the number has the host
-- and the port of the source.
pub peer_input-Held :
    (history : List Policy) (server : TurnServer) (ss : Session) (i : PeerInput) (n k : ℕ)
    → Reach history server ss
    → (peer_input server ss i).0 ≡ channel_message n k
    → (c : ℕ) × (get_ch_info ss.alloc n ≡ some c) × Held ss.alloc c n i.src_addr
peer_input-Held history server ss i n k reach e =
    let safe = Reach-IsSafe history server ss reach in
    let (p, found, nonzero, number) = (peer_input-IsTaken server ss i).on_channel n k e in
    let (c, at_port, same) = number_channel ss.alloc p n i.src_addr nonzero number in
    let (perm_used, perm_host) = get_permission-some ss.alloc i.src_addr p found in
    let (used, owner, port) =
      get_turn_channel-some ss.alloc safe.linked p c i.src_addr perm_used at_port in
    let (host_used, host, in_map, valid) = safe.linked.up c used in
    let host_p : addr_eq_no_port (ss.alloc.perms p).addr (ss.alloc.chns c).peer_addr ≡ true =
      rw owner at host in
    (
      c,
      rw same at (get_ch_info-linked ss.alloc safe.linked c used),
      record {
        used = used;
        number = same;
        host =
            addr_eq_no_port-sym (ss.alloc.chns c).peer_addr i.src_addr
            ∙ addr_eq_no_port-sym i.src_addr (ss.alloc.chns c).peer_addr
            ∙ sym (
                addr_eq_no_port_trans (ss.alloc.perms p).addr (ss.alloc.chns c).peer_addr i.src_addr
                  host_p)
            ∙ perm_host;
        port = port;
      },
    )
