-- ===== src/Server/RoundTrip.antt =====
-- Data on a channel that is bound, in both directions.
use webrtc_caller.Base.{
  ℕ, ◌-◌, ◌≡◌, refl, ◌≢◌, inl, inr, Bool, true, false, some, arith, ◌==◌, Memory, AllBytes,
}
use webrtc_caller.Addr.{IoaAddr, addr_eq_no_port, addr_get_port}
use webrtc_caller.Allocation.{
  Allocation, get_ch_info_by_peer_addr, get_turn_channel, get_turn_channel_number,
}
use webrtc_caller.Allocation.Linked.{IsLinked}
use webrtc_caller.Allocation.Bind.{Bound}
use webrtc_caller.Server.{TurnServer, Session}
use webrtc_caller.Server.Relay.{
  Sent, write_to_peerchannel, PeerInput, channel_message, peer_input, input_ignored, input_length,
}
use webrtc_caller.Server.Requests.{read_bind, Outcome, handle_channel_bind}
use webrtc_caller.Server.Handlers.{Handled, handle_channel_bind-Handled}
use webrtc_caller.Server.Reach.{with_alloc}

-- The channel number and the peer carry data both ways: what the peer sends goes to the client under the
-- number, and what the client sends under the number goes to the peer.
pub record Carries (server : TurnServer) (ss : Session) (chnum : ℕ) (peer : IoaAddr) : Type 0 where
  pub to_client :
      (i : PeerInput)
      → i.src_addr ≡ peer
      → input_ignored i ≡ false
      → (peer_input server ss i).0 ≡ channel_message chnum (input_length i)
  pub to_peer :
      (size ttl : ℕ) (skip ok : Bool)
      → ttl ≢ 0
      → (x : Sent) × ((write_to_peerchannel ss chnum size ttl skip ok).sent ≡ some x)
        × (addr_eq_no_port x.peer peer ≡ true)
        × (addr_get_port x.peer ≡ addr_get_port peer)
        × (x.len ≡ size - 4)

Bound-number :
    (a : Allocation) (c chnum : ℕ) (peer : IoaAddr)
    → Bound chnum peer (c, a)
    → (get_turn_channel_number a (a.chns c).owner peer ≡ chnum) × (chnum ≢ 0)
unfolding get_turn_channel_number get_ch_info_by_peer_addr
Bound-number a c chnum peer bound =
    let found : get_turn_channel a (a.chns c).owner peer ≡ some c =
      rw (bound.permitted, get_ch_info_by_peer_addr) at bound.by_peer in
    let (host_used, host, in_map, valid) = bound.linked.up c bound.held.used in
    (
      rw (found, get_turn_channel_number) bound.held.number,
      λ z. ground (arith, bound.held.number, valid, z),
    )

Bound-Carries :
    (server : TurnServer) (ss : Session) (c chnum : ℕ) (peer : IoaAddr)
    → ss.alloc.is_valid ≡ true
    → Bound chnum peer (c, ss.alloc)
    → Carries server ss chnum peer
unfolding peer_input write_to_peerchannel
Bound-Carries server ss c chnum peer valid bound =
    let (number, nonzero) = Bound-number ss.alloc c chnum peer bound in
    let shown : (chnum == 0) ≡ false = ground (arith, nonzero) in
    record {
      to_client =
          λ i same heard. rw (heard, valid, same, peer_input, bound.permitted, number, shown) refl;
      to_peer = λ size ttl skip ok alive.
          let kept : (ttl == 0) ≡ false = ground (arith, alive) in
          (
            record {
              peer = (ss.alloc.chns c).peer_addr;
              offset = 4;
              len = size - 4;
              ttl = ttl - 1;
              df = false;
            },
            rw (kept, valid, write_to_peerchannel, bound.by_number) refl,
            bound.held.host,
            bound.held.port,
            refl,
          );
    }

-- After a ChannelBind request that is answered with success on linked tables, the channel number and the
-- peer address of the request carry data both ways, as long as the allocation is valid.
pub handle_channel_bind-Carries :
    (server : TurnServer) (ss : Session) (buf : Memory) (len : ℕ)
    → AllBytes buf
    → IsLinked ss.alloc
    → (handle_channel_bind server ss buf len).resp_constructed ≡ true
    → (handle_channel_bind server ss buf len).alloc.is_valid ≡ true
    → Carries server
        (with_alloc ss (handle_channel_bind server ss buf len).alloc)
        (read_bind server ss buf len).chnum
        (read_bind server ss buf len).peer_addr
handle_channel_bind-Carries server ss buf len bs linked answered valid =
    go (handle_channel_bind server ss buf len) answered valid
      (handle_channel_bind-Handled server ss buf len bs linked)
  where
    go :
        (out : Outcome)
        → out.resp_constructed ≡ true
        → out.alloc.is_valid ≡ true
        → Handled ss (read_bind server ss buf len) out
        → Carries server
            (with_alloc ss out.alloc)
            (read_bind server ss buf len).chnum
            (read_bind server ss buf len).peer_addr
    go out yes_out valid_out (inl (e, c, bound)) =
        Bound-Carries server (with_alloc ss out.alloc) c (read_bind server ss buf len).chnum
          (read_bind server ss buf len).peer_addr valid_out bound
    go out yes_out valid_out (inr (e, same, n)) = absurd (ground (arith, yes_out, e))
