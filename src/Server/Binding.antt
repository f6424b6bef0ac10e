-- ===== src/Server/Binding.antt =====
-- The last part of handle_turn_channel_bind, and update_permission, on linked tables.
use webrtc_caller.Base.{
  ℕ, ◌<◌, ◌≡◌, refl, sym, ap, ◌∙◌, ◌≢◌, ◌⊎◌, inl, inr, true, false, none, some, List, arith, ◌==◌,
  if◌then◌else◌, Bool-cases, Option-cases,
}
use webrtc_caller.Stun.Types.{valid_channel}
use webrtc_caller.Addr.{IoaAddr, addr_eq, addr_eq_no_port, addr_get_port}
use webrtc_caller.Addr.Host.{addr_eq_no_port-addr_eq, addr_eq_no_port-sym, addr_eq_no_port_trans}
use webrtc_caller.Allocation.{Allocation, get_ch_info, get_ch_info_by_peer_addr, get_new_ch_info}
use webrtc_caller.Allocation.Linked.{IsLinked}
use webrtc_caller.Allocation.Channels.{get_ch_info-some}
use webrtc_caller.Allocation.Bind.{Held, Bound, Held-Bound, get_new_ch_info-Bound}
use webrtc_caller.Server.{TurnServer, good_peer_addr, update_channel_lifetime}
use webrtc_caller.Server.Same.{Same-IsLinked}
use webrtc_caller.Server.Links.{channel_lifetime-linked, Same-Held, channel_owner}
use webrtc_caller.Server.Requests.{select_channel, finish_bind, bind_channel}

-- The error code and the allocation of a request for a channel: a channel that is bound, or a refusal
-- that changes nothing.
abbrev pub Answered : TurnServer → List ℕ → Allocation → ℕ → IoaAddr → ℕ × Allocation → Type 0
Answered server realm a chnum peer out =
    ((c : ℕ) × (out.0 ≡ 0) × Bound chnum peer (c, out.1))
    ⊎ ((out.0 ≡ 400) × (out.1 ≡ a))
    ⊎ ((out.0 ≡ 403) × (out.1 ≡ a) × (good_peer_addr server realm peer ≡ false))

module _ (server : TurnServer) (realm : List ℕ) (a : Allocation) (chnum : ℕ) (peer : IoaAddr)
    (linked : IsLinked a) where
  bind_channel-finish :
      bind_channel server realm a chnum peer
      ≡ finish_bind server (select_channel server realm a chnum peer)
  unfolding bind_channel
  bind_channel-finish = refl

  -- A channel that is held is given its lifetime.
  timed_answer :
      (a' : Allocation) (c : ℕ)
      → IsLinked a'
      → Held a' c chnum peer
      → select_channel server realm a chnum peer ≡ (inr c, a')
      → Answered server realm a chnum peer (bind_channel server realm a chnum peer)
  timed_answer a' c linked' held e =
      let (accepted, same) = channel_lifetime-linked server a' c linked' held.used in
      let a2 = (update_channel_lifetime server a' c).1 in
      rw (bind_channel-finish, e, accepted)
        (inl (
          c,
          refl,
          Held-Bound a2 c chnum peer (Same-IsLinked a' a2 same linked')
              (Same-Held a' a2 c chnum peer same held),
        ))

  refused_answer :
      (err : ℕ)
      → select_channel server realm a chnum peer ≡ (inl err, a)
      → bind_channel server realm a chnum peer ≡ (err, a)
  refused_answer err e = bind_channel-finish ∙ ap (finish_bind server) e

  -- A channel of the number is refreshed for its own peer only.
  select_refresh :
      (c : ℕ)
      → addr_get_port peer < 65536
      → get_ch_info a chnum ≡ some c
      → select_channel server realm a chnum peer
        ≡ (if addr_eq peer (a.chns c).peer_addr then (inr c, a) else (inl 400, a))
  unfolding select_channel
  select_refresh c low e =
      let (used, number) = get_ch_info-some a chnum c e in
      let (n, owned) = channel_owner a c linked used in
      let (perm_used, host, found, valid) = linked.up c used in
      let p = (a.chns c).owner in
      elim (Bool-cases (addr_eq peer (a.chns c).peer_addr)) [
        | inr other ↦ rw (e, select_channel, other) refl
        | inl same ↦
            let (same_host, same_port) = addr_eq_no_port-addr_eq peer (a.chns c).peer_addr same in
            let perm_host : addr_eq_no_port peer (a.perms p).addr ≡ true =
              addr_eq_no_port_trans peer (a.chns c).peer_addr (a.perms p).addr same_host
              ∙ addr_eq_no_port-sym (a.chns c).peer_addr (a.perms p).addr
              ∙ host in
            let some_owner : (p == 0) ≡ false = ground (arith, n) in
            let port : ((a.chns c).port == addr_get_port peer) ≡ true =
              ground (arith, linked.ports c used, same_port, low) in
            rw (e, select_channel, same, some_owner, perm_host, port) refl
      ]

  select_new :
      valid_channel chnum ≡ true
      → addr_get_port peer ≢ 0
      → get_ch_info a chnum ≡ none
      → get_ch_info_by_peer_addr a peer ≡ none
      → good_peer_addr server realm peer ≡ true
      → select_channel server realm a chnum peer
        ≡ (inr (get_new_ch_info a chnum peer).0, (get_new_ch_info a chnum peer).1)
  unfolding select_channel
  select_new valid port unknown unbound good =
      let bound = get_new_ch_info-Bound a chnum peer linked valid port unknown unbound in
      let (c, a') = get_new_ch_info a chnum peer in
      let (n, owned) = channel_owner a' c bound.linked bound.held.used in
      let some_owner : ((a'.chns c).owner == 0) ≡ false = ground (arith, n) in
      rw (unknown, unbound, select_channel, good, some_owner) refl

  select_refused :
      (err : ℕ)
      → get_ch_info a chnum ≡ none
      → ((c : ℕ) × (get_ch_info_by_peer_addr a peer ≡ some c) × (err ≡ 400))
        ⊎ ((get_ch_info_by_peer_addr a peer ≡ none)
            × (good_peer_addr server realm peer ≡ false)
            × (err ≡ 403))
      → select_channel server realm a chnum peer ≡ (inl err, a)
  unfolding select_channel
  select_refused err unknown (inl (c, found, e)) = rw (unknown, found, select_channel, e) refl
  select_refused err unknown (inr (absent, bad, e)) =
      rw (unknown, absent, select_channel, bad, e) refl

  answer_known :
      (c : ℕ)
      → addr_get_port peer < 65536
      → get_ch_info a chnum ≡ some c
      → Answered server realm a chnum peer (bind_channel server realm a chnum peer)
  answer_known c low e = elim (Bool-cases (addr_eq peer (a.chns c).peer_addr)) [
    | inr other ↦
        rw (refused_answer 400 (rw other at (select_refresh c low e))) (inr (inl (refl, refl)))
    | inl same ↦
        let (used, number) = get_ch_info-some a chnum c e in
        let (host, port) = addr_eq_no_port-addr_eq peer (a.chns c).peer_addr same in
        timed_answer a c linked
          (record {
            used = used;
            number = number;
            host = addr_eq_no_port-sym (a.chns c).peer_addr peer ∙ host;
            port = sym port;
          })
          (rw same at (select_refresh c low e))
  ]

  answer_unknown :
      valid_channel chnum ≡ true
      → addr_get_port peer ≢ 0
      → get_ch_info a chnum ≡ none
      → Answered server realm a chnum peer (bind_channel server realm a chnum peer)
  answer_unknown valid port unknown = elim (Option-cases (get_ch_info_by_peer_addr a peer)) [
    | inr (c, e) ↦
        rw (refused_answer 400 (select_refused 400 unknown (inl (c, e, refl))))
          (inr (inl (refl, refl)))
    | inl unbound ↦ elim (Bool-cases (good_peer_addr server realm peer)) [
      | inr bad ↦
          rw (refused_answer 403 (select_refused 403 unknown (inr (unbound, bad, refl))))
            (inr (inr (refl, refl, bad)))
      | inl good ↦
          let bound = get_new_ch_info-Bound a chnum peer linked valid port unknown unbound in
          timed_answer (get_new_ch_info a chnum peer).1 (get_new_ch_info a chnum peer).0
            bound.linked bound.held (select_new valid port unknown unbound good)
    ]
  ]

-- On linked tables a ChannelBind request for a valid channel number and a peer with a port of 16 bits
-- that is not 0 is answered in one of three ways. It succeeds, and leaves linked tables in which a
-- channel is found by the number and by the peer and the permission of the peer is the owner of the
-- channel; or the error is 400 or 403 and nothing is changed, where 403 is only for a peer that
-- good_peer_addr refuses. The internal errors 500 do not happen.
pub bind_channel-Answered :
    (server : TurnServer) (realm : List ℕ) (a : Allocation) (chnum : ℕ) (peer : IoaAddr)
    → IsLinked a
    → valid_channel chnum ≡ true
    → addr_get_port peer ≢ 0
    → addr_get_port peer < 65536
    → Answered server realm a chnum peer (bind_channel server realm a chnum peer)
bind_channel-Answered server realm a chnum peer linked valid port low =
    elim (Option-cases (get_ch_info a chnum)) [
      | inr (c, e) ↦ answer_known server realm a chnum peer linked c low e
      | inl e ↦ answer_unknown server realm a chnum peer linked valid port e
    ]
