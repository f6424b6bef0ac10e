-- ===== src/Allocation/Bind.antt =====
-- Channel binding on an allocation: the permission of the peer, the slot and the links between them.
use webrtc_caller.Base.{
  ℕ, ◌≡◌, refl, sym, ap, ◌∙◌, ◌≢◌, inl, inr, true, none, some, ==-refl, Option-cases,
}
use webrtc_caller.Stun.Types.{valid_channel}
use webrtc_caller.Addr.{IoaAddr, addr_eq_no_port, addr_get_port}
use webrtc_caller.Addr.Host.{addr_eq_no_port_refl, addr_eq_no_port_trans, addr_get_port-IsInet}
use webrtc_caller.Maps.LmMap.{LmMap}
use webrtc_caller.Maps.LmMap
use webrtc_caller.Maps.LmMap.Laws
use webrtc_caller.Allocation.{
  ChInfo, Allocation, set_chn, set_perm, bound, with_channel, new_slot, get_permission,
  ensure_permission, get_ch_info, get_turn_channel, get_ch_info_by_peer_addr, get_new_ch_info,
}
use webrtc_caller.Allocation.Linked.{IsLinked, get_permission-some, get_permission-linked}
use webrtc_caller.Allocation.Permissions.{
  granted, Granted, add_permission-Granted, Granted-IsLinked,
}
use webrtc_caller.Allocation.Channels.{
  get_ch_info-linked, get_turn_channel-linked, get_turn_channel-none, attached, Vacant, Fresh,
  IsLinked-attached, opened_with, set_chn_again, new_slot-Opened,
}

module _ (a : Allocation) (linked : IsLinked a) where
  pub get_permission-owner :
      (c : ℕ)
      → (a.chns c).allocated ≡ true
      → get_permission a (a.chns c).peer_addr ≡ some (a.chns c).owner
  get_permission-owner c used =
      get_permission-linked a linked (a.chns c).owner (a.chns c).peer_addr (linked.up c used).0
        (linked.up c used).1

  pub by_peer_addr-linked :
      (c : ℕ)
      → (a.chns c).allocated ≡ true
      → get_ch_info_by_peer_addr a (a.chns c).peer_addr ≡ some c
  unfolding get_ch_info_by_peer_addr
  by_peer_addr-linked c used =
      rw (get_permission-owner c used, get_ch_info_by_peer_addr)
        (get_turn_channel-linked a linked c used)

-- What ensure_permission leaves: a permission for the peer without a channel for its port, and the
-- channels of before.
pub record Ensured (a : Allocation) (peer : IoaAddr) (out : ℕ × Allocation) : Type 0 where
  pub linked : IsLinked out.1
  pub vacant : Vacant out.1 out.0 peer
  pub same_chns : out.1.chns ≡ a.chns
  pub same_sz : out.1.chn_sz ≡ a.chn_sz

module _ (a : Allocation) (peer : IoaAddr) (linked : IsLinked a) (port : addr_get_port peer ≢ 0)
    (unbound : get_ch_info_by_peer_addr a peer ≡ none) where
  Ensured-granted :
      (p : ℕ) (sz : ℕ → ℕ)
      → get_permission a peer ≡ none
      → Granted a peer p sz
      → Ensured a peer (p, granted a peer p sz)
  Ensured-granted p sz absent g = record {
    linked = Granted-IsLinked a peer p sz linked absent g;
    vacant = record {
      used = rw (==-refl p) refl;
      host = rw (==-refl p) (addr_eq_no_port_refl peer (addr_get_port-IsInet peer port));
      port = port;
      absent = rw (==-refl p) (LmMap.Laws.get-init (addr_get_port peer));
    };
    same_chns = refl;
    same_sz = refl;
  }

  Ensured-held : (p : ℕ) → get_permission a peer ≡ some p → Ensured a peer (p, a)
  unfolding get_ch_info_by_peer_addr
  Ensured-held p e =
      let (used, host) = get_permission-some a peer p e in
      record {
        linked = linked;
        vacant = record {
          used = used;
          host = host;
          port = port;
          absent =
              get_turn_channel-none a linked p peer used
                (rw (e, get_ch_info_by_peer_addr) at unbound);
        };
        same_chns = refl;
        same_sz = refl;
      }

  pub ensure_permission-Ensured : Ensured a peer (ensure_permission a peer)
  unfolding ensure_permission
  ensure_permission-Ensured = elim (Option-cases (get_permission a peer)) [
    | inr (p, e) ↦ rw (e, ensure_permission) (Ensured-held p e)
    | inl e ↦
        let (p, sz, g, made) = add_permission-Granted a linked peer in
        rw (e, ensure_permission, made) (Ensured-granted p sz e g)
  ]

pub ensure_permission-IsLinked :
    (a : Allocation) (peer : IoaAddr) → IsLinked a → IsLinked (ensure_permission a peer).1
unfolding ensure_permission
ensure_permission-IsLinked a peer linked = elim (Option-cases (get_permission a peer)) [
  | inr (p, e) ↦ rw (e, ensure_permission) linked
  | inl e ↦
      let (p, sz, g, made) = add_permission-Granted a linked peer in
      rw (e, ensure_permission, made) (Granted-IsLinked a peer p sz linked e g)
]

pub ensure_permission-allocated :
    (a : Allocation) (peer : IoaAddr)
    → IsLinked a
    → ((ensure_permission a peer).1.perms (ensure_permission a peer).0).allocated ≡ true
unfolding ensure_permission
ensure_permission-allocated a peer linked = elim (Option-cases (get_permission a peer)) [
  | inr (p, e) ↦ rw (e, ensure_permission) (get_permission-some a peer p e).0
  | inl e ↦
      let (p, sz, g, made) = add_permission-Granted a linked peer in
      rw (e, ensure_permission, made, ==-refl p) refl
]

-- A slot in use with a channel of the number, for the host and the port of the peer.
pub record Held (a : Allocation) (c chnum : ℕ) (peer : IoaAddr) : Type 0 where
  pub used : (a.chns c).allocated ≡ true
  pub number : (a.chns c).chnum ≡ chnum
  pub host : addr_eq_no_port (a.chns c).peer_addr peer ≡ true
  pub port : addr_get_port (a.chns c).peer_addr ≡ addr_get_port peer

-- What a channel binding leaves: linked tables, in which the channel is found by its number and by its
-- peer, and its permission by the peer.
pub record Bound (chnum : ℕ) (peer : IoaAddr) (out : ℕ × Allocation) : Type 0 where
  pub linked : IsLinked out.1
  pub held : Held out.1 out.0 chnum peer
  pub by_number : get_ch_info out.1 chnum ≡ some out.0
  pub by_peer : get_ch_info_by_peer_addr out.1 peer ≡ some out.0
  pub permitted : get_permission out.1 peer ≡ some (out.1.chns out.0).owner

get_turn_channel_port :
    (a : Allocation) (p : ℕ) (b b' : IoaAddr)
    → addr_get_port b ≡ addr_get_port b'
    → get_turn_channel a p b ≡ get_turn_channel a p b'
unfolding get_turn_channel
get_turn_channel_port a p b b' e = rw (e, get_turn_channel) refl

pub Held-Bound :
    (a : Allocation) (c chnum : ℕ) (peer : IoaAddr)
    → IsLinked a
    → Held a c chnum peer
    → Bound chnum peer (c, a)
unfolding get_ch_info_by_peer_addr
Held-Bound a c chnum peer linked held =
    let p = (a.chns c).owner in
    let (perm_used, perm_host, found, valid) = linked.up c held.used in
    let host : addr_eq_no_port (a.perms p).addr peer ≡ true =
      addr_eq_no_port_trans (a.perms p).addr (a.chns c).peer_addr peer perm_host ∙ held.host in
    let permitted = get_permission-linked a linked p peer perm_used host in
    record {
      linked = linked;
      held = held;
      by_number = rw held.number at (get_ch_info-linked a linked c held.used);
      by_peer =
          rw (permitted, get_ch_info_by_peer_addr)
            (get_turn_channel_port a p peer (a.chns c).peer_addr (sym held.port)
              ∙ get_turn_channel-linked a linked c held.used);
      permitted = permitted;
    }

Bound-attached :
    (a : Allocation) (p c chnum : ℕ) (peer : IoaAddr) (info : ChInfo) (sz : ℕ → ℕ)
    → Fresh p chnum peer info
    → addr_get_port peer ≢ 0
    → IsLinked (attached a p c info sz)
    → Bound chnum peer (c, attached a p c info sz)
Bound-attached a p c chnum peer info sz fresh port linked =
    Held-Bound (attached a p c info sz) c chnum peer linked (record {
      used = rw (==-refl c) fresh.used;
      number = rw (==-refl c) fresh.number;
      host =
          rw (==-refl c, fresh.peer) (addr_eq_no_port_refl peer (addr_get_port-IsInet peer port));
      port = rw (==-refl c, fresh.peer) refl;
    })

-- The two steps of get_new_ch_info after the permission.
abbrev bind_at : ℕ → ℕ → IoaAddr → ℕ × Allocation → ℕ × Allocation
bind_at p chnum peer (c, a) =
    let a' = set_chn a c (bound (a.chns c) chnum peer p) in
    (c, set_perm a' p (with_channel (a'.perms p) (addr_get_port peer) c))

get_new_ch_info-bind_at :
    (a : Allocation) (chnum : ℕ) (peer : IoaAddr)
    → get_new_ch_info a chnum peer
      ≡ bind_at
          (ensure_permission a peer).0
          chnum
          peer
          (new_slot (ensure_permission a peer).1 chnum)
unfolding get_new_ch_info
get_new_ch_info-bind_at a chnum peer = refl

bind_at-attached :
    (a : Allocation) (p c chnum : ℕ) (peer : IoaAddr) (old : ChInfo) (sz : ℕ → ℕ)
    → bind_at p chnum peer (c, opened_with a c old sz)
      ≡ (c, attached a p c (bound old chnum peer p) sz)
bind_at-attached a p c chnum peer old sz = rw (==-refl c) (
    ap (λ b. (c, set_perm b p (with_channel (a.perms p) (addr_get_port peer) c)))
      (set_chn_again a c old (bound old chnum peer p) sz))

get_ch_info_same :
    (a b : Allocation) (chnum : ℕ)
    → a.chns ≡ b.chns
    → a.chn_sz ≡ b.chn_sz
    → get_ch_info a chnum ≡ get_ch_info b chnum
unfolding get_ch_info
get_ch_info_same a b chnum e f = rw (e, f) refl

bind_at-Bound :
    (a : Allocation) (p chnum : ℕ) (peer : IoaAddr)
    → IsLinked a
    → Vacant a p peer
    → get_ch_info a chnum ≡ none
    → valid_channel chnum ≡ true
    → Bound chnum peer (bind_at p chnum peer (new_slot a chnum))
bind_at-Bound a p chnum peer linked vacant unknown valid =
    let (c, old, sz, opened, made) = new_slot-Opened a linked chnum in
    let info = bound old chnum peer p in
    let fresh : Fresh p chnum peer info = record {
      used = refl;
      number = refl;
      peer = refl;
      owner = refl;
      port = refl;
    } in
    rw (made, bind_at-attached a p c chnum peer old sz)
      (Bound-attached a p c chnum peer info sz fresh vacant.port
        (IsLinked-attached a p c chnum peer info sz linked vacant opened fresh unknown valid))

-- On linked tables, a valid channel number without a channel and a peer with a port and without a
-- channel are bound to each other: the tables stay linked, the new channel is found by its number and
-- by its peer, and the permission of the peer is the owner of the channel.
pub get_new_ch_info-Bound :
    (a : Allocation) (chnum : ℕ) (peer : IoaAddr)
    → IsLinked a
    → valid_channel chnum ≡ true
    → addr_get_port peer ≢ 0
    → get_ch_info a chnum ≡ none
    → get_ch_info_by_peer_addr a peer ≡ none
    → Bound chnum peer (get_new_ch_info a chnum peer)
get_new_ch_info-Bound a chnum peer linked valid port unknown unbound =
    let ensured = ensure_permission-Ensured a peer linked port unbound in
    let (p, a1) = ensure_permission a peer in
    rw (get_new_ch_info-bind_at a chnum peer) (
      bind_at-Bound a1 p chnum peer ensured.linked ensured.vacant
        (get_ch_info_same a1 a chnum ensured.same_chns ensured.same_sz ∙ unknown) valid)
