-- ===== src/Server/Handlers.antt =====
-- The handlers of ChannelBind and CreatePermission over the bytes of a request, on linked tables.
use webrtc_caller.Base.{
  ℕ, zero, suc, ◌<◌, ◌≡◌, refl, sym, ◌∙◌, ◌≢◌, ◌⊎◌, inl, inr, Bool, true, false, not, ◌||◌, Option,
  none, some, List, [], arith, ltb, ◌==◌, by_if, Bool-cases, length, Memory, AllBytes,
}
use webrtc_caller.Stun.Types.{valid_channel}
use webrtc_caller.Stun.Attr.{attr_type, get_first, next_from}
use webrtc_caller.Addr.{IoaAddr, addr_any, addr_get_port, addr_set_port}
use webrtc_caller.Allocation.{Allocation, ensure_permission, get_turn_channel}
use webrtc_caller.Allocation.Linked.{IsLinked}
use webrtc_caller.Allocation.Bind.{Bound, ensure_permission-IsLinked, ensure_permission-allocated}
use webrtc_caller.Server.{
  TurnServer, Session, update_turn_permission_lifetime, update_channel_lifetime, update_permission,
  refresh_found, refresh_channel,
}
use webrtc_caller.Server.Same.{Same-IsLinked}
use webrtc_caller.Allocation.Channels.{get_turn_channel-some}
use webrtc_caller.Server.Links.{
  timed_perm, Same-timed_perm, permission_lifetime-owned, channel_lifetime-linked,
}
use webrtc_caller.Server.Binding.{Answered, bind_channel-Answered}
use webrtc_caller.Server.PeerPort.{attr_get_addr-port}
use webrtc_caller.Server.Requests.{
  Outcome, refused_outcome, walk, BindRequest, bind_more, bind_start, bind_visit, read_bind,
  bind_channel, handle_channel_bind, skip_attribute, attribute_xor_peer_address, attr_get_addr,
  check_permissions, update_visit, update_permissions, handle_create_permission,
}

-- What every visit keeps holds after the loop.
pub walk-keeps {ℓ} :
    {S : Type ℓ} (P : S → Type 0) (more : S → Bool) (visit : ℕ → S → S)
    → ((a : ℕ) (s : S) → P s → P (visit a s))
    → (fuel : ℕ) (buf : Memory) (len : ℕ) (cur : Option ℕ) (s : S) → P s
    → P (walk more visit fuel buf len cur s)
unfolding walk
walk-keeps P more visit keeps zero buf len none s h = h
walk-keeps P more visit keeps (suc fuel) buf len none s h = h
walk-keeps P more visit keeps zero buf len (some a) s h = h
walk-keeps P more visit keeps (suc fuel) buf len (some a) s h =
    let later =
      walk-keeps P more visit keeps fuel buf len (next_from buf len a) (visit a s) (keeps a s h) in
    elim (Bool-cases (more s)) [ inl yes_more ↦ rw yes_more later | inr no_more ↦ rw no_more h ]

-- A peer that is found without an error has a port, and no more than 16 bits of it.
abbrev FoundPort : BindRequest → Type 0
FoundPort r =
    ((r.err_code ≢ 0) ⊎ (r.addr_found ≡ false) ⊎ (addr_get_port r.peer_addr ≢ 0))
    × (addr_get_port r.peer_addr < 65536)

bind_visit-FoundPort :
    (server : TurnServer) (ss : Session) (buf : Memory) (a : ℕ) (r : BindRequest)
    → AllBytes buf
    → FoundPort r
    → FoundPort (bind_visit server ss buf a r)
unfolding bind_visit
bind_visit-FoundPort server ss buf a r bs h =
    ground (arith, h, attr_get_addr-port server.mappings buf a bs)

start-FoundPort : FoundPort bind_start
unfolding addr_get_port
start-FoundPort = (inr (inl refl), ground arith)

read_bind-FoundPort :
    (server : TurnServer) (ss : Session) (buf : Memory) (len : ℕ)
    → AllBytes buf
    → FoundPort (read_bind server ss buf len)
unfolding read_bind
read_bind-FoundPort server ss buf len bs =
    walk-keeps FoundPort bind_more (bind_visit server ss buf)
      (λ a r h. bind_visit-FoundPort server ss buf a r bs h) len buf len (get_first buf len)
      bind_start start-FoundPort

FoundPort-port :
    (r : BindRequest)
    → FoundPort r
    → not (r.err_code == 0) ≡ false
    → (r.chnum == 0 || addr_any r.peer_addr || not r.addr_found) ≡ false
    → addr_get_port r.peer_addr ≢ 0
FoundPort-port r (found, low) fine whole = ground (arith, found, fine, whole)

-- What a ChannelBind request leaves behind: a response of success, with the channel bound, or an
-- allocation as it was, with an error code other than 500.
abbrev pub Handled : Session → BindRequest → Outcome → Type 0
Handled ss r out =
    ((out.resp_constructed ≡ true) × (c : ℕ) × Bound r.chnum r.peer_addr (c, out.alloc))
    ⊎ ((out.resp_constructed ≡ false) × (out.alloc ≡ ss.alloc) × (out.err_code ≢ 500))

Handled-Answered :
    (server : TurnServer) (ss : Session) (r : BindRequest) (out : ℕ × Allocation)
    → Answered server ss.realm ss.alloc r.chnum r.peer_addr out
    → Handled ss r (record {
      err_code = out.0;
      unknown_attrs = [];
      resp_constructed = out.0 == 0;
      alloc = out.1;
    })
Handled-Answered server ss r out (inl (c, e, bound)) = inl (ground (arith, e), c, bound)
Handled-Answered server ss r out (inr (inl (e, same))) =
    inr (ground (arith, e), same, λ n. omega (arith, e, n))
Handled-Answered server ss r out (inr (inr (e, same, bad))) =
    inr (ground (arith, e), same, λ n. omega (arith, e, n))

Handled-refused :
    (ss : Session) (r : BindRequest) (err : ℕ) (ua : List ℕ)
    → err ≢ 500
    → Handled ss r (refused_outcome ss err ua)
Handled-refused ss r err ua n = inr (refl, refl, n)

-- The loop of handle_turn_channel_bind has no internal error.
bind_visit-err :
    (server : TurnServer) (ss : Session) (buf : Memory) (a : ℕ) (r : BindRequest)
    → r.err_code ≢ 500
    → (bind_visit server ss buf a r).err_code ≢ 500
unfolding bind_visit
bind_visit-err server ss buf a r h = ground (arith, h)

read_bind-err :
    (server : TurnServer) (ss : Session) (buf : Memory) (len : ℕ)
    → (read_bind server ss buf len).err_code ≢ 500
unfolding read_bind
read_bind-err server ss buf len =
    walk-keeps (λ r. r.err_code ≢ 500) bind_more (bind_visit server ss buf)
      (bind_visit-err server ss buf) len buf len (get_first buf len) bind_start
      (λ e. omega (arith, e))

-- On linked tables a ChannelBind request either is answered with success, and then the tables are
-- linked, the channel number of the request and its peer address find one channel, and the permission
-- of the peer is its owner; or it changes nothing and has no error 500.
pub handle_channel_bind-Handled :
    (server : TurnServer) (ss : Session) (buf : Memory) (len : ℕ)
    → AllBytes buf
    → IsLinked ss.alloc
    → Handled ss (read_bind server ss buf len) (handle_channel_bind server ss buf len)
unfolding handle_channel_bind
handle_channel_bind-Handled server ss buf len bs linked =
    let r = read_bind server ss buf len in
    let found = read_bind-FoundPort server ss buf len bs in
    let no_error = λ (err : ℕ) (ua : List ℕ) (n : err ≢ 500). Handled-refused ss r err ua n in
    by_if (Handled ss r) ss.is_tcp_relay _ _ (λ z. no_error 403 [] (λ e. omega (arith, e)))
      (λ z.
        by_if (Handled ss r) (not ss.alloc.is_valid) _ _
          (λ z. no_error 0 [] (λ e. omega (arith, e)))
          (λ z.
            by_if (Handled ss r) (ltb 0 (length r.unknown_attrs)) _ _
              (λ z. no_error 420 r.unknown_attrs (λ e. omega (arith, e)))
              (λ z.
                by_if (Handled ss r) (not (r.err_code == 0)) _ _
                  (λ z. no_error r.err_code [] (read_bind-err server ss buf len))
                  (λ fine.
                    by_if (Handled ss r) (r.chnum == 0 || addr_any r.peer_addr || not r.addr_found)
                      _ _ (λ z. no_error 400 [] (λ e. omega (arith, e)))
                      (λ whole.
                        by_if (Handled ss r) (not (valid_channel r.chnum)) _ _
                          (λ z. no_error 400 [] (λ e. omega (arith, e)))
                          (λ valid.
                            Handled-Answered server ss r
                              (bind_channel server ss.realm ss.alloc r.chnum r.peer_addr)
                              (bind_channel-Answered server ss.realm ss.alloc r.chnum r.peer_addr
                                linked (ground (arith, valid)) (FoundPort-port r found fine whole)
                                found.1)))))))

refresh_found-IsLinked :
    (server : TurnServer) (a : Allocation) (p : ℕ) (peer : IoaAddr) (found : Option ℕ)
    → IsLinked a
    → (a.perms p).allocated ≡ true
    → get_turn_channel a p peer ≡ found
    → ((refresh_found server found a).0 ≡ true) × IsLinked (refresh_found server found a).1
refresh_found-IsLinked server a p peer none linked used e = (refl, linked)
refresh_found-IsLinked server a p peer (some c) linked used e =
    let (used_c, owner, port) = get_turn_channel-some a linked p c peer used e in
    let (accepted, same) = channel_lifetime-linked server a c linked used_c in
    (accepted, Same-IsLinked a (update_channel_lifetime server a c).1 same linked)

pub update_permission-refresh :
    (server : TurnServer) (a : Allocation) (peer : IoaAddr)
    → update_permission server a peer
      ≡ refresh_channel server (ensure_permission a peer).0 peer (
          update_turn_permission_lifetime server
            (ensure_permission a peer).1
            (ensure_permission a peer).0
            0)
unfolding update_permission
update_permission-refresh server a peer = refl

pub update_permission-IsLinked :
    (server : TurnServer) (a : Allocation) (peer : IoaAddr)
    → IsLinked a
    → ((update_permission server a peer).0 ≡ true) × IsLinked (update_permission server a peer).1
update_permission-IsLinked server a peer linked =
    let p = (ensure_permission a peer).0 in
    let a1 = (ensure_permission a peer).1 in
    let linked1 = ensure_permission-IsLinked a peer linked in
    let used = ensure_permission-allocated a peer linked in
    let a2 = timed_perm server a1 p 0 in
    let same = Same-timed_perm server a1 p 0 in
    rw
      (
        update_permission-refresh server a peer,
        permission_lifetime-owned server a1 p 0 (linked1.owned p used),
      )
      (refresh_found-IsLinked server a2 p peer (get_turn_channel a2 p peer)
        (Same-IsLinked a1 a2 same linked1) (sym (same.perm p).0 ∙ used) refl)

pub update_visit-IsLinked :
    (server : TurnServer) (buf : Memory) (a : ℕ) (s : ℕ × Allocation)
    → (s.0 ≡ 0) × IsLinked s.1
    → ((update_visit server buf a s).0 ≡ 0) × IsLinked (update_visit server buf a s).1
unfolding update_visit
update_visit-IsLinked server buf a (err, alloc) (none_yet, linked) =
    let P = λ (s : ℕ × Allocation). (s.0 ≡ 0) × IsLinked s.1 in
    let peer = addr_set_port (attr_get_addr server.mappings buf a none).1 0 in
    let (ok, linked') = update_permission-IsLinked server alloc peer linked in
    by_if P (skip_attribute (attr_type buf a)) _ _ (λ z. (none_yet, linked))
      (λ z.
        by_if P (attr_type buf a == attribute_xor_peer_address) _ _
          (λ z.
            by_if P (update_permission server alloc peer).0 _ _ (λ z. (none_yet, linked'))
              (λ bad. cc (ok, bad)))
          (λ z. (none_yet, linked)))

-- What a CreatePermission request leaves behind: linked tables, and either a response of success or an
-- allocation as it was.
abbrev pub Created : Session → Outcome → Type 0
Created ss out =
    IsLinked out.alloc
    × (((out.resp_constructed ≡ true) × (out.err_code ≡ 0))
        ⊎ ((out.resp_constructed ≡ false) × (out.alloc ≡ ss.alloc)))

Created-refused :
    (ss : Session)
    → IsLinked ss.alloc
    → (err : ℕ) (ua : List ℕ) → Created ss (refused_outcome ss err ua)
Created-refused ss linked err ua = (linked, inr (refl, refl))

-- On linked tables a CreatePermission request leaves linked tables, and either it is answered with
-- success or it changes nothing. The internal error 500 of its second loop does not happen.
pub handle_create_permission-Created :
    (server : TurnServer) (ss : Session) (buf : Memory) (len : ℕ)
    → IsLinked ss.alloc
    → Created ss (handle_create_permission server ss buf len)
unfolding handle_create_permission update_permissions
handle_create_permission-Created server ss buf len linked =
    let r = check_permissions server ss buf len in
    let unchanged = Created-refused ss linked in
    by_if (Created ss) (not ss.alloc.is_valid) _ _ (λ z. unchanged 0 [])
      (λ z.
        by_if (Created ss) (ltb 0 (length r.unknown_attrs)) _ _ (λ z. unchanged 420 r.unknown_attrs)
          (λ z.
            by_if (Created ss) (not (r.err_code == 0)) _ _ (λ z. unchanged r.err_code [])
              (λ z.
                by_if (Created ss) (r.addr_found == 0) _ _ (λ z. unchanged 400 [])
                  (λ z.
                    let (fine, linked') =
                      walk-keeps (λ s. (s.0 ≡ 0) × IsLinked s.1) (λ s. true)
                        (update_visit server buf) (update_visit-IsLinked server buf) len buf len
                        (get_first buf len) (0, ss.alloc) (refl, linked) in
                    (linked', inl (ground (arith, fine), fine))))))
