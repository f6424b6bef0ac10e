-- ===== src/Server/Requests.antt =====
-- ChannelBind and CreatePermission requests: handle_turn_channel_bind and handle_turn_create_permission
-- of coturn/src/server/ns_turn_server.c. The channels of the kernel are left out, and an unknown
-- attribute is noted by its type. The error code of a request is 0 before its handler.
use webrtc_caller.Base.{
  ℕ, zero, suc, ◌+◌, ◌⊎◌, inl, inr, Bool, true, false, not, ◌&&◌, ◌||◌, Option, none, some, List,
  [], ◌∷◌, ◌++◌, ltb, leb, ◌==◌, if◌then◌else◌, length, Memory,
}
use webrtc_caller.Stun.Types.{valid_channel}
use webrtc_caller.Stun.Header.{magic_cookie, tid_from_message}
use webrtc_caller.Stun.Attr.{attr_type, attr_len, attr_value, get_first, next_from}
use webrtc_caller.Stun.Request.{attribute_channel_number, channel_number}
use webrtc_caller.Addr.{
  IoaAddr, Mappings, addr_set_any, addr_any, addr_any_no_port, addr_eq, addr_eq_no_port,
  addr_get_port, addr_set_port, public_to_private,
}
use webrtc_caller.Addr.Codec.{decode}
use webrtc_caller.Allocation.{Allocation, get_ch_info, get_ch_info_by_peer_addr, get_new_ch_info}
use webrtc_caller.Server.{
  TurnServer, Session, get_relay_socket, good_peer_addr, update_channel_lifetime, update_permission,
}

abbrev pub attribute_xor_mapped_address : ℕ
attribute_xor_mapped_address = 0x0020

abbrev pub attribute_xor_peer_address : ℕ
attribute_xor_peer_address = 0x0012

abbrev pub attribute_xor_relayed_address : ℕ
attribute_xor_relayed_address = 0x0016

abbrev pub max_number_of_unknown_attrs : ℕ
max_number_of_unknown_attrs = 128

-- SKIP_ATTRIBUTES
abbrev pub skip_attribute : ℕ → Bool
skip_attribute t =
    t == 0x001B
    || t == 0x0024
    || t == 0x8028
    || t == 0x0008
    || t == 0x0006
    || t == 0x0014
    || t == 0x0015
    || t == 0x802F

-- The types of attributes whose address is XORed.
abbrev pub xor_form : ℕ → Bool
xor_form t =
    t == attribute_xor_mapped_address
    || t == attribute_xor_peer_address
    || t == attribute_xor_relayed_address

-- stun_attr_get_addr_str: what it returns, and the address that it writes.
unfoldable pub attr_get_addr : Mappings → Memory → ℕ → Option IoaAddr → Bool × IoaAddr
unfolding attr_value decode public_to_private addr_any_no_port addr_set_port addr_get_port
    tid_from_message
attr_get_addr m buf a default_addr = elim (attr_value buf a) [
  | none ↦ (false, addr_set_any)
  | some v ↦
      elim (decode (xor_form (attr_type buf a)) magic_cookie (tid_from_message buf) addr_set_any
        (λ i. buf (v + i)) (attr_len buf a)) [
          | none ↦ (false, addr_set_any)
          | some public_addr ↦
              let ca = public_to_private m public_addr in
              elim default_addr [
                | none ↦ (true, ca)
                | some d ↦
                    if addr_any_no_port ca && not (addr_any_no_port d)
                    then (true, addr_set_port d (addr_get_port ca))
                    else (true, ca)
              ]
        ]
]

-- The loop over the attributes on fuel, as long as a test of the state holds.
unfoldable pub walk {ℓ} :
    {S : Type ℓ} → (S → Bool) → (ℕ → S → S) → ℕ → Memory → ℕ → Option ℕ → S → S
walk more visit fuel buf len none s = s
walk more visit zero buf len (some a) s = s
walk more visit (suc fuel) buf len (some a) s =
    let rest = walk more visit fuel buf len (next_from buf len a) (visit a s) in
    if more s then rest else s

-- The variables of the loop of handle_turn_channel_bind.
pub record BindRequest : Type 0 where
  pub err_code : ℕ
  pub unknown_attrs : List ℕ
  pub chnum : ℕ
  pub peer_addr : IoaAddr
  pub addr_found : Bool

abbrev pub bind_more : BindRequest → Bool
bind_more r = r.err_code == 0 && ltb (length r.unknown_attrs) max_number_of_unknown_attrs

unfoldable pub bind_visit : TurnServer → Session → Memory → ℕ → BindRequest → BindRequest
unfolding channel_number attr_get_addr addr_get_port
bind_visit server ss buf a r =
    let t = attr_type buf a in
    if skip_attribute t
    then r
    else if t == attribute_channel_number
    then (if not (r.chnum == 0)
        then record r { chnum = 0; err_code = 400 }
        else (let n = channel_number buf (some a) in
            record r { chnum = n; err_code = if n == 0 then 400 else r.err_code }))
    else if t == attribute_xor_peer_address
    then (let (ok, peer) = attr_get_addr server.mappings buf a none in
        let err = if get_relay_socket ss peer.family then r.err_code else 443 in
        if ltb (addr_get_port peer) 1
        then record r { peer_addr = peer; err_code = 400 }
        else record r { peer_addr = peer; err_code = err; addr_found = true })
    else if leb t 0x7FFF
    then record r { unknown_attrs = r.unknown_attrs ++ (t ∷ []) }
    else r

abbrev pub bind_start : BindRequest
bind_start = record {
  err_code = 0;
  unknown_attrs = [];
  chnum = 0;
  peer_addr = addr_set_any;
  addr_found = false;
}

unfoldable pub read_bind : TurnServer → Session → Memory → ℕ → BindRequest
unfolding walk bind_visit get_first
read_bind server ss buf len =
    walk bind_more (bind_visit server ss buf) len buf len (get_first buf len) bind_start

-- The channel of a request, and the error code where there is none.
unfoldable pub select_channel :
    TurnServer → List ℕ → Allocation → ℕ → IoaAddr → (ℕ ⊎ ℕ) × Allocation
unfolding get_ch_info get_ch_info_by_peer_addr get_new_ch_info addr_eq addr_eq_no_port addr_get_port
    good_peer_addr
select_channel server realm a chnum peer = elim (get_ch_info a chnum) [
  | some c ↦
      let p = (a.chns c).owner in
      if not (addr_eq peer (a.chns c).peer_addr)
      then (inl 400, a)
      else if p == 0
      then (inl 500, a)
      else if not (addr_eq_no_port peer (a.perms p).addr)
      then (inl 500, a)
      else if not ((a.chns c).port == addr_get_port peer)
      then (inl 500, a)
      else (inr c, a)
  | none ↦ elim (get_ch_info_by_peer_addr a peer) [
    | some c ↦ (inl 400, a)
    | none ↦
        if not (good_peer_addr server realm peer)
        then (inl 403, a)
        else (let (c, a') = get_new_ch_info a chnum peer in
            if (a'.chns c).owner == 0 then (inl 500, a') else (inr c, a'))
  ]
]

-- The error code, 0 for the response of success, and the allocation: a channel is given its lifetime.
abbrev pub finish_bind : TurnServer → (ℕ ⊎ ℕ) × Allocation → ℕ × Allocation
finish_bind server (inl err, a) = (err, a)
finish_bind server (inr c, a) =
    let (ok, a') = update_channel_lifetime server a c in if ok then (0, a') else (500, a')

unfoldable pub bind_channel : TurnServer → List ℕ → Allocation → ℕ → IoaAddr → ℕ × Allocation
unfolding select_channel update_channel_lifetime
bind_channel server realm a chnum peer =
    finish_bind server (select_channel server realm a chnum peer)

-- What a handler leaves behind: the error code, the unknown attributes, whether a response of success
-- is made, and the allocation.
pub record Outcome : Type 0 where
  pub err_code : ℕ
  pub unknown_attrs : List ℕ
  pub resp_constructed : Bool
  pub alloc : Allocation

abbrev pub refused_outcome : Session → ℕ → List ℕ → Outcome
refused_outcome ss err ua = record {
  err_code = err;
  unknown_attrs = ua;
  resp_constructed = false;
  alloc = ss.alloc;
}

unfoldable pub handle_channel_bind : TurnServer → Session → Memory → ℕ → Outcome
unfolding read_bind bind_channel addr_any
handle_channel_bind server ss buf len =
    let r = read_bind server ss buf len in
    if ss.is_tcp_relay
    then refused_outcome ss 403 []
    else if not ss.alloc.is_valid
    then refused_outcome ss 0 []
    else if ltb 0 (length r.unknown_attrs)
    then refused_outcome ss 420 r.unknown_attrs
    else if not (r.err_code == 0)
    then refused_outcome ss r.err_code []
    else if r.chnum == 0 || addr_any r.peer_addr || not r.addr_found
    then refused_outcome ss 400 []
    else if not (valid_channel r.chnum)
    then refused_outcome ss 400 []
    else (let (err, a) = bind_channel server ss.realm ss.alloc r.chnum r.peer_addr in
        record { err_code = err; unknown_attrs = []; resp_constructed = err == 0; alloc = a })

-- The first loop of handle_turn_create_permission.
pub record PermissionRequest : Type 0 where
  pub err_code : ℕ
  pub unknown_attrs : List ℕ
  pub addr_found : ℕ

abbrev pub permission_more : PermissionRequest → Bool
permission_more r = r.err_code == 0 && ltb (length r.unknown_attrs) max_number_of_unknown_attrs

unfoldable pub permission_visit :
    TurnServer → Session → Memory → ℕ → PermissionRequest → PermissionRequest
unfolding attr_get_addr good_peer_addr
permission_visit server ss buf a r =
    let t = attr_type buf a in
    if skip_attribute t
    then r
    else if t == attribute_xor_peer_address
    then (let (ok, peer) = attr_get_addr server.mappings buf a none in
        if not (get_relay_socket ss peer.family)
        then record r { err_code = 443 }
        else if not (good_peer_addr server ss.realm peer)
        then record r { err_code = 403 }
        else record r { addr_found = r.addr_found + 1 })
    else if leb t 0x7FFF
    then record r { unknown_attrs = r.unknown_attrs ++ (t ∷ []) }
    else r

abbrev pub permission_start : PermissionRequest
permission_start = record { err_code = 0; unknown_attrs = []; addr_found = 0 }

unfoldable pub check_permissions : TurnServer → Session → Memory → ℕ → PermissionRequest
unfolding walk permission_visit get_first
check_permissions server ss buf len =
    walk permission_more (permission_visit server ss buf) len buf len (get_first buf len)
      permission_start

-- The second loop, which updates the permissions; its state is the error code and the allocation.
unfoldable pub update_visit : TurnServer → Memory → ℕ → ℕ × Allocation → ℕ × Allocation
unfolding attr_get_addr update_permission addr_set_port
update_visit server buf a (err, alloc) =
    let t = attr_type buf a in
    if skip_attribute t
    then (err, alloc)
    else if t == attribute_xor_peer_address
    then (let (read, peer) = attr_get_addr server.mappings buf a none in
        let (ok, alloc') = update_permission server alloc (addr_set_port peer 0) in
        if ok then (err, alloc') else (500, alloc'))
    else (err, alloc)

unfoldable pub update_permissions : TurnServer → Session → Memory → ℕ → ℕ × Allocation
unfolding walk update_visit get_first
update_permissions server ss buf len =
    walk (λ s. true) (update_visit server buf) len buf len (get_first buf len) (0, ss.alloc)

unfoldable pub handle_create_permission : TurnServer → Session → Memory → ℕ → Outcome
unfolding check_permissions update_permissions
handle_create_permission server ss buf len =
    let r = check_permissions server ss buf len in
    if not ss.alloc.is_valid
    then refused_outcome ss 0 []
    else if ltb 0 (length r.unknown_attrs)
    then refused_outcome ss 420 r.unknown_attrs
    else if not (r.err_code == 0)
    then refused_outcome ss r.err_code []
    else if r.addr_found == 0
    then refused_outcome ss 400 []
    else (let (err, a) = update_permissions server ss buf len in
        record { err_code = err; unknown_attrs = []; resp_constructed = err == 0; alloc = a })
