-- ===== src/Server/Created.antt =====
-- Both loops of handle_turn_create_permission over one request.
use webrtc_caller.Base.{
  ℕ, zero, suc, ◌≡◌, refl, sym, ◌∙◌, ◌⊎◌, inl, inr, Bool, true, false, not, Option, none, some, [],
  ◌∷◌, arith, ltb, ◌==◌, by_if, Bool-cases, length, length-append, Memory,
}
use webrtc_caller.Stun.Attr.{attr_type, get_first, next_from}
use webrtc_caller.Addr.{IoaAddr, addr_set_port}
use webrtc_caller.Allocation.{Allocation, ensure_permission, get_turn_channel}
use webrtc_caller.Allocation.Linked.{IsLinked}
use webrtc_caller.Server.{
  TurnServer, Session, good_peer_addr, update_turn_permission_lifetime, update_channel_lifetime,
  update_permission, refresh_found, refresh_channel,
}
use webrtc_caller.Server.Requests.{
  walk, skip_attribute, attribute_xor_peer_address, attr_get_addr, PermissionRequest,
  permission_more, permission_visit, permission_start, check_permissions, update_visit,
  update_permissions, Outcome, handle_create_permission,
}
use webrtc_caller.Server.Hosts.{SameHost-set_port, good_peer_addr-agree}
use webrtc_caller.Server.Handlers.{update_permission-refresh, update_visit-IsLinked}
use webrtc_caller.Server.Checked.{
  AllPass, AllChecked, Allows, SamePerms-AllPass, ensure_permission-AllPass, perm_lifetime-perms,
  channel_lifetime-perms,
}

refresh_found-AllPass :
    (server : TurnServer) (pass : IoaAddr → Bool) (found : Option ℕ) (a : Allocation)
    → AllPass pass a
    → AllPass pass (refresh_found server found a).1
refresh_found-AllPass server pass none a h = h
refresh_found-AllPass server pass (some c) a h =
    SamePerms-AllPass pass a (update_channel_lifetime server a c).1
      (channel_lifetime-perms server a c) h

refresh_channel-AllPass :
    (server : TurnServer) (pass : IoaAddr → Bool) (p : ℕ) (peer : IoaAddr) (s : Bool × Allocation)
    → AllPass pass s.1
    → AllPass pass (refresh_channel server p peer s).1
refresh_channel-AllPass server pass p peer (false, a) h = h
refresh_channel-AllPass server pass p peer (true, a) h =
    refresh_found-AllPass server pass (get_turn_channel a p peer) a h

update_permission-AllPass :
    (server : TurnServer) (pass : IoaAddr → Bool) (a : Allocation) (peer : IoaAddr)
    → IsLinked a
    → pass peer ≡ true
    → AllPass pass a
    → AllPass pass (update_permission server a peer).1
update_permission-AllPass server pass a peer linked good h =
    let p = (ensure_permission a peer).0 in
    let a1 = (ensure_permission a peer).1 in
    let timed = update_turn_permission_lifetime server a1 p 0 in
    rw (update_permission-refresh server a peer) (
      refresh_channel-AllPass server pass p peer timed (
        SamePerms-AllPass pass a1 timed.1 (perm_lifetime-perms server a1 p 0)
          (ensure_permission-AllPass pass a peer linked good h)))

-- The first loop has met no error and no unknown attribute.
abbrev IsClean : PermissionRequest → Type 0
IsClean s = (s.err_code ≡ 0) × (length s.unknown_attrs ≡ 0)

module _ (server : TurnServer) (ss : Session) (pass : IoaAddr → Bool)
    (allows : Allows server ss.realm pass) (buf : Memory) where
  abbrev peer_at : ℕ → IoaAddr
  peer_at a = (attr_get_addr server.mappings buf a none).1

  visit_back :
      (a : ℕ) (s : PermissionRequest) → IsClean (permission_visit server ss buf a s) → IsClean s
  unfolding permission_visit
  visit_back a s h = ground (arith, h, length-append s.unknown_attrs (attr_type buf a ∷ []))

  walk_back :
      (fuel len : ℕ) (cur : Option ℕ) (s : PermissionRequest)
      → IsClean (walk permission_more (permission_visit server ss buf) fuel buf len cur s)
      → IsClean s
  unfolding walk
  walk_back zero len none s h = h
  walk_back (suc fuel) len none s h = h
  walk_back zero len (some a) s h = h
  walk_back (suc fuel) len (some a) s h = elim (Bool-cases (permission_more s)) [
    | inr stop ↦ rw (stop, walk) at h
    | inl more ↦ visit_back a s (
        walk_back fuel len (next_from buf len a) (permission_visit server ss buf a s)
          (rw (more, walk) at h))
  ]

  -- An address that passes the first loop is one that the server accepts.
  visit_good :
      (a : ℕ) (s : PermissionRequest)
      → IsClean (permission_visit server ss buf a s)
      → (skip_attribute (attr_type buf a) ≡ true)
        ⊎ ((attr_type buf a == attribute_xor_peer_address) ≡ false)
        ⊎ (good_peer_addr server ss.realm (peer_at a) ≡ true)
  unfolding permission_visit
  visit_good a s h = ground (arith, h)

  -- The state of the second loop.
  abbrev IsChecked : ℕ × Allocation → Type 0
  IsChecked s = ((s.0 ≡ 0) × IsLinked s.1) × AllPass pass s.1

  update_checked :
      (a : ℕ) (s : ℕ × Allocation)
      → IsLinked s.1
      → (skip_attribute (attr_type buf a) ≡ true)
        ⊎ ((attr_type buf a == attribute_xor_peer_address) ≡ false)
        ⊎ (good_peer_addr server ss.realm (peer_at a) ≡ true)
      → AllPass pass s.1
      → AllPass pass (update_visit server buf a s).1
  unfolding update_visit
  update_checked a (err, alloc) linked (inl skipped) h = rw (skipped, update_visit) h
  update_checked a (err, alloc) linked (inr (inl other)) h =
      by_if (λ (s : ℕ × Allocation). AllPass pass s.1) (skip_attribute (attr_type buf a)) _ _
        (λ z. h) (λ z. rw other h)
  update_checked a (err, alloc) linked (inr (inr good)) h =
      let P = λ (s : ℕ × Allocation). AllPass pass s.1 in
      let no_port = addr_set_port (peer_at a) 0 in
      let same =
        good_peer_addr-agree (peer_at a) no_port (SameHost-set_port (peer_at a) 0) server
          ss.realm in
      let added =
        update_permission-AllPass server pass alloc no_port linked
          (allows no_port (sym same ∙ good)) h in
      by_if P (skip_attribute (attr_type buf a)) _ _ (λ z. h)
        (λ z.
          by_if P (attr_type buf a == attribute_xor_peer_address) _ _
            (λ z. by_if P (update_permission server alloc no_port).0 _ _ (λ z. added) (λ z. added))
            (λ z. h))

  both_loops :
      (fuel len : ℕ) (cur : Option ℕ) (s : PermissionRequest) (t : ℕ × Allocation)
      → IsClean (walk permission_more (permission_visit server ss buf) fuel buf len cur s)
      → IsChecked t
      → IsChecked (walk (λ u. true) (update_visit server buf) fuel buf len cur t)
  unfolding walk
  both_loops zero len none s t clean h = h
  both_loops (suc fuel) len none s t clean h = h
  both_loops zero len (some a) s t clean h = h
  both_loops (suc fuel) len (some a) s t clean h =
      let before = walk_back (suc fuel) len (some a) s clean in
      let more : permission_more s ≡ true = ground (arith, before) in
      let rest : IsClean (
          walk permission_more (permission_visit server ss buf) fuel buf len (next_from buf len a)
            (permission_visit server ss buf a s)) =
        rw (more, walk) at clean in
      let good =
        visit_good a s
          (walk_back fuel len (next_from buf len a) (permission_visit server ss buf a s) rest) in
      both_loops fuel len (next_from buf len a) (permission_visit server ss buf a s)
        (update_visit server buf a t) rest
        (update_visit-IsLinked server buf a t h.0, update_checked a t h.0.1 good h.1)

-- A CreatePermission request adds permissions only for addresses that pass a test, where the test passes
-- what the server accepts.
pub handle_create_permission-AllPass :
    (server : TurnServer) (ss : Session) (pass : IoaAddr → Bool) (buf : Memory) (len : ℕ)
    → Allows server ss.realm pass
    → IsLinked ss.alloc
    → AllPass pass ss.alloc
    → AllPass pass (handle_create_permission server ss buf len).alloc
unfolding handle_create_permission check_permissions update_permissions
handle_create_permission-AllPass server ss pass buf len allows linked h =
    let P = λ (out : Outcome). AllPass pass out.alloc in
    let r = check_permissions server ss buf len in
    by_if P (not ss.alloc.is_valid) _ _ (λ z. h)
      (λ z.
        by_if P (ltb 0 (length r.unknown_attrs)) _ _ (λ z. h)
          (λ none_unknown.
            by_if P (not (r.err_code == 0)) _ _ (λ z. h)
              (λ no_error.
                by_if P (r.addr_found == 0) _ _ (λ z. h)
                  (λ z.
                    (both_loops server ss pass allows buf len len (get_first buf len)
                      permission_start (0, ss.alloc) (clean_of r no_error none_unknown)
                      ((refl, linked), h)).1))))
  where
    clean_of :
        (r : PermissionRequest)
        → not (r.err_code == 0) ≡ false
        → ltb 0 (length r.unknown_attrs) ≡ false
        → IsClean r
    clean_of r e f = ground (arith, e, f)

-- A CreatePermission request on linked tables of permissions that the server accepts leaves such tables:
-- no permission is added that good_peer_addr refuses, whatever the attributes of the request are and
-- in whatever order.
pub handle_create_permission-AllChecked :
    (server : TurnServer) (ss : Session) (buf : Memory) (len : ℕ)
    → IsLinked ss.alloc
    → AllChecked server ss.realm ss.alloc
    → AllChecked server ss.realm (handle_create_permission server ss buf len).alloc
handle_create_permission-AllChecked server ss buf len linked h =
    handle_create_permission-AllPass server ss (good_peer_addr server ss.realm) buf len
      (λ peer good. good) linked h
