-- ===== src/Server/Reach.antt =====
-- The session of a client as a state machine: requests, relayed data and timers in any
-- order, and the policies of the server that change while it runs.
use webrtc_caller.Base.{
  ℕ, ◌≡◌, refl, inl, inr, Bool, true, false, not, ◌||◌, List, [], ◌∷◌, arith, ltb, ◌==◌, by_if,
  length, Memory, AllBytes,
}
use webrtc_caller.Stun.Types.{valid_channel}
use webrtc_caller.Addr.{IoaAddr, addr_any}
use webrtc_caller.Allocation.{Allocation, init_allocation, permission_clean, channel_delete}
use webrtc_caller.Allocation.Linked.{IsLinked}
use webrtc_caller.Allocation.Start.{init_allocation-IsLinked}
use webrtc_caller.Allocation.Delete.{channel_delete-IsLinked, permission_clean-IsLinked}
use webrtc_caller.Server.{TurnServer, Session, good_peer_addr}
use webrtc_caller.Server.Same.{Same-IsLinked}
use webrtc_caller.Server.Requests.{
  read_bind, Outcome, BindRequest, handle_channel_bind, handle_create_permission,
}
use webrtc_caller.Server.Relay.{PeerInput, handle_send, write_to_peerchannel, peer_input}
use webrtc_caller.Server.Relayed.{handle_send-SendKeeps, channel-data, peer-data}
use webrtc_caller.Server.Handlers.{
  Handled, handle_channel_bind-Handled, handle_create_permission-Created,
}
use webrtc_caller.Server.Checked.{
  AllPass, Allows, SamePerms, SamePerms-AllPass, bind_channel-AllPass,
}
use webrtc_caller.Server.Created.{handle_create_permission-AllPass}

-- The server at a time.
abbrev pub at_time : TurnServer → ℕ → TurnServer
at_time server now = record server { ctime = now }

abbrev pub with_alloc : Session → Allocation → Session
with_alloc ss a = record ss { alloc = a }

-- client_ss_perm_timeout_handler and client_ss_channel_timeout_handler are permission_clean and
-- channel_delete; a timer is one of a slot in use.
pub data Step (server : TurnServer) : Session → Session → Type 0 where
  channel_bind :
      (ss : Session) (now : ℕ) (buf : Memory) (len : ℕ)
      → AllBytes buf
      → Step server ss (with_alloc ss (handle_channel_bind (at_time server now) ss buf len).alloc)
  create_permission :
      (ss : Session) (now : ℕ) (buf : Memory) (len : ℕ)
      → Step server ss
          (with_alloc ss (handle_create_permission (at_time server now) ss buf len).alloc)
  channel_timeout :
      (ss : Session) (c : ℕ)
      → (ss.alloc.chns c).allocated ≡ true
      → Step server ss (with_alloc ss (channel_delete ss.alloc c))
  permission_timeout :
      (ss : Session) (p : ℕ)
      → (ss.alloc.perms p).allocated ≡ true
      → Step server ss (with_alloc ss (permission_clean ss.alloc p))
  send_data :
      (ss : Session) (now : ℕ) (buf : Memory) (len ttl : ℕ) (skip : Bool)
      → Step server ss (handle_send (at_time server now) ss buf len ttl skip).session
  channel_data :
      (ss : Session) (chnum size ttl : ℕ) (skip ok : Bool)
      → Step server ss (write_to_peerchannel ss chnum size ttl skip ok).session
  peer_data :
      (ss : Session) (now : ℕ) (i : PeerInput)
      → Step server ss (peer_input (at_time server now) ss i).1

-- The options of the server and the realm of a session, by which good_peer_addr judges.
abbrev pub Policy : Type 0
Policy = TurnServer × List ℕ

-- Whether a peer was accepted by one of these policies.
unfoldable pub was_good : List Policy → IoaAddr → Bool
was_good [] peer = false
was_good ((server, realm) ∷ history) peer =
    good_peer_addr server realm peer || was_good history peer

-- The sessions that are reached from a new allocation, with the policies that have been in force, the
-- last one first. A change of policy is one of any options of the server, as when the lists of peers are
-- read again or a flag is set at run time, and of the realm, as ConnectionBind and the reply to a
-- look-up of a user make it. It leaves the permissions alone.
pub data Reach : List Policy → TurnServer → Session → Type 0 where
  start :
      (server : TurnServer) (ss : Session)
      → ss.alloc ≡ record init_allocation { is_valid = true }
      → Reach ((server, ss.realm) ∷ []) server ss
  step :
      (history : List Policy) (server : TurnServer) (ss ss' : Session)
      → Reach history server ss
      → Step server ss ss'
      → Reach history server ss'
  change :
      (history : List Policy) (server server' : TurnServer) (realm' : List ℕ) (ss : Session)
      → Reach history server ss
      → Reach ((server', realm') ∷ history) server' (record ss { realm = realm' })

-- What holds of the tables of a session: a permission is for a peer that a policy accepted. The present
-- policy is one of the history.
pub record IsSafe (history : List Policy) (server : TurnServer) (ss : Session) : Type 0 where
  pub in_force : Allows server ss.realm (was_good history)
  pub linked : IsLinked ss.alloc
  pub checked : AllPass (was_good history) ss.alloc

was_good-now :
    (history : List Policy) (server : TurnServer) (realm : List ℕ)
    → Allows server realm (was_good ((server, realm) ∷ history))
unfolding was_good
was_good-now history server realm peer good = rw good refl

was_good-later :
    (history : List Policy) (policy : Policy) (peer : IoaAddr)
    → was_good history peer ≡ true
    → was_good (policy ∷ history) peer ≡ true
unfolding was_good
was_good-later history policy peer good = ground (arith, good)

start-IsSafe :
    (server : TurnServer) (ss : Session)
    → ss.alloc ≡ record init_allocation { is_valid = true }
    → IsSafe ((server, ss.realm) ∷ []) server ss
unfolding init_allocation
start-IsSafe server ss fresh = record {
  in_force = was_good-now [] server ss.realm;
  linked = rw fresh (
      Same-IsLinked init_allocation (record init_allocation { is_valid = true })
        (record {
          perm_sz = refl;
          chn_sz = refl;
          perm = λ p. (refl, refl, refl, refl);
          chn = λ c. (refl, refl, refl, refl, refl);
        })
        init_allocation-IsLinked);
  checked = rw fresh (λ p used. cc);
}

change-IsSafe :
    (history : List Policy) (server server' : TurnServer) (realm' : List ℕ) (ss : Session)
    → IsSafe history server ss
    → IsSafe ((server', realm') ∷ history) server' (record ss { realm = realm' })
change-IsSafe history server server' realm' ss h = record {
  in_force = was_good-now history server' realm';
  linked = h.linked;
  checked =
      λ p used. was_good-later history (server', realm') (ss.alloc.perms p).addr (h.checked p used);
}

-- Data leave the realm and the allocation alone.
IsSafe-data :
    (history : List Policy) (server : TurnServer) (ss ss' : Session)
    → ss'.realm ≡ ss.realm
    → ss'.alloc ≡ ss.alloc
    → IsSafe history server ss
    → IsSafe history server ss'
IsSafe-data history server ss ss' r a h = record {
  in_force = rw r h.in_force;
  linked = rw a h.linked;
  checked = rw a h.checked;
}

pub channel_bind-AllPass :
    (server : TurnServer) (ss : Session) (pass : IoaAddr → Bool) (buf : Memory) (len : ℕ)
    → Allows server ss.realm pass
    → IsLinked ss.alloc
    → AllPass pass ss.alloc
    → AllPass pass (handle_channel_bind server ss buf len).alloc
unfolding handle_channel_bind
channel_bind-AllPass server ss pass buf len allows linked h =
    let P = λ (out : Outcome). AllPass pass out.alloc in
    let r = read_bind server ss buf len in
    by_if P ss.is_tcp_relay _ _ (λ z. h)
      (λ z.
        by_if P (not ss.alloc.is_valid) _ _ (λ z. h)
          (λ z.
            by_if P (ltb 0 (length r.unknown_attrs)) _ _ (λ z. h)
              (λ z.
                by_if P (not (r.err_code == 0)) _ _ (λ z. h)
                  (λ z.
                    by_if P (r.chnum == 0 || addr_any r.peer_addr || not r.addr_found) _ _ (λ z. h)
                      (λ z.
                        by_if P (not (valid_channel r.chnum)) _ _ (λ z. h)
                          (λ z.
                            bind_channel-AllPass server ss.realm pass allows ss.alloc r.chnum
                              r.peer_addr linked h))))))

Handled-IsLinked :
    (ss : Session) (r : BindRequest) (out : Outcome)
    → IsLinked ss.alloc
    → Handled ss r out
    → IsLinked out.alloc
Handled-IsLinked ss r out linked (inl (e, c, bound)) = bound.linked
Handled-IsLinked ss r out linked (inr (e, same, n)) = rw same linked

channel_delete-perms : (a : Allocation) (c : ℕ) → SamePerms a (channel_delete a c)
unfolding channel_delete
channel_delete-perms a c p = ground arith

channel_delete-AllPass :
    (pass : IoaAddr → Bool) (a : Allocation) (c : ℕ)
    → AllPass pass a
    → AllPass pass (channel_delete a c)
channel_delete-AllPass pass a c h =
    SamePerms-AllPass pass a (channel_delete a c) (channel_delete-perms a c) h

permission_clean-AllPass :
    (pass : IoaAddr → Bool) (a : Allocation) (p : ℕ)
    → IsLinked a
    → (a.perms p).allocated ≡ true
    → AllPass pass a
    → AllPass pass (permission_clean a p)
permission_clean-AllPass pass a p linked used h q used_q =
    let (linked', left, chns) = permission_clean-IsLinked a p q 0 linked used in
    let other : (q == p) ≡ false = ground (arith, used_q, left) in
    let same : (permission_clean a p).perms q ≡ a.perms q = rw other at left in
    rw same (h q (rw same at used_q))

-- The time does not matter to good_peer_addr.
at_time-Allows :
    (server : TurnServer) (now : ℕ) (realm : List ℕ) (pass : IoaAddr → Bool)
    → Allows server realm pass
    → Allows (at_time server now) realm pass
unfolding good_peer_addr
at_time-Allows server now realm pass allows = allows

Step-IsSafe :
    (history : List Policy) (server : TurnServer) (ss ss' : Session)
    → Step server ss ss'
    → IsSafe history server ss
    → IsSafe history server ss'
Step-IsSafe history server ss _ (channel_bind _ now buf len bs) h =
    let out = handle_channel_bind (at_time server now) ss buf len in
    let handled = handle_channel_bind-Handled (at_time server now) ss buf len bs h.linked in
    record {
      in_force = h.in_force;
      linked = Handled-IsLinked ss (read_bind (at_time server now) ss buf len) out h.linked handled;
      checked =
          channel_bind-AllPass (at_time server now) ss (was_good history) buf len
            (at_time-Allows server now ss.realm (was_good history) h.in_force) h.linked h.checked;
    }
Step-IsSafe history server ss _ (create_permission _ now buf len) h = record {
  in_force = h.in_force;
  linked = (handle_create_permission-Created (at_time server now) ss buf len h.linked).0;
  checked =
      handle_create_permission-AllPass (at_time server now) ss (was_good history) buf len
        (at_time-Allows server now ss.realm (was_good history) h.in_force) h.linked h.checked;
}
Step-IsSafe history server ss _ (channel_timeout _ c used) h = record {
  in_force = h.in_force;
  linked = (channel_delete-IsLinked ss.alloc c 0 h.linked used).0;
  checked = channel_delete-AllPass (was_good history) ss.alloc c h.checked;
}
Step-IsSafe history server ss _ (permission_timeout _ p used) h = record {
  in_force = h.in_force;
  linked = (permission_clean-IsLinked ss.alloc p 0 0 h.linked used).0;
  checked = permission_clean-AllPass (was_good history) ss.alloc p h.linked used h.checked;
}
Step-IsSafe history server ss ss' (send_data _ now buf len ttl skip) h =
    let keeps = handle_send-SendKeeps (at_time server now) ss buf len ttl skip in
    IsSafe-data history server ss ss' keeps.realm keeps.alloc h
Step-IsSafe history server ss ss' (channel_data _ chnum size ttl skip ok) h =
    let (r, a) = channel-data ss chnum size ttl skip ok in IsSafe-data history server ss ss' r a h
Step-IsSafe history server ss ss' (peer_data _ now i) h =
    let (r, a) = peer-data (at_time server now) ss i in IsSafe-data history server ss ss' r a h

-- In every session that is reached from a new allocation, by requests, data, timers and changes of the
-- options of the server and of the realm in any order, the tables are linked and every permission is
-- for a peer that good_peer_addr accepts under a policy (options and realm) that has been in force in
-- the session, the present one or an earlier one.
pub Reach-IsSafe :
    (history : List Policy) (server : TurnServer) (ss : Session)
    → Reach history server ss
    → IsSafe history server ss
Reach-IsSafe _ _ _ (start server ss fresh) = start-IsSafe server ss fresh
Reach-IsSafe _ _ _ (step history server ss ss' r s) =
    Step-IsSafe history server ss ss' s (Reach-IsSafe history server ss r)
Reach-IsSafe _ _ _ (change history server server' realm' ss r) =
    change-IsSafe history server server' realm' ss (Reach-IsSafe history server ss r)
