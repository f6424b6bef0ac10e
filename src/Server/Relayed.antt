-- ===== src/Server/Relayed.antt =====
-- What handle_turn_send sends, and what data leave alone.
use webrtc_caller.Base.{
  ℕ, ◌≡◌, refl, ◌⊎◌, inl, inr, Bool, true, not, ◌||◌, Option, none, some, List, [], arith, ltb,
  ◌==◌, by_if, Option-cases, length, Memory,
}
use webrtc_caller.Addr.{addr_any}
use webrtc_caller.Allocation.{get_permission}
use webrtc_caller.Server.{TurnServer, Session}
use webrtc_caller.Server.Relay.{
  Sent, SendRequest, SendOutcome, unsent, send_to, send_permitted, send_sized, read_send,
  handle_send, write_to_peerchannel, PeerInput, peer_input,
}

-- What is sent goes to the peer of the request, which has a permission unless the server relays all.
pub record SendKeeps (server : TurnServer) (ss : Session) (out : SendOutcome) : Type 0 where
  pub realm : out.session.realm ≡ ss.realm
  pub alloc : out.session.alloc ≡ ss.alloc
  pub sent :
      (x : Sent)
      → out.sent ≡ some x
      → (server.server_relay ≡ true) ⊎ ((p : ℕ) × (get_permission ss.alloc x.peer ≡ some p))

SendKeeps-unsent :
    (server : TurnServer) (ss : Session) (err : ℕ) (ua : List ℕ)
    → SendKeeps server ss (unsent ss err ua)
SendKeeps-unsent server ss err ua = record { realm = refl; alloc = refl; sent = λ x e. cc (e) }

SendKeeps-send_to :
    (server : TurnServer) (ss : Session) (r : SendRequest) (n ttl : ℕ) (skip : Bool) (v : Option ℕ)
    → (server.server_relay ≡ true) ⊎ ((p : ℕ) × (get_permission ss.alloc r.peer_addr ≡ some p))
    → SendKeeps server ss (send_to ss r n ttl skip v)
SendKeeps-send_to server ss r n ttl skip none h = record {
  realm = ground arith;
  alloc = ground arith;
  sent = λ x e. let same : r.peer_addr ≡ x.peer = ground (arith, e) in rw (← same) h;
}
SendKeeps-send_to server ss r n ttl skip (some v) h = record {
  realm = ground arith;
  alloc = ground arith;
  sent = λ x e. let same : r.peer_addr ≡ x.peer = ground (arith, e) in rw (← same) h;
}

SendKeeps-permitted :
    (server : TurnServer) (ss : Session) (r : SendRequest) (n ttl : ℕ) (skip : Bool)
    → SendKeeps server ss (send_permitted server ss r n ttl skip)
unfolding send_permitted
SendKeeps-permitted server ss r n ttl skip =
    by_if (SendKeeps server ss) server.server_relay _ _
      (λ relay. SendKeeps-send_to server ss r n ttl skip r.value (inl relay))
      (λ z. elim (Option-cases (get_permission ss.alloc r.peer_addr)) [
        | inl e ↦ rw e (SendKeeps-unsent server ss 0 [])
        | inr (p, e) ↦ rw e (SendKeeps-send_to server ss r n ttl skip r.value (inr (p, e)))
      ])

SendKeeps-sized :
    (server : TurnServer) (ss : Session) (r : SendRequest) (ttl : ℕ) (skip : Bool) (len : Option ℕ)
    → SendKeeps server ss (send_sized server ss r ttl skip len)
SendKeeps-sized server ss r ttl skip none = SendKeeps-unsent server ss 400 []
SendKeeps-sized server ss r ttl skip (some n) = SendKeeps-permitted server ss r n ttl skip

pub handle_send-SendKeeps :
    (server : TurnServer) (ss : Session) (buf : Memory) (len ttl : ℕ) (skip : Bool)
    → SendKeeps server ss (handle_send server ss buf len ttl skip)
unfolding handle_send
handle_send-SendKeeps server ss buf len ttl skip =
    let r = read_send server buf len in
    let none_sent = SendKeeps-unsent server ss in
    by_if (SendKeeps server ss) ss.is_tcp_relay _ _ (λ z. none_sent 403 [])
      (λ z.
        by_if (SendKeeps server ss) (not ss.alloc.is_valid || ttl == 0) _ _ (λ z. none_sent 0 [])
          (λ z.
            by_if (SendKeeps server ss) (not (r.err_code == 0)) _ _ (λ z. none_sent r.err_code [])
              (λ z.
                by_if (SendKeeps server ss) (ltb 0 (length r.unknown_attrs)) _ _
                  (λ z. none_sent 420 r.unknown_attrs)
                  (λ z.
                    by_if (SendKeeps server ss) (addr_any r.peer_addr) _ _ (λ z. none_sent 400 [])
                      (λ z. SendKeeps-sized server ss r ttl skip r.len)))))

pub channel-data :
    (ss : Session) (chnum size ttl : ℕ) (skip ok : Bool)
    → let ss' = (write_to_peerchannel ss chnum size ttl skip ok).session in
      (ss'.realm ≡ ss.realm) × (ss'.alloc ≡ ss.alloc)
unfolding write_to_peerchannel
channel-data ss chnum size ttl skip ok = ground arith

pub peer-data :
    (server : TurnServer) (ss : Session) (i : PeerInput)
    → let ss' = (peer_input server ss i).1 in (ss'.realm ≡ ss.realm) × (ss'.alloc ≡ ss.alloc)
unfolding peer_input
peer-data server ss i = ground arith
