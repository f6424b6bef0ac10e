-- ===== src/Server/Links.antt =====
-- The links of an allocation under the requests of a client.
use webrtc_caller.Base.{
  ℕ, ◌≡◌, refl, sym, ap, ◌∙◌, ◌≢◌, inl, inr, true, false, arith, ◌==◌, if◌then◌else◌, ==-refl,
  eq-cases,
}
use webrtc_caller.Addr.{IoaAddr}
use webrtc_caller.Allocation.{PermInfo, ChInfo, Allocation, set_perm, set_chn}
use webrtc_caller.Allocation.Linked.{IsLinked}
use webrtc_caller.Allocation.Bind.{Held}
use webrtc_caller.Server.{
  TurnServer, with_lifetime, chn_with_lifetime, update_turn_permission_lifetime,
  update_channel_lifetime,
}
use webrtc_caller.Server.Same.{SamePerm, SameChn, Same}

SamePerm-refl : (i : PermInfo) → SamePerm i i
SamePerm-refl i = (refl, refl, refl, refl)

SameChn-refl : (i : ChInfo) → SameChn i i
SameChn-refl i = (refl, refl, refl, refl, refl)

Same-refl : (a : Allocation) → Same a a
Same-refl a = record {
  perm_sz = refl;
  chn_sz = refl;
  perm = λ p. SamePerm-refl (a.perms p);
  chn = λ c. SameChn-refl (a.chns c);
}

Same-trans : (a b c : Allocation) → Same a b → Same b c → Same a c
Same-trans a b c h k = record {
  perm_sz = h.perm_sz ∙ k.perm_sz;
  chn_sz = h.chn_sz ∙ k.chn_sz;
  perm = λ p. ground (arith, h.perm p, k.perm p);
  chn = λ d. ground (arith, h.chn d, k.chn d);
}

Same-set_perm :
    (a : Allocation) (p : ℕ) (info : PermInfo)
    → SamePerm (a.perms p) info
    → Same a (set_perm a p info)
Same-set_perm a p info h = record {
  perm_sz = refl;
  chn_sz = refl;
  perm = λ q. elim (eq-cases q p) [
    | inl same ↦ rw (same, ==-refl p) h
    | inr other ↦
        let different : (q == p) ≡ false = ground (arith, other) in
        rw different (SamePerm-refl (a.perms q))
  ];
  chn = λ c. SameChn-refl (a.chns c);
}

Same-set_chn :
    (a : Allocation) (c : ℕ) (info : ChInfo) → SameChn (a.chns c) info → Same a (set_chn a c info)
Same-set_chn a c info h = record {
  perm_sz = refl;
  chn_sz = refl;
  perm = λ p. SamePerm-refl (a.perms p);
  chn = λ d. elim (eq-cases d c) [
    | inl same ↦ rw (same, ==-refl c) h
    | inr other ↦
        let different : (d == c) ≡ false = ground (arith, other) in
        rw different (SameChn-refl (a.chns d))
  ];
}

-- The delay that update_turn_permission_lifetime uses.
abbrev pub delay : TurnServer → ℕ → ℕ
delay server time_delta = if time_delta == 0 then server.permission_lifetime else time_delta

abbrev pub timed_perm : TurnServer → Allocation → ℕ → ℕ → Allocation
timed_perm server a p time_delta =
    set_perm a p (with_lifetime (a.perms p) server.ctime (delay server time_delta))

abbrev pub timed_chn : TurnServer → Allocation → ℕ → Allocation
timed_chn server a c =
    set_chn a c (chn_with_lifetime (a.chns c) server.ctime server.channel_lifetime)

pub permission_lifetime-owned :
    (server : TurnServer) (a : Allocation) (p delta : ℕ)
    → (a.perms p).owner ≡ true
    → update_turn_permission_lifetime server a p delta ≡ (true, timed_perm server a p delta)
unfolding update_turn_permission_lifetime
permission_lifetime-owned server a p delta owner =
    ap (λ b. if b then (true, timed_perm server a p delta) else (false, a)) owner

pub channel_lifetime-owned :
    (server : TurnServer) (a : Allocation) (c : ℕ)
    → (a.chns c).owner ≢ 0
    → (a.perms (a.chns c).owner).owner ≡ true
    → update_channel_lifetime server a c
      ≡ (true, timed_chn server (timed_perm server a (a.chns c).owner server.channel_lifetime) c)
unfolding update_channel_lifetime
channel_lifetime-owned server a c n owner =
    let some_owner : ((a.chns c).owner == 0) ≡ false = ground (arith, n) in
    rw (some_owner) (
      rw (permission_lifetime-owned server a (a.chns c).owner server.channel_lifetime owner) (
        ap
          (λ b.
            if b
            then (
              true,
              timed_chn server (timed_perm server a (a.chns c).owner server.channel_lifetime) c,
            )
            else (false, a))
          owner))

pub Same-timed_perm :
    (server : TurnServer) (a : Allocation) (p delta : ℕ) → Same a (timed_perm server a p delta)
Same-timed_perm server a p delta =
    Same-set_perm a p (with_lifetime (a.perms p) server.ctime (delay server delta))
      (refl, refl, refl, refl)

Same-timed_chn : (server : TurnServer) (a : Allocation) (c : ℕ) → Same a (timed_chn server a c)
Same-timed_chn server a c =
    Same-set_chn a c (chn_with_lifetime (a.chns c) server.ctime server.channel_lifetime)
      (refl, refl, refl, refl, refl)

pub channel_owner :
    (a : Allocation) (c : ℕ)
    → IsLinked a
    → (a.chns c).allocated ≡ true
    → ((a.chns c).owner ≢ 0) × ((a.perms (a.chns c).owner).owner ≡ true)
channel_owner a c linked used =
    let perm_used = (linked.up c used).0 in
    let (j, at, below) = linked.perm_home (a.chns c).owner perm_used in
    (λ same. omega (arith, same, at), linked.owned (a.chns c).owner perm_used)

-- A channel in use of linked tables is given its lifetime.
pub channel_lifetime-linked :
    (server : TurnServer) (a : Allocation) (c : ℕ)
    → IsLinked a
    → (a.chns c).allocated ≡ true
    → ((update_channel_lifetime server a c).0 ≡ true)
      × Same a (update_channel_lifetime server a c).1
channel_lifetime-linked server a c linked used =
    let (n, owned) = channel_owner a c linked used in
    let p = (a.chns c).owner in
    let a1 = timed_perm server a p server.channel_lifetime in
    rw (channel_lifetime-owned server a c n owned) (
      refl,
      Same-trans a a1 (timed_chn server a1 c) (Same-timed_perm server a p server.channel_lifetime)
          (Same-timed_chn server a1 c),
    )

pub Same-Held :
    (a b : Allocation) (c chnum : ℕ) (peer : IoaAddr)
    → Same a b
    → Held a c chnum peer
    → Held b c chnum peer
Same-Held a b c chnum peer same held =
    let (u, num, port, peer_same, o) = same.chn c in
    record {
      used = sym u ∙ held.used;
      number = sym num ∙ held.number;
      host = rw (← peer_same) held.host;
      port = rw (← peer_same) held.port;
    }
