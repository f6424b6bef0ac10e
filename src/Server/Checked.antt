-- ===== src/Server/Checked.antt =====
-- Which peers the permissions of an allocation are for.
use webrtc_caller.Base.{
  ℕ, ◌≡◌, ◌∙◌, ◌⊎◌, inl, inr, true, false, not, Bool, List, arith, ◌==◌, ==-refl, by_if,
  Option-cases, eq-cases,
}
use webrtc_caller.Addr.{IoaAddr, addr_get_port, addr_eq, addr_eq_no_port}
use webrtc_caller.Allocation.{
  Allocation, get_permission, ensure_permission, get_ch_info, get_ch_info_by_peer_addr, new_slot,
  get_new_ch_info,
}
use webrtc_caller.Allocation.Linked.{IsLinked}
use webrtc_caller.Allocation.Permissions.{granted, add_permission-Granted}
use webrtc_caller.Server.{
  TurnServer, good_peer_addr, update_turn_permission_lifetime, update_channel_lifetime,
}
use webrtc_caller.Server.Requests.{select_channel, finish_bind, bind_channel}

-- Every permission in use is for an address that passes the test.
abbrev pub AllPass : (IoaAddr → Bool) → Allocation → Type 0
AllPass pass a = (p : ℕ) → (a.perms p).allocated ≡ true → pass (a.perms p).addr ≡ true

-- Every permission in use is one for a peer that the server accepts.
abbrev pub AllChecked : TurnServer → List ℕ → Allocation → Type 0
AllChecked server realm a = AllPass (good_peer_addr server realm) a

-- What the server accepts passes the test.
abbrev pub Allows : TurnServer → List ℕ → (IoaAddr → Bool) → Type 0
Allows server realm pass =
    (peer : IoaAddr) → good_peer_addr server realm peer ≡ true → pass peer ≡ true

-- The permissions of the second allocation are in use for the same addresses as those of the first.
abbrev pub SamePerms : Allocation → Allocation → Type 0
SamePerms a b =
    (p : ℕ)
    → ((a.perms p).allocated ≡ (b.perms p).allocated) × ((a.perms p).addr ≡ (b.perms p).addr)

pub SamePerms-AllPass :
    (pass : IoaAddr → Bool) (a b : Allocation) → SamePerms a b → AllPass pass a → AllPass pass b
SamePerms-AllPass pass a b same checked p used =
    let (u, ad) = same p in rw (← ad) (checked p (u ∙ used))

AllPass-granted :
    (pass : IoaAddr → Bool) (a : Allocation) (peer : IoaAddr) (p : ℕ) (sz : ℕ → ℕ)
    → pass peer ≡ true
    → AllPass pass a
    → AllPass pass (granted a peer p sz)
AllPass-granted pass a peer p sz good checked q used = elim (eq-cases q p) [
  | inl same ↦ rw (same, ==-refl p) good
  | inr other ↦
      let different : (q == p) ≡ false = ground (arith, other) in
      rw different (checked q (rw different at used))
]

pub ensure_permission-AllPass :
    (pass : IoaAddr → Bool) (a : Allocation) (peer : IoaAddr)
    → IsLinked a
    → pass peer ≡ true
    → AllPass pass a
    → AllPass pass (ensure_permission a peer).1
unfolding ensure_permission
ensure_permission-AllPass pass a peer linked good checked =
    elim (Option-cases (get_permission a peer)) [
      | inr (p, e) ↦ rw (e, ensure_permission) checked
      | inl e ↦
          let (p, sz, g, made) = add_permission-Granted a linked peer in
          rw (e, ensure_permission, made)
            (λ q used. AllPass-granted pass a peer p sz good checked q used)
    ]

pub perm_lifetime-perms :
    (server : TurnServer) (a : Allocation) (p delta : ℕ)
    → SamePerms a (update_turn_permission_lifetime server a p delta).1
unfolding update_turn_permission_lifetime
perm_lifetime-perms server a p delta q = ground arith

pub channel_lifetime-perms :
    (server : TurnServer) (a : Allocation) (c : ℕ)
    → SamePerms a (update_channel_lifetime server a c).1
unfolding update_channel_lifetime
channel_lifetime-perms server a c q =
    ground (arith, perm_lifetime-perms server a (a.chns c).owner server.channel_lifetime q)

new_slot-perms : (a : Allocation) (chnum : ℕ) → (new_slot a chnum).1.perms ≡ a.perms
unfolding new_slot
new_slot-perms a chnum = ground arith

get_new_ch_info-perms :
    (a : Allocation) (chnum : ℕ) (peer : IoaAddr)
    → SamePerms (ensure_permission a peer).1 (get_new_ch_info a chnum peer).1
unfolding get_new_ch_info
get_new_ch_info-perms a chnum peer q =
    let same = new_slot-perms (ensure_permission a peer).1 chnum in rw same (ground arith)

module _ (server : TurnServer) (realm : List ℕ) (pass : IoaAddr → Bool)
    (allows : Allows server realm pass) (a : Allocation) (chnum : ℕ) (peer : IoaAddr)
    (linked : IsLinked a) (checked : AllPass pass a) where
  abbrev OutChecked : (ℕ ⊎ ℕ) × Allocation → Type 0
  OutChecked out = AllPass pass out.1

  new_channel-AllPass :
      good_peer_addr server realm peer ≡ true → AllPass pass (get_new_ch_info a chnum peer).1
  new_channel-AllPass good =
      SamePerms-AllPass pass (ensure_permission a peer).1 (get_new_ch_info a chnum peer).1
        (get_new_ch_info-perms a chnum peer)
        (ensure_permission-AllPass pass a peer linked (allows peer good) checked)

  select_channel-AllPass : OutChecked (select_channel server realm a chnum peer)
  unfolding select_channel
  select_channel-AllPass = elim (Option-cases (get_ch_info a chnum)) [
    | inr (c, e) ↦
        rw (e, select_channel)
          (by_if OutChecked (not (addr_eq peer (a.chns c).peer_addr)) _ _ (λ z. checked)
            (λ z.
              by_if OutChecked ((a.chns c).owner == 0) _ _ (λ z. checked)
                (λ z.
                  by_if OutChecked (not (addr_eq_no_port peer (a.perms (a.chns c).owner).addr)) _ _
                    (λ z. checked)
                    (λ z.
                      by_if OutChecked (not ((a.chns c).port == addr_get_port peer)) _ _
                        (λ z. checked) (λ z. checked)))))
    | inl e ↦ elim (Option-cases (get_ch_info_by_peer_addr a peer)) [
      | inr (c, found) ↦ rw (e, select_channel, found) checked
      | inl absent ↦
          rw (e, select_channel, absent)
            (by_if OutChecked (not (good_peer_addr server realm peer)) _ _ (λ z. checked)
              (λ good.
                let new = new_channel-AllPass (ground (arith, good)) in
                by_if OutChecked _ _ _ (λ z. new) (λ z. new)))
    ]
  ]

  finish_bind-AllPass :
      (out : (ℕ ⊎ ℕ) × Allocation) → OutChecked out → AllPass pass (finish_bind server out).1
  finish_bind-AllPass (inl err, b) h = h
  finish_bind-AllPass (inr c, b) h =
      let kept =
        SamePerms-AllPass pass b (update_channel_lifetime server b c).1
          (channel_lifetime-perms server b c) h in
      by_if (λ (out : ℕ × Allocation). AllPass pass out.1) _ _ _ (λ z. kept) (λ z. kept)

  pub bind_channel-AllPass : AllPass pass (bind_channel server realm a chnum peer).1
  unfolding bind_channel
  bind_channel-AllPass =
      finish_bind-AllPass (select_channel server realm a chnum peer) select_channel-AllPass
