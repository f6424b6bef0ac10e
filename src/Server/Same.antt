-- ===== src/Server/Same.antt =====
-- Changes of an allocation that leave its links alone, as those of the lifetimes do.
use webrtc_caller.Base.{ℕ, ◌≡◌, sym, ◌∙◌, arith}
use webrtc_caller.Allocation.{PermInfo, ChInfo, Allocation}
use webrtc_caller.Allocation.Linked.{IsLinked}

abbrev pub SamePerm : PermInfo → PermInfo → Type 0
SamePerm i j =
    (i.allocated ≡ j.allocated) × (i.addr ≡ j.addr) × (i.chns ≡ j.chns) × (i.owner ≡ j.owner)

abbrev pub SameChn : ChInfo → ChInfo → Type 0
SameChn i j =
    (i.allocated ≡ j.allocated)
    × (i.chnum ≡ j.chnum)
    × (i.port ≡ j.port)
    × (i.peer_addr ≡ j.peer_addr)
    × (i.owner ≡ j.owner)

-- The second allocation has the slots, the addresses and the links of the first one.
pub record Same (a b : Allocation) : Type 0 where
  pub perm_sz : a.perm_sz ≡ b.perm_sz
  pub chn_sz : a.chn_sz ≡ b.chn_sz
  pub perm : (p : ℕ) → SamePerm (a.perms p) (b.perms p)
  pub chn : (c : ℕ) → SameChn (a.chns c) (b.chns c)

pub Same-IsLinked : (a b : Allocation) → Same a b → IsLinked a → IsLinked b
Same-IsLinked a b same linked = record {
  perm_home = λ p used.
      let (u, ad, ch, o) = same.perm p in rw (← ad, ← same.perm_sz) (linked.perm_home p (u ∙ used));
  perm_unique = λ p q used used' host.
      ground (arith, same.perm p, same.perm q, linked.perm_unique p q, host, used, used');
  chn_home = λ c used.
      let (u, num, port, peer, o) = same.chn c in
      rw (← num, ← same.chn_sz) (linked.chn_home c (u ∙ used));
  chn_unique =
      λ c d used used' number. ground (arith, same.chn c, same.chn d, linked.chn_unique c d);
  maps = λ p. let (u, ad, ch, o) = same.perm p in rw (← ch) (linked.maps p);
  up = λ c used.
      let (u, num, port, peer, o) = same.chn c in
      let (u', ad, ch, o') = same.perm (a.chns c).owner in
      rw (← o, ← peer, ← num, ← u', ← ad, ← ch) (linked.up c (u ∙ used));
  back = λ p k c used e.
      let (u, num, port, peer, o) = same.chn c in
      let (u', ad, ch, o') = same.perm p in
      rw (← u, ← o, ← peer) (linked.back p k c (u' ∙ used) (rw (← ch) at e));
  owned = λ p used. let (u, ad, ch, o) = same.perm p in sym o ∙ linked.owned p (u ∙ used);
  ports = λ c used.
      let (u, num, port, peer, o) = same.chn c in rw (← port, ← peer) (linked.ports c (u ∙ used));
}
