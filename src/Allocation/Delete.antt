-- ===== src/Allocation/Delete.antt =====
-- turn_channel_delete and turn_permission_clean on an allocation whose tables are linked.
use webrtc_caller.Base.{
  ℕ, ◌≡◌, refl, sym, ap, ◌∙◌, fun_ext, ◌≢◌, ◌↔◌, inl, inr, Bool, true, false, not, ◌&&◌, ◌||◌, none,
  some, List, [], ◌∷◌, arith, ◌==◌, if◌then◌else◌, ==-refl, Bool-cases, eq-cases,
}
use webrtc_caller.Addr.{addr_get_port}
use webrtc_caller.Maps.LmMap.{LmMap, Entry, call_all, foreach, entries}
use webrtc_caller.Maps.LmMap
use webrtc_caller.Maps.LmMap.Laws
use webrtc_caller.Maps.LmMap.Foreach.{visits, visits-entries}
use webrtc_caller.Allocation.{
  Allocation, empty_chn, empty_perm, set_chn, set_perm, delete_channel_info, permission_clean,
  channel_delete,
}
use webrtc_caller.Allocation.Linked.{LinksUp, LinksBack, IsLinked}

-- The allocation without a channel, which is taken out of the map of its permission.
abbrev pub detached : Allocation → ℕ → ℕ → ℕ → Allocation
detached a p c port =
    set_chn (set_perm a p (record (a.perms p) { chns = (LmMap.del (a.perms p).chns port).0 })) c
      empty_chn

module _ (a : Allocation) (p c port : ℕ) (linked : IsLinked a)
    (used_c : (a.chns c).allocated ≡ true) (owner_c : (a.chns c).owner ≡ p)
    (port_c : addr_get_port (a.chns c).peer_addr ≡ port) where
  same_perm :
      (q : ℕ)
      → (((detached a p c port).perms q).allocated ≡ (a.perms q).allocated)
        × (((detached a p c port).perms q).addr ≡ (a.perms q).addr)
  same_perm q = elim (eq-cases q p) [
    | inl same ↦ rw (same, ==-refl p) (refl, refl)
    | inr other ↦ let no : (q == p) ≡ false = ground (arith, other) in rw no (refl, refl)
  ]

  maps_kept : (q : ℕ) → LmMap.Laws.IsValid ((detached a p c port).perms q).chns
  maps_kept q = elim (eq-cases q p) [
    | inl same ↦
        rw (same, ==-refl p) (LmMap.Laws.get-del_any (a.perms p).chns port 0 (linked.maps p)).1
    | inr other ↦ let no : (q == p) ≡ false = ground (arith, other) in rw no (linked.maps q)
  ]

  get_kept :
      (q k : ℕ)
      → LmMap.get ((detached a p c port).perms q).chns k
        ≡ (if q == p && k == port then none else LmMap.get (a.perms q).chns k)
  get_kept q k = elim (eq-cases q p) [
    | inl same ↦
        rw (same, ==-refl p) (LmMap.Laws.get-del_any (a.perms p).chns port k (linked.maps p)).2
    | inr other ↦ let no : (q == p) ≡ false = ground (arith, other) in rw no refl
  ]

  other_chn : (d : ℕ) → ((detached a p c port).chns d).allocated ≡ true → (d == c) ≡ false
  other_chn d used = ground (arith, used)

  up_kept :
      (d : ℕ) → ((detached a p c port).chns d).allocated ≡ true → LinksUp (detached a p c port) d
  up_kept d used =
      let no = other_chn d used in
      let (host, same, found, number) = linked.up d (rw no at used) in
      let (same_used, same_addr) = same_perm (a.chns d).owner in
      rw no (
        same_used ∙ host,
        rw same_addr same,
        ground (
          arith,
          get_kept (a.chns d).owner (addr_get_port (a.chns d).peer_addr),
          found,
          linked.up c used_c,
          owner_c,
          port_c,
          no,
        ),
        number,
      )

  back_kept :
      (q k d : ℕ)
      → ((detached a p c port).perms q).allocated ≡ true
      → LmMap.get ((detached a p c port).perms q).chns k ≡ some d
      → LinksBack (detached a p c port) q k d
  back_kept q k d used e =
      let before : LinksBack a q k d =
        linked.back q k d (sym (same_perm q).0 ∙ used) (ground (arith, get_kept q k, e)) in
      let no : (d == c) ≡ false = ground (arith, get_kept q k, e, before, owner_c, port_c) in
      rw no before

  IsLinked-detached : IsLinked (detached a p c port)
  IsLinked-detached = record {
    perm_home = λ q used. rw (same_perm q).1 (linked.perm_home q (sym (same_perm q).0 ∙ used));
    perm_unique = λ q r used used' same.
        linked.perm_unique q r (sym (same_perm q).0 ∙ used) (sym (same_perm r).0 ∙ used')
          (rw ((same_perm q).1, (same_perm r).1) at same);
    chn_home = λ d used. rw (other_chn d used) (linked.chn_home d (rw (other_chn d used) at used));
    chn_unique = λ d e used used' same.
        ground (arith, other_chn d used, other_chn e used', linked.chn_unique d e);
    maps = maps_kept;
    up = up_kept;
    back = back_kept;
    owned = λ q used. ground (arith, used, linked.owned q, linked.owned p);
    ports = λ d used. rw (other_chn d used) (linked.ports d (rw (other_chn d used) at used));
  }

-- Deleting a channel in use of linked tables leaves linked tables, in which its slot is not in use and
-- every other slot is as before.
pub channel_delete-IsLinked :
    (a : Allocation) (c d : ℕ)
    → IsLinked a
    → (a.chns c).allocated ≡ true
    → IsLinked (channel_delete a c)
      × ((channel_delete a c).chns d ≡ (if d == c then empty_chn else a.chns d))
unfolding channel_delete
channel_delete-IsLinked a c d linked used =
    let (j, at, below) = linked.perm_home (a.chns c).owner (linked.up c used).0 in
    let some_owner : (a.chns c).owner ≢ 0 = λ same. omega (arith, same, at) in
    let no : ((a.chns c).owner == 0) ≡ false = ground (arith, some_owner) in
    rw no (
      IsLinked-detached a (a.chns c).owner c (addr_get_port (a.chns c).peer_addr) linked used refl
          refl,
      refl,
    )

-- The channels that delete_channel_info has cleared after some entries.
abbrev named : ℕ → List Entry → Bool
named d [] = false
named d (e ∷ es) = not (e.value == 0) && d == e.value || named d es

abbrev cleared : Allocation → List Entry → Allocation
cleared a es = record a { chns = λ d. if named d es then empty_chn else a.chns d }

call_all-cleared :
    (es : List Entry) (a : Allocation) → call_all delete_channel_info es a ≡ (cleared a es, false)
unfolding call_all
call_all-cleared [] a = refl
call_all-cleared (e ∷ es) a = elim (Bool-cases (e.value == 0)) [
  | inl z ↦ rw z (call_all-cleared es a)
  | inr z ↦ rw z (
      call_all-cleared es (set_chn a e.value empty_chn)
      ∙ ap (λ t. (record a { chns = t }, false)) (fun_ext (λ d. ground arith)))
]

named-visits : (d : ℕ) (es : List Entry) → named d es ≡ true → (k : ℕ) × (visits k d es ≡ true)
named-visits d [] e = cc
named-visits d (x ∷ es) e = elim (eq-cases d x.value) [
  | inl same ↦ (x.key, ground (arith, same))
  | inr other ↦
      let (k, seen) = named-visits d es (ground (arith, e, other)) in (k, ground (arith, seen))
]

visits-named : (k d : ℕ) (es : List Entry) → d ≢ 0 → visits k d es ≡ true → named d es ≡ true
visits-named k d [] n e = cc
visits-named k d (x ∷ es) n e = ground (arith, visits-named k d es n)

module _ (a : Allocation) (p : ℕ) (linked : IsLinked a)
    (used_p : (a.perms p).allocated ≡ true) where
  abbrev after : Allocation
  after = set_perm (cleared a (entries (a.perms p).chns)) p empty_perm

  -- The channels that are cleared are those of the permission.
  named-owner :
      (d : ℕ)
      → named d (entries (a.perms p).chns) ≡ true
      → ((a.chns d).allocated ≡ true) × ((a.chns d).owner ≡ p)
  named-owner d e =
      let (k, seen) = named-visits d (entries (a.perms p).chns) e in
      let (used, owner, port) =
        linked.back p k d used_p ((visits-entries (a.perms p).chns k d (linked.maps p)).1 seen) in
      (used, owner)

  owner-named :
      (d : ℕ)
      → (a.chns d).allocated ≡ true
      → (a.chns d).owner ≡ p
      → named d (entries (a.perms p).chns) ≡ true
  owner-named d used owner =
      let (host, same, found, number) = linked.up d used in
      let (j, at, below) = linked.chn_home d used in
      let k = addr_get_port (a.chns d).peer_addr in
      visits-named k d (entries (a.perms p).chns) (λ z. omega (arith, z, at))
        ((visits-entries (a.perms p).chns k d (linked.maps p)).0 (rw owner at found))

  -- A channel that is left is one of another permission.
  left_chn :
      (d : ℕ)
      → (after.chns d).allocated ≡ true
      → (named d (entries (a.perms p).chns) ≡ false)
        × ((a.chns d).allocated ≡ true)
        × ((a.chns d).owner ≢ p)
  left_chn d used = elim (Bool-cases (named d (entries (a.perms p).chns))) [
    | inl yes_d ↦ absurd (ground (arith, used, yes_d))
    | inr no_d ↦
        let before : (a.chns d).allocated ≡ true = rw no_d at used in
        (no_d, before, λ owner. cc (no_d, owner-named d before owner))
  ]

  left_perm :
      (q : ℕ)
      → (after.perms q).allocated ≡ true
      → ((q == p) ≡ false) × ((a.perms q).allocated ≡ true)
  left_perm q used = ground (arith, used)

  maps_left : (q : ℕ) → LmMap.Laws.IsValid (after.perms q).chns
  maps_left q = elim (Bool-cases (q == p)) [
    | inl same ↦ rw same LmMap.Laws.init-IsValid
    | inr other ↦ rw other (linked.maps q)
  ]

  up_left : (d : ℕ) → (after.chns d).allocated ≡ true → LinksUp after d
  up_left d used =
      let (no_d, before, owner) = left_chn d used in
      let no : ((a.chns d).owner == p) ≡ false = ground (arith, owner) in
      rw (no_d, no) (linked.up d before)

  back_left :
      (q k d : ℕ)
      → (after.perms q).allocated ≡ true
      → LmMap.get (after.perms q).chns k ≡ some d
      → LinksBack after q k d
  back_left q k d used e =
      let (other, before) = left_perm q used in
      let back = linked.back q k d before (rw other at e) in
      let no_d : named d (entries (a.perms p).chns) ≡ false =
        ground (arith, named-owner d, back, other) in
      rw no_d back

  IsLinked-after : IsLinked after
  IsLinked-after = record {
    perm_home =
        λ q used. let (other, before) = left_perm q used in rw other (linked.perm_home q before);
    perm_unique = λ q r used used' same.
        ground (arith, left_perm q used, left_perm r used', linked.perm_unique q r, same);
    chn_home =
        λ d used. let (no_d, before, owner) = left_chn d used in rw no_d (linked.chn_home d before);
    chn_unique = λ d e used used' same.
        ground (arith, left_chn d used, left_chn e used', linked.chn_unique d e, same);
    maps = maps_left;
    up = up_left;
    back = back_left;
    owned = λ q used. let (other, before) = left_perm q used in rw other (linked.owned q before);
    ports =
        λ d used. let (no_d, before, owner) = left_chn d used in rw no_d (linked.ports d before);
  }

permission_clean-after :
    (a : Allocation) (p : ℕ)
    → (a.perms p).allocated ≡ true
    → permission_clean a p ≡ set_perm (cleared a (entries (a.perms p).chns)) p empty_perm
unfolding permission_clean foreach
permission_clean-after a p used =
    rw used (ap (λ t. set_perm t.0 p empty_perm) (call_all-cleared (entries (a.perms p).chns) a))

-- Cleaning a permission of linked tables leaves linked tables, in which its slot is not in use, every
-- other permission is as before, and a channel is left exactly when it is one of another permission.
pub permission_clean-IsLinked :
    (a : Allocation) (p q c : ℕ)
    → IsLinked a
    → (a.perms p).allocated ≡ true
    → IsLinked (permission_clean a p)
      × ((permission_clean a p).perms q ≡ (if q == p then empty_perm else a.perms q))
      × (((permission_clean a p).chns c).allocated ≡ true
          ↔ ((a.chns c).allocated ≡ true) × ((a.chns c).owner ≢ p))
permission_clean-IsLinked a p q c linked used = rw (permission_clean-after a p used) (
  IsLinked-after a p linked used,
  refl,
  (
    λ used_c.
        let (cleared_not, before, other) = left_chn a p linked used c used_c in (before, other),
    λ h.
        let other : named c (entries (a.perms p).chns) ≡ false =
          ground (arith, named-owner a p linked used c, h) in
        rw other h.0,
  ),
)
