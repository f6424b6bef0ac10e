-- ===== src/Allocation/Channels.antt =====
-- allocation_get_new_ch_info on an allocation whose tables are linked.
use webrtc_caller.Base.{
  ℕ, ◌+◌, ◌≤◌, ◌<◌, ◌≡◌, refl, sym, ap, ◌∙◌, fun_ext, ◌≢◌, inl, inr, true, false, ◌&&◌, none, some,
  arith, ◌==◌, if◌then◌else◌, ==-refl, Bool-cases, Option-cases, eq-cases, update, u16,
}
use webrtc_caller.Stun.Types.{valid_channel}
use webrtc_caller.Addr.{IoaAddr, addr_eq_no_port, addr_get_port}
use webrtc_caller.Maps.LmMap.{LmMap}
use webrtc_caller.Maps.LmMap
use webrtc_caller.Maps.LmMap.Laws
use webrtc_caller.Allocation.{
  ChInfo, Allocation, empty_chn, chn_index, chn_of, chn_unused, set_perm, set_chn, with_channel,
  new_slot, get_ch_info, get_turn_channel,
}
use webrtc_caller.Allocation.Slots.{ptr, find_slot, find_slot-some, find_slot-only}
use webrtc_caller.Allocation.Linked.{InBucket, LinksUp, LinksBack, IsLinked, ptr-injective}
use webrtc_caller.Allocation.Permissions.{InBucket-grows}

pub get_ch_info-some :
    (a : Allocation) (chnum c : ℕ)
    → get_ch_info a chnum ≡ some c
    → ((a.chns c).allocated ≡ true) × ((a.chns c).chnum ≡ chnum)
unfolding get_ch_info
get_ch_info-some a chnum c e =
    let (j, same, low, high, yes_c) =
      find_slot-some (chn_of a chnum) (chn_index chnum) 0 (a.chn_sz (chn_index chnum)) c e in
    ground (arith, yes_c)

module _ (a : Allocation) (linked : IsLinked a) where
  -- A channel in use is found under its number.
  pub get_ch_info-linked :
      (c : ℕ) → (a.chns c).allocated ≡ true → get_ch_info a (a.chns c).chnum ≡ some c
  unfolding get_ch_info
  get_ch_info-linked c used =
      let (j, at, below) = linked.chn_home c used in
      let bucket = chn_index (a.chns c).chnum in
      let only : (k : ℕ) → chn_of a (a.chns c).chnum (ptr bucket k) ≡ true → k ≡ j = λ k yes_k.
        let same_slot : ptr bucket k ≡ c =
          linked.chn_unique (ptr bucket k) c (ground (arith, yes_k)) used (ground (arith, yes_k)) in
        omega (arith, same_slot, at) in
      let here : chn_of a (a.chns c).chnum (ptr bucket j) ≡ true =
        rw (← at) (ground (arith, used)) in
      find_slot-only (chn_of a (a.chns c).chnum) bucket 0 (a.chn_sz bucket) j (omega arith)
        (omega (arith, below)) here only
      ∙ ap some (sym at)

  pub get_ch_info-none :
      (chnum c : ℕ)
      → get_ch_info a chnum ≡ none
      → (a.chns c).allocated ≡ true
      → (a.chns c).chnum ≢ chnum
  get_ch_info-none chnum c e used same =
      let found : get_ch_info a chnum ≡ some c = rw same at (get_ch_info-linked c used) in
      cc (e, found)

  -- A channel in use is found by its peer in the map of its permission.
  pub get_turn_channel-linked :
      (c : ℕ)
      → (a.chns c).allocated ≡ true
      → get_turn_channel a (a.chns c).owner (a.chns c).peer_addr ≡ some c
  unfolding get_turn_channel
  get_turn_channel-linked c used =
      let (j, at, below) = linked.chn_home c used in
      let z : c ≢ 0 = λ same. omega (arith, same, at) in ground (arith, linked.up c used, z)

  -- The channel that the map of a permission gives is one of that permission.
  pub get_turn_channel-some :
      (p c : ℕ) (b : IoaAddr)
      → (a.perms p).allocated ≡ true
      → get_turn_channel a p b ≡ some c
      → LinksBack a p (addr_get_port b) c
  unfolding get_turn_channel
  get_turn_channel-some p c b used e = linked.back p (addr_get_port b) c used (ground (arith, e))

  pub get_turn_channel-none :
      (p : ℕ) (b : IoaAddr)
      → (a.perms p).allocated ≡ true
      → get_turn_channel a p b ≡ none
      → LmMap.get (a.perms p).chns (addr_get_port b) ≡ none
  unfolding get_turn_channel
  get_turn_channel-none p b used e =
      elim (Option-cases (LmMap.get (a.perms p).chns (addr_get_port b))) [
        | inl absent ↦ absent
        | inr (c, found) ↦
            let (used_c, owner, port) = linked.back p (addr_get_port b) c used found in
            let (j, at, below) = linked.chn_home c used_c in
            let z : c ≢ 0 = λ same. omega (arith, same, at) in
            absurd (ground (arith, linked.up c used_c, z, found, e))
      ]

-- The allocation with a new channel in a slot and in the map of its permission, and the sizes of the
-- buckets.
abbrev pub attached : Allocation → ℕ → ℕ → ChInfo → (ℕ → ℕ) → Allocation
attached a p c info sz =
    record (set_perm (set_chn a c info) p
      (with_channel (a.perms p) (addr_get_port info.peer_addr) c)) { chn_sz = sz }

-- The slot was not in use and is one of the bucket of the number.
pub record Opened (a : Allocation) (chnum c : ℕ) (sz : ℕ → ℕ) : Type 0 where
  pub unused : (a.chns c).allocated ≡ false
  pub home : InBucket c sz (chn_index chnum)
  pub grows : (i : ℕ) → a.chn_sz i ≤ sz i

-- The permission is one for the peer and has no channel for its port.
pub record Vacant (a : Allocation) (p : ℕ) (addr : IoaAddr) : Type 0 where
  pub used : (a.perms p).allocated ≡ true
  pub host : addr_eq_no_port (a.perms p).addr addr ≡ true
  pub port : addr_get_port addr ≢ 0
  pub absent : LmMap.get (a.perms p).chns (addr_get_port addr) ≡ none

-- What is written into the slot.
pub record Fresh (p chnum : ℕ) (addr : IoaAddr) (info : ChInfo) : Type 0 where
  pub used : info.allocated ≡ true
  pub number : info.chnum ≡ chnum
  pub peer : info.peer_addr ≡ addr
  pub owner : info.owner ≡ p
  pub port : info.port ≡ u16 (addr_get_port addr)

module _ (a : Allocation) (p c chnum : ℕ) (addr : IoaAddr) (info : ChInfo) (sz : ℕ → ℕ)
    (linked : IsLinked a) (vacant : Vacant a p addr) (opened : Opened a chnum c sz)
    (fresh : Fresh p chnum addr info) (unknown : get_ch_info a chnum ≡ none)
    (valid : valid_channel chnum ≡ true) where
  c_nonzero : c ≢ 0
  c_nonzero same = let (j, at, below) = opened.home in omega (arith, same, at)

  stored :
      (k : ℕ)
      → ((LmMap.put (a.perms p).chns (addr_get_port addr) c).1 ≡ true)
        × LmMap.Laws.IsValid (LmMap.put (a.perms p).chns (addr_get_port addr) c).0
        × (LmMap.get (LmMap.put (a.perms p).chns (addr_get_port addr) c).0 k
            ≡ (if k == addr_get_port addr then some c else LmMap.get (a.perms p).chns k))
  stored k =
      LmMap.Laws.get-put_absent (a.perms p).chns (addr_get_port addr) c k (linked.maps p)
        vacant.port c_nonzero vacant.absent

  -- The permissions keep their addresses.
  same_perm :
      (q : ℕ)
      → (((attached a p c info sz).perms q).allocated ≡ (a.perms q).allocated)
        × (((attached a p c info sz).perms q).addr ≡ (a.perms q).addr)
  same_perm q = elim (eq-cases q p) [
    | inl same ↦ rw (same, ==-refl p) (refl, refl)
    | inr other ↦ let no : (q == p) ≡ false = ground (arith, other) in rw no (refl, refl)
  ]

  chn_home_kept :
      (d : ℕ)
      → (if d == c then info else a.chns d).allocated ≡ true
      → InBucket d sz (chn_index (if d == c then info else a.chns d).chnum)
  chn_home_kept d used = elim (eq-cases d c) [
    | inl same ↦ rw (same, ==-refl c, fresh.number) opened.home
    | inr other ↦
        let no : (d == c) ≡ false = ground (arith, other) in
        rw no (
          InBucket-grows d (chn_index (a.chns d).chnum) a.chn_sz sz opened.grows
            (linked.chn_home d (rw no at used)))
  ]

  maps_kept : (q : ℕ) → LmMap.Laws.IsValid ((attached a p c info sz).perms q).chns
  maps_kept q = elim (eq-cases q p) [
    | inl same ↦ rw (same, ==-refl p, fresh.peer) (stored 0).1
    | inr other ↦ let no : (q == p) ≡ false = ground (arith, other) in rw no (linked.maps q)
  ]

  -- Only the port of the peer reads another channel.
  get_kept :
      (q k : ℕ)
      → LmMap.get ((attached a p c info sz).perms q).chns k
        ≡ (if q == p && k == addr_get_port addr then some c else LmMap.get (a.perms q).chns k)
  get_kept q k = elim (eq-cases q p) [
    | inl same ↦ rw (same, ==-refl p, fresh.peer) (stored k).2
    | inr other ↦ let no : (q == p) ≡ false = ground (arith, other) in rw no refl
  ]

  up_other : (d : ℕ) → d ≢ c → (a.chns d).allocated ≡ true → LinksUp (attached a p c info sz) d
  up_other d other used =
      let no : (d == c) ≡ false = ground (arith, other) in
      let (host, same, found, number) = linked.up d used in
      let q = (a.chns d).owner in
      let (same_used, same_addr) = same_perm q in
      rw no (
        same_used ∙ host,
        rw same_addr same,
        ground (arith, get_kept q (addr_get_port (a.chns d).peer_addr), found, vacant.absent),
        number,
      )

  up_kept :
      (d : ℕ)
      → ((attached a p c info sz).chns d).allocated ≡ true
      → LinksUp (attached a p c info sz) d
  up_kept d used = elim (eq-cases d c) [
    | inl same ↦
        rw (same, ==-refl c, fresh.owner, ==-refl p, fresh.peer, fresh.number)
          (vacant.used, vacant.host, ground (arith, stored (addr_get_port addr)), valid)
    | inr other ↦ up_other d other (ground (arith, used, other))
  ]

  back_one :
      (q k : ℕ)
      → ((attached a p c info sz).perms q).allocated ≡ true
      → LmMap.get ((attached a p c info sz).perms q).chns k ≡ some c
      → (q ≡ p) × (k ≡ addr_get_port addr)
  back_one q k used e =
      ground (arith, get_kept q k, e, linked.back q k c (sym (same_perm q).0 ∙ used), opened.unused)

  back_kept :
      (q k d : ℕ)
      → ((attached a p c info sz).perms q).allocated ≡ true
      → LmMap.get ((attached a p c info sz).perms q).chns k ≡ some d
      → LinksBack (attached a p c info sz) q k d
  back_kept q k d used e = elim (eq-cases d c) [
    | inl same ↦
        let (at_p, at_port) = back_one q k used (rw same at e) in
        rw (same, ==-refl c, fresh.used, fresh.owner, fresh.peer) (refl, sym at_p, sym at_port)
    | inr other ↦
        let no : (d == c) ≡ false = ground (arith, other) in
        rw no
          (linked.back q k d (sym (same_perm q).0 ∙ used) (ground (arith, get_kept q k, e, other)))
  ]

  pub IsLinked-attached : IsLinked (attached a p c info sz)
  IsLinked-attached = record {
    perm_home = λ q used. rw (same_perm q).1 (linked.perm_home q (sym (same_perm q).0 ∙ used));
    perm_unique = λ q r used used' same.
        linked.perm_unique q r (sym (same_perm q).0 ∙ used) (sym (same_perm r).0 ∙ used')
          (rw ((same_perm q).1, (same_perm r).1) at same);
    chn_home = chn_home_kept;
    chn_unique = λ d e used used' same. ground (
      arith,
      fresh.number,
      get_ch_info-none a linked chnum d unknown,
      get_ch_info-none a linked chnum e unknown,
      linked.chn_unique d e,
    );
    maps = maps_kept;
    up = up_kept;
    back = back_kept;
    owned = λ q used. ground (arith, used, linked.owned q, linked.owned p, vacant.used);
    ports = λ d used. ground (arith, used, linked.ports d, fresh.port, fresh.peer);
  }

-- The slot of a new channel, with what it held.
abbrev pub opened_with : Allocation → ℕ → ChInfo → (ℕ → ℕ) → Allocation
opened_with a c old sz = record (set_chn a c old) { chn_sz = sz }

set_chn_same : (a : Allocation) (c : ℕ) → a ≡ opened_with a c (a.chns c) a.chn_sz
set_chn_same a c = ap (λ t. record a { chns = t }) (fun_ext (λ d. ground arith))

pub set_chn_again :
    (a : Allocation) (c : ℕ) (old new : ChInfo) (sz : ℕ → ℕ)
    → set_chn (opened_with a c old sz) c new ≡ opened_with a c new sz
set_chn_again a c old new sz =
    ap (λ t. record a { chns = t; chn_sz = sz }) (fun_ext (λ d. ground arith))

module _ (a : Allocation) (linked : IsLinked a) (chnum : ℕ) where
  abbrev bucket : ℕ
  bucket = chn_index chnum

  -- The slot behind the last one of a bucket is not in use.
  beyond_unused : (a.chns (ptr bucket (a.chn_sz bucket))).allocated ≡ false
  beyond_unused = elim (Bool-cases (a.chns (ptr bucket (a.chn_sz bucket))).allocated) [
    | inr no_use ↦ no_use
    | inl used ↦
        let (j, at, below) = linked.chn_home (ptr bucket (a.chn_sz bucket)) used in
        let there = chn_index (a.chns (ptr bucket (a.chn_sz bucket))).chnum in
        let (same, last) =
          ptr-injective bucket there (a.chn_sz bucket) j (omega arith) (omega arith) at in
        let below' : j < a.chn_sz bucket = rw same below in absurd (omega (arith, below', last))
  ]

  pub new_slot-Opened :
      (c : ℕ) × (old : ChInfo) × (sz : ℕ → ℕ) × Opened a chnum c sz
      × (new_slot a chnum ≡ (c, opened_with a c old sz))
  unfolding new_slot
  new_slot-Opened = elim (Option-cases (find_slot (chn_unused a) bucket 0 (a.chn_sz bucket))) [
    | inr (c, e) ↦
        let (j, at, low, below, free) =
          find_slot-some (chn_unused a) bucket 0 (a.chn_sz bucket) c e in
        (
          c,
          a.chns c,
          a.chn_sz,
          record {
            unused = ground (arith, free);
            home = (j, at, omega arith);
            grows = λ i. omega arith;
          },
          rw (e, new_slot) (ap (λ t. (c, t)) (set_chn_same a c)),
        )
    | inl e ↦ (
      ptr bucket (a.chn_sz bucket),
      empty_chn,
      update a.chn_sz bucket (a.chn_sz bucket + 1),
      record {
        unused = beyond_unused;
        home = (a.chn_sz bucket, refl, ground arith);
        grows = λ i. ground arith;
      },
      rw (e, new_slot) refl,
    )
  ]
