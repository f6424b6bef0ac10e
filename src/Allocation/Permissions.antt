-- ===== src/Allocation/Permissions.antt =====
-- allocation_add_permission on an allocation whose tables are linked.
use webrtc_caller.Base.{
  ℕ, ◌+◌, ◌≤◌, ◌<◌, ◌≡◌, refl, ◌≢◌, inl, inr, true, false, none, arith, ◌==◌, if◌then◌else◌,
  ==-refl, Bool-cases, Option-cases, eq-cases, update,
}
use webrtc_caller.Addr.{IoaAddr, addr_eq_no_port}
use webrtc_caller.Addr.Host.{addr_eq_no_port-sym}
use webrtc_caller.Maps.LmMap.{LmMap}
use webrtc_caller.Maps.LmMap
use webrtc_caller.Maps.LmMap.Laws
use webrtc_caller.Allocation.{
  Allocation, perm_index, perm_unused, new_perm, set_perm, get_permission, add_permission,
}
use webrtc_caller.Allocation.Slots.{ptr, find_slot, find_slot-some}
use webrtc_caller.Allocation.Linked.{InBucket, IsLinked, ptr-injective, get_permission-none}

-- The allocation with a new permission in a slot, and the sizes of the buckets.
abbrev pub granted : Allocation → IoaAddr → ℕ → (ℕ → ℕ) → Allocation
granted a addr p sz = record (set_perm a p (new_perm addr)) { perm_sz = sz }

-- The slot was not in use and is one of the bucket of the address.
pub record Granted (a : Allocation) (addr : IoaAddr) (p : ℕ) (sz : ℕ → ℕ) : Type 0 where
  pub unused : (a.perms p).allocated ≡ false
  pub home : InBucket p sz (perm_index addr)
  pub grows : (i : ℕ) → a.perm_sz i ≤ sz i

module _ (a : Allocation) (linked : IsLinked a) (addr : IoaAddr) where
  abbrev bucket : ℕ
  bucket = perm_index addr

  -- The slot behind the last one of a bucket is not in use.
  beyond_unused : (a.perms (ptr bucket (a.perm_sz bucket))).allocated ≡ false
  beyond_unused = elim (Bool-cases (a.perms (ptr bucket (a.perm_sz bucket))).allocated) [
    | inr no_use ↦ no_use
    | inl used ↦
        let (j, at, below) = linked.perm_home (ptr bucket (a.perm_sz bucket)) used in
        let there = perm_index (a.perms (ptr bucket (a.perm_sz bucket))).addr in
        let (same, last) =
          ptr-injective bucket there (a.perm_sz bucket) j (omega arith) (omega arith) at in
        let below' : j < a.perm_sz bucket = rw same below in absurd (omega (arith, below', last))
  ]

  pub add_permission-Granted :
      (p : ℕ) × (sz : ℕ → ℕ) × Granted a addr p sz
      × (add_permission a addr ≡ (p, granted a addr p sz))
  unfolding add_permission
  add_permission-Granted =
      elim (Option-cases (find_slot (perm_unused a) bucket 0 (a.perm_sz bucket))) [
        | inr (p, e) ↦
            let (j, at, low, below, free) =
              find_slot-some (perm_unused a) bucket 0 (a.perm_sz bucket) p e in
            (
              p,
              a.perm_sz,
              record {
                unused = ground (arith, free);
                home = (j, at, omega arith);
                grows = λ i. omega arith;
              },
              rw (e, add_permission) refl,
            )
        | inl e ↦ (
          ptr bucket (a.perm_sz bucket),
          update a.perm_sz bucket (a.perm_sz bucket + 1),
          record {
            unused = beyond_unused;
            home = (a.perm_sz bucket, refl, ground arith);
            grows = λ i. ground arith;
          },
          rw (e, add_permission) refl,
        )
      ]

-- A slot in use stays in its bucket when the buckets grow.
pub InBucket-grows :
    (p bucket : ℕ) (sz sz' : ℕ → ℕ)
    → ((i : ℕ) → sz i ≤ sz' i)
    → InBucket p sz bucket
    → InBucket p sz' bucket
InBucket-grows p bucket sz sz' grows (j, at, below) = (j, at, omega (arith, below, grows bucket))

module _ (a : Allocation) (addr : IoaAddr) (p : ℕ) (sz : ℕ → ℕ) (linked : IsLinked a)
    (absent : get_permission a addr ≡ none) (g : Granted a addr p sz) where
  used_before : (q : ℕ) → (a.perms q).allocated ≡ true → q ≢ p
  used_before q used same = cc (g.unused, used, same)

  not_host : (q : ℕ) → (a.perms q).allocated ≡ true → addr_eq_no_port (a.perms q).addr addr ≡ false
  not_host q used = get_permission-none a linked addr q absent used

  home_kept :
      (q : ℕ)
      → (if q == p then new_perm addr else a.perms q).allocated ≡ true
      → InBucket q sz (perm_index (if q == p then new_perm addr else a.perms q).addr)
  home_kept q used = elim (eq-cases q p) [
    | inl same ↦ rw (same, ==-refl p) g.home
    | inr other ↦
        let no : (q == p) ≡ false = ground (arith, other) in
        rw no (
          InBucket-grows q (perm_index (a.perms q).addr) a.perm_sz sz g.grows
            (linked.perm_home q (rw no at used)))
  ]

  maps_kept : (q : ℕ) → LmMap.Laws.IsValid (if q == p then new_perm addr else a.perms q).chns
  maps_kept q = elim (Bool-cases (q == p)) [
    | inl same ↦ rw same LmMap.Laws.init-IsValid
    | inr other ↦ rw other (linked.maps q)
  ]

  pub Granted-IsLinked : IsLinked (granted a addr p sz)
  Granted-IsLinked = record {
    perm_home = home_kept;
    perm_unique = λ q r used used' same. ground (
      arith,
      not_host q,
      not_host r,
      linked.perm_unique q r,
      addr_eq_no_port-sym addr (a.perms r).addr,
    );
    chn_home = linked.chn_home;
    chn_unique = linked.chn_unique;
    maps = maps_kept;
    up = λ c used.
        let n = used_before (a.chns c).owner (linked.up c used).0 in
        ground (arith, linked.up c used, n);
    back = λ q k c used e. ground (arith, used, e, linked.back q k c, LmMap.Laws.get-init k);
    owned = λ q used. ground (arith, used, linked.owned q);
    ports = linked.ports;
  }
