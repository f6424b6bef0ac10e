-- ===== src/Ports/Push.antt =====
-- turnports_release against the queue of the free ports.
use webrtc_caller.Base.{
  ℕ, suc, ◌+◌, ◌-◌, ◌%◌, ◌≤◌, ◌<◌, ◌≡◌, ◌≢◌, ◌⊎◌, inl, inr, true, not, ◌&&◌, [], ◌∷◌, ◌++◌, arith,
  leb, if◌then◌else◌, Bool-cases, contains, update, u32,
}
use webrtc_caller.Ports.{PortTable, ports_size, is_taken, taken_odd, release}
use webrtc_caller.Ports.Queue.{entries-status, entries-ports, entries-append, free}
use webrtc_caller.Ports.Membership.{contains-free}
use webrtc_caller.Ports.Valid.{IsValid, HasRoom}

-- Two positions of one window share no slot of the array.
slot_ne : (k j : ℕ) → j < k → k < j + ports_size → j % ports_size ≢ k % ports_size
slot_ne k j a b = omega arith

-- What turnports_release takes back.
abbrev pub IsHeld : PortTable → ℕ → Type 0
IsHeld t p = (t.range_start ≤ p) × (p ≤ t.range_stop) × (is_taken (t.status p) ≡ true)

abbrev pushed : PortTable → ℕ → PortTable
pushed t p = record t {
  status = update t.status p t.high;
  ports = update t.ports (t.high % ports_size) p;
  high = u32 (t.high + 1);
}

pub release_held : (t : PortTable) (p : ℕ) → IsHeld t p → release t p ≡ pushed t p
unfolding release
release_held t p h = ground arith

pub release_idle : (t : PortTable) (p : ℕ) → ¬ IsHeld t p → release t p ≡ t
unfolding release
release_idle t p h =
    elim (Bool-cases (leb t.range_start p && leb p t.range_stop && is_taken (t.status p))) [
      | inl e ↦ absurd (h (ground arith))
      | inr e ↦ rw e
    ]

pub IsHeld-cases : (t : PortTable) (p : ℕ) → IsHeld t p ⊎ ¬ IsHeld t p
IsHeld-cases t p =
    elim (Bool-cases (leb t.range_start p && leb p t.range_stop && is_taken (t.status p))) [
      | inl e ↦ inl (ground arith)
      | inr e ↦ inr (λ h. ground (arith, h))
    ]

pushed-IsValid : (t : PortTable) (p : ℕ) → IsValid t → HasRoom t → IsHeld t p → IsValid (pushed t p)
unfolding is_taken
pushed-IsValid t p v room h = record {
  range_order = v.range_order;
  range_bound = v.range_bound;
  order = omega (arith, v.order);
  window = omega (arith, v.window);
  young = omega (arith, v.young);
  in_range = λ k a b. ground (arith, v.in_range k, slot_ne t.high k);
  listed = λ q a b. ground (arith, v.listed q a b, slot_ne t.high (t.status q), v.order);
}

-- A release keeps the invariant where it has room.
pub release-IsValid : (t : PortTable) (p : ℕ) → IsValid t → HasRoom t → IsValid (release t p)
release-IsValid t p v room = elim (IsHeld-cases t p) [
  | inl h ↦ rw (release_held t p h) (pushed-IsValid t p v room h)
  | inr h ↦ rw (release_idle t p h) v
]

held-outside : (t : PortTable) (p : ℕ) → IsValid t → IsHeld t p → t.high ≤ t.status p
unfolding is_taken
held-outside t p v h = ground (arith, v.young)

free-pushed :
    (t : PortTable) (p : ℕ)
    → IsValid t
    → HasRoom t
    → IsHeld t p
    → free (pushed t p) ≡ free t ++ (p ∷ [])
unfolding free
free-pushed t p v room h =
    let n = t.high - t.low in
    let i = t.high % ports_size in
    let count : u32 (t.high + 1) - t.low ≡ suc n = omega (arith, v.order) in
    let top : t.low + n ≡ t.high = omega (arith, v.order) in
    let new_ports = update t.ports i p in
    let kept_status =
      entries-status t.status new_ports p t.high t.low n (inr (omega (arith, held-outside t p v h)))
        (inr (omega arith)) in
    let kept_ports =
      entries-ports t.status t.ports i p t.low n (omega arith)
        (λ j a b. slot_ne t.high j (omega arith) (omega (arith, v.window))) in
    rw
      (
        count,
        entries-append (update t.status p t.high) new_ports t.low n,
        top,
        kept_status,
        kept_ports,
      )
      (ground arith)

-- turnports_release puts a port of the range behind the free ports unless it is one of them.
-- Any other port leaves the queue as it is.
pub release_refines :
    (t : PortTable) (p : ℕ)
    → IsValid t
    → HasRoom t
    → free (release t p) ≡ (
        if leb t.range_start p && leb p t.range_stop && not (contains (free t) p)
        then free t ++ (p ∷ [])
        else free t)
release_refines t p v room = elim (IsHeld-cases t p) [
  | inl h ↦
      rw (release_held t p h, free-pushed t p v room h)
        (ground (arith, contains-free t p v h.0 h.1))
  | inr h ↦ rw (release_idle t p h) (ground (arith, h, contains-free t p v))
]

pub high-release : (t : PortTable) (p : ℕ) → t.high < taken_odd → (release t p).high ≤ t.high + 1
unfolding release is_taken
high-release t p h = ground arith

pub range-release :
    (t : PortTable) (p : ℕ)
    → ((release t p).range_start ≡ t.range_start) × ((release t p).range_stop ≡ t.range_stop)
unfolding release is_taken
range-release t p = ground arith
