-- ===== src/Ports/Valid.antt =====
-- The representation invariant of struct _turnports, and the room that a release needs.
use webrtc_caller.Base.{ℕ, ◌+◌, ◌%◌, ◌≤◌, ◌<◌, ◌≡◌, ◌⊎◌, true, false, arith}
use webrtc_caller.Ports.{PortTable, ports_size, is_taken, taken_odd}

-- An entry holds a port of the range.
abbrev pub EntryInRange : PortTable → ℕ → Type 0
EntryInRange t k =
    (t.range_start ≤ t.ports (k % ports_size)) × (t.ports (k % ports_size) ≤ t.range_stop)

-- A port of the range is taken, or its status is the position of its entry.
abbrev pub IsListed : PortTable → ℕ → Type 0
IsListed t p =
    (is_taken (t.status p) ≡ true)
    ⊎ ((t.low ≤ t.status p) × (t.status p < t.high) × (t.ports (t.status p % ports_size) ≡ p))

pub record IsValid (t : PortTable) : Type 0 where
  pub range_order : t.range_start ≤ t.range_stop
  pub range_bound : t.range_stop < ports_size
  pub order : t.low ≤ t.high
  pub window : t.high ≤ t.low + ports_size
  -- no position is read as a mark
  pub young : t.high ≤ taken_odd
  pub in_range : (k : ℕ) → t.low ≤ k → k < t.high → EntryInRange t k
  pub listed : (p : ℕ) → t.range_start ≤ p → p ≤ t.range_stop → IsListed t p

-- A release finds a position that no entry uses, below the marks.
abbrev pub HasRoom : PortTable → Type 0
HasRoom t = (t.high < t.low + ports_size) × (t.high < taken_odd)

-- A position below the marks is not a mark.
pub is_taken-position : (k : ℕ) → k < taken_odd → is_taken k ≡ false
unfolding is_taken
is_taken-position k h = ground arith
