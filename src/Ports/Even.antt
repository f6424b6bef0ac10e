-- ===== src/Ports/Even.antt =====
-- turnports_allocate_even: its rounds and the ports that it takes.
use webrtc_caller.Base.{
  ℕ, ◌+◌, ◌%◌, ◌≤◌, ◌≡◌, ◌⊎◌, Bool, false, ◌&&◌, ◌||◌, Option, none, some, ◌==◌,
}
use webrtc_caller.Ports.{PortTable, is_taken, Outcome, found, again, Token}

abbrev taken : PortTable → ℕ → Bool
taken t q = is_taken (t.status q)

-- What a round leaves. It goes on with the same ports taken and one new position at most, or it has
-- found an even free port `p` of the range, with `p + 1` in the same case if that is asked for, and
-- those alone are taken in addition.
abbrev RoundLeaves : Bool → PortTable → Outcome → Type 0
RoundLeaves rtcp t (again t') =
    ((q : ℕ) → taken t' q ≡ taken t q)
    × (t'.high ≤ t.high + 1)
    × (t'.range_start ≡ t.range_start)
    × (t'.range_stop ≡ t.range_stop)
RoundLeaves rtcp t (found p token t') =
    (p % 2 ≡ 0)
    × (t.range_start ≤ p)
    × (p ≤ t.range_stop)
    × (taken t p ≡ false)
    × ((rtcp ≡ false) ⊎ ((p + 1 ≤ t.range_stop) × (taken t (p + 1) ≡ false)))
    × ((q : ℕ) → taken t' q ≡ (taken t q || q == p || rtcp && q == p + 1))

-- The ports that a call has taken: none when it fails, and otherwise `p`, with `p + 1` for a pair.
abbrev pub TakesEven : Bool → PortTable → Option (ℕ × Option Token) × PortTable → Type 0
TakesEven rtcp t (none, t') = (q : ℕ) → taken t' q ≡ taken t q
TakesEven rtcp t (some (p, token), t') = RoundLeaves rtcp t (found p token t')
