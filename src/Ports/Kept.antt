-- ===== src/Ports/Kept.antt =====
-- The invariant of the table under its operations.
use webrtc_caller.Base.{
  ℕ, zero, suc, ◌+◌, ◌%◌, ◌≤◌, ◌<◌, ◌≡◌, refl, ◌⊎◌, inl, inr, Bool, true, false, Option, none, some,
  arith, ltb, ◌==◌, Bool-cases, u16,
}
use webrtc_caller.Ports.{
  PortTable, ports_size, is_taken, taken_odd, release, is_available, allocate, Outcome, found,
  again, pair_taken, even_round, even_loop, allocate_even, size,
}
use webrtc_caller.Ports.Valid.{IsValid, HasRoom}
use webrtc_caller.Ports.Pop.{Popped, allocate-Popped}
use webrtc_caller.Ports.Push.{release-IsValid, high-release}

pair_taken-IsValid : (t : PortTable) (p : ℕ) → IsValid t → IsValid (pair_taken t p)
unfolding is_taken
pair_taken-IsValid t p v = record {
  range_order = v.range_order;
  range_bound = v.range_bound;
  order = v.order;
  window = v.window;
  young = v.young;
  in_range = v.in_range;
  listed = λ q a b. ground (arith, v.listed q a b);
}

abbrev RoundKeeps : PortTable → Outcome → Type 0
RoundKeeps t (again t') = IsValid t' × (t'.high ≤ t.high + 1)
RoundKeeps t (found p token t') = IsValid t'

release_keeps :
    (t t' : PortTable) (p : ℕ)
    → IsValid t'
    → t'.high ≡ t.high
    → t'.high < t'.low + ports_size
    → t.high < taken_odd
    → RoundKeeps t (again (release t' p))
release_keeps t t' p v same room young =
    (release-IsValid t' p v (room, omega arith), omega (arith, high-release t' p (omega arith)))

round_keeps :
    (rtcp wants : Bool) (random : ℕ) (t : PortTable) (out : Option ℕ × PortTable)
    → Popped t out
    → t.high < taken_odd
    → RoundKeeps t (even_round rtcp wants random out)
unfolding even_round
round_keeps rtcp wants random t (none, t') k young =
    release_keeps t t' 0xffff k.valid k.high k.room young
round_keeps rtcp wants random t (some p, t') k young = split (Bool-cases (p % 2 == 1)) rtcp
  where
    back : RoundKeeps t (again (release t' (u16 p)))
    back = release_keeps t t' (u16 p) k.valid k.high k.room young

    split :
        ((p % 2 == 1) ≡ true) ⊎ ((p % 2 == 1) ≡ false)
        → (rtcp : Bool) → RoundKeeps t (even_round rtcp wants random (some p, t'))
    split (inl odd) rtcp = rw odd back
    split (inr even) false = rw even k.valid
    split (inr even) true = elim (Bool-cases (ltb t'.range_stop (p + 1))) [
      | inl beyond ↦ rw (even, beyond) back
      | inr within ↦ elim (Bool-cases (is_available t' (u16 (p + 1)))) [
        | inl free ↦ rw (even, within, free) (pair_taken-IsValid t' p k.valid)
        | inr held ↦ rw (even, within, held) back
      ]
    ]

even_loop_keeps :
    (rtcp wants : Bool) (random n : ℕ) (t : PortTable)
    → IsValid t
    → t.high + n ≤ taken_odd
    → IsValid (even_loop rtcp wants random n t).1
unfolding even_loop
even_loop_keeps rtcp wants random zero t v h = v
even_loop_keeps rtcp wants random (suc n) t v h =
    go (even_round rtcp wants random (allocate t)) refl (even_loop_keeps rtcp wants random n)
      (round_keeps rtcp wants random t (allocate t) (allocate-Popped t v) (omega arith))
  where
    go :
        (o : Outcome)
        → even_round rtcp wants random (allocate t) ≡ o
        → ((t' : PortTable)
            → IsValid t'
            → t'.high + n ≤ taken_odd
            → IsValid (even_loop rtcp wants random n t').1)
        → RoundKeeps t (even_round rtcp wants random (allocate t))
        → IsValid (even_loop rtcp wants random (suc n) t).1
    go (found p token t') e ih r = rw (e, even_loop) (rw e at r)
    go (again t') e ih r =
        let r' : RoundKeeps t (again t') = rw e at r in
        rw (e, even_loop) (ih t' r'.0 (omega (arith, r'.1)))

pub allocate_even-IsValid :
    (rtcp wants : Bool) (random : ℕ) (t : PortTable)
    → IsValid t
    → t.high + ports_size ≤ taken_odd
    → IsValid (allocate_even rtcp wants random t).1
unfolding allocate_even
allocate_even-IsValid rtcp wants random t v h = elim (Bool-cases (ltb 1 (size t))) [
  | inl many ↦ rw many (even_loop_keeps rtcp wants random (size t) t v (unfold size in omega arith))
  | inr few ↦ rw few v
]

-- Each operation of the table keeps the invariant: turnports_allocate without a condition,
-- turnports_release where the array has room, and turnports_allocate_even while the positions
-- stay below the marks.
pub operations-IsValid :
    (rtcp wants : Bool) (random p : ℕ) (t : PortTable)
    → IsValid t
    → HasRoom t
    → t.high + ports_size ≤ taken_odd
    → IsValid (allocate t).1 × IsValid (release t p) × IsValid (allocate_even rtcp wants random t).1
operations-IsValid rtcp wants random p t v room young = (
  (allocate-Popped t v).valid,
  release-IsValid t p v room,
  allocate_even-IsValid rtcp wants random t v young,
)
