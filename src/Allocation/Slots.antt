-- ===== src/Allocation/Slots.antt =====
-- The loops over the slots of one bucket.
use webrtc_caller.Base.{
  ℕ, zero, suc, ◌+◌, ◌*◌, ◌≤◌, ◌<◌, ◌≡◌, sym, inl, inr, Bool, true, false, Option, none, some,
  arith, if◌then◌else◌, Bool-cases, eq-cases,
}

-- The slot of a bucket at a position.
abbrev pub ptr : ℕ → ℕ → ℕ
ptr bucket i = suc (i * 8 + bucket)

-- The first of the `n` slots from position `i` on that passes the test.
unfoldable pub find_slot : (ℕ → Bool) → ℕ → ℕ → ℕ → Option ℕ
find_slot test bucket i zero = none
find_slot test bucket i (suc n) =
    if test (ptr bucket i) then some (ptr bucket i) else find_slot test bucket (i + 1) n

pub find_slot-none :
    (test : ℕ → Bool) (b i n j : ℕ)
    → find_slot test b i n ≡ none
    → i ≤ j
    → j < i + n
    → test (ptr b j) ≡ false
unfolding find_slot
find_slot-none test b i zero j e p q = absurd (omega arith)
find_slot-none test b i (suc n) j e p q = elim (eq-cases j i) [
  | inl z ↦ rw z (ground (arith, e))
  | inr z ↦ elim (Bool-cases (test (ptr b i))) [
    | inl y ↦ absurd (ground (arith, e, y))
    | inr y ↦
        find_slot-none test b (i + 1) n j (ground (arith, e, y)) (omega (arith, z)) (omega arith)
  ]
]

pub find_slot-some :
    (test : ℕ → Bool) (b i n p : ℕ)
    → find_slot test b i n ≡ some p
    → (j : ℕ) × (p ≡ ptr b j) × (i ≤ j) × (j < i + n) × (test p ≡ true)
unfolding find_slot
find_slot-some test b i zero p e = cc
find_slot-some test b i (suc n) p e = elim (Bool-cases (test (ptr b i))) [
  | inl y ↦
      let same : ptr b i ≡ p = ground (arith, e, y) in
      (i, sym same, omega arith, omega arith, rw (← same) y)
  | inr y ↦
      let (j, same, low, high, yes_p) = find_slot-some test b (i + 1) n p (ground (arith, e, y)) in
      (j, same, omega arith, omega arith, yes_p)
]

-- The only slot that passes is the one that is found.
pub find_slot-only :
    (test : ℕ → Bool) (b i n j : ℕ)
    → i ≤ j
    → j < i + n
    → test (ptr b j) ≡ true
    → ((k : ℕ) → test (ptr b k) ≡ true → k ≡ j)
    → find_slot test b i n ≡ some (ptr b j)
unfolding find_slot
find_slot-only test b i zero j p q t only = absurd (omega arith)
find_slot-only test b i (suc n) j p q t only = elim (eq-cases j i) [
  | inl z ↦ rw z (ground (arith, rw z at t))
  | inr z ↦
      let rest = find_slot-only test b (i + 1) n j (omega (arith, z)) (omega arith) t only in
      let not_here : test (ptr b i) ≡ false = elim (Bool-cases (test (ptr b i))) [
        | inl y ↦ absurd (z (sym (only i y)))
        | inr y ↦ y
      ] in
      ground (arith, not_here, rest)
]
