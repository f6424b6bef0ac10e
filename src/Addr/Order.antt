-- ===== src/Addr/Order.antt =====
-- The order of addresses that the IP ranges use.
use webrtc_caller.Base.{ℕ, zero, suc, ◌+◌, ◌≤◌, ◌<◌, ◌≡◌, inl, inr, false, arith, eq-cases, Memory}
use webrtc_caller.Addr.{IoaAddr, af_inet6, addr_less_eq, bytes_less_eq}

-- A byte that is larger, anywhere, makes the answer no.
bytes_less_eq-false :
    (a b : Memory) (i n j : ℕ) → i ≤ j → j < i + n → b j < a j → bytes_less_eq a b i n ≡ false
unfolding bytes_less_eq
bytes_less_eq-false a b i zero j p q h = absurd (omega arith)
bytes_less_eq-false a b i (suc n) j p q h = elim (eq-cases i j) [
  | inl e ↦ larger (rw e h)
  | inr ne ↦ ground (arith, bytes_less_eq-false a b (i + 1) n j)
]
  where
    larger : b i < a i → bytes_less_eq a b i (suc n) ≡ false
    larger h = ground arith

-- Two IPv6 addresses of which one has the larger byte at `i` and the other at `j` are not comparable:
-- addr_less_eq says no in both directions.
pub addr_less_eq_incomparable :
    (a b : IoaAddr) (i j : ℕ)
    → a.family ≡ af_inet6
    → b.family ≡ af_inet6
    → i < 16
    → j < 16
    → a.sin6_addr i < b.sin6_addr i
    → b.sin6_addr j < a.sin6_addr j
    → (addr_less_eq a b ≡ false) × (addr_less_eq b a ≡ false)
unfolding addr_less_eq
addr_less_eq_incomparable a b i j fa fb hi hj lt gt = (
  rw (fa, fb) (bytes_less_eq-false a.sin6_addr b.sin6_addr 0 16 j (omega arith) (omega arith) gt),
  rw (fa, fb) (bytes_less_eq-false b.sin6_addr a.sin6_addr 0 16 i (omega arith) (omega arith) lt),
)
