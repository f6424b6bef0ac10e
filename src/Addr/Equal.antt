-- ===== src/Addr/Equal.antt =====
-- addr_eq and addr_hash on addresses of the two families.
use webrtc_caller.Base.{ℕ, zero, suc, ◌+◌, ◌≤◌, ◌<◌, ◌≡◌, refl, ◌⊎◌, inl, inr, true, arith, Memory}
use webrtc_caller.Addr.{IoaAddr, af_inet, af_inet6, same_bytes, addr_eq, addr_hash, load_host}

abbrev pub IsInet : IoaAddr → Type 0
IsInet a = (a.family ≡ af_inet) ⊎ (a.family ≡ af_inet6)

pub same_bytes_refl : (a : Memory) (n : ℕ) → same_bytes a a n ≡ true
unfolding same_bytes
same_bytes_refl a zero = refl
same_bytes_refl a (suc n) = ground (arith, same_bytes_refl a n)

pub same_bytes-sym : (a b : Memory) (n : ℕ) → same_bytes a b n ≡ same_bytes b a n
unfolding same_bytes
same_bytes-sym a b zero = refl
same_bytes-sym a b (suc n) = ground (arith, same_bytes-sym a b n)

-- Equal bytes are interchangeable in a comparison.
pub same_bytes_trans :
    (a b c : Memory) (n : ℕ) → same_bytes a b n ≡ true → same_bytes a c n ≡ same_bytes b c n
unfolding same_bytes
same_bytes_trans a b c zero h = refl
same_bytes_trans a b c (suc n) h = ground (arith, same_bytes_trans a b c n)

pub same_bytes-at : (a b : Memory) (n j : ℕ) → same_bytes a b n ≡ true → j < n → a j ≡ b j
unfolding same_bytes
same_bytes-at a b zero j h p = absurd (omega arith)
same_bytes-at a b (suc n) j h p = ground (arith, same_bytes-at a b n j)

pub same_bytes-of : (a b : Memory) (n : ℕ) → ((j : ℕ) → j < n → a j ≡ b j) → same_bytes a b n ≡ true
unfolding same_bytes
same_bytes-of a b zero h = refl
same_bytes-of a b (suc n) h =
    ground (arith, h n (omega arith), same_bytes-of a b n (λ j p. h j (omega arith)))

pub load_host-same :
    (a b : Memory) (m i n : ℕ)
    → same_bytes a b m ≡ true
    → i + n ≤ m
    → load_host a i n ≡ load_host b i n
unfolding load_host
load_host-same a b m i zero h p = refl
load_host-same a b m i (suc n) h p =
    rw (load_host-same a b m i n h (omega arith), same_bytes-at a b m (i + n) h (omega arith))

pub addr_eq_refl : (a : IoaAddr) → IsInet a → addr_eq a a ≡ true
unfolding addr_eq
addr_eq_refl a h = ground (
  arith,
  h,
  same_bytes_refl a.port 2,
  same_bytes_refl a.sin_addr 4,
  same_bytes_refl a.sin6_addr 16,
)

pub addr_eq-sym : (a b : IoaAddr) → addr_eq a b ≡ addr_eq b a
unfolding addr_eq
addr_eq-sym a b = ground (
  arith,
  same_bytes-sym a.port b.port 2,
  same_bytes-sym a.sin_addr b.sin_addr 4,
  same_bytes-sym a.sin6_addr b.sin6_addr 16,
)

pub addr_eq_trans : (a b c : IoaAddr) → addr_eq a b ≡ true → addr_eq a c ≡ addr_eq b c
unfolding addr_eq
addr_eq_trans a b c h = ground (
  arith,
  same_bytes_trans a.port b.port c.port 2,
  same_bytes_trans a.sin_addr b.sin_addr c.sin_addr 4,
  same_bytes_trans a.sin6_addr b.sin6_addr c.sin6_addr 16,
)

-- What equal addresses share.
pub addr_eq-parts :
    (a b : IoaAddr)
    → addr_eq a b ≡ true
    → (a.family ≡ b.family)
      × (same_bytes a.port b.port 2 ≡ true)
      × ((a.family ≡ af_inet) × (same_bytes a.sin_addr b.sin_addr 4 ≡ true)
          ⊎ (a.family ≡ af_inet6) × (same_bytes a.sin6_addr b.sin6_addr 16 ≡ true))
unfolding addr_eq
addr_eq-parts a b h = ground arith

-- Equal addresses have one hash, so they are looked for in one list.
pub addr_hash-addr_eq : (a b : IoaAddr) → addr_eq a b ≡ true → addr_hash a ≡ addr_hash b
unfolding addr_hash
addr_hash-addr_eq a b h = go (addr_eq-parts a b h)
  where
    go :
        (a.family ≡ b.family)
          × (same_bytes a.port b.port 2 ≡ true)
          × ((a.family ≡ af_inet) × (same_bytes a.sin_addr b.sin_addr 4 ≡ true)
              ⊎ (a.family ≡ af_inet6) × (same_bytes a.sin6_addr b.sin6_addr 16 ≡ true))
        → addr_hash a ≡ addr_hash b
    go (f, p, inl (v4, s)) = rw (
      ← f,
      v4,
      load_host-same a.port b.port 2 0 2 p (omega arith),
      load_host-same a.sin_addr b.sin_addr 4 0 4 s (omega arith),
    )
    go (f, p, inr (v6, s)) = rw (
      ← f,
      v6,
      load_host-same a.port b.port 2 0 2 p (omega arith),
      load_host-same a.sin6_addr b.sin6_addr 16 0 8 s (omega arith),
      load_host-same a.sin6_addr b.sin6_addr 16 8 8 s (omega arith),
    )
