-- ===== src/Base/Words.antt =====
-- A C array of unsigned integers as a function of the index, and multi-byte fields in network order.
use Prim.Native.Nat.{ℕ, zero, suc, ◌+◌, ◌*◌, ◌/◌, ◌%◌, ◌<◌, ◌≤◌, ◌-◌}
use mathlib.Core.Path.{◌≡◌, refl, ap₂}
use mathlib.Core.List.{List, [], ◌∷◌}
use mathlib.Core.Bool.{◌&&◌}
use native.Mathlib.Nat.{add-zero}
use native.Mathlib.Omega.{arith}
use webrtc_caller.Base.Tests.{◌==◌, if◌then◌else◌, leb, ltb}

abbrev pub Memory : Type 0
Memory = ℕ → ℕ

-- `a[i] = v`
abbrev pub update {ℓ} : {A : Type ℓ} → (ℕ → A) → ℕ → A → ℕ → A
update a i v j = if j == i then v else a j

abbrev pub u16 : ℕ → ℕ
u16 x = x % 0x1_0000

abbrev pub u32 : ℕ → ℕ
u32 x = x % 0x1_0000_0000

-- `memcpy(a + at, src, n)`
abbrev pub copy : Memory → ℕ → Memory → ℕ → Memory
copy a at src n j = if leb at j && ltb j (at + n) then src (j - at) else a j

abbrev pub zeros : Memory
zeros i = 0

-- `nswap16` of the two bytes at `i`, and of four: the host is little-endian.
abbrev pub load16 : Memory → ℕ → ℕ
load16 a i = a i * 256 + a (i + 1)

abbrev pub load32 : Memory → ℕ → ℕ
load32 a i = a i * 0x100_0000 + a (i + 1) * 0x1_0000 + a (i + 2) * 256 + a (i + 3)

abbrev pub store16 : Memory → ℕ → ℕ → Memory
store16 a i v = update (update a i (v / 256 % 256)) (i + 1) (v % 256)

abbrev pub store32 : Memory → ℕ → ℕ → Memory
store32 a i v = store16 (store16 a i (v / 0x1_0000 % 0x1_0000)) (i + 2) (v % 0x1_0000)

-- The `n` bytes from index `i` on.
abbrev pub bytes : Memory → ℕ → ℕ → List ℕ
bytes a i zero = []
bytes a i (suc n) = a i ∷ bytes a (i + 1) n

abbrev pub AllBytes : Memory → Type 0
AllBytes a = (i : ℕ) → a i < 256

-- Two arrays agree on a range of indices.
abbrev pub AgreeOn : Memory → Memory → ℕ → ℕ → Type 0
AgreeOn a b i k = (j : ℕ) → i ≤ j → j < k → a j ≡ b j

pub bytes-AgreeOn :
    (a b : Memory) (i n k : ℕ) → i + n ≤ k → AgreeOn a b i k → bytes a i n ≡ bytes b i n
bytes-AgreeOn a b i zero k h e = refl
bytes-AgreeOn a b i (suc n) k h e = ground (
  arith,
  e i (omega arith) (omega arith),
  bytes-AgreeOn a b (i + 1) n k (omega arith) (λ j p q. e j (omega arith) q),
)

pub bytes-shift :
    (a b : Memory) (i k n : ℕ)
    → ((j : ℕ) → j < n → a (i + j) ≡ b (k + j))
    → bytes a i n ≡ bytes b k n
bytes-shift a b i k zero e = refl
bytes-shift a b i k (suc n) e = ap₂ ◌∷◌ head (bytes-shift a b (i + 1) (k + 1) n tail)
  where
    head : a i ≡ b k
    head = rw (add-zero, add-zero) at (e 0 (omega arith))

    tail : (j : ℕ) → j < n → a (i + 1 + j) ≡ b (k + 1 + j)
    tail j h =
        let left : i + 1 + j ≡ i + (j + 1) = omega arith in
        let right : k + 1 + j ≡ k + (j + 1) = omega arith in
        rw (left, right) (e (j + 1) (omega arith))

-- Reading inside of a copy, and outside of it.
pub copy-in :
    (a : Memory) (at : ℕ) (src : Memory) (n j : ℕ) → j < n → copy a at src n (at + j) ≡ src j
copy-in a at src n j h = let e : at + j - at ≡ j = omega arith in rw e (ground arith)

pub copy-start : (a src : Memory) (n j : ℕ) → j < n → copy a 0 src n j ≡ src j
copy-start a src n j h = let e : j - 0 ≡ j = omega arith in rw e (ground arith)

pub copy-before : (a : Memory) (at : ℕ) (src : Memory) (n j : ℕ) → j < at → copy a at src n j ≡ a j
copy-before a at src n j h = ground arith
