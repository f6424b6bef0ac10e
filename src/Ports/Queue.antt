-- ===== src/Ports/Queue.antt =====
-- What the table stands for: the ports that can be allocated, in the order in which they will be.
use webrtc_caller.Base.{
  ℕ, zero, suc, ◌+◌, ◌-◌, ◌%◌, ◌≤◌, ◌<◌, ◌≡◌, ◌≢◌, ◌⊎◌, refl, Option, none, some, List, [], ◌∷◌,
  ◌++◌, arith, ◌==◌, if◌then◌else◌, Memory, update,
}
use webrtc_caller.Ports.{PortTable, ports_size}

-- The entries at the positions from `k` on, `n` of them, less those that the status disowns.
abbrev pub entries : Memory → Memory → ℕ → ℕ → List ℕ
entries status ports k zero = []
entries status ports k (suc n) =
    let rest = entries status ports (k + 1) n in
    let port = ports (k % ports_size) in if status port == k then port ∷ rest else rest

unfoldable pub free : PortTable → List ℕ
free t = entries t.status t.ports t.low (t.high - t.low)

-- A queue gives its oldest port.
unfoldable pub pop : List ℕ → Option ℕ × List ℕ
pop [] = (none, [])
pop (p ∷ q) = (some p, q)

-- A port whose status is not a position of the window, before or after, changes no entry.
pub entries-status :
    (status ports : Memory) (p s k n : ℕ)
    → (status p < k) ⊎ (k + n ≤ status p)
    → (s < k) ⊎ (k + n ≤ s)
    → entries (update status p s) ports k n ≡ entries status ports k n
entries-status status ports p s k zero old new = refl
entries-status status ports p s k (suc n) old new =
    ground (arith, entries-status status ports p s (k + 1) n)

-- Nor does a write at a position outside of it.
pub entries-ports :
    (status ports : Memory) (i p k n : ℕ)
    → i < ports_size
    → ((j : ℕ) → k ≤ j → j < k + n → j % ports_size ≢ i)
    → entries status (update ports i p) k n ≡ entries status ports k n
entries-ports status ports i p k zero h ne = refl
entries-ports status ports i p k (suc n) h ne = ground (
  arith,
  ne k (omega arith) (omega arith),
  entries-ports status ports i p (k + 1) n h (λ j a b. ne j (omega arith) (omega arith)),
)

pub entries-append :
    (status ports : Memory) (k n : ℕ)
    → entries status ports k (suc n)
      ≡ entries status ports k n
        ++ (if status (ports ((k + n) % ports_size)) == k + n
            then ports ((k + n) % ports_size) ∷ []
            else [])
entries-append status ports k zero = ground arith
entries-append status ports k (suc n) = ground (arith, entries-append status ports (k + 1) n)
