-- ===== src/Maps/LmMap/Once.antt =====
-- How often a key stands in the entries that lm_map_foreach goes through.
use webrtc_caller.Base.{
  ℕ, zero, suc, ◌+◌, ◌≤◌, ◌≡◌, ◌≢◌, ◌⊎◌, refl, inl, inr, none, List, [], ◌∷◌, ◌++◌, arith, ltb,
  ◌==◌, if◌then◌else◌, eq-cases, Option-cases,
}
use webrtc_caller.Maps.LmMap.{
  Entry, LmArray, LmMap, lm_index, get_main, get_array, occupied, entries_below, entries,
}
use webrtc_caller.Maps.LmMap.Entries.{IsUnique}
use webrtc_caller.Maps.LmMap.Arrays.{IsArray, get_array-lem}
use webrtc_caller.Maps.LmMap.Laws.{IsValid}

-- The entries of a key.
abbrev pub times : ℕ → List Entry → ℕ
times k [] = 0
times k (e ∷ es) = let rest = times k es in if e.key == k then suc rest else rest

times-append : (k : ℕ) (xs ys : List Entry) → times k (xs ++ ys) ≡ times k xs + times k ys
times-append k [] ys = omega arith
times-append k (e ∷ xs) ys = ground (arith, times-append k xs ys)

times-zero : (es : List Entry) → times 0 (occupied es) ≡ 0
unfolding occupied
times-zero [] = refl
times-zero (e ∷ es) = ground (arith, times-zero es)

times-absent : (k : ℕ) (es : List Entry) → get_main k es ≡ none → times k (occupied es) ≡ 0
unfolding occupied get_main
times-absent k [] h = refl
times-absent k (e ∷ es) h = ground (arith, h, times-absent k es)

times-IsUnique : (k : ℕ) (es : List Entry) → IsUnique es → times k (occupied es) ≤ 1
unfolding occupied
times-IsUnique k [] u = omega arith
times-IsUnique k (e ∷ es) (apart, u) = elim (eq-cases e.key k) [
  | inl same ↦ ground (arith, apart, times-IsUnique k es u, times-absent k es, rw same at apart)
  | inr other ↦ ground (arith, other, times-IsUnique k es u)
]

times-IsArray :
    (k : ℕ) (a : LmArray) → IsArray a → times k (occupied a.main) + times k (occupied a.extra) ≤ 1
times-IsArray k a h = go (h.apart k)
  where
    go :
        (k ≡ 0) ⊎ (get_main k a.main ≡ none) ⊎ (get_main k a.extra ≡ none)
        → times k (occupied a.main) + times k (occupied a.extra) ≤ 1
    go (inl z) = rw z (omega (arith, times-zero a.main, times-zero a.extra))
    go (inr (inl e)) =
        omega (arith, times-absent k a.main e, times-IsUnique k a.extra h.unique_extra)
    go (inr (inr e)) = omega (arith, times-absent k a.extra e, times-IsUnique k a.main h.unique)

-- A key that the array does not have.
times-away :
    (k : ℕ) (a : LmArray)
    → IsArray a
    → k ≢ 0
    → get_array a k ≡ none
    → times k (occupied a.main) + times k (occupied a.extra) ≡ 0
times-away k a h n e = elim (Option-cases (get_main k a.main)) [
  | inl m ↦
      let x : get_main k a.extra ≡ none = ground (arith, get_array-lem a k h n, e, m) in
      omega (arith, times-absent k a.main m, times-absent k a.extra x)
  | inr (v, m) ↦ absurd (ground (arith, get_array-lem a k h n, e, m))
]

times-step :
    (k i : ℕ) (m : LmMap)
    → times k (entries_below (suc i) m)
      ≡ times k (entries_below i m)
        + (times k (occupied (m.table i).main) + times k (occupied (m.table i).extra))
unfolding entries_below
times-step k i m = omega (
  arith,
  times-append k (entries_below i m) (occupied (m.table i).main ++ occupied (m.table i).extra),
  times-append k (occupied (m.table i).main) (occupied (m.table i).extra),
)

times-none : (k : ℕ) (m : LmMap) → times k (entries_below 0 m) ≡ 0
unfolding entries_below
times-none k m = refl

-- Below an index a key stands once at most, and not at all where its array is not below it.
times-below :
    (k n : ℕ) (m : LmMap)
    → IsValid m
    → k ≢ 0
    → times k (entries_below n m) ≤ (if ltb (lm_index k) n then 1 else 0)
times-below k zero m h n = omega (arith, times-none k m)
times-below k (suc i) m h n = elim (eq-cases (lm_index k) i) [
  | inl same ↦ ground (
    arith,
    same,
    times-step k i m,
    times-below k i m h n,
    times-IsArray k (m.table i) (h.arrays i),
  )
  | inr other ↦
      let away : get_array (m.table i) k ≡ none = ground (arith, h.home i k, other, n) in
      ground (
        arith,
        other,
        times-step k i m,
        times-below k i m h n,
        times-away k (m.table i) (h.arrays i) n away,
      )
]

times-below_zero : (n : ℕ) (m : LmMap) → times 0 (entries_below n m) ≡ 0
times-below_zero zero m = times-none 0 m
times-below_zero (suc i) m = omega (
  arith,
  times-step 0 i m,
  times-below_zero i m,
  times-zero (m.table i).main,
  times-zero (m.table i).extra,
)

-- On a well-formed map no key stands in two of the entries.
pub times-entries : (m : LmMap) (k : ℕ) → IsValid m → times k (entries m) ≤ 1
times-entries m k h = elim (eq-cases k 0) [
  | inl z ↦ rw z (omega (arith, times-below_zero 8 m))
  | inr n ↦ ground (arith, times-below k 8 m h n)
]
