-- ===== src/Maps/LmMap/Foreach.antt =====
-- The calls of lm_map_foreach.
use webrtc_caller.Base.{
  ℕ, zero, suc, ◌<◌, ◌≤◌, ◌≡◌, refl, ◌≢◌, ◌↔◌, ◌⊎◌, ap, not, if◌then◌else◌, inl, inr, Bool, true,
  false, ◌&&◌, ◌||◌, some, List, [], ◌∷◌, ◌++◌, arith, ◌==◌, Bool-cases, eq-cases,
}
use webrtc_caller.Maps.LmMap.{
  Entry, LmArray, call_all, foreach, LmMap, lm_index, get_main, get_array, get, occupied,
  entries_below, entries,
}
use webrtc_caller.Maps.LmMap.Entries.{IsUnique}
use webrtc_caller.Maps.LmMap.Arrays.{IsArray, get_array-lem}
use webrtc_caller.Maps.LmMap.Laws.{IsValid}
use webrtc_caller.Maps.LmMap.Once.{times, times-entries}

-- An entry of the key and the value is among the visited ones.
abbrev pub visits : ℕ → ℕ → List Entry → Bool
visits k v [] = false
visits k v (e ∷ es) = e.key == k && e.value == v || visits k v es

visits-append :
    (k v : ℕ) (xs ys : List Entry) → visits k v (xs ++ ys) ≡ (visits k v xs || visits k v ys)
visits-append k v [] ys = refl
visits-append k v (e ∷ xs) ys = ground (arith, visits-append k v xs ys)

visits-get_main :
    (k v : ℕ) (es : List Entry) → k ≢ 0 → get_main k es ≡ some v → visits k v (occupied es) ≡ true
unfolding get_main occupied
visits-get_main k v [] n e = cc
visits-get_main k v (x ∷ es) n e = ground (arith, visits-get_main k v es)

get_main-visits :
    (k v : ℕ) (es : List Entry)
    → IsUnique es
    → visits k v (occupied es) ≡ true
    → (get_main k es ≡ some v) × (k ≢ 0)
unfolding get_main occupied
get_main-visits k v [] u e = cc
get_main-visits k v (x ∷ es) u e = ground (arith, get_main-visits k v es)

get_array-visits :
    (k v : ℕ) (a : LmArray)
    → IsArray a
    → (visits k v (occupied a.main) || visits k v (occupied a.extra)) ≡ true
    → (get_array a k ≡ some v) × (k ≢ 0)
get_array-visits k v a h e = ground (
  arith,
  get_main-visits k v a.main h.unique,
  get_main-visits k v a.extra h.unique_extra,
  get_array-lem a k h,
  h.apart k,
)

visits-get_array :
    (k v : ℕ) (a : LmArray)
    → IsArray a
    → k ≢ 0
    → get_array a k ≡ some v
    → (visits k v (occupied a.main) || visits k v (occupied a.extra)) ≡ true
visits-get_array k v a h n e =
    ground
      (arith, visits-get_main k v a.main n, visits-get_main k v a.extra n, get_array-lem a k h n)

visits-step :
    (k v i : ℕ) (m : LmMap)
    → visits k v (entries_below (suc i) m) ≡ (
        visits k v (entries_below i m)
        || (visits k v (occupied (m.table i).main) || visits k v (occupied (m.table i).extra)))
unfolding entries_below
visits-step k v i m = ground (
  arith,
  visits-append k v (entries_below i m) (occupied (m.table i).main ++ occupied (m.table i).extra),
  visits-append k v (occupied (m.table i).main) (occupied (m.table i).extra),
)

visits-none : (k v : ℕ) (m : LmMap) → visits k v (entries_below 0 m) ≡ false
unfolding entries_below
visits-none k v m = refl

get-home :
    (k v i : ℕ) (m : LmMap)
    → k ≢ 0
    → lm_index k ≡ i
    → get_array (m.table i) k ≡ some v
    → get m k ≡ some v
unfolding get
get-home k v i m n e f = ground (arith, n, e, f)

get-visits_below :
    (k v n : ℕ) (m : LmMap)
    → IsValid m
    → visits k v (entries_below n m) ≡ true
    → (get m k ≡ some v) × (k ≢ 0)
get-visits_below k v zero m h e = cc (visits-none k v m)
get-visits_below k v (suc i) m h e = elim (Bool-cases (visits k v (entries_below i m))) [
  | inl before ↦ get-visits_below k v i m h before
  | inr not_before ↦
      let (found, n) =
        get_array-visits k v (m.table i) (h.arrays i)
          (ground (arith, visits-step k v i m, e, not_before)) in
      let at_home : lm_index k ≡ i = ground (arith, h.home i k, found, n) in
      (get-home k v i m n at_home found, n)
]

visits_below-get :
    (k v n : ℕ) (m : LmMap)
    → IsValid m
    → lm_index k < n
    → k ≢ 0
    → get_array (m.table (lm_index k)) k ≡ some v
    → visits k v (entries_below n m) ≡ true
visits_below-get k v zero m h l n e = absurd (omega arith)
visits_below-get k v (suc i) m h l n e = elim (eq-cases (lm_index k) i) [
  | inl same ↦
      ground
        (arith, visits-step k v i m, visits-get_array k v (m.table i) (h.arrays i) n (rw same at e))
  | inr other ↦
      ground (arith, visits-step k v i m, visits_below-get k v i m h (omega (arith, other)) n e)
]

-- The occupied entries are those that lm_map_get reads.
pub visits-entries :
    (m : LmMap) (k v : ℕ) → IsValid m → (get m k ≡ some v) ↔ (visits k v (entries m) ≡ true)
unfolding get
visits-entries m k v h = (
  λ e. elim (eq-cases k 0) [
    | inl z ↦ absurd (ground (arith, z, e))
    | inr n ↦ visits_below-get k v 8 m h (omega arith) n (ground (arith, n, e))
  ],
  λ e. (get-visits_below k v 8 m h e).0,
)

-- A function for lm_map_foreach that puts down the entries it is called on, and stops where it is told.
abbrev pub recorded : (Entry → Bool) → Entry → List Entry → List Entry × Bool
recorded stop e seen = (seen ++ (e ∷ []), stop e)

-- A run of calls: the last one, and no other, has asked for the stop, or none has.
abbrev pub stops_at : (Entry → Bool) → List Entry → Bool → Bool
stops_at stop [] stopped = not stopped
stops_at stop (e ∷ es) stopped =
    let rest = stops_at stop es stopped in if stop e then is_end es && stopped else rest
  where
    is_end : List Entry → Bool
    is_end [] = true
    is_end (x ∷ xs) = false

abbrev taken : (Entry → Bool) → List Entry → List Entry
taken stop [] = []
taken stop (e ∷ es) = let rest = taken stop es in if stop e then e ∷ [] else e ∷ rest

abbrev any_stop : (Entry → Bool) → List Entry → Bool
any_stop stop [] = false
any_stop stop (e ∷ es) = stop e || any_stop stop es

append_none : (xs : List Entry) → xs ++ [] ≡ xs
append_none [] = refl
append_none (x ∷ xs) = ap (λ ys. x ∷ ys) (append_none xs)

append_one :
    (xs : List Entry) (e : Entry) (ys : List Entry) → (xs ++ (e ∷ [])) ++ ys ≡ xs ++ (e ∷ ys)
append_one [] e ys = refl
append_one (x ∷ xs) e ys = ap (λ zs. x ∷ zs) (append_one xs e ys)

call_all-recorded :
    (stop : Entry → Bool) (es seen : List Entry)
    → call_all (recorded stop) es seen ≡ (seen ++ taken stop es, any_stop stop es)
unfolding call_all
call_all-recorded stop [] seen = rw (append_none seen) refl
call_all-recorded stop (e ∷ es) seen = elim (Bool-cases (stop e)) [
  | inl h ↦ rw h refl
  | inr h ↦
      rw (h, call_all-recorded stop es (seen ++ (e ∷ [])), append_one seen e (taken stop es)) refl
]

taken-visits :
    (stop : Entry → Bool) (k v : ℕ) (es : List Entry)
    → visits k v (taken stop es) ≡ true
    → visits k v es ≡ true
taken-visits stop k v [] h = h
taken-visits stop k v (e ∷ es) h = ground (arith, h, taken-visits stop k v es)

visits-taken :
    (stop : Entry → Bool) (k v : ℕ) (es : List Entry)
    → visits k v es ≡ true
    → (visits k v (taken stop es) ≡ true) ⊎ (any_stop stop es ≡ true)
visits-taken stop k v [] h = cc h
visits-taken stop k v (e ∷ es) h = ground (arith, h, visits-taken stop k v es)

taken-stops_at :
    (stop : Entry → Bool) (es : List Entry)
    → stops_at stop (taken stop es) (any_stop stop es) ≡ true
taken-stops_at stop [] = refl
taken-stops_at stop (e ∷ es) = elim (Bool-cases (stop e)) [
  | inl h ↦ rw (h, h) refl
  | inr h ↦ rw (h, h) (taken-stops_at stop es)
]

times-taken : (stop : Entry → Bool) (k : ℕ) (es : List Entry) → times k (taken stop es) ≤ times k es
times-taken stop k [] = omega arith
times-taken stop k (e ∷ es) = ground (arith, times-taken stop k es)

-- On a well-formed map lm_map_foreach, with a function that puts down its calls and stops where it is
-- told: it is called only on entries with the value that lm_map_get gives for their key; each such
-- entry is visited, or the function has asked for the stop; no key is visited twice; and the last call,
-- and no other, is the one that asked, or none did, as the result says.
pub foreach-visits :
    (m : LmMap) (stop : Entry → Bool) (k v : ℕ)
    → IsValid m
    → (visits k v (foreach (recorded stop) m []).0 ≡ true → get m k ≡ some v)
      × (get m k ≡ some v
          → (visits k v (foreach (recorded stop) m []).0 ≡ true)
            ⊎ ((foreach (recorded stop) m []).1 ≡ true))
      × (times k (foreach (recorded stop) m []).0 ≤ 1)
      × (stops_at stop (foreach (recorded stop) m []).0 (foreach (recorded stop) m []).1 ≡ true)
unfolding foreach
foreach-visits m stop k v h = rw (call_all-recorded stop (entries m) []) (
  λ e. (visits-entries m k v h).1 (taken-visits stop k v (entries m) e),
  λ e. visits-taken stop k v (entries m) ((visits-entries m k v h).0 e),
  omega (arith, times-taken stop k (entries m), times-entries m k h),
  taken-stops_at stop (entries m),
)
