-- ===== src/Maps/LmMap/Laws.antt =====
-- lm_map as a map: what lm_map_get reads after lm_map_put and lm_map_del.
use webrtc_caller.Base.{
  ℕ, ◌≡◌, refl, ◌≢◌, ◌⊎◌, inl, inr, Bool, true, false, Option, none, some, arith, ◌==◌,
  if◌then◌else◌, eq-cases,
}
use webrtc_caller.Maps.LmMap.{
  LmArray, LmMap, init, lm_index, set_array, put_array, put, get_main, get_extra, get_array, get,
  del_array, del,
}
use webrtc_caller.Maps.LmMap.Arrays.{IsArray, Stored, put_array-Stored, Emptied, del_array-Emptied}

-- Each array is well formed, and a key with a value stands in the array of its index.
pub record IsValid (m : LmMap) : Type 0 where
  pub arrays : (i : ℕ) → IsArray (m.table i)
  pub home : (i k : ℕ) → (k ≡ 0) ⊎ (get_array (m.table i) k ≡ none) ⊎ (lm_index k ≡ i)

pub init-IsValid : IsValid init
unfolding init get_array get_main get_extra
init-IsValid = record {
  arrays = λ i. record {
    tidy = (refl, (refl, (refl, tt)));
    tidy_extra = tt;
    unique = (inl refl, (inl refl, (inl refl, tt)));
    unique_extra = tt;
    apart = λ k. inr (inl (ground arith));
  };
  home = λ i k. inr (inl (ground arith));
}

pub get-init : (k : ℕ) → get init k ≡ none
unfolding init get get_array get_main get_extra
get-init k = ground arith

IsArray-if : (b : Bool) (x y : LmArray) → IsArray x → IsArray y → IsArray (if b then x else y)
IsArray-if true x y h k = h
IsArray-if false x y h k = k

put-eq :
    (m : LmMap) (key v : ℕ)
    → key ≢ 0
    → v ≢ 0
    → put m key v ≡ (
      set_array m key (put_array (m.table (lm_index key)) key v).0,
      (put_array (m.table (lm_index key)) key v).1,
    )
unfolding put
put-eq m key v n z = ground arith

module _ (m : LmMap) (key v : ℕ) (valid : IsValid m) (n : key ≢ 0) (z : v ≢ 0)
    (absent : get m key ≡ none) where
  stored : Stored (m.table (lm_index key)) key v (put_array (m.table (lm_index key)) key v)
  unfolding get
  stored =
      put_array-Stored (m.table (lm_index key)) key v (valid.arrays (lm_index key)) n z
        (ground (arith, absent))

  pub put_accepts : (put m key v).1 ≡ true
  put_accepts = rw (put-eq m key v n z) (stored.accepts)

  pub put-IsValid : IsValid (put m key v).0
  put-IsValid = rw (put-eq m key v n z) (record {
    arrays = λ i.
        IsArray-if (i == lm_index key) (put_array (m.table (lm_index key)) key v).0 (m.table i)
          stored.valid (valid.arrays i);
    home = λ i k. ground (arith, valid.home i k, stored.reads k);
  })

  -- A value that is put under a key without one is what the key reads, and nothing else changes.
  get-put_one : (k : ℕ) → get (put m key v).0 k ≡ (if k == key then some v else get m k)
  unfolding get
  get-put_one k = rw (put-eq m key v n z) (ground (arith, stored.reads k))

-- On a well-formed map a value that is put under a key without one is accepted, is then what the key
-- reads, and no other key reads anything else.
pub get-put_absent :
    (m : LmMap) (key v k : ℕ)
    → IsValid m
    → key ≢ 0
    → v ≢ 0
    → get m key ≡ none
    → ((put m key v).1 ≡ true)
      × IsValid (put m key v).0
      × (get (put m key v).0 k ≡ (if k == key then some v else get m k))
get-put_absent m key v k valid n z absent = (
  put_accepts m key v valid n z absent,
  put-IsValid m key v valid n z absent,
  get-put_one m key v valid n z absent k,
)

abbrev shrunk : LmMap → ℕ → Option (LmArray × ℕ) → LmMap × Option ℕ
shrunk m key none = (m, none)
shrunk m key (some (a, v)) = (set_array m key a, some v)

del-eq :
    (m : LmMap) (key : ℕ)
    → key ≢ 0
    → del m key ≡ shrunk m key (del_array (m.table (lm_index key)) key)
unfolding del
del-eq m key n = ground arith

module _ (m : LmMap) (key : ℕ) (valid : IsValid m) (n : key ≢ 0) where
  emptied : Emptied (m.table (lm_index key)) key (del_array (m.table (lm_index key)) key)
  emptied = del_array-Emptied (m.table (lm_index key)) key (valid.arrays (lm_index key)) n

  shrunk-IsValid :
      (out : Option (LmArray × ℕ))
      → Emptied (m.table (lm_index key)) key out
      → IsValid (shrunk m key out).0
  shrunk-IsValid none e = valid
  shrunk-IsValid (some (a, v)) e = record {
    arrays = λ i. IsArray-if (i == lm_index key) a (m.table i) e.valid (valid.arrays i);
    home = λ i k. ground (arith, valid.home i k, e.reads k);
  }

  shrunk-reads :
      (out : Option (LmArray × ℕ)) (k : ℕ)
      → Emptied (m.table (lm_index key)) key out
      → ((shrunk m key out).1 ≡ get m key)
        × (get (shrunk m key out).0 k ≡ (if k == key then none else get m k))
  unfolding get
  shrunk-reads none k e = ground (arith, e.reads k, e.value)
  shrunk-reads (some (a, v)) k e = ground (arith, e.reads k, e.value)

get_zero : (m : LmMap) → get m 0 ≡ none
unfolding get
get_zero m = refl

del_zero : (m : LmMap) → del m 0 ≡ (m, none)
unfolding del
del_zero m = refl

-- On a well-formed map lm_map_del hands the value of the key to delfunc, the key reads nothing
-- afterwards, and every other key reads what it read before.
pub get-del_any :
    (m : LmMap) (key k : ℕ)
    → IsValid m
    → ((del m key).1 ≡ get m key)
      × IsValid (del m key).0
      × (get (del m key).0 k ≡ (if k == key then none else get m k))
get-del_any m key k valid = elim (eq-cases key 0) [
  | inl z ↦ rw (z, del_zero m, get_zero m) (refl, valid, ground (arith, get_zero m))
  | inr n ↦
      let e = emptied m key valid n in
      let (value, reads) =
        shrunk-reads m key valid n (del_array (m.table (lm_index key)) key) k e in
      rw (del-eq m key n)
        (value, shrunk-IsValid m key valid n (del_array (m.table (lm_index key)) key) e, reads)
]
