-- ===== src/Maps/LmMap.antt =====
-- The local map of coturn/src/server/ns_turn_maps.c, lm_map: eight arrays of a key and a value each, of
-- which 0 marks an empty one. An array has three main entries and extra ones behind them. A `malloc`
-- succeeds, so the pointers of the extra entries are never NULL.
pub mod Entries
pub mod Arrays
pub mod Laws
pub mod Once
pub mod Foreach
mod Tests
use webrtc_caller.Base.{
  ℕ, zero, suc, ◌+◌, ◌-◌, ◌*◌, ◌/◌, ◌%◌, ◌^◌, ◌≤◌, ◌<◌, min, bit_and, bit_or, bit_xor, ◌≡◌, refl,
  sym, ap, ◌∙◌, fun_ext, ◌≢◌, ◌↔◌, ◌⊎◌, inl, inr, Bool, true, false, not, ◌&&◌, ◌||◌, Option, none,
  some, List, [], ◌∷◌, ◌++◌, arith, ltb, leb, ◌==◌, if◌then◌else◌, ltb→lt, lt→ltb, leb→le, ==_iff,
  Bool-cases, Option-cases, eq-cases, lt-cases, length, get_or, length-append, contains, Memory,
  update, u16, u32, copy, zeros, load16, load32, store16, store32, bytes, AllBytes, AgreeOn,
  bytes-AgreeOn, bytes-shift, copy-in, copy-start, copy-before, all_below, all_below-at,
}

abbrev pub lm_map_hash_size : ℕ
lm_map_hash_size = 8

pub record Entry : Type 0 where
  pub key : ℕ
  pub value : ℕ

pub record LmArray : Type 0 where
  pub main : List Entry
  pub extra : List Entry

pub record LmMap : Type 0 where
  pub table : ℕ → LmArray

abbrev pub empty_entry : Entry
empty_entry = record { key = 0; value = 0 }

abbrev pub empty_array : LmArray
empty_array = record { main = empty_entry ∷ empty_entry ∷ empty_entry ∷ []; extra = [] }

unfoldable pub init : LmMap
init = record { table = λ i. empty_array }

abbrev pub lm_index : ℕ → ℕ
lm_index key = key % lm_map_hash_size

-- How the loop of lm_map_put over the main entries ends: it returns, or runs to the end.
pub data Placed : Type 0 where
  placed : Bool → List Entry → Placed
  full : Placed

abbrev pub keep_entry : Entry → Placed → Placed
keep_entry e (placed b es) = placed b (e ∷ es)
keep_entry e full = full

unfoldable pub put_main : ℕ → ℕ → List Entry → Placed
put_main key v [] = full
put_main key v (e ∷ es) =
    let rest = keep_entry e (put_main key v es) in
    if e.key == key
    then placed (e.value == v) (e ∷ es)
    else if e.key == 0 || e.value == 0
    then placed true (record { key = key; value = v } ∷ es)
    else rest

-- The loop over the extra entries, and the new entry behind them.
unfoldable pub put_extra : ℕ → ℕ → List Entry → List Entry
put_extra key v [] = record { key = key; value = v } ∷ []
put_extra key v (e ∷ es) =
    if e.key == 0 || e.value == 0
    then record { key = key; value = v } ∷ es
    else e ∷ put_extra key v es

abbrev pub set_array : LmMap → ℕ → LmArray → LmMap
set_array m key a = record m { table = update m.table (lm_index key) a }

unfoldable pub put_array : LmArray → ℕ → ℕ → LmArray × Bool
put_array a key v = elim (put_main key v a.main) [
  | placed b main' ↦ (record a { main = main' }, b)
  | full ↦ (record a { extra = put_extra key v a.extra }, true)
]

unfoldable pub put : LmMap → ℕ → ℕ → LmMap × Bool
put m key v =
    if key == 0 || v == 0
    then (m, false)
    else let (a, b) = put_array (m.table (lm_index key)) key v in (set_array m key a, b)

unfoldable pub get_main : ℕ → List Entry → Option ℕ
get_main key [] = none
get_main key (e ∷ es) = if e.key == key && not (e.value == 0) then some e.value else get_main key es

unfoldable pub get_extra : ℕ → List Entry → Option ℕ
get_extra key [] = none
get_extra key (e ∷ es) = if e.key == key then some e.value else get_extra key es

unfoldable pub get_array : LmArray → ℕ → Option ℕ
get_array a key = elim (get_main key a.main) [ some v ↦ some v | none ↦ get_extra key a.extra ]

unfoldable pub get : LmMap → ℕ → Option ℕ
get m key = if key == 0 then none else get_array (m.table (lm_index key)) key

unfoldable pub exist : LmMap → ℕ → Bool
unfolding get
exist m key = elim (get m key) [ none ↦ false | some v ↦ true ]

-- A loop of lm_map_del: the first entry of the key is emptied, and its value goes to delfunc.
abbrev pub keep_deleted : Entry → Option (List Entry × ℕ) → Option (List Entry × ℕ)
keep_deleted e none = none
keep_deleted e (some (es, v)) = some (e ∷ es, v)

unfoldable pub del_main : ℕ → List Entry → Option (List Entry × ℕ)
del_main key [] = none
del_main key (e ∷ es) =
    if e.key == key && not (e.value == 0)
    then some (empty_entry ∷ es, e.value)
    else keep_deleted e (del_main key es)

unfoldable pub del_extra : ℕ → List Entry → Option (List Entry × ℕ)
del_extra key [] = none
del_extra key (e ∷ es) =
    if e.key == key then some (empty_entry ∷ es, e.value) else keep_deleted e (del_extra key es)

unfoldable pub del_array : LmArray → ℕ → Option (LmArray × ℕ)
del_array a key = elim (del_main key a.main) [
  | some (main', v) ↦ some (record a { main = main' }, v)
  | none ↦ elim (del_extra key a.extra) [
    | some (extra', v) ↦ some (record a { extra = extra' }, v)
    | none ↦ none
  ]
]

-- The new map and the value that delfunc is called on, `none` for false.
unfoldable pub del : LmMap → ℕ → LmMap × Option ℕ
del m key = if key == 0 then (m, none) else elim (del_array (m.table (lm_index key)) key) [
  | none ↦ (m, none)
  | some (a, v) ↦ (set_array m key a, some v)
]

-- lm_map_clean frees the extra entries and initialises the map.
unfoldable pub clean : LmMap → LmMap
unfolding init
clean m = init

-- The entries that lm_map_foreach calls its function on, in order.
unfoldable pub occupied : List Entry → List Entry
occupied [] = []
occupied (e ∷ es) = if not (e.key == 0) && not (e.value == 0) then e ∷ occupied es else occupied es

unfoldable pub entries_below : ℕ → LmMap → List Entry
entries_below zero m = []
entries_below (suc i) m =
    entries_below i m ++ (occupied (m.table i).main ++ occupied (m.table i).extra)

abbrev pub entries : LmMap → List Entry
entries m = entries_below lm_map_hash_size m

-- The calls of `func` on a state, up to the first one that returns true.
unfoldable pub call_all {ℓ} : {S : Type ℓ} → (Entry → S → S × Bool) → List Entry → S → S × Bool
call_all func [] s = (s, false)
call_all func (e ∷ es) s =
    let (s', stop) = func e s in if stop then (s', true) else call_all func es s'

unfoldable pub foreach {ℓ} : {S : Type ℓ} → (Entry → S → S × Bool) → LmMap → S → S × Bool
unfolding call_all entries_below occupied
foreach func m = call_all func (entries m)

unfoldable pub size : LmMap → ℕ
unfolding entries_below occupied
size m = length (entries m)
