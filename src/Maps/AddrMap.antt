-- ===== src/Maps/AddrMap.antt =====
-- The address map of coturn/src/server/ns_turn_maps.c: 1024 lists of slots, of which a value 0 marks
-- an empty one. A list has four main slots and extra ones behind them; the key of a slot is an address.
pub mod Laws
mod Tests
use webrtc_caller.Base.{
  ℕ, zero, suc, ◌+◌, ◌-◌, ◌*◌, ◌/◌, ◌%◌, ◌^◌, ◌≤◌, ◌<◌, min, bit_and, bit_or, bit_xor, ◌≡◌, refl,
  sym, ap, ◌∙◌, fun_ext, ◌≢◌, ◌↔◌, ◌⊎◌, inl, inr, Bool, true, false, not, ◌&&◌, ◌||◌, Option, none,
  some, List, [], ◌∷◌, ◌++◌, arith, ltb, leb, ◌==◌, if◌then◌else◌, ltb→lt, lt→ltb, leb→le, ==_iff,
  Bool-cases, Option-cases, eq-cases, lt-cases, length, get_or, length-append, contains, Memory,
  update, u16, u32, copy, zeros, load16, load32, store16, store32, bytes, AllBytes, AgreeOn,
  bytes-AgreeOn, bytes-shift, copy-in, copy-start, copy-before, all_below, all_below-at,
}
use webrtc_caller.Addr.{IoaAddr, addr_eq, addr_hash}

abbrev pub addr_map_size : ℕ
addr_map_size = 1024

-- addr_elem
pub record Slot : Type 0 where
  pub key : IoaAddr
  pub value : ℕ

-- addr_list_header; the main slots are four.
pub record Slots : Type 0 where
  pub main_list : List Slot
  pub extra_list : List Slot

-- ur_addr_map: `valid` stands for the magic number.
pub record AddrMap : Type 0 where
  pub valid : Bool
  pub lists : ℕ → Slots

-- The tests of a slot that the loops share.
abbrev pub holds : IoaAddr → Slot → Bool
holds key s = not (s.value == 0) && addr_eq s.key key

-- One loop of addr_list_get: the value of the first slot with the key.
unfoldable pub find_value : IoaAddr → List Slot → Option ℕ
find_value key [] = none
find_value key (s ∷ ss) = if holds key s then some s.value else find_value key ss

unfoldable pub list_get : Slots → IoaAddr → Option ℕ
unfolding find_value
list_get l key = elim (find_value key l.main_list) [
  | some v ↦ some v
  | none ↦ find_value key l.extra_list
]

-- `elem->value = value` on the slot that addr_list_get gives, and `none` where it gives NULL.
unfoldable pub set_value : IoaAddr → ℕ → List Slot → Option (List Slot)
set_value key v [] = none
set_value key v (s ∷ ss) =
    if holds key s
    then some (record s { value = v } ∷ ss)
    else elim (set_value key v ss) [ none ↦ none | some ss' ↦ some (s ∷ ss') ]

-- One loop of addr_list_add: the first empty slot is filled, and `none` where none is empty.
unfoldable pub fill : IoaAddr → ℕ → List Slot → Option (List Slot)
fill key v [] = none
fill key v (s ∷ ss) =
    if s.value == 0
    then some (record { key = key; value = v } ∷ ss)
    else elim (fill key v ss) [ none ↦ none | some ss' ↦ some (s ∷ ss') ]

unfoldable pub list_add : Slots → IoaAddr → ℕ → Slots
list_add l key v = if v == 0 then l else elim (fill key v l.main_list) [
  | some main' ↦ record l { main_list = main' }
  | none ↦ elim (fill key v l.extra_list) [
    | some extra' ↦ record l { extra_list = extra' }
    | none ↦ record l { extra_list = l.extra_list ++ (record { key = key; value = v } ∷ []) }
  ]
]

-- One loop of addr_list_remove: every slot with the key is emptied.
unfoldable pub clear : IoaAddr → List Slot → List Slot
clear key [] = []
clear key (s ∷ ss) = (if holds key s then record s { value = 0 } else s) ∷ clear key ss

-- The values of the slots that are emptied, in the order in which delfunc is called on them.
unfoldable pub removed : IoaAddr → List Slot → List ℕ
removed key [] = []
removed key (s ∷ ss) = if holds key s then s.value ∷ removed key ss else removed key ss

unfoldable pub list_remove : Slots → IoaAddr → Slots × List ℕ
list_remove l key = (
  record { main_list = clear key l.main_list; extra_list = clear key l.extra_list },
  removed key l.main_list ++ removed key l.extra_list,
)

-- addr_list_foreach: the values that the function is called on, in order.
unfoldable pub values : List Slot → List ℕ
values [] = []
values (s ∷ ss) = if not (s.value == 0) then s.value ∷ values ss else values ss

unfoldable pub list_foreach : Slots → List ℕ
list_foreach l = values l.main_list ++ values l.extra_list

-- A loop of addr_list_num_elements.
unfoldable pub used : List Slot → ℕ
used [] = 0
used (s ∷ ss) = if not (s.value == 0) then suc (used ss) else used ss

unfoldable pub list_num_elements : Slots → ℕ
list_num_elements l = used l.main_list + used l.extra_list

abbrev pub list_size : Slots → ℕ
list_size l = 4 + length l.extra_list

-- What ur_addr_map_put does to the list of the key.
unfoldable pub put_list : Slots → IoaAddr → ℕ → Slots
put_list l key v = elim (set_value key v l.main_list) [
  | some main' ↦ record l { main_list = main' }
  | none ↦ elim (set_value key v l.extra_list) [
    | some extra' ↦ record l { extra_list = extra' }
    | none ↦ list_add l key v
  ]
]

abbrev pub index_of : IoaAddr → ℕ
index_of key = addr_hash key % addr_map_size

abbrev no_addr : IoaAddr
no_addr = record { family = 0; port = zeros; sin_addr = zeros; sin6_addr = zeros }

abbrev empty_slot : Slot
empty_slot = record { key = no_addr; value = 0 }

abbrev empty_slots : Slots
empty_slots = record {
  main_list = empty_slot ∷ empty_slot ∷ empty_slot ∷ empty_slot ∷ [];
  extra_list = [];
}

unfoldable pub init : AddrMap
init = record { valid = true; lists = λ i. empty_slots }

unfoldable pub put : AddrMap → IoaAddr → ℕ → AddrMap × Bool
put m key v = if not m.valid then (m, false) else (
  record m { lists = update m.lists (index_of key) (put_list (m.lists (index_of key)) key v) },
  true,
)

unfoldable pub get : AddrMap → IoaAddr → Option ℕ
get m key = if not m.valid then none else list_get (m.lists (index_of key)) key

-- The third part is what delfunc is called on.
unfoldable pub del : AddrMap → IoaAddr → AddrMap × Bool × List ℕ
del m key =
    if not m.valid
    then (m, false, [])
    else (let (l, values) = list_remove (m.lists (index_of key)) key in
        (record m { lists = update m.lists (index_of key) l }, ltb 0 (length values), values))
