-- ===== src/Maps/AddrMap/Laws.antt =====
-- ur_addr_map_get after ur_addr_map_put and ur_addr_map_del, and the iteration over a list.
use webrtc_caller.Base.{
  ℕ, ◌%◌, ◌≡◌, refl, ap, ◌∙◌, ◌≢◌, true, Option, none, some, List, [], ◌∷◌, ◌++◌, arith,
  if◌then◌else◌, length, length-append,
}
use webrtc_caller.Addr.{IoaAddr, addr_eq}
use webrtc_caller.Addr.Equal.{addr_eq-sym, addr_eq_trans, addr_hash-addr_eq}
use webrtc_caller.Maps.AddrMap.{
  Slot, Slots, AddrMap, addr_map_size, find_value, list_get, set_value, fill, list_add, clear,
  list_remove, put_list, index_of, init, put, get, del, values, list_foreach, used,
  list_num_elements,
}

-- A slot answers to equal addresses alike.
same_key : (k k' : IoaAddr) (s : Slot) → addr_eq k k' ≡ true → addr_eq s.key k ≡ addr_eq s.key k'
same_key k k' s h = addr_eq-sym s.key k ∙ addr_eq_trans k k' s.key h ∙ addr_eq-sym k' s.key

find_value-addr_eq :
    (k k' : IoaAddr) (ss : List Slot) → addr_eq k k' ≡ true → find_value k ss ≡ find_value k' ss
unfolding find_value
find_value-addr_eq k k' [] e = refl
find_value-addr_eq k k' (s ∷ ss) e = ground (arith, same_key k k' s e, find_value-addr_eq k k' ss e)

set_value-none :
    (k : IoaAddr) (v : ℕ) (ss : List Slot) → set_value k v ss ≡ none → find_value k ss ≡ none
unfolding set_value find_value
set_value-none k v [] h = refl
set_value-none k v (s ∷ ss) h = ground (arith, set_value-none k v ss)

-- What the key reads in the rewritten slots, and the given answer where nothing was written.
abbrev written : IoaAddr → Option ℕ → Option (List Slot) → Option ℕ
written k d none = d
written k d (some ss) = find_value k ss

set_value-written :
    (k k' : IoaAddr) (v : ℕ) (ss : List Slot)
    → v ≢ 0
    → written k' (if addr_eq k k' then some v else find_value k' ss) (set_value k v ss)
      ≡ (if addr_eq k k' then some v else find_value k' ss)
unfolding set_value find_value
set_value-written k k' v [] n = refl
set_value-written k k' v (s ∷ ss) n =
    ground (arith, same_key k k' s, addr_eq_trans s.key k k', set_value-written k k' v ss n)

fill-written :
    (k k' : IoaAddr) (v : ℕ) (ss : List Slot)
    → v ≢ 0
    → find_value k ss ≡ none
    → written k' (if addr_eq k k' then some v else find_value k' ss) (fill k v ss)
      ≡ (if addr_eq k k' then some v else find_value k' ss)
unfolding fill find_value
fill-written k k' v [] n e = refl
fill-written k k' v (s ∷ ss) n e = ground (arith, same_key k k' s, fill-written k k' v ss n)

find_value-snoc :
    (k k' : IoaAddr) (v : ℕ) (ss : List Slot)
    → v ≢ 0
    → find_value k ss ≡ none
    → find_value k' (ss ++ (record { key = k; value = v } ∷ []))
      ≡ (if addr_eq k k' then some v else find_value k' ss)
unfolding find_value
find_value-snoc k k' v [] n e = ground arith
find_value-snoc k k' v (s ∷ ss) n e = ground (arith, same_key k k' s, find_value-snoc k k' v ss n)

-- What a list answers once the value is put into it.
list_get-put_list :
    (k k' : IoaAddr) (v : ℕ) (l : Slots)
    → v ≢ 0
    → list_get (put_list l k v) k' ≡ (if addr_eq k k' then some v else list_get l k')
unfolding put_list list_add list_get
list_get-put_list k k' v l n = ground (
  arith,
  set_value-written k k' v l.main_list n,
  set_value-written k k' v l.extra_list n,
  set_value-none k v l.main_list,
  set_value-none k v l.extra_list,
  find_value-addr_eq k k' l.main_list,
  fill-written k k' v l.main_list n,
  fill-written k k' v l.extra_list n,
  find_value-snoc k k' v l.extra_list n,
)

find_value-clear :
    (k k' : IoaAddr) (ss : List Slot)
    → find_value k' (clear k ss) ≡ (if addr_eq k k' then none else find_value k' ss)
unfolding find_value clear
find_value-clear k k' [] = ground arith
find_value-clear k k' (s ∷ ss) =
    ground (arith, same_key k k' s, addr_eq_trans s.key k k', find_value-clear k k' ss)

list_get-list_remove :
    (k k' : IoaAddr) (l : Slots)
    → list_get (list_remove l k).0 k' ≡ (if addr_eq k k' then none else list_get l k')
unfolding list_get list_remove
list_get-list_remove k k' l =
    ground (arith, find_value-clear k k' l.main_list, find_value-clear k k' l.extra_list)

index_of-addr_eq : (k k' : IoaAddr) → addr_eq k k' ≡ true → index_of k ≡ index_of k'
index_of-addr_eq k k' h = ap (λ n. n % addr_map_size) (addr_hash-addr_eq k k' h)

-- Equal addresses read the same.
pub get-addr_eq : (m : AddrMap) (k k' : IoaAddr) → addr_eq k k' ≡ true → get m k ≡ get m k'
unfolding get list_get
get-addr_eq m k k' e = ground (
  arith,
  index_of-addr_eq k k' e,
  find_value-addr_eq k k' (m.lists (index_of k)).main_list e,
  find_value-addr_eq k k' (m.lists (index_of k)).extra_list e,
)

-- On a map that was initialised, a value other than 0 is put in, and is then what every address equal
-- to the key reads; every other address reads what it read before.
pub get-put :
    (m : AddrMap) (k k' : IoaAddr) (v : ℕ)
    → m.valid ≡ true
    → v ≢ 0
    → ((put m k v).1 ≡ true) × (get (put m k v).0 k' ≡ (if addr_eq k k' then some v else get m k'))
unfolding get put
get-put m k k' v h n =
    ground (arith, h, index_of-addr_eq k k', list_get-put_list k k' v (m.lists (index_of k)) n)

-- On a map that was initialised, no address equal to the removed key reads a value, and every other
-- address reads what it read before.
pub get-del :
    (m : AddrMap) (k k' : IoaAddr)
    → m.valid ≡ true
    → get (del m k).0 k' ≡ (if addr_eq k k' then none else get m k')
unfolding get del
get-del m k k' h =
    ground (arith, h, index_of-addr_eq k k', list_get-list_remove k k' (m.lists (index_of k)))

used-values : (ss : List Slot) → used ss ≡ length (values ss)
unfolding used values
used-values [] = refl
used-values (s ∷ ss) = ground (arith, used-values ss)

-- addr_list_num_elements is the number of calls that addr_list_foreach makes.
pub list_num_elements-list_foreach : (l : Slots) → list_num_elements l ≡ length (list_foreach l)
unfolding list_num_elements list_foreach
list_num_elements-list_foreach l = rw (
  used-values l.main_list,
  used-values l.extra_list,
  length-append (values l.main_list) (values l.extra_list),
)

pub init_valid : init.valid ≡ true
unfolding init
init_valid = refl

-- A new map holds nothing.
pub get-init : (k : IoaAddr) → get init k ≡ none
unfolding init get list_get find_value
get-init k = refl
