-- ===== src/Allocation.antt =====
-- The permissions and the channels of an allocation: coturn/src/server/ns_turn_allocation.c.
-- Both are hash tables of eight buckets with three main slots and extra ones behind them. A slot never
-- moves, so a pointer to one is its bucket and its position as a number that is not 0; 0 is NULL. The
-- tables are functions from such a pointer to what it points to, and the number of slots of a bucket.
-- Memory does not run out. What is only logged is left out.
pub mod Slots
pub mod Linked
pub mod Permissions
pub mod Channels
pub mod Bind
pub mod Delete
pub mod Start
mod Tests
use webrtc_caller.Base.{
  ℕ, zero, suc, ◌+◌, ◌-◌, ◌*◌, ◌/◌, ◌%◌, ◌^◌, ◌≤◌, ◌<◌, min, bit_and, bit_or, bit_xor, ◌≡◌, refl,
  sym, ap, ◌∙◌, fun_ext, ◌≢◌, ◌↔◌, ◌⊎◌, inl, inr, Bool, true, false, not, ◌&&◌, ◌||◌, Option, none,
  some, List, [], ◌∷◌, ◌++◌, arith, ltb, leb, ◌==◌, if◌then◌else◌, ltb→lt, lt→ltb, leb→le, ==_iff,
  Bool-cases, Option-cases, eq-cases, lt-cases, length, get_or, length-append, contains, Memory,
  update, u16, u32, copy, zeros, load16, load32, store16, store32, bytes, AllBytes, AgreeOn,
  bytes-AgreeOn, bytes-shift, copy-in, copy-start, copy-before, all_below, all_below-at,
}
use webrtc_caller.Stun.Types.{valid_channel}
use webrtc_caller.Addr.{IoaAddr, addr_set_any, addr_eq_no_port, addr_hash_no_port, addr_get_port}
use webrtc_caller.Maps.LmMap.{LmMap, Entry, foreach}
use webrtc_caller.Maps.LmMap
use Slots.{ptr, find_slot}

abbrev pub hash_size : ℕ
hash_size = 8

abbrev pub array_size : ℕ
array_size = 3

-- turn_permission_info: `owner` says that the pointer is not NULL, and `lifetime_ev` is the delay that
-- the timer was set with, `none` where there is no timer.
pub record PermInfo : Type 0 where
  pub allocated : Bool
  pub chns : LmMap
  pub addr : IoaAddr
  pub expiration_time : ℕ
  pub lifetime_ev : Option ℕ
  pub owner : Bool

-- ch_info: `owner` is the pointer to the permission. The channel of the kernel is left out.
pub record ChInfo : Type 0 where
  pub chnum : ℕ
  pub allocated : Bool
  pub port : ℕ
  pub peer_addr : IoaAddr
  pub expiration_time : ℕ
  pub lifetime_ev : Option ℕ
  pub owner : ℕ

pub record Allocation : Type 0 where
  pub is_valid : Bool
  pub perms : ℕ → PermInfo
  pub perm_sz : ℕ → ℕ
  pub chns : ℕ → ChInfo
  pub chn_sz : ℕ → ℕ

abbrev pub empty_perm : PermInfo
empty_perm = record {
  allocated = false;
  chns = LmMap.init;
  addr = addr_set_any;
  expiration_time = 0;
  lifetime_ev = none;
  owner = false;
}

abbrev pub empty_chn : ChInfo
empty_chn = record {
  chnum = 0;
  allocated = false;
  port = 0;
  peer_addr = addr_set_any;
  expiration_time = 0;
  lifetime_ev = none;
  owner = 0;
}

unfoldable pub init_allocation : Allocation
init_allocation = record {
  is_valid = false;
  perms = λ p. empty_perm;
  perm_sz = λ i. array_size;
  chns = λ c. empty_chn;
  chn_sz = λ i. array_size;
}

abbrev pub set_perm : Allocation → ℕ → PermInfo → Allocation
set_perm a p info = record a { perms = update a.perms p info }

abbrev pub set_chn : Allocation → ℕ → ChInfo → Allocation
set_chn a c info = record a { chns = update a.chns c info }

abbrev pub perm_index : IoaAddr → ℕ
perm_index addr = addr_hash_no_port addr % hash_size

abbrev pub chn_index : ℕ → ℕ
chn_index chnum = chnum % hash_size

-- The tests of the loops over the slots.
abbrev pub perm_of : Allocation → IoaAddr → ℕ → Bool
perm_of a addr p = (a.perms p).allocated && addr_eq_no_port (a.perms p).addr addr

abbrev pub perm_unused : Allocation → ℕ → Bool
perm_unused a p = not (a.perms p).allocated

abbrev pub chn_of : Allocation → ℕ → ℕ → Bool
chn_of a chnum c = (a.chns c).allocated && (a.chns c).chnum == chnum

abbrev pub chn_unused : Allocation → ℕ → Bool
chn_unused a c = not (a.chns c).allocated

-- get_from_turn_permission_hashtable
unfoldable pub get_permission : Allocation → IoaAddr → Option ℕ
get_permission a addr = find_slot (perm_of a addr) (perm_index addr) 0 (a.perm_sz (perm_index addr))

abbrev pub new_perm : IoaAddr → PermInfo
new_perm addr = record empty_perm { allocated = true; addr = addr; owner = true }

unfoldable pub add_permission : Allocation → IoaAddr → ℕ × Allocation
add_permission a addr =
    let i = perm_index addr in
    elim (find_slot (perm_unused a) i 0 (a.perm_sz i)) [
      | some p ↦ (p, set_perm a p (new_perm addr))
      | none ↦
          let p = ptr i (a.perm_sz i) in
          (
            p,
            record (set_perm a p (new_perm addr)) {
              perm_sz = update a.perm_sz i (a.perm_sz i + 1);
            },
          )
    ]

-- ch_map_get without a new channel.
unfoldable pub get_ch_info : Allocation → ℕ → Option ℕ
get_ch_info a chnum = find_slot (chn_of a chnum) (chn_index chnum) 0 (a.chn_sz (chn_index chnum))

-- ch_map_get for a new channel: a slot that is not in use, cleared if it is a new one.
unfoldable pub new_slot : Allocation → ℕ → ℕ × Allocation
new_slot a chnum =
    let i = chn_index chnum in
    elim (find_slot (chn_unused a) i 0 (a.chn_sz i)) [
      | some c ↦ (c, a)
      | none ↦
          let c = ptr i (a.chn_sz i) in
          (c, record (set_chn a c empty_chn) { chn_sz = update a.chn_sz i (a.chn_sz i + 1) })
    ]

unfoldable pub ch_map_get : Allocation → ℕ → Bool → Option ℕ × Allocation
unfolding get_ch_info new_slot
ch_map_get a chnum new_chn =
    if new_chn then (let (c, a') = new_slot a chnum in (some c, a')) else (get_ch_info a chnum, a)

-- The permission of the peer, made where there is none.
unfoldable pub ensure_permission : Allocation → IoaAddr → ℕ × Allocation
unfolding get_permission add_permission
ensure_permission a addr = elim (get_permission a addr) [
  | some p ↦ (p, a)
  | none ↦ add_permission a addr
]

-- What is written into the slot of a new channel, and into the map of its permission.
abbrev pub bound : ChInfo → ℕ → IoaAddr → ℕ → ChInfo
bound old chnum peer_addr owner = record old {
  chnum = chnum;
  allocated = true;
  port = u16 (addr_get_port peer_addr);
  peer_addr = peer_addr;
  owner = owner;
}

abbrev pub with_channel : PermInfo → ℕ → ℕ → PermInfo
with_channel info port c = record info { chns = (LmMap.put info.chns port c).0 }

unfoldable pub get_new_ch_info : Allocation → ℕ → IoaAddr → ℕ × Allocation
get_new_ch_info a chnum peer_addr =
    let (p, a1) = ensure_permission a peer_addr in
    let (c, a2) = new_slot a1 chnum in
    let a3 = set_chn a2 c (bound (a2.chns c) chnum peer_addr p) in
    (c, set_perm a3 p (with_channel (a3.perms p) (addr_get_port peer_addr) c))

-- get_turn_channel and get_turn_channel_number, for a permission that is not NULL.
unfoldable pub get_turn_channel : Allocation → ℕ → IoaAddr → Option ℕ
get_turn_channel a p addr = elim (LmMap.get (a.perms p).chns (addr_get_port addr)) [
  | none ↦ none
  | some c ↦ if c == 0 then none else if valid_channel (a.chns c).chnum then some c else none
]

unfoldable pub get_turn_channel_number : Allocation → ℕ → IoaAddr → ℕ
unfolding get_turn_channel
get_turn_channel_number a p addr = elim (get_turn_channel a p addr) [
  | none ↦ 0
  | some c ↦ (a.chns c).chnum
]

unfoldable pub get_ch_info_by_peer_addr : Allocation → IoaAddr → Option ℕ
unfolding get_permission get_turn_channel
get_ch_info_by_peer_addr a peer_addr = elim (get_permission a peer_addr) [
  | none ↦ none
  | some p ↦ get_turn_channel a p peer_addr
]

abbrev pub ch_info_clean : Allocation → ℕ → Allocation
ch_info_clean a c = set_chn a c empty_chn

-- delete_channel_info_from_allocation_map as the function of lm_map_foreach.
abbrev pub delete_channel_info : Entry → Allocation → Allocation × Bool
delete_channel_info e a = (if e.value == 0 then a else ch_info_clean a e.value, false)

unfoldable pub permission_clean : Allocation → ℕ → Allocation
permission_clean a p =
    if (a.perms p).allocated
    then set_perm (foreach delete_channel_info (a.perms p).chns a).0 p empty_perm
    else a

unfoldable pub channel_delete : Allocation → ℕ → Allocation
channel_delete a c =
    let p = (a.chns c).owner in
    let a' =
      if p == 0
      then a
      else set_perm a p (record (a.perms p) {
        chns = (LmMap.del (a.perms p).chns (addr_get_port (a.chns c).peer_addr)).0;
      }) in
    ch_info_clean a' c
