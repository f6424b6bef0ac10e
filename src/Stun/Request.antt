-- ===== src/Stun/Request.antt =====
-- The allocate request of ns_turn_msg.c and the attributes that a server reads from it.
use webrtc_caller.Base.{
  ℕ, zero, suc, ◌+◌, ◌*◌, ◌^◌, bit_and, Bool, true, false, not, ◌&&◌, Option, none, some, ltb, leb,
  ◌==◌, if◌then◌else◌, Memory, u32, zeros, load16, load32, store32,
}
use webrtc_caller.Stun.Types.{valid_channel}
use webrtc_caller.Stun.Header.{header_length, init_request}
use webrtc_caller.Stun.Attr.{
  attr_type, attr_len, attr_value, get_first, next_from, Added, refused, added, underrun, add,
}

abbrev pub method_allocate : ℕ
method_allocate = 3

abbrev pub attribute_channel_number : ℕ
attribute_channel_number = 0x000c

abbrev pub attribute_lifetime : ℕ
attribute_lifetime = 0x000d

abbrev pub attribute_requested_address_family : ℕ
attribute_requested_address_family = 0x0017

abbrev pub attribute_even_port : ℕ
attribute_even_port = 0x0018

abbrev pub attribute_requested_transport : ℕ
attribute_requested_transport = 0x0019

abbrev pub attribute_reservation_token : ℕ
attribute_reservation_token = 0x0022

abbrev pub attribute_additional_address_family : ℕ
attribute_additional_address_family = 0x8032

abbrev pub attribute_mobility_ticket : ℕ
attribute_mobility_ticket = 0x8030

abbrev pub default_allocate_lifetime : ℕ
default_allocate_lifetime = 600

abbrev pub min_allocate_lifetime : ℕ
min_allocate_lifetime = default_allocate_lifetime

unfoldable pub adjust_allocate_lifetime : ℕ → ℕ → ℕ → ℕ
adjust_allocate_lifetime lifetime max_allowed_lifetime max_lifetime =
    let lifetime' =
      if lifetime == 0
      then default_allocate_lifetime
      else if ltb lifetime min_allocate_lifetime
      then min_allocate_lifetime
      else if ltb max_allowed_lifetime lifetime
      then max_allowed_lifetime
      else lifetime in
    if not (max_lifetime == 0) && ltb max_lifetime lifetime' then max_lifetime else lifetime'

-- Four bytes of which the first is given and the others are 0.
abbrev pub field_of : ℕ → Memory
field_of b i = if i == 0 then b else 0

-- One `if (!stun_attr_add_str(...)) return false;` on what the steps before it left.
unfoldable pub then_add : Added → ℕ → Memory → ℕ → Added
then_add refused attr value alen = refused
then_add underrun attr value alen = underrun
then_add (added buf len) attr value alen = add buf len attr value alen

-- A stun_attr_add_str whose result is not looked at.
unfoldable pub then_try : Added → ℕ → Memory → ℕ → Added
then_try refused attr value alen = refused
then_try underrun attr value alen = underrun
then_try (added buf len) attr value alen = elim (add buf len attr value alen) [
  | refused ↦ added buf len
  | underrun ↦ underrun
  | added buf' len' ↦ added buf' len'
]

unfoldable pub add_mobility : Bool → Added → Added
unfolding then_add
add_mobility mobile m = if mobile then then_add m attribute_mobility_ticket zeros 0 else m

-- `ep` is `none` where it is not above -1, and else whether it is not 0.
unfoldable pub add_even_port : Option Bool → Added → Added
unfolding then_add
add_even_port none m = m
add_even_port (some ep) m = then_add m attribute_even_port (field_of (if ep then 0x80 else 0)) 1

-- RESERVATION-TOKEN and the address families exclude each other.
unfoldable pub add_families : Bool → Bool → Added → Added
unfolding then_add
add_families true false m = then_add m attribute_requested_address_family (field_of 1) 4
add_families false true m = then_add m attribute_requested_address_family (field_of 2) 4
add_families true true m = then_add m attribute_additional_address_family (field_of 2) 4
add_families false false m = m

unfoldable pub add_token : Option Memory → Bool → Bool → Added → Added
unfolding then_try add_families
add_token (some rt) af4 af6 m = then_try m attribute_reservation_token rt 8
add_token none af4 af6 m = add_families af4 af6 m

-- `random_tid` is the transaction id that is generated.
unfoldable pub set_allocate_request :
    Memory → Memory → ℕ → Bool → Bool → ℕ → Bool → Option Memory → Option Bool → Added
unfolding then_add add_mobility add_even_port add_token
set_allocate_request random_tid buf lifetime af4 af6 transport mobile rt ep =
    let lifetime' = if ltb lifetime 1 then default_allocate_lifetime else lifetime in
    let start = added (init_request random_tid method_allocate buf) header_length in
    let m1 = then_add start attribute_requested_transport (field_of transport) 4 in
    let m2 = then_add m1 attribute_lifetime (store32 zeros 0 lifetime') 4 in
    add_token rt af4 af6 (add_even_port ep (add_mobility mobile m2))

-- The value is read behind a length test in each getter; an absent attribute has no index.
-- `none` stands for STUN_ATTRIBUTE_REQUESTED_ADDRESS_FAMILY_VALUE_INVALID.
unfoldable pub requested_address_family : Memory → Option ℕ → Option ℕ
requested_address_family buf none = some 0
requested_address_family buf (some a) =
    if not (attr_len buf a == 4)
    then none
    else if buf (a + 4) == 1
    then some 1
    else if buf (a + 4) == 2
    then some 2
    else none

unfoldable pub channel_number : Memory → Option ℕ → ℕ
unfolding attr_value
channel_number buf none = 0
channel_number buf (some a) = elim (attr_value buf a) [
  | none ↦ 0
  | some value ↦
      if leb 2 (attr_len buf a)
      then (if valid_channel (load16 buf value) then load16 buf value else 0)
      else 0
]

-- `bps << 7` in 32 bits.
unfoldable pub bandwidth : Memory → Option ℕ → ℕ
unfolding attr_value
bandwidth buf none = 0
bandwidth buf (some a) = elim (attr_value buf a) [
  | none ↦ 0
  | some value ↦ if leb 4 (attr_len buf a) then u32 (load32 buf value * 128) else 0
]

unfoldable pub reservation_token_value : Memory → Option ℕ → ℕ
unfolding attr_value
reservation_token_value buf none = 0
reservation_token_value buf (some a) = elim (attr_value buf a) [
  | none ↦ 0
  | some value ↦
      if attr_len buf a == 8 then load32 buf value * 2 ^ 32 + load32 buf (value + 4) else 0
]

unfoldable pub even_port : Memory → Option ℕ → ℕ
unfolding attr_value
even_port buf none = 0
even_port buf (some a) = elim (attr_value buf a) [
  | none ↦ 0
  | some value ↦ if ltb 0x7f (buf value) then 1 else 0
]

-- Whether the IP and the port are to be changed, and `none` for false.
unfoldable pub change_request : Memory → ℕ → Option (Bool × Bool)
unfolding attr_value
change_request buf a = if not (attr_len buf a == 4) then none else elim (attr_value buf a) [
  | none ↦ none
  | some value ↦
      some (not (bit_and (buf (value + 3)) 4 == 0), not (bit_and (buf (value + 3)) 2 == 0))
]

unfoldable pub response_port : Memory → ℕ → Option ℕ
unfolding attr_value
response_port buf a =
    if ltb (attr_len buf a) 2
    then none
    else elim (attr_value buf a) [ none ↦ none | some value ↦ some (load16 buf value) ]

-- The loop of stun_attr_get_first_channel_number_str on fuel.
unfoldable pub find_channel_number : ℕ → Memory → ℕ → Option ℕ → ℕ
unfolding channel_number
find_channel_number fuel buf len none = 0
find_channel_number zero buf len (some a) = 0
find_channel_number (suc fuel) buf len (some a) =
    let rest = find_channel_number fuel buf len (next_from buf len a) in
    let ret = channel_number buf (some a) in
    if attr_type buf a == attribute_channel_number && valid_channel ret then ret else rest

unfoldable pub get_first_channel_number : Memory → ℕ → ℕ
get_first_channel_number buf len = find_channel_number len buf len (get_first buf len)
