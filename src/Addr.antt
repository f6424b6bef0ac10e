-- ===== src/Addr.antt =====
-- Addresses: coturn/src/client/ns_turn_ioaddr.c. The union ioa_addr is a record of the fields that the
-- program reads, each with the bytes that it has in memory, in network order. A pointer is not NULL.
pub mod Order
pub mod Equal
pub mod Host
pub mod Codec
mod Tests
use webrtc_caller.Base.{
  ℕ, zero, suc, ◌+◌, ◌-◌, ◌*◌, ◌/◌, ◌%◌, ◌^◌, ◌≤◌, ◌<◌, min, bit_and, bit_or, bit_xor, ◌≡◌, refl,
  sym, ap, ◌∙◌, fun_ext, ◌≢◌, ◌↔◌, ◌⊎◌, inl, inr, Bool, true, false, not, ◌&&◌, ◌||◌, Option, none,
  some, List, [], ◌∷◌, ◌++◌, arith, ltb, leb, ◌==◌, if◌then◌else◌, ltb→lt, lt→ltb, leb→le, ==_iff,
  Bool-cases, Option-cases, eq-cases, lt-cases, length, get_or, length-append, contains, Memory,
  update, u16, u32, copy, zeros, load16, load32, store16, store32, bytes, AllBytes, AgreeOn,
  bytes-AgreeOn, bytes-shift, all_below, all_below-at,
}

-- AF_INET and AF_INET6 of Linux.
abbrev pub af_inet : ℕ
af_inet = 2

abbrev pub af_inet6 : ℕ
af_inet6 = 10

pub record IoaAddr : Type 0 where
  pub family : ℕ
  -- two bytes, four bytes, sixteen bytes
  pub port : Memory
  pub sin_addr : Memory
  pub sin6_addr : Memory

abbrev pub addr_set_any : IoaAddr
addr_set_any = record { family = 0; port = zeros; sin_addr = zeros; sin6_addr = zeros }

-- The first `n` bytes are 0; they are the same in both.
unfoldable pub all_zero : Memory → ℕ → Bool
all_zero a zero = true
all_zero a (suc n) = all_zero a n && a n == 0

unfoldable pub same_bytes : Memory → Memory → ℕ → Bool
same_bytes a b zero = true
same_bytes a b (suc n) = same_bytes a b n && a n == b n

unfoldable pub addr_any : IoaAddr → Bool
unfolding all_zero
addr_any a =
    if a.family == af_inet
    then all_zero a.sin_addr 4 && all_zero a.port 2
    else if a.family == af_inet6
    then (if not (all_zero a.port 2) then false else all_zero a.sin6_addr 16)
    else true

unfoldable pub addr_any_no_port : IoaAddr → Bool
unfolding all_zero
addr_any_no_port a =
    if a.family == af_inet
    then all_zero a.sin_addr 4
    else if a.family == af_inet6
    then all_zero a.sin6_addr 16
    else true

unfoldable pub hash_int32 : ℕ → ℕ
hash_int32 a =
    let b = bit_xor a (a / 2 ^ 4) in
    let c = u32 (bit_xor b 0xdead_beef + u32 (b * 2 ^ 5)) in bit_xor c (c / 2 ^ 11)

abbrev pub u64 : ℕ → ℕ
u64 x = x % 2 ^ 64

unfoldable pub hash_int64 : ℕ → ℕ
hash_int64 a =
    let b = bit_xor a (a / 2 ^ 4) in
    let c = u64 (bit_xor b 0xdead_beef_dead_beef + u64 (b * 2 ^ 5)) in bit_xor c (c / 2 ^ 11)

-- The integer that the host, a little-endian one, reads from `n` bytes at `i`.
unfoldable pub load_host : Memory → ℕ → ℕ → ℕ
load_host a i zero = 0
load_host a i (suc n) = load_host a i n + a (i + n) * 256 ^ n

unfoldable pub addr_hash : IoaAddr → ℕ
addr_hash a =
    if a.family == af_inet
    then hash_int32 (u32 (load_host a.sin_addr 0 4 + load_host a.port 0 2))
    else u32 (
        u64 (hash_int64 (load_host a.sin6_addr 0 8) * 2 ^ 3)
        + hash_int64 (u64 (load_host a.sin6_addr 8 8 + load_host a.port 0 2)))

unfoldable pub addr_hash_no_port : IoaAddr → ℕ
addr_hash_no_port a =
    if a.family == af_inet
    then hash_int32 (load_host a.sin_addr 0 4)
    else u32 (
        u64 (hash_int64 (load_host a.sin6_addr 0 8) * 2 ^ 3)
        + hash_int64 (load_host a.sin6_addr 8 8))

unfoldable pub addr_eq : IoaAddr → IoaAddr → Bool
addr_eq a1 a2 =
    if a1.family == a2.family
    then (if a1.family == af_inet && same_bytes a1.port a2.port 2
        then same_bytes a1.sin_addr a2.sin_addr 4
        else if a1.family == af_inet6 && same_bytes a1.port a2.port 2
        then same_bytes a1.sin6_addr a2.sin6_addr 16
        else false)
    else false

unfoldable pub addr_eq_no_port : IoaAddr → IoaAddr → Bool
addr_eq_no_port a1 a2 =
    if a1.family == a2.family
    then (if a1.family == af_inet
        then same_bytes a1.sin_addr a2.sin_addr 4
        else if a1.family == af_inet6
        then same_bytes a1.sin6_addr a2.sin6_addr 16
        else false)
    else false

-- `nswap16(port)` takes the low sixteen bits of the int.
unfoldable pub addr_set_port : IoaAddr → ℕ → IoaAddr
addr_set_port a port =
    if a.family == af_inet
    then record a { port = store16 a.port 0 (u16 port) }
    else if a.family == af_inet6
    then record a { port = store16 a.port 0 (u16 port) }
    else a

unfoldable pub addr_get_port : IoaAddr → ℕ
addr_get_port a =
    if a.family == af_inet
    then load16 a.port 0
    else if a.family == af_inet6
    then load16 a.port 0
    else 0

-- The loop of addr_less_eq over the bytes of two IPv6 addresses; `n` rounds are left.
unfoldable pub bytes_less_eq : Memory → Memory → ℕ → ℕ → Bool
bytes_less_eq a b i zero = true
bytes_less_eq a b i (suc n) =
    let rest = bytes_less_eq a b (i + 1) n in if ltb (b i) (a i) then false else rest

unfoldable pub addr_less_eq : IoaAddr → IoaAddr → Bool
addr_less_eq a1 a2 =
    if not (a1.family == a2.family)
    then ltb a1.family a2.family
    else if a1.family == af_inet
    then leb (load32 a1.sin_addr 0) (load32 a2.sin_addr 0)
    else if a1.family == af_inet6
    then bytes_less_eq a1.sin6_addr a2.sin6_addr 0 16
    else true

pub record IoaAddrRange : Type 0 where
  pub min_addr : IoaAddr
  pub max_addr : IoaAddr

unfoldable pub ioa_addr_in_range : IoaAddrRange → IoaAddr → Bool
ioa_addr_in_range range a =
    if addr_any range.min_addr || addr_less_eq range.min_addr a
    then (if addr_any range.max_addr then true else addr_less_eq a range.max_addr)
    else false

unfoldable pub ioa_addr_is_multicast : IoaAddr → Bool
ioa_addr_is_multicast a =
    if a.family == af_inet
    then ltb 223 (a.sin_addr 0)
    else if a.family == af_inet6
    then a.sin6_addr 0 == 255
    else false

unfoldable pub ioa_addr_is_loopback : IoaAddr → Bool
unfolding all_zero
ioa_addr_is_loopback a =
    if a.family == af_inet
    then a.sin_addr 0 == 127
    else if a.family == af_inet6
    then (if a.sin6_addr 15 == 1 then all_zero a.sin6_addr 15 else false)
    else false

unfoldable pub ioa_addr_is_zero : IoaAddr → Bool
unfolding all_zero
ioa_addr_is_zero a =
    if a.family == af_inet
    then a.sin_addr 0 == 0
    else if a.family == af_inet6
    then all_zero a.sin6_addr 16
    else false

-- The two arrays of ioa_addr_add_mapping as one list of pairs, public and private.
abbrev pub Mappings : Type 0
Mappings = List (IoaAddr × IoaAddr)

unfoldable pub add_mapping : Mappings → IoaAddr → IoaAddr → Mappings
add_mapping m apub apriv = m ++ ((apub, apriv) ∷ [])

unfoldable pub public_to_private : Mappings → IoaAddr → IoaAddr
public_to_private [] a = a
public_to_private ((apub, apriv) ∷ m) a =
    if addr_eq_no_port a apub then addr_set_port apriv (addr_get_port a) else public_to_private m a

unfoldable pub private_to_public : Mappings → IoaAddr → IoaAddr
private_to_public [] a = a
private_to_public ((apub, apriv) ∷ m) a =
    if addr_eq_no_port a apriv then addr_set_port apub (addr_get_port a) else private_to_public m a
