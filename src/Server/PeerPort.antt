-- ===== src/Server/PeerPort.antt =====
-- The size of the port of an address attribute.
use webrtc_caller.Base.{
  ℕ, ◌+◌, ◌*◌, ◌/◌, ◌%◌, ◌<◌, bit_xor, ◌≡◌, refl, inl, inr, Bool, true, Option, none, some, [], ◌∷◌,
  arith, ltb, ltb→lt, Bool-cases, Option-cases, Memory, AllBytes, copy-start, all_below,
  all_below-at,
}
use webrtc_caller.Stun.Header.{magic_cookie, tid_from_message}
use webrtc_caller.Stun.Attr.{attr_type, attr_len}
use webrtc_caller.Addr.{
  IoaAddr, Mappings, addr_set_any, addr_get_port, addr_set_port, public_to_private,
}
use webrtc_caller.Addr.Codec.{cookie_byte, cookie_byte-lt, xor_bytes, get_port_field, decode}
use webrtc_caller.Server.Requests.{xor_form, attr_get_addr}

xor_bound : all_below 0x1_0000 (λ n. ltb (bit_xor (n / 256) (n % 256)) 256) ≡ true
unfolding all_below
xor_bound = refl

bit_xor-lt : (x k : ℕ) → x < 256 → k < 256 → bit_xor x k < 256
bit_xor-lt x k hx hk =
    let n = x * 256 + k in
    let high : n / 256 ≡ x = omega arith in
    let low : n % 256 ≡ k = omega arith in
    let e : ltb (bit_xor (n / 256) (n % 256)) 256 ≡ true =
      all_below-at 0x1_0000 _ n xor_bound (omega arith) in
    ltb→lt (bit_xor x k) 256 (rw (high, low) at e)

field-lt :
    (xor_ed : Bool) (mc : ℕ) (cfield port : Memory) (i : ℕ)
    → AllBytes cfield
    → i < 2
    → get_port_field xor_ed mc cfield port i < 256
field-lt xor_ed mc cfield port i h low =
    rw (copy-start port (xor_bytes xor_ed (cookie_byte mc) (λ j. cfield (2 + j))) 2 i low) (
      ground (
        arith,
        h (2 + i),
        bit_xor-lt (cfield (2 + i)) (cookie_byte mc i) (h (2 + i)) (cookie_byte-lt mc i),
      ))

-- An address of two bytes for its port has a port of 16 bits.
port-lt : (b : IoaAddr) → b.port 0 < 256 → b.port 1 < 256 → addr_get_port b < 65536
unfolding addr_get_port
port-lt b hi lo = ground (arith, hi, lo)

abbrev port_of : Option IoaAddr → Memory → Memory
port_of none default = default
port_of (some a) default = a.port

decode-port_field :
    (xor_ed : Bool) (mc : ℕ) (tsx_id : Memory) (ca : IoaAddr) (cfield : Memory) (len : ℕ)
    → port_of (decode xor_ed mc tsx_id ca cfield len) (get_port_field xor_ed mc cfield ca.port)
      ≡ get_port_field xor_ed mc cfield ca.port
unfolding decode
decode-port_field xor_ed mc tsx_id ca cfield len = ground (arith)

decode-port :
    (xor_ed : Bool) (mc : ℕ) (tsx_id : Memory) (ca : IoaAddr) (cfield : Memory) (len : ℕ)
    (b : IoaAddr)
    → AllBytes cfield
    → decode xor_ed mc tsx_id ca cfield len ≡ some b
    → addr_get_port b < 65536
decode-port xor_ed mc tsx_id ca cfield len b h e =
    let field : b.port ≡ get_port_field xor_ed mc cfield ca.port =
      rw e at (decode-port_field xor_ed mc tsx_id ca cfield len) in
    port-lt b (rw field (field-lt xor_ed mc cfield ca.port 0 h (omega arith)))
      (rw field (field-lt xor_ed mc cfield ca.port 1 h (omega arith)))

set_port-lt : (a : IoaAddr) (port : ℕ) → addr_get_port (addr_set_port a port) < 65536
unfolding addr_get_port addr_set_port
set_port-lt a port = ground arith

public_to_private-port :
    (m : Mappings) (a : IoaAddr)
    → addr_get_port a < 65536
    → addr_get_port (public_to_private m a) < 65536
unfolding public_to_private
public_to_private-port [] a h = h
public_to_private-port ((apub, apriv) ∷ m) a h =
    ground (arith, public_to_private-port m a h, set_port-lt apriv (addr_get_port a))

any_port : addr_get_port addr_set_any < 65536
unfolding addr_get_port
any_port = ground arith

pub attr_get_addr-port :
    (m : Mappings) (buf : Memory) (a : ℕ)
    → AllBytes buf
    → addr_get_port (attr_get_addr m buf a none).1 < 65536
unfolding attr_get_addr
attr_get_addr-port m buf a h = elim (Bool-cases (ltb (attr_len buf a) 1)) [
  | inl empty ↦ rw (empty, attr_get_addr) any_port
  | inr some_value ↦
      let decoded =
        decode (xor_form (attr_type buf a)) magic_cookie (tid_from_message buf) addr_set_any
          (λ i. buf (a + 4 + i)) (attr_len buf a) in
      elim (Option-cases decoded) [
        | inl e ↦ rw (some_value, attr_get_addr, e) any_port
        | inr (b, e) ↦
            rw (some_value, attr_get_addr, e)
              (public_to_private-port m b (
                decode-port (xor_form (attr_type buf a)) magic_cookie (tid_from_message buf)
                  addr_set_any (λ i. buf (a + 4 + i)) (attr_len buf a) b (λ i. h (a + 4 + i)) e))
      ]
]
