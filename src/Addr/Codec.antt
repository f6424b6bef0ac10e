-- ===== src/Addr/Codec.antt =====
-- Address attributes: stun_addr_encode and stun_addr_decode of coturn/src/client/ns_turn_msg_addr.c.
use webrtc_caller.Base.{
  ℕ, ◌+◌, ◌-◌, ◌*◌, ◌/◌, ◌%◌, ◌<◌, bit_xor, ◌≡◌, refl, ◌∙◌, inl, inr, Bool, true, false, not, ◌||◌,
  Option, none, some, arith, ltb, ◌==◌, if◌then◌else◌, ==_iff, Memory, update, copy, AllBytes,
  copy-in, copy-start, copy-before, all_below, all_below-at,
}
use webrtc_caller.Addr.{IoaAddr, af_inet, af_inet6, addr_eq}
use webrtc_caller.Addr.Equal.{IsInet, same_bytes-of}

-- Byte `i` of a 32-bit number in network order.
unfoldable pub cookie_byte : ℕ → ℕ → ℕ
cookie_byte mc i =
    if i == 0
    then mc / 0x100_0000 % 256
    else if i == 1
    then mc / 0x1_0000 % 256
    else if i == 2
    then mc / 256 % 256
    else mc % 256

-- What the XOR forms put over the address bytes: the cookie, then the transaction id.
unfoldable pub mask : ℕ → Memory → Memory
unfolding cookie_byte
mask mc tsx_id i = if ltb i 4 then cookie_byte mc i else tsx_id (i - 4)

abbrev pub xor_bytes : Bool → Memory → Memory → Memory
xor_bytes xor_ed key a i = if xor_ed then bit_xor (a i) (key i) else a i

-- The port field is XORed with the two upper bytes of the cookie.
abbrev pub put_address : Bool → ℕ → Memory → ℕ → Memory → Memory → ℕ → Memory → Memory
put_address xor_ed mc tsx_id family port addr n cfield =
    copy (copy (update (update cfield 0 0) 1 family) 2 (xor_bytes xor_ed (cookie_byte mc) port) 2) 4
      (xor_bytes xor_ed (mask mc tsx_id) addr) n

-- The field and its length, or `none` for -1. The family 0 is encoded as an IPv4 address.
unfoldable pub encode : Bool → ℕ → Memory → IoaAddr → Memory → Option (Memory × ℕ)
encode xor_ed mc tsx_id ca cfield =
    if ca.family == af_inet || ca.family == 0
    then some (put_address xor_ed mc tsx_id 1 ca.port ca.sin_addr 4 cfield, 8)
    else if ca.family == af_inet6
    then some (put_address xor_ed mc tsx_id 2 ca.port ca.sin6_addr 16 cfield, 20)
    else none

abbrev pub get_port_field : Bool → ℕ → Memory → Memory → Memory
get_port_field xor_ed mc cfield port =
    copy port 0 (xor_bytes xor_ed (cookie_byte mc) (λ i. cfield (2 + i))) 2

abbrev pub get_addr_field : Bool → ℕ → Memory → ℕ → Memory → Memory → Memory
get_addr_field xor_ed mc tsx_id n cfield addr =
    copy addr 0 (xor_bytes xor_ed (mask mc tsx_id) (λ i. cfield (4 + i))) n

-- `ca` is what the address held before; the result is `none` for -1.
unfoldable pub decode : Bool → ℕ → Memory → IoaAddr → Memory → ℕ → Option IoaAddr
decode xor_ed mc tsx_id ca cfield len =
    if ltb len 8
    then none
    else if not (cfield 0 == 0)
    then none
    else if cfield 1 == 1
    then (if not (len == 8)
        then none
        else some (record {
          family = af_inet;
          port = get_port_field xor_ed mc cfield ca.port;
          sin_addr = get_addr_field xor_ed mc tsx_id 4 cfield ca.sin_addr;
          sin6_addr = ca.sin6_addr;
        }))
    else if cfield 1 == 2
    then (if not (len == 20)
        then none
        else some (record {
          family = af_inet6;
          port = get_port_field xor_ed mc cfield ca.port;
          sin_addr = ca.sin_addr;
          sin6_addr = get_addr_field xor_ed mc tsx_id 16 cfield ca.sin6_addr;
        }))
    else none

xor_table :
    all_below 0x1_0000 (λ n. bit_xor (bit_xor (n / 256) (n % 256)) (n % 256) == n / 256) ≡ true
unfolding all_below
xor_table = refl

xor_back : (x k : ℕ) → x < 256 → k < 256 → bit_xor (bit_xor x k) k ≡ x
xor_back x k hx hk =
    let n = x * 256 + k in
    let high : n / 256 ≡ x = omega arith in
    let low : n % 256 ≡ k = omega arith in
    let e =
      (==_iff (bit_xor (bit_xor (n / 256) (n % 256)) (n % 256)) (n / 256)).0
        (all_below-at 0x1_0000 _ n xor_table (omega arith)) in
    rw (high, low) at e

xor_bytes_back :
    (xor_ed : Bool) (key a b : Memory) (i : ℕ)
    → a i < 256
    → key i < 256
    → b i ≡ xor_bytes xor_ed key a i
    → xor_bytes xor_ed key b i ≡ a i
xor_bytes_back false key a b i ha hk e = e
xor_bytes_back true key a b i ha hk e = rw e (xor_back (a i) (key i) ha hk)

pub cookie_byte-lt : (mc i : ℕ) → cookie_byte mc i < 256
unfolding cookie_byte
cookie_byte-lt mc i = ground arith

mask-lt : (mc : ℕ) (tsx_id : Memory) (i : ℕ) → AllBytes tsx_id → mask mc tsx_id i < 256
unfolding mask
mask-lt mc tsx_id i h = ground (arith, h (i - 4), cookie_byte-lt mc i)

-- The memory of an address holds bytes.
pub record HasBytes (a : IoaAddr) : Type 0 where
  pub port : AllBytes a.port
  pub sin_addr : AllBytes a.sin_addr
  pub sin6_addr : AllBytes a.sin6_addr

module _ (xor_ed : Bool) (mc : ℕ) (tsx_id : Memory) (ca before : IoaAddr) (cfield : Memory)
    (tsx_bytes : AllBytes tsx_id) (ca_bytes : HasBytes ca) where
  port_back :
      (family n : ℕ) (addr : Memory) (i : ℕ)
      → i < 2
      → get_port_field xor_ed mc
          (put_address xor_ed mc tsx_id family ca.port addr n cfield)
          before.port
          i
        ≡ ca.port i
  port_back family n addr i h =
      copy-start before.port
        (xor_bytes xor_ed (cookie_byte mc)
          (λ j. put_address xor_ed mc tsx_id family ca.port addr n cfield (2 + j)))
        2 i h
      ∙ xor_bytes_back xor_ed (cookie_byte mc) ca.port
          (λ j. put_address xor_ed mc tsx_id family ca.port addr n cfield (2 + j)) i
          (ca_bytes.port i) (cookie_byte-lt mc i)
          (copy-before
              (copy (update (update cfield 0 0) 1 family) 2
                (xor_bytes xor_ed (cookie_byte mc) ca.port) 2)
              4 (xor_bytes xor_ed (mask mc tsx_id) addr) n (2 + i) (omega arith)
            ∙ copy-in (update (update cfield 0 0) 1 family) 2
                (xor_bytes xor_ed (cookie_byte mc) ca.port) 2 i h)

  addr_back :
      (family n : ℕ) (addr old : Memory) (i : ℕ)
      → i < n
      → addr i < 256
      → get_addr_field xor_ed mc tsx_id n
          (put_address xor_ed mc tsx_id family ca.port addr n cfield)
          old
          i
        ≡ addr i
  addr_back family n addr old i h b =
      copy-start old
        (xor_bytes xor_ed (mask mc tsx_id)
          (λ j. put_address xor_ed mc tsx_id family ca.port addr n cfield (4 + j)))
        n i h
      ∙ xor_bytes_back xor_ed (mask mc tsx_id) addr
          (λ j. put_address xor_ed mc tsx_id family ca.port addr n cfield (4 + j)) i b
          (mask-lt mc tsx_id i tsx_bytes)
          (copy-in
            (copy (update (update cfield 0 0) 1 family) 2
              (xor_bytes xor_ed (cookie_byte mc) ca.port) 2)
            4 (xor_bytes xor_ed (mask mc tsx_id) addr) n i h)

-- An IPv4 or IPv6 address that is encoded, plain or XORed with any cookie and transaction id, is
-- decoded as an equal address.
pub decode-encode :
    (xor_ed : Bool) (mc : ℕ) (tsx_id : Memory) (ca before : IoaAddr) (cfield : Memory)
    → AllBytes tsx_id
    → HasBytes ca
    → IsInet ca
    → (field : Memory) × (len : ℕ) × (encode xor_ed mc tsx_id ca cfield ≡ some (field, len))
      × (out : IoaAddr) × (decode xor_ed mc tsx_id before field len ≡ some out)
      × (addr_eq out ca ≡ true)
unfolding encode decode addr_eq
decode-encode xor_ed mc tsx_id ca before cfield tsx_bytes b (inl v4) = (
  put_address xor_ed mc tsx_id 1 ca.port ca.sin_addr 4 cfield,
  8,
  rw v4,
  record {
    family = af_inet;
    port =
        get_port_field xor_ed mc (put_address xor_ed mc tsx_id 1 ca.port ca.sin_addr 4 cfield)
          before.port;
    sin_addr =
        get_addr_field xor_ed mc tsx_id 4
          (put_address xor_ed mc tsx_id 1 ca.port ca.sin_addr 4 cfield) before.sin_addr;
    sin6_addr = before.sin6_addr;
  },
  refl,
  rw (
    v4,
    same_bytes-of _ _ 2
        (λ j h. port_back xor_ed mc tsx_id ca before cfield tsx_bytes b 1 4 ca.sin_addr j h),
    same_bytes-of _ _ 4 (λ j h.
        addr_back xor_ed mc tsx_id ca before cfield tsx_bytes b 1 4 ca.sin_addr before.sin_addr j h
          (b.sin_addr j)),
  ),
)
decode-encode xor_ed mc tsx_id ca before cfield tsx_bytes b (inr v6) = (
  put_address xor_ed mc tsx_id 2 ca.port ca.sin6_addr 16 cfield,
  20,
  rw v6,
  record {
    family = af_inet6;
    port =
        get_port_field xor_ed mc (put_address xor_ed mc tsx_id 2 ca.port ca.sin6_addr 16 cfield)
          before.port;
    sin_addr = before.sin_addr;
    sin6_addr =
        get_addr_field xor_ed mc tsx_id 16
          (put_address xor_ed mc tsx_id 2 ca.port ca.sin6_addr 16 cfield) before.sin6_addr;
  },
  refl,
  rw (
    v6,
    same_bytes-of _ _ 2
        (λ j h. port_back xor_ed mc tsx_id ca before cfield tsx_bytes b 2 16 ca.sin6_addr j h),
    same_bytes-of _ _ 16 (λ j h.
        addr_back xor_ed mc tsx_id ca before cfield tsx_bytes b 2 16 ca.sin6_addr before.sin6_addr j
          h (b.sin6_addr j)),
  ),
)
