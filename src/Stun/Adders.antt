-- ===== src/Stun/Adders.antt =====
-- The functions of coturn/src/client/ns_turn_msg.c that add a simple attribute, and their readers.
use webrtc_caller.Base.{
  ℕ, ◌+◌, ◌*◌, ◌/◌, ◌%◌, ◌<◌, bit_and, ◌≡◌, refl, sym, ap, ◌∙◌, inl, inr, Bool, true, false, not,
  Option, none, some, List, [], ◌∷◌, ◌++◌, arith, ◌==◌, ==-refl, Bool-cases, length, get_or, Memory,
  u32, zeros, bytes,
}
use webrtc_caller.Stun.Types.{valid_channel}
use webrtc_caller.Stun.Header.{max_message_size}
use webrtc_caller.Stun.Attr.{attr_len, attr_value, padding_of, Added, added, add, get_first_by_type}
use webrtc_caller.Stun.Error.{first_bytes, get_default_reason}
use webrtc_caller.Stun.Integrity.{from_list}
use webrtc_caller.Stun.Message.{Attribute, Represents, first_value, value_at}
use webrtc_caller.Stun.Walk.{get_first_by_type_refines}
use webrtc_caller.Stun.Append.{add_refines}
use webrtc_caller.Stun.Reading.{length-bytes}
use webrtc_caller.Stun.Request.{
  attribute_channel_number, channel_number, bandwidth, change_request, response_port,
}

abbrev pub attribute_change_request : ℕ
attribute_change_request = 0x0003

abbrev pub attribute_padding : ℕ
attribute_padding = 0x0026

abbrev pub attribute_response_port : ℕ
attribute_response_port = 0x0027

abbrev pub attribute_new_bandwidth : ℕ
attribute_new_bandwidth = 0x8010

abbrev pub attribute_address_error_code : ℕ
attribute_address_error_code = 0x8033

-- Two and four bytes in network order.
abbrev pub bytes16 : ℕ → List ℕ
bytes16 v = v / 256 % 256 ∷ v % 256 ∷ []

abbrev pub bytes32 : ℕ → List ℕ
bytes32 v = v / 0x100_0000 % 256 ∷ v / 0x1_0000 % 256 ∷ v / 256 % 256 ∷ v % 256 ∷ []

abbrev pub add_field : Memory → ℕ → ℕ → List ℕ → Added
add_field buf len ty v = add buf len ty (from_list v) (length v)

unfoldable pub add_channel_number : Memory → ℕ → ℕ → Added
add_channel_number buf len chnumber =
    add_field buf len attribute_channel_number (bytes16 chnumber ++ (0 ∷ 0 ∷ []))

-- `bps0 >> 7`, cut to 32 bits.
unfoldable pub add_bandwidth : Memory → ℕ → ℕ → Added
add_bandwidth buf len bps0 = add_field buf len attribute_new_bandwidth (bytes32 (u32 (bps0 / 128)))

abbrev pub change_bits : Bool → Bool → ℕ
change_bits true true = 0x06
change_bits true false = 0x04
change_bits false true = 0x02
change_bits false false = 0

unfoldable pub add_change_request : Memory → ℕ → Bool → Bool → Added
add_change_request buf len change_ip change_port =
    add_field buf len attribute_change_request (0 ∷ 0 ∷ 0 ∷ change_bits change_ip change_port ∷ [])

unfoldable pub add_response_port : Memory → ℕ → ℕ → Added
add_response_port buf len port =
    add_field buf len attribute_response_port (bytes16 port ++ (0 ∷ 0 ∷ []))

unfoldable pub add_padding : Memory → ℕ → ℕ → Added
add_padding buf len padding_len = add buf len attribute_padding zeros padding_len

unfoldable pub padding_len : Memory → ℕ → ℕ
padding_len buf a = attr_len buf a

-- strncpy leaves 508 bytes of the reason at most, and the whole is rounded up to four bytes.
abbrev pub address_error_text : ℕ → List ℕ
address_error_text code = first_bytes 508 (get_default_reason code)

unfoldable pub add_address_error_code : Memory → ℕ → ℕ → ℕ → Added
unfolding get_default_reason
add_address_error_code buf len family code =
    let value = family % 256 ∷ 0 ∷ code / 100 % 256 ∷ code % 100 ∷ address_error_text code in
    let alen = length value in
    add buf len attribute_address_error_code (from_list value) (alen + padding_of alen)

-- An attribute of four bytes that stands in a message, byte by byte.
abbrev Found : Memory → ℕ → ℕ → ℕ → ℕ → ℕ → ℕ → Type 0
Found buf len ty b0 b1 b2 b3 =
    (a : ℕ) × (get_first_by_type buf len ty ≡ some a)
    × (attr_len buf a ≡ 4)
    × (buf (a + 4) ≡ b0)
    × (buf (a + 5) ≡ b1)
    × (buf (a + 6) ≡ b2)
    × (buf (a + 7) ≡ b3)

four_bytes :
    (buf : Memory) (a n b0 b1 b2 b3 : ℕ)
    → bytes buf (a + 4) n ≡ b0 ∷ b1 ∷ b2 ∷ b3 ∷ []
    → (n ≡ 4) × (buf (a + 4) ≡ b0) × (buf (a + 5) ≡ b1) × (buf (a + 6) ≡ b2) × (buf (a + 7) ≡ b3)
four_bytes buf a n b0 b1 b2 b3 e =
    let size : n ≡ 4 = sym (length-bytes buf (a + 4) n) ∙ ap length e in
    let whole : bytes buf (a + 4) 4 ≡ b0 ∷ b1 ∷ b2 ∷ b3 ∷ [] =
      ap (bytes buf (a + 4)) (sym size) ∙ e in
    let one : a + 4 + 1 ≡ a + 5 = omega arith in
    let two : a + 4 + 1 + 1 ≡ a + 6 = omega arith in
    let three : a + 4 + 1 + 1 + 1 ≡ a + 7 = omega arith in
    (
      size,
      ap (λ xs. get_or xs 0 0) whole,
      ap buf (sym one) ∙ ap (λ xs. get_or xs 1 0) whole,
      ap buf (sym two) ∙ ap (λ xs. get_or xs 2 0) whole,
      ap buf (sym three) ∙ ap (λ xs. get_or xs 3 0) whole,
    )

-- The value of the last attribute where no attribute before it has its type.
first_value-last :
    (xs : List Attribute) (ty : ℕ) (v : List ℕ)
    → first_value xs ty ≡ none
    → first_value (xs ++ ((ty, v) ∷ [])) ty ≡ some v
unfolding first_value
first_value-last [] ty v e = rw (==-refl ty) refl
first_value-last ((t, x) ∷ xs) ty v e = elim (Bool-cases (t == ty)) [
  | inl same ↦ absurd (ground (arith, same, e))
  | inr other ↦ ground (arith, other, first_value-last xs ty v (ground (arith, other, e)))
]

field-Found :
    (buf : Memory) (len ty : ℕ) (xs : List Attribute) (b0 b1 b2 b3 : ℕ)
    → Represents buf len xs
    → first_value xs ty ≡ none
    → ty < 0x1_0000
    → len + 8 < max_message_size
    → (buf' : Memory) × (len' : ℕ) × (add_field buf len ty (b0 ∷ b1 ∷ b2 ∷ b3 ∷ [])
        ≡ added buf' len')
      × Found buf' len' ty b0 b1 b2 b3
field-Found buf len ty xs b0 b1 b2 b3 r absent small fits =
    let v = b0 ∷ b1 ∷ b2 ∷ b3 ∷ [] in
    let room : len + 4 + 4 + padding_of (len + 4 + 4) < max_message_size =
      ground (arith, r.aligned, fits) in
    let (buf', len', e, r') = add_refines buf len ty (from_list v) 4 xs r small room in
    (
      buf',
      len',
      e,
      go buf' len' (get_first_by_type buf' len' ty) refl (
          get_first_by_type_refines buf' len' ty (xs ++ ((ty, v) ∷ [])) r'
          ∙ first_value-last xs ty v absent),
    )
  where
    go :
        (b : Memory) (l : ℕ) (o : Option ℕ)
        → get_first_by_type b l ty ≡ o
        → value_at b o ≡ some (b0 ∷ b1 ∷ b2 ∷ b3 ∷ [])
        → Found b l ty b0 b1 b2 b3
    go b l none e h = cc h
    go b l (some a) e h =
        let (n, h0, h1, h2, h3) = four_bytes b a (attr_len b a) b0 b1 b2 b3 (ground (arith, h)) in
        (a, e, n, h0, h1, h2, h3)

attr_value-four : (buf : Memory) (a : ℕ) → attr_len buf a ≡ 4 → attr_value buf a ≡ some (a + 4)
unfolding attr_value
attr_value-four buf a h = ground (arith, h)

channel_number-read :
    (buf : Memory) (a chn : ℕ)
    → attr_len buf a ≡ 4
    → buf (a + 4) ≡ chn / 256 % 256
    → buf (a + 5) ≡ chn % 256
    → valid_channel chn ≡ true
    → channel_number buf (some a) ≡ chn
unfolding channel_number
channel_number-read buf a chn size high low valid =
    let next : a + 4 + 1 ≡ a + 5 = omega arith in
    let small : chn / 256 % 256 * 256 + chn % 256 ≡ chn = ground (arith, valid) in
    rw (channel_number, attr_value-four buf a size, size, next, high, low, small, valid) refl

-- A channel number in the range that stun_attr_add_channel_number_str adds to a message without one is
-- what stun_attr_get_channel_number reads there.
channel_number-add :
    (buf : Memory) (len : ℕ) (xs : List Attribute) (chn : ℕ)
    → Represents buf len xs
    → len + 8 < max_message_size
    → first_value xs attribute_channel_number ≡ none
    → valid_channel chn ≡ true
    → (buf' : Memory) × (len' : ℕ) × (add_channel_number buf len chn ≡ added buf' len')
      × (channel_number buf' (get_first_by_type buf' len' attribute_channel_number) ≡ chn)
unfolding add_channel_number
channel_number-add buf len xs chn r fits absent valid =
    let (buf', len', e, (a, found, size, high, low, z, z')) =
      field-Found buf len attribute_channel_number xs (chn / 256 % 256) (chn % 256) 0 0 r absent
        (omega arith) fits in
    (buf', len', e, rw found (channel_number-read buf' a chn size high low valid))

bandwidth-read :
    (buf : Memory) (a bps : ℕ)
    → attr_len buf a ≡ 4
    → buf (a + 4) ≡ bps / 0x100_0000 % 256
    → buf (a + 5) ≡ bps / 0x1_0000 % 256
    → buf (a + 6) ≡ bps / 256 % 256
    → buf (a + 7) ≡ bps % 256
    → bandwidth buf (some a) ≡ u32 (u32 bps * 128)
unfolding bandwidth
bandwidth-read buf a bps size h0 h1 h2 h3 =
    let one : a + 4 + 1 ≡ a + 5 = omega arith in
    let two : a + 4 + 2 ≡ a + 6 = omega arith in
    let three : a + 4 + 3 ≡ a + 7 = omega arith in
    let whole : bps / 0x100_0000 % 256 * 0x100_0000
          + bps / 0x1_0000 % 256 * 0x1_0000
          + bps / 256 % 256 * 256
          + bps % 256
        ≡ u32 bps =
      omega arith in
    rw (bandwidth, attr_value-four buf a size, size, one, two, three, h0, h1, h2, h3, whole) refl

-- The bandwidth is sent without its last seven bits.
bandwidth-add :
    (buf : Memory) (len : ℕ) (xs : List Attribute) (bps : ℕ)
    → Represents buf len xs
    → len + 8 < max_message_size
    → first_value xs attribute_new_bandwidth ≡ none
    → bps < 0x1_0000_0000
    → (buf' : Memory) × (len' : ℕ) × (add_bandwidth buf len bps ≡ added buf' len')
      × (bandwidth buf' (get_first_by_type buf' len' attribute_new_bandwidth) ≡ bps / 128 * 128)
unfolding add_bandwidth
bandwidth-add buf len xs bps r fits absent small =
    let v = u32 (bps / 128) in
    let (buf', len', e, (a, found, size, h0, h1, h2, h3)) =
      field-Found buf len attribute_new_bandwidth xs (v / 0x100_0000 % 256) (v / 0x1_0000 % 256)
        (v / 256 % 256) (v % 256) r absent (omega arith) fits in
    let whole : u32 (u32 v * 128) ≡ bps / 128 * 128 = omega (arith, small) in
    (buf', len', e, rw found (bandwidth-read buf' a v size h0 h1 h2 h3 ∙ whole))

-- The two bits of a change request.
bits-read :
    (change_ip change_port : Bool)
    → (not (bit_and (change_bits change_ip change_port) 4 == 0) ≡ change_ip)
      × (not (bit_and (change_bits change_ip change_port) 2 == 0) ≡ change_port)
bits-read true true = (refl, refl)
bits-read true false = (refl, refl)
bits-read false true = (refl, refl)
bits-read false false = (refl, refl)

change_request-add :
    (buf : Memory) (len : ℕ) (xs : List Attribute) (change_ip change_port : Bool)
    → Represents buf len xs
    → len + 8 < max_message_size
    → first_value xs attribute_change_request ≡ none
    → (buf' : Memory) × (len' : ℕ) × (add_change_request buf len change_ip change_port
        ≡ added buf' len')
      × ((a : ℕ) × (get_first_by_type buf' len' attribute_change_request ≡ some a)
          × (change_request buf' a ≡ some (change_ip, change_port)))
unfolding add_change_request change_request
change_request-add buf len xs change_ip change_port r fits absent =
    let (buf', len', e, (a, found, size, h0, h1, h2, h3)) =
      field-Found buf len attribute_change_request xs 0 0 0 (change_bits change_ip change_port) r
        absent (omega arith) fits in
    let (ip, port) = bits-read change_ip change_port in
    let last : a + 4 + 3 ≡ a + 7 = omega arith in
    (
      buf',
      len',
      e,
      (a, found, rw (change_request, attr_value-four buf' a size, size, last, h3, ip, port) refl),
    )

response_port-add :
    (buf : Memory) (len : ℕ) (xs : List Attribute) (port : ℕ)
    → Represents buf len xs
    → len + 8 < max_message_size
    → first_value xs attribute_response_port ≡ none
    → port < 0x1_0000
    → (buf' : Memory) × (len' : ℕ) × (add_response_port buf len port ≡ added buf' len')
      × ((a : ℕ) × (get_first_by_type buf' len' attribute_response_port ≡ some a)
          × (response_port buf' a ≡ some port))
unfolding add_response_port response_port
response_port-add buf len xs port r fits absent small =
    let (buf', len', e, (a, found, size, high, low, z, z')) =
      field-Found buf len attribute_response_port xs (port / 256 % 256) (port % 256) 0 0 r absent
        (omega arith) fits in
    let next : a + 4 + 1 ≡ a + 5 = omega arith in
    let whole : port / 256 % 256 * 256 + port % 256 ≡ port = omega (arith, small) in
    (
      buf',
      len',
      e,
      (
        a,
        found,
        rw (response_port, attr_value-four buf' a size, size, next, high, low, whole) refl,
      ),
    )

-- Four attributes of four bytes, added to a message of up to 65498 bytes that has none of them, are read
-- there as they were given: a channel number of the range, a bandwidth of 32 bits without its last seven
-- bits, the two flags of a change request, and a response port of 16 bits.
pub simple_attributes-add :
    (buf : Memory) (len : ℕ) (xs : List Attribute) (chn bps port : ℕ) (ip change_port : Bool)
    → Represents buf len xs
    → len + 8 < max_message_size
    → (first_value xs attribute_channel_number ≡ none)
      × (first_value xs attribute_new_bandwidth ≡ none)
      × (first_value xs attribute_change_request ≡ none)
      × (first_value xs attribute_response_port ≡ none)
    → valid_channel chn ≡ true
    → bps < 0x1_0000_0000
    → port < 0x1_0000
    → ((buf' : Memory) × (len' : ℕ) × (add_channel_number buf len chn ≡ added buf' len')
        × (channel_number buf' (get_first_by_type buf' len' attribute_channel_number) ≡ chn))
      × ((buf' : Memory) × (len' : ℕ) × (add_bandwidth buf len bps ≡ added buf' len')
          × (bandwidth buf' (get_first_by_type buf' len' attribute_new_bandwidth)
              ≡ bps / 128 * 128))
      × ((buf' : Memory) × (len' : ℕ) × (add_change_request buf len ip change_port
            ≡ added buf' len')
          × ((a : ℕ) × (get_first_by_type buf' len' attribute_change_request ≡ some a)
              × (change_request buf' a ≡ some (ip, change_port))))
      × ((buf' : Memory) × (len' : ℕ) × (add_response_port buf len port ≡ added buf' len')
          × ((a : ℕ) × (get_first_by_type buf' len' attribute_response_port ≡ some a)
              × (response_port buf' a ≡ some port)))
simple_attributes-add buf len xs chn bps port ip change_port r fits (c, b, q, p) valid small low = (
  channel_number-add buf len xs chn r fits c valid,
  bandwidth-add buf len xs bps r fits b small,
  change_request-add buf len xs ip change_port r fits q,
  response_port-add buf len xs port r fits p low,
)
