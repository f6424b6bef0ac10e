-- ===== src/Stun/Framing.antt =====
-- The length of the message at the start of a stream: stun_get_message_len_str of
-- coturn/src/client/ns_turn_msg.c. The length of an HTTP request, is_http, is a parameter: 0 where the
-- bytes are none.
use webrtc_caller.Base.{
  ℕ, ◌+◌, ◌*◌, ◌/◌, ◌%◌, ◌≤◌, ◌<◌, bit_and, ◌≡◌, refl, sym, ◌∙◌, Bool, true, false, not, ◌&&◌,
  Option, none, some, arith, ltb, leb, ◌==◌, if◌then◌else◌, length, Memory, u16, load16, load32,
  store16,
}
use mathlib.Core.Path.{subst₂}
use webrtc_caller.Stun.Types.{valid_channel}
use webrtc_caller.Stun.Header.{header_length, magic_cookie, max_message_size, is_command_message}
use webrtc_caller.Stun.Channel.{init_channel_message}

-- The first block: a STUN message with its header. The sum is of 16 bits.
unfoldable pub stun_len : Memory → ℕ → Option ℕ
stun_len buf blen =
    if leb header_length blen
      && not (valid_channel (load16 buf 0))
      && bit_and (buf 0) 0xc0 == 0
      && load32 buf 4 == magic_cookie
      && load16 buf 2 % 4 == 0
      && leb (u16 (load16 buf 2 + header_length)) blen
    then some (u16 (load16 buf 2 + header_length))
    else none

abbrev pub round_up : ℕ → ℕ
round_up n = u16 ((n / 4 + 1) * 4)

-- The last block: ChannelData. The result and the length without the padding.
unfoldable pub channel_len : Memory → ℕ → Bool → Option (ℕ × ℕ)
channel_len buf blen padding =
    if leb 4 blen && valid_channel (load16 buf 0)
    then (let app_len = u16 (4 + load16 buf 2) in
        let bret = if padding && not (app_len % 4 == 0) then round_up app_len else app_len in
        if leb bret blen then some (bret, app_len) else none)
    else none

-- The result and `*app_len`; none is -1.
unfoldable pub get_message_len : (Memory → ℕ → ℕ) → Memory → ℕ → Bool → Option (ℕ × ℕ)
unfolding stun_len channel_len
get_message_len is_http buf blen padding = if blen == 0 then none else elim (stun_len buf blen) [
  | some n ↦ some (n, n)
  | none ↦
      let http_len = is_http buf blen in
      if ltb 0 http_len && leb http_len blen
      then some (http_len, http_len)
      else channel_len buf blen padding
]

-- A message that is_command_message accepts as a whole is cut off at its end from a stream that begins
-- with it, whatever stands behind it, as long as its length is one of 16 bits.
pub get_message_len-command :
    (is_http : Memory → ℕ → ℕ) (buf : Memory) (len blen : ℕ) (padding : Bool)
    → is_command_message buf len ≡ true
    → len ≤ blen
    → len < 0x1_0000
    → get_message_len is_http buf blen padding ≡ some (len, len)
unfolding get_message_len
get_message_len-command is_http buf len blen padding whole fits small =
    let size : load16 buf 2 + header_length ≡ len =
      unfold is_command_message in ground (arith, whole) in
    let found : stun_len buf blen ≡ some len =
      unfold stun_len is_command_message in ground (arith, whole, size, fits, small) in
    let not_empty : (blen == 0) ≡ false = ground (arith, size, fits) in rw (not_empty, found) refl

stun_len-channel :
    (buf : Memory) (blen : ℕ) → valid_channel (load16 buf 0) ≡ true → stun_len buf blen ≡ none
unfolding stun_len
stun_len-channel buf blen h = ground (arith, h)

get_message_len-not_stun :
    (is_http : Memory → ℕ → ℕ) (buf : Memory) (blen : ℕ) (padding : Bool)
    → valid_channel (load16 buf 0) ≡ true
    → is_http buf blen ≡ 0
    → get_message_len is_http buf blen padding
      ≡ (if blen == 0 then none else channel_len buf blen padding)
unfolding get_message_len
get_message_len-not_stun is_http buf blen padding valid plain =
    rw (stun_len-channel buf blen valid, plain) refl

-- The ChannelData message that init_channel_message makes.
abbrev channel_data : ℕ → ℕ → Memory → Memory
channel_data chn length buf = store16 (store16 buf 0 chn) 2 (u16 length)

abbrev channel_size : ℕ → Bool → ℕ
channel_size length padding =
    let rlen = u16 length in
    4 + (if padding && not (rlen % 4 == 0) then u16 ((rlen / 4 + 1) * 4) else rlen)

channel_data-fields :
    (chn length : ℕ) (buf : Memory)
    → chn ≤ 0x7fff
    → length < 0x1_0000
    → (load16 (channel_data chn length buf) 0 ≡ chn)
      × (load16 (channel_data chn length buf) 2 ≡ length)
channel_data-fields chn length buf h k = (ground (arith, h), ground (arith, k))

-- channel_len on a number and a size.
abbrev len_of : ℕ → ℕ → ℕ → Bool → Option (ℕ × ℕ)
len_of chn size blen padding =
    if leb 4 blen && valid_channel chn
    then (let app_len = u16 (4 + size) in
        let bret = if padding && not (app_len % 4 == 0) then round_up app_len else app_len in
        if leb bret blen then some (bret, app_len) else none)
    else none

sized_len :
    (size blen : ℕ) (padding : Bool) (chn : ℕ)
    → 0x4000 ≤ chn
    → chn ≤ 0x7fff
    → 4 + size ≤ max_message_size
    → channel_size size padding ≤ blen
    → len_of chn size blen padding ≡ some (channel_size size padding, 4 + size)
sized_len size blen true chn low high h k = ground (arith, k, h, low, high)
sized_len size blen false chn low high h k = ground (arith, k, h, low, high)

channel_len-data :
    (chn length blen : ℕ) (buf : Memory) (padding : Bool)
    → 0x4000 ≤ chn
    → chn ≤ 0x7fff
    → 4 + length ≤ max_message_size
    → channel_size length padding ≤ blen
    → channel_len (channel_data chn length buf) blen padding
      ≡ some (channel_size length padding, 4 + length)
unfolding channel_len
channel_len-data chn length blen buf padding low high h fits =
    let (number, size) = channel_data-fields chn length buf high (omega (arith, h)) in
    rw (number, size) (sized_len length blen padding chn low high h fits)

channel_framed :
    (is_http : Memory → ℕ → ℕ) (chn length blen : ℕ) (buf : Memory) (padding : Bool)
    → 0x4000 ≤ chn
    → chn ≤ 0x7fff
    → 4 + length ≤ max_message_size
    → channel_size length padding ≤ blen
    → is_http (channel_data chn length buf) blen ≡ 0
    → get_message_len is_http (channel_data chn length buf) blen padding
      ≡ some (channel_size length padding, 4 + length)
channel_framed is_http chn length blen buf padding low high h fits plain =
    let (number, size) = channel_data-fields chn length buf high (omega (arith, h)) in
    let not_empty : (blen == 0) ≡ false = ground (arith, fits) in
    get_message_len-not_stun is_http (channel_data chn length buf) blen padding
      (rw number (ground (arith, low, high))) plain
    ∙ rw not_empty (channel_len-data chn length blen buf padding low high h fits)

-- A ChannelData message that stun_init_channel_message_str makes for a number in the range, with or
-- without padding, is cut off at its end from a stream that begins with it and is read with the same
-- padding, and the length of its data is found, where its bytes are not taken for an HTTP request.
pub get_message_len-channel :
    (is_http : Memory → ℕ → ℕ) (chn length blen : ℕ) (buf : Memory) (padding : Bool) (m : Memory)
    (len : ℕ)
    → 0x4000 ≤ chn
    → chn ≤ 0x7fff
    → 4 + length ≤ max_message_size
    → init_channel_message chn buf length padding ≡ some (m, len)
    → len ≤ blen
    → is_http m blen ≡ 0
    → get_message_len is_http m blen padding ≡ some (len, 4 + length)
unfolding init_channel_message
get_message_len-channel is_http chn length blen buf padding m len low high h made fits plain =
    let made' : init_channel_message chn buf length padding
        ≡ some (channel_data chn length buf, channel_size length padding) =
      ground (arith, h) in
    let same : ◌≡◌ {A = Option (Memory × ℕ)}
        (some (channel_data chn length buf, channel_size length padding)) (some (m, len)) =
      sym made' ∙ made in
    let same_buf : channel_data chn length buf ≡ m = cc in
    let same_len : channel_size length padding ≡ len = cc in
    subst₂
      (λ (b : Memory) (n : ℕ).
        n ≤ blen
        → is_http b blen ≡ 0
        → get_message_len is_http b blen padding ≡ some (n, 4 + length))
      same_buf same_len (channel_framed is_http chn length blen buf padding low high h) fits plain

-- A header of ChannelData that states 65532 + k bytes, on at least four bytes, is taken for k bytes of a
-- message, less than the header itself: as k bytes without padding, and with padding as four bytes, or
-- none at all where k is 0. The bytes are not taken for an HTTP request.
pub get_message_len-wraps :
    (is_http : Memory → ℕ → ℕ) (buf : Memory) (k blen : ℕ) (padding : Bool)
    → valid_channel (load16 buf 0) ≡ true
    → load16 buf 2 ≡ 65532 + k
    → k < 4
    → 4 ≤ blen
    → is_http buf blen ≡ 0
    → get_message_len is_http buf blen padding ≡ some (if padding && not (k == 0) then 4 else k, k)
unfolding channel_len
get_message_len-wraps is_http buf k blen true valid states small long plain =
    get_message_len-not_stun is_http buf blen true valid plain
    ∙ rw (valid, states) (ground (arith, small, long))
get_message_len-wraps is_http buf k blen false valid states small long plain =
    get_message_len-not_stun is_http buf blen false valid plain
    ∙ rw (valid, states) (ground (arith, small, long))
