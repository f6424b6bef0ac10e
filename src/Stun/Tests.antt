-- ===== src/Stun/Tests.antt =====
-- The messages at concrete inputs.
use webrtc_caller.Base.{
  zero, suc, ◌*◌, ◌/◌, ap, ltb, ◌&&◌, AllBytes, Bool, store16, u16, length, ℕ, ◌+◌, ◌%◌, ◌≤◌, ◌<◌,
  ◌≡◌, refl, true, false, none, some, List, [], ◌∷◌, ◌++◌, arith, get_or, Memory, zeros, load16,
  bytes,
}
use webrtc_caller.Stun.Types.{valid_channel}
use webrtc_caller.Stun.Header.{header_length, command_message_len, is_command_message}
use webrtc_caller.Stun.Channel.{init_channel_message, is_channel_message}
use webrtc_caller.Stun.Attr.{
  attr_type, attr_len, attr_value, padded, check_valid, get_first, next_from, find_from,
  get_first_by_type, add, Added, added,
}
use webrtc_caller.Stun.Message.{Attribute, Represents, first_value, value_at}
use webrtc_caller.Stun.Walk.{
  get_first_by_type_refines, get_first_by_type-InMessage, Search, get_first_by_type-Search,
}
use webrtc_caller.Stun.Append.{add_refines}
use webrtc_caller.Stun.Fingerprint.{add_fingerprint, full_check}
use webrtc_caller.Stun.Sealed.{full_check-add_fingerprint}
use webrtc_caller.Stun.Request.{set_allocate_request}
use webrtc_caller.Stun.Allocate.{request_parts, set_allocate_request_refines}
use webrtc_caller.Stun.Error.{get_default_reason}
use webrtc_caller.Stun.ChannelNumber.{first_channel}
use webrtc_caller.Stun.Framing.{get_message_len, get_message_len-channel, get_message_len-wraps}
use webrtc_caller.Stun.Adders.{
  add_channel_number, add_bandwidth, add_change_request, add_response_port, simple_attributes-add,
}
use webrtc_caller.Stun.Request.{channel_number, bandwidth, change_request, response_port}
use webrtc_caller.Stun.Header.{set_command_message_len}
use webrtc_caller.Stun.Integrity.{
  Hmac, ShaType, sha1, sha_size, long_term, get_hmackey_size, integrity_key, check_integrity,
}
use webrtc_caller.Stun.Signed.{IsTotal}
use webrtc_caller.Stun.Trusted.{IsSigned, check_integrity-IsSigned}

-- A binding request with the attributes 0x8022 of five bytes and 0x0006 of four.
wire : List ℕ
wire =
    0 ∷ 1 ∷ 0 ∷ 20 ∷ 0x21 ∷ 0x12 ∷ 0xa4 ∷ 0x42 ∷ 1 ∷ 2 ∷ 3 ∷ 4 ∷ 5 ∷ 6 ∷ 7 ∷ 8 ∷ 9 ∷ 10 ∷ 11 ∷ 12
    ∷ 0x80 ∷ 0x22 ∷ 0 ∷ 5 ∷ 99 ∷ 111 ∷ 116 ∷ 117 ∷ 114 ∷ 0 ∷ 0 ∷ 0 ∷ 0 ∷ 6 ∷ 0 ∷ 4 ∷ 117 ∷ 115 ∷ 101
    ∷ 114 ∷ []

message : Memory
message i = get_or wire i 0

parts : List Attribute
parts = (0x8022, 99 ∷ 111 ∷ 116 ∷ 117 ∷ 114 ∷ []) ∷ (6, 117 ∷ 115 ∷ 101 ∷ 114 ∷ []) ∷ []

run_tests : ℕ
unfolding wire message parts command_message_len is_command_message padded check_valid get_first
    next_from find_from get_first_by_type first_value add init_channel_message is_channel_message
run_tests = 0

message-Represents : Represents message 40 parts
unfolding run_tests
message-Represents = record {
  whole = refl;
  aligned = refl;
  header = omega arith;
  holds = (omega arith, refl, refl, (omega arith, refl, refl, refl));
}

found_second : get_first_by_type message 40 6 ≡ some 32
unfolding run_tests
found_second = refl

abbrev appended_to : Added → Memory
appended_to (added buf len) = buf
appended_to _ = zeros

longer : Memory
longer = appended_to (add message 40 0x20 message 3)

message_added : add message 40 0x20 message 3 ≡ added longer 48
unfolding run_tests longer
message_added = refl

get_first_by_type_refines_example :
    value_at message (get_first_by_type message 40 6) ≡ first_value parts 6
get_first_by_type_refines_example = get_first_by_type_refines message 40 6 parts message-Represents

get_first_by_type-InMessage_example :
    (header_length ≤ 32) × (32 + 4 + attr_len message 32 ≤ 40) × (attr_type message 32 ≡ 6)
get_first_by_type-InMessage_example = get_first_by_type-InMessage message 40 6 32 found_second

get_first_by_type-Search_example :
    (n : ℕ) × Search message 40 6 (get_first message 40) (get_first_by_type message 40 6) n
    × (4 * n ≤ 40)
get_first_by_type-Search_example = get_first_by_type-Search message 40 6

add_refines_example :
    (buf' : Memory) × (len' : ℕ) × (add message 40 0x20 message 3 ≡ added buf' len')
    × Represents buf' len' (parts ++ ((0x20, bytes message 0 3) ∷ []))
add_refines_example =
    add_refines message 40 0x20 message 3 parts message-Represents (omega arith) (omega arith)

is_command-message : is_command_message message 40 ≡ true
unfolding run_tests
is_command-message = refl

no_fingerprint : first_value parts 0x8028 ≡ none
unfolding run_tests
no_fingerprint = refl

full_check-add_fingerprint_example :
    (buf' : Memory) × (add_fingerprint message 40 ≡ added buf' (40 + 8))
    × (full_check buf' (40 + 8) true ≡ (true, some true))
full_check-add_fingerprint_example =
    full_check-add_fingerprint message 40 parts true message-Represents is_command-message
      no_fingerprint (omega arith)

-- A ChannelData header that states three bytes.
short_data : Memory
short_data i = get_or (0x40 ∷ 1 ∷ 0 ∷ 3 ∷ []) i 0

short_data_channel : valid_channel (load16 short_data 0) ≡ true
unfolding run_tests short_data
short_data_channel = refl

short_data_len : load16 short_data 2 + 4 ≤ 44
unfolding short_data
short_data_len = omega arith

set_allocate_request_refines_example :
    (buf' : Memory) × (len : ℕ) × (set_allocate_request message zeros 0 true false 17 true none
        (some true)
      ≡ added buf' len)
    × Represents buf' len (request_parts 0 true false 17 true none (some true))
set_allocate_request_refines_example =
    set_allocate_request_refines message zeros 0 true false 17 true none (some true)

-- "Forbidden", and for a code that is not in the table "Unknown error".
reasons_run : (length (get_default_reason 403) ≡ 9) × (length (get_default_reason 999) ≡ 13)
unfolding get_default_reason
reasons_run = (refl, refl)

-- A channel-bind request for the channel 0x4001.
bind_wire : List ℕ
bind_wire =
    0 ∷ 9 ∷ 0 ∷ 8 ∷ 0x21 ∷ 0x12 ∷ 0xa4 ∷ 0x42 ∷ 1 ∷ 2 ∷ 3 ∷ 4 ∷ 5 ∷ 6 ∷ 7 ∷ 8 ∷ 9 ∷ 10 ∷ 11 ∷ 12 ∷ 0
    ∷ 12 ∷ 0 ∷ 4 ∷ 0x40 ∷ 1 ∷ 0 ∷ 0 ∷ []

bind_message : Memory
bind_message i = get_or bind_wire i 0

bind_message-Represents : Represents bind_message 28 ((12, 0x40 ∷ 1 ∷ 0 ∷ 0 ∷ []) ∷ [])
unfolding bind_message bind_wire command_message_len padded
bind_message-Represents = record {
  whole = refl;
  aligned = refl;
  header = omega arith;
  holds = (omega arith, refl, refl, refl);
}

bound_channel : first_channel ((12, 0x40 ∷ 1 ∷ 0 ∷ 0 ∷ []) ∷ []) ≡ 0x4001
unfolding first_channel
bound_channel = refl

no_http : Memory → ℕ → ℕ
no_http buf len = 0

-- ChannelData of three bytes with one of padding, and what stands behind it.
stream : Memory
stream = store16 (store16 zeros 0 0x4001) 2 (u16 3)

stream_made : init_channel_message 0x4001 zeros 3 true ≡ some (stream, 8)
unfolding init_channel_message stream
stream_made = refl

stream_plain : no_http stream 30 ≡ 0
unfolding no_http
stream_plain = refl

get_message_len-channel_example : get_message_len no_http stream 30 true ≡ some (8, 4 + 3)
get_message_len-channel_example =
    get_message_len-channel no_http 0x4001 3 30 zeros true stream 8 (omega arith) (omega arith)
      (omega arith) stream_made (omega arith) stream_plain

-- A ChannelData header that states 65533 bytes.
long_data : Memory
long_data i = get_or (0x40 ∷ 1 ∷ 0xff ∷ 0xfd ∷ []) i 0

long_data_channel :
    (valid_channel (load16 long_data 0) ≡ true)
    × (load16 long_data 2 ≡ 65532 + 1)
    × (no_http long_data 44 ≡ 0)
unfolding long_data no_http
long_data_channel = (refl, refl, refl)

get_message_len-wraps_example : get_message_len no_http long_data 44 true ≡ some (4, 1)
get_message_len-wraps_example =
    get_message_len-wraps no_http long_data 1 44 true long_data_channel.0 long_data_channel.1
      (omega arith) (omega arith) long_data_channel.2

none_of_four :
    (first_value parts 0x000C ≡ none)
    × (first_value parts 0x8010 ≡ none)
    × (first_value parts 0x0003 ≡ none)
    × (first_value parts 0x0027 ≡ none)
unfolding run_tests
none_of_four = (refl, refl, refl, refl)

simple_attributes-add_example :
    ((buf' : Memory) × (len' : ℕ) × (add_channel_number message 40 0x4001 ≡ added buf' len')
      × (channel_number buf' (get_first_by_type buf' len' 0x000C) ≡ 0x4001))
    × ((buf' : Memory) × (len' : ℕ) × (add_bandwidth message 40 1000 ≡ added buf' len')
        × (bandwidth buf' (get_first_by_type buf' len' 0x8010) ≡ 1000 / 128 * 128))
    × ((buf' : Memory) × (len' : ℕ) × (add_change_request message 40 true false ≡ added buf' len')
        × ((a : ℕ) × (get_first_by_type buf' len' 0x0003 ≡ some a)
            × (change_request buf' a ≡ some (true, false))))
    × ((buf' : Memory) × (len' : ℕ) × (add_response_port message 40 3478 ≡ added buf' len')
        × ((a : ℕ) × (get_first_by_type buf' len' 0x0027 ≡ some a)
            × (response_port buf' a ≡ some 3478)))
simple_attributes-add_example =
    simple_attributes-add message 40 parts 0x4001 1000 3478 true false message-Represents
      (omega arith) none_of_four refl (omega arith) (omega arith)

-- A digest that is the length of what it is of, over and over.
repeated : ℕ → ℕ → List ℕ
repeated zero x = []
repeated (suc n) x = x ∷ repeated n x

length-repeated : (n x : ℕ) → length (repeated n x) ≡ n
unfolding repeated
length-repeated zero x = refl
length-repeated (suc n) x = ap suc (length-repeated n x)

toy : Hmac
toy sha key m = some (repeated (sha_size sha) (length m % 256))

toy-IsTotal : (sha : ShaType) → IsTotal toy sha
unfolding toy
toy-IsTotal sha key m = (repeated (sha_size sha) (length m % 256), refl, length-repeated _ _)

-- A binding request of which MESSAGE-INTEGRITY is the one attribute.
signed_wire : List ℕ
signed_wire =
    0
    ∷ 1
    ∷ 0
    ∷ 24
    ∷ 0x21
    ∷ 0x12
    ∷ 0xa4
    ∷ 0x42
    ∷ 1
    ∷ 2
    ∷ 3
    ∷ 4
    ∷ 5
    ∷ 6
    ∷ 7
    ∷ 8
    ∷ 9
    ∷ 10
    ∷ 11
    ∷ 12
    ∷ 0
    ∷ 8
    ∷ 0
    ∷ 20
    ∷ repeated 20 20

signed_message : Memory
signed_message i = get_or signed_wire i 0

small_bytes : List ℕ → Bool
small_bytes [] = true
small_bytes (x ∷ xs) = ltb x 256 && small_bytes xs

get_or-small : (xs : List ℕ) (i : ℕ) → small_bytes xs ≡ true → get_or xs i 0 < 256
unfolding small_bytes
get_or-small [] i h = omega arith
get_or-small (x ∷ xs) zero h = ground (arith, h)
get_or-small (x ∷ xs) (suc i) h = get_or-small xs i (ground (arith, h))

signed_bytes : AllBytes signed_message
unfolding signed_message signed_wire small_bytes repeated
signed_bytes i = get_or-small signed_wire i refl

signed_accepted : (check_integrity toy long_term signed_message 44 zeros [] sha1).0 ≡ some true
unfolding run_tests check_integrity set_command_message_len signed_message signed_wire repeated toy
    get_hmackey_size integrity_key attr_value
signed_accepted = refl

check_integrity-IsSigned_example :
    IsSigned toy sha1 (integrity_key long_term sha1 zeros []) signed_message 44
check_integrity-IsSigned_example =
    check_integrity-IsSigned toy long_term signed_message 44 zeros [] sha1 (toy-IsTotal sha1)
      signed_bytes signed_accepted
