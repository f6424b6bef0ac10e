-- ===== src/Stun/Header.antt =====
-- The header of a message: its tests, its length field, the transaction id, and the functions that
-- start a message. The random transaction id of turn_random_tid_size is an argument.
use webrtc_caller.Base.{
  ℕ, zero, suc, ◌+◌, ◌-◌, ◌%◌, bit_and, Bool, true, false, not, ◌&&◌, Option, none, some, ltb, leb,
  ◌==◌, if◌then◌else◌, Memory, u16, copy, zeros, load16, load32, store16, store32,
}
use webrtc_caller.Stun.Types.{
  valid_channel, method_of_type, make_request, make_indication, make_success_response,
  is_request_type, is_indication_type, is_success_type, is_error_type,
}

abbrev pub header_length : ℕ
header_length = 20

abbrev pub magic_cookie : ℕ
magic_cookie = 0x2112_a442

abbrev pub max_message_size : ℕ
max_message_size = 65507

abbrev pub method_binding : ℕ
method_binding = 1

abbrev pub tid_size : ℕ
tid_size = 12

-- `none` is the result -1.
unfoldable pub command_message_len : Memory → ℕ → Option ℕ
command_message_len buf len =
    if ltb len header_length
    then none
    else let buf_len = load16 buf 2 + header_length in
      if ltb len buf_len then none else some buf_len

-- `nswap16((uint16_t)(len - STUN_HEADER_LENGTH))`
unfoldable pub set_command_message_len : Memory → ℕ → Memory × Bool
set_command_message_len buf len =
    if ltb len header_length
    then (buf, false)
    else (store16 buf 2 (u16 (len - header_length)), true)

-- `(uint16_t)-1` on a short buffer.
unfoldable pub get_method : Memory → ℕ → ℕ
get_method buf len = if ltb len 2 then 0xffff else method_of_type (load16 buf 0)

unfoldable pub get_msg_type : Memory → ℕ → ℕ
get_msg_type buf len = if ltb len 2 then 0xffff else bit_and (load16 buf 0) 0x3fff

unfoldable pub is_channel_msg : Memory → ℕ → Bool
is_channel_msg buf blen = leb 4 blen && valid_channel (load16 buf 0)

unfoldable pub is_command_message : Memory → ℕ → Bool
is_command_message buf blen =
    leb header_length blen
    && not (valid_channel (load16 buf 0))
    && bit_and (buf 0) 0xc0 == 0
    && load32 buf 4 == magic_cookie
    && load16 buf 2 % 4 == 0
    && load16 buf 2 + header_length == blen

-- The test for a message of the old protocol; the cookie is what it has in that place.
unfoldable pub old_is_command_message : Memory → ℕ → Option ℕ
old_is_command_message buf blen =
    if leb header_length blen
      && not (valid_channel (load16 buf 0))
      && bit_and (buf 0) 0xc0 == 0
      && not (load32 buf 4 == magic_cookie)
      && load16 buf 2 % 4 == 0
      && load16 buf 2 + header_length == blen
    then some (load32 buf 4)
    else none

unfoldable pub is_request : Memory → ℕ → Bool
is_request buf len =
    if is_channel_msg buf len then false else is_request_type (get_msg_type buf len)

unfoldable pub is_success_response : Memory → ℕ → Bool
is_success_response buf len =
    if is_channel_msg buf len then false else is_success_type (get_msg_type buf len)

-- The test alone; the error code and its reason are read in another function.
unfoldable pub is_error_response : Memory → ℕ → Bool
is_error_response buf len =
    if is_channel_msg buf len then false else is_error_type (get_msg_type buf len)

unfoldable pub is_response : Memory → ℕ → Bool
is_response buf len =
    if is_channel_msg buf len
    then false
    else if is_success_type (get_msg_type buf len)
    then true
    else if is_error_type (get_msg_type buf len)
    then true
    else false

unfoldable pub is_indication : Memory → ℕ → Bool
is_indication buf len =
    if is_channel_msg buf len then false else is_indication_type (get_msg_type buf len)

-- `buf += offset; len -= offset`
unfoldable pub is_binding_request : Memory → ℕ → ℕ → Bool
is_binding_request buf len offset =
    if ltb offset len
    then (let buf' = λ (i : ℕ). buf (offset + i) in
        let len' = len - offset in
        is_command_message buf' len'
        && (is_request buf' len' && get_method buf' len' == method_binding))
    else false

unfoldable pub is_binding_response : Memory → ℕ → Bool
is_binding_response buf len =
    is_command_message buf len && get_method buf len == method_binding && is_response buf len

-- A transaction id is an array of which the first twelve bytes count.
unfoldable pub tid_equals_from : Memory → Memory → ℕ → ℕ → Bool
tid_equals_from id1 id2 i zero = true
tid_equals_from id1 id2 i (suc n) = id1 i == id2 i && tid_equals_from id1 id2 (i + 1) n

unfoldable pub tid_equals : Memory → Memory → Bool
unfolding tid_equals_from
tid_equals id1 id2 = tid_equals_from id1 id2 0 tid_size

unfoldable pub tid_from_message : Memory → Memory
tid_from_message buf = copy zeros 0 (λ i. buf (8 + i)) tid_size

unfoldable pub tid_message_cpy : Memory → Memory → Memory
tid_message_cpy buf id = copy buf 8 id tid_size

unfoldable pub init_buffer : Memory → Memory
init_buffer buf = copy buf 0 zeros header_length

unfoldable pub init_command : Memory → ℕ → Memory → Memory
unfolding init_buffer tid_message_cpy
init_command random_tid message_type buf =
    let typed = store16 (init_buffer buf) 0 (bit_and message_type 0x3fff) in
    tid_message_cpy (store32 (store16 typed 2 0) 4 magic_cookie) random_tid

unfoldable pub old_init_command : Memory → ℕ → ℕ → Memory → Memory
unfolding init_buffer tid_message_cpy
old_init_command random_tid cookie message_type buf =
    let typed = store16 (init_buffer buf) 0 (bit_and message_type 0x3fff) in
    tid_message_cpy (store32 (store16 typed 2 0) 4 cookie) random_tid

unfoldable pub init_request : Memory → ℕ → Memory → Memory
unfolding init_command make_request
init_request random_tid method buf = init_command random_tid (make_request method) buf

unfoldable pub init_indication : Memory → ℕ → Memory → Memory
unfolding init_command make_indication
init_indication random_tid method buf = init_command random_tid (make_indication method) buf

-- With an id the random one is overwritten.
unfoldable pub init_success_response : Memory → ℕ → Option Memory → Memory → Memory
unfolding init_command make_success_response tid_message_cpy
init_success_response random_tid method none buf =
    init_command random_tid (make_success_response method) buf
init_success_response random_tid method (some id) buf =
    tid_message_cpy (init_command random_tid (make_success_response method) buf) id

unfoldable pub old_init_success_response : Memory → ℕ → ℕ → Option Memory → Memory → Memory
unfolding old_init_command make_success_response tid_message_cpy
old_init_success_response random_tid cookie method none buf =
    old_init_command random_tid cookie (make_success_response method) buf
old_init_success_response random_tid cookie method (some id) buf =
    tid_message_cpy (old_init_command random_tid cookie (make_success_response method) buf) id
