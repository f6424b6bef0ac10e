-- ===== src/Stun/Start.antt =====
-- A message that stun_init_command_str has started.
use webrtc_caller.Base.{
  ℕ, ◌/◌, ◌%◌, ◌<◌, bit_and, ◌≡◌, refl, ◌∙◌, Bool, true, false, [], arith, ◌==◌, ==_iff, Memory,
  load16, all_below, all_below-at,
}
use webrtc_caller.Stun.Types.{Class, type_of, tests_of, class_tests, type_of_lem, method_of_type}
use webrtc_caller.Stun.Header.{
  header_length, command_message_len, init_command, is_command_message, is_channel_msg,
  get_msg_type, get_method, is_request, is_indication, is_success_response, is_error_response,
  tid_from_message, tid_equals,
}
use webrtc_caller.Stun.Message.{Represents}

mask_table : all_below 0x4000 (λ t. bit_and t 0x3fff == t) ≡ true
unfolding all_below
mask_table = refl

type_mask : (t : ℕ) → t < 0x4000 → bit_and t 0x3fff ≡ t
type_mask t h = (==_iff (bit_and t 0x3fff) t).0 (all_below-at 0x4000 _ t mask_table h)

top_bits_table : all_below 0x40 (λ b. bit_and b 0xc0 == 0) ≡ true
unfolding all_below
top_bits_table = refl

top_bits : (b : ℕ) → b < 0x40 → bit_and b 0xc0 ≡ 0
top_bits b h = (==_iff (bit_and b 0xc0) 0).0 (all_below-at 0x40 _ b top_bits_table h)

-- What the four tests of a message say of it, in the order of `tests_of`.
abbrev pub message_tests : Memory → ℕ → Bool × Bool × Bool × Bool
message_tests buf len = (
  is_request buf len,
  is_indication buf len,
  is_success_response buf len,
  is_error_response buf len,
)

module _ (random_tid buf : Memory) (t : ℕ) (small : t < 0x4000) where
  started : Memory
  unfolding init_command
  started = init_command random_tid t buf

  type_started : load16 started 0 ≡ t
  unfolding started
  type_started = rw (type_mask t small) (ground arith)

  started-Represents : Represents started header_length []
  unfolding started command_message_len
  started-Represents = record {
    whole = ground arith;
    aligned = refl;
    header = omega arith;
    holds = refl;
  }

  started-is_command : is_command_message started header_length ≡ true
  unfolding started is_command_message
  started-is_command = ground (arith, type_mask t small, top_bits (t / 256 % 256))

  msg_type_started : get_msg_type started header_length ≡ t
  unfolding get_msg_type
  msg_type_started = rw (type_started, type_mask t small)

  started-is_channel : is_channel_msg started header_length ≡ false
  unfolding is_channel_msg
  started-is_channel = rw type_started (ground arith)

  tid_started : tid_equals (tid_from_message started) random_tid ≡ true
  unfolding started tid_equals tid_from_message
  tid_started = ground arith

  method_started : get_method started header_length ≡ method_of_type t
  unfolding get_method
  method_started = rw type_started

  tests_started : message_tests started header_length ≡ class_tests t
  unfolding is_request is_indication is_success_response is_error_response class_tests
  tests_started = rw (started-is_channel, msg_type_started)

-- A message that is started for a class and a method of twelve bits is a command message of 20 bytes
-- without attributes. Its method, its class and its transaction id are read back.
pub init_command_round_trip :
    (random_tid buf : Memory) (c : Class) (method : ℕ)
    → method < 0x1000
    → let m = init_command random_tid (type_of c method) buf in
      Represents m header_length []
      × (is_command_message m header_length ≡ true)
      × (get_method m header_length ≡ method)
      × (message_tests m header_length ≡ tests_of c)
      × (tid_equals (tid_from_message m) random_tid ≡ true)
unfolding started
init_command_round_trip random_tid buf c method h =
    let (back, small, tests) = type_of_lem c method h in
    let t = type_of c method in
    (
      started-Represents random_tid buf t small,
      started-is_command random_tid buf t small,
      method_started random_tid buf t small ∙ back,
      tests_started random_tid buf t small ∙ tests,
      tid_started random_tid buf t small,
    )
