-- ===== src/Stun/Reply.antt =====
-- What a client reads in an error response: stun_is_error_response_str with its code and message, and
-- stun_is_challenge_response_str, of coturn/src/client/ns_turn_msg.c. A string is read up to its 0, and
-- what is written to the arguments before a result of false is left out.
use webrtc_caller.Base.{
  ℕ, ◌+◌, ◌-◌, ◌*◌, min, Bool, true, false, ◌&&◌, ◌||◌, Option, none, some, List, ltb, leb, ◌==◌,
  if◌then◌else◌, Memory, bytes,
}
use webrtc_caller.Stun.Header.{is_error_response}
use webrtc_caller.Stun.Attr.{attr_len, attr_value, get_first_by_type}
use webrtc_caller.Stun.Error.{attribute_error_code}
use webrtc_caller.Stun.Integrity.{attribute_realm, attribute_nonce, c_string}

abbrev pub attribute_third_party_authorization : ℕ
attribute_third_party_authorization = 0x802E

abbrev pub stun_max_server_name_size : ℕ
stun_max_server_name_size = 1025

-- The error code in an attribute; `old` is what the variable holds before.
abbrev pub code_at : Memory → ℕ → Option ℕ → ℕ
code_at buf old none = old
code_at buf old (some a) = if leb 4 (attr_len buf a) then buf (a + 6) * 100 + buf (a + 7) else old

-- The message beside the code, in a place of `size` bytes; `none` where it is not written.
abbrev pub message_at : Memory → ℕ → Option ℕ → Option (List ℕ)
message_at buf size none = none
message_at buf size (some a) =
    if leb 4 (attr_len buf a) && ltb 0 size
    then some (c_string (bytes buf (a + 8) (min (attr_len buf a - 4) (size - 1))))
    else none

-- Whether it is an error response, its code and its message.
unfoldable pub error_response : Memory → ℕ → ℕ → ℕ → Bool × ℕ × Option (List ℕ)
unfolding is_error_response get_first_by_type
error_response buf len old size =
    if is_error_response buf len
    then (let sar = get_first_by_type buf len attribute_error_code in
        (true, code_at buf old sar, message_at buf size sar))
    else (false, old, none)

-- The value of an attribute with a value, cut to `max` bytes.
unfoldable pub value_text : Memory → ℕ → ℕ → Option ℕ → Option (List ℕ)
unfolding attr_value
value_text buf len max none = none
value_text buf len max (some a) = elim (attr_value buf a) [
  | none ↦ none
  | some v ↦ some (bytes buf v (min (attr_len buf a) max))
]

pub record Challenge : Type 0 where
  pub err_code : ℕ
  pub realm : List ℕ
  pub nonce : List ℕ
  pub server_name : Option (List ℕ)

-- `oauth` is whether there is a server name.
abbrev pub is_some {ℓ} : {A : Type ℓ} → Option A → Bool
is_some none = false
is_some (some x) = true

abbrev pub challenge_of : ℕ → Option (List ℕ) → Option (List ℕ) → Option (List ℕ) → Option Challenge
challenge_of code none name sent = none
challenge_of code (some realm) name none = none
challenge_of code (some realm) name (some sent) =
    some (record {
      err_code = code;
      realm = c_string realm;
      nonce = c_string sent;
      server_name = name;
    })

unfoldable pub is_challenge_response : Memory → ℕ → ℕ → Option Challenge
unfolding error_response value_text
is_challenge_response buf len old =
    let (ret, code, message) = error_response buf len old 0 in
    if ret && (code == 401 || code == 438)
    then challenge_of code (value_text buf len 127 (get_first_by_type buf len attribute_realm))
        (value_text buf len stun_max_server_name_size
          (get_first_by_type buf len attribute_third_party_authorization))
        (value_text buf len 127 (get_first_by_type buf len attribute_nonce))
    else none
