-- ===== src/Stun/Error.antt =====
-- Error responses: get_default_reason and the stun_init_error_response functions of ns_turn_msg.c.
-- A string is the list of its bytes before the terminating 0.
use webrtc_caller.Base.{
  ℕ, zero, suc, ◌+◌, ◌/◌, ◌%◌, Bool, true, false, ◌&&◌, Option, none, some, List, [], ◌∷◌, ◌==◌,
  if◌then◌else◌, length, get_or, Memory,
}
use webrtc_caller.Stun.Types.{make_error_response}
use webrtc_caller.Stun.Header.{header_length, init_command, old_init_command, tid_message_cpy}
use webrtc_caller.Stun.Attr.{Added, refused, added, underrun, add, padding_of}

abbrev pub attribute_error_code : ℕ
attribute_error_code = 9

unfoldable pub unknown_error : List ℕ
unknown_error = 85 ∷ 110 ∷ 107 ∷ 110 ∷ 111 ∷ 119 ∷ 110 ∷ 32 ∷ 101 ∷ 114 ∷ 114 ∷ 111 ∷ 114 ∷ []

-- The rows of the switch, each the code and its reason.
abbrev pub reasons : List (ℕ × List ℕ)
reasons =
    -- Try Alternate
    (300, 84 ∷ 114 ∷ 121 ∷ 32 ∷ 65 ∷ 108 ∷ 116 ∷ 101 ∷ 114 ∷ 110 ∷ 97 ∷ 116 ∷ 101 ∷ [])
    ∷  -- Bad Request
        (400, 66 ∷ 97 ∷ 100 ∷ 32 ∷ 82 ∷ 101 ∷ 113 ∷ 117 ∷ 101 ∷ 115 ∷ 116 ∷ [])
    ∷  -- Unauthorized
        (401, 85 ∷ 110 ∷ 97 ∷ 117 ∷ 116 ∷ 104 ∷ 111 ∷ 114 ∷ 105 ∷ 122 ∷ 101 ∷ 100 ∷ [])
    ∷  -- Forbidden
        (403, 70 ∷ 111 ∷ 114 ∷ 98 ∷ 105 ∷ 100 ∷ 100 ∷ 101 ∷ 110 ∷ [])
    ∷  -- Not Found
        (404, 78 ∷ 111 ∷ 116 ∷ 32 ∷ 70 ∷ 111 ∷ 117 ∷ 110 ∷ 100 ∷ [])
    ∷  -- Unknown Attribute
        (
          420,
          85 ∷ 110 ∷ 107 ∷ 110 ∷ 111 ∷ 119 ∷ 110 ∷ 32 ∷ 65 ∷ 116 ∷ 116 ∷ 114 ∷ 105 ∷ 98 ∷ 117 ∷ 116
              ∷ 101 ∷ [],
        )
    ∷  -- Allocation Mismatch
        (
          437,
          65 ∷ 108 ∷ 108 ∷ 111 ∷ 99 ∷ 97 ∷ 116 ∷ 105 ∷ 111 ∷ 110 ∷ 32 ∷ 77 ∷ 105 ∷ 115 ∷ 109 ∷ 97
              ∷ 116 ∷ 99 ∷ 104 ∷ [],
        )
    ∷  -- Stale Nonce
        (438, 83 ∷ 116 ∷ 97 ∷ 108 ∷ 101 ∷ 32 ∷ 78 ∷ 111 ∷ 110 ∷ 99 ∷ 101 ∷ [])
    ∷  -- Address Family not Supported
        (
          440,
          65 ∷ 100 ∷ 100 ∷ 114 ∷ 101 ∷ 115 ∷ 115 ∷ 32 ∷ 70 ∷ 97 ∷ 109 ∷ 105 ∷ 108 ∷ 121 ∷ 32 ∷ 110
              ∷ 111 ∷ 116 ∷ 32 ∷ 83 ∷ 117 ∷ 112 ∷ 112 ∷ 111 ∷ 114 ∷ 116 ∷ 101 ∷ 100 ∷ [],
        )
    ∷  -- Wrong Credentials
        (
          441,
          87 ∷ 114 ∷ 111 ∷ 110 ∷ 103 ∷ 32 ∷ 67 ∷ 114 ∷ 101 ∷ 100 ∷ 101 ∷ 110 ∷ 116 ∷ 105 ∷ 97 ∷ 108
              ∷ 115 ∷ [],
        )
    ∷  -- Unsupported Transport Protocol
        (
          442,
          85 ∷ 110 ∷ 115 ∷ 117 ∷ 112 ∷ 112 ∷ 111 ∷ 114 ∷ 116 ∷ 101 ∷ 100 ∷ 32 ∷ 84 ∷ 114 ∷ 97 ∷ 110
              ∷ 115 ∷ 112 ∷ 111 ∷ 114 ∷ 116 ∷ 32 ∷ 80 ∷ 114 ∷ 111 ∷ 116 ∷ 111 ∷ 99 ∷ 111 ∷ 108 ∷ [],
        )
    ∷  -- Peer Address Family Mismatch
        (
          443,
          80 ∷ 101 ∷ 101 ∷ 114 ∷ 32 ∷ 65 ∷ 100 ∷ 100 ∷ 114 ∷ 101 ∷ 115 ∷ 115 ∷ 32 ∷ 70 ∷ 97 ∷ 109
              ∷ 105 ∷ 108 ∷ 121 ∷ 32 ∷ 77 ∷ 105 ∷ 115 ∷ 109 ∷ 97 ∷ 116 ∷ 99 ∷ 104 ∷ [],
        )
    ∷  -- Connection Already Exists
        (
          446,
          67 ∷ 111 ∷ 110 ∷ 110 ∷ 101 ∷ 99 ∷ 116 ∷ 105 ∷ 111 ∷ 110 ∷ 32 ∷ 65 ∷ 108 ∷ 114 ∷ 101 ∷ 97
              ∷ 100 ∷ 121 ∷ 32 ∷ 69 ∷ 120 ∷ 105 ∷ 115 ∷ 116 ∷ 115 ∷ [],
        )
    ∷  -- Connection Timeout or Failure
        (
          447,
          67 ∷ 111 ∷ 110 ∷ 110 ∷ 101 ∷ 99 ∷ 116 ∷ 105 ∷ 111 ∷ 110 ∷ 32 ∷ 84 ∷ 105 ∷ 109 ∷ 101 ∷ 111
              ∷ 117 ∷ 116 ∷ 32 ∷ 111 ∷ 114 ∷ 32 ∷ 70 ∷ 97 ∷ 105 ∷ 108 ∷ 117 ∷ 114 ∷ 101 ∷ [],
        )
    ∷  -- Allocation Quota Reached
        (
          486,
          65 ∷ 108 ∷ 108 ∷ 111 ∷ 99 ∷ 97 ∷ 116 ∷ 105 ∷ 111 ∷ 110 ∷ 32 ∷ 81 ∷ 117 ∷ 111 ∷ 116 ∷ 97
              ∷ 32 ∷ 82 ∷ 101 ∷ 97 ∷ 99 ∷ 104 ∷ 101 ∷ 100 ∷ [],
        )
    ∷  -- Role Conflict
        (487, 82 ∷ 111 ∷ 108 ∷ 101 ∷ 32 ∷ 67 ∷ 111 ∷ 110 ∷ 102 ∷ 108 ∷ 105 ∷ 99 ∷ 116 ∷ [])
    ∷  -- Server Error
        (500, 83 ∷ 101 ∷ 114 ∷ 118 ∷ 101 ∷ 114 ∷ 32 ∷ 69 ∷ 114 ∷ 114 ∷ 111 ∷ 114 ∷ [])
    ∷  -- Insufficient Capacity
        (
          508,
          73 ∷ 110 ∷ 115 ∷ 117 ∷ 102 ∷ 102 ∷ 105 ∷ 99 ∷ 105 ∷ 101 ∷ 110 ∷ 116 ∷ 32 ∷ 67 ∷ 97 ∷ 112
              ∷ 97 ∷ 99 ∷ 105 ∷ 116 ∷ 121 ∷ [],
        )
    ∷ []

unfoldable pub reason_in : List (ℕ × List ℕ) → ℕ → List ℕ
unfolding unknown_error
reason_in [] code = unknown_error
reason_in ((c, reason) ∷ rows) code = if code == c then reason else reason_in rows code

unfoldable pub get_default_reason : ℕ → List ℕ
unfolding reason_in
get_default_reason = reason_in reasons

-- `!strcmp(a, b)`
unfoldable pub same_text : List ℕ → List ℕ → Bool
same_text [] [] = true
same_text [] (y ∷ ys) = false
same_text (x ∷ xs) [] = false
same_text (x ∷ xs) (y ∷ ys) = x == y && same_text xs ys

-- The first `n` bytes of a string.
abbrev pub first_bytes : ℕ → List ℕ → List ℕ
first_bytes zero xs = []
first_bytes (suc n) [] = []
first_bytes (suc n) (x ∷ xs) = x ∷ first_bytes n xs

-- The reason that is sent; NULL and "Unknown error" stand for the one of the code.
unfoldable pub reason_sent : ℕ → Option (List ℕ) → List ℕ
unfolding get_default_reason same_text
reason_sent code none = get_default_reason code
reason_sent code (some reason) =
    if same_text reason unknown_error then get_default_reason code else reason

-- strncpy leaves 508 bytes of the text at most, and zeros behind it.
abbrev pub error_text : ℕ → Option (List ℕ) → List ℕ
error_text code reason = first_bytes 508 (reason_sent code reason)

abbrev pub error_value : ℕ → Option (List ℕ) → Memory
error_value code reason i =
    get_or (0 ∷ 0 ∷ code / 100 % 256 ∷ code % 100 ∷ error_text code reason) i 0

abbrev pub error_len : ℕ → Option (List ℕ) → ℕ
error_len code reason = let alen = 4 + length (error_text code reason) in alen + padding_of alen

-- stun_init_error_response_common_str on a message of `len` bytes; a refused addition is not looked at.
unfoldable pub init_error_response_common : Memory → ℕ → ℕ → Option (List ℕ) → Option Memory → Added
unfolding tid_message_cpy
init_error_response_common buf len code reason id =
    elim (add buf len attribute_error_code (error_value code reason) (error_len code reason)) [
      | refused ↦ added (elim id [ none ↦ buf | some tid ↦ tid_message_cpy buf tid ]) len
      | underrun ↦ underrun
      | added buf' len' ↦ added (elim id [ none ↦ buf' | some tid ↦ tid_message_cpy buf' tid ]) len'
    ]

unfoldable pub old_init_error_response :
    Memory → ℕ → ℕ → Memory → ℕ → Option (List ℕ) → Option Memory → Added
unfolding init_error_response_common
old_init_error_response random_tid cookie method buf code reason id =
    init_error_response_common (old_init_command random_tid cookie (make_error_response method) buf)
      header_length code reason id

unfoldable pub init_error_response :
    Memory → ℕ → Memory → ℕ → Option (List ℕ) → Option Memory → Added
unfolding init_error_response_common
init_error_response random_tid method buf code reason id =
    init_error_response_common (init_command random_tid (make_error_response method) buf)
      header_length code reason id
