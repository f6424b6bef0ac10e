-- ===== src/Stun/Refusal.antt =====
-- What an error response holds.
use webrtc_caller.Base.{
  ℕ, zero, suc, ◌+◌, ◌≤◌, ◌<◌, ◌≡◌, refl, sym, ap, ◌∙◌, true, Option, some, List, [], ◌∷◌, arith,
  length, Memory, load16, bytes,
}
use mathlib.Core.Path.{subst}
use mathlib.Core.List.{append-nil}
use webrtc_caller.Stun.Types.{error, type_of, make_error_response}
use webrtc_caller.Stun.Header.{
  header_length, max_message_size, command_message_len, init_command, is_error_response,
  is_channel_msg, get_msg_type, tid_message_cpy, tid_equals, tid_equals_from, tid_from_message,
}
use webrtc_caller.Stun.Attr.{Added, added, add, padding_of}
use webrtc_caller.Stun.Message.{Attribute, Represents, Holds}
use webrtc_caller.Stun.Append.{Holds-append, appended, add-appended, add_refines}
use webrtc_caller.Stun.Start.{init_command_round_trip}
use webrtc_caller.Stun.Allocate.{padding_of-small}
use webrtc_caller.Stun.Error.{
  attribute_error_code, first_bytes, error_text, reason_sent, error_value, error_len,
  init_error_response_common, init_error_response,
}

length-first_bytes : (n : ℕ) (xs : List ℕ) → length (first_bytes n xs) ≤ n
length-first_bytes zero xs = omega arith
length-first_bytes (suc n) [] = omega arith
length-first_bytes (suc n) (x ∷ xs) = omega (arith, length-first_bytes n xs)

pub error_len-small : (code : ℕ) (reason : Option (List ℕ)) → error_len code reason < 516
error_len-small code reason =
    let n = 4 + length (error_text code reason) in
    omega (arith, length-first_bytes 508 (reason_sent code reason), padding_of-small n)

-- The transaction id lies in the header, apart from what the list of the attributes stands in.
tid_message_cpy-Represents :
    (buf id : Memory) (len : ℕ) (xs : List Attribute)
    → Represents buf len xs
    → Represents (tid_message_cpy buf id) len xs
unfolding tid_message_cpy command_message_len
tid_message_cpy-Represents buf id len xs r = record {
  whole = r.whole;
  aligned = r.aligned;
  header = r.header;
  holds = subst (Holds (tid_message_cpy buf id) len header_length) (append-nil xs) (
      Holds-append buf (tid_message_cpy buf id) len len header_length xs [] (λ j p q. ground arith)
        (omega arith) r.holds refl);
}

tid_message_cpy-tid :
    (buf id : Memory) → tid_equals (tid_from_message (tid_message_cpy buf id)) id ≡ true
unfolding tid_message_cpy tid_equals tid_equals_from tid_from_message
tid_message_cpy-tid buf id = ground arith

-- An addition leaves the message type.
pub add-type :
    (buf : Memory) (len ty : ℕ) (value : Memory) (alen : ℕ) (xs : List Attribute) (buf' : Memory)
    (len' : ℕ)
    → Represents buf len xs
    → len + 4 + alen + padding_of (len + 4 + alen) < max_message_size
    → add buf len ty value alen ≡ added buf' len'
    → (load16 buf' 0 ≡ load16 buf 0) × (header_length ≤ len')
add-type buf len ty value alen xs buf' len' r room e =
    let made = appended buf len ty value alen in
    let newlen = len + 4 + alen + padding_of (len + 4 + alen) in
    let same : ◌≡◌ {A = Added} (added made newlen) (added buf' len') =
      sym (add-appended buf len ty value alen r.header r.whole room) ∙ e in
    let same_buf : made ≡ buf' = cc in
    let same_len : newlen ≡ len' = cc in
    let kept : load16 made 0 ≡ load16 buf 0 = ground (arith, r.header) in
    (
      subst (λ m. load16 m 0 ≡ load16 buf 0) same_buf kept,
      subst (λ n. header_length ≤ n) same_len (omega (arith, r.header)),
    )

-- A message of one type is an error response as the other is.
pub same_type-is_error :
    (buf buf' : Memory) (len len' : ℕ)
    → load16 buf' 0 ≡ load16 buf 0
    → header_length ≤ len
    → header_length ≤ len'
    → is_error_response buf' len' ≡ is_error_response buf len
unfolding is_error_response is_channel_msg get_msg_type
same_type-is_error buf buf' len len' e h h' = ground (arith, e)

tid_message_cpy-is_error :
    (buf id : Memory) (len : ℕ)
    → is_error_response (tid_message_cpy buf id) len ≡ is_error_response buf len
unfolding tid_message_cpy is_error_response is_channel_msg get_msg_type
tid_message_cpy-is_error buf id len = ground arith

init_error_response_common-added :
    (buf : Memory) (len code : ℕ) (reason : Option (List ℕ)) (id buf' : Memory) (len' : ℕ)
    → add buf len attribute_error_code (error_value code reason) (error_len code reason)
      ≡ added buf' len'
    → init_error_response_common buf len code reason (some id)
      ≡ added (tid_message_cpy buf' id) len'
unfolding init_error_response_common
init_error_response_common-added buf len code reason id buf' len' e =
    rw (e, init_error_response_common) refl

-- For a method of twelve bits, any code and any reason stun_init_error_response_str makes a message of
-- the one attribute ERROR-CODE, whose value has the code and the reason that is sent. The message is
-- recognised as an error response, and it has the transaction id of the request.
pub init_error_response_refines :
    (random_tid : Memory) (method : ℕ) (buf : Memory) (code : ℕ) (reason : Option (List ℕ))
    (id : Memory)
    → method < 0x1000
    → (buf' : Memory) × (len' : ℕ) × (init_error_response random_tid method buf code reason
          (some id)
        ≡ added buf' len')
      × Represents buf' len'
          ((attribute_error_code, bytes (error_value code reason) 0 (error_len code reason)) ∷ [])
      × (is_error_response buf' len' ≡ true)
      × (tid_equals (tid_from_message buf') id ≡ true)
unfolding init_error_response type_of
init_error_response_refines random_tid method buf code reason id h =
    let start = init_command random_tid (make_error_response method) buf in
    let (r, _, _, tests, _) = init_command_round_trip random_tid buf error method h in
    let value = error_value code reason in
    let alen = error_len code reason in
    let room : header_length + 4 + alen + padding_of (header_length + 4 + alen) < max_message_size =
      omega (arith, error_len-small code reason, padding_of-small (header_length + 4 + alen)) in
    let (buf', len', e, r') =
      add_refines start header_length attribute_error_code value alen [] r (omega arith) room in
    let (same, longer) =
      add-type start header_length attribute_error_code value alen [] buf' len' r room e in
    (
      tid_message_cpy buf' id,
      len',
      init_error_response_common-added start header_length code reason id buf' len' e,
      tid_message_cpy-Represents buf' id len' _ r',
      tid_message_cpy-is_error buf' id len'
          ∙ same_type-is_error start buf' header_length len' same (omega arith) longer
          ∙ ap (λ p. p.3) tests,
      tid_message_cpy-tid buf' id,
    )
