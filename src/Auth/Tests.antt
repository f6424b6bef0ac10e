-- ===== src/Auth/Tests.antt =====
-- A request with user name, nonce, realm and digest, for a client whose key is known.
use webrtc_caller.Base.{
  ℕ, zero, suc, ◌%◌, ◌<◌, ◌≡◌, refl, ap, inl, Bool, true, false, ◌&&◌, none, some, List, [], ◌∷◌,
  arith, ltb, length, get_or, Memory, zeros, AllBytes,
}
use webrtc_caller.Stun.Header.{command_message_len, set_command_message_len}
use webrtc_caller.Stun.Attr.{
  attr_value, padded, check_valid, get_first, next_from, find_from, get_first_by_type, added,
}
use webrtc_caller.Stun.Message.{Represents, first_value}
use webrtc_caller.Stun.Error.{same_text}
use webrtc_caller.Stun.Reply.{is_challenge_response}
use webrtc_caller.Stun.Integrity.{
  Hmac, ShaType, sha1, sha_size, long_term, get_hmackey_size, integrity_key, check_attribute,
  check_integrity, expected_size, add_integrity_by_key,
}
use webrtc_caller.Stun.Signed.{IsTotal}
use webrtc_caller.Auth.{
  AuthServer, AuthHooks, Credentials, authenticated, ends, method_allocate, is_secure_string,
  need_stun_authentication, renew_nonce, attr_text, check_key, use_nonce, adopt_username,
  use_username, adopt_realm, use_realm, use_integrity, check_stun_auth, create_challenge_response,
}
use webrtc_caller.Auth.Passed.{IsAuthentic, check_stun_auth-IsAuthentic}
use webrtc_caller.Auth.Answer.{IsAwaiting, check_stun_auth-answer}
use webrtc_caller.Auth.Documented.{Documented, check_stun_auth-Documented}
use webrtc_caller.Auth.Challenged.{is_challenge_response-create}

-- A digest that is the length of what it is of, over and over.
abbrev pub repeated : ℕ → ℕ → List ℕ
repeated zero x = []
repeated (suc n) x = x ∷ repeated n x

length-repeated : (n x : ℕ) → length (repeated n x) ≡ n
length-repeated zero x = refl
length-repeated (suc n) x = ap suc (length-repeated n x)

abbrev pub toy : Hmac
toy sha key m = some (repeated (sha_size sha) (length m % 256))

pub toy-IsTotal : (sha : ShaType) → IsTotal toy sha
toy-IsTotal sha key m = (repeated (sha_size sha) (length m % 256), refl, length-repeated _ _)

-- "user", "noncenoncenonce1" and "home"
abbrev user : List ℕ
user = 117 ∷ 115 ∷ 101 ∷ 114 ∷ []

abbrev home : List ℕ
home = 104 ∷ 111 ∷ 109 ∷ 101 ∷ []

abbrev fresh : List ℕ
fresh =
    110 ∷ 111 ∷ 110 ∷ 99 ∷ 101 ∷ 110 ∷ 111 ∷ 110 ∷ 99 ∷ 101 ∷ 110 ∷ 111 ∷ 110 ∷ 99 ∷ 101 ∷ 49 ∷ []

abbrev pub hooks : AuthHooks
hooks = record {
  hmac = toy;
  random = λ i. 0;
  realm_options_by_name = λ name. name;
  userkeycb = λ usname realm oauth. (true, oauth);
}

abbrev pub server : AuthServer
server = record {
  ct = long_term;
  oauth = false;
  oauth_server_name = [];
  stale_nonce = 0;
  ctime = 100;
  long_is_64 = true;
}

abbrev pub client : Credentials
client = record {
  nonce = fresh;
  nonce_expiration_time = 0;
  realm = home;
  oauth = false;
  username = [];
  hmackey_set = true;
  hmackey = zeros;
  pwd = [];
}

-- A CreatePermission request of 80 bytes: USERNAME, NONCE, REALM and MESSAGE-INTEGRITY.
abbrev wire : List ℕ
wire =
    0
    ∷ 8
    ∷ 0
    ∷ 60
    ∷ 0x21
    ∷ 0x12
    ∷ 0xa4
    ∷ 0x42
    ∷ 1
    ∷ 2
    ∷ 3
    ∷ 4
    ∷ 5
    ∷ 6
    ∷ 7
    ∷ 8
    ∷ 9
    ∷ 10
    ∷ 11
    ∷ 12
    ∷ 0
    ∷ 6
    ∷ 0
    ∷ 4
    ∷ 117
    ∷ 115
    ∷ 101
    ∷ 114
    ∷ 0
    ∷ 0x15
    ∷ 0
    ∷ 16
    ∷ 110
    ∷ 111
    ∷ 110
    ∷ 99
    ∷ 101
    ∷ 110
    ∷ 111
    ∷ 110
    ∷ 99
    ∷ 101
    ∷ 110
    ∷ 111
    ∷ 110
    ∷ 99
    ∷ 101
    ∷ 49
    ∷ 0
    ∷ 0x14
    ∷ 0
    ∷ 4
    ∷ 104
    ∷ 111
    ∷ 109
    ∷ 101
    ∷ 0
    ∷ 8
    ∷ 0
    ∷ 20
    ∷ repeated 20 56

abbrev pub request : Memory
request i = get_or wire i 0

small_bytes : List ℕ → Bool
small_bytes [] = true
small_bytes (x ∷ xs) = ltb x 256 && small_bytes xs

get_or-small : (xs : List ℕ) (i : ℕ) → small_bytes xs ≡ true → get_or xs i 0 < 256
unfolding small_bytes
get_or-small [] i h = omega arith
get_or-small (x ∷ xs) zero h = ground (arith, h)
get_or-small (x ∷ xs) (suc i) h = get_or-small xs i (ground (arith, h))

pub request-bytes : AllBytes request
unfolding small_bytes
request-bytes i = get_or-small wire i refl

request-accepted :
    (check_stun_auth hooks server 0x0008 true request 80 client).verdict ≡ authenticated
unfolding check_stun_auth use_integrity use_realm adopt_realm is_secure_string same_text attr_text
    use_username adopt_username use_nonce check_key check_integrity check_attribute expected_size
    integrity_key get_hmackey_size set_command_message_len command_message_len attr_value
    check_valid padded get_first next_from find_from get_first_by_type renew_nonce
    need_stun_authentication
request-accepted = refl

check_stun_auth-IsAuthentic_example :
    IsAuthentic hooks server 0x0008 request 80 client
      (check_stun_auth hooks server 0x0008 true request 80 client)
check_stun_auth-IsAuthentic_example =
    check_stun_auth-IsAuthentic hooks server 0x0008 true request 80 client (toy-IsTotal sha1)
      request-bytes refl request-accepted

check_stun_auth-Documented_example :
    Documented method_allocate true request 80
      (check_stun_auth hooks server method_allocate true request 80 client).verdict
check_stun_auth-Documented_example =
    check_stun_auth-Documented hooks server method_allocate true request 80 client refl

-- A request without attributes.
abbrev header_wire : List ℕ
header_wire =
    0 ∷ 8 ∷ 0 ∷ 0 ∷ 0x21 ∷ 0x12 ∷ 0xa4 ∷ 0x42 ∷ 1 ∷ 2 ∷ 3 ∷ 4 ∷ 5 ∷ 6 ∷ 7 ∷ 8 ∷ 9 ∷ 10 ∷ 11 ∷ 12
    ∷ []

abbrev header_only : Memory
header_only i = get_or header_wire i 0

header_only-Represents : Represents header_only 20 []
unfolding command_message_len
header_only-Represents = record { whole = refl; aligned = refl; header = omega arith; holds = refl }

client-IsAwaiting : IsAwaiting server client user
unfolding is_secure_string
client-IsAwaiting = record {
  asked = refl;
  current = refl;
  keyed = refl;
  named = inl refl;
  realm_secure = refl;
  name_secure = refl;
}

check_stun_auth-answer_example :
    (buf' : Memory) × (len' : ℕ) × (add_integrity_by_key toy zeros header_only 20 user home zeros
        fresh sha1
      ≡ (true, added buf' len'))
    × (check_stun_auth hooks server 0x0008 true buf' len' client
        ≡ ends buf' authenticated (record client { username = user }))
unfolding first_value
check_stun_auth-answer_example =
    check_stun_auth-answer hooks server 0x0008 true zeros header_only 20 [] client user
      (toy-IsTotal sha1) header_only-Represents (refl, refl, refl, refl) (omega arith) refl
      client-IsAwaiting (refl, omega arith) (refl, omega arith) (refl, omega arith)

is_challenge_response-create_example :
    (buf' : Memory) × (len' : ℕ) × (create_challenge_response zeros server client 0x0008 zeros 401
        none zeros
      ≡ added buf' len')
    × (is_challenge_response buf' len' 0
        ≡ some (record { err_code = 401; realm = home; nonce = fresh; server_name = none }))
is_challenge_response-create_example =
    is_challenge_response-create zeros server client 0x0008 zeros 401 0 none zeros (omega arith)
      (inl refl) refl refl refl (refl, omega arith) (omega arith)
