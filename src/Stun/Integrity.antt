-- ===== src/Stun/Integrity.antt =====
-- MESSAGE-INTEGRITY: stun_attr_add_integrity_str and its neighbours, and the check by a key, of
-- coturn/src/client/ns_turn_msg.c. The HMAC of OpenSSL is a parameter: the digest of a message under
-- a key, none where it fails. A digest is written as many bytes as it has.
use webrtc_caller.Base.{
  ℕ, ◌+◌, ◌-◌, Bool, true, false, not, ◌&&◌, Option, none, some, List, [], ◌∷◌, ◌++◌, ltb, ◌==◌,
  if◌then◌else◌, length, get_or, Memory, copy, zeros, bytes,
}
use webrtc_caller.Stun.Header.{command_message_len, set_command_message_len}
use webrtc_caller.Stun.Error.{first_bytes}
use webrtc_caller.Stun.Attr.{
  attr_len, attr_value, Added, added, refused, underrun, add, get_first_by_type,
}

abbrev pub attribute_username : ℕ
attribute_username = 0x0006

abbrev pub attribute_message_integrity : ℕ
attribute_message_integrity = 0x0008

abbrev pub attribute_realm : ℕ
attribute_realm = 0x0014

abbrev pub attribute_nonce : ℕ
attribute_nonce = 0x0015

-- SHATYPE; the default one is the first.
pub data ShaType : Type 0 where
  sha1 sha256 sha384 sha512 : ShaType

abbrev pub sha_size : ShaType → ℕ
sha_size sha1 = 20
sha_size sha256 = 32
sha_size sha384 = 48
sha_size sha512 = 64

unfoldable pub get_hmackey_size : ShaType → ℕ
get_hmackey_size sha1 = 16
get_hmackey_size sha256 = 32
get_hmackey_size sha384 = 48
get_hmackey_size sha512 = 64

-- turn_credential_type
pub data Credential : Type 0 where
  no_credential long_term short_term : Credential

-- The bytes of a C string, up to the first 0.
abbrev pub c_string : List ℕ → List ℕ
c_string [] = []
c_string (x ∷ xs) = if x == 0 then [] else x ∷ c_string xs

abbrev pub Hmac : Type 0
Hmac = ShaType → List ℕ → List ℕ → Option (List ℕ)

-- The key of the credentials: the password up to its 0, or the first bytes of the key.
unfoldable pub integrity_key : Credential → ShaType → Memory → List ℕ → List ℕ
unfolding get_hmackey_size
integrity_key no_credential sha key pwd = bytes key 0 (get_hmackey_size sha)
integrity_key long_term sha key pwd = bytes key 0 (get_hmackey_size sha)
integrity_key short_term sha key pwd = c_string pwd

abbrev pub from_list : List ℕ → Memory
from_list xs i = get_or xs i 0

-- stun_calculate_hmac over the first `n` bytes.
abbrev pub calculate_hmac : Hmac → ShaType → List ℕ → Memory → ℕ → Option (List ℕ)
calculate_hmac hmac sha key buf n = hmac sha key (bytes buf 0 n)

-- The second step of the addition: the digest goes into the value; true where the digest was had.
unfoldable pub sign : Hmac → ShaType → List ℕ → Added → Bool × Added
sign hmac sha key refused = (false, refused)
sign hmac sha key underrun = (false, underrun)
sign hmac sha key (added buf len) =
    elim (calculate_hmac hmac sha key buf (len - 4 - sha_size sha)) [
      | none ↦ (false, added buf len)
      | some digest ↦
          (true, added (copy buf (len - sha_size sha) (from_list digest) (length digest)) len)
    ]

-- `scratch` is what the array of the digest holds before.
unfoldable pub add_integrity :
    Hmac → Credential → Memory → ℕ → Memory → Memory → List ℕ → ShaType → Bool × Added
unfolding sign integrity_key
add_integrity hmac ct scratch len buf key pwd sha =
    sign hmac sha (integrity_key ct sha key pwd)
      (add buf len attribute_message_integrity scratch (sha_size sha))

abbrev pub then_add_text : Added → ℕ → List ℕ → Added
then_add_text refused ty text = refused
then_add_text underrun ty text = underrun
then_add_text (added buf len) ty text = add buf len ty (from_list text) (length text)

abbrev pub then_integrity :
    Hmac → Credential → Memory → Memory → List ℕ → ShaType → Added → Bool × Added
then_integrity hmac ct scratch key pwd sha refused = (false, refused)
then_integrity hmac ct scratch key pwd sha underrun = (false, underrun)
then_integrity hmac ct scratch key pwd sha (added buf len) =
    add_integrity hmac ct scratch len buf key pwd sha

-- stun_attr_add_integrity_by_key_str
unfoldable pub add_integrity_by_key :
    Hmac → Memory → Memory → ℕ → List ℕ → List ℕ → Memory → List ℕ → ShaType → Bool × Added
unfolding add_integrity
add_integrity_by_key hmac scratch buf len uname realm key nonce sha =
    then_integrity hmac long_term scratch key [] sha (
      then_add_text
        (then_add_text (add buf len attribute_username (from_list uname) (length uname))
          attribute_nonce nonce)
        attribute_realm realm)

-- stun_attr_add_integrity_by_user_short_term_str: its test of the first addition is the other way
-- round, and on an addition that succeeds it returns false.
unfoldable pub add_integrity_short_term :
    Hmac → Memory → Memory → Memory → ℕ → List ℕ → List ℕ → ShaType → Bool × Added
unfolding add_integrity
add_integrity_short_term hmac scratch key buf len uname pwd sha =
    elim (add buf len attribute_username (from_list uname) (length uname)) [
      | added buf' len' ↦ (false, added buf' len')
      | underrun ↦ (false, underrun)
      | refused ↦ add_integrity hmac short_term scratch len buf key pwd sha
    ]

-- The size of the digest that an attribute of a length is for, `none` for a length that is refused.
unfoldable pub expected_size : ShaType → ℕ → Option ℕ
expected_size sha n = if n == sha_size sha then some n else none

-- `memcmp(value, digest, n) == 0`; the array of the digest holds zeros behind it.
abbrev pub same_digest : Memory → ℕ → List ℕ → Bool
same_digest buf a [] = true
same_digest buf a (x ∷ xs) = buf a == x && same_digest buf (a + 1) xs

-- The verdict of stun_check_message_integrity_by_key_str, `none` for -1, and the buffer: the length
-- field is set for the digest and set back.
abbrev pub compare_digest : Memory → ℕ → Option (List ℕ) → Option Bool
compare_digest buf sar none = none
compare_digest buf sar (some digest) = elim (attr_value buf sar) [
  | none ↦ none
  | some value ↦ some (same_digest buf value digest)
]

unfoldable pub check_attribute :
    Hmac → Credential → Memory → Memory → List ℕ → ShaType → ℕ → ℕ → ℕ → Option Bool × Memory
unfolding integrity_key set_command_message_len
check_attribute hmac ct buf key pwd sha sar size orig_len =
    let new_len = sar + 4 + size in
    if ltb orig_len new_len
    then (none, buf)
    else (let (buf', ok) = set_command_message_len buf new_len in
        if not ok
        then (none, buf')
        else (let digest =
              calculate_hmac hmac sha (integrity_key ct sha key pwd) buf' (new_len - 4 - size) in
            let buf'' = (set_command_message_len buf' orig_len).0 in
            (compare_digest buf'' sar digest, buf'')))

unfoldable pub check_integrity :
    Hmac → Credential → Memory → ℕ → Memory → List ℕ → ShaType → Option Bool × Memory
unfolding check_attribute expected_size
check_integrity hmac ct buf len key pwd sha =
    elim (get_first_by_type buf len attribute_message_integrity) [
      | none ↦ (none, buf)
      | some sar ↦ elim (expected_size sha (attr_len buf sar)) [
        | none ↦ (none, buf)
        | some size ↦ elim (command_message_len buf len) [
          | none ↦ (none, buf)
          | some orig_len ↦ check_attribute hmac ct buf key pwd sha sar size orig_len
        ]
      ]
    ]

-- stun_produce_integrity_key_str: the digest of the library is a parameter, MD5 for the default type;
-- none where it is not supported.
unfoldable pub produce_integrity_key :
    (ShaType → List ℕ → Option (List ℕ)) → ShaType → List ℕ → List ℕ → List ℕ → Option (List ℕ)
produce_integrity_key hash sha uname realm upwd = hash sha (uname ++ (58 ∷ realm ++ (58 ∷ upwd)))

-- stun_attr_add_integrity_by_user_str
unfoldable pub add_integrity_by_user :
    Hmac
    → (ShaType → List ℕ → Option (List ℕ))
    → Memory
    → Memory
    → ℕ
    → List ℕ
    → List ℕ
    → List ℕ
    → List ℕ
    → ShaType
    → Bool × Added
unfolding produce_integrity_key add_integrity_by_key
add_integrity_by_user hmac hash scratch buf len uname realm upwd nonce sha =
    elim (produce_integrity_key hash sha uname realm upwd) [
      | none ↦ (false, added buf len)
      | some key ↦ add_integrity_by_key hmac scratch buf len uname realm (from_list key) nonce sha
    ]

-- stun_check_message_integrity_str; a password is cut at 256 bytes.
unfoldable pub check_integrity_by_user :
    Hmac
    → (ShaType → List ℕ → Option (List ℕ))
    → Credential
    → Memory
    → ℕ
    → List ℕ
    → List ℕ
    → List ℕ
    → ShaType
    → Option Bool × Memory
unfolding produce_integrity_key check_integrity
check_integrity_by_user hmac hash no_credential buf len uname realm upwd sha =
    elim (produce_integrity_key hash sha uname realm upwd) [
      | none ↦ (none, buf)
      | some key ↦ check_integrity hmac no_credential buf len (from_list key) [] sha
    ]
check_integrity_by_user hmac hash long_term buf len uname realm upwd sha =
    elim (produce_integrity_key hash sha uname realm upwd) [
      | none ↦ (none, buf)
      | some key ↦ check_integrity hmac long_term buf len (from_list key) [] sha
    ]
check_integrity_by_user hmac hash short_term buf len uname realm upwd sha =
    check_integrity hmac short_term buf len zeros (first_bytes 256 upwd) sha
