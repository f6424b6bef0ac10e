-- ===== src/Auth.antt =====
-- The authentication of a request: check_stun_auth and its neighbours in coturn/src/server/ns_turn_server.c,
-- and is_secure_string of coturn/src/apps/common/ns_turn_utils.c. The random numbers, the look-up of a
-- realm by its name and the request for the key of a user are parameters. A C string is the list of its
-- bytes before the 0, a nonce or a password that is not set is the empty one.
pub mod Passed
pub mod Answer
pub mod Challenge
pub mod Challenged
pub mod Documented
pub mod Tests
use webrtc_caller.Base.{
  ℕ, zero, suc, ◌+◌, ◌-◌, ◌*◌, ◌/◌, ◌%◌, ◌^◌, ◌≤◌, ◌<◌, min, bit_and, bit_or, bit_xor, ◌≡◌, refl,
  sym, ap, ◌∙◌, fun_ext, ◌≢◌, ◌↔◌, ◌⊎◌, inl, inr, Bool, true, false, not, ◌&&◌, ◌||◌, Option, none,
  some, List, [], ◌∷◌, ◌++◌, arith, ltb, leb, ◌==◌, if◌then◌else◌, ltb→lt, lt→ltb, leb→le, ==_iff,
  ==-refl, by_if, Bool-cases, Option-cases, eq-cases, lt-cases, length, get_or, length-append,
  contains, Memory, update, u16, u32, copy, zeros, load16, load32, store16, store32, bytes,
  AllBytes, AgreeOn, bytes-AgreeOn, bytes-shift, copy-in, copy-start, copy-before, all_below,
  all_below-at,
}
use webrtc_caller.Stun.Attr.{attr_len, Added, refused, added, underrun, add, get_first_by_type}
use webrtc_caller.Stun.Error.{same_text, first_bytes, init_error_response}
use webrtc_caller.Stun.Reply.{attribute_third_party_authorization}
use webrtc_caller.Stun.Integrity.{
  attribute_username, attribute_message_integrity, attribute_realm, attribute_nonce, sha1,
  Credential, no_credential, long_term, short_term, c_string, from_list, Hmac, check_integrity,
}

abbrev pub method_allocate : ℕ
method_allocate = 0x0003

abbrev pub method_connection_bind : ℕ
method_connection_bind = 0x000B

abbrev pub stun_max_username_size : ℕ
stun_max_username_size = 512

abbrev pub stun_max_realm_size : ℕ
stun_max_realm_size = 127

abbrev pub stun_max_nonce_size : ℕ
stun_max_nonce_size = 127

abbrev pub nonce_max_size : ℕ
nonce_max_size = 17

-- `turn_time_before` on 32 bits.
abbrev pub time_before : ℕ → ℕ → Bool
time_before t1 t2 = leb 0x8000_0000 (u32 (u32 t1 + 0x1_0000_0000 - u32 t2))

-- `tolower` of the C locale.
abbrev pub to_lower : ℕ → ℕ
to_lower c = if leb 65 c && leb c 90 then c + 32 else c

abbrev pub lowered : List ℕ → List ℕ
lowered [] = []
lowered (c ∷ cs) = to_lower c ∷ lowered cs

abbrev pub starts_with : List ℕ → List ℕ → Bool
starts_with text [] = true
starts_with [] (y ∷ ys) = false
starts_with (x ∷ xs) (y ∷ ys) = x == y && starts_with xs ys

-- `strstr(text, part) != NULL`
abbrev pub has_part : List ℕ → List ℕ → Bool
has_part [] part = starts_with [] part
has_part (x ∷ xs) part = starts_with (x ∷ xs) part || has_part xs part

-- "union" and "select"
abbrev pub union_word : List ℕ
union_word = 117 ∷ 110 ∷ 105 ∷ 111 ∷ 110 ∷ []

abbrev pub select_word : List ℕ
select_word = 115 ∷ 101 ∷ 108 ∷ 101 ∷ 99 ∷ 116 ∷ []

unfoldable pub is_secure_string : List ℕ → Bool → Bool
is_secure_string string sanitizesql =
    let s = lowered string in
    if has_part s (32 ∷ [])
      || has_part s (9 ∷ [])
      || has_part s (39 ∷ [])
      || has_part s (34 ∷ [])
      || has_part s (10 ∷ [])
      || has_part s (13 ∷ [])
      || has_part s (92 ∷ [])
    then false
    else if sanitizesql && has_part s union_word && has_part s select_word
    then false
    else true

-- The options of turn_turnserver that the authentication reads.
pub record AuthServer : Type 0 where
  pub ct : Credential
  pub oauth : Bool
  pub oauth_server_name : List ℕ
  pub stale_nonce : ℕ
  pub ctime : ℕ
  pub long_is_64 : Bool

-- What is not in these files: the HMAC, turn_random, get_realm_options_by_name with the name it finds,
-- and userkeycb, which says whether the reply is postponed and what it sets the OAuth flag to.
pub record AuthHooks : Type 0 where
  pub hmac : Hmac
  pub random : ℕ → ℕ
  pub realm_options_by_name : List ℕ → List ℕ
  pub userkeycb : List ℕ → List ℕ → Bool → Bool × Bool

-- What the authentication keeps in ts_ur_super_session.
pub record Credentials : Type 0 where
  pub nonce : List ℕ
  pub nonce_expiration_time : ℕ
  pub realm : List ℕ
  pub oauth : Bool
  pub username : List ℕ
  pub hmackey_set : Bool
  pub hmackey : Memory
  pub pwd : List ℕ

unfoldable pub need_stun_authentication : AuthServer → Bool
need_stun_authentication server = elim server.ct [
  | long_term ↦ true
  | no_credential ↦ false
  | short_term ↦ false
]

abbrev pub hex_digit : ℕ → ℕ
hex_digit d = if ltb d 10 then 48 + d else 87 + d

-- `%lx` of a number of at most `n` digits.
abbrev pub hex_text : ℕ → ℕ → List ℕ
hex_text zero x = []
hex_text (suc n) x =
    let more = hex_text n (x / 16) in if x == 0 then [] else more ++ (hex_digit (x % 16) ∷ [])

abbrev pub zero_digits : ℕ → List ℕ
zero_digits zero = []
zero_digits (suc n) = 48 ∷ zero_digits n

-- `%08lx` and `%04x`
abbrev pub hex_padded : ℕ → ℕ → List ℕ
hex_padded width x = let text = hex_text 16 x in zero_digits (width - length text) ++ text

-- snprintf to the place `at` of a string, with `size` bytes of room.
abbrev pub print_at : List ℕ → ℕ → ℕ → List ℕ → List ℕ
print_at old at size text = first_bytes at old ++ first_bytes (size - 1) text

-- The two loops that make a nonce; the index is the number of rounds that are done.
unfoldable pub nonce_loop : (ℕ → ℕ) → ℕ → ℕ → ℕ → List ℕ → List ℕ
nonce_loop random width i zero nonce = nonce
nonce_loop random width i (suc rounds) nonce =
    nonce_loop random width (i + 1) rounds
      (print_at nonce (width * i) (nonce_max_size - width * i) (hex_padded width (random i)))

unfoldable pub make_nonce : Bool → (ℕ → ℕ) → List ℕ → List ℕ
unfolding nonce_loop
make_nonce true random old = nonce_loop random 8 0 2 old
make_nonce false random old = nonce_loop random 4 0 4 old

abbrev pub is_set : List ℕ → Bool
is_set [] = false
is_set (x ∷ xs) = true

abbrev pub with_new_nonce : AuthHooks → AuthServer → Credentials → Credentials
with_new_nonce hooks server s = record s {
  nonce = make_nonce server.long_is_64 hooks.random s.nonce;
  nonce_expiration_time = u32 (server.ctime + server.stale_nonce);
}

-- The first block of check_stun_auth: whether there was no nonce, and the credentials.
unfoldable pub renew_nonce : AuthHooks → AuthServer → Credentials → Bool × Credentials
unfolding make_nonce
renew_nonce hooks server s =
    if not (is_set s.nonce)
    then (true, with_new_nonce hooks server s)
    else if not (server.stale_nonce == 0) && time_before s.nonce_expiration_time server.ctime
    then (false, with_new_nonce hooks server s)
    else (false, s)

-- An attribute copied into a string of at most `max` bytes.
unfoldable pub attr_text : Memory → ℕ → ℕ → ℕ → Option (List ℕ)
attr_text buf len ty max = elim (get_first_by_type buf len ty) [
  | none ↦ none
  | some a ↦ some (c_string (bytes buf (a + 4) (min (attr_len buf a) max)))
]

-- How check_stun_auth ends: there is nothing to check, the request is authenticated, the reply waits
-- for the key, an error code is set, or a challenge with an error code is the response.
pub data Verdict : Type 0 where
  unchecked authenticated postponed : Verdict
  failed challenged : ℕ → Verdict

pub record AuthResult : Type 0 where
  pub verdict : Verdict
  pub creds : Credentials
  pub buffer : Memory

abbrev pub ends : Memory → Verdict → Credentials → AuthResult
ends buf v s = record { verdict = v; creds = s; buffer = buf }

abbrev pub mismatch : ℕ → ℕ
mismatch method = if method == method_allocate then 437 else 441

-- The call of userkeycb, and the challenge where the reply is not postponed.
unfoldable pub ask_key : AuthHooks → Bool → List ℕ → List ℕ → Memory → Credentials → AuthResult
ask_key hooks can_resume usname realm buf s =
    if can_resume
    then (let (postpone, oauth) = hooks.userkeycb usname realm s.oauth in
        if postpone
        then ends buf postponed (record s { oauth = oauth })
        else ends buf (challenged 401) (record s { oauth = oauth }))
    else ends buf (challenged 401) s

abbrev pub is_accepted : Option Bool → Bool
is_accepted none = false
is_accepted (some b) = b

-- The password and the check of the integrity.
unfoldable pub check_key :
    AuthHooks → AuthServer → Bool → List ℕ → List ℕ → Memory → ℕ → Credentials → AuthResult
unfolding ask_key check_integrity
check_key hooks server can_resume usname realm buf len s =
    if not s.hmackey_set && not (is_set s.pwd)
    then ask_key hooks can_resume usname realm buf s
    else (let (accepted, buf') =
          check_integrity hooks.hmac server.ct buf len s.hmackey s.pwd sha1 in
        if is_accepted accepted
        then ends buf' authenticated s
        else ask_key hooks can_resume usname realm buf' s)

unfoldable pub use_nonce :
    AuthHooks
    → AuthServer
    → Bool
    → Bool
    → List ℕ
    → List ℕ
    → Memory
    → ℕ
    → Credentials
    → Option (List ℕ)
    → AuthResult
unfolding check_key same_text
use_nonce hooks server can_resume new_nonce usname realm buf len s none = ends buf (failed 400) s
use_nonce hooks server can_resume new_nonce usname realm buf len s (some nonce) =
    if new_nonce
    then ends buf (challenged 438) s
    else if not (same_text s.nonce nonce)
    then ends buf (challenged 438) s
    else check_key hooks server can_resume usname realm buf len s

abbrev pub check_nonce :
    AuthHooks → AuthServer → Bool → Bool → List ℕ → List ℕ → Memory → ℕ → Credentials → AuthResult
check_nonce hooks server can_resume new_nonce usname realm buf len s =
    use_nonce hooks server can_resume new_nonce usname realm buf len s
      (attr_text buf len attribute_nonce stun_max_nonce_size)

-- A user name against the one of the session: the error code, or the credentials.
unfoldable pub adopt_username : ℕ → List ℕ → Credentials → ℕ ⊎ Credentials
unfolding is_secure_string same_text
adopt_username method usname s =
    if not (is_secure_string usname true)
    then inl 400
    else if is_set s.username
    then (if same_text s.username usname
        then inr s
        else if s.oauth
        then inr (record s { hmackey_set = false; username = usname })
        else inl (mismatch method))
    else inr (record s { username = usname })

abbrev pub adopted_username :
    AuthHooks
    → AuthServer
    → Bool
    → Bool
    → List ℕ
    → List ℕ
    → Memory
    → ℕ
    → Credentials
    → ℕ ⊎ Credentials
    → AuthResult
adopted_username hooks server can_resume new_nonce usname realm buf len s (inl err) =
    ends buf (failed err) s
adopted_username hooks server can_resume new_nonce usname realm buf len s (inr s') =
    check_nonce hooks server can_resume new_nonce usname realm buf len s'

unfoldable pub use_username :
    AuthHooks
    → AuthServer
    → ℕ
    → Bool
    → Bool
    → List ℕ
    → Memory
    → ℕ
    → Credentials
    → Option (List ℕ)
    → AuthResult
unfolding use_nonce adopt_username attr_text
use_username hooks server method can_resume new_nonce realm buf len s none = ends buf (failed 400) s
use_username hooks server method can_resume new_nonce realm buf len s (some usname) =
    adopted_username hooks server can_resume new_nonce usname realm buf len s
      (adopt_username method usname s)

abbrev pub check_username :
    AuthHooks → AuthServer → ℕ → Bool → Bool → List ℕ → Memory → ℕ → Credentials → AuthResult
check_username hooks server method can_resume new_nonce realm buf len s =
    use_username hooks server method can_resume new_nonce realm buf len s
      (attr_text buf len attribute_username stun_max_username_size)

-- A realm against the one of the session: the error code, or the realm for the key and the credentials.
unfoldable pub adopt_realm : AuthHooks → ℕ → List ℕ → Credentials → ℕ ⊎ (List ℕ × Credentials)
unfolding is_secure_string same_text
adopt_realm hooks method realm s =
    if not (is_secure_string realm false)
    then inl 400
    else if method == method_connection_bind
    then inr (realm, record s { realm = hooks.realm_options_by_name realm })
    else if same_text realm s.realm
    then inr (realm, s)
    else if s.oauth
    then inr (s.realm, s)
    else inl (mismatch method)

abbrev pub adopted_realm :
    AuthHooks
    → AuthServer
    → ℕ
    → Bool
    → Bool
    → Memory
    → ℕ
    → Credentials
    → ℕ ⊎ (List ℕ × Credentials)
    → AuthResult
adopted_realm hooks server method can_resume new_nonce buf len s (inl err) = ends buf (failed err) s
adopted_realm hooks server method can_resume new_nonce buf len s (inr (realm, s')) =
    check_username hooks server method can_resume new_nonce realm buf len s'

unfoldable pub use_realm :
    AuthHooks
    → AuthServer
    → ℕ
    → Bool
    → Bool
    → Memory
    → ℕ
    → Credentials
    → Option (List ℕ)
    → AuthResult
unfolding use_username adopt_realm attr_text
use_realm hooks server method can_resume new_nonce buf len s none = ends buf (failed 400) s
use_realm hooks server method can_resume new_nonce buf len s (some text) =
    adopted_realm hooks server method can_resume new_nonce buf len s
      (adopt_realm hooks method text s)

abbrev pub check_realm :
    AuthHooks → AuthServer → ℕ → Bool → Bool → Memory → ℕ → Credentials → AuthResult
check_realm hooks server method can_resume new_nonce buf len s =
    use_realm hooks server method can_resume new_nonce buf len s
      (attr_text buf len attribute_realm stun_max_realm_size)

-- The test of the MESSAGE-INTEGRITY attribute before the rest.
unfoldable pub use_integrity :
    AuthHooks → AuthServer → ℕ → Bool → Bool → Memory → ℕ → Credentials → Option ℕ → AuthResult
unfolding use_realm attr_text
use_integrity hooks server method can_resume new_nonce buf len s none = ends buf (challenged 401) s
use_integrity hooks server method can_resume new_nonce buf len s (some sar) =
    if attr_len buf sar == 20
    then check_realm hooks server method can_resume new_nonce buf len s
    else ends buf (challenged 401) s

unfoldable pub check_stun_auth :
    AuthHooks → AuthServer → ℕ → Bool → Memory → ℕ → Credentials → AuthResult
unfolding need_stun_authentication renew_nonce use_integrity
check_stun_auth hooks server method can_resume buf len s =
    if not (need_stun_authentication server)
    then ends buf unchecked s
    else (let (new_nonce, s') = renew_nonce hooks server s in
        use_integrity hooks server method can_resume new_nonce buf len s'
          (get_first_by_type buf len attribute_message_integrity))

-- An addition whose result is not looked at: the message stays where it is refused.
abbrev pub then_text : ℕ → Memory → ℕ → Added → Added
then_text ty value n refused = refused
then_text ty value n underrun = underrun
then_text ty value n (added buf len) = elim (add buf len ty value n) [
  | refused ↦ added buf len
  | underrun ↦ underrun
  | added buf' len' ↦ added buf' len'
]

-- create_challenge_response
unfoldable pub create_challenge_response :
    Memory → AuthServer → Credentials → ℕ → Memory → ℕ → Option (List ℕ) → Memory → Added
unfolding init_error_response
create_challenge_response random_tid server s method buf err_code reason tid =
    let challenge = then_text attribute_realm (from_list s.realm) (length s.realm) (
      then_text attribute_nonce (from_list s.nonce) (nonce_max_size - 1)
        (init_error_response random_tid method buf err_code reason (some tid))) in
    let name = if is_set server.oauth_server_name then server.oauth_server_name else s.realm in
    if server.oauth
    then then_text attribute_third_party_authorization (from_list name) (length name) challenge
    else challenge
