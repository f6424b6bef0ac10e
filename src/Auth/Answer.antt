-- ===== src/Auth/Answer.antt =====
-- A request that a client makes with stun_attr_add_integrity_by_key_str, at check_stun_auth.
use webrtc_caller.Base.{
  ℕ, ◌+◌, ◌≤◌, ◌<◌, min, ◌≡◌, refl, sym, ap, ◌∙◌, ◌⊎◌, inl, inr, Bool, true, false, not, ◌&&◌,
  Option, none, some, List, [], ◌∷◌, ◌++◌, arith, ◌==◌, if◌then◌else◌, Bool-cases, length, Memory,
  bytes, bytes-shift,
}
use webrtc_caller.Stun.Header.{max_message_size}
use webrtc_caller.Stun.Attr.{attr_len, padding_of, added, add, get_first_by_type}
use webrtc_caller.Stun.Error.{same_text}
use webrtc_caller.Stun.Message.{Attribute, Represents, first_value, value_at}
use webrtc_caller.Stun.Walk.{get_first_by_type_refines}
use webrtc_caller.Stun.Reading.{length-bytes}
use webrtc_caller.Stun.Append.{add_refines, add-appended}
use webrtc_caller.Stun.Integrity.{
  attribute_username, attribute_message_integrity, attribute_realm, attribute_nonce, sha1, Hmac,
  Credential, long_term, c_string, from_list, add_integrity_by_key, check_integrity, integrity_key,
  check_attribute,
}
use webrtc_caller.Stun.Signed.{IsTotal, check_integrity-add_integrity}
use webrtc_caller.Auth.{
  AuthServer, AuthHooks, Credentials, authenticated, ends, is_set, renew_nonce, attr_text,
  check_key, use_nonce, adopt_username, use_username, adopt_realm, use_realm, use_integrity,
  check_stun_auth, is_secure_string, time_before, stun_max_nonce_size, stun_max_username_size,
  stun_max_realm_size, method_connection_bind,
}
use webrtc_caller.Auth.Passed.{check_stun_auth-long}

pub first_value-kept :
    (xs ys : List Attribute) (ty : ℕ) (v : List ℕ)
    → first_value xs ty ≡ some v
    → first_value (xs ++ ys) ty ≡ some v
unfolding first_value
first_value-kept [] ys ty v e = cc e
first_value-kept ((t, x) ∷ xs) ys ty v e = elim (Bool-cases (t == ty)) [
  | inl same ↦ ground (arith, same, e)
  | inr other ↦ ground (arith, other, e, first_value-kept xs ys ty v (ground (arith, other, e)))
]

pub first_value-last :
    (xs : List Attribute) (ty t : ℕ) (v : List ℕ)
    → first_value xs ty ≡ none
    → first_value (xs ++ ((t, v) ∷ [])) ty ≡ (if t == ty then some v else none)
unfolding first_value
first_value-last [] ty t v e = refl
first_value-last ((t', x) ∷ xs) ty t v e = elim (Bool-cases (t' == ty)) [
  | inl same ↦ absurd (ground (arith, same, e))
  | inr other ↦ ground (arith, other, e, first_value-last xs ty t v (ground (arith, other, e)))
]

pub bytes-from_list : (xs : List ℕ) → bytes (from_list xs) 0 (length xs) ≡ xs
bytes-from_list [] = refl
bytes-from_list (x ∷ xs) =
    ap (λ ys. x ∷ ys)
      (bytes-shift (from_list (x ∷ xs)) (from_list xs) 1 0 (length xs) (λ j h. ground arith)
        ∙ bytes-from_list xs)

attr_text-found :
    (buf : Memory) (len ty max : ℕ) (xs : List Attribute) (v : List ℕ) (a : Option ℕ)
    → get_first_by_type buf len ty ≡ a
    → value_at buf a ≡ some v
    → length v ≤ max
    → c_string v ≡ v
    → attr_text buf len ty max ≡ some v
unfolding attr_text
attr_text-found buf len ty max xs v none e h short text = cc h
attr_text-found buf len ty max xs v (some a) e h short text =
    let value : bytes buf (a + 4) (attr_len buf a) ≡ v = ground (arith, h) in
    let fits : min (attr_len buf a) max ≡ attr_len buf a =
      ground (arith, short, length-bytes buf (a + 4) (attr_len buf a), ap length value) in
    rw (e, attr_text, fits, value, text) refl

pub attr_text-Represents :
    (buf : Memory) (len ty max : ℕ) (xs : List Attribute) (v : List ℕ)
    → Represents buf len xs
    → first_value xs ty ≡ some v
    → length v ≤ max
    → c_string v ≡ v
    → attr_text buf len ty max ≡ some v
attr_text-Represents buf len ty max xs v r e short text =
    attr_text-found buf len ty max xs v (get_first_by_type buf len ty) refl
      (get_first_by_type_refines buf len ty xs r ∙ e) short text

-- An addition with the length that it makes.
pub text_added :
    (buf : Memory) (len ty : ℕ) (v : List ℕ) (xs : List Attribute)
    → Represents buf len xs
    → ty < 0x1_0000
    → length v ≤ 512
    → len ≤ 62000
    → (buf' : Memory) × (len' : ℕ) × (add buf len ty (from_list v) (length v) ≡ added buf' len')
      × Represents buf' len' (xs ++ ((ty, v) ∷ []))
      × (len' ≤ len + 520)
text_added buf len ty v xs r small short room =
    let fits : len + 4 + length v + padding_of (len + 4 + length v) < max_message_size =
      ground (arith, short, room) in
    let (buf', len', e, r') = add_refines buf len ty (from_list v) (length v) xs r small fits in
    let made = add-appended buf len ty (from_list v) (length v) r.header r.whole fits in
    let same : len + 4 + length v + padding_of (len + 4 + length v) ≡ len' =
      ground (arith, made, e) in
    (buf', len', e, rw (bytes-from_list v) at r', ground (arith, same, short))

-- No attribute of the four that the authentication reads.
abbrev pub IsPlain : List Attribute → Type 0
IsPlain xs =
    (first_value xs attribute_username ≡ none)
    × (first_value xs attribute_nonce ≡ none)
    × (first_value xs attribute_realm ≡ none)
    × (first_value xs attribute_message_integrity ≡ none)

abbrev signed_parts : List Attribute → List ℕ → List ℕ → List ℕ → List ℕ → List Attribute
signed_parts xs uname nonce realm digest =
    (((xs ++ ((attribute_username, uname) ∷ [])) ++ ((attribute_nonce, nonce) ∷ []))
      ++ ((attribute_realm, realm) ∷ []))
    ++ ((attribute_message_integrity, digest) ∷ [])

signed_parts-values :
    (xs : List Attribute) (uname nonce realm digest : List ℕ)
    → IsPlain xs
    → (first_value (signed_parts xs uname nonce realm digest) attribute_username ≡ some uname)
      × (first_value (signed_parts xs uname nonce realm digest) attribute_nonce ≡ some nonce)
      × (first_value (signed_parts xs uname nonce realm digest) attribute_realm ≡ some realm)
      × (first_value (signed_parts xs uname nonce realm digest) attribute_message_integrity
          ≡ some digest)
      × (first_value
            (((xs ++ ((attribute_username, uname) ∷ [])) ++ ((attribute_nonce, nonce) ∷ []))
              ++ ((attribute_realm, realm) ∷ []))
            attribute_message_integrity
          ≡ none)
signed_parts-values xs uname nonce realm digest (no_user, no_nonce, no_realm, no_digest) =
    let u = (attribute_username, uname) ∷ [] in
    let n = (attribute_nonce, nonce) ∷ [] in
    let r = (attribute_realm, realm) ∷ [] in
    let d = (attribute_message_integrity, digest) ∷ [] in
    let none_n = first_value-last xs attribute_nonce attribute_username uname no_nonce in
    let none_r =
      first_value-last (xs ++ u) attribute_realm attribute_nonce nonce
        (first_value-last xs attribute_realm attribute_username uname no_realm) in
    let none_d =
      first_value-last ((xs ++ u) ++ n) attribute_message_integrity attribute_realm realm (
        first_value-last (xs ++ u) attribute_message_integrity attribute_nonce nonce
          (first_value-last xs attribute_message_integrity attribute_username uname no_digest)) in
    (
      first_value-kept (((xs ++ u) ++ n) ++ r) d attribute_username uname (
          first_value-kept ((xs ++ u) ++ n) r attribute_username uname (
            first_value-kept (xs ++ u) n attribute_username uname
              (first_value-last xs attribute_username attribute_username uname no_user))),
      first_value-kept (((xs ++ u) ++ n) ++ r) d attribute_nonce nonce (
          first_value-kept ((xs ++ u) ++ n) r attribute_nonce nonce
            (first_value-last (xs ++ u) attribute_nonce attribute_nonce nonce none_n)),
      first_value-kept (((xs ++ u) ++ n) ++ r) d attribute_realm realm
          (first_value-last ((xs ++ u) ++ n) attribute_realm attribute_realm realm none_r),
      first_value-last (((xs ++ u) ++ n) ++ r) attribute_message_integrity
          attribute_message_integrity digest none_d,
      none_d,
    )

-- A string that is sent: no 0 in it, and no longer than its room.
abbrev pub IsText : List ℕ → ℕ → Type 0
IsText v max = (c_string v ≡ v) × (length v ≤ max)

-- What a receiver reads in a message with user name, nonce, realm and digest.
abbrev Readable : Memory → ℕ → List ℕ → List ℕ → List ℕ → Type 0
Readable buf len uname nonce realm =
    (attr_text buf len attribute_username stun_max_username_size ≡ some uname)
    × (attr_text buf len attribute_nonce stun_max_nonce_size ≡ some nonce)
    × (attr_text buf len attribute_realm stun_max_realm_size ≡ some realm)
    × ((sar : ℕ) × (get_first_by_type buf len attribute_message_integrity ≡ some sar)
        × (attr_len buf sar ≡ 20))

digest_found :
    (buf : Memory) (len at : ℕ) (found : Option ℕ)
    → get_first_by_type buf len attribute_message_integrity ≡ found
    → value_at buf found ≡ some (bytes buf at 20)
    → (sar : ℕ) × (get_first_by_type buf len attribute_message_integrity ≡ some sar)
      × (attr_len buf sar ≡ 20)
digest_found buf len at none e h = cc h
digest_found buf len at (some a) e h =
    let same : bytes buf (a + 4) (attr_len buf a) ≡ bytes buf at 20 = ground (arith, h) in
    (
      a,
      e,
      sym (length-bytes buf (a + 4) (attr_len buf a)) ∙ ap length same ∙ length-bytes buf at 20,
    )

Represents-Readable :
    (buf : Memory) (len at : ℕ) (xs : List Attribute) (uname nonce realm : List ℕ)
    → IsPlain xs
    → IsText uname stun_max_username_size
    → IsText nonce stun_max_nonce_size
    → IsText realm stun_max_realm_size
    → Represents buf len (signed_parts xs uname nonce realm (bytes buf at 20))
    → Readable buf len uname nonce realm
Represents-Readable buf len at xs uname nonce realm plain u n r rep =
    let all = signed_parts xs uname nonce realm (bytes buf at 20) in
    let (uv, nv, rv, dv, none_d) =
      signed_parts-values xs uname nonce realm (bytes buf at 20) plain in
    (
      attr_text-Represents buf len attribute_username stun_max_username_size all uname rep uv u.1
          u.0,
      attr_text-Represents buf len attribute_nonce stun_max_nonce_size all nonce rep nv n.1 n.0,
      attr_text-Represents buf len attribute_realm stun_max_realm_size all realm rep rv r.1 r.0,
      digest_found buf len at (get_first_by_type buf len attribute_message_integrity) refl
          (get_first_by_type_refines buf len attribute_message_integrity all rep ∙ dv),
    )

-- With long-term credentials the password is not looked at.
long_pwd :
    (hmac : Hmac) (buf : Memory) (len : ℕ) (key : Memory) (pwd : List ℕ)
    → check_integrity hmac long_term buf len key pwd sha1
      ≡ check_integrity hmac long_term buf len key [] sha1
unfolding check_integrity integrity_key check_attribute
long_pwd hmac buf len key pwd = refl

-- The message that the client makes, as a receiver with the key reads it.
add_integrity_by_key-Readable :
    (hmac : Hmac) (scratch buf : Memory) (len : ℕ) (xs : List Attribute)
    (uname realm nonce pwd : List ℕ) (key : Memory)
    → IsTotal hmac sha1
    → Represents buf len xs
    → IsPlain xs
    → len ≤ 60000
    → IsText uname stun_max_username_size
    → IsText nonce stun_max_nonce_size
    → IsText realm stun_max_realm_size
    → (buf' : Memory) × (len' : ℕ) × (add_integrity_by_key hmac scratch buf len uname realm key
          nonce sha1
        ≡ (true, added buf' len'))
      × Readable buf' len' uname nonce realm
      × (check_integrity hmac long_term buf' len' key pwd sha1 ≡ (some true, buf'))
unfolding add_integrity_by_key
add_integrity_by_key-Readable hmac scratch buf len xs uname realm nonce pwd key total r plain room u
      n rl =
    let (b1, l1, e1, r1, s1) =
      text_added buf len attribute_username uname xs r (omega arith) u.1 (omega (arith, room)) in
    let (b2, l2, e2, r2, s2) =
      text_added b1 l1 attribute_nonce nonce (xs ++ ((attribute_username, uname) ∷ [])) r1
        (omega arith) (omega (arith, n.1)) (omega (arith, room, s1)) in
    let (b3, l3, e3, r3, s3) =
      text_added b2 l2 attribute_realm realm
        ((xs ++ ((attribute_username, uname) ∷ [])) ++ ((attribute_nonce, nonce) ∷ [])) r2
        (omega arith) (omega (arith, rl.1)) (omega (arith, room, s1, s2)) in
    let absent = (signed_parts-values xs uname nonce realm [] plain).4 in
    let (b4, e4, checked, r4) =
      check_integrity-add_integrity hmac long_term scratch l3 b3 key [] sha1
        (((xs ++ ((attribute_username, uname) ∷ [])) ++ ((attribute_nonce, nonce) ∷ []))
          ++ ((attribute_realm, realm) ∷ []))
        total r3 absent (omega (arith, room, s1, s2, s3)) in
    (
      b4,
      l3 + 4 + 20,
      rw (e1, e2, e3) e4,
      Represents-Readable b4 (l3 + 4 + 20) (l3 + 4) xs uname nonce realm plain u n rl r4,
      long_pwd hmac b4 (l3 + 4 + 20) key pwd ∙ checked,
    )

pub same_text_refl : (xs : List ℕ) → same_text xs xs ≡ true
unfolding same_text
same_text_refl [] = refl
same_text_refl (x ∷ xs) = ground (arith, same_text_refl xs)

-- A session that has challenged a client for a realm with a nonce that has not expired, and has the key
-- of the user; the user name is new or the one of before.
pub record IsAwaiting (server : AuthServer) (s : Credentials) (uname : List ℕ) : Type 0 where
  pub asked : is_set s.nonce ≡ true
  pub current :
      (not (server.stale_nonce == 0) && time_before s.nonce_expiration_time server.ctime) ≡ false
  pub keyed : s.hmackey_set ≡ true
  pub named : (is_set s.username ≡ false) ⊎ (s.username ≡ uname)
  pub realm_secure : is_secure_string s.realm false ≡ true
  pub name_secure : is_secure_string uname true ≡ true

renew_nonce-current :
    (hooks : AuthHooks) (server : AuthServer) (s : Credentials) (uname : List ℕ)
    → IsAwaiting server s uname
    → renew_nonce hooks server s ≡ (false, s)
unfolding renew_nonce
renew_nonce-current hooks server s uname w = rw (w.asked, w.current) refl

-- The credentials after the realm and after the user name.
abbrev with_realm : AuthHooks → ℕ → Credentials → Credentials
with_realm hooks method s = record s {
  realm = if method == method_connection_bind then hooks.realm_options_by_name s.realm else s.realm;
}

abbrev with_username : List ℕ → Credentials → Credentials
with_username uname s = record s { username = uname }

adopt_realm-current :
    (hooks : AuthHooks) (method : ℕ) (s : Credentials)
    → is_secure_string s.realm false ≡ true
    → adopt_realm hooks method s.realm s ≡ inr (s.realm, with_realm hooks method s)
unfolding adopt_realm
adopt_realm-current hooks method s secure =
    let same = same_text_refl s.realm in
    elim (Bool-cases (method == method_connection_bind)) [
      | inl bind ↦ rw (secure, bind) refl
      | inr other ↦ rw (secure, other, same) refl
    ]

adopt_username-current :
    (method : ℕ) (uname : List ℕ) (s : Credentials)
    → is_secure_string uname true ≡ true
    → (is_set s.username ≡ false) ⊎ (s.username ≡ uname)
    → adopt_username method uname s ≡ inr (with_username uname s)
unfolding adopt_username
adopt_username-current method uname s secure (inl fresh) = rw (secure, fresh) refl
adopt_username-current method uname s secure (inr same) =
    let text : same_text s.username uname ≡ true = rw same (same_text_refl uname) in
    elim (Bool-cases (is_set s.username)) [
      | inl set ↦ rw (secure, set, text) (ap (λ u. inr (record s { username = u })) same)
      | inr fresh ↦ rw (secure, fresh) refl
    ]

check_key-accepted :
    (hooks : AuthHooks) (server : AuthServer) (can_resume : Bool) (usname realm : List ℕ)
    (buf : Memory) (len : ℕ) (s : Credentials)
    → s.hmackey_set ≡ true
    → check_integrity hooks.hmac server.ct buf len s.hmackey s.pwd sha1 ≡ (some true, buf)
    → check_key hooks server can_resume usname realm buf len s ≡ ends buf authenticated s
unfolding check_key
check_key-accepted hooks server can_resume usname realm buf len s keyed accepted =
    rw (keyed, accepted) refl

-- The request of the client, checked from its MESSAGE-INTEGRITY on.
use_integrity-accepted :
    (hooks : AuthHooks) (server : AuthServer) (method : ℕ) (can_resume : Bool) (buf : Memory)
    (len : ℕ) (s : Credentials) (uname : List ℕ)
    → IsAwaiting server s uname
    → Readable buf len uname s.nonce s.realm
    → check_integrity hooks.hmac server.ct buf len s.hmackey s.pwd sha1 ≡ (some true, buf)
    → use_integrity hooks server method can_resume false buf len s
        (get_first_by_type buf len attribute_message_integrity)
      ≡ ends buf authenticated (with_username uname (with_realm hooks method s))
unfolding use_integrity use_realm use_username use_nonce
use_integrity-accepted hooks server method can_resume buf len s uname w
      (user, nonce, realm, (sar, found, sized)) accepted =
    let s1 = with_realm hooks method s in
    let s2 = with_username uname s1 in
    let key =
      check_key-accepted hooks server can_resume uname s.realm buf len s2 w.keyed accepted in
    rw
      (
        found,
        sized,
        realm,
        adopt_realm-current hooks method s w.realm_secure,
        user,
        adopt_username-current method uname s1 w.name_secure w.named,
        nonce,
        same_text_refl s.nonce,
      )
      key

-- A client that answers the challenge is taken for authenticated: to a message of up to 60000 bytes
-- without the four attributes, stun_attr_add_integrity_by_key_str adds the user name, the nonce and the
-- realm of the session and the digest under its key, and check_stun_auth with long-term credentials
-- accepts the result, leaves it as it is and takes the user name (and, for ConnectionBind, the realm of
-- that name). The session has asked with that nonce, which has not expired, and has the key; user name
-- and realm are secure strings, and the three have no 0 and the room that the receiver has. The digest
-- never fails and has the size of its type.
pub check_stun_auth-answer :
    (hooks : AuthHooks) (server : AuthServer) (method : ℕ) (can_resume : Bool)
    (scratch buf : Memory) (len : ℕ) (xs : List Attribute) (s : Credentials) (uname : List ℕ)
    → IsTotal hooks.hmac sha1
    → Represents buf len xs
    → IsPlain xs
    → len ≤ 60000
    → server.ct ≡ long_term
    → IsAwaiting server s uname
    → IsText uname stun_max_username_size
    → IsText s.nonce stun_max_nonce_size
    → IsText s.realm stun_max_realm_size
    → (buf' : Memory) × (len' : ℕ) × (add_integrity_by_key hooks.hmac scratch buf len uname s.realm
          s.hmackey s.nonce sha1
        ≡ (true, added buf' len'))
      × (check_stun_auth hooks server method can_resume buf' len' s
          ≡ ends buf' authenticated (with_username uname (with_realm hooks method s)))
check_stun_auth-answer hooks server method can_resume scratch buf len xs s uname total r plain room
      ct w u n rl =
    let (buf', len', made, readable, accepted) =
      add_integrity_by_key-Readable hooks.hmac scratch buf len xs uname s.realm s.nonce s.pwd
        s.hmackey total r plain room u n rl in
    let current = renew_nonce-current hooks server s uname w in
    (
      buf',
      len',
      made,
      check_stun_auth-long hooks server method can_resume buf' len' s ct
          ∙ rw current (
              use_integrity-accepted hooks server method can_resume buf' len' s uname w readable (
                ap (λ (c : Credential). check_integrity hooks.hmac c buf' len' s.hmackey s.pwd sha1)
                  ct
                ∙ accepted)),
    )
