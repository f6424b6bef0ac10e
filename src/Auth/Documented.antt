-- ===== src/Auth/Documented.antt =====
-- How check_stun_auth ends, and with what error codes.
use webrtc_caller.Base.{
  eq-cases, ◌≢◌, ℕ, ◌≡◌, refl, ◌⊎◌, inl, inr, Bool, true, false, not, ◌&&◌, ◌||◌, Option, none,
  some, List, arith, ◌==◌, by_if, Memory,
}
use webrtc_caller.Stun.Attr.{attr_len, get_first_by_type}
use webrtc_caller.Stun.Error.{same_text}
use webrtc_caller.Stun.Integrity.{
  attribute_username, attribute_message_integrity, attribute_realm, attribute_nonce, sha1,
  long_term, check_integrity,
}
use webrtc_caller.Auth.{
  AuthServer, AuthHooks, Credentials, AuthResult, Verdict, unchecked, authenticated, postponed,
  failed, challenged, is_set, renew_nonce, attr_text, ask_key, mismatch, is_accepted, check_key,
  use_nonce, adopt_username, adopted_username, use_username, adopt_realm, adopted_realm, use_realm,
  use_integrity, check_stun_auth, is_secure_string, stun_max_nonce_size, stun_max_username_size,
  stun_max_realm_size, method_connection_bind,
}
use webrtc_caller.Auth.Passed.{check_stun_auth-long}

-- A text attribute that is missing, or is not a secure string.
abbrev pub unfit : Bool → Option (List ℕ) → Bool
unfit sanitize_sql none = true
unfit sanitize_sql (some text) = not (is_secure_string text sanitize_sql)

abbrev pub lacks : Option (List ℕ) → Bool
lacks none = true
lacks (some text) = false

-- A request whose realm or user name is missing or not secure, or that has no nonce.
abbrev pub malformed : Memory → ℕ → Bool
malformed buf len =
    unfit false (attr_text buf len attribute_realm stun_max_realm_size)
    || unfit true (attr_text buf len attribute_username stun_max_username_size)
    || lacks (attr_text buf len attribute_nonce stun_max_nonce_size)

-- The codes of a refusal: 400 where the request is malformed, or 437 for Allocate (method 3) and 441 for
-- the others.
abbrev pub IsRefusal : ℕ → Bool → ℕ → Type 0
IsRefusal method bad err =
    ((err ≡ 400) × (bad ≡ true))
    ⊎ ((method ≡ 0x0003) × (err ≡ 437))
    ⊎ ((method ≢ 0x0003) × (err ≡ 441))

-- The verdicts of a check for a method: authenticated, postponed where it may be, a refusal with its
-- code, a challenge with 401, or with 438 where there is a nonce.
abbrev pub Documented : ℕ → Bool → Memory → ℕ → Verdict → Type 0
Documented method can_resume buf len unchecked = ⊥
Documented method can_resume buf len authenticated = Unit
Documented method can_resume buf len postponed = can_resume ≡ true
Documented method can_resume buf len (failed err) = IsRefusal method (malformed buf len) err
Documented method can_resume buf len (challenged err) =
    (err ≡ 401)
    ⊎ ((err ≡ 438) × (lacks (attr_text buf len attribute_nonce stun_max_nonce_size) ≡ false))

mismatch-IsRefusal :
    (method : ℕ) (bad : Bool) (err : ℕ)
    → ((err ≡ 400) × (bad ≡ true)) ⊎ (err ≡ mismatch method)
    → IsRefusal method bad err
mismatch-IsRefusal method bad err (inl e) = inl e
mismatch-IsRefusal method bad err (inr e) = elim (eq-cases method 0x0003) [
  | inl same ↦ inr (inl (same, ground (arith, e, same)))
  | inr other ↦ inr (inr (other, ground (arith, e, other)))
]

-- A refusal of a text, as one of the request.
insecure-IsRefusal :
    (method : ℕ) (insecure bad : Bool) (err : ℕ)
    → (insecure ≡ true → bad ≡ true)
    → ((err ≡ 400) × (insecure ≡ true)) ⊎ (err ≡ mismatch method)
    → IsRefusal method bad err
insecure-IsRefusal method insecure bad err shows (inl (e, h)) =
    mismatch-IsRefusal method bad err (inl (e, shows h))
insecure-IsRefusal method insecure bad err shows (inr e) = mismatch-IsRefusal method bad err (inr e)

realm-malformed :
    (buf : Memory) (len : ℕ) (found : Option (List ℕ))
    → attr_text buf len attribute_realm stun_max_realm_size ≡ found
    → unfit false found ≡ true
    → malformed buf len ≡ true
realm-malformed buf len found e h = ground (arith, rw (← e) at h)

username-malformed :
    (buf : Memory) (len : ℕ) (found : Option (List ℕ))
    → attr_text buf len attribute_username stun_max_username_size ≡ found
    → unfit true found ≡ true
    → malformed buf len ≡ true
username-malformed buf len found e h = ground (arith, rw (← e) at h)

nonce-malformed :
    (buf : Memory) (len : ℕ)
    → attr_text buf len attribute_nonce stun_max_nonce_size ≡ none
    → malformed buf len ≡ true
nonce-malformed buf len e = ground (arith, e)

module _ (hooks : AuthHooks) (server : AuthServer) (method : ℕ) (can_resume : Bool) (buf : Memory)
    (len : ℕ) where
  IsDocumented : AuthResult → Type 0
  IsDocumented r = Documented method can_resume buf len r.verdict

  ask_key-IsDocumented :
      (usname realm : List ℕ) (asked : Memory) (s : Credentials)
      → IsDocumented (ask_key hooks can_resume usname realm asked s)
  unfolding ask_key IsDocumented
  ask_key-IsDocumented usname realm asked s =
      by_if IsDocumented can_resume _ _
        (λ may.
          by_if IsDocumented (hooks.userkeycb usname realm s.oauth).0 _ _ (λ z. may)
            (λ z. inl refl))
        (λ z. inl refl)

  check_key-IsDocumented :
      (usname realm : List ℕ) (s : Credentials)
      → IsDocumented (check_key hooks server can_resume usname realm buf len s)
  unfolding check_key IsDocumented
  check_key-IsDocumented usname realm s =
      let (accepted, buf') = check_integrity hooks.hmac server.ct buf len s.hmackey s.pwd sha1 in
      by_if IsDocumented (not s.hmackey_set && not (is_set s.pwd)) _ _
        (λ z. ask_key-IsDocumented usname realm buf s)
        (λ z.
          by_if IsDocumented (is_accepted accepted) _ _ (λ k. tt)
            (λ k. ask_key-IsDocumented usname realm buf' s))

  use_nonce-IsDocumented :
      (new_nonce : Bool) (usname realm : List ℕ) (s : Credentials) (found : Option (List ℕ))
      → attr_text buf len attribute_nonce stun_max_nonce_size ≡ found
      → IsDocumented (use_nonce hooks server can_resume new_nonce usname realm buf len s found)
  unfolding use_nonce IsDocumented
  use_nonce-IsDocumented new_nonce usname realm s none e = inl (refl, nonce-malformed buf len e)
  use_nonce-IsDocumented new_nonce usname realm s (some nonce) e =
      by_if IsDocumented new_nonce _ _ (λ z. inr (refl, rw e refl))
        (λ z.
          by_if IsDocumented (not (same_text s.nonce nonce)) _ _ (λ z. inr (refl, rw e refl))
            (λ z. check_key-IsDocumented usname realm s))

  adopt_username-err :
      (usname : List ℕ) (s : Credentials) (err : ℕ)
      → adopt_username method usname s ≡ inl err
      → ((err ≡ 400) × (not (is_secure_string usname true) ≡ true)) ⊎ (err ≡ mismatch method)
  unfolding adopt_username
  adopt_username-err usname s err e =
      let P = λ (o : ℕ ⊎ Credentials).
        o ≡ inl err
        → ((err ≡ 400) × (not (is_secure_string usname true) ≡ true)) ⊎ (err ≡ mismatch method) in
      by_if P (not (is_secure_string usname true)) _ _ (λ z k. inl (ground (arith, k), z))
        (λ z.
          by_if P (is_set s.username) _ _
            (λ z.
              by_if P (same_text s.username usname) _ _ (λ z k. absurd (cc k))
                (λ z. by_if P s.oauth _ _ (λ z k. absurd (cc k)) (λ z k. inr (ground (arith, k)))))
            (λ z k. absurd (cc k)))
        e

  adopted_username-IsDocumented :
      (new_nonce : Bool) (usname realm : List ℕ) (s : Credentials) (o : ℕ ⊎ Credentials)
      → attr_text buf len attribute_username stun_max_username_size ≡ some usname
      → adopt_username method usname s ≡ o
      → IsDocumented (adopted_username hooks server can_resume new_nonce usname realm buf len s o)
  unfolding IsDocumented
  adopted_username-IsDocumented new_nonce usname realm s (inl err) text e =
      insecure-IsRefusal method (not (is_secure_string usname true)) (malformed buf len) err
        (username-malformed buf len (some usname) text) (adopt_username-err usname s err e)
  adopted_username-IsDocumented new_nonce usname realm s (inr s') text e =
      use_nonce-IsDocumented new_nonce usname realm s'
        (attr_text buf len attribute_nonce stun_max_nonce_size) refl

  use_username-IsDocumented :
      (new_nonce : Bool) (realm : List ℕ) (s : Credentials) (found : Option (List ℕ))
      → attr_text buf len attribute_username stun_max_username_size ≡ found
      → IsDocumented (use_username hooks server method can_resume new_nonce realm buf len s found)
  unfolding use_username IsDocumented
  use_username-IsDocumented new_nonce realm s none e =
      inl (refl, username-malformed buf len none e refl)
  use_username-IsDocumented new_nonce realm s (some usname) e =
      adopted_username-IsDocumented new_nonce usname realm s (adopt_username method usname s) e refl

  adopt_realm-err :
      (text : List ℕ) (s : Credentials) (err : ℕ)
      → adopt_realm hooks method text s ≡ inl err
      → ((err ≡ 400) × (not (is_secure_string text false) ≡ true)) ⊎ (err ≡ mismatch method)
  unfolding adopt_realm
  adopt_realm-err text s err e =
      let P = λ (o : ℕ ⊎ (List ℕ × Credentials)).
        o ≡ inl err
        → ((err ≡ 400) × (not (is_secure_string text false) ≡ true)) ⊎ (err ≡ mismatch method) in
      by_if P (not (is_secure_string text false)) _ _ (λ z k. inl (ground (arith, k), z))
        (λ z.
          by_if P (method == method_connection_bind) _ _ (λ z k. absurd (cc k))
            (λ z.
              by_if P (same_text text s.realm) _ _ (λ z k. absurd (cc k))
                (λ z. by_if P s.oauth _ _ (λ z k. absurd (cc k)) (λ z k. inr (ground (arith, k))))))
        e

  adopted_realm-IsDocumented :
      (new_nonce : Bool) (text : List ℕ) (s : Credentials) (o : ℕ ⊎ (List ℕ × Credentials))
      → attr_text buf len attribute_realm stun_max_realm_size ≡ some text
      → adopt_realm hooks method text s ≡ o
      → IsDocumented (adopted_realm hooks server method can_resume new_nonce buf len s o)
  unfolding IsDocumented
  adopted_realm-IsDocumented new_nonce text s (inl err) found e =
      insecure-IsRefusal method (not (is_secure_string text false)) (malformed buf len) err
        (realm-malformed buf len (some text) found) (adopt_realm-err text s err e)
  adopted_realm-IsDocumented new_nonce text s (inr (realm, s')) found e =
      use_username-IsDocumented new_nonce realm s'
        (attr_text buf len attribute_username stun_max_username_size) refl

  use_realm-IsDocumented :
      (new_nonce : Bool) (s : Credentials) (found : Option (List ℕ))
      → attr_text buf len attribute_realm stun_max_realm_size ≡ found
      → IsDocumented (use_realm hooks server method can_resume new_nonce buf len s found)
  unfolding use_realm IsDocumented
  use_realm-IsDocumented new_nonce s none e = inl (refl, realm-malformed buf len none e refl)
  use_realm-IsDocumented new_nonce s (some text) e =
      adopted_realm-IsDocumented new_nonce text s (adopt_realm hooks method text s) e refl

  use_integrity-IsDocumented :
      (new_nonce : Bool) (s : Credentials) (found : Option ℕ)
      → IsDocumented (use_integrity hooks server method can_resume new_nonce buf len s found)
  unfolding use_integrity IsDocumented
  use_integrity-IsDocumented new_nonce s none = inl refl
  use_integrity-IsDocumented new_nonce s (some sar) =
      by_if IsDocumented (attr_len buf sar == 20) _ _
        (λ z.
          use_realm-IsDocumented new_nonce s (attr_text buf len attribute_realm stun_max_realm_size)
            refl)
        (λ z. inl refl)

-- With long-term credentials check_stun_auth ends, for any request, in one of four ways: authenticated;
-- postponed, only where the reply may wait; an error, which is 400 only for a request whose realm or
-- user name is missing or not secure or that has no nonce, and else 437 for Allocate and 441 for the
-- other methods; or a challenge, with 401, or with 438 only for a request that has a nonce.
pub check_stun_auth-Documented :
    (hooks : AuthHooks) (server : AuthServer) (method : ℕ) (can_resume : Bool) (buf : Memory)
    (len : ℕ) (s : Credentials)
    → server.ct ≡ long_term
    → Documented method can_resume buf len
        (check_stun_auth hooks server method can_resume buf len s).verdict
unfolding IsDocumented
check_stun_auth-Documented hooks server method can_resume buf len s ct =
    let (new_nonce, s') = renew_nonce hooks server s in
    rw (check_stun_auth-long hooks server method can_resume buf len s ct) (
      use_integrity-IsDocumented hooks server method can_resume buf len new_nonce s'
        (get_first_by_type buf len attribute_message_integrity))
