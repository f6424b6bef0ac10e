-- ===== src/Auth/Passed.antt =====
-- The requests that check_stun_auth takes for authenticated.
use webrtc_caller.Base.{
  ℕ, ◌≡◌, refl, sym, ap, ◌∙◌, ◌⊎◌, inl, inr, Bool, true, false, not, ◌&&◌, Option, none, some, List,
  [], ◌∷◌, arith, ◌==◌, by_if, Memory, bytes, AllBytes,
}
use mathlib.Core.Path.{subst}
use webrtc_caller.Stun.Attr.{attr_len, get_first_by_type}
use webrtc_caller.Stun.Error.{same_text}
use webrtc_caller.Stun.Integrity.{
  attribute_username, attribute_message_integrity, attribute_realm, attribute_nonce, sha1,
  Credential, long_term, integrity_key, check_integrity,
}
use webrtc_caller.Stun.Signed.{IsTotal}
use webrtc_caller.Stun.Trusted.{IsSigned, check_integrity-IsSigned, check_integrity-kept}
use webrtc_caller.Auth.{
  AuthServer, AuthHooks, Credentials, AuthResult, authenticated, need_stun_authentication, is_set,
  renew_nonce, attr_text, ask_key, is_accepted, check_key, use_nonce, adopt_username,
  adopted_username, use_username, adopt_realm, adopted_realm, use_realm, use_integrity,
  check_stun_auth, is_secure_string, stun_max_nonce_size, stun_max_username_size,
  stun_max_realm_size, method_connection_bind, time_before,
}

pub same_text-eq : (xs ys : List ℕ) → same_text xs ys ≡ true → xs ≡ ys
unfolding same_text
same_text-eq [] [] h = refl
same_text-eq [] (y ∷ ys) h = ground (arith, h)
same_text-eq (x ∷ xs) [] h = ground (arith, h)
same_text-eq (x ∷ xs) (y ∷ ys) h = ground (arith, h, same_text-eq xs ys (ground (arith, h)))

IsPassed : AuthResult → Type 0
IsPassed r = r.verdict ≡ authenticated

ask_key-asks :
    (hooks : AuthHooks) (can_resume : Bool) (usname realm : List ℕ) (buf : Memory) (s : Credentials)
    → ¬ IsPassed (ask_key hooks can_resume usname realm buf s)
unfolding ask_key IsPassed
ask_key-asks hooks can_resume usname realm buf s h = ground (arith, h)

-- The credentials with which the integrity is checked, and what they were checked against.
abbrev KeyPassed : AuthHooks → AuthServer → Memory → ℕ → Credentials → AuthResult → Type 0
KeyPassed hooks server buf len s r =
    (is_accepted (check_integrity hooks.hmac server.ct buf len s.hmackey s.pwd sha1).0 ≡ true)
    × ((s.hmackey_set ≡ true) ⊎ (is_set s.pwd ≡ true))
    × (r.creds ≡ s)
    × (r.buffer ≡ (check_integrity hooks.hmac server.ct buf len s.hmackey s.pwd sha1).1)

check_key-passed :
    (hooks : AuthHooks) (server : AuthServer) (can_resume : Bool) (usname realm : List ℕ)
    (buf : Memory) (len : ℕ) (s : Credentials)
    → IsPassed (check_key hooks server can_resume usname realm buf len s)
    → KeyPassed hooks server buf len s (check_key hooks server can_resume usname realm buf len s)
unfolding check_key
check_key-passed hooks server can_resume usname realm buf len s =
    let P = λ (r : AuthResult). IsPassed r → KeyPassed hooks server buf len s r in
    by_if P (not s.hmackey_set && not (is_set s.pwd)) _ _
      (λ z h. absurd (ask_key-asks hooks can_resume usname realm buf s h))
      (λ keyed.
        by_if P (is_accepted (check_integrity hooks.hmac server.ct buf len s.hmackey s.pwd sha1).0)
          _ _ (λ good h. (good, ground (arith, keyed), refl, refl))
          (λ z h. absurd (
            ask_key-asks hooks can_resume usname realm
              (check_integrity hooks.hmac server.ct buf len s.hmackey s.pwd sha1).1 s h)))

abbrev NoncePassed : AuthHooks → AuthServer → Bool → Memory → ℕ → Credentials → AuthResult → Type 0
NoncePassed hooks server new_nonce buf len s r =
    (new_nonce ≡ false)
    × (attr_text buf len attribute_nonce stun_max_nonce_size ≡ some s.nonce)
    × KeyPassed hooks server buf len s r

use_nonce-passed :
    (hooks : AuthHooks) (server : AuthServer) (can_resume new_nonce : Bool) (usname realm : List ℕ)
    (buf : Memory) (len : ℕ) (s : Credentials) (found : Option (List ℕ))
    → attr_text buf len attribute_nonce stun_max_nonce_size ≡ found
    → IsPassed (use_nonce hooks server can_resume new_nonce usname realm buf len s found)
    → NoncePassed hooks server new_nonce buf len s
        (use_nonce hooks server can_resume new_nonce usname realm buf len s found)
unfolding use_nonce IsPassed
use_nonce-passed hooks server can_resume new_nonce usname realm buf len s none e =
    λ k. absurd (cc k)
use_nonce-passed hooks server can_resume new_nonce usname realm buf len s (some nonce) e =
    let P = λ (r : AuthResult). IsPassed r → NoncePassed hooks server new_nonce buf len s r in
    by_if P new_nonce _ _ (λ z k. absurd (cc k))
      (λ old.
        by_if P (not (same_text s.nonce nonce)) _ _ (λ z k. absurd (cc k))
          (λ same k. (
            old,
            e ∙ ap some (sym (same_text-eq s.nonce nonce (ground (arith, same)))),
            check_key-passed hooks server can_resume usname realm buf len s k,
          )))

-- What the user name and the realm do to the credentials: nonce, key and password stay.
abbrev SameKey : Credentials → Credentials → Type 0
SameKey s s' =
    (s'.nonce ≡ s.nonce)
    × (s'.hmackey ≡ s.hmackey)
    × (s'.pwd ≡ s.pwd)
    × ((s'.hmackey_set ≡ true) → (s.hmackey_set ≡ true))

adopt_username-adopted :
    (method : ℕ) (usname : List ℕ) (s s' : Credentials)
    → adopt_username method usname s ≡ inr s'
    → (s'.username ≡ usname) × (s'.realm ≡ s.realm) × SameKey s s'
unfolding adopt_username
adopt_username-adopted method usname s s' e =
    let P = λ (o : ℕ ⊎ Credentials).
      o ≡ inr s' → (s'.username ≡ usname) × (s'.realm ≡ s.realm) × SameKey s s' in
    by_if P (not (is_secure_string usname true)) _ _ (λ z k. absurd (cc k))
      (λ z.
        by_if P (is_set s.username) _ _
          (λ z.
            by_if P (same_text s.username usname) _ _
              (λ same k.
                let same_user = same_text-eq s.username usname same in ground (arith, k, same_user))
              (λ z. by_if P s.oauth _ _ (λ z k. ground (arith, k)) (λ z k. absurd (cc k))))
          (λ z k. ground (arith, k)))
      e

-- The user name of a session that has one stays, or OAuth is on.
abbrev pub NameKept : Credentials → Credentials → Type 0
NameKept s s' = (is_set s.username ≡ false) ⊎ (s.username ≡ s'.username) ⊎ (s.oauth ≡ true)

adopt_username-NameKept :
    (method : ℕ) (usname : List ℕ) (s s' : Credentials)
    → adopt_username method usname s ≡ inr s'
    → NameKept s s'
unfolding adopt_username
adopt_username-NameKept method usname s s' e =
    let P = λ (o : ℕ ⊎ Credentials). o ≡ inr s' → NameKept s s' in
    by_if P (not (is_secure_string usname true)) _ _ (λ z k. absurd (cc k))
      (λ z.
        by_if P (is_set s.username) _ _
          (λ z.
            by_if P (same_text s.username usname) _ _ (λ same k. inr (inl (ground (arith, k))))
              (λ z. by_if P s.oauth _ _ (λ o k. inr (inr o)) (λ z k. absurd (cc k))))
          (λ not_set k. inl not_set))
      e

NameKept-same :
    (s s' r : Credentials)
    → s'.username ≡ s.username
    → s'.oauth ≡ s.oauth
    → NameKept s' r
    → NameKept s r
NameKept-same s s' r user oauth (inl e) = inl (ap is_set (sym user) ∙ e)
NameKept-same s s' r user oauth (inr (inl e)) = inr (inl (sym user ∙ e))
NameKept-same s s' r user oauth (inr (inr e)) = inr (inr (sym oauth ∙ e))

abbrev UserPassed : AuthHooks → AuthServer → Bool → Memory → ℕ → Credentials → AuthResult → Type 0
UserPassed hooks server new_nonce buf len s r =
    (attr_text buf len attribute_username stun_max_username_size ≡ some r.creds.username)
    × (r.creds.realm ≡ s.realm)
    × NameKept s r.creds
    × SameKey s r.creds
    × NoncePassed hooks server new_nonce buf len r.creds r

UserPassed-adopted :
    (hooks : AuthHooks) (server : AuthServer) (new_nonce : Bool) (buf : Memory) (len : ℕ)
    (s s' : Credentials) (r : AuthResult)
    → attr_text buf len attribute_username stun_max_username_size ≡ some s'.username
    → s'.realm ≡ s.realm
    → NameKept s s'
    → SameKey s s'
    → NoncePassed hooks server new_nonce buf len s' r
    → UserPassed hooks server new_nonce buf len s r
UserPassed-adopted hooks server new_nonce buf len s s' r text realm named same passed =
    subst
      (λ (c : Credentials).
        (attr_text buf len attribute_username stun_max_username_size ≡ some c.username)
        × (c.realm ≡ s.realm)
        × NameKept s c
        × SameKey s c
        × NoncePassed hooks server new_nonce buf len c r)
      (sym passed.2.2) (text, realm, named, same, passed)

adopted_username-passed :
    (hooks : AuthHooks) (server : AuthServer) (method : ℕ) (can_resume new_nonce : Bool)
    (usname realm : List ℕ) (buf : Memory) (len : ℕ) (s : Credentials) (o : ℕ ⊎ Credentials)
    → attr_text buf len attribute_username stun_max_username_size ≡ some usname
    → adopt_username method usname s ≡ o
    → IsPassed (adopted_username hooks server can_resume new_nonce usname realm buf len s o)
    → UserPassed hooks server new_nonce buf len s
        (adopted_username hooks server can_resume new_nonce usname realm buf len s o)
unfolding IsPassed
adopted_username-passed hooks server method can_resume new_nonce usname realm buf len s (inl err)
      text e k =
    absurd (cc k)
adopted_username-passed hooks server method can_resume new_nonce usname realm buf len s (inr s')
      text e k =
    let (user, kept, same) = adopt_username-adopted method usname s s' e in
    UserPassed-adopted hooks server new_nonce buf len s s'
      (adopted_username hooks server can_resume new_nonce usname realm buf len s (inr s'))
      (text ∙ ap some (sym user)) kept (adopt_username-NameKept method usname s s' e) same
      (use_nonce-passed hooks server can_resume new_nonce usname realm buf len s'
        (attr_text buf len attribute_nonce stun_max_nonce_size) refl k)

use_username-passed :
    (hooks : AuthHooks) (server : AuthServer) (method : ℕ) (can_resume new_nonce : Bool)
    (realm : List ℕ) (buf : Memory) (len : ℕ) (s : Credentials) (found : Option (List ℕ))
    → attr_text buf len attribute_username stun_max_username_size ≡ found
    → IsPassed (use_username hooks server method can_resume new_nonce realm buf len s found)
    → UserPassed hooks server new_nonce buf len s
        (use_username hooks server method can_resume new_nonce realm buf len s found)
unfolding use_username IsPassed
use_username-passed hooks server method can_resume new_nonce realm buf len s none e k =
    absurd (cc k)
use_username-passed hooks server method can_resume new_nonce realm buf len s (some usname) e k =
    adopted_username-passed hooks server method can_resume new_nonce usname realm buf len s
      (adopt_username method usname s) e refl k

-- The realm of the request is that of the session, or OAuth is on, or it is the request ConnectionBind,
-- which takes the realm of its name.
abbrev pub RealmPassed : AuthHooks → ℕ → Memory → ℕ → Credentials → List ℕ → Type 0
RealmPassed hooks method buf len s realm =
    (text : List ℕ) × (attr_text buf len attribute_realm stun_max_realm_size ≡ some text)
    × (((method ≡ method_connection_bind) × (realm ≡ hooks.realm_options_by_name text))
        ⊎ ((realm ≡ s.realm) × ((text ≡ s.realm) ⊎ (s.oauth ≡ true))))

RealmPassed-adopted :
    (hooks : AuthHooks) (method : ℕ) (buf : Memory) (len : ℕ) (text realm : List ℕ)
    (s c s' : Credentials)
    → Path (ℕ ⊎ (List ℕ × Credentials)) (inr (text, c)) (inr (realm, s'))
    → RealmPassed hooks method buf len s c.realm × SameKey s c
    → RealmPassed hooks method buf len s s'.realm × SameKey s s'
RealmPassed-adopted hooks method buf len text realm s c s' e h =
    let same : c ≡ s' = ground (arith, e) in
    subst (λ (d : Credentials). RealmPassed hooks method buf len s d.realm × SameKey s d) same h

adopt_realm-adopted :
    (hooks : AuthHooks) (method : ℕ) (buf : Memory) (len : ℕ) (text realm : List ℕ)
    (s s' : Credentials)
    → attr_text buf len attribute_realm stun_max_realm_size ≡ some text
    → adopt_realm hooks method text s ≡ inr (realm, s')
    → RealmPassed hooks method buf len s s'.realm × SameKey s s'
unfolding adopt_realm
adopt_realm-adopted hooks method buf len text realm s s' found e =
    let P = λ (o : ℕ ⊎ (List ℕ × Credentials)).
      o ≡ inr (realm, s') → RealmPassed hooks method buf len s s'.realm × SameKey s s' in
    by_if P (not (is_secure_string text false)) _ _ (λ z k. absurd (cc k))
      (λ z.
        by_if P (method == method_connection_bind) _ _
          (λ bind k.
            RealmPassed-adopted hooks method buf len text realm s
              (record s { realm = hooks.realm_options_by_name text }) s' k
              ((text, found, inl (ground (arith, bind), refl)), (refl, refl, refl, λ h. h)))
          (λ z.
            by_if P (same_text text s.realm) _ _
              (λ same k. RealmPassed-adopted hooks method buf len text realm s s s' k (
                (text, found, inr (refl, inl (same_text-eq text s.realm same))),
                (refl, refl, refl, λ h. h),
              ))
              (λ z.
                by_if P s.oauth _ _
                  (λ o k.
                    RealmPassed-adopted hooks method buf len s.realm realm s s s' k
                      ((text, found, inr (refl, inr o)), (refl, refl, refl, λ h. h)))
                  (λ z k. absurd (cc k)))))
      e

adopt_realm-user :
    (hooks : AuthHooks) (method : ℕ) (text realm : List ℕ) (s s' : Credentials)
    → adopt_realm hooks method text s ≡ inr (realm, s')
    → (s'.username ≡ s.username) × (s'.oauth ≡ s.oauth)
unfolding adopt_realm
adopt_realm-user hooks method text realm s s' e =
    let P = λ (o : ℕ ⊎ (List ℕ × Credentials)).
      o ≡ inr (realm, s') → (s'.username ≡ s.username) × (s'.oauth ≡ s.oauth) in
    by_if P (not (is_secure_string text false)) _ _ (λ z k. absurd (cc k))
      (λ z.
        by_if P (method == method_connection_bind) _ _ (λ z k. ground (arith, k))
          (λ z.
            by_if P (same_text text s.realm) _ _ (λ z k. ground (arith, k))
              (λ z. by_if P s.oauth _ _ (λ z k. ground (arith, k)) (λ z k. absurd (cc k)))))
      e

-- The request agrees with the session `s` up to the key: its realm, user name and nonce are those that
-- the session has then, the nonce is an earlier one, and the integrity is checked with the key or the
-- password of the session.
abbrev RequestPassed :
    AuthHooks → AuthServer → ℕ → Bool → Memory → ℕ → Credentials → AuthResult → Type 0
RequestPassed hooks server method new_nonce buf len s r =
    RealmPassed hooks method buf len s r.creds.realm
    × NameKept s r.creds
    × SameKey s r.creds
    × (attr_text buf len attribute_username stun_max_username_size ≡ some r.creds.username)
    × NoncePassed hooks server new_nonce buf len r.creds r

SameKey-trans : (a b c : Credentials) → SameKey a b → SameKey b c → SameKey a c
SameKey-trans a b c (n, k, p, h) (n', k', p', h') = (n' ∙ n, k' ∙ k, p' ∙ p, λ z. h (h' z))

adopted_realm-passed :
    (hooks : AuthHooks) (server : AuthServer) (method : ℕ) (can_resume new_nonce : Bool)
    (buf : Memory) (len : ℕ) (s : Credentials) (text : List ℕ) (o : ℕ ⊎ (List ℕ × Credentials))
    → attr_text buf len attribute_realm stun_max_realm_size ≡ some text
    → adopt_realm hooks method text s ≡ o
    → IsPassed (adopted_realm hooks server method can_resume new_nonce buf len s o)
    → RequestPassed hooks server method new_nonce buf len s
        (adopted_realm hooks server method can_resume new_nonce buf len s o)
unfolding IsPassed
adopted_realm-passed hooks server method can_resume new_nonce buf len s text (inl err) found e k =
    absurd (cc k)
adopted_realm-passed hooks server method can_resume new_nonce buf len s text (inr (realm, s')) found
      e k =
    let (realm_ok, same) = adopt_realm-adopted hooks method buf len text realm s s' found e in
    let (same_user, same_oauth) = adopt_realm-user hooks method text realm s s' e in
    let (user, kept, named, same', rest) =
      use_username-passed hooks server method can_resume new_nonce realm buf len s'
        (attr_text buf len attribute_username stun_max_username_size) refl k in
    (
      rw kept realm_ok,
      NameKept-same s s'
          (adopted_realm hooks server method can_resume new_nonce buf len s (inr (realm, s'))).creds
          same_user same_oauth named,
      SameKey-trans s s'
          (adopted_realm hooks server method can_resume new_nonce buf len s (inr (realm, s'))).creds
          same same',
      user,
      rest,
    )

use_realm-passed :
    (hooks : AuthHooks) (server : AuthServer) (method : ℕ) (can_resume new_nonce : Bool)
    (buf : Memory) (len : ℕ) (s : Credentials) (found : Option (List ℕ))
    → attr_text buf len attribute_realm stun_max_realm_size ≡ found
    → IsPassed (use_realm hooks server method can_resume new_nonce buf len s found)
    → RequestPassed hooks server method new_nonce buf len s
        (use_realm hooks server method can_resume new_nonce buf len s found)
unfolding use_realm IsPassed
use_realm-passed hooks server method can_resume new_nonce buf len s none e k = absurd (cc k)
use_realm-passed hooks server method can_resume new_nonce buf len s (some text) e k =
    adopted_realm-passed hooks server method can_resume new_nonce buf len s text
      (adopt_realm hooks method text s) e refl k

use_integrity-passed :
    (hooks : AuthHooks) (server : AuthServer) (method : ℕ) (can_resume new_nonce : Bool)
    (buf : Memory) (len : ℕ) (s : Credentials) (found : Option ℕ)
    → IsPassed (use_integrity hooks server method can_resume new_nonce buf len s found)
    → RequestPassed hooks server method new_nonce buf len s
        (use_integrity hooks server method can_resume new_nonce buf len s found)
unfolding use_integrity IsPassed
use_integrity-passed hooks server method can_resume new_nonce buf len s none = λ k. absurd (cc k)
use_integrity-passed hooks server method can_resume new_nonce buf len s (some sar) =
    by_if (λ (r : AuthResult). IsPassed r → RequestPassed hooks server method new_nonce buf len s r)
      (attr_len buf sar == 20) _ _
      (λ z k.
        use_realm-passed hooks server method can_resume new_nonce buf len s
          (attr_text buf len attribute_realm stun_max_realm_size) refl k)
      (λ z k. absurd (cc k))

-- An authenticated request: the key of the session, the nonce that it has had before or that took the
-- place of a stale one, its user name, its realm, and the digest under that key.
pub record IsAuthentic (hooks : AuthHooks) (server : AuthServer) (method : ℕ) (buf : Memory)
    (len : ℕ) (s : Credentials) (r : AuthResult) : Type 0 where
  pub asked : is_set s.nonce ≡ true
  pub nonce_kept : r.creds.nonce ≡ (renew_nonce hooks server s).1.nonce
  pub nonce_sent : attr_text buf len attribute_nonce stun_max_nonce_size ≡ some r.creds.nonce
  pub username_sent :
      attr_text buf len attribute_username stun_max_username_size ≡ some r.creds.username
  pub name_kept : NameKept s r.creds
  pub realm_sent : RealmPassed hooks method buf len s r.creds.realm
  pub key_kept : (r.creds.hmackey ≡ s.hmackey) × (r.creds.pwd ≡ s.pwd)
  pub keyed : (s.hmackey_set ≡ true) ⊎ (is_set s.pwd ≡ true)
  pub signed : IsSigned hooks.hmac sha1 (bytes s.hmackey 0 16) buf len
  pub buffer_kept : r.buffer ≡ buf

renew_nonce-renewed :
    (hooks : AuthHooks) (server : AuthServer) (s : Credentials)
    → ((renew_nonce hooks server s).0 ≡ false → is_set s.nonce ≡ true)
      × ((renew_nonce hooks server s).1.hmackey ≡ s.hmackey)
      × ((renew_nonce hooks server s).1.pwd ≡ s.pwd)
      × ((renew_nonce hooks server s).1.hmackey_set ≡ s.hmackey_set)
      × ((renew_nonce hooks server s).1.realm ≡ s.realm)
      × ((renew_nonce hooks server s).1.oauth ≡ s.oauth)
unfolding renew_nonce
renew_nonce-renewed hooks server s =
    by_if
      (λ (p : Bool × Credentials).
        (p.0 ≡ false → is_set s.nonce ≡ true)
        × (p.1.hmackey ≡ s.hmackey)
        × (p.1.pwd ≡ s.pwd)
        × (p.1.hmackey_set ≡ s.hmackey_set)
        × (p.1.realm ≡ s.realm)
        × (p.1.oauth ≡ s.oauth))
      (not (is_set s.nonce)) _ _ (λ z. (λ k. absurd (cc k), refl, refl, refl, refl, refl))
      (λ old.
        by_if
          (λ (p : Bool × Credentials).
            (p.0 ≡ false → is_set s.nonce ≡ true)
            × (p.1.hmackey ≡ s.hmackey)
            × (p.1.pwd ≡ s.pwd)
            × (p.1.hmackey_set ≡ s.hmackey_set)
            × (p.1.realm ≡ s.realm)
            × (p.1.oauth ≡ s.oauth))
          (not (server.stale_nonce == 0) && time_before s.nonce_expiration_time server.ctime) _ _
          (λ z. (λ k. ground (arith, old), refl, refl, refl, refl, refl))
          (λ z. (λ k. ground (arith, old), refl, refl, refl, refl, refl)))

renew_nonce-username :
    (hooks : AuthHooks) (server : AuthServer) (s : Credentials)
    → (renew_nonce hooks server s).1.username ≡ s.username
unfolding renew_nonce
renew_nonce-username hooks server s =
    by_if (λ (p : Bool × Credentials). p.1.username ≡ s.username) (not (is_set s.nonce)) _ _
      (λ z. refl)
      (λ z.
        by_if (λ (p : Bool × Credentials). p.1.username ≡ s.username)
          (not (server.stale_nonce == 0) && time_before s.nonce_expiration_time server.ctime) _ _
          (λ z. refl) (λ z. refl))

long_key :
    (ct : Credential) (key : Memory) (pwd : List ℕ)
    → ct ≡ long_term
    → integrity_key ct sha1 key pwd ≡ bytes key 0 16
unfolding integrity_key
long_key ct key pwd e = rw e refl

is_accepted-true : (o : Option Bool) → is_accepted o ≡ true → o ≡ some true
is_accepted-true none h = cc h
is_accepted-true (some b) h = ap some h

RealmPassed-same :
    (hooks : AuthHooks) (method : ℕ) (buf : Memory) (len : ℕ) (s s' : Credentials) (realm : List ℕ)
    → s.realm ≡ s'.realm
    → s.oauth ≡ s'.oauth
    → RealmPassed hooks method buf len s realm
    → RealmPassed hooks method buf len s' realm
RealmPassed-same hooks method buf len s s' realm same oauth (text, found, inl bound) =
    (text, found, inl bound)
RealmPassed-same hooks method buf len s s' realm same oauth (text, found, inr (kept, inl e)) =
    (text, found, inr (kept ∙ same, inl (e ∙ same)))
RealmPassed-same hooks method buf len s s' realm same oauth (text, found, inr (kept, inr e)) =
    (text, found, inr (kept ∙ same, inr (sym oauth ∙ e)))

RequestPassed-IsAuthentic :
    (hooks : AuthHooks) (server : AuthServer) (method : ℕ) (buf : Memory) (len : ℕ)
    (s : Credentials) (r : AuthResult)
    → IsTotal hooks.hmac sha1
    → AllBytes buf
    → server.ct ≡ long_term
    → RequestPassed hooks server method
        (renew_nonce hooks server s).0
        buf
        len
        (renew_nonce hooks server s).1
        r
    → IsAuthentic hooks server method buf len s r
RequestPassed-IsAuthentic hooks server method buf len s r total bs ct
      (realm, named, (nonce, key, pwd, set), user, (old, sent, (accepted, keyed, creds, buffer))) =
    let (asked, key', pwd', set', realm', oauth') = renew_nonce-renewed hooks server s in
    record {
      asked = asked old;
      nonce_kept = nonce;
      nonce_sent = sent;
      username_sent = user;
      name_kept =
          NameKept-same s (renew_nonce hooks server s).1 r.creds
            (renew_nonce-username hooks server s) oauth' named;
      realm_sent =
          RealmPassed-same hooks method buf len (renew_nonce hooks server s).1 s r.creds.realm
            realm' oauth' realm;
      key_kept = (key ∙ key', pwd ∙ pwd');
      keyed = elim keyed [
        | inl h ↦ inl (sym set' ∙ set h)
        | inr h ↦ inr (ap is_set (sym (pwd ∙ pwd')) ∙ h)
      ];
      signed =
          rw (← key', ← key, ← long_key server.ct r.creds.hmackey r.creds.pwd ct)
            (check_integrity-IsSigned hooks.hmac server.ct buf len r.creds.hmackey r.creds.pwd sha1
              total bs (is_accepted-true _ accepted));
      buffer_kept =
          buffer
          ∙ check_integrity-kept hooks.hmac server.ct buf len r.creds.hmackey r.creds.pwd sha1 bs;
    }

need-long : (server : AuthServer) → server.ct ≡ long_term → need_stun_authentication server ≡ true
unfolding need_stun_authentication
need-long server e = rw e refl

pub check_stun_auth-long :
    (hooks : AuthHooks) (server : AuthServer) (method : ℕ) (can_resume : Bool) (buf : Memory)
    (len : ℕ) (s : Credentials)
    → server.ct ≡ long_term
    → check_stun_auth hooks server method can_resume buf len s
      ≡ use_integrity hooks server method can_resume
          (renew_nonce hooks server s).0
          buf
          len
          (renew_nonce hooks server s).1
          (get_first_by_type buf len attribute_message_integrity)
unfolding check_stun_auth
check_stun_auth-long hooks server method can_resume buf len s ct = rw (need-long server ct) refl

-- With long-term credentials, on a buffer of bytes: a request that check_stun_auth takes for
-- authenticated carries the nonce of the session, one that it has had or that took the place of a
-- stale one; the user name that the session has afterwards, which is the one that it had before where
-- it had one (or OAuth is on); and its realm (or OAuth is on, or it is a ConnectionBind request, which
-- takes the realm of its name). The session has a key or a password; the first
-- MESSAGE-INTEGRITY holds the digest under that key of all before it; and the request stays as it was.
-- The digest never fails and has the size of its type.
pub check_stun_auth-IsAuthentic :
    (hooks : AuthHooks) (server : AuthServer) (method : ℕ) (can_resume : Bool) (buf : Memory)
    (len : ℕ) (s : Credentials)
    → IsTotal hooks.hmac sha1
    → AllBytes buf
    → server.ct ≡ long_term
    → (check_stun_auth hooks server method can_resume buf len s).verdict ≡ authenticated
    → IsAuthentic hooks server method buf len s
        (check_stun_auth hooks server method can_resume buf len s)
unfolding IsPassed
check_stun_auth-IsAuthentic hooks server method can_resume buf len s total bs ct =
    let (new_nonce, s') = renew_nonce hooks server s in
    rw (check_stun_auth-long hooks server method can_resume buf len s ct) (λ k.
      RequestPassed-IsAuthentic hooks server method buf len s
        (use_integrity hooks server method can_resume new_nonce buf len s'
          (get_first_by_type buf len attribute_message_integrity))
        total bs ct
        (use_integrity-passed hooks server method can_resume new_nonce buf len s'
          (get_first_by_type buf len attribute_message_integrity) k))
