-- ===== src/Command/Admitted.antt =====
-- What a request goes through before its handler: admit of the command module.
use webrtc_caller.Base.{
  Memory, ℕ, ◌≡◌, refl, sym, ap, ◌∙◌, ◌⊎◌, inl, inr, Bool, true, false, not, ◌&&◌, ◌||◌, Option,
  none, some, List, arith, ltb, ◌==◌, if◌then◌else◌, by_if, AllBytes,
}
use mathlib.Core.Path.{subst}
use webrtc_caller.Stun.Header.{tid_equals, tid_from_message}
use webrtc_caller.Stun.Integrity.{sha1, long_term}
use webrtc_caller.Stun.Signed.{IsTotal}
use webrtc_caller.Addr.{IoaAddr}
use webrtc_caller.Server.{Session}
use webrtc_caller.Auth.{
  Credentials, Verdict, unchecked, authenticated, postponed, failed, challenged, method_allocate,
  method_connection_bind, is_set, check_stun_auth,
}
use webrtc_caller.Auth.Passed.{IsAuthentic, check_stun_auth-IsAuthentic}
use webrtc_caller.Auth.Documented.{Documented, check_stun_auth-Documented}
use webrtc_caller.Command.{
  CommandServer, Message, Answer, Command, CommandHooks, method_binding, method_refresh,
  check_allocate, redirected, set_alternate_server, try_alternate, check_origin_of, take_origin,
  initial_origin, goes_on, with_verdict, skips_auth, authenticate, admit, some_servers, servers_for,
  find_origin,
}

-- A step before the handler leaves the session, and of the credentials all but the realm.
record SameSession (k k' : Command) : Type 0 where
  session : k'.client.session ≡ k.client.session
  integrity : k'.message_integrity ≡ k.message_integrity
  creds : (realm : List ℕ) × (k'.client.creds ≡ record k.client.creds { realm = realm })

SameSession-refl : (k : Command) → SameSession k k
SameSession-refl k = record {
  session = refl;
  integrity = refl;
  creds = (k.client.creds.realm, refl);
}

SameSession-trans : (a b c : Command) → SameSession a b → SameSession b c → SameSession a c
SameSession-trans a b c h h' = record {
  session = h'.session ∙ h.session;
  integrity = h'.integrity ∙ h.integrity;
  creds = (
    h'.creds.0,
    h'.creds.1 ∙ ap (λ (d : Credentials). record d { realm = h'.creds.0 }) h.creds.1,
  );
}

-- The error code and the answer do not matter.
SameSession-stopped :
    (k : Command) (counter err : ℕ) (answer : Option Answer)
    → SameSession k (record k { as_counter = counter; err_code = err; answer = answer })
SameSession-stopped k counter err answer = record {
  session = refl;
  integrity = refl;
  creds = (k.client.creds.realm, refl);
}

redirected-SameSession : (k : Command) (o : ℕ × Option IoaAddr) → SameSession k (redirected k o)
redirected-SameSession k (counter, none) = SameSession-stopped k counter k.err_code k.answer
redirected-SameSession k (counter, some a) =
    SameSession-stopped k counter 300 (some (try_alternate a))

check_allocate-SameSession :
    (server : CommandServer) (m : Message) (k : Command) → SameSession k (check_allocate server m k)
unfolding check_allocate
check_allocate-SameSession server m k =
    by_if (SameSession k)
      (k.client.session.alloc.is_valid
        && not (tid_equals k.client.alloc_tid (tid_from_message m.buf)))
      _ _ (λ z. SameSession-stopped k k.as_counter 437 k.answer)
      (λ z.
        by_if (SameSession k) (some_servers (servers_for server k.client.socket_type)) _ _
          (λ z. redirected-SameSession k (
            set_alternate_server (servers_for server k.client.socket_type) k.client.local_addr
              k.as_counter))
          (λ z. SameSession-refl k))

check_origin_of-SameSession :
    (hooks : CommandHooks) (server : CommandServer) (m : Message) (k : Command)
    → SameSession k (check_origin_of hooks server m k)
unfolding check_origin_of
check_origin_of-SameSession hooks server m k =
    let same = SameSession-refl k in
    let stopped = SameSession-stopped k k.as_counter 441 k.answer in
    let (found, norigins) = find_origin hooks k.client.origin m in
    by_if (SameSession k) k.client.origin_set _ _
      (λ z.
        by_if (SameSession k) (not server.check_origin) _ _ (λ z. same)
          (λ z.
            by_if (SameSession k) (is_set k.client.origin) _ _
              (λ z. by_if (SameSession k) found _ _ (λ z. same) (λ z. stopped))
              (λ z. by_if (SameSession k) (ltb 0 norigins) _ _ (λ z. stopped) (λ z. same))))
      (λ z. same)

take_origin-SameSession :
    (hooks : CommandHooks) (method : ℕ) (m : Message) (k : Command)
    → SameSession k (take_origin hooks method m k)
unfolding take_origin initial_origin
take_origin-SameSession hooks method m k =
    by_if (SameSession k) (k.err_code == 0 && not k.client.origin_set && method == method_allocate)
      _ _ (λ z. record { session = refl; integrity = refl; creds = (_, refl) })
      (λ z. SameSession-refl k)

-- The request before the authentication.
abbrev before_auth : CommandHooks → CommandServer → ℕ → Message → Command → Command
before_auth hooks server method m k = take_origin hooks method m (
    check_origin_of hooks server m
      (if method == method_allocate then check_allocate server m k else k))

before_auth-SameSession :
    (hooks : CommandHooks) (server : CommandServer) (method : ℕ) (m : Message) (k : Command)
    → SameSession k (before_auth hooks server method m k)
before_auth-SameSession hooks server method m k =
    let k1 = if method == method_allocate then check_allocate server m k else k in
    let first : SameSession k k1 =
      by_if (SameSession k) (method == method_allocate) _ _
        (λ z. check_allocate-SameSession server m k) (λ z. SameSession-refl k) in
    SameSession-trans k k1 (before_auth hooks server method m k) first (
      SameSession-trans k1 (check_origin_of hooks server m k1) (before_auth hooks server method m k)
        (check_origin_of-SameSession hooks server m k1)
        (take_origin-SameSession hooks method m (check_origin_of hooks server m k1)))

-- A request goes on to its handler only when it is authenticated or the check is skipped.
abbrev pub Authentic : CommandHooks → CommandServer → ℕ → Message → Credentials → Type 0
Authentic hooks server method m s =
    (realm : List ℕ) × IsAuthentic hooks.auth server.auth method m.buf m.len
      (record s { realm = realm })
      (check_stun_auth hooks.auth server.auth method m.can_resume m.buf m.len
        (record s { realm = realm }))

-- The session stays, and a request that goes on is authenticated (and the answer will be signed), or
-- the check is not made for it (and the answer will not).
pub record Admitted (hooks : CommandHooks) (server : CommandServer) (method : ℕ) (m : Message)
    (k k' : Command) : Type 0 where
  pub session : k'.client.session ≡ k.client.session
  pub passed :
      goes_on k' ≡ true
      → ((k'.message_integrity ≡ true) × Authentic hooks server method m k.client.creds)
        ⊎ ((k'.message_integrity ≡ k.message_integrity)
            × ((method ≡ method_binding) ⊎ (skips_auth server method k.client ≡ true)))
  pub unsigned : goes_on k' ≡ false → k'.message_integrity ≡ k.message_integrity

with_verdict-session :
    (k : Command) (v : Verdict) (s : Credentials)
    → (with_verdict k v s).client.session ≡ k.client.session
with_verdict-session k unchecked s = refl
with_verdict-session k authenticated s = refl
with_verdict-session k postponed s = refl
with_verdict-session k (failed err) s = refl
with_verdict-session k (challenged err) s = refl

with_verdict-passed :
    (method : ℕ) (can_resume : Bool) (buf : Memory) (len : ℕ) (k : Command) (v : Verdict)
    (s : Credentials)
    → Documented method can_resume buf len v
    → goes_on (with_verdict k v s) ≡ true
    → (v ≡ authenticated) × ((with_verdict k v s).message_integrity ≡ true)
with_verdict-passed method can_resume buf len k unchecked s d h = absurd d
with_verdict-passed method can_resume buf len k authenticated s d h = (refl, refl)
with_verdict-passed method can_resume buf len k postponed s d h = absurd (ground (arith, h))
with_verdict-passed method can_resume buf len k (failed err) s d h = absurd (ground (arith, d, h))
with_verdict-passed method can_resume buf len k (challenged err) s d h = absurd (ground (arith, h))

with_verdict-unsigned :
    (k : Command) (v : Verdict) (s : Credentials)
    → goes_on k ≡ true
    → goes_on (with_verdict k v s) ≡ false
    → (with_verdict k v s).message_integrity ≡ k.message_integrity
with_verdict-unsigned k unchecked s on h = refl
with_verdict-unsigned k authenticated s on h = cc (on, h)
with_verdict-unsigned k postponed s on h = refl
with_verdict-unsigned k (failed err) s on h = refl
with_verdict-unsigned k (challenged err) s on h = refl

module _ (hooks : CommandHooks) (server : CommandServer) (method : ℕ) (m : Message)
    (total : IsTotal hooks.auth.hmac sha1) (bs : AllBytes m.buf)
    (ct : server.auth.ct ≡ long_term) where
  authenticate-passed :
      (k1 : Command)
      → goes_on (authenticate hooks server method m k1) ≡ true
      → (((authenticate hooks server method m k1).message_integrity ≡ true)
          × IsAuthentic hooks.auth server.auth method m.buf m.len k1.client.creds (
              check_stun_auth hooks.auth server.auth method m.can_resume m.buf m.len
                k1.client.creds))
        ⊎ (((authenticate hooks server method m k1).message_integrity ≡ k1.message_integrity)
            × (skips_auth server method k1.client ≡ true))
  unfolding authenticate
  authenticate-passed k1 =
      let r =
        check_stun_auth hooks.auth server.auth method m.can_resume m.buf m.len k1.client.creds in
      let P = λ (k' : Command).
        goes_on k' ≡ true
        → ((k'.message_integrity ≡ true)
            × IsAuthentic hooks.auth server.auth method m.buf m.len k1.client.creds r)
          ⊎ ((k'.message_integrity ≡ k1.message_integrity)
              × (skips_auth server method k1.client ≡ true)) in
      by_if P (goes_on k1 && not (skips_auth server method k1.client)) _ _
        (λ z h.
          let (fine, signed) =
            with_verdict-passed method m.can_resume m.buf m.len k1 r.verdict r.creds
              (check_stun_auth-Documented hooks.auth server.auth method m.can_resume m.buf m.len
                k1.client.creds ct)
              h in
          inl (
            signed,
            check_stun_auth-IsAuthentic hooks.auth server.auth method m.can_resume m.buf m.len
                k1.client.creds total bs ct fine,
          ))
        (λ z h. inr (refl, not_called (goes_on k1) (skips_auth server method k1.client) z h))
    where
      not_called : (a b : Bool) → (a && not b) ≡ false → a ≡ true → b ≡ true
      not_called a true e h = refl
      not_called a false e h = ground (arith, e, h)

  authenticate-session :
      (k1 : Command) → (authenticate hooks server method m k1).client.session ≡ k1.client.session
  unfolding authenticate
  authenticate-session k1 =
      let r =
        check_stun_auth hooks.auth server.auth method m.can_resume m.buf m.len k1.client.creds in
      by_if (λ (k' : Command). k'.client.session ≡ k1.client.session)
        (goes_on k1 && not (skips_auth server method k1.client)) _ _
        (λ z. with_verdict-session k1 r.verdict r.creds) (λ z. refl)

  authenticate-unsigned :
      (k1 : Command)
      → goes_on (authenticate hooks server method m k1) ≡ false
      → (authenticate hooks server method m k1).message_integrity ≡ k1.message_integrity
  unfolding authenticate
  authenticate-unsigned k1 =
      let r =
        check_stun_auth hooks.auth server.auth method m.can_resume m.buf m.len k1.client.creds in
      by_if (λ (k' : Command). goes_on k' ≡ false → k'.message_integrity ≡ k1.message_integrity)
        (goes_on k1 && not (skips_auth server method k1.client)) _ _
        (λ called h. with_verdict-unsigned k1 r.verdict r.creds (ground (arith, called)) h)
        (λ z h. refl)

  same_creds :
      (k k1 : Command)
      → SameSession k k1
      → IsAuthentic hooks.auth server.auth method m.buf m.len k1.client.creds
          (check_stun_auth hooks.auth server.auth method m.can_resume m.buf m.len k1.client.creds)
      → Authentic hooks server method m k.client.creds
  same_creds k k1 same h = (
    same.creds.0,
    subst
        (λ (s : Credentials).
          IsAuthentic hooks.auth server.auth method m.buf m.len s
            (check_stun_auth hooks.auth server.auth method m.can_resume m.buf m.len s))
        same.creds.1 h,
  )

  checked-Admitted :
      (k k1 : Command)
      → SameSession k k1
      → Admitted hooks server method m k (authenticate hooks server method m k1)
  checked-Admitted k k1 same = record {
    session = authenticate-session k1 ∙ same.session;
    passed = λ h. go (authenticate-passed k1 h);
    unsigned = λ h. authenticate-unsigned k1 h ∙ same.integrity;
  }
    where
      go :
          (((authenticate hooks server method m k1).message_integrity ≡ true)
              × IsAuthentic hooks.auth server.auth method m.buf m.len k1.client.creds (
                  check_stun_auth hooks.auth server.auth method m.can_resume m.buf m.len
                    k1.client.creds))
            ⊎ (((authenticate hooks server method m k1).message_integrity ≡ k1.message_integrity)
                × (skips_auth server method k1.client ≡ true))
          → (((authenticate hooks server method m k1).message_integrity ≡ true)
              × Authentic hooks server method m k.client.creds)
            ⊎ (((authenticate hooks server method m k1).message_integrity ≡ k.message_integrity)
                × ((method ≡ method_binding) ⊎ (skips_auth server method k.client ≡ true)))
      go (inl (signed, h)) = inl (signed, same_creds k k1 same h)
      go (inr (kept, skipped)) = inr (
        kept ∙ same.integrity,
        inr (
            ap
              (λ (ss : Session).
                method == method_connection_bind
                || (server.mobility && method == method_refresh && not ss.alloc.is_valid))
              (sym same.session)
            ∙ skipped),
      )

  -- A request that the options let pass without a check is Binding.
  pub admit-Admitted :
      (k : Command) → Admitted hooks server method m k (admit hooks server method m k)
  unfolding admit
  admit-Admitted k =
      let P = Admitted hooks server method m k in
      let ignored : P (record k { no_response = true }) = record {
        session = refl;
        passed = λ h. absurd (ground (arith, h));
        unsigned = λ h. refl;
      } in
      by_if P (method == method_binding && server.no_stun) _ _ (λ z. ignored)
        (λ z.
          by_if P (not (method == method_binding) && server.stun_only) _ _ (λ z. ignored)
            (λ z.
              by_if P (not (method == method_binding) || server.secure_stun) _ _
                (λ z.
                  checked-Admitted k (before_auth hooks server method m k)
                    (before_auth-SameSession hooks server method m k))
                (λ plain. record {
                  session = refl;
                  passed = λ h. inr (refl, inl (ground (arith, plain)));
                  unsigned = λ h. refl;
                })))
