-- ===== src/Command/Guarded.antt =====
-- Which messages reach a handler.
use webrtc_caller.Base.{
  ℕ, ◌≡◌, refl, ◌∙◌, ◌⊎◌, inl, inr, true, false, not, ◌||◌, Option, some, arith, ◌==◌, by_if,
  AllBytes,
}
use mathlib.Core.Path.{subst}
use webrtc_caller.Stun.Header.{get_method, is_request, is_indication}
use webrtc_caller.Stun.Integrity.{sha1, long_term}
use webrtc_caller.Stun.Signed.{IsTotal}
use webrtc_caller.Auth.{method_allocate, method_connection_bind}
use webrtc_caller.Command.{
  CommandServer, Client, Message, Command, CommandHooks, method_binding, method_connect,
  method_refresh, method_send, method_data, method_channel_bind, method_create_permission, goes_on,
  skips_auth, admit, dispatch, handle_request, handle_indication, Reply, reply, start_command,
  handle_message, handle_turn_command,
}
use webrtc_caller.Command.Admitted.{Authentic, admit-Admitted}

dispatch-integrity :
    (hooks : CommandHooks) (server : CommandServer) (method : ℕ) (m : Message) (k : Command)
    → (dispatch hooks server method m k).message_integrity ≡ k.message_integrity
unfolding dispatch
dispatch-integrity hooks server method m k =
    let P = λ (k' : Command). k'.message_integrity ≡ k.message_integrity in
    by_if P (method == method_allocate) _ _ (λ z. refl)
      (λ z.
        by_if P (method == method_connect) _ _ (λ z. refl)
          (λ z.
            by_if P (method == method_connection_bind) _ _ (λ z. refl)
              (λ z.
                by_if P (method == method_refresh) _ _ (λ z. refl)
                  (λ z.
                    by_if P (method == method_channel_bind) _ _ (λ z. refl)
                      (λ z.
                        by_if P (method == method_create_permission) _ _ (λ z. refl)
                          (λ z. by_if P (method == method_binding) _ _ (λ z. refl) (λ z. refl)))))))

-- What is known of a message after its handler: what has been sent without a check leaves the session,
-- but for Binding, the requests that skip the check and the indication Send; a signed answer is for an
-- authenticated request.
abbrev pub Guarded : CommandHooks → CommandServer → Message → Client → Reply → Type 0
Guarded hooks server m c r =
    ((r.client.session ≡ c.session)
      ⊎ Authentic hooks server (get_method m.buf m.len) m c.creds
      ⊎ (get_method m.buf m.len ≡ method_binding)
      ⊎ (skips_auth server (get_method m.buf m.len) c ≡ true)
      ⊎ ((is_request m.buf m.len ≡ false) × (get_method m.buf m.len ≡ method_send)))
    × (r.signed ≡ true → Authentic hooks server (get_method m.buf m.len) m c.creds)

reply-session : (k : Command) → (reply k).client ≡ k.client
unfolding reply
reply-session k =
    let P = λ (r : Reply). r.client ≡ k.client in
    by_if P (k.client.closing || not k.client.has_socket) _ _ (λ z. refl)
      (λ z. by_if P k.no_response _ _ (λ z. refl) (λ z. refl))

reply-signed :
    (k : Command) → (reply k).signed ≡ true → (k.message_integrity ≡ true) × (k.no_response ≡ false)
unfolding reply
reply-signed k =
    let P =
      λ (r : Reply). r.signed ≡ true → (k.message_integrity ≡ true) × (k.no_response ≡ false) in
    by_if P (k.client.closing || not k.client.has_socket) _ _ (λ z h. absurd (cc h))
      (λ z. by_if P k.no_response _ _ (λ z h. absurd (cc h)) (λ z h. (h, z)))

module _ (hooks : CommandHooks) (server : CommandServer) (m : Message) (c : Client)
    (total : IsTotal hooks.auth.hmac sha1) (bs : AllBytes m.buf)
    (ct : server.auth.ct ≡ long_term) where
  abbrev method : ℕ
  method = get_method m.buf m.len

  -- A command on its way to the reply.
  abbrev Sound : Command → Type 0
  Sound k =
      ((k.client.session ≡ c.session)
        ⊎ Authentic hooks server method m c.creds
        ⊎ (method ≡ method_binding)
        ⊎ (skips_auth server method c ≡ true)
        ⊎ ((is_request m.buf m.len ≡ false) × (method ≡ method_send)))
      × (k.message_integrity ≡ true → Authentic hooks server method m c.creds)

  request-Sound :
      (counter : ℕ) → Sound (handle_request hooks server method m (start_command c counter))
  unfolding handle_request
  request-Sound counter =
      let k = start_command c counter in
      let k' = admit hooks server method m k in
      let h = admit-Admitted hooks server method m total bs ct k in
      by_if Sound (goes_on k') _ _ (λ on. went on (h.passed on))
        (λ off. (inl h.session, λ signed. absurd (cc (h.unsigned off, signed))))
    where
      went :
          goes_on (admit hooks server method m (start_command c counter)) ≡ true
          → (((admit hooks server method m (start_command c counter)).message_integrity ≡ true)
              × Authentic hooks server method m c.creds)
            ⊎ (((admit hooks server method m (start_command c counter)).message_integrity ≡ false)
                × ((method ≡ method_binding) ⊎ (skips_auth server method c ≡ true)))
          → Sound (
              dispatch hooks server method m
                (admit hooks server method m (start_command c counter)))
      went on (inl (signed, proof)) = (inr (inl proof), λ z. proof)
      went on (inr (unsigned, why)) =
          let same =
            dispatch-integrity hooks server method m
              (admit hooks server method m (start_command c counter)) in
          (
            elim why [ inl bind ↦ inr (inr (inl bind)) | inr skip ↦ inr (inr (inr (inl skip))) ],
            λ signed. absurd (cc (same ∙ unsigned, signed)),
          )

  message-Sound : (counter : ℕ) → Sound (handle_message hooks server m (start_command c counter))
  unfolding handle_message handle_indication
  message-Sound counter =
      let k = start_command c counter in
      by_if Sound (is_request m.buf m.len) _ _ (λ z. request-Sound counter)
        (λ not_request.
          by_if Sound (is_indication m.buf m.len) _ _
            (λ z.
              by_if Sound (method == method_send) _ _
                (λ send. (
                  inr (inr (inr (inr (not_request, ground (arith, send))))),
                  λ signed. absurd (cc signed),
                ))
                (λ z.
                  by_if Sound (method == method_data) _ _
                    (λ z. (inl refl, λ signed. absurd (cc signed)))
                    (λ z. (inl refl, λ signed. absurd (cc signed)))))
            (λ z. (inl refl, λ signed. absurd (cc signed))))

  reply-Guarded : (k : Command) → Sound k → Guarded hooks server m c (reply k)
  reply-Guarded k (why, signed) = (rw (reply-session k) why, λ h. signed (reply-signed k h).0)

-- With long-term credentials, on a buffer of bytes: when handle_turn_command has dealt with a message,
-- the session of the client (its allocation with permissions and channels, its relay sockets) is as it
-- was, unless the message is authentic for the credentials of the client in a realm, or it is Binding, or
-- a request for which the check is left to its handler (ConnectionBind, and with mobility a Refresh of a
-- client without an allocation), or the indication Send. And an answer is signed only for an authentic
-- message. The digest never fails and has the size of its type.
pub handle_turn_command-Guarded :
    (hooks : CommandHooks) (server : CommandServer) (m : Message) (c : Client) (counter : ℕ)
    (r : Reply)
    → IsTotal hooks.auth.hmac sha1
    → AllBytes m.buf
    → server.auth.ct ≡ long_term
    → handle_turn_command hooks server m c counter ≡ some r
    → Guarded hooks server m c r
unfolding handle_turn_command
handle_turn_command-Guarded hooks server m c counter r total bs ct =
    let k = handle_message hooks server m (start_command c counter) in
    by_if (λ (o : Option Reply). o ≡ some r → Guarded hooks server m c r) (not c.has_socket) _ _
      (λ z e. absurd (cc e))
      (λ z e.
        let same : reply k ≡ r = ground (arith, e) in
        subst (Guarded hooks server m c) same (
          reply-Guarded hooks server m c total bs ct k
            (message-Sound hooks server m c total bs ct counter)))
