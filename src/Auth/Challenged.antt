-- ===== src/Auth/Challenged.antt =====
-- The challenge of a session, and what a client reads in it.
use webrtc_caller.Base.{
  ℕ, zero, suc, ◌+◌, ◌*◌, ◌/◌, ◌%◌, ◌≤◌, ◌<◌, min, ◌≡◌, refl, sym, ap, ◌∙◌, ◌⊎◌, Bool, true, false,
  ◌||◌, Option, none, some, List, [], ◌∷◌, ◌++◌, arith, leb, ◌==◌, if◌then◌else◌, by_if, length,
  get_or, Memory, bytes,
}
use mathlib.Core.List.{append-nil}
use webrtc_caller.Stun.Header.{header_length, max_message_size, is_error_response}
use webrtc_caller.Stun.Attr.{attr_len, attr_value, padded, padding_of, added, get_first_by_type}
use webrtc_caller.Stun.Error.{attribute_error_code, error_value, error_len}
use webrtc_caller.Stun.Message.{Attribute, Represents, first_value, value_at}
use webrtc_caller.Stun.Refusal.{
  init_error_response_refines, error_len-small, add-type, same_type-is_error,
}
use webrtc_caller.Stun.Reading.{length-bytes}
use webrtc_caller.Stun.Walk.{get_first_by_type_refines}
use webrtc_caller.Stun.Reply.{
  attribute_third_party_authorization, stun_max_server_name_size, challenge_of, code_at,
  error_response, value_text, is_challenge_response,
}
use webrtc_caller.Stun.Integrity.{attribute_realm, attribute_nonce, c_string, from_list}
use webrtc_caller.Auth.{AuthServer, Credentials, is_set, create_challenge_response, then_text}
use webrtc_caller.Auth.Answer.{IsText, text_added}

-- A message of one attribute is not much longer than its value.
Represents-short :
    (buf : Memory) (len ty : ℕ) (v : List ℕ)
    → Represents buf len ((ty, v) ∷ [])
    → len ≤ 28 + length v
unfolding padded
Represents-short buf len ty v r =
    let (fits, same, value, end) = r.holds in
    let size : attr_len buf header_length ≡ length v =
      sym (length-bytes buf (header_length + 4) (attr_len buf header_length)) ∙ ap length value in
    ground (arith, end, size)

-- An addition that is not refused keeps an error response one.
abbrev Reply : Memory → ℕ → List Attribute → Type 0
Reply buf len xs = Represents buf len xs × (is_error_response buf len ≡ true)

reply_added :
    (buf : Memory) (len ty : ℕ) (v : List ℕ) (xs : List Attribute)
    → Reply buf len xs
    → ty < 0x1_0000
    → length v ≤ 512
    → len ≤ 62000
    → (buf' : Memory) × (len' : ℕ) × (then_text ty (from_list v) (length v) (added buf len)
        ≡ added buf' len')
      × Reply buf' len' (xs ++ ((ty, v) ∷ []))
      × (len' ≤ len + 520)
reply_added buf len ty v xs (r, err) small short room =
    let (buf', len', e, r', s) = text_added buf len ty v xs r small short room in
    let fits : len + 4 + length v + padding_of (len + 4 + length v) < max_message_size =
      ground (arith, short, room) in
    let (same, longer) = add-type buf len ty (from_list v) (length v) xs buf' len' r fits e in
    (
      buf',
      len',
      rw (then_text, e) refl,
      (r', same_type-is_error buf buf' len len' same r.header longer ∙ err),
      s,
    )

set-length : (v : List ℕ) → is_set v ≡ true → 1 ≤ length v
set-length [] h = cc h
set-length (x ∷ xs) h = omega arith

attr_value-some : (buf : Memory) (a : ℕ) → 1 ≤ attr_len buf a → attr_value buf a ≡ some (a + 4)
unfolding attr_value
attr_value-some buf a h = ground (arith, h)

-- The value of an attribute that the message has, and of one that it has not.
value_text-found :
    (buf : Memory) (len ty max : ℕ) (xs : List Attribute) (v : List ℕ)
    → Represents buf len xs
    → first_value xs ty ≡ some v
    → length v ≤ max
    → is_set v ≡ true
    → value_text buf len max (get_first_by_type buf len ty) ≡ some v
unfolding value_text
value_text-found buf len ty max xs v r e short set =
    go (get_first_by_type buf len ty) (get_first_by_type_refines buf len ty xs r ∙ e)
  where
    go : (o : Option ℕ) → value_at buf o ≡ some v → value_text buf len max o ≡ some v
    go none h = cc h
    go (some a) h =
        let value : bytes buf (a + 4) (attr_len buf a) ≡ v = ground (arith, h) in
        let size : attr_len buf a ≡ length v =
          sym (length-bytes buf (a + 4) (attr_len buf a)) ∙ ap length value in
        let long : 1 ≤ attr_len buf a = omega (arith, size, set-length v set) in
        let full : min (attr_len buf a) max ≡ attr_len buf a = ground (arith, size, short) in
        rw (value_text, attr_value-some buf a long, full, value) refl

value_text-absent :
    (buf : Memory) (len ty max : ℕ) (xs : List Attribute)
    → Represents buf len xs
    → first_value xs ty ≡ none
    → value_text buf len max (get_first_by_type buf len ty) ≡ none
unfolding value_text
value_text-absent buf len ty max xs r e =
    go (get_first_by_type buf len ty) (get_first_by_type_refines buf len ty xs r ∙ e)
  where
    go : (o : Option ℕ) → value_at buf o ≡ none → value_text buf len max o ≡ none
    go none h = refl
    go (some a) h = cc h

-- The value of ERROR-CODE: two zeros, the hundreds, the rest, and the reason.
code-read :
    (buf : Memory) (a n : ℕ) (code : ℕ) (text : List ℕ)
    → bytes buf (a + 4) n ≡ 0 ∷ 0 ∷ code / 100 % 256 ∷ code % 100 ∷ text
    → (buf (a + 6) ≡ code / 100 % 256) × (buf (a + 7) ≡ code % 100)
code-read buf a zero code text e = cc e
code-read buf a (suc zero) code text e = cc e
code-read buf a (suc (suc zero)) code text e = cc e
code-read buf a (suc (suc (suc zero))) code text e = cc e
code-read buf a (suc (suc (suc (suc n)))) code text e =
    let third : a + 4 + 1 + 1 ≡ a + 6 = omega arith in
    let fourth : a + 6 + 1 ≡ a + 7 = omega arith in
    let same = rw (third, fourth) at e in
    (ap (λ xs. get_or xs 2 0) same, ap (λ xs. get_or xs 3 0) same)

error_value-bytes :
    (code : ℕ) (reason : Option (List ℕ)) (n : ℕ)
    → 4 ≤ n
    → (rest : List ℕ) × (bytes (error_value code reason) 0 n
        ≡ 0 ∷ 0 ∷ code / 100 % 256 ∷ code % 100 ∷ rest)
error_value-bytes code reason zero h = absurd (omega (arith, h))
error_value-bytes code reason (suc zero) h = absurd (omega (arith, h))
error_value-bytes code reason (suc (suc zero)) h = absurd (omega (arith, h))
error_value-bytes code reason (suc (suc (suc zero))) h = absurd (omega (arith, h))
error_value-bytes code reason (suc (suc (suc (suc n)))) h = (_, refl)

le→leb : (a b : ℕ) → a ≤ b → leb a b ≡ true
le→leb a b h = ground (arith, h)

code-joined : (code : ℕ) → code < 25600 → code / 100 % 256 * 100 + code % 100 ≡ code
code-joined code h = omega (arith, h)

-- The code that a client reads in an error response of a code below 25600.
error_response-code :
    (buf : Memory) (len : ℕ) (xs : List Attribute) (code : ℕ) (reason : Option (List ℕ)) (old : ℕ)
    → Reply buf len xs
    → first_value xs attribute_error_code
      ≡ some (bytes (error_value code reason) 0 (error_len code reason))
    → code < 25600
    → ((error_response buf len old 0).0 ≡ true) × ((error_response buf len old 0).1 ≡ code)
unfolding error_response
error_response-code buf len xs code reason old (r, err) e small =
    let found =
      go (get_first_by_type buf len attribute_error_code)
        (get_first_by_type_refines buf len attribute_error_code xs r ∙ e) in
    rw err (refl, found)
  where
    go :
        (o : Option ℕ)
        → value_at buf o ≡ some (bytes (error_value code reason) 0 (error_len code reason))
        → code_at buf old o ≡ code
    go none h = cc h
    go (some a) h =
        let value : bytes buf (a + 4) (attr_len buf a)
            ≡ bytes (error_value code reason) 0 (error_len code reason) =
          ground (arith, h) in
        let size : attr_len buf a ≡ error_len code reason =
          sym (length-bytes buf (a + 4) (attr_len buf a))
          ∙ ap length value
          ∙ length-bytes (error_value code reason) 0 (error_len code reason) in
        let (rest, shape) = error_value-bytes code reason (error_len code reason) (omega arith) in
        let (hundreds, units) = code-read buf a (attr_len buf a) code rest (value ∙ shape) in
        let long : leb 4 (attr_len buf a) ≡ true =
          le→leb 4 (attr_len buf a) (rw size (omega arith)) in
        rw (code_at, long, hundreds, units) (code-joined code small)

-- The name of the third party, where OAuth is on.
abbrev third_party : AuthServer → Credentials → List ℕ
third_party server s = if is_set server.oauth_server_name then server.oauth_server_name else s.realm

abbrev third_parts : Bool → List ℕ → List Attribute
third_parts false name = []
third_parts true name = (attribute_third_party_authorization, name) ∷ []

abbrev offered : Bool → List ℕ → Option (List ℕ)
offered false name = none
offered true name = some name

abbrev challenge_parts : Bool → ℕ → Option (List ℕ) → List ℕ → List ℕ → List ℕ → List Attribute
challenge_parts oauth code reason nonce realm name =
    ((((attribute_error_code, bytes (error_value code reason) 0 (error_len code reason)) ∷ [])
        ++ ((attribute_nonce, nonce) ∷ []))
      ++ ((attribute_realm, realm) ∷ []))
    ++ third_parts oauth name

challenge_parts-values :
    (oauth : Bool) (code : ℕ) (reason : Option (List ℕ)) (nonce realm name : List ℕ)
    → let xs = challenge_parts oauth code reason nonce realm name in
      (first_value xs attribute_error_code
        ≡ some (bytes (error_value code reason) 0 (error_len code reason)))
      × (first_value xs attribute_nonce ≡ some nonce)
      × (first_value xs attribute_realm ≡ some realm)
      × (first_value xs attribute_third_party_authorization ≡ offered oauth name)
unfolding first_value
challenge_parts-values true code reason nonce realm name = (refl, refl, refl, refl)
challenge_parts-values false code reason nonce realm name = (refl, refl, refl, refl)

-- The last addition, which depends on OAuth.
third_added :
    (oauth : Bool) (buf : Memory) (len : ℕ) (name : List ℕ) (xs : List Attribute)
    → Reply buf len xs
    → length name ≤ 512
    → len ≤ 62000
    → (buf' : Memory) × (len' : ℕ) × ((if oauth
          then then_text attribute_third_party_authorization
              (from_list name)
              (length name)
              (added buf len)
          else added buf len)
        ≡ added buf' len')
      × Reply buf' len' (xs ++ third_parts oauth name)
third_added false buf len name xs h short room = (buf, len, refl, rw append-nil h)
third_added true buf len name xs h short room =
    let (buf', len', e, h', s) =
      reply_added buf len attribute_third_party_authorization name xs h (omega arith) short room in
    (buf', len', e, h')

third_set :
    (server : AuthServer) (s : Credentials)
    → is_set s.realm ≡ true
    → is_set (third_party server s) ≡ true
third_set server s h =
    by_if (λ v. is_set v ≡ true) (is_set server.oauth_server_name) _ _ (λ k. k) (λ k. h)

name_read :
    (oauth : Bool) (buf : Memory) (len : ℕ) (xs : List Attribute) (name : List ℕ)
    → Represents buf len xs
    → first_value xs attribute_third_party_authorization ≡ offered oauth name
    → length name ≤ stun_max_server_name_size
    → is_set name ≡ true
    → value_text buf len stun_max_server_name_size
        (get_first_by_type buf len attribute_third_party_authorization)
      ≡ offered oauth name
name_read false buf len xs name r e short set =
    value_text-absent buf len attribute_third_party_authorization stun_max_server_name_size xs r e
name_read true buf len xs name r e short set =
    value_text-found buf len attribute_third_party_authorization stun_max_server_name_size xs name r
      e short set

code_small : (code : ℕ) → (code ≡ 401) ⊎ (code ≡ 438) → code < 25600
code_small code h = ground (arith, h)

code_asked : (code : ℕ) → (code ≡ 401) ⊎ (code ≡ 438) → (code == 401 || code == 438) ≡ true
code_asked code h = ground (arith, h)

length-set : (v : List ℕ) → 1 ≤ length v → is_set v ≡ true
length-set [] h = absurd (omega (arith, h))
length-set (x ∷ xs) h = refl

-- The error response with nonce, realm and third party.
create_challenge_response-Reply :
    (random_tid : Memory) (server : AuthServer) (s : Credentials) (method : ℕ) (buf : Memory)
    (code : ℕ) (reason : Option (List ℕ)) (tid : Memory)
    → method < 0x1000
    → length s.nonce ≡ 16
    → length s.realm ≤ 127
    → length (third_party server s) ≤ 512
    → (buf' : Memory) × (len' : ℕ) × (create_challenge_response random_tid server s method buf code
          reason tid
        ≡ added buf' len')
      × Reply buf' len'
          (challenge_parts server.oauth code reason s.nonce s.realm (third_party server s))
unfolding create_challenge_response
create_challenge_response-Reply random_tid server s method buf code reason tid m n r name =
    let error_text = bytes (error_value code reason) 0 (error_len code reason) in
    let (b0, l0, e0, r0, err0, same) =
      init_error_response_refines random_tid method buf code reason tid m in
    let short : l0 ≤ 600 = omega (
      arith,
      Represents-short b0 l0 attribute_error_code error_text r0,
      length-bytes (error_value code reason) 0 (error_len code reason),
      error_len-small code reason,
    ) in
    let (b1, l1, e1, r1, s1) =
      reply_added b0 l0 attribute_nonce s.nonce ((attribute_error_code, error_text) ∷ []) (r0, err0)
        (omega arith) (omega (arith, n)) (omega (arith, short)) in
    let (b2, l2, e2, r2, s2) =
      reply_added b1 l1 attribute_realm s.realm
        (((attribute_error_code, error_text) ∷ []) ++ ((attribute_nonce, s.nonce) ∷ [])) r1
        (omega arith) (omega (arith, r)) (omega (arith, short, s1)) in
    let (b3, l3, e3, r3) =
      third_added server.oauth b2 l2 (third_party server s)
        ((((attribute_error_code, error_text) ∷ []) ++ ((attribute_nonce, s.nonce) ∷ []))
          ++ ((attribute_realm, s.realm) ∷ []))
        r2 name (omega (arith, short, s1, s2)) in
    let nonce_added = rw n at e1 in (b3, l3, rw (e0, nonce_added, e2) e3, r3)

-- A challenge is read by a client: for a code of 401 or 438 and a method of twelve bits, with a nonce
-- of 16 characters, a realm of 1 to 127 and, where OAuth is on, the name of a third party of at most
-- 512, all without a 0, create_challenge_response makes a message that stun_is_challenge_response_str
-- takes for a challenge, and there it reads the code, the nonce and the realm of the session, and a
-- name exactly where OAuth is on, whatever its variable for the code holds before.
pub is_challenge_response-create :
    (random_tid : Memory) (server : AuthServer) (s : Credentials) (method : ℕ) (buf : Memory)
    (code old : ℕ) (reason : Option (List ℕ)) (tid : Memory)
    → method < 0x1000
    → (code ≡ 401) ⊎ (code ≡ 438)
    → length s.nonce ≡ 16
    → c_string s.nonce ≡ s.nonce
    → is_set s.realm ≡ true
    → IsText s.realm 127
    → length (third_party server s) ≤ 512
    → (buf' : Memory) × (len' : ℕ) × (create_challenge_response random_tid server s method buf code
          reason tid
        ≡ added buf' len')
      × (is_challenge_response buf' len' old
          ≡ some (record {
            err_code = code;
            realm = s.realm;
            nonce = s.nonce;
            server_name = offered server.oauth (third_party server s);
          }))
unfolding is_challenge_response
is_challenge_response-create random_tid server s method buf code old reason tid m kind n text realm
      short name =
    let (buf', len', e, (r, err)) =
      create_challenge_response-Reply random_tid server s method buf code reason tid m n short.1
        name in
    let xs = challenge_parts server.oauth code reason s.nonce s.realm (third_party server s) in
    let (cv, nv, rv, tv) =
      challenge_parts-values server.oauth code reason s.nonce s.realm (third_party server s) in
    let (is_err, read) =
      error_response-code buf' len' xs code reason old (r, err) cv (code_small code kind) in
    let asked = code_asked code kind in
    let got_realm = value_text-found buf' len' attribute_realm 127 xs s.realm r rv short.1 realm in
    let got_nonce =
      value_text-found buf' len' attribute_nonce 127 xs s.nonce r nv (omega (arith, n))
        (length-set s.nonce (omega (arith, n))) in
    let got_name =
      name_read server.oauth buf' len' xs (third_party server s) r tv (omega (arith, name))
        (third_set server s realm) in
    (
      buf',
      len',
      e,
      rw (is_err, read, asked, got_realm, got_nonce, got_name, challenge_of, text, short.0)
          (ap
            (λ (c : ℕ). some (record {
              err_code = c;
              realm = s.realm;
              nonce = s.nonce;
              server_name = offered server.oauth (third_party server s);
            }))
            read),
    )
