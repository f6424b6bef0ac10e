-- ===== src/Auth/Challenge.antt =====
-- The nonce that a session makes, and the challenge that it sends: renew_nonce and
-- create_challenge_response.
use webrtc_caller.Base.{
  ℕ, zero, suc, ◌+◌, ◌-◌, ◌*◌, ◌/◌, ◌%◌, ◌≤◌, min, ◌≡◌, refl, ap, ◌≢◌, ◌⊎◌, inl, inr, Bool, true,
  false, not, ◌&&◌, List, [], ◌∷◌, ◌++◌, arith, ◌==◌, by_if, length, length-append,
}
use webrtc_caller.Stun.Error.{first_bytes}
use webrtc_caller.Stun.Integrity.{c_string}
use webrtc_caller.Auth.{
  AuthServer, AuthHooks, Credentials, is_set, renew_nonce, make_nonce, nonce_loop, hex_digit,
  hex_text, hex_padded, zero_digits, print_at, time_before, nonce_max_size,
}

-- No byte of a string is 0.
abbrev NoZero : List ℕ → Type 0
NoZero [] = Unit
NoZero (x ∷ xs) = (x ≢ 0) × NoZero xs

NoZero-append : (xs ys : List ℕ) → NoZero xs → NoZero ys → NoZero (xs ++ ys)
NoZero-append [] ys h k = k
NoZero-append (x ∷ xs) ys (h, hs) k = (h, NoZero-append xs ys hs k)

NoZero-first_bytes : (n : ℕ) (xs : List ℕ) → NoZero xs → NoZero (first_bytes n xs)
NoZero-first_bytes zero xs h = tt
NoZero-first_bytes (suc n) [] h = tt
NoZero-first_bytes (suc n) (x ∷ xs) (h, hs) = (h, NoZero-first_bytes n xs hs)

NoZero-zero_digits : (n : ℕ) → NoZero (zero_digits n)
NoZero-zero_digits zero = tt
NoZero-zero_digits (suc n) = (λ e. omega (arith, e), NoZero-zero_digits n)

NoZero-hex_text : (n x : ℕ) → NoZero (hex_text n x)
NoZero-hex_text zero x = tt
NoZero-hex_text (suc n) x =
    by_if NoZero (x == 0) _ _ (λ z. tt)
      (λ z.
        NoZero-append (hex_text n (x / 16)) (hex_digit (x % 16) ∷ []) (NoZero-hex_text n (x / 16))
          (ground arith, tt))

c_string-NoZero : (xs : List ℕ) → NoZero xs → c_string xs ≡ xs
c_string-NoZero [] h = refl
c_string-NoZero (x ∷ xs) (h, hs) = ground (arith, h, c_string-NoZero xs hs)

NoZero-hex_padded : (width x : ℕ) → NoZero (hex_padded width x)
NoZero-hex_padded width x =
    NoZero-append (zero_digits (width - length (hex_text 16 x))) (hex_text 16 x)
      (NoZero-zero_digits (width - length (hex_text 16 x))) (NoZero-hex_text 16 x)

length-zero_digits : (n : ℕ) → length (zero_digits n) ≡ n
length-zero_digits zero = refl
length-zero_digits (suc n) = ap suc (length-zero_digits n)

length-hex_padded : (width x : ℕ) → width ≤ length (hex_padded width x)
length-hex_padded width x =
    let text = hex_text 16 x in
    omega (
      arith,
      length-append (zero_digits (width - length text)) text,
      length-zero_digits (width - length text),
    )

length-first_bytes : (n : ℕ) (xs : List ℕ) → length (first_bytes n xs) ≡ min n (length xs)
length-first_bytes zero xs = ground arith
length-first_bytes (suc n) [] = ground arith
length-first_bytes (suc n) (x ∷ xs) = ground (arith, length-first_bytes n xs)

-- A string that a round of the nonce makes from one of at least `at` bytes.
print_at-text :
    (old : List ℕ) (at size : ℕ) (text : List ℕ)
    → NoZero old
    → NoZero text
    → at ≤ length old
    → NoZero (print_at old at size text)
      × (length (print_at old at size text) ≡ at + min (size - 1) (length text))
print_at-text old at size text h k room = (
  NoZero-append (first_bytes at old) (first_bytes (size - 1) text) (NoZero-first_bytes at old h)
      (NoZero-first_bytes (size - 1) text k),
  ground (
    arith,
    length-append (first_bytes at old) (first_bytes (size - 1) text),
    length-first_bytes at old,
    length-first_bytes (size - 1) text,
    room,
  ),
)

round-room :
    (width i rounds n : ℕ)
    → width * (i + suc rounds) ≡ 16
    → width ≤ n
    → width * (i + 1) ≤ width * i + min (nonce_max_size - width * i - 1) n
round-room width i rounds n e h =
    let all : width * i + width + width * rounds ≡ 16 = omega (arith, e) in
    let next : width * (i + 1) ≡ width * i + width = omega arith in rw next (ground (arith, all, h))

round-full :
    (width i rounds n : ℕ)
    → width * (i + suc rounds) ≡ 16
    → width ≤ n
    → rounds ≡ 0
    → width * i + min (nonce_max_size - width * i - 1) n ≡ 16
round-full width i rounds n e h last =
    let all : width * i + width + width * rounds ≡ 16 = omega (arith, e) in
    let none_left : width * rounds ≡ 0 = rw last (omega arith) in ground (arith, all, none_left, h)

-- After `i` rounds there are `width * i` digits at least, and 16 after the last one.
nonce_loop-text :
    (random : ℕ → ℕ) (width i rounds : ℕ) (nonce : List ℕ)
    → width * (i + rounds) ≡ 16
    → NoZero nonce
    → width * i ≤ length nonce
    → ((rounds ≡ 0) → length nonce ≡ 16)
    → NoZero (nonce_loop random width i rounds nonce)
      × (length (nonce_loop random width i rounds nonce) ≡ 16)
unfolding nonce_loop
nonce_loop-text random width i zero nonce e h room full = (h, full refl)
nonce_loop-text random width i (suc rounds) nonce e h room full =
    let text = hex_padded width (random i) in
    let (fine, long) =
      print_at-text nonce (width * i) (nonce_max_size - width * i) text h
        (NoZero-hex_padded width (random i)) room in
    let enough = length-hex_padded width (random i) in
    nonce_loop-text random width (i + 1) rounds
      (print_at nonce (width * i) (nonce_max_size - width * i) text) (omega (arith, e)) fine
      (rw long (round-room width i rounds (length text) e enough))
      (λ last. rw long (round-full width i rounds (length text) e enough last))

make_nonce-text :
    (long_is_64 : Bool) (random : ℕ → ℕ) (old : List ℕ)
    → NoZero old
    → NoZero (make_nonce long_is_64 random old) × (length (make_nonce long_is_64 random old) ≡ 16)
unfolding make_nonce
make_nonce-text true random old h =
    nonce_loop-text random 8 0 2 old (omega arith) h (omega arith) (λ e. omega (arith, e))
make_nonce-text false random old h =
    nonce_loop-text random 4 0 4 old (omega arith) h (omega arith) (λ e. omega (arith, e))

-- The nonce of a session is not set, or it is one that the session has made.
abbrev pub IsNonce : List ℕ → Type 0
IsNonce nonce = (is_set nonce ≡ false) ⊎ (NoZero nonce × (length nonce ≡ 16))

IsNonce-NoZero : (nonce : List ℕ) → IsNonce nonce → NoZero nonce
IsNonce-NoZero [] h = tt
IsNonce-NoZero (x ∷ xs) (inl h) = cc h
IsNonce-NoZero (x ∷ xs) (inr (h, e)) = h

-- After the first block of check_stun_auth, from a nonce that is not set or has 16 characters, the
-- session has a nonce of 16 characters without a 0, whatever the random numbers are.
pub renew_nonce-IsNonce :
    (hooks : AuthHooks) (server : AuthServer) (s : Credentials)
    → IsNonce s.nonce
    → NoZero (renew_nonce hooks server s).1.nonce
      × (length (renew_nonce hooks server s).1.nonce ≡ 16)
unfolding renew_nonce
renew_nonce-IsNonce hooks server s h =
    let P = λ (p : Bool × Credentials). NoZero p.1.nonce × (length p.1.nonce ≡ 16) in
    let made = make_nonce-text server.long_is_64 hooks.random s.nonce (IsNonce-NoZero s.nonce h) in
    by_if P (not (is_set s.nonce)) _ _ (λ z. made)
      (λ old.
        by_if P (not (server.stale_nonce == 0) && time_before s.nonce_expiration_time server.ctime)
          _ _ (λ z. made) (λ z. kept h old))
  where
    kept : IsNonce s.nonce → not (is_set s.nonce) ≡ false → NoZero s.nonce × (length s.nonce ≡ 16)
    kept (inl unset) old = absurd (ground (arith, unset, old))
    kept (inr fine) old = fine
