-- ===== src/Stun/Trusted.antt =====
-- What the check of MESSAGE-INTEGRITY accepts, on any buffer.
use webrtc_caller.Base.{
  ℕ, ◌+◌, ◌<◌, ◌≡◌, refl, sym, ap, ◌∙◌, ◌⊎◌, inl, inr, true, none, some, List, [], ◌∷◌, arith,
  lt→ltb, Option-cases, lt-cases, length, Memory, load16, bytes, AllBytes,
}
use webrtc_caller.Stun.Header.{header_length, command_message_len, set_command_message_len}
use webrtc_caller.Stun.Attr.{attr_len, attr_value, get_first_by_type}
use webrtc_caller.Stun.Walk.{get_first_by_type-InMessage}
use webrtc_caller.Stun.Integrity.{
  ShaType, sha_size, Credential, Hmac, integrity_key, expected_size, same_digest, compare_digest,
  check_attribute, check_integrity, attribute_message_integrity,
}
use webrtc_caller.Stun.Signed.{IsTotal, set_back, check_integrity-found, check_attribute-compared}

command_message_len-field :
    (buf : Memory) (len n : ℕ)
    → command_message_len buf len ≡ some n
    → n ≡ load16 buf 2 + header_length
unfolding command_message_len
command_message_len-field buf len n e = ground (arith, e)

same_digest-bytes :
    (buf : Memory) (a : ℕ) (xs : List ℕ)
    → same_digest buf a xs ≡ true
    → bytes buf a (length xs) ≡ xs
same_digest-bytes buf a [] h = refl
same_digest-bytes buf a (x ∷ xs) h =
    ground (arith, h, same_digest-bytes buf (a + 1) xs (ground (arith, h)))

expected_size-cases : (sha : ShaType) (n : ℕ) → (expected_size sha n ≡ none) ⊎ (n ≡ sha_size sha)
unfolding expected_size
expected_size-cases sha n = ground arith

-- Every way through the check, the ones that end early and the comparison of the digests.
data Course (hmac : Hmac) (ct : Credential) (buf : Memory) (len : ℕ) (key : Memory) (pwd : List ℕ)
    (sha : ShaType) : Type 0 where
  early :
      check_integrity hmac ct buf len key pwd sha ≡ (none, buf) → Course hmac ct buf len key pwd sha
  compared :
      (sar : ℕ)
      → get_first_by_type buf len attribute_message_integrity ≡ some sar
      → attr_len buf sar ≡ sha_size sha
      → check_integrity hmac ct buf len key pwd sha ≡ (
        compare_digest buf sar (
            hmac sha
              (integrity_key ct sha key pwd)
              (bytes (set_command_message_len buf (sar + 4 + sha_size sha)).0 0 sar)),
        buf,
      )
      → Course hmac ct buf len key pwd sha

course :
    (hmac : Hmac) (ct : Credential) (buf : Memory) (len : ℕ) (key : Memory) (pwd : List ℕ)
    (sha : ShaType)
    → buf 2 < 256
    → buf 3 < 256
    → Course hmac ct buf len key pwd sha
unfolding check_integrity check_attribute
course hmac ct buf len key pwd sha two three =
    elim (Option-cases (get_first_by_type buf len attribute_message_integrity)) [
      | inl absent ↦ early (rw (check_integrity, absent) refl)
      | inr (sar, found) ↦ elim (expected_size-cases sha (attr_len buf sar)) [
        | inl bad ↦ early (rw (check_integrity, found, bad) refl)
        | inr sized ↦ elim (Option-cases (command_message_len buf len)) [
          | inl broken ↦ early (
              rw (check_integrity, found)
                (elim (Option-cases (expected_size sha (attr_len buf sar))) [
                  | inl bad ↦ rw bad refl
                  | inr (n, good) ↦ rw (good, broken) refl
                ]))
          | inr (orig, whole) ↦
              let step =
                check_integrity-found hmac ct buf len key pwd sha sar orig found sized whole in
              elim (lt-cases orig (sar + 4 + sha_size sha)) [
                | inl short ↦ early (step ∙ rw (check_attribute, lt→ltb _ _ short) refl)
                | inr fits ↦
                    let (low, inside, ty) =
                      get_first_by_type-InMessage buf len attribute_message_integrity sar found in
                    compared sar found sized (
                      step
                      ∙ check_attribute-compared hmac ct buf key pwd sha sar (sha_size sha) orig low
                          fits
                      ∙ rw
                          (set_back buf (sar + 4 + sha_size sha) orig two three
                            (command_message_len-field buf len orig whole) (omega (arith, low)))
                          refl)
              ]
        ]
      ]
    ]

-- On a buffer of bytes stun_check_message_integrity_by_key_str leaves the buffer as it was.
pub check_integrity-kept :
    (hmac : Hmac) (ct : Credential) (buf : Memory) (len : ℕ) (key : Memory) (pwd : List ℕ)
    (sha : ShaType)
    → AllBytes buf
    → (check_integrity hmac ct buf len key pwd sha).1 ≡ buf
check_integrity-kept hmac ct buf len key pwd sha bs =
    elim (course hmac ct buf len key pwd sha (bs 2) (bs 3)) [
      | early e ↦ ap (λ r. r.1) e
      | compared sar found sized e ↦ ap (λ r. r.1) e
    ]

-- The first MESSAGE-INTEGRITY of a message holds the digest under a key of all bytes before it, with
-- the length field set to where the attribute ends.
abbrev pub IsSigned : Hmac → ShaType → List ℕ → Memory → ℕ → Type 0
IsSigned hmac sha key buf len =
    (sar : ℕ) × (get_first_by_type buf len attribute_message_integrity ≡ some sar)
    × (attr_len buf sar ≡ sha_size sha)
    × (hmac sha key (bytes (set_command_message_len buf (sar + 4 + sha_size sha)).0 0 sar)
        ≡ some (bytes buf (sar + 4) (sha_size sha)))

digest-accepted :
    (buf : Memory) (sar n : ℕ) (digest : List ℕ)
    → length digest ≡ n
    → compare_digest buf sar (some digest) ≡ some true
    → bytes buf (sar + 4) n ≡ digest
digest-accepted buf sar n digest sized e = elim (Option-cases (attr_value buf sar)) [
  | inl empty ↦ absurd (cc (rw (compare_digest, empty) at e))
  | inr (v, value) ↦
      let at_value : v ≡ sar + 4 = unfold attr_value in ground (arith, value) in
      rw (← sized, ← at_value)
        (same_digest-bytes buf v digest (ground (arith, rw (compare_digest, value) at e)))
]

IsSigned-accepted :
    (hmac : Hmac) (buf : Memory) (len : ℕ) (key : List ℕ) (sha : ShaType) (sar : ℕ)
    → IsTotal hmac sha
    → get_first_by_type buf len attribute_message_integrity ≡ some sar
    → attr_len buf sar ≡ sha_size sha
    → compare_digest buf sar
        (hmac sha key (bytes (set_command_message_len buf (sar + 4 + sha_size sha)).0 0 sar))
      ≡ some true
    → IsSigned hmac sha key buf len
IsSigned-accepted hmac buf len key sha sar total found sized e =
    let prefix = bytes (set_command_message_len buf (sar + 4 + sha_size sha)).0 0 sar in
    let (digest, made, long) = total key prefix in
    (
      sar,
      found,
      sized,
      made ∙ ap some (sym (digest-accepted buf sar (sha_size sha) digest long (rw made at e))),
    )

-- On a buffer of bytes, whatever it holds, stun_check_message_integrity_by_key_str returns 1 only for
-- a message whose first MESSAGE-INTEGRITY holds the digest, under the key of the credentials, of all
-- bytes before it, with the length field set to where the attribute ends; the digest of the type never
-- fails and has the size of the type.
pub check_integrity-IsSigned :
    (hmac : Hmac) (ct : Credential) (buf : Memory) (len : ℕ) (key : Memory) (pwd : List ℕ)
    (sha : ShaType)
    → IsTotal hmac sha
    → AllBytes buf
    → (check_integrity hmac ct buf len key pwd sha).0 ≡ some true
    → IsSigned hmac sha (integrity_key ct sha key pwd) buf len
check_integrity-IsSigned hmac ct buf len key pwd sha total bs accepted =
    elim (course hmac ct buf len key pwd sha (bs 2) (bs 3)) [
      | early e ↦ absurd (cc (accepted, ap (λ r. r.0) e))
      | compared sar found sized e ↦
          IsSigned-accepted hmac buf len (integrity_key ct sha key pwd) sha sar total found sized
            (sym (ap (λ r. r.0) e) ∙ accepted)
    ]
