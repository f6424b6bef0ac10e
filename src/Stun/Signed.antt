-- ===== src/Stun/Signed.antt =====
-- A message with MESSAGE-INTEGRITY against the check by the same key.
use webrtc_caller.Base.{
  ℕ, suc, ◌+◌, ◌-◌, ◌%◌, ◌≤◌, ◌<◌, ◌≡◌, refl, ap, ◌∙◌, fun_ext, true, false, none, some, List, [],
  ◌∷◌, ◌++◌, arith, ltb, ==-refl, length, get_or, Memory, copy, load16, bytes, AgreeOn,
  bytes-AgreeOn,
}
use mathlib.Core.List.{append-nil}
use webrtc_caller.Stun.Header.{
  header_length, max_message_size, command_message_len, set_command_message_len,
}
use webrtc_caller.Stun.Attr.{
  attr_type, attr_len, attr_value, padded, padding_of, added, add, get_first_by_type,
}
use webrtc_caller.Stun.Message.{Attribute, Holds, Represents, first_value}
use webrtc_caller.Stun.Walk.{get_first-cursor}
use webrtc_caller.Stun.Append.{Holds-append, appended, add-appended}
use webrtc_caller.Stun.Sealed.{find_from-past, cursor-cons}
use webrtc_caller.Stun.Integrity.{
  ShaType, sha1, sha256, sha384, sha512, sha_size, Credential, Hmac, integrity_key, from_list, sign,
  add_integrity, expected_size, same_digest, compare_digest, check_attribute, check_integrity,
  attribute_message_integrity,
}

-- The digest of a type never fails and has the size of the type.
abbrev pub IsTotal : Hmac → ShaType → Type 0
IsTotal hmac sha =
    (key message : List ℕ)
    → (digest : List ℕ) × (hmac sha key message ≡ some digest) × (length digest ≡ sha_size sha)

pub sha_size-range :
    (sha : ShaType) → (sha_size sha % 4 ≡ 0) × (20 ≤ sha_size sha) × (sha_size sha ≤ 64)
sha_size-range sha1 = (refl, omega arith, omega arith)
sha_size-range sha256 = (refl, omega arith, omega arith)
sha_size-range sha384 = (refl, omega arith, omega arith)
sha_size-range sha512 = (refl, omega arith, omega arith)

-- The length field is set and set back.
pub set_back :
    (buf : Memory) (n orig : ℕ)
    → buf 2 < 256
    → buf 3 < 256
    → orig ≡ load16 buf 2 + header_length
    → 20 ≤ n
    → (set_command_message_len (set_command_message_len buf n).0 orig).0 ≡ buf
unfolding set_command_message_len
set_back buf n orig two three e h = fun_ext (λ j. ground (arith, e, two, three, h))

pub check_integrity-found :
    (hmac : Hmac) (ct : Credential) (buf : Memory) (len : ℕ) (key : Memory) (pwd : List ℕ)
    (sha : ShaType) (sar orig : ℕ)
    → get_first_by_type buf len attribute_message_integrity ≡ some sar
    → attr_len buf sar ≡ sha_size sha
    → command_message_len buf len ≡ some orig
    → check_integrity hmac ct buf len key pwd sha
      ≡ check_attribute hmac ct buf key pwd sha sar (sha_size sha) orig
unfolding check_integrity check_attribute
check_integrity-found hmac ct buf len key pwd sha sar orig found sized whole =
    rw (check_integrity, found, expected_size, sized, ==-refl, whole) refl

pub check_attribute-compared :
    (hmac : Hmac) (ct : Credential) (buf key : Memory) (pwd : List ℕ) (sha : ShaType)
    (sar size orig : ℕ)
    → header_length ≤ sar
    → sar + 4 + size ≤ orig
    → check_attribute hmac ct buf key pwd sha sar size orig ≡ (
      compare_digest
          (set_command_message_len (set_command_message_len buf (sar + 4 + size)).0 orig).0
          sar
          (hmac sha
            (integrity_key ct sha key pwd)
            (bytes (set_command_message_len buf (sar + 4 + size)).0 0 sar)),
      (set_command_message_len (set_command_message_len buf (sar + 4 + size)).0 orig).0,
    )
unfolding check_attribute
check_attribute-compared hmac ct buf key pwd sha sar size orig low high =
    let fits : ltb orig (sar + 4 + size) ≡ false = ground (arith, high) in
    let ok : (set_command_message_len buf (sar + 4 + size)).1 ≡ true =
      unfold set_command_message_len in ground (arith, low) in
    let back : sar + 4 + size - 4 - size ≡ sar = omega arith in rw (fits, ok, back) refl

get_or-copied :
    (buf : Memory) (at : ℕ) (xs : List ℕ)
    → ((j : ℕ) → j < length xs → buf (at + j) ≡ get_or xs j 0)
    → same_digest buf at xs ≡ true
get_or-copied buf at [] h = refl
get_or-copied buf at (x ∷ xs) h =
    let head = h 0 (omega arith) in
    let tail = get_or-copied buf (at + 1) xs (λ j k.
      let e : at + 1 + j ≡ at + suc j = omega arith in rw e (h (suc j) (omega (arith, k)))) in
    ground (arith, head, tail)

module _ (hmac : Hmac) (sha : ShaType) (key : List ℕ) (digest : List ℕ) (buf : Memory) (len : ℕ)
    (scratch : Memory) (xs : List Attribute) (r : Represents buf len xs)
    (fits : len + 4 + sha_size sha < max_message_size) (sized : length digest ≡ sha_size sha) where
  abbrev size : ℕ
  size = sha_size sha

  plain : Memory
  plain = appended buf len attribute_message_integrity scratch size

  signed : Memory
  signed = copy plain (len + 4) (from_list digest) (length digest)

  no_padding : len + 4 + size + padding_of (len + 4 + size) ≡ len + 4 + size
  no_padding = ground (arith, r.aligned, sha_size-range sha)

  add-plain : add buf len attribute_message_integrity scratch size ≡ added plain (len + 4 + size)
  unfolding plain
  add-plain =
      add-appended buf len attribute_message_integrity scratch size r.header r.whole
        (rw no_padding (fits))
      ∙ ap (added (appended buf len attribute_message_integrity scratch size)) no_padding

  kept : AgreeOn buf signed header_length len
  unfolding signed plain
  kept j p q = ground arith

  length_field : load16 signed 2 ≡ len + 4 + size - 20
  unfolding signed plain
  length_field = ground (arith, no_padding, r.header, fits, sha_size-range sha)

  field_bytes : (signed 2 < 256) × (signed 3 < 256)
  unfolding signed plain
  field_bytes = (ground (arith, r.header), ground (arith, r.header))

  whole_signed : command_message_len signed (len + 4 + size) ≡ some (len + 4 + size)
  unfolding command_message_len
  whole_signed = rw length_field (ground (arith, r.header))

  type_signed : attr_type signed len ≡ attribute_message_integrity
  unfolding signed plain
  type_signed = ground arith

  len_signed : attr_len signed len ≡ size
  unfolding signed plain
  len_signed = ground (arith, sha_size-range sha)

  last : Attribute
  last = (attribute_message_integrity, bytes signed (len + 4) size)

  last_held : Holds signed (len + 4 + size) len (last ∷ [])
  unfolding last padded
  last_held =
      rw len_signed
        (ground (arith, sha_size-range sha), type_signed, refl, ground (arith, sha_size-range sha))

  xs_held : Holds signed len header_length xs
  xs_held =
      rw append-nil at
        (Holds-append buf signed len len header_length xs [] kept (omega arith) r.holds refl)

  signed-Represents : Represents signed (len + 4 + size) (xs ++ (last ∷ []))
  signed-Represents = record {
    whole = whole_signed;
    aligned = omega (arith, r.aligned, sha_size-range sha);
    header = omega (arith, r.header);
    holds =
        Holds-append buf signed len (len + 4 + size) header_length xs (last ∷ []) kept (omega arith)
          r.holds last_held;
  }

  found_signed :
      first_value xs attribute_message_integrity ≡ none
      → get_first_by_type signed (len + 4 + size) attribute_message_integrity ≡ some len
  unfolding get_first_by_type last
  found_signed absent =
      rw
        (
          get_first-cursor signed (len + 4 + size) (xs ++ (last ∷ [])) signed-Represents,
          cursor-cons,
        )
        (find_from-past (len + 4 + size) signed len (len + 4 + size) attribute_message_integrity
          header_length xs (bytes signed (len + 4) size) whole_signed xs_held last_held absent
          (omega arith))

  same_prefix : (n : ℕ) → n ≤ len → bytes signed 0 n ≡ bytes plain 0 n
  unfolding signed
  same_prefix n h = bytes-AgreeOn signed plain 0 n n (omega arith) (λ j p q. ground (arith, h, q))

  add_signed :
      (ct : Credential) (key_bytes : Memory) (pwd : List ℕ)
      → integrity_key ct sha key_bytes pwd ≡ key
      → hmac sha key (bytes plain 0 len) ≡ some digest
      → add_integrity hmac ct scratch len buf key_bytes pwd sha
        ≡ (true, added signed (len + 4 + size))
  unfolding add_integrity sign signed
  add_signed ct key_bytes pwd same made =
      let back : len + 4 + sha_size sha - 4 - sha_size sha ≡ len = omega arith in
      let start : len + 4 + sha_size sha - sha_size sha ≡ len + 4 = omega arith in
      rw (add-plain, same, sign, back, made, start) refl

  value_signed : attr_value signed len ≡ some (len + 4)
  unfolding attr_value
  value_signed = rw (len_signed, attr_value) (ground (arith, sha_size-range sha))

  compared : compare_digest signed len (some digest) ≡ some true
  compared =
      rw (compare_digest, value_signed)
        (ap some
          (get_or-copied signed (len + 4) digest (λ j h. unfold signed in ground (arith, h))))

  restored :
      (set_command_message_len
        (set_command_message_len signed (len + 4 + size)).0
        (len + 4 + size)).0
      ≡ signed
  restored =
      set_back signed (len + 4 + size) (len + 4 + size) field_bytes.0 field_bytes.1
        (rw length_field (ground (arith, r.header))) (ground (arith, r.header))

  set_same : (set_command_message_len signed (len + 4 + size)).0 ≡ signed
  unfolding set_command_message_len
  set_same = fun_ext (λ j. ground (arith, length_field, field_bytes, r.header))

  check_signed :
      (ct : Credential) (key_bytes : Memory) (pwd : List ℕ)
      → first_value xs attribute_message_integrity ≡ none
      → integrity_key ct sha key_bytes pwd ≡ key
      → hmac sha key (bytes plain 0 len) ≡ some digest
      → check_integrity hmac ct signed (len + 4 + size) key_bytes pwd sha ≡ (some true, signed)
  check_signed ct key_bytes pwd absent same made =
      check_integrity-found hmac ct signed (len + 4 + size) key_bytes pwd sha len (len + 4 + size)
        (found_signed absent) len_signed whole_signed
      ∙ check_attribute-compared hmac ct signed key_bytes pwd sha len size (len + 4 + size) r.header
          (omega arith)
      ∙ rw (set_same, set_same, same, same_prefix len (omega arith), made, compared) refl

-- To a message of the attributes `xs` that has no MESSAGE-INTEGRITY and leaves room for one,
-- stun_attr_add_integrity_str adds it, whatever the array of the digest holds before, and the check by
-- the same credentials accepts the result and leaves it as it is, where the digest of the type never
-- fails and has the size of the type.
pub check_integrity-add_integrity :
    (hmac : Hmac) (ct : Credential) (scratch : Memory) (len : ℕ) (buf : Memory) (key : Memory)
    (pwd : List ℕ) (sha : ShaType) (xs : List Attribute)
    → IsTotal hmac sha
    → Represents buf len xs
    → first_value xs attribute_message_integrity ≡ none
    → len + 4 + sha_size sha < max_message_size
    → (buf' : Memory) × (add_integrity hmac ct scratch len buf key pwd sha
        ≡ (true, added buf' (len + 4 + sha_size sha)))
      × (check_integrity hmac ct buf' (len + 4 + sha_size sha) key pwd sha ≡ (some true, buf'))
      × Represents buf'
          (len + 4 + sha_size sha)
          (xs ++ ((attribute_message_integrity, bytes buf' (len + 4) (sha_size sha)) ∷ []))
check_integrity-add_integrity hmac ct scratch len buf key pwd sha xs total r absent fits =
    let k = integrity_key ct sha key pwd in
    let prefix =
      bytes (appended buf len attribute_message_integrity scratch (sha_size sha)) 0 len in
    let (digest, made, sized) = total k prefix in
    (
      signed hmac sha k digest buf len scratch xs r fits sized,
      add_signed hmac sha k digest buf len scratch xs r fits sized ct key pwd refl
          (unfold plain in made),
      check_signed hmac sha k digest buf len scratch xs r fits sized ct key pwd absent refl
          (unfold plain in made),
      unfold last in signed-Represents hmac sha k digest buf len scratch xs r fits sized,
    )
