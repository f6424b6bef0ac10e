-- ===== src/Stun/Sealed.antt =====
-- The full check of a message with a fingerprint.
use webrtc_caller.Base.{
  ℕ, zero, suc, ◌+◌, ◌-◌, ◌≤◌, ◌<◌, bit_xor, ◌≡◌, refl, ap, ◌∙◌, ◌≢◌, Bool, true, false, none, some,
  List, [], ◌∷◌, ◌++◌, arith, ◌==◌, ==_iff, Memory, u32, zeros, load16, load32, store32, bytes,
  AgreeOn,
}
use mathlib.Core.List.{append-nil}
use webrtc_caller.Stun.Header.{
  header_length, max_message_size, command_message_len, is_command_message,
}
use webrtc_caller.Stun.Attr.{
  attr_type, attr_len, attr_value, padded, padding_of, added, add, next_from, find_from,
  get_first_by_type,
}
use webrtc_caller.Stun.Message.{Attribute, attr_end, Holds, Represents, first_value}
use webrtc_caller.Stun.Walk.{cursor, find_from-some, next_from-cursor, get_first-cursor}
use webrtc_caller.Stun.Append.{Holds-append, appended, add-appended}
use webrtc_caller.Stun.Crc.{crc32, crc32-AgreeOn}
use webrtc_caller.Stun.Fingerprint.{
  attribute_fingerprint, fingerprint_xor, seal, add_fingerprint, check_fingerprint, full_check,
}

pub Holds-le : (buf : Memory) (end a : ℕ) (xs : List Attribute) → Holds buf end a xs → a ≤ end
Holds-le buf end a [] h = omega arith
Holds-le buf end a ((t, v) ∷ xs) h = omega (arith, h.0)

pub cursor-cons : (a : ℕ) (xs : List Attribute) (x : Attribute) → cursor a (xs ++ (x ∷ [])) ≡ some a
cursor-cons a [] x = refl
cursor-cons a (y ∷ xs) x = refl

miss :
    (t : ℕ) (x : List ℕ) (xs : List Attribute) (ty : ℕ)
    → first_value ((t, x) ∷ xs) ty ≡ none
    → (t == ty) ≡ false
unfolding first_value
miss t x xs ty e = ground arith

first_value-tail :
    (t : ℕ) (x : List ℕ) (xs : List Attribute) (ty : ℕ)
    → first_value ((t, x) ∷ xs) ty ≡ none
    → first_value xs ty ≡ none
unfolding first_value
first_value-tail t x xs ty e = ground arith

-- The walk passes the attributes of other types, up to `mid`, and finds the one that stands there.
pub find_from-past :
    (fuel : ℕ) (buf : Memory) (mid len ty a : ℕ) (xs : List Attribute) (v : List ℕ)
    → command_message_len buf len ≡ some len
    → Holds buf mid a xs
    → Holds buf len mid ((ty, v) ∷ [])
    → first_value xs ty ≡ none
    → len < a + fuel
    → find_from fuel buf len ty (some a) ≡ some mid
find_from-past zero buf mid len ty a xs v w h k e f =
    absurd (omega (arith, Holds-le buf mid a xs h))
find_from-past (suc fuel) buf mid len ty a [] v w h k e f =
    rw (find_from-some, h, k.1) (ground arith)
find_from-past (suc fuel) buf mid len ty a ((t, x) ∷ xs) v w (fits, same, value, rest) k e f =
    rw (find_from-some, same, miss t x xs ty e, past xs rest)
      (find_from-past fuel buf mid len ty (attr_end buf a) xs v w rest k
        (first_value-tail t x xs ty e) (omega arith))
  where
    past :
        (xs : List Attribute)
        → Holds buf mid (attr_end buf a) xs
        → next_from buf len a ≡ some (attr_end buf a)
    past xs rest =
        next_from-cursor buf len a (xs ++ ((ty, v) ∷ [])) w (
          Holds-append buf buf mid len (attr_end buf a) xs ((ty, v) ∷ []) (λ j p q. refl)
            (omega (arith, k.0)) rest k)
        ∙ cursor-cons (attr_end buf a) xs (ty, v)

module _ (buf : Memory) (len : ℕ) (xs : List Attribute) (r : Represents buf len xs)
    (fits : len + 8 < max_message_size) where
  plain : Memory
  plain = appended buf len attribute_fingerprint zeros 4

  sum : ℕ
  sum = u32 (bit_xor (crc32 plain len) fingerprint_xor)

  sealed : Memory
  sealed = store32 plain (len + 4) sum

  no_padding : len + 4 + 4 + padding_of (len + 4 + 4) ≡ len + 8
  no_padding = ground (arith, r.aligned)

  add-plain : add buf len attribute_fingerprint zeros 4 ≡ added plain (len + 8)
  unfolding plain
  add-plain =
      add-appended buf len attribute_fingerprint zeros 4 r.header r.whole (rw no_padding fits)
      ∙ ap (added (appended buf len attribute_fingerprint zeros 4)) no_padding

  seal-plain : seal (added plain (len + 8)) ≡ added sealed (len + 8)
  unfolding seal sealed sum
  seal-plain =
      let four : len + 8 - 4 ≡ len + 4 = omega arith in
      let eight : len + 8 - 8 ≡ len = omega arith in rw (four, eight)

  add_sealed : add_fingerprint buf len ≡ added sealed (len + 8)
  unfolding add_fingerprint
  add_sealed = ap seal add-plain ∙ seal-plain

  kept : AgreeOn buf sealed header_length len
  unfolding sealed plain
  kept j p q = ground arith

  same_summed : AgreeOn plain sealed 0 len
  unfolding sealed
  same_summed j p q = ground arith

  length_field : load16 sealed 2 ≡ len + 8 - 20
  unfolding sealed plain
  length_field = ground (arith, r.aligned, r.header)

  whole_sealed : command_message_len sealed (len + 8) ≡ some (len + 8)
  unfolding command_message_len
  whole_sealed = rw length_field (ground (arith, r.header))

  type_sealed : attr_type sealed len ≡ attribute_fingerprint
  unfolding sealed plain
  type_sealed = ground arith

  len_sealed : attr_len sealed len ≡ 4
  unfolding sealed plain
  len_sealed = ground arith

  sum-lt : sum < 0x1_0000_0000
  unfolding sum
  sum-lt = omega arith

  sum-sealed : load32 sealed (len + 4) ≡ sum
  unfolding sealed
  sum-sealed = ground (arith, sum-lt)

  -- The attribute that stands behind those of `xs`.
  last : Attribute
  last = (attribute_fingerprint, bytes sealed (len + 4) 4)

  last_held : Holds sealed (len + 8) len (last ∷ [])
  unfolding last padded
  last_held = rw len_sealed (omega arith, type_sealed, refl, omega arith)

  xs_held : Holds sealed len header_length xs
  xs_held =
      rw append-nil at
        (Holds-append buf sealed len len header_length xs [] kept (omega arith) r.holds refl)

  sealed-Represents : Represents sealed (len + 8) (xs ++ (last ∷ []))
  sealed-Represents = record {
    whole = whole_sealed;
    aligned = omega (arith, r.aligned);
    header = omega (arith, r.header);
    holds =
        Holds-append buf sealed len (len + 8) header_length xs (last ∷ []) kept (omega arith)
          r.holds last_held;
  }

  found_sealed :
      first_value xs attribute_fingerprint ≡ none
      → get_first_by_type sealed (len + 8) attribute_fingerprint ≡ some len
  unfolding get_first_by_type last
  found_sealed absent =
      rw (get_first-cursor sealed (len + 8) (xs ++ (last ∷ [])) sealed-Represents, cursor-cons)
        (find_from-past (len + 8) sealed len (len + 8) attribute_fingerprint header_length xs
          (bytes sealed (len + 4) 4) whole_sealed xs_held last_held absent (omega arith))

  low_kept : (j : ℕ) → j < 20 → j ≢ 2 → j ≢ 3 → sealed j ≡ buf j
  unfolding sealed plain
  low_kept j small not_two not_three = ground (arith, r.header)

  command_sealed : is_command_message buf len ≡ true → is_command_message sealed (len + 8) ≡ true
  unfolding is_command_message
  command_sealed h =
      rw
        (
          length_field,
          low_kept 0 (omega arith) (omega arith) (omega arith),
          low_kept 1 (omega arith) (omega arith) (omega arith),
          low_kept 4 (omega arith) (omega arith) (omega arith),
          low_kept 5 (omega arith) (omega arith) (omega arith),
          low_kept 6 (omega arith) (omega arith) (omega arith),
          low_kept 7 (omega arith) (omega arith) (omega arith),
        )
        (ground (arith, r.aligned, r.header))

  summed : load32 sealed (len + 4) ≡ u32 (bit_xor (crc32 sealed (len + 4 - 4)) fingerprint_xor)
  unfolding sum
  summed =
      let back : len + 4 - 4 ≡ len = omega arith in
      rw (back, ← crc32-AgreeOn plain sealed len same_summed) sum-sealed

  check_sealed :
      (must_check : Bool) → check_fingerprint sealed (len + 8) must_check len ≡ (true, some true)
  unfolding check_fingerprint attr_value
  check_sealed must_check = rw len_sealed (rw ((==_iff _ _).1 summed))

-- To a command message of the attributes `xs` that has no FINGERPRINT and leaves room for one,
-- stun_attr_add_fingerprint_str adds it, and the full check of the result accepts it and reports that
-- the fingerprint is there.
pub full_check-add_fingerprint :
    (buf : Memory) (len : ℕ) (xs : List Attribute) (must_check : Bool)
    → Represents buf len xs
    → is_command_message buf len ≡ true
    → first_value xs attribute_fingerprint ≡ none
    → len + 8 < max_message_size
    → (buf' : Memory) × (add_fingerprint buf len ≡ added buf' (len + 8))
      × (full_check buf' (len + 8) must_check ≡ (true, some true))
unfolding full_check
full_check-add_fingerprint buf len xs must_check r command absent fits = (
  sealed buf len xs r fits,
  add_sealed buf len xs r fits,
  rw (command_sealed buf len xs r fits command, found_sealed buf len xs r fits absent)
      (check_sealed buf len xs r fits must_check),
)
