-- ===== src/Stun/Append.antt =====
-- stun_attr_add_str against the list of the attributes.
use webrtc_caller.Base.{
  ℕ, ◌+◌, ◌-◌, ◌%◌, ◌≤◌, ◌<◌, ◌≡◌, refl, sym, ◌∙◌, ◌⊎◌, inl, inr, none, some, List, [], ◌∷◌, ◌++◌,
  arith, leb, if◌then◌else◌, Option-cases, lt-cases, Memory, u16, store16, bytes, AgreeOn,
  bytes-AgreeOn, bytes-shift,
}
use webrtc_caller.Stun.Header.{
  header_length, max_message_size, command_message_len, set_command_message_len,
}
use webrtc_caller.Stun.Attr.{
  attr_type, attr_len, padded, padding_of, write_attr, Added, added, refused, add,
}
use webrtc_caller.Stun.Message.{Attribute, attr_end, Holds, Represents}
use mathlib.Core.Path.{subst₂}
use webrtc_caller.Stun.Walk.{padded-le, command_message_len-le}

-- A list that the buffer holds up to `end` goes on with what another buffer, the same up to there,
-- holds from there.
pub Holds-append :
    (buf buf' : Memory) (end end' a : ℕ) (xs ys : List Attribute)
    → AgreeOn buf buf' a end
    → end ≤ end'
    → Holds buf end a xs
    → Holds buf' end' end ys
    → Holds buf' end' a (xs ++ ys)
Holds-append buf buf' end end' a [] ys same le h k = rw h k
Holds-append buf buf' end end' a ((t, v) ∷ xs) ys same le (fits, ty, value, rest) k =
    let len_eq : attr_len buf a ≡ attr_len buf' a = omega (
      arith,
      same (a + 2) (omega arith) (omega arith),
      same (a + 2 + 1) (omega arith) (omega arith),
    ) in
    let type_eq : attr_type buf a ≡ attr_type buf' a =
      omega (arith, same a (omega arith) (omega arith), same (a + 1) (omega arith) (omega arith)) in
    let value_in : a + 4 + attr_len buf a ≤ end = omega (arith, padded-le (attr_len buf a)) in
    (
      rw (← len_eq) (omega arith),
      sym type_eq ∙ ty,
      rw
          (
            ← len_eq,
            ← bytes-AgreeOn buf buf' (a + 4) (attr_len buf a) end value_in
                (λ j p q. same j (omega arith) q),
          )
          value,
      rw (← len_eq) (
          Holds-append buf buf' end end' (attr_end buf a) xs ys (λ j p q. same j (omega arith) q) le
            rest k),
    )

-- The buffer that an addition at `len` makes, of `newlen` bytes.
abbrev pub appended : Memory → ℕ → ℕ → Memory → ℕ → Memory
appended buf len ty value alen =
    write_attr (store16 buf 2 (u16 (len + 4 + alen + padding_of (len + 4 + alen) - header_length)))
      len ty value alen (padding_of (len + 4 + alen))

module _ (buf : Memory) (len ty : ℕ) (value : Memory) (alen : ℕ) (aligned : len % 4 ≡ 0)
    (header : header_length ≤ len) (ty_small : ty < 0x1_0000)
    (fits : len + 4 + alen + padding_of (len + 4 + alen) < max_message_size) where
  buf' : Memory
  buf' = appended buf len ty value alen

  newlen : ℕ
  newlen = len + 4 + alen + padding_of (len + 4 + alen)

  kept : AgreeOn buf buf' header_length len
  unfolding buf'
  kept j p q = ground arith

  type_written : attr_type buf' len ≡ ty
  unfolding buf'
  type_written = ground arith

  len_written : attr_len buf' len ≡ alen
  unfolding buf'
  len_written = ground arith

  value_written : bytes buf' (len + 4) alen ≡ bytes value 0 alen
  unfolding buf'
  value_written = bytes-shift buf' value (len + 4) 0 alen (λ j h. ground arith)

  whole_written : command_message_len buf' newlen ≡ some newlen
  unfolding buf' newlen command_message_len
  whole_written = ground arith

  end_written : attr_end buf' len ≡ newlen
  unfolding newlen padded
  end_written = rw len_written (ground arith)

  appended-Represents :
      (xs : List Attribute)
      → Represents buf len xs
      → Represents buf' newlen (xs ++ ((ty, bytes value 0 alen) ∷ []))
  appended-Represents xs r = record {
    whole = whole_written;
    aligned = unfold newlen in ground arith;
    header = unfold newlen in omega arith;
    holds =
        Holds-append buf buf' len newlen header_length xs ((ty, bytes value 0 alen) ∷ []) kept
          (unfold newlen in omega arith) r.holds
          (rw (end_written, len_written) (omega arith, type_written, value_written, refl));
  }

add_bounds-absent {ℓ} :
    {P : Type ℓ} (buf : Memory) (len ty : ℕ) (value : Memory) (alen : ℕ) (buf' : Memory) (len' : ℕ)
    → command_message_len buf len ≡ none
    → add buf len ty value alen ≡ added buf' len'
    → P
unfolding add
add_bounds-absent buf len ty value alen buf' len' absent e =
    absurd (ground (arith, rw (absent, add) at e))

abbrev IsBounded : Memory → ℕ → Memory → ℕ → Type 0
IsBounded buf j buf' len' =
    (len' < max_message_size)
    × (len' % 4 ≡ 0)
    × (command_message_len buf' len' ≡ some len')
    × (buf' j ≡ buf j)

appended-IsBounded :
    (buf : Memory) (n ty : ℕ) (value : Memory) (alen j : ℕ)
    → header_length ≤ n
    → n + 4 + alen + padding_of (n + 4 + alen) < max_message_size
    → n + 4 + alen + padding_of (n + 4 + alen) ≤ j
    → IsBounded buf j (appended buf n ty value alen) (n + 4 + alen + padding_of (n + 4 + alen))
unfolding command_message_len
appended-IsBounded buf n ty value alen j header fits h =
    (fits, ground arith, ground arith, ground arith)

add_bounds-present :
    (buf : Memory) (len ty : ℕ) (value : Memory) (alen : ℕ) (buf' : Memory) (len' j n : ℕ)
    → header_length ≤ n
    → command_message_len buf len ≡ some n
    → add buf len ty value alen ≡ added buf' len'
    → len' ≤ j
    → IsBounded buf j buf' len'
unfolding add set_command_message_len
add_bounds-present buf len ty value alen buf' len' j n header present e h =
    go (lt-cases (n + 4 + alen + padding_of (n + 4 + alen)) max_message_size)
      (rw (present, add) at e)
  where
    outcome : Added
    outcome =
        if leb max_message_size (n + 4 + alen + padding_of (n + 4 + alen))
        then refused
        else added
            (write_attr (set_command_message_len buf (n + 4 + alen + padding_of (n + 4 + alen))).0 n
              ty value alen (padding_of (n + 4 + alen)))
            (n + 4 + alen + padding_of (n + 4 + alen))

    go :
        (n + 4 + alen + padding_of (n + 4 + alen) < max_message_size)
          ⊎ (max_message_size ≤ n + 4 + alen + padding_of (n + 4 + alen))
        → outcome ≡ added buf' len'
        → IsBounded buf j buf' len'
    go (inr long) k = absurd (ground arith)
    go (inl fits) k =
        let made : added (appended buf n ty value alen) (n + 4 + alen + padding_of (n + 4 + alen))
            ≡ added buf' len' =
          ground arith in
        let same_len : n + 4 + alen + padding_of (n + 4 + alen) ≡ len' = cc in
        let same_buf : appended buf n ty value alen ≡ buf' = cc in
        subst₂ (IsBounded buf j) same_buf same_len
          (appended-IsBounded buf n ty value alen j header fits (omega arith))

pub add-appended :
    (buf : Memory) (len ty : ℕ) (value : Memory) (alen : ℕ)
    → header_length ≤ len
    → command_message_len buf len ≡ some len
    → len + 4 + alen + padding_of (len + 4 + alen) < max_message_size
    → add buf len ty value alen
      ≡ added (appended buf len ty value alen) (len + 4 + alen + padding_of (len + 4 + alen))
unfolding add set_command_message_len
add-appended buf len ty value alen header whole fits = rw (whole, add) (ground arith)

-- On a message of the attributes `xs` stun_attr_add_str appends the attribute with its value, where
-- the new length, rounded up, stays below the largest one: the result is a message of one more.
pub add_refines :
    (buf : Memory) (len ty : ℕ) (value : Memory) (alen : ℕ) (xs : List Attribute)
    → Represents buf len xs
    → ty < 0x1_0000
    → len + 4 + alen + padding_of (len + 4 + alen) < max_message_size
    → (buf' : Memory) × (len' : ℕ) × (add buf len ty value alen ≡ added buf' len')
      × Represents buf' len' (xs ++ ((ty, bytes value 0 alen) ∷ []))
add_refines buf len ty value alen xs r small fits = (
  buf' buf len ty value alen r.aligned r.header small fits,
  newlen buf len ty value alen r.aligned r.header small fits,
  unfold buf' newlen in add-appended buf len ty value alen r.header r.whole fits,
  appended-Represents buf len ty value alen r.aligned r.header small fits xs r,
)

-- On any buffer, whatever it holds: when stun_attr_add_str returns true, the new length is a multiple
-- of four below the largest one, the length field states it, and no byte behind it is written.
pub add_bounds :
    (buf : Memory) (len ty : ℕ) (value : Memory) (alen : ℕ) (buf' : Memory) (len' j : ℕ)
    → add buf len ty value alen ≡ added buf' len'
    → len' ≤ j
    → (len' < max_message_size)
      × (len' % 4 ≡ 0)
      × (command_message_len buf' len' ≡ some len')
      × (buf' j ≡ buf j)
add_bounds buf len ty value alen buf' len' j e h =
    split (Option-cases (command_message_len buf len))
  where
    split :
        (command_message_len buf len ≡ none) ⊎ ((n : ℕ) × (command_message_len buf len ≡ some n))
        → (len' < max_message_size)
          × (len' % 4 ≡ 0)
          × (command_message_len buf' len' ≡ some len')
          × (buf' j ≡ buf j)
    split (inl absent) = add_bounds-absent buf len ty value alen buf' len' absent e
    split (inr (n, present)) =
        add_bounds-present buf len ty value alen buf' len' j n
          (command_message_len-le buf len n present).0 present e h
