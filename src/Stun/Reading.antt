-- ===== src/Stun/Reading.antt =====
-- The readers of simple attributes on the messages that the adders make.
use webrtc_caller.Base.{
  ℕ, zero, suc, ◌+◌, ◌≡◌, refl, sym, ap, ◌∙◌, ◌⊎◌, inl, inr, Bool, true, false, Option, none, some,
  List, [], ◌∷◌, arith, if◌then◌else◌, length, Memory, bytes,
}
use webrtc_caller.Stun.Attr.{attr_len, attr_value, get_first_by_type, added}
use webrtc_caller.Stun.Message.{Attribute, first_value, value_at}
use webrtc_caller.Stun.Walk.{get_first_by_type_refines}
use webrtc_caller.Stun.Request.{
  attribute_even_port, attribute_requested_address_family, even_port, requested_address_family,
  set_allocate_request,
}
use webrtc_caller.Stun.Allocate.{token_part, request_parts, set_allocate_request_refines}

pub length-bytes : (a : Memory) (i n : ℕ) → length (bytes a i n) ≡ n
length-bytes a i zero = refl
length-bytes a i (suc n) = ap suc (length-bytes a (i + 1) n)

bytes-cons :
    (a : Memory) (i n x : ℕ) (xs : List ℕ)
    → bytes a i n ≡ x ∷ xs
    → (a i ≡ x) × (n ≡ suc (length xs))
bytes-cons a i zero x xs e = cc
bytes-cons a i (suc n) x xs e =
    let head : a i ≡ x = cc in
    let tail : bytes a (i + 1) n ≡ xs = cc in
    (head, ap suc (sym (length-bytes a (i + 1) n) ∙ ap length tail))

-- What is known of an attribute that has a value with a first byte.
found-cons :
    (buf : Memory) (o : Option ℕ) (x : ℕ) (xs : List ℕ)
    → value_at buf o ≡ some (x ∷ xs)
    → (a : ℕ) × (o ≡ some a) × (buf (a + 4) ≡ x) × (attr_len buf a ≡ suc (length xs))
found-cons buf none x xs e = cc
found-cons buf (some a) x xs e =
    let value : bytes buf (a + 4) (attr_len buf a) ≡ x ∷ xs = cc in
    let (head, len) = bytes-cons buf (a + 4) (attr_len buf a) x xs value in (a, refl, head, len)

found-none : (buf : Memory) (o : Option ℕ) → value_at buf o ≡ none → o ≡ none
found-none buf none e = refl
found-none buf (some a) e = cc

-- What a server should read of the two attributes.
abbrev pub asked_even_port : Option Bool → ℕ
asked_even_port (some true) = 1
asked_even_port (some false) = 0
asked_even_port none = 0

abbrev pub asked_family : Option Memory → Bool → Bool → ℕ
asked_family none true false = 1
asked_family none false true = 2
asked_family none true true = 0
asked_family none false false = 0
asked_family (some rt) af4 af6 = 0

even_port_value : Option Bool → Option (List ℕ)
even_port_value none = none
even_port_value (some ep) = some ((if ep then 0x80 else 0) ∷ [])

family_value : Option Memory → Bool → Bool → Option (List ℕ)
family_value none true false = some (1 ∷ 0 ∷ 0 ∷ 0 ∷ [])
family_value none false true = some (2 ∷ 0 ∷ 0 ∷ 0 ∷ [])
family_value none true true = none
family_value none false false = none
family_value (some rt) af4 af6 = none

token_part-even_port :
    (rt : Option Memory) (af4 af6 : Bool)
    → first_value (token_part rt af4 af6) attribute_even_port ≡ none
unfolding first_value
token_part-even_port none true true = refl
token_part-even_port none true false = refl
token_part-even_port none false true = refl
token_part-even_port none false false = refl
token_part-even_port (some rt) af4 af6 = refl

token_part-family :
    (rt : Option Memory) (af4 af6 : Bool)
    → first_value (token_part rt af4 af6) attribute_requested_address_family
      ≡ family_value rt af4 af6
unfolding first_value family_value
token_part-family none true true = refl
token_part-family none true false = refl
token_part-family none false true = refl
token_part-family none false false = refl
token_part-family (some rt) af4 af6 = refl

module _ (lifetime : ℕ) (af4 af6 : Bool) (transport : ℕ) (mobile : Bool) (rt : Option Memory)
    (ep : Option Bool) where
  abbrev parts : List Attribute
  parts = request_parts lifetime af4 af6 transport mobile rt ep

  first_value-even_port : first_value parts attribute_even_port ≡ even_port_value ep
  unfolding first_value even_port_value
  first_value-even_port = go mobile ep
    where
      go :
          (m : Bool) (e : Option Bool)
          → first_value (request_parts lifetime af4 af6 transport m rt e) attribute_even_port
            ≡ even_port_value e
      go true none = token_part-even_port rt af4 af6
      go true (some e) = refl
      go false none = token_part-even_port rt af4 af6
      go false (some e) = refl

  first_value-family :
      first_value parts attribute_requested_address_family ≡ family_value rt af4 af6
  unfolding first_value
  first_value-family = go mobile ep
    where
      go :
          (m : Bool) (e : Option Bool)
          → first_value
              (request_parts lifetime af4 af6 transport m rt e)
              attribute_requested_address_family
            ≡ family_value rt af4 af6
      go true none = token_part-family rt af4 af6
      go true (some e) = token_part-family rt af4 af6
      go false none = token_part-family rt af4 af6
      go false (some e) = token_part-family rt af4 af6

even_port-read :
    (buf : Memory) (o : Option ℕ) (ep : Option Bool)
    → value_at buf o ≡ even_port_value ep
    → even_port buf o ≡ asked_even_port ep
unfolding even_port attr_value even_port_value
even_port-read buf o none e = rw (found-none buf o e, even_port) refl
even_port-read buf o (some true) e =
    let (a, at, head, len) = found-cons buf o 0x80 [] e in ground (arith, at, head, len)
even_port-read buf o (some false) e =
    let (a, at, head, len) = found-cons buf o 0 [] e in ground (arith, at, head, len)

family-read-some :
    (buf : Memory) (o : Option ℕ) (f : ℕ)
    → (f ≡ 1) ⊎ (f ≡ 2)
    → value_at buf o ≡ some (f ∷ 0 ∷ 0 ∷ 0 ∷ [])
    → requested_address_family buf o ≡ some f
unfolding requested_address_family
family-read-some buf o f c e =
    let (a, at, head, len) = found-cons buf o f (0 ∷ 0 ∷ 0 ∷ []) e in
    ground (arith, at, head, len, c)

family-read-none :
    (buf : Memory) (o : Option ℕ) → value_at buf o ≡ none → requested_address_family buf o ≡ some 0
unfolding requested_address_family
family-read-none buf o e = rw (found-none buf o e, requested_address_family) refl

family-read :
    (buf : Memory) (o : Option ℕ) (rt : Option Memory) (af4 af6 : Bool)
    → value_at buf o ≡ family_value rt af4 af6
    → requested_address_family buf o ≡ some (asked_family rt af4 af6)
unfolding family_value
family-read buf o none true false e = family-read-some buf o 1 (inl refl) e
family-read buf o none false true e = family-read-some buf o 2 (inr refl) e
family-read buf o none true true e = family-read-none buf o e
family-read buf o none false false e = family-read-none buf o e
family-read buf o (some rt) af4 af6 e = family-read-none buf o e

-- From an allocate request a server reads the even-port flag and the address family that the client
-- asked for: the flag is 1 exactly where it was set, and the family is the one of the two that was
-- asked for alone, without a reservation token, and else the default.
pub set_allocate_request_round_trip :
    (random_tid buf : Memory) (lifetime : ℕ) (af4 af6 : Bool) (transport : ℕ) (mobile : Bool)
    (rt : Option Memory) (ep : Option Bool)
    → (m : Memory) × (len : ℕ) × (set_allocate_request random_tid buf lifetime af4 af6 transport
          mobile rt ep
        ≡ added m len)
      × (even_port m (get_first_by_type m len attribute_even_port) ≡ asked_even_port ep)
      × (requested_address_family m (get_first_by_type m len attribute_requested_address_family)
          ≡ some (asked_family rt af4 af6))
set_allocate_request_round_trip random_tid buf lifetime af4 af6 transport mobile rt ep =
    let xs = request_parts lifetime af4 af6 transport mobile rt ep in
    let (m, len, e, r) =
      set_allocate_request_refines random_tid buf lifetime af4 af6 transport mobile rt ep in
    (
      m,
      len,
      e,
      even_port-read m (get_first_by_type m len attribute_even_port) ep (
          get_first_by_type_refines m len attribute_even_port xs r
          ∙ first_value-even_port lifetime af4 af6 transport mobile rt ep),
      family-read m (get_first_by_type m len attribute_requested_address_family) rt af4 af6 (
          get_first_by_type_refines m len attribute_requested_address_family xs r
          ∙ first_value-family lifetime af4 af6 transport mobile rt ep),
    )
