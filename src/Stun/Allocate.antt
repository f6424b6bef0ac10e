-- ===== src/Stun/Allocate.antt =====
-- The attributes of an allocate request, and the bounds of its lifetime.
use webrtc_caller.Base.{
  ℕ, ◌+◌, ◌≤◌, ◌<◌, min, ◌≡◌, refl, sym, Bool, true, false, Option, none, some, List, [], ◌∷◌, ◌++◌,
  arith, ltb, leb, ◌==◌, if◌then◌else◌, Memory, zeros, store32, bytes,
}
use mathlib.Core.Path.{subst}
use mathlib.Core.List.{append-nil}
use webrtc_caller.Stun.Types.{request, type_of}
use webrtc_caller.Stun.Header.{header_length, max_message_size, init_request}
use webrtc_caller.Stun.Attr.{Added, added, add, padding_of}
use webrtc_caller.Stun.Message.{Attribute, Represents}
use webrtc_caller.Stun.Append.{add_refines}
use webrtc_caller.Stun.Start.{init_command_round_trip}
use webrtc_caller.Stun.Request.{
  method_allocate, attribute_lifetime, attribute_requested_address_family, attribute_even_port,
  attribute_requested_transport, attribute_reservation_token, attribute_additional_address_family,
  attribute_mobility_ticket, default_allocate_lifetime, adjust_allocate_lifetime, field_of,
  then_add, then_try, add_mobility, add_even_port, add_families, add_token, set_allocate_request,
}

-- A message of the attributes, of at most `k` bytes.
abbrev pub Sent : Added → List Attribute → ℕ → Type 0
Sent m xs k = (buf : Memory) × (len : ℕ) × (m ≡ added buf len) × Represents buf len xs × (len ≤ k)

add-len :
    (buf : Memory) (len ty : ℕ) (value : Memory) (alen : ℕ) (xs : List Attribute) (buf' : Memory)
    (len' : ℕ)
    → Represents buf len xs
    → add buf len ty value alen ≡ added buf' len'
    → len' ≤ len + alen + 7
unfolding add
add-len buf len ty value alen xs buf' len' r e = ground (arith, r.whole, e)

pub padding_of-small : (n : ℕ) → padding_of n < 4
padding_of-small n = ground arith

Sent-add :
    (buf : Memory) (len ty : ℕ) (value : Memory) (alen k : ℕ) (xs : List Attribute)
    → Represents buf len xs
    → len ≤ k
    → ty < 0x1_0000
    → k + alen + 8 < max_message_size
    → Sent (add buf len ty value alen) (xs ++ ((ty, bytes value 0 alen) ∷ [])) (k + alen + 7)
Sent-add buf len ty value alen k xs r h small room =
    let (buf', len', e, r') =
      add_refines buf len ty value alen xs r small
        (omega (arith, padding_of-small (len + 4 + alen))) in
    let bound = add-len buf len ty value alen xs buf' len' r e in (buf', len', e, r', omega arith)

Sent-then_add :
    (m : Added) (ty : ℕ) (value : Memory) (alen k : ℕ) (xs : List Attribute)
    → Sent m xs k
    → ty < 0x1_0000
    → k + alen + 8 < max_message_size
    → Sent (then_add m ty value alen) (xs ++ ((ty, bytes value 0 alen) ∷ [])) (k + alen + 7)
unfolding then_add
Sent-then_add m ty value alen k xs (buf, len, e, r, h) small room =
    rw e (Sent-add buf len ty value alen k xs r h small room)

Sent-then_try :
    (m : Added) (ty : ℕ) (value : Memory) (alen k : ℕ) (xs : List Attribute)
    → Sent m xs k
    → ty < 0x1_0000
    → k + alen + 8 < max_message_size
    → Sent (then_try m ty value alen) (xs ++ ((ty, bytes value 0 alen) ∷ [])) (k + alen + 7)
unfolding then_try
Sent-then_try m ty value alen k xs (buf, len, e, r, h) small room =
    let (buf', len', e', r', h') = Sent-add buf len ty value alen k xs r h small room in
    (buf', len', ground (arith, e, e'), r', h')

-- The attributes that each step writes, from its options.
abbrev pub mobility_part : Bool → List Attribute
mobility_part true = (attribute_mobility_ticket, []) ∷ []
mobility_part false = []

abbrev pub even_port_part : Option Bool → List Attribute
even_port_part none = []
even_port_part (some ep) = (attribute_even_port, (if ep then 0x80 else 0) ∷ []) ∷ []

abbrev pub family_part : Bool → Bool → List Attribute
family_part true false = (attribute_requested_address_family, 1 ∷ 0 ∷ 0 ∷ 0 ∷ []) ∷ []
family_part false true = (attribute_requested_address_family, 2 ∷ 0 ∷ 0 ∷ 0 ∷ []) ∷ []
family_part true true = (attribute_additional_address_family, 2 ∷ 0 ∷ 0 ∷ 0 ∷ []) ∷ []
family_part false false = []

abbrev pub token_part : Option Memory → Bool → Bool → List Attribute
token_part (some rt) af4 af6 = (attribute_reservation_token, bytes rt 0 8) ∷ []
token_part none af4 af6 = family_part af4 af6

-- A step whose value has at most eight bytes.
Sent-step :
    (m : Added) (ty : ℕ) (value : Memory) (alen k : ℕ) (xs : List Attribute)
    → alen ≤ 8
    → ty < 0x1_0000
    → k + 16 < max_message_size
    → Sent m xs k
    → Sent (then_add m ty value alen) (xs ++ ((ty, bytes value 0 alen) ∷ [])) (k + 15)
Sent-step m ty value alen k xs short small room s =
    let (buf, len, e, r, h) = Sent-then_add m ty value alen k xs s small (omega arith) in
    (buf, len, e, r, omega arith)

Sent-skip : (m : Added) (k : ℕ) (xs : List Attribute) → Sent m xs k → Sent m (xs ++ []) (k + 15)
Sent-skip m k xs (buf, len, e, r, h) =
    (buf, len, e, subst (Represents buf len) (sym (append-nil xs)) r, omega arith)

Sent-add_mobility :
    (mobile : Bool) (m : Added) (k : ℕ) (xs : List Attribute)
    → k + 16 < max_message_size
    → Sent m xs k
    → Sent (add_mobility mobile m) (xs ++ mobility_part mobile) (k + 15)
unfolding add_mobility
Sent-add_mobility true m k xs room s =
    Sent-step m attribute_mobility_ticket zeros 0 k xs (omega arith) (omega arith) room s
Sent-add_mobility false m k xs room s = Sent-skip m k xs s

Sent-add_even_port :
    (ep : Option Bool) (m : Added) (k : ℕ) (xs : List Attribute)
    → k + 16 < max_message_size
    → Sent m xs k
    → Sent (add_even_port ep m) (xs ++ even_port_part ep) (k + 15)
unfolding add_even_port
Sent-add_even_port none m k xs room s = Sent-skip m k xs s
Sent-add_even_port (some ep) m k xs room s =
    Sent-step m attribute_even_port (field_of (if ep then 0x80 else 0)) 1 k xs (omega arith)
      (omega arith) room s

Sent-add_families :
    (af4 af6 : Bool) (m : Added) (k : ℕ) (xs : List Attribute)
    → k + 16 < max_message_size
    → Sent m xs k
    → Sent (add_families af4 af6 m) (xs ++ family_part af4 af6) (k + 15)
unfolding add_families
Sent-add_families true false m k xs room s =
    Sent-step m attribute_requested_address_family (field_of 1) 4 k xs (omega arith) (omega arith)
      room s
Sent-add_families false true m k xs room s =
    Sent-step m attribute_requested_address_family (field_of 2) 4 k xs (omega arith) (omega arith)
      room s
Sent-add_families true true m k xs room s =
    Sent-step m attribute_additional_address_family (field_of 2) 4 k xs (omega arith) (omega arith)
      room s
Sent-add_families false false m k xs room s = Sent-skip m k xs s

Sent-add_token :
    (rt : Option Memory) (af4 af6 : Bool) (m : Added) (k : ℕ) (xs : List Attribute)
    → k + 16 < max_message_size
    → Sent m xs k
    → Sent (add_token rt af4 af6 m) (xs ++ token_part rt af4 af6) (k + 15)
unfolding add_token
Sent-add_token (some rt) af4 af6 m k xs room s =
    let (buf, len, e, r, h) =
      Sent-then_try m attribute_reservation_token rt 8 k xs s (omega arith) (omega arith) in
    (buf, len, e, r, omega arith)
Sent-add_token none af4 af6 m k xs room s = Sent-add_families af4 af6 m k xs room s

started :
    (random_tid buf : Memory)
    → Sent (added (init_request random_tid method_allocate buf) header_length) [] 20
unfolding init_request type_of
started random_tid buf = (
  init_request random_tid method_allocate buf,
  header_length,
  refl,
  (init_command_round_trip random_tid buf request method_allocate (omega arith)).0,
  omega arith,
)

abbrev pub lifetime_or_default : ℕ → ℕ
lifetime_or_default lifetime = if ltb lifetime 1 then default_allocate_lifetime else lifetime

-- The attributes of an allocate request with its options, in order.
abbrev pub request_parts : ℕ → Bool → Bool → ℕ → Bool → Option Memory → Option Bool → List Attribute
request_parts lifetime af4 af6 transport mobile rt ep =
    ((((attribute_requested_transport, transport ∷ 0 ∷ 0 ∷ 0 ∷ [])
          ∷ (attribute_lifetime, bytes (store32 zeros 0 (lifetime_or_default lifetime)) 0 4)
          ∷ [])
        ++ mobility_part mobile)
      ++ even_port_part ep)
    ++ token_part rt af4 af6

-- stun_set_allocate_request_str returns true with any options, and the message has the transport, the
-- lifetime (the default where it is 0), a mobility ticket where it is asked for, the even port where
-- it is stated, and then either the reservation token or what the two address families ask for.
pub set_allocate_request_refines :
    (random_tid buf : Memory) (lifetime : ℕ) (af4 af6 : Bool) (transport : ℕ) (mobile : Bool)
    (rt : Option Memory) (ep : Option Bool)
    → (buf' : Memory) × (len : ℕ) × (set_allocate_request random_tid buf lifetime af4 af6 transport
          mobile rt ep
        ≡ added buf' len)
      × Represents buf' len (request_parts lifetime af4 af6 transport mobile rt ep)
unfolding set_allocate_request
set_allocate_request_refines random_tid buf lifetime af4 af6 transport mobile rt ep =
    let m0 = added (init_request random_tid method_allocate buf) header_length in
    let m1 = then_add m0 attribute_requested_transport (field_of transport) 4 in
    let lifetime_field = store32 zeros 0 (lifetime_or_default lifetime) in
    let m2 = then_add m1 attribute_lifetime lifetime_field 4 in
    let m3 = add_mobility mobile m2 in
    let m4 = add_even_port ep m3 in
    let xs1 : List Attribute =
      (attribute_requested_transport, bytes (field_of transport) 0 4) ∷ [] in
    let xs2 : List Attribute = xs1 ++ ((attribute_lifetime, bytes lifetime_field 0 4) ∷ []) in
    let s1 =
      Sent-step m0 attribute_requested_transport (field_of transport) 4 20 [] (omega arith)
        (omega arith) (omega arith) (started random_tid buf) in
    let s2 =
      Sent-step m1 attribute_lifetime lifetime_field 4 35 xs1 (omega arith) (omega arith)
        (omega arith) s1 in
    let s3 = Sent-add_mobility mobile m2 50 xs2 (omega arith) s2 in
    let s4 = Sent-add_even_port ep m3 65 (xs2 ++ mobility_part mobile) (omega arith) s3 in
    let (buf', len, e, r, h) =
      Sent-add_token rt af4 af6 m4 80 ((xs2 ++ mobility_part mobile) ++ even_port_part ep)
        (omega arith) s4 in
    (buf', len, e, r)

-- No limit where the configured one is 0.
abbrev pub capped : ℕ → ℕ → ℕ
capped max_lifetime lifetime = if max_lifetime == 0 then lifetime else min max_lifetime lifetime

-- Where the allowed maximum is not below the default of 600 seconds, the lifetime that was asked for
-- is brought between the two, and then below the configured maximum, if there is one.
pub adjust_allocate_lifetime_bounds :
    (lifetime max_allowed max_lifetime : ℕ)
    → 600 ≤ max_allowed
    → adjust_allocate_lifetime lifetime max_allowed max_lifetime
      ≡ capped max_lifetime (if leb lifetime 600 then 600 else min lifetime max_allowed)
unfolding adjust_allocate_lifetime
adjust_allocate_lifetime_bounds lifetime max_allowed max_lifetime h = ground (arith, h)
