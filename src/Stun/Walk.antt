-- ===== src/Stun/Walk.antt =====
-- The walk through the attributes, on any buffer and on a well-formed message.
use webrtc_caller.Base.{
  ℕ, zero, suc, ◌+◌, ◌-◌, ◌≤◌, ◌<◌, ◌≡◌, refl, sym, ap, ◌∙◌, inl, inr, Option, none, some, List, [],
  ◌∷◌, arith, ◌≢◌, ◌*◌, ltb, ◌==◌, if◌then◌else◌, ==_iff, Bool-cases, Option-cases, Memory,
}
use webrtc_caller.Stun.Header.{header_length, command_message_len}
use webrtc_caller.Stun.Attr.{
  attr_type, attr_len, padded, check_valid, get_first, next_from, find_from, get_first_by_type,
}
use webrtc_caller.Stun.Message.{Attribute, attr_end, Holds, Represents, first_value, value_at}

-- An attribute lies behind the header, and with its value inside of the message.
abbrev pub InMessage : Memory → ℕ → ℕ → Type 0
InMessage buf len a = (header_length ≤ a) × (a + 4 + attr_len buf a ≤ len)

pub padded-le : (n : ℕ) → n ≤ padded n
unfolding padded
padded-le n = ground arith

check_valid-some :
    (buf : Memory) (a remaining b : ℕ)
    → check_valid buf a remaining ≡ some b
    → (b ≡ a) × (a + 4 + attr_len buf a ≤ a + remaining)
unfolding check_valid
check_valid-some buf a remaining b e = ground (arith, padded-le (attr_len buf a))

pub command_message_len-le :
    (buf : Memory) (len n : ℕ)
    → command_message_len buf len ≡ some n
    → (header_length ≤ n) × (n ≤ len)
unfolding command_message_len
command_message_len-le buf len n e = ground arith

pub get_first-InMessage :
    (buf : Memory) (len a : ℕ) → get_first buf len ≡ some a → InMessage buf len a
unfolding get_first
get_first-InMessage buf len a e = elim (Option-cases (command_message_len buf len)) [
  | inl absent ↦ cc (rw (absent, get_first) at e)
  | inr (n, present) ↦ ground (
    arith,
    rw (present, get_first) at e,
    command_message_len-le buf len n present,
    check_valid-some buf header_length (n - header_length) a,
  )
]

pub next_from-InMessage :
    (buf : Memory) (len prev a : ℕ)
    → header_length ≤ prev
    → next_from buf len prev ≡ some a
    → InMessage buf len a × (prev + 4 ≤ a)
unfolding next_from
next_from-InMessage buf len prev a h e = elim (Option-cases (command_message_len buf len)) [
  | inl absent ↦ cc (rw (absent, next_from) at e)
  | inr (n, present) ↦ ground (
    arith,
    rw (present, next_from) at e,
    command_message_len-le buf len n present,
    check_valid-some buf (attr_end buf prev) (n - attr_end buf prev) a,
  )
]

-- The walk from `a`, which lies in the message, gives an attribute of the type in the message.
find_from-InMessage :
    (fuel : ℕ) (buf : Memory) (len ty : ℕ) (cur : Option ℕ) (a : ℕ)
    → ((c : ℕ) → cur ≡ some c → InMessage buf len c)
    → find_from fuel buf len ty cur ≡ some a
    → InMessage buf len a × (attr_type buf a ≡ ty)
unfolding find_from
find_from-InMessage fuel buf len ty none a h e = cc
find_from-InMessage zero buf len ty (some c) a h e = cc
find_from-InMessage (suc fuel) buf len ty (some c) a h e =
    elim (Bool-cases (attr_type buf c == ty)) [
      | inl hit ↦
          let same : c ≡ a = ground (arith, rw hit at e) in
          rw (← same) (h c refl, (==_iff (attr_type buf c) ty).0 hit)
      | inr miss ↦
          find_from-InMessage fuel buf len ty (next_from buf len c) a
            (λ d k. (next_from-InMessage buf len c d (h c refl).0 k).0) (rw miss at e)
    ]

-- On any buffer, well formed or not, the attribute that is found has the type, lies behind the header
-- and ends, with the value that its length field states, inside of the buffer.
pub get_first_by_type-InMessage :
    (buf : Memory) (len ty a : ℕ)
    → get_first_by_type buf len ty ≡ some a
    → (header_length ≤ a) × (a + 4 + attr_len buf a ≤ len) × (attr_type buf a ≡ ty)
unfolding get_first_by_type
get_first_by_type-InMessage buf len ty a e =
    let (inside, ty_eq) =
      find_from-InMessage len buf len ty (get_first buf len) a
        (λ c k. get_first-InMessage buf len c k) e in
    (inside.0, inside.1, ty_eq)

find_from-none : (fuel : ℕ) (buf : Memory) (len ty : ℕ) → find_from fuel buf len ty none ≡ none
unfolding find_from
find_from-none zero buf len ty = refl
find_from-none (suc fuel) buf len ty = refl

pub find_from-some :
    (fuel : ℕ) (buf : Memory) (len ty a : ℕ)
    → find_from (suc fuel) buf len ty (some a)
      ≡ (if attr_type buf a == ty then some a else find_from fuel buf len ty (next_from buf len a))
unfolding find_from
find_from-some fuel buf len ty a = refl

-- With as much fuel as there are bytes behind the current attribute, more changes nothing.
find_from-fuel :
    (fuel more : ℕ) (buf : Memory) (len ty : ℕ) (cur : Option ℕ)
    → ((c : ℕ) → cur ≡ some c → InMessage buf len c × (len < c + fuel))
    → find_from (fuel + more) buf len ty cur ≡ find_from fuel buf len ty cur
find_from-fuel fuel more buf len ty none h =
    find_from-none (fuel + more) buf len ty ∙ sym (find_from-none fuel buf len ty)
find_from-fuel zero more buf len ty (some c) h = absurd (omega (arith, h c refl))
find_from-fuel (suc fuel) more buf len ty (some c) h =
    let e : suc fuel + more ≡ suc (fuel + more) = omega arith in
    rw (e, find_from-some, find_from-some fuel)
      (ap (λ rest. if attr_type buf c == ty then some c else rest)
        (find_from-fuel fuel more buf len ty (next_from buf len c) next_inside))
  where
    next_inside : (d : ℕ) → next_from buf len c ≡ some d → InMessage buf len d × (len < d + fuel)
    next_inside d k =
        let (inside, past) = next_from-InMessage buf len c d (h c refl).0.0 k in
        (inside, omega (arith, h c refl, past))

-- The loop of stun_attr_get_first_by_type_str ends within `len` rounds on any buffer: more rounds find
-- the same.
pub get_first_by_type-fuel :
    (more : ℕ) (buf : Memory) (len ty : ℕ)
    → find_from (len + more) buf len ty (get_first buf len) ≡ get_first_by_type buf len ty
unfolding get_first_by_type
get_first_by_type-fuel more buf len ty =
    find_from-fuel len more buf len ty (get_first buf len)
      (λ c k. let inside = get_first-InMessage buf len c k in (inside, omega (arith, inside)))

-- The loop of stun_attr_get_first_by_type_str without fuel: from where it stands it ends with a result
-- after a number of steps to the next attribute. A loop that does not end has no such run.
pub data Search (buf : Memory) (len ty : ℕ) : Option ℕ → Option ℕ → ℕ → Type 0 where
  ended : Search buf len ty none none 0
  found : (a : ℕ) → attr_type buf a ≡ ty → Search buf len ty (some a) (some a) 0
  turn :
      (a n : ℕ) (r : Option ℕ)
      → attr_type buf a ≢ ty
      → Search buf len ty (next_from buf len a) r n
      → Search buf len ty (some a) r (suc n)

-- Where the loop stands; behind the message at its end.
abbrev place : ℕ → Option ℕ → ℕ
place len none = len
place len (some c) = c

next_from-place :
    (buf : Memory) (len c : ℕ) (o : Option ℕ)
    → InMessage buf len c
    → next_from buf len c ≡ o
    → c + 4 ≤ place len o
next_from-place buf len c none inside e = omega (arith, inside)
next_from-place buf len c (some d) inside e =
    omega (arith, next_from-InMessage buf len c d inside.0 e)

find_from-Search :
    (fuel : ℕ) (buf : Memory) (len ty : ℕ) (cur : Option ℕ)
    → ((c : ℕ) → cur ≡ some c → InMessage buf len c × (len < c + fuel))
    → (n : ℕ) × Search buf len ty cur (find_from fuel buf len ty cur) n
      × (place len cur + 4 * n ≤ len)
find_from-Search fuel buf len ty none h =
    (0, rw (find_from-none fuel buf len ty) ended, omega arith)
find_from-Search zero buf len ty (some c) h = absurd (omega (arith, h c refl))
find_from-Search (suc fuel) buf len ty (some c) h = elim (Bool-cases (attr_type buf c == ty)) [
  | inl hit ↦ (
    0,
    rw (find_from-some, hit) (found c ((==_iff (attr_type buf c) ty).0 hit)),
    omega (arith, h c refl),
  )
  | inr miss ↦
      let (n, run, bound) = find_from-Search fuel buf len ty (next_from buf len c) (λ d k.
        let (inside, past) = next_from-InMessage buf len c d (h c refl).0.0 k in
        (inside, omega (arith, h c refl, past))) in
      (
        suc n,
        rw (find_from-some, miss)
            (turn c n (find_from fuel buf len ty (next_from buf len c)) (ground (arith, miss)) run),
        omega (arith, bound, next_from-place buf len c (next_from buf len c) (h c refl).0 refl),
      )
]

-- On any buffer the loop of stun_attr_get_first_by_type_str ends, after at most a quarter as many steps
-- as the buffer has bytes, and what it ends with is the result of get_first_by_type.
pub get_first_by_type-Search :
    (buf : Memory) (len ty : ℕ)
    → (n : ℕ) × Search buf len ty (get_first buf len) (get_first_by_type buf len ty) n
      × (4 * n ≤ len)
unfolding get_first_by_type
get_first_by_type-Search buf len ty =
    let (n, run, bound) =
      find_from-Search len buf len ty (get_first buf len)
        (λ c k. let inside = get_first-InMessage buf len c k in (inside, omega (arith, inside))) in
    (n, run, omega (arith, bound))

-- The attribute that a walk has reached before the list `xs`.
abbrev pub cursor : ℕ → List Attribute → Option ℕ
cursor a [] = none
cursor a (x ∷ xs) = some a

cursor-step :
    (buf : Memory) (len a : ℕ) (xs : List Attribute)
    → Holds buf len a xs
    → (if ltb a len then check_valid buf a (len - a) else none) ≡ cursor a xs
unfolding check_valid
cursor-step buf len a [] h = ground arith
cursor-step buf len a ((t, v) ∷ xs) h = ground (arith, h.0)

pub next_from-cursor :
    (buf : Memory) (len a : ℕ) (xs : List Attribute)
    → command_message_len buf len ≡ some len
    → Holds buf len (attr_end buf a) xs
    → next_from buf len a ≡ cursor (attr_end buf a) xs
unfolding next_from
next_from-cursor buf len a xs w h = rw (w, next_from) (cursor-step buf len (attr_end buf a) xs h)

find_from-Holds :
    (fuel : ℕ) (buf : Memory) (len ty a : ℕ) (xs : List Attribute)
    → command_message_len buf len ≡ some len
    → Holds buf len a xs
    → len < a + fuel
    → value_at buf (find_from fuel buf len ty (cursor a xs)) ≡ first_value xs ty
unfolding first_value
find_from-Holds fuel buf len ty a [] w h f = rw find_from-none
find_from-Holds zero buf len ty a ((t, v) ∷ xs) w h f = absurd (omega (arith, h.0))
find_from-Holds (suc fuel) buf len ty a ((t, v) ∷ xs) w (fits, same_type, same_value, rest) f =
    rw (find_from-some, next_from-cursor buf len a xs w rest, same_type)
      (ground (
        arith,
        same_value,
        find_from-Holds fuel buf len ty (attr_end buf a) xs w rest (omega arith),
      ))

pub get_first-cursor :
    (buf : Memory) (len : ℕ) (xs : List Attribute)
    → Represents buf len xs
    → get_first buf len ≡ cursor header_length xs
unfolding get_first
get_first-cursor buf len xs r =
    rw (r.whole, get_first) (cursor-step buf len header_length xs r.holds)

-- On a message of the attributes `xs` stun_attr_get_first_by_type_str finds the first of the type, and
-- the attribute that it gives has its value; it gives NULL where there is none of the type.
pub get_first_by_type_refines :
    (buf : Memory) (len ty : ℕ) (xs : List Attribute)
    → Represents buf len xs
    → value_at buf (get_first_by_type buf len ty) ≡ first_value xs ty
unfolding get_first_by_type
get_first_by_type_refines buf len ty xs r =
    rw (get_first-cursor buf len xs r)
      (find_from-Holds len buf len ty header_length xs r.whole r.holds (omega arith))
