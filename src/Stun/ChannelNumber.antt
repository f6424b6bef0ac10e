-- ===== src/Stun/ChannelNumber.antt =====
-- stun_attr_get_first_channel_number_str, on any buffer and on a well-formed message.
use webrtc_caller.Base.{
  ℕ, zero, suc, ◌+◌, ◌*◌, ◌<◌, ◌≡◌, refl, sym, ap, ◌∙◌, ◌&&◌, Option, none, some, List, [], ◌∷◌,
  arith, leb, ◌==◌, if◌then◌else◌, Memory, load16, bytes,
}
use webrtc_caller.Stun.Types.{valid_channel}
use webrtc_caller.Stun.Header.{header_length, command_message_len}
use webrtc_caller.Stun.Attr.{attr_type, attr_len, attr_value, get_first, next_from}
use webrtc_caller.Stun.Message.{Attribute, Represents, Holds, attr_end}
use webrtc_caller.Stun.Walk.{
  InMessage, get_first-InMessage, next_from-InMessage, cursor, next_from-cursor, get_first-cursor,
}
use webrtc_caller.Stun.Request.{
  attribute_channel_number, channel_number, find_channel_number, get_first_channel_number,
}

-- The number in the first two bytes of a value.
abbrev pub number_of : List ℕ → ℕ
number_of [] = 0
number_of (hi ∷ []) = 0
number_of (hi ∷ lo ∷ rest) = hi * 256 + lo

-- The first channel number in the range among the attributes, and 0 where there is none.
unfoldable pub first_channel : List Attribute → ℕ
first_channel [] = 0
first_channel ((t, v) ∷ xs) =
    if t == attribute_channel_number && valid_channel (number_of v)
    then number_of v
    else first_channel xs

number_of-bytes :
    (buf : Memory) (i n : ℕ) → number_of (bytes buf i n) ≡ (if leb 2 n then load16 buf i else 0)
number_of-bytes buf i zero = refl
number_of-bytes buf i (suc zero) = refl
number_of-bytes buf i (suc (suc n)) = ground arith

channel_number-number_of :
    (buf : Memory) (a : ℕ) (v : List ℕ)
    → bytes buf (a + 4) (attr_len buf a) ≡ v
    → channel_number buf (some a) ≡ (if valid_channel (number_of v) then number_of v else 0)
unfolding channel_number attr_value
channel_number-number_of buf a v e =
    let number = sym (ap number_of e) ∙ number_of-bytes buf (a + 4) (attr_len buf a) in
    ground (arith, number)

find_channel_number-none :
    (fuel : ℕ) (buf : Memory) (len : ℕ) → find_channel_number fuel buf len none ≡ 0
unfolding find_channel_number
find_channel_number-none zero buf len = refl
find_channel_number-none (suc fuel) buf len = refl

-- One round of the loop.
find_channel_number-some :
    (fuel : ℕ) (buf : Memory) (len a : ℕ)
    → find_channel_number (suc fuel) buf len (some a) ≡ (
        if attr_type buf a == attribute_channel_number
          && valid_channel (channel_number buf (some a))
        then channel_number buf (some a)
        else find_channel_number fuel buf len (next_from buf len a))
unfolding find_channel_number
find_channel_number-some fuel buf len a = refl

find_channel_number-Holds :
    (fuel : ℕ) (buf : Memory) (len a : ℕ) (xs : List Attribute)
    → command_message_len buf len ≡ some len
    → Holds buf len a xs
    → len < a + fuel
    → find_channel_number fuel buf len (cursor a xs) ≡ first_channel xs
unfolding first_channel
find_channel_number-Holds fuel buf len a [] w h f = rw find_channel_number-none
find_channel_number-Holds zero buf len a ((t, v) ∷ xs) w h f = absurd (omega (arith, h.0))
find_channel_number-Holds (suc fuel) buf len a ((t, v) ∷ xs) w (fits, same_type, same_value, rest)
      f =
    rw (find_channel_number-some, next_from-cursor buf len a xs w rest, same_type)
      (ground (
        arith,
        channel_number-number_of buf a v same_value,
        find_channel_number-Holds fuel buf len (attr_end buf a) xs w rest (omega arith),
      ))

find_channel_number-fuel :
    (fuel more : ℕ) (buf : Memory) (len : ℕ) (cur : Option ℕ)
    → ((c : ℕ) → cur ≡ some c → InMessage buf len c × (len < c + fuel))
    → find_channel_number (fuel + more) buf len cur ≡ find_channel_number fuel buf len cur
find_channel_number-fuel fuel more buf len none h =
    find_channel_number-none (fuel + more) buf len ∙ sym (find_channel_number-none fuel buf len)
find_channel_number-fuel zero more buf len (some c) h = absurd (omega (arith, h c refl))
find_channel_number-fuel (suc fuel) more buf len (some c) h =
    let e : suc fuel + more ≡ suc (fuel + more) = omega arith in
    rw (e, find_channel_number-some, find_channel_number-some fuel)
      (ground (arith, find_channel_number-fuel fuel more buf len (next_from buf len c) next_inside))
  where
    next_inside : (d : ℕ) → next_from buf len c ≡ some d → InMessage buf len d × (len < d + fuel)
    next_inside d k =
        let (inside, past) = next_from-InMessage buf len c d (h c refl).0.0 k in
        (inside, omega (arith, h c refl, past))

-- On a message of the attributes `xs` stun_attr_get_first_channel_number_str gives the first channel
-- number in the range that an attribute CHANNEL-NUMBER states, and 0 where none does.
pub get_first_channel_number_refines :
    (buf : Memory) (len : ℕ) (xs : List Attribute)
    → Represents buf len xs
    → get_first_channel_number buf len ≡ first_channel xs
unfolding get_first_channel_number
get_first_channel_number_refines buf len xs r =
    rw (get_first-cursor buf len xs r)
      (find_channel_number-Holds len buf len header_length xs r.whole r.holds (omega arith))

-- The loop of stun_attr_get_first_channel_number_str ends within `len` rounds on any buffer: more
-- rounds find the same.
pub get_first_channel_number-fuel :
    (more : ℕ) (buf : Memory) (len : ℕ)
    → find_channel_number (len + more) buf len (get_first buf len)
      ≡ get_first_channel_number buf len
unfolding get_first_channel_number
get_first_channel_number-fuel more buf len =
    find_channel_number-fuel len more buf len (get_first buf len)
      (λ c k. let inside = get_first-InMessage buf len c k in (inside, omega (arith, inside)))
