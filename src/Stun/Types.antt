-- ===== src/Stun/Types.antt =====
-- Message types: the bits of the method and of the class in the first field of a message.
use webrtc_caller.Base.{
  ℕ, ◌*◌, ◌/◌, ◌<◌, bit_and, bit_or, ◌≡◌, refl, sym, Bool, true, false, not, ◌&&◌, arith, ltb, leb,
  ◌==◌, all_below, all_below-at,
}

abbrev pub valid_channel : ℕ → Bool
valid_channel chn = leb 0x4000 chn && leb chn 0x7fff

unfoldable pub make_type : ℕ → ℕ
make_type method =
    let m = bit_and method 0x0fff in
    bit_or (bit_or (bit_or (bit_and m 0x000f) (bit_and m 0x0070 * 2)) (bit_and m 0x0380 * 4))
      (bit_and m 0x0c00 * 4)

-- The method in the first field `tt` of a message.
unfoldable pub method_of_type : ℕ → ℕ
method_of_type tt =
    bit_or (bit_or (bit_or (bit_and tt 0x000f) (bit_and tt 0x00e0 / 2)) (bit_and tt 0x0e00 / 4))
      (bit_and tt 0x3000 / 4)

unfoldable pub make_request : ℕ → ℕ
unfolding make_type
make_request method = bit_and (make_type method) 0xfeef

unfoldable pub make_indication : ℕ → ℕ
unfolding make_type
make_indication method = bit_or (bit_and (make_type method) 0xfeef) 0x0010

unfoldable pub make_success_response : ℕ → ℕ
unfolding make_type
make_success_response method = bit_or (bit_and (make_type method) 0xfeef) 0x0100

unfoldable pub make_error_response : ℕ → ℕ
unfolding make_type
make_error_response method = bit_or (make_type method) 0x0110

-- The macros IS_STUN_REQUEST to IS_STUN_ERR_RESP.
unfoldable pub is_request_type : ℕ → Bool
is_request_type t = bit_and t 0x0110 == 0x0000

unfoldable pub is_indication_type : ℕ → Bool
is_indication_type t = bit_and t 0x0110 == 0x0010

unfoldable pub is_success_type : ℕ → Bool
is_success_type t = bit_and t 0x0110 == 0x0100

unfoldable pub is_error_type : ℕ → Bool
is_error_type t = bit_and t 0x0110 == 0x0110

pub data Class : Type 0 where
  request indication success error : Class

-- The type of a message of a class, as the four functions above make it.
unfoldable pub type_of : Class → ℕ → ℕ
unfolding make_request make_indication make_success_response make_error_response
type_of request = make_request
type_of indication = make_indication
type_of success = make_success_response
type_of error = make_error_response

-- What the four macros say of a type, in their order.
unfoldable pub class_tests : ℕ → Bool × Bool × Bool × Bool
unfolding is_request_type is_indication_type is_success_type is_error_type
class_tests t = (is_request_type t, is_indication_type t, is_success_type t, is_error_type t)

abbrev pub tests_of : Class → Bool × Bool × Bool × Bool
tests_of request = (true, false, false, false)
tests_of indication = (false, true, false, false)
tests_of success = (false, false, true, false)
tests_of error = (false, false, false, true)

bool_eq : Bool → Bool → Bool
bool_eq true b = b
bool_eq false b = not b

bool_eq→eq : (a b : Bool) → bool_eq a b ≡ true → a ≡ b
unfolding bool_eq
bool_eq→eq true b h = sym h
bool_eq→eq false b h = ground arith

row : Class → ℕ → Bool
unfolding bool_eq
row c m =
    let t = type_of c m in
    let (a, b, d, e) = class_tests t in
    let (a', b', d', e') = tests_of c in
    method_of_type t == m
    && ltb t 0x4000
    && bool_eq a a'
    && bool_eq b b'
    && bool_eq d d'
    && bool_eq e e'

table : (c : Class) → all_below 0x1000 (row c) ≡ true
unfolding all_below row type_of method_of_type class_tests
table request = refl
table indication = refl
table success = refl
table error = refl

-- For a method of twelve bits the type that is made for a class is below 0x4000, gives the method
-- back, and passes the test for that class and no other.
pub type_of_lem :
    (c : Class) (m : ℕ)
    → m < 0x1000
    → (method_of_type (type_of c m) ≡ m)
      × (type_of c m < 0x4000)
      × (class_tests (type_of c m) ≡ tests_of c)
unfolding row class_tests
type_of_lem c m h =
    let r = all_below-at 0x1000 (row c) m (table c) h in
    let t = type_of c m in
    let (a', b', d', e') = tests_of c in
    (
      ground arith,
      ground arith,
      ground (
        arith,
        bool_eq→eq (is_request_type t) a',
        bool_eq→eq (is_indication_type t) b',
        bool_eq→eq (is_success_type t) d',
        bool_eq→eq (is_error_type t) e',
      ),
    )
