-- ===== src/Stun/Attr.antt =====
-- The attributes of a message: reading one, walking through them, adding one.
-- A stun_attr_ref is the index of the attribute in the buffer, `none` for NULL.
use webrtc_caller.Base.{
  ℕ, zero, suc, ◌+◌, ◌-◌, ◌%◌, Option, none, some, ltb, leb, ◌==◌, if◌then◌else◌, Memory, u16, copy,
  zeros, load16, store16,
}
use webrtc_caller.Stun.Header.{
  header_length, max_message_size, command_message_len, set_command_message_len,
}

abbrev pub attr_type : Memory → ℕ → ℕ
attr_type buf a = load16 buf a

abbrev pub attr_len : Memory → ℕ → ℕ
attr_len buf a = load16 buf (a + 2)

-- NULL for an attribute of length 0.
unfoldable pub attr_value : Memory → ℕ → Option ℕ
attr_value buf a = if ltb (attr_len buf a) 1 then none else some (a + 4)

-- A length rounded up to a multiple of four, as stun_attr_check_valid and its neighbours do it.
unfoldable pub padded : ℕ → ℕ
padded n = if u16 n % 4 == 0 then n else n + 4 - u16 n % 4

unfoldable pub check_valid : Memory → ℕ → ℕ → Option ℕ
check_valid buf a remaining =
    if leb 4 remaining
    then (if leb (padded (attr_len buf a)) (remaining - 4) then some a else none)
    else none

unfoldable pub get_first : Memory → ℕ → Option ℕ
get_first buf len = elim (command_message_len buf len) [
  | none ↦ none
  | some buf_len ↦
      if ltb header_length buf_len
      then check_valid buf header_length (buf_len - header_length)
      else none
]

-- For a length of -1 the end lies before the buffer, and no attribute is before it.
unfoldable pub next_from : Memory → ℕ → ℕ → Option ℕ
next_from buf len prev = elim (command_message_len buf len) [
  | none ↦ none
  | some end ↦
      let attr_end = prev + 4 + padded (attr_len buf prev) in
      if ltb attr_end end then check_valid buf attr_end (end - attr_end) else none
]

unfoldable pub get_next : Memory → ℕ → Option ℕ → Option ℕ
unfolding get_first next_from
get_next buf len none = get_first buf len
get_next buf len (some prev) = next_from buf len prev

-- The loop of stun_attr_get_first_by_type_str on fuel.
unfoldable pub find_from : ℕ → Memory → ℕ → ℕ → Option ℕ → Option ℕ
find_from fuel buf len ty none = none
find_from zero buf len ty (some a) = none
find_from (suc fuel) buf len ty (some a) =
    let rest = find_from fuel buf len ty (next_from buf len a) in
    if attr_type buf a == ty then some a else rest

-- An attribute takes four bytes at least, so `len` rounds are enough.
unfoldable pub get_first_by_type : Memory → ℕ → ℕ → Option ℕ
get_first_by_type buf len ty = find_from len buf len ty (get_first buf len)

-- What stun_attr_add_str ends in: false, true with the buffer and its length, or a write before the
-- start of a buffer whose length field is not to be had (the length -1).
pub data Added : Type 0 where
  refused : Added
  added : Memory → ℕ → Added
  underrun : Added

abbrev pub write_attr : Memory → ℕ → ℕ → Memory → ℕ → ℕ → Memory
write_attr buf clen attr value alen padding =
    copy (copy (store16 (store16 buf clen attr) (clen + 2) (u16 alen)) (clen + 4) value alen)
      (clen + 4 + alen) zeros padding

abbrev pub padding_of : ℕ → ℕ
padding_of n = if n % 4 == 0 then 0 else 4 - n % 4

-- `value` has `alen` bytes; a negative length and a NULL value count as no bytes.
unfoldable pub add : Memory → ℕ → ℕ → Memory → ℕ → Added
add buf len attr value alen = elim (command_message_len buf len) [
  | none ↦ if leb max_message_size (3 + alen + padding_of (3 + alen)) then refused else underrun
  | some clen ↦
      let padding = padding_of (clen + 4 + alen) in
      let newlen = clen + 4 + alen + padding in
      if leb max_message_size newlen
      then refused
      else added (write_attr (set_command_message_len buf newlen).0 clen attr value alen padding)
          newlen
]
