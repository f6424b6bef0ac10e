-- ===== src/Stun/Message.antt =====
-- What a message stands for: the list of its attributes, each a type and a value.
use webrtc_caller.Base.{
  ℕ, ◌+◌, ◌%◌, ◌≤◌, ◌≡◌, Option, none, some, List, [], ◌∷◌, ◌==◌, if◌then◌else◌, Memory, bytes,
}
use webrtc_caller.Stun.Header.{header_length, command_message_len}
use webrtc_caller.Stun.Attr.{attr_type, attr_len, padded}

abbrev pub Attribute : Type 0
Attribute = ℕ × List ℕ

abbrev pub attr_end : Memory → ℕ → ℕ
attr_end buf a = a + 4 + padded (attr_len buf a)

-- The attributes from index `a` on tile the buffer up to `end`.
abbrev pub Holds : Memory → ℕ → ℕ → List Attribute → Type 0
Holds buf end a [] = a ≡ end
Holds buf end a ((ty, value) ∷ xs) =
    (attr_end buf a ≤ end)
    × (attr_type buf a ≡ ty)
    × (bytes buf (a + 4) (attr_len buf a) ≡ value)
    × Holds buf end (attr_end buf a) xs

pub record Represents (buf : Memory) (len : ℕ) (xs : List Attribute) : Type 0 where
  pub whole : command_message_len buf len ≡ some len
  pub aligned : len % 4 ≡ 0
  pub header : header_length ≤ len
  pub holds : Holds buf len header_length xs

-- The value of the first attribute of a type.
unfoldable pub first_value : List Attribute → ℕ → Option (List ℕ)
first_value [] ty = none
first_value ((t, value) ∷ xs) ty = if t == ty then some value else first_value xs ty

-- The value of the attribute at an index.
abbrev pub value_at : Memory → Option ℕ → Option (List ℕ)
value_at buf none = none
value_at buf (some a) = some (bytes buf (a + 4) (attr_len buf a))
