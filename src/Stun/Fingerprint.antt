-- ===== src/Stun/Fingerprint.antt =====
-- The FINGERPRINT attribute: adding it, and the full check of a message.
use webrtc_caller.Base.{
  ℕ, ◌-◌, bit_xor, Bool, true, false, not, Option, none, some, ◌==◌, if◌then◌else◌, Memory, u32,
  zeros, load32, store32,
}
use webrtc_caller.Stun.Header.{is_command_message, get_method, method_binding}
use webrtc_caller.Stun.Attr.{
  attr_len, attr_value, Added, added, refused, underrun, add, get_first_by_type,
}
use webrtc_caller.Stun.Crc.{crc32}

abbrev pub attribute_fingerprint : ℕ
attribute_fingerprint = 0x8028

abbrev pub fingerprint_xor : ℕ
fingerprint_xor = 0x5354_554e

-- The last step of stun_attr_add_fingerprint_str.
unfoldable pub seal : Added → Added
seal refused = refused
seal underrun = underrun
seal (added buf len) =
    added (store32 buf (len - 4) (u32 (bit_xor (crc32 buf (len - 8)) fingerprint_xor))) len

unfoldable pub add_fingerprint : Memory → ℕ → Added
add_fingerprint buf len = seal (add buf len attribute_fingerprint zeros 4)

-- The result of the check and what `*fingerprint_present` is set to, `none` where it is not set.
unfoldable pub check_fingerprint : Memory → ℕ → Bool → ℕ → Bool × Option Bool
unfolding attr_value
check_fingerprint buf len must_check sar =
    if not (attr_len buf sar == 4) then (false, none) else elim (attr_value buf sar) [
      | none ↦ (not must_check, none)
      | some value ↦
          if load32 buf value == u32 (bit_xor (crc32 buf (value - 4)) fingerprint_xor)
          then (true, some true)
          else (false, none)
    ]

unfoldable pub full_check : Memory → ℕ → Bool → Bool × Option Bool
full_check buf blen must_check =
    if not (is_command_message buf blen)
    then (false, none)
    else elim (get_first_by_type buf blen attribute_fingerprint) [
      | none ↦
          if get_method buf blen == method_binding
          then (true, some false)
          else (not must_check, some false)
      | some sar ↦ check_fingerprint buf blen must_check sar
    ]
