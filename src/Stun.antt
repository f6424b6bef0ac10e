-- ===== src/Stun.antt =====
-- The STUN and TURN messages of coturn/src/client: ns_turn_msg.c, ns_turn_msg_defs.h.
-- A buffer is an array of bytes as a function of the index, beside its length.
pub mod Types
pub mod Header
pub mod Channel
pub mod Attr
pub mod Message
pub mod Walk
pub mod Append
pub mod Crc
pub mod Start
pub mod Fingerprint
pub mod Sealed
pub mod Request
pub mod Allocate
pub mod Reading
pub mod ChannelNumber
pub mod Error
pub mod Refusal
pub mod Integrity
pub mod Signed
pub mod Trusted
pub mod Reply
pub mod Framing
pub mod Adders
mod Tests
