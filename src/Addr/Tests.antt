-- ===== src/Addr/Tests.antt =====
-- The addresses at concrete inputs.
use webrtc_caller.Base.{ℕ, ◌≡◌, refl, inl, true, some, arith, ◌==◌, if◌then◌else◌, Memory, zeros}
use webrtc_caller.Addr.{IoaAddr, addr_eq, same_bytes}
use webrtc_caller.Addr.Codec.{HasBytes, encode, decode, decode-encode}

abbrev byte_at : ℕ → ℕ → Memory
byte_at i v j = if j == i then v else 0

-- 7.0.0.0, port 0x0d00, with something in the bytes that the family does not use.
abbrev seven : IoaAddr
seven = record { family = 2; port = byte_at 0 13; sin_addr = byte_at 0 7; sin6_addr = byte_at 3 1 }

abbrev seven_too : IoaAddr
seven_too = record { family = 2; port = byte_at 0 13; sin_addr = byte_at 0 7; sin6_addr = zeros }

abbrev first_byte : IoaAddr
first_byte = record { family = 10; port = zeros; sin_addr = zeros; sin6_addr = byte_at 0 1 }

abbrev last_byte : IoaAddr
last_byte = record { family = 10; port = zeros; sin_addr = zeros; sin6_addr = byte_at 15 1 }

seven_eq : addr_eq seven seven_too ≡ true
unfolding addr_eq same_bytes
seven_eq = refl

seven-HasBytes : HasBytes seven
seven-HasBytes = record {
  port = λ i. ground arith;
  sin_addr = λ i. ground arith;
  sin6_addr = λ i. ground arith;
}

decode-encode_example :
    (field : Memory) × (len : ℕ) × (encode true 0x2112_a442 (byte_at 4 9) seven zeros
      ≡ some (field, len))
    × (out : IoaAddr) × (decode true 0x2112_a442 (byte_at 4 9) first_byte field len ≡ some out)
    × (addr_eq out seven ≡ true)
decode-encode_example =
    decode-encode true 0x2112_a442 (byte_at 4 9) seven first_byte zeros (λ i. ground arith)
      seven-HasBytes (inl refl)
