-- ===== src/Stun/Channel.antt =====
-- ChannelData messages: stun_init_channel_message_str and stun_is_channel_message_str.
use webrtc_caller.Base.{
  ℕ, ◌+◌, ◌-◌, ◌*◌, ◌/◌, ◌%◌, ◌≤◌, ◌≡◌, Bool, true, false, not, ◌&&◌, Option, none, some, arith,
  ltb, ◌==◌, if◌then◌else◌, length, Memory, u16, load16, store16,
}
use webrtc_caller.Stun.Types.{valid_channel}
use webrtc_caller.Stun.Header.{max_message_size}

-- `length` is the int of the source where that is not negative; the source refuses a negative one.
-- The result is the buffer and its length, or `none` for false.
unfoldable pub init_channel_message : ℕ → Memory → ℕ → Bool → Option (Memory × ℕ)
init_channel_message chnumber buf length do_padding =
    let rlen = u16 length in
    let padded = if do_padding && not (rlen % 4 == 0) then u16 ((rlen / 4 + 1) * 4) else rlen in
    if ltb max_message_size (4 + length)
    then none
    else some (store16 (store16 buf 0 chnumber) 2 (u16 length), 4 + padded)

-- The padding test, for the data length that arrived and the one that the header states.
unfoldable pub padding_refused : ℕ → ℕ → Bool → Bool
padding_refused actual header mandatory_padding =
    if header == actual
    then false
    else if actual % 4 == 0
    then false
    else if mandatory_padding
    then true
    else if header == 0
    then true
    else ltb 3 (actual - header)

-- The channel number, or `none` for false, and what `*blen` is afterwards.
unfoldable pub is_channel_message : Memory → ℕ → Bool → Option ℕ × ℕ
unfolding padding_refused
is_channel_message buf blen mandatory_padding =
    if ltb blen 4
    then (none, blen)
    else if not (valid_channel (load16 buf 0))
    then (none, blen)
    else (let blen' = if ltb 0xffff blen then 0xffff else blen in
        let actual = blen' - 4 in
        let header = load16 buf 2 in
        if ltb actual header
        then (none, blen')
        else if padding_refused actual header mandatory_padding
        then (none, blen')
        else (some (load16 buf 0), header + 4))

-- A ChannelData message that was made for a channel number in the range, with or without padding, is
-- recognised with or without the padding test, as that channel and with the length of its data.
pub channel_round_trip :
    (chn length : ℕ) (buf : Memory) (do_padding mandatory_padding : Bool)
    → 0x4000 ≤ chn
    → chn ≤ 0x7fff
    → 4 + length ≤ max_message_size
    → (m : Memory × ℕ) × (init_channel_message chn buf length do_padding ≡ some m)
      × (is_channel_message m.0 m.1 mandatory_padding ≡ (some chn, length + 4))
unfolding init_channel_message is_channel_message
channel_round_trip chn length buf do_padding mandatory_padding a b h = (
  (
    store16 (store16 buf 0 chn) 2 (u16 length),
    4
        + (if do_padding && not (u16 length % 4 == 0)
            then u16 ((u16 length / 4 + 1) * 4)
            else u16 length),
  ),
  ground arith,
  ground arith,
)

-- Where the data that arrived is a multiple of four bytes, the header may state any smaller length:
-- the message is accepted, the padding test on or off, however many bytes are left over.
pub channel_accepts_rest :
    (buf : Memory) (blen : ℕ) (mandatory_padding : Bool)
    → valid_channel (load16 buf 0) ≡ true
    → 4 ≤ blen
    → blen ≤ 0xffff
    → blen % 4 ≡ 0
    → load16 buf 2 + 4 ≤ blen
    → is_channel_message buf blen mandatory_padding ≡ (some (load16 buf 0), load16 buf 2 + 4)
unfolding is_channel_message
channel_accepts_rest buf blen mandatory_padding valid a b whole h = ground arith
