-- ===== src/Ports.antt =====
-- The relay port table of coturn/src/apps/relay/turn_ports.c: struct _turnports and its operations.
-- An array is a function of the index, an `int` that is a port or -1 is an option, and an operation
-- that updates `*tp` returns the new table. The mutex is left out: each operation holds it throughout.
pub mod Queue
pub mod Valid
pub mod Pop
pub mod Taken
pub mod Push
pub mod Membership
pub mod Init
pub mod Even
pub mod Kept
pub mod Exhausted
mod Tests
use webrtc_caller.Base.{
  ℕ, zero, suc, ◌+◌, ◌-◌, ◌*◌, ◌%◌, Bool, true, false, not, ◌&&◌, ◌||◌, Option, none, some, ltb,
  leb, ◌==◌, if◌then◌else◌, Memory, update, u16, u32,
}

abbrev pub ports_size : ℕ
ports_size = 0x1_0000

abbrev pub out_of_range : ℕ
out_of_range = 0xffff_ffff

abbrev pub taken_single : ℕ
taken_single = 0xffff_fffe

abbrev pub taken_even : ℕ
taken_even = 0xffff_fffd

abbrev pub taken_odd : ℕ
taken_odd = 0xffff_fffc

pub record PortTable : Type 0 where
  pub status : Memory
  pub low : ℕ
  pub high : ℕ
  pub range_start : ℕ
  pub range_stop : ℕ
  pub ports : Memory

unfoldable pub is_taken : ℕ → Bool
is_taken s = s == taken_single || s == taken_even || s == taken_odd

-- One exchange of turnports_randomize, for the two numbers that turn_random gave.
unfoldable pub exchange : PortTable → ℕ → ℕ → PortTable
exchange t r1 r2 =
    let size = u32 (t.high + 0x1_0000_0000 - t.low) in
    let port1 = u16 (t.low + u16 (r1 % size)) in
    let port2 = u16 (t.low + u16 (r2 % size)) in
    let pos1 = t.status port1 in
    let pos2 = t.status port2 in
    if port1 == port2 then t else record t {
      status = update (update t.status port1 pos2) port2 pos1;
      ports = update (update t.ports pos1 (t.ports pos2)) pos2 (t.ports pos1);
    }

-- The loop of turnports_randomize. The number of its rounds is given, and `random` is the sequence
-- of what turn_random returns.
unfoldable pub exchanges : ℕ → (ℕ → ℕ) → PortTable → PortTable
exchanges zero random t = t
exchanges (suc n) random t = exchange (exchanges n random t) (random (2 * n)) (random (2 * n + 1))

unfoldable pub randomize : (ℕ → ℕ) → PortTable → PortTable
randomize random t = exchanges (u32 (u32 (t.high + 0x1_0000_0000 - t.low) * 10)) random t

-- The table that the three loops of turnports_init fill in.
unfoldable pub filled : ℕ → ℕ → PortTable
filled start end = record {
  status = λ i. if leb start i && leb i end then i else out_of_range;
  low = start;
  high = end + 1;
  range_start = start;
  range_stop = end;
  ports = λ i. i;
}

unfoldable pub init : (ℕ → ℕ) → ℕ → ℕ → PortTable
init random start end = randomize random (filled start end)

unfoldable pub create : (ℕ → ℕ) → ℕ → ℕ → Option PortTable
create random start end = if ltb end start then none else some (init random start end)

unfoldable pub size : PortTable → ℕ
size t = u16 (u32 (t.high + 0x1_0000_0000 - t.low))

-- What one round of the loop of turnports_allocate does: return, or `++low` and go on.
pub data Round : Type 0 where
  empty : Round
  skip : Round
  take : ℕ → Round

unfoldable pub inspect : PortTable → Round
unfolding is_taken
inspect t =
    let port = t.ports (t.low % ports_size) in
    if leb t.high t.low
    then empty
    else if ltb port t.range_start || ltb t.range_stop port
    then empty
    else if is_taken (t.status port)
    then skip
    else if not (t.status port == t.low)
    then skip
    else take port

-- `++(tp->low)`
unfoldable pub next_low : PortTable → PortTable
next_low t = record t { low = u32 (t.low + 1) }

-- The `while (1)` of turnports_allocate on fuel.
unfoldable pub allocate_loop : ℕ → PortTable → Option ℕ × PortTable
allocate_loop zero t = (none, t)
allocate_loop (suc n) t = elim (inspect t) [
  | empty ↦ (none, t)
  | skip ↦ allocate_loop n (next_low t)
  | take port ↦ (some port, next_low (record t { status = update t.status port taken_single }))
]

unfoldable pub allocate : PortTable → Option ℕ × PortTable
allocate t = allocate_loop (suc (t.high - t.low)) t

unfoldable pub release : PortTable → ℕ → PortTable
unfolding is_taken
release t port =
    if leb t.range_start port && leb port t.range_stop && is_taken (t.status port)
    then record t {
      status = update t.status port t.high;
      ports = update t.ports (t.high % ports_size) port;
      high = u32 (t.high + 1);
    }
    else t

unfoldable pub is_allocated : PortTable → ℕ → Bool
unfolding is_taken
is_allocated t port = is_taken (t.status port)

unfoldable pub is_available : PortTable → ℕ → Bool
unfolding is_taken
is_available t port =
    not (t.status port == out_of_range)
    && not (is_taken (t.status port))
    && t.ports (t.status port % ports_size) == port

-- The three fields of the reservation token: two ports and a random number.
abbrev pub Token : Type 0
Token = ℕ × ℕ × ℕ

abbrev pub token_of : PortTable → ℕ → Token
token_of t random = (t.ports (t.low % ports_size), t.ports (t.high % ports_size), random)

-- What one round of the loop of turnports_allocate_even ends in.
pub data Outcome : Type 0 where
  found : ℕ → Option Token → PortTable → Outcome
  again : PortTable → Outcome

abbrev pub pair_taken : PortTable → ℕ → PortTable
pair_taken t port = record t {
  status = update (update t.status port taken_even) (port + 1) taken_odd;
}

-- A round after its turnports_allocate. The result -1 is odd, and (uint16_t)(-1) is 65535.
unfoldable pub even_round : Bool → Bool → ℕ → Option ℕ × PortTable → Outcome
even_round allocate_rtcp wants_token random (none, t) = again (release t 0xffff)
even_round allocate_rtcp wants_token random (some port, t) =
    if port % 2 == 1
    then again (release t (u16 port))
    else if not allocate_rtcp
    then found port none t
    else if ltb t.range_stop (port + 1)
    then again (release t (u16 port))
    else if not (is_available t (u16 (port + 1)))
    then again (release t (u16 port))
    else found port (if wants_token then some (token_of (pair_taken t port) random) else none)
        (pair_taken t port)

-- `n` is `size - i`, the rounds that are left.
unfoldable pub even_loop : Bool → Bool → ℕ → ℕ → PortTable → Option (ℕ × Option Token) × PortTable
even_loop allocate_rtcp wants_token random zero t = (none, t)
even_loop allocate_rtcp wants_token random (suc n) t =
    elim (even_round allocate_rtcp wants_token random (allocate t)) [
      | found port token t' ↦ (some (port, token), t')
      | again t' ↦ even_loop allocate_rtcp wants_token random n t'
    ]

unfoldable pub allocate_even : Bool → Bool → ℕ → PortTable → Option (ℕ × Option Token) × PortTable
allocate_even allocate_rtcp wants_token random t =
    if ltb 1 (size t) then even_loop allocate_rtcp wants_token random (size t) t else (none, t)
