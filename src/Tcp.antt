-- ===== src/Tcp.antt =====
-- The TCP connections of an allocation and the buffers that wait in them: the unsent buffers and the
-- TCP connections of coturn/src/server/ns_turn_allocation.c, and tcp_deliver_delayed_buffer of
-- ns_turn_server.c. A connection and a network buffer are numbers, a NULL pointer is none. The map of the
-- identifiers, an ur_map, is a function. Timers, sockets and what is freed are left out.
pub mod Queue
pub mod Connections
mod Tests
use webrtc_caller.Base.{
  ℕ, zero, suc, ◌+◌, ◌-◌, ◌*◌, ◌/◌, ◌%◌, ◌^◌, ◌≤◌, ◌<◌, min, bit_and, bit_or, bit_xor, ◌≡◌, refl,
  sym, ap, ◌∙◌, fun_ext, ◌≢◌, ◌↔◌, ◌⊎◌, inl, inr, Bool, true, false, not, ◌&&◌, ◌||◌, Option, none,
  some, List, [], ◌∷◌, ◌++◌, arith, ltb, leb, ◌==◌, if◌then◌else◌, ltb→lt, lt→ltb, leb→le, ==_iff,
  ==-refl, by_if, Bool-cases, Option-cases, eq-cases, lt-cases, length, get_or, length-append,
  contains, Memory, update, u16, u32, copy, zeros, load16, load32, store16, store32, bytes,
  AllBytes, AgreeOn, bytes-AgreeOn, bytes-shift, copy-in, copy-start, copy-before, all_below,
  all_below-at,
}
use webrtc_caller.Addr.{IoaAddr, addr_eq}

abbrev pub max_unsent_buffer_size : ℕ
max_unsent_buffer_size = 16

-- unsent_buffer: the places up to sz.
abbrev pub Unsent : Type 0
Unsent = List (Option ℕ)

unfoldable pub clear_unsent_buffer : Unsent → Unsent
clear_unsent_buffer ub = []

-- A buffer that finds no place is deleted.
unfoldable pub add_unsent_buffer : Unsent → ℕ → Unsent
add_unsent_buffer ub nbh =
    if leb max_unsent_buffer_size (length ub) then ub else ub ++ (some nbh ∷ [])

unfoldable pub top_unsent_buffer : Unsent → Option ℕ
top_unsent_buffer [] = none
top_unsent_buffer (some nbh ∷ ub) = some nbh
top_unsent_buffer (none ∷ ub) = top_unsent_buffer ub

unfoldable pub pop_unsent_buffer : Unsent → Unsent
pop_unsent_buffer [] = []
pop_unsent_buffer (some nbh ∷ ub) = none ∷ ub
pop_unsent_buffer (none ∷ ub) = none ∷ pop_unsent_buffer ub

-- The loop of tcp_deliver_delayed_buffer by the rounds that are left: the buffers that the socket takes,
-- and the rest. `ok` says whether the socket takes a buffer, `closing` whether it is to be closed.
unfoldable pub deliver_loop : (ℕ → Bool) → Bool → ℕ → Unsent → List ℕ × Unsent
unfolding top_unsent_buffer pop_unsent_buffer
deliver_loop ok closing zero ub = ([], ub)
deliver_loop ok closing (suc rounds) ub = elim (top_unsent_buffer ub) [
  | none ↦ ([], ub)
  | some nbh ↦
      let ub' = pop_unsent_buffer ub in
      let closing' = closing || not (ok nbh) in
      let sent = if ok nbh then nbh ∷ [] else [] in
      let (more, rest) = deliver_loop ok closing' rounds ub' in
      if closing' then (sent, ub') else (sent ++ more, rest)
]

unfoldable pub tcp_deliver_delayed_buffer : (ℕ → Bool) → Bool → Unsent → List ℕ × Unsent
unfolding deliver_loop
tcp_deliver_delayed_buffer ok closing ub = deliver_loop ok closing (max_unsent_buffer_size + 1) ub

-- What the functions use of tcp_connection.
pub record TcpConnection : Type 0 where
  pub id : ℕ
  pub peer_addr : IoaAddr
  pub tid : Memory
  pub done : Bool
  pub ub_to_client : Unsent

-- The list of an allocation, the connections by pointer, and the map of the identifiers.
pub record TcpState : Type 0 where
  pub elems : List (Option ℕ)
  pub conns : ℕ → TcpConnection
  pub by_id : ℕ → Option ℕ

-- set_new_tc_id: the first random number of which 24 bits are not 0 and whose identifier is not taken;
-- none where the given ones do not do.
unfoldable pub new_tc_id : (ℕ → Option ℕ) → ℕ → List ℕ → Option ℕ
new_tc_id by_id server_id [] = none
new_tc_id by_id server_id (r ∷ random) =
    let rest = new_tc_id by_id server_id random in
    let low = u32 r % 0x100_0000 in
    let newid = low + server_id % 256 * 0x100_0000 in
    if low == 0 then rest else elim (by_id newid) [ none ↦ some newid | some tc ↦ rest ]

abbrev pub has_peer : (ℕ → TcpConnection) → IoaAddr → Option ℕ → Bool
has_peer conns peer none = false
has_peer conns peer (some tc) = addr_eq (conns tc).peer_addr peer

unfoldable pub find_by_peer : (ℕ → TcpConnection) → List (Option ℕ) → IoaAddr → Option ℕ
find_by_peer conns [] peer = none
find_by_peer conns (e ∷ elems) peer =
    let later = find_by_peer conns elems peer in if has_peer conns peer e then e else later

unfoldable pub get_tcp_connection_by_peer : TcpState → IoaAddr → Option ℕ
unfolding find_by_peer
get_tcp_connection_by_peer st peer = find_by_peer st.conns st.elems peer

unfoldable pub get_tcp_connection_by_id : (ℕ → Option ℕ) → ℕ → Option ℕ
get_tcp_connection_by_id by_id id = by_id id

unfoldable pub get_and_clean_tcp_connection_by_id : (ℕ → Option ℕ) → ℕ → Option ℕ × (ℕ → Option ℕ)
get_and_clean_tcp_connection_by_id by_id id = elim (by_id id) [
  | none ↦ (none, by_id)
  | some tc ↦ (some tc, update by_id id none)
]

-- The first free place of the list, or one more.
unfoldable pub put_elem : List (Option ℕ) → ℕ → List (Option ℕ)
put_elem [] tc = some tc ∷ []
put_elem (none ∷ elems) tc = some tc ∷ elems
put_elem (some other ∷ elems) tc = some other ∷ put_elem elems tc

abbrev pub no_tid : Memory
no_tid = zeros

abbrev pub fresh_connection : IoaAddr → Option Memory → ℕ → TcpConnection
fresh_connection peer tid id = record {
  id = id;
  peer_addr = peer;
  tid = elim tid [ none ↦ no_tid | some t ↦ t ];
  done = false;
  ub_to_client = [];
}

-- create_tcp_connection: the error code 446, or the connection at the pointer `tc` that is allocated;
-- none where the random numbers do not do.
unfoldable pub create_tcp_connection :
    TcpState → ℕ → ℕ → Option Memory → IoaAddr → List ℕ → Option (ℕ ⊎ TcpState)
unfolding get_tcp_connection_by_peer put_elem new_tc_id
create_tcp_connection st server_id tc tid peer random = elim (get_tcp_connection_by_peer st peer) [
  | some otc ↦ some (inl 446)
  | none ↦ elim (new_tc_id st.by_id server_id random) [
    | none ↦ none
    | some id ↦ some (
        inr (record {
          elems = put_elem st.elems tc;
          conns = update st.conns tc (fresh_connection peer tid id);
          by_id = update st.by_id id (some tc);
        }))
  ]
]

-- The place of a connection in the list is made free.
abbrev pub is_elem : ℕ → Option ℕ → Bool
is_elem tc none = false
is_elem tc (some other) = other == tc

unfoldable pub free_elem : List (Option ℕ) → ℕ → List (Option ℕ)
free_elem [] tc = []
free_elem (e ∷ elems) tc =
    let later = free_elem elems tc in if is_elem tc e then none ∷ elems else e ∷ later

unfoldable pub delete_tcp_connection : TcpState → ℕ → TcpState
unfolding free_elem clear_unsent_buffer
delete_tcp_connection st tc = if (st.conns tc).done then st else record {
  elems = free_elem st.elems tc;
  conns = update st.conns tc (record (st.conns tc) {
    done = true;
    ub_to_client = clear_unsent_buffer (st.conns tc).ub_to_client;
  });
  by_id = update st.by_id (st.conns tc).id none;
}
