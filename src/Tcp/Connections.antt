-- ===== src/Tcp/Connections.antt =====
-- The connections that an allocation has, found by their peer and by their identifier.
use webrtc_caller.Base.{
  ℕ, ◌+◌, ◌*◌, ◌/◌, ◌%◌, ◌<◌, ◌≡◌, refl, sym, ◌∙◌, ◌≢◌, inl, inr, Bool, true, false, ◌||◌, Option,
  none, some, List, [], ◌∷◌, arith, ◌==◌, if◌then◌else◌, ==-refl, by_if, Bool-cases, Option-cases,
  Memory, update, u32,
}
use mathlib.Core.Path.{subst}
use webrtc_caller.Addr.{IoaAddr, addr_eq}
use webrtc_caller.Addr.Equal.{addr_eq-sym, addr_eq_trans}
use webrtc_caller.Tcp.{
  TcpConnection, TcpState, new_tc_id, find_by_peer, get_tcp_connection_by_peer,
  get_tcp_connection_by_id, put_elem, fresh_connection, create_tcp_connection, is_elem,
}

-- A pointer in a list.
abbrev pub has_elem : List (Option ℕ) → ℕ → Bool
has_elem [] tc = false
has_elem (e ∷ elems) tc = is_elem tc e || has_elem elems tc

-- A new identifier is not taken, has the server in its highest byte, and is not 0 below it.
pub IsNewId : (ℕ → Option ℕ) → ℕ → ℕ → Type 0
IsNewId by_id server_id id =
    (by_id id ≡ none) × (id / 0x100_0000 ≡ server_id % 256) × (id % 0x100_0000 ≢ 0)

joined-IsNewId :
    (by_id : ℕ → Option ℕ) (server_id low : ℕ)
    → low < 0x100_0000
    → (low == 0) ≡ false
    → by_id (low + server_id % 256 * 0x100_0000) ≡ none
    → IsNewId by_id server_id (low + server_id % 256 * 0x100_0000)
unfolding IsNewId
joined-IsNewId by_id server_id low small some_low free =
    let not_zero : low ≢ 0 = ground (arith, some_low) in
    let rest : (low + server_id % 256 * 0x100_0000) % 0x100_0000 ≡ low = omega (arith, small) in
    (free, omega (arith, small), rw rest not_zero)

-- One random number, with what the others give.
tried-IsNewId :
    (by_id : ℕ → Option ℕ) (server_id low id : ℕ) (rest taken : Option ℕ)
    → low < 0x100_0000
    → (low == 0) ≡ false
    → by_id (low + server_id % 256 * 0x100_0000) ≡ taken
    → (rest ≡ some id → IsNewId by_id server_id id)
    → elim taken [ none ↦ some (low + server_id % 256 * 0x100_0000) | some tc ↦ rest ] ≡ some id
    → IsNewId by_id server_id id
tried-IsNewId by_id server_id low id rest none small some_low free later e =
    let same : low + server_id % 256 * 0x100_0000 ≡ id = ground (arith, e) in
    rw (← same) (joined-IsNewId by_id server_id low small some_low free)
tried-IsNewId by_id server_id low id rest (some tc) small some_low free later e = later e

new_tc_id-IsNewId :
    (by_id : ℕ → Option ℕ) (server_id id : ℕ) (random : List ℕ)
    → new_tc_id by_id server_id random ≡ some id
    → IsNewId by_id server_id id
unfolding new_tc_id
new_tc_id-IsNewId by_id server_id id [] e = cc e
new_tc_id-IsNewId by_id server_id id (r ∷ random) e =
    let low = u32 r % 0x100_0000 in
    by_if (λ (o : Option ℕ). o ≡ some id → IsNewId by_id server_id id) (low == 0) _ _
      (λ z k. new_tc_id-IsNewId by_id server_id id random k)
      (λ some_low k.
        tried-IsNewId by_id server_id low id (new_tc_id by_id server_id random)
          (by_id (low + server_id % 256 * 0x100_0000)) (omega arith) some_low refl
          (new_tc_id-IsNewId by_id server_id id random) k)
      e

-- A connection with no connection of its peer before it is found by the peer.
find_by_peer-put :
    (conns : ℕ → TcpConnection) (elems : List (Option ℕ)) (peer : IoaAddr) (tc : ℕ)
    (c : TcpConnection)
    → find_by_peer conns elems peer ≡ none
    → has_elem elems tc ≡ false
    → addr_eq c.peer_addr peer ≡ true
    → find_by_peer (update conns tc c) (put_elem elems tc) peer ≡ some tc
unfolding find_by_peer put_elem
find_by_peer-put conns [] peer tc c absent new same = rw (==-refl tc, same) refl
find_by_peer-put conns (none ∷ elems) peer tc c absent new same = rw (==-refl tc, same) refl
find_by_peer-put conns (some other ∷ elems) peer tc c absent new same =
    let not_it : (other == tc) ≡ false = ground (arith, new) in
    let not_peer : addr_eq (conns other).peer_addr peer ≡ false = ground (arith, absent) in
    rw (not_it, not_peer)
      (find_by_peer-put conns elems peer tc c (ground (arith, absent, not_peer))
        (ground (arith, new, not_it)) same)

find_by_peer-update :
    (conns : ℕ → TcpConnection) (elems : List (Option ℕ)) (other : IoaAddr) (tc : ℕ)
    (c : TcpConnection)
    → has_elem elems tc ≡ false
    → find_by_peer (update conns tc c) elems other ≡ find_by_peer conns elems other
unfolding find_by_peer
find_by_peer-update conns [] other tc c new = refl
find_by_peer-update conns (none ∷ elems) other tc c new =
    find_by_peer-update conns elems other tc c new
find_by_peer-update conns (some x ∷ elems) other tc c new =
    let not_it : (x == tc) ≡ false = ground (arith, new) in
    rw (not_it, find_by_peer-update conns elems other tc c (ground (arith, new, not_it))) refl

-- Whatever the peer that is looked for: the new connection where it is the one of its peer, and what was
-- found before where it is not.
find_by_peer-other :
    (conns : ℕ → TcpConnection) (elems : List (Option ℕ)) (peer other : IoaAddr) (tc : ℕ)
    (c : TcpConnection)
    → find_by_peer conns elems peer ≡ none
    → has_elem elems tc ≡ false
    → c.peer_addr ≡ peer
    → find_by_peer (update conns tc c) (put_elem elems tc) other
      ≡ (if addr_eq peer other then some tc else find_by_peer conns elems other)
unfolding find_by_peer put_elem
find_by_peer-other conns [] peer other tc c absent new same = rw (==-refl tc, same) refl
find_by_peer-other conns (none ∷ elems) peer other tc c absent new same =
    rw (==-refl tc, same, find_by_peer-update conns elems other tc c new) refl
find_by_peer-other conns (some x ∷ elems) peer other tc c absent new same =
    let not_it : (x == tc) ≡ false = ground (arith, new) in
    let here = (conns x).peer_addr in
    let not_peer : addr_eq here peer ≡ false = ground (arith, absent) in
    let later =
      find_by_peer-other conns elems peer other tc c (ground (arith, absent, not_peer))
        (ground (arith, new, not_it)) same in
    elim (Bool-cases (addr_eq peer other)) [
      | inl h ↦
          let not_here : addr_eq here other ≡ false =
            addr_eq-sym here other
            ∙ sym (addr_eq_trans peer other here h)
            ∙ addr_eq-sym peer here
            ∙ not_peer in
          rw (not_it, not_here, later, h) refl
      | inr h ↦ rw (not_it, later, h) refl
    ]

-- The state with the connection.
abbrev with_connection : TcpState → ℕ → ℕ → Option Memory → IoaAddr → TcpState
with_connection st tc id tid peer = record {
  elems = put_elem st.elems tc;
  conns = update st.conns tc (fresh_connection peer tid id);
  by_id = update st.by_id id (some tc);
}

abbrev Found : TcpState → ℕ → ℕ → ℕ → IoaAddr → IoaAddr → TcpState → Type 0
Found st server_id tc other peer other_peer st' =
    (id : ℕ) × IsNewId st.by_id server_id id
    × (get_tcp_connection_by_id st'.by_id id ≡ some tc)
    × (get_tcp_connection_by_peer st' peer ≡ some tc)
    × ((st'.conns tc).id ≡ id)
    × (get_tcp_connection_by_id st'.by_id other
        ≡ (if other == id then some tc else get_tcp_connection_by_id st.by_id other))
    × (get_tcp_connection_by_peer st' other_peer
        ≡ (if addr_eq peer other_peer then some tc else get_tcp_connection_by_peer st other_peer))

with_connection-Found :
    (st : TcpState) (server_id tc other id : ℕ) (tid : Option Memory) (peer other_peer : IoaAddr)
    → has_elem st.elems tc ≡ false
    → addr_eq peer peer ≡ true
    → find_by_peer st.conns st.elems peer ≡ none
    → IsNewId st.by_id server_id id
    → Found st server_id tc other peer other_peer (with_connection st tc id tid peer)
unfolding get_tcp_connection_by_peer get_tcp_connection_by_id
with_connection-Found st server_id tc other id tid peer other_peer new self absent fresh = (
  id,
  fresh,
  rw (==-refl id) refl,
  find_by_peer-put st.conns st.elems peer tc (fresh_connection peer tid id) absent new self,
  rw (==-refl tc) refl,
  refl,
  find_by_peer-other st.conns st.elems peer other_peer tc (fresh_connection peer tid id) absent new
      refl,
)

create_tcp_connection-made :
    (st : TcpState) (server_id tc id : ℕ) (tid : Option Memory) (peer : IoaAddr) (random : List ℕ)
    → find_by_peer st.conns st.elems peer ≡ none
    → new_tc_id st.by_id server_id random ≡ some id
    → create_tcp_connection st server_id tc tid peer random
      ≡ some (inr (with_connection st tc id tid peer))
unfolding create_tcp_connection get_tcp_connection_by_peer
create_tcp_connection-made st server_id tc id tid peer random absent made =
    rw (create_tcp_connection, absent, made) refl

-- When create_tcp_connection makes a connection at a new pointer, its identifier was not taken, has the
-- server in its highest byte and is not 0 below it; the connection is found by the identifier and by its
-- peer; another identifier finds what it found before, and so does an address that does not equal the
-- peer. A peer is an address that equals itself.
pub create_tcp_connection-found :
    (st st' : TcpState) (server_id tc other : ℕ) (tid : Option Memory) (peer other_peer : IoaAddr)
    (random : List ℕ)
    → has_elem st.elems tc ≡ false
    → addr_eq peer peer ≡ true
    → create_tcp_connection st server_id tc tid peer random ≡ some (inr st')
    → (id : ℕ) × IsNewId st.by_id server_id id
      × (get_tcp_connection_by_id st'.by_id id ≡ some tc)
      × (get_tcp_connection_by_peer st' peer ≡ some tc)
      × ((st'.conns tc).id ≡ id)
      × (get_tcp_connection_by_id st'.by_id other
          ≡ (if other == id then some tc else get_tcp_connection_by_id st.by_id other))
      × (get_tcp_connection_by_peer st' other_peer
          ≡ (if addr_eq peer other_peer then some tc else get_tcp_connection_by_peer st other_peer))
unfolding create_tcp_connection get_tcp_connection_by_peer get_tcp_connection_by_id
create_tcp_connection-found st st' server_id tc other tid peer other_peer random new self e =
    elim (Option-cases (find_by_peer st.conns st.elems peer)) [
      | inr (otc, found) ↦ absurd (cc (rw (create_tcp_connection, found) at e))
      | inl absent ↦ elim (Option-cases (new_tc_id st.by_id server_id random)) [
        | inl starved ↦ absurd (cc (rw (create_tcp_connection, absent, starved) at e))
        | inr (id, made) ↦
            let same : with_connection st tc id tid peer ≡ st' = ground (
              arith,
              sym (create_tcp_connection-made st server_id tc id tid peer random absent made) ∙ e,
            ) in
            subst (Found st server_id tc other peer other_peer) same (
              with_connection-Found st server_id tc other id tid peer other_peer new self absent
                (new_tc_id-IsNewId st.by_id server_id id random made))
      ]
    ]
