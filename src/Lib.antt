-- ===== src/Lib.antt =====
-- The core of coturn, the TURN server of this repository (coturn/src), as a model with its theorems.
--
-- The server speaks STUN and TURN: client/ns_turn_msg.c builds and reads the messages, with the
-- addresses of client/ns_turn_ioaddr.c in the coding of client/ns_turn_msg_addr.c;
-- server/ns_turn_maps.c keeps what belongs to an address; server/ns_turn_server.c answers the requests
-- of a client on the permissions and channels of server/ns_turn_allocation.c; apps/relay/turn_ports.c gives out the ports
-- that are relayed, from a table for each address and transport. Each part has its file:
--
--   Base     shared names, Boolean tests, lists, and memory as a function from index to byte
--   Ports    turn_ports.c, struct _turnports: `init`, `create`, `allocate`, `release`, `allocate_even`,
--            `is_allocated` and `is_available` are turnports_init and so on. The free ports are a queue,
--            `Ports.Queue.free`; `IsValid` is the invariant of the table.
--   IpPorts  turn_ports.c, struct _turnipports: `add`, `allocate`, `release` and so on are
--            turnipports_add and so on, over Maps.AddrMap and Ports.
--   Stun     ns_turn_msg.c and ns_turn_msg_defs.h: Types (message types), Header (the 20 bytes of the
--            header and their tests), Channel (ChannelData), Attr (reading and adding attributes), Crc
--            and Fingerprint, Request (the allocate request and the readers of simple attributes), Error
--            (error responses), Reply (the reader of
--            error responses and challenges), Integrity (MESSAGE-INTEGRITY, on a digest that is a
--            parameter), Framing (a message in a stream), Adders (the adders of simple attributes).
--            `Stun.Message.Represents` says which attributes a buffer holds.
--   Addr     ns_turn_ioaddr.c: comparison, hash, port and ranges of `ioa_addr`; Addr.Codec is
--            ns_turn_msg_addr.c.
--   Maps     ns_turn_maps.c: AddrMap is ur_addr_map, LmMap is lm_map.
--   Allocation  ns_turn_allocation.c: the permissions and the channels of an allocation, `get_permission`
--            for allocation_get_permission, `get_new_ch_info` for allocation_get_new_ch_info and so on.
--            `IsLinked` says how the two tables and the maps of the permissions hang together.
--   Server   ns_turn_server.c: the lifetimes and the peer check (Server), the requests ChannelBind and
--            CreatePermission (Requests), the data that are relayed (Relay), and a session as a state
--            machine of requests, data and timers (Reach). The options of the server, with the lists of peers,
--            and the realm of the session can change at any time; a session is reached with the history
--            of these policies. The handlers that relay data look for a permission and do not ask
--            good_peer_addr again, so a permission lives on under a policy that would refuse it.
--   Auth     ns_turn_server.c, check_stun_auth and create_challenge_response, cut at the attributes that
--            the function reads one after the other, and is_secure_string of
--            apps/common/ns_turn_utils.c. `AuthHooks` is what it calls that is not here.
--   Command  ns_turn_server.c, handle_turn_command: `admit` is what stands before the handlers, `dispatch`
--            the switch over the methods, `reply` the end of the function. The handlers of ChannelBind,
--            CreatePermission and Send are those of Server.Requests and Server.Relay; `CommandHooks` holds
--            the others.
--   Tcp      ns_turn_allocation.c: the unsent buffers and the list of TCP connections, with
--            tcp_deliver_delayed_buffer of ns_turn_server.c.
--
-- An operation that updates a structure in place returns the new one. An int that is a value or -1, and
-- a pointer that may be NULL, is an option. 32-bit and 16-bit numbers wrap by `u32` and `u16`. The host
-- is little-endian: nswap16 of two bytes is `load16`. Random numbers are arguments. Mutexes are left
-- out, since each operation holds its own throughout; so is memory exhaustion.
--
-- The loop of turnports_allocate runs on `high - low + 1` rounds: each raises `low`. The searches for an
-- attribute and the loops of the handlers run on as many rounds as the buffer has bytes: an attribute
-- takes four at least. The numbers of turn_random, which is called until one will do, are a list.
-- tcp_deliver_delayed_buffer runs on seventeen rounds, one more than there are buffers.
--
-- Not modelled: the socket layer, the data bases, configuration and the tools (input and output), and the
-- vendored libraries; the digests of OpenSSL are parameters. Of server/, the handlers of Allocate,
-- Refresh, Binding, Connect and ConnectionBind, the quotas and the timers of TCP relaying are not
-- modelled; what a socket does with data is an argument.
pub mod Base
pub mod Ports
pub mod Stun
pub mod Addr
pub mod Maps
pub mod IpPorts
pub mod Allocation
pub mod Server
pub mod Auth
pub mod Command
pub mod Tcp
