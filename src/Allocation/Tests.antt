-- ===== src/Allocation/Tests.antt =====
-- The channel 0x4000 for the peer 10.0.0.1, port 5000, in a new allocation.
use webrtc_caller.Base.{
  ℕ, ◌≡◌, refl, ◌≢◌, ◌↔◌, true, none, [], ◌∷◌, arith, ◌==◌, if◌then◌else◌, get_or, zeros,
}
use webrtc_caller.Addr.{IoaAddr, af_inet, addr_get_port, addr_hash_no_port, hash_int32, load_host}
use webrtc_caller.Allocation.{
  Allocation, empty_chn, empty_perm, init_allocation, get_ch_info, get_ch_info_by_peer_addr,
  get_new_ch_info, permission_clean, channel_delete,
}
use webrtc_caller.Allocation.Slots.{find_slot}
use webrtc_caller.Allocation.Linked.{IsLinked}
use webrtc_caller.Allocation.Bind.{Bound, get_new_ch_info-Bound}
use webrtc_caller.Allocation.Delete.{channel_delete-IsLinked, permission_clean-IsLinked}
use webrtc_caller.Allocation.Start.{init_allocation-IsLinked}

peer : IoaAddr
peer = record {
  family = af_inet;
  port = λ i. get_or (0x13 ∷ 0x88 ∷ []) i 0;
  sin_addr = λ i. get_or (10 ∷ 0 ∷ 0 ∷ 1 ∷ []) i 0;
  sin6_addr = zeros;
}

bound_tables : Allocation
bound_tables = (get_new_ch_info init_allocation 0x4000 peer).1

slot : ℕ
slot = (get_new_ch_info init_allocation 0x4000 peer).0

run_tables : ℕ
unfolding peer bound_tables slot init_allocation get_ch_info get_ch_info_by_peer_addr
    get_new_ch_info find_slot addr_get_port
run_tables = 0

port_nonzero : addr_get_port peer ≢ 0
unfolding run_tables
port_nonzero e = omega (arith, e)

unknown : get_ch_info init_allocation 0x4000 ≡ none
unfolding run_tables
unknown = refl

unbound : get_ch_info_by_peer_addr init_allocation peer ≡ none
unfolding run_tables addr_hash_no_port hash_int32 load_host
unbound = refl

get_new_ch_info-Bound_example : Bound 0x4000 peer (get_new_ch_info init_allocation 0x4000 peer)
get_new_ch_info-Bound_example =
    get_new_ch_info-Bound init_allocation 0x4000 peer init_allocation-IsLinked refl port_nonzero
      unknown unbound

after_bind : Bound 0x4000 peer (slot, bound_tables)
unfolding bound_tables slot
after_bind =
    get_new_ch_info-Bound init_allocation 0x4000 peer init_allocation-IsLinked refl port_nonzero
      unknown unbound

owner_used : (bound_tables.perms (bound_tables.chns slot).owner).allocated ≡ true
owner_used = (after_bind.linked.up slot after_bind.held.used).0

channel_delete-IsLinked_example :
    IsLinked (channel_delete bound_tables slot)
    × ((channel_delete bound_tables slot).chns slot
        ≡ (if slot == slot then empty_chn else bound_tables.chns slot))
channel_delete-IsLinked_example =
    channel_delete-IsLinked bound_tables slot slot after_bind.linked after_bind.held.used

permission_clean-IsLinked_example :
    let p = (bound_tables.chns slot).owner in
    IsLinked (permission_clean bound_tables p)
    × ((permission_clean bound_tables p).perms p
        ≡ (if p == p then empty_perm else bound_tables.perms p))
    × (((permission_clean bound_tables p).chns slot).allocated ≡ true
        ↔ ((bound_tables.chns slot).allocated ≡ true) × ((bound_tables.chns slot).owner ≢ p))
permission_clean-IsLinked_example =
    permission_clean-IsLinked bound_tables (bound_tables.chns slot).owner
      (bound_tables.chns slot).owner slot after_bind.linked owner_used
