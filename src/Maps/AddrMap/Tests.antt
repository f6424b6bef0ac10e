-- ===== src/Maps/AddrMap/Tests.antt =====
-- The address map at concrete inputs.
use webrtc_caller.Base.{ℕ, ◌≡◌, refl, true, some, [], ◌∷◌, arith, ◌==◌, if◌then◌else◌, zeros}
use webrtc_caller.Addr.{IoaAddr, addr_eq}
use webrtc_caller.Maps.AddrMap.{AddrMap, Slots, init, put, get}
use webrtc_caller.Maps.AddrMap.Laws.{get-put}

abbrev host : ℕ → IoaAddr
host n = record {
  family = 2;
  port = zeros;
  sin_addr = λ i. if i == 3 then n else 10;
  sin6_addr = zeros;
}

two_hosts : AddrMap
two_hosts = (put (put init (host 1) 11).0 (host 2) 22).0

two_hosts_valid : two_hosts.valid ≡ true
unfolding two_hosts put init
two_hosts_valid = refl

get-put_example :
    ((put two_hosts (host 1) 33).1 ≡ true)
    × (get (put two_hosts (host 1) 33).0 (host 2)
        ≡ (if addr_eq (host 1) (host 2) then some 33 else get two_hosts (host 2)))
get-put_example = get-put two_hosts (host 1) (host 2) 33 two_hosts_valid (λ e. omega (arith, e))

one_slot : Slots
one_slot = record {
  main_list = record { key = host 1; value = 5 } ∷ record { key = host 2; value = 0 } ∷ [];
  extra_list = record { key = host 3; value = 7 } ∷ [];
}
