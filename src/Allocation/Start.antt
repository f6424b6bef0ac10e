-- ===== src/Allocation/Start.antt =====
-- The tables of a new allocation.
use webrtc_caller.Maps.LmMap
use webrtc_caller.Maps.LmMap.Laws
use webrtc_caller.Allocation.{init_allocation}
use webrtc_caller.Allocation.Linked.{IsLinked}

pub init_allocation-IsLinked : IsLinked init_allocation
unfolding init_allocation
init_allocation-IsLinked = record {
  perm_home = λ p used. cc;
  perm_unique = λ p q used used' same. cc;
  chn_home = λ c used. cc;
  chn_unique = λ c d used used' same. cc;
  maps = λ p. LmMap.Laws.init-IsValid;
  up = λ c used. cc;
  back = λ p k c used e. cc;
  owned = λ p used. cc;
  ports = λ c used. cc;
}
