-- ===== src/Allocation/Linked.antt =====
-- How the permissions and the channels of an allocation hang together, and what the lookups give.
use webrtc_caller.Base.{ℕ, ◌%◌, ◌<◌, ◌≡◌, sym, ap, ◌∙◌, true, false, none, some, arith, u16}
use webrtc_caller.Stun.Types.{valid_channel}
use webrtc_caller.Addr.{IoaAddr, addr_eq_no_port, addr_get_port}
use webrtc_caller.Addr.Host.{
  addr_eq_no_port-sym, addr_eq_no_port_trans, addr_hash_no_port-addr_eq_no_port,
}
use webrtc_caller.Maps.LmMap.{LmMap}
use webrtc_caller.Maps.LmMap
use webrtc_caller.Maps.LmMap.Laws
use webrtc_caller.Allocation.{Allocation, hash_size, perm_index, chn_index, perm_of, get_permission}
use webrtc_caller.Allocation.Slots.{ptr, find_slot-some, find_slot-only}

-- A slot in use stands in the bucket of its address or of its number.
abbrev pub InBucket : ℕ → (ℕ → ℕ) → ℕ → Type 0
InBucket p sz bucket = (j : ℕ) × (p ≡ ptr bucket j) × (j < sz bucket)

abbrev pub LinksUp : Allocation → ℕ → Type 0
LinksUp a c =
    ((a.perms (a.chns c).owner).allocated ≡ true)
    × (addr_eq_no_port (a.perms (a.chns c).owner).addr (a.chns c).peer_addr ≡ true)
    × (LmMap.get (a.perms (a.chns c).owner).chns (addr_get_port (a.chns c).peer_addr) ≡ some c)
    × (valid_channel (a.chns c).chnum ≡ true)

abbrev pub LinksBack : Allocation → ℕ → ℕ → ℕ → Type 0
LinksBack a p k c =
    ((a.chns c).allocated ≡ true)
    × ((a.chns c).owner ≡ p)
    × (addr_get_port (a.chns c).peer_addr ≡ k)

pub record IsLinked (a : Allocation) : Type 0 where
  pub perm_home :
      (p : ℕ) → (a.perms p).allocated ≡ true → InBucket p a.perm_sz (perm_index (a.perms p).addr)
  -- no two permissions for one address
  pub perm_unique :
      (p q : ℕ)
      → (a.perms p).allocated ≡ true
      → (a.perms q).allocated ≡ true
      → addr_eq_no_port (a.perms p).addr (a.perms q).addr ≡ true
      → p ≡ q
  pub chn_home :
      (c : ℕ) → (a.chns c).allocated ≡ true → InBucket c a.chn_sz (chn_index (a.chns c).chnum)
  -- no two channels of one number
  pub chn_unique :
      (c d : ℕ)
      → (a.chns c).allocated ≡ true
      → (a.chns d).allocated ≡ true
      → (a.chns c).chnum ≡ (a.chns d).chnum
      → c ≡ d
  pub maps : (p : ℕ) → LmMap.Laws.IsValid (a.perms p).chns
  -- a channel is in the map of its permission, which is one for its peer
  pub up : (c : ℕ) → (a.chns c).allocated ≡ true → LinksUp a c
  -- and the map of a permission holds channels of that permission only
  pub back :
      (p k c : ℕ)
      → (a.perms p).allocated ≡ true
      → LmMap.get (a.perms p).chns k ≡ some c
      → LinksBack a p k c
  -- a permission in use has the allocation as its owner
  pub owned : (p : ℕ) → (a.perms p).allocated ≡ true → (a.perms p).owner ≡ true
  -- the port that is kept with a channel is that of its peer
  pub ports :
      (c : ℕ)
      → (a.chns c).allocated ≡ true
      → (a.chns c).port ≡ u16 (addr_get_port (a.chns c).peer_addr)

pub ptr-injective : (b b' i j : ℕ) → b < 8 → b' < 8 → ptr b i ≡ ptr b' j → (b ≡ b') × (i ≡ j)
ptr-injective b b' i j h h' e = (omega arith, omega arith)

pub get_permission-some :
    (a : Allocation) (b : IoaAddr) (p : ℕ)
    → get_permission a b ≡ some p
    → ((a.perms p).allocated ≡ true) × (addr_eq_no_port (a.perms p).addr b ≡ true)
unfolding get_permission
get_permission-some a b p e =
    let (j, same, low, high, yes_p) =
      find_slot-some (perm_of a b) (perm_index b) 0 (a.perm_sz (perm_index b)) p e in
    ground (arith, yes_p)

module _ (a : Allocation) (linked : IsLinked a) where
  -- The permission for an address is found under every address of the same host.
  pub get_permission-linked :
      (p : ℕ) (b : IoaAddr)
      → (a.perms p).allocated ≡ true
      → addr_eq_no_port (a.perms p).addr b ≡ true
      → get_permission a b ≡ some p
  unfolding get_permission
  get_permission-linked p b used same =
      let (j, at, below) = linked.perm_home p used in
      let index : perm_index (a.perms p).addr ≡ perm_index b =
        ap (λ h. h % hash_size) (addr_hash_no_port-addr_eq_no_port (a.perms p).addr b same) in
      let at' : p ≡ ptr (perm_index b) j = at ∙ ap (λ i. ptr i j) index in
      let only : (k : ℕ) → perm_of a b (ptr (perm_index b) k) ≡ true → k ≡ j = λ k yes_k.
        let q = ptr (perm_index b) k in
        let host = addr_eq_no_port_trans (a.perms q).addr b (a.perms p).addr in
        let same_slot : q ≡ p =
          linked.perm_unique q p (ground (arith, yes_k)) used
            (ground (arith, yes_k, host, addr_eq_no_port-sym (a.perms p).addr b, same)) in
        omega (arith, same_slot, at') in
      let here : perm_of a b (ptr (perm_index b) j) ≡ true =
        rw (← at') (ground (arith, used, same)) in
      let below' : j < a.perm_sz (perm_index b) = rw (← index) below in
      find_slot-only (perm_of a b) (perm_index b) 0 (a.perm_sz (perm_index b)) j (omega arith)
        (omega (arith, below')) here only
      ∙ ap some (sym at')

  pub get_permission-none :
      (b : IoaAddr) (p : ℕ)
      → get_permission a b ≡ none
      → (a.perms p).allocated ≡ true
      → addr_eq_no_port (a.perms p).addr b ≡ false
  get_permission-none b p e used = ground (arith, e, used, get_permission-linked p b used)
