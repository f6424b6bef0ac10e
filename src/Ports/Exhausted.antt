-- ===== src/Ports/Exhausted.antt =====
-- turnports_allocate_even on a table that has stale entries only.
use webrtc_caller.Base.{
  ℕ, zero, suc, ◌+◌, ◌-◌, ◌≤◌, ◌<◌, ◌≡◌, refl, ◌∙◌, ◌⊎◌, inl, inr, Bool, true, Option, none, some,
  List, [], ◌∷◌, arith, lt→ltb,
}
use webrtc_caller.Ports.{
  PortTable, ports_size, is_taken, taken_odd, release, allocate, Outcome, again, Token, even_round,
  even_loop, allocate_even, size,
}
use webrtc_caller.Ports.Queue.{free, pop}
use webrtc_caller.Ports.Valid.{IsValid}
use webrtc_caller.Ports.Pop.{Popped, allocate-Popped}
use webrtc_caller.Ports.Membership.{contains-free}
use webrtc_caller.Ports.Push.{release_refines, release-IsValid, high-release, range-release}

-- A valid table that ends at port 65535, with room for `n` releases.
record EndsLast (n : ℕ) (t : PortTable) : Type 0 where
  valid : IsValid t
  stop : t.range_stop ≡ 0xffff
  young : t.high + n ≤ taken_odd

-- Nothing is free, or port 65535 alone.
abbrev AlmostExhausted : PortTable → Type 0
AlmostExhausted t = (free t ≡ []) ⊎ (free t ≡ 0xffff ∷ [])

abbrev FreesLast : ℕ → Outcome → Type 0
FreesLast n o = (t' : PortTable) × (o ≡ again t') × EndsLast n t' × (free t' ≡ 0xffff ∷ [])

release-FreesLast :
    (n : ℕ) (t t' : PortTable)
    → EndsLast (suc n) t
    → IsValid t'
    → t'.high ≡ t.high
    → t'.high < t'.low + ports_size
    → t'.range_stop ≡ t.range_stop
    → free t' ≡ []
    → FreesLast n (again (release t' 0xffff))
release-FreesLast n t t' k v same room stop none_free = (
  release t' 0xffff,
  refl,
  record {
    valid = release-IsValid t' 0xffff v (room, omega (arith, k.young));
    stop = (range-release t' 0xffff).1 ∙ stop ∙ k.stop;
    young = omega (arith, high-release t' 0xffff (omega (arith, k.young)), k.young);
  },
  release_refines t' 0xffff v (room, omega (arith, k.young))
      ∙ rw (none_free) (ground (arith, k.stop, v.range_order)),
)

-- What turnports_allocate gives here: -1, or port 65535, and then nothing is free.
allocate_last :
    (t : PortTable) (out : Option ℕ × PortTable)
    → Popped t out
    → AlmostExhausted t
    → (free out.1 ≡ []) × ((out.0 ≡ none) ⊎ (out.0 ≡ some 0xffff))
unfolding pop
allocate_last t (r, t') p (inl e) =
    let h : ◌≡◌ {A = Option ℕ × List ℕ} (r, free t') (none, []) = rw e at p.queue in (cc, inl cc)
allocate_last t (r, t') p (inr e) =
    let h : ◌≡◌ {A = Option ℕ × List ℕ} (r, free t') (some 0xffff, []) = rw e at p.queue in
    (cc, inr cc)

round-FreesLast :
    (rtcp wants : Bool) (random n : ℕ) (t : PortTable) (out : Option ℕ × PortTable)
    → EndsLast (suc n) t
    → Popped t out
    → (free out.1 ≡ []) × ((out.0 ≡ none) ⊎ (out.0 ≡ some 0xffff))
    → FreesLast n (even_round rtcp wants random out)
unfolding even_round
round-FreesLast rtcp wants random n t (none, t') k p (e, _) =
    release-FreesLast n t t' k p.valid p.high p.room p.stop e
round-FreesLast rtcp wants random n t (some q, t') k p (e, inl absent) = cc
round-FreesLast rtcp wants random n t (some q, t') k p (e, inr last) =
    let q_last : q ≡ 0xffff = cc in
    rw q_last (release-FreesLast n t t' k p.valid p.high p.room p.stop e)

abbrev LoopFreesLast : Option (ℕ × Option Token) × PortTable → Type 0
LoopFreesLast out = (out.0 ≡ none) × (free out.1 ≡ 0xffff ∷ [])

round_of :
    (rtcp wants : Bool) (random n : ℕ) (t : PortTable)
    → EndsLast (suc n) t
    → AlmostExhausted t
    → FreesLast n (even_round rtcp wants random (allocate t))
round_of rtcp wants random n t k h =
    round-FreesLast rtcp wants random n t (allocate t) k (allocate-Popped t k.valid)
      (allocate_last t (allocate t) (allocate-Popped t k.valid) h)

even_loop_frees_last :
    (rtcp wants : Bool) (random n : ℕ) (t : PortTable)
    → EndsLast (suc n) t
    → AlmostExhausted t
    → LoopFreesLast (even_loop rtcp wants random (suc n) t)
unfolding even_loop
even_loop_frees_last rtcp wants random zero t k h =
    let (t', e, k', f) = round_of rtcp wants random 0 t k h in rw (e, even_loop) (refl, f)
even_loop_frees_last rtcp wants random (suc n) t k h =
    let (t', e, k', f) = round_of rtcp wants random (suc n) t k h in
    rw (e, even_loop) (even_loop_frees_last rtcp wants random n t' k' (inr f))

-- On a valid table whose range ends at port 65535, with no port free and two stale entries or more,
-- turnports_allocate_even returns -1 and makes port 65535 free, although it was taken.
pub allocate_even_frees_last :
    (rtcp wants : Bool) (random : ℕ) (t : PortTable)
    → IsValid t
    → t.high + ports_size ≤ taken_odd
    → t.range_stop ≡ 0xffff
    → free t ≡ []
    → 1 < size t
    → (is_taken (t.status 0xffff) ≡ true)
      × ((allocate_even rtcp wants random t).0 ≡ none)
      × (free (allocate_even rtcp wants random t).1 ≡ 0xffff ∷ [])
unfolding allocate_even
allocate_even_frees_last rtcp wants random t v young stop none_free many =
    let held = contains-free t 0xffff v (omega (arith, v.range_order)) (omega arith) in
    let n = size t - 1 in
    let rounds : size t ≡ suc n = omega arith in
    let k : EndsLast (suc n) t = record {
      valid = v;
      stop = stop;
      young = unfold size in omega arith;
    } in
    let (e, f) = even_loop_frees_last rtcp wants random n t k (inl none_free) in
    (
      ground (arith, rw none_free at held),
      rw (lt→ltb 1 (size t) many, rounds) e,
      rw (lt→ltb 1 (size t) many, rounds) f,
    )
