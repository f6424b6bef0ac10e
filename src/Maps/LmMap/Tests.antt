-- ===== src/Maps/LmMap/Tests.antt =====
-- lm_map at concrete inputs.
use webrtc_caller.Base.{◌≡◌, ◌≤◌, ◌⊎◌, Bool, false, [], true, some, arith, ◌==◌, if◌then◌else◌}
use webrtc_caller.Maps.LmMap.{LmMap, init, put, get, Entry, foreach}
use webrtc_caller.Maps.LmMap.Laws.{IsValid, init-IsValid, get-init, get-put_absent}
use webrtc_caller.Maps.LmMap.Once.{times}
use webrtc_caller.Maps.LmMap.Foreach.{visits, recorded, stops_at, foreach-visits}

one : LmMap
one = (put init 5000 7).0

get-put_absent_example :
    ((put init 5000 7).1 ≡ true)
    × IsValid (put init 5000 7).0
    × (get (put init 5000 7).0 5000 ≡ (if 5000 == 5000 then some 7 else get init 5000))
get-put_absent_example =
    get-put_absent init 5000 7 5000 init-IsValid (λ e. omega (arith, e)) (λ e. omega (arith, e))
      (get-init 5000)

one-IsValid : IsValid one
unfolding one
one-IsValid =
    (get-put_absent init 5000 7 5000 init-IsValid (λ e. omega (arith, e)) (λ e. omega (arith, e))
      (get-init 5000)).1

abbrev never : Entry → Bool
never e = false

foreach-visits_example :
    (visits 5000 7 (foreach (recorded never) one []).0 ≡ true → get one 5000 ≡ some 7)
    × (get one 5000 ≡ some 7
        → (visits 5000 7 (foreach (recorded never) one []).0 ≡ true)
          ⊎ ((foreach (recorded never) one []).1 ≡ true))
    × (times 5000 (foreach (recorded never) one []).0 ≤ 1)
    × (stops_at never (foreach (recorded never) one []).0 (foreach (recorded never) one []).1
        ≡ true)
foreach-visits_example = foreach-visits one never 5000 7 one-IsValid
