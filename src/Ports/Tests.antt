-- ===== src/Ports/Tests.antt =====
-- The port table at concrete inputs.
use webrtc_caller.Base.{
  ℕ, ◌≡◌, refl, true, false, not, ◌&&◌, none, some, [], ◌∷◌, ◌++◌, arith, leb, ◌==◌, if◌then◌else◌,
  contains,
}
use webrtc_caller.Ports.{
  PortTable, is_taken, exchange, exchanges, randomize, filled, init, create, size, inspect,
  next_low, allocate_loop, allocate, release, is_available, even_round, even_loop, allocate_even,
}
use webrtc_caller.Ports.Queue.{free, pop}
use webrtc_caller.Ports.Valid.{IsValid, HasRoom}
use webrtc_caller.Ports.Pop.{allocate-Popped, allocate_refines}
use webrtc_caller.Ports.Push.{release_refines}
use webrtc_caller.Ports.Init.{create-IsValid}
use webrtc_caller.Ports.Kept.{operations-IsValid, allocate_even-IsValid}
use webrtc_caller.Ports.Exhausted.{allocate_even_frees_last}

-- Exchanges the second and the third port, once.
random : ℕ → ℕ
random i = if i == 0 then 1 else if i == 1 then 2 else 0

last_four : PortTable
last_four = init random 65532 65535

run_tests : ℕ
unfolding random last_four init randomize exchanges exchange filled size allocate allocate_loop
    inspect is_taken next_low release is_available even_round even_loop allocate_even free pop
run_tests = 0

last_four_order : free last_four ≡ 65532 ∷ 65534 ∷ 65533 ∷ 65535 ∷ []
unfolding run_tests
last_four_order = refl

high-last_four : last_four.high ≡ 65536
unfolding run_tests
high-last_four = refl

last_four-IsValid : IsValid last_four
unfolding last_four
last_four-IsValid =
    (create-IsValid random 65532 65535 65532 (omega arith) (omega arith) (omega arith)).1

one_pair : PortTable
one_pair = (allocate_even true false 0 last_four).1

one_pair-IsValid : IsValid one_pair
unfolding one_pair
one_pair-IsValid =
    allocate_even-IsValid true false 0 last_four last_four-IsValid (rw high-last_four (omega arith))

high-one_pair : one_pair.high ≡ 65536
unfolding run_tests one_pair
high-one_pair = refl

two_pairs : PortTable
two_pairs = (allocate_even true false 0 one_pair).1

high-two_pairs : two_pairs.high ≡ 65536
unfolding run_tests two_pairs one_pair
high-two_pairs = refl

free-two_pairs : free two_pairs ≡ []
unfolding run_tests two_pairs one_pair
free-two_pairs = refl

size-two_pairs : size two_pairs ≡ 2
unfolding run_tests two_pairs one_pair
size-two_pairs = refl

two_pairs-IsValid : IsValid two_pairs
unfolding two_pairs
two_pairs-IsValid =
    allocate_even-IsValid true false 0 one_pair one_pair-IsValid (rw high-one_pair (omega arith))

stop-two_pairs : two_pairs.range_stop ≡ 0xffff
unfolding run_tests two_pairs one_pair
stop-two_pairs = refl

first_port : allocate last_four ≡ (some 65532, (allocate last_four).1)
unfolding run_tests
first_port = refl

-- The table after one allocation.
held : PortTable
held = (allocate last_four).1

held-IsValid : IsValid held
unfolding held
held-IsValid = (allocate-Popped last_four last_four-IsValid).valid

high-held : held.high ≡ 65536
unfolding run_tests held
high-held = refl

low-held : held.low ≡ 65533
unfolding run_tests held
low-held = refl

held-HasRoom : HasRoom held
held-HasRoom = omega (arith, high-held, low-held)

abbrev four_below : PortTable
four_below = record {
  status = λ i. if leb 100 i && leb i 103 then i else 0xffff_ffff;
  low = 100;
  high = 104;
  range_start = 100;
  range_stop = 103;
  ports = λ i. i;
}

create-IsValid_example :
    (create random 65532 65535 ≡ some (init random 65532 65535))
    × IsValid (init random 65532 65535)
    × (contains (free (init random 65532 65535)) 65534 ≡ true)
create-IsValid_example =
    create-IsValid random 65532 65535 65534 (omega arith) (omega arith) (omega arith)

allocate_refines_example :
    ((allocate last_four).0, free (allocate last_four).1) ≡ pop (free last_four)
allocate_refines_example = allocate_refines last_four last_four-IsValid

release_refines_example : free (release held 65532) ≡ (
    if leb held.range_start 65532 && leb 65532 held.range_stop && not (contains (free held) 65532)
    then free held ++ (65532 ∷ [])
    else free held)
release_refines_example = release_refines held 65532 held-IsValid held-HasRoom

operations-IsValid_example :
    IsValid (allocate held).1
    × IsValid (release held 65532)
    × IsValid (allocate_even true true 5 held).1
operations-IsValid_example =
    operations-IsValid true true 5 65532 held held-IsValid held-HasRoom (rw high-held (omega arith))

allocate_even_takes_runs : (allocate_even true true 7 four_below).0 ≡ some (100, some (101, 104, 7))
unfolding run_tests
allocate_even_takes_runs = refl

allocate_even_frees_last_example :
    (is_taken (two_pairs.status 0xffff) ≡ true)
    × ((allocate_even true false 0 two_pairs).0 ≡ none)
    × (free (allocate_even true false 0 two_pairs).1 ≡ 0xffff ∷ [])
allocate_even_frees_last_example =
    allocate_even_frees_last true false 0 two_pairs two_pairs-IsValid
      (rw high-two_pairs (omega arith)) stop-two_pairs free-two_pairs
      (rw size-two_pairs (omega arith))
