-- ===== src/Time/Clock/Tests.antt =====
-- Runs of kernel/time/clock.c, and the theorems at a clock with one countdown.
use brackos.Base.{ℕ, ◌≡◌, refl, true, false, List, [], ◌∷◌, ◌++◌, arith}
use brackos.Base.Outcome.{Outcome, ok, fault, Returns}
use brackos.Time.Clock.{
  Clock, ClockEvent, countdown, null, typed, advance_from, clock_advance, clock_add,
  clock_add_countdown, clock_add_once_off, clock_init, rearm,
}
use brackos.Time.Clock.Step.{first_event}
use brackos.Time.Clock.Single.{Reached, begins, countdowns, clock_add-second}
use brackos.Time.Clock.Countdown.{Counting, ticks, ticks-Counting}

abbrev blank : ClockEvent
blank = record { prev = 0; next = 0; callback = 0; counter = 0; initial = 0; type = countdown }

abbrev empty : Clock
empty = record { heap = λ q. blank; root = 5; blocks = 64 ∷ (96 ∷ []); calls = []; gone = false }

-- One countdown of 10 ms, with the callback 7.
abbrev one : Clock
one = (typed countdown (64, first_event 10 7 64 (96 ∷ []) (record empty { root = null }))).1

calls_of : Outcome Clock → List ℕ
calls_of (ok s) = s.calls
calls_of other = []

fires_twice :
    calls_of (ticks (λ q. blank) (λ c. true) 0 (4 ∷ (4 ∷ (4 ∷ (6 ∷ (4 ∷ []))))) one) ≡ 7 ∷ (7 ∷ [])
unfolding calls_of ticks clock_advance advance_from rearm
fires_twice = refl

made : clock_add_countdown 10 7 (clock_init empty) ≡ ok (true, one)
unfolding clock_add_countdown clock_add clock_init
made = refl

one-Reached : Reached (λ q. blank) one
one-Reached = countdowns 10 7 true (begins empty) made

clock_add-second_example :
    ((one.heap one.root).prev ≡ null)
    × ((one.heap one.root).next ≡ null)
    × (clock_add_countdown 2 9 one ≡ fault)
    × (clock_add_once_off 2 9 one ≡ fault)
clock_add-second_example =
    clock_add-second (λ q. blank) one 2 9 96 [] (λ q. refl) one-Reached (omega arith) refl

one-Counting : Counting 64 7 10 10 [] one
one-Counting = record {
  root = refl;
  event = omega arith;
  next = refl;
  calls_back = refl;
  starts = refl;
  left = refl;
  type = refl;
  called = refl;
}

ticks-Counting_example :
    Returns
      (Counting 64 7 10 10 (7 ∷ []))
      (ticks (λ q. blank) (λ c. true) 0 ((4 ∷ (4 ∷ [])) ++ (4 ∷ [])) one)
ticks-Counting_example =
    ticks-Counting (λ q. blank) (λ c. true) 0 64 7 10 [] 10 4 (4 ∷ (4 ∷ [])) one (omega arith)
      (omega arith) (omega arith) (omega arith) one-Counting
