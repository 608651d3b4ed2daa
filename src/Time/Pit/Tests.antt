-- ===== src/Time/Pit/Tests.antt =====
-- Runs of arch/i386/time/pit.c, and the theorems at a timer without events.
use brackos.Base.{ℕ, ◌/◌, ◌≤◌, ◌<◌, ◌≡◌, refl, ◌⊎◌, ◌==◌, true, false, [], ◌∷◌, arith}
use brackos.Base.Outcome.{ok, out_of_fuel, ◌>>=◌, Returns, returns}
use brackos.Time.Clock.{Clock, ClockEvent, countdown, clock_advance, advance_from}
use brackos.Time.Pit.{
  Pit, pit_cmd_send, pit_data_send, pit_start, pit_init, pit_handle_interrupt, wait, pit_sleep,
}
use brackos.Time.Pit.Sleep.{Started, pit_start-Started, pit_sleep-ends}

abbrev blank : ℕ → ClockEvent
blank q = record { prev = 0; next = 0; callback = 0; counter = 0; initial = 0; type = countdown }

abbrev still : Pit
still = record {
  clock = record { heap = blank; root = 0; blocks = []; calls = []; gone = false };
  sleep_counter = 0;
  ms_per_tick = 2;
  ports = [];
}

-- 500 Hz: the divisor 2386 is 9 and 82.
starts : (pit_init still >>= λ s. ok s.ports) ≡ ok ((64, 9) ∷ ((64, 82) ∷ ((67, 54) ∷ [])))
unfolding pit_init pit_start pit_cmd_send pit_data_send
starts = refl

sleeps : (pit_sleep blank (λ c. true) 1 6 10 still >>= λ s. ok s.sleep_counter) ≡ ok 0
unfolding pit_sleep wait pit_handle_interrupt clock_advance advance_from
sleeps = refl

pit_start-Started_instance : Returns (Started 500 still) (pit_start 500 still)
pit_start-Started_instance = pit_start-Started 500 still (omega arith) (omega arith)

abbrev NoEvent : Clock → Type 0
NoEvent c = c.root ≡ 0

stays :
    (amount : ℕ) (c : Clock)
    → NoEvent c
    → Returns
        (λ d. NoEvent d × (d.gone ≡ false))
        (clock_advance blank (λ q. true) 1 amount (record c { gone = false }))
unfolding clock_advance advance_from
stays amount c e = let a : (c.root == 0) ≡ true = ground arith in rw a (returns (e, refl))

pit_sleep-ends_example :
    ((10 / 2 < 6)
      × Returns
          (λ t. NoEvent t.clock × (t.sleep_counter ≡ 0))
          (pit_sleep blank (λ q. true) 1 6 10 still))
    ⊎ ((6 ≤ 10 / 2) × (pit_sleep blank (λ q. true) 1 6 10 still ≡ out_of_fuel))
pit_sleep-ends_example =
    pit_sleep-ends blank (λ q. true) 1 NoEvent stays 6 10 still refl refl (omega arith)
