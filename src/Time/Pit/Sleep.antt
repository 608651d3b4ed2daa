-- ===== src/Time/Pit/Sleep.antt =====
-- arch/i386/time/pit.c: what the timer is set to, and how long pit_sleep waits.
use native.Mathlib.Nat.{
  mul-le-mul_left, mul-le-mul_right, div-mul-le_self, lt-mul-div-succ, div-eq_of_lt,
}
use brackos.Base.{
  ℕ, zero, suc, ◌+◌, ◌-◌, ◌*◌, ◌/◌, ◌%◌, ◌^◌, ◌≤◌, ◌<◌, ◌≡◌, ◌≢◌, refl, ◌⊎◌, Bool, true, false, ◌∷◌,
  leb, ◌==◌, if◌then◌else◌, Bool-cases, inl, inr, arith,
}
use brackos.Base.Outcome.{Outcome, ok, fault, out_of_fuel, ◌>>=◌, Returns, returns, Returns-bind}
use brackos.Time.Clock.{Clock, ClockEvent, clock_advance}
use brackos.Time.Pit.{
  Pit, base_freq, pit_cmd_send, pit_data_send, pit_start, pit_handle_interrupt, wait, pit_sleep,
}

-- The command, then the low and the high byte of `divisor`, to channel 0.
pub record Started (frequency : ℕ) (s t : Pit) : Type 0 where
  pub low : ℕ
  pub high : ℕ
  pub sent : t.ports ≡ ((64, high) ∷ ((64, low) ∷ ((67, 54) ∷ s.ports)))
  pub bytes : (low < 256) × (high < 256)
  pub divides :
      ((19 ≤ frequency) × (low + 256 * high ≡ base_freq / frequency))
      ⊎ ((frequency < 19) × (low + 256 * high < base_freq / frequency))
  pub per_tick : t.ms_per_tick ≡ 1000 / frequency
  pub clock : t.clock ≡ s.clock
  pub sleep : t.sleep_counter ≡ s.sleep_counter

divisor_lem :
    (f : ℕ)
    → 0 < f
    → f < 2 ^ 16
    → ((19 ≤ f) × (base_freq / f % 2 ^ 16 ≡ base_freq / f))
      ⊎ ((f < 19) × (base_freq / f % 2 ^ 16 < base_freq / f))
divisor_lem f p l =
    let q = base_freq / f in
    elim (Bool-cases (leb 19 f)) [
      | inl e ↦
          let h : 19 ≤ f = ground arith in
          inl (h, omega (arith, mul-le-mul_left q h, div-mul-le_self base_freq f))
      | inr e ↦
          let h : f ≤ 18 = ground arith in
          inr (omega arith, omega (arith, mul-le-mul_right (q + 1) h, lt-mul-div-succ base_freq p))
    ]

bytes_lem : (d : ℕ) → d < 2 ^ 16 → d % 256 + 256 * (d / 256 % 256) ≡ d
bytes_lem d l = omega arith

-- `pit_start` of a frequency other than 0 sends the timer the command and the two bytes of the divisor.
-- They are the base frequency divided by it from 19 on; for less they are too small, since the
-- quotient does not fit into 16 bits.
pub pit_start-Started :
    (frequency : ℕ) (s : Pit)
    → 0 < frequency
    → frequency < 2 ^ 16
    → Returns (Started frequency s) (pit_start frequency s)
unfolding pit_start pit_cmd_send pit_data_send
pit_start-Started frequency s p l =
    let z : (frequency == 0) ≡ false = ground arith in
    rw z (
      returns record {
        low = base_freq / frequency % 2 ^ 16 % 256;
        high = base_freq / frequency % 2 ^ 16 / 256 % 256;
        sent = refl;
        bytes = (omega arith, omega arith);
        divides =
            rw (bytes_lem (base_freq / frequency % 2 ^ 16) (omega arith))
              (divisor_lem frequency p l);
        per_tick = refl;
        clock = refl;
        sleep = refl;
      })

module _ (freed : ℕ → ClockEvent) (back : ℕ → Bool) (fuel : ℕ) where
  module _ (Fine : Clock → Type 0)
      (step : (amount : ℕ) (c : Clock)
        → Fine c
        → Returns
            (λ d. Fine d × (d.gone ≡ false))
            (clock_advance freed back fuel amount (record c { gone = false }))) where
    interrupt :
        (s : Pit)
        → Fine s.clock
        → Returns
            (λ t. Fine t.clock × (t.sleep_counter ≡ s.sleep_counter - 1))
            (pit_handle_interrupt freed back fuel s)
    unfolding pit_handle_interrupt
    interrupt s f = Returns-bind (step s.ms_per_tick s.clock f) λ c g. stays c g.0 (c.gone) g.1
      where
        stays :
            (c : Clock)
            → Fine c
            → (b : Bool) → b ≡ false
            → Returns
                (λ t. Fine t.clock × (t.sleep_counter ≡ s.sleep_counter - 1))
                (if b
                  then ok (record s { clock = c })
                  else ok (record s { clock = c; sleep_counter = s.sleep_counter - 1 }))
        stays c f true e = absurd (let g = e in cc)
        stays c f false e = returns (f, refl)

    -- The wait `r` returns with more rounds than `count`, and only then.
    abbrev EndsAt : (count rounds : ℕ) → Outcome Pit → Type 0
    EndsAt count rounds r =
        ((count < rounds) × Returns (λ t. Fine t.clock × (t.sleep_counter ≡ 0)) r)
        ⊎ ((rounds ≤ count) × (r ≡ out_of_fuel))

    one_more :
        (rounds count : ℕ) (r : Outcome Pit)
        → 0 < count
        → ((s : Pit) → Fine s.clock → EndsAt s.sleep_counter rounds (wait freed back fuel rounds s))
        → Returns (λ t. Fine t.clock × (t.sleep_counter ≡ count - 1)) r
        → EndsAt count (suc rounds) (r >>= wait freed back fuel rounds)
    one_more rounds count r p ends (returns {a} g) = go (ends a g.0)
      where
        go :
            EndsAt a.sleep_counter rounds (wait freed back fuel rounds a)
            → EndsAt count (suc rounds) (wait freed back fuel rounds a)
        go (inl h) = let e = g.1 in inl (omega arith, h.1)
        go (inr h) = let e = g.1 in inr (omega arith, h.1)

    wait-ends :
        (rounds : ℕ) (s : Pit)
        → Fine s.clock
        → EndsAt s.sleep_counter rounds (wait freed back fuel rounds s)
    unfolding wait
    wait-ends zero s f = inr (omega arith, refl)
    wait-ends (suc rounds) s f = elim (Bool-cases (s.sleep_counter == 0)) [
      | inl z ↦ inl (ground arith, rw z (returns (f, ground arith)))
      | inr z ↦ rw z (
          one_more rounds s.sleep_counter (pit_handle_interrupt freed back fuel s) (ground arith)
            (wait-ends rounds) (interrupt s f))
    ]

    -- Where every advance of the clock comes back and keeps the clock `Fine`, `pit_sleep`, with no sleep
    -- running and a tick of at least one millisecond, ends just with the `ms / ms_per_tick`-th interrupt:
    -- with more rounds than that it returns, and with fewer it is still waiting.
    pub pit_sleep-ends :
        (rounds ms : ℕ) (s : Pit)
        → Fine s.clock
        → s.sleep_counter ≡ 0
        → s.ms_per_tick ≢ 0
        → ((ms / s.ms_per_tick < rounds)
            × Returns
                (λ t. Fine t.clock × (t.sleep_counter ≡ 0))
                (pit_sleep freed back fuel rounds ms s))
          ⊎ ((rounds ≤ ms / s.ms_per_tick) × (pit_sleep freed back fuel rounds ms s ≡ out_of_fuel))
    unfolding pit_sleep
    pit_sleep-ends rounds ms s f e n =
        let a : (s.sleep_counter == 0) ≡ true = ground arith in
        let b : (s.ms_per_tick == 0) ≡ false = ground arith in
        rw (a, b) (wait-ends rounds (record s { sleep_counter = ms / s.ms_per_tick }) f)

-- Behind `pit_start` of more than 1000 Hz a tick has no milliseconds, and each `pit_sleep` divides by 0.
pub pit_sleep-fault :
    (freed : ℕ → ClockEvent) (back : ℕ → Bool) (fuel rounds ms frequency : ℕ) (s : Pit)
    → s.sleep_counter ≡ 0
    → 1000 < frequency
    → (pit_start frequency s >>= pit_sleep freed back fuel rounds ms) ≡ fault
unfolding pit_start pit_sleep pit_cmd_send pit_data_send
pit_sleep-fault freed back fuel rounds ms frequency s e l =
    let z : (frequency == 0) ≡ false = ground arith in
    let a : (s.sleep_counter == 0) ≡ true = ground arith in
    let d : 1000 / frequency ≡ 0 = div-eq_of_lt l in rw (z, a, d) refl
