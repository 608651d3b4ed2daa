-- ===== src/Time/Pit.antt =====
-- arch/i386/time/pit.c: the timer that drives the clock. What the code writes to ports is a list of port
-- and byte, the newest first. The memory of freed events and the callbacks are as in Time/Clock.
pub mod Sleep
mod Tests
use brackos.Base.{
  ℕ, zero, suc, ◌+◌, ◌-◌, ◌*◌, ◌/◌, ◌%◌, ◌^◌, Bool, true, false, List, [], ◌∷◌, leb, ◌==◌,
  if◌then◌else◌,
}
use brackos.Base.Outcome.{Outcome, ok, fault, out_of_fuel, ◌>>=◌}
use brackos.Time.Clock.{Clock, ClockEvent, clock_advance}

-- `sleep_counter`, `ms_per_tick`, the clock's list and the ports
pub record Pit : Type 0 where
  pub clock : Clock
  pub sleep_counter : ℕ
  pub ms_per_tick : ℕ
  pub ports : List (ℕ × ℕ)

-- `pit_cmd_t`, its first field in the lowest bits
pub record PitCmd : Type 0 where
  pub bin_mode : ℕ
  pub operating_mode : ℕ
  pub access_mode : ℕ
  pub select_channel : ℕ

abbrev pub outportb : (port value : ℕ) → Pit → Pit
outportb port value s = record s { ports = (port, value) ∷ s.ports }

-- `PIT_CMD_CHAN` and `PIT_BASE_FREQ`
abbrev pub cmd_chan : ℕ
cmd_chan = 67

abbrev pub base_freq : ℕ
base_freq = 1193181

unfoldable pub pit_cmd_send : PitCmd → Pit → Pit
pit_cmd_send c s =
    outportb cmd_chan
      (c.bin_mode + c.operating_mode * 2 + c.access_mode * 16 + c.select_channel * 64) s

-- `inportb` is what the ports answer.
unfoldable pub pit_data_read : (inportb : ℕ → ℕ) → (channel : ℕ) → ℕ
pit_data_read inportb channel =
    if channel == 0
    then inportb 64
    else if channel == 1
    then inportb 65
    else if channel == 2
    then inportb 66
    else 0

unfoldable pub pit_data_send : (channel value : ℕ) → Pit → Pit
pit_data_send channel value s =
    if channel == 0
    then outportb 64 value s
    else if channel == 1
    then outportb 65 value s
    else if channel == 2
    then outportb 66 value s
    else s

unfoldable pub pit_start : (frequency : ℕ) → Pit → Outcome Pit
pit_start frequency s =
    let divisor = base_freq / frequency % 2 ^ 16 in
    let c : PitCmd = record {
      bin_mode = 0;
      operating_mode = 3;
      access_mode = 3;
      select_channel = 0;
    } in
    let s1 = pit_cmd_send c s in
    let s2 = pit_data_send 0 (divisor % 256) s1 in
    let s3 = pit_data_send 0 (divisor / 256 % 256) s2 in
    if frequency == 0 then ok s else ok (record s3 { ms_per_tick = 1000 / frequency })

-- without its `irq_register`
unfoldable pub pit_init : Pit → Outcome Pit
pit_init s = pit_start 500 s >>= λ t. ok (record t { sleep_counter = 0 })

module _ (freed : ℕ → ClockEvent) (back : ℕ → Bool) (fuel : ℕ) where
  unfoldable pub pit_handle_interrupt : Pit → Outcome Pit
  pit_handle_interrupt s =
      clock_advance freed back fuel s.ms_per_tick (record s.clock { gone = false }) >>= λ c.
      let t = record s { clock = c } in
      if c.gone then ok t else ok (record t { sleep_counter = s.sleep_counter - 1 })

  -- the last loop of `pit_sleep`: a round ends with an interrupt of the timer
  unfoldable pub wait : (rounds : ℕ) → Pit → Outcome Pit
  wait zero s = out_of_fuel
  wait (suc rounds) s =
      let rest = pit_handle_interrupt s >>= wait rounds in
      if s.sleep_counter == 0 then ok s else rest

  unfoldable pub pit_sleep : (rounds ms : ℕ) → Pit → Outcome Pit
  pit_sleep rounds ms s =
      if s.sleep_counter == 0
      then (if s.ms_per_tick == 0
          then fault
          else wait rounds (record s { sleep_counter = ms / s.ms_per_tick }))
      else ok s
