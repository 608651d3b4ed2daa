-- ===== src/Time/Clock.antt =====
-- kernel/time/clock.c: the list of events. An event is known by its address. `freed` is what the memory of
-- an event holds after `kfree`, and `returns` tells of a callback whether it comes back: the
-- scheduler's goes on in another task. A callback leaves the list as it is.
pub mod Step
pub mod Single
pub mod Countdown
mod Tests
use brackos.Base.{
  ℕ, zero, suc, ◌+◌, ◌-◌, ◌%◌, ◌^◌, Bool, true, false, ◌||◌, List, [], ◌∷◌, leb, ◌==◌,
  if◌then◌else◌,
}
use brackos.Base.Outcome.{Outcome, ok, fault, out_of_fuel, ◌>>=◌}
use brackos.Base.Word.{sub32}

abbrev pub null : ℕ
null = 0

pub data ClockType : Type 0 where
  countdown : ClockType
  once_off : ClockType

-- `clock_event_t`; `counter` is a 32-bit pattern.
pub record ClockEvent : Type 0 where
  pub prev : ℕ
  pub next : ℕ
  pub callback : ℕ
  pub counter : ℕ
  pub initial : ℕ
  pub type : ClockType

-- `root`, memory, the blocks that `kmalloc` hands out, and the callbacks that were called, the last one
-- first; `gone` says that the last of them has not come back
pub record Clock : Type 0 where
  pub heap : ℕ → ClockEvent
  pub root : ℕ
  pub blocks : List ℕ
  pub calls : List ℕ
  pub gone : Bool

abbrev pub put : ℕ → ClockEvent → Clock → Clock
put p e s = record s { heap = λ q. if q == p then e else s.heap q }

-- the test `current->counter <= 0` of an `int32_t`
abbrev pub is_due : ℕ → Bool
is_due counter = counter == 0 || leb (2 ^ 31) counter

-- the case `CLOCK_ONCE_OFF`
unfoldable pub delete_event : (freed : ℕ → ClockEvent) → (current : ℕ) → Clock → Clock
delete_event freed current s =
    let e = s.heap current in
    let s1 =
      if e.prev == null then s else put e.prev (record (s.heap e.prev) { next = e.next }) s in
    let s2 =
      if e.next == null then s1 else put e.next (record (s1.heap e.next) { prev = e.prev }) s1 in
    let s3 = if current == s2.root then record s2 { root = (s2.heap current).next } else s2 in
    put current (freed current) s3

-- the `switch` over the event's type
unfoldable pub rearm : ClockType → (freed : ℕ → ClockEvent) → (current : ℕ) → Clock → Clock
rearm countdown freed current s =
    put current (record (s.heap current) { counter = (s.heap current).initial }) s
rearm once_off freed current s = delete_event freed current s

-- the loop of `clock_advance`
unfoldable pub advance_from :
    (freed : ℕ → ClockEvent)
    → (returns : ℕ → Bool) → (amount fuel current : ℕ) → Clock
    → Outcome Clock
advance_from freed returns amount zero current s = out_of_fuel
advance_from freed returns amount (suc fuel) current s =
    let e = s.heap current in
    let counter = sub32 e.counter amount in
    let s1 = put current (record e { counter = counter }) s in
    let s2 = rearm e.type freed current s1 in
    let s3 = record s2 { calls = e.callback ∷ s2.calls } in
    let s4 = if is_due counter then s3 else s1 in
    let rest = advance_from freed returns amount fuel (s4.heap current).next s4 in
    if current == null
    then ok s
    else if is_due counter
    then (if returns e.callback then rest else ok (record s3 { gone = true }))
    else rest

unfoldable pub clock_advance :
    (freed : ℕ → ClockEvent) → (returns : ℕ → Bool) → (fuel amount : ℕ) → Clock → Outcome Clock
clock_advance freed returns fuel amount s = advance_from freed returns amount fuel s.root s

-- `clock_add` from `root = event` on
abbrev pub set_root : (time callback event : ℕ) → Clock → ℕ × Clock
set_root time callback event s = (
  event,
  record (put event (record (s.heap event) { initial = time; counter = time; callback = callback })
      s) { root = event },
)

-- The memory that `kmalloc` gives holds anything: what is there stays where the code does not write.
unfoldable pub clock_add : (time callback : ℕ) → Clock → Outcome (ℕ × Clock)
clock_add time callback s = elim s.blocks [
  | [] ↦ ok (null, s)
  | event ∷ blocks ↦
      let s0 = record s { blocks = blocks } in
      let before = (s.heap s.root).prev in
      let e = s.heap event in
      if s.root == null
      then ok (set_root time callback event (put event (record e { next = null; prev = null }) s0))
      else if before == null
      then fault
      else ok (
          set_root time callback event (
            let s1 = put event (record e { prev = before }) s0 in
            let s2 = put before (record (s1.heap before) { next = event }) s1 in
            let s3 = put s.root (record (s2.heap s.root) { prev = event }) s2 in
            put event (record (s3.heap event) { next = s.root }) s3))
]

-- `event->type = kind`, where there is an event
abbrev pub typed : ClockType → ℕ × Clock → Bool × Clock
typed kind (event, s) =
    if event == null
    then (false, s)
    else (true, put event (record (s.heap event) { type = kind }) s)

unfoldable pub clock_add_countdown : (time callback : ℕ) → Clock → Outcome (Bool × Clock)
clock_add_countdown time callback s = clock_add time callback s >>= λ r. ok (typed countdown r)

unfoldable pub clock_add_once_off : (time callback : ℕ) → Clock → Outcome (Bool × Clock)
clock_add_once_off time callback s = clock_add time callback s >>= λ r. ok (typed once_off r)

unfoldable pub clock_init : Clock → Clock
clock_init s = record s { root = null }
