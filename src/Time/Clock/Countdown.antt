-- ===== src/Time/Clock/Countdown.antt =====
-- kernel/time/clock.c: when a countdown calls its callback.
use mathlib.Core.Path.{subst}
use brackos.Base.{
  ℕ, suc, ◌+◌, ◌-◌, ◌≤◌, ◌<◌, ◌^◌, ◌≡◌, ◌≢◌, sym, Bool, true, false, List, [], ◌∷◌, ◌++◌, ◌==◌,
  Bool-cases, inl, inr, arith,
}
use brackos.Base.Outcome.{Outcome, ok, ◌>>=◌, Returns, returns, Returns-bind}
use brackos.Base.Word.{sub32}
use brackos.Time.Clock.{
  Clock, ClockEvent, countdown, null, is_due, rearm, advance_from, clock_advance,
}
use brackos.Time.Clock.Step.{
  lowered, called, advance-at_null, advance-later, advance-back, advance-away,
}

-- The list is the countdown `p` of `initial`, with `counter` to go; `calls` were called.
pub record Counting (p callback initial counter : ℕ) (calls : List ℕ) (s : Clock) : Type 0 where
  pub root : s.root ≡ p
  pub event : p ≢ null
  pub next : (s.heap p).next ≡ null
  pub calls_back : (s.heap p).callback ≡ callback
  pub starts : (s.heap p).initial ≡ initial
  pub left : (s.heap p).counter ≡ counter
  pub type : (s.heap p).type ≡ countdown
  pub called : s.calls ≡ calls

-- how long some ticks are together
abbrev pub total : List ℕ → ℕ
total [] = 0
total (a ∷ ts) = a + total ts

module _ (freed : ℕ → ClockEvent) (back : ℕ → Bool) (fuel : ℕ) where
  -- `clock_advance` by each amount of a list
  unfoldable pub ticks : List ℕ → Clock → Outcome Clock
  ticks [] s = ok s
  ticks (a ∷ ts) s = clock_advance freed back (suc (suc fuel)) a s >>= ticks ts

  module _ (p callback initial : ℕ) (calls : List ℕ) where
    round-waits :
        (counter amount : ℕ) (s : Clock)
        → counter < 2 ^ 31
        → amount < counter
        → Counting p callback initial counter calls s
        → Returns
            (Counting p callback initial (counter - amount) calls)
            (advance_from freed back amount (suc (suc fuel)) p s)
    round-waits counter amount s small less c =
        let l = c.left in
        let d : is_due (sub32 (s.heap p).counter amount) ≡ false = ground arith in
        rw
          (
            advance-later freed back amount (suc fuel) p s c.event d,
            advance-at_null freed back amount fuel (s.heap p).next (lowered freed back amount p s)
                c.next,
          )
          (returns record {
            root = c.root;
            event = c.event;
            next = ground (arith, c.next);
            calls_back = ground (arith, c.calls_back);
            starts = ground (arith, c.starts);
            left = ground arith;
            type = ground (arith, c.type);
            called = c.called;
          })

    round-fires :
        (counter amount : ℕ) (s : Clock)
        → counter ≤ amount
        → amount < 2 ^ 31
        → Counting p callback initial counter calls s
        → Returns
            (Counting p callback initial initial (callback ∷ calls))
            (advance_from freed back amount (suc (suc fuel)) p s)
    unfolding rearm
    round-fires counter amount s reached small c = elim (Bool-cases (back (s.heap p).callback)) [
      | inl b ↦
          rw
            (
              advance-back freed back amount (suc fuel) p s c.event d b,
              advance-at_null freed back amount fuel ((called freed back amount p s).heap p).next
                  (called freed back amount p s) fired.next,
            )
            (returns fired)
      | inr b ↦
          rw (advance-away freed back amount (suc fuel) p s c.event d b) (returns (gone fired))
    ]
      where
        gone :
            {t : Clock}
            → Counting p callback initial initial (callback ∷ calls) t
            → Counting p callback initial initial (callback ∷ calls) (record t { gone = true })
        gone h = record {
          root = h.root;
          event = h.event;
          next = h.next;
          calls_back = h.calls_back;
          starts = h.starts;
          left = h.left;
          type = h.type;
          called = h.called;
        }

        d : is_due (sub32 (s.heap p).counter amount) ≡ true
        d = let l = c.left in ground arith

        fired :
            Counting p callback initial initial (callback ∷ calls) (called freed back amount p s)
        fired =
            let same : (p == p) ≡ true = ground arith in
            rw (c.type, same)
              record {
                root = c.root;
                event = c.event;
                next = ground (arith, c.next);
                calls_back = ground (arith, c.calls_back);
                starts = ground (arith, c.starts);
                left = ground (arith, c.starts);
                type = ground arith;
                called = ground (arith, c.called, c.calls_back);
              }

    tick-waits :
        (counter amount : ℕ) (s : Clock)
        → counter < 2 ^ 31
        → amount < counter
        → Counting p callback initial counter calls s
        → Returns
            (Counting p callback initial (counter - amount) calls)
            (clock_advance freed back (suc (suc fuel)) amount s)
    unfolding clock_advance
    tick-waits counter amount s small less c =
        subst
          (λ q.
            Returns (Counting p callback initial (counter - amount) calls)
              (advance_from freed back amount (suc (suc fuel)) q s))
          (sym c.root) (round-waits counter amount s small less c)

    tick-fires :
        (counter amount : ℕ) (s : Clock)
        → counter ≤ amount
        → amount < 2 ^ 31
        → Counting p callback initial counter calls s
        → Returns
            (Counting p callback initial initial (callback ∷ calls))
            (clock_advance freed back (suc (suc fuel)) amount s)
    unfolding clock_advance
    tick-fires counter amount s reached small c =
        subst
          (λ q.
            Returns (Counting p callback initial initial (callback ∷ calls))
              (advance_from freed back amount (suc (suc fuel)) q s))
          (sym c.root) (round-fires counter amount s reached small c)

    -- A lone countdown with `counter` to go waits through all ticks that come to less than `counter`, and
    -- the tick that reaches it calls the callback, once, and starts the countdown again at `initial`.
    pub ticks-Counting :
        (counter last : ℕ) (ts : List ℕ) (s : Clock)
        → counter < 2 ^ 31
        → last < 2 ^ 31
        → total ts < counter
        → counter ≤ total ts + last
        → Counting p callback initial counter calls s
        → Returns
            (Counting p callback initial initial (callback ∷ calls))
            (ticks (ts ++ (last ∷ [])) s)
    unfolding ticks
    ticks-Counting counter last [] s small tick before after c =
        Returns-bind (tick-fires counter last s (omega arith) tick c) λ t d. returns d
    ticks-Counting counter last (a ∷ ts) s small tick before after c =
        Returns-bind (tick-waits counter a s small (omega arith) c) λ t d.
          ticks-Counting (counter - a) last ts t (omega arith) tick (omega arith) (omega arith) d
