-- ===== src/Time/Clock/Single.antt =====
-- kernel/time/clock.c: the list never holds more than one event.
use mathlib.Core.Path.{subst}
use brackos.Base.{
  ℕ, zero, suc, ◌≡◌, ◌≢◌, refl, sym, ap, ◌∙◌, ◌⊎◌, Bool, true, false, List, ◌∷◌, ◌==◌, Bool-cases,
  inl, inr, arith,
}
use brackos.Base.Outcome.{Outcome, ok, fault, hang, out_of_fuel, ◌>>=◌, ok-injective}
use brackos.Base.Word.{sub32}
use brackos.Time.Clock.{
  Clock, ClockEvent, ClockType, countdown, once_off, null, typed, is_due, rearm, advance_from,
  clock_advance, clock_add, clock_add_countdown, clock_add_once_off, clock_init,
}
use brackos.Time.Clock.Step.{
  AtMostOne, clock_add-fault, clock_add-cases, first_event, delete_root, advance-null, lowered,
  called, advance-later, advance-back, advance-away,
}

module _ (freed : ℕ → ClockEvent) (kept : (q : ℕ) → (freed q).next ≡ null) where
  rearm-AtMostOne :
      (k : ClockType) (s : Clock)
      → (s.heap s.root).prev ≡ null
      → (s.heap s.root).next ≡ null
      → AtMostOne (rearm k freed s.root s) × (((rearm k freed s.root s).heap s.root).next ≡ null)
  unfolding rearm
  rearm-AtMostOne countdown s e f = (inr (ground arith), ground arith)
  rearm-AtMostOne once_off s e f =
      rw (delete_root freed s e f) (inl refl, ground (arith, kept s.root))

  module _ (returns : ℕ → Bool) (amount : ℕ) where
    one-AtMostOne :
        (fuel : ℕ) (s t : Clock)
        → s.root ≢ null
        → (s.heap s.root).prev ≡ null
        → (s.heap s.root).next ≡ null
        → advance_from freed returns amount fuel s.root s ≡ ok t
        → AtMostOne t
    unfolding advance_from
    one-AtMostOne zero s t n p e h = cc
    one-AtMostOne (suc fuel) s t n p e h =
        elim (Bool-cases (is_due (sub32 (s.heap s.root).counter amount))) [
          | inl d ↦ ran d (Bool-cases (returns (s.heap s.root).callback))
          | inr d ↦
              let g = sym (advance-later freed returns amount fuel s.root s n d) ∙ h in
              subst AtMostOne
                (sym (advance-null freed returns amount fuel (s.heap s.root).next _ t e g))
                (inr (ground arith, ground arith))
        ]
      where
        r :
            AtMostOne (called freed returns amount s.root s)
            × (((called freed returns amount s.root s).heap s.root).next ≡ null)
        r =
            rearm-AtMostOne (s.heap s.root).type (lowered freed returns amount s.root s)
              (ground arith) (ground arith)

        ran :
            is_due (sub32 (s.heap s.root).counter amount) ≡ true
            → (returns (s.heap s.root).callback ≡ true) ⊎ (returns (s.heap s.root).callback ≡ false)
            → AtMostOne t
        ran d (inl b) =
            let g = sym (advance-back freed returns amount fuel s.root s n d b) ∙ h in
            subst AtMostOne
              (sym (
                advance-null freed returns amount fuel
                  ((called freed returns amount s.root s).heap s.root).next
                  (called freed returns amount s.root s) t r.1 g))
              r.0
        ran d (inr b) =
            subst AtMostOne
              (ok-injective (sym (advance-away freed returns amount fuel s.root s n d b) ∙ h)) r.0

    advance-AtMostOne :
        (fuel : ℕ) (s t : Clock)
        → AtMostOne s
        → clock_advance freed returns fuel amount s ≡ ok t
        → AtMostOne t
    unfolding clock_advance
    advance-AtMostOne fuel s t (inl z) e =
        inl (
          subst (λ u. u.root ≡ null) (sym (advance-null freed returns amount fuel s.root s t z e))
            z)
    advance-AtMostOne fuel s t (inr h) e = elim (Bool-cases (s.root == null)) [
      | inl z ↦ inl (
          subst (λ u. u.root ≡ null)
            (sym (advance-null freed returns amount fuel s.root s t (ground arith) e))
            (ground arith))
      | inr z ↦ one-AtMostOne fuel s t (ground arith) h.0 h.1 e
    ]

-- the states that `clock_init` and then calls lead to; `freed` is what freed events hold
pub data Reached (freed : ℕ → ClockEvent) : Clock → Type 0 where
  begins : (s : Clock) → Reached freed (clock_init s)
  countdowns :
      {s t : Clock} (time callback : ℕ) (answer : Bool)
      → Reached freed s
      → clock_add_countdown time callback s ≡ ok (answer, t)
      → Reached freed t
  once_offs :
      {s t : Clock} (time callback : ℕ) (answer : Bool)
      → Reached freed s
      → clock_add_once_off time callback s ≡ ok (answer, t)
      → Reached freed t
  advances :
      {s t : Clock} (returns : ℕ → Bool) (fuel amount : ℕ)
      → Reached freed s
      → clock_advance freed returns fuel amount s ≡ ok t
      → Reached freed t

add-AtMostOne :
    (time callback p : ℕ) (s t : Clock)
    → AtMostOne s
    → clock_add time callback s ≡ ok (p, t)
    → AtMostOne t
add-AtMostOne time callback p s t h e = go (clock_add-cases time callback s h)
  where
    go :
        (clock_add time callback s ≡ ok (null, s))
          ⊎ ((s.root ≢ null) × (clock_add time callback s ≡ fault))
          ⊎ ((q : ℕ) × (ps : List ℕ) × (clock_add time callback s
                ≡ ok (q, first_event time callback q ps s)))
        → AtMostOne t
    go (inl f) = subst AtMostOne (ap (λ r. r.1) (ok-injective (sym f ∙ e))) h
    go (inr (inl f)) = let g = sym f.1 ∙ e in cc
    go (inr (inr (q, ps, f))) =
        subst AtMostOne (ap (λ r. r.1) (ok-injective (sym f ∙ e)))
          (inr (ground arith, ground arith))

bind-ok :
    {A B : Type 0} (m : Outcome A) (f : A → B) (b : B)
    → (m >>= λ a. ok (f a)) ≡ ok b
    → (a : A) × (m ≡ ok a) × (f a ≡ b)
bind-ok (ok a) f b e = (a, refl, ok-injective e)
bind-ok fault f b e = absurd (let g = e in cc)
bind-ok hang f b e = absurd (let g = e in cc)
bind-ok out_of_fuel f b e = absurd (let g = e in cc)

typed-AtMostOne :
    (kind : ClockType) (time callback : ℕ) (answer : Bool) (s t : Clock)
    → AtMostOne s
    → (clock_add time callback s >>= λ r. ok (typed kind r)) ≡ ok (answer, t)
    → AtMostOne t
typed-AtMostOne kind time callback answer s t h e =
    let (r, made, f) = bind-ok (clock_add time callback s) (typed kind) (answer, t) e in
    subst AtMostOne (ap (λ g. g.1) f) (kept r.0 r.1 (add-AtMostOne time callback r.0 s r.1 h made))
  where
    kept : (p : ℕ) (u : Clock) → AtMostOne u → AtMostOne (typed kind (p, u)).1
    kept p u g = elim (Bool-cases (p == null)) [ inl z ↦ rw z g | inr z ↦ rw z (ground (arith, g)) ]

Reached-AtMostOne :
    (freed : ℕ → ClockEvent)
    → ((q : ℕ) → (freed q).next ≡ null)
    → {s : Clock} → Reached freed s
    → AtMostOne s
Reached-AtMostOne freed kept (begins s) = inl (unfold clock_init in refl)
Reached-AtMostOne freed kept (countdowns {s} {t} time callback answer r e) =
    typed-AtMostOne countdown time callback answer s t (Reached-AtMostOne freed kept r)
      (unfold clock_add_countdown in e)
Reached-AtMostOne freed kept (once_offs {s} {t} time callback answer r e) =
    typed-AtMostOne once_off time callback answer s t (Reached-AtMostOne freed kept r)
      (unfold clock_add_once_off in e)
Reached-AtMostOne freed kept (advances {s} {t} returns fuel amount r e) =
    advance-AtMostOne freed kept returns amount fuel s t (Reached-AtMostOne freed kept r) e

-- Where freed events keep their `next`, no call of the clock makes a list of more than one event: in
-- every state that the calls lead to, an event has no neighbour, and with memory for one more, adding
-- a second writes through NULL.
pub clock_add-second :
    (freed : ℕ → ClockEvent) (s : Clock) (time callback p : ℕ) (ps : List ℕ)
    → ((q : ℕ) → (freed q).next ≡ null)
    → Reached freed s
    → s.root ≢ null
    → s.blocks ≡ p ∷ ps
    → ((s.heap s.root).prev ≡ null)
      × ((s.heap s.root).next ≡ null)
      × (clock_add_countdown time callback s ≡ fault)
      × (clock_add_once_off time callback s ≡ fault)
unfolding clock_add_countdown clock_add_once_off
clock_add-second freed s time callback p ps kept r n b = go (Reached-AtMostOne freed kept r)
  where
    go :
        AtMostOne s
        → ((s.heap s.root).prev ≡ null)
          × ((s.heap s.root).next ≡ null)
          × (clock_add_countdown time callback s ≡ fault)
          × (clock_add_once_off time callback s ≡ fault)
    go (inl z) = absurd (n z)
    go (inr h) =
        let f = clock_add-fault time callback p ps s b n h.0 in (h.0, h.1, rw f refl, rw f refl)
